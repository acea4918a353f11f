-- ===== src/Orchestrator/Spend.antt =====
-- orchestrator.py: the spend of a provider's call, the discard of a turn, and the budget's cap.
use mootloop.Base.{
  ℕ, suc, ◌+◌, Bool, true, false, ◌&&◌, Option, none, some, List, [], ◌∷◌, ◌++◌, map, Text, codes,
  text_eq_key, ◌==◌, if◌then◌else◌, nat_eq, leb, any, Result, ok, ◌>>=◌,
}
use mootloop.Base.Dict.{get_or}
use mootloop.Turn.{TurnSpec}
use mootloop.Journal.Events.{
  JournalEvent, spend_recorded, turn_discarded, run_finished, SpendRecorded, subscription, RunState,
  needs_attention, capped, is_finished,
}
use mootloop.Stages.Context.{TaskUnit}
use mootloop.Stages.Plan.Turns.{request_complete, first_incomplete_stage}
use mootloop.Budget.{TokenUsage, cost_of}
use mootloop.Orchestrator.{RunContext, Library, Op, ◌>>>◌, reads, emit, load_state, context_for}

-- The outcome of a derailed turn.
pub record DiscardedTurn : Type 0 where
  pub turn_id : Text
  pub reason : Text
  pub attempt : ℕ

module _ {Usd : Type 0} where
  -- What an event does to the earlier spends of a turn.
  unfoldable pub prior_with :
      Option Text → Text → List (SpendRecorded Usd) → JournalEvent Usd → List (SpendRecorded Usd)
  prior_with none turn_id prior (turn_discarded t reason attempt detail) =
      if t == turn_id then [] else prior
  prior_with call turn_id prior (spend_recorded e) =
      if e.turn_id == turn_id then prior ++ e ∷ [] else prior
  prior_with call turn_id prior _ = prior

  unfoldable pub prior_spends :
      Option Text
      → Text
      → List (SpendRecorded Usd)
      → List (JournalEvent Usd)
      → List (SpendRecorded Usd)
  unfolding prior_with
  prior_spends call turn_id prior [] = prior
  prior_spends call turn_id prior (event ∷ events) =
      prior_spends call turn_id (prior_with call turn_id prior event) events

  abbrev pub is_call : Text → SpendRecorded Usd → Bool
  is_call call e = elim e.provider_call_id [ none ↦ false | some c ↦ c == call ]

  -- The usage signature of a caller without an identity.
  unfoldable pub is_signed : TokenUsage → SpendRecorded Usd → Bool
  is_signed usage e =
      nat_eq e.input_tokens usage.input_tokens
      && (nat_eq e.cache_read usage.cache_read
          && (nat_eq e.cache_write usage.cache_write
              && (nat_eq e.output_tokens usage.output_tokens && e.model == usage.model)))

  -- An exact replay of a result that is on the ledger.
  unfoldable pub is_booked : Option Text → Text → TokenUsage → List (JournalEvent Usd) → Bool
  unfolding prior_spends is_signed
  is_booked (some call) turn_id usage events =
      any (is_call call) (prior_spends (some call) turn_id [] events)
  is_booked none turn_id usage events = any (is_signed usage) (prior_spends none turn_id [] events)

-- `model or usage.model`
unfoldable pub priced_model : Option Text → Text → Text
priced_model none reported = reported
priced_model (some []) reported = reported
priced_model (some (c ∷ s)) reported = c ∷ s

module _ {F Usd : Type 0} (lib : Library F Usd) (ctx : RunContext F Usd) where
  unfoldable pub spend_of : Text → TokenUsage → Option Text → Text → Option Text → SpendRecorded Usd
  unfolding cost_of priced_model
  spend_of turn_id usage model now call = record {
    turn_id = turn_id;
    input_tokens = usage.input_tokens;
    cache_read = usage.cache_read;
    cache_write = usage.cache_write;
    output_tokens = usage.output_tokens;
    model = usage.model;
    usd_equiv = cost_of lib.metering usage (priced_model model usage.model) (lib.date_of now);
    billing_mode = subscription;
    provider_call_id = call;
  }

  -- `_book_spend`
  unfoldable pub book_spend :
      Text → Option TokenUsage → Option Text → Text → (dedupe : Bool) → Option Text → Op Usd Unit
  unfolding spend_of is_booked emit
  book_spend turn_id none model now dedupe call files = (files, ok _)
  book_spend turn_id (some usage) model now dedupe call files =
      if dedupe && is_booked call turn_id usage files.events
      then (files, ok _)
      else emit (spend_recorded (spend_of turn_id usage model now call)) files

  unfoldable pub effective_max_attempts : RunState Usd → ℕ
  effective_max_attempts state = ctx.max_attempts + state.attempts_granted

  -- The discard event, and the halt of a turn that has spent its attempts.
  unfoldable pub discard_events : RunState Usd → TurnSpec → Text → Text → List (JournalEvent Usd)
  unfolding effective_max_attempts
  discard_events state spec reason detail =
      let attempt = suc (get_or spec.turn_id 0 state.discarded) in
      turn_discarded spec.turn_id reason attempt detail
      ∷ (if leb (effective_max_attempts state) attempt
          then run_finished needs_attention ∷ []
          else [])

  -- `_discard`
  unfoldable pub discard :
      TurnSpec → Text → Option TokenUsage → Text → Text → Option Text → Op Usd DiscardedTurn
  unfolding book_spend load_state discard_events ◌>>>◌
  discard spec reason usage now detail call =
      book_spend spec.turn_id usage spec.model now false call >>> λ booked files.
      let state = load_state lib ctx files in
      (
        record files { events = files.events ++ discard_events state spec reason detail },
        ok (record {
          turn_id = spec.turn_id;
          reason = reason;
          attempt = suc (get_or spec.turn_id 0 state.discarded);
        }),
      )

  unfoldable pub effective_cap : RunState Usd → Option Usd
  effective_cap state = elim state.cap_raised_to [
    | some raised ↦ some raised
    | none ↦ ctx.hard_cap_usd
  ]

  -- `sum(values)`, from the number zero.
  unfoldable pub sum_from : Usd → List Usd → Usd
  sum_from total [] = total
  sum_from total (x ∷ xs) = sum_from (lib.metering.floats.add total x) xs

  unfoldable pub projected : RunState Usd → Usd
  unfolding sum_from
  projected state =
      let f = lib.metering.floats in
      f.add state.total_spend_usd (sum_from (f.of_int 0) (map (λ e. e.1) state.pending_intents))

  unfoldable pub over_cap : RunState Usd → Bool
  unfolding effective_cap projected
  over_cap state = elim (effective_cap state) [
    | none ↦ false
    | some cap ↦ lib.metering.floats.le cap (projected state)
  ]

  abbrev pub or_unknown : Option Text → Text
  or_unknown none = codes "unknown"
  or_unknown (some stage) = stage

  -- The unfinished requests of the gaps report, with the stage where each stopped.
  unfoldable pub unfinished : RunState Usd → ℕ → List TaskUnit → Result (List (Text × Text))
  unfolding context_for request_complete first_incomplete_stage
  unfinished state i [] = ok []
  unfinished state i (unit ∷ units) =
      let at = context_for lib ctx [] [] state i unit in
      request_complete lib.stages at >>= λ complete. elim complete [
        | true ↦ unfinished state (suc i) units
        | false ↦ first_incomplete_stage lib.stages at >>= λ stage.
            unfinished state (suc i) units >>= λ rest.
            ok ((unit.request_id, or_unknown stage) ∷ rest)
      ]

  -- `_cap_transition`
  unfoldable pub cap_transition : Op Usd Unit
  unfolding load_state unfinished reads ◌>>>◌ is_finished
  cap_transition files =
      if is_finished (load_state lib ctx files).status
      then (files, ok _)
      else (reads (λ f. unfinished (load_state lib ctx f) 0 ctx.task_units) >>> λ gaps f.
            (record f { events = f.events ++ run_finished capped ∷ []; gaps = some gaps }, ok _))
          files
