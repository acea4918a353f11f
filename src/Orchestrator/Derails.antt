-- ===== src/Orchestrator/Derails.antt =====
-- The discard of a derailed turn, from its spend to the halt of the run.
use mathlib.Core.Path.{subst}
use mootloop.Base.{
  ◌+◌, ==_refl, ℕ, suc, ◌≡◌, refl, ap, Bool, true, false, Option, none, some, [], ◌∷◌, ◌++◌, Text,
  text_eq_iff, text_eq_key, leb, if◌then◌else◌, Result, ok, arith,
}
use mootloop.Base.Dict.{lookup, lookup-insert, lookup-pop, get_or}
use mootloop.Turn.{TurnSpec}
use mootloop.Journal.Events.{
  turn_discarded, run_finished, spend_recorded, SpendRecorded, RunState, needs_attention, initial,
}
use mootloop.Journal.Fold.{step, fold_from, fold, spend}
use mootloop.Journal.Ledger.{fold_from-append}
use mootloop.Budget.{TokenUsage, cost_of}
use mootloop.Orchestrator.{RunContext, Library, RunFiles, ◌>>>◌, carry, emit, load_state}
use mootloop.Orchestrator.Spend.{
  DiscardedTurn, priced_model, spend_of, book_spend, effective_max_attempts, discard_events,
  discard,
}
use mootloop.Orchestrator.Moves.{after, load_state-after}

module _ {F Usd : Type 0} (lib : Library F Usd) (ctx : RunContext F Usd) where
  -- The attempt that a discard of the turn is.
  abbrev pub next_attempt : RunState Usd → Text → ℕ
  next_attempt state turn_id = suc (get_or turn_id 0 state.discarded)

  -- Whether that attempt spends the last that the run grants.
  abbrev pub is_spent : RunState Usd → Text → Bool
  is_spent state turn_id = leb (effective_max_attempts lib ctx state) (next_attempt state turn_id)

  -- The state after a discard: the attempt is counted, the run halts exactly on the last one, and
  -- no record is touched.
  pub record IsDerailed (before after : RunState Usd) (turn_id : Text) : Type 0 where
    pub counted : lookup turn_id after.discarded ≡ some (next_attempt before turn_id)
    pub status : after.status ≡ (if is_spent before turn_id then needs_attention else before.status)
    pub records : after.completed_turns ≡ before.completed_turns

  -- The bill of a call: its token buckets and its cost at the planned model's rate are added to the
  -- run's totals, and the reservation of the turn is settled. A call without usage changes none.
  abbrev pub IsBilled : Option TokenUsage → TurnSpec → Text → RunState Usd → RunState Usd → Type 0
  IsBilled none spec now before after =
      (after.total_spend_usd ≡ before.total_spend_usd)
      × (after.total_input_tokens ≡ before.total_input_tokens)
      × (after.total_cache_read ≡ before.total_cache_read)
      × (after.total_cache_write ≡ before.total_cache_write)
      × (after.total_output_tokens ≡ before.total_output_tokens)
      × (after.pending_intents ≡ before.pending_intents)
  IsBilled (some usage) spec now before after =
      (after.total_spend_usd
        ≡ lib.metering.floats.add before.total_spend_usd
            (cost_of lib.metering usage (priced_model spec.model usage.model) (lib.date_of now)))
      × (after.total_input_tokens ≡ before.total_input_tokens + usage.input_tokens)
      × (after.total_cache_read ≡ before.total_cache_read + usage.cache_read)
      × (after.total_cache_write ≡ before.total_cache_write + usage.cache_write)
      × (after.total_output_tokens ≡ before.total_output_tokens + usage.output_tokens)
      × (lookup spec.turn_id after.pending_intents ≡ none)

  halted-IsDerailed :
      (spent : Bool) (state : RunState Usd) (spec : TurnSpec) (reason detail : Text)
      → spent ≡ is_spent state spec.turn_id
      → IsDerailed state
          (fold_from lib.metering.floats state (
            turn_discarded spec.turn_id reason (next_attempt state spec.turn_id) detail
            ∷ (if spent then run_finished needs_attention ∷ [] else [])))
          spec.turn_id
  unfolding fold_from step
  halted-IsDerailed true state spec reason detail h = record {
    counted = ground (
      arith,
      lookup-insert spec.turn_id spec.turn_id (next_attempt state spec.turn_id) state.discarded,
      text_eq_iff spec.turn_id spec.turn_id,
    );
    status = rw (← h) refl;
    records = refl;
  }
  halted-IsDerailed false state spec reason detail h = record {
    counted = ground (
      arith,
      lookup-insert spec.turn_id spec.turn_id (next_attempt state spec.turn_id) state.discarded,
      text_eq_iff spec.turn_id spec.turn_id,
    );
    status = rw (← h) refl;
    records = refl;
  }

  -- The discard's own events bill nothing.
  halted-IsBilled :
      (spent : Bool) (state : RunState Usd) (spec : TurnSpec) (reason detail now : Text)
      (attempt : ℕ)
      → IsBilled none spec now state (
          fold_from lib.metering.floats state (
            turn_discarded spec.turn_id reason attempt detail
            ∷ (if spent then run_finished needs_attention ∷ [] else [])))
  unfolding fold_from step
  halted-IsBilled true state spec reason detail now attempt = (refl, refl, refl, refl, refl, refl)
  halted-IsBilled false state spec reason detail now attempt = (refl, refl, refl, refl, refl, refl)

  discard_events-IsBilled :
      (files : RunFiles Usd) (spec : TurnSpec) (reason detail now : Text)
      → IsBilled none spec now (load_state lib ctx files) (
          load_state lib ctx (record files {
            events =
                files.events
                ++ discard_events lib ctx (load_state lib ctx files) spec reason detail;
          }))
  unfolding load_state fold discard_events
  discard_events-IsBilled files spec reason detail now =
      let state = load_state lib ctx files in
      rw
        (fold_from-append lib.metering.floats files.events
          (discard_events lib ctx state spec reason detail)
          (initial (lib.metering.floats.of_int 0)))
        (halted-IsBilled (is_spent state spec.turn_id) state spec reason detail now
          (next_attempt state spec.turn_id))

  spent-IsBilled :
      (state later : RunState Usd) (usage : TokenUsage) (spec : TurnSpec) (now : Text)
      (call : Option Text)
      → IsBilled none spec now
          (step lib.metering.floats state
            (spend_recorded (spend_of lib ctx spec.turn_id usage spec.model now call)))
          later
      → IsBilled (some usage) spec now state later
  unfolding step spend spend_of
  spent-IsBilled state later usage spec now call h = (
    h.0,
    h.1,
    h.2,
    h.3,
    h.4,
    rw (h.5, lookup-pop spec.turn_id spec.turn_id state.pending_intents, ==_refl spec.turn_id) refl,
  )

  discard_events-IsDerailed :
      (files : RunFiles Usd) (spec : TurnSpec) (reason detail : Text)
      → IsDerailed
          (load_state lib ctx files)
          (load_state lib ctx (record files {
            events =
                files.events
                ++ discard_events lib ctx (load_state lib ctx files) spec reason detail;
          }))
          spec.turn_id
  unfolding load_state fold discard_events
  discard_events-IsDerailed files spec reason detail =
      let state = load_state lib ctx files in
      rw
        (fold_from-append lib.metering.floats files.events
          (discard_events lib ctx state spec reason detail)
          (initial (lib.metering.floats.of_int 0)))
        (halted-IsDerailed (is_spent state spec.turn_id) state spec reason detail refl)

  spent-IsDerailed :
      (state later : RunState Usd) (e : SpendRecorded Usd) (turn_id : Text)
      → IsDerailed (step lib.metering.floats state (spend_recorded e)) later turn_id
      → IsDerailed state later turn_id
  unfolding step spend effective_max_attempts
  spent-IsDerailed state later e turn_id h = record {
    counted = h.counted;
    status = h.status;
    records = h.records;
  }

  -- The state from before the discard, and the attempt that it reports.
  abbrev pub AreDerailed :
      RunFiles Usd
      → TurnSpec
      → Text
      → Option TokenUsage
      → Text
      → RunFiles Usd × Result DiscardedTurn
      → Type 0
  AreDerailed files spec reason usage now outcome =
      IsBilled usage spec now (load_state lib ctx files) (load_state lib ctx outcome.0)
      × IsDerailed (load_state lib ctx files) (load_state lib ctx outcome.0) spec.turn_id
      × (outcome.1
          ≡ ok (record {
            turn_id = spec.turn_id;
            reason = reason;
            attempt = next_attempt (load_state lib ctx files) spec.turn_id;
          }))

  booked-AreDerailed :
      (files : RunFiles Usd) (usage : TokenUsage) (spec : TurnSpec) (reason detail now : Text)
      (call : Option Text) (state : RunState Usd)
      → let e = spend_of lib ctx spec.turn_id usage spec.model now call in
        let booked = after lib ctx files (spend_recorded e) in
        state ≡ load_state lib ctx booked
        → AreDerailed files spec reason (some usage) now (
          record booked {
            events = booked.events ++ discard_events lib ctx state spec reason detail;
          },
          ok (record {
            turn_id = spec.turn_id;
            reason = reason;
            attempt = next_attempt state spec.turn_id;
          }),
        )
  unfolding step spend spend_of
  booked-AreDerailed files usage spec reason detail now call state h =
      let e = spend_of lib ctx spec.turn_id usage spec.model now call in
      let booked = after lib ctx files (spend_recorded e) in
      let known = load_state-after lib ctx files (spend_recorded e) in
      let billed = discard_events-IsBilled booked spec reason detail now in
      let derailed = discard_events-IsDerailed booked spec reason detail in
      let later = load_state lib ctx (record booked {
        events =
            booked.events ++ discard_events lib ctx (load_state lib ctx booked) spec reason detail;
      }) in
      rw h (
        spent-IsBilled (load_state lib ctx files) later usage spec now call
            (subst (λ s. IsBilled none spec now s later) known billed),
        spent-IsDerailed (load_state lib ctx files) later e spec.turn_id
            (subst (λ s. IsDerailed s later spec.turn_id) known derailed),
        ap
            (λ s. ok (record {
              turn_id = spec.turn_id;
              reason = reason;
              attempt = next_attempt s spec.turn_id;
            }))
            known,
      )

  -- A discard adds the usage of its call to the run's four token totals and its cost at the planned
  -- model's rate to the run's spend, and settles the turn's reservation; without a usage it leaves
  -- these as they are. It counts one attempt more than the last one of the turn and reports it,
  -- touches no record, and halts the run for attention exactly when the attempt spends what the run
  -- grants; otherwise the run's status stays.
  pub discard-AreDerailed :
      (spec : TurnSpec) (reason : Text) (usage : Option TokenUsage) (now detail : Text)
      (call : Option Text) (files : RunFiles Usd)
      → AreDerailed files spec reason usage now
          (discard lib ctx spec reason usage now detail call files)
  unfolding discard book_spend emit ◌>>>◌ carry
  discard-AreDerailed spec reason none now detail call files = (
    discard_events-IsBilled files spec reason detail now,
    discard_events-IsDerailed files spec reason detail,
    refl,
  )
  discard-AreDerailed spec reason (some usage) now detail call files =
      booked-AreDerailed files usage spec reason detail now call _ refl
