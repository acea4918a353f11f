-- ===== src/Orchestrator/Record.antt =====
-- orchestrator.py: the record of a turn, from the provider's text to the journal, the finish of a
-- run, and the checkpoints of a gated one. The rendered views (the deliverable and the observed
-- status) are written and never read back, and are left out.
use mootloop.Base.{
  ℕ, suc, Bool, true, false, ◌&&◌, not, Option, none, some, List, [], ◌∷◌, ◌++◌, map, Text, codes,
  text_eq_key, ◌==◌, if◌then◌else◌, member, any, range_from, Result, ok, ◌>>=◌,
}
use mootloop.Base.Dict.{Dict, insert}
use mootloop.Turn.{TurnSpec, TurnRecord, DraftOutput, CriterionScore, Schema, GateResult}
use mootloop.Journal.Events.{
  JournalEvent, gate_evaluated, run_finished, RunState, RunStatus, running, finished,
  needs_decisions, RunMode, gated,
}
use mootloop.Config.{document}
use mootloop.Rubric.Final.{final_gate}
use mootloop.Stages.{turn_id, rubric_final}
use mootloop.Stages.Context.{
  TaskUnit, StageContext, config, slots, record_of, as_rubric, as_draft, request_code, collect,
}
use mootloop.Stages.Plan.{rubric_gate, is_complete}
use mootloop.Stages.Plan.Turns.{request_complete}
use mootloop.Decisions.{hard_human, open_by_taxonomy}
use mootloop.Decisions.Derive.{derive_drafts_and_store}
use mootloop.Orchestrator.{
  RunContext, Library, RunFiles, Op, ◌>>>◌, reads, done_with, load_state, context_for,
}
use mootloop.Orchestrator.Spend.{DiscardedTurn}

pub data Recorded : Type 0 where
  kept : TurnRecord → Recorded
  thrown_away : DiscardedTurn → Recorded

abbrev pub is_document_family : {F Usd : Type 0} → RunContext F Usd → Bool
is_document_family ctx = elim ctx.pipeline.effective_config.input_family [
  | document ↦ true
  | _ ↦ false
]

unfoldable pub finalizes : RunStatus → Bool
finalizes running = true
finalizes needs_decisions = true
finalizes _ = false

unfoldable pub awaits_decisions : RunStatus → Bool
awaits_decisions needs_decisions = true
awaits_decisions _ = false

unfoldable pub is_gated : RunMode → Bool
is_gated gated = true
is_gated _ = false

abbrev pub is_rubric_turn : TurnSpec → Bool
is_rubric_turn spec = spec.stage == codes "rubric_gate"

-- The drafts among the records, with their turns.
unfoldable pub drafts_of : List TurnRecord → Result (List (TurnSpec × DraftOutput))
unfolding as_draft
drafts_of [] = ok []
drafts_of (r ∷ records) = elim r.spec.output_schema_name [
  | Schema.draft ↦ as_draft r.output >>= λ d. drafts_of records >>= λ rest. ok ((r.spec, d) ∷ rest)
  | _ ↦ drafts_of records
]

-- `next((i for i, u in enumerate(units) if u.request_id == request_id), None)`
unfoldable pub unit_of : Text → ℕ → List TaskUnit → Option (ℕ × TaskUnit)
unit_of request_id i [] = none
unit_of request_id i (unit ∷ units) =
    let rest = unit_of request_id (suc i) units in
    if unit.request_id == request_id then some (i, unit) else rest

-- The unit of a turn's request.
unfoldable pub unit_at : Option Text → List TaskUnit → Option (ℕ × TaskUnit)
unfolding unit_of
unit_at none units = none
unit_at (some request_id) units = unit_of request_id 0 units

-- `{s.criterion_id: s.score for s in out.scores}`
unfoldable pub panel_scores_of : List CriterionScore → Dict Text ℕ → Dict Text ℕ
panel_scores_of [] scores = scores
panel_scores_of (s ∷ more) scores = panel_scores_of more (insert s.criterion_id s.score scores)

unfoldable pub is_rubric_gate_of : {Usd : Type 0} → List Text → JournalEvent Usd → Bool
is_rubric_gate_of panel_ids (gate_evaluated turn result) =
    result.gate == codes "rubric" && member turn panel_ids
is_rubric_gate_of panel_ids _ = false

module _ {F Usd : Type 0} (lib : Library F Usd) (ctx : RunContext F Usd) where
  -- The panel of a request whose every seat has landed, aggregated into one gate.
  unfoldable pub rubric_gate_of : StageContext F Usd → Result GateResult
  unfolding panel_scores_of final_gate
  rubric_gate_of at =
      collect
        (λ m. record_of at (rubric_final (slots at) m) >>= λ r.
          as_rubric r.output >>= λ out. ok (panel_scores_of out.scores []))
        (range_from 1 (config at).panels.rubric_judges)
      >>= λ panel.
          final_gate lib.stages.floats lib.format ctx.rubric panel (request_code at)
            (config at).rubric_threshold

  abbrev pub panel_turns : StageContext F Usd → List Text
  panel_turns at =
      map (λ m. turn_id (slots at) (rubric_final (slots at) m))
        (range_from 1 (config at).panels.rubric_judges)

  -- The gate event, where the panel is complete and no gate of it is in the journal.
  unfoldable pub rubric_events :
      TurnSpec → RunFiles Usd → StageContext F Usd → Result (List (JournalEvent Usd))
  unfolding is_complete rubric_gate_of is_rubric_gate_of
  rubric_events spec files at = is_complete lib.stages at rubric_gate >>= λ complete.
      elim complete [
        | false ↦ ok []
        | true ↦
            if any (is_rubric_gate_of (panel_turns at)) files.events
            then ok []
            else (rubric_gate_of at >>= λ result. ok (gate_evaluated spec.turn_id result ∷ []))
      ]

  -- `_maybe_emit_rubric_gate`
  unfoldable pub maybe_emit_rubric_gate : TurnSpec → Op Usd Unit
  unfolding unit_at load_state context_for rubric_events reads ◌>>>◌
  maybe_emit_rubric_gate spec files =
      if not (is_rubric_turn spec)
      then (files, ok _)
      else elim (unit_at spec.request_id ctx.task_units) [
        | none ↦ (files, ok _)
        | some (i, unit) ↦
            (reads (λ f.
                  rubric_events spec f (context_for lib ctx [] [] (load_state lib ctx f) i unit))
                >>> λ events f. (record f { events = f.events ++ events }, ok _))
              files
      ]

  -- `_all_requests_complete`, from an index on.
  unfoldable pub all_requests_complete : RunState Usd → ℕ → List TaskUnit → Result Bool
  unfolding context_for request_complete
  all_requests_complete state i [] = ok true
  all_requests_complete state i (unit ∷ units) =
      request_complete lib.stages (context_for lib ctx [] [] state i unit) >>= λ complete.
      elim complete [ true ↦ all_requests_complete state (suc i) units | false ↦ ok false ]

  -- The loop over the completed rubric turns.
  unfoldable pub emit_rubric_gates : List TurnRecord → Op Usd Unit
  unfolding maybe_emit_rubric_gate ◌>>>◌
  emit_rubric_gates [] files = (files, ok _)
  emit_rubric_gates (r ∷ records) files =
      (maybe_emit_rubric_gate r.spec >>> λ emitted. emit_rubric_gates records) files

  -- The last step: finished, or the block on open hard-human gates.
  unfoldable pub closing_events : RunStatus → RunFiles Usd → List (JournalEvent Usd)
  unfolding open_by_taxonomy awaits_decisions
  closing_events status files = elim (open_by_taxonomy files.store ctx.gates hard_human) [
    | [] ↦ run_finished finished ∷ []
    | d ∷ ds ↦ if awaits_decisions status then [] else run_finished needs_decisions ∷ []
  ]

  abbrev pub derived_decisions : List (TurnSpec × DraftOutput) → RunFiles Usd → RunFiles Usd
  derived_decisions drafts files = record files {
    store =
        (derive_drafts_and_store lib.upper lib.repr (is_document_family ctx) ctx.run_id files.store
          drafts).store;
  }

  -- The steps of `_finalize` behind the test of completeness.
  unfoldable pub close_run : RunState Usd → Op Usd Unit
  unfolding drafts_of derive_drafts_and_store emit_rubric_gates closing_events reads ◌>>>◌
  close_run state = reads (λ f. drafts_of (map (λ e. e.1) state.completed_turns)) >>> λ drafts f.
      (emit_rubric_gates (map (λ e. e.1) state.completed_turns) >>> λ emitted g.
      (record g { events = g.events ++ closing_events state.status g }, ok _))
        (derived_decisions drafts f)

  -- `_finalize`
  unfoldable pub finalize : Op Usd Unit
  unfolding load_state finalizes all_requests_complete close_run reads ◌>>>◌
  finalize files =
      let state = load_state lib ctx files in
      if not (finalizes state.status)
      then (files, ok _)
      else (reads (λ f. all_requests_complete state 0 ctx.task_units) >>> λ complete.
            elim complete [ true ↦ close_run state | false ↦ done_with _ ])
          files
