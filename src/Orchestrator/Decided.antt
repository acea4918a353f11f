-- ===== src/Orchestrator/Decided.antt =====
-- What a resolution and the finalization after it leave of the decision log and of the journal.
use mootloop.Base.{
  ℕ, ◌≡◌, refl, ◌∙◌, Bool, true, false, Option, none, some, List, [], ◌∷◌, ◌++◌, All, Text,
  if◌then◌else◌, Result, ok, err, ◌>>=◌, Ensures, not, any, map,
}
use mootloop.Turn.{TurnSpec, TurnRecord, DraftOutput, GateResult}
use mootloop.Journal.Events.{
  JournalEvent, DecisionRecorded, decision_recorded, gate_evaluated, run_finished, RunStatus,
  finished, needs_decisions, RunState,
}
use mootloop.Stages.Context.{StageContext, TaskUnit}
use mootloop.Stages.Plan.{is_complete, rubric_gate}
use mootloop.Decisions.{Decision, get, open_by_taxonomy, hard_human}
use mootloop.Decisions.Log.{IsLog}
use mootloop.Decisions.Derived.{derive_drafts_and_store-IsLog, derive_drafts_and_store-get}
use mootloop.Decisions.Resolve.{latest, later}
use mootloop.Orchestrator.{
  RunContext, Library, RunFiles, Op, ◌>>>◌, carry, reads, done_with, load_state, context_for,
}
use mootloop.Orchestrator.Record.{
  is_document_family, finalizes, awaits_decisions, is_rubric_turn, drafts_of, unit_at,
  is_rubric_gate_of, rubric_gate_of, panel_turns, rubric_events, maybe_emit_rubric_gate,
  all_requests_complete, emit_rubric_gates, closing_events, derived_decisions, close_run, finalize,
}
use mootloop.Orchestrator.Verbs.{finalize_if_ready}

-- A turn's gate, or the end of the run: an event that is no record of a decision.
abbrev pub is_quiet : {Usd : Type 0} → JournalEvent Usd → Bool
is_quiet (decision_recorded e) = false
is_quiet _ = true

module _ {Usd : Type 0} where
  latest-quiet :
      (decision_id : Text) (found : Option DecisionRecorded) (events tail : List (JournalEvent Usd))
      → All (λ e. is_quiet e ≡ true) tail
      → latest decision_id found (events ++ tail) ≡ latest decision_id found events
  unfolding latest later
  latest-quiet decision_id found [] [] quiet = refl
  latest-quiet decision_id found [] (decision_recorded e ∷ tail) quiet = cc
  latest-quiet decision_id found [] (_ ∷ tail) quiet =
      latest-quiet decision_id found [] tail quiet.1
  latest-quiet decision_id found (e ∷ events) tail quiet =
      latest-quiet decision_id (later decision_id found e) events tail quiet

  -- What a finalization keeps: the order of the log, every decision in it, and the journal's latest
  -- record of each decision.
  pub record Extends (run_id : Text) (before after : RunFiles Usd) : Type 0 where
    pub log : IsLog run_id before.store → IsLog run_id after.store
    pub kept :
        (k : Text) (d : Decision)
        → IsLog run_id before.store
        → get k before.store ≡ some d
        → get k after.store ≡ some d
    pub journal :
        (k : Text) (found : Option DecisionRecorded)
        → latest k found after.events ≡ latest k found before.events

  Extends-refl : (run_id : Text) (files : RunFiles Usd) → Extends run_id files files
  Extends-refl run_id files = record {
    log = λ h. h;
    kept = λ k d h e. e;
    journal = λ k found. refl;
  }

  Extends-trans :
      (run_id : Text) (a b c : RunFiles Usd)
      → Extends run_id a b
      → Extends run_id b c
      → Extends run_id a c
  Extends-trans run_id a b c h g = record {
    log = λ l. g.log (h.log l);
    kept = λ k d l e. g.kept k d (h.log l) (h.kept k d l e);
    journal = λ k found. g.journal k found ∙ h.journal k found;
  }

  -- Quiet events extend the files.
  quiet-Extends :
      (run_id : Text) (files : RunFiles Usd) (tail : List (JournalEvent Usd))
      → All (λ e. is_quiet e ≡ true) tail
      → Extends run_id files (record files { events = files.events ++ tail })
  quiet-Extends run_id files tail quiet = record {
    log = λ h. h;
    kept = λ k d h e. e;
    journal = λ k found. latest-quiet k found files.events tail quiet;
  }

  carry-Extends :
      {A B : Type 0} (run_id : Text) (files : RunFiles Usd) (outcome : RunFiles Usd × Result A)
      (rest : A → Op Usd B)
      → Extends run_id files outcome.0
      → ((a : A) (g : RunFiles Usd) → Extends run_id g (rest a g).0)
      → Extends run_id files (carry outcome rest).0
  unfolding carry
  carry-Extends run_id files (g, err raised) rest h k = h
  carry-Extends run_id files (g, ok a) rest h k =
      Extends-trans run_id files g (rest a g).0 h (k a g)

  if-Extends :
      {A : Type 0} (run_id : Text) (files : RunFiles Usd) (test : Bool)
      (yes_ no_ : RunFiles Usd × Result A)
      → Extends run_id files yes_.0
      → Extends run_id files no_.0
      → Extends run_id files (if test then yes_ else no_).0
  if-Extends run_id files true yes_ no_ h k = h
  if-Extends run_id files false yes_ no_ h k = k

  abbrev appended : List (JournalEvent Usd) → Op Usd (Unit {0})
  appended tail files = (record files { events = files.events ++ tail }, ok _)

  -- Events that are quiet where there are any.
  emitted-Extends :
      (run_id : Text) (files : RunFiles Usd) (events : Result (List (JournalEvent Usd)))
      → Ensures (All (λ e. is_quiet e ≡ true)) events
      → Extends run_id files (carry (files, events) appended).0
  unfolding carry
  emitted-Extends run_id files (err raised) quiet = Extends-refl run_id files
  emitted-Extends run_id files (ok tail) quiet = quiet-Extends run_id files tail quiet

gate-quiet :
    (Usd : Type 0) (turn_id : Text) (complete : Result Bool) (seen : Bool)
    (gate : Result GateResult)
    → Ensures (All (λ (e : JournalEvent Usd). is_quiet e ≡ true)) (
        complete >>= λ c. elim c [
          | false ↦ ok []
          | true ↦
              if seen then ok [] else (gate >>= λ result. ok (gate_evaluated turn_id result ∷ []))
        ])
gate-quiet Usd turn_id (err raised) seen gate = _
gate-quiet Usd turn_id (ok false) seen gate = _
gate-quiet Usd turn_id (ok true) true gate = _
gate-quiet Usd turn_id (ok true) false (err raised) = _
gate-quiet Usd turn_id (ok true) false (ok result) = (refl, _)

module _ {F Usd : Type 0} (lib : Library F Usd) (ctx : RunContext F Usd) where
  rubric_events-quiet :
      (spec : TurnSpec) (files : RunFiles Usd) (at : StageContext F Usd)
      → Ensures (All (λ e. is_quiet e ≡ true)) (rubric_events lib ctx spec files at)
  unfolding rubric_events
  rubric_events-quiet spec files at =
      gate-quiet Usd spec.turn_id (is_complete lib.stages at rubric_gate)
        (any (is_rubric_gate_of (panel_turns lib ctx at)) files.events) (rubric_gate_of lib ctx at)

  abbrev unit_gate :
      TurnSpec → RunFiles Usd → Option (ℕ × TaskUnit) → RunFiles Usd × Result (Unit {0})
  unit_gate spec files none = (files, ok _)
  unit_gate spec files (some (i, u)) =
      carry
        (
          files,
          rubric_events lib ctx spec files
              (context_for lib ctx [] [] (load_state lib ctx files) i u),
        )
        appended

  unit_gate-Extends :
      (spec : TurnSpec) (files : RunFiles Usd) (unit : Option (ℕ × TaskUnit))
      → Extends ctx.run_id files (unit_gate spec files unit).0
  unit_gate-Extends spec files none = Extends-refl ctx.run_id files
  unit_gate-Extends spec files (some (i, u)) =
      emitted-Extends ctx.run_id files
        (rubric_events lib ctx spec files
          (context_for lib ctx [] [] (load_state lib ctx files) i u))
        (rubric_events-quiet spec files (context_for lib ctx [] [] (load_state lib ctx files) i u))

  maybe_emit_rubric_gate-Extends :
      (spec : TurnSpec) (files : RunFiles Usd)
      → Extends ctx.run_id files (maybe_emit_rubric_gate lib ctx spec files).0
  unfolding maybe_emit_rubric_gate reads ◌>>>◌
  maybe_emit_rubric_gate-Extends spec files =
      if-Extends ctx.run_id files (not (is_rubric_turn spec)) (files, ok _)
        (unit_gate spec files (unit_at spec.request_id ctx.task_units))
        (Extends-refl ctx.run_id files)
        (unit_gate-Extends spec files (unit_at spec.request_id ctx.task_units))

  emit_rubric_gates-Extends :
      (records : List TurnRecord) (files : RunFiles Usd)
      → Extends ctx.run_id files (emit_rubric_gates lib ctx records files).0
  unfolding emit_rubric_gates ◌>>>◌
  emit_rubric_gates-Extends [] files = Extends-refl ctx.run_id files
  emit_rubric_gates-Extends (r ∷ records) files =
      carry-Extends ctx.run_id files (maybe_emit_rubric_gate lib ctx r.spec files)
        (λ emitted. emit_rubric_gates lib ctx records) (maybe_emit_rubric_gate-Extends r.spec files)
        (λ emitted g. emit_rubric_gates-Extends records g)

  closing_events-quiet :
      (status : RunStatus) (files : RunFiles Usd)
      → All (λ e. is_quiet e ≡ true) (closing_events lib ctx status files)
  unfolding closing_events
  closing_events-quiet status files =
      decided (open_by_taxonomy files.store ctx.gates hard_human) (awaits_decisions status)
    where
      decided :
          (found : List Decision) (awaits : Bool)
          → All
              (λ (e : JournalEvent Usd). is_quiet e ≡ true)
              (elim found [
                | [] ↦ run_finished finished ∷ []
                | d ∷ ds ↦ if awaits then [] else run_finished needs_decisions ∷ []
              ])
      decided [] awaits = (refl, _)
      decided (d ∷ ds) true = _
      decided (d ∷ ds) false = (refl, _)

  derived-Extends :
      (drafts : List (TurnSpec × DraftOutput)) (files : RunFiles Usd)
      → Extends ctx.run_id files (derived_decisions lib ctx drafts files)
  derived-Extends drafts files = record {
    log =
        derive_drafts_and_store-IsLog lib.upper lib.repr (is_document_family ctx) ctx.run_id drafts
          files.store;
    kept =
        derive_drafts_and_store-get lib.upper lib.repr (is_document_family ctx) ctx.run_id drafts
          files.store;
    journal = λ k found. refl;
  }

  close_run-Extends :
      (state : RunState Usd) (files : RunFiles Usd)
      → Extends ctx.run_id files (close_run lib ctx state files).0
  unfolding close_run reads ◌>>>◌
  close_run-Extends state files =
      let records = map (λ e. e.1) state.completed_turns in
      carry-Extends ctx.run_id files (files, drafts_of records) _ (Extends-refl ctx.run_id files)
        (λ drafts f.
          carry-Extends ctx.run_id f
            (emit_rubric_gates lib ctx records (derived_decisions lib ctx drafts f)) _
            (Extends-trans ctx.run_id f (derived_decisions lib ctx drafts f)
              (emit_rubric_gates lib ctx records (derived_decisions lib ctx drafts f)).0
              (derived-Extends drafts f)
              (emit_rubric_gates-Extends records (derived_decisions lib ctx drafts f)))
            (λ emitted g.
              quiet-Extends ctx.run_id g (closing_events lib ctx state.status g)
                (closing_events-quiet state.status g)))

  abbrev closed_if : RunState Usd → Bool → Op Usd (Unit {0})
  closed_if state true = close_run lib ctx state
  closed_if state false = done_with _

  abbrev begun_run : RunFiles Usd → Option Text → RunFiles Usd × Result (Unit {0})
  begun_run files none = (files, ok _)
  begun_run files (some task) =
      if finalizes (load_state lib ctx files).status then finalize lib ctx files else (files, ok _)

  closed_if-Extends :
      (state : RunState Usd) (files : RunFiles Usd) (complete : Bool)
      → Extends ctx.run_id files (closed_if state complete files).0
  closed_if-Extends state files true = close_run-Extends state files
  closed_if-Extends state files false = Extends-refl ctx.run_id files

  finalize-Extends : (files : RunFiles Usd) → Extends ctx.run_id files (finalize lib ctx files).0
  unfolding finalize reads ◌>>>◌
  finalize-Extends files =
      let state = load_state lib ctx files in
      let complete = all_requests_complete lib ctx state 0 ctx.task_units in
      if-Extends ctx.run_id files (not (finalizes state.status)) (files, ok _)
        (carry (files, complete) (closed_if state)) (Extends-refl ctx.run_id files)
        (carry-Extends ctx.run_id files (files, complete) (closed_if state)
          (Extends-refl ctx.run_id files) (λ c g. closed_if-Extends state g c))

  begun_run-Extends :
      (task : Option Text) (files : RunFiles Usd)
      → Extends ctx.run_id files (begun_run files task).0
  begun_run-Extends none files = Extends-refl ctx.run_id files
  begun_run-Extends (some task) files =
      if-Extends ctx.run_id files (finalizes (load_state lib ctx files).status)
        (finalize lib ctx files) (files, ok _) (finalize-Extends files)
        (Extends-refl ctx.run_id files)

  -- Whatever a finalization comes to, errors included, it extends the files.
  pub finalize_if_ready-Extends :
      (files : RunFiles Usd) → Extends ctx.run_id files (finalize_if_ready lib ctx files).0
  unfolding finalize_if_ready
  finalize_if_ready-Extends files = begun_run-Extends (load_state lib ctx files).task files
