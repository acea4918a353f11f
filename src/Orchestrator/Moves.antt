-- ===== src/Orchestrator/Moves.antt =====
-- The operator's verbs: when each is allowed, and where it leads the run.
use mootloop.Base.{
  ℕ, ◌≡◌, refl, ap, ◌∙◌, ◌+◌, Bool, true, false, ◌&&◌, not, List, [], ◌∷◌, ◌++◌, Text, codes,
  if◌then◌else◌, Result, ok, err, orchestrator_error, arith,
}
use mootloop.Base.Dict.{Dict}
use mootloop.Journal.Events.{
  JournalEvent, run_paused, run_resumed, checkpoint_cleared, run_reopened, RunState, RunStatus,
  running, paused, initial, is_terminal,
}
use mootloop.Journal.Fold.{
  step, fold_from, fold, reopen_checkpoint, reopen_paused, reopen_attention,
}
use mootloop.Journal.Ledger.{fold_from-append}
use mootloop.Rubric.Final.{sorted_items}
use mootloop.Orchestrator.{RunContext, Library, RunFiles, emit, load_state}
use mootloop.Orchestrator.Spend.{effective_max_attempts}
use mootloop.Orchestrator.Land.{is_paused}
use mootloop.Orchestrator.Verbs.{
  is_at_checkpoint, needs_operator, last_boundary, is_empty_text, pause_run, resume_run,
  continue_run, blockers_among, attention_blockers, unless_blocked, reopen_run,
}

abbrev pub is_clear : List Text → Bool
is_clear [] = true
is_clear (b ∷ bs) = false

module _ {F Usd : Type 0} (lib : Library F Usd) (ctx : RunContext F Usd) where
  abbrev pub after : RunFiles Usd → JournalEvent Usd → RunFiles Usd
  after files event = record files { events = files.events ++ event ∷ [] }

  -- An allowed verb appends its one event, which leads to the target; a verb that is not allowed
  -- raises and writes nothing. The last argument is what the verb gives.
  abbrev pub Moves :
      Bool → JournalEvent Usd → RunStatus → RunFiles Usd → RunFiles Usd × Result (Unit {0}) → Type 0
  Moves true event target files moved =
      (moved ≡ (after files event, ok _))
      × ((load_state lib ctx (after files event)).status ≡ target)
  Moves false event target files moved = moved ≡ (files, err orchestrator_error)

  pub load_state-after :
      (files : RunFiles Usd) (event : JournalEvent Usd)
      → load_state lib ctx (after files event)
        ≡ step lib.metering.floats (load_state lib ctx files) event
  unfolding load_state fold fold_from
  load_state-after files event =
      fold_from-append lib.metering.floats files.events (event ∷ [])
        (initial (lib.metering.floats.of_int 0))

  status-after :
      (files : RunFiles Usd) (event : JournalEvent Usd) (target : RunStatus)
      → (step lib.metering.floats (load_state lib ctx files) event).status ≡ target
      → (load_state lib ctx (after files event)).status ≡ target
  status-after files event target e = ap (λ s. s.status) (load_state-after files event) ∙ e

  guarded-Moves :
      (allowed : Bool) (event : JournalEvent Usd) (target : RunStatus) (files : RunFiles Usd)
      → (allowed ≡ true → (load_state lib ctx (after files event)).status ≡ target)
      → Moves allowed event target files
          (if allowed then emit event files else (files, err orchestrator_error))
  unfolding emit
  guarded-Moves true event target files leads = (refl, leads refl)
  guarded-Moves false event target files leads = refl

  live-Moves :
      (over : Bool) (event : JournalEvent Usd) (target : RunStatus) (files : RunFiles Usd)
      → (load_state lib ctx (after files event)).status ≡ target
      → Moves
          (not over)
          event
          target
          files
          (if over then (files, err orchestrator_error) else emit event files)
  unfolding emit
  live-Moves true event target files leads = refl
  live-Moves false event target files leads = (refl, leads)

  barred-Moves :
      (barred : Bool) (event : JournalEvent Usd) (target : RunStatus) (files : RunFiles Usd)
      (rest : Bool) (moved : RunFiles Usd × Result (Unit {0}))
      → Moves rest event target files moved
      → Moves
          (not barred && rest)
          event
          target
          files
          (if barred then (files, err orchestrator_error) else moved)
  barred-Moves true event target files rest moved h = refl
  barred-Moves false event target files rest moved h = h

  -- A pause of a run that is not over, that is, neither finished nor in need of attention nor
  -- capped, appends one event after which the run is paused; of any other run it raises and writes
  -- nothing.
  pub pause_run-Moves :
      (reason : Text) (files : RunFiles Usd)
      → Moves
          (not (is_terminal (load_state lib ctx files).status))
          (run_paused reason)
          paused
          files
          (pause_run lib ctx reason files)
  unfolding pause_run emit step
  pause_run-Moves reason files =
      live-Moves (is_terminal (load_state lib ctx files).status) (run_paused reason) paused files
        (status-after files (run_paused reason) paused refl)

  is_paused-after :
      (files : RunFiles Usd)
      → is_paused (load_state lib ctx files).status ≡ true
      → (load_state lib ctx (after files run_resumed)).status ≡ running
  unfolding step reopen_paused
  is_paused-after files h = status-after files run_resumed running (ground arith)

  -- A resume of a paused run appends one event after which the run is running; of any other run it
  -- raises and writes nothing.
  pub resume_run-Moves :
      (files : RunFiles Usd)
      → Moves
          (is_paused (load_state lib ctx files).status)
          run_resumed
          running
          files
          (resume_run lib ctx files)
  unfolding resume_run
  resume_run-Moves files =
      guarded-Moves (is_paused (load_state lib ctx files).status) run_resumed running files
        (is_paused-after files)

  is_at_checkpoint-after :
      (files : RunFiles Usd) (boundary : Text)
      → is_at_checkpoint (load_state lib ctx files).status ≡ true
      → (load_state lib ctx (after files (checkpoint_cleared boundary))).status ≡ running
  unfolding step reopen_checkpoint is_at_checkpoint
  is_at_checkpoint-after files boundary h =
      status-after files (checkpoint_cleared boundary) running (ground arith)

  -- To continue a run that waits at a checkpoint appends the clearing of the last boundary reached,
  -- after which the run is running; for any other run it raises and writes nothing.
  pub continue_run-Moves :
      (files : RunFiles Usd)
      → Moves
          (is_at_checkpoint (load_state lib ctx files).status)
          (checkpoint_cleared (last_boundary (codes "unknown") files.events))
          running
          files
          (continue_run lib ctx files)
  unfolding continue_run
  continue_run-Moves files =
      let boundary = last_boundary (codes "unknown") files.events in
      guarded-Moves (is_at_checkpoint (load_state lib ctx files).status)
        (checkpoint_cleared boundary) running files (is_at_checkpoint-after files boundary)

  -- Whether a reopening is allowed.
  abbrev pub may_reopen : Text → ℕ → RunFiles Usd → Bool
  may_reopen reason grant_attempts files =
      not (is_empty_text (lib.stages.strip reason))
      && (needs_operator (load_state lib ctx files).status
          && is_clear (attention_blockers lib ctx grant_attempts (load_state lib ctx files)))

  needs_operator-after :
      (files : RunFiles Usd) (reason by : Text) (grant_attempts : ℕ)
      → needs_operator (load_state lib ctx files).status ≡ true
      → (load_state lib ctx (after files (run_reopened reason grant_attempts false by))).status
        ≡ running
  unfolding step reopen_attention needs_operator
  needs_operator-after files reason by grant_attempts h =
      status-after files (run_reopened reason grant_attempts false by) running (ground arith)

  unless_blocked-Moves :
      (blockers : List Text) (event : JournalEvent Usd) (files : RunFiles Usd)
      → (load_state lib ctx (after files event)).status ≡ running
      → Moves (is_clear blockers) event running files (unless_blocked lib ctx blockers event files)
  unfolding unless_blocked emit
  unless_blocked-Moves [] event files h = (refl, h)
  unless_blocked-Moves (b ∷ bs) event files h = refl

  -- The last two guards of a reopening.
  needy-Moves :
      (needy : Bool) (blockers : List Text) (event : JournalEvent Usd) (files : RunFiles Usd)
      → (needy ≡ true → (load_state lib ctx (after files event)).status ≡ running)
      → Moves (needy && is_clear blockers) event running files (
          if not needy
          then (files, err orchestrator_error)
          else unless_blocked lib ctx blockers event files)
  needy-Moves true blockers event files leads =
      unless_blocked-Moves blockers event files (leads refl)
  needy-Moves false blockers event files leads = refl

  -- A reopening with a reason, of a run in need of attention, whose grant clears every turn that
  -- has spent its attempts, appends one event after which the run is running; any other raises and
  -- writes nothing.
  pub reopen_run-Moves :
      (reason by : Text) (grant_attempts : ℕ) (files : RunFiles Usd)
      → Moves
          (may_reopen reason grant_attempts files)
          (run_reopened (lib.stages.strip reason) grant_attempts false by)
          running
          files
          (reopen_run lib ctx reason grant_attempts by files)
  unfolding reopen_run
  reopen_run-Moves reason by grant_attempts files =
      let state = load_state lib ctx files in
      let stripped = lib.stages.strip reason in
      let event = run_reopened stripped grant_attempts false by in
      let blockers = attention_blockers lib ctx grant_attempts state in
      barred-Moves (is_empty_text stripped) event running files
        (needs_operator state.status && is_clear blockers)
        (if not (needs_operator state.status)
          then (files, err orchestrator_error)
          else unless_blocked lib ctx blockers event files)
        (needy-Moves (needs_operator state.status) blockers event files
          (needs_operator-after files stripped by grant_attempts))

  blockers_among-after :
      (ceiling : ℕ) (state : RunState Usd) (event : JournalEvent Usd) (discarded : Dict Text ℕ)
      → (step lib.metering.floats state event).completed_turns ≡ state.completed_turns
      → blockers_among lib ctx ceiling (step lib.metering.floats state event) discarded
        ≡ blockers_among lib ctx ceiling state discarded
  unfolding blockers_among
  blockers_among-after ceiling state event [] h = refl
  blockers_among-after ceiling state event (d ∷ discarded) h =
      rw (h, blockers_among-after ceiling state event discarded h) refl

  attention_blockers-after :
      (state : RunState Usd) (reason by : Text) (grant_attempts : ℕ)
      → attention_blockers lib ctx 0
          (step lib.metering.floats state (run_reopened reason grant_attempts false by))
        ≡ attention_blockers lib ctx grant_attempts state
  unfolding attention_blockers effective_max_attempts step
  attention_blockers-after state reason by grant_attempts =
      let ceiling : ctx.max_attempts + (state.attempts_granted + grant_attempts) + 0
          ≡ ctx.max_attempts + state.attempts_granted + grant_attempts =
        omega arith in
      rw ceiling (
        blockers_among-after (ctx.max_attempts + state.attempts_granted + grant_attempts) state
          (run_reopened reason grant_attempts false by) (sorted_items state.discarded) refl)

  Moves-ok :
      (allowed : Bool) (event : JournalEvent Usd) (target : RunStatus) (files moved : RunFiles Usd)
      (outcome : RunFiles Usd × Result (Unit {0}))
      → Moves allowed event target files outcome
      → outcome ≡ (moved, ok _)
      → (allowed ≡ true) × (after files event ≡ moved)
  Moves-ok true event target files moved outcome h e = (refl, cc)
  Moves-ok false event target files moved outcome h e = cc

  is_clear-eq : (blockers : List Text) → is_clear blockers ≡ true → blockers ≡ []
  is_clear-eq [] h = refl
  is_clear-eq (b ∷ bs) h = cc

  -- After a reopening that succeeds no turn is blocked any more: every turn that was never
  -- completed has fewer discarded attempts than the ceiling that the grant has raised.
  pub reopen_run-unblocks :
      (reason by : Text) (grant_attempts : ℕ) (files moved : RunFiles Usd)
      → reopen_run lib ctx reason grant_attempts by files ≡ (moved, ok _)
      → attention_blockers lib ctx 0 (load_state lib ctx moved) ≡ []
  reopen_run-unblocks reason by grant_attempts files moved e =
      let event = run_reopened (lib.stages.strip reason) grant_attempts false by in
      let found =
        Moves-ok (may_reopen reason grant_attempts files) event running files moved
          (reopen_run lib ctx reason grant_attempts by files)
          (reopen_run-Moves reason by grant_attempts files) e in
      let clear : is_clear (attention_blockers lib ctx grant_attempts (load_state lib ctx files))
          ≡ true =
        ground (arith, found.0) in
      rw (← found.1, load_state-after files event)
        (attention_blockers-after (load_state lib ctx files) (lib.stages.strip reason) by
            grant_attempts
          ∙ is_clear-eq (attention_blockers lib ctx grant_attempts (load_state lib ctx files))
              clear)
