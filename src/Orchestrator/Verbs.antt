-- ===== src/Orchestrator/Verbs.antt =====
-- orchestrator.py: the operator's verbs, `raise_cap`, `pause_run`, `resume_run`, `continue_run` and
-- `reopen_run`, the write-ahead intent, and `finalize_if_ready`. `strip` is the library's.
use mootloop.Base.{
  ℕ, ◌+◌, Bool, true, false, ◌&&◌, not, none, some, List, [], ◌∷◌, Text, codes, text_eq_key,
  if◌then◌else◌, leb, ok, err, orchestrator_error,
}
use mootloop.Base.Dict.{Dict, contains}
use mootloop.Journal.Events.{
  JournalEvent, cap_raised, run_paused, run_resumed, checkpoint_reached, checkpoint_cleared,
  run_reopened, run_finished, turn_intent, BillingMode, RunState, RunStatus, checkpoint,
  needs_attention, is_terminal,
}
use mootloop.Rubric.Final.{sorted_items}
use mootloop.Orchestrator.{RunContext, Library, Op, emit, load_state}
use mootloop.Orchestrator.Spend.{effective_max_attempts}
use mootloop.Orchestrator.Record.{finalize, finalizes}
use mootloop.Orchestrator.Land.{is_paused}

unfoldable pub is_at_checkpoint : RunStatus → Bool
is_at_checkpoint checkpoint = true
is_at_checkpoint _ = false

unfoldable pub needs_operator : RunStatus → Bool
needs_operator needs_attention = true
needs_operator _ = false

-- The boundary of the last checkpoint in the journal.
unfoldable pub last_boundary : {Usd : Type 0} → Text → List (JournalEvent Usd) → Text
last_boundary boundary [] = boundary
last_boundary boundary (checkpoint_reached b ∷ events) = last_boundary b events
last_boundary boundary (_ ∷ events) = last_boundary boundary events

abbrev pub is_empty_text : Text → Bool
is_empty_text [] = true
is_empty_text (c ∷ s) = false

module _ {F Usd : Type 0} (lib : Library F Usd) (ctx : RunContext F Usd) where
  unfoldable pub record_turn_intent : Text → Text → BillingMode → Usd → Op Usd Unit
  unfolding emit
  record_turn_intent turn_id model billing_mode usd =
      emit (turn_intent turn_id model billing_mode usd)

  unfoldable pub finish_needs_attention : Op Usd Unit
  unfolding emit
  finish_needs_attention = emit (run_finished needs_attention)

  unfoldable pub raise_cap : Usd → Op Usd Unit
  unfolding emit
  raise_cap to_usd = emit (cap_raised to_usd)

  unfoldable pub pause_run : Text → Op Usd Unit
  unfolding emit load_state is_terminal
  pause_run reason files =
      if is_terminal (load_state lib ctx files).status
      then (files, err orchestrator_error)
      else emit (run_paused reason) files

  unfoldable pub resume_run : Op Usd Unit
  unfolding emit load_state
  resume_run files =
      if is_paused (load_state lib ctx files).status
      then emit run_resumed files
      else (files, err orchestrator_error)

  unfoldable pub continue_run : Op Usd Unit
  unfolding emit load_state is_at_checkpoint last_boundary
  continue_run files =
      if is_at_checkpoint (load_state lib ctx files).status
      then emit (checkpoint_cleared (last_boundary (codes "unknown") files.events)) files
      else (files, err orchestrator_error)

  -- The comprehension of `attention_blockers`, which keeps the turns.
  unfoldable pub blockers_among : ℕ → RunState Usd → Dict Text ℕ → List Text
  blockers_among ceiling state [] = []
  blockers_among ceiling state ((turn_id, attempts) ∷ discarded) =
      let rest = blockers_among ceiling state discarded in
      if leb ceiling attempts && not (contains turn_id state.completed_turns)
      then turn_id ∷ rest
      else rest

  unfoldable pub attention_blockers : ℕ → RunState Usd → List Text
  unfolding effective_max_attempts blockers_among sorted_items
  attention_blockers grant_attempts state =
      blockers_among (effective_max_attempts lib ctx state + grant_attempts) state
        (sorted_items state.discarded)

  -- `if blockers: raise`, and then the append.
  unfoldable pub unless_blocked : List Text → JournalEvent Usd → Op Usd Unit
  unfolding emit
  unless_blocked [] event files = emit event files
  unless_blocked (b ∷ bs) event files = (files, err orchestrator_error)

  -- `reopen_run`; a negative grant, which it refuses, is no number of the model.
  unfoldable pub reopen_run : Text → ℕ → Text → Op Usd Unit
  unfolding load_state needs_operator attention_blockers unless_blocked
  reopen_run reason grant_attempts reopened_by files =
      let state = load_state lib ctx files in
      if is_empty_text (lib.stages.strip reason)
      then (files, err orchestrator_error)
      else if not (needs_operator state.status)
      then (files, err orchestrator_error)
      else unless_blocked (attention_blockers grant_attempts state)
          (run_reopened (lib.stages.strip reason) grant_attempts false reopened_by) files

  -- `finalize_if_ready`; `state.task` is none before the run has started.
  unfoldable pub finalize_if_ready : Op Usd Unit
  unfolding load_state finalizes finalize
  finalize_if_ready files =
      let state = load_state lib ctx files in
      elim state.task [
        | none ↦ (files, ok _)
        | some task ↦ if finalizes state.status then finalize lib ctx files else (files, ok _)
      ]
