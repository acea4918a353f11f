-- ===== src/Journal/Fold.antt =====
-- journal.py, `fold`: the replay of the events into a `RunState`. `step` is the body of its loop.
use mootloop.Base.{◌+◌, Option, none, some, List, [], ◌∷◌, Text, set_add, text_eq_key}
use mootloop.Base.Dict.{insert, pop}
use mootloop.Base.Floats.{FloatOps}
use mootloop.Journal.Events.{
  RunStatus, running, needs_attention, capped, checkpoint, paused, RunStarted, SpendRecorded,
  JournalEvent, run_started, run_enqueued, stage_started, turn_completed, turn_discarded,
  gate_evaluated, spend_recorded, run_finished, cap_raised, decision_recorded, checkpoint_reached,
  checkpoint_cleared, run_paused, run_resumed, run_reopened, turn_intent, RunState, initial,
}

-- `if state.status == "capped": state.status = "running"`, and so for the other three pauses.
unfoldable pub reopen_capped : RunStatus → RunStatus
reopen_capped capped = running
reopen_capped s = s

unfoldable pub reopen_checkpoint : RunStatus → RunStatus
reopen_checkpoint checkpoint = running
reopen_checkpoint s = s

unfoldable pub reopen_paused : RunStatus → RunStatus
reopen_paused paused = running
reopen_paused s = s

unfoldable pub reopen_attention : RunStatus → RunStatus
reopen_attention needs_attention = running
reopen_attention s = s

-- A resume clears the reason of the pause that it ends.
unfoldable pub resumed_reason : RunStatus → Option Text → Option Text
resumed_reason paused reason = none
resumed_reason s reason = reason

-- `if event.detail`: an empty detail leaves the last one.
unfoldable pub keep_detail : Text → Text → List (Text × Text) → List (Text × Text)
keep_detail turn_id [] details = details
keep_detail turn_id (c ∷ s) details = insert turn_id (c ∷ s) details

module _ {Usd : Type 0} (floats : FloatOps Usd) where
  unfoldable pub start : RunState Usd → RunStarted → RunState Usd
  start s e = record s {
    run_id = some e.run_id;
    matter_id = some e.matter_id;
    task = some e.task;
    rubric_version = some e.rubric_version;
    context_manifest_sha256 = e.context_manifest_sha256;
    task_spec_id = e.task_spec_id;
    mode = e.mode;
  }

  unfoldable pub spend : RunState Usd → SpendRecorded Usd → RunState Usd
  spend s e = record s {
    total_spend_usd = floats.add s.total_spend_usd e.usd_equiv;
    total_input_tokens = s.total_input_tokens + e.input_tokens;
    total_cache_read = s.total_cache_read + e.cache_read;
    total_cache_write = s.total_cache_write + e.cache_write;
    total_output_tokens = s.total_output_tokens + e.output_tokens;
    pending_intents = pop e.turn_id s.pending_intents;
  }

  unfoldable pub step : RunState Usd → JournalEvent Usd → RunState Usd
  unfolding start spend
  step s (run_started e) = start s e
  step s (stage_started stage) = record s { current_stage = some stage }
  step s (turn_completed r) = record s {
    completed_turns = insert r.spec.turn_id r s.completed_turns;
  }
  step s (turn_discarded turn_id reason attempt detail) = record s {
    discarded = insert turn_id attempt s.discarded;
    discard_details = keep_detail turn_id detail s.discard_details;
  }
  step s (spend_recorded e) = spend s e
  step s (turn_intent turn_id model billing_mode max_plausible_usd) = record s {
    pending_intents = insert turn_id max_plausible_usd s.pending_intents;
  }
  step s (run_finished status) = record s { status = status }
  step s (cap_raised to_usd) = record s {
    cap_raised_to = some to_usd;
    status = reopen_capped s.status;
  }
  step s (checkpoint_reached boundary) = record s { status = checkpoint }
  step s (checkpoint_cleared boundary) = record s {
    cleared_checkpoints = set_add boundary s.cleared_checkpoints;
    status = reopen_checkpoint s.status;
  }
  step s (run_paused reason) = record s { status = paused; pause_reason = some reason }
  step s run_resumed = record s {
    pause_reason = resumed_reason s.status s.pause_reason;
    status = reopen_paused s.status;
  }
  step s (run_reopened reason grant_attempts forced reopened_by) = record s {
    attempts_granted = s.attempts_granted + grant_attempts;
    status = reopen_attention s.status;
  }
  step s (gate_evaluated turn_id result) = s
  step s (decision_recorded e) = s
  step s (run_enqueued item_id payload_sha256) = s

  unfoldable pub fold_from : RunState Usd → List (JournalEvent Usd) → RunState Usd
  fold_from s [] = s
  fold_from s (e ∷ events) = fold_from (step s e) events

  unfoldable pub fold : List (JournalEvent Usd) → RunState Usd
  unfolding fold_from
  fold = fold_from (initial (floats.of_int 0))
