-- ===== src/Journal/Events.antt =====
-- models/events.py: the journal's events and the `RunState` that they fold into. `Usd` is the
-- float type of the dollar amounts. A JSON payload is its canonical text.
use mootloop.Base.{ℕ, Bool, true, false, Option, none, List, [], Text, text_eq_key}
use mootloop.Base.Dict.{Dict, contains}
use mootloop.Turn.{GateResult, TurnRecord}

pub data RunStatus : Type 0 where
  running finished needs_attention capped needs_decisions checkpoint paused : RunStatus

pub data RunMode : Type 0 where
  autonomous gated observed : RunMode

pub data BillingMode : Type 0 where
  subscription api : BillingMode

pub data Lane : Type 0 where
  interactive run : Lane

pub record QueueIntent : Type 0 where
  pub item_id : Text
  pub lane : Lane
  pub kind : Text
  pub enqueued_at : Text
  pub payload : Text
  pub payload_sha256 : Text

pub record RunStarted : Type 0 where
  pub run_id : Text
  pub matter_id : Text
  pub task : Text
  pub rubric_version : Text
  pub config_digest : Text
  pub context_manifest_sha256 : Option Text
  pub mode : RunMode
  pub task_spec_id : Option Text
  pub task_spec_lock_id : Option Text
  pub task_spec_lock_sha256 : Option Text
  pub queue_intent : Option QueueIntent

pub record SpendRecorded (Usd : Type 0) : Type 0 where
  pub turn_id : Text
  pub input_tokens : ℕ
  pub cache_read : ℕ
  pub cache_write : ℕ
  pub output_tokens : ℕ
  pub model : Text
  pub usd_equiv : Usd
  pub billing_mode : BillingMode
  pub provider_call_id : Option Text

pub record DecisionRecorded : Type 0 where
  pub decision_id : Text
  pub decision_kind : Text
  pub action : Text
  pub status : Text
  pub decided_by : Text
  pub source : Text
  pub decided_at : Text

pub data JournalEvent (Usd : Type 0) : Type 0 where
  run_started : RunStarted → JournalEvent Usd
  run_enqueued : (item_id payload_sha256 : Text) → JournalEvent Usd
  stage_started : (stage : Text) → JournalEvent Usd
  turn_completed : (record_ : TurnRecord) → JournalEvent Usd
  turn_discarded : (turn_id reason : Text) (attempt : ℕ) (detail : Text) → JournalEvent Usd
  gate_evaluated : (turn_id : Text) (result : GateResult) → JournalEvent Usd
  spend_recorded : SpendRecorded Usd → JournalEvent Usd
  run_finished : (status : RunStatus) → JournalEvent Usd
  cap_raised : (to_usd : Usd) → JournalEvent Usd
  decision_recorded : DecisionRecorded → JournalEvent Usd
  checkpoint_reached : (boundary : Text) → JournalEvent Usd
  checkpoint_cleared : (boundary : Text) → JournalEvent Usd
  run_paused : (reason : Text) → JournalEvent Usd
  run_resumed : JournalEvent Usd
  run_reopened :
      (reason : Text) (grant_attempts : ℕ) (forced : Bool) (reopened_by : Text) → JournalEvent Usd
  turn_intent :
      (turn_id model : Text) (billing_mode : BillingMode) (max_plausible_usd : Usd)
      → JournalEvent Usd

pub record RunState (Usd : Type 0) : Type 0 where
  pub run_id : Option Text
  pub matter_id : Option Text
  pub task : Option Text
  pub rubric_version : Option Text
  pub context_manifest_sha256 : Option Text
  pub task_spec_id : Option Text
  pub mode : RunMode
  pub status : RunStatus
  pub pause_reason : Option Text
  pub current_stage : Option Text
  pub completed_turns : Dict Text TurnRecord
  pub discarded : Dict Text ℕ
  pub discard_details : Dict Text Text
  pub cleared_checkpoints : List Text
  pub total_spend_usd : Usd
  pub total_input_tokens : ℕ
  pub total_cache_read : ℕ
  pub total_cache_write : ℕ
  pub total_output_tokens : ℕ
  pub cap_raised_to : Option Usd
  pub attempts_granted : ℕ
  pub pending_intents : Dict Text Usd

-- `RunState()`, with the float 0.0.
unfoldable pub initial : {Usd : Type 0} → Usd → RunState Usd
initial zero_usd = record {
  run_id = none;
  matter_id = none;
  task = none;
  rubric_version = none;
  context_manifest_sha256 = none;
  task_spec_id = none;
  mode = autonomous;
  status = running;
  pause_reason = none;
  current_stage = none;
  completed_turns = [];
  discarded = [];
  discard_details = [];
  cleared_checkpoints = [];
  total_spend_usd = zero_usd;
  total_input_tokens = 0;
  total_cache_read = 0;
  total_cache_write = 0;
  total_output_tokens = 0;
  cap_raised_to = none;
  attempts_granted = 0;
  pending_intents = [];
}

-- `RunState.finished`: any status but `running`.
unfoldable pub is_finished : RunStatus → Bool
is_finished running = false
is_finished _ = true

unfoldable pub is_terminal : RunStatus → Bool
is_terminal finished = true
is_terminal needs_attention = true
is_terminal capped = true
is_terminal _ = false

unfoldable pub is_completed : {Usd : Type 0} → RunState Usd → Text → Bool
is_completed s turn_id = contains turn_id s.completed_turns
