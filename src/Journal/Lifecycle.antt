-- ===== src/Journal/Lifecycle.antt =====
-- What the fold does to the run's status: which events reopen a halted run.
use mootloop.Base.{◌≡◌, ◌↔◌, Bool, true, false, List, [], ◌∷◌, arith, All}
use mootloop.Base.Floats.{FloatOps}
use mootloop.Journal.Events.{
  RunStatus, running, finished, needs_attention, capped, checkpoint, paused, JournalEvent,
  run_finished, cap_raised, checkpoint_reached, checkpoint_cleared, run_paused, run_resumed,
  run_reopened, RunState, is_finished,
}
use mootloop.Journal.Fold.{
  step, fold_from, reopen_capped, reopen_checkpoint, reopen_paused, reopen_attention,
}

module _ {Usd : Type 0} where
  -- The documented ways out of a halt: each pause has its own verb, and a finish may name the
  -- status `running` itself.
  abbrev pub Reopens : RunStatus → JournalEvent Usd → Type 0
  Reopens s (run_finished t) = t ≡ running
  Reopens s (cap_raised usd) = s ≡ capped
  Reopens s (checkpoint_cleared boundary) = s ≡ checkpoint
  Reopens s run_resumed = s ≡ paused
  Reopens s (run_reopened reason grant forced who) = s ≡ needs_attention
  Reopens s _ = ⊥

  -- An event that can halt the run, or that names a status.
  abbrev pub sets_status : JournalEvent Usd → Bool
  sets_status (run_finished t) = true
  sets_status (checkpoint_reached boundary) = true
  sets_status (run_paused reason) = true
  sets_status _ = false

module _ {Usd : Type 0} (floats : FloatOps Usd) where
  -- From a status other than `running`, one event leads back to `running` exactly when it is the
  -- verb of that status: a raised cap for `capped`, a cleared checkpoint for `checkpoint`, a resume
  -- for `paused`, a reopening for `needs_attention`, or a finish event that says `running`. No
  -- other event reopens a run.
  pub step-Reopens :
      (s : RunState Usd) (e : JournalEvent Usd)
      → is_finished s.status ≡ true
      → ((step floats s e).status ≡ running) ↔ Reopens s.status e
  unfolding step is_finished reopen_capped reopen_checkpoint reopen_paused reopen_attention
  step-Reopens s (run_finished t) h = ((λ e. e), (λ e. e))
  step-Reopens s (cap_raised usd) h = (ground arith, ground arith)
  step-Reopens s _ h = (ground arith, ground arith)

  step-finished :
      (e : JournalEvent Usd) (s : RunState Usd)
      → s.status ≡ finished
      → sets_status e ≡ false
      → (step floats s e).status ≡ finished
  unfolding step reopen_capped reopen_checkpoint reopen_paused reopen_attention
  step-finished (cap_raised usd) s h q = ground arith
  step-finished _ s h q = ground arith

  -- Once a run is finished, it stays finished through any later events, resumes, reopenings, raised
  -- caps and cleared checkpoints among them, as long as none of them is a finish, a checkpoint or a
  -- pause.
  pub fold_from-finished :
      (events : List (JournalEvent Usd)) (s : RunState Usd)
      → s.status ≡ finished
      → All (λ e. sets_status e ≡ false) events
      → (fold_from floats s events).status ≡ finished
  unfolding fold_from
  fold_from-finished [] s h quiet = h
  fold_from-finished (e ∷ events) s h quiet =
      fold_from-finished events (step floats s e) (step-finished e s h quiet.0) quiet.1
