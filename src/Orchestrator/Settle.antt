-- ===== src/Orchestrator/Settle.antt =====
-- orchestrator.py: the checkpoints of a gated run, and what follows the completion of a turn.
use mootloop.Base.{
  ◌&&◌, not, Option, none, some, List, [], ◌∷◌, ◌++◌, Text, codes, text_eq_key, ◌==◌, if◌then◌else◌,
  member, all, ok,
}
use mootloop.Turn.{TurnSpec, TurnRecord}
use mootloop.Journal.Events.{JournalEvent, checkpoint_reached, RunState}
use mootloop.Decisions.{policy_delegable, open_by_taxonomy}
use mootloop.Orchestrator.{
  RunContext, Library, RunFiles, Op, ◌>>>◌, reads, done_with, is_running, load_state, plan,
}
use mootloop.Orchestrator.Spend.{over_cap, cap_transition}
use mootloop.Orchestrator.Record.{Recorded, kept, is_gated, finalize}

abbrev pub checkpoint_stages : List Text
checkpoint_stages =
    codes "partner_loop"
    ∷ codes "oc_attack"
    ∷ codes "judge_panel"
    ∷ codes "narrative_assessment"
    ∷ []

-- The one stage of all the specs, if there is one.
unfoldable pub common_stage : List TurnSpec → Option Text
common_stage [] = none
common_stage (s ∷ specs) = if all (λ t. t.stage == s.stage) specs then some s.stage else none

abbrev pub is_boundary : List Text → Option Text → Option Text
is_boundary cleared none = none
is_boundary cleared (some stage) =
    if member stage checkpoint_stages && not (member stage cleared) then some stage else none

module _ {F Usd : Type 0} (lib : Library F Usd) (ctx : RunContext F Usd) where
  -- `_maybe_checkpoint`: the boundary that it records, if any.
  unfoldable pub checkpoint_boundary : RunState Usd → RunFiles Usd → List TurnSpec → Option Text
  unfolding common_stage open_by_taxonomy
  checkpoint_boundary state files specs =
      elim (is_boundary state.cleared_checkpoints (common_stage specs)) [
        | some stage ↦ some stage
        | none ↦
            if member (codes "policy_decisions") state.cleared_checkpoints
            then none
            else elim (open_by_taxonomy files.store ctx.gates policy_delegable) [
              | [] ↦ none
              | d ∷ ds ↦ some (codes "policy_decisions")
            ]
      ]

  abbrev pub checkpoint_events : Option Text → List (JournalEvent Usd)
  checkpoint_events none = []
  checkpoint_events (some boundary) = checkpoint_reached boundary ∷ []

  unfoldable pub maybe_checkpoint : Op Usd Unit
  unfolding load_state is_gated is_running plan checkpoint_boundary reads ◌>>>◌
  maybe_checkpoint files =
      let state = load_state lib ctx files in
      if is_gated state.mode && is_running state.status
      then (reads (λ f. plan lib ctx [] state) >>> λ specs f. (
        record f { events = f.events ++ checkpoint_events (checkpoint_boundary state f specs) },
        ok _,
      ))
          files
      else (files, ok _)

  -- What follows the completion: the cap, or the finish and the checkpoint.
  unfoldable pub settle_run : TurnRecord → Op Usd Recorded
  unfolding over_cap cap_transition load_state finalize maybe_checkpoint ◌>>>◌
  settle_run r files =
      if over_cap lib ctx (load_state lib ctx files)
      then (cap_transition lib ctx >>> λ capped. done_with (kept r)) files
      else (finalize lib ctx >>> λ closed. maybe_checkpoint >>> λ checked. done_with (kept r)) files
