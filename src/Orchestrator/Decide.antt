-- ===== src/Orchestrator/Decide.antt =====
-- decisions.py, `resolve`: the resolution of a decision, and the finalization of the run after it.
use mootloop.Base.{Option, Text, Result, ok, err}
use mootloop.Decisions.{Decision, ResolutionAction, ResolutionSource}
use mootloop.Decisions.Resolve.{Desk, resolve_on_desk}
use mootloop.Orchestrator.{RunContext, Library, RunFiles, Op, ◌>>>◌, done_with}
use mootloop.Orchestrator.Verbs.{finalize_if_ready}

module _ {Usd : Type 0} where
  abbrev pub desk_of : RunFiles Usd → Desk Usd
  desk_of files = record { store = files.store; events = files.events }

  abbrev pub on_desk : Desk Usd → RunFiles Usd → RunFiles Usd
  on_desk desk files = record files { store = desk.store; events = desk.events }

module _ {F Usd : Type 0} (lib : Library F Usd) (ctx : RunContext F Usd) where
  -- `orchestrator.finalize_if_ready(...)`, and the return of the decision.
  unfoldable pub finalized : Decision → Op Usd Decision
  unfolding finalize_if_ready ◌>>>◌
  finalized d = finalize_if_ready lib ctx >>> λ done. done_with d

  unfoldable pub after_desk : Desk Usd × Result Decision → Op Usd Decision
  unfolding finalized
  after_desk (desk, err raised) files = (on_desk desk files, err raised)
  after_desk (desk, ok d) files = finalized d (on_desk desk files)

  module _ (action : ResolutionAction) (chosen_key : Option Text) (note decided_by : Text)
      (source : ResolutionSource) where
    unfoldable pub resolve : Text → Text → Op Usd Decision
    unfolding resolve_on_desk after_desk
    resolve decision_id now files =
        after_desk
          (resolve_on_desk action chosen_key note decided_by source (desk_of files) decision_id now)
          files
