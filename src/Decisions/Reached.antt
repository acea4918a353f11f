-- ===== src/Decisions/Reached.antt =====
-- decisions.py, the logs that a run can come to: from an empty one by the calls that write to it.
use mootloop.Base.{Bool, Option, List, Text}
use mootloop.Turn.{TurnSpec, DraftOutput}
use mootloop.Journal.Events.{JournalEvent}
use mootloop.Decisions.{ResolutionAction, ResolutionSource}
use mootloop.Decisions.Derive.{derive_drafts_and_store}
use mootloop.Decisions.Derived.{derive_drafts_and_store-IsLog}
use mootloop.Decisions.Resolve.{Desk, resolve_on_desk}
use mootloop.Decisions.Log.{IsLog, empty-IsLog, no_decisions}
use mootloop.Decisions.Resolved.{resolve_on_desk-IsLog}

module _ {Usd : Type 0} (upper repr : Text → Text) (run_id : Text) where
  -- A journal may also be written by others between the calls.
  pub data Reached : Desk Usd → Type 0 where
    begun :
        (events : List (JournalEvent Usd))
        → Reached (record { store = no_decisions; events = events })
    journaled :
        {desk : Desk Usd} (events : List (JournalEvent Usd))
        → Reached desk
        → Reached (record { store = desk.store; events = events })
    derived :
        {desk : Desk Usd} (document : Bool) (drafts : List (TurnSpec × DraftOutput))
        → Reached desk
        → Reached (record {
          store = (derive_drafts_and_store upper repr document run_id desk.store drafts).store;
          events = desk.events;
        })
    resolved :
        {desk : Desk Usd} (action : ResolutionAction) (chosen_key : Option Text)
        (note decided_by : Text) (source : ResolutionSource) (decision_id now : Text)
        → Reached desk
        → Reached (resolve_on_desk action chosen_key note decided_by source desk decision_id now).0

  -- Every log that derivations and resolutions come to, in any order and errors included, has the
  -- ids numbered from 0 without a gap, each record under its id, and no logical gate (kind and
  -- summary) twice.
  pub Reached-IsLog : {desk : Desk Usd} → Reached desk → IsLog run_id desk.store
  Reached-IsLog (begun events) = empty-IsLog run_id
  Reached-IsLog (journaled events before) = Reached-IsLog before
  Reached-IsLog (derived {desk} document drafts before) =
      derive_drafts_and_store-IsLog upper repr document run_id drafts desk.store
        (Reached-IsLog before)
  Reached-IsLog (resolved {desk} action chosen_key note decided_by source decision_id now before) =
      resolve_on_desk-IsLog action chosen_key note decided_by source desk run_id decision_id now
        (Reached-IsLog before)
