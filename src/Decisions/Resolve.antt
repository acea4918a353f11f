-- ===== src/Decisions/Resolve.antt =====
-- decisions.py, `resolve`: what one resolution of one decision does to the decision log and records
-- in the journal, under the run lock. It is all of `resolve` but the call of
-- `orchestrator.finalize_if_ready` that follows where it succeeds; Orchestrator/Decide composes the
-- two. `load_run_context` only reads. A result comes with what the call left of the log and of the
-- journal, also where it raised.
use mootloop.Base.{
  Bool, true, false, ◌&&◌, not, Option, none, some, List, [], ◌∷◌, ◌++◌, Text, codes, text_eq_key,
  ◌==◌, if◌then◌else◌, any, list_eq, Result, ok, err, decision_error,
}
use mootloop.Journal.Events.{JournalEvent, DecisionRecorded, decision_recorded}
use mootloop.Decisions.{
  Decision, DecisionResolution, DecisionOption, DecisionStatus, undecided, approved, modified,
  denied, ResolutionAction, approve, modify, deny, ResolutionSource, human, policy, DecisionStore,
  get, append, is_open, status_for_action, kind_value,
}

-- The literals' texts.
unfoldable pub action_value : ResolutionAction → Text
action_value approve = codes "approve"
action_value modify = codes "modify"
action_value deny = codes "deny"

unfoldable pub status_value : DecisionStatus → Text
status_value undecided = codes "open"
status_value approved = codes "approved"
status_value modified = codes "modified"
status_value denied = codes "denied"

unfoldable pub source_value : ResolutionSource → Text
source_value human = codes "human"
source_value policy = codes "policy"

-- The log and the journal of the run.
pub record Desk (Usd : Type 0) : Type 0 where
  pub store : DecisionStore
  pub events : List (JournalEvent Usd)

-- `stored.model_copy(update={"decided_at": now}) == requested`, where `now` is the requested time.
abbrev pub resolution_fields : DecisionResolution → List Text
resolution_fields r = action_value r.action ∷ r.note ∷ r.decided_by ∷ source_value r.source ∷ []

abbrev pub chosen_texts : Option Text → List Text
chosen_texts none = []
chosen_texts (some key) = key ∷ []

unfoldable pub is_same_resolution : DecisionResolution → DecisionResolution → Bool
unfolding action_value source_value
is_same_resolution stored requested =
    list_eq (resolution_fields stored) (resolution_fields requested)
    && list_eq (chosen_texts stored.chosen_key) (chosen_texts requested.chosen_key)

-- `chosen_key if action != "approve" else (chosen_key or recommended)`
unfoldable pub chosen_for : ResolutionAction → Option Text → Text → Option Text
chosen_for approve none recommended = some recommended
chosen_for approve (some []) recommended = some recommended
chosen_for _ chosen_key recommended = chosen_key

-- `action == "modify" and not chosen_key`
unfoldable pub lacks_choice : ResolutionAction → Option Text → Bool
lacks_choice modify none = true
lacks_choice modify (some []) = true
lacks_choice _ _ = false

-- `chosen is None or chosen in {o.key for o in options}`
unfoldable pub is_option : Option Text → List DecisionOption → Bool
is_option none options = true
is_option (some key) options = any (λ o. o.key == key) options

unfoldable pub recorded : Decision → DecisionResolution → DecisionRecorded
unfolding kind_value action_value status_value source_value
recorded decision resolution = record {
  decision_id = decision.decision_id;
  decision_kind = kind_value decision.kind;
  action = action_value resolution.action;
  status = status_value decision.status;
  decided_by = resolution.decided_by;
  source = source_value resolution.source;
  decided_at = resolution.decided_at;
}

-- The five compared fields.
abbrev pub compared : DecisionRecorded → List Text
compared e = e.action ∷ e.status ∷ e.decided_by ∷ e.source ∷ e.decided_at ∷ []

unfoldable pub resolved_by : Decision → DecisionResolution → Decision
unfolding status_for_action
resolved_by decision requested = record {
  decision_id = decision.decision_id;
  run_id = decision.run_id;
  request_id = decision.request_id;
  kind = decision.kind;
  proposal = decision.proposal;
  status = status_for_action requested.action;
  resolution = some requested;
}

module _ (action : ResolutionAction) (chosen_key : Option Text) where
  unfoldable pub is_refused : Decision → Bool
  unfolding lacks_choice is_option chosen_for
  is_refused decision =
      if lacks_choice action chosen_key
      then true
      else not (
          is_option (chosen_for action chosen_key decision.proposal.recommended)
            decision.proposal.options)

  module _ (note decided_by : Text) (source : ResolutionSource) where
    unfoldable pub requested_resolution : Decision → Text → DecisionResolution
    unfolding chosen_for
    requested_resolution decision now = record {
      action = action;
      chosen_key = chosen_for action chosen_key decision.proposal.recommended;
      note = note;
      decided_by = decided_by;
      source = source;
      decided_at = now;
    }

module _ {Usd : Type 0} where
  -- `isinstance(event, DecisionRecorded) and event.decision_id == decision_id`
  unfoldable pub later : Text → Option DecisionRecorded → JournalEvent Usd → Option DecisionRecorded
  later decision_id found (decision_recorded e) =
      if e.decision_id == decision_id then some e else found
  later decision_id found _ = found

  -- The journal's latest record of a decision.
  unfoldable pub latest :
      Text → Option DecisionRecorded → List (JournalEvent Usd) → Option DecisionRecorded
  unfolding later
  latest decision_id found [] = found
  latest decision_id found (event ∷ events) =
      latest decision_id (later decision_id found event) events

  unfoldable pub record_beside :
      Option DecisionRecorded
      → Decision
      → DecisionResolution
      → List (JournalEvent Usd)
      → Result (List (JournalEvent Usd))
  unfolding recorded
  record_beside none decision resolution events =
      ok (events ++ decision_recorded (recorded decision resolution) ∷ [])
  record_beside (some e) decision resolution events =
      if list_eq (compared e) (compared (recorded decision resolution))
      then ok events
      else err decision_error

  unfoldable pub record_resolution_event :
      Decision → DecisionResolution → List (JournalEvent Usd) → Result (List (JournalEvent Usd))
  unfolding latest record_beside
  record_resolution_event decision resolution events =
      record_beside (latest decision.decision_id none events) decision resolution events

  -- The return after the journal's record, or its error.
  unfoldable pub finished :
      DecisionStore
      → List (JournalEvent Usd)
      → Decision
      → Result (List (JournalEvent Usd))
      → Desk Usd × Result Decision
  finished store events decision (err raised) =
      (record { store = store; events = events }, err raised)
  finished store events decision (ok after) =
      (record { store = store; events = after }, ok decision)

  unfoldable pub finish :
      DecisionStore
      → List (JournalEvent Usd)
      → Decision
      → DecisionResolution
      → Desk Usd × Result Decision
  unfolding record_resolution_event finished
  finish store events decision resolution =
      finished store events decision (record_resolution_event decision resolution events)

  -- A decision that is no longer open: the exact retry, or an error.
  unfoldable pub settle_again :
      Desk Usd
      → Decision
      → Option DecisionResolution
      → DecisionResolution
      → Desk Usd × Result Decision
  unfolding is_same_resolution finish
  settle_again desk decision none requested = (desk, err decision_error)
  settle_again desk decision (some stored) requested =
      if is_same_resolution stored requested
      then finish desk.store desk.events decision stored
      else (desk, err decision_error)

  unfoldable pub settle : Desk Usd → Decision → DecisionResolution → Desk Usd × Result Decision
  unfolding is_open append resolved_by finish settle_again
  settle desk decision requested =
      if is_open decision.status
      then finish (append (resolved_by decision requested) desk.store) desk.events
          (resolved_by decision requested) requested
      else settle_again desk decision decision.resolution requested

  module _ (action : ResolutionAction) (chosen_key : Option Text) (note decided_by : Text)
      (source : ResolutionSource) (desk : Desk Usd) where
    unfoldable pub resolve_found : Option Decision → Text → Desk Usd × Result Decision
    unfolding settle requested_resolution is_refused
    resolve_found none now = (desk, err decision_error)
    resolve_found (some decision) now =
        if is_refused action chosen_key decision
        then (desk, err decision_error)
        else settle desk decision
            (requested_resolution action chosen_key note decided_by source decision now)

    -- `resolve` without the finalization.
    unfoldable pub resolve_on_desk : Text → Text → Desk Usd × Result Decision
    unfolding get resolve_found
    resolve_on_desk decision_id now = resolve_found (get decision_id desk.store) now
