-- ===== src/Decisions/Settled.antt =====
-- What a resolution leaves: a decision that is settled for good.
use mootloop.Base.{
  ◌≡◌, refl, sym, ap, ◌∙◌, inl, inr, true, false, Option, none, some, List, Text, Bool-cases,
  Result, ok, err, decision_error, Ensures,
}
use mootloop.Journal.Events.{JournalEvent}
use mootloop.Decisions.{
  Decision, DecisionStore, DecisionResolution, ResolutionAction, approve, modify, deny,
  ResolutionSource, get, append, is_open, status_for_action,
}
use mootloop.Decisions.Log.{IsLog, get-id, get-append}
use mootloop.Decisions.Resolve.{
  Desk, finished, finish, settle, settle_again, resolve_on_desk, resolve_found,
  requested_resolution, is_refused, resolved_by, record_resolution_event, latest,
  is_same_resolution, resolution_fields, chosen_texts,
}
use mootloop.Decisions.Resolved.{record_again, list_eq-same}

status_for_action-closed : (action : ResolutionAction) → is_open (status_for_action action) ≡ false
unfolding is_open status_for_action
status_for_action-closed approve = refl
status_for_action-closed modify = refl
status_for_action-closed deny = refl

is_same_resolution_self : (r : DecisionResolution) → is_same_resolution r r ≡ true
unfolding is_same_resolution
is_same_resolution_self r =
    rw (list_eq-same (resolution_fields r), list_eq-same (chosen_texts r.chosen_key)) refl

module _ (action : ResolutionAction) (chosen_key : Option Text) (note decided_by : Text)
    (source : ResolutionSource) (d v : Decision) (same : v.proposal ≡ d.proposal) where
  -- The proposal decides what is asked and whether it is refused.
  asked-same :
      (now : Text)
      → requested_resolution action chosen_key note decided_by source d now
        ≡ requested_resolution action chosen_key note decided_by source v now
  unfolding requested_resolution
  asked-same now = rw same refl

  is_refused-same : is_refused action chosen_key v ≡ is_refused action chosen_key d
  unfolding is_refused
  is_refused-same = rw same refl

module _ {Usd : Type 0} where
  finished-ok :
      (store : DecisionStore) (events : List (JournalEvent Usd)) (d v : Decision)
      (after : Result (List (JournalEvent Usd)))
      → (finished store events d after).1 ≡ ok v
      → let at = (finished store events d after).0 in
        (after ≡ ok at.events) × (at.store ≡ store) × (v ≡ d)
  unfolding finished
  finished-ok store events d v (err raised) e = cc
  finished-ok store events d v (ok after) e = (refl, refl, cc)

  -- The state that an exact retry leaves as it is.
  pub record IsSettled (requested : DecisionResolution) (decision_id : Text) (at : Desk Usd)
      (v : Decision) : Type 0 where
    pub stored : DecisionResolution
    pub found : get decision_id at.store ≡ some v
    pub closed : is_open v.status ≡ false
    pub kept : v.resolution ≡ some stored
    pub same : is_same_resolution stored requested ≡ true
    pub logged : record_resolution_event v stored at.events ≡ ok at.events

  -- The record of a resolution, where the log already holds it.
  finish-IsSettled :
      (requested stored : DecisionResolution) (decision_id : Text) (store : DecisionStore)
      (events : List (JournalEvent Usd)) (d v : Decision)
      → get decision_id store ≡ some d
      → is_open d.status ≡ false
      → d.resolution ≡ some stored
      → is_same_resolution stored requested ≡ true
      → (finish store events d stored).1 ≡ ok v
      → IsSettled requested decision_id (finish store events d stored).0 v × (v ≡ d)
  unfolding finish record_resolution_event
  finish-IsSettled requested stored decision_id store events d v found closed kept same e =
      let after = record_resolution_event d stored events in
      let done = finished-ok store events d v after e in
      (
        record {
          stored = stored;
          found = rw (done.1, done.2) found;
          closed = rw (done.2) closed;
          kept = rw (done.2) kept;
          same = same;
          logged = rw (done.2) (
              record_again d stored events (finished store events d after).0.events
                (latest d.decision_id none events) refl done.0);
        },
        done.2,
      )

  settle_again-IsSettled :
      (requested : DecisionResolution) (decision_id : Text) (desk : Desk Usd) (d v : Decision)
      (stored : Option DecisionResolution)
      → get decision_id desk.store ≡ some d
      → is_open d.status ≡ false
      → d.resolution ≡ stored
      → (settle_again desk d stored requested).1 ≡ ok v
      → IsSettled requested decision_id (settle_again desk d stored requested).0 v × (v ≡ d)
  unfolding settle_again
  settle_again-IsSettled requested decision_id desk d v none found closed kept e = cc
  settle_again-IsSettled requested decision_id desk d v (some stored) found closed kept e =
      elim (Bool-cases (is_same_resolution stored requested)) [
        | inl same ↦ rw same (
            finish-IsSettled requested stored decision_id desk.store desk.events d v found closed
              kept same (rw same at e))
        | inr differ ↦ let raised : err decision_error ≡ ok v = rw differ at e in cc
      ]

  settle-IsSettled :
      (run_id decision_id : Text) (desk : Desk Usd) (d v : Decision)
      (requested : DecisionResolution)
      → IsLog run_id desk.store
      → get decision_id desk.store ≡ some d
      → (settle desk d requested).1 ≡ ok v
      → IsSettled requested decision_id (settle desk d requested).0 v × (v.proposal ≡ d.proposal)
  unfolding settle resolved_by
  settle-IsSettled run_id decision_id desk d v requested h found e =
      elim (Bool-cases (is_open d.status)) [
        | inl undone ↦
            let new = resolved_by d requested in
            let at : get decision_id (append new desk.store) ≡ some new =
              ap (λ k. get k (append new desk.store))
                (sym (get-id run_id decision_id desk.store d h found))
              ∙ get-append new desk.store in
            let done =
              finish-IsSettled requested requested decision_id (append new desk.store) desk.events
                new v at (status_for_action-closed requested.action) refl
                (is_same_resolution_self requested) (rw undone at e) in
            rw undone (done.0, ap (λ x. x.proposal) done.1)
        | inr closed ↦
            let done =
              settle_again-IsSettled requested decision_id desk d v d.resolution found closed refl
                (rw closed at e) in
            rw closed (done.0, ap (λ x. x.proposal) done.1)
      ]

  finished-Ensures :
      (store : DecisionStore) (events : List (JournalEvent Usd)) (d : Decision)
      (after : Result (List (JournalEvent Usd)))
      → ((finished store events d after).0.store ≡ store)
        × Ensures (λ v. v ≡ d) (finished store events d after).1
  unfolding finished
  finished-Ensures store events d (err raised) = (refl, _)
  finished-Ensures store events d (ok after) = (refl, refl)

  settle_again-closed :
      (desk : Desk Usd) (d : Decision) (stored : Option DecisionResolution)
      (requested : DecisionResolution)
      → let outcome = settle_again desk d stored requested in
        (outcome.0.store ≡ desk.store) × Ensures (λ v. v ≡ d) outcome.1
  unfolding settle_again finish
  settle_again-closed desk d none requested = (refl, _)
  settle_again-closed desk d (some stored) requested =
      elim (Bool-cases (is_same_resolution stored requested)) [
        | inl same ↦ rw same (
            finished-Ensures desk.store desk.events d
              (record_resolution_event d stored desk.events))
        | inr differ ↦ rw differ (refl, _)
      ]

  settle_again-retry :
      (at : Desk Usd) (v : Decision) (stored requested : DecisionResolution)
      (got : Option DecisionResolution)
      → got ≡ some stored
      → is_same_resolution stored requested ≡ true
      → record_resolution_event v stored at.events ≡ ok at.events
      → settle_again at v got requested ≡ (at, ok v)
  unfolding settle_again finish finished
  settle_again-retry at v stored requested got kept same logged = rw (kept, same, logged) refl

  module _ (action : ResolutionAction) (chosen_key : Option Text) (note decided_by : Text)
      (source : ResolutionSource) where
    abbrev call : Desk Usd → Text → Text → Desk Usd × Result Decision
    call = resolve_on_desk action chosen_key note decided_by source

    pub resolve_found-IsSettled :
        (run_id decision_id now : Text) (desk : Desk Usd) (v : Decision) (found : Option Decision)
        → IsLog run_id desk.store
        → get decision_id desk.store ≡ found
        → (resolve_found action chosen_key note decided_by source desk found now).1 ≡ ok v
        → IsSettled
            (requested_resolution action chosen_key note decided_by source v now)
            decision_id
            (resolve_found action chosen_key note decided_by source desk found now).0
            v
          × (is_refused action chosen_key v ≡ false)
    unfolding resolve_found
    resolve_found-IsSettled run_id decision_id now desk v none h at e = cc
    resolve_found-IsSettled run_id decision_id now desk v (some d) h at e =
        elim (Bool-cases (is_refused action chosen_key d)) [
          | inl refused ↦ let raised : err decision_error ≡ ok v = rw refused at e in cc
          | inr good ↦
              let done =
                settle-IsSettled run_id decision_id desk d v
                  (requested_resolution action chosen_key note decided_by source d now) h at
                  (rw good at e) in
              rw good (
                rw (← asked-same action chosen_key note decided_by source d v done.1 now) done.0,
                is_refused-same action chosen_key note decided_by source d v done.1 ∙ good,
              )
        ]

    pub retry :
        (decision_id now later : Text) (at : Desk Usd) (v : Decision)
        → IsSettled
            (requested_resolution action chosen_key note decided_by source v now)
            decision_id
            at
            v
        → is_refused action chosen_key v ≡ false
        → call at decision_id later ≡ (at, ok v)
    unfolding resolve_on_desk resolve_found settle is_same_resolution requested_resolution
    retry decision_id now later at v h good =
        rw (h.found, good, h.closed)
          (settle_again-retry at v h.stored
            (requested_resolution action chosen_key note decided_by source v later) v.resolution
            h.kept h.same h.logged)

    resolve_found-closed :
        (now : Text) (desk : Desk Usd) (d : Decision)
        → is_open d.status ≡ false
        → let outcome = resolve_found action chosen_key note decided_by source desk (some d) now in
          (outcome.0.store ≡ desk.store) × Ensures (λ v. v ≡ d) outcome.1
    unfolding resolve_found settle
    resolve_found-closed now desk d closed = elim (Bool-cases (is_refused action chosen_key d)) [
      | inl refused ↦ rw refused (refl, _)
      | inr good ↦
          rw (good, closed)
            (settle_again-closed desk d d.resolution
              (requested_resolution action chosen_key note decided_by source d now))
    ]

    -- Decisions never regress: a call for a decision that is no longer open leaves the log as it
    -- is, and returns that decision or raises.
    pub resolve_on_desk-closed :
        (decision_id now : Text) (desk : Desk Usd) (d : Decision)
        → get decision_id desk.store ≡ some d
        → is_open d.status ≡ false
        → let outcome =
            resolve_on_desk action chosen_key note decided_by source desk decision_id now in
          (outcome.0.store ≡ desk.store) × Ensures (λ v. v ≡ d) outcome.1
    unfolding resolve_on_desk
    resolve_on_desk-closed decision_id now desk d found closed =
        rw found (resolve_found-closed now desk d closed)
