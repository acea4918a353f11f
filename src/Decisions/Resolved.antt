-- ===== src/Decisions/Resolved.antt =====
-- What a resolution keeps of the decision log.
use mootloop.Base.{
  ◌≡◌, refl, ap, ◌∙◌, inl, inr, true, Option, none, some, List, [], ◌∷◌, ◌++◌, Text, Bool-cases,
  Result, ok, err, list_eq, list_eq_iff, text_eq_iff, text_eq_key, arith,
}
use mootloop.Journal.Events.{JournalEvent, DecisionRecorded, decision_recorded}
use mootloop.Decisions.{
  Decision, DecisionStore, DecisionResolution, ResolutionAction, ResolutionSource, get, append,
  is_open,
}
use mootloop.Decisions.Log.{IsLog, get-id, append_old-IsLog}
use mootloop.Decisions.Resolve.{
  Desk, record_beside, later, finished, finish, settle, settle_again, resolve_on_desk,
  resolve_found, requested_resolution, is_refused, resolved_by, record_resolution_event, latest,
  recorded, compared, is_same_resolution,
}

pub list_eq-same : (xs : List Text) → list_eq xs xs ≡ true
list_eq-same xs = (list_eq_iff xs xs).1 refl

module _ {Usd : Type 0} where
  finish-store :
      (store : DecisionStore) (events : List (JournalEvent Usd)) (d : Decision)
      (after : Result (List (JournalEvent Usd)))
      → (finished store events d after).0.store ≡ store
  unfolding finished
  finish-store store events d (err raised) = refl
  finish-store store events d (ok after) = refl

  -- A decision that is not open stays as it is.
  pub settle_again-store :
      (desk : Desk Usd) (d : Decision) (stored : Option DecisionResolution)
      (requested : DecisionResolution)
      → (settle_again desk d stored requested).0.store ≡ desk.store
  unfolding settle_again finish
  settle_again-store desk d none requested = refl
  settle_again-store desk d (some stored) requested =
      elim (Bool-cases (is_same_resolution stored requested)) [
        | inl same ↦
            rw same
              (finish-store desk.store desk.events d (record_resolution_event d stored desk.events))
        | inr differ ↦ rw differ refl
      ]

  settle-IsLog :
      (run_id decision_id : Text) (desk : Desk Usd) (d : Decision) (requested : DecisionResolution)
      → IsLog run_id desk.store
      → get decision_id desk.store ≡ some d
      → IsLog run_id (settle desk d requested).0.store
  unfolding settle finish resolved_by
  settle-IsLog run_id decision_id desk d requested h found = elim (Bool-cases (is_open d.status)) [
    | inl undone ↦
        let new = resolved_by d requested in
        let at : get d.decision_id desk.store ≡ some d =
          ap (λ k. get k desk.store) (get-id run_id decision_id desk.store d h found) ∙ found in
        rw
          (
            undone,
            finish-store (append new desk.store) desk.events new
                (record_resolution_event new requested desk.events),
          )
          (append_old-IsLog run_id desk.store d new h at refl refl)
    | inr closed ↦ rw (closed, settle_again-store desk d d.resolution requested) h
  ]

  module _ (action : ResolutionAction) (chosen_key : Option Text) (note decided_by : Text)
      (source : ResolutionSource) (desk : Desk Usd) where
    resolve_found-IsLog :
        (run_id decision_id now : Text) (found : Option Decision)
        → IsLog run_id desk.store
        → get decision_id desk.store ≡ found
        → IsLog run_id
            (resolve_found action chosen_key note decided_by source desk found now).0.store
    unfolding resolve_found
    resolve_found-IsLog run_id decision_id now none h at = h
    resolve_found-IsLog run_id decision_id now (some d) h at =
        elim (Bool-cases (is_refused action chosen_key d)) [
          | inl refused ↦ rw refused h
          | inr good ↦ rw good (
              settle-IsLog run_id decision_id desk d
                (requested_resolution action chosen_key note decided_by source d now) h at)
        ]

    -- On every branch, errors included, a resolution keeps the log in order, if it was.
    pub resolve_on_desk-IsLog :
        (run_id decision_id now : Text)
        → IsLog run_id desk.store
        → IsLog run_id
            (resolve_on_desk action chosen_key note decided_by source desk decision_id now).0.store
    unfolding resolve_on_desk
    resolve_on_desk-IsLog run_id decision_id now h =
        resolve_found-IsLog run_id decision_id now (get decision_id desk.store) h refl

  latest-append :
      (decision_id : Text) (found : Option DecisionRecorded) (events : List (JournalEvent Usd))
      (e : DecisionRecorded)
      → e.decision_id ≡ decision_id
      → latest decision_id found (events ++ decision_recorded e ∷ []) ≡ some e
  unfolding latest later
  latest-append decision_id found [] e same =
      rw ((text_eq_iff e.decision_id decision_id).1 same) refl
  latest-append decision_id found (event ∷ events) e same =
      latest-append decision_id (later decision_id found event) events e same

  -- An event that was recorded, or found, is found again.
  pub record_again :
      (d : Decision) (r : DecisionResolution) (events after : List (JournalEvent Usd))
      (found : Option DecisionRecorded)
      → latest d.decision_id none events ≡ found
      → record_beside found d r events ≡ ok after
      → record_resolution_event d r after ≡ ok after
  unfolding record_beside record_resolution_event
  record_again d r events after none at done =
      let same : after ≡ events ++ decision_recorded (recorded d r) ∷ [] = cc in
      rw (same, latest-append d.decision_id none events (recorded d r) refl) rw
        (list_eq-same (compared (recorded d r))) refl
  record_again d r events after (some e) at done =
      elim (Bool-cases (list_eq (compared e) (compared (recorded d r)))) [
        | inl match ↦ let same : after ≡ events = ground arith in rw (same, at, match) refl
        | inr clash ↦ absurd (ground arith)
      ]
