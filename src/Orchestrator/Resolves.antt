-- ===== src/Orchestrator/Resolves.antt =====
-- What a resolution comes to, its finalization included: settled decisions stay, and a retry only
-- finalizes again.
use mootloop.Base.{
  ◌≡◌, refl, ap, ◌∙◌, false, Option, none, some, List, [], ◌∷◌, ◌++◌, Text, Result, ok, err,
  Ensures, Bool-cases, inl, inr, arith, length, length-append, list_eq, text_eq_key,
}
use mootloop.Journal.Events.{JournalEvent, DecisionRecorded, decision_recorded}
use mootloop.Decisions.{
  Decision, DecisionResolution, ResolutionAction, ResolutionSource, get, is_open,
}
use mootloop.Decisions.Log.{IsLog}
use mootloop.Decisions.Resolve.{
  Desk, resolve_on_desk, requested_resolution, recorded, compared, record_beside,
  record_resolution_event, latest,
}
use mootloop.Decisions.Resolved.{resolve_on_desk-IsLog}
use mootloop.Decisions.Settled.{IsSettled, resolve_found-IsSettled, retry, resolve_on_desk-closed}
use mootloop.Orchestrator.{RunContext, Library, RunFiles, ◌>>>◌, carry, done_with}
use mootloop.Orchestrator.Verbs.{finalize_if_ready}
use mootloop.Orchestrator.Decide.{desk_of, on_desk, finalized, after_desk, resolve}
use mootloop.Orchestrator.Decided.{Extends, finalize_if_ready-Extends}

append_one-differs : {A : Type 0} (xs : List A) (x : A) → xs ++ x ∷ [] ≡ xs → ⊥
append_one-differs xs x e =
    let longer = length-append xs (x ∷ []) in
    let same : length (xs ++ x ∷ []) ≡ length xs = ap length e in
    absurd (omega (arith, longer, same))

module _ {Usd : Type 0} where
  -- A record that the journal has beside a resolution is there after more events of other kinds.
  record_beside-later :
      (found : Option DecisionRecorded) (d : Decision) (r : DecisionResolution)
      (events more : List (JournalEvent Usd))
      → record_beside found d r events ≡ ok events
      → record_beside found d r more ≡ ok more
  unfolding record_beside
  record_beside-later none d r events more e =
      let grown : events ++ decision_recorded (recorded d r) ∷ [] ≡ events = cc in
      absurd (append_one-differs events (decision_recorded (recorded d r)) grown)
  record_beside-later (some at) d r events more e =
      elim (Bool-cases (list_eq (compared at) (compared (recorded d r)))) [
        | inl match ↦ rw match refl
        | inr clash ↦ absurd (ground (arith, e, clash))
      ]

  IsSettled-later :
      (run_id : Text) (requested : DecisionResolution) (decision_id : Text)
      (before after : RunFiles Usd) (v : Decision)
      → Extends run_id before after
      → IsLog run_id before.store
      → IsSettled requested decision_id (desk_of before) v
      → IsSettled requested decision_id (desk_of after) v
  unfolding record_resolution_event
  IsSettled-later run_id requested decision_id before after v h log s = record {
    stored = s.stored;
    found = h.kept decision_id v log s.found;
    closed = s.closed;
    kept = s.kept;
    same = s.same;
    logged = rw (h.journal v.decision_id none) (
        record_beside-later (latest v.decision_id none before.events) v s.stored before.events
          after.events s.logged);
  }

module _ {F Usd : Type 0} (lib : Library F Usd) (ctx : RunContext F Usd) where
  carried-files :
      (d : Decision) (outcome : RunFiles Usd × Result (Unit {0}))
      → (carry outcome (λ done. done_with {Usd = Usd} d)).0 ≡ outcome.0
  unfolding carry
  carried-files d (files, err raised) = refl
  carried-files d (files, ok done) = refl

  carried-Ensures :
      (d : Decision) (outcome : RunFiles Usd × Result (Unit {0}))
      → Ensures (λ v. v ≡ d) (carry outcome (λ done. done_with {Usd = Usd} d)).1
  unfolding carry
  carried-Ensures d (files, err raised) = _
  carried-Ensures d (files, ok done) = refl

  returned :
      (d : Decision) (files : RunFiles Usd) → Ensures (λ v. v ≡ d) (finalized lib ctx d files).1
  unfolding finalized ◌>>>◌
  returned d files = carried-Ensures d (finalize_if_ready lib ctx files)

  finalized-Extends :
      (d : Decision) (files : RunFiles Usd) → Extends ctx.run_id files (finalized lib ctx d files).0
  unfolding finalized ◌>>>◌
  finalized-Extends d files =
      rw (carried-files d (finalize_if_ready lib ctx files))
        (finalize_if_ready-Extends lib ctx files)

  -- What a call keeps and returns, whatever the desk came to.
  after_desk-closed :
      (files : RunFiles Usd) (decision_id : Text) (d : Decision)
      (outcome : Desk Usd × Result Decision)
      → IsLog ctx.run_id files.store
      → get decision_id files.store ≡ some d
      → (outcome.0.store ≡ files.store) × Ensures (λ v. v ≡ d) outcome.1
      → let at = after_desk lib ctx outcome files in
        (get decision_id at.0.store ≡ some d) × Ensures (λ v. v ≡ d) at.1
  unfolding after_desk
  after_desk-closed files decision_id d (desk, err raised) log found h =
      (ap (get decision_id) h.0 ∙ found, _)
  after_desk-closed files decision_id d (desk, ok v) log found h =
      let kept = finalized-Extends v (on_desk desk files) in
      (
        kept.kept decision_id d (rw (h.0) log) (ap (get decision_id) (h.0) ∙ found),
        rw (← h.1) (returned v (on_desk desk files)),
      )

  after_desk-settles :
      (files : RunFiles Usd) (decision_id : Text) (v : Decision) (requested : DecisionResolution)
      (outcome : Desk Usd × Result Decision)
      → IsLog ctx.run_id outcome.0.store
      → outcome.1 ≡ ok v
      → IsSettled requested decision_id outcome.0 v
      → IsSettled requested decision_id (desk_of (after_desk lib ctx outcome files).0) v
  unfolding after_desk
  after_desk-settles files decision_id v requested (desk, err raised) log e s = cc
  after_desk-settles files decision_id v requested (desk, ok d) log e s =
      IsSettled-later ctx.run_id requested decision_id (on_desk desk files)
        (finalized lib ctx d (on_desk desk files)).0 v (finalized-Extends d (on_desk desk files))
        log s

  module _ (action : ResolutionAction) (chosen_key : Option Text) (note decided_by : Text)
      (source : ResolutionSource) where
    abbrev at_desk : RunFiles Usd → Text → Text → Desk Usd × Result Decision
    at_desk files = resolve_on_desk action chosen_key note decided_by source (desk_of files)

    -- Decisions never regress: a call for a decision that is no longer open, its finalization
    -- included, keeps that decision in the log, and returns it or raises, if the log was in order.
    pub resolve-closed :
        (decision_id now : Text) (files : RunFiles Usd) (d : Decision)
        → IsLog ctx.run_id files.store
        → get decision_id files.store ≡ some d
        → is_open d.status ≡ false
        → let outcome =
            resolve lib ctx action chosen_key note decided_by source decision_id now files in
          (get decision_id outcome.0.store ≡ some d) × Ensures (λ v. v ≡ d) outcome.1
    unfolding resolve
    resolve-closed decision_id now files d log found closed =
        after_desk-closed files decision_id d
          (resolve_on_desk action chosen_key note decided_by source (desk_of files) decision_id now)
          log found
          (resolve_on_desk-closed action chosen_key note decided_by source decision_id now
            (desk_of files) d found closed)

    -- Where a call records its resolution, or finds it recorded, the decision is in the log and no
    -- longer open when the call ends, also where its finalization raised. The same call at any
    -- later time then does no more than finalize the run again and return that decision, if the log
    -- was in order.
    pub resolve-refinalizes :
        (decision_id now later : Text) (files : RunFiles Usd) (v : Decision)
        → IsLog ctx.run_id files.store
        → (at_desk files decision_id now).1 ≡ ok v
        → let at =
            (resolve lib ctx action chosen_key note decided_by source decision_id now files).0 in
          (get decision_id at.store ≡ some v)
          × (is_open v.status ≡ false)
          × (resolve lib ctx action chosen_key note decided_by source decision_id later at
              ≡ finalized lib ctx v at)
    unfolding resolve after_desk resolve_on_desk
    resolve-refinalizes decision_id now later files v log e =
        let desk = desk_of files in
        let made =
          resolve_found-IsSettled action chosen_key note decided_by source ctx.run_id decision_id
            now desk v (get decision_id desk.store) log refl e in
        let requested = requested_resolution action chosen_key note decided_by source v now in
        let outcome =
          resolve_on_desk action chosen_key note decided_by source desk decision_id now in
        let at = (after_desk lib ctx outcome files).0 in
        let settled =
          after_desk-settles files decision_id v requested outcome
            (resolve_on_desk-IsLog action chosen_key note decided_by source desk ctx.run_id
              decision_id now log)
            e made.0 in
        (
          settled.found,
          settled.closed,
          ap (λ o. after_desk lib ctx o at)
              (retry action chosen_key note decided_by source decision_id now later (desk_of at) v
                settled made.1),
        )
