-- ===== src/Journal/Body.antt =====
-- journal.py, `write_turn_body`: the body of a turn, which is written once. The file is its text,
-- or `none` before the write. The record's JSON, its validation and its equality are the
-- library's, and are arguments.
mod Examples
use mootloop.Base.{
  ◌≡◌, refl, sym, ap, Bool, true, false, not, Option, none, some, Text, text_eq, text_eq_key,
  text_eq_iff, ==_refl, Eq, ◌==◌, if◌then◌else◌, Result, ok, err, journal_integrity, Bool-cases,
  Option-cases, inl, inr, arith,
}

-- A turn's record: its time of completion, and in `body` the fields that the comparison of two
-- records leaves as they are, which may be of any type.
pub record StoredTurn (B : Type 0) : Type 0 where
  pub body : B
  pub completed_at : Text

module _ {B : Type 0} (dump : StoredTurn B → Text) (validate : Text → Option (StoredTurn B))
    (eq : Eq (StoredTurn B)) where
  -- The retry that finds a body: `existing_text` is what the file holds.
  unfoldable pub verify_body :
      Text → StoredTurn B → Option (StoredTurn B) → Result (StoredTurn B × Text)
  verify_body existing_text r none = err journal_integrity
  verify_body existing_text r (some existing) =
      if not (existing_text == dump existing)
      then err journal_integrity
      else if eq.test existing (record r { completed_at = existing.completed_at })
      then ok (existing, existing_text)
      else err journal_integrity

  -- The record that counts, and the file's text after the call.
  unfoldable pub write_turn_body : Option Text → StoredTurn B → Result (StoredTurn B × Text)
  unfolding verify_body
  write_turn_body none r = ok (r, dump r)
  write_turn_body (some existing_text) r = verify_body existing_text r (validate existing_text)

  -- The bodies that a call leaves are the canonical text of the record that it returns, which
  -- differs from the given one in its time at most; and what was there is kept.
  abbrev pub IsStored : Option Text → StoredTurn B → StoredTurn B → Text → Type 0
  IsStored before r kept after =
      (after ≡ dump kept)
      × (kept ≡ record r { completed_at = kept.completed_at })
      × ((text : Text) → before ≡ some text → after ≡ text)

  verify_body-IsStored :
      (text : Text) (r kept : StoredTurn B) (after : Text) (o : Option (StoredTurn B))
      → verify_body text r o ≡ ok (kept, after)
      → IsStored (some text) r kept after
  unfolding verify_body
  verify_body-IsStored text r kept after none h = ground arith
  verify_body-IsStored text r kept after (some existing) h =
      elim (Bool-cases (text == dump existing)) [
        | inl canonical ↦
            elim (Bool-cases
              (eq.test existing (record r { completed_at = existing.completed_at }))) [
                | inl same ↦
                    let agree =
                      (eq.test_iff existing (record r { completed_at = existing.completed_at })).0
                        same in
                    let is_kept : existing ≡ kept = ground arith in
                    let is_after : text ≡ after = ground arith in
                    let texts : text ≡ dump existing =
                      (text_eq_iff text (dump existing)).0 canonical in
                    rw (← is_kept, ← is_after) (texts, agree, λ other e. ground arith)
                | inr other ↦ ground arith
              ]
        | inr foreign ↦ ground arith
      ]

  write-IsStored :
      (before : Option Text) (r kept : StoredTurn B) (after : Text)
      → write_turn_body before r ≡ ok (kept, after)
      → IsStored before r kept after
  unfolding write_turn_body
  write-IsStored none r kept after h =
      let is_kept : r ≡ kept = ground arith in
      let is_after : dump r ≡ after = ground arith in
      rw (← is_kept, ← is_after) (refl, refl, λ text e. ground arith)
  write-IsStored (some text) r kept after h =
      verify_body-IsStored text r kept after (validate text) h

  verify_body-again :
      (r kept : StoredTurn B) (o : Option (StoredTurn B))
      → o ≡ some kept
      → kept ≡ record r { completed_at = kept.completed_at }
      → verify_body (dump kept) r o ≡ ok (kept, dump kept)
  unfolding verify_body
  verify_body-again r kept o e same =
      let matched = (eq.test_iff kept (record r { completed_at = kept.completed_at })).1 same in
      rw e (rw (==_refl (dump kept)) (rw matched))

  -- With a JSON that validates back to its record, a call that succeeds leaves the canonical text
  -- of the record that it returns, which is the given one but for its time, and it keeps a text
  -- that was there; and a retry with the same record at any time returns the same and leaves the
  -- same.
  pub write_turn_body-IsStored :
      ((x : StoredTurn B) → validate (dump x) ≡ some x)
      → (before : Option Text) (r kept : StoredTurn B) (after completed_at : Text)
      → write_turn_body before r ≡ ok (kept, after)
      → IsStored before r kept after
        × (write_turn_body (some after) (record r { completed_at = completed_at })
            ≡ ok (kept, after))
  unfolding write_turn_body
  write_turn_body-IsStored round_trip before r kept after completed_at h =
      let stored = write-IsStored before r kept after h in
      (
        stored,
        rw (stored.0) (
            verify_body-again (record r { completed_at = completed_at }) kept (validate (dump kept))
              (round_trip kept) stored.1),
      )
