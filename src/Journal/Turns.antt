-- ===== src/Journal/Turns.antt =====
-- Turns, discards and cleared checkpoints as views of the journal.
use mootloop.Base.{
  ℕ, ◌≡◌, refl, Bool, true, false, ◌||◌, Option, none, some, List, [], ◌∷◌, Text, arith, ◌==◌,
  text_eq_key, if◌then◌else◌, any, member, member-set_add,
}
use mootloop.Base.Dict.{lookup, lookup-insert}
use mootloop.Base.Floats.{FloatOps}
use mootloop.Turn.{TurnRecord}
use mootloop.Journal.Events.{
  JournalEvent, turn_completed, turn_discarded, checkpoint_cleared, RunState, initial, is_completed,
}
use mootloop.Journal.Fold.{step, fold_from, fold, keep_detail}

module _ {Usd : Type 0} where
  -- The record under a turn's id: each completion of that turn replaces it.
  abbrev pub land : Text → Option TurnRecord → JournalEvent Usd → Option TurnRecord
  land t old (turn_completed r) = if r.spec.turn_id == t then some r else old
  land t old _ = old

  -- The attempt number and the detail of the last discard, where an empty detail is no detail.
  abbrev pub discard_of : Text → Option ℕ × Option Text → JournalEvent Usd → Option ℕ × Option Text
  discard_of t (attempt, detail) (turn_discarded turn_id reason n []) =
      if turn_id == t then (some n, detail) else (attempt, detail)
  discard_of t (attempt, detail) (turn_discarded turn_id reason n (c ∷ s)) =
      if turn_id == t then (some n, some (c ∷ s)) else (attempt, detail)
  discard_of t old _ = old

  abbrev pub clears : Text → JournalEvent Usd → Bool
  clears b (checkpoint_cleared boundary) = b == boundary
  clears b _ = false

  -- A per-key view of the journal, from a starting view.
  abbrev pub view {ℓ} : {A : Type ℓ} → (A → JournalEvent Usd → A) → A → List (JournalEvent Usd) → A
  view f a [] = a
  view f a (e ∷ events) = view f (f a e) events

module _ {Usd : Type 0} (floats : FloatOps Usd) where
  -- Where each step moves a field of the state along a view, the fold ends at the view.
  fold_from-view {ℓ} :
      {A : Type ℓ} (field : RunState Usd → A) (f : A → JournalEvent Usd → A)
      → ((s : RunState Usd) (e : JournalEvent Usd) → field (step floats s e) ≡ f (field s) e)
      → (events : List (JournalEvent Usd)) (s : RunState Usd)
      → field (fold_from floats s events) ≡ view f (field s) events
  unfolding fold_from
  fold_from-view field f moves [] s = refl
  fold_from-view field f moves (e ∷ events) s =
      rw (fold_from-view field f moves events (step floats s e), moves s e)

  step-land :
      (t : Text) (s : RunState Usd) (e : JournalEvent Usd)
      → lookup t (step floats s e).completed_turns ≡ land t (lookup t s.completed_turns) e
  unfolding step
  step-land t s (turn_completed r) = lookup-insert r.spec.turn_id t r s.completed_turns
  step-land t s _ = refl

  step-discard :
      (t : Text) (s : RunState Usd) (e : JournalEvent Usd)
      → ◌≡◌ {A = Option ℕ × Option Text}
          (lookup t (step floats s e).discarded, lookup t (step floats s e).discard_details)
          (discard_of t (lookup t s.discarded, lookup t s.discard_details) e)
  unfolding step keep_detail
  step-discard t s (turn_discarded turn_id reason n []) =
      ground (arith, lookup-insert turn_id t n s.discarded)
  step-discard t s (turn_discarded turn_id reason n (c ∷ x)) = ground (
    arith,
    lookup-insert turn_id t n s.discarded,
    lookup-insert turn_id t (c ∷ x) s.discard_details,
  )
  step-discard t s _ = refl

  -- The completed turns of the folded state are those that the journal completes: under each turn
  -- id stands the record of its last `TurnCompleted`, and nothing where there is none.
  pub fold-land :
      (t : Text) (events : List (JournalEvent Usd))
      → lookup t (fold floats events).completed_turns ≡ view (land t) none events
  unfolding fold initial lookup
  fold-land t events =
      fold_from-view (λ s. lookup t s.completed_turns) (land t) (step-land t) events
        (initial (floats.of_int 0))

  -- The folded state keeps, for each turn, the attempt number of its last discard and the last
  -- detail that was not empty.
  pub fold-discard_of :
      (t : Text) (events : List (JournalEvent Usd))
      → ◌≡◌ {A = Option ℕ × Option Text}
          (lookup t (fold floats events).discarded, lookup t (fold floats events).discard_details)
          (view (discard_of t) (none, none) events)
  unfolding fold initial lookup
  fold-discard_of t events =
      fold_from-view (λ s. (lookup t s.discarded, lookup t s.discard_details)) (discard_of t)
        (step-discard t) events (initial (floats.of_int 0))

  step-completed :
      (t : Text) (s : RunState Usd) (e : JournalEvent Usd)
      → is_completed s t ≡ true
      → is_completed (step floats s e) t ≡ true
  unfolding is_completed step
  step-completed t s (turn_completed r) h =
      ground (arith, lookup-insert r.spec.turn_id t r s.completed_turns)
  step-completed t s _ h = h

  -- A turn that has been completed stays completed, whatever the journal records after it.
  pub fold_from-completed :
      (t : Text) (events : List (JournalEvent Usd)) (s : RunState Usd)
      → is_completed s t ≡ true
      → is_completed (fold_from floats s events) t ≡ true
  unfolding fold_from
  fold_from-completed t [] s h = h
  fold_from-completed t (e ∷ events) s h =
      fold_from-completed t events (step floats s e) (step-completed t s e h)

  fold_from-clears :
      (b : Text) (events : List (JournalEvent Usd)) (s : RunState Usd)
      → member b (fold_from floats s events).cleared_checkpoints
        ≡ (any (clears b) events || member b s.cleared_checkpoints)
  unfolding fold_from step
  fold_from-clears b [] s = refl
  fold_from-clears b (checkpoint_cleared boundary ∷ events) s = ground (
    arith,
    fold_from-clears b events (step floats s (checkpoint_cleared boundary)),
    member-set_add boundary b s.cleared_checkpoints,
  )
  fold_from-clears b (e ∷ events) s = fold_from-clears b events (step floats s e)

  -- A checkpoint boundary is cleared in the folded state exactly when the journal has a
  -- `CheckpointCleared` for it.
  pub fold-clears :
      (b : Text) (events : List (JournalEvent Usd))
      → member b (fold floats events).cleared_checkpoints ≡ any (clears b) events
  unfolding fold initial
  fold-clears b events = ground (arith, fold_from-clears b events (initial (floats.of_int 0)))
