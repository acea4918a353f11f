-- ===== src/Journal/Ledger.antt =====
-- The sums and the write-ahead ledger that the fold keeps.
use mootloop.Base.{
  ℕ, ◌+◌, ◌≡◌, refl, Option, none, some, List, [], ◌∷◌, ◌++◌, Text, arith, ◌==◌, text_eq_key,
  if◌then◌else◌,
}
use mootloop.Base.Dict.{lookup, lookup-insert, lookup-pop}
use mootloop.Base.Floats.{FloatOps}
use mootloop.Journal.Events.{
  SpendRecorded, JournalEvent, spend_recorded, turn_intent, run_reopened, RunState, initial,
}
use mootloop.Journal.Fold.{step, spend, fold_from, fold}

module _ {Usd : Type 0} (floats : FloatOps Usd) where
  pub fold_from-append :
      (xs ys : List (JournalEvent Usd)) (s : RunState Usd)
      → fold_from floats s (xs ++ ys) ≡ fold_from floats (fold_from floats s xs) ys
  unfolding fold_from
  fold_from-append [] ys s = refl
  fold_from-append (e ∷ xs) ys s = fold_from-append xs ys (step floats s e)

module _ {Usd : Type 0} where
  -- What one turn's entry in the write-ahead ledger is after an event: an intent opens it, a spend
  -- of that turn closes it, and nothing else touches it.
  abbrev pub settle : Text → Option Usd → JournalEvent Usd → Option Usd
  settle t open_ (turn_intent turn_id model mode usd) = if turn_id == t then some usd else open_
  settle t open_ (spend_recorded e) = if e.turn_id == t then none else open_
  settle t open_ _ = open_

  abbrev pub outstanding : Text → Option Usd → List (JournalEvent Usd) → Option Usd
  outstanding t open_ [] = open_
  outstanding t open_ (e ∷ events) = outstanding t (settle t open_ e) events

  -- The events of one kind, in order.
  abbrev pub spends : List (JournalEvent Usd) → List (SpendRecorded Usd)
  spends [] = []
  spends (spend_recorded e ∷ events) = e ∷ spends events
  spends (_ ∷ events) = spends events

  abbrev pub sum_by : (SpendRecorded Usd → ℕ) → List (SpendRecorded Usd) → ℕ
  sum_by f [] = 0
  sum_by f (e ∷ es) = f e + sum_by f es

  abbrev pub sum_usd : FloatOps Usd → Usd → List (SpendRecorded Usd) → Usd
  sum_usd floats acc [] = acc
  sum_usd floats acc (e ∷ es) = sum_usd floats (floats.add acc e.usd_equiv) es

  abbrev pub granted : List (JournalEvent Usd) → ℕ
  granted [] = 0
  granted (run_reopened reason grant forced who ∷ events) = grant + granted events
  granted (_ ∷ events) = granted events

module _ {Usd : Type 0} (floats : FloatOps Usd) where
  step-settle :
      (t : Text) (s : RunState Usd) (e : JournalEvent Usd)
      → lookup t (step floats s e).pending_intents ≡ settle t (lookup t s.pending_intents) e
  unfolding step
  step-settle t s (turn_intent turn_id model mode usd) =
      lookup-insert turn_id t usd s.pending_intents
  step-settle t s (spend_recorded e) = lookup-pop e.turn_id t s.pending_intents
  step-settle t s _ = refl

  fold_from-outstanding :
      (t : Text) (events : List (JournalEvent Usd)) (s : RunState Usd)
      → lookup t (fold_from floats s events).pending_intents
        ≡ outstanding t (lookup t s.pending_intents) events
  unfolding fold_from
  fold_from-outstanding t [] s = refl
  fold_from-outstanding t (e ∷ events) s =
      rw (fold_from-outstanding t events (step floats s e), step-settle t s e)

  -- In the folded state a turn is pending exactly at the amount of its last intent, if no spend of
  -- that turn stands behind that intent in the journal, and is not pending otherwise.
  pub fold-outstanding :
      (t : Text) (events : List (JournalEvent Usd))
      → lookup t (fold floats events).pending_intents ≡ outstanding t none events
  unfolding fold initial lookup
  fold-outstanding t events = fold_from-outstanding t events (initial (floats.of_int 0))

  abbrev pub Totals : RunState Usd → List (JournalEvent Usd) → RunState Usd → Type 0
  Totals s events t =
      (t.total_input_tokens ≡ s.total_input_tokens + sum_by (λ e. e.input_tokens) (spends events))
      × (t.total_cache_read ≡ s.total_cache_read + sum_by (λ e. e.cache_read) (spends events))
      × (t.total_cache_write ≡ s.total_cache_write + sum_by (λ e. e.cache_write) (spends events))
      × (t.total_output_tokens
          ≡ s.total_output_tokens + sum_by (λ e. e.output_tokens) (spends events))
      × (t.attempts_granted ≡ s.attempts_granted + granted events)
      × (t.total_spend_usd ≡ sum_usd floats s.total_spend_usd (spends events))

  fold_from-Totals :
      (events : List (JournalEvent Usd)) (s : RunState Usd)
      → Totals s events (fold_from floats s events)
  unfolding fold_from step
  fold_from-Totals [] s = (omega arith, omega arith, omega arith, omega arith, omega arith, refl)
  fold_from-Totals (spend_recorded e ∷ events) s =
      let (a, b, c, d, g, u) = fold_from-Totals events (spend floats s e) in
      (omega arith, omega arith, omega arith, omega arith, omega arith, u)
  fold_from-Totals (run_reopened reason grant forced who ∷ events) s =
      let (a, b, c, d, g, u) =
        fold_from-Totals events (step floats s (run_reopened reason grant forced who)) in
      (omega arith, omega arith, omega arith, omega arith, omega arith, u)
  fold_from-Totals (e ∷ events) s = fold_from-Totals events (step floats s e)

  -- Each of the four token totals is the sum of that bucket over the journal's spends, the retry
  -- attempts granted are the sum over its reopenings, and the dollar total is the floating-point
  -- sum of the spends from 0.0 in journal order.
  pub fold-Totals :
      (events : List (JournalEvent Usd))
      → Totals (initial (floats.of_int 0)) events (fold floats events)
  unfolding fold
  fold-Totals events = fold_from-Totals events (initial (floats.of_int 0))
