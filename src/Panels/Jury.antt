-- ===== src/Panels/Jury.antt =====
-- panels.py, `fold_jury_signal`: the lay readers' outputs as one directional signal. `strip` is
-- `.strip()` on a `str`; `floats` divides the sums.
use mootloop.Base.{
  ℕ, zero, suc, ◌+◌, ◌≤◌, ◌≡◌, refl, List, [], ◌∷◌, ◌++◌, Text, All, length, take, All-append,
  Result, ok, err, value_error, arith,
}
use mootloop.Base.Floats.{FloatOps}
use mootloop.Turn.{JurorOutput}

abbrev max_jury_samples : ℕ
max_jury_samples = 5

pub record JurySignal (F : Type 0) : Type 0 where
  pub run_id : Text
  pub request_id : Text
  pub total_readers : ℕ
  pub mean_comprehension : F
  pub mean_persuasion : F
  pub confusion_samples : List Text
  pub credibility_samples : List Text

-- `sum(f(output) for output in outputs)`
unfoldable pub sum_of : (JurorOutput → ℕ) → List JurorOutput → ℕ
sum_of f [] = 0
sum_of f (o ∷ outputs) = f o + sum_of f outputs

-- `text for ... if text`
unfoldable pub keep_filled : Text → List Text → List Text
keep_filled [] rest = rest
keep_filled (c ∷ s) rest = (c ∷ s) ∷ rest

length-take : {A : Type 0} (n : ℕ) (xs : List A) → length (take n xs) ≤ n
length-take zero xs = omega arith
length-take (suc n) [] = omega arith
length-take (suc n) (x ∷ xs) = omega (arith, length-take n xs)

All-take : {A : Type 0} (P : A → Type 0) (n : ℕ) (xs : List A) → All P xs → All P (take n xs)
All-take P zero xs h = _
All-take P (suc n) [] h = _
All-take P (suc n) (x ∷ xs) h = (h.0, All-take P n xs h.1)

-- The text is not blank.
abbrev pub IsFilled : Text → Type 0
IsFilled s = 1 ≤ length s

keep_filled-IsFilled :
    (s : Text) (rest : List Text) → All IsFilled rest → All IsFilled (keep_filled s rest)
unfolding keep_filled
keep_filled-IsFilled [] rest h = h
keep_filled-IsFilled (c ∷ s) rest h = (omega arith, h)

module _ (strip : Text → Text) where
  -- The points stripped, without those that are blank.
  unfoldable pub stripped : List Text → List Text
  unfolding keep_filled
  stripped [] = []
  stripped (p ∷ points) = keep_filled (strip p) (stripped points)

  unfoldable pub points_of : (JurorOutput → List Text) → List JurorOutput → List Text
  unfolding stripped
  points_of f [] = []
  points_of f (o ∷ outputs) = stripped (f o) ++ points_of f outputs

  unfoldable pub fold_jury_signal :
      {F : Type 0}
      → FloatOps F
      → (run_id request_id : Text) → List JurorOutput
      → Result (JurySignal F)
  unfolding sum_of points_of
  fold_jury_signal floats run_id request_id [] = err value_error
  fold_jury_signal floats run_id request_id (first ∷ more) =
      let outputs = first ∷ more in
      let count = floats.of_int (length outputs) in
      ok (record {
        run_id = run_id;
        request_id = request_id;
        total_readers = length outputs;
        mean_comprehension =
            floats.div (floats.of_int (sum_of (λ o. o.comprehension_score) outputs)) count;
        mean_persuasion =
            floats.div (floats.of_int (sum_of (λ o. o.persuasion_score) outputs)) count;
        confusion_samples = take max_jury_samples (points_of (λ o. o.confusion_points) outputs);
        credibility_samples =
            take max_jury_samples (points_of (λ o. o.credibility_concerns) outputs);
      })

  stripped-IsFilled : (points : List Text) → All IsFilled (stripped points)
  unfolding stripped
  stripped-IsFilled [] = _
  stripped-IsFilled (p ∷ points) =
      keep_filled-IsFilled (strip p) (stripped points) (stripped-IsFilled points)

  points_of-IsFilled :
      (f : JurorOutput → List Text) (outputs : List JurorOutput)
      → All IsFilled (points_of f outputs)
  unfolding points_of
  points_of-IsFilled f [] = _
  points_of-IsFilled f (o ∷ outputs) =
      All-append IsFilled (stripped (f o)) (points_of f outputs) (stripped-IsFilled (f o))
        (points_of-IsFilled f outputs)

  -- At most five samples, none of them blank.
  abbrev pub AreSamples : List Text → Type 0
  AreSamples samples = (length samples ≤ 5) × All IsFilled samples

  -- The fold of a panel with at least one reader gives a signal that counts every reader and has
  -- at most five samples of each kind, none of them blank; without a reader it is an error.
  pub fold_jury_signal-AreSamples :
      {F : Type 0} (floats : FloatOps F) (run_id request_id : Text) (first : JurorOutput)
      (more : List JurorOutput)
      → (fold_jury_signal floats run_id request_id [] ≡ err value_error)
        × ((s : JurySignal F) × (fold_jury_signal floats run_id request_id (first ∷ more) ≡ ok s)
            × (s.total_readers ≡ suc (length more))
            × AreSamples s.confusion_samples
            × AreSamples s.credibility_samples)
  unfolding fold_jury_signal
  fold_jury_signal-AreSamples floats run_id request_id first more =
      let outputs = first ∷ more in
      let samples : (f : JurorOutput → List Text) → AreSamples (take 5 (points_of f outputs)) = λ f.
        (
          length-take 5 (points_of f outputs),
          All-take IsFilled 5 (points_of f outputs) (points_of-IsFilled f outputs),
        ) in
      (
        refl,
        (_, refl, refl, samples (λ o. o.confusion_points), samples (λ o. o.credibility_concerns)),
      )
