-- ===== src/Gates/Rounds.antt =====
-- The rounds of the search for an order: they end, and what they do case by case.
-- dependencies.
use mootloop.Base.{
  ℕ, zero, suc, ◌≤◌, ◌<◌, ◌≡◌, ◌⊎◌, inl, inr, refl, true, ◌&&◌, not, Option, some, List, [], ◌∷◌,
  ◌++◌, Text, text_eq, text_eq_iff, text_eq_key, ◌==◌, Bool-cases, filter, member, length, Result,
  Error, ok, err, arith, key_error,
}
use mootloop.Base.Dict.{lookup, contains}
use mootloop.Gates.Runtime.{Waiting, ready_of, settled, settle_all, round_of, after_round, rounds}

length-settled-le : (n : Text) (waiting : Waiting) → length (settled n waiting) ≤ length waiting
unfolding settled
length-settled-le n [] = omega arith
length-settled-le n ((m, ds) ∷ waiting) = ground (arith, length-settled-le n waiting)

length-settled-lt :
    (n : Text) (waiting : Waiting)
    → contains n waiting ≡ true
    → length (settled n waiting) < length waiting
unfolding settled lookup
length-settled-lt n [] h = cc
length-settled-lt n ((m, ds) ∷ waiting) h = elim (Bool-cases (text_eq m n)) [
  | inl same ↦ rw same (omega (arith, length-settled-le n waiting))
  | inr differ ↦ rw differ (
      let there : contains n waiting ≡ true = ground arith in
      omega (arith, length-settled-lt n waiting there))
]

-- The names that a round leaves are fewer.
settle_all-le :
    (ready : List Text) (waiting : Waiting) (ordered : List Text) (left : Waiting)
    (more : List Text)
    → settle_all ready waiting ordered ≡ ok (left, more)
    → length left ≤ length waiting
unfolding settle_all
settle_all-le [] waiting ordered left more h =
    let same : waiting ≡ left = cc in rw same (omega arith)
settle_all-le (n ∷ ready) waiting ordered left more h = elim (Bool-cases (contains n waiting)) [
  | inl there ↦ omega (
    arith,
    settle_all-le ready (settled n waiting) (ordered ++ n ∷ []) left more (rw there at h),
    length-settled-le n waiting,
  )
  | inr missing ↦ let raised : err key_error ≡ ok (left, more) = rw missing at h in cc
]

-- A round that goes on leaves fewer names.
round_of-lt :
    (ready : List Text) (waiting : Waiting) (ordered : List Text) (left : Waiting)
    (more : List Text)
    → round_of ready waiting ordered ≡ ok (left, more)
    → length left < length waiting
unfolding round_of settle_all
round_of-lt [] waiting ordered left more h = cc
round_of-lt (n ∷ ready) waiting ordered left more h = elim (Bool-cases (contains n waiting)) [
  | inl there ↦
      let fewer =
        settle_all-le ready (settled n waiting) (ordered ++ n ∷ []) left more (rw there at h) in
      omega (arith, length-settled-lt n waiting there)
  | inr missing ↦ let raised : err key_error ≡ ok (left, more) = rw missing at h in cc
]

abbrev pub Ends : Option (Result (List Text)) → Type 0
Ends outcome = (result : Result (List Text)) × (outcome ≡ some result)

after_round-Ends :
    (next : Waiting → List Text → Option (Result (List Text))) (r : Result (Waiting × List Text))
    → ((left : Waiting) (more : List Text) → r ≡ ok (left, more) → Ends (next left more))
    → Ends (after_round next r)
unfolding after_round
after_round-Ends next (err raised) h = (err raised, refl)
after_round-Ends next (ok (left, more)) h = h left more refl

pub after_round-cases :
    (next : Waiting → List Text → Option (Result (List Text))) (r : Result (Waiting × List Text))
    (result : Result (List Text))
    → after_round next r ≡ some result
    → ((raised : Error) × (result ≡ err raised))
      ⊎ ((left : Waiting) × (more : List Text) × (r ≡ ok (left, more))
          × (next left more ≡ some result))
unfolding after_round
after_round-cases next (err raised) result e = inl (raised, cc)
after_round-cases next (ok (left, more)) result e = inr (left, more, refl, e)

-- The while loop ends: as many rounds as there are names left are enough.
pub rounds-Ends :
    (fuel : ℕ) (selected : List Text) (waiting : Waiting) (ordered : List Text)
    → length waiting ≤ fuel
    → Ends (rounds fuel selected waiting ordered)
unfolding rounds
rounds-Ends fuel selected [] ordered enough = (ok ordered, refl)
rounds-Ends zero selected (w ∷ waiting) ordered enough = absurd (omega arith)
rounds-Ends (suc fuel) selected (w ∷ waiting) ordered enough =
    after_round-Ends (rounds fuel selected)
      (round_of (ready_of selected (w ∷ waiting)) (w ∷ waiting) ordered)
      (λ left more h.
        let fewer =
          round_of-lt (ready_of selected (w ∷ waiting)) (w ∷ waiting) ordered left more h in
        rounds-Ends fuel selected left more (omega arith))

pub member-without :
    (n d : Text) (ds : List Text)
    → member d (filter (λ x. not (x == n)) ds) ≡ (member d ds && not (d == n))
member-without n d [] = refl
member-without n d (x ∷ ds) =
    ground (arith, text_eq_iff x n, text_eq_iff d x, text_eq_iff d n, member-without n d ds)
