-- ===== src/Base/Lists.antt =====
-- Lists measured, indexed and searched, under the library's names and over the native numbers.
use Prim.Native.Nat.{ℕ, zero, suc, ◌+◌, ◌≤◌}
use mathlib.Core.Path.{◌≡◌, refl}
use mathlib.Core.Logic.{◌⊎◌, inl, inr}
use mathlib.Core.Bool.{Bool, true, false, ◌&&◌, ◌||◌}
use mathlib.Core.Option.{Option, none, some}
use mathlib.Core.List.{List, [], ◌∷◌, ◌++◌, map}
use native.Mathlib.Omega.{arith}
use mootloop.Base.Tests.{if◌then◌else◌}

module _ {ℓ} {A : Type ℓ} where
  abbrev pub length : List A → ℕ
  length [] = 0
  length (x ∷ xs) = suc (length xs)

  abbrev pub get_elem? : List A → ℕ → Option A
  get_elem? [] i = none
  get_elem? (x ∷ xs) zero = some x
  get_elem? (x ∷ xs) (suc i) = get_elem? xs i

  abbrev pub drop : ℕ → List A → List A
  drop zero xs = xs
  drop (suc n) [] = []
  drop (suc n) (x ∷ xs) = drop n xs

  abbrev pub take : ℕ → List A → List A
  take zero xs = []
  take (suc n) [] = []
  take (suc n) (x ∷ xs) = x ∷ take n xs

  -- `[x for x in xs if p(x)]`
  abbrev pub filter : (A → Bool) → List A → List A
  filter p [] = []
  filter p (x ∷ xs) = if p x then x ∷ filter p xs else filter p xs

  -- `all(p(x) for x in xs)` and `any(p(x) for x in xs)`
  abbrev pub all : (A → Bool) → List A → Bool
  all p [] = true
  all p (x ∷ xs) = p x && all p xs

  abbrev pub any : (A → Bool) → List A → Bool
  any p [] = false
  any p (x ∷ xs) = p x || any p xs

  pub length-append : (xs ys : List A) → length (xs ++ ys) ≡ length xs + length ys
  length-append [] ys = omega arith
  length-append (x ∷ xs) ys = omega (arith, length-append xs ys)

  pub length-filter-le : (p : A → Bool) (xs : List A) → length (filter p xs) ≤ length xs
  length-filter-le p [] = omega arith
  length-filter-le p (x ∷ xs) = ground (arith, length-filter-le p xs)

  pub drop-append_length : (xs ys : List A) → drop (length xs) (xs ++ ys) ≡ ys
  drop-append_length [] ys = refl
  drop-append_length (x ∷ xs) ys = drop-append_length xs ys

  pub take-append-drop : (n : ℕ) (xs : List A) → take n xs ++ drop n xs ≡ xs
  take-append-drop zero xs = refl
  take-append-drop (suc n) [] = refl
  take-append-drop (suc n) (x ∷ xs) = rw (take-append-drop n xs)

  pub length-take-le : (n : ℕ) (xs : List A) → n ≤ length xs → length (take n xs) ≡ n
  length-take-le zero xs h = refl
  length-take-le (suc n) [] h = elim h [ ]
  length-take-le (suc n) (x ∷ xs) h = omega (arith, length-take-le n xs)

  -- A predicate on every element, which computes to a tuple.
  abbrev pub All {κ} : (A → Type κ) → List A → Type κ
  All P [] = Unit
  All P (x ∷ xs) = P x × All P xs

-- `range(from, from + count)`
abbrev pub range_from : ℕ → ℕ → List ℕ
range_from from zero = []
range_from from (suc count) = from ∷ range_from (suc from) count

pub All-append {κ ℓ} :
    {A : Type ℓ} (P : A → Type κ) (front back : List A)
    → All P front
    → All P back
    → All P (front ++ back)
All-append P [] back _ more = more
All-append P (x ∷ front) back (here, later) more = (here, All-append P front back later more)

pub All-of_append {κ ℓ} :
    {A : Type ℓ} (P : A → Type κ) (front back : List A)
    → All P (front ++ back)
    → All P front × All P back
All-of_append P [] back h = (_, h)
All-of_append P (x ∷ front) back h =
    let rest = All-of_append P front back h.1 in ((h.0, rest.0), rest.1)

module _ {ℓ} {A : Type ℓ} where
  -- `xs[i] = v`; out of range nothing is written.
  abbrev pub set : List A → ℕ → A → List A
  set [] i v = []
  set (x ∷ xs) zero v = v ∷ xs
  set (x ∷ xs) (suc i) v = x ∷ set xs i v

module _ {ℓ} {A : Type ℓ} where
  pub get_elem?-set_self :
      (xs : List A) (i : ℕ) (v old : A)
      → get_elem? xs i ≡ some old
      → get_elem? (set xs i v) i ≡ some v
  get_elem?-set_self [] i v old h = cc
  get_elem?-set_self (x ∷ xs) zero v old h = refl
  get_elem?-set_self (x ∷ xs) (suc i) v old h = get_elem?-set_self xs i v old h

  pub get_elem?-of_set :
      (xs : List A) (i j : ℕ) (v got : A)
      → get_elem? (set xs i v) j ≡ some got
      → (i ≡ j) × (got ≡ v) ⊎ (get_elem? xs j ≡ some got)
  get_elem?-of_set [] i j v got h = inr h
  get_elem?-of_set (x ∷ xs) zero zero v got h = inl (refl, cc)
  get_elem?-of_set (x ∷ xs) zero (suc j) v got h = inr h
  get_elem?-of_set (x ∷ xs) (suc i) zero v got h = inr h
  get_elem?-of_set (x ∷ xs) (suc i) (suc j) v got h = ground (arith, get_elem?-of_set xs i j v got)

  pub map-set_same {κ} :
      {B : Type κ} (f : A → B) (xs : List A) (i : ℕ) (v old : A)
      → get_elem? xs i ≡ some old
      → f v ≡ f old
      → map f (set xs i v) ≡ map f xs
  map-set_same f [] i v old h e = refl
  map-set_same f (x ∷ xs) zero v old h e = let here : x ≡ old = cc in rw (here, e)
  map-set_same f (x ∷ xs) (suc i) v old h e = rw (map-set_same f xs i v old h e)

module _ {A : Type 0} where
  -- An element of a list.
  abbrev pub In : A → List A → Type 0
  In a [] = ⊥
  In a (x ∷ xs) = (a ≡ x) ⊎ In a xs

  pub All-In : (P : A → Type 0) (a : A) (xs : List A) → All P xs → In a xs → P a
  All-In P a [] h m = absurd m
  All-In P a (x ∷ xs) h (inl e) = rw e h.0
  All-In P a (x ∷ xs) h (inr m) = All-In P a xs h.1 m
