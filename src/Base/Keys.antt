-- ===== src/Base/Keys.antt =====
-- Equality of keys as an interface, with its instances: numbers and texts.
use Prim.Native.Nat.{ℕ}
use Prim.Native.Char.{code}
use Prim.Native.String.{String}
use mathlib.Core.Path.{◌≡◌, refl}
use mathlib.Core.Logic.{◌↔◌, inl, inr}
use mathlib.Core.Bool.{Bool, true, false, ◌&&◌, ◌||◌}
use mathlib.Core.List.{List, [], ◌∷◌}
use native.Mathlib.Omega.{arith}
use mootloop.Base.Tests.{nat_eq, nat_eq_iff, ltb, if◌then◌else◌, Bool-cases}

-- A key type has an equality test that decides its paths.
pub record Eq {κ} (K : Type κ) : Type κ where
  pub test : K → K → Bool
  pub test_iff : (j k : K) → (test j k ≡ true) ↔ (j ≡ k)

infix 50 ◌==◌
abbrev pub ◌==◌ {κ} : {K : Type κ} ⦃keys : Eq K⦄ → K → K → Bool
◌==◌ ⦃keys⦄ j k = keys.test j k

instance abbrev pub ℕ_eq : Eq ℕ
ℕ_eq = record { test = nat_eq; test_iff = nat_eq_iff }

-- A Python `str` as its code points, and `bytes` as its bytes.
abbrev pub Text : Type 0
Text = List ℕ

abbrev pub codes : String → Text
codes String.[] = []
codes (String.◌∷◌ c s) = code c ∷ codes s

unfoldable pub text_eq : Text → Text → Bool
text_eq [] [] = true
text_eq (a ∷ s) (b ∷ t) = nat_eq a b && text_eq s t
text_eq _ _ = false

pub text_eq_iff : (s t : Text) → (text_eq s t ≡ true) ↔ (s ≡ t)
unfolding text_eq
text_eq_iff [] [] = ((λ _. refl), (λ _. refl))
text_eq_iff [] (b ∷ t) = ((λ e. cc), (λ e. cc))
text_eq_iff (a ∷ s) [] = ((λ e. cc), (λ e. cc))
text_eq_iff (a ∷ s) (b ∷ t) = ground (arith, text_eq_iff s t)

instance abbrev pub text_eq_key : Eq Text
text_eq_key = record { test = text_eq; test_iff = text_eq_iff }

-- Python's `<` on `str`: lexicographic by code point.
unfoldable pub text_lt : Text → Text → Bool
text_lt [] [] = false
text_lt [] (b ∷ t) = true
text_lt (a ∷ s) [] = false
text_lt (a ∷ s) (b ∷ t) = ltb a b || (nat_eq a b && text_lt s t)

-- `x in xs`
module _ {ℓ} {A : Type ℓ} ⦃e : Eq A⦄ where
  abbrev pub member : A → List A → Bool
  member a [] = false
  member a (x ∷ xs) = a == x || member a xs

  pub ==_refl : (a : A) → (a == a) ≡ true
  ==_refl a = (e.test_iff a a).1 refl

  -- `s.add(a)` on a set kept as a list without repetition.
  abbrev pub set_add : A → List A → List A
  set_add a xs = if member a xs then xs else a ∷ xs

  -- Membership in code that walks a set.
  pub member-set_add : (a b : A) (xs : List A) → member b (set_add a xs) ≡ (b == a || member b xs)
  member-set_add a b xs = elim (Bool-cases (member a xs)) [
    | inl old ↦ ground (arith, e.test_iff b a, old)
    | inr new ↦ ground arith
  ]

-- `xs == ys` on tuples.
module _ {ℓ} {A : Type ℓ} ⦃e : Eq A⦄ where
  unfoldable pub list_eq : List A → List A → Bool
  list_eq [] [] = true
  list_eq (x ∷ xs) (y ∷ ys) = x == y && list_eq xs ys
  list_eq _ _ = false

  pub list_eq_iff : (xs ys : List A) → (list_eq xs ys ≡ true) ↔ (xs ≡ ys)
  unfolding list_eq
  list_eq_iff [] [] = ((λ _. refl), (λ _. refl))
  list_eq_iff [] (y ∷ ys) = ((λ h. cc), (λ h. cc))
  list_eq_iff (x ∷ xs) [] = ((λ h. cc), (λ h. cc))
  list_eq_iff (x ∷ xs) (y ∷ ys) = ground (arith, e.test_iff x y, list_eq_iff xs ys)
