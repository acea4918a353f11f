-- ===== src/Base/Decimal.antt =====
-- The decimal text of a number, as Python prints it, and the padding of `{n:04d}`.
use Prim.Native.Nat.{ℕ, zero, suc, ◌+◌, ◌-◌, ◌*◌, ◌/◌, ◌%◌, ◌<◌}
use mathlib.Core.Path.{◌≡◌, refl, sym, ap, ◌∙◌}
use mathlib.Core.List.{[], ◌∷◌, ◌++◌}
use mathlib.Core.Logic.{inl, inr}
use native.Mathlib.Omega.{arith}
use mootloop.Base.Tests.{ltb, if◌then◌else◌, Bool-cases}
use mootloop.Base.Lists.{length}
use mootloop.Base.Keys.{Text}

-- The digits of `n`, the last one last; `n + 1` rounds are enough.
unfoldable pub digits : (fuel n : ℕ) → Text
digits zero n = []
digits (suc fuel) n =
    let front = digits fuel (n / 10) in
    if ltb n 10 then (48 + n) ∷ [] else front ++ (48 + n % 10) ∷ []

-- `str(n)`
unfoldable pub decimal : ℕ → Text
unfolding digits
decimal n = digits (suc n) n

abbrev pub zeros : ℕ → Text → Text
zeros zero s = s
zeros (suc k) s = 48 ∷ zeros k s

-- `f"{n:04d}"`
unfoldable pub padded : ℕ → Text
unfolding decimal
padded n = let s = decimal n in zeros (4 - length s) s

-- The number that a text of digits stands for.
value_from : ℕ → Text → ℕ
value_from acc [] = acc
value_from acc (c ∷ s) = value_from (acc * 10 + (c - 48)) s

value-append_one :
    (acc c : ℕ) (s : Text) → value_from acc (s ++ c ∷ []) ≡ value_from acc s * 10 + (c - 48)
unfolding value_from
value-append_one acc c [] = refl
value-append_one acc c (d ∷ s) = value-append_one (acc * 10 + (d - 48)) c s

value-digits : (fuel n : ℕ) → n < fuel → value_from 0 (digits fuel n) ≡ n
unfolding value_from digits
value-digits zero n h = elim h [ ]
value-digits (suc fuel) n h = elim (Bool-cases (ltb n 10)) [
  | inl small ↦ rw small (omega arith)
  | inr large ↦
      let ih = value-digits fuel (n / 10) (ground arith) in
      rw (large, value-append_one 0 (48 + n % 10) (digits fuel (n / 10)), ih) (omega arith)
]

value-zeros : (k : ℕ) (s : Text) → value_from 0 (zeros k s) ≡ value_from 0 s
unfolding value_from
value-zeros zero s = refl
value-zeros (suc k) s = value-zeros k s

-- Two numbers of one padded text are the same.
pub padded-injective : (m n : ℕ) → padded m ≡ padded n → m ≡ n
unfolding padded
padded-injective m n e =
    let read : (k : ℕ) → value_from 0 (padded k) ≡ k = λ k.
      value-zeros (4 - length (decimal k)) (decimal k) ∙ value-digits (suc k) k (omega arith) in
    sym (read m) ∙ ap (value_from 0) e ∙ read n

pub append-injective : (front s t : Text) → front ++ s ≡ front ++ t → s ≡ t
append-injective [] s t e = e
append-injective (c ∷ front) s t e = append-injective front s t (cc)
