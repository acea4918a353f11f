-- ===== src/Base/Distinct.antt =====
-- Lists whose elements are all different, as an equality test sees them.
use mathlib.Core.Path.{◌≡◌, refl}
use mathlib.Core.Bool.{true, false, ◌||◌}
use mathlib.Core.List.{List, [], ◌∷◌, ◌++◌}
use native.Mathlib.Omega.{arith}
use mootloop.Base.Keys.{Eq, member, ==_refl}

module _ {A : Type 0} ⦃e : Eq A⦄ where
  abbrev pub IsDistinct : List A → Type 0
  IsDistinct [] = Unit
  IsDistinct (a ∷ xs) = (member a xs ≡ false) × IsDistinct xs

  pub member-append : (a : A) (xs ys : List A) → member a (xs ++ ys) ≡ (member a xs || member a ys)
  member-append a [] ys = refl
  member-append a (x ∷ xs) ys = ground (arith, member-append a xs ys)

  pub member-last : (a : A) (xs : List A) → member a (xs ++ a ∷ []) ≡ true
  member-last a xs = ground (arith, member-append a xs (a ∷ []), ==_refl a)

  pub IsDistinct-append_one :
      (a : A) (xs : List A) → IsDistinct xs → member a xs ≡ false → IsDistinct (xs ++ a ∷ [])
  IsDistinct-append_one a [] h new = (refl, _)
  IsDistinct-append_one a (x ∷ xs) h new = (
    ground (arith, member-append x xs (a ∷ []), e.test_iff a x, e.test_iff x a),
    IsDistinct-append_one a xs h.1 (ground arith),
  )
