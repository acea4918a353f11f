-- ===== src/Budget/Bounds.antt =====
-- budget.py, `_rate_for`: a model that the table does not price is metered at its dearest rate.
use mathlib.Core.Path.{subst, sym}
use mootloop.Base.{
  ℕ, ◌≡◌, ◌≤◌, refl, Bool, true, false, none, List, [], ◌∷◌, All, Text, text_eq_key, member, ltb,
  if◌then◌else◌, arith,
}
use mootloop.Base.Floats.{FloatOps}
use mootloop.Budget.{
  Metering, date, covers, free_models, prices, normalize_model, price_for, max_from, covering_rates,
  most_expensive_rate, rate_for,
}

-- The comparison of dollars as an order whose ties are transitive, as it is on floats that are
-- numbers.
pub record IsOrder {Usd : Type 0} (floats : FloatOps Usd) : Type 0 where
  pub irreflexive : (a : Usd) → floats.lt a a ≡ false
  pub transitive :
      (a b c : Usd) → floats.lt a b ≡ true → floats.lt b c ≡ true → floats.lt a c ≡ true
  pub ties : (a b c : Usd) → floats.lt a b ≡ false → floats.lt b c ≡ false → floats.lt a c ≡ false

module _ {Usd : Type 0} (lib : Metering Usd) where
  -- No rate of the list has an output price above this one's.
  abbrev pub IsDearest : Usd × Usd → List (Usd × Usd) → Type 0
  IsDearest top = All (λ (r : Usd × Usd). lib.floats.lt top.1 r.1 ≡ false)

  -- One step of the maximum, on what the comparison said.
  stepped-IsDearest :
      IsOrder lib.floats
      → (above : Bool) (best r : Usd × Usd) (rates : List (Usd × Usd)) (top : Usd × Usd)
      → lib.floats.lt best.1 r.1 ≡ above
      → IsDearest top ((if above then r else best) ∷ rates)
      → IsDearest top (best ∷ r ∷ rates)
  stepped-IsDearest order true best r rates top above h =
      (ground (arith, order.transitive top.1 best.1 r.1, h.0, above), h)
  stepped-IsDearest order false best r rates top below h =
      (h.0, (order.ties top.1 best.1 r.1 h.0 below, h.1))

  max_from-IsDearest :
      IsOrder lib.floats
      → (best : Usd × Usd) (rates : List (Usd × Usd))
      → IsDearest (max_from lib best rates) (best ∷ rates)
  unfolding max_from
  max_from-IsDearest order best [] = (order.irreflexive best.1, _)
  max_from-IsDearest order best (r ∷ rates) =
      let above = lib.floats.lt best.1 r.1 in
      stepped-IsDearest order above best r rates (max_from lib (if above then r else best) rates)
        refl (max_from-IsDearest order (if above then r else best) rates)

  most_expensive_rate-IsDearest :
      IsOrder lib.floats
      → (on : ℕ) (rates : List (Usd × Usd)) → covering_rates lib on (prices lib) ≡ rates
      → IsDearest (most_expensive_rate lib on) rates
  unfolding most_expensive_rate
  most_expensive_rate-IsDearest order on [] e = _
  most_expensive_rate-IsDearest order on (r ∷ rates) e =
      let top : most_expensive_rate lib on ≡ max_from lib r rates =
        rw (most_expensive_rate, e) refl in
      subst (λ t. IsDearest t (r ∷ rates)) (sym top) (max_from-IsDearest order r rates)

  -- The window of Opus is open: on or after the first day of the table its rate is among them.
  opus_covered :
      (on : ℕ) (P : Usd × Usd → Type 0)
      → date 2025 1 1 ≤ on
      → All P (covering_rates lib on (prices lib))
      → P (lib.floats.of_int 5, lib.floats.of_int 25)
  unfolding covering_rates prices covers
  opus_covered on P since h =
      let covered : ltb on (date 2025 1 1) ≡ false = ground arith in (rw covered at h).0

  unpriced-rate_for :
      (model : Text) (on : ℕ)
      → price_for lib model on ≡ none
      → member (normalize_model lib model) free_models ≡ false
      → rate_for lib model on ≡ most_expensive_rate lib on
  unfolding rate_for
  unpriced-rate_for model on unpriced charged = rw (rate_for, unpriced, if◌then◌else◌, charged) refl

  -- Under an order of the dollars, a model that is not free and that the table does not price on a
  -- day is metered at a rate whose output price no rate of that day's table exceeds; from the first
  -- day of the table on it is at least the 25 dollars of Opus. Metering fails closed.
  pub rate_for-IsDearest :
      IsOrder lib.floats
      → (model : Text) (on : ℕ) → price_for lib model on ≡ none
      → member (normalize_model lib model) free_models ≡ false
      → date 2025 1 1 ≤ on
      → IsDearest (rate_for lib model on) (covering_rates lib on (prices lib))
        × (lib.floats.lt (rate_for lib model on).1 (lib.floats.of_int 25) ≡ false)
  rate_for-IsDearest order model on unpriced charged since =
      let dearest =
        most_expensive_rate-IsDearest order on (covering_rates lib on (prices lib)) refl in
      rw (unpriced-rate_for model on unpriced charged) (
        dearest,
        opus_covered on (λ r. lib.floats.lt (most_expensive_rate lib on).1 r.1 ≡ false) since
            dearest,
      )
