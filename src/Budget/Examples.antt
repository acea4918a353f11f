-- ===== src/Budget/Examples.antt =====
-- A model that the table does not price, metered in whole dollars.
use mootloop.Base.{ℕ, ◌≡◌, refl, member, false, none, codes, text_eq, text_eq_key, ltb, arith}
use mootloop.Base.Dict.{lookup}
use mootloop.Base.Floats.{whole}
use mootloop.Budget.{
  Metering, date, covering_rates, prices, rate_for, price_for, first_covering, normalize_model,
  covers, free_models,
}
use mootloop.Budget.Bounds.{IsOrder, IsDearest, rate_for-IsDearest}

abbrev pub metering : Metering ℕ
metering = record { floats = whole; strip = λ s. s; drop_date_suffix = λ s. s; round4 = λ n. n }

whole-IsOrder : IsOrder whole
whole-IsOrder = record {
  irreflexive = λ a. ground arith;
  transitive = λ a b c p q. ground arith;
  ties = λ a b c p q. ground arith;
}

unpriced : price_for metering (codes "claude-next") (date 2026 1 1) ≡ none
unfolding price_for prices normalize_model first_covering lookup text_eq covers
unpriced = refl

charged : member (normalize_model metering (codes "claude-next")) free_models ≡ false
unfolding normalize_model text_eq
charged = refl

rate_for-IsDearest_example :
    IsDearest metering
      (rate_for metering (codes "claude-next") (date 2026 1 1))
      (covering_rates metering (date 2026 1 1) (prices metering))
    × (ltb (rate_for metering (codes "claude-next") (date 2026 1 1)).1 25 ≡ false)
rate_for-IsDearest_example =
    rate_for-IsDearest metering whole-IsOrder (codes "claude-next") (date 2026 1 1) unpriced charged
      (omega arith)
