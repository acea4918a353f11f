-- ===== src/Budget.antt =====
-- budget.py and models/budget.py: the tiers, the dated price table and the metered cost of a call.
-- `Usd` is the float type; a date is the number of its year, month and day.
-- `strip`, the regular expression's substitution and `round(x, 4)` are the library's.
mod Bounds
mod Estimate
pub mod Examples
use mootloop.Base.{
  ℕ, suc, ◌+◌, ◌-◌, ◌*◌, Bool, true, false, ◌&&◌, not, Option, none, some, List, [], ◌∷◌, ◌++◌, map,
  Text, codes, text_eq_key, ◌==◌, if◌then◌else◌, ltb, leb, nat_eq, member, filter, Result, ok, err,
  ◌>>=◌, of_option, key_error, budget_error,
}
use mootloop.Base.Dict.{Dict, lookup, get_or}
use mootloop.Base.Floats.{FloatOps}
use mootloop.Config.{TaskAdapterConfig}

pub record TokenUsage : Type 0 where
  pub input_tokens : ℕ
  pub cache_read : ℕ
  pub cache_write : ℕ
  pub output_tokens : ℕ
  pub model : Text

-- `date(year, month, day)`
abbrev pub date : ℕ → ℕ → ℕ → ℕ
date year month day = year * 10000 + month * 100 + day

pub record PriceWindow (Usd : Type 0) : Type 0 where
  pub effective_from : ℕ
  pub effective_to : Option ℕ
  pub input_per_mtok : Usd
  pub output_per_mtok : Usd

unfoldable pub covers : {Usd : Type 0} → PriceWindow Usd → ℕ → Bool
covers w on =
    if ltb on w.effective_from
    then false
    else elim w.effective_to [ none ↦ true | some to ↦ leb on to ]

abbrev pub model_opus : Text
model_opus = codes "claude-opus-4-8"

abbrev pub model_sonnet : Text
model_sonnet = codes "claude-sonnet-5"

abbrev pub model_haiku : Text
model_haiku = codes "claude-haiku-4-5"

abbrev pub model_fable : Text
model_fable = codes "claude-fable-5"

abbrev pub free_models : List Text
free_models = codes "fake" ∷ codes "seat" ∷ [] ∷ []

abbrev pub mix : Text → Text → Text → Text → Dict Text Text
mix personas judges rubric cite =
    (codes "personas", personas)
    ∷ (codes "judges", judges)
    ∷ (codes "rubric", rubric)
    ∷ (codes "cite", cite)
    ∷ []

unfoldable pub tiers : Dict Text (Dict Text Text)
tiers =
    (codes "no-budget", mix model_opus model_opus model_opus model_opus)
    ∷ (codes "moderate", mix model_opus model_sonnet model_sonnet model_haiku)
    ∷ (codes "low", mix model_opus model_haiku model_haiku model_haiku)
    ∷ []

unfoldable pub tier_models : Text → Result (Dict Text Text)
unfolding tiers
tier_models tier = of_option budget_error (lookup tier tiers)

pub record EstimateAssumptions (Usd : Type 0) : Type 0 where
  pub uncached_in : ℕ
  pub cache_read : ℕ
  pub out_personas : ℕ
  pub out_judges : ℕ
  pub out_rubric : ℕ
  pub out_cite : ℕ
  pub objections_per_request : ℕ
  pub derail_factor : Usd

unfoldable pub output_for : {Usd : Type 0} → EstimateAssumptions Usd → Text → Result ℕ
output_for a role = of_option key_error (
    lookup role (
      (codes "personas", a.out_personas)
      ∷ (codes "judges", a.out_judges)
      ∷ (codes "rubric", a.out_rubric)
      ∷ (codes "cite", a.out_cite)
      ∷ []))

-- What metering takes from the libraries.
pub record Metering (Usd : Type 0) : Type 0 where
  pub floats : FloatOps Usd
  pub strip : Text → Text
  pub drop_date_suffix : Text → Text
  pub round4 : Usd → Usd

module _ {Usd : Type 0} (lib : Metering Usd) where
  abbrev pub from_epoch : Option ℕ → ℕ → ℕ → PriceWindow Usd
  from_epoch to input output = record {
    effective_from = date 2025 1 1;
    effective_to = to;
    input_per_mtok = lib.floats.of_int input;
    output_per_mtok = lib.floats.of_int output;
  }

  unfoldable pub prices : Dict Text (List (PriceWindow Usd))
  prices =
      (model_opus, from_epoch none 5 25 ∷ [])
      ∷ (
        model_sonnet,
        from_epoch (some (date 2026 8 31)) 2 10
            ∷ record {
              effective_from = date 2026 9 1;
              effective_to = none;
              input_per_mtok = lib.floats.of_int 3;
              output_per_mtok = lib.floats.of_int 15;
            }
            ∷ [],
      )
      ∷ (model_haiku, from_epoch none 1 5 ∷ [])
      ∷ (model_fable, from_epoch none 10 50 ∷ [])
      ∷ []

  unfoldable pub normalize_model : Text → Text
  normalize_model model = lib.drop_date_suffix (lib.strip model)

  abbrev pub rate_of : PriceWindow Usd → Usd × Usd
  rate_of w = (w.input_per_mtok, w.output_per_mtok)

  unfoldable pub first_covering : ℕ → List (PriceWindow Usd) → Option (Usd × Usd)
  unfolding covers
  first_covering on [] = none
  first_covering on (w ∷ windows) =
      let rest = first_covering on windows in if covers w on then some (rate_of w) else rest

  unfoldable pub price_for : Text → ℕ → Option (Usd × Usd)
  unfolding prices normalize_model first_covering
  price_for model on = first_covering on (get_or (normalize_model model) [] prices)

  -- `max(rates, key=lambda r: r[1])`, the first of the greatest.
  unfoldable pub max_from : Usd × Usd → List (Usd × Usd) → Usd × Usd
  max_from best [] = best
  max_from best (r ∷ rates) = max_from (if lib.floats.lt best.1 r.1 then r else best) rates

  unfoldable pub covering_rates : ℕ → Dict Text (List (PriceWindow Usd)) → List (Usd × Usd)
  unfolding covers
  covering_rates on [] = []
  covering_rates on ((model, windows) ∷ table) =
      map rate_of (filter (λ w. covers w on) windows) ++ covering_rates on table

  abbrev pub zero_rate : Usd × Usd
  zero_rate = (lib.floats.of_int 0, lib.floats.of_int 0)

  unfoldable pub most_expensive_rate : ℕ → Usd × Usd
  unfolding prices max_from covering_rates
  most_expensive_rate on = elim (covering_rates on prices) [
    | [] ↦ zero_rate
    | r ∷ rates ↦ max_from r rates
  ]

  unfoldable pub rate_for : Text → ℕ → Usd × Usd
  unfolding price_for normalize_model most_expensive_rate
  rate_for model on = elim (price_for model on) [
    | some rate ↦ rate
    | none ↦
        if member (normalize_model model) free_models then zero_rate else most_expensive_rate on
  ]

  abbrev pub million : Usd
  million = lib.floats.of_int 1000000

  unfoldable pub cost_of : TokenUsage → Text → ℕ → Usd
  unfolding rate_for
  cost_of usage model on =
      let f = lib.floats in
      let rate = rate_for model on in
      f.div
        (f.add
          (f.add
            (f.add (f.mul (f.of_int usage.input_tokens) rate.0)
              (f.mul (f.mul (f.of_int usage.cache_write) (f.div (f.of_int 5) (f.of_int 4))) rate.0))
            (f.mul (f.mul (f.of_int usage.cache_read) (f.div (f.of_int 1) (f.of_int 10))) rate.0))
          (f.mul (f.of_int usage.output_tokens) rate.1))
        million

  unfoldable pub max_plausible_cost : Text → ℕ → Usd
  unfolding rate_for
  max_plausible_cost model on =
      let f = lib.floats in
      let rate = rate_for model on in
      f.div (f.add (f.mul (f.of_int 200000) rate.0) (f.mul (f.of_int 64000) rate.1)) million
