-- ===== src/Rubric.antt =====
-- models/rubric.py: the criteria of a rubric, those that apply to a request, and the scoring that
-- the convergence and the final gate share. `F` stands for the floats.
pub mod Final
use mootloop.Base.{
  ℕ, ◌-◌, ◌/◌, ◌%◌, Bool, true, false, ◌&&◌, ◌||◌, none, some, List, [], ◌∷◌, Text, codes,
  text_eq_key, ◌==◌, if◌then◌else◌, filter, nat_eq, length, get_elem?, Result, ok, ◌>>=◌, of_option,
  index_error,
}
use mootloop.Base.Dict.{Dict, lookup, insert}
use mootloop.Base.Floats.{FloatOps}

pub data CriterionKind : Type 0 where
  present correct : CriterionKind

pub record Criterion (F : Type 0) : Type 0 where
  pub id : Text
  pub name : Text
  pub description : Text
  pub kind : CriterionKind
  pub weight : F
  pub applies_to : Text

pub record Rubric (F : Type 0) : Type 0 where
  pub rubric_id : Text
  pub version : Text
  pub locked : Bool
  pub criteria : List (Criterion F)

unfoldable pub kind_eq : CriterionKind → CriterionKind → Bool
kind_eq present present = true
kind_eq correct correct = true
kind_eq _ _ = false

module _ {F : Type 0} where
  -- `_for_code`
  unfoldable pub for_code : CriterionKind → Text → Rubric F → List (Criterion F)
  unfolding kind_eq
  for_code kind code rubric =
      filter (λ c. kind_eq c.kind kind && (c.applies_to == code || c.applies_to == codes "all"))
        rubric.criteria

  unfoldable pub presence_criteria : Text → Rubric F → List (Criterion F)
  unfolding for_code
  presence_criteria = for_code present

  unfoldable pub correctness_criteria : Text → Rubric F → List (Criterion F)
  unfolding for_code
  correctness_criteria = for_code correct

  module _ (floats : FloatOps F) where
    -- The loop of `weighted_score` with its two sums.
    unfoldable pub weigh : Dict Text F → F → F → List (Criterion F) → F × F
    weigh scores num denom [] = (num, denom)
    weigh scores num denom (c ∷ criteria) = elim (lookup c.id scores) [
      | none ↦ weigh scores num denom criteria
      | some score ↦
          weigh scores (floats.add num (floats.mul c.weight (floats.div score (floats.of_int 5))))
            (floats.add denom c.weight) criteria
    ]

    unfoldable pub weighted_score : Rubric F → Dict Text F → Text → F
    unfolding weigh correctness_criteria
    weighted_score rubric scores code =
        let zero_ = floats.of_int 0 in
        let sums = weigh scores zero_ zero_ (correctness_criteria code rubric) in
        if floats.lt zero_ sums.1 then floats.div sums.0 sums.1 else zero_

    -- `sorted(values)`, which is stable.
    unfoldable pub insert_sorted : F → List F → List F
    insert_sorted x [] = x ∷ []
    insert_sorted x (y ∷ ys) =
        let rest = insert_sorted x ys in if floats.lt x y then x ∷ y ∷ ys else y ∷ rest

    unfoldable pub sorted_onto : List F → List F → List F
    unfolding insert_sorted
    sorted_onto done [] = done
    sorted_onto done (x ∷ xs) = sorted_onto (insert_sorted x done) xs

    unfoldable pub median : List F → Result F
    unfolding sorted_onto
    median values =
        let ordered = sorted_onto [] values in
        let n = length ordered in
        let mid = n / 2 in
        if nat_eq (n % 2) 1
        then of_option index_error (get_elem? ordered mid)
        else (of_option index_error (get_elem? ordered (mid - 1)) >>= λ low.
            of_option index_error (get_elem? ordered mid) >>= λ high.
            ok (floats.div (floats.add low high) (floats.of_int 2)))

    -- `[float(judge[id]) for judge in panel if id in judge]`
    unfoldable pub panel_scores : Text → List (Dict Text ℕ) → List F
    panel_scores id [] = []
    panel_scores id (judge ∷ panel) =
        let rest = panel_scores id panel in
        elim (lookup id judge) [ none ↦ rest | some score ↦ floats.of_int score ∷ rest ]

    unfoldable pub medians :
        List (Dict Text ℕ) → Dict Text F → List (Criterion F) → Result (Dict Text F)
    unfolding panel_scores median
    medians panel per_criterion [] = ok per_criterion
    medians panel per_criterion (c ∷ criteria) = elim (panel_scores c.id panel) [
      | [] ↦ medians panel per_criterion criteria
      | v ∷ vals ↦ median (v ∷ vals) >>= λ m. medians panel (insert c.id m per_criterion) criteria
    ]

    unfoldable pub aggregate_panel : Rubric F → List (Dict Text ℕ) → Text → Result (F × Dict Text F)
    unfolding medians weighted_score
    aggregate_panel rubric panel code =
        medians panel [] (correctness_criteria code rubric) >>= λ per_criterion.
        ok (weighted_score rubric per_criterion code, per_criterion)
