-- ===== src/Panels/Votes.antt =====
-- Each objection has one result, and its votes are within the panel.
use mathlib.Core.Path.{subst}
use mootloop.Base.{
  ℕ, suc, ◌+◌, ◌≤◌, ◌≡◌, refl, Option, none, some, List, [], ◌∷◌, map, arith, Text, length,
  length-append, get_elem?,
}
use mootloop.Base.Floats.{FloatOps}
use mootloop.Turn.{Objection, ObjectionRuling, JudgeOutput}
use mootloop.Panels.{
  PanelResult, Tally, add_sample, count_ruling, tally_from, results_from, fold_objection_results,
  align_rulings,
}

length-map {ℓ κ} :
    {A : Type ℓ} {B : Type κ} (f : A → B) (xs : List A) → length (map f xs) ≡ length xs
length-map f [] = refl
length-map f (x ∷ xs) = omega (arith, length-map f xs)

module _ (strip : Text → Text) where
  -- At most `bound` votes, no more survivals than votes, and at most three samples.
  abbrev IsWithin : ℕ → Tally → Type 0
  IsWithin bound t = (t.survive ≤ t.total) × (t.total ≤ bound) × (length t.samples ≤ 3)

  length-add_sample :
      (s : Text) (samples : List Text)
      → length samples ≤ 3
      → length (add_sample strip s samples) ≤ 3
  unfolding add_sample
  length-add_sample [] samples h = h
  length-add_sample (c ∷ s) samples h = ground (arith, length-append samples ((c ∷ s) ∷ []))

  count_ruling-IsWithin :
      (bound : ℕ) (t : Tally) (o : Option ObjectionRuling)
      → IsWithin bound t
      → IsWithin (suc bound) (count_ruling strip t o)
  unfolding count_ruling
  count_ruling-IsWithin bound t none h = omega arith
  count_ruling-IsWithin bound t (some r) h =
      (ground arith, omega arith, length-add_sample (strip r.reasoning) t.samples h.2)

  tally_from-IsWithin :
      (bound : ℕ) (t : Tally) (index : ℕ) (aligned : List (List (Option ObjectionRuling)))
      → IsWithin bound t
      → IsWithin (bound + length aligned) (tally_from strip t index aligned)
  unfolding tally_from
  tally_from-IsWithin bound t index [] h = omega arith
  tally_from-IsWithin bound t index (per_judge ∷ aligned) h =
      let ruling : Option ObjectionRuling = elim (get_elem? per_judge index) [
        | none ↦ none
        | some r ↦ r
      ] in
      let next = count_ruling strip t ruling in
      omega (
        arith,
        tally_from-IsWithin (suc bound) next index aligned (count_ruling-IsWithin bound t ruling h),
      )

  module _ {F : Type 0} (floats : FloatOps F) where
    -- The result is about the objection at its place, with its votes within a panel of `judges`.
    abbrev pub IsResultOf : ℕ → ℕ → Objection → PanelResult F → Type 0
    IsResultOf judges index o r =
        (r.objection_index ≡ index)
        × (r.objection_basis ≡ o.basis)
        × (r.survive_votes ≤ r.total_votes)
        × (r.total_votes ≤ judges)
        × (length r.reasoning_samples ≤ 3)

    abbrev pub AreResultsOf : ℕ → ℕ → List Objection → List (PanelResult F) → Type 0
    AreResultsOf judges index [] [] = Unit
    AreResultsOf judges index (o ∷ os) (r ∷ rs) =
        IsResultOf judges index o r × AreResultsOf judges (suc index) os rs
    AreResultsOf judges index _ _ = ⊥

    results_from-AreResultsOf :
        (run_id request_id : Text) (index : ℕ) (objections : List Objection)
        (aligned : List (List (Option ObjectionRuling)))
        → AreResultsOf
            (length aligned)
            index
            objections
            (results_from strip floats run_id request_id index objections aligned)
    unfolding results_from
    results_from-AreResultsOf run_id request_id index [] aligned = tt
    results_from-AreResultsOf run_id request_id index (o ∷ objections) aligned =
        let (a, b, c) =
          tally_from-IsWithin 0 (record { survive = 0; total = 0; samples = [] }) index aligned
            (omega arith) in
        (
          (refl, refl, a, omega arith, c),
          results_from-AreResultsOf run_id request_id (suc index) objections aligned,
        )

    -- The fold gives one result for each objection, in order, with its index and basis; no more
    -- judges count as a survival than voted, no more voted than sit on the panel, and at most
    -- three reasonings are kept.
    pub fold_objection_results-AreResultsOf :
        (normalize : Text → Text) (run_id request_id : Text) (objections : List Objection)
        (judge_outputs : List JudgeOutput)
        → AreResultsOf (length judge_outputs) 0 objections (
            fold_objection_results strip floats normalize run_id request_id objections
              judge_outputs)
    unfolding fold_objection_results
    fold_objection_results-AreResultsOf normalize run_id request_id objections judge_outputs =
        let aligned = map (align_rulings normalize objections) judge_outputs in
        let results = results_from strip floats run_id request_id 0 objections aligned in
        subst (λ n. AreResultsOf n 0 objections results)
          (length-map (align_rulings normalize objections) judge_outputs)
          (results_from-AreResultsOf run_id request_id 0 objections aligned)
