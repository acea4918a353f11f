-- ===== src/Panels.antt =====
-- panels.py, the pure folds of the judge panel. `normalize` is `.strip().lower()` and `strip` is
-- `.strip()` on a `str`, which go by Unicode tables; `floats` divides the votes.
pub mod Alignment
pub mod Votes
pub mod Jury
mod Examples
use mootloop.Base.{
  ℕ, zero, suc, ◌+◌, Bool, true, false, ◌&&◌, not, Option, none, some, List, [], ◌∷◌, ◌++◌, map,
  Text, text_eq, text_eq_key, ℕ_eq, ◌==◌, member, if◌then◌else◌, ltb, length, get_elem?,
}
use mootloop.Base.Floats.{FloatOps}
use mootloop.Turn.{Objection, ObjectionRuling, JudgeOutput}

pub record PanelResult (F : Type 0) : Type 0 where
  pub run_id : Text
  pub request_id : Text
  pub objection_index : ℕ
  pub objection_basis : Text
  pub survive_votes : ℕ
  pub total_votes : ℕ
  pub survival_rate : F
  pub reasoning_samples : List Text

abbrev pub max_reasoning_samples : ℕ
max_reasoning_samples = 3

-- `index if index in candidates else candidates[0]`, where there is a candidate.
unfoldable pub choose : ℕ → List ℕ → Option ℕ
choose index [] = none
choose index (c ∷ cs) = some (if member index (c ∷ cs) then index else c)

-- `claimed.add(chosen)`
unfoldable pub claim_index : Option ℕ → List ℕ → List ℕ
claim_index none claimed = claimed
claim_index (some c) claimed = c ∷ claimed

module _ (normalize : Text → Text) where
  -- The unclaimed rulings on a basis, from place `j` on.
  unfoldable pub candidates : Text → List ℕ → (j : ℕ) → List ObjectionRuling → List ℕ
  candidates basis claimed j [] = []
  candidates basis claimed j (r ∷ rulings) =
      let rest = candidates basis claimed (suc j) rulings in
      if not (member j claimed) && normalize r.objection_basis == basis then j ∷ rest else rest

  -- The first loop: the place of the ruling chosen for each objection, and the claimed places.
  unfoldable pub match_bases :
      List ObjectionRuling → (index : ℕ) → List Objection → List ℕ → List (Option ℕ) × List ℕ
  unfolding candidates choose claim_index
  match_bases rulings index [] claimed = ([], claimed)
  match_bases rulings index (o ∷ objections) claimed =
      let chosen = choose index (candidates (normalize o.basis) claimed 0 rulings) in
      let (rest, after) = match_bases rulings (suc index) objections (claim_index chosen claimed) in
      (chosen ∷ rest, after)

  -- The second loop: an unmatched objection falls back to its positional ruling.
  unfoldable pub fall_back : (count index : ℕ) → List (Option ℕ) → List ℕ → List (Option ℕ)
  fall_back count index [] claimed = []
  fall_back count index (some c ∷ aligned) claimed =
      some c ∷ fall_back count (suc index) aligned claimed
  fall_back count index (none ∷ aligned) claimed =
      if ltb index count && not (member index claimed)
      then some index ∷ fall_back count (suc index) aligned (index ∷ claimed)
      else none ∷ fall_back count (suc index) aligned claimed

  -- The places of the aligned rulings.
  unfoldable pub align_places : List Objection → List ObjectionRuling → List (Option ℕ)
  unfolding match_bases fall_back
  align_places objections rulings =
      let (aligned, claimed) = match_bases rulings 0 objections [] in
      fall_back (length rulings) 0 aligned claimed

  unfoldable pub ruling_at : List ObjectionRuling → Option ℕ → Option ObjectionRuling
  ruling_at rulings none = none
  ruling_at rulings (some j) = get_elem? rulings j

  unfoldable pub align_rulings : List Objection → JudgeOutput → List (Option ObjectionRuling)
  unfolding align_places ruling_at
  align_rulings objections judge =
      map (ruling_at judge.rulings) (align_places objections judge.rulings)

pub record Tally : Type 0 where
  pub survive : ℕ
  pub total : ℕ
  pub samples : List Text

module _ (strip : Text → Text) where
  unfoldable pub add_sample : Text → List Text → List Text
  add_sample [] samples = samples
  add_sample (c ∷ s) samples =
      if ltb (length samples) max_reasoning_samples then samples ++ (c ∷ s) ∷ [] else samples

  -- The body of the inner loop, for one judge's ruling on the objection.
  unfoldable pub count_ruling : Tally → Option ObjectionRuling → Tally
  unfolding add_sample
  count_ruling t none = t
  count_ruling t (some r) = record t {
    survive = if r.would_objection_survive then t.survive + 1 else t.survive;
    total = t.total + 1;
    samples = add_sample (strip r.reasoning) t.samples;
  }

  -- The inner loop; `per_judge[index]` is in range, as each list is as long as the objections.
  unfoldable pub tally_from : Tally → (index : ℕ) → List (List (Option ObjectionRuling)) → Tally
  unfolding count_ruling
  tally_from t index [] = t
  tally_from t index (per_judge ∷ aligned) =
      tally_from (count_ruling t (elim (get_elem? per_judge index) [ none ↦ none | some r ↦ r ]))
        index aligned

  module _ {F : Type 0} (floats : FloatOps F) where
    unfoldable pub survival_rate : ℕ → ℕ → F
    survival_rate survive zero = floats.of_int 0
    survival_rate survive (suc total) =
        floats.div (floats.of_int survive) (floats.of_int (suc total))

    unfoldable pub results_from :
        (run_id request_id : Text) (index : ℕ)
        → List Objection
        → List (List (Option ObjectionRuling))
        → List (PanelResult F)
    unfolding tally_from survival_rate
    results_from run_id request_id index [] aligned = []
    results_from run_id request_id index (o ∷ objections) aligned =
        let t = tally_from (record { survive = 0; total = 0; samples = [] }) index aligned in
        record {
          run_id = run_id;
          request_id = request_id;
          objection_index = index;
          objection_basis = o.basis;
          survive_votes = t.survive;
          total_votes = t.total;
          survival_rate = survival_rate t.survive t.total;
          reasoning_samples = t.samples;
        }
        ∷ results_from run_id request_id (suc index) objections aligned

    unfoldable pub fold_objection_results :
        (Text → Text)
        → (run_id request_id : Text) → List Objection
        → List JudgeOutput
        → List (PanelResult F)
    unfolding results_from align_rulings
    fold_objection_results normalize run_id request_id objections judge_outputs =
        results_from run_id request_id 0 objections
          (map (align_rulings normalize objections) judge_outputs)
