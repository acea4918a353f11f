-- ===== src/Budget/Estimate.antt =====
-- budget.py, `estimate_run`: the rows of the planned calls, and their cost range.
use mootloop.Base.{
  ℕ, ◌-◌, ◌*◌, ◌&&◌, not, List, [], ◌∷◌, ◌++◌, Text, codes, text_eq_key, ◌==◌, if◌then◌else◌,
  nat_eq, member, Result, ok, ◌>>=◌, of_option, key_error,
}
use mootloop.Base.Dict.{Dict, lookup}
use mootloop.Config.{TaskAdapterConfig}
use mootloop.Budget.{tier_models, EstimateAssumptions, output_for, Metering, cost_of}

pub record StageEstimate (Usd : Type 0) : Type 0 where
  pub stage : Text
  pub role : Text
  pub model : Text
  pub min_calls : ℕ
  pub max_calls : ℕ
  pub min_usd : Usd
  pub max_usd : Usd

pub record EstimateRange (Usd : Type 0) : Type 0 where
  pub tier : Text
  pub requests : ℕ
  pub min_usd : Usd
  pub max_usd : Usd
  pub breakdown : List (StageEstimate Usd)

-- One row of the plan: the stage, the role, and the least and the most calls per request.
pub record PlannedCalls : Type 0 where
  pub stage : Text
  pub role : Text
  pub min_per : ℕ
  pub max_per : ℕ

abbrev pub calls : Text → Text → ℕ → ℕ → PlannedCalls
calls stage role low high = record { stage = stage; role = role; min_per = low; max_per = high }

module _ {F : Type 0} (config : TaskAdapterConfig F) (objections : ℕ) where
  abbrev pub seated_jurors : ℕ
  seated_jurors = if config.panels.jury then config.panels.jurors else 0

  unfoldable pub partner_rows : List PlannedCalls
  partner_rows =
      let ap = config.loop_caps.associate_partner in
      calls (codes "partner_loop:redraft") (codes "personas") 0 (ap - 1)
      ∷ calls (codes "partner_loop:critique") (codes "personas") 1 ap
      ∷ (if member (codes "rubric") config.gates
          then calls (codes "partner_loop:rubric") (codes "rubric") 1 ap ∷ []
          else [])

  -- The rows of one stage.
  unfoldable pub rows_of : Text → List PlannedCalls
  unfolding partner_rows
  rows_of stage =
      if stage == codes "associate_draft"
      then calls stage (codes "personas") 1 1 ∷ []
      else if stage == codes "partner_loop"
      then partner_rows
      else if stage == codes "oc_attack"
      then calls stage (codes "personas") config.loop_caps.oc config.loop_caps.oc ∷ []
      else if stage == codes "bolster"
      then calls stage (codes "personas") config.loop_caps.bolster config.loop_caps.bolster ∷ []
      else if stage == codes "narrative_assessment"
      then calls stage (codes "judges") config.panels.judges config.panels.judges ∷ []
      else if stage == codes "judge_panel"
      then calls stage (codes "judges") (config.panels.judges * objections)
          (config.panels.judges * objections)
        ∷ []
      else if stage == codes "restructure"
      then calls stage (codes "personas") 0 config.loop_caps.restructure ∷ []
      else if stage == codes "jury_panel" && not (nat_eq seated_jurors 0)
      then calls stage (codes "judges") seated_jurors seated_jurors ∷ []
      else if stage == codes "rubric_gate"
      then calls stage (codes "rubric") config.panels.rubric_judges config.panels.rubric_judges ∷ []
      else []

  unfoldable pub plan_rows : List Text → List PlannedCalls
  unfolding rows_of
  plan_rows [] = []
  plan_rows (stage ∷ stages) = rows_of stage ++ plan_rows stages

module _ {Usd : Type 0} (lib : Metering Usd) where
  unfoldable pub call_cost : Text → Text → ℕ → EstimateAssumptions Usd → Result Usd
  unfolding output_for cost_of
  call_cost role model on assume = output_for assume role >>= λ output. ok (
      cost_of lib
        (record {
          input_tokens = assume.uncached_in;
          cache_read = assume.cache_read;
          cache_write = 0;
          output_tokens = output;
          model = model;
        })
        model on)

  -- The loop over the rows with its two totals.
  unfoldable pub estimate_rows :
      ℕ
      → Dict Text Text
      → ℕ
      → EstimateAssumptions Usd
      → Usd
      → Usd
      → List PlannedCalls
      → Result (List (StageEstimate Usd) × Usd × Usd)
  unfolding call_cost
  estimate_rows requests models on assume low high [] = ok ([], low, high)
  estimate_rows requests models on assume low high (row ∷ rows) =
      of_option key_error (lookup row.role models) >>= λ model.
      call_cost row.role model on assume >>= λ per_call.
      let min_usd =
        lib.floats.mul (lib.floats.mul (lib.floats.of_int (row.min_per * requests)) per_call)
          assume.derail_factor in
      let max_usd =
        lib.floats.mul (lib.floats.mul (lib.floats.of_int (row.max_per * requests)) per_call)
          assume.derail_factor in
      estimate_rows requests models on assume (lib.floats.add low min_usd)
        (lib.floats.add high max_usd) rows
      >>= λ rest. ok (
        record {
          stage = row.stage;
          role = row.role;
          model = model;
          min_calls = row.min_per * requests;
          max_calls = row.max_per * requests;
          min_usd = lib.round4 min_usd;
          max_usd = lib.round4 max_usd;
        }
            ∷ rest.0,
        rest.1,
        rest.2,
      )

  unfoldable pub estimate_run :
      {F : Type 0}
      → ℕ
      → TaskAdapterConfig F
      → Text
      → ℕ
      → EstimateAssumptions Usd
      → Result (EstimateRange Usd)
  unfolding tier_models plan_rows estimate_rows
  estimate_run requests config tier on assume = tier_models tier >>= λ models.
      estimate_rows requests models on assume (lib.floats.of_int 0) (lib.floats.of_int 0)
        (plan_rows config assume.objections_per_request config.stages)
      >>= λ rows. ok (record {
        tier = tier;
        requests = requests;
        min_usd = lib.round4 rows.1;
        max_usd = lib.round4 rows.2;
        breakdown = rows.0;
      })
