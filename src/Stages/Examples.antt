-- ===== src/Stages/Examples.antt =====
-- A request with two rounds, one of each other seat, and its turn ceiling.
use mootloop.Base.{ℕ, ◌≡◌, refl, ◌≤◌, ◌*◌, true, [], ◌∷◌, codes, range_from, arith, text_eq}
use mootloop.Config.{TaskAdapterConfig, discovery, pipeline_turn_ceiling}
use mootloop.Stages.{SlotLayout, layout, block, base, judge_slot}
use mootloop.Stages.Layout.{run_slots, run_slots-range}
use mootloop.Stages.Ceiling.{pipeline_turn_ceiling-le}

abbrev config : TaskAdapterConfig ℕ
config = record {
  schema_version = codes "1.0";
  input_family = discovery;
  task = codes "discovery-responses";
  stages = codes "partner_loop" ∷ codes "judge_panel" ∷ codes "jury_panel" ∷ codes "assemble" ∷ [];
  loop_caps = record { associate_partner = 2; oc = 1; bolster = 1; restructure = 1 };
  panels = record { judges = 3; jury = true; jurors = 2; rubric_judges = 3 };
  convergence = record { score_delta_floor = 1; material_change_floor = 1; coverage_floor = 1 };
  gates = [];
  rubric_id = codes "r";
  rubric_threshold = 1;
  restructure_threshold = 1;
  deliverables = [];
  pipeline_strategies = [];
  overridable = [];
}

abbrev second : SlotLayout
second = layout (codes "r") 1 config

judge_slots : judge_slot second 2 ≡ 24
unfolding judge_slot base block layout
judge_slots = refl

ceiling : pipeline_turn_ceiling config true ≡ 11
unfolding pipeline_turn_ceiling text_eq
ceiling = refl

run_slots-range_example : run_slots second 0 3 ≡ range_from (0 * block second) (3 * block second)
run_slots-range_example = run_slots-range second 0 3

pipeline_turn_ceiling-le_example :
    pipeline_turn_ceiling config true ≤ block (layout (codes "r") 1 config)
pipeline_turn_ceiling-le_example = pipeline_turn_ceiling-le (codes "r") 1 config true (omega arith)
