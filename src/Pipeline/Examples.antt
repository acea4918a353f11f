-- ===== src/Pipeline/Examples.antt =====
-- An adapter with one graph for every strategy, and a matter without opponents and rubric judge.
use mootloop.Base.{ℕ, ◌≡◌, refl, true, false, none, [], ◌∷◌, codes, text_eq, ok}
use mootloop.Base.Dict.{lookup}
use mootloop.Turn.{associate, partner, judge}
use mootloop.Config.{TaskAdapterConfig, PipelineStrategyConfig, discovery, pipeline_turn_ceiling}
use mootloop.Pipeline.{
  after_external, ResolvedPipeline, deep_core, persona_tests, stage_tests, strategy_tests,
  validate_ownership,
}
use mootloop.Pipeline.Compile.{
  MatterConfig, selected_personas, resolve, compile_pipeline, strategy_name,
}
use mootloop.Pipeline.Owned.{IsOwned}
use mootloop.Pipeline.Bypassed.{IsBypassed, compile_pipeline-IsOwned}

abbrev graph : PipelineStrategyConfig
graph = record {
  stages =
      codes "associate_draft"
      ∷ codes "partner_loop"
      ∷ codes "oc_attack"
      ∷ codes "bolster"
      ∷ codes "judge_panel"
      ∷ codes "restructure"
      ∷ codes "rubric_gate"
      ∷ codes "assemble"
      ∷ [];
  associate_partner_cap = 3;
}

abbrev adapter : TaskAdapterConfig ℕ
adapter = record {
  schema_version = codes "1.0";
  task = codes "discovery-responses";
  input_family = discovery;
  stages = codes "associate_draft" ∷ codes "assemble" ∷ [];
  loop_caps = record { associate_partner = 2; oc = 1; bolster = 1; restructure = 1 };
  panels = record { judges = 3; jury = false; jurors = 0; rubric_judges = 3 };
  convergence = record { score_delta_floor = 1; material_change_floor = 1; coverage_floor = 1 };
  gates = codes "fabrication" ∷ codes "rubric" ∷ [];
  rubric_id = codes "r";
  rubric_threshold = 1;
  restructure_threshold = 1;
  deliverables = [];
  pipeline_strategies =
      (codes "thin-full", graph)
      ∷ (codes "deep-core", graph)
      ∷ (codes "adversarial-first", graph)
      ∷ [];
  overridable = [];
}

abbrev matter : MatterConfig
matter = record {
  personas = record {
    associate_ = true;
    partner_ = true;
    oc_associate_ = false;
    oc_partner_ = false;
    judge_ = true;
    rubric_judge_ = false;
  };
  pipeline_strategy = deep_core;
}

abbrev pipeline : ResolvedPipeline ℕ
pipeline =
    resolve none adapter matter (codes "m") (codes "a") graph (associate ∷ partner ∷ judge ∷ [])

compiles : compile_pipeline adapter matter (codes "m") (codes "a") none ≡ ok pipeline
unfolding compile_pipeline validate_ownership persona_tests stage_tests strategy_tests text_eq
    lookup strategy_name selected_personas after_external pipeline_turn_ceiling
compiles = refl

compile_pipeline-IsOwned_example :
    (pipeline.strategy ≡ matter.pipeline_strategy)
    × (pipeline.active_personas ≡ selected_personas matter)
    × IsOwned pipeline
    × IsBypassed pipeline.active_personas pipeline.effective_config
compile_pipeline-IsOwned_example =
    compile_pipeline-IsOwned adapter matter (codes "m") (codes "a") none pipeline compiles
