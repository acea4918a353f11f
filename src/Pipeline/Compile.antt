-- ===== src/Pipeline/Compile.antt =====
-- pipeline.py: the persona selection of a matter and an adapter's strategy compiled into one
-- pipeline.
use mootloop.Base.{
  ℕ, Bool, true, false, ◌&&◌, ◌||◌, not, Option, none, some, List, [], ◌∷◌, ◌++◌, map, Text, codes,
  text_eq_key, ◌==◌, member, if◌then◌else◌, ltb, any, filter, length, Result, err, ◌>>=◌, key_error,
  pipeline_config, of_option,
}
use mootloop.Base.Dict.{lookup}
use mootloop.Turn.{
  PersonaName, associate, partner, oc_associate, oc_partner, judge, rubric_judge, persona_eq,
}
use mootloop.Config.{
  LoopCaps, PanelConfig, ConvergenceConfig, PipelineStrategyConfig, TaskAdapterConfig, discovery,
  document, pipeline_graph_error, pipeline_turn_ceiling,
}
use mootloop.Pipeline.{
  PipelineStrategy, thin_full, deep_core, adversarial_first, is_deep_core, is_adversarial_first,
  matter_config, task_adapter, selectable_pipeline_personas, ResolvedPipeline, is_some, is_filled,
  validate_ownership,
}

-- models/matter.py, `Personas`, and the two fields of the matter that compilation reads.
pub record Personas : Type 0 where
  pub associate_ : Bool
  pub partner_ : Bool
  pub oc_associate_ : Bool
  pub oc_partner_ : Bool
  pub judge_ : Bool
  pub rubric_judge_ : Bool

pub record MatterConfig : Type 0 where
  pub personas : Personas
  pub pipeline_strategy : PipelineStrategy

-- The part of `ResolvedRunConfig` that compilation copies.
pub record ResolvedRunConfig (F : Type 0) : Type 0 where
  pub loop_caps : LoopCaps
  pub panels : PanelConfig
  pub convergence : ConvergenceConfig F
  pub gates : List Text
  pub rubric_id : Text
  pub rubric_threshold : F
  pub restructure_threshold : F
  pub deliverables : List Text

-- The key of a strategy in `pipeline_strategies`.
unfoldable pub strategy_name : PipelineStrategy → Text
strategy_name thin_full = codes "thin-full"
strategy_name deep_core = codes "deep-core"
strategy_name adversarial_first = codes "adversarial-first"

-- `enabled[persona]`; no selectable persona is missing from it.
unfoldable pub enabled : Personas → PersonaName → Bool
enabled s associate = s.associate_
enabled s partner = s.partner_
enabled s oc_associate = s.oc_associate_
enabled s oc_partner = s.oc_partner_
enabled s judge = s.judge_
enabled s rubric_judge = s.rubric_judge_
enabled s _ = false

unfoldable pub selected_personas : MatterConfig → List PersonaName
unfolding enabled
selected_personas matter = filter (enabled matter.personas) selectable_pipeline_personas

-- `_without`
unfoldable pub without : List Text → List Text → List Text
without removed stages = filter (λ s. not (member s removed)) stages

unfoldable pub max : ℕ → ℕ → ℕ
max a b = if ltb a b then b else a

-- `set(stages) & set(names)` is not empty.
abbrev pub meets : List Text → List Text → Bool
meets names stages = any (λ n. member n stages) names

-- The stages that the active personas have to own.
unfoldable pub required_stages : Bool → List PersonaName → List PersonaName → List Text
required_stages is_document active oc_personas =
    (codes "associate_draft" ∷ [])
    ++ ((if member partner active then codes "partner_loop" ∷ [] else [])
        ++ ((if is_filled oc_personas then codes "oc_attack" ∷ codes "bolster" ∷ [] else [])
            ++ ((if member judge active
                  then (if is_document
                      then codes "narrative_assessment" ∷ []
                      else codes "judge_panel" ∷ codes "restructure" ∷ [])
                  else [])
                ++ (if member rubric_judge active then codes "rubric_gate" ∷ [] else []))))

-- The active opponents, in canonical order.
abbrev pub opponents : List PersonaName → List PersonaName
opponents active = filter (λ q. member q active) (oc_associate ∷ oc_partner ∷ [])

module _ {F : Type 0} where
  -- `document tasks cannot execute discovery assessment stages`
  unfoldable pub document_refused : TaskAdapterConfig F → Bool
  document_refused adapter = elim adapter.input_family [
    | discovery ↦ false
    | document ↦
        adapter.panels.jury
        || any (meets (codes "judge_panel" ∷ codes "restructure" ∷ codes "jury_panel" ∷ []))
            (adapter.stages ∷ map (λ s. s.1.stages) adapter.pipeline_strategies)
  ]

  -- The fields that a resolved configuration replaces.
  unfoldable pub override : Option (ResolvedRunConfig F) → TaskAdapterConfig F → TaskAdapterConfig F
  override none adapter = adapter
  override (some r) adapter = record adapter {
    loop_caps = r.loop_caps;
    panels = r.panels;
    convergence = r.convergence;
    gates = r.gates;
    rubric_id = r.rubric_id;
    rubric_threshold = r.rubric_threshold;
    restructure_threshold = r.restructure_threshold;
    deliverables = r.deliverables;
  }

  -- The selected graph, and its core-loop depth.
  unfoldable pub select : PipelineStrategyConfig → TaskAdapterConfig F → TaskAdapterConfig F
  unfolding max
  select selected c = record c {
    stages = selected.stages;
    loop_caps = record (c.loop_caps) {
      associate_partner = max c.loop_caps.associate_partner selected.associate_partner_cap;
    };
  }

  -- What the absence of a persona takes out of the graph.
  unfoldable pub without_partner : List PersonaName → TaskAdapterConfig F → TaskAdapterConfig F
  unfolding without
  without_partner active c =
      if member partner active
      then c
      else record c { stages = without (codes "partner_loop" ∷ []) c.stages }

  unfoldable pub with_opponents : List PersonaName → TaskAdapterConfig F → TaskAdapterConfig F
  unfolding without max
  with_opponents oc_personas c =
      if is_filled oc_personas
      then record c {
        loop_caps = record (c.loop_caps) { oc = max c.loop_caps.oc (length oc_personas) };
      }
      else record c {
        stages = without (codes "oc_attack" ∷ codes "bolster" ∷ []) c.stages;
        loop_caps = record (c.loop_caps) { oc = 0; bolster = 0 };
      }

  unfoldable pub without_judge : List PersonaName → TaskAdapterConfig F → TaskAdapterConfig F
  unfolding without
  without_judge active c = if member judge active then c else record c {
    stages =
        without (codes "judge_panel" ∷ codes "narrative_assessment" ∷ codes "restructure" ∷ [])
          c.stages;
    loop_caps = record (c.loop_caps) { restructure = 0 };
  }

  unfoldable pub without_rubric : List PersonaName → TaskAdapterConfig F → TaskAdapterConfig F
  unfolding without
  without_rubric active c = if member rubric_judge active then c else record c {
    stages = without (codes "rubric_gate" ∷ []) c.stages;
    gates = filter (λ gate. not (gate == codes "rubric")) c.gates;
  }

  unfoldable pub effective :
      Option (ResolvedRunConfig F)
      → PipelineStrategyConfig
      → List PersonaName
      → List PersonaName
      → TaskAdapterConfig F
      → TaskAdapterConfig F
  unfolding override select without_partner with_opponents without_judge without_rubric
  effective resolved selected active oc_personas adapter = without_rubric active (
      without_judge active (
        with_opponents oc_personas
          (without_partner active (select selected (override resolved adapter)))))

  -- The checks on the selection alone.
  unfoldable pub selection_refused :
      TaskAdapterConfig F → PipelineStrategy → List PersonaName → Bool
  selection_refused adapter strategy active =
      not (member associate active || member partner active)
      || not (is_filled adapter.pipeline_strategies)
      || is_deep_core strategy && not (member associate active && member partner active)
      || is_adversarial_first strategy && not (is_filled (opponents active))

  -- The checks on the selected graph.
  unfoldable pub graph_refused :
      TaskAdapterConfig F → PipelineStrategyConfig → List PersonaName → Bool
  unfolding required_stages
  graph_refused adapter selected active =
      is_some (pipeline_graph_error selected.stages)
      || any (λ s. not (member s selected.stages))
          (required_stages (elim adapter.input_family [ discovery ↦ false | document ↦ true ])
            active (opponents active))

  unfoldable pub resolve :
      Option (ResolvedRunConfig F)
      → TaskAdapterConfig F
      → MatterConfig
      → Text
      → Text
      → PipelineStrategyConfig
      → List PersonaName
      → ResolvedPipeline F
  unfolding effective
  resolve resolved adapter matter matter_sha256 adapter_sha256 selected active =
      let config = effective resolved selected active (opponents active) adapter in
      record {
        strategy = matter.pipeline_strategy;
        effective_config = config;
        drafting_persona = if member associate active then associate else partner;
        oc_personas = opponents active;
        active_personas = active;
        bypassed_personas = filter (λ q. not (member q active)) selectable_pipeline_personas;
        max_turns_per_request = pipeline_turn_ceiling config (member rubric_judge active);
        sources = (
          record {
            kind = matter_config;
            locator = codes "matter.yaml#personas,pipeline_strategy";
            sha256 = matter_sha256;
          },
          record {
            kind = task_adapter;
            locator = codes "config/tasks/" ++ adapter.task ++ codes ".yaml#pipeline_strategies";
            sha256 = adapter_sha256;
          },
        );
      }

  -- The construction of the result runs its validator.
  unfoldable pub compile_pipeline :
      TaskAdapterConfig F
      → MatterConfig
      → (matter_sha256 adapter_sha256 : Text) → Option (ResolvedRunConfig F)
      → Result (ResolvedPipeline F)
  unfolding document_refused selection_refused graph_refused resolve
  compile_pipeline adapter matter matter_sha256 adapter_sha256 resolved =
      let active = selected_personas matter in
      let strategy = matter.pipeline_strategy in
      if document_refused adapter
      then err pipeline_config
      else if selection_refused adapter strategy active
      then err pipeline_config
      else (of_option key_error (lookup (strategy_name strategy) adapter.pipeline_strategies)
          >>= λ selected.
              if graph_refused adapter selected active
              then err pipeline_config
              else validate_ownership
                  (resolve resolved adapter matter matter_sha256 adapter_sha256 selected active))
