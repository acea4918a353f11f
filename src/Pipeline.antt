-- ===== src/Pipeline.antt =====
-- models/pipeline.py and pipeline.py: the pipeline that a run commits to at launch, the check of
-- its owners, and its compilation from the matter's personas and the adapter's strategies.
pub mod Compile
pub mod Owned
pub mod Bypassed
mod Examples
use mootloop.Base.{
  ℕ, suc, Bool, true, false, ◌&&◌, ◌||◌, not, Option, none, some, List, [], ◌∷◌, Text, codes,
  text_eq_key, ◌==◌, member, list_eq, if◌then◌else◌, ltb, nat_eq, all, any, filter, Result, ok, err,
  value_error,
}
use mootloop.Turn.{
  PersonaName, associate, partner, oc_associate, oc_partner, judge, juror, rubric_judge,
  cite_checker, persona_eq,
}
use mootloop.Config.{TaskAdapterConfig, pipeline_graph_error, pipeline_turn_ceiling}

pub data PipelineStrategy : Type 0 where
  thin_full deep_core adversarial_first : PipelineStrategy

abbrev pub is_deep_core : PipelineStrategy → Bool
is_deep_core deep_core = true
is_deep_core _ = false

abbrev pub is_adversarial_first : PipelineStrategy → Bool
is_adversarial_first adversarial_first = true
is_adversarial_first _ = false

pub data PipelineSourceKind : Type 0 where
  matter_config task_adapter : PipelineSourceKind

abbrev pub is_matter_config : PipelineSourceKind → Bool
is_matter_config matter_config = true
is_matter_config task_adapter = false

pub record PipelineSource : Type 0 where
  pub kind : PipelineSourceKind
  pub locator : Text
  pub sha256 : Text

abbrev pub selectable_pipeline_personas : List PersonaName
selectable_pipeline_personas =
    associate ∷ partner ∷ oc_associate ∷ oc_partner ∷ judge ∷ rubric_judge ∷ []

pub record ResolvedPipeline (F : Type 0) : Type 0 where
  pub strategy : PipelineStrategy
  pub effective_config : TaskAdapterConfig F
  pub drafting_persona : PersonaName
  pub oc_personas : List PersonaName
  pub active_personas : List PersonaName
  pub bypassed_personas : List PersonaName
  pub max_turns_per_request : ℕ
  pub sources : PipelineSource × PipelineSource

abbrev pub is_some : {A : Type 0} → Option A → Bool
is_some none = false
is_some (some _) = true

abbrev pub is_filled : {A : Type 0} → List A → Bool
is_filled [] = false
is_filled (_ ∷ _) = true

-- `b != c` on Booleans
abbrev pub differ : Bool → Bool → Bool
differ true c = not c
differ false c = c

-- `ordered.index(stage)`; `none` is the exception, a ValueError too.
unfoldable pub index_of : Text → List Text → Option ℕ
index_of stage [] = none
index_of stage (s ∷ stages) =
    let later = index_of stage stages in
    if s == stage then some 0 else elim later [ none ↦ none | some i ↦ some (suc i) ]

-- `ordered.index(a) > ordered.index(b)`, or the exception.
unfoldable pub index_after : Text → Text → List Text → Bool
unfolding index_of
index_after a b ordered = elim (index_of a ordered) [
  | none ↦ true
  | some i ↦ elim (index_of b ordered) [ none ↦ true | some j ↦ ltb j i ]
]

-- `external and ordered.index("partner_loop") > min(external)`: the loop comes after one of them.
unfoldable pub after_external : List Text → Bool
unfolding index_after
after_external ordered =
    any (λ stage. member stage ordered && index_after (codes "partner_loop") stage ordered)
      (codes "oc_attack"
        ∷ codes "judge_panel"
        ∷ codes "narrative_assessment"
        ∷ codes "rubric_gate"
        ∷ [])

module _ {F : Type 0} where
  abbrev pub staged : Text → ResolvedPipeline F → Bool
  staged stage p = member stage p.effective_config.stages

  abbrev pub active : PersonaName → ResolvedPipeline F → Bool
  active persona p = member persona p.active_personas

  unfoldable pub rubric_judge_enabled : ResolvedPipeline F → Bool
  rubric_judge_enabled p = active rubric_judge p

  -- The tests that refuse, in order, down to the canonical order of the bypassed ones.
  unfoldable pub persona_tests : ResolvedPipeline F → List Bool
  unfolding list_eq
  persona_tests p =
      not (active p.drafting_persona p)
      ∷ any (λ q. not (active q p)) p.oc_personas
      ∷ not (list_eq p.oc_personas (filter (λ q. active q p) (oc_associate ∷ oc_partner ∷ [])))
      ∷ any (λ q. member q p.bypassed_personas) p.active_personas
      ∷ not (all (λ q. member q selectable_pipeline_personas) p.active_personas)
      ∷ not (all (λ q. member q selectable_pipeline_personas) p.bypassed_personas)
      ∷ any (λ q. not (active q p || member q p.bypassed_personas)) selectable_pipeline_personas
      ∷ not (list_eq p.active_personas (filter (λ q. active q p) selectable_pipeline_personas))
      ∷ not (
          list_eq p.bypassed_personas
            (filter (λ q. member q p.bypassed_personas) selectable_pipeline_personas))
      ∷ []

  -- Those that compare the owners with the stages and the gates.
  unfoldable pub stage_tests : ResolvedPipeline F → List Bool
  unfolding pipeline_graph_error rubric_judge_enabled
  stage_tests p =
      is_some (pipeline_graph_error p.effective_config.stages)
      ∷ not (staged (codes "associate_draft") p)
      ∷ (active partner p && not (staged (codes "partner_loop") p))
      ∷ differ (is_filled p.oc_personas) (staged (codes "oc_attack") p)
      ∷ differ (active judge p)
          (staged (codes "judge_panel") p || staged (codes "narrative_assessment") p)
      ∷ differ (rubric_judge_enabled p) (staged (codes "rubric_gate") p)
      ∷ differ (staged (codes "rubric_gate") p) (member (codes "rubric") p.effective_config.gates)
      ∷ []

  -- Those of the two strategies that have some.
  unfoldable pub strategy_tests : PipelineStrategy → ResolvedPipeline F → List Bool
  strategy_tests thin_full p = []
  strategy_tests deep_core p =
      not (active associate p && active partner p)
      ∷ ltb p.effective_config.loop_caps.associate_partner 3
      ∷ after_external p.effective_config.stages
      ∷ []
  strategy_tests adversarial_first p =
      not (is_filled p.oc_personas)
      ∷ (staged (codes "partner_loop") p
          && index_after (codes "oc_attack") (codes "partner_loop") p.effective_config.stages)
      ∷ []

  -- `validate_ownership`: each refusal is a ValueError, and the first one is raised.
  unfoldable pub validate_ownership : ResolvedPipeline F → Result (ResolvedPipeline F)
  validate_ownership p =
      if any (λ b. b) (persona_tests p)
      then err value_error
      else if any (λ b. b) (stage_tests p)
      then err value_error
      else if any (λ b. b) (strategy_tests p.strategy p)
      then err value_error
      else if not (
          nat_eq p.max_turns_per_request
            (pipeline_turn_ceiling p.effective_config (rubric_judge_enabled p)))
      then err value_error
      else if not (is_matter_config p.sources.0.kind) || is_matter_config p.sources.1.kind
      then err value_error
      else ok p
