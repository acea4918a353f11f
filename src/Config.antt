-- ===== src/Config.antt =====
-- models/task.py and models/pipeline.py: the task adapter's configuration with its checks, the
-- check of a stage graph, and the ceiling on the turns of a request. `F` stands for the floats.
use mootloop.Base.{
  ℕ, ◌+◌, ◌*◌, Bool, true, false, ◌&&◌, ◌||◌, not, Option, none, some, List, [], ◌∷◌, Text, codes,
  text_eq_key, ◌==◌, member, if◌then◌else◌, ltb, all, map, Result, ok, err, value_error,
}

pub record LoopCaps : Type 0 where
  pub associate_partner : ℕ
  pub oc : ℕ
  pub bolster : ℕ
  pub restructure : ℕ

pub record PanelConfig : Type 0 where
  pub judges : ℕ
  pub jury : Bool
  pub jurors : ℕ
  pub rubric_judges : ℕ

-- `PanelConfig.validate_jury_size`
unfoldable pub validate_jury_size : PanelConfig → Result PanelConfig
validate_jury_size p = if p.jury && ltb p.jurors 1 then err value_error else ok p

pub record ConvergenceConfig (F : Type 0) : Type 0 where
  pub score_delta_floor : F
  pub material_change_floor : F
  pub coverage_floor : F

pub record PipelineStrategyConfig : Type 0 where
  pub stages : List Text
  pub associate_partner_cap : ℕ

pub data InputFamily : Type 0 where
  discovery document : InputFamily

pub record TaskAdapterConfig (F : Type 0) : Type 0 where
  pub schema_version : Text
  pub task : Text
  pub input_family : InputFamily
  pub stages : List Text
  pub loop_caps : LoopCaps
  pub panels : PanelConfig
  pub convergence : ConvergenceConfig F
  pub gates : List Text
  pub rubric_id : Text
  pub rubric_threshold : F
  pub restructure_threshold : F
  pub deliverables : List Text
  pub pipeline_strategies : List (Text × PipelineStrategyConfig)
  pub overridable : List Text

abbrev pub required_strategies : List Text
required_strategies = codes "thin-full" ∷ codes "deep-core" ∷ codes "adversarial-first" ∷ []

-- `_validate_pipeline_strategies`: none, or exactly the required ones, as sets.
unfoldable pub validate_strategies :
    List (Text × PipelineStrategyConfig) → Result (List (Text × PipelineStrategyConfig))
validate_strategies [] = ok []
validate_strategies (s ∷ strategies) =
    let names = map (λ e. e.0) (s ∷ strategies) in
    if all (λ n. member n required_strategies) names
      && all (λ n. member n names) required_strategies
    then ok (s ∷ strategies)
    else err value_error

abbrev pub pipeline_stage_names : List Text
pipeline_stage_names =
    codes "associate_draft"
    ∷ codes "partner_loop"
    ∷ codes "oc_attack"
    ∷ codes "bolster"
    ∷ codes "judge_panel"
    ∷ codes "narrative_assessment"
    ∷ codes "restructure"
    ∷ codes "jury_panel"
    ∷ codes "rubric_gate"
    ∷ codes "assemble"
    ∷ []

pub data GraphError : Type 0 where
  duplicate_stages unknown_stages no_assemble : GraphError

-- `len(set(stages)) == len(stages)`
unfoldable pub is_distinct : List Text → Bool
is_distinct [] = true
is_distinct (s ∷ stages) = not (member s stages) && is_distinct stages

-- `stages and stages[-1] == "assemble"`
unfoldable pub ends_with_assemble : List Text → Bool
ends_with_assemble [] = false
ends_with_assemble (s ∷ []) = s == codes "assemble"
ends_with_assemble (s ∷ t ∷ stages) = ends_with_assemble (t ∷ stages)

unfoldable pub pipeline_graph_error : List Text → Option GraphError
unfolding is_distinct ends_with_assemble
pipeline_graph_error stages =
    if not (is_distinct stages)
    then some duplicate_stages
    else if not (all (λ s. member s pipeline_stage_names) stages)
    then some unknown_stages
    else if not (ends_with_assemble stages)
    then some no_assemble
    else none

-- `n if stage in stages else 0`
unfoldable pub when_staged : Text → List Text → ℕ → ℕ
when_staged stage stages n = if member stage stages then n else 0

unfoldable pub partner_calls : List Text → ℕ → Bool → ℕ
partner_calls stages ap rubric_enabled =
    if member (codes "partner_loop") stages then 2 * ap + (if rubric_enabled then ap else 0) else 1

unfoldable pub pipeline_turn_ceiling : {F : Type 0} → TaskAdapterConfig F → Bool → ℕ
unfolding when_staged partner_calls
pipeline_turn_ceiling config rubric_enabled =
    let stages = config.stages in
    let caps = config.loop_caps in
    let panels = config.panels in
    partner_calls stages caps.associate_partner rubric_enabled
    + when_staged (codes "oc_attack") stages caps.oc
    + when_staged (codes "bolster") stages caps.bolster
    + (if member (codes "judge_panel") stages || member (codes "narrative_assessment") stages
        then panels.judges
        else 0)
    + when_staged (codes "restructure") stages caps.restructure
    + (if member (codes "jury_panel") stages && panels.jury then panels.jurors else 0)
    + when_staged (codes "rubric_gate") stages panels.rubric_judges
