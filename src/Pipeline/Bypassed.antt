-- ===== src/Pipeline/Bypassed.antt =====
-- Compilation: the result is owned, and a persona that the matter leaves out has no stage in it.
use mootloop.Base.{
  text_eq, pipeline_config, ◌≡◌, refl, Bool, true, false, not, Option, List, [], ◌∷◌, Text, codes,
  text_eq_key, text_eq_iff, ◌==◌, member, filter, ok, err, key_error, Bool-cases, Option-cases, inl,
  inr, arith,
}
use mootloop.Base.Dict.{lookup}
use mootloop.Turn.{PersonaName, partner, judge, rubric_judge, persona_eq}
use mootloop.Config.{TaskAdapterConfig, PipelineStrategyConfig}
use mootloop.Pipeline.{ResolvedPipeline, is_filled, validate_ownership}
use mootloop.Pipeline.Compile.{
  MatterConfig, ResolvedRunConfig, selected_personas, opponents, strategy_name, document_refused,
  selection_refused, graph_refused, without, without_partner, with_opponents, without_judge,
  without_rubric, effective, override, select, resolve, compile_pipeline,
}
use mootloop.Pipeline.Owned.{IsOwned, validate_ownership-IsOwned}

filter-absent :
    (s : Text) (p : Text → Bool) (xs : List Text)
    → member s xs ≡ false
    → member s (filter p xs) ≡ false
filter-absent s p [] h = refl
filter-absent s p (x ∷ xs) h = ground (arith, filter-absent s p xs)

without-absent :
    (s : Text) (removed xs : List Text)
    → member s removed ≡ true
    → member s (filter (λ x. not (member x removed)) xs) ≡ false
without-absent s removed [] h = refl
without-absent s removed (x ∷ xs) h = elim (Bool-cases (s == x)) [
  | inl same ↦
      let here : s ≡ x = (text_eq_iff s x).0 same in
      let gone : member x removed ≡ true = rw (← here) h in rw gone (without-absent s removed xs h)
  | inr other ↦ ground (arith, other, without-absent s removed xs h)
]

module _ {F : Type 0} (s : Text) where
  -- The stage is not in the graph.
  abbrev Absent : TaskAdapterConfig F → Type 0
  Absent c = member s c.stages ≡ false

  with_opponents-Absent :
      (oc : List PersonaName) (c : TaskAdapterConfig F) → Absent c → Absent (with_opponents oc c)
  unfolding with_opponents without
  with_opponents-Absent oc c h = ground (
    arith,
    filter-absent s (λ x. not (member x (codes "oc_attack" ∷ codes "bolster" ∷ []))) c.stages,
  )

  without_judge-Absent :
      (active : List PersonaName) (c : TaskAdapterConfig F)
      → Absent c
      → Absent (without_judge active c)
  unfolding without_judge without
  without_judge-Absent active c h = elim (Bool-cases (member judge active)) [
    | inl on ↦ rw on h
    | inr off ↦ rw off (filter-absent s _ c.stages h)
  ]

  without_rubric-Absent :
      (active : List PersonaName) (c : TaskAdapterConfig F)
      → Absent c
      → Absent (without_rubric active c)
  unfolding without_rubric without
  without_rubric-Absent active c h = elim (Bool-cases (member rubric_judge active)) [
    | inl on ↦ rw on h
    | inr off ↦ rw off (filter-absent s (λ x. not (member x (codes "rubric_gate" ∷ []))) c.stages h)
  ]

-- The graph has no stage of a persona that is not among the active ones.
pub record IsBypassed {F : Type 0} (active : List PersonaName) (c : TaskAdapterConfig F)
    : Type 0 where
  pub unreviewed : member partner active ≡ false → member (codes "partner_loop") c.stages ≡ false
  pub unopposed :
      is_filled (opponents active) ≡ false
      → (member (codes "oc_attack") c.stages ≡ false) × (member (codes "bolster") c.stages ≡ false)
  pub unjudged :
      member judge active ≡ false
      → (member (codes "judge_panel") c.stages ≡ false)
        × (member (codes "narrative_assessment") c.stages ≡ false)
        × (member (codes "restructure") c.stages ≡ false)

module _ {F : Type 0} where
  without_partner_lem :
      (active : List PersonaName) (c : TaskAdapterConfig F)
      → member partner active ≡ false
      → member (codes "partner_loop") (without_partner active c).stages ≡ false
  unfolding without_partner without text_eq
  without_partner_lem active c off =
      rw off (without-absent (codes "partner_loop") (codes "partner_loop" ∷ []) c.stages refl)

  with_opponents_lem :
      (s : Text) (oc : List PersonaName) (c : TaskAdapterConfig F)
      → is_filled oc ≡ false
      → member s (codes "oc_attack" ∷ codes "bolster" ∷ []) ≡ true
      → member s (with_opponents oc c).stages ≡ false
  unfolding with_opponents without
  with_opponents_lem s oc c off m =
      rw off (without-absent s (codes "oc_attack" ∷ codes "bolster" ∷ []) c.stages m)

  without_judge_lem :
      (s : Text) (active : List PersonaName) (c : TaskAdapterConfig F)
      → member judge active ≡ false
      → member s (codes "judge_panel" ∷ codes "narrative_assessment" ∷ codes "restructure" ∷ [])
        ≡ true
      → member s (without_judge active c).stages ≡ false
  unfolding without_judge without
  without_judge_lem s active c off m = rw off (
      without-absent s
        (codes "judge_panel" ∷ codes "narrative_assessment" ∷ codes "restructure" ∷ []) c.stages m)

  effective-IsBypassed :
      (resolved : Option (ResolvedRunConfig F)) (selected : PipelineStrategyConfig)
      (active : List PersonaName) (adapter : TaskAdapterConfig F)
      → IsBypassed active (effective resolved selected active (opponents active) adapter)
  unfolding effective text_eq
  effective-IsBypassed resolved selected active adapter =
      let oc = opponents active in
      let c1 = select selected (override resolved adapter) in
      let c2 = without_partner active c1 in
      let c3 = with_opponents oc c2 in
      let c4 = without_judge active c3 in
      let kept = λ (s : Text) (h : member s c3.stages ≡ false).
        without_rubric-Absent s active c4 (without_judge-Absent s active c3 h) in
      let judged =
        λ (s : Text) (h : member s c4.stages ≡ false). without_rubric-Absent s active c4 h in
      record {
        unreviewed = λ off. kept (codes "partner_loop") (
            with_opponents-Absent (codes "partner_loop") oc c2 (without_partner_lem active c1 off));
        unopposed = λ off. (
          kept (codes "oc_attack") (with_opponents_lem (codes "oc_attack") oc c2 off refl),
          kept (codes "bolster") (with_opponents_lem (codes "bolster") oc c2 off refl),
        );
        unjudged = λ off. (
          judged (codes "judge_panel") (without_judge_lem (codes "judge_panel") active c3 off refl),
          judged (codes "narrative_assessment")
              (without_judge_lem (codes "narrative_assessment") active c3 off refl),
          judged (codes "restructure") (without_judge_lem (codes "restructure") active c3 off refl),
        );
      }

  compiled :
      (adapter : TaskAdapterConfig F) (matter : MatterConfig) (m a : Text)
      (resolved : Option (ResolvedRunConfig F)) (p : ResolvedPipeline F)
      → compile_pipeline adapter matter m a resolved ≡ ok p
      → (selected : PipelineStrategyConfig) × (validate_ownership
            (resolve resolved adapter matter m a selected (selected_personas matter))
          ≡ ok p)
  unfolding compile_pipeline
  compiled adapter matter m a resolved p h =
      let active = selected_personas matter in
      elim (Bool-cases (document_refused adapter)) [
        | inl refused ↦ let no : err pipeline_config ≡ ok p = rw refused at h in cc
        | inr document ↦
            elim (Bool-cases (selection_refused adapter matter.pipeline_strategy active)) [
              | inl refused ↦
                  let no : err pipeline_config ≡ ok p = rw (document, refused) at h in cc
              | inr selection ↦
                  elim (Option-cases
                    (lookup (strategy_name matter.pipeline_strategy) adapter.pipeline_strategies)) [
                      | inl missing ↦
                          let no : err key_error ≡ ok p = rw (document, selection, missing) at h in
                          cc
                      | inr (selected, found) ↦
                          elim (Bool-cases (graph_refused adapter selected active)) [
                            | inl refused ↦
                                let no : err pipeline_config ≡ ok p =
                                  rw (document, selection, found, refused) at h in
                                cc
                            | inr graph ↦ (selected, rw (document, selection, found, graph) at h)
                          ]
                    ]
            ]
      ]

  -- A compilation that succeeds gives a pipeline of the matter's strategy and of exactly its
  -- selected personas, in which every active persona owns its stages, and no stage of a persona or
  -- side that is left out is run.
  pub compile_pipeline-IsOwned :
      (adapter : TaskAdapterConfig F) (matter : MatterConfig) (matter_sha256 adapter_sha256 : Text)
      (resolved : Option (ResolvedRunConfig F)) (p : ResolvedPipeline F)
      → compile_pipeline adapter matter matter_sha256 adapter_sha256 resolved ≡ ok p
      → (p.strategy ≡ matter.pipeline_strategy)
        × (p.active_personas ≡ selected_personas matter)
        × IsOwned p
        × IsBypassed p.active_personas p.effective_config
  unfolding resolve
  compile_pipeline-IsOwned adapter matter m a resolved p h =
      let active = selected_personas matter in
      let (selected, valid) = compiled adapter matter m a resolved p h in
      let made = resolve resolved adapter matter m a selected active in
      let (same, owned) = validate_ownership-IsOwned made p valid in
      rw (← same) (refl, refl, owned, effective-IsBypassed resolved selected active adapter)
