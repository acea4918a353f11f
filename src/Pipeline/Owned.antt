-- ===== src/Pipeline/Owned.antt =====
-- What a validated pipeline promises, and that compilation gives such a pipeline.
use mootloop.Base.{
  ◌≤◌, ◌≡◌, refl, Bool, true, false, ◌&&◌, ◌||◌, not, Option, none, some, List, [], ◌∷◌, codes,
  text_eq_key, ◌==◌, member, list_eq_iff, nat_eq_iff, all, any, All, filter, ok, Bool-cases, inl,
  inr, arith, Eq,
}
use mootloop.Turn.{
  PersonaName, associate, partner, oc_associate, oc_partner, judge, rubric_judge, persona_eq,
}
use mootloop.Config.{pipeline_graph_error, pipeline_turn_ceiling}
use mootloop.Pipeline.{
  PipelineStrategy, thin_full, deep_core, adversarial_first, ResolvedPipeline, is_deep_core,
  selectable_pipeline_personas, is_some, is_filled, differ, active, staged, rubric_judge_enabled,
  persona_tests, stage_tests, strategy_tests, validate_ownership, after_external,
}

module _ {ℓ} {A : Type ℓ} ⦃e : Eq A⦄ where
  none-any :
      (p : A → Bool) (a : A) (xs : List A) → any p xs ≡ false → member a xs ≡ true → p a ≡ false
  none-any p a [] h m = cc
  none-any p a (x ∷ xs) h m = elim (Bool-cases (a == x)) [
    | inl same ↦ let here : a ≡ x = (e.test_iff a x).0 same in rw here (ground arith)
    | inr other ↦ none-any p a xs (ground arith) (ground arith)
  ]

  all-member :
      (p : A → Bool) (a : A) (xs : List A) → all p xs ≡ true → member a xs ≡ true → p a ≡ true
  all-member p a [] h m = cc
  all-member p a (x ∷ xs) h m = elim (Bool-cases (a == x)) [
    | inl same ↦ let here : a ≡ x = (e.test_iff a x).0 same in rw here (ground arith)
    | inr other ↦ all-member p a xs (ground arith) (ground arith)
  ]

-- The owners of a pipeline, told apart and matched with its graph.
pub record IsOwned {F : Type 0} (p : ResolvedPipeline F) : Type 0 where
  pub drafter : active p.drafting_persona p ≡ true
  pub opposed : p.oc_personas ≡ filter (λ q. active q p) (oc_associate ∷ oc_partner ∷ [])
  pub apart : (q : PersonaName) → active q p ≡ true → member q p.bypassed_personas ≡ false
  pub covered :
      (q : PersonaName)
      → member q selectable_pipeline_personas ≡ true
      → active q p || member q p.bypassed_personas ≡ true
  pub selectable :
      (q : PersonaName) → active q p ≡ true → member q selectable_pipeline_personas ≡ true
  pub graph : pipeline_graph_error p.effective_config.stages ≡ none
  pub drafted : staged (codes "associate_draft") p ≡ true
  pub reviewed : active partner p ≡ true → staged (codes "partner_loop") p ≡ true
  pub attacked : is_filled p.oc_personas ≡ staged (codes "oc_attack") p
  pub judged :
      active judge p ≡ staged (codes "judge_panel") p || staged (codes "narrative_assessment") p
  pub scored : active rubric_judge p ≡ staged (codes "rubric_gate") p
  pub gated : staged (codes "rubric_gate") p ≡ member (codes "rubric") p.effective_config.gates
  pub deep :
      is_deep_core p.strategy ≡ true
      → (active associate p ≡ true)
        × (active partner p ≡ true)
        × (3 ≤ p.effective_config.loop_caps.associate_partner)
        × (after_external p.effective_config.stages ≡ false)
  pub priced :
      p.max_turns_per_request ≡ pipeline_turn_ceiling p.effective_config (active rubric_judge p)

differ_none : (b c : Bool) → differ b c ≡ false → b ≡ c
differ_none true true h = refl
differ_none true false h = cc
differ_none false true h = cc
differ_none false false h = refl

none_of : (bs : List Bool) → any (λ b. b) bs ≡ false → All (λ b. b ≡ false) bs
none_of [] h = _
none_of (b ∷ bs) h = (ground arith, none_of bs (ground arith))

not-false : (b : Bool) → not b ≡ false → b ≡ true
not-false true h = refl
not-false false h = cc

is_some-none : {A : Type 0} (o : Option A) → is_some o ≡ false → o ≡ none
is_some-none none h = refl
is_some-none (some a) h = cc

and_implies : (b c : Bool) → b && not c ≡ false → b ≡ true → c ≡ true
and_implies b c h k = ground arith

module _ {F : Type 0} where
  validate_parts :
      (p q : ResolvedPipeline F)
      → validate_ownership p ≡ ok q
      → (p ≡ q)
        × All (λ b. b ≡ false) (persona_tests p)
        × All (λ b. b ≡ false) (stage_tests p)
        × All (λ b. b ≡ false) (strategy_tests p.strategy p)
        × (p.max_turns_per_request
            ≡ pipeline_turn_ceiling p.effective_config (rubric_judge_enabled p))
  unfolding validate_ownership
  validate_parts p q h =
      let ceiling = pipeline_turn_ceiling p.effective_config (rubric_judge_enabled p) in
      let (same, persona, stage, strategy, priced) : (p ≡ q)
          × (any (λ b. b) (persona_tests p) ≡ false)
          × (any (λ b. b) (stage_tests p) ≡ false)
          × (any (λ b. b) (strategy_tests p.strategy p) ≡ false)
          × (p.max_turns_per_request ≡ ceiling) =
        ground (arith, nat_eq_iff p.max_turns_per_request ceiling) in
      (
        same,
        none_of (persona_tests p) persona,
        none_of (stage_tests p) stage,
        none_of (strategy_tests p.strategy p) strategy,
        priced,
      )

  deep_parts :
      (s : PipelineStrategy) (p : ResolvedPipeline F)
      → All (λ b. b ≡ false) (strategy_tests s p)
      → is_deep_core s ≡ true
      → (active associate p ≡ true)
        × (active partner p ≡ true)
        × (3 ≤ p.effective_config.loop_caps.associate_partner)
        × (after_external p.effective_config.stages ≡ false)
  unfolding strategy_tests
  deep_parts deep_core p (owners, (rounds, (order, done))) deep =
      let both = not-false (active associate p && active partner p) owners in
      (ground arith, ground arith, ground arith, order)
  deep_parts thin_full p h deep = cc
  deep_parts adversarial_first p h deep = cc

  -- A pipeline that validates is returned as it is, and each active persona owns its stages.
  pub validate_ownership-IsOwned :
      (p q : ResolvedPipeline F) → validate_ownership p ≡ ok q → (p ≡ q) × IsOwned p
  unfolding persona_tests stage_tests rubric_judge_enabled
  validate_ownership-IsOwned p q h =
      let (same, persona, stage, strategy, priced) = validate_parts p q h in
      let (drafter, (listed, (canonical, (disjoint, (within, (bypassed, (covers, rest))))))) =
        persona in
      let (graph, (drafted, (reviewed, (attacked, (judged, (scored, (gated, more))))))) = stage in
      (
        same,
        record {
          drafter = not-false (active p.drafting_persona p) drafter;
          opposed =
              (list_eq_iff p.oc_personas
                  (filter (λ q. active q p) (oc_associate ∷ oc_partner ∷ []))).0
                (not-false _ canonical);
          apart =
              λ q on. none-any (λ q. member q p.bypassed_personas) q p.active_personas disjoint on;
          covered = λ q on. not-false _ (
              none-any (λ q. not (active q p || member q p.bypassed_personas)) q
                selectable_pipeline_personas covers on);
          selectable = λ q on.
              all-member (λ q. member q selectable_pipeline_personas) q p.active_personas
                (not-false _ within) on;
          graph = is_some-none (pipeline_graph_error p.effective_config.stages) graph;
          drafted = not-false _ drafted;
          reviewed = and_implies (active partner p) _ reviewed;
          attacked = differ_none _ _ attacked;
          judged = differ_none _ _ judged;
          scored = differ_none _ _ scored;
          gated = differ_none _ _ gated;
          deep = deep_parts p.strategy p strategy;
          priced = priced;
        },
      )
