-- ===== src/Stages/Plan/Turns.antt =====
-- stages.py: the turns that a stage plans, and those of a request.
use mootloop.Base.{
  ℕ, zero, suc, ◌-◌, Bool, true, false, ◌&&◌, not, Option, none, some, List, [], ◌∷◌, ◌++◌, map,
  Text, codes, text_eq_key, ◌==◌, if◌then◌else◌, ltb, filter, range_from, length, Result, ok, err,
  ◌>>=◌, of_option, task_config, decimal,
}
use mootloop.Base.Dict.{Dict, lookup}
use mootloop.Turn.{
  PersonaName, partner, judge, juror, rubric_judge, Schema, TurnOutput, PanelFinding, PromptValue,
  TurnSpec, TurnRecord,
}
use mootloop.Pipeline.{rubric_judge_enabled}
use mootloop.Panels.{PanelResult}
use mootloop.Stages.{
  draft, critique, oc_slot, bolster_slot, judge_slot, rubric_loop, rubric_final, restructure_slot,
  jury_slot,
}
use mootloop.Stages.Context.{
  Services, StageContext, instructions_of, collect, config, slots, done, record_of, spec,
  latest_draft, partner_draft, judged_draft, operative_draft,
}
use mootloop.Stages.Plan.{
  Stage, associate_draft, partner_loop, oc_attack, bolster, judge_panel, narrative_assessment,
  restructure, jury_panel, rubric_gate, name, instruction, judge_lenses, juror_lenses, cyclic,
  max_jury_draft_bytes, output_of, role_directive, draft_context, rubric_context, settles, weak,
  is_complete,
}

-- `f"{survive_votes}/{total_votes}"`, and the rest of what the turn is told of an objection.
unfoldable pub finding : {F : Type 0} → PanelResult F → PanelFinding
finding r = record {
  objection_index = r.objection_index;
  objection_basis = r.objection_basis;
  survival = decimal r.survive_votes ++ (47 ∷ decimal r.total_votes);
  reasoning_samples = r.reasoning_samples;
}

module _ {F Usd : Type 0} (lib : Services F) (ctx : StageContext F Usd) where
  abbrev pub drafter : PersonaName
  drafter = ctx.pipeline.drafting_persona

  -- A draft turn of a stage.
  unfoldable pub draft_spec : ℕ → Stage → Dict Text PromptValue → Result (List TurnSpec)
  draft_spec seq stage extra = draft_context lib ctx extra >>= λ context.
      ok (spec ctx seq drafter (name stage) Schema.draft context ∷ [])

  -- The loop over `range(from, from + count)` that plans at its first seat that is not done.
  unfoldable pub first_open :
      (ℕ → ℕ) → (ℕ → Result (List TurnSpec)) → (from count : ℕ) → Result (List TurnSpec)
  first_open slot turn from zero = ok []
  first_open slot turn from (suc count) = elim (done ctx (slot from)) [
    | false ↦ turn from
    | true ↦ first_open slot turn (suc from) count
  ]

  -- The loop that plans a turn for every seat that is not done.
  unfoldable pub all_open :
      (ℕ → ℕ) → (ℕ → Result TurnSpec) → (from count : ℕ) → Result (List TurnSpec)
  all_open slot turn from zero = ok []
  all_open slot turn from (suc count) = elim (done ctx (slot from)) [
    | true ↦ all_open slot turn (suc from) count
    | false ↦ turn from >>= λ s. all_open slot turn (suc from) count >>= λ more. ok (s ∷ more)
  ]

  unfoldable pub redraft : ℕ → Result (List TurnSpec)
  redraft r = record_of ctx (critique (slots ctx) (r - 1)) >>= λ prior.
      instructions_of prior.output >>= λ instructions. partner_draft ctx (r - 1) >>= λ previous.
      draft_spec (draft (slots ctx) r) partner_loop (
        (codes "round", PromptValue.number r)
        ∷ (codes "partner_instructions", PromptValue.texts instructions)
        ∷ (codes "previous_draft", PromptValue.output (some previous.output))
        ∷ [])

  unfoldable pub review : ℕ → Result (List TurnSpec)
  review r = partner_draft ctx r >>= λ shown. ok (
      spec ctx (critique (slots ctx) r) partner (name partner_loop) Schema.critique (
        (codes "directive", role_directive lib ctx partner_loop)
        ∷ (codes "draft", PromptValue.output (some shown.output))
        ∷ [])
      ∷ [])

  unfoldable pub score_round : ℕ → Result (List TurnSpec)
  score_round r = partner_draft ctx r >>= λ shown. ok (
      spec ctx (rubric_loop (slots ctx) r) rubric_judge (name partner_loop) Schema.rubric_score (
        rubric_context lib ctx (PromptValue.output (some shown.output))
          ((codes "round", PromptValue.number r) ∷ []))
      ∷ [])

  -- `PartnerLoopStage.plan` over the rounds from `r` on.
  unfoldable pub plan_rounds : (r remaining : ℕ) → Result (List TurnSpec)
  plan_rounds r zero = ok []
  plan_rounds r (suc remaining) = elim (done ctx (draft (slots ctx) r)) [
    | false ↦ redraft r
    | true ↦ elim (done ctx (critique (slots ctx) r)) [
      | false ↦ review r
      | true ↦
          elim (rubric_judge_enabled ctx.pipeline && not (done ctx (rubric_loop (slots ctx) r))) [
            | true ↦ score_round r
            | false ↦ settles lib ctx r >>= λ settled. elim settled [
              | true ↦ ok []
              | false ↦ plan_rounds (suc r) remaining
            ]
          ]
    ]
  ]

  -- `prior_critiques`: the outputs of the completed attacks on the seats given.
  unfoldable pub attacks : List ℕ → Result (List TurnOutput)
  attacks seats =
      collect (λ k. record_of ctx (oc_slot (slots ctx) k) >>= λ r. ok r.output)
        (filter (λ k. done ctx (oc_slot (slots ctx) k)) seats)

  unfoldable pub attack_turn : ℕ → Result (List TurnSpec)
  attack_turn k = cyclic ctx.pipeline.oc_personas k >>= λ persona.
      attacks (range_from 1 (k - 1)) >>= λ prior. ok (
        spec ctx (oc_slot (slots ctx) k) persona (name oc_attack) Schema.critique (
          (codes "directive", role_directive lib ctx oc_attack)
          ∷ (codes "draft", output_of (latest_draft ctx))
          ∷ (codes "prior_critiques", PromptValue.outputs prior)
          ∷ [])
        ∷ [])

  unfoldable pub bolster_turn : List TurnOutput → ℕ → Result (List TurnSpec)
  bolster_turn oc_attacks k = draft_spec (bolster_slot (slots ctx) k) bolster (
      (codes "previous_draft", output_of (latest_draft ctx))
      ∷ (codes "oc_attacks", PromptValue.outputs oc_attacks)
      ∷ [])

  unfoldable pub judge_turn : Schema → Stage → ℕ → Result TurnSpec
  judge_turn schema stage j = ok (
      spec ctx (judge_slot (slots ctx) j) judge (name stage) schema (
        (codes "directive", PromptValue.text ctx.adapter.judge_question)
        ∷ (codes "draft", output_of (operative_draft ctx))
        ∷ (codes "panel_seat", PromptValue.number j)
        ∷ []))

  unfoldable pub restructure_turn : List (PanelResult F) → ℕ → Result (List TurnSpec)
  restructure_turn found k = draft_spec (restructure_slot (slots ctx) k) restructure (
      (codes "directive", role_directive lib ctx restructure)
      ∷ (codes "previous_draft", output_of (judged_draft ctx))
      ∷ (codes "panel_findings", PromptValue.findings (map finding found))
      ∷ [])

  unfoldable pub juror_turn : TurnRecord → ℕ → Result TurnSpec
  juror_turn shown j = cyclic juror_lenses j >>= λ lens. ok (
      spec ctx (jury_slot (slots ctx) j) juror (name jury_panel) Schema.juror (
        (codes "directive", PromptValue.text (instruction jury_panel))
        ∷ (codes "draft", PromptValue.output (some shown.output))
        ∷ (
          codes "draft_provenance",
          PromptValue.rows (
              ((codes "turn_id", shown.spec.turn_id)
                ∷ (codes "sha256", lib.sha256 (lib.encode shown.output))
                ∷ (codes "trust", codes "model_output_data")
                ∷ [])
              ∷ []),
        )
        ∷ (codes "panel_seat", PromptValue.number j)
        ∷ (codes "lens", PromptValue.text lens)
        ∷ (codes "directional_only", PromptValue.flag true)
        ∷ []))

  unfoldable pub rubric_turn : ℕ → Result TurnSpec
  rubric_turn m = cyclic judge_lenses m >>= λ lens. ok (
      spec ctx (rubric_final (slots ctx) m) rubric_judge (name rubric_gate) Schema.rubric_score (
        rubric_context lib ctx (output_of (operative_draft ctx)) (
          (codes "panel_seat", PromptValue.number m) ∷ (codes "lens", PromptValue.text lens) ∷ [])))

  unfoldable pub plan_jury : Option TurnRecord → Result (List TurnSpec)
  plan_jury none = err task_config
  plan_jury (some shown) =
      if ltb max_jury_draft_bytes (length (lib.encode shown.output))
      then err task_config
      else all_open (jury_slot (slots ctx)) (juror_turn shown) 1 (config ctx).panels.jurors

  unfoldable pub plan_restructure : List (PanelResult F) → Result (List TurnSpec)
  plan_restructure [] = ok []
  plan_restructure (r ∷ rs) =
      first_open (restructure_slot (slots ctx)) (restructure_turn (r ∷ rs)) 1
        (config ctx).loop_caps.restructure

  unfoldable pub plan : Stage → Result (List TurnSpec)
  plan associate_draft =
      draft_spec (draft (slots ctx) 1) associate_draft ((codes "round", PromptValue.number 1) ∷ [])
  plan partner_loop = plan_rounds 1 (config ctx).loop_caps.associate_partner
  plan oc_attack = first_open (oc_slot (slots ctx)) attack_turn 1 (config ctx).loop_caps.oc
  plan bolster = attacks (range_from 1 (config ctx).loop_caps.oc) >>= λ oc_attacks.
      first_open (bolster_slot (slots ctx)) (bolster_turn oc_attacks) 1
        (config ctx).loop_caps.bolster
  plan judge_panel =
      all_open (judge_slot (slots ctx)) (judge_turn Schema.judge judge_panel) 1
        (config ctx).panels.judges
  plan narrative_assessment =
      all_open (judge_slot (slots ctx))
        (judge_turn Schema.narrative_assessment narrative_assessment) 1 (config ctx).panels.judges
  plan restructure = weak lib ctx >>= plan_restructure
  plan jury_panel = if not (config ctx).panels.jury then ok [] else plan_jury (operative_draft ctx)
  plan rubric_gate =
      all_open (rubric_final (slots ctx)) rubric_turn 1 (config ctx).panels.rubric_judges

  -- `_STAGES.get(name)`, and `_ordered_stages` without the assembly.
  unfoldable pub stage_named : Text → Option Stage
  stage_named s = lookup s (
      map (λ stage. (name stage, stage))
        (associate_draft ∷ partner_loop ∷ oc_attack ∷ bolster ∷ judge_panel ∷ narrative_assessment
          ∷ restructure ∷ jury_panel ∷ rubric_gate ∷ []))

  unfoldable pub ordered_stages : List Text → Result (List Stage)
  unfolding stage_named
  ordered_stages names =
      collect (λ s. of_option task_config (stage_named s))
        (filter (λ s. not (s == codes "assemble")) names)

  -- The loop of `plan_request`, of `request_complete` and of `first_incomplete_stage`.
  unfoldable pub plan_stages : List Stage → Result (List TurnSpec)
  plan_stages [] = ok []
  plan_stages (stage ∷ stages) = is_complete lib ctx stage >>= λ complete. elim complete [
    | true ↦ plan_stages stages
    | false ↦ plan stage
  ]

  unfoldable pub all_complete : List Stage → Result Bool
  all_complete [] = ok true
  all_complete (stage ∷ stages) = is_complete lib ctx stage >>= λ complete. elim complete [
    | true ↦ all_complete stages
    | false ↦ ok false
  ]

  unfoldable pub first_incomplete : List Stage → Result (Option Text)
  first_incomplete [] = ok none
  first_incomplete (stage ∷ stages) = is_complete lib ctx stage >>= λ complete. elim complete [
    | true ↦ first_incomplete stages
    | false ↦ ok (some (name stage))
  ]

  unfoldable pub plan_request : Result (List TurnSpec)
  plan_request = ordered_stages (config ctx).stages >>= plan_stages

  unfoldable pub request_complete : Result Bool
  request_complete = ordered_stages (config ctx).stages >>= all_complete

  unfoldable pub first_incomplete_stage : Result (Option Text)
  first_incomplete_stage = ordered_stages (config ctx).stages >>= first_incomplete
