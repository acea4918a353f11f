-- ===== src/Stages/Plan/Fresh.antt =====
-- What a request plans is open: `plan_request` never plans a turn again that is completed.
use mootloop.Base.{
  ℕ, zero, suc, ◌+◌, ◌≤◌, ◌≡◌, refl, Bool, true, false, ◌&&◌, not, Option, none, some, List, [],
  ◌∷◌, range_from, length, All, Result, ok, err, ◌>>=◌, Ensures, Ensures-bind, Ensures-ok, ltb,
  if◌then◌else◌, Bool-cases, inl, inr, arith,
}
use mootloop.Turn.{Schema, TurnSpec, TurnRecord}
use mootloop.Pipeline.{rubric_judge_enabled}
use mootloop.Panels.{PanelResult}
use mootloop.Stages.{
  draft, critique, oc_slot, bolster_slot, judge_slot, rubric_loop, rubric_final, restructure_slot,
  jury_slot, layout,
}
use mootloop.Stages.Bounds.{
  draft-InBlock, critique-InBlock, oc_slot-InBlock, bolster_slot-InBlock, judge_slot-InBlock,
  rubric_loop-InBlock, rubric_final-InBlock, restructure_slot-InBlock, jury_slot-InBlock,
}
use mootloop.Stages.Context.{Services, StageContext, config, slots, done, operative_draft}
use mootloop.Stages.Plan.{
  Stage, associate_draft, partner_loop, oc_attack, bolster, judge_panel, narrative_assessment,
  restructure, jury_panel, rubric_gate, settles, weak, is_complete, max_jury_draft_bytes,
}
use mootloop.Stages.Plan.Turns.{
  draft_spec, all_open, redraft, review, score_round, plan_rounds, attacks, attack_turn,
  bolster_turn, judge_turn, restructure_turn, juror_turn, rubric_turn, plan_jury, plan_restructure,
  plan, plan_stages, ordered_stages, plan_request,
}
use mootloop.Stages.Plan.Next.{
  IsOpen, Ensures-IsOpen, first_open-IsOpen, all_open-IsOpen, draft_spec-IsTurnOf, redraft-IsTurnOf,
  review-IsTurnOf, score_round-IsTurnOf, attack_turn-IsTurnOf, juror_turn-IsTurnOf,
  rubric_turn-IsTurnOf, judge_turn-IsTurnOf,
}

module _ {F Usd : Type 0} (lib : Services F) (ctx : StageContext F Usd) where
  -- Behind a round that has not settled comes the next one.
  next_round :
      (settled : Bool) (more : Result (List TurnSpec))
      → Ensures (All (IsOpen lib ctx)) more
      → Ensures (All (IsOpen lib ctx)) (elim settled [ true ↦ ok [] | false ↦ more ])
  next_round true more h = _
  next_round false more h = h

  plan_rounds-IsOpen :
      (r remaining : ℕ)
      → 1 ≤ r
      → r + remaining ≡ suc (config ctx).loop_caps.associate_partner
      → Ensures (All (IsOpen lib ctx)) (plan_rounds lib ctx r remaining)
  unfolding plan_rounds layout
  plan_rounds-IsOpen r zero low h = _
  plan_rounds-IsOpen r (suc remaining) low h =
      let d = draft (slots ctx) r in
      let c = critique (slots ctx) r in
      let s = rubric_loop (slots ctx) r in
      let scored = rubric_judge_enabled ctx.pipeline && not (done ctx s) in
      let more = plan_rounds-IsOpen (suc r) remaining (omega arith) (omega arith) in
      elim (Bool-cases (done ctx d)) [
        | inr undone ↦
            rw (undone, plan_rounds, Ensures)
              (Ensures-IsOpen lib ctx d (redraft lib ctx r) (redraft-IsTurnOf lib ctx r) undone
                (draft-InBlock (slots ctx) r low (omega arith)))
        | inl drafted ↦ elim (Bool-cases (done ctx c)) [
          | inr undone ↦
              rw (drafted, undone, plan_rounds, Ensures)
                (Ensures-IsOpen lib ctx c (review lib ctx r) (review-IsTurnOf lib ctx r) undone
                  (critique-InBlock (slots ctx) r low (omega arith)))
          | inl reviewed ↦ elim (Bool-cases scored) [
            | inl wanted ↦
                rw (drafted, reviewed, wanted, plan_rounds, Ensures)
                  (Ensures-IsOpen lib ctx s (score_round lib ctx r) (score_round-IsTurnOf lib ctx r)
                    (ground arith) (rubric_loop-InBlock (slots ctx) r low (omega arith)))
            | inr enough ↦
                rw (drafted, reviewed, enough, plan_rounds, Ensures)
                  (Ensures-bind (All (IsOpen lib ctx)) (settles lib ctx r) _
                    (λ settled. next_round settled _ more))
          ]
        ]
      ]

  plan_restructure-IsOpen :
      (found : List (PanelResult F))
      → Ensures (All (IsOpen lib ctx)) (plan_restructure lib ctx found)
  unfolding plan_restructure restructure_turn layout
  plan_restructure-IsOpen [] = _
  plan_restructure-IsOpen (r ∷ rs) =
      first_open-IsOpen lib ctx (restructure_slot (slots ctx)) (restructure_turn lib ctx (r ∷ rs)) 1
        (config ctx).loop_caps.restructure
        (λ k. draft_spec-IsTurnOf lib ctx (restructure_slot (slots ctx) k) restructure _)
        (λ k low high. restructure_slot-InBlock (slots ctx) k low (omega arith))

  plan_jury-IsOpen :
      (jury : (config ctx).panels.jury ≡ true) (shown : Option TurnRecord)
      → Ensures (All (IsOpen lib ctx)) (plan_jury lib ctx shown)
  unfolding plan_jury layout
  plan_jury-IsOpen jury none = _
  plan_jury-IsOpen jury (some shown) =
      let seats : (slots ctx).jurors ≡ (config ctx).panels.jurors = rw jury in
      elim (Bool-cases (ltb max_jury_draft_bytes (length (lib.encode shown.output)))) [
        | inl large ↦ rw (large, Ensures) _
        | inr fits ↦
            rw (fits, Ensures)
              (all_open-IsOpen lib ctx (jury_slot (slots ctx)) (juror_turn lib ctx shown) 1
                (config ctx).panels.jurors (juror_turn-IsTurnOf lib ctx shown)
                (λ k low high. jury_slot-InBlock (slots ctx) k low (omega (arith, seats))))
      ]

  judges-IsOpen :
      (schema : Schema) (stage : Stage)
      → Ensures (All (IsOpen lib ctx)) (
          all_open lib ctx
            (judge_slot (slots ctx))
            (judge_turn lib ctx schema stage)
            1
            (config ctx).panels.judges)
  unfolding layout
  judges-IsOpen schema stage =
      all_open-IsOpen lib ctx (judge_slot (slots ctx)) (judge_turn lib ctx schema stage) 1
        (config ctx).panels.judges (judge_turn-IsTurnOf lib ctx schema stage)
        (λ k low high. judge_slot-InBlock (slots ctx) k low (omega arith))

  if_jury :
      (jury : Bool) (m : Result (List TurnSpec))
      → (jury ≡ true → Ensures (All (IsOpen lib ctx)) m)
      → Ensures (All (IsOpen lib ctx)) (if not jury then ok [] else m)
  if_jury true m h = h refl
  if_jury false m h = _

  not_drafted :
      is_complete lib ctx associate_draft ≡ ok false → done ctx (draft (slots ctx) 1) ≡ false
  unfolding is_complete
  not_drafted h = cc

  -- A stage that is not complete plans turns that are open, if any.
  plan-IsOpen :
      (stage : Stage)
      → 1 ≤ (config ctx).loop_caps.associate_partner
      → is_complete lib ctx stage ≡ ok false
      → Ensures (All (IsOpen lib ctx)) (plan lib ctx stage)
  unfolding plan layout bolster_turn
  plan-IsOpen associate_draft rounds h =
      Ensures-IsOpen lib ctx (draft (slots ctx) 1)
        (draft_spec lib ctx (draft (slots ctx) 1) associate_draft _)
        (draft_spec-IsTurnOf lib ctx (draft (slots ctx) 1) associate_draft _) (not_drafted h)
        (draft-InBlock (slots ctx) 1 (omega arith) rounds)
  plan-IsOpen partner_loop rounds h =
      plan_rounds-IsOpen 1 (config ctx).loop_caps.associate_partner (omega arith) (omega arith)
  plan-IsOpen oc_attack rounds h =
      first_open-IsOpen lib ctx (oc_slot (slots ctx)) (attack_turn lib ctx) 1
        (config ctx).loop_caps.oc (attack_turn-IsTurnOf lib ctx)
        (λ k low high. oc_slot-InBlock (slots ctx) k low (omega arith))
  plan-IsOpen bolster rounds h =
      Ensures-bind (All (IsOpen lib ctx)) (attacks lib ctx (range_from 1 (config ctx).loop_caps.oc))
        _
        (λ prior.
          first_open-IsOpen lib ctx (bolster_slot (slots ctx)) (bolster_turn lib ctx prior) 1
            (config ctx).loop_caps.bolster
            (λ k. draft_spec-IsTurnOf lib ctx (bolster_slot (slots ctx) k) bolster _)
            (λ k low high. bolster_slot-InBlock (slots ctx) k low (omega arith)))
  plan-IsOpen judge_panel rounds h = judges-IsOpen Schema.judge judge_panel
  plan-IsOpen narrative_assessment rounds h =
      judges-IsOpen Schema.narrative_assessment narrative_assessment
  plan-IsOpen restructure rounds h =
      Ensures-bind (All (IsOpen lib ctx)) (weak lib ctx) _ plan_restructure-IsOpen
  plan-IsOpen jury_panel rounds h =
      if_jury (config ctx).panels.jury (plan_jury lib ctx (operative_draft ctx))
        (λ jury. plan_jury-IsOpen jury (operative_draft ctx))
  plan-IsOpen rubric_gate rounds h =
      all_open-IsOpen lib ctx (rubric_final (slots ctx)) (rubric_turn lib ctx) 1
        (config ctx).panels.rubric_judges (rubric_turn-IsTurnOf lib ctx)
        (λ k low high. rubric_final-InBlock (slots ctx) k low (omega arith))

  -- One stage of the loop: if it is complete the rest follows, and else its plan.
  planned_stage :
      (stage : Stage) (rest : Result (List TurnSpec)) (complete : Result Bool)
      → is_complete lib ctx stage ≡ complete
      → 1 ≤ (config ctx).loop_caps.associate_partner
      → Ensures (All (IsOpen lib ctx)) rest
      → Ensures
          (All (IsOpen lib ctx))
          (complete >>= λ c. elim c [ true ↦ rest | false ↦ plan lib ctx stage ])
  planned_stage stage rest (err raised) e rounds h = _
  planned_stage stage rest (ok true) e rounds h = h
  planned_stage stage rest (ok false) e rounds h = plan-IsOpen stage rounds e

  plan_stages-IsOpen :
      (stages : List Stage)
      → 1 ≤ (config ctx).loop_caps.associate_partner
      → Ensures (All (IsOpen lib ctx)) (plan_stages lib ctx stages)
  unfolding plan_stages
  plan_stages-IsOpen [] rounds = _
  plan_stages-IsOpen (stage ∷ stages) rounds =
      planned_stage stage (plan_stages lib ctx stages) (is_complete lib ctx stage) refl rounds
        (plan_stages-IsOpen stages rounds)

  -- Every turn that a request plans, in a task with at least one round, is the turn of a slot in
  -- the request's block that is not completed, in the attempt behind its discarded ones.
  pub plan_request-IsOpen :
      (specs : List TurnSpec)
      → 1 ≤ (config ctx).loop_caps.associate_partner
      → plan_request lib ctx ≡ ok specs
      → All (IsOpen lib ctx) specs
  unfolding plan_request
  plan_request-IsOpen specs rounds planned =
      Ensures-ok (All (IsOpen lib ctx)) (plan_request lib ctx) specs
        (Ensures-bind (All (IsOpen lib ctx)) (ordered_stages lib ctx (config ctx).stages) _
          (λ stages. plan_stages-IsOpen stages rounds))
        planned
