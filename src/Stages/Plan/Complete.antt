-- ===== src/Stages/Plan/Complete.antt =====
-- A request plans nothing exactly when it is complete.
use mootloop.Base.{
  ℕ, ◌≤◌, ◌≡◌, ◌↔◌, ◌⊎◌, refl, Bool, true, false, not, Option, none, some, List, [], ◌∷◌,
  range_from, length, Result, ok, err, ◌>>=◌, Ensures, Ensures-bind, Ensures-ok, ltb, if◌then◌else◌,
  Bool-cases, inl, inr, arith,
}
use mootloop.Turn.{Schema, TurnSpec, TurnRecord}
use mootloop.Panels.{PanelResult}
use mootloop.Stages.{
  draft, oc_slot, bolster_slot, judge_slot, rubric_final, restructure_slot, jury_slot,
}
use mootloop.Stages.Context.{Services, StageContext, config, slots, operative_draft}
use mootloop.Stages.Plan.{
  Stage, associate_draft, partner_loop, oc_attack, bolster, judge_panel, narrative_assessment,
  restructure, jury_panel, rubric_gate, settled_round, weak, judged, is_complete, all_done,
  max_jury_draft_bytes,
}
use mootloop.Stages.Plan.Turns.{
  attacks, attack_turn, bolster_turn, judge_turn, restructure_turn, juror_turn, rubric_turn,
  plan_jury, plan_restructure, plan, plan_stages, all_complete, ordered_stages, plan_request,
  request_complete,
}
use mootloop.Stages.Plan.Progress.{
  IsBusy, first_open-IsBusy, all_open-IsBusy, draft_spec-IsBusy, attack_turn-IsBusy,
  plan_rounds-IsBusy,
}

-- No restructure stage comes before a judging stage.
unfoldable pub judged_first : List Stage → Bool
judged_first [] = true
judged_first (restructure ∷ stages) = false
judged_first (judge_panel ∷ stages) = true
judged_first (narrative_assessment ∷ stages) = true
judged_first (_ ∷ stages) = judged_first stages

module _ {F Usd : Type 0} (lib : Services F) (ctx : StageContext F Usd) where
  unsettled :
      (m : Result (Option ℕ))
      → (m >>= λ settled. elim settled [ none ↦ ok false | some r ↦ ok true ]) ≡ ok false
      → m ≡ ok none
  unsettled (err raised) h = cc
  unsettled (ok none) h = refl
  unsettled (ok (some r)) h = cc

  partner_loop-IsBusy :
      1 ≤ (config ctx).loop_caps.associate_partner
      → is_complete lib ctx partner_loop ≡ ok false
      → Ensures IsBusy (plan lib ctx partner_loop)
  unfolding is_complete plan settled_round
  partner_loop-IsBusy rounds h =
      plan_rounds-IsBusy lib ctx 1 (config ctx).loop_caps.associate_partner rounds (omega arith)
        (unsettled (settled_round lib ctx) h)

  restructure_case :
      (found : Result (List (PanelResult F)))
      → (found >>= λ rs. elim rs [
        | [] ↦ ok true
        | r ∷ more ↦
            ok (all_done lib ctx (restructure_slot (slots ctx)) (config ctx).loop_caps.restructure)
      ])
        ≡ ok false
      → Ensures IsBusy (found >>= plan_restructure lib ctx)
  unfolding plan_restructure restructure_turn
  restructure_case (err raised) h = _
  restructure_case (ok []) h = cc
  restructure_case (ok (r ∷ rs)) h =
      first_open-IsBusy lib ctx (restructure_slot (slots ctx)) (restructure_turn lib ctx (r ∷ rs)) 1
        (config ctx).loop_caps.restructure
        (λ k. draft_spec-IsBusy lib ctx (restructure_slot (slots ctx) k) restructure _) (cc)

  restructure-IsBusy :
      judged lib ctx ≡ true
      → is_complete lib ctx restructure ≡ ok false
      → Ensures IsBusy (plan lib ctx restructure)
  unfolding is_complete plan
  restructure-IsBusy ruled h = restructure_case (weak lib ctx) (rw (ruled, is_complete) at h)

  plan_jury-IsBusy :
      (shown : Option TurnRecord)
      → all_done lib ctx (jury_slot (slots ctx)) (config ctx).panels.jurors ≡ false
      → Ensures IsBusy (plan_jury lib ctx shown)
  unfolding plan_jury
  plan_jury-IsBusy none h = _
  plan_jury-IsBusy (some shown) h =
      elim (Bool-cases (ltb max_jury_draft_bytes (length (lib.encode shown.output)))) [
        | inl large ↦ rw (large, Ensures) _
        | inr fits ↦
            rw (fits, Ensures)
              (all_open-IsBusy lib ctx (jury_slot (slots ctx)) (juror_turn lib ctx shown) 1
                (config ctx).panels.jurors h)
      ]

  jury_case :
      (jury finished : Bool) (m : Result (List TurnSpec))
      → (if not jury then ok true else ok finished) ≡ ok false
      → (finished ≡ false → Ensures IsBusy m)
      → Ensures IsBusy (if not jury then ok [] else m)
  jury_case true finished m h busy = busy (cc)
  jury_case false finished m h busy = cc

  -- A stage that is not complete plans a turn, the restructuring one once the judges have ruled.
  plan-IsBusy :
      (stage : Stage)
      → 1 ≤ (config ctx).loop_caps.associate_partner
      → (stage ≡ restructure → judged lib ctx ≡ true)
      → is_complete lib ctx stage ≡ ok false
      → Ensures IsBusy (plan lib ctx stage)
  unfolding plan is_complete judged bolster_turn
  plan-IsBusy associate_draft rounds ruled h =
      draft_spec-IsBusy lib ctx (draft (slots ctx) 1) associate_draft _
  plan-IsBusy partner_loop rounds ruled h = partner_loop-IsBusy rounds h
  plan-IsBusy oc_attack rounds ruled h =
      first_open-IsBusy lib ctx (oc_slot (slots ctx)) (attack_turn lib ctx) 1
        (config ctx).loop_caps.oc (attack_turn-IsBusy lib ctx) (cc)
  plan-IsBusy bolster rounds ruled h =
      Ensures-bind IsBusy (attacks lib ctx (range_from 1 (config ctx).loop_caps.oc)) _ (λ prior.
        first_open-IsBusy lib ctx (bolster_slot (slots ctx)) (bolster_turn lib ctx prior) 1
          (config ctx).loop_caps.bolster
          (λ k. draft_spec-IsBusy lib ctx (bolster_slot (slots ctx) k) bolster _) (cc))
  plan-IsBusy judge_panel rounds ruled h =
      all_open-IsBusy lib ctx (judge_slot (slots ctx)) (judge_turn lib ctx Schema.judge judge_panel)
        1 (config ctx).panels.judges (cc)
  plan-IsBusy narrative_assessment rounds ruled h =
      all_open-IsBusy lib ctx (judge_slot (slots ctx))
        (judge_turn lib ctx Schema.narrative_assessment narrative_assessment) 1
        (config ctx).panels.judges (cc)
  plan-IsBusy restructure rounds ruled h = restructure-IsBusy (ruled refl) h
  plan-IsBusy jury_panel rounds ruled h =
      jury_case (config ctx).panels.jury
        (all_done lib ctx (jury_slot (slots ctx)) (config ctx).panels.jurors)
        (plan_jury lib ctx (operative_draft ctx)) h (plan_jury-IsBusy (operative_draft ctx))
  plan-IsBusy rubric_gate rounds ruled h =
      all_open-IsBusy lib ctx (rubric_final (slots ctx)) (rubric_turn lib ctx) 1
        (config ctx).panels.rubric_judges (cc)

  -- Either the judges have ruled, or a judging stage comes before a restructure stage.
  abbrev IsDecidable : List Stage → Type 0
  IsDecidable stages = (judged_first stages ≡ true) ⊎ (judged lib ctx ≡ true)

  first_stage :
      (stage : Stage) (stages : List Stage)
      → IsDecidable (stage ∷ stages)
      → stage ≡ restructure
      → judged lib ctx ≡ true
  unfolding judged_first
  first_stage stage stages (inr ruled) e = ruled
  first_stage stage stages (inl first) e =
      let no : judged_first (restructure ∷ stages) ≡ true = rw e at first in cc

  later_stages :
      (stage : Stage) (stages : List Stage)
      → IsDecidable (stage ∷ stages)
      → is_complete lib ctx stage ≡ ok true
      → IsDecidable stages
  unfolding judged_first is_complete judged
  later_stages stage stages (inr ruled) h = inr ruled
  later_stages judge_panel stages (inl first) h = inr (cc)
  later_stages narrative_assessment stages (inl first) h = inr (cc)
  later_stages restructure stages (inl first) h = cc
  later_stages associate_draft stages (inl first) h = inl first
  later_stages partner_loop stages (inl first) h = inl first
  later_stages oc_attack stages (inl first) h = inl first
  later_stages bolster stages (inl first) h = inl first
  later_stages jury_panel stages (inl first) h = inl first
  later_stages rubric_gate stages (inl first) h = inl first

  stage_case :
      (stage : Stage) (complete : Result Bool) (rest : Result (List TurnSpec))
      (others : Result Bool)
      → is_complete lib ctx stage ≡ complete
      → (is_complete lib ctx stage ≡ ok false → Ensures IsBusy (plan lib ctx stage))
      → (is_complete lib ctx stage ≡ ok true → rest ≡ ok [] → others ≡ ok true)
      → (complete >>= λ c. elim c [ true ↦ rest | false ↦ plan lib ctx stage ]) ≡ ok []
      → (complete >>= λ c. elim c [ true ↦ others | false ↦ ok false ]) ≡ ok true
  stage_case stage (err raised) rest others e busy later h = cc
  stage_case stage (ok true) rest others e busy later h = later e h
  stage_case stage (ok false) rest others e busy later h =
      let none_planned : IsBusy [] = Ensures-ok IsBusy (plan lib ctx stage) [] (busy e) h in
      elim none_planned [ ]

  plan_stages_complete :
      (stages : List Stage)
      → 1 ≤ (config ctx).loop_caps.associate_partner
      → IsDecidable stages
      → plan_stages lib ctx stages ≡ ok []
      → all_complete lib ctx stages ≡ ok true
  unfolding plan_stages all_complete
  plan_stages_complete [] rounds d h = refl
  plan_stages_complete (stage ∷ stages) rounds d h =
      stage_case stage (is_complete lib ctx stage) (plan_stages lib ctx stages)
        (all_complete lib ctx stages) refl (plan-IsBusy stage rounds (first_stage stage stages d))
        (λ whole planned.
          plan_stages_complete stages rounds (later_stages stage stages d whole) planned)
        h

  complete_case :
      (complete : Result Bool) (rest planned : Result (List TurnSpec)) (others : Result Bool)
      → (others ≡ ok true → rest ≡ ok [])
      → (complete >>= λ c. elim c [ true ↦ others | false ↦ ok false ]) ≡ ok true
      → (complete >>= λ c. elim c [ true ↦ rest | false ↦ planned ]) ≡ ok []
  complete_case (err raised) rest planned others later h = cc
  complete_case (ok true) rest planned others later h = later h
  complete_case (ok false) rest planned others later h = cc

  complete-plan_stages :
      (stages : List Stage)
      → all_complete lib ctx stages ≡ ok true
      → plan_stages lib ctx stages ≡ ok []
  unfolding plan_stages all_complete
  complete-plan_stages [] h = refl
  complete-plan_stages (stage ∷ stages) h =
      complete_case (is_complete lib ctx stage) (plan_stages lib ctx stages) (plan lib ctx stage)
        (all_complete lib ctx stages) (complete-plan_stages stages) h

  -- In a task with at least one round whose graph has a judging stage before any restructure stage,
  -- a request plans no turn exactly when all its stages are complete: it never stalls.
  pub plan_request_complete :
      (stages : List Stage)
      → 1 ≤ (config ctx).loop_caps.associate_partner
      → ordered_stages lib ctx (config ctx).stages ≡ ok stages
      → judged_first stages ≡ true
      → (plan_request lib ctx ≡ ok []) ↔ (request_complete lib ctx ≡ ok true)
  unfolding plan_request request_complete
  plan_request_complete stages rounds known first =
      rw known (plan_stages_complete stages rounds (inl first), complete-plan_stages stages)
