-- ===== src/Stages/Plan/Progress.antt =====
-- A request that is not complete plans at least one turn, so that no request is left waiting.
use mootloop.Base.{
  ℕ, zero, suc, ◌+◌, ◌-◌, ◌≤◌, ◌≡◌, refl, Bool, true, false, ◌&&◌, not, Option, none, some, List,
  [], Text, all, range_from, length, Result, ok, err, ◌>>=◌, >>=-eq-ok, Ensures, Ensures-bind,
  nat_eq, Bool-cases, inl, inr, arith,
}
use mootloop.Base.Dict.{Dict}
use mootloop.Turn.{PromptValue, TurnSpec}
use mootloop.Pipeline.{rubric_judge_enabled}
use mootloop.Stages.{draft, critique, rubric_loop}
use mootloop.Stages.Context.{
  Services, StageContext, config, slots, done, record_of, verdict_of, instructions_of,
  partner_draft,
}
use mootloop.Stages.Plan.{
  Stage, partner_loop, cyclic, draft_context, round_complete, round_converged, settles,
  settled_from, judged,
}
use mootloop.Stages.Plan.Turns.{
  draft_spec, first_open, all_open, redraft, review, score_round, plan_rounds, attacks, attack_turn,
}

-- Some turn is planned.
abbrev pub IsBusy : List TurnSpec → Type 0
IsBusy specs = 1 ≤ length specs

module _ {F Usd : Type 0} (lib : Services F) (ctx : StageContext F Usd) where
  pub first_open-IsBusy :
      (slot : ℕ → ℕ) (turn : ℕ → Result (List TurnSpec)) (from count : ℕ)
      → ((k : ℕ) → Ensures IsBusy (turn k))
      → all (λ k. done ctx (slot k)) (range_from from count) ≡ false
      → Ensures IsBusy (first_open lib ctx slot turn from count)
  unfolding first_open
  first_open-IsBusy slot turn from zero busy h = cc
  first_open-IsBusy slot turn from (suc count) busy h = elim (Bool-cases (done ctx (slot from))) [
    | inl closed ↦
        rw (closed, first_open, Ensures)
          (first_open-IsBusy slot turn (suc from) count busy (ground arith))
    | inr undone ↦ rw (undone, first_open, Ensures) (busy from)
  ]

  pub all_open-IsBusy :
      (slot : ℕ → ℕ) (turn : ℕ → Result TurnSpec) (from count : ℕ)
      → all (λ k. done ctx (slot k)) (range_from from count) ≡ false
      → Ensures IsBusy (all_open lib ctx slot turn from count)
  unfolding all_open
  all_open-IsBusy slot turn from zero h = cc
  all_open-IsBusy slot turn from (suc count) h = elim (Bool-cases (done ctx (slot from))) [
    | inl closed ↦
        rw (closed, all_open, Ensures) (all_open-IsBusy slot turn (suc from) count (ground arith))
    | inr undone ↦
        rw (undone, all_open, Ensures)
          (Ensures-bind IsBusy (turn from) _ (λ s.
            Ensures-bind IsBusy (all_open lib ctx slot turn (suc from) count) _
              (λ more. omega arith)))
  ]

  pub draft_spec-IsBusy :
      (seq : ℕ) (stage : Stage) (extra : Dict Text PromptValue)
      → Ensures IsBusy (draft_spec lib ctx seq stage extra)
  unfolding draft_spec
  draft_spec-IsBusy seq stage extra =
      Ensures-bind IsBusy (draft_context lib ctx extra) _ (λ context. omega arith)

  pub redraft-IsBusy : (r : ℕ) → Ensures IsBusy (redraft lib ctx r)
  unfolding redraft
  redraft-IsBusy r = Ensures-bind IsBusy (record_of ctx (critique (slots ctx) (r - 1))) _ (λ prior.
      Ensures-bind IsBusy (instructions_of prior.output) _ (λ instructions.
        Ensures-bind IsBusy (partner_draft ctx (r - 1)) _
          (λ previous. draft_spec-IsBusy (draft (slots ctx) r) partner_loop _)))

  pub review-IsBusy : (r : ℕ) → Ensures IsBusy (review lib ctx r)
  unfolding review
  review-IsBusy r = Ensures-bind IsBusy (partner_draft ctx r) _ (λ shown. omega arith)

  pub score_round-IsBusy : (r : ℕ) → Ensures IsBusy (score_round lib ctx r)
  unfolding score_round
  score_round-IsBusy r = Ensures-bind IsBusy (partner_draft ctx r) _ (λ shown. omega arith)

  pub attack_turn-IsBusy : (k : ℕ) → Ensures IsBusy (attack_turn lib ctx k)
  unfolding attack_turn
  attack_turn-IsBusy k = Ensures-bind IsBusy (cyclic ctx.pipeline.oc_personas k) _ (λ persona.
      Ensures-bind IsBusy (attacks lib ctx (range_from 1 (k - 1))) _ (λ prior. omega arith))

  -- A round at the cap settles, if it does not raise.
  settles_last :
      (r : ℕ)
      → settles lib ctx r ≡ ok false
      → nat_eq r (config ctx).loop_caps.associate_partner ≡ false
  unfolding settles
  settles_last r h =
      let (reviewed, found, h1) = >>=-eq-ok (record_of ctx (critique (slots ctx) r)) _ h in
      let (verdict, read, h2) = >>=-eq-ok (verdict_of reviewed.output) _ h1 in
      let (converged, judged, h3) = >>=-eq-ok (round_converged lib ctx r) _ h2 in ground arith

  settled_case :
      (r remaining : ℕ) (settled : Result Bool) (next : Result (Option ℕ))
      (more : Result (List TurnSpec))
      → (settled >>= λ s. elim s [ true ↦ ok (some r) | false ↦ next ]) ≡ ok none
      → (settled ≡ ok false → next ≡ ok none → Ensures IsBusy more)
      → Ensures IsBusy (settled >>= λ s. elim s [ true ↦ ok [] | false ↦ more ])
  settled_case r remaining (err raised) next more h busy = _
  settled_case r remaining (ok true) next more h busy = cc
  settled_case r remaining (ok false) next more h busy = busy refl h

  round_whole :
      (r : ℕ)
      → done ctx (draft (slots ctx) r) ≡ true
      → done ctx (critique (slots ctx) r) ≡ true
      → rubric_judge_enabled ctx.pipeline && not (done ctx (rubric_loop (slots ctx) r)) ≡ false
      → round_complete lib ctx r ≡ true
  unfolding round_complete
  round_whole r drafted reviewed enough = ground arith

  pub plan_rounds-IsBusy :
      (r remaining : ℕ)
      → 1 ≤ remaining
      → r + remaining ≡ suc (config ctx).loop_caps.associate_partner
      → settled_from lib ctx r remaining ≡ ok none
      → Ensures IsBusy (plan_rounds lib ctx r remaining)
  unfolding plan_rounds settled_from
  plan_rounds-IsBusy r zero some_left h unsettled = elim some_left [ ]
  plan_rounds-IsBusy r (suc remaining) some_left h unsettled =
      let d = draft (slots ctx) r in
      let c = critique (slots ctx) r in
      let s = rubric_loop (slots ctx) r in
      let scored = rubric_judge_enabled ctx.pipeline && not (done ctx s) in
      elim (Bool-cases (done ctx d)) [
        | inr undone ↦ rw (undone, plan_rounds, Ensures) (redraft-IsBusy r)
        | inl drafted ↦ elim (Bool-cases (done ctx c)) [
          | inr undone ↦ rw (drafted, undone, plan_rounds, Ensures) (review-IsBusy r)
          | inl reviewed ↦ elim (Bool-cases scored) [
            | inl wanted ↦
                rw (drafted, reviewed, wanted, plan_rounds, Ensures) (score_round-IsBusy r)
            | inr enough ↦
                let whole : round_complete lib ctx r ≡ true =
                  round_whole r drafted reviewed enough in
                let next = rw (whole, settled_from) at unsettled in
                rw (drafted, reviewed, enough, plan_rounds, Ensures)
                  (settled_case r remaining (settles lib ctx r)
                    (settled_from lib ctx (suc r) remaining) (plan_rounds lib ctx (suc r) remaining)
                    next
                    (λ going after.
                      plan_rounds-IsBusy (suc r) remaining (ground (arith, settles_last r going))
                        (omega arith) after))
          ]
        ]
      ]
