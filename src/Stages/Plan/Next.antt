-- ===== src/Stages/Plan/Next.antt =====
-- The turns that a request plans: each is undone, in the request's block, and new in its attempt.
use mootloop.Base.{
  ℕ, zero, suc, ◌+◌, ◌-◌, ◌≤◌, ◌<◌, ◌≡◌, refl, false, List, [], ◌∷◌, Text, range_from, All, Result,
  ok, err, ◌>>=◌, Ensures, Ensures-bind, Bool-cases, inl, inr, arith,
}
use mootloop.Base.Dict.{Dict}
use mootloop.Turn.{PersonaName, Schema, PromptValue, TurnSpec, TurnRecord}
use mootloop.Stages.{
  block, base, turn_id, draft, critique, oc_slot, judge_slot, rubric_loop, rubric_final, jury_slot,
}
use mootloop.Stages.Bounds.{InBlock}
use mootloop.Stages.Context.{
  Services, StageContext, slots, done, attempt, spec, record_of, instructions_of, partner_draft,
}
use mootloop.Stages.Plan.{draft_context, cyclic, juror_lenses, judge_lenses, Stage, partner_loop}
use mootloop.Stages.Plan.Turns.{
  draft_spec, first_open, all_open, redraft, review, score_round, attacks, attack_turn, judge_turn,
  juror_turn, rubric_turn,
}

module _ {F Usd : Type 0} (lib : Services F) (ctx : StageContext F Usd) where
  -- The turn of the slot, in the attempt behind the discarded ones.
  abbrev pub IsTurnOf : ℕ → TurnSpec → Type 0
  IsTurnOf seq s = (s.turn_id ≡ turn_id (slots ctx) seq) × (s.attempt ≡ attempt ctx seq)

  -- The turn of a slot of the request's block that is not done.
  abbrev pub IsOpen : TurnSpec → Type 0
  IsOpen s =
      (seq : ℕ) × (s.turn_id ≡ turn_id (slots ctx) seq)
      × (s.attempt ≡ attempt ctx seq)
      × (done ctx seq ≡ false)
      × (base (slots ctx) ≤ seq)
      × (seq < base (slots ctx) + block (slots ctx))

  pub spec-IsTurnOf :
      (seq : ℕ) (persona : PersonaName) (stage : Text) (schema : Schema)
      (extra : Dict Text PromptValue)
      → IsTurnOf seq (spec ctx seq persona stage schema extra)
  unfolding spec
  spec-IsTurnOf seq persona stage schema extra = (refl, refl)

  pub turn-IsOpen :
      (seq : ℕ) (s : TurnSpec)
      → IsTurnOf seq s
      → done ctx seq ≡ false
      → InBlock (slots ctx) seq
      → IsOpen s
  turn-IsOpen seq s (id, attempt) undone within = (seq, id, attempt, undone, within.0, within.1)

  -- A single planned turn of the slot.
  abbrev pub AreTurnOf : ℕ → List TurnSpec → Type 0
  AreTurnOf seq = All (IsTurnOf seq)

  All-IsOpen :
      (seq : ℕ) (specs : List TurnSpec)
      → AreTurnOf seq specs
      → done ctx seq ≡ false
      → InBlock (slots ctx) seq
      → All IsOpen specs
  All-IsOpen seq [] h undone within = _
  All-IsOpen seq (s ∷ specs) h undone within =
      (turn-IsOpen seq s h.0 undone within, All-IsOpen seq specs h.1 undone within)

  pub Ensures-IsOpen :
      (seq : ℕ) (m : Result (List TurnSpec))
      → Ensures (AreTurnOf seq) m
      → done ctx seq ≡ false
      → InBlock (slots ctx) seq
      → Ensures (All IsOpen) m
  Ensures-IsOpen seq (err raised) h undone within = _
  Ensures-IsOpen seq (ok specs) h undone within = All-IsOpen seq specs h undone within

  pub first_open-IsOpen :
      (slot : ℕ → ℕ) (turn : ℕ → Result (List TurnSpec)) (from count : ℕ)
      → ((k : ℕ) → Ensures (AreTurnOf (slot k)) (turn k))
      → ((k : ℕ) → from ≤ k → k < from + count → InBlock (slots ctx) (slot k))
      → Ensures (All IsOpen) (first_open lib ctx slot turn from count)
  unfolding first_open
  first_open-IsOpen slot turn from zero h within = _
  first_open-IsOpen slot turn from (suc count) h within = elim (Bool-cases (done ctx (slot from))) [
    | inl closed ↦
        rw (closed, first_open, Ensures)
          (first_open-IsOpen slot turn (suc from) count h
            (λ k low high. within k (omega arith) (omega arith)))
    | inr undone ↦
        rw (undone, first_open, Ensures)
          (Ensures-IsOpen (slot from) (turn from) (h from) undone
            (within from (omega arith) (omega arith)))
  ]

  pub cons-IsOpen :
      (seq : ℕ) (m : Result TurnSpec) (more : Result (List TurnSpec))
      → Ensures (IsTurnOf seq) m
      → done ctx seq ≡ false
      → InBlock (slots ctx) seq
      → Ensures (All IsOpen) more
      → Ensures (All IsOpen) (m >>= λ s. more >>= λ specs. ok (s ∷ specs))
  cons-IsOpen seq (err raised) more h undone within rest = _
  cons-IsOpen seq (ok s) (err raised) h undone within rest = _
  cons-IsOpen seq (ok s) (ok specs) h undone within rest = (turn-IsOpen seq s h undone within, rest)

  pub all_open-IsOpen :
      (slot : ℕ → ℕ) (turn : ℕ → Result TurnSpec) (from count : ℕ)
      → ((k : ℕ) → Ensures (IsTurnOf (slot k)) (turn k))
      → ((k : ℕ) → from ≤ k → k < from + count → InBlock (slots ctx) (slot k))
      → Ensures (All IsOpen) (all_open lib ctx slot turn from count)
  unfolding all_open
  all_open-IsOpen slot turn from zero h within = _
  all_open-IsOpen slot turn from (suc count) h within =
      let more =
        all_open-IsOpen slot turn (suc from) count h
          (λ k low high. within k (omega arith) (omega arith)) in
      elim (Bool-cases (done ctx (slot from))) [
        | inl closed ↦ rw (closed, all_open, Ensures) more
        | inr undone ↦
            rw (undone, all_open, Ensures)
              (cons-IsOpen (slot from) (turn from) (all_open lib ctx slot turn (suc from) count)
                (h from) undone (within from (omega arith) (omega arith)) more)
      ]

  pub draft_spec-IsTurnOf :
      (seq : ℕ) (stage : Stage) (extra : Dict Text PromptValue)
      → Ensures (AreTurnOf seq) (draft_spec lib ctx seq stage extra)
  unfolding draft_spec spec
  draft_spec-IsTurnOf seq stage extra =
      Ensures-bind (AreTurnOf seq) (draft_context lib ctx extra) _ (λ context. ((refl, refl), _))

  pub redraft-IsTurnOf : (r : ℕ) → Ensures (AreTurnOf (draft (slots ctx) r)) (redraft lib ctx r)
  unfolding redraft
  redraft-IsTurnOf r =
      let seq = draft (slots ctx) r in
      Ensures-bind (AreTurnOf seq) (record_of ctx (critique (slots ctx) (r - 1))) _ (λ prior.
        Ensures-bind (AreTurnOf seq) (instructions_of prior.output) _ (λ instructions.
          Ensures-bind (AreTurnOf seq) (partner_draft ctx (r - 1)) _
            (λ previous. draft_spec-IsTurnOf seq partner_loop _)))

  pub review-IsTurnOf : (r : ℕ) → Ensures (AreTurnOf (critique (slots ctx) r)) (review lib ctx r)
  unfolding review spec
  review-IsTurnOf r =
      Ensures-bind (AreTurnOf (critique (slots ctx) r)) (partner_draft ctx r) _
        (λ shown. ((refl, refl), _))

  pub score_round-IsTurnOf :
      (r : ℕ) → Ensures (AreTurnOf (rubric_loop (slots ctx) r)) (score_round lib ctx r)
  unfolding score_round spec
  score_round-IsTurnOf r =
      Ensures-bind (AreTurnOf (rubric_loop (slots ctx) r)) (partner_draft ctx r) _
        (λ shown. ((refl, refl), _))

  pub attack_turn-IsTurnOf :
      (k : ℕ) → Ensures (AreTurnOf (oc_slot (slots ctx) k)) (attack_turn lib ctx k)
  unfolding attack_turn spec
  attack_turn-IsTurnOf k =
      let seq = oc_slot (slots ctx) k in
      Ensures-bind (AreTurnOf seq) (cyclic ctx.pipeline.oc_personas k) _ (λ persona.
        Ensures-bind (AreTurnOf seq) (attacks lib ctx (range_from 1 (k - 1))) _
          (λ prior. ((refl, refl), _)))

  pub juror_turn-IsTurnOf :
      (shown : TurnRecord) (k : ℕ)
      → Ensures (IsTurnOf (jury_slot (slots ctx) k)) (juror_turn lib ctx shown k)
  unfolding juror_turn spec
  juror_turn-IsTurnOf shown k =
      Ensures-bind (IsTurnOf (jury_slot (slots ctx) k)) (cyclic juror_lenses k) _
        (λ lens. (refl, refl))

  pub rubric_turn-IsTurnOf :
      (k : ℕ) → Ensures (IsTurnOf (rubric_final (slots ctx) k)) (rubric_turn lib ctx k)
  unfolding rubric_turn spec
  rubric_turn-IsTurnOf k =
      Ensures-bind (IsTurnOf (rubric_final (slots ctx) k)) (cyclic judge_lenses k) _
        (λ lens. (refl, refl))

  pub judge_turn-IsTurnOf :
      (schema : Schema) (stage : Stage) (k : ℕ)
      → Ensures (IsTurnOf (judge_slot (slots ctx) k)) (judge_turn lib ctx schema stage k)
  unfolding judge_turn spec
  judge_turn-IsTurnOf schema stage k = (refl, refl)
