-- ===== src/Completeness/Coverage.antt =====
-- What the gate and the coverage say of one draft agrees.
use mootloop.Base.{
  ℕ, ◌+◌, ◌≡◌, ◌↔◌, refl, ap, List, [], ◌∷◌, Text, length, filter, ok, >>=-eq-ok, arith,
}
use mootloop.Base.Floats.{FloatOps}
use mootloop.Turn.{DraftOutput, GateResult, GateFinding, pass}
use mootloop.Rubric.{Rubric}
use mootloop.Completeness.{
  TextOps, Check, applicable, evaluate, coverage, passing, findings_of, presence_gate, share_of,
}

-- The gate has the findings, and passes without one.
presence_gate_lem :
    (findings : List GateFinding)
    → ((presence_gate findings).findings ≡ findings)
      × (((presence_gate findings).status ≡ pass) ↔ (length findings ≡ 0))
unfolding presence_gate
presence_gate_lem [] = (refl, ((λ e. refl), (λ e. refl)))
presence_gate_lem (f ∷ findings) = (refl, ((λ e. cc), (λ e. absurd (omega arith))))

module _ (lib : TextOps) {F : Type 0} (floats : FloatOps F) (share_min : F) where
  -- How many of the criteria the draft passes.
  abbrev pub passed : DraftOutput → Text → List (Text × Check) → ℕ
  passed draft req_text found = length (filter (λ c. c.1 draft req_text) found)

  passing-passed :
      (draft : DraftOutput) (req_text : Text) (found : List (Text × Check))
      → passing lib floats share_min draft req_text found ≡ passed draft req_text found
  unfolding passing
  passing-passed draft req_text [] = refl
  passing-passed draft req_text ((id, check) ∷ rest) =
      ground (arith, passing-passed draft req_text rest)

  counted :
      (draft : DraftOutput) (req_text : Text) (found : List (Text × Check))
      → length (findings_of lib floats share_min draft req_text found) + passed draft req_text found
        ≡ length found
  unfolding findings_of
  counted draft req_text [] = omega arith
  counted draft req_text ((id, check) ∷ rest) = ground (arith, counted draft req_text rest)

  -- The share of the criteria that the draft passes, and 1 where there is none.
  abbrev pub share : DraftOutput → Text → List (Text × Check) → F
  share draft req_text [] = floats.of_int 1
  share draft req_text (c ∷ found) =
      floats.div (floats.of_int (passed draft req_text (c ∷ found)))
        (floats.of_int (length (c ∷ found)))

  share_of-share :
      (draft : DraftOutput) (req_text : Text) (found : List (Text × Check))
      → share_of lib floats share_min draft req_text found ≡ share draft req_text found
  unfolding share_of
  share_of-share draft req_text [] = refl
  share_of-share draft req_text (c ∷ found) =
      ap (λ n. floats.div (floats.of_int n) (floats.of_int (length (c ∷ found))))
        (passing-passed draft req_text (c ∷ found))

  -- Where the gate gives a result, its criteria are all known. The coverage is the number of those
  -- whose check the draft passes, divided by the number of them all, and 1 where there is none; the
  -- gate has one finding for each of the others, and it passes exactly when the draft passes them
  -- all.
  pub evaluate-coverage :
      (draft : DraftOutput) (rubric : Rubric F) (code req_text : Text) (result : GateResult)
      → evaluate lib floats share_min draft rubric code req_text ≡ ok result
      → (found : List (Text × Check)) × (applicable lib floats share_min rubric code ≡ ok found)
        × (coverage lib floats share_min draft rubric code req_text
            ≡ ok (share draft req_text found))
        × (length result.findings + passed draft req_text found ≡ length found)
        × ((result.status ≡ pass) ↔ (passed draft req_text found ≡ length found))
  unfolding evaluate coverage
  evaluate-coverage draft rubric code req_text result e =
      let got =
        >>=-eq-ok (applicable lib floats share_min rubric code)
          (λ found. ok (presence_gate (findings_of lib floats share_min draft req_text found))) e in
      let found = got.0 in
      let findings = findings_of lib floats share_min draft req_text found in
      let gate = presence_gate_lem findings in
      let same : presence_gate findings ≡ result = cc in
      let sum = counted draft req_text found in
      let agrees : (result.status ≡ pass) ↔ (length findings ≡ 0) = rw (← same) gate.1 in
      (
        found,
        got.1,
        rw (got.1) (ap ok (share_of-share draft req_text found)),
        rw (← same, gate.0) sum,
        (
          (λ passed. let none_left = agrees.0 passed in omega arith),
          (λ full. agrees.1 (omega arith)),
        ),
      )
