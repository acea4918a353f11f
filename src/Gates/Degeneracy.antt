-- ===== src/Gates/Degeneracy.antt =====
-- gates/degeneracy.py: the gate that every turn passes, or else is discarded.
use mootloop.Base.{
  ℕ, suc, Bool, true, false, ◌&&◌, ◌||◌, not, Option, none, some, List, [], ◌∷◌, ◌++◌, map, Text,
  codes, decimal,
}
use mootloop.Turn.{Objection, DraftOutput, TurnOutput, GateFinding, GateResult, pass, fail}
use mootloop.Completeness.{TextOps, contains_text, is_blank, has_hedge}

abbrev pub placeholders : List Text
placeholders = codes "[todo" ∷ codes "[insert" ∷ codes "lorem" ∷ []

-- A finding list with one more where the test holds.
unfoldable pub found_if : Bool → GateFinding → List GateFinding → List GateFinding
found_if true finding rest = finding ∷ rest
found_if false finding rest = rest

abbrev pub plain_finding : Text → Text → GateFinding
plain_finding code message = record { code = code; message = message; locator = none }

abbrev pub located : Text → Text → Text → GateFinding
located code message locator = record { code = code; message = message; locator = some locator }

unfoldable pub is_given : {A : Type 0} → Option A → Bool
is_given none = false
is_given (some a) = true

abbrev pub has_any : {A : Type 0} → List A → Bool
has_any [] = false
has_any (a ∷ xs) = true

unfoldable pub self_assessment_of : TurnOutput → Text
self_assessment_of (TurnOutput.draft o) = o.self_assessment
self_assessment_of (TurnOutput.critique o) = o.self_assessment
self_assessment_of (TurnOutput.judge o) = o.self_assessment
self_assessment_of (TurnOutput.narrative_assessment o) = o.self_assessment
self_assessment_of (TurnOutput.juror o) = o.self_assessment
self_assessment_of (TurnOutput.rubric_score o) = o.self_assessment
self_assessment_of (TurnOutput.cite_check o) = o.self_assessment

-- `GateFail` with the findings, or `GatePass` without one.
unfoldable pub gate_of : Text → List GateFinding → GateResult
gate_of gate [] = record { gate = gate; findings = []; status = pass }
gate_of gate (f ∷ findings) = record { gate = gate; findings = f ∷ findings; status = fail }

module _ (lib : TextOps) where
  -- The loop of `_placeholder_findings` over the markers.
  unfoldable pub placeholder_findings : Text → Text → List Text → List GateFinding
  unfolding contains_text found_if
  placeholder_findings text locator [] = []
  placeholder_findings text locator (marker ∷ markers) =
      found_if (contains_text marker (lib.lower text))
        (located (codes "placeholder") (codes "unresolved marker " ++ lib.repr marker) locator)
        (placeholder_findings text locator markers)

  -- The objections from the index on: those without a basis.
  unfoldable pub basis_findings : ℕ → List Objection → List GateFinding
  unfolding found_if
  basis_findings idx [] = []
  basis_findings idx (o ∷ objections) =
      found_if (is_blank (lib.strip o.basis))
        (located (codes "objection_no_basis") (codes "objection has an empty basis")
          (codes "objections[" ++ (decimal idx ++ codes "]")))
        (basis_findings (suc idx) objections)

  unfoldable pub objection_placeholders : ℕ → List Objection → List GateFinding
  unfolding placeholder_findings
  objection_placeholders idx [] = []
  objection_placeholders idx (o ∷ objections) =
      placeholder_findings o.text (codes "objections[" ++ (decimal idx ++ codes "].text"))
        placeholders
      ++ objection_placeholders (suc idx) objections

  unfoldable pub check_draft : Bool → DraftOutput → List GateFinding
  unfolding found_if basis_findings placeholder_findings objection_placeholders has_hedge is_given
  check_draft document draft =
      found_if (is_blank (lib.strip draft.response_text))
        (plain_finding (codes "empty_response") (codes "response_text is empty"))
        (basis_findings 0 draft.objections
          ++ (placeholder_findings draft.response_text (codes "response_text") placeholders
              ++ (objection_placeholders 0 draft.objections
                  ++ found_if
                      (not document
                        && has_hedge lib (draft.response_text ∷ map (λ o. o.text) draft.objections))
                      (located (codes "hedge_subject_to")
                        (codes "response hedges \"subject to and without waiving\" (Liguria Foods)")
                        (codes "response_text"))
                      (found_if
                        (document && (has_any draft.objections || is_given draft.rfa_disposition))
                        (plain_finding (codes "discovery_fields")
                          (codes "document drafts cannot contain objections or RFA dispositions"))
                        (found_if
                          (not (has_any draft.fact_ids_used || has_any draft.attorney_gate_items))
                          (plain_finding (codes "ungrounded")
                            (codes "draft cites no fact_id and raises no attorney_gate_item"))
                          [])))))

  unfoldable pub degeneracy_findings : Bool → TurnOutput → List GateFinding
  unfolding check_draft found_if self_assessment_of
  degeneracy_findings document (TurnOutput.draft draft) = check_draft document draft
  degeneracy_findings document output =
      found_if (is_blank (lib.strip (self_assessment_of output)))
        (plain_finding (codes "empty_self_assessment") (codes "self_assessment is empty")) []

  unfoldable pub evaluate : Bool → TurnOutput → GateResult
  unfolding degeneracy_findings gate_of
  evaluate document output = gate_of (codes "degeneracy") (degeneracy_findings document output)
