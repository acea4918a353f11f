-- ===== src/Gates/Turns.antt =====
-- gates/turn.py: the gates of a landed turn, run in the order of the configured selection.
use mootloop.Base.{
  Bool, true, false, ◌&&◌, not, List, [], ◌∷◌, map, Text, codes, text_eq_key, list_eq,
  if◌then◌else◌, filter, all, member, Result, ok, err, ◌>>=◌, validation_error,
}
use mootloop.Base.Dict.{Dict}
use mootloop.Base.Floats.{FloatOps}
use mootloop.Turn.{TurnOutput, RubricScoreOutput, GateResult, fail}
use mootloop.Rubric.{Rubric, correctness_criteria}
use mootloop.Completeness.{TextOps}
use mootloop.Gates.Runtime.{
  GateScope, turn, draft, GateDefinition, Gate, GateRun, new_catalog, order, run_gates, is_unique,
  default_definitions,
}
use mootloop.Completeness
use mootloop.Gates.Degeneracy
use mootloop.Gates.Degeneracy.{plain_finding}
use mootloop.Gates.Fabrication.{FactOps, Fact, DocumentEvidence, check}

pub record TurnGateContext (F : Type 0) : Type 0 where
  pub output : TurnOutput
  pub rubric : Rubric F
  pub request_code : Text
  pub request_text : Text
  pub facts : List Fact
  pub corpus_text : Text
  pub document : Bool
  pub evidence : List DocumentEvidence

-- The libraries that the gates call; `share_min` is the float 0.4.
pub record GateLibrary (F : Type 0) : Type 0 where
  pub text : TextOps
  pub facts : FactOps
  pub floats : FloatOps F
  pub share_min : F

abbrev pub is_draft : TurnOutput → Bool
is_draft (TurnOutput.draft o) = true
is_draft _ = false

-- `normalize_turn_gate_selection`
unfoldable pub normalize_turn_gate_selection : List Text → List Text
normalize_turn_gate_selection names =
    if list_eq names (codes "degeneracy" ∷ codes "completeness" ∷ codes "rubric" ∷ [])
    then codes "degeneracy" ∷ codes "completeness" ∷ codes "fabrication" ∷ codes "rubric" ∷ []
    else names

-- `definition.scope in {GateScope.TURN, GateScope.DRAFT}`
unfoldable pub lands_with_turn : GateScope → Bool
lands_with_turn turn = true
lands_with_turn draft = true
lands_with_turn _ = false

module _ {F : Type 0} (lib : GateLibrary F) where
  -- The scores cover every declared criterion exactly once.
  unfoldable pub covers_rubric : TurnGateContext F → RubricScoreOutput → Bool
  covers_rubric context scores =
      let expected = map (λ c. c.id) (correctness_criteria context.request_code context.rubric) in
      let actual = map (λ s. s.criterion_id) scores.scores in
      (all (λ id. member id expected) actual && all (λ id. member id actual) expected)
      && is_unique actual

  -- `_DegeneracyGate.evaluate`
  unfoldable pub degeneracy_gate : TurnGateContext F → TurnOutput → GateResult
  unfolding covers_rubric
  degeneracy_gate context (TurnOutput.rubric_score scores) =
      if context.document && not (covers_rubric context scores)
      then record {
        gate = codes "degeneracy";
        findings =
            plain_finding (codes "rubric_coverage")
              (codes "scores must cover every declared criterion exactly once")
            ∷ [];
        status = fail;
      }
      else Degeneracy.evaluate lib.text context.document (TurnOutput.rubric_score scores)
  degeneracy_gate context output = Degeneracy.evaluate lib.text context.document output

  -- `cast(DraftOutput, output)`; both gates apply to drafts only.
  unfoldable pub completeness_gate : TurnGateContext F → TurnOutput → Result GateResult
  completeness_gate context (TurnOutput.draft o) =
      Completeness.evaluate lib.text lib.floats lib.share_min o context.rubric context.request_code
        context.request_text
  completeness_gate context _ = err validation_error

  unfoldable pub fabrication_gate : TurnGateContext F → TurnOutput → Result GateResult
  unfolding check
  fabrication_gate context (TurnOutput.draft o) =
      ok (check lib.text lib.facts context.facts context.corpus_text context.evidence o)
  fabrication_gate context _ = err validation_error

  -- `_TURN_GATES`
  unfoldable pub turn_gates_of : List GateDefinition → Dict Text (Gate (TurnGateContext F))
  unfolding degeneracy_gate completeness_gate fabrication_gate
  turn_gates_of (d ∷ c ∷ f ∷ _) =
      (
        d.name,
        record {
          definition = d;
          applies = λ context. true;
          evaluate = λ context. ok (degeneracy_gate context context.output);
        },
      )
      ∷ (
        c.name,
        record {
          definition = c;
          applies = λ context. is_draft context.output;
          evaluate = λ context. completeness_gate context context.output;
        },
      )
      ∷ (
        f.name,
        record {
          definition = f;
          applies = λ context. is_draft context.output;
          evaluate = λ context. fabrication_gate context context.output;
        },
      )
      ∷ []
  turn_gates_of _ = []

  unfoldable pub evaluate_turn_gates : List Text → TurnGateContext F → Result GateRun
  unfolding new_catalog order run_gates normalize_turn_gate_selection lands_with_turn turn_gates_of
  evaluate_turn_gates names context =
      let gates = turn_gates_of default_definitions in
      new_catalog default_definitions >>= λ catalog.
      order catalog (normalize_turn_gate_selection names) >>= λ ordered.
      new_catalog (map (λ g. g.1.definition) gates) >>= λ runner.
      run_gates gates context runner
        (map (λ d. d.name) (filter (λ d. lands_with_turn d.scope) ordered))
