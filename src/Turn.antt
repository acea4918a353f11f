-- ===== src/Turn.antt =====
-- models/run.py and models/gates.py: personas, the outputs that they return, the `TurnSpec` handed
-- to a driver and the `TurnRecord` of a completed turn. Ids and names are texts.
use mootloop.Base.{ℕ, ◌≡◌, ◌↔◌, Bool, true, Option, List, Text, Eq, nat_eq, arith}
use mootloop.Base.Dict.{Dict}

pub data PersonaName : Type 0 where
  associate partner oc_associate oc_partner judge juror rubric_judge cite_checker : PersonaName

-- The place of a name in the enumeration.
abbrev pub persona_index : PersonaName → ℕ
persona_index associate = 0
persona_index partner = 1
persona_index oc_associate = 2
persona_index oc_partner = 3
persona_index judge = 4
persona_index juror = 5
persona_index rubric_judge = 6
persona_index cite_checker = 7

pub persona_eq_iff :
    (p q : PersonaName) → (nat_eq (persona_index p) (persona_index q) ≡ true) ↔ (p ≡ q)
persona_eq_iff p q = ground arith

instance abbrev pub persona_eq : Eq PersonaName
persona_eq = record {
  test = λ p q. nat_eq (persona_index p) (persona_index q);
  test_iff = persona_eq_iff;
}

pub data Role : Type 0 where
  personas judges rubric cite : Role

unfoldable pub role : PersonaName → Role
role judge = judges
role juror = judges
role rubric_judge = rubric
role cite_checker = cite
role _ = personas

pub record GateFinding : Type 0 where
  pub code : Text
  pub message : Text
  pub locator : Option Text

pub data GateStatus : Type 0 where
  pass fail pending : GateStatus

pub record GateResult : Type 0 where
  pub gate : Text
  pub findings : List GateFinding
  pub status : GateStatus

pub record Objection : Type 0 where
  pub basis : Text
  pub text : Text

pub data RfaDisposition : Type 0 where
  admit deny qualify lack_of_knowledge : RfaDisposition

pub record DraftOutput : Type 0 where
  pub response_text : Text
  pub objections : List Objection
  pub candidate_citations : List Text
  pub fact_ids_used : List Text
  pub attorney_gate_items : List Text
  pub rfa_disposition : Option RfaDisposition
  pub self_assessment : Text

pub data Verdict : Type 0 where
  approve revise : Verdict

pub record CritiqueOutput : Type 0 where
  pub verdict : Verdict
  pub critiques : List Text
  pub instructions : List Text
  pub self_assessment : Text

pub record ObjectionRuling : Type 0 where
  pub objection_basis : Text
  pub would_objection_survive : Bool
  pub reasoning : Text
  pub persuasion_notes : Text

pub record JudgeOutput : Type 0 where
  pub rulings : List ObjectionRuling
  pub self_assessment : Text

pub data NarrativeDisposition : Type 0 where
  supported revise not_supported : NarrativeDisposition

pub record NarrativeAssessment : Type 0 where
  pub disposition : NarrativeDisposition
  pub reasons : List Text
  pub limitations : List Text
  pub self_assessment : Text

pub record JurorOutput : Type 0 where
  pub comprehension_score : ℕ
  pub persuasion_score : ℕ
  pub confusion_points : List Text
  pub credibility_concerns : List Text
  pub self_assessment : Text

pub record CriterionScore : Type 0 where
  pub criterion_id : Text
  pub score : ℕ
  pub evidence : Text

pub record RubricScoreOutput : Type 0 where
  pub scores : List CriterionScore
  pub overall_notes : Text
  pub self_assessment : Text

pub data CiteStatus : Type 0 where
  supported unsupported ambiguous : CiteStatus

pub record CiteCheckOutput : Type 0 where
  pub status : CiteStatus
  pub evidence_passage_ids : List Text
  pub reasoning : Text
  pub self_assessment : Text

pub data Schema : Type 0 where
  draft critique judge narrative_assessment juror rubric_score cite_check : Schema

pub data TurnOutput : Type 0 where
  draft : DraftOutput → TurnOutput
  critique : CritiqueOutput → TurnOutput
  judge : JudgeOutput → TurnOutput
  narrative_assessment : NarrativeAssessment → TurnOutput
  juror : JurorOutput → TurnOutput
  rubric_score : RubricScoreOutput → TurnOutput
  cite_check : CiteCheckOutput → TurnOutput

-- The schema whose model an output is an instance of.
unfoldable pub schema_of : TurnOutput → Schema
schema_of (TurnOutput.draft _) = Schema.draft
schema_of (TurnOutput.critique _) = Schema.critique
schema_of (TurnOutput.judge _) = Schema.judge
schema_of (TurnOutput.narrative_assessment _) = Schema.narrative_assessment
schema_of (TurnOutput.juror _) = Schema.juror
schema_of (TurnOutput.rubric_score _) = Schema.rubric_score
schema_of (TurnOutput.cite_check _) = Schema.cite_check

-- models/context.py: one item of the approved context; the constructors of `kind`, `trust` and
-- `permission` are kept as their texts.
pub record AssembledContextItem : Type 0 where
  pub context_id : Text
  pub kind : Text
  pub text : Text
  pub sha256 : Text
  pub provenance_locator : Text
  pub source_matter_id : Text
  pub task_scope : List Text
  pub persona_scope : List PersonaName
  pub trust : Text
  pub permission : Text

-- One weak objection, as the restructure turn is told of it.
pub record PanelFinding : Type 0 where
  pub objection_index : ℕ
  pub objection_basis : Text
  pub survival : Text
  pub reasoning_samples : List Text

-- The values that the stages put under the keys of a `prompt_context`; `output` of `none` is null.
pub data PromptValue : Type 0 where
  text : Text → PromptValue
  number : ℕ → PromptValue
  flag : Bool → PromptValue
  texts : List Text → PromptValue
  rows : List (Dict Text Text) → PromptValue
  output : Option TurnOutput → PromptValue
  outputs : List TurnOutput → PromptValue
  context_items : List AssembledContextItem → PromptValue
  findings : List PanelFinding → PromptValue

pub record TurnSpec : Type 0 where
  pub turn_id : Text
  pub run_id : Text
  pub persona : PersonaName
  pub request_id : Option Text
  pub stage : Text
  pub prompt_context : Dict Text PromptValue
  pub output_schema_name : Schema
  pub attempt : ℕ
  pub model : Option Text

pub record TurnRecord : Type 0 where
  pub spec : TurnSpec
  pub output : TurnOutput
  pub gate_results : List GateResult
  pub completed_at : Text
