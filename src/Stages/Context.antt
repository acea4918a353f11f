-- ===== src/Stages/Context.antt =====
-- stages.py, `StageContext`: what the stages of one request read, and the drafts and rounds that
-- they find in the folded state. The JSON encoding of an output, SHA-256 and `str` methods are the
-- library's, and are arguments, as the convergence and score sources and the coverage are; the
-- last may raise.
use mootloop.Base.{
  ℕ, zero, suc, ◌+◌, ◌-◌, Bool, true, false, ◌&&◌, ◌||◌, not, Option, none, some, List, [], ◌∷◌,
  map, Text, codes, text_eq_key, member, if◌then◌else◌, ltb, nat_eq, filter, Result, ok, err, ◌>>=◌,
  of_option, key_error, index_error, validation_error,
}
use mootloop.Base.Dict.{Dict, lookup, get_or, insert}
use mootloop.Base.Floats.{FloatOps}
use mootloop.Turn.{
  PersonaName, associate, partner, persona_eq, Role, personas, judges, rubric, cite, role,
  DraftOutput, Verdict, JudgeOutput, RubricScoreOutput, Schema, TurnOutput, AssembledContextItem,
  PromptValue, TurnSpec, TurnRecord,
}
use mootloop.Journal.Events.{RunState, is_completed}
use mootloop.Config.{TaskAdapterConfig, ConvergenceConfig, discovery, document}
use mootloop.Rubric.{Rubric, presence_criteria, correctness_criteria}
use mootloop.Pipeline.{ResolvedPipeline, is_adversarial_first}
use mootloop.Convergence.{RoundState, ConvergenceDecision}
use mootloop.Stages.{SlotLayout, layout, turn_id, draft, bolster_slot, restructure_slot}

-- A request or a document unit.
pub record TaskUnit : Type 0 where
  pub request_id : Text
  pub text : Text
  pub is_document : Bool

pub record TaskAdapter : Type 0 where
  pub task : Text
  pub draft_directive : Text
  pub judge_question : Text

-- The library functions and the sources that the stages call.
pub record Services (F : Type 0) : Type 0 where
  pub floats : FloatOps F
  pub normalize : Text → Text
  pub strip : Text → Text
  pub encode : TurnOutput → List ℕ
  pub sha256 : List ℕ → Text
  pub score : Rubric F → Dict Text F → Text → F
  pub coverage : DraftOutput → Rubric F → Text → Text → Result F
  pub converge : List (RoundState F) → ℕ → ConvergenceConfig F → Result (ConvergenceDecision F)

-- `config` is the effective one of the pipeline: the constructor refuses any other.
pub record StageContext (F Usd : Type 0) : Type 0 where
  pub run_id : Text
  pub req_index : ℕ
  pub request : TaskUnit
  pub facts : List (Dict Text Text)
  pub adapter : TaskAdapter
  pub rubric : Rubric F
  pub state : RunState Usd
  pub pipeline : ResolvedPipeline F
  pub tier_models : Dict Text Text
  pub assembled_context : List AssembledContextItem

-- `text.split(mark, 1)[0]`
unfoldable pub before : ℕ → Text → Text
before mark [] = []
before mark (c ∷ s) = let rest = before mark s in if nat_eq c mark then [] else c ∷ rest

-- `text.rsplit(mark, 1)[1]`, out of range where the mark is missing.
unfoldable pub after_last : ℕ → Text → Option Text
after_last mark [] = none
after_last mark (c ∷ s) = elim (after_last mark s) [
  | some t ↦ some t
  | none ↦ if nat_eq c mark then some s else none
]

unfoldable pub starts_with : Text → Text → Bool
starts_with [] s = true
starts_with (c ∷ p) [] = false
starts_with (c ∷ p) (d ∷ s) = nat_eq c d && starts_with p s

-- models/requests.py: the family of a request, by the prefix of its id.
unfoldable pub code_from_request_id : Text → Text
unfolding before
code_from_request_id request_id =
    get_or (before 40 (before 45 request_id)) (codes "all")
      ((codes "ROG", codes "rog") ∷ (codes "RFP", codes "rfp") ∷ (codes "RFA", codes "rfa") ∷ [])

-- The enumeration's values.
unfoldable pub role_name : Role → Text
role_name personas = codes "personas"
role_name judges = codes "judges"
role_name rubric = codes "rubric"
role_name cite = codes "cite"

abbrev pub is_internal : PersonaName → Bool
is_internal persona = member persona (associate ∷ partner ∷ [])

abbrev pub is_null : {A : Type 0} → List A → Bool
is_null [] = true
is_null (_ ∷ _) = false

-- context_assembly.py: the approved items that a persona may read in a turn of the task.
unfoldable pub items_for_turn :
    List AssembledContextItem → Text → PersonaName → List AssembledContextItem
items_for_turn items task persona =
    if not (is_internal persona)
    then filter
        (λ item.
          not (is_null item.persona_scope)
          && member persona item.persona_scope
          && (is_null item.task_scope || member task item.task_scope))
        items
    else filter
        (λ item.
          (is_null item.task_scope || member task item.task_scope)
          && (is_null item.persona_scope || member persona item.persona_scope))
        items

-- `context.update(extra)`
unfoldable pub update : Dict Text PromptValue → Dict Text PromptValue → Dict Text PromptValue
update context [] = context
update context ((k, v) ∷ extra) = update (insert k v context) extra

-- `Model.model_validate(output)`
unfoldable pub as_draft : TurnOutput → Result DraftOutput
as_draft (TurnOutput.draft d) = ok d
as_draft _ = err validation_error

unfoldable pub as_judge : TurnOutput → Result JudgeOutput
as_judge (TurnOutput.judge j) = ok j
as_judge _ = err validation_error

unfoldable pub as_rubric : TurnOutput → Result RubricScoreOutput
as_rubric (TurnOutput.rubric_score r) = ok r
as_rubric _ = err validation_error

-- `output["verdict"]` and `output["instructions"]`
unfoldable pub verdict_of : TurnOutput → Result Verdict
verdict_of (TurnOutput.critique c) = ok c.verdict
verdict_of _ = err key_error

unfoldable pub instructions_of : TurnOutput → Result (List Text)
instructions_of (TurnOutput.critique c) = ok c.instructions
instructions_of _ = err key_error

-- A loop that may raise, and its results.
unfoldable pub collect : {A B : Type 0} → (A → Result B) → List A → Result (List B)
collect f [] = ok []
collect f (x ∷ xs) = f x >>= λ y. collect f xs >>= λ ys. ok (y ∷ ys)

module _ {F Usd : Type 0} (ctx : StageContext F Usd) where
  abbrev pub config : TaskAdapterConfig F
  config = ctx.pipeline.effective_config

  abbrev pub slots : SlotLayout
  slots = layout ctx.run_id ctx.req_index config

  -- `code`
  unfoldable pub request_code : Text
  unfolding code_from_request_id
  request_code =
      if ctx.request.is_document
      then codes "document"
      else code_from_request_id ctx.request.request_id

  -- The record of a slot's turn, if it is completed.
  abbrev pub record_at : ℕ → Option TurnRecord
  record_at seq = lookup (turn_id slots seq) ctx.state.completed_turns

  unfoldable pub done : ℕ → Bool
  unfolding is_completed
  done seq = is_completed ctx.state (turn_id slots seq)

  unfoldable pub record_of : ℕ → Result TurnRecord
  record_of seq = of_option key_error (record_at seq)

  unfoldable pub attempt : ℕ → ℕ
  attempt seq = get_or (turn_id slots seq) 0 ctx.state.discarded + 1

  -- `fact_ids`
  unfoldable pub fact_ids : Result (List Text)
  unfolding collect after_last starts_with
  fact_ids = elim config.input_family [
    | document ↦
        collect
          (λ (item : AssembledContextItem).
            of_option index_error (after_last 35 item.provenance_locator))
          (filter (λ item. starts_with (codes "document:") item.context_id) ctx.assembled_context)
    | discovery ↦ collect (λ f. of_option key_error (lookup (codes "fact_id") f)) ctx.facts
  ]

  unfoldable pub correctness_payload : List (Dict Text Text)
  unfolding correctness_criteria
  correctness_payload =
      map
        (λ c.
          (codes "id", c.id) ∷ (codes "name", c.name) ∷ (codes "description", c.description) ∷ [])
        (correctness_criteria request_code ctx.rubric)

  -- The retry feedback, which a first attempt and an empty detail have not.
  unfoldable pub add_feedback : ℕ → Dict Text PromptValue → Dict Text PromptValue
  unfolding attempt
  add_feedback seq context = elim (lookup (turn_id slots seq) ctx.state.discard_details) [
    | none ↦ context
    | some detail ↦
        if not (is_null detail) && ltb 1 (attempt seq)
        then insert (codes "previous_attempt_rejected_because") (PromptValue.text detail) context
        else context
  ]

  -- `_spec`
  unfoldable pub spec : ℕ → PersonaName → (stage : Text) → Schema → Dict Text PromptValue → TurnSpec
  unfolding items_for_turn update add_feedback attempt presence_criteria
  spec seq persona stage schema extra = record {
    turn_id = turn_id slots seq;
    run_id = ctx.run_id;
    persona = persona;
    request_id = some ctx.request.request_id;
    stage = stage;
    prompt_context = add_feedback seq (
        update
          ((codes "request_id", PromptValue.text ctx.request.request_id)
            ∷ (codes "request_text", PromptValue.text ctx.request.text)
            ∷ (
              codes "input_family",
              PromptValue.text (elim config.input_family [
                | discovery ↦ codes "discovery"
                | document ↦ codes "document"
              ]),
            )
            ∷ (
              codes "required_sections",
              PromptValue.texts (map (λ c. c.name) (presence_criteria request_code ctx.rubric)),
            )
            ∷ (
              codes "approved_context",
              PromptValue.context_items
                  (items_for_turn ctx.assembled_context ctx.adapter.task persona),
            )
            ∷ [])
          extra);
    output_schema_name = schema;
    attempt = attempt seq;
    model = lookup (role_name (role persona)) ctx.tier_models;
  }

  -- `for k in range(low + count, low, -1)`: the record of the last completed turn.
  unfoldable pub last_done : (ℕ → ℕ) → (low count : ℕ) → Option TurnRecord
  last_done slot low zero = none
  last_done slot low (suc count) = elim (record_at (slot (low + suc count))) [
    | some r ↦ some r
    | none ↦ last_done slot low count
  ]

  -- `a or else b`, for two loops in sequence.
  abbrev pub or_else : {A : Type 0} → Option A → Option A → Option A
  or_else none b = b
  or_else (some a) b = some a

  unfoldable pub latest_draft : Option TurnRecord
  unfolding last_done
  latest_draft = last_done (draft slots) 0 config.loop_caps.associate_partner

  unfoldable pub bolstered : Option TurnRecord
  unfolding last_done
  bolstered = last_done (bolster_slot slots) 0 config.loop_caps.bolster

  unfoldable pub partner_draft : ℕ → Result TurnRecord
  unfolding bolstered record_of
  partner_draft round_number =
      if nat_eq round_number 1 && is_adversarial_first ctx.pipeline.strategy
      then elim bolstered [ some r ↦ ok r | none ↦ record_of (draft slots round_number) ]
      else record_of (draft slots round_number)

  unfoldable pub judged_draft : Option TurnRecord
  unfolding last_done bolstered latest_draft
  judged_draft =
      or_else
        (if is_adversarial_first ctx.pipeline.strategy
          then last_done (draft slots) 1 (config.loop_caps.associate_partner - 1)
          else none)
        (or_else bolstered latest_draft)

  unfoldable pub operative_draft : Option TurnRecord
  unfolding last_done judged_draft
  operative_draft =
      or_else (last_done (restructure_slot slots) 0 config.loop_caps.restructure) judged_draft
