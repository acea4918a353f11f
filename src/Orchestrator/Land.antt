-- ===== src/Orchestrator/Land.antt =====
-- orchestrator.py: `_record_spec` and `record_turn`, which land one provider's text, and
-- `plan_next`.
use mootloop.Base.{
  ℕ, Bool, true, false, ◌&&◌, not, Option, none, some, List, [], ◌∷◌, ◌++◌, map, Text, codes,
  text_eq_key, ◌==◌, if◌then◌else◌, take, decimal, ok, err, ◌>>=◌, key_error,
}
use mootloop.Base.Dict.{lookup, insert}
use mootloop.Turn.{TurnSpec, TurnRecord, TurnOutput, Schema, GateResult}
use mootloop.Journal.Events.{
  JournalEvent, gate_evaluated, stage_started, turn_completed, RunState, RunStatus, paused,
  is_finished,
}
use mootloop.Journal.Body.{StoredTurn, write_turn_body}
use mootloop.Stages.Context.{TaskUnit, code_from_request_id, as_draft}
use mootloop.Decisions.Derive.{derive_and_store}
use mootloop.Gates.Runtime.{GateRun}
use mootloop.Gates.Turns.{TurnGateContext, evaluate_turn_gates}
use mootloop.Budget.{TokenUsage}
use mootloop.Orchestrator.{
  RunContext, Library, Body, Parsed, valid, invalid, Op, ◌>>>◌, reads, done_with, emit, load_state,
  plan, find_spec_in,
}
use mootloop.Orchestrator.Spend.{book_spend, discard, over_cap, cap_transition}
use mootloop.Orchestrator.Record.{
  Recorded, kept, thrown_away, is_document_family, unit_at, maybe_emit_rubric_gate, finalize,
}
use mootloop.Orchestrator.Settle.{settle_run}

unfoldable pub schema_name : Schema → Text
schema_name Schema.draft = codes "draft"
schema_name Schema.critique = codes "critique"
schema_name Schema.judge = codes "judge"
schema_name Schema.narrative_assessment = codes "narrative_assessment"
schema_name Schema.juror = codes "juror"
schema_name Schema.rubric_score = codes "rubric_score"
schema_name Schema.cite_check = codes "cite_check"

-- `"; ".join(parts)`
unfoldable pub joined_by_semicolon : List Text → Text
joined_by_semicolon [] = []
joined_by_semicolon (p ∷ []) = p
joined_by_semicolon (p ∷ q ∷ parts) = p ++ (codes "; " ++ joined_by_semicolon (q ∷ parts))

abbrev pub or_empty : Option Text → Text
or_empty none = []
or_empty (some s) = s

abbrev pub text_of_unit : Option (ℕ × TaskUnit) → Text
text_of_unit none = []
text_of_unit (some (i, unit)) = unit.text

abbrev pub is_paused : RunStatus → Bool
is_paused paused = true
is_paused _ = false

abbrev pub is_draft_schema : Schema → Bool
is_draft_schema Schema.draft = true
is_draft_schema _ = false

abbrev pub is_stage : Text → Option Text → Bool
is_stage stage none = false
is_stage stage (some current) = stage == current

module _ {F Usd : Type 0} (lib : Library F Usd) (ctx : RunContext F Usd) where
  -- `_turn_gate_context`
  unfoldable pub turn_gate_context : TurnSpec → TurnOutput → TurnGateContext F
  unfolding code_from_request_id unit_at
  turn_gate_context spec output =
      let is_document = is_document_family ctx in
      let request_id = or_empty spec.request_id in
      record {
        output = output;
        rubric = ctx.rubric;
        request_code = if is_document then codes "document" else code_from_request_id request_id;
        request_text = text_of_unit (unit_at (some request_id) ctx.task_units);
        facts = ctx.facts;
        corpus_text = elim output [
          | TurnOutput.draft o ↦ if is_document then [] else ctx.corpus_text
          | _ ↦ []
        ];
        document = is_document;
        evidence = ctx.evidence;
      }

  abbrev pub stored_of : TurnRecord → StoredTurn Body
  stored_of r = record { body = (r.spec, r.output, r.gate_results); completed_at = r.completed_at }

  abbrev pub record_of_stored : StoredTurn Body → TurnRecord
  record_of_stored s = record {
    spec = s.body.0;
    output = s.body.1;
    gate_results = s.body.2;
    completed_at = s.completed_at;
  }

  -- `write_turn_body`, under the turn's id.
  unfoldable pub write_body : TurnRecord → Op Usd TurnRecord
  unfolding write_turn_body
  write_body r files =
      elim (write_turn_body lib.dump lib.validate lib.stored_eq (lookup r.spec.turn_id files.bodies)
        (stored_of r)) [
          | err raised ↦ (files, err raised)
          | ok (stored, text) ↦ (
            record files { bodies = insert r.spec.turn_id text files.bodies },
            ok (record_of_stored stored),
          )
        ]

  -- The gates that a recorded draft implies.
  unfoldable pub derive_gates : TurnRecord → Op Usd Unit
  unfolding as_draft derive_and_store
  derive_gates r files =
      if is_draft_schema r.spec.output_schema_name
      then elim (as_draft r.output) [
        | err raised ↦ (files, err raised)
        | ok d ↦ (
          record files {
            store =
                (derive_and_store lib.upper lib.repr (is_document_family ctx) ctx.run_id files.store
                  r.spec d).store;
          },
          ok _,
        )
      ]
      else (files, ok _)

  abbrev pub is_given_call : Option Text → Bool
  is_given_call none = false
  is_given_call (some call) = true

  -- `_record_spec` behind the gates.
  unfoldable pub complete_turn :
      TurnSpec
      → TurnOutput
      → List GateResult
      → Option TokenUsage
      → Text
      → RunState Usd
      → Option Text
      → Op Usd Recorded
  unfolding write_body derive_gates book_spend emit maybe_emit_rubric_gate settle_run ◌>>>◌
  complete_turn spec output results usage now state call files =
      (write_body
            (record { spec = spec; output = output; gate_results = results; completed_at = now })
          >>> λ r. derive_gates r >>> λ derived.
              book_spend lib ctx spec.turn_id usage spec.model now (is_given_call call) call
              >>> λ booked. emit (turn_completed r) >>> λ completed.
                  maybe_emit_rubric_gate lib ctx spec >>> λ emitted. settle_run lib ctx r)
        (record files {
          events =
              files.events
              ++ (if is_stage spec.stage state.current_stage
                  then []
                  else stage_started spec.stage ∷ []);
        })

  -- The last of the results, whose gate halted the turn.
  abbrev pub last_result : List GateResult → Option GateResult
  last_result [] = none
  last_result (r ∷ []) = some r
  last_result (r ∷ q ∷ results) = last_result (q ∷ results)

  unfoldable pub discard_derailed :
      TurnSpec → Option TokenUsage → Text → Option Text → Option GateResult → Op Usd Recorded
  unfolding joined_by_semicolon discard ◌>>>◌
  discard_derailed spec usage now call none files = (files, err key_error)
  discard_derailed spec usage now call (some gate) files =
      (discard lib ctx spec
            (codes "degenerate: " ++ joined_by_semicolon (map (λ f. f.code) gate.findings)) usage
            now
            (codes "your previous output was discarded by the "
              ++ (gate.gate
                  ++ (codes " gate — "
                      ++ joined_by_semicolon
                          (map (λ f. f.code ++ (codes ": " ++ f.message)) (take 6 gate.findings)))))
            call
          >>> λ d. done_with (thrown_away d))
        files

  unfoldable pub gate_events : TurnSpec → List GateResult → List (JournalEvent Usd)
  gate_events spec results = map (λ r. gate_evaluated spec.turn_id r) results

  -- The turn is discarded where a gate halted the run of the gates, and completed otherwise.
  unfoldable pub land_halted :
      TurnSpec
      → TurnOutput
      → List GateResult
      → Option TokenUsage
      → Text
      → RunState Usd
      → Option Text
      → Option Text
      → Op Usd Recorded
  unfolding discard_derailed complete_turn
  land_halted spec output results usage now state call (some gate) =
      discard_derailed spec usage now call (last_result results)
  land_halted spec output results usage now state call none =
      complete_turn spec output results usage now state call

  -- `_record_spec` behind the validation.
  unfoldable pub land_gated :
      TurnSpec
      → TurnOutput
      → Option TokenUsage
      → Text
      → RunState Usd
      → Option Text
      → GateRun
      → Op Usd Recorded
  unfolding gate_events land_halted
  land_gated spec output usage now state call run files =
      land_halted spec output run.results usage now state call run.halted_by
        (record files { events = files.events ++ gate_events spec run.results })

  unfoldable pub land_parsed :
      TurnSpec → Option TokenUsage → Text → RunState Usd → Option Text → Parsed → Op Usd Recorded
  unfolding discard schema_name turn_gate_context evaluate_turn_gates land_gated reads ◌>>>◌
  land_parsed spec usage now state call (invalid count detail) =
      discard lib ctx spec (codes "schema-invalid: " ++ (decimal count ++ codes " error(s)")) usage
        now
        (codes "your previous output failed `"
          ++ (schema_name spec.output_schema_name ++ (codes "` validation — " ++ detail)))
        call
      >>> λ d. done_with (thrown_away d)
  land_parsed spec usage now state call (valid output) =
      reads (λ f.
        evaluate_turn_gates lib.gates ctx.pipeline.effective_config.gates
          (turn_gate_context spec output))
      >>> land_gated spec output usage now state call

  unfoldable pub record_spec :
      TurnSpec → Text → Option TokenUsage → Text → RunState Usd → Option Text → Op Usd Recorded
  unfolding land_parsed
  record_spec spec raw_text usage now state call =
      land_parsed spec usage now state call (lib.parse spec.output_schema_name raw_text)

  -- A completed turn is only booked and finished; any other has to be planned.
  unfoldable pub record_at :
      Text
      → Text
      → Option TokenUsage
      → Text
      → RunState Usd
      → Option Text
      → Option TurnRecord
      → Op Usd Recorded
  unfolding book_spend finalize plan find_spec_in record_spec reads ◌>>>◌
  record_at turn_id raw_text usage now state call (some r) =
      book_spend lib ctx turn_id usage r.spec.model now true call >>> λ booked.
      finalize lib ctx >>> λ closed. done_with (kept r)
  record_at turn_id raw_text usage now state call none =
      reads (λ f. plan lib ctx ctx.assembled state >>= find_spec_in lib ctx turn_id) >>> λ spec.
      record_spec spec raw_text usage now state call

  unfoldable pub record_turn :
      Text → Text → Option TokenUsage → Text → Option Text → Op Usd Recorded
  unfolding load_state record_at
  record_turn turn_id raw_text usage now call files =
      let state = load_state lib ctx files in
      record_at turn_id raw_text usage now state call (lookup turn_id state.completed_turns) files

  -- `plan_next`
  unfoldable pub plan_next : Op Usd (List TurnSpec)
  unfolding load_state over_cap cap_transition plan reads ◌>>>◌
  plan_next files =
      let state = load_state lib ctx files in
      if is_paused state.status
      then (files, ok [])
      else if not (is_finished state.status) && over_cap lib ctx state
      then (cap_transition lib ctx >>> λ capped. done_with []) files
      else reads (λ f. plan lib ctx ctx.assembled state) files
