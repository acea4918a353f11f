-- ===== src/GateLedger/Examples.antt =====
-- A run with one completed turn, whose draft failed the fabrication gate and then passed it.
use mootloop.Base.{
  ℕ, ◌≡◌, ◌↔◌, refl, true, false, none, some, List, [], ◌∷◌, Text, codes, text_eq, text_eq_key,
  ◌==◌, filter,
}
use mootloop.Base.Dict.{Dict, lookup, insert, get_or}
use mootloop.Turn.{
  GateStatus, pass, fail, GateResult, TurnRecord, associate, Schema, TurnOutput, Verdict,
}
use mootloop.Journal.Events.{JournalEvent, gate_evaluated, RunState, initial}
use mootloop.GateLedger.{
  export_ready, DecisionView, valid, GateLedgerDoc, is_unsettled, blocking_gates, turn_gate_status,
  build_ledger, citation_gate_name, request_of,
}
use mootloop.GateLedger.Ready.{AreCleared, export_ready-AreCleared, build_ledger-AreCleared}
use mootloop.GateLedger.Recorded.{last, verdicts, any_turn, verdict_of, for_request, on_turn}
use mootloop.GateLedger.Verdicts.{lookup-turn_gate_status}

abbrev turn_id : Text
turn_id = codes "r-t0000"

abbrev fabrication : Text
fabrication = codes "fabrication"

abbrev result : Text → GateStatus → GateResult
result gate status = record { gate = gate; findings = []; status = status }

abbrev turn : TurnRecord
turn = record {
  spec = record {
    turn_id = turn_id;
    run_id = codes "r";
    persona = associate;
    request_id = some (codes "rog-1");
    stage = codes "partner_loop";
    output_schema_name = Schema.critique;
    attempt = 1;
    model = none;
    prompt_context = [];
  };
  output = TurnOutput.critique (record {
    verdict = Verdict.approve;
    critiques = [];
    instructions = [];
    self_assessment = codes "fine";
  });
  gate_results = [];
  completed_at = codes "2026";
}

abbrev state : RunState ℕ
state = record (initial 0) { completed_turns = (turn_id, turn) ∷ [] }

abbrev events : List (JournalEvent ℕ)
events =
    gate_evaluated turn_id (result fabrication fail)
    ∷ gate_evaluated turn_id (result fabrication pass)
    ∷ gate_evaluated turn_id (result (codes "citation") pass)
    ∷ []

abbrev operative : Dict Text Text
operative = (codes "rog-1", turn_id) ∷ []

abbrev settled : DecisionView
settled = record { decision_id = codes "d1"; request_id = none; is_open = false }

-- The verdict that the draft has now is the one that counts, and the old one is kept beside it.
statuses : turn_gate_status events state operative ≡ (
  (codes "rog-1", (fabrication, pass) ∷ []) ∷ [],
  ((codes "rog-1", (fabrication, fail) ∷ []) ∷ [], pass),
)
unfolding turn_gate_status initial lookup insert text_eq
statuses = refl

export_ready-AreCleared_example :
    ((export_ready
        ((codes "rog-1", (fabrication, pass) ∷ []) ∷ [])
        pass
        pass
        pass
        (fabrication ∷ [])).0
      ≡ true)
    ↔ ((pass ≡ pass)
        × (pass ≡ pass)
        × (pass ≡ pass)
        × AreCleared (fabrication ∷ []) ((codes "rog-1", (fabrication, pass) ∷ []) ∷ []))
export_ready-AreCleared_example =
    export_ready-AreCleared ((codes "rog-1", (fabrication, pass) ∷ []) ∷ []) pass pass pass
      (fabrication ∷ [])

abbrev doc : GateLedgerDoc
doc =
    build_ledger (codes "rog-1" ∷ []) (fabrication ∷ []) events state operative (settled ∷ []) []
      valid

build_ledger-AreCleared_example : (doc.export_ready_ ≡ true) ↔ (
    (filter (is_unsettled []) (settled ∷ []) ≡ [])
    × (valid ≡ valid)
    × (last (verdicts any_turn citation_gate_name events) ≡ some pass)
    × AreCleared (blocking_gates (fabrication ∷ [])) doc.gates)
build_ledger-AreCleared_example =
    build_ledger-AreCleared (codes "rog-1" ∷ []) (fabrication ∷ []) events state operative
      (settled ∷ []) [] valid

is_turn_gate : (fabrication == citation_gate_name) ≡ false
unfolding text_eq
is_turn_gate = refl

lookup-turn_gate_status_example :
    lookup fabrication (get_or (codes "rog-1") [] (turn_gate_status events state operative).0)
    ≡ verdict_of
        (verdicts (for_request state (codes "rog-1")) fabrication events)
        (verdicts (on_turn state (get_or (codes "rog-1") [] operative)) fabrication events)
lookup-turn_gate_status_example =
    lookup-turn_gate_status events state operative (codes "rog-1") fabrication is_turn_gate

-- Without an operative draft the worst verdict counts.
worst_counts :
    verdict_of (verdicts (for_request state (codes "rog-1")) fabrication events) [] ≡ some fail
unfolding initial lookup text_eq request_of
worst_counts = refl
