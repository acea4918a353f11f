-- ===== src/GateLedger.antt =====
-- gate_ledger.py: the fold of the recorded gates, and the predicate that lets a run export. The
-- operative drafts, the decisions with the revisions that they require, and the attestation state
-- come from other services and are arguments.
pub mod Recorded
pub mod Ready
pub mod Verdicts
mod Examples
use mootloop.Base.{
  ℕ, Bool, true, false, ◌&&◌, ◌||◌, not, Option, none, some, List, [], ◌∷◌, ◌++◌, map, Text, codes,
  text_eq, text_eq_key, ◌==◌, member, if◌then◌else◌, leb, nat_eq, filter, any,
}
use mootloop.Base.Dict.{Dict, lookup, contains, get_or, insert}
use mootloop.Turn.{GateStatus, pass, fail, pending, GateResult, TurnRecord}
use mootloop.Journal.Events.{JournalEvent, gate_evaluated, RunState}

abbrev pub turn_gates : List Text
turn_gates = codes "degeneracy" ∷ codes "completeness" ∷ codes "fabrication" ∷ codes "rubric" ∷ []

abbrev pub blocking_turn_gates : List Text
blocking_turn_gates = codes "fabrication" ∷ codes "rubric" ∷ []

abbrev pub citation_gate_name : Text
citation_gate_name = codes "citation"

unfoldable pub severity : GateStatus → ℕ
severity pass = 0
severity pending = 1
severity fail = 2

unfoldable pub is_blocking : GateStatus → Bool
is_blocking pass = false
is_blocking _ = true

unfoldable pub worse : GateStatus → GateStatus → GateStatus
unfolding severity
worse a b = if leb (severity b) (severity a) then a else b

-- Gate name to status; and such rows by turn or by request.
abbrev pub Row : Type 0
Row = Dict Text GateStatus

abbrev pub Rows : Type 0
Rows = Dict Text Row

pub record Fold : Type 0 where
  pub per_turn : Rows
  pub worst : Rows
  pub citation_status : GateStatus

-- `bucket[gate] = _worse(...) if gate in bucket else status`
unfoldable pub worsen : Text → GateStatus → Row → Row
unfolding worse
worsen gate status bucket =
    insert gate (elim (lookup gate bucket) [ none ↦ status | some was ↦ worse was status ]) bucket

unfoldable pub record_gate : Text → Option Text → Text → GateStatus → Fold → Fold
unfolding worsen
record_gate turn_id none gate status f = f
record_gate turn_id (some rid) gate status f = record f {
  per_turn = insert turn_id (insert gate status (get_or turn_id [] f.per_turn)) f.per_turn;
  worst = insert rid (worsen gate status (get_or rid [] f.worst)) f.worst;
}

-- The request of a completed turn.
unfoldable pub request_of : Option TurnRecord → Option Text
request_of none = none
request_of (some r) = r.spec.request_id

module _ {Usd : Type 0} (state : RunState Usd) where
  unfoldable pub fold_gate : Fold → JournalEvent Usd → Fold
  unfolding record_gate request_of
  fold_gate f (gate_evaluated turn_id result) =
      if result.gate == citation_gate_name
      then record f { citation_status = result.status }
      else record_gate turn_id (request_of (lookup turn_id state.completed_turns)) result.gate
          result.status f
  fold_gate f _ = f

  unfoldable pub fold_gates : Fold → List (JournalEvent Usd) → Fold
  unfolding fold_gate
  fold_gates f [] = f
  fold_gates f (e ∷ events) = fold_gates (fold_gate f e) events

-- The row of a request: a gate recorded on its operative draft is answered by that draft.
unfoldable pub operative_row : Row → Row → Row
operative_row on_operative [] = []
operative_row on_operative ((gate, was) ∷ historical) =
    (gate, get_or gate was on_operative) ∷ operative_row on_operative historical

unfoldable pub status_eq : GateStatus → GateStatus → Bool
unfolding severity
status_eq a b = nat_eq (severity a) (severity b)

-- The worst statuses that the operative draft has changed.
unfoldable pub superseded_row : Row → Row → Row
unfolding status_eq
superseded_row on_operative [] = []
superseded_row on_operative ((gate, was) ∷ historical) =
    let rest = superseded_row on_operative historical in
    if status_eq (get_or gate was on_operative) was then rest else (gate, was) ∷ rest

unfoldable pub per_request : Rows → Dict Text Text → Rows → Rows
unfolding operative_row
per_request per_turn operative_turn [] = []
per_request per_turn operative_turn ((rid, historical) ∷ worst) =
    (rid, operative_row (get_or (get_or rid [] operative_turn) [] per_turn) historical)
    ∷ per_request per_turn operative_turn worst

-- The requests with a changed status.
unfoldable pub superseded_rows : Rows → Dict Text Text → Rows → Rows
unfolding superseded_row
superseded_rows per_turn operative_turn [] = []
superseded_rows per_turn operative_turn ((rid, historical) ∷ worst) =
    let rest = superseded_rows per_turn operative_turn worst in
    elim (superseded_row (get_or (get_or rid [] operative_turn) [] per_turn) historical) [
      | [] ↦ rest
      | entry ∷ row ↦ (rid, entry ∷ row) ∷ rest
    ]

-- `_turn_gate_status`: the operative rows, the superseded ones and the citation status.
unfoldable pub turn_gate_status :
    {Usd : Type 0}
    → List (JournalEvent Usd)
    → RunState Usd
    → Dict Text Text
    → Rows × (Rows × GateStatus)
unfolding fold_gates per_request superseded_rows
turn_gate_status events state operative_turn =
    let f =
      fold_gates state (record { per_turn = []; worst = []; citation_status = pending }) events in
    (
      per_request f.per_turn operative_turn f.worst,
      (superseded_rows f.per_turn operative_turn f.worst, f.citation_status),
    )

unfoldable pub block_if : GateStatus → Text → List Text → List Text
unfolding is_blocking
block_if status name blockers = if is_blocking status then blockers ++ name ∷ [] else blockers

-- The inner loop of `_export_ready` over one row, and the outer one.
unfoldable pub block_row : Row → List Text → List Text → List Text
unfolding is_blocking
block_row row [] blockers = blockers
block_row row (gate ∷ gates) blockers = block_row row gates (
    if is_blocking (get_or gate pending row) && not (member gate blockers)
    then blockers ++ gate ∷ []
    else blockers)

unfoldable pub block_rows : Rows → List Text → List Text → List Text
unfolding block_row
block_rows [] gates blockers = blockers
block_rows ((rid, row) ∷ rows) gates blockers = block_rows rows gates (block_row row gates blockers)

unfoldable pub is_empty : List Text → Bool
is_empty [] = true
is_empty _ = false

unfoldable pub export_ready :
    Rows → GateStatus → GateStatus → GateStatus → List Text → Bool × List Text
unfolding block_if block_rows is_empty
export_ready gates decisions_status attestation_status citation_status blocking =
    let blockers = block_rows gates blocking (
      block_if citation_status (codes "citations") (
        block_if attestation_status (codes "attestation")
          (block_if decisions_status (codes "decisions") []))) in
    (is_empty blockers, blockers)

pub record DecisionView : Type 0 where
  pub decision_id : Text
  pub request_id : Option Text
  pub is_open : Bool

pub data AttestationState : Type 0 where
  valid invalidated missing : AttestationState

unfoldable pub attestation_gate : AttestationState → GateStatus
attestation_gate valid = pass
attestation_gate invalidated = fail
attestation_gate missing = pending

-- A decision that is open, or that requires a revision.
unfoldable pub is_unsettled : List Text → DecisionView → Bool
is_unsettled revisions d = d.is_open || member d.decision_id revisions

-- Whether an unsettled decision is about the request, or about the whole run.
unfoldable pub concerns : Text → DecisionView → Bool
concerns rid d = elim d.request_id [ none ↦ true | some r ↦ r == rid ]

-- `row` of a request: the configured turn gates, then the gates of the run.
unfoldable pub unit_row : Row → List Text → GateStatus → GateStatus → GateStatus → Row
unit_row recorded configured citation decisions attestation =
    insert (codes "attestation") attestation (
      insert (codes "decisions") decisions (
        insert (codes "citations") citation
          (map (λ gate. (gate, get_or gate pending recorded)) configured)))

pub record GateLedgerDoc : Type 0 where
  pub export_ready_ : Bool
  pub blockers : List Text
  pub overall : Row
  pub gates : Rows
  pub superseded : Rows

-- The loop over the units, which adds their rows to `gates`.
unfoldable pub ledger_rows :
    List Text → Rows → GateStatus → List DecisionView → GateStatus → List Text → Rows → Rows
unfolding unit_row concerns
ledger_rows configured recorded citation unsettled attestation [] gates = gates
ledger_rows configured recorded citation unsettled attestation (rid ∷ units) gates =
    ledger_rows configured recorded citation unsettled attestation units (
      insert rid
        (unit_row (get_or rid [] recorded) configured citation
          (if any (concerns rid) unsettled then fail else pass) attestation)
        gates)

unfoldable pub decisions_gate : List DecisionView → GateStatus
decisions_gate [] = pass
decisions_gate _ = fail

unfoldable pub configured_turn_gates : List Text → List Text
configured_turn_gates config_gates = filter (λ gate. member gate config_gates) turn_gates

unfoldable pub blocking_gates : List Text → List Text
unfolding configured_turn_gates
blocking_gates config_gates =
    filter (λ gate. member gate (configured_turn_gates config_gates)) blocking_turn_gates

-- `units` and `config_gates` are of the run's task, and `revisions` the decisions that the
-- operative drafts require to be revised.
unfoldable pub build_ledger :
    {Usd : Type 0}
    → List Text
    → List Text
    → List (JournalEvent Usd)
    → RunState Usd
    → Dict Text Text
    → List DecisionView
    → List Text
    → AttestationState
    → GateLedgerDoc
unfolding turn_gate_status ledger_rows export_ready attestation_gate is_unsettled decisions_gate
    blocking_gates
build_ledger units config_gates events state operative_turn decisions revisions attestation =
    let status = turn_gate_status events state operative_turn in
    let superseded = status.1.0 in
    let citation = status.1.1 in
    let unsettled = filter (is_unsettled revisions) decisions in
    let attested = attestation_gate attestation in
    let rows =
      ledger_rows (configured_turn_gates config_gates) status.0 citation unsettled attested units
        [] in
    let verdict =
      export_ready rows (decisions_gate unsettled) attested citation
        (blocking_gates config_gates) in
    record {
      export_ready_ = verdict.0;
      blockers = verdict.1 ++ map (λ id. codes "decision_revision:" ++ id) revisions;
      overall =
          (codes "citations", citation)
          ∷ (codes "decisions", decisions_gate unsettled)
          ∷ (codes "attestation", attested)
          ∷ [];
      gates = rows;
      superseded = superseded;
    }
