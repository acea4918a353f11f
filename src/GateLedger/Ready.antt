-- ===== src/GateLedger/Ready.antt =====
-- When a run may export: `_export_ready`, and `build_ledger`, which calls it.
use mootloop.Base.{
  ◌≡◌, refl, ◌≢◌, ◌↔◌, true, false, ◌&&◌, not, some, List, [], ◌∷◌, ◌++◌, Text, codes, text_eq_key,
  member, if◌then◌else◌, Bool-cases, inl, inr, arith, All, filter,
}
use mootloop.Base.Dict.{Dict, get_or}
use mootloop.Turn.{GateStatus, pass, fail, pending}
use mootloop.Journal.Events.{JournalEvent, RunState}
use mootloop.GateLedger.{
  is_blocking, Row, Rows, block_if, block_row, block_rows, is_empty, export_ready, AttestationState,
  valid, invalidated, missing, attestation_gate, DecisionView, decisions_gate, is_unsettled,
  blocking_gates, turn_gate_status, build_ledger, citation_gate_name,
}
use mootloop.GateLedger.Recorded.{last, verdicts, any_turn, citation_status-pass}

-- Every one of the gates is recorded in the row, as passed.
abbrev pub IsCleared : List Text → Row → Type 0
IsCleared gates row = All (λ gate. get_or gate pending row ≡ pass) gates

abbrev pub AreCleared : List Text → Rows → Type 0
AreCleared gates rows = All (λ row. IsCleared gates row.1) rows

is_blocking-pass : (s : GateStatus) → is_blocking s ≡ false → s ≡ pass
unfolding is_blocking
is_blocking-pass pass h = refl
is_blocking-pass fail h = ground arith
is_blocking-pass pending h = ground arith

append_one-none : {A : Type 0} (xs : List A) (x : A) → xs ++ x ∷ [] ≢ []
append_one-none [] x h = ground arith
append_one-none (y ∷ xs) x h = ground arith

block_if-none :
    (s : GateStatus) (name : Text) (bs : List Text)
    → block_if s name bs ≡ []
    → (s ≡ pass) × (bs ≡ [])
unfolding block_if is_blocking
block_if-none pass name bs h = (refl, h)
block_if-none fail name bs h = elim (append_one-none bs name h) [ ]
block_if-none pending name bs h = elim (append_one-none bs name h) [ ]

block_row-cleared :
    (gates : List Text) (row : Row) (bs : List Text)
    → IsCleared gates row
    → block_row row gates bs ≡ bs
unfolding block_row is_blocking
block_row-cleared [] row bs h = refl
block_row-cleared (gate ∷ gates) row bs h = rw (h.0) (block_row-cleared gates row bs h.1)

block_row-none :
    (gates : List Text) (row : Row) (bs : List Text)
    → block_row row gates bs ≡ []
    → IsCleared gates row × (bs ≡ [])
unfolding block_row
block_row-none [] row bs h = (_, h)
block_row-none (gate ∷ gates) row bs h =
    let status = get_or gate pending row in
    let next = if is_blocking status && not (member gate bs) then bs ++ gate ∷ [] else bs in
    let ih = block_row-none gates row next h in
    elim (Bool-cases (is_blocking status && not (member gate bs))) [
      | inl blocked ↦
          let grown : bs ++ gate ∷ [] ≡ [] = rw blocked at ih.1 in
          elim (append_one-none bs gate grown) [ ]
      | inr clear ↦
          let empty : bs ≡ [] = rw clear at ih.1 in
          let free : is_blocking status && true ≡ false = rw empty at clear in
          ((is_blocking-pass status (ground arith), ih.0), empty)
    ]

pub block_rows-cleared :
    (rows : Rows) (gates bs : List Text) → AreCleared gates rows → block_rows rows gates bs ≡ bs
unfolding block_rows
block_rows-cleared [] gates bs h = refl
block_rows-cleared ((rid, row) ∷ rows) gates bs h =
    rw (block_row-cleared gates row bs h.0) (block_rows-cleared rows gates bs h.1)

pub block_rows-none :
    (rows : Rows) (gates bs : List Text)
    → block_rows rows gates bs ≡ []
    → AreCleared gates rows × (bs ≡ [])
unfolding block_rows
block_rows-none [] gates bs h = (_, h)
block_rows-none ((rid, row) ∷ rows) gates bs h =
    let later = block_rows-none rows gates (block_row row gates bs) h in
    let here = block_row-none gates row bs later.1 in ((here.0, later.0), here.1)

is_empty-none : (bs : List Text) → is_empty bs ≡ true → bs ≡ []
unfolding is_empty
is_empty-none [] h = refl
is_empty-none (b ∷ bs) h = ground arith

-- The run is ready exactly when its three gates have passed, and every row has every blocking gate
-- recorded as passed: a gate that is pending or absent blocks as a failed one does.
pub export_ready-AreCleared :
    (rows : Rows) (decisions attestation citation : GateStatus) (gates : List Text)
    → ((export_ready rows decisions attestation citation gates).0 ≡ true)
      ↔ ((decisions ≡ pass) × (attestation ≡ pass) × (citation ≡ pass) × AreCleared gates rows)
unfolding export_ready block_if is_blocking is_empty
export_ready-AreCleared rows decisions attestation citation gates = (
  λ ready.
      let all_rows = block_rows-none rows gates _ (is_empty-none _ ready) in
      let cited = block_if-none citation (codes "citations") _ all_rows.1 in
      let attested = block_if-none attestation (codes "attestation") _ cited.1 in
      let decided = block_if-none decisions (codes "decisions") [] attested.1 in
      (decided.0, attested.0, cited.0, all_rows.0),
  λ h.
      let (decided, attested, cited, cleared) = h in
      rw (decided, attested, cited) (rw (block_rows-cleared rows gates [] cleared)),
)

attestation_gate-pass : (a : AttestationState) → (attestation_gate a ≡ pass) ↔ (a ≡ valid)
unfolding attestation_gate
attestation_gate-pass valid = (λ _. refl, λ _. refl)
attestation_gate-pass invalidated = ground arith
attestation_gate-pass missing = ground arith

decisions_gate-pass : (ds : List DecisionView) → (decisions_gate ds ≡ pass) ↔ (ds ≡ [])
unfolding decisions_gate
decisions_gate-pass [] = (λ _. refl, λ _. refl)
decisions_gate-pass (d ∷ ds) = ground arith

-- The ledger of a run says that it may export exactly when no decision is open or requires a
-- revision, the attestation is valid, the journal has a citation gate and the last one passed, and
-- every row that the ledger shows has each configured blocking gate as passed.
pub build_ledger-AreCleared :
    {Usd : Type 0} (units config_gates : List Text) (events : List (JournalEvent Usd))
    (state : RunState Usd) (operative_turn : Dict Text Text) (decisions : List DecisionView)
    (revisions : List Text) (attestation : AttestationState)
    → let doc =
        build_ledger units config_gates events state operative_turn decisions revisions
          attestation in
      (doc.export_ready_ ≡ true) ↔ (
        (filter (is_unsettled revisions) decisions ≡ [])
        × (attestation ≡ valid)
        × (last (verdicts any_turn citation_gate_name events) ≡ some pass)
        × AreCleared (blocking_gates config_gates) doc.gates)
unfolding build_ledger turn_gate_status
build_ledger-AreCleared units config_gates events state operative_turn decisions revisions
      attestation =
    let doc =
      build_ledger units config_gates events state operative_turn decisions revisions attestation in
    let unsettled = filter (is_unsettled revisions) decisions in
    let attested = attestation_gate-pass attestation in
    let decided = decisions_gate-pass unsettled in
    let cited = citation_status-pass state events in
    let ready =
      export_ready-AreCleared doc.gates (decisions_gate unsettled) (attestation_gate attestation)
        (turn_gate_status events state operative_turn).1.1 (blocking_gates config_gates) in
    (
      λ h. let (a, b, c, d) = ready.0 h in (decided.0 a, attested.0 b, cited.0 c, d),
      λ h. let (a, b, c, d) = h in ready.1 (decided.1 a, attested.1 b, cited.1 c, d),
    )
