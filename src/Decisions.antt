-- ===== src/Decisions.antt =====
-- models/decisions.py and decisions.py: the attorney-gate decisions of a run, and their log. The
-- log is the list of its records, oldest first, with the sidecar files by decision id.
pub mod Proposals
pub mod Derive
pub mod Log
pub mod Derived
pub mod Resolved
pub mod Settled
mod Reached
mod Examples
pub mod Resolve
use mootloop.Base.{
  ℕ, ◌≡◌, ◌↔◌, Bool, true, false, ◌&&◌, Option, none, some, List, [], ◌∷◌, ◌++◌, map, Text, codes,
  text_eq, text_eq_iff, text_eq_key, ◌==◌, Eq, nat_eq, nat_eq_iff, if◌then◌else◌, filter, padded,
  arith,
}
use mootloop.Base.Dict.{Dict, lookup, contains, insert}

pub data DecisionKind : Type 0 where
  objection_posture privilege_call rfa_disposition unsupported_assertion : DecisionKind

abbrev pub kind_index : DecisionKind → ℕ
kind_index objection_posture = 0
kind_index privilege_call = 1
kind_index rfa_disposition = 2
kind_index unsupported_assertion = 3

-- `GATE_NAME_FOR_KIND`
unfoldable pub gate_name : DecisionKind → Text
gate_name objection_posture = codes "objection_posture"
gate_name privilege_call = codes "privilege"
gate_name rfa_disposition = codes "rfa_disposition"
gate_name unsupported_assertion = codes "unsupported_assertion"

-- `kind.value`
unfoldable pub kind_value : DecisionKind → Text
kind_value objection_posture = codes "objection_posture"
kind_value privilege_call = codes "privilege_call"
kind_value rfa_disposition = codes "rfa_disposition"
kind_value unsupported_assertion = codes "unsupported_assertion"

pub data DecisionStatus : Type 0 where
  undecided approved modified denied : DecisionStatus

pub data ResolutionAction : Type 0 where
  approve modify deny : ResolutionAction

pub data ResolutionSource : Type 0 where
  human policy : ResolutionSource

pub record DecisionOption : Type 0 where
  pub key : Text
  pub label : Text
  pub consequence : Text

pub record DecisionProposal : Type 0 where
  pub summary : Text
  pub reasoning : Text
  pub options : List DecisionOption
  pub recommended : Text

pub record DecisionResolution : Type 0 where
  pub action : ResolutionAction
  pub chosen_key : Option Text
  pub note : Text
  pub decided_by : Text
  pub source : ResolutionSource
  pub decided_at : Text

pub record Decision : Type 0 where
  pub decision_id : Text
  pub run_id : Text
  pub request_id : Option Text
  pub kind : DecisionKind
  pub proposal : DecisionProposal
  pub status : DecisionStatus
  pub resolution : Option DecisionResolution

-- `STATUS_FOR_ACTION`
unfoldable pub status_for_action : ResolutionAction → DecisionStatus
status_for_action approve = approved
status_for_action modify = modified
status_for_action deny = denied

unfoldable pub is_open : DecisionStatus → Bool
is_open undecided = true
is_open _ = false

-- `f"dec-{run_id}-{seq:04d}"`
unfoldable pub make_decision_id : Text → ℕ → Text
make_decision_id run_id seq = codes "dec-" ++ (run_id ++ (codes "-" ++ padded seq))

abbrev pub Key : Type 0
Key = DecisionKind × Text

pub key_eq_iff :
    (j k : Key) → (nat_eq (kind_index j.0) (kind_index k.0) && text_eq j.1 k.1 ≡ true) ↔ (j ≡ k)
key_eq_iff j k = ground (arith, text_eq_iff j.1 k.1)

instance abbrev pub key_eq : Eq Key
key_eq = record {
  test = λ j k. nat_eq (kind_index j.0) (kind_index k.0) && text_eq j.1 k.1;
  test_iff = key_eq_iff;
}

abbrev pub dedupe_key : Decision → Key
dedupe_key d = (d.kind, d.proposal.summary)

pub record DecisionStore : Type 0 where
  pub records : List Decision
  pub sidecars : Dict Text Decision

-- `folded`: the latest record of each id, in the order of the first ones.
unfoldable pub folded_from : Dict Text Decision → List Decision → Dict Text Decision
folded_from state [] = state
folded_from state (d ∷ records) = folded_from (insert d.decision_id d state) records

unfoldable pub folded : DecisionStore → Dict Text Decision
unfolding folded_from
folded store = folded_from [] store.records

unfoldable pub list_all : DecisionStore → List Decision
unfolding folded
list_all store = map (λ e. e.1) (folded store)

unfoldable pub list_open : DecisionStore → List Decision
unfolding list_all
list_open store = filter (λ d. is_open d.status) (list_all store)

unfoldable pub get : Text → DecisionStore → Option Decision
unfolding folded
get decision_id store = lookup decision_id (folded store)

-- `DecisionStore.append`; the sidecar is written once.
unfoldable pub append : Decision → DecisionStore → DecisionStore
append d store = record {
  records = store.records ++ d ∷ [];
  sidecars =
      if contains d.decision_id store.sidecars
      then store.sidecars
      else insert d.decision_id d store.sidecars;
}

pub data GateMode : Type 0 where
  hard_human policy_delegable : GateMode

pub record MatterGate : Type 0 where
  pub name : Text
  pub mode : GateMode

-- `_HARD_DEFAULT`
unfoldable pub hard_default : DecisionKind → GateMode
hard_default privilege_call = hard_human
hard_default rfa_disposition = hard_human
hard_default _ = policy_delegable

-- `gate_mode_for`: the first gate of the kind's name decides.
unfoldable pub gate_mode_for : List MatterGate → DecisionKind → GateMode
unfolding gate_name hard_default
gate_mode_for [] kind = hard_default kind
gate_mode_for (gate ∷ gates) kind =
    let rest = gate_mode_for gates kind in if gate.name == gate_name kind then gate.mode else rest

unfoldable pub same_mode : GateMode → GateMode → Bool
same_mode hard_human hard_human = true
same_mode policy_delegable policy_delegable = true
same_mode _ _ = false

unfoldable pub open_by_taxonomy : DecisionStore → List MatterGate → GateMode → List Decision
unfolding list_open gate_mode_for same_mode
open_by_taxonomy store gates mode =
    filter (λ d. same_mode (gate_mode_for gates d.kind) mode) (list_open store)
