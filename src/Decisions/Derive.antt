-- ===== src/Decisions/Derive.antt =====
-- decisions.py, `derive_drafts_and_store`: the gates of recorded drafts, each stored once.
use mootloop.Base.{
  ℕ, suc, Bool, none, some, List, [], ◌∷◌, ◌++◌, map, Text, codes, if◌then◌else◌, member, length,
}
use mootloop.Turn.{TurnSpec, DraftOutput}
use mootloop.Stages.Context.{code_from_request_id}
use mootloop.Decisions.{
  Decision, undecided, DecisionStore, list_all, append, make_decision_id, Key, key_eq, dedupe_key,
}
use mootloop.Decisions.Proposals.{Proposed, request_of_spec, proposals_for_draft}

-- The loop's variables.
pub record Derivation : Type 0 where
  pub store : DecisionStore
  pub seen : List Key
  pub seq : ℕ
  pub created : List Decision

abbrev pub proposed_key : Proposed → Key
proposed_key p = (p.kind, p.proposal.summary)

-- `code_from_request_id(str(spec.request_id)) if spec.request_id else "all"`
unfoldable pub code_of_spec : TurnSpec → Text
unfolding code_from_request_id request_of_spec
code_of_spec spec = elim (request_of_spec spec) [
  | none ↦ codes "all"
  | some request_id ↦ code_from_request_id request_id
]

module _ (run_id : Text) where
  unfoldable pub decision_of : ℕ → Proposed → Decision
  unfolding make_decision_id
  decision_of seq p = record {
    decision_id = make_decision_id run_id seq;
    run_id = run_id;
    request_id = p.request_id;
    kind = p.kind;
    proposal = p.proposal;
    status = undecided;
    resolution = none;
  }

  -- The body of the inner loop, where the key is new.
  unfoldable pub store_new : Proposed → Derivation → Derivation
  unfolding decision_of append
  store_new p at = record {
    store = append (decision_of at.seq p) at.store;
    seen = at.seen ++ proposed_key p ∷ [];
    seq = suc at.seq;
    created = at.created ++ decision_of at.seq p ∷ [];
  }

  unfoldable pub propose : Proposed → Derivation → Derivation
  unfolding store_new
  propose p at = if member (proposed_key p) at.seen then at else store_new p at

  unfoldable pub propose_all : List Proposed → Derivation → Derivation
  unfolding propose
  propose_all [] at = at
  propose_all (p ∷ ps) at = propose_all ps (propose p at)

-- The variables as the loop starts.
unfoldable pub begin : DecisionStore → Derivation
unfolding list_all
begin store = record {
  store = store;
  seen = map dedupe_key (list_all store);
  seq = length (list_all store);
  created = [];
}

module _ (upper repr : Text → Text) (document : Bool) where
  abbrev pub draft_proposals : TurnSpec × DraftOutput → List Proposed
  draft_proposals (spec, draft) =
      proposals_for_draft upper repr spec (code_of_spec spec) document draft

  -- The outer loop.
  unfoldable pub derive_each : Text → List (TurnSpec × DraftOutput) → Derivation → Derivation
  unfolding propose_all proposals_for_draft code_of_spec
  derive_each run_id [] at = at
  derive_each run_id (draft ∷ drafts) at =
      derive_each run_id drafts (propose_all run_id (draft_proposals draft) at)

  unfoldable pub derive_drafts_and_store :
      Text → DecisionStore → List (TurnSpec × DraftOutput) → Derivation
  unfolding begin derive_each
  derive_drafts_and_store run_id store drafts = derive_each run_id drafts (begin store)

  unfoldable pub derive_and_store : Text → DecisionStore → TurnSpec → DraftOutput → Derivation
  unfolding derive_drafts_and_store
  derive_and_store run_id store spec draft =
      derive_drafts_and_store run_id store ((spec, draft) ∷ [])
