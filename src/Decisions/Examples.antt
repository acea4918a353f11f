-- ===== src/Decisions/Examples.antt =====
-- A request for admission: its gates derived from the draft, and one of them resolved.
use mootloop.Base.{
  ◌≡◌, refl, Bool, false, none, some, [], ◌∷◌, map, Text, codes, Result, ok, inl, text_eq, padded,
}
use mootloop.Turn.{associate, TurnSpec, DraftOutput, Schema, RfaDisposition}
use mootloop.Decisions.{Decision, approve, approved, rfa_disposition, human}
use mootloop.Decisions.Derive.{Derivation, derive_drafts_and_store}
use mootloop.Decisions.Derived.{derive_drafts_and_store-idle}
use mootloop.Decisions.Resolve.{Desk, resolve_on_desk}
use mootloop.Decisions.Log.{IsLog, empty-IsLog, no_decisions}
use mootloop.Decisions.Reached.{Reached, begun, derived, resolved, Reached-IsLog}
use mootloop.Decisions.Proposals.{disposition}
use mootloop.Base.Dict.{lookup, insert}

abbrev spec : TurnSpec
spec = record {
  turn_id = codes "t1";
  run_id = codes "r";
  persona = associate;
  request_id = some (codes "RFA-1");
  stage = codes "associate_draft";
  prompt_context = [];
  output_schema_name = Schema.draft;
  attempt = 0;
  model = none;
}

abbrev draft : DraftOutput
draft = record {
  response_text = codes "Denied.";
  objections = [];
  candidate_citations = [];
  fact_ids_used = [];
  attorney_gate_items = codes "date" ∷ [];
  rfa_disposition = some RfaDisposition.deny;
  self_assessment = [];
}

abbrev same : Text → Text
same s = s

abbrev first : Derivation
first = derive_drafts_and_store same same false (codes "r") no_decisions ((spec, draft) ∷ [])

three :
    map (λ d. d.decision_id) first.created
    ≡ codes "dec-r-0000" ∷ codes "dec-r-0001" ∷ codes "dec-r-0002" ∷ []
unfolding derive_drafts_and_store text_eq lookup disposition padded
three = refl

derive_drafts_and_store-idle_example :
    let second =
      derive_drafts_and_store same same false (codes "r") first.store ((spec, draft) ∷ []) in
    (second.store ≡ first.store) × (second.created ≡ [])
derive_drafts_and_store-idle_example =
    derive_drafts_and_store-idle same same false (codes "r") ((spec, draft) ∷ [])
      ((spec, draft) ∷ []) no_decisions (empty-IsLog (codes "r")) (inl refl, _)

abbrev desk : Desk Bool
desk = record { store = first.store; events = [] }

abbrev desk-Reached : Reached same same (codes "r") desk
desk-Reached =
    derived {desk = record { store = no_decisions; events = [] }} false ((spec, draft) ∷ [])
      (begun [])

abbrev outcome : Desk Bool × Result Decision
outcome =
    resolve_on_desk approve none (codes "ok") (codes "jd") human desk (codes "dec-r-0002")
      (codes "now")

abbrev decided : Decision
decided = record {
  decision_id = codes "dec-r-0002";
  run_id = codes "r";
  request_id = some (codes "RFA-1");
  kind = rfa_disposition;
  proposal = (disposition same same spec (codes "rfa") RfaDisposition.deny).proposal;
  status = approved;
  resolution = some (record {
    action = approve;
    chosen_key = some (codes "deny");
    note = codes "ok";
    decided_by = codes "jd";
    source = human;
    decided_at = codes "now";
  });
}

returned : outcome.1 ≡ ok decided
unfolding derive_drafts_and_store resolve_on_desk disposition lookup text_eq insert padded
returned = refl

Reached-IsLog_example : IsLog (codes "r") outcome.0.store
Reached-IsLog_example = Reached-IsLog same same (codes "r") (
    resolved {desk = desk} approve none (codes "ok") (codes "jd") human (codes "dec-r-0002")
      (codes "now") desk-Reached)
