-- ===== src/Orchestrator/DecideExamples.antt =====
-- A decision of an unfinished run, resolved and finalized, and the same call again.
use mootloop.Base.{
  ℕ, ◌≡◌, refl, false, none, some, [], ◌∷◌, Text, codes, Result, ok, text_eq, padded, Ensures,
}
use mootloop.Base.Dict.{lookup, insert}
use mootloop.Turn.{associate, TurnSpec, DraftOutput, Schema, RfaDisposition}
use mootloop.Decisions.{Decision, approve, deny, approved, rfa_disposition, human, get, is_open}
use mootloop.Decisions.Derive.{derive_drafts_and_store}
use mootloop.Decisions.Derived.{derive_drafts_and_store-IsLog}
use mootloop.Decisions.Log.{IsLog, empty-IsLog, no_decisions}
use mootloop.Decisions.Proposals.{disposition}
use mootloop.Decisions.Resolve.{Desk, resolve_on_desk}
use mootloop.Decisions.Resolved.{resolve_on_desk-IsLog}
use mootloop.Orchestrator.{RunFiles}
use mootloop.Orchestrator.Decide.{desk_of, on_desk, finalized, resolve}
use mootloop.Orchestrator.Examples.{lib, ctx, files_of}
use mootloop.Orchestrator.Resolves.{resolve-closed, resolve-refinalizes}

abbrev spec : TurnSpec
spec = record {
  turn_id = codes "t1";
  run_id = codes "r";
  persona = associate;
  request_id = some (codes "RFA-1");
  stage = codes "associate_draft";
  prompt_context = [];
  output_schema_name = Schema.draft;
  attempt = 0;
  model = none;
}

abbrev draft : DraftOutput
draft = record {
  response_text = codes "Denied.";
  objections = [];
  candidate_citations = [];
  fact_ids_used = [];
  attorney_gate_items = codes "date" ∷ [];
  rfa_disposition = some RfaDisposition.deny;
  self_assessment = [];
}

abbrev same : Text → Text
same s = s

-- A run that awaits its decisions.
abbrev waiting : RunFiles ℕ
waiting = record (files_of []) {
  store =
      (derive_drafts_and_store same same false (codes "r") no_decisions ((spec, draft) ∷ [])).store;
}

waiting-IsLog : IsLog (codes "r") waiting.store
waiting-IsLog =
    derive_drafts_and_store-IsLog same same false (codes "r") ((spec, draft) ∷ []) no_decisions
      (empty-IsLog (codes "r"))

abbrev outcome : Desk ℕ × Result Decision
outcome =
    resolve_on_desk approve none (codes "ok") (codes "jd") human (desk_of waiting)
      (codes "dec-r-0002") (codes "now")

abbrev decided : Decision
decided = record {
  decision_id = codes "dec-r-0002";
  run_id = codes "r";
  request_id = some (codes "RFA-1");
  kind = rfa_disposition;
  proposal = (disposition same same spec (codes "rfa") RfaDisposition.deny).proposal;
  status = approved;
  resolution = some (record {
    action = approve;
    chosen_key = some (codes "deny");
    note = codes "ok";
    decided_by = codes "jd";
    source = human;
    decided_at = codes "now";
  });
}

returned : outcome.1 ≡ ok decided
unfolding derive_drafts_and_store resolve_on_desk disposition lookup text_eq insert padded
returned = refl

resolve-refinalizes_example :
    let at =
      (resolve lib ctx approve none
        (codes "ok")
        (codes "jd")
        human
        (codes "dec-r-0002")
        (codes "now")
        waiting).0 in
    (get (codes "dec-r-0002") at.store ≡ some decided)
    × (is_open decided.status ≡ false)
    × (resolve lib ctx approve none
          (codes "ok")
          (codes "jd")
          human
          (codes "dec-r-0002")
          (codes "later")
          at
        ≡ finalized lib ctx decided at)
resolve-refinalizes_example =
    resolve-refinalizes lib ctx approve none (codes "ok") (codes "jd") human (codes "dec-r-0002")
      (codes "now") (codes "later") waiting decided waiting-IsLog returned

decided_closed : is_open decided.status ≡ false
unfolding is_open
decided_closed = refl

abbrev settled : RunFiles ℕ
settled = on_desk outcome.0 waiting

settled-IsLog : IsLog (codes "r") settled.store
settled-IsLog =
    resolve_on_desk-IsLog approve none (codes "ok") (codes "jd") human (desk_of waiting) (codes "r")
      (codes "dec-r-0002") (codes "now") waiting-IsLog

settled_found : get (codes "dec-r-0002") settled.store ≡ some decided
unfolding derive_drafts_and_store resolve_on_desk disposition lookup text_eq insert padded get
settled_found = refl

resolve-closed_example :
    let again =
      resolve lib ctx deny none
        (codes "no")
        (codes "jd")
        human
        (codes "dec-r-0002")
        (codes "later")
        settled in
    (get (codes "dec-r-0002") again.0.store ≡ some decided) × Ensures (λ v. v ≡ decided) again.1
resolve-closed_example =
    resolve-closed lib ctx deny none (codes "no") (codes "jd") human (codes "dec-r-0002")
      (codes "later") settled decided settled-IsLog settled_found decided_closed
