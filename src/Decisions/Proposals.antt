-- ===== src/Decisions/Proposals.antt =====
-- decisions.py, `_proposals_for_draft`: the proposals that one draft turn implies. `str.upper` and
-- `repr` are the library's, and are arguments.
use mootloop.Base.{
  Bool, Option, none, some, List, [], ◌∷◌, ◌++◌, map, Text, codes, text_eq_key, ◌==◌, if◌then◌else◌,
  filter,
}
use mootloop.Turn.{
  Objection, DraftOutput, RfaDisposition, admit, deny, qualify, lack_of_knowledge, TurnSpec,
}
use mootloop.Decisions.{
  DecisionKind, objection_posture, privilege_call, rfa_disposition, unsupported_assertion,
  DecisionOption, DecisionProposal,
}

-- A kind, a request id and a proposal.
pub record Proposed : Type 0 where
  pub kind : DecisionKind
  pub request_id : Option Text
  pub proposal : DecisionProposal

-- `_opt`
unfoldable pub opt : Text → Text → Text → DecisionOption
opt key label consequence = record { key = key; label = label; consequence = consequence }

-- The enumeration's values.
unfoldable pub disposition_value : RfaDisposition → Text
disposition_value admit = codes "admit"
disposition_value deny = codes "deny"
disposition_value qualify = codes "qualify"
disposition_value lack_of_knowledge = codes "lack_of_knowledge"

-- `request_id or spec.turn_id`
unfoldable pub subject : TurnSpec → Text
subject spec = elim spec.request_id [
  | none ↦ spec.turn_id
  | some [] ↦ spec.turn_id
  | some (c ∷ s) ↦ c ∷ s
]

-- `str(spec.request_id) if spec.request_id else None`
unfoldable pub request_of_spec : TurnSpec → Option Text
request_of_spec spec = elim spec.request_id [
  | none ↦ none
  | some [] ↦ none
  | some (c ∷ s) ↦ some (c ∷ s)
]

module _ (upper repr : Text → Text) (spec : TurnSpec) (code : Text) where
  unfoldable pub posture : DraftOutput → Proposed
  unfolding opt
  posture draft = record {
    kind = objection_posture;
    request_id = none;
    proposal = record {
      summary = codes "Objection posture for " ++ (upper code ++ codes " requests");
      reasoning =
          codes "Confirm the standing objection posture for this request type "
          ++ codes "before the responses are served.";
      options =
          opt (codes "assert") (codes "Assert objections")
            (codes "Objections are preserved as drafted.")
          ∷ opt (codes "narrow") (codes "Narrow objections")
              (codes "Keep only the strongest objections.")
          ∷ opt (codes "waive") (codes "Waive objections") (codes "Answer fully without objecting.")
          ∷ [];
      recommended = elim draft.objections [ [] ↦ codes "waive" | o ∷ os ↦ codes "assert" ];
    };
  }

  unfoldable pub unsupported : Text → Proposed
  unfolding opt subject request_of_spec
  unsupported item = record {
    kind = unsupported_assertion;
    request_id = request_of_spec spec;
    proposal = record {
      summary = codes "Unsupported assertion in " ++ (subject spec ++ (codes ": " ++ item));
      reasoning =
          codes "The associate could not ground this assertion: "
          ++ (repr item ++ codes ". Decide how to resolve it before service.");
      options =
          opt (codes "obtain_support") (codes "Obtain support")
            (codes "Gather a grounding fact/source.")
          ∷ opt (codes "strike") (codes "Strike the assertion")
              (codes "Remove it from the response.")
          ∷ opt (codes "attest_anyway") (codes "Attest anyway")
              (codes "Keep it on attorney judgment.")
          ∷ [];
      recommended = codes "obtain_support";
    };
  }

  unfoldable pub privilege : Objection → Proposed
  unfolding opt subject request_of_spec
  privilege objection = record {
    kind = privilege_call;
    request_id = request_of_spec spec;
    proposal = record {
      summary = codes "Privilege call in " ++ (subject spec ++ (codes ": " ++ objection.text));
      reasoning =
          codes "A privilege objection was raised; every privilege call is a "
          ++ codes "human-by-design gate.";
      options =
          opt (codes "withhold") (codes "Withhold") (codes "Assert privilege and log the item.")
          ∷ opt (codes "log_only") (codes "Log only")
              (codes "Produce but note on the privilege log.")
          ∷ opt (codes "produce") (codes "Produce") (codes "Waive privilege and produce.")
          ∷ [];
      recommended = codes "withhold";
    };
  }

  unfoldable pub disposition : RfaDisposition → Proposed
  unfolding opt subject request_of_spec disposition_value
  disposition proposed = record {
    kind = rfa_disposition;
    request_id = request_of_spec spec;
    proposal = record {
      summary = codes "RFA disposition for " ++ subject spec;
      reasoning =
          codes "Every Rule 36 admit/deny/qualify/lack-of-knowledge is an attorney "
          ++ codes "gate; a non-conforming answer risks being deemed admitted.";
      options =
          opt (codes "admit") (codes "Admit") (codes "Conclusively established.")
          ∷ opt (codes "deny") (codes "Deny") (codes "Denial must fairly meet the substance.")
          ∷ opt (codes "qualify") (codes "Qualify") (codes "Admit in part, deny in part.")
          ∷ opt (codes "lack_of_knowledge") (codes "Lack of knowledge")
              (codes "Requires the reasonable-inquiry recital.")
          ∷ [];
      recommended = disposition_value proposed;
    };
  }

  unfoldable pub dispositions : Option RfaDisposition → List Proposed
  dispositions none = []
  dispositions (some proposed) = if code == codes "rfa" then disposition proposed ∷ [] else []

  unfoldable pub proposals_for_draft : Bool → DraftOutput → List Proposed
  unfolding posture unsupported privilege dispositions
  proposals_for_draft document draft =
      (if document then [] else posture draft ∷ [])
      ++ (map unsupported draft.attorney_gate_items
          ++ (map privilege (filter (λ o. o.basis == codes "privilege") draft.objections)
              ++ dispositions draft.rfa_disposition))
