-- ===== src/Gates/Fabrication.antt =====
-- gates/fabrication.py: the gate that anchors the facts of a draft. `FactOps` has the matches of
-- its regular expressions and its two substitutions of white space.
use mootloop.Base.{
  ℕ, suc, ◌&&◌, not, none, some, List, [], ◌∷◌, ◌++◌, map, Text, codes, text_eq_key, filter, member,
  decimal,
}
use mootloop.Base.Dict.{Dict, lookup, contains, insert}
use mootloop.Turn.{Objection, DraftOutput, GateFinding, GateResult, pass, fail, pending}
use mootloop.Completeness.{TextOps, contains_text}
use mootloop.Gates.Degeneracy.{found_if, plain_finding, located, has_any}

pub record FactOps : Type 0 where
  pub money : Text → List Text
  pub dates : Text → List Text
  pub quotes : Text → List Text
  pub squash : Text → Text
  pub no_space : Text → Text

-- models/facts.py, with the quotes of the provenance.
pub record Fact : Type 0 where
  pub fact_id : Text
  pub statement : Text
  pub quotes : List Text

pub record DocumentEvidence : Type 0 where
  pub source_id : Text
  pub text : Text

unfoldable pub by_id : List Fact → Dict Text Fact → Dict Text Fact
by_id [] found = found
by_id (f ∷ facts) found = by_id facts (insert f.fact_id f found)

-- `[by_id[fid] for fid in ids if fid in by_id]`
unfoldable pub cited_facts : Dict Text Fact → List Text → List Fact
cited_facts facts [] = []
cited_facts facts (fid ∷ ids) = elim (lookup fid facts) [
  | none ↦ cited_facts facts ids
  | some f ↦ f ∷ cited_facts facts ids
]

unfoldable pub served_objections : ℕ → List Objection → List (Text × Text)
served_objections idx [] = []
served_objections idx (o ∷ objections) =
    (codes "objections[" ++ (decimal idx ++ codes "].text"), o.text)
    ∷ served_objections (suc idx) objections

-- `_served_text`
unfoldable pub served_text : DraftOutput → List (Text × Text)
unfolding served_objections
served_text draft =
    (codes "response_text", draft.response_text) ∷ served_objections 0 draft.objections

-- `" ".join(parts)`
unfoldable pub joined : List Text → Text
joined [] = []
joined (p ∷ []) = p
joined (p ∷ q ∷ parts) = p ++ (codes " " ++ joined (q ∷ parts))

unfoldable pub supporting : List Fact → List Text
supporting [] = []
supporting (f ∷ facts) = f.statement ∷ f.quotes ++ supporting facts

module _ (lib : TextOps) (facts_lib : FactOps) where
  unfoldable pub unknown_facts : Dict Text Fact → List Text → List Text → List GateFinding
  unfolding found_if
  unknown_facts facts sources [] = []
  unknown_facts facts sources (fid ∷ ids) =
      found_if (not (contains fid facts) && not (member fid sources))
        (located (codes "unknown_fact") (codes "cites unknown fact_id " ++ lib.repr fid) fid)
        (unknown_facts facts sources ids)

  -- The matches of one kind that the supporting text lacks.
  unfoldable pub unsupported_matches : Text → (Text → GateFinding) → List Text → List GateFinding
  unfolding contains_text found_if
  unsupported_matches supported finding [] = []
  unsupported_matches supported finding (match ∷ matches) =
      found_if (not (contains_text (facts_lib.no_space match) supported)) (finding match)
        (unsupported_matches supported finding matches)

  -- The loop over the served spans.
  unfoldable pub span_findings : Text → List (Text × Text) → List GateFinding
  unfolding unsupported_matches
  span_findings supported [] = []
  span_findings supported ((locator, text) ∷ spans) =
      unsupported_matches supported
        (λ amount.
          located (codes "unsupported_amount")
            (codes "dollar amount "
              ++ (lib.repr (lib.strip amount) ++ codes " traces to no cited fact/corpus"))
            locator)
        (facts_lib.money text)
      ++ (unsupported_matches supported
            (λ date.
              located (codes "unsupported_date")
                (codes "date "
                  ++ (lib.repr date ++ codes " traces to no cited fact or corpus text"))
                locator)
            (map facts_lib.squash (facts_lib.dates text))
          ++ (unsupported_matches supported
                (λ span.
                  located (codes "unsupported_quote")
                    (codes "quoted span "
                      ++ (lib.repr span ++ codes " appears in no cited fact or corpus text"))
                    locator)
                (map facts_lib.squash (facts_lib.quotes text))
              ++ span_findings supported spans))

  unfoldable pub supported_text : Dict Text Fact → Text → List DocumentEvidence → DraftOutput → Text
  unfolding cited_facts supporting joined
  supported_text facts corpus_text evidence draft = facts_lib.no_space (
      facts_lib.squash (
        joined (
          corpus_text
            ∷ map (λ e. e.text) (filter (λ e. member e.source_id draft.fact_ids_used) evidence)
          ++ supporting (cited_facts facts draft.fact_ids_used))))

  unfoldable pub fabrication_findings :
      List Fact → Text → List DocumentEvidence → DraftOutput → List GateFinding
  unfolding by_id unknown_facts found_if span_findings supported_text served_text
  fabrication_findings facts corpus_text evidence draft =
      let known = by_id facts [] in
      unknown_facts known (map (λ e. e.source_id) evidence) draft.fact_ids_used
      ++ found_if (not (has_any draft.fact_ids_used) && not (has_any draft.attorney_gate_items))
          (plain_finding (codes "ungrounded")
            (codes "draft cites no fact_id and raises no attorney_gate_item"))
          (span_findings (supported_text known corpus_text evidence draft) (served_text draft))

  -- The result of the findings: a failure, or pending where the draft cites anything.
  unfoldable pub fabrication_result : List Text → List GateFinding → GateResult
  fabrication_result citations (f ∷ findings) = record {
    gate = codes "fabrication";
    findings = f ∷ findings;
    status = fail;
  }
  fabrication_result (c ∷ citations) [] = record {
    gate = codes "fabrication";
    findings =
        plain_finding (codes "citations_pending") (codes "citations pending verification") ∷ [];
    status = pending;
  }
  fabrication_result [] [] = record { gate = codes "fabrication"; findings = []; status = pass }

  unfoldable pub check : List Fact → Text → List DocumentEvidence → DraftOutput → GateResult
  unfolding fabrication_findings fabrication_result
  check facts corpus_text evidence draft =
      fabrication_result draft.candidate_citations
        (fabrication_findings facts corpus_text evidence draft)
