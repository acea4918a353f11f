-- ===== src/Completeness.antt =====
-- gates/completeness.py: the presence criteria of a rubric, each checked on a draft, and their
-- share that a draft meets. Regular expressions and Unicode are the library's: `TextOps` has one
-- function for each use of them.
mod Coverage
pub mod Examples
use mootloop.Base.{
  ℕ, suc, ◌*◌, ◌≡◌, Bool, true, false, ◌&&◌, ◌||◌, not, Option, none, some, List, [], ◌∷◌, ◌++◌,
  map, Text, codes, text_eq_key, nat_eq, ltb, if◌then◌else◌, filter, all, any, member, length,
  Result, ok, err, ◌>>=◌, task_config,
}
use mootloop.Base.Dict.{Dict, lookup, contains}
use mootloop.Base.Floats.{FloatOps}
use mootloop.Turn.{DraftOutput, Objection, GateResult, GateFinding, pass, fail}
use mootloop.Rubric.{Rubric, Criterion, CriterionKind, present, kind_eq, presence_criteria}

pub record TextOps : Type 0 where
  pub lower : Text → Text
  pub strip : Text → Text
  pub nfkc : Text → Text
  pub repr : Text → Text
  -- `_HEDGE_RE.search(text)`
  pub hedge : Text → Bool
  -- `re.search(r"withh(eld|olding)", text)`
  pub withheld : Text → Bool
  -- `_TOKEN_RE.findall(text)`
  pub find_tokens : Text → List Text
  -- `response_text[match.end():]`, where the heading of that name matches.
  pub behind_heading : Text → Text → Option Text
  -- `re.split(r"(?m)^#{1,6}\s", text, maxsplit=1)[0]`
  pub up_to_heading : Text → Text

unfoldable pub is_prefix : Text → Text → Bool
is_prefix [] text = true
is_prefix (a ∷ s) [] = false
is_prefix (a ∷ s) (b ∷ text) = nat_eq a b && is_prefix s text

-- `s in text`
unfoldable pub contains_text : Text → Text → Bool
unfolding is_prefix
contains_text s [] = is_prefix s []
contains_text s (c ∷ text) = is_prefix s (c ∷ text) || contains_text s text

unfoldable pub specificity_min : ℕ
specificity_min = 12

unfoldable pub boilerplate_min : ℕ
boilerplate_min = 80

abbrev pub is_blank : Text → Bool
is_blank [] = true
is_blank (c ∷ s) = false

-- A set of the elements, in the order of the first of each.
unfoldable pub set_of : List Text → List Text
set_of [] = []
set_of (t ∷ texts) = t ∷ filter (λ u. not (text_eq_key.test u t)) (set_of texts)

abbrev pub Check : Type 0
Check = DraftOutput → Text → Bool

-- `name.replace(" ", "-")`
unfoldable pub dashed : Text → Text
dashed = map (λ c. if nat_eq c 32 then 45 else c)

unfoldable pub document_sections : List Text
document_sections =
    codes "parties"
    ∷ codes "jurisdiction"
    ∷ codes "allegations"
    ∷ codes "claims"
    ∷ codes "relief"
    ∷ codes "grounds"
    ∷ codes "record"
    ∷ codes "argument"
    ∷ codes "limitations"
    ∷ codes "issues"
    ∷ codes "preservation"
    ∷ codes "standard of review"
    ∷ codes "position"
    ∷ codes "questions"
    ∷ codes "answers"
    ∷ codes "concessions"
    ∷ codes "closing"
    ∷ codes "recommendation"
    ∷ codes "risks"
    ∷ codes "options"
    ∷ codes "next steps"
    ∷ codes "secondary deliverable"
    ∷ []

unfoldable pub presence_gate : List GateFinding → GateResult
presence_gate [] = record { gate = codes "completeness"; findings = []; status = pass }
presence_gate (f ∷ findings) = record {
  gate = codes "completeness";
  findings = f ∷ findings;
  status = fail;
}

module _ (lib : TextOps) where
  unfoldable pub has_hedge : List Text → Bool
  has_hedge texts = any (λ text. lib.hedge (lib.nfkc text)) texts

  unfoldable pub significant_tokens : Text → List Text
  unfolding set_of
  significant_tokens text = set_of (lib.find_tokens (lib.lower text))

  unfoldable pub disposition_present : Check
  disposition_present draft req_text = not (is_blank (lib.strip draft.response_text))

  unfoldable pub objection_basis_specificity : Check
  unfolding specificity_min
  objection_basis_specificity draft req_text =
      all
        (λ o.
          not (is_blank (lib.strip o.basis))
          && not (ltb (length (lib.strip o.text)) specificity_min))
        draft.objections

  unfoldable pub no_boilerplate_general_objection : Check
  unfolding contains_text boilerplate_min
  no_boilerplate_general_objection draft req_text =
      all
        (λ o. not (
          contains_text (codes "overly broad and unduly burdensome") (lib.lower o.text)
          && ltb (length (lib.strip o.text)) boilerplate_min))
        draft.objections

  unfoldable pub no_hedge_subject_to : Check
  unfolding has_hedge
  no_hedge_subject_to draft req_text =
      not (has_hedge (draft.response_text ∷ map (λ o. o.text) draft.objections))

  unfoldable pub rfp_withheld_statement : Check
  unfolding contains_text
  rfp_withheld_statement draft req_text =
      let text = lib.lower draft.response_text in
      lib.withheld text || contains_text (codes "nothing is being withheld") text

  unfoldable pub rfa_disposition_stated : Check
  unfolding contains_text
  rfa_disposition_stated draft req_text =
      any (λ token. contains_text token (lib.lower draft.response_text))
        (codes "admit" ∷ codes "deny" ∷ codes "denied" ∷ codes "qualif" ∷ codes "lack" ∷ [])

  unfoldable pub rfa_reasonable_inquiry : Check
  unfolding contains_text
  rfa_reasonable_inquiry draft req_text =
      let text = lib.lower draft.response_text in
      if contains_text (codes "lack") text
        || contains_text (codes "cannot truthfully admit or deny") text
      then contains_text (codes "reasonable inquiry") text
      else true

  unfoldable pub section_present : Text → Check
  section_present name draft req_text = elim (lib.behind_heading name draft.response_text) [
    | none ↦ false
    | some rest ↦ not (ltb (length (lib.strip (lib.up_to_heading rest))) 12)
  ]

  module _ {F : Type 0} (floats : FloatOps F) (share_min : F) where
    -- `share_min` is the float 0.4.
    unfoldable pub mn_rog_restatement : Check
    unfolding contains_text significant_tokens
    mn_rog_restatement draft req_text =
        let request_tokens = significant_tokens req_text in
        let overlap =
          filter (λ t. member t (significant_tokens draft.response_text)) request_tokens in
        contains_text (codes "interrogatory no") (lib.lower draft.response_text)
        || (nat_eq (length request_tokens) 0
            || floats.le share_min (
                floats.div (floats.of_int (length overlap))
                  (floats.of_int (length request_tokens))))

    -- `_CHECKS`
    unfoldable pub checks : Dict Text Check
    unfolding disposition_present objection_basis_specificity no_boilerplate_general_objection
        no_hedge_subject_to rfp_withheld_statement rfa_disposition_stated rfa_reasonable_inquiry
        mn_rog_restatement section_present document_sections dashed
    checks =
        (codes "disposition-present", disposition_present)
        ∷ (codes "objection-basis-specificity", objection_basis_specificity)
        ∷ (codes "no-boilerplate-general-objection", no_boilerplate_general_objection)
        ∷ (codes "no-hedge-subject-to", no_hedge_subject_to)
        ∷ (codes "rfp-withheld-statement", rfp_withheld_statement)
        ∷ (codes "rfa-disposition", rfa_disposition_stated)
        ∷ (codes "rfa-reasonable-inquiry", rfa_reasonable_inquiry)
        ∷ (codes "mn-rog-restatement", mn_rog_restatement)
        ∷ map (λ name. (codes "document-section-" ++ dashed name, section_present name))
            document_sections

    unfoldable pub validate_presence_criteria : Rubric F → Result {0} Unit
    unfolding checks kind_eq
    validate_presence_criteria rubric =
        if any (λ c. kind_eq c.kind present && not (contains c.id checks)) rubric.criteria
        then err task_config
        else ok _

    -- `[(criterion.id, _CHECKS[criterion.id]) for criterion in criteria]`
    unfoldable pub look_up : List (Criterion F) → Result (List (Text × Check))
    unfolding checks
    look_up [] = ok []
    look_up (c ∷ criteria) = elim (lookup c.id checks) [
      | none ↦ err task_config
      | some check ↦ look_up criteria >>= λ rest. ok ((c.id, check) ∷ rest)
    ]

    unfoldable pub applicable : Rubric F → Text → Result (List (Text × Check))
    unfolding validate_presence_criteria look_up presence_criteria
    applicable rubric code =
        validate_presence_criteria rubric >>= λ _. look_up (presence_criteria code rubric)

    unfoldable pub presence_finding : Text → GateFinding
    presence_finding id = record {
      code = id;
      message = codes "presence criterion " ++ (lib.repr id ++ codes " not met");
      locator = some id;
    }

    unfoldable pub findings_of : DraftOutput → Text → List (Text × Check) → List GateFinding
    unfolding presence_finding
    findings_of draft req_text [] = []
    findings_of draft req_text ((id, check) ∷ rest) =
        let more = findings_of draft req_text rest in
        if check draft req_text then more else presence_finding id ∷ more

    unfoldable pub evaluate : DraftOutput → Rubric F → Text → Text → Result GateResult
    unfolding applicable findings_of presence_gate
    evaluate draft rubric code req_text =
        applicable rubric code >>= λ found. ok (presence_gate (findings_of draft req_text found))

    -- `sum(1 for _cid, check in checks if check(draft, req_text))`
    unfoldable pub passing : DraftOutput → Text → List (Text × Check) → ℕ
    passing draft req_text [] = 0
    passing draft req_text ((id, check) ∷ rest) =
        let more = passing draft req_text rest in if check draft req_text then suc more else more

    unfoldable pub share_of : DraftOutput → Text → List (Text × Check) → F
    unfolding passing
    share_of draft req_text [] = floats.of_int 1
    share_of draft req_text (c ∷ found) =
        floats.div (floats.of_int (passing draft req_text (c ∷ found)))
          (floats.of_int (length (c ∷ found)))

    unfoldable pub coverage : DraftOutput → Rubric F → Text → Text → Result F
    unfolding applicable share_of
    coverage draft rubric code req_text =
        applicable rubric code >>= λ found. ok (share_of draft req_text found)
