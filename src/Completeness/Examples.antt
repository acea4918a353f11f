-- ===== src/Completeness/Examples.antt =====
-- A draft against a rubric with two presence criteria, of which it meets one.
use mootloop.Base.{
  ℕ, ◌+◌, ◌≡◌, ◌↔◌, refl, true, false, none, List, [], ◌∷◌, Text, codes, text_eq, length, ok,
}
use mootloop.Base.Dict.{lookup}
use mootloop.Base.Floats.{whole}
use mootloop.Turn.{DraftOutput, GateResult, pass, fail}
use mootloop.Rubric.{Rubric, present}
use mootloop.Completeness.{TextOps, Check, applicable, evaluate, coverage, presence_finding}
use mootloop.Completeness.Coverage.{share, passed, evaluate-coverage}

abbrev pub ops : TextOps
ops = record {
  lower = λ s. s;
  strip = λ s. s;
  nfkc = λ s. s;
  repr = λ s. s;
  hedge = λ s. false;
  withheld = λ s. false;
  find_tokens = λ s. [];
  behind_heading = λ n s. none;
  up_to_heading = λ s. s;
}

abbrev draft : DraftOutput
draft = record {
  response_text = codes "no";
  objections = [];
  candidate_citations = [];
  fact_ids_used = [];
  attorney_gate_items = [];
  rfa_disposition = none;
  self_assessment = [];
}

abbrev rubric : Rubric ℕ
rubric = record {
  rubric_id = codes "r";
  version = codes "1";
  locked = true;
  criteria =
      record {
        id = codes "disposition-present";
        name = [];
        description = [];
        kind = present;
        weight = 1;
        applies_to = codes "all";
      }
      ∷ record {
        id = codes "rfa-disposition";
        name = [];
        description = [];
        kind = present;
        weight = 1;
        applies_to = codes "rfa";
      }
      ∷ [];
}

abbrev result : GateResult
result = record {
  gate = codes "completeness";
  findings = presence_finding ops whole 0 (codes "rfa-disposition") ∷ [];
  status = fail;
}

evaluated : evaluate ops whole 0 draft rubric (codes "rfa") [] ≡ ok result
unfolding evaluate lookup text_eq presence_finding
evaluated = refl

evaluate-coverage_example :
    (found : List (Text × Check)) × (applicable ops whole 0 rubric (codes "rfa") ≡ ok found)
    × (coverage ops whole 0 draft rubric (codes "rfa") [] ≡ ok (share ops whole 0 draft [] found))
    × (length result.findings + passed ops whole 0 draft [] found ≡ length found)
    × ((result.status ≡ pass) ↔ (passed ops whole 0 draft [] found ≡ length found))
evaluate-coverage_example =
    evaluate-coverage ops whole 0 draft rubric (codes "rfa") [] result evaluated
