-- ===== src/Panels/Examples.antt =====
-- A draft with two objections on one basis, and a judge who rules against the second.
use mootloop.Base.{◌≡◌, refl, Bool, true, false, none, some, List, [], ◌∷◌, Text, codes, text_eq}
use mootloop.Base.Floats.{whole}
use mootloop.Turn.{Objection, ObjectionRuling, JudgeOutput, JurorOutput}
use mootloop.Panels.{align_places, fold_objection_results}
use mootloop.Panels.Alignment.{taken, IsDistinct, align_places-IsDistinct}
use mootloop.Panels.Votes.{AreResultsOf, fold_objection_results-AreResultsOf}

abbrev same_text : Text → Text
same_text s = s

abbrev objection : Text → Objection
objection basis = record { basis = basis; text = codes "objection" }

abbrev ruling : Text → Bool → ObjectionRuling
ruling basis survives = record {
  objection_basis = basis;
  would_objection_survive = survives;
  reasoning = codes "because";
  persuasion_notes = [];
}

abbrev relevance : Text
relevance = codes "relevance"

abbrev objections : List Objection
objections = objection relevance ∷ objection relevance ∷ objection (codes "burden") ∷ []

abbrev judge : JudgeOutput
judge = record {
  rulings = ruling (codes "scope") true ∷ ruling relevance false ∷ ruling relevance true ∷ [];
  self_assessment = codes "fine";
}

-- Each of the two objections on relevance has a ruling of its own, and the third has none, since
-- the ruling at its place is taken.
places : align_places same_text objections judge.rulings ≡ some 1 ∷ some 2 ∷ none ∷ []
unfolding align_places text_eq
places = refl

align_places-IsDistinct_example :
    IsDistinct (taken (align_places same_text objections judge.rulings))
align_places-IsDistinct_example = align_places-IsDistinct same_text objections judge.rulings

fold_objection_results-AreResultsOf_example : AreResultsOf same_text whole 2 0 objections (
    fold_objection_results same_text whole same_text
      (codes "r")
      (codes "rog-1")
      objections
      (judge ∷ judge ∷ []))
fold_objection_results-AreResultsOf_example =
    fold_objection_results-AreResultsOf same_text whole same_text (codes "r") (codes "rog-1")
      objections (judge ∷ judge ∷ [])

abbrev juror : JurorOutput
juror = record {
  comprehension_score = 4;
  persuasion_score = 3;
  confusion_points = [] ∷ codes "dates" ∷ [];
  credibility_concerns = codes "tone" ∷ [];
  self_assessment = codes "fine";
}
