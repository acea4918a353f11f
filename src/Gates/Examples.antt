-- ===== src/Gates/Examples.antt =====
-- The default gates in the wrong order, and a run that the first of them halts.
use mootloop.Base.{
  ℕ, ◌≡◌, refl, true, some, List, [], ◌∷◌, map, Text, codes, text_eq, text_eq_key, length, member,
  ok, Ensures, IsDistinct,
}
use mootloop.Base.Dict.{Dict, lookup}
use mootloop.Turn.{fail}
use mootloop.Gates.Runtime.{
  Catalog, GateDefinition, Gate, rounds, waiting_of, needed, topological_order, default_definitions,
  run_ordered,
}
use mootloop.Gates.Rounds.{Ends}
use mootloop.Gates.Sound.{AreAfter}
use mootloop.Gates.Order.{topological_order-Ends, topological_order-AreAfter}
use mootloop.Gates.Halting.{AreResultsOf, run_ordered-AreResultsOf}

abbrev default_gates : Catalog
default_gates = map (λ (d : GateDefinition). (d.name, d)) default_definitions

abbrev wrong_order : List Text
wrong_order = codes "rubric" ∷ codes "fabrication" ∷ codes "completeness" ∷ codes "degeneracy" ∷ []

abbrev right_order : List Text
right_order = codes "degeneracy" ∷ codes "fabrication" ∷ codes "completeness" ∷ codes "rubric" ∷ []

wrong_order_sorted : topological_order default_gates wrong_order ≡ ok right_order
unfolding topological_order lookup text_eq
wrong_order_sorted = refl

topological_order-Ends_example :
    Ends (
      rounds (length wrong_order) wrong_order (waiting_of default_gates wrong_order wrong_order) [])
topological_order-Ends_example = topological_order-Ends default_gates wrong_order

topological_order-AreAfter_example :
    AreAfter (needed default_gates wrong_order) [] right_order
    × IsDistinct right_order
    × ((n : Text) → member n right_order ≡ member n wrong_order)
topological_order-AreAfter_example =
    topological_order-AreAfter default_gates wrong_order right_order wrong_order_sorted

-- A gate that fails every context.
abbrev failing : GateDefinition → Gate ℕ
failing d = record {
  definition = d;
  applies = λ context. true;
  evaluate = λ context. ok (record { gate = d.name; findings = []; status = fail });
}

abbrev failing_gates : Dict Text (Gate ℕ)
failing_gates = map (λ (d : GateDefinition). (d.name, failing d)) default_definitions

halted_at_once :
    run_ordered failing_gates 0 default_definitions
    ≡ ok (record {
      results = record { gate = codes "degeneracy"; findings = []; status = fail } ∷ [];
      halted_by = some (codes "degeneracy");
    })
unfolding run_ordered lookup text_eq
halted_at_once = refl

run_ordered-AreResultsOf_example :
    Ensures
      (AreResultsOf failing_gates 0 default_definitions)
      (run_ordered failing_gates 0 default_definitions)
run_ordered-AreResultsOf_example = run_ordered-AreResultsOf failing_gates 0 default_definitions
