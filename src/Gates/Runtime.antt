-- ===== src/Gates/Runtime.antt =====
-- gates/runtime.py: the catalog of gate definitions, the order of a selection, and the runner.
-- `rounds` is the `while` loop of `_topological_order`, on fuel: the number of names is enough.
use mootloop.Base.{
  ℕ, zero, suc, Bool, true, false, ◌&&◌, not, Option, none, some, List, [], ◌∷◌, ◌++◌, map, Text,
  codes, text_eq_key, ◌==◌, if◌then◌else◌, filter, all, member, length, Result, ok, err, ◌>>=◌,
  of_option, key_error, gate_configuration,
}
use mootloop.Base.Dict.{Dict, lookup, contains, insert}
use mootloop.Turn.{GateResult, GateStatus, fail}

pub data GateScope : Type 0 where
  turn draft run export : GateScope

pub record GateDefinition : Type 0 where
  pub name : Text
  pub scope : GateScope
  pub depends_on : List Text
  pub halt_on_fail : Bool
  pub blocks_export : Bool

unfoldable pub is_unique : List Text → Bool
is_unique [] = true
is_unique (n ∷ names) = let rest = is_unique names in if member n names then false else rest

-- `GateDefinition.__post_init__`
unfoldable pub validated : GateDefinition → Result GateDefinition
unfolding is_unique
validated d = elim d.name [
  | [] ↦ err gate_configuration
  | c ∷ s ↦
      if member (c ∷ s) d.depends_on
      then err gate_configuration
      else if is_unique d.depends_on
      then ok d
      else err gate_configuration
]

abbrev pub Catalog : Type 0
Catalog = Dict Text GateDefinition

-- The names that are left, each with the dependencies that it still waits for.
abbrev pub Waiting : Type 0
Waiting = Dict Text (List Text)

-- `[name for name in selected if name in dependencies and not dependencies[name]]`
unfoldable pub ready_of : List Text → Waiting → List Text
ready_of [] waiting = []
ready_of (n ∷ selected) waiting =
    let rest = ready_of selected waiting in
    elim (lookup n waiting) [ none ↦ rest | some [] ↦ n ∷ rest | some (d ∷ ds) ↦ rest ]

-- `dependencies.pop(name)`, and `remaining.discard(name)` for the others.
unfoldable pub settled : Text → Waiting → Waiting
settled n [] = []
settled n ((m, ds) ∷ waiting) =
    let rest = settled n waiting in
    if m == n then rest else (m, filter (λ d. not (d == n)) ds) ∷ rest

-- The `for` loop over the ready names.
unfoldable pub settle_all : List Text → Waiting → List Text → Result (Waiting × List Text)
unfolding settled
settle_all [] waiting ordered = ok (waiting, ordered)
settle_all (n ∷ ready) waiting ordered =
    if contains n waiting
    then settle_all ready (settled n waiting) (ordered ++ n ∷ [])
    else err key_error

-- One round, where some names are left, with those that are ready.
unfoldable pub round_of : List Text → Waiting → List Text → Result (Waiting × List Text)
unfolding settle_all
round_of [] waiting ordered = err gate_configuration
round_of (n ∷ ready) waiting ordered = settle_all (n ∷ ready) waiting ordered

-- The rest of the loop after a round, or the round's exception.
unfoldable pub after_round :
    (Waiting → List Text → Option (Result (List Text)))
    → Result (Waiting × List Text)
    → Option (Result (List Text))
after_round next (err raised) = some (err raised)
after_round next (ok (left, more)) = next left more

-- `none` where the fuel runs out.
unfoldable pub rounds : ℕ → List Text → Waiting → List Text → Option (Result (List Text))
unfolding ready_of round_of after_round
rounds fuel selected [] ordered = some (ok ordered)
rounds zero selected (w ∷ waiting) ordered = none
rounds (suc fuel) selected (w ∷ waiting) ordered =
    after_round (rounds fuel selected)
      (round_of (ready_of selected (w ∷ waiting)) (w ∷ waiting) ordered)

module _ (catalog : Catalog) where
  -- `GateCatalog.definition`
  unfoldable pub definition : Text → Result GateDefinition
  definition n = of_option gate_configuration (lookup n catalog)

  unfoldable pub dependencies_of : Text → List Text
  dependencies_of n = elim (lookup n catalog) [ none ↦ [] | some d ↦ d.depends_on ]

  -- `set(depends_on) & selected_set`
  unfoldable pub needed : List Text → Text → List Text
  unfolding dependencies_of
  needed selected n = filter (λ d. member d selected) (dependencies_of n)

  unfoldable pub waiting_of : List Text → List Text → Waiting
  unfolding needed
  waiting_of selected [] = []
  waiting_of selected (n ∷ names) = (n, needed selected n) ∷ waiting_of selected names

  -- `_topological_order`
  unfoldable pub topological_order : List Text → Result (List Text)
  unfolding rounds waiting_of
  topological_order names = elim (rounds (length names) names (waiting_of names names) []) [
    | none ↦ err gate_configuration
    | some ordered ↦ ordered
  ]

  -- The check of one selected name, and of all.
  unfoldable pub check_selected : List Text → List Text → Result Bool
  unfolding definition
  check_selected selected [] = ok true
  check_selected selected (n ∷ names) = definition n >>= λ d.
      if all (λ dependency. member dependency selected) d.depends_on
      then check_selected selected names
      else err gate_configuration

  unfoldable pub definitions_of : List Text → Result (List GateDefinition)
  definitions_of [] = ok []
  definitions_of (n ∷ names) =
      of_option key_error (lookup n catalog) >>= λ d. definitions_of names >>= λ ds. ok (d ∷ ds)

  -- `GateCatalog.order`
  unfoldable pub order : List Text → Result (List GateDefinition)
  unfolding is_unique check_selected topological_order definitions_of
  order names =
      if is_unique names
      then (check_selected names names >>= λ checked. topological_order names >>= definitions_of)
      else err gate_configuration

-- `GateCatalog.__init__`: the definitions by name, the dependencies known, and no cycle.
unfoldable pub added : List GateDefinition → Catalog → Result Catalog
unfolding validated
added [] catalog = ok catalog
added (d ∷ definitions) catalog = validated d >>= λ v.
    if contains v.name catalog
    then err gate_configuration
    else added definitions (insert v.name v catalog)

unfoldable pub knows_dependencies : Catalog → Bool
knows_dependencies catalog = all (λ e. all (λ n. contains n catalog) e.1.depends_on) catalog

unfoldable pub new_catalog : List GateDefinition → Result Catalog
unfolding added knows_dependencies topological_order
new_catalog definitions = added definitions [] >>= λ catalog.
    if knows_dependencies catalog
    then (topological_order catalog (map (λ e. e.0) catalog) >>= λ ordered. ok catalog)
    else err gate_configuration

-- One gate over a context.
pub record Gate (C : Type 0) : Type 0 where
  pub definition : GateDefinition
  pub applies : C → Bool
  pub evaluate : C → Result GateResult

pub record GateRun : Type 0 where
  pub results : List GateResult
  pub halted_by : Option Text

unfoldable pub has_failed : GateStatus → Bool
has_failed fail = true
has_failed _ = false

-- `results.append(result)`, before the rest of the run.
unfoldable pub ahead_of : GateResult → Result GateRun → Result GateRun
ahead_of result (err raised) = err raised
ahead_of result (ok more) =
    ok (record { results = result ∷ more.results; halted_by = more.halted_by })

module _ {C : Type 0} (gates : Dict Text (Gate C)) (context : C) where
  -- What the result of a gate does to the run.
  unfoldable pub landed : GateDefinition → GateResult → Result GateRun → Result GateRun
  unfolding has_failed ahead_of
  landed d result rest =
      if not (result.gate == d.name)
      then err gate_configuration
      else if has_failed result.status && d.halt_on_fail
      then ok (record { results = result ∷ []; halted_by = some d.name })
      else ahead_of result rest

  -- The loop of `GateRunner.run` over the ordered definitions.
  unfoldable pub run_ordered : List GateDefinition → Result GateRun
  unfolding landed
  run_ordered [] = ok (record { results = []; halted_by = none })
  run_ordered (d ∷ definitions) =
      let rest = run_ordered definitions in
      of_option key_error (lookup d.name gates) >>= λ gate. elim (gate.applies context) [
        | true ↦ gate.evaluate context >>= λ result. landed d result rest
        | false ↦ rest
      ]

  -- `GateRunner.run`, over the runner's own catalog.
  unfoldable pub run_gates : Catalog → List Text → Result GateRun
  unfolding order run_ordered
  run_gates catalog names = order catalog names >>= run_ordered

-- `DEFAULT_GATE_CATALOG`
abbrev pub default_definitions : List GateDefinition
default_definitions =
    record {
      name = codes "degeneracy";
      scope = turn;
      depends_on = [];
      halt_on_fail = true;
      blocks_export = false;
    }
    ∷ record {
      name = codes "completeness";
      scope = draft;
      depends_on = codes "degeneracy" ∷ [];
      halt_on_fail = false;
      blocks_export = false;
    }
    ∷ record {
      name = codes "fabrication";
      scope = draft;
      depends_on = codes "degeneracy" ∷ [];
      halt_on_fail = false;
      blocks_export = true;
    }
    ∷ record {
      name = codes "rubric";
      scope = run;
      depends_on = codes "completeness" ∷ codes "fabrication" ∷ [];
      halt_on_fail = false;
      blocks_export = true;
    }
    ∷ []
