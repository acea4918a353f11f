-- ===== src/Gates/Halting.antt =====
-- The run of the gates: it halts at the first failure that halts, and not before.
use mootloop.Base.{
  ◌≡◌, refl, inl, inr, Bool, true, false, ◌&&◌, Option, none, some, List, [], ◌∷◌, Text, text_eq,
  text_eq_iff, text_eq_key, Bool-cases, Result, ok, err, ◌>>=◌, of_option, key_error, Ensures,
}
use mootloop.Base.Dict.{Dict, lookup}
use mootloop.Turn.{GateResult}
use mootloop.Gates.Runtime.{
  GateDefinition, Gate, GateRun, has_failed, ahead_of, landed, run_ordered,
}

-- The result of the gate of that name, which applies, on the context.
abbrev pub IsResultOf :
    {C : Type 0} → Dict Text (Gate C) → C → GateDefinition → Gate C → GateResult → Type 0
IsResultOf gates context d gate result =
    (lookup d.name gates ≡ some gate)
    × (gate.applies context ≡ true)
    × (gate.evaluate context ≡ ok result)
    × (result.gate ≡ d.name)

module _ {C : Type 0} (gates : Dict Text (Gate C)) (context : C) where
  -- What a run over the definitions gives: a gate that does not apply has no result, one that
  -- applies has the result of its evaluation, and the run is halted by the first of these that
  -- failed with a gate that halts on failure.
  pub data IsRunOf : List GateDefinition → List GateResult → Option Text → Type 0 where
    done : IsRunOf [] [] none
    left_out :
        {d : GateDefinition} {definitions : List GateDefinition} {results : List GateResult}
        {halted_by : Option Text} (gate : Gate C)
        → lookup d.name gates ≡ some gate
        → gate.applies context ≡ false
        → IsRunOf definitions results halted_by
        → IsRunOf (d ∷ definitions) results halted_by
    went_on :
        {d : GateDefinition} {definitions : List GateDefinition} {result : GateResult}
        {results : List GateResult} {halted_by : Option Text} (gate : Gate C)
        → IsResultOf gates context d gate result
        → (has_failed result.status && d.halt_on_fail) ≡ false
        → IsRunOf definitions results halted_by
        → IsRunOf (d ∷ definitions) (result ∷ results) halted_by
    halted :
        {d : GateDefinition} {definitions : List GateDefinition} {result : GateResult}
        (gate : Gate C)
        → IsResultOf gates context d gate result
        → (has_failed result.status && d.halt_on_fail) ≡ true
        → IsRunOf (d ∷ definitions) (result ∷ []) (some d.name)

  abbrev pub AreResultsOf : List GateDefinition → GateRun → Type 0
  AreResultsOf definitions r = IsRunOf definitions r.results r.halted_by

  ahead_of-AreResultsOf :
      (d : GateDefinition) (definitions : List GateDefinition) (gate : Gate C) (result : GateResult)
      (rest : Result GateRun)
      → IsResultOf gates context d gate result
      → (has_failed result.status && d.halt_on_fail) ≡ false
      → Ensures (AreResultsOf definitions) rest
      → Ensures (AreResultsOf (d ∷ definitions)) (ahead_of result rest)
  unfolding ahead_of
  ahead_of-AreResultsOf d definitions gate result (err raised) given on h = _
  ahead_of-AreResultsOf d definitions gate result (ok more) given on h = went_on gate given on h

  landed-AreResultsOf :
      (d : GateDefinition) (definitions : List GateDefinition) (gate : Gate C) (result : GateResult)
      (rest : Result GateRun)
      → lookup d.name gates ≡ some gate
      → gate.applies context ≡ true
      → gate.evaluate context ≡ ok result
      → Ensures (AreResultsOf definitions) rest
      → Ensures (AreResultsOf (d ∷ definitions)) (landed gates context d result rest)
  unfolding landed
  landed-AreResultsOf d definitions gate result rest found applies evaluated h =
      elim (Bool-cases (text_eq result.gate d.name)) [
        | inr other ↦ rw other _
        | inl same ↦
            let name : result.gate ≡ d.name = (text_eq_iff result.gate d.name).0 same in
            elim (Bool-cases (has_failed result.status && d.halt_on_fail)) [
              | inl stops ↦ rw (same, stops) (halted gate (found, applies, evaluated, name) stops)
              | inr on ↦
                  rw (same, on)
                    (ahead_of-AreResultsOf d definitions gate result rest
                      (found, applies, evaluated, name) on h)
            ]
      ]

  left_out-AreResultsOf :
      (d : GateDefinition) (definitions : List GateDefinition) (gate : Gate C)
      (rest : Result GateRun)
      → lookup d.name gates ≡ some gate
      → gate.applies context ≡ false
      → Ensures (AreResultsOf definitions) rest
      → Ensures (AreResultsOf (d ∷ definitions)) rest
  left_out-AreResultsOf d definitions gate (err raised) found idle h = _
  left_out-AreResultsOf d definitions gate (ok more) found idle h = left_out gate found idle h

  evaluated-AreResultsOf :
      (d : GateDefinition) (definitions : List GateDefinition) (gate : Gate C)
      (rest : Result GateRun) (evaluated : Result GateResult)
      → lookup d.name gates ≡ some gate
      → gate.applies context ≡ true
      → gate.evaluate context ≡ evaluated
      → Ensures (AreResultsOf definitions) rest
      → Ensures
          (AreResultsOf (d ∷ definitions))
          (evaluated >>= λ result. landed gates context d result rest)
  evaluated-AreResultsOf d definitions gate rest (err raised) found applies e h = _
  evaluated-AreResultsOf d definitions gate rest (ok result) found applies e h =
      landed-AreResultsOf d definitions gate result rest found applies e h

  applied-AreResultsOf :
      (gate : Gate C) (d : GateDefinition) (definitions : List GateDefinition)
      (rest : Result GateRun) (applies : Bool)
      → lookup d.name gates ≡ some gate
      → gate.applies context ≡ applies
      → Ensures (AreResultsOf definitions) rest
      → Ensures (AreResultsOf (d ∷ definitions)) (elim applies [
        | true ↦ gate.evaluate context >>= λ result. landed gates context d result rest
        | false ↦ rest
      ])
  applied-AreResultsOf gate d definitions rest true found e h =
      evaluated-AreResultsOf d definitions gate rest (gate.evaluate context) found e refl h
  applied-AreResultsOf gate d definitions rest false found e h =
      left_out-AreResultsOf d definitions gate rest found e h

  found-AreResultsOf :
      (d : GateDefinition) (definitions : List GateDefinition) (rest : Result GateRun)
      (found : Option (Gate C))
      → lookup d.name gates ≡ found
      → Ensures (AreResultsOf definitions) rest
      → Ensures (AreResultsOf (d ∷ definitions)) (
          of_option key_error found >>= λ gate. elim (gate.applies context) [
            | true ↦ gate.evaluate context >>= λ result. landed gates context d result rest
            | false ↦ rest
          ])
  found-AreResultsOf d definitions rest none e h = _
  found-AreResultsOf d definitions rest (some gate) e h =
      applied-AreResultsOf gate d definitions rest (gate.applies context) e refl h

  -- A run that returns has, in the order of the definitions, exactly the results that the gates
  -- that apply give on the context, and none of a gate that does not apply, up to and with the
  -- first that failed with a gate that halts on failure; it is halted by that gate, and by none if
  -- there is no such failure.
  pub run_ordered-AreResultsOf :
      (definitions : List GateDefinition)
      → Ensures (AreResultsOf definitions) (run_ordered gates context definitions)
  unfolding run_ordered
  run_ordered-AreResultsOf [] = done
  run_ordered-AreResultsOf (d ∷ definitions) =
      found-AreResultsOf d definitions (run_ordered gates context definitions) (lookup d.name gates)
        refl (run_ordered-AreResultsOf definitions)
