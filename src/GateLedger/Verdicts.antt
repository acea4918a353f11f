-- ===== src/GateLedger/Verdicts.antt =====
-- The verdicts of a request: those of its operative draft, and else the worst recorded.
use mootloop.Base.{
  ◌≡◌, refl, ap, ◌∙◌, false, Option, none, some, List, [], ◌∷◌, Text, text_eq_key, ◌==◌,
  text_eq_iff, Bool-cases, inl, inr,
}
use mootloop.Base.Dict.{Dict, lookup, get_or}
use mootloop.Turn.{GateStatus}
use mootloop.Journal.Events.{JournalEvent, RunState}
use mootloop.GateLedger.{
  citation_gate_name, Row, Rows, operative_row, per_request, fold_gates, turn_gate_status,
}
use mootloop.GateLedger.Recorded.{
  last, worst_of, latest, worsened, current, verdict_of, verdicts, for_request, on_turn, unrecorded,
  worsened-none, latest-none, for-worsened, on-latest,
}

-- The row that may be missing, and the one shown for it.
abbrev or_none : Option Row → Row
or_none none = []
or_none (some row) = row

abbrev shown : Row → Option Row → Option Row
shown on_operative none = none
shown on_operative (some historical) = some (operative_row on_operative historical)

-- A row has the gates of the historical one, each with its status on the operative draft where it
-- has one there.
lookup-operative_row :
    (on_operative historical : Row) (gate : Text)
    → lookup gate (operative_row on_operative historical) ≡ elim (lookup gate historical) [
      | none ↦ none
      | some was ↦ some (get_or gate was on_operative)
    ]
unfolding operative_row lookup
lookup-operative_row on_operative [] gate = refl
lookup-operative_row on_operative ((g, was) ∷ historical) gate = elim (Bool-cases (g == gate)) [
  | inl same ↦
      let here : g ≡ gate = (text_eq_iff g gate).0 same in
      rw same (ap (λ x. some (get_or x was on_operative)) here)
  | inr other ↦ rw other (lookup-operative_row on_operative historical gate)
]

lookup-per_request :
    (per_turn : Rows) (operative_turn : Dict Text Text) (rid : Text) (worst : Rows)
    → lookup rid (per_request per_turn operative_turn worst)
      ≡ shown (get_or (get_or rid [] operative_turn) [] per_turn) (lookup rid worst)
unfolding per_request lookup
lookup-per_request per_turn operative_turn rid [] = refl
lookup-per_request per_turn operative_turn rid ((r, historical) ∷ worst) =
    elim (Bool-cases (r == rid)) [
      | inl same ↦
          let here : r ≡ rid = (text_eq_iff r rid).0 same in
          rw same (
            ap
              (λ x.
                some (operative_row (get_or (get_or x [] operative_turn) [] per_turn) historical))
              here)
      | inr other ↦ rw other (lookup-per_request per_turn operative_turn rid worst)
    ]

row_status :
    (on_operative : Row) (gate : Text) (row seen : Option Row)
    → seen ≡ shown on_operative row
    → lookup gate (or_none seen) ≡ elim (lookup gate (or_none row)) [
      | none ↦ none
      | some was ↦ some (get_or gate was on_operative)
    ]
unfolding lookup
row_status on_operative gate none seen e = rw e refl
row_status on_operative gate (some historical) seen e =
    rw e (lookup-operative_row on_operative historical gate)

lookup-row :
    (per_turn worst : Rows) (operative_turn : Dict Text Text) (rid gate : Text)
    → lookup gate (get_or rid [] (per_request per_turn operative_turn worst))
      ≡ elim (lookup gate (get_or rid [] worst)) [
        | none ↦ none
        | some was ↦ some (get_or gate was (get_or (get_or rid [] operative_turn) [] per_turn))
      ]
lookup-row per_turn worst operative_turn rid gate =
    row_status (get_or (get_or rid [] operative_turn) [] per_turn) gate (lookup rid worst)
      (lookup rid (per_request per_turn operative_turn worst))
      (lookup-per_request per_turn operative_turn rid worst)

-- The two recorded statuses of a gate give its verdict.
joined-verdict :
    (statuses on_operative : List GateStatus) (was now : Option GateStatus)
    → was ≡ worsened none statuses
    → now ≡ latest none on_operative
    → elim was [ none ↦ none | some w ↦ some (elim now [ none ↦ w | some v ↦ v ]) ]
      ≡ verdict_of statuses on_operative
joined-verdict [] on_operative was now e f = rw e refl
joined-verdict (s ∷ statuses) on_operative was now e f =
    rw (e ∙ worsened-none s statuses, f ∙ latest-none on_operative) (shown_now (last on_operative))
  where
    shown_now :
        (now : Option GateStatus)
        → ◌≡◌ {A = Option GateStatus}
            (some (elim now [ none ↦ worst_of (s ∷ statuses) | some v ↦ v ]))
            (some (current now (worst_of (s ∷ statuses))))
    shown_now none = refl
    shown_now (some v) = refl

-- The status of a turn gate in the row of a request is told from the gates that the journal has:
-- without one recorded on a completed turn of the request there is none. Else it is the last one
-- recorded on the operative draft of the request, where there is one, and else the worst of all
-- that were recorded for the request: failed if one failed, else pending if one is, else passed.
pub lookup-turn_gate_status :
    {Usd : Type 0} (events : List (JournalEvent Usd)) (state : RunState Usd)
    (operative_turn : Dict Text Text) (rid gate : Text)
    → (gate == citation_gate_name) ≡ false
    → lookup gate (get_or rid [] (turn_gate_status events state operative_turn).0)
      ≡ verdict_of
          (verdicts (for_request state rid) gate events)
          (verdicts (on_turn state (get_or rid [] operative_turn)) gate events)
unfolding turn_gate_status
lookup-turn_gate_status events state operative_turn rid gate turn_gate =
    let f = fold_gates state unrecorded events in
    lookup-row f.per_turn f.worst operative_turn rid gate
    ∙ joined-verdict (verdicts (for_request state rid) gate events)
        (verdicts (on_turn state (get_or rid [] operative_turn)) gate events)
        (lookup gate (get_or rid [] f.worst))
        (lookup gate (get_or (get_or rid [] operative_turn) [] f.per_turn))
        (for-worsened state gate turn_gate rid events)
        (on-latest state gate turn_gate (get_or rid [] operative_turn) events)
