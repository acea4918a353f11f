-- ===== src/GateLedger/Recorded.antt =====
-- What the fold of the journal keeps of the recorded gates, told from the list of their verdicts.
use mootloop.Base.{
  ◌≡◌, ◌↔◌, refl, ap, sym, ◌∙◌, Bool, true, false, ◌&&◌, Option, none, some, List, [], ◌∷◌, Text,
  text_eq, text_eq_iff, text_eq_key, ◌==◌, if◌then◌else◌, any, Bool-cases, inl, inr, arith,
}
use mootloop.Base.Dict.{lookup, get_or, insert, lookup-insert}
use mootloop.Turn.{GateResult, GateStatus, pass, fail, pending}
use mootloop.Journal.Events.{JournalEvent, gate_evaluated, RunState}
use mootloop.GateLedger.{
  citation_gate_name, severity, worse, Fold, worsen, record_gate, request_of, fold_gate, fold_gates,
}

-- The last of a list.
abbrev pub last : List GateStatus → Option GateStatus
last [] = none
last (s ∷ []) = some s
last (s ∷ t ∷ statuses) = last (t ∷ statuses)

abbrev pub is_fail : GateStatus → Bool
is_fail fail = true
is_fail _ = false

abbrev pub is_pending : GateStatus → Bool
is_pending pending = true
is_pending _ = false

-- Failed where one failed, else pending where one is, else passed.
abbrev pub worst_of : List GateStatus → GateStatus
worst_of statuses =
    if any is_fail statuses then fail else if any is_pending statuses then pending else pass

-- `last` and `worst_of` from a first status on, as a fold keeps them.
abbrev pub latest : Option GateStatus → List GateStatus → Option GateStatus
latest found [] = found
latest found (s ∷ statuses) = latest (some s) statuses

unfoldable pub worse_with : Option GateStatus → GateStatus → GateStatus
worse_with none s = s
worse_with (some was) s = worse was s

abbrev pub worsened : Option GateStatus → List GateStatus → Option GateStatus
worsened found [] = found
worsened found (s ∷ statuses) = worsened (some (worse_with found s)) statuses

latest-last :
    (s : GateStatus) (statuses : List GateStatus) → latest (some s) statuses ≡ last (s ∷ statuses)
latest-last s [] = refl
latest-last s (t ∷ statuses) = latest-last t statuses

worst_of-worse :
    (a b : GateStatus) (statuses : List GateStatus)
    → worst_of (worse a b ∷ statuses) ≡ worst_of (a ∷ b ∷ statuses)
unfolding worse severity
worst_of-worse pass pass statuses = refl
worst_of-worse pass pending statuses = refl
worst_of-worse pass fail statuses = refl
worst_of-worse pending pass statuses = refl
worst_of-worse pending pending statuses = refl
worst_of-worse pending fail statuses = ground arith
worst_of-worse fail pass statuses = refl
worst_of-worse fail pending statuses = ground arith
worst_of-worse fail fail statuses = refl

worst_of-one : (s : GateStatus) → worst_of (s ∷ []) ≡ s
worst_of-one pass = refl
worst_of-one pending = refl
worst_of-one fail = refl

worsened-worst_of :
    (s : GateStatus) (statuses : List GateStatus)
    → worsened (some s) statuses ≡ some (worst_of (s ∷ statuses))
unfolding worse_with
worsened-worst_of s [] = rw (worst_of-one s) refl
worsened-worst_of s (t ∷ statuses) =
    worsened-worst_of (worse s t) statuses ∙ rw (worst_of-worse s t statuses) refl

module _ {Usd : Type 0} where
  -- The verdicts of a gate on the turns of a test, in the order of the journal.
  abbrev pub verdicts : (Text → Bool) → Text → List (JournalEvent Usd) → List GateStatus
  verdicts test gate [] = []
  verdicts test gate (gate_evaluated turn_id result ∷ events) =
      if test turn_id && (result.gate == gate)
      then result.status ∷ verdicts test gate events
      else verdicts test gate events
  verdicts test gate (_ ∷ events) = verdicts test gate events

abbrev pub any_turn : Text → Bool
any_turn turn_id = true

record_gate-citation :
    (t : Text) (rid : Option Text) (gate : Text) (s : GateStatus) (f : Fold)
    → (record_gate t rid gate s f).citation_status ≡ f.citation_status
unfolding record_gate
record_gate-citation t none gate s f = refl
record_gate-citation t (some rid) gate s f = refl

-- One verdict more.
chosen-latest :
    (chosen : Bool) (found next : Option GateStatus) (s : GateStatus) (later : List GateStatus)
    → next ≡ (if chosen then some s else found)
    → latest next later ≡ latest found (if chosen then s ∷ later else later)
chosen-latest true found next s later e = rw e refl
chosen-latest false found next s later e = rw e refl

chosen-worsened :
    (chosen : Bool) (found next : Option GateStatus) (s : GateStatus) (later : List GateStatus)
    → next ≡ (if chosen then some (worse_with found s) else found)
    → worsened next later ≡ worsened found (if chosen then s ∷ later else later)
chosen-worsened true found next s later e = rw e refl
chosen-worsened false found next s later e = rw e refl

module _ {Usd : Type 0} (state : RunState Usd) where
  -- The completed turns of a request, and a completed turn that has one.
  abbrev pub is_of : Text → Option Text → Bool
  is_of rid none = false
  is_of rid (some r) = r == rid

  abbrev pub for_request : Text → Text → Bool
  for_request rid turn_id = is_of rid (request_of (lookup turn_id state.completed_turns))

  abbrev pub is_bound : Option Text → Bool
  is_bound none = false
  is_bound (some r) = true

  abbrev pub on_turn : Text → Text → Bool
  on_turn turn t = is_bound (request_of (lookup t state.completed_turns)) && (t == turn)

  fold_gate-citation :
      (f : Fold) (t : Text) (r : GateResult)
      → some (fold_gate state f (gate_evaluated t r)).citation_status
        ≡ (if r.gate == citation_gate_name then some r.status else some f.citation_status)
  unfolding fold_gate
  fold_gate-citation f t r = elim (Bool-cases (text_eq r.gate citation_gate_name)) [
    | inl same ↦ rw (fold_gate, same) refl
    | inr other ↦
        rw (fold_gate, other)
          (ap some (
            record_gate-citation t (request_of (lookup t state.completed_turns)) r.gate r.status f))
  ]

  -- The latest citation gate wins.
  citation_status-fold :
      (f : Fold) (events : List (JournalEvent Usd))
      → some (fold_gates state f events).citation_status
        ≡ latest (some f.citation_status) (verdicts any_turn citation_gate_name events)
  unfolding fold_gates fold_gate
  citation_status-fold f [] = refl
  citation_status-fold f (gate_evaluated t r ∷ events) =
      citation_status-fold (fold_gate state f (gate_evaluated t r)) events
      ∙ chosen-latest (r.gate == citation_gate_name) (some f.citation_status)
          (some (fold_gate state f (gate_evaluated t r)).citation_status) r.status
          (verdicts any_turn citation_gate_name events) (fold_gate-citation f t r)
  citation_status-fold f (_ ∷ events) = citation_status-fold f events

  module _ (gate : Text) (turn_gate : (gate == citation_gate_name) ≡ false) where
    recorded_for : Text → Fold → Option GateStatus
    recorded_for rid f = lookup gate (get_or rid [] f.worst)

    recorded_on : Text → Fold → Option GateStatus
    recorded_on turn f = lookup gate (get_or turn [] f.per_turn)

    record_gate-for :
        (rid t : Text) (r : Option Text) (g : Text) (s : GateStatus) (f : Fold)
        → recorded_for rid (record_gate t r g s f) ≡ (
            if is_of rid r && (g == gate)
            then some (worse_with (recorded_for rid f) s)
            else recorded_for rid f)
    unfolding record_gate worsen recorded_for worse_with
    record_gate-for rid t none g s f = refl
    record_gate-for rid t (some r) g s f = ground (
      arith,
      text_eq_iff r rid,
      text_eq_iff g gate,
      lookup-insert r rid (worsen g s (get_or r [] f.worst)) f.worst,
      lookup-insert g gate
          (elim (lookup g (get_or r [] f.worst)) [ none ↦ s | some was ↦ worse was s ])
          (get_or r [] f.worst),
    )

    record_gate-on :
        (turn t : Text) (r : Option Text) (g : Text) (s : GateStatus) (f : Fold)
        → recorded_on turn (record_gate t r g s f)
          ≡ (if is_bound r && (t == turn) && (g == gate) then some s else recorded_on turn f)
    unfolding record_gate recorded_on
    record_gate-on turn t none g s f = refl
    record_gate-on turn t (some r) g s f = ground (
      arith,
      text_eq_iff t turn,
      text_eq_iff g gate,
      lookup-insert t turn (insert g s (get_or t [] f.per_turn)) f.per_turn,
      lookup-insert g gate s (get_or t [] f.per_turn),
    )

    cited-other : (g : Text) → (g == citation_gate_name) ≡ true → (g == gate) ≡ false
    cited-other g cited = ground (
      arith,
      text_eq_iff g citation_gate_name,
      text_eq_iff g gate,
      text_eq_iff gate citation_gate_name,
      turn_gate,
    )

    fold_gate-for :
        (rid : Text) (f : Fold) (t : Text) (r : GateResult)
        → recorded_for rid (fold_gate state f (gate_evaluated t r)) ≡ (
            if for_request rid t && (r.gate == gate)
            then some (worse_with (recorded_for rid f) r.status)
            else recorded_for rid f)
    unfolding fold_gate recorded_for
    fold_gate-for rid f t r = elim (Bool-cases (text_eq r.gate citation_gate_name)) [
      | inl same ↦ rw (fold_gate, same) (ground (arith, cited-other r.gate same))
      | inr other ↦
          rw (fold_gate, other)
            (record_gate-for rid t (request_of (lookup t state.completed_turns)) r.gate r.status f)
    ]

    fold_gate-on :
        (turn : Text) (f : Fold) (t : Text) (r : GateResult)
        → recorded_on turn (fold_gate state f (gate_evaluated t r))
          ≡ (if on_turn turn t && (r.gate == gate) then some r.status else recorded_on turn f)
    unfolding fold_gate recorded_on
    fold_gate-on turn f t r = elim (Bool-cases (text_eq r.gate citation_gate_name)) [
      | inl same ↦ rw (fold_gate, same) (ground (arith, cited-other r.gate same))
      | inr other ↦
          rw (fold_gate, other)
            (record_gate-on turn t (request_of (lookup t state.completed_turns)) r.gate r.status f)
    ]

    fold_gates-for :
        (rid : Text) (f : Fold) (events : List (JournalEvent Usd))
        → recorded_for rid (fold_gates state f events)
          ≡ worsened (recorded_for rid f) (verdicts (for_request rid) gate events)
    unfolding fold_gates fold_gate
    fold_gates-for rid f [] = refl
    fold_gates-for rid f (gate_evaluated t r ∷ events) =
        let next = fold_gate state f (gate_evaluated t r) in
        fold_gates-for rid next events
        ∙ chosen-worsened (for_request rid t && (r.gate == gate)) (recorded_for rid f)
            (recorded_for rid next) r.status (verdicts (for_request rid) gate events)
            (fold_gate-for rid f t r)
    fold_gates-for rid f (_ ∷ events) = fold_gates-for rid f events

    fold_gates-on :
        (turn : Text) (f : Fold) (events : List (JournalEvent Usd))
        → recorded_on turn (fold_gates state f events)
          ≡ latest (recorded_on turn f) (verdicts (on_turn turn) gate events)
    unfolding fold_gates fold_gate
    fold_gates-on turn f [] = refl
    fold_gates-on turn f (gate_evaluated t r ∷ events) =
        let next = fold_gate state f (gate_evaluated t r) in
        fold_gates-on turn next events
        ∙ chosen-latest (on_turn turn t && (r.gate == gate)) (recorded_on turn f)
            (recorded_on turn next) r.status (verdicts (on_turn turn) gate events)
            (fold_gate-on turn f t r)
    fold_gates-on turn f (_ ∷ events) = fold_gates-on turn f events

abbrev pub current : Option GateStatus → GateStatus → GateStatus
current none worst = worst
current (some now) worst = now

-- The verdict of a gate, from its verdicts on a request and on the operative draft.
abbrev pub verdict_of : List GateStatus → List GateStatus → Option GateStatus
verdict_of [] on_operative = none
verdict_of (s ∷ statuses) on_operative =
    some (current (last on_operative) (worst_of (s ∷ statuses)))

pub worsened-none :
    (s : GateStatus) (statuses : List GateStatus)
    → worsened none (s ∷ statuses) ≡ some (worst_of (s ∷ statuses))
unfolding worse_with
worsened-none s statuses = worsened-worst_of s statuses

pub latest-none : (statuses : List GateStatus) → latest none statuses ≡ last statuses
latest-none [] = refl
latest-none (s ∷ statuses) = latest-last s statuses

pub latest-pass :
    (c : GateStatus) (statuses : List GateStatus)
    → some c ≡ latest (some pending) statuses
    → (c ≡ pass) ↔ (last statuses ≡ some pass)
latest-pass c [] e = (λ h. ground (arith, e, h), λ h. cc)
latest-pass c (s ∷ statuses) e =
    let found : some c ≡ last (s ∷ statuses) = e ∙ latest-last s statuses in
    ((λ h. sym found ∙ ap some h), (λ h. some-injective (found ∙ h)))
  where
    some-injective : {a b : GateStatus} → some a ≡ some b → a ≡ b
    some-injective h = cc

abbrev pub unrecorded : Fold
unrecorded = record { per_turn = []; worst = []; citation_status = pending }

module _ {Usd : Type 0} (state : RunState Usd) (gate : Text)
    (turn_gate : (gate == citation_gate_name) ≡ false) where
  pub for-worsened :
      (rid : Text) (events : List (JournalEvent Usd))
      → lookup gate (get_or rid [] (fold_gates state unrecorded events).worst)
        ≡ worsened none (verdicts (for_request state rid) gate events)
  unfolding recorded_for lookup
  for-worsened rid events = fold_gates-for state gate turn_gate rid unrecorded events

  pub on-latest :
      (turn : Text) (events : List (JournalEvent Usd))
      → lookup gate (get_or turn [] (fold_gates state unrecorded events).per_turn)
        ≡ latest none (verdicts (on_turn state turn) gate events)
  unfolding recorded_on lookup
  on-latest turn events = fold_gates-on state gate turn_gate turn unrecorded events

-- The citation gate passed last, and so it was verified at all.
pub citation_status-pass :
    {Usd : Type 0} (state : RunState Usd) (events : List (JournalEvent Usd))
    → ((fold_gates state unrecorded events).citation_status ≡ pass)
      ↔ (last (verdicts any_turn citation_gate_name events) ≡ some pass)
citation_status-pass state events =
    latest-pass (fold_gates state unrecorded events).citation_status
      (verdicts any_turn citation_gate_name events) (citation_status-fold state unrecorded events)
