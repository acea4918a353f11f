-- ===== src/Gates/Sound.antt =====
-- What the rounds of the search keep: the ordered names follow what they need.
use mootloop.Base.{
  ℕ, zero, suc, ◌≡◌, inl, inr, refl, ap, ◌∙◌, true, false, ◌||◌, not, Option, none, some, List, [],
  ◌∷◌, ◌++◌, Text, text_eq_iff, text_eq_key, ◌==◌, Bool-cases, Option-cases, if◌then◌else◌, filter,
  member, member-append, IsDistinct, IsDistinct-append_one, All, ok, err, arith, key_error,
}
use mootloop.Base.Dict.{lookup, contains}
use mootloop.Gates.Runtime.{Waiting, ready_of, settled, settle_all, round_of, rounds}
use mootloop.Gates.Rounds.{after_round-cases, member-without}

-- The order: every name follows what it needs.
module _ (need : Text → List Text) where
  abbrev pub AreAfter : List Text → List Text → Type 0
  AreAfter front [] = Unit
  AreAfter front (n ∷ names) =
      ((d : Text) → member d (need n) ≡ true → member d front ≡ true)
      × AreAfter (front ++ n ∷ []) names

  append_one-AreAfter :
      (front names : List Text) (n : Text)
      → AreAfter front names
      → ((d : Text) → member d (need n) ≡ true → member d (front ++ names) ≡ true)
      → AreAfter front (names ++ n ∷ [])
  append_one-AreAfter front [] n h last =
      ((λ d needed. ground (arith, member-append d front [], last d needed)), _)
  append_one-AreAfter front (m ∷ names) n h last = (
    h.0,
    append_one-AreAfter (front ++ m ∷ []) names n h.1 (λ d needed. ground (
      arith,
      member-append d (front ++ m ∷ []) names,
      member-append d front (m ∷ []),
      member-append d front (m ∷ names),
      last d needed,
    )),
  )

  -- What a round keeps: the ordered names follow what they need and are distinct, no waiting name
  -- is among them, and what a waiting name needs it waits for or is ordered.
  pub record IsSound (selected : List Text) (waiting : Waiting) (ordered : List Text) : Type 0 where
    pub after : AreAfter [] ordered
    pub distinct : IsDistinct ordered
    pub apart : (n : Text) → contains n waiting ≡ true → member n ordered ≡ false
    pub every : (n : Text) → (member n ordered || contains n waiting) ≡ member n selected
    pub awaited :
        (n d : Text) (ds : List Text)
        → lookup n waiting ≡ some ds
        → member d (need n) ≡ true
        → (member d ds || member d ordered) ≡ true

  lookup-settled :
      (n m : Text) (waiting : Waiting)
      → lookup m (settled n waiting) ≡ (
          if n == m then none else elim (lookup m waiting) [
            | none ↦ none
            | some ds ↦ some (filter (λ d. not (d == n)) ds)
          ])
  unfolding lookup settled
  lookup-settled n m [] = ground arith
  lookup-settled n m ((k, ds) ∷ waiting) =
      ground (arith, text_eq_iff n m, text_eq_iff k n, text_eq_iff k m, lookup-settled n m waiting)

  settled-apart :
      (ordered : List Text) (n m : Text) (waiting : Waiting)
      → (contains m waiting ≡ true → member m ordered ≡ false)
      → contains m (settled n waiting) ≡ true
      → member m (ordered ++ n ∷ []) ≡ false
  settled-apart ordered n m waiting apart left = elim (Bool-cases (contains m waiting)) [
    | inl there ↦ ground (
      arith,
      member-append m ordered (n ∷ []),
      lookup-settled n m waiting,
      apart there,
      text_eq_iff m n,
      text_eq_iff n m,
    )
    | inr gone ↦ ground (arith, lookup-settled n m waiting)
  ]

  settled-awaited :
      (ordered : List Text) (n m d : Text) (ds : List Text) (waiting : Waiting)
      → lookup m (settled n waiting) ≡ some ds
      → ((old : List Text)
          → lookup m waiting ≡ some old
          → (member d old || member d ordered) ≡ true)
      → (member d ds || member d (ordered ++ n ∷ [])) ≡ true
  settled-awaited ordered n m d ds waiting left awaited = elim (Option-cases (lookup m waiting)) [
    | inl gone ↦ ground (arith, lookup-settled n m waiting)
    | inr (old, found) ↦
        let kept : ds ≡ filter (λ x. not (x == n)) old =
          ground (arith, lookup-settled n m waiting) in
        rw kept (
          ground
            (arith, member-without n d old, awaited old found, member-append d ordered (n ∷ [])))
  ]

  settled-IsSound :
      (selected : List Text) (n : Text) (waiting : Waiting) (ordered : List Text)
      → IsSound selected waiting ordered
      → contains n waiting ≡ true
      → lookup n waiting ≡ some []
      → IsSound selected (settled n waiting) (ordered ++ n ∷ [])
  settled-IsSound selected n waiting ordered h there at = record {
    after =
        append_one-AreAfter [] ordered n h.after
          (λ d needed. ground (arith, h.awaited n d [] at needed));
    distinct = IsDistinct-append_one n ordered h.distinct (h.apart n there);
    apart = λ m in_left. settled-apart ordered n m waiting (h.apart m) in_left;
    every = λ m. ground (
      arith,
      member-append m ordered (n ∷ []),
      lookup-settled n m waiting,
      h.every m,
      h.every n,
      there,
      text_eq_iff m n,
      text_eq_iff n m,
    );
    awaited = λ m d ds left needed.
        settled-awaited ordered n m d ds waiting left (λ old found. h.awaited m d old found needed);
  }

  -- The ready names wait for nothing.
  abbrev AreReady : List Text → Waiting → Type 0
  AreReady ready waiting = All (λ n. (ds : List Text) → lookup n waiting ≡ some ds → ds ≡ []) ready

  still_empty :
      (n m : Text) (ds : List Text) (waiting : Waiting)
      → ((old : List Text) → lookup m waiting ≡ some old → old ≡ [])
      → lookup m (settled n waiting) ≡ some ds
      → ds ≡ []
  still_empty n m ds waiting h at = elim (Option-cases (lookup m waiting)) [
    | inl gone ↦ ground (arith, lookup-settled n m waiting)
    | inr (old, found) ↦
        let kept : ds ≡ filter (λ x. not (x == n)) old =
          ground (arith, lookup-settled n m waiting) in
        rw (kept, h old found) refl
  ]

  waits_for_nothing :
      (n : Text) (waiting : Waiting)
      → contains n waiting ≡ true
      → ((ds : List Text) → lookup n waiting ≡ some ds → ds ≡ [])
      → lookup n waiting ≡ some []
  waits_for_nothing n waiting there free = elim (Option-cases (lookup n waiting)) [
    | inl gone ↦ ground arith
    | inr (ds, found) ↦ found ∙ ap some (free ds found)
  ]

  ready_one :
      (n : Text) (got : Option (List Text)) (rest : List Text) (waiting : Waiting)
      → lookup n waiting ≡ got
      → AreReady rest waiting
      → AreReady (elim got [ none ↦ rest | some [] ↦ n ∷ rest | some (d ∷ ds) ↦ rest ]) waiting
  ready_one n none rest waiting at h = h
  ready_one n (some []) rest waiting at h = ((λ ds e. ground arith), h)
  ready_one n (some (d ∷ ds)) rest waiting at h = h

  settled-AreReady :
      (n : Text) (ready : List Text) (waiting : Waiting)
      → AreReady ready waiting
      → AreReady ready (settled n waiting)
  settled-AreReady n [] waiting h = _
  settled-AreReady n (m ∷ ready) waiting h =
      ((λ ds at. still_empty n m ds waiting h.0 at), settled-AreReady n ready waiting h.1)

  ready_of-AreReady :
      (selected : List Text) (waiting : Waiting) → AreReady (ready_of selected waiting) waiting
  unfolding ready_of
  ready_of-AreReady [] waiting = _
  ready_of-AreReady (n ∷ selected) waiting =
      ready_one n (lookup n waiting) (ready_of selected waiting) waiting refl
        (ready_of-AreReady selected waiting)

  settle_all-IsSound :
      (selected ready : List Text) (waiting : Waiting) (ordered : List Text) (left : Waiting)
      (more : List Text)
      → IsSound selected waiting ordered
      → AreReady ready waiting
      → settle_all ready waiting ordered ≡ ok (left, more)
      → IsSound selected left more
  unfolding settle_all
  settle_all-IsSound selected [] waiting ordered left more h free e =
      let same_left : waiting ≡ left = cc in
      let same_more : ordered ≡ more = cc in rw (← same_left, ← same_more) h
  settle_all-IsSound selected (n ∷ ready) waiting ordered left more h free e =
      elim (Bool-cases (contains n waiting)) [
        | inl there ↦
            let at = waits_for_nothing n waiting there free.0 in
            settle_all-IsSound selected ready (settled n waiting) (ordered ++ n ∷ []) left more
              (settled-IsSound selected n waiting ordered h there at)
              (settled-AreReady n ready waiting free.1) (rw there at e)
        | inr missing ↦ let raised : err key_error ≡ ok (left, more) = rw missing at e in cc
      ]

  round_of-IsSound :
      (selected ready : List Text) (waiting : Waiting) (ordered : List Text) (left : Waiting)
      (more : List Text)
      → IsSound selected waiting ordered
      → AreReady ready waiting
      → round_of ready waiting ordered ≡ ok (left, more)
      → IsSound selected left more
  unfolding round_of
  round_of-IsSound selected [] waiting ordered left more h free e = cc
  round_of-IsSound selected (n ∷ ready) waiting ordered left more h free e =
      settle_all-IsSound selected (n ∷ ready) waiting ordered left more h free e

  pub rounds-IsSound :
      (fuel : ℕ) (selected : List Text) (waiting : Waiting) (ordered result : List Text)
      → IsSound selected waiting ordered
      → rounds fuel selected waiting ordered ≡ some (ok result)
      → IsSound selected [] result
  unfolding rounds
  rounds-IsSound fuel selected [] ordered result h e =
      let same : ordered ≡ result = cc in rw (← same) h
  rounds-IsSound zero selected (w ∷ waiting) ordered result h e = cc
  rounds-IsSound (suc fuel) selected (w ∷ waiting) ordered result h e =
      let ready = ready_of selected (w ∷ waiting) in
      elim (after_round-cases (rounds fuel selected) (round_of ready (w ∷ waiting) ordered)
        (ok result) e) [
          | inl raised ↦ cc
          | inr (left, more, at, rest) ↦
              rounds-IsSound fuel selected left more result
                (round_of-IsSound selected ready (w ∷ waiting) ordered left more h
                  (ready_of-AreReady selected (w ∷ waiting)) at)
                rest
        ]
