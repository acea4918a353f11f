-- ===== src/Queue/Claim.antt =====
-- What a claim takes, and that it changes nothing else.
use mootloop.Base.{
  ℕ, zero, suc, ◌+◌, ◌≡◌, refl, ◌∙◌, sym, ap, Bool, true, false, Option, none, some, List, [], ◌∷◌,
  arith, Text, Result, ok, ◌>>=◌, >>=-eq-ok, if◌then◌else◌, All-In, In, inl, inr, ◌⊎◌, get_elem?,
  set,
}
use mootloop.Queue.{
  IsoTime, WorkItem, key_lt, is_visible, visible, min_by_key, leased, take_chosen, claim,
}
use mootloop.Queue.Order.{min_by_key-IsLeast, min_by_key-In}

module _ (time : IsoTime) (now : ℕ) (matter_id : Option Text) where
  -- A place and the visible item that stands there.
  abbrev IsShown : ℕ → List WorkItem → ℕ × WorkItem → Type 0
  IsShown place items (p, it) =
      (k : ℕ) × (p ≡ place + k)
      × (get_elem? items k ≡ some it)
      × (is_visible time now matter_id it ≡ ok true)

  shift-IsShown :
      (place : ℕ) (x : WorkItem) (items : List WorkItem) (entry : ℕ × WorkItem)
      → IsShown (suc place) items entry
      → IsShown place (x ∷ items) entry
  shift-IsShown place x items (p, it) (k, e, at, shown) = (suc k, omega arith, at, shown)

  visible-cons :
      (place : ℕ) (x : WorkItem) (items : List WorkItem) (shown : List (ℕ × WorkItem))
      → visible time now matter_id place (x ∷ items) ≡ ok shown
      → (v : Bool) × (rest : List (ℕ × WorkItem)) × (is_visible time now matter_id x ≡ ok v)
        × (visible time now matter_id (suc place) items ≡ ok rest)
        × (shown ≡ (if v then (place, x) ∷ rest else rest))
  unfolding visible
  visible-cons place x items shown e =
      let more : Bool → List (ℕ × WorkItem) → Result (List (ℕ × WorkItem)) =
        λ v rest. ok (if v then (place, x) ∷ rest else rest) in
      let (v, e1, e2) =
        >>=-eq-ok (is_visible time now matter_id x)
          (λ v. visible time now matter_id (suc place) items >>= more v) e in
      let (rest, e3, e4) = >>=-eq-ok (visible time now matter_id (suc place) items) (more v) e2 in
      (v, rest, e1, e3, cc)

  kept_cases :
      (v : Bool) (a x : ℕ × WorkItem) (rest : List (ℕ × WorkItem))
      → In a (if v then x ∷ rest else rest)
      → (v ≡ true) × (a ≡ x) ⊎ In a rest
  kept_cases true a x rest (inl e) = inl (refl, e)
  kept_cases true a x rest (inr m) = inr m
  kept_cases false a x rest m = inr m

  kept_later :
      (v : Bool) (a x : ℕ × WorkItem) (rest : List (ℕ × WorkItem))
      → In a rest
      → In a (if v then x ∷ rest else rest)
  kept_later true a x rest m = inr m
  kept_later false a x rest m = m

  visible-IsShown :
      (place : ℕ) (items : List WorkItem) (shown : List (ℕ × WorkItem)) (entry : ℕ × WorkItem)
      → visible time now matter_id place items ≡ ok shown
      → In entry shown
      → IsShown place items entry
  visible-IsShown place [] shown entry e m =
      let empty : shown ≡ [] = unfold visible in cc in absurd (rw empty at m)
  visible-IsShown place (x ∷ items) shown entry e m =
      let (v, rest, e1, e2, e3) = visible-cons place x items shown e in
      elim (kept_cases v entry (place, x) rest (rw e3 at m)) [
        | inl (on, here) ↦
            let this : IsShown place (x ∷ items) (place, x) =
              (0, omega arith, refl, e1 ∙ ap ok on) in
            rw here this
        | inr later ↦
            shift-IsShown place x items entry
              (visible-IsShown (suc place) items rest entry e2 later)
      ]

  IsShown-visible :
      (place : ℕ) (items : List WorkItem) (shown : List (ℕ × WorkItem)) (k : ℕ) (it : WorkItem)
      → visible time now matter_id place items ≡ ok shown
      → get_elem? items k ≡ some it
      → is_visible time now matter_id it ≡ ok true
      → In (place + k, it) shown
  IsShown-visible place [] shown k it e at v = cc
  IsShown-visible place (x ∷ items) shown zero it e at v =
      let (u, rest, e1, e2, e3) = visible-cons place x items shown e in
      let same : x ≡ it = cc in
      let on : u ≡ true = cc (ap (is_visible time now matter_id) same) in
      let start : place + 0 ≡ place = omega arith in rw (e3, on) (inl (λ i. (start i, sym same i)))
  IsShown-visible place (x ∷ items) shown (suc k) it e at v =
      let (u, rest, e1, e2, e3) = visible-cons place x items shown e in
      let later = IsShown-visible (suc place) items rest k it e2 at v in
      let shift : suc place + k ≡ place + suc k = omega arith in
      rw e3 (kept_later u (place + suc k, it) (place, x) rest (rw shift at later))

module _ (time : IsoTime) (worker_id : Text) (now timeout : ℕ) (matter_id : Option Text)
    (items : List WorkItem) where
  -- The item at one place is visible, no visible item of the matter comes before it in the order
  -- of lane and enqueue stamp, and the new list has its lease at that place and nothing else new.
  abbrev pub Takes : WorkItem → List WorkItem → Type 0
  Takes c after =
      (place : ℕ) × (it : WorkItem) × (get_elem? items place ≡ some it)
      × (is_visible time now matter_id it ≡ ok true)
      × (c ≡ leased time worker_id (now + timeout) it)
      × (after ≡ set items place c)
      × ((k : ℕ) (other : WorkItem)
          → get_elem? items k ≡ some other
          → is_visible time now matter_id other ≡ ok true
          → key_lt other it ≡ false)

  take_chosen-Takes :
      (shown : List (ℕ × WorkItem)) (c : WorkItem) (after : List WorkItem)
      → visible time now matter_id 0 items ≡ ok shown
      → take_chosen time worker_id (now + timeout) items shown ≡ (some c, after)
      → Takes c after
  unfolding take_chosen
  take_chosen-Takes [] c after e t = absurd (none_some (ap (λ r. r.0) t))
    where
      none_some : none ≡ some c → ⊥
      none_some e = cc
  take_chosen-Takes (first ∷ more) c after e t =
      let chosen : ℕ × WorkItem = min_by_key time first more in
      let (k, p, at, v) =
        visible-IsShown time now matter_id 0 items (first ∷ more) chosen e
          (min_by_key-In time first more) in
      let found : some (leased time worker_id (now + timeout) chosen.1) ≡ some c =
        ap (λ r. r.0) t in
      let written : set items chosen.0 (leased time worker_id (now + timeout) chosen.1) ≡ after =
        ap (λ r. r.1) t in
      let is_c : c ≡ leased time worker_id (now + timeout) chosen.1 = cc in
      let place_k : chosen.0 ≡ k = omega arith in
      (
        k,
        chosen.1,
        at,
        v,
        is_c,
        sym written ∙ (λ i. set items (place_k i) (sym is_c i)),
        λ j other there shown_too.
            All-In (λ y. key_lt y.1 chosen.1 ≡ false) (0 + j, other) (first ∷ more)
              (min_by_key-IsLeast time first more)
              (IsShown-visible time now matter_id 0 items (first ∷ more) j other e there shown_too),
      )

  -- A claim that takes an item takes a visible one of the asked matter that no other visible one
  -- precedes: the interactive lane first, then the smaller enqueue stamp. The returned copy is that
  -- item owned by the worker, with one more attempt and a lease until now plus the timeout, and
  -- the file changes at that item's place only.
  pub claim-Takes :
      (c : WorkItem) (after : List WorkItem)
      → claim time worker_id now timeout matter_id items ≡ ok (some c, after)
      → Takes c after
  unfolding claim
  claim-Takes c after e =
      let (shown, e1, e2) =
        >>=-eq-ok (visible time now matter_id 0 items)
          (λ shown. ok (take_chosen time worker_id (now + timeout) items shown)) e in
      take_chosen-Takes shown c after e1 (ok_inj e2)
    where
      ok_inj : {p q : Option WorkItem × List WorkItem} → ok p ≡ ok q → p ≡ q
      ok_inj h = cc

  take_chosen-none :
      (shown : List (ℕ × WorkItem)) (after : List WorkItem)
      → take_chosen time worker_id (now + timeout) items shown ≡ (none, after)
      → (shown ≡ []) × (after ≡ items)
  unfolding take_chosen
  take_chosen-none [] after e = (refl, sym (ap (λ r. r.1) e))
  take_chosen-none (first ∷ more) after e = absurd (some_none (ap (λ r. r.0) e))
    where
      some_none : {c : WorkItem} → some c ≡ none → ⊥
      some_none h = cc

  -- A claim that takes nothing leaves the file alone, and no item of the asked matter was visible.
  pub claim-none :
      (after : List WorkItem)
      → claim time worker_id now timeout matter_id items ≡ ok (none, after)
      → (after ≡ items)
        × ((k : ℕ) (it : WorkItem)
            → get_elem? items k ≡ some it
            → ¬ (is_visible time now matter_id it ≡ ok true))
  unfolding claim
  claim-none after e =
      let (shown, e1, e2) =
        >>=-eq-ok (visible time now matter_id 0 items)
          (λ shown. ok (take_chosen time worker_id (now + timeout) items shown)) e in
      let (empty, same) = take_chosen-none shown after (ok_inj e2) in
      (
        same,
        λ k it there v.
            rw empty at (IsShown-visible time now matter_id 0 items shown k it e1 there v),
      )
    where
      ok_inj : {p q : Option WorkItem × List WorkItem} → ok p ≡ ok q → p ≡ q
      ok_inj h = cc
