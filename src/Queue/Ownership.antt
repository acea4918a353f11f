-- ===== src/Queue/Ownership.antt =====
-- Only the owner of an item gives it back or removes it, and no operation but `complete` and the
-- two ways to add an item changes which ids the file has.
use mootloop.Base.{
  ℕ, ◌+◌, ◌<◌, ◌≡◌, refl, ap, Bool, true, false, not, Option, some, List, [], ◌∷◌, ◌++◌, map, arith,
  Text, text_eq_key, text_eq_iff, ◌==◌, ==_refl, ok, Bool-cases, inl, inr, filter, any, length,
  length-filter-le, map-set_same,
}
use mootloop.Queue.{
  IsoTime, WorkItem, is_owned, claimed_by_worker, update_first, complete, same_work, ensure_matched,
  ensure_enqueued, lane_eq, leased, claim, heartbeat, released, release, release_all_claimed_by,
}
use mootloop.Queue.Claim.{claim-Takes}
use mootloop.Journal.Events.{Lane, interactive, run}

-- The ids in the file, in order.
abbrev pub ids : List WorkItem → List Text
ids = map (λ it. it.item_id)

filter_all :
    (p : WorkItem → Bool) (items : List WorkItem)
    → any p items ≡ false
    → filter (λ it. not (p it)) items ≡ items
filter_all p [] h = refl
filter_all p (it ∷ items) h = ground (arith, filter_all p items)

filter_short :
    (p : WorkItem → Bool) (items : List WorkItem)
    → any p items ≡ true
    → length (filter (λ it. not (p it)) items) < length items
filter_short p [] h = cc
filter_short p (it ∷ items) h =
    ground (arith, filter_short p items, length-filter-le (λ x. not (p x)) items)

-- `complete` reports true exactly when the worker owns an item of that id, and leaves exactly the
-- items that it does not own under that id.
pub complete_lem :
    (item_id worker_id : Text) (items : List WorkItem)
    → ◌≡◌ {A = List WorkItem × Bool} (complete item_id worker_id items) (
      filter (λ it. not (is_owned item_id worker_id it)) items,
      any (is_owned item_id worker_id) items,
    )
unfolding complete
complete_lem item_id worker_id items = elim (Bool-cases (any (is_owned item_id worker_id) items)) [
  | inl owned ↦ ground (arith, filter_short (is_owned item_id worker_id) items owned)
  | inr other ↦ ground (arith, filter_all (is_owned item_id worker_id) items other)
]

update_first-any :
    (p : WorkItem → Bool) (f : WorkItem → WorkItem) (items : List WorkItem)
    → (update_first p f items).1 ≡ any p items
unfolding update_first
update_first-any p f [] = refl
update_first-any p f (it ∷ items) = ground (arith, update_first-any p f items)

update_first-ids :
    (p : WorkItem → Bool) (f : WorkItem → WorkItem) (items : List WorkItem)
    → ((it : WorkItem) → (f it).item_id ≡ it.item_id)
    → ids (update_first p f items).0 ≡ ids items
unfolding update_first
update_first-ids p f [] h = refl
update_first-ids p f (it ∷ items) h = ground (arith, h it, update_first-ids p f items h)

update_first-none :
    (p : WorkItem → Bool) (f : WorkItem → WorkItem) (items : List WorkItem)
    → any p items ≡ false
    → (update_first p f items).0 ≡ items
unfolding update_first
update_first-none p f [] h = refl
update_first-none p f (it ∷ items) h = ground (arith, update_first-none p f items)

module _ (time : IsoTime) where
  -- A release or a heartbeat by a worker that owns no item of that id reports false and leaves the
  -- file as it was.
  pub release-none :
      (item_id worker_id : Text) (visible_at : Option ℕ) (refund : Bool) (now timeout : ℕ)
      (items : List WorkItem)
      → any (is_owned item_id worker_id) items ≡ false
      → (release time item_id worker_id visible_at refund items ≡ (items, false))
        × (heartbeat time item_id worker_id now timeout items ≡ (items, false))
  unfolding release heartbeat
  release-none item_id worker_id visible_at refund now timeout items h = ground (
    arith,
    update_first-none (is_owned item_id worker_id) (released time visible_at refund) items h,
    update_first-any (is_owned item_id worker_id) (released time visible_at refund) items,
    update_first-none (is_owned item_id worker_id)
        (λ it. record it { visible_at = time.iso (now + timeout) }) items h,
    update_first-any (is_owned item_id worker_id)
        (λ it. record it { visible_at = time.iso (now + timeout) }) items,
  )

  release_all-ids :
      (worker_id : Text) (items : List WorkItem)
      → ids (release_all_claimed_by time worker_id items).0 ≡ ids items
  unfolding release_all_claimed_by
  release_all-ids worker_id [] = refl
  release_all-ids worker_id (it ∷ items) = ground (arith, release_all-ids worker_id items)

  -- A claim, a heartbeat, a release and a release of all keep the ids of the file, in their order:
  -- no item is lost or doubled.
  pub claim-ids :
      (item_id worker_id : Text) (now timeout : ℕ) (matter : Option Text) (visible_at : Option ℕ)
      (refund : Bool) (items after : List WorkItem) (c : WorkItem)
      → claim time worker_id now timeout matter items ≡ ok (some c, after)
      → (ids after ≡ ids items)
        × (ids (heartbeat time item_id worker_id now timeout items).0 ≡ ids items)
        × (ids (release time item_id worker_id visible_at refund items).0 ≡ ids items)
        × (ids (release_all_claimed_by time worker_id items).0 ≡ ids items)
  unfolding heartbeat release released leased
  claim-ids item_id worker_id now timeout matter visible_at refund items after c e =
      let (p, it, at, v, is_c, written, least) =
        claim-Takes time worker_id now timeout matter items c after e in
      (
        rw written (map-set_same (λ x. x.item_id) items p c it at (ap (λ x. x.item_id) is_c)),
        update_first-ids (is_owned item_id worker_id)
            (λ it. record it { visible_at = time.iso (now + timeout) }) items (λ it. refl),
        update_first-ids (is_owned item_id worker_id) (released time visible_at refund) items
            (λ it. refl),
        release_all-ids worker_id items,
      )

  -- After a release of all, the worker owns nothing, and the number returned is that of the items
  -- that it owned.
  pub release_all_lem :
      (worker_id : Text) (items : List WorkItem)
      → let (after, freed) = release_all_claimed_by time worker_id items in
        (any (λ it. claimed_by_worker it.claimed_by worker_id) after ≡ false)
        × (freed ≡ length (filter (λ it. claimed_by_worker it.claimed_by worker_id) items))
  unfolding release_all_claimed_by claimed_by_worker
  release_all_lem worker_id [] = (refl, refl)
  release_all_lem worker_id (it ∷ items) = ground (arith, release_all_lem worker_id items)

lane_same : (l : Lane) → lane_eq l l ≡ true
unfolding lane_eq
lane_same interactive = refl
lane_same run = refl

same_work_refl : (it : WorkItem) → same_work it it ≡ true
unfolding same_work
same_work_refl it = ground (
  arith,
  lane_same it.lane,
  text_eq_iff it.matter_id it.matter_id,
  text_eq_iff it.run_id it.run_id,
  text_eq_iff it.kind it.kind,
  text_eq_iff it.payload it.payload,
)

filter-append_one :
    (p : WorkItem → Bool) (x : WorkItem) (items : List WorkItem)
    → p x ≡ true
    → filter p (items ++ x ∷ []) ≡ filter p items ++ x ∷ []
filter-append_one p x [] h = ground arith
filter-append_one p x (it ∷ items) h = ground (arith, filter-append_one p x items h)

ensure_matched-again :
    (item found : WorkItem) (items after : List WorkItem) (matches : List WorkItem)
    → filter (λ it. it.item_id == item.item_id) items ≡ matches
    → ensure_matched item items matches ≡ ok (found, after)
    → (filter (λ it. it.item_id == item.item_id) after ≡ found ∷ [])
      × (ensure_matched item after (found ∷ []) ≡ ok (found, after))
unfolding ensure_matched
ensure_matched-again item found items after [] m e =
    let new : item ≡ found = cc in
    let grown : items ++ item ∷ [] ≡ after = cc in
    let one =
      filter-append_one (λ it. it.item_id == item.item_id) item items (==_refl item.item_id) in
    (rw (← grown, one, m, new), rw (← new) (rw (same_work_refl item)))
ensure_matched-again item found items after (existing ∷ []) m e =
    elim (Bool-cases (same_work existing item)) [
      | inl same ↦
          let old : existing ≡ found = ground arith in
          let kept : items ≡ after = ground arith in
          (rw (← kept, m, old), rw (← old, ← kept) (rw same))
      | inr clash ↦ ground arith
    ]
ensure_matched-again item found items after (a ∷ b ∷ more) m e = cc

-- When `ensure_enqueued` returns an item, the file then has exactly that item under its id, and
-- asking again for the same work returns the same item and changes nothing.
pub ensure_enqueued-again :
    (item found : WorkItem) (items after : List WorkItem)
    → ensure_enqueued item items ≡ ok (found, after)
    → (filter (λ it. it.item_id == item.item_id) after ≡ found ∷ [])
      × (ensure_enqueued item after ≡ ok (found, after))
unfolding ensure_enqueued
ensure_enqueued-again item found items after e =
    let (one, again) =
      ensure_matched-again item found items after (filter (λ it. it.item_id == item.item_id) items)
        refl e in
    (one, rw one again)
