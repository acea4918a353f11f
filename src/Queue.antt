-- ===== src/Queue.antt =====
-- engine/queue.py, the file-based work queue. The state is the list of items in the file, which
-- every operation reads and replaces under the lock. ISO stamps are texts; reading and writing
-- them (datetime) is a parameter, over instants in microseconds since the epoch.
pub mod Order
pub mod Claim
pub mod Lease
pub mod Ownership
mod Examples
use mootloop.Base.{
  ℕ, suc, ◌+◌, ◌-◌, ◌≡◌, Bool, true, false, ◌&&◌, ◌||◌, not, Option, none, some, List, [], ◌∷◌,
  ◌++◌, Text, text_eq, text_eq_key, text_lt, codes, ◌==◌, leb, ltb, nat_eq, if◌then◌else◌, Result,
  ok, err, value_error, queue_error, ◌>>=◌, of_option, length, filter, set,
}
use mootloop.Journal.Events.{Lane, interactive, run}

pub record IsoTime : Type 0 where
  pub iso : ℕ → Text
  pub parse : Text → Option ℕ
  pub parse-iso : (t : ℕ) → parse (iso t) ≡ some t
  pub epoch : Text
  pub parse-epoch : parse epoch ≡ some 0

unfoldable pub lane_priority : Lane → ℕ
lane_priority interactive = 0
lane_priority run = 1

pub record WorkItem : Type 0 where
  pub item_id : Text
  pub lane : Lane
  pub matter_id : Text
  pub run_id : Text
  pub kind : Text
  pub enqueued_at : Text
  pub visible_at : Text
  pub attempts : ℕ
  pub claimed_by : Option Text
  pub payload : Text

-- Python's order on the tuples of `_sort_key`.
unfoldable pub key_lt : WorkItem → WorkItem → Bool
unfolding lane_priority
key_lt a b =
    ltb (lane_priority a.lane) (lane_priority b.lane)
    || (nat_eq (lane_priority a.lane) (lane_priority b.lane) && text_lt a.enqueued_at b.enqueued_at)

unfoldable pub lane_eq : Lane → Lane → Bool
lane_eq interactive interactive = true
lane_eq run run = true
lane_eq _ _ = false

unfoldable pub claimed_by_worker : Option Text → Text → Bool
claimed_by_worker none worker_id = false
claimed_by_worker (some w) worker_id = w == worker_id

-- `it.item_id == item_id and it.claimed_by == worker_id`
unfoldable pub is_owned : Text → Text → WorkItem → Bool
unfolding claimed_by_worker
is_owned item_id worker_id it = it.item_id == item_id && claimed_by_worker it.claimed_by worker_id

-- The loop that changes the first item with a property, and whether there was one.
unfoldable pub update_first :
    (WorkItem → Bool) → (WorkItem → WorkItem) → List WorkItem → List WorkItem × Bool
update_first p f [] = ([], false)
update_first p f (it ∷ items) =
    let (rest, done) = update_first p f items in
    if p it then (f it ∷ items, true) else (it ∷ rest, done)

unfoldable pub enqueue : WorkItem → List WorkItem → List WorkItem
enqueue item items = items ++ item ∷ []

-- The comparison of the five fields that identify the work.
unfoldable pub same_work : WorkItem → WorkItem → Bool
unfolding lane_eq
same_work a b =
    lane_eq a.lane b.lane
    && (a.matter_id == b.matter_id
        && (a.run_id == b.run_id && (a.kind == b.kind && a.payload == b.payload)))

unfoldable pub ensure_matched :
    WorkItem → List WorkItem → List WorkItem → Result (WorkItem × List WorkItem)
unfolding same_work
ensure_matched item items [] = ok (item, items ++ item ∷ [])
ensure_matched item items (existing ∷ []) =
    if same_work existing item then ok (existing, items) else err queue_error
ensure_matched item items (a ∷ b ∷ more) = err queue_error

unfoldable pub ensure_enqueued : WorkItem → List WorkItem → Result (WorkItem × List WorkItem)
unfolding ensure_matched
ensure_enqueued item items =
    ensure_matched item items (filter (λ it. it.item_id == item.item_id) items)

unfoldable pub complete : Text → Text → List WorkItem → List WorkItem × Bool
unfolding is_owned
complete item_id worker_id items =
    let kept = filter (λ it. not (is_owned item_id worker_id it)) items in
    if nat_eq (length kept) (length items) then (items, false) else (kept, true)

module _ (time : IsoTime) where
  unfoldable pub matches_matter : Option Text → WorkItem → Bool
  matches_matter none it = true
  matches_matter (some m) it = it.matter_id == m

  -- `_parse(it.visible_at) <= now`
  unfoldable pub lapsed : ℕ → WorkItem → Result Bool
  lapsed now it = of_option value_error (time.parse it.visible_at) >>= λ at. ok (leb at now)

  -- The condition of the comprehension: the stamp is read only if the matter fits.
  unfoldable pub is_visible : ℕ → Option Text → WorkItem → Result Bool
  unfolding matches_matter lapsed
  is_visible now matter_id it = if matches_matter matter_id it then lapsed now it else ok false

  -- The visible items, each with its place in the list, which stands for the object's identity.
  unfoldable pub visible :
      ℕ → Option Text → (place : ℕ) → List WorkItem → Result (List (ℕ × WorkItem))
  unfolding is_visible
  visible now matter_id place [] = ok []
  visible now matter_id place (it ∷ items) = is_visible now matter_id it >>= λ shown.
      visible now matter_id (suc place) items >>= λ rest.
      ok (if shown then (place, it) ∷ rest else rest)

  unfoldable pub better : ℕ × WorkItem → ℕ × WorkItem → ℕ × WorkItem
  unfolding key_lt
  better x best = if key_lt x.1 best.1 then x else best

  -- `min(visible, key=...)`: the first of the least.
  unfoldable pub min_by_key : ℕ × WorkItem → List (ℕ × WorkItem) → ℕ × WorkItem
  unfolding better
  min_by_key best [] = best
  min_by_key best (x ∷ xs) = min_by_key (better x best) xs

  unfoldable pub leased : Text → ℕ → WorkItem → WorkItem
  leased worker_id until it = record it {
    visible_at = time.iso until;
    attempts = it.attempts + 1;
    claimed_by = some worker_id;
  }

  unfoldable pub take_chosen :
      Text → ℕ → List WorkItem → List (ℕ × WorkItem) → Option WorkItem × List WorkItem
  unfolding min_by_key leased
  take_chosen worker_id until items [] = (none, items)
  take_chosen worker_id until items (first ∷ more) =
      let (place, chosen) = min_by_key first more in
      (some (leased worker_id until chosen), set items place (leased worker_id until chosen))

  unfoldable pub claim :
      Text
      → (now visibility_timeout : ℕ) → Option Text
      → List WorkItem
      → Result (Option WorkItem × List WorkItem)
  unfolding visible take_chosen
  claim worker_id now visibility_timeout matter_id items =
      visible now matter_id 0 items >>= λ shown.
      ok (take_chosen worker_id (now + visibility_timeout) items shown)

  unfoldable pub heartbeat :
      Text → Text → (now visibility_timeout : ℕ) → List WorkItem → List WorkItem × Bool
  unfolding update_first is_owned
  heartbeat item_id worker_id now visibility_timeout =
      update_first (is_owned item_id worker_id)
        (λ it. record it { visible_at = time.iso (now + visibility_timeout) })

  unfoldable pub released : Option ℕ → Bool → WorkItem → WorkItem
  released visible_at refund_attempt it = record it {
    visible_at = elim visible_at [ none ↦ time.epoch | some at ↦ time.iso at ];
    attempts = if refund_attempt then it.attempts - 1 else it.attempts;
    claimed_by = none;
  }

  unfoldable pub release : Text → Text → Option ℕ → Bool → List WorkItem → List WorkItem × Bool
  unfolding update_first is_owned released
  release item_id worker_id visible_at refund_attempt =
      update_first (is_owned item_id worker_id) (released visible_at refund_attempt)

  unfoldable pub release_all_claimed_by : Text → List WorkItem → List WorkItem × ℕ
  unfolding claimed_by_worker
  release_all_claimed_by worker_id [] = ([], 0)
  release_all_claimed_by worker_id (it ∷ items) =
      let (rest, freed) = release_all_claimed_by worker_id items in
      if claimed_by_worker it.claimed_by worker_id
      then (record it { claimed_by = none; visible_at = time.epoch } ∷ rest, freed + 1)
      else (it ∷ rest, freed)
