-- ===== src/Queue/Examples.antt =====
-- A queue of two items, and the theorems on it.
use mootloop.Base.{
  ℕ, zero, suc, ◌≡◌, refl, ◌≢◌, Bool, true, not, Option, none, some, List, [], ◌∷◌, arith, Text,
  codes, text_eq, text_eq_key, text_eq_iff, ap, ◌∙◌, sym, ◌==◌, text_lt, ok, filter, any,
}
use mootloop.Journal.Events.{interactive, run}
use mootloop.Queue.{
  IsoTime, WorkItem, claim, complete, release, heartbeat, release_all_claimed_by, ensure_enqueued,
  is_owned, leased,
}
use mootloop.Queue.Claim.{Takes, claim-Takes}
use mootloop.Queue.Lease.{HasDistinctIds, claim-exclusive}
use mootloop.Queue.Ownership.{ids, complete_lem, claim-ids, ensure_enqueued-again}

-- A stamp is the instant itself, as a text of one code point.
abbrev stamp_parse : Text → Option ℕ
stamp_parse (t ∷ []) = some t
stamp_parse _ = none

abbrev stamps : IsoTime
stamps = record {
  iso = λ t. t ∷ [];
  parse = stamp_parse;
  parse-iso = λ t. refl;
  epoch = 0 ∷ [];
  parse-epoch = refl;
}

abbrev batch : WorkItem
batch = record {
  item_id = codes "run:m:r";
  lane = run;
  matter_id = codes "m";
  run_id = codes "r";
  kind = codes "run_turn";
  enqueued_at = 1 ∷ [];
  visible_at = 1 ∷ [];
  attempts = 0;
  claimed_by = none;
  payload = [];
}

abbrev urgent : WorkItem
urgent = record batch {
  item_id = codes "chat";
  lane = interactive;
  enqueued_at = 3 ∷ [];
  visible_at = 3 ∷ [];
}

abbrev items : List WorkItem
items = batch ∷ urgent ∷ []

abbrev ann : Text
ann = codes "ann"

abbrev bob : Text
bob = codes "bob"

abbrev taken : WorkItem
taken = record urgent { visible_at = 14 ∷ []; attempts = 1; claimed_by = some (codes "ann") }

program : Unit {0}
unfolding claim text_eq text_lt is_owned ensure_enqueued
program = tt

-- The interactive item goes first, although it was enqueued later.
claim-items : claim stamps ann 4 10 none items ≡ ok (some taken, batch ∷ taken ∷ [])
unfolding program
claim-items = refl

claim-Takes_example : Takes stamps ann 4 10 none items taken (batch ∷ taken ∷ [])
claim-Takes_example = claim-Takes stamps ann 4 10 none items taken (batch ∷ taken ∷ []) claim-items

claim-early : claim stamps ann 0 10 none items ≡ ok (none, items)
unfolding program
claim-early = refl

claim-batch :
    claim stamps bob 5 10 none (batch ∷ taken ∷ [])
    ≡ ok (some (leased stamps bob 15 batch), leased stamps bob 15 batch ∷ taken ∷ [])
unfolding program
claim-batch = refl

batch-ne-urgent : batch.item_id ≢ urgent.item_id
unfolding text_eq
batch-ne-urgent e = cc ((text_eq_iff batch.item_id urgent.item_id).1 e)

items-HasDistinctIds : HasDistinctIds items
items-HasDistinctIds zero zero a b p q e = refl
items-HasDistinctIds zero (suc zero) a b p q e =
    let pa : batch ≡ a = cc in
    let qb : urgent ≡ b = cc in
    absurd (batch-ne-urgent (ap (λ x. x.item_id) pa ∙ e ∙ sym (ap (λ x. x.item_id) qb)))
items-HasDistinctIds zero (suc (suc k)) a b p q e = cc
items-HasDistinctIds (suc zero) zero a b p q e =
    let pa : urgent ≡ a = cc in
    let qb : batch ≡ b = cc in
    absurd (batch-ne-urgent (ap (λ x. x.item_id) qb ∙ sym e ∙ sym (ap (λ x. x.item_id) pa)))
items-HasDistinctIds (suc zero) (suc zero) a b p q e = refl
items-HasDistinctIds (suc zero) (suc (suc k)) a b p q e = cc
items-HasDistinctIds (suc (suc j)) k a b p q e = cc

claim-exclusive_example : (leased stamps bob 15 batch).item_id ≢ taken.item_id
claim-exclusive_example =
    claim-exclusive stamps items (batch ∷ taken ∷ []) (leased stamps bob 15 batch ∷ taken ∷ []) ann
      bob 4 10 5 10 none none taken (leased stamps bob 15 batch) items-HasDistinctIds claim-items
      claim-batch (omega arith)

complete_lem_example :
    ◌≡◌ {A = List WorkItem × Bool} (complete (codes "chat") ann (batch ∷ taken ∷ [])) (
      filter (λ it. not (is_owned (codes "chat") ann it)) (batch ∷ taken ∷ []),
      any (is_owned (codes "chat") ann) (batch ∷ taken ∷ []),
    )
complete_lem_example = complete_lem (codes "chat") ann (batch ∷ taken ∷ [])

claim-ids_example :
    (ids (batch ∷ taken ∷ []) ≡ ids items)
    × (ids (heartbeat stamps (codes "chat") ann 4 10 items).0 ≡ ids items)
    × (ids (release stamps (codes "chat") ann none true items).0 ≡ ids items)
    × (ids (release_all_claimed_by stamps ann items).0 ≡ ids items)
claim-ids_example =
    claim-ids stamps (codes "chat") ann 4 10 none none true items (batch ∷ taken ∷ []) taken
      claim-items

ensure-again : ensure_enqueued batch items ≡ ok (batch, items)
unfolding program
ensure-again = refl

ensure_enqueued-again_example :
    (filter (λ it. it.item_id == batch.item_id) items ≡ batch ∷ [])
    × (ensure_enqueued batch items ≡ ok (batch, items))
ensure_enqueued-again_example = ensure_enqueued-again batch batch items items ensure-again
