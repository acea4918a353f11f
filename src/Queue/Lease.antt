-- ===== src/Queue/Lease.antt =====
-- A lease keeps every other claim away until it lapses.
use mootloop.Base.{
  ℕ, ◌+◌, ◌≤◌, ◌<◌, ◌≡◌, ◌≢◌, ◌∙◌, sym, ap, true, Option, some, List, arith, Text, ok, inl, inr,
  get_elem?, set, get_elem?-of_set, get_elem?-set_self,
}
use mootloop.Queue.{IsoTime, WorkItem, is_visible, lapsed, leased, claim}
use mootloop.Queue.Claim.{claim-Takes}

-- No two places of the file have the same item id.
abbrev pub HasDistinctIds : List WorkItem → Type 0
HasDistinctIds items =
    (j k : ℕ) (a b : WorkItem)
    → get_elem? items j ≡ some a
    → get_elem? items k ≡ some b
    → a.item_id ≡ b.item_id
    → j ≡ k

module _ (time : IsoTime) where
  stamped-visible :
      (now at : ℕ) (matter_id : Option Text) (it : WorkItem)
      → it.visible_at ≡ time.iso at
      → is_visible time now matter_id it ≡ ok true
      → at ≤ now
  unfolding is_visible lapsed
  stamped-visible now at matter_id it e v = ground (arith, time.parse-iso at)

  -- Between two claims with no other operation in between, in a file with distinct ids, the second
  -- one, made before the lease of the first lapses, takes another item, whichever workers and
  -- matters they are for.
  pub claim-exclusive :
      (items after later : List WorkItem) (worker other_worker : Text)
      (now timeout then_ other_timeout : ℕ) (matter other_matter : Option Text) (c d : WorkItem)
      → HasDistinctIds items
      → claim time worker now timeout matter items ≡ ok (some c, after)
      → claim time other_worker then_ other_timeout other_matter after ≡ ok (some d, later)
      → then_ < now + timeout
      → d.item_id ≢ c.item_id
  unfolding leased
  claim-exclusive items after later worker other_worker now timeout then_ other_timeout matter
        other_matter c d distinct e f soon same =
      let (p, it, at, v, is_c, written, least) =
        claim-Takes time worker now timeout matter items c after e in
      let (q, it2, at2, v2, is_d, written2, least2) =
        claim-Takes time other_worker then_ other_timeout other_matter after d later f in
      let there : get_elem? (set items p c) q ≡ some it2 = rw written at at2 in
      let stamp : c.visible_at ≡ time.iso (now + timeout) = ap (λ x. x.visible_at) is_c in
      let too_soon : it2 ≡ c → ⊥ = λ taken. absurd (
        omega (
          arith,
          stamped-visible then_ (now + timeout) other_matter it2
              (ap (λ x. x.visible_at) taken ∙ stamp) v2,
        )) in
      elim (get_elem?-of_set items p q c it2 there) [
        | inl (pq, taken) ↦ too_soon taken
        | inr kept ↦
            let pq : q ≡ p =
              distinct q p it2 it kept at
                (sym (ap (λ x. x.item_id) is_d) ∙ same ∙ ap (λ x. x.item_id) is_c) in
            let own = get_elem?-set_self items p c it at in
            let again : get_elem? (set items p c) p ≡ some it2 = rw pq at there in
            let taken : it2 ≡ c = cc (again, own) in too_soon taken
      ]
