-- ===== src/Decisions/Derived.antt =====
-- What the derivation of gates keeps of the decision log.
use mootloop.Base.{
  ◌≡◌, refl, sym, ap, ◌∙◌, inl, inr, Bool, true, false, some, text_eq_key, List, [], ◌∷◌, ◌++◌, map,
  Text, Bool-cases, member, length, IsDistinct, IsDistinct-append_one, member-append, member-last,
  All, All-append, All-of_append, In, length-append, arith,
}
use mootloop.Base.Dict.{Dict, lookup}
use mootloop.Turn.{TurnSpec, DraftOutput}
use mootloop.Decisions.{
  Decision, DecisionStore, get, list_all, folded, append, make_decision_id, Key, key_eq, dedupe_key,
}
use mootloop.Decisions.Proposals.{Proposed}
use mootloop.Decisions.Derive.{
  Derivation, proposed_key, decision_of, store_new, propose, propose_all, begin, draft_proposals,
  derive_each, derive_drafts_and_store,
}
use mootloop.Decisions.Log.{IsNumbered, IsLog, folded-append_new, IsNumbered-append_new}

-- The loop's variables agree with the log.
record IsAt (run_id : Text) (at : Derivation) : Type 0 where
  numbered : IsNumbered run_id 0 (folded at.store)
  distinct : IsDistinct at.seen
  seen_all : at.seen ≡ map dedupe_key (list_all at.store)
  counted : at.seq ≡ length (folded at.store)

length-map : {A B : Type 0} (f : A → B) (xs : List A) → length (map f xs) ≡ length xs
length-map f [] = refl
length-map f (x ∷ xs) = rw (length-map f xs)

map-append_one :
    {A B : Type 0} (f : A → B) (xs : List A) (x : A) → map f (xs ++ x ∷ []) ≡ map f xs ++ f x ∷ []
map-append_one f [] y = refl
map-append_one f (x ∷ xs) y = rw (map-append_one f xs y)

begin-IsAt :
    (run_id : Text) (store : DecisionStore) → IsLog run_id store → IsAt run_id (begin store)
unfolding IsLog begin list_all
begin-IsAt run_id store h = record {
  numbered = h.0;
  distinct = h.1;
  seen_all = refl;
  counted = length-map (λ e. e.1) (folded store);
}

list_all-append_new :
    (run_id : Text) (d : Decision) (store : DecisionStore)
    → IsNumbered run_id 0 (folded store)
    → d.decision_id ≡ make_decision_id run_id (length (folded store))
    → list_all (append d store) ≡ list_all store ++ d ∷ []
unfolding list_all
list_all-append_new run_id d store h e =
    ap (map (λ x. x.1)) (folded-append_new run_id d store h e)
    ∙ map-append_one (λ x. x.1) (folded store) (d.decision_id, d)

store_new-IsAt :
    (run_id : Text) (p : Proposed) (at : Derivation)
    → IsAt run_id at
    → member (proposed_key p) at.seen ≡ false
    → IsAt run_id (store_new run_id p at)
unfolding store_new decision_of
store_new-IsAt run_id p at h new =
    let d = decision_of run_id at.seq p in
    let e : d.decision_id ≡ make_decision_id run_id (length (folded at.store)) =
      ap (make_decision_id run_id) h.counted in
    record {
      numbered = IsNumbered-append_new run_id d at.store h.numbered e;
      distinct = IsDistinct-append_one (proposed_key p) at.seen h.distinct new;
      seen_all =
          ap (λ s. s ++ proposed_key p ∷ []) h.seen_all
          ∙ sym (map-append_one dedupe_key (list_all at.store) d)
          ∙ ap (map dedupe_key) (sym (list_all-append_new run_id d at.store h.numbered e));
      counted =
          rw
            (
              folded-append_new run_id d at.store h.numbered e,
              length-append (folded at.store) ((d.decision_id, d) ∷ []),
              h.counted,
            )
            (omega arith);
    }

propose-IsAt :
    (run_id : Text) (p : Proposed) (at : Derivation)
    → IsAt run_id at
    → IsAt run_id (propose run_id p at)
unfolding propose
propose-IsAt run_id p at h = elim (Bool-cases (member (proposed_key p) at.seen)) [
  | inl old ↦ rw old h
  | inr new ↦ rw new (store_new-IsAt run_id p at h new)
]

propose_all-IsAt :
    (run_id : Text) (ps : List Proposed) (at : Derivation)
    → IsAt run_id at
    → IsAt run_id (propose_all run_id ps at)
unfolding propose_all
propose_all-IsAt run_id [] at h = h
propose_all-IsAt run_id (p ∷ ps) at h =
    propose_all-IsAt run_id ps (propose run_id p at) (propose-IsAt run_id p at h)

lookup-append :
    (k : Text) (front back : Dict Text Decision) (d : Decision)
    → lookup k front ≡ some d
    → lookup k (front ++ back) ≡ some d
unfolding lookup
lookup-append k [] back d found = cc
lookup-append k ((j, w) ∷ front) back d found = ground (arith, lookup-append k front back d)

-- What is in the log stays under its id.
store_new-get :
    (run_id : Text) (p : Proposed) (at : Derivation) (k : Text) (d : Decision)
    → IsAt run_id at
    → get k at.store ≡ some d
    → get k (store_new run_id p at).store ≡ some d
unfolding store_new decision_of get
store_new-get run_id p at k d h found =
    let new = decision_of run_id at.seq p in
    rw (folded-append_new run_id new at.store h.numbered (ap (make_decision_id run_id) h.counted))
      (lookup-append k (folded at.store) ((new.decision_id, new) ∷ []) d found)

propose-get :
    (run_id : Text) (p : Proposed) (at : Derivation) (k : Text) (d : Decision)
    → IsAt run_id at
    → get k at.store ≡ some d
    → get k (propose run_id p at).store ≡ some d
unfolding propose
propose-get run_id p at k d h found = elim (Bool-cases (member (proposed_key p) at.seen)) [
  | inl old ↦ rw old found
  | inr new ↦ rw new (store_new-get run_id p at k d h found)
]

propose_all-get :
    (run_id : Text) (ps : List Proposed) (at : Derivation) (k : Text) (d : Decision)
    → IsAt run_id at
    → get k at.store ≡ some d
    → get k (propose_all run_id ps at).store ≡ some d
unfolding propose_all
propose_all-get run_id [] at k d h found = found
propose_all-get run_id (p ∷ ps) at k d h found =
    propose_all-get run_id ps (propose run_id p at) k d (propose-IsAt run_id p at h)
      (propose-get run_id p at k d h found)

propose-member :
    (run_id : Text) (p : Proposed) (at : Derivation)
    → member (proposed_key p) (propose run_id p at).seen ≡ true
unfolding propose store_new
propose-member run_id p at = elim (Bool-cases (member (proposed_key p) at.seen)) [
  | inl old ↦ rw old old
  | inr new ↦ rw new (member-last (proposed_key p) at.seen)
]

propose-seen :
    (run_id : Text) (p : Proposed) (k : Key) (at : Derivation)
    → member k at.seen ≡ true
    → member k (propose run_id p at).seen ≡ true
unfolding propose store_new
propose-seen run_id p k at h = elim (Bool-cases (member (proposed_key p) at.seen)) [
  | inl old ↦ rw old h
  | inr new ↦ rw (new, member-append k at.seen (proposed_key p ∷ []), h) refl
]

propose_all-seen :
    (run_id : Text) (ps : List Proposed) (k : Key) (at : Derivation)
    → member k at.seen ≡ true
    → member k (propose_all run_id ps at).seen ≡ true
unfolding propose_all
propose_all-seen run_id [] k at h = h
propose_all-seen run_id (p ∷ ps) k at h =
    propose_all-seen run_id ps k (propose run_id p at) (propose-seen run_id p k at h)

-- Every proposal of the drafts has its key in the list.
abbrev AllSeen : List Key → List Proposed → Type 0
AllSeen seen ps = All (λ p. member (proposed_key p) seen ≡ true) ps

propose_all-AllSeen :
    (run_id : Text) (ps : List Proposed) (at : Derivation)
    → AllSeen (propose_all run_id ps at).seen ps
unfolding propose_all
propose_all-AllSeen run_id [] at = _
propose_all-AllSeen run_id (p ∷ ps) at = (
  propose_all-seen run_id ps (proposed_key p) (propose run_id p at) (propose-member run_id p at),
  propose_all-AllSeen run_id ps (propose run_id p at),
)

propose_all-idle :
    (run_id : Text) (ps : List Proposed) (at : Derivation)
    → AllSeen at.seen ps
    → propose_all run_id ps at ≡ at
unfolding propose_all propose
propose_all-idle run_id [] at h = refl
propose_all-idle run_id (p ∷ ps) at h = rw (h.0) (propose_all-idle run_id ps at h.1)

module _ (upper repr : Text → Text) (document : Bool) (run_id : Text) where
  -- The proposals of all drafts, in the order of the two loops.
  all_proposals : List (TurnSpec × DraftOutput) → List Proposed
  all_proposals [] = []
  all_proposals (draft ∷ drafts) = draft_proposals upper repr document draft ++ all_proposals drafts

  propose_all-append :
      (ps qs : List Proposed) (at : Derivation)
      → propose_all run_id (ps ++ qs) at ≡ propose_all run_id qs (propose_all run_id ps at)
  unfolding propose_all
  propose_all-append [] qs at = refl
  propose_all-append (p ∷ ps) qs at = propose_all-append ps qs (propose run_id p at)

  derive_each-flat :
      (drafts : List (TurnSpec × DraftOutput)) (at : Derivation)
      → derive_each upper repr document run_id drafts at
        ≡ propose_all run_id (all_proposals drafts) at
  unfolding derive_each all_proposals propose_all
  derive_each-flat [] at = refl
  derive_each-flat (draft ∷ drafts) at =
      derive_each-flat drafts (propose_all run_id (draft_proposals upper repr document draft) at)
      ∙ sym
          (propose_all-append (draft_proposals upper repr document draft) (all_proposals drafts) at)

  derive-IsAt :
      (drafts : List (TurnSpec × DraftOutput)) (store : DecisionStore)
      → IsLog run_id store
      → IsAt run_id (derive_drafts_and_store upper repr document run_id store drafts)
  unfolding derive_drafts_and_store
  derive-IsAt drafts store h =
      rw (derive_each-flat drafts (begin store))
        (propose_all-IsAt run_id (all_proposals drafts) (begin store) (begin-IsAt run_id store h))

  -- Deriving the gates of drafts keeps the log in order, if it was: the ids stay numbered from 0
  -- without a gap, and no logical gate (kind and summary) stands in it twice.
  pub derive_drafts_and_store-IsLog :
      (drafts : List (TurnSpec × DraftOutput)) (store : DecisionStore)
      → IsLog run_id store
      → IsLog run_id (derive_drafts_and_store upper repr document run_id store drafts).store
  unfolding IsLog
  derive_drafts_and_store-IsLog drafts store h =
      let at = derive-IsAt drafts store h in (at.numbered, rw (← at.seen_all) at.distinct)

  -- Deriving the gates of drafts leaves every decision of the log as it is, if it was in order.
  pub derive_drafts_and_store-get :
      (drafts : List (TurnSpec × DraftOutput)) (store : DecisionStore) (k : Text) (d : Decision)
      → IsLog run_id store
      → get k store ≡ some d
      → get k (derive_drafts_and_store upper repr document run_id store drafts).store ≡ some d
  unfolding derive_drafts_and_store begin
  derive_drafts_and_store-get drafts store k d h found =
      rw (derive_each-flat drafts (begin store)) (
        propose_all-get run_id (all_proposals drafts) (begin store) k d (begin-IsAt run_id store h)
          found)

  all_proposals-AllSeen :
      (seen : List Key) (again : List (TurnSpec × DraftOutput))
      → All (λ draft. AllSeen seen (draft_proposals upper repr document draft)) again
      → AllSeen seen (all_proposals again)
  unfolding all_proposals
  all_proposals-AllSeen seen [] h = _
  all_proposals-AllSeen seen (draft ∷ again) h =
      All-append (λ p. member (proposed_key p) seen ≡ true)
        (draft_proposals upper repr document draft) (all_proposals again) h.0
        (all_proposals-AllSeen seen again h.1)

  -- The proposals of a draft of the list are among all of them.
  AllSeen-In :
      (seen : List Key) (drafts : List (TurnSpec × DraftOutput)) (draft : TurnSpec × DraftOutput)
      → AllSeen seen (all_proposals drafts)
      → In draft drafts
      → AllSeen seen (draft_proposals upper repr document draft)
  unfolding all_proposals
  AllSeen-In seen [] draft h at = absurd at
  AllSeen-In seen (other ∷ drafts) draft h (inl e) =
      rw e
        (All-of_append (λ p. member (proposed_key p) seen ≡ true)
          (draft_proposals upper repr document other) (all_proposals drafts) h).0
  AllSeen-In seen (other ∷ drafts) draft h (inr at) =
      AllSeen-In seen drafts draft
        (All-of_append (λ p. member (proposed_key p) seen ≡ true)
          (draft_proposals upper repr document other) (all_proposals drafts) h).1
        at

  All-map_In :
      {P Q : TurnSpec × DraftOutput → Type 0} (xs : List (TurnSpec × DraftOutput))
      → ((x : TurnSpec × DraftOutput) → P x → Q x)
      → All P xs
      → All Q xs
  All-map_In [] f h = _
  All-map_In (x ∷ xs) f h = (f x h.0, All-map_In xs f h.1)

  derive_idle :
      (drafts again : List (TurnSpec × DraftOutput)) (store : DecisionStore)
      → IsLog run_id store
      → All (λ draft. In draft drafts) again
      → let first = derive_drafts_and_store upper repr document run_id store drafts in
        derive_drafts_and_store upper repr document run_id first.store again ≡ begin first.store
  unfolding derive_drafts_and_store begin
  derive_idle drafts again store h some_of =
      let first = derive_drafts_and_store upper repr document run_id store drafts in
      let same : first.seen ≡ map dedupe_key (list_all first.store) =
        (derive-IsAt drafts store h).seen_all in
      let seen : AllSeen first.seen (all_proposals drafts) =
        rw (derive_each-flat drafts (begin store))
          (propose_all-AllSeen run_id (all_proposals drafts) (begin store)) in
      derive_each-flat again (begin first.store)
      ∙ propose_all-idle run_id (all_proposals again) (begin first.store) (
          rw (← same) (
            all_proposals-AllSeen first.seen again
              (All-map_In again (λ draft at. AllSeen-In first.seen drafts draft seen at) some_of)))

  -- Recovery is idempotent: with a log in order, deriving again from any of the drafts that were
  -- already derived, in any order, creates no decision and leaves the log as it is.
  pub derive_drafts_and_store-idle :
      (drafts again : List (TurnSpec × DraftOutput)) (store : DecisionStore)
      → IsLog run_id store
      → All (λ draft. In draft drafts) again
      → let first = derive_drafts_and_store upper repr document run_id store drafts in
        let second = derive_drafts_and_store upper repr document run_id first.store again in
        (second.store ≡ first.store) × (second.created ≡ [])
  unfolding derive_drafts_and_store begin
  derive_drafts_and_store-idle drafts again store h some_of =
      let first = derive_drafts_and_store upper repr document run_id store drafts in
      let idle = derive_idle drafts again store h some_of in
      (ap (λ at. at.store) idle, ap (λ at. at.created) idle)
