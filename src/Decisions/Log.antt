-- ===== src/Decisions/Log.antt =====
-- The order that a decision log keeps: ids numbered from 0 and no logical gate twice.
use mootloop.Base.{
  ℕ, suc, ◌+◌, ◌≤◌, ◌≡◌, refl, sym, ap, ◌∙◌, inl, inr, none, some, List, [], ◌∷◌, ◌++◌, map, Text,
  codes, Bool-cases, ==_refl, length, IsDistinct, padded, padded-injective, append-injective, arith,
  text_eq, text_eq_iff, text_eq_key,
}
use mootloop.Base.Dict.{Dict, lookup, insert, insert-fresh, lookup-insert}
use mootloop.Decisions.{
  Decision, DecisionStore, list_all, folded, folded_from, get, append, make_decision_id, key_eq,
  dedupe_key,
}

make_decision_id-injective :
    (run_id : Text) (m n : ℕ) → make_decision_id run_id m ≡ make_decision_id run_id n → m ≡ n
unfolding make_decision_id
make_decision_id-injective run_id m n e = padded-injective m n (
    append-injective (codes "-") (padded m) (padded n) (
      append-injective run_id (codes "-" ++ padded m) (codes "-" ++ padded n) (
        append-injective (codes "dec-") (run_id ++ (codes "-" ++ padded m))
          (run_id ++ (codes "-" ++ padded n)) e)))

unfoldable pub IsNumbered : Text → ℕ → Dict Text Decision → Type 0
IsNumbered run_id n [] = Unit
IsNumbered run_id n ((k, d) ∷ rest) =
    (k ≡ make_decision_id run_id n) × (d.decision_id ≡ k) × IsNumbered run_id (suc n) rest

IsNumbered-fresh :
    (run_id : Text) (n m : ℕ) (d : Dict Text Decision)
    → IsNumbered run_id n d
    → n + length d ≤ m
    → lookup (make_decision_id run_id m) d ≡ none
unfolding IsNumbered lookup
IsNumbered-fresh run_id n m [] h le = refl
IsNumbered-fresh run_id n m ((k, d) ∷ rest) h le =
    let later = IsNumbered-fresh run_id (suc n) m rest h.2 (omega arith) in
    elim (Bool-cases (text_eq k (make_decision_id run_id m))) [
      | inl same ↦
          let e : k ≡ make_decision_id run_id m =
            (text_eq_iff k (make_decision_id run_id m)).0 same in
          let n_is_m = make_decision_id-injective run_id n m (sym h.0 ∙ e) in absurd (omega arith)
      | inr other ↦ rw other later
    ]

IsNumbered-append :
    (run_id : Text) (n : ℕ) (d : Dict Text Decision) (one : Decision)
    → IsNumbered run_id n d
    → one.decision_id ≡ make_decision_id run_id (n + length d)
    → IsNumbered run_id n (d ++ (one.decision_id, one) ∷ [])
unfolding IsNumbered
IsNumbered-append run_id n [] one h e = (e ∙ ap (make_decision_id run_id) (omega arith), refl, _)
IsNumbered-append run_id n ((k, d) ∷ rest) one h e = (
  h.0,
  h.1,
  IsNumbered-append run_id (suc n) rest one h.2 (e ∙ ap (make_decision_id run_id) (omega arith)),
)

folded_from-append_one :
    (state : Dict Text Decision) (records : List Decision) (d : Decision)
    → folded_from state (records ++ d ∷ []) ≡ insert d.decision_id d (folded_from state records)
unfolding folded_from
folded_from-append_one state [] d = refl
folded_from-append_one state (r ∷ records) d =
    folded_from-append_one (insert r.decision_id r state) records d

-- The appended record is the latest one of its id.
pub folded-append :
    (d : Decision) (store : DecisionStore)
    → folded (append d store) ≡ insert d.decision_id d (folded store)
unfolding folded append
folded-append d store = folded_from-append_one [] store.records d

-- A log in order: ids from 0 on, each record under its id, and no logical gate twice.
unfoldable pub IsLog : Text → DecisionStore → Type 0
unfolding IsNumbered
IsLog run_id store =
    IsNumbered run_id 0 (folded store) × IsDistinct (map dedupe_key (list_all store))

pub folded-append_new :
    (run_id : Text) (d : Decision) (store : DecisionStore)
    → IsNumbered run_id 0 (folded store)
    → d.decision_id ≡ make_decision_id run_id (length (folded store))
    → folded (append d store) ≡ folded store ++ (d.decision_id, d) ∷ []
folded-append_new run_id d store h e =
    folded-append d store
    ∙ insert-fresh d.decision_id d (folded store)
        (rw e (IsNumbered-fresh run_id 0 (length (folded store)) (folded store) h (omega arith)))

pub IsNumbered-append_new :
    (run_id : Text) (d : Decision) (store : DecisionStore)
    → IsNumbered run_id 0 (folded store)
    → d.decision_id ≡ make_decision_id run_id (length (folded store))
    → IsNumbered run_id 0 (folded (append d store))
IsNumbered-append_new run_id d store h e =
    rw (folded-append_new run_id d store h e) (
      IsNumbered-append run_id 0 (folded store) d h
        (e ∙ ap (make_decision_id run_id) (omega arith)))

-- A record is found under its own id.
lookup-id :
    (run_id k : Text) (n : ℕ) (d : Dict Text Decision) (v : Decision)
    → IsNumbered run_id n d
    → lookup k d ≡ some v
    → v.decision_id ≡ k
unfolding IsNumbered lookup
lookup-id run_id k n [] v h found = cc
lookup-id run_id k n ((j, w) ∷ d) v h found =
    ground (arith, text_eq_iff j k, lookup-id run_id k (suc n) d v h.2)

-- A record over an old one leaves the numbering and the logical gates as they are.
IsNumbered-insert_old :
    (run_id k : Text) (n : ℕ) (d : Dict Text Decision) (v new : Decision)
    → IsNumbered run_id n d
    → lookup k d ≡ some v
    → new.decision_id ≡ k
    → IsNumbered run_id n (insert k new d)
unfolding IsNumbered lookup insert
IsNumbered-insert_old run_id k n [] v new h found e = cc
IsNumbered-insert_old run_id k n ((j, w) ∷ d) v new h found e = elim (Bool-cases (text_eq j k)) [
  | inl same ↦ let j_is_k : j ≡ k = (text_eq_iff j k).0 same in rw same (h.0, (e ∙ sym j_is_k), h.2)
  | inr differ ↦
      let later : lookup k d ≡ some v = ground arith in
      rw differ (h.0, h.1, IsNumbered-insert_old run_id k (suc n) d v new h.2 later e)
]

dedupe_keys-insert_old :
    (k : Text) (d : Dict Text Decision) (v new : Decision)
    → lookup k d ≡ some v
    → dedupe_key new ≡ dedupe_key v
    → map dedupe_key (map (λ e. e.1) (insert k new d)) ≡ map dedupe_key (map (λ e. e.1) d)
unfolding lookup insert
dedupe_keys-insert_old k [] v new found e = cc
dedupe_keys-insert_old k ((j, w) ∷ d) v new found e = elim (Bool-cases (text_eq j k)) [
  | inl same ↦
      let w_is_v : w ≡ v = ground arith in
      rw same (ap (λ key. key ∷ map dedupe_key (map (λ x. x.1) d)) (e ∙ ap dedupe_key (sym w_is_v)))
  | inr differ ↦
      let later : lookup k d ≡ some v = ground arith in
      rw differ (rw (dedupe_keys-insert_old k d v new later e) refl)
]

pub get-id :
    (run_id k : Text) (store : DecisionStore) (v : Decision)
    → IsLog run_id store
    → get k store ≡ some v
    → v.decision_id ≡ k
unfolding IsLog get
get-id run_id k store v h found = lookup-id run_id k 0 (folded store) v h.0 found

pub get-append :
    (d : Decision) (store : DecisionStore) → get d.decision_id (append d store) ≡ some d
unfolding get
get-append d store =
    rw
      (
        folded-append d store,
        lookup-insert d.decision_id d.decision_id d (folded store),
        ==_refl d.decision_id,
      )
      refl

-- A record that replaces one of its id and logical gate keeps the log in order.
pub append_old-IsLog :
    (run_id : Text) (store : DecisionStore) (v new : Decision)
    → IsLog run_id store
    → get v.decision_id store ≡ some v
    → new.decision_id ≡ v.decision_id
    → dedupe_key new ≡ dedupe_key v
    → IsLog run_id (append new store)
unfolding IsLog get list_all
append_old-IsLog run_id store v new h found same_id same_key =
    let e : folded (append new store) ≡ insert v.decision_id new (folded store) =
      rw (← same_id) (folded-append new store) in
    rw (e, dedupe_keys-insert_old v.decision_id (folded store) v new found same_key)
      (IsNumbered-insert_old run_id v.decision_id 0 (folded store) v new h.0 found same_id, h.1)

abbrev pub no_decisions : DecisionStore
no_decisions = record { records = []; sidecars = [] }

pub empty-IsLog : (run_id : Text) → IsLog run_id no_decisions
unfolding IsLog IsNumbered list_all folded folded_from
empty-IsLog run_id = (_, _)
