-- ===== src/Gates/Order.antt =====
-- The topological order of a selection of gates: the search ends, and each gate comes after its
-- dependencies.
-- dependencies.
use mootloop.Base.{
  ◌≡◌, inl, inr, refl, ap, true, false, ◌||◌, Option, none, some, List, [], ◌∷◌, Text, text_eq,
  text_eq_iff, text_eq_key, ==_refl, Bool-cases, if◌then◌else◌, member, length, IsDistinct, Result,
  ok, err, arith, gate_configuration,
}
use mootloop.Base.Dict.{lookup}
use mootloop.Gates.Runtime.{rounds, Catalog, needed, waiting_of, topological_order}
use mootloop.Gates.Rounds.{Ends, rounds-Ends}
use mootloop.Gates.Sound.{AreAfter, IsSound, rounds-IsSound}

module _ (catalog : Catalog) where
  lookup-waiting_of :
      (selected names : List Text) (n : Text)
      → lookup n (waiting_of catalog selected names)
        ≡ (if member n names then some (needed catalog selected n) else none)
  unfolding waiting_of lookup
  lookup-waiting_of selected [] n = refl
  lookup-waiting_of selected (m ∷ names) n = elim (Bool-cases (text_eq m n)) [
    | inl same ↦ let e : m ≡ n = (text_eq_iff m n).0 same in rw (same, e, ==_refl n) refl
    | inr differ ↦
        ground (arith, text_eq_iff m n, text_eq_iff n m, lookup-waiting_of selected names n)
  ]

  length-waiting_of :
      (selected names : List Text) → length (waiting_of catalog selected names) ≡ length names
  unfolding waiting_of
  length-waiting_of selected [] = refl
  length-waiting_of selected (n ∷ names) = rw (length-waiting_of selected names)

  waited :
      (names : List Text) (n d : Text) (ds : List Text)
      → lookup n (waiting_of catalog names names) ≡ some ds
      → member d (needed catalog names n) ≡ true
      → (member d ds || false) ≡ true
  waited names n d ds at need = elim (Bool-cases (member n names)) [
    | inl selected ↦
        let same : ds ≡ needed catalog names n = ground (arith, lookup-waiting_of names names n) in
        rw (same, need) refl
    | inr other ↦ ground (arith, lookup-waiting_of names names n)
  ]

  waiting_of-IsSound :
      (names : List Text) → IsSound (needed catalog names) names (waiting_of catalog names names) []
  waiting_of-IsSound names = record {
    after = _;
    distinct = _;
    apart = λ n there. refl;
    every = λ n. ground (arith, lookup-waiting_of names names n);
    awaited = λ n d ds at need. waited names n d ds at need;
  }

  -- The search for the order of a selection ends, cyclic or not: as many rounds as there are
  -- names are enough for an order or an error.
  pub topological_order-Ends :
      (names : List Text) → Ends (rounds (length names) names (waiting_of catalog names names) [])
  topological_order-Ends names =
      rounds-Ends (length names) names (waiting_of catalog names names) []
        (omega (arith, length-waiting_of names names))

  ordered_by :
      (names ordered : List Text) (outcome : Option (Result (List Text)))
      → elim outcome [ none ↦ err gate_configuration | some found ↦ found ] ≡ ok ordered
      → outcome ≡ some (ok ordered)
  ordered_by names ordered none e = cc
  ordered_by names ordered (some found) e = ap some e

  -- A topological order that is found lists exactly the selected gates, each once, and each one
  -- after every gate of the selection that it depends on.
  pub topological_order-AreAfter :
      (names ordered : List Text)
      → topological_order catalog names ≡ ok ordered
      → AreAfter (needed catalog names) [] ordered
        × IsDistinct ordered
        × ((n : Text) → member n ordered ≡ member n names)
  unfolding topological_order lookup
  topological_order-AreAfter names ordered e =
      let sound =
        rounds-IsSound (needed catalog names) (length names) names (waiting_of catalog names names)
          [] ordered (waiting_of-IsSound names)
          (ordered_by names ordered
            (rounds (length names) names (waiting_of catalog names names) []) e) in
      (sound.after, sound.distinct, λ n. ground (arith, sound.every n))
