-- ===== src/Panels/Alignment.antt =====
-- Each ruling is consumed at most once.
use mathlib.Core.Path.{subst}
use mootloop.Base.{
  ℕ, suc, ◌≡◌, refl, sym, ◌⊎◌, inl, inr, true, false, ◌&&◌, not, Option, none, some, List, [], ◌∷◌,
  arith, Text, ℕ_eq, member, ltb, Bool-cases, length, In, text_eq_key,
}
use mootloop.Turn.{Objection, ObjectionRuling}
use mootloop.Panels.{choose, claim_index, candidates, match_bases, fall_back, align_places}

-- The places that are taken, in order.
abbrev pub taken : List (Option ℕ) → List ℕ
taken [] = []
taken (none ∷ xs) = taken xs
taken (some j ∷ xs) = j ∷ taken xs

abbrev pub IsDistinct : List ℕ → Type 0
IsDistinct [] = Unit
IsDistinct (x ∷ xs) = ¬ In x xs × IsDistinct xs

In-member : (a : ℕ) (xs : List ℕ) → In a xs → member a xs ≡ true
In-member a [] m = absurd m
In-member a (x ∷ xs) (inl e) = ground (arith, e)
In-member a (x ∷ xs) (inr m) = ground (arith, In-member a xs m)

member-In : (a : ℕ) (xs : List ℕ) → member a xs ≡ true → In a xs
member-In a [] h = cc
member-In a (x ∷ xs) h = ground (arith, member-In a xs)

module _ (normalize : Text → Text) where
  candidates-free :
      (basis : Text) (claimed : List ℕ) (j : ℕ) (rulings : List ObjectionRuling) (c : ℕ)
      → In c (candidates normalize basis claimed j rulings)
      → member c claimed ≡ false
  unfolding candidates
  candidates-free basis claimed j [] c m = absurd m
  candidates-free basis claimed j (r ∷ rulings) c m =
      ground (arith, candidates-free basis claimed (suc j) rulings c)

choose-In : (index : ℕ) (cs : List ℕ) (c : ℕ) → choose index cs ≡ some c → In c cs
unfolding choose
choose-In index [] c e = cc
choose-In index (d ∷ cs) c e = elim (Bool-cases (member index (d ∷ cs))) [
  | inl there ↦
      let same : index ≡ c = ground arith in
      subst (λ x. In x (d ∷ cs)) same (member-In index (d ∷ cs) there)
  | inr other ↦ inl (ground arith)
]

module _ (normalize : Text → Text) where
  -- What the first loop leaves: distinct places, new ones, all of them claimed.
  record IsMatched (claimed : List ℕ) (r : List (Option ℕ) × List ℕ) : Type 0 where
    distinct : IsDistinct (taken r.0)
    fresh : (c : ℕ) → In c (taken r.0) → member c claimed ≡ false
    claims : (c : ℕ) → In c (taken r.0) → member c r.1 ≡ true
    keeps : (c : ℕ) → member c claimed ≡ true → member c r.1 ≡ true

  match_step :
      (chosen : Option ℕ) (claimed : List ℕ) (r : List (Option ℕ) × List ℕ)
      → ((c : ℕ) → chosen ≡ some c → member c claimed ≡ false)
      → IsMatched (claim_index chosen claimed) r
      → IsMatched claimed (chosen ∷ r.0, r.1)
  unfolding claim_index
  match_step none claimed r free m = record {
    distinct = m.distinct;
    fresh = m.fresh;
    claims = m.claims;
    keeps = m.keeps;
  }
  match_step (some c) claimed r free m =
      let own : member c (c ∷ claimed) ≡ true = ground arith in
      record {
        distinct = ((λ again. cc (m.fresh c again, own)), m.distinct);
        fresh = fresh_cons;
        claims = claims_cons;
        keeps = λ d h. m.keeps d (ground (arith, h));
      }
    where
      fresh_cons : (d : ℕ) → In d (taken (some c ∷ r.0)) → member d claimed ≡ false
      fresh_cons d (inl e) = subst (λ x. member x claimed ≡ false) (sym e) (free c refl)
      fresh_cons d (inr later) = ground (arith, m.fresh d later)

      claims_cons : (d : ℕ) → In d (taken (some c ∷ r.0)) → member d r.1 ≡ true
      claims_cons d (inl e) = subst (λ x. member x r.1 ≡ true) (sym e) (m.keeps c (ground arith))
      claims_cons d (inr later) = m.claims d later

  match_bases-IsMatched :
      (rulings : List ObjectionRuling) (index : ℕ) (objections : List Objection) (claimed : List ℕ)
      → IsMatched claimed (match_bases normalize rulings index objections claimed)
  unfolding match_bases
  match_bases-IsMatched rulings index [] claimed = record {
    distinct = tt;
    fresh = λ c m. absurd m;
    claims = λ c m. absurd m;
    keeps = λ c h. h;
  }
  match_bases-IsMatched rulings index (o ∷ objections) claimed =
      let free = candidates normalize (normalize o.basis) claimed 0 rulings in
      let chosen = choose index free in
      match_step chosen claimed
        (match_bases normalize rulings (suc index) objections (claim_index chosen claimed))
        (λ c e.
          candidates-free normalize (normalize o.basis) claimed 0 rulings c
            (choose-In index free c e))
        (match_bases-IsMatched rulings (suc index) objections (claim_index chosen claimed))

  taken_head :
      (index : ℕ) (rest : List (Option ℕ)) (c : ℕ)
      → In c (taken (some index ∷ rest))
      → (c ≡ index) ⊎ In c (taken rest)
  taken_head index rest c m = m

  -- A place that the second loop takes was taken before or was unclaimed.
  fall_back-In :
      (count index : ℕ) (aligned : List (Option ℕ)) (claimed : List ℕ) (c : ℕ)
      → In c (taken (fall_back normalize count index aligned claimed))
      → In c (taken aligned) ⊎ (member c claimed ≡ false)
  unfolding fall_back
  fall_back-In count index [] claimed c m = absurd m
  fall_back-In count index (some d ∷ aligned) claimed c (inl e) = inl (inl e)
  fall_back-In count index (some d ∷ aligned) claimed c (inr later) =
      elim (fall_back-In count (suc index) aligned claimed c later) [
        | inl old ↦ inl (inr old)
        | inr free ↦ inr free
      ]
  fall_back-In count index (none ∷ aligned) claimed c m =
      elim (Bool-cases (ltb index count && not (member index claimed))) [
        | inl takes ↦
            let unclaimed : member index claimed ≡ false = ground arith in
            elim (taken_head index (fall_back normalize count (suc index) aligned (index ∷ claimed))
              c (rw takes at m)) [
                | inl e ↦ inr (subst (λ x. member x claimed ≡ false) (sym e) unclaimed)
                | inr later ↦
                    elim (fall_back-In count (suc index) aligned (index ∷ claimed) c later) [
                      | inl old ↦ inl old
                      | inr free ↦ inr (ground arith)
                    ]
              ]
        | inr leaves ↦ fall_back-In count (suc index) aligned claimed c (rw leaves at m)
      ]

  fall_back-IsDistinct :
      (count index : ℕ) (aligned : List (Option ℕ)) (claimed : List ℕ)
      → IsDistinct (taken aligned)
      → ((c : ℕ) → In c (taken aligned) → member c claimed ≡ true)
      → IsDistinct (taken (fall_back normalize count index aligned claimed))
  unfolding fall_back
  fall_back-IsDistinct count index [] claimed d all_claimed = tt
  fall_back-IsDistinct count index (some c ∷ aligned) claimed d all_claimed = (
    λ again. elim (fall_back-In count (suc index) aligned claimed c again) [
      | inl old ↦ d.0 old
      | inr free ↦ cc (free, all_claimed c (inl refl))
    ],
    fall_back-IsDistinct count (suc index) aligned claimed d.1 (λ e m. all_claimed e (inr m)),
  )
  fall_back-IsDistinct count index (none ∷ aligned) claimed d all_claimed =
      elim (Bool-cases (ltb index count && not (member index claimed))) [
        | inl takes ↦
            let unclaimed : member index claimed ≡ false = ground arith in
            rw takes (
              (λ again.
                  elim (fall_back-In count (suc index) aligned (index ∷ claimed) index again) [
                    | inl old ↦ cc (all_claimed index old, unclaimed)
                    | inr free ↦ ground arith
                  ]),
              fall_back-IsDistinct count (suc index) aligned (index ∷ claimed) d
                  (λ e m. ground (arith, all_claimed e m)),
            )
        | inr leaves ↦
            rw leaves (fall_back-IsDistinct count (suc index) aligned claimed d all_claimed)
      ]

  -- Two objections are never scored by the same ruling of a judge: the places of the rulings that
  -- the alignment hands out are distinct.
  pub align_places-IsDistinct :
      (objections : List Objection) (rulings : List ObjectionRuling)
      → IsDistinct (taken (align_places normalize objections rulings))
  unfolding align_places
  align_places-IsDistinct objections rulings =
      let m = match_bases-IsMatched rulings 0 objections [] in
      fall_back-IsDistinct (length rulings) 0 (match_bases normalize rulings 0 objections []).0
        (match_bases normalize rulings 0 objections []).1 m.distinct m.claims
