-- ===== src/Queue/Order.antt =====
-- The order of the sort keys, and the first least element of a list.
use mootloop.Base.{
  ℕ, ◌≡◌, refl, true, false, List, [], ◌∷◌, arith, Text, text_lt, All, In, inl, ◌⊎◌, ◌∙◌, inr,
}
use mootloop.Queue.{IsoTime, WorkItem, key_lt, min_by_key, better}

text_lt_irrefl : (s : Text) → text_lt s s ≡ false
unfolding text_lt
text_lt_irrefl [] = refl
text_lt_irrefl (a ∷ s) = ground (arith, text_lt_irrefl s)

text_lt_trans : (s t u : Text) → text_lt s t ≡ true → text_lt t u ≡ true → text_lt s u ≡ true
unfolding text_lt
text_lt_trans [] [] u h k = cc
text_lt_trans [] (b ∷ t) [] h k = cc
text_lt_trans [] (b ∷ t) (c ∷ u) h k = refl
text_lt_trans (a ∷ s) [] u h k = cc
text_lt_trans (a ∷ s) (b ∷ t) [] h k = cc
text_lt_trans (a ∷ s) (b ∷ t) (c ∷ u) h k = ground (arith, text_lt_trans s t u)

pub key_lt_irrefl : (a : WorkItem) → key_lt a a ≡ false
unfolding key_lt
key_lt_irrefl a = ground (arith, text_lt_irrefl a.enqueued_at)

pub key_lt_trans : (a b c : WorkItem) → key_lt a b ≡ true → key_lt b c ≡ true → key_lt a c ≡ true
unfolding key_lt
key_lt_trans a b c h k = ground (arith, text_lt_trans a.enqueued_at b.enqueued_at c.enqueued_at)

module _ (time : IsoTime) where
  -- No element of the list has a smaller key.
  abbrev pub IsLeast : ℕ × WorkItem → List (ℕ × WorkItem) → Type 0
  IsLeast r = All (λ y. key_lt y.1 r.1 ≡ false)

  better-IsLeast :
      (x b : ℕ × WorkItem)
      → (key_lt x.1 (better time x b).1 ≡ false) × (key_lt b.1 (better time x b).1 ≡ false)
  unfolding better
  better-IsLeast x b =
      ground (arith, key_lt_irrefl x.1, key_lt_irrefl b.1, key_lt_trans b.1 x.1 b.1)

  better-below :
      (x b : ℕ × WorkItem) (y : WorkItem)
      → key_lt y b.1 ≡ false
      → key_lt y (better time x b).1 ≡ false
  unfolding better
  better-below x b y h = ground (arith, key_lt_trans y x.1 b.1)

  -- The key of the result is not above that of the first candidate.
  min_by_key-below :
      (b : ℕ × WorkItem) (xs : List (ℕ × WorkItem)) (y : WorkItem)
      → key_lt y b.1 ≡ false
      → key_lt y (min_by_key time b xs).1 ≡ false
  unfolding min_by_key
  min_by_key-below b [] y h = h
  min_by_key-below b (x ∷ xs) y h = min_by_key-below (better time x b) xs y (better-below x b y h)

  pub min_by_key-IsLeast :
      (b : ℕ × WorkItem) (xs : List (ℕ × WorkItem)) → IsLeast (min_by_key time b xs) (b ∷ xs)
  unfolding min_by_key
  min_by_key-IsLeast b [] = (key_lt_irrefl b.1, tt)
  min_by_key-IsLeast b (x ∷ xs) =
      let (new, old) = better-IsLeast x b in
      (
        min_by_key-below (better time x b) xs b.1 old,
        (
          min_by_key-below (better time x b) xs x.1 new,
          (min_by_key-IsLeast (better time x b) xs).1,
        ),
      )

  better-In : (x b : ℕ × WorkItem) → (better time x b ≡ x) ⊎ (better time x b ≡ b)
  unfolding better
  better-In x b = ground arith

  pub min_by_key-In :
      (b : ℕ × WorkItem) (xs : List (ℕ × WorkItem)) → In (min_by_key time b xs) (b ∷ xs)
  unfolding min_by_key
  min_by_key-In b [] = inl refl
  min_by_key-In b (x ∷ xs) = elim (min_by_key-In (better time x b) xs) [
    | inl first ↦ elim (better-In x b) [
      | inl new ↦ inr (inl (first ∙ new))
      | inr old ↦ inl (first ∙ old)
    ]
    | inr later ↦ inr (inr later)
  ]
