-- ===== src/Journal/Write/Repair.antt =====
-- What a repair keeps, and that a read finds an appended line behind everything that was complete.
use mootloop.Base.{
  ℕ, zero, suc, ◌+◌, ◌-◌, ◌≤◌, ◌<◌, ◌≡◌, refl, ◌∙◌, sym, ap, true, false, none, some, List, [], ◌∷◌,
  ◌++◌, arith, nat_eq, if◌then◌else◌, length, drop, take, Bool-cases, Option-cases, inl, inr,
}
use native.Mathlib.Nat.{zero-add, suc-add}
use mootloop.Journal.Read.Resume.{IsLine}
use mootloop.Journal.Write.{
  rfind_newline, ends_with_newline, chunk_size, truncate_at, chunk_limit, repair_torn_tail,
}

-- The complete lines of a file: the bytes up to its last newline.
pub complete : List ℕ → List ℕ
complete [] = []
complete (b ∷ bs) = elim (complete bs) [
  | [] ↦ if nat_eq b 10 then b ∷ [] else []
  | c ∷ cs ↦ b ∷ c ∷ cs
]

complete-none : (xs : List ℕ) → rfind_newline xs ≡ none → complete xs ≡ []
unfolding complete rfind_newline
complete-none [] h = refl
complete-none (b ∷ bs) h = ground (arith, complete-none bs)

complete-some :
    (xs : List ℕ) (i : ℕ)
    → rfind_newline xs ≡ some i
    → (c : ℕ) × (cs : List ℕ) × (complete xs ≡ c ∷ cs) × (take (suc i) xs ≡ c ∷ cs)
unfolding complete rfind_newline
complete-some [] i h = cc
complete-some (b ∷ bs) i h = elim (Option-cases (rfind_newline bs)) [
  | inl e ↦
      let empty = complete-none bs e in
      let here : i ≡ 0 = ground arith in (b, [], ground arith, rw here)
  | inr (j, e) ↦
      let (c, cs, e1, e2) = complete-some bs j e in
      let next : i ≡ suc j = ground arith in (b, c ∷ cs, rw (e1, complete), rw next (rw e2))
]

append-complete-none : (ys xs : List ℕ) → complete xs ≡ [] → complete (ys ++ xs) ≡ complete ys
unfolding complete
append-complete-none [] xs h = h
append-complete-none (y ∷ ys) xs h = rw (append-complete-none ys xs h)

pub append-complete-some :
    (ys xs : List ℕ) {c : ℕ} {cs : List ℕ}
    → complete xs ≡ c ∷ cs
    → complete (ys ++ xs) ≡ ys ++ c ∷ cs
unfolding complete
append-complete-some [] xs h = h
append-complete-some (y ∷ []) xs h = rw (h, complete)
append-complete-some (y ∷ z ∷ ys) xs h = rw (append-complete-some (z ∷ ys) xs h, complete)

take-add : (bytes : List ℕ) (a k : ℕ) → take (a + k) bytes ≡ take a bytes ++ take k (drop a bytes)
take-add bytes zero k = rw zero-add
take-add [] (suc a) zero = rw suc-add
take-add [] (suc a) (suc k) = rw suc-add
take-add (b ∷ bytes) (suc a) k = rw (suc-add, take-add bytes a k)

take-take-le : (xs : List ℕ) (i k : ℕ) → i ≤ k → take i (take k xs) ≡ take i xs
take-take-le xs zero k h = refl
take-take-le xs (suc i) zero h = elim h [ ]
take-take-le [] (suc i) (suc k) h = refl
take-take-le (x ∷ xs) (suc i) (suc k) h = rw (take-take-le xs i k (omega arith))

rfind-lt-length : (xs : List ℕ) (i : ℕ) → rfind_newline xs ≡ some i → i < length xs
unfolding rfind_newline
rfind-lt-length [] i h = cc
rfind-lt-length (b ∷ bs) i h = elim (Option-cases (rfind_newline bs)) [
  | inl e ↦ ground arith
  | inr (j, e) ↦ ground (arith, rfind-lt-length bs j e)
]

-- One round: the file's first `before + k` bytes, searched in their last `k`.
round_found :
    (bytes : List ℕ) (before k newline : ℕ)
    → rfind_newline (take k (drop before bytes)) ≡ some newline
    → newline < k
    → complete (take (before + k) bytes) ≡ take (before + newline + 1) bytes
round_found bytes before k newline e h =
    let (c, cs, e1, e2) = complete-some (take k (drop before bytes)) newline e in
    let short = take-take-le (drop before bytes) (suc newline) k h in
    let shift : before + newline + 1 ≡ before + suc newline = omega arith in
    rw (shift, take-add bytes before k, take-add bytes before (suc newline), ← short, e2)
      (append-complete-some (take before bytes) (take k (drop before bytes)) e1)

chunk_size_bounds :
    (size position : ℕ)
    → 0 < size
    → nat_eq position 0 ≡ false
    → (0 < chunk_size size position) × (chunk_size size position ≤ position)
unfolding chunk_size
chunk_size_bounds size position hs hp = ground arith

-- One round of the search, with its chunk.
truncate_at-round :
    (size fuel : ℕ) (bytes : List ℕ) (position : ℕ)
    → nat_eq position 0 ≡ false
    → let k = chunk_size size position in
      let before = position - k in
      truncate_at size (suc fuel) bytes position
      ≡ elim (rfind_newline (take k (drop before bytes))) [
        | some newline ↦ before + newline + 1
        | none ↦ truncate_at size fuel bytes before
      ]
unfolding truncate_at
truncate_at-round size fuel bytes position hp = rw (hp, truncate_at)

length-take : (k : ℕ) (xs : List ℕ) → length (take k xs) ≤ k
length-take zero xs = omega arith
length-take (suc k) [] = omega arith
length-take (suc k) (x ∷ xs) = omega (arith, length-take k xs)

truncate_at-complete :
    (size fuel : ℕ) (bytes : List ℕ) (position : ℕ)
    → 0 < size
    → position ≤ fuel
    → take (truncate_at size fuel bytes position) bytes ≡ complete (take position bytes)
truncate_at-complete size zero bytes position hs hf =
    let start : position ≡ 0 = omega arith in rw start (unfold truncate_at complete in refl)
truncate_at-complete size (suc fuel) bytes position hs hf = elim (Bool-cases (nat_eq position 0)) [
  | inl at_start ↦
      let start : position ≡ 0 = ground arith in rw start (unfold truncate_at complete in refl)
  | inr more ↦
      let k : ℕ = chunk_size size position in
      let before : ℕ = position - k in
      let (some_left, fits) = chunk_size_bounds size position hs more in
      let whole : before + k ≡ position = omega arith in
      let step = truncate_at-round size fuel bytes position more in
      elim (Option-cases (rfind_newline (take k (drop before bytes)))) [
        | inl e ↦
            let ih = truncate_at-complete size fuel bytes before hs (omega arith) in
            let empty = complete-none (take k (drop before bytes)) e in
            rw (step, e)
              (ih
                ∙ sym (append-complete-none (take before bytes) (take k (drop before bytes)) empty)
                ∙ ap complete (sym (take-add bytes before k))
                ∙ ap (λ n. complete (take n bytes)) whole)
        | inr (newline, e) ↦
            let inside = rfind-lt-length (take k (drop before bytes)) newline e in
            let below = length-take k (drop before bytes) in
            rw (step, e)
              (sym (round_found bytes before k newline e (omega arith))
                ∙ ap (λ n. complete (take n bytes)) whole)
      ]
]

ends-complete : (bytes : List ℕ) → ends_with_newline bytes ≡ true → complete bytes ≡ bytes
unfolding ends_with_newline complete
ends-complete [] h = refl
ends-complete (b ∷ []) h = ground arith
ends-complete (b ∷ c ∷ bs) h = rw (ends-complete (c ∷ bs) h)

take-all : (bytes : List ℕ) → take (length bytes) bytes ≡ bytes
take-all [] = refl
take-all (b ∷ bytes) = rw (take-all bytes)

-- A repair keeps exactly the complete lines: the file up to its last newline, and nothing of a
-- file without one. The search by chunks always ends within its fuel.
pub repair_torn_tail-complete : (bytes : List ℕ) → repair_torn_tail bytes ≡ complete bytes
unfolding repair_torn_tail
repair_torn_tail-complete bytes = elim (Bool-cases (ends_with_newline bytes)) [
  | inl ends ↦ rw ends (sym (ends-complete bytes ends))
  | inr torn ↦ rw torn (
      truncate_at-complete chunk_limit (length bytes) bytes (length bytes) (omega arith)
        (omega arith)
      ∙ ap complete (take-all bytes))
]

pub complete_line : (line : List ℕ) → IsLine line → complete line ≡ []
unfolding complete
complete_line [] h = refl
complete_line (b ∷ line) h = rw (complete_line line h.1, complete) (rw h.0)

pub complete_newline :
    (b : ℕ) (xs : List ℕ) → nat_eq b 10 ≡ true → complete (b ∷ xs) ≡ b ∷ complete xs
unfolding complete
complete_newline b xs h = ground (arith, h)
