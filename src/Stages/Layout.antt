-- ===== src/Stages/Layout.antt =====
-- The slots of a layout, listed in the order of their numbers.
use mootloop.Base.{
  ℕ, zero, suc, ◌+◌, ◌*◌, ◌≡◌, refl, sym, List, [], ◌∷◌, ◌++◌, map, range_from, arith,
}
use native.Mathlib.Nat.{suc-mul}
use mootloop.Stages.{
  SlotLayout, block, base, draft, critique, oc_slot, bolster_slot, judge_slot, rubric_base,
  rubric_loop, rubric_final, restructure_slot, jury_slot,
}

-- The rounds `from` to `from + count - 1`, each a draft and its critique.
abbrev pub rounds : SlotLayout → (from count : ℕ) → List ℕ
rounds l from zero = []
rounds l from (suc count) = draft l from ∷ critique l from ∷ rounds l (suc from) count

-- All the slots that a request reserves, group by group.
abbrev pub slots : SlotLayout → List ℕ
slots l =
    rounds l 1 l.ap
    ++ (map (oc_slot l) (range_from 1 l.oc)
        ++ (map (bolster_slot l) (range_from 1 l.bolster)
            ++ (map (judge_slot l) (range_from 1 l.judges)
                ++ (map (rubric_loop l) (range_from 1 l.ap)
                    ++ (map (rubric_final l) (range_from 1 l.rubric_panel)
                        ++ (map (restructure_slot l) (range_from 1 l.restructure)
                            ++ map (jury_slot l) (range_from 1 l.jurors)))))))

-- The slots of the requests `first` to `first + count - 1` of one run.
abbrev pub run_slots : SlotLayout → (first count : ℕ) → List ℕ
run_slots l first zero = []
run_slots l first (suc count) =
    slots (record l { req_index = first }) ++ run_slots l (suc first) count

next_block : (n b : ℕ) → b + n * b ≡ suc n * b
next_block n b = omega (arith, suc-mul n b)

range_from-append :
    (from m n to : ℕ)
    → from + m ≡ to
    → range_from from m ++ range_from to n ≡ range_from from (m + n)
range_from-append from zero n to h =
    let same : from ≡ to = omega arith in
    let none_more : zero + n ≡ n = omega arith in rw (none_more, same)
range_from-append from (suc m) n to h =
    let more : suc m + n ≡ suc (m + n) = omega arith in
    let next : suc from + m ≡ to = omega arith in
    rw (range_from-append (suc from) m n to next, more)

-- A group of slots that follow one another from `start`.
group :
    (f : ℕ → ℕ) (start from count : ℕ)
    → ((k : ℕ) → f (suc k) ≡ start + k)
    → map f (range_from (suc from) count) ≡ range_from (start + from) count
group f start from zero h = refl
group f start from (suc count) h =
    let later = group f start (suc from) count h in
    let next : start + suc from ≡ suc (start + from) = omega arith in rw (h from, later, next)

rounds-range :
    (l : SlotLayout) (from count : ℕ)
    → rounds l (suc from) count ≡ range_from (base l + 2 * from) (2 * count)
unfolding draft critique
rounds-range l from zero = refl
rounds-range l from (suc count) =
    let later = rounds-range l (suc from) count in
    let first : draft l (suc from) ≡ base l + 2 * from = omega arith in
    let second : critique l (suc from) ≡ suc (base l + 2 * from) = omega arith in
    let start : base l + 2 * suc from ≡ suc (suc (base l + 2 * from)) = omega arith in
    let size : 2 * suc count ≡ suc (suc (2 * count)) = omega arith in
    rw (first, second, later, start, size)

one_group :
    (f : ℕ → ℕ) (start count : ℕ)
    → ((k : ℕ) → f (suc k) ≡ start + k)
    → map f (range_from 1 count) ≡ range_from start count
one_group f start count h =
    let zeroth : start + 0 ≡ start = omega arith in rw zeroth at (group f start 0 count h)

-- A group, and the groups behind it.
cons_group :
    (f : ℕ → ℕ) (start next count rest : ℕ) (later : List ℕ)
    → ((k : ℕ) → f (suc k) ≡ start + k)
    → start + count ≡ next
    → later ≡ range_from next rest
    → map f (range_from 1 count) ++ later ≡ range_from start (count + rest)
cons_group f start next count rest later h e more =
    rw (one_group f start count h, more) (range_from-append start count rest next e)

-- The slots of a request, listed draft and critique of each round first and the jury last, are the
-- numbers of its block, each once and none left out.
pub slots-range : (l : SlotLayout) → slots l ≡ range_from (base l) (block l)
unfolding oc_slot bolster_slot judge_slot rubric_base rubric_loop rubric_final restructure_slot
    jury_slot block
slots-range l =
    let b = base l in
    let s2 = b + 2 * l.ap in
    let s3 = s2 + l.oc in
    let s4 = s3 + l.bolster in
    let s5 = s4 + l.judges in
    let s6 = s5 + l.ap in
    let s7 = s6 + l.rubric_panel in
    let s8 = s7 + l.restructure in
    let g8 = one_group (jury_slot l) s8 l.jurors (λ k. omega arith) in
    let g7 = cons_group (restructure_slot l) s7 s8 l.restructure _ _ (λ k. omega arith) refl g8 in
    let g6 = cons_group (rubric_final l) s6 s7 l.rubric_panel _ _ (λ k. omega arith) refl g7 in
    let g5 = cons_group (rubric_loop l) s5 s6 l.ap _ _ (λ k. omega arith) refl g6 in
    let g4 = cons_group (judge_slot l) s4 s5 l.judges _ _ (λ k. omega arith) refl g5 in
    let g3 = cons_group (bolster_slot l) s3 s4 l.bolster _ _ (λ k. omega arith) refl g4 in
    let g2 = cons_group (oc_slot l) s2 s3 l.oc _ _ (λ k. omega arith) refl g3 in
    let zeroth : b + 2 * 0 ≡ b = omega arith in
    let g1 : rounds l 1 l.ap ≡ range_from b (2 * l.ap) = rw zeroth at (rounds-range l 0 l.ap) in
    let rest =
      l.oc + (l.bolster + (l.judges + (l.ap + (l.rubric_panel + (l.restructure + l.jurors))))) in
    let size : 2 * l.ap + rest ≡ block l = omega arith in
    rw (g1, g2, range_from-append b (2 * l.ap) rest s2 refl, size)

-- The slots of the requests of a run fill its numbering without a gap and without an overlap.
pub run_slots-range :
    (l : SlotLayout) (first count : ℕ)
    → run_slots l first count ≡ range_from (first * block l) (count * block l)
unfolding base block
run_slots-range l first zero = let none_left : 0 * block l ≡ 0 = omega arith in rw none_left
run_slots-range l first (suc count) =
    let later = run_slots-range l (suc first) count in
    let here = slots-range (record l { req_index = first }) in
    let next : first * block l + block l ≡ suc first * block l = sym (suc-mul first (block l)) in
    let size : block l + count * block l ≡ suc count * block l = next_block count (block l) in
    rw (here, later, ← size)
      (range_from-append (first * block l) (block l) (count * block l) (suc first * block l) next)
