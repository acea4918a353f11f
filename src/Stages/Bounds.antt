-- ===== src/Stages/Bounds.antt =====
-- Every slot of a group in range lies in the request's block.
use mootloop.Base.{ℕ, ◌+◌, ◌≤◌, ◌<◌, arith}
use mootloop.Stages.{
  SlotLayout, block, base, draft, critique, oc_slot, bolster_slot, judge_slot, rubric_base,
  rubric_loop, rubric_final, restructure_slot, jury_slot,
}

abbrev pub InBlock : SlotLayout → ℕ → Type 0
InBlock l seq = (base l ≤ seq) × (seq < base l + block l)

module _ (l : SlotLayout) (k : ℕ) (low : 1 ≤ k) where
  pub draft-InBlock : k ≤ l.ap → InBlock l (draft l k)
  unfolding draft block
  draft-InBlock h = omega arith

  pub critique-InBlock : k ≤ l.ap → InBlock l (critique l k)
  unfolding critique block
  critique-InBlock h = omega arith

  pub oc_slot-InBlock : k ≤ l.oc → InBlock l (oc_slot l k)
  unfolding oc_slot block
  oc_slot-InBlock h = omega arith

  pub bolster_slot-InBlock : k ≤ l.bolster → InBlock l (bolster_slot l k)
  unfolding bolster_slot block
  bolster_slot-InBlock h = omega arith

  pub judge_slot-InBlock : k ≤ l.judges → InBlock l (judge_slot l k)
  unfolding judge_slot block
  judge_slot-InBlock h = omega arith

  pub rubric_loop-InBlock : k ≤ l.ap → InBlock l (rubric_loop l k)
  unfolding rubric_loop rubric_base block
  rubric_loop-InBlock h = omega arith

  pub rubric_final-InBlock : k ≤ l.rubric_panel → InBlock l (rubric_final l k)
  unfolding rubric_final rubric_base block
  rubric_final-InBlock h = omega arith

  pub restructure_slot-InBlock : k ≤ l.restructure → InBlock l (restructure_slot l k)
  unfolding restructure_slot rubric_base block
  restructure_slot-InBlock h = omega arith

  pub jury_slot-InBlock : k ≤ l.jurors → InBlock l (jury_slot l k)
  unfolding jury_slot rubric_base block
  jury_slot-InBlock h = omega arith
