-- ===== src/Stages.antt =====
-- stages.py, `SlotLayout`: where the turns of a request stand in the numbering of the run. A round
-- or a seat counts from 1, as the source's comments say.
pub mod Layout
pub mod Ceiling
pub mod Bounds
pub mod Context
pub mod Plan
mod Examples
use mootloop.Base.{
  ◌++◌, codes, padded, ℕ, ◌+◌, ◌-◌, ◌*◌, Bool, true, false, Option, none, some, Text, if◌then◌else◌,
}
use mootloop.Config.{TaskAdapterConfig}

pub record SlotLayout : Type 0 where
  pub run_id : Text
  pub req_index : ℕ
  pub ap : ℕ
  pub oc : ℕ
  pub bolster : ℕ
  pub judges : ℕ
  pub rubric_panel : ℕ
  pub restructure : ℕ
  pub jurors : ℕ

module _ (l : SlotLayout) where
  unfoldable pub block : ℕ
  block = 2 * l.ap + l.oc + l.bolster + l.judges + l.ap + l.rubric_panel + l.restructure + l.jurors

  unfoldable pub base : ℕ
  unfolding block
  base = l.req_index * block

  unfoldable pub draft : ℕ → ℕ
  draft r = (base + 2 * r) - 2

  unfoldable pub critique : ℕ → ℕ
  critique r = (base + 2 * r) - 1

  unfoldable pub oc_slot : ℕ → ℕ
  oc_slot k = (base + 2 * l.ap + k) - 1

  unfoldable pub bolster_slot : ℕ → ℕ
  bolster_slot k = (base + 2 * l.ap + l.oc + k) - 1

  unfoldable pub judge_slot : ℕ → ℕ
  judge_slot j = (base + 2 * l.ap + l.oc + l.bolster + j) - 1

  unfoldable pub rubric_base : ℕ
  rubric_base = base + 2 * l.ap + l.oc + l.bolster + l.judges

  unfoldable pub rubric_loop : ℕ → ℕ
  rubric_loop r = (rubric_base + r) - 1

  unfoldable pub rubric_final : ℕ → ℕ
  rubric_final m = (rubric_base + l.ap + m) - 1

  unfoldable pub restructure_slot : ℕ → ℕ
  restructure_slot k = (rubric_base + l.ap + l.rubric_panel + k) - 1

  -- `f"{self.run_id}-t{seq:04d}"`
  unfoldable pub turn_id : ℕ → Text
  turn_id seq = l.run_id ++ (codes "-t" ++ padded seq)

  unfoldable pub jury_slot : ℕ → ℕ
  jury_slot j = (rubric_base + l.ap + l.rubric_panel + l.restructure + j) - 1

-- `StageContext.layout`: the layout of the request at `req_index`, sized by the task's caps.
unfoldable pub layout : {F : Type 0} → Text → ℕ → TaskAdapterConfig F → SlotLayout
layout run_id req_index config = record {
  run_id = run_id;
  req_index = req_index;
  ap = config.loop_caps.associate_partner;
  oc = config.loop_caps.oc;
  bolster = config.loop_caps.bolster;
  judges = config.panels.judges;
  rubric_panel = config.panels.rubric_judges;
  restructure = config.loop_caps.restructure;
  jurors = if config.panels.jury then config.panels.jurors else 0;
}
