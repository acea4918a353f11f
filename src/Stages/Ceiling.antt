-- ===== src/Stages/Ceiling.antt =====
-- The ceiling on the turns of a request, against the slots that its layout reserves.
use mootloop.Base.{
  ℕ, ◌+◌, ◌*◌, ◌≤◌, Bool, true, false, ◌&&◌, ◌||◌, Text, codes, text_eq_key, member, List, arith,
  if◌then◌else◌,
}
use mootloop.Config.{TaskAdapterConfig, when_staged, partner_calls, pipeline_turn_ceiling}
use mootloop.Stages.{block, layout}

when_staged-le : (stage : Text) (stages : List Text) (n : ℕ) → when_staged stage stages n ≤ n
unfolding when_staged
when_staged-le stage stages n = ground arith

if_le : (b : Bool) (n : ℕ) → (if b then n else 0) ≤ n
if_le true n = omega arith
if_le false n = omega arith

jury_le : (b jury : Bool) (n : ℕ) → (if b && jury then n else 0) ≤ (if jury then n else 0)
jury_le true jury n = omega arith
jury_le false true n = omega arith
jury_le false false n = omega arith

partner_calls-le :
    (stages : List Text) (ap : ℕ) (rubric_enabled : Bool)
    → 1 ≤ ap
    → partner_calls stages ap rubric_enabled ≤ 2 * ap + ap
unfolding partner_calls
partner_calls-le stages ap true h = ground arith
partner_calls-le stages ap false h = ground arith

-- Whatever its stages, the calls that a request may cost fit in the block of slots that its layout
-- reserves, since a task has at least one round.
pub pipeline_turn_ceiling-le :
    {F : Type 0} (run_id : Text) (req_index : ℕ) (config : TaskAdapterConfig F)
    (rubric_enabled : Bool)
    → 1 ≤ config.loop_caps.associate_partner
    → pipeline_turn_ceiling config rubric_enabled ≤ block (layout run_id req_index config)
unfolding pipeline_turn_ceiling block layout
pipeline_turn_ceiling-le run_id req_index config rubric_enabled h =
    let caps = config.loop_caps in
    let panels = config.panels in
    let stages = config.stages in
    omega (
      arith,
      partner_calls-le stages caps.associate_partner rubric_enabled h,
      when_staged-le (codes "oc_attack") stages caps.oc,
      when_staged-le (codes "bolster") stages caps.bolster,
      if_le (member (codes "judge_panel") stages || member (codes "narrative_assessment") stages)
          panels.judges,
      when_staged-le (codes "restructure") stages caps.restructure,
      jury_le (member (codes "jury_panel") stages) panels.jury panels.jurors,
      when_staged-le (codes "rubric_gate") stages panels.rubric_judges,
    )
