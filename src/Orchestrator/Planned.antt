-- ===== src/Orchestrator/Planned.antt =====
-- The plan of a run's next turns, over all of its requests: which turns it can give.
use mootloop.Base.{
  ℕ, suc, ◌+◌, ◌≡◌, refl, ◌≤◌, Bool, true, false, ◌&&◌, not, List, [], ◌∷◌, ◌++◌, All, All-append,
  text_eq_key, if◌then◌else◌, Result, ok, err, ◌>>=◌, Ensures, Ensures-ok, ap, arith,
}
use mootloop.Base.Dict.{contains, get_or}
use mootloop.Turn.{TurnSpec, AssembledContextItem}
use mootloop.Journal.Events.{RunState, is_finished, is_completed}
use mootloop.Stages.Context.{TaskUnit, done, attempt}
use mootloop.Stages.Plan.Turns.{plan_request}
use mootloop.Stages.Plan.Next.{IsOpen}
use mootloop.Stages.Plan.Fresh.{plan_request-IsOpen}
use mootloop.Orchestrator.{
  RunContext, Library, RunFiles, ◌>>>◌, carry, reads, done_with, is_running, load_state,
  context_for, plan_units, plan,
}
use mootloop.Orchestrator.Spend.{over_cap, cap_transition}
use mootloop.Orchestrator.Land.{is_paused, plan_next}

Ensures-known :
    {A : Type 0} (P : A → Type 0) (m : Result A) → ((a : A) → m ≡ ok a → P a) → Ensures P m
Ensures-known P (err raised) h = _
Ensures-known P (ok a) h = h a refl

All-known :
    {A : Type 0} (P Q : A → Type 0) (xs : List A) → ((a : A) → P a → Q a) → All P xs → All Q xs
All-known P Q [] h all = _
All-known P Q (x ∷ xs) h all = (h x all.0, All-known P Q xs h all.1)

joined-Ensures :
    (P : TurnSpec → Type 0) (first more : Result (List TurnSpec))
    → Ensures (All P) first
    → Ensures (All P) more
    → Ensures (All P) (first >>= λ specs. more >>= λ rest. ok (specs ++ rest))
joined-Ensures P (err raised) more here later = _
joined-Ensures P (ok specs) (err raised) here later = _
joined-Ensures P (ok specs) (ok rest) here later = All-append P specs rest here later

module _ {F Usd : Type 0} (lib : Library F Usd) (ctx : RunContext F Usd) where
  -- A turn without a record, in the attempt behind its discarded ones.
  abbrev pub IsFresh : RunState Usd → TurnSpec → Type 0
  IsFresh state s =
      (contains s.turn_id state.completed_turns ≡ false)
      × (s.attempt ≡ get_or s.turn_id 0 state.discarded + 1)

  opened-IsFresh :
      (assembled : List AssembledContextItem) (state : RunState Usd) (i : ℕ) (unit : TaskUnit)
      (s : TurnSpec)
      → IsOpen lib.stages (context_for lib ctx ctx.tier_models assembled state i unit) s
      → IsFresh state s
  unfolding done attempt is_completed context_for
  opened-IsFresh assembled state i unit s (seq, id, tried, undone, low, high) =
      (rw id undone, rw id tried)

  plan_units-AreFresh :
      (assembled : List AssembledContextItem) (state : RunState Usd) (i : ℕ) (units : List TaskUnit)
      → 1 ≤ ctx.pipeline.effective_config.loop_caps.associate_partner
      → Ensures (All (IsFresh state)) (plan_units lib ctx assembled state i units)
  unfolding plan_units context_for
  plan_units-AreFresh assembled state i [] rounds = _
  plan_units-AreFresh assembled state i (unit ∷ units) rounds =
      let at = context_for lib ctx ctx.tier_models assembled state i unit in
      joined-Ensures (IsFresh state) (plan_request lib.stages at)
        (plan_units lib ctx assembled state (suc i) units)
        (Ensures-known (All (IsFresh state)) (plan_request lib.stages at) (λ specs planned.
          All-known (IsOpen lib.stages at) (IsFresh state) specs
            (opened-IsFresh assembled state i unit)
            (plan_request-IsOpen lib.stages at specs rounds planned)))
        (plan_units-AreFresh assembled state (suc i) units rounds)

  -- A turn that the run may give out: the run is running and under its cap, and the turn is fresh.
  abbrev pub IsPlannable : RunState Usd → TurnSpec → Type 0
  IsPlannable state s =
      (is_running state.status ≡ true) × (over_cap lib ctx state ≡ false) × IsFresh state s

  plannable :
      (state : RunState Usd) (is_live capped : Bool) (planned : Result (List TurnSpec))
      → (is_live ≡ true → is_running state.status ≡ true)
      → (capped ≡ false → is_live ≡ true → over_cap lib ctx state ≡ false)
      → capped ≡ false
      → Ensures (All (IsFresh state)) planned
      → Ensures (All (IsPlannable state)) (if is_live then planned else ok [])
  plannable state false capped planned live under uncapped fresh = _
  plannable state true capped (err raised) live under uncapped fresh = _
  plannable state true capped (ok specs) live under uncapped fresh =
      All-known (IsFresh state) (IsPlannable state) specs
        (λ s h. (live refl, under uncapped refl, h)) fresh

  carry-none :
      (state : RunState Usd) (outcome : RunFiles Usd × Result (Unit {0}))
      → Ensures (All (IsPlannable state)) (carry outcome (λ capped. done_with [])).1
  unfolding carry
  carry-none state (files, err raised) = _
  carry-none state (files, ok done) = _

  chosen :
      (state : RunState Usd) (files : RunFiles Usd) (paused capped : Bool)
      (checkpointed planned : RunFiles Usd × Result (List TurnSpec))
      → Ensures (All (IsPlannable state)) checkpointed.1
      → (capped ≡ false → Ensures (All (IsPlannable state)) planned.1)
      → Ensures
          (All (IsPlannable state))
          (if paused then (files, ok []) else if capped then checkpointed else planned).1
  chosen state files true capped checkpointed planned h k = _
  chosen state files false true checkpointed planned h k = h
  chosen state files false false checkpointed planned h k = k refl

  under_cap :
      (state : RunState Usd)
      → (not (is_finished state.status) && over_cap lib ctx state) ≡ false
      → is_running state.status ≡ true
      → over_cap lib ctx state ≡ false
  unfolding is_running is_finished
  under_cap state h live = ground (arith, h, live)

  plan_next-IsPlannable :
      (files : RunFiles Usd)
      → 1 ≤ ctx.pipeline.effective_config.loop_caps.associate_partner
      → Ensures (All (IsPlannable (load_state lib ctx files))) (plan_next lib ctx files).1
  unfolding plan_next plan reads ◌>>>◌
  plan_next-IsPlannable files rounds =
      let state = load_state lib ctx files in
      let capped = not (is_finished state.status) && over_cap lib ctx state in
      chosen state files (is_paused state.status) capped
        (carry (cap_transition lib ctx files) (λ capped. done_with []))
        (files, plan lib ctx ctx.assembled state) (carry-none state (cap_transition lib ctx files))
        (λ uncapped.
          plannable state (is_running state.status) capped
            (plan_units lib ctx ctx.assembled state 0 ctx.task_units) (λ live. live)
            (λ free live. under_cap state free live) uncapped
            (plan_units-AreFresh ctx.assembled state 0 ctx.task_units rounds))

  -- In a task with at least one round, every turn that the plan of a run gives out has no record
  -- yet and carries the attempt behind its discarded ones, and it is given out only while the run
  -- is running and its spend, with the reservations of the turns in flight, is under its cap.
  pub plan_next-ArePlannable :
      (files moved : RunFiles Usd) (specs : List TurnSpec)
      → 1 ≤ ctx.pipeline.effective_config.loop_caps.associate_partner
      → plan_next lib ctx files ≡ (moved, ok specs)
      → All (IsPlannable (load_state lib ctx files)) specs
  plan_next-ArePlannable files moved specs rounds planned =
      Ensures-ok (All (IsPlannable (load_state lib ctx files))) (plan_next lib ctx files).1 specs
        (plan_next-IsPlannable files rounds) (ap (λ o. o.1) planned)
