-- ===== src/Orchestrator.antt =====
-- orchestrator.py: what a run is made of, and the plan of its next turns. The state is what the
-- operations read back: the journal, the decision log, the bodies of the turns and the gaps report.
pub mod Spend
pub mod Record
pub mod Settle
pub mod Land
pub mod Verbs
pub mod Decide
mod Decided
mod Resolves
mod Moves
mod Replay
mod Derails
mod Planned
mod Examples
mod DecideExamples
use mootloop.Base.{
  ℕ, suc, Bool, true, false, Option, none, some, List, [], ◌∷◌, ◌++◌, Text, text_eq_key, ◌==◌,
  if◌then◌else◌, get_elem?, Eq, Result, Error, ok, err, ◌>>=◌, of_option, orchestrator_error,
}
use mootloop.Base.Dict.{Dict}
use mootloop.Turn.{TurnSpec, TurnOutput, GateResult, Schema, AssembledContextItem}
use mootloop.Journal.Events.{JournalEvent, RunState, RunStatus, running}
use mootloop.Journal.Fold.{fold}
use mootloop.Journal.Body.{StoredTurn}
use mootloop.Rubric.{Rubric}
use mootloop.Rubric.Final.{FloatFormat}
use mootloop.Pipeline.{ResolvedPipeline}
use mootloop.Stages.Context.{TaskUnit, TaskAdapter, Services, StageContext}
use mootloop.Stages.Plan.Turns.{plan_request}
use mootloop.Decisions.{DecisionStore, MatterGate}
use mootloop.Gates.Fabrication.{Fact, DocumentEvidence}
use mootloop.Gates.Turns.{GateLibrary}
use mootloop.Budget.{Metering}

-- The committed launch context, which `load_run_context` validated.
pub record RunContext (F Usd : Type 0) : Type 0 where
  pub run_id : Text
  pub adapter : TaskAdapter
  pub rubric : Rubric F
  pub pipeline : ResolvedPipeline F
  pub task_units : List TaskUnit
  pub fact_rows : List (Dict Text Text)
  pub facts : List Fact
  pub evidence : List DocumentEvidence
  pub corpus_text : Text
  pub tier_models : Dict Text Text
  pub assembled : List AssembledContextItem
  pub max_attempts : ℕ
  pub hard_cap_usd : Option Usd
  pub gates : List MatterGate

abbrev pub Body : Type 0
Body = TurnSpec × TurnOutput × List GateResult

-- A validation error: the number of its errors, and the detail of the first six.
pub data Parsed : Type 0 where
  valid : TurnOutput → Parsed
  invalid : (count : ℕ) (detail : Text) → Parsed

-- The libraries and the sources that the run calls.
pub record Library (F Usd : Type 0) : Type 0 where
  pub stages : Services F
  pub gates : GateLibrary F
  pub format : FloatFormat F
  pub metering : Metering Usd
  pub parse : Schema → Text → Parsed
  pub dump : StoredTurn Body → Text
  pub validate : Text → Option (StoredTurn Body)
  pub stored_eq : Eq (StoredTurn Body)
  pub upper : Text → Text
  pub repr : Text → Text
  pub date_of : Text → ℕ

pub record RunFiles (Usd : Type 0) : Type 0 where
  pub events : List (JournalEvent Usd)
  pub store : DecisionStore
  pub bodies : Dict Text Text
  pub gaps : Option (List (Text × Text))

-- An operation on the files, which may raise after some writes.
abbrev pub Op : Type 0 → Type 0 → Type 0
Op Usd A = RunFiles Usd → RunFiles Usd × Result A

module _ {Usd A B : Type 0} where
  unfoldable pub carry : RunFiles Usd × Result A → (A → Op Usd B) → RunFiles Usd × Result B
  carry (files, err raised) rest = (files, err raised)
  carry (files, ok a) rest = rest a files

  infixl 5 ◌>>>◌
  unfoldable pub ◌>>>◌ : Op Usd A → (A → Op Usd B) → Op Usd B
  unfolding carry
  (first >>> rest) files = carry (first files) rest

module _ {Usd : Type 0} where
  -- A read of the files, which may raise.
  unfoldable pub reads : {A : Type 0} → (RunFiles Usd → Result A) → Op Usd A
  reads read files = (files, read files)

  abbrev pub done_with : {A : Type 0} → A → Op Usd A
  done_with a files = (files, ok a)

  abbrev pub raises : {A : Type 0} → Error → Op Usd A
  raises raised files = (files, err raised)

  -- `append(vault_root, run_id, event)`
  unfoldable pub emit : JournalEvent Usd → Op Usd Unit
  emit event files = (record files { events = files.events ++ event ∷ [] }, ok _)

unfoldable pub is_running : RunStatus → Bool
is_running running = true
is_running _ = false

module _ {F Usd : Type 0} (lib : Library F Usd) (ctx : RunContext F Usd) where
  unfoldable pub load_state : RunFiles Usd → RunState Usd
  load_state files = fold lib.metering.floats files.events

  -- `_context_for`, of the unit at an index, with the tier's models and the assembled context.
  unfoldable pub context_for :
      Dict Text Text → List AssembledContextItem → RunState Usd → ℕ → TaskUnit → StageContext F Usd
  context_for tier_models assembled state i unit = record {
    run_id = ctx.run_id;
    req_index = i;
    request = unit;
    facts = ctx.fact_rows;
    adapter = ctx.adapter;
    rubric = ctx.rubric;
    state = state;
    pipeline = ctx.pipeline;
    tier_models = tier_models;
    assembled_context = assembled;
  }

  -- The loop of `_plan` over the units from an index on.
  unfoldable pub plan_units :
      List AssembledContextItem → RunState Usd → ℕ → List TaskUnit → Result (List TurnSpec)
  unfolding context_for plan_request
  plan_units assembled state i [] = ok []
  plan_units assembled state i (unit ∷ units) =
      plan_request lib.stages (context_for ctx.tier_models assembled state i unit) >>= λ specs.
      plan_units assembled state (suc i) units >>= λ more. ok (specs ++ more)

  unfoldable pub plan : List AssembledContextItem → RunState Usd → Result (List TurnSpec)
  unfolding plan_units is_running
  plan assembled state =
      if is_running state.status then plan_units assembled state 0 ctx.task_units else ok []

  -- `_find_spec_in`
  unfoldable pub find_spec_in : Text → List TurnSpec → Result TurnSpec
  find_spec_in turn_id [] = err orchestrator_error
  find_spec_in turn_id (s ∷ specs) =
      let rest = find_spec_in turn_id specs in if s.turn_id == turn_id then ok s else rest
