-- ===== src/Orchestrator/Examples.antt =====
-- A run of one request, with toy libraries: its plan, a derailed turn, and the verbs.
use native.Mathlib.Decide.{ℕ_discrete}
use mootloop.Base.{
  ℕ, ◌≡◌, refl, ◌↔◌, Bool, true, false, none, some, List, [], ◌∷◌, All, codes, text_eq, text_eq_key,
  Eq, ok, arith,
}
use mootloop.Base.Dict.{lookup, insert}
use mootloop.Base.Floats.{whole}
use mootloop.Turn.{TurnSpec, Schema, associate}
use mootloop.Journal.Events.{
  JournalEvent, run_finished, run_reopened, turn_discarded, needs_attention, running, initial,
  is_finished,
}
use mootloop.Journal.Fold.{step, fold_from, fold, keep_detail}
use mootloop.Journal.Body.{StoredTurn}
use mootloop.Budget.{TokenUsage}
use mootloop.Budget.Examples.{metering}
use mootloop.Completeness.Examples.{ops}
use mootloop.Rubric.Final.{placed, sorted_items}
use mootloop.Stages.Context.{done, fact_ids}
use mootloop.Stages.Plan.{is_complete, name, draft_context}
use mootloop.Stages.Plan.Turns
use mootloop.Stages.Plan.Turns.{plan_request, plan_stages, draft_spec, ordered_stages}
use mootloop.Stages.Plan.Examples.{services, pipeline, value_of}
use mootloop.Orchestrator.{
  RunContext, Library, RunFiles, Body, invalid, ◌>>>◌, carry, reads, is_running, emit, load_state,
  context_for, plan_units, plan,
}
use mootloop.Orchestrator.Spend.{
  book_spend, discard, effective_max_attempts, over_cap, effective_cap, projected, sum_from,
}
use mootloop.Orchestrator.Land.{plan_next}
use mootloop.Orchestrator.Verbs.{
  reopen_run, attention_blockers, blockers_among, needs_operator, unless_blocked,
}
use mootloop.Orchestrator.Moves.{Moves, may_reopen, reopen_run-Moves, reopen_run-unblocks, after}
use mootloop.Orchestrator.Replay.{book_spend-replay}
use mootloop.Orchestrator.Derails.{AreDerailed, discard-AreDerailed}
use mootloop.Orchestrator.Planned.{IsPlannable, plan_next-ArePlannable}

stored-Discrete : Discrete (StoredTurn Body)
stored-Discrete = hlevel ℕ_discrete

same : {A : Type 0} {a b : A} → Dec (a ≡ b) → Bool
same (yes e) = true
same (no e) = false

same_iff : {A : Type 0} {a b : A} (d : Dec (a ≡ b)) → (same d ≡ true) ↔ (a ≡ b)
unfolding same
same_iff (yes e) = ((λ _. e), (λ _. refl))
same_iff (no e) = ((λ h. cc), (λ h. absurd (e h)))

pub stored_eq : Eq (StoredTurn Body)
stored_eq = record {
  test = λ a b. same (stored-Discrete a b);
  test_iff = λ a b. same_iff (stored-Discrete a b);
}

abbrev pub lib : Library ℕ ℕ
lib = record {
  stages = services;
  gates = record {
    text = ops;
    facts = record {
      money = λ s. [];
      dates = λ s. [];
      quotes = λ s. [];
      squash = λ s. s;
      no_space = λ s. s;
    };
    floats = whole;
    share_min = 1;
  };
  format = record { fixed3 = λ n. []; general = λ n. [] };
  metering = metering;
  parse = λ schema raw. invalid 1 (codes "no JSON");
  dump = λ stored. [];
  validate = λ text. none;
  stored_eq = stored_eq;
  upper = λ s. s;
  repr = λ s. s;
  date_of = λ now. 20260101;
}

abbrev pub ctx : RunContext ℕ ℕ
ctx = record {
  run_id = codes "r";
  adapter = record {
    task = codes "discovery-responses";
    draft_directive = codes "Draft";
    judge_question = codes "Would it survive?";
  };
  rubric = record { rubric_id = codes "r"; version = codes "1"; locked = true; criteria = [] };
  pipeline = pipeline;
  task_units =
      record { request_id = codes "ROG-1"; text = codes "State"; is_document = false } ∷ [];
  fact_rows = ((codes "fact_id", codes "f1") ∷ []) ∷ [];
  facts = [];
  evidence = [];
  corpus_text = [];
  tier_models = [];
  assembled = [];
  max_attempts = 3;
  hard_cap_usd = some 100;
  gates = [];
}

abbrev pub files_of : List (JournalEvent ℕ) → RunFiles ℕ
files_of events = record {
  events = events;
  store = record { records = []; sidecars = [] };
  bodies = [];
  gaps = none;
}

-- A run whose turn has spent its three attempts.
abbrev blocked : RunFiles ℕ
blocked =
    files_of (
      turn_discarded (codes "t1") (codes "schema-invalid") 3 [] ∷ run_finished needs_attention ∷ [])

reopen_run-Moves_example :
    Moves lib ctx
      (may_reopen lib ctx (codes "fixed") 1 blocked)
      (run_reopened (codes "fixed") 1 false (codes "operator"))
      running
      blocked
      (reopen_run lib ctx (codes "fixed") 1 (codes "operator") blocked)
reopen_run-Moves_example = reopen_run-Moves lib ctx (codes "fixed") (codes "operator") 1 blocked

reopened :
    reopen_run lib ctx (codes "fixed") 1 (codes "operator") blocked
    ≡ (after lib ctx blocked (run_reopened (codes "fixed") 1 false (codes "operator")), ok _)
unfolding reopen_run needs_operator unless_blocked attention_blockers blockers_among sorted_items
    placed emit load_state fold fold_from step effective_max_attempts lookup insert text_eq initial
    keep_detail
reopened = refl

reopen_run-unblocks_example :
    attention_blockers lib ctx 0 (
      load_state lib ctx
        (after lib ctx blocked (run_reopened (codes "fixed") 1 false (codes "operator"))))
    ≡ []
reopen_run-unblocks_example =
    reopen_run-unblocks lib ctx (codes "fixed") (codes "operator") 1 blocked
      (after lib ctx blocked (run_reopened (codes "fixed") 1 false (codes "operator"))) reopened

abbrev usage : TokenUsage
usage = record {
  input_tokens = 10;
  cache_read = 0;
  cache_write = 0;
  output_tokens = 5;
  model = codes "claude-haiku-4-5";
}

abbrev unstarted : RunFiles ℕ
unstarted = files_of []

book_spend-replay_example :
    let booked =
      (book_spend lib ctx
        (codes "t1")
        (some usage)
        none
        (codes "now")
        false
        (some (codes "c1"))
        unstarted).0 in
    book_spend lib ctx
      (codes "t1")
      (some usage)
      none
      (codes "later")
      true
      (some (codes "c1"))
      booked
    ≡ (booked, ok _)
book_spend-replay_example =
    book_spend-replay lib ctx (codes "t1") usage none none (codes "now") (codes "later") false
      (some (codes "c1")) unstarted

abbrev first_draft : TurnSpec
first_draft = record {
  turn_id = codes "t1";
  run_id = codes "r";
  persona = associate;
  request_id = some (codes "ROG-1");
  stage = codes "associate_draft";
  prompt_context = [];
  output_schema_name = Schema.draft;
  attempt = 1;
  model = none;
}

discard-AreDerailed_example :
    AreDerailed lib ctx unstarted first_draft (codes "schema-invalid") (some usage) (codes "now") (
      discard lib ctx first_draft
        (codes "schema-invalid")
        (some usage)
        (codes "now")
        []
        (some (codes "c1"))
        unstarted)
discard-AreDerailed_example =
    discard-AreDerailed lib ctx first_draft (codes "schema-invalid") (some usage) (codes "now") []
      (some (codes "c1")) unstarted

planned : plan_next lib ctx unstarted ≡ (unstarted, ok (value_of (plan_next lib ctx unstarted).1))
unfolding plan_next plan plan_units context_for reads ◌>>>◌ carry load_state fold fold_from initial
    over_cap effective_cap projected sum_from is_finished is_running plan_request plan_stages
    Turns.plan is_complete done draft_spec draft_context fact_ids ordered_stages name text_eq lookup
planned = refl

plan_next-ArePlannable_example :
    All
      (IsPlannable lib ctx (load_state lib ctx unstarted))
      (value_of (plan_next lib ctx unstarted).1)
plan_next-ArePlannable_example =
    plan_next-ArePlannable lib ctx unstarted unstarted (value_of (plan_next lib ctx unstarted).1)
      (omega arith) planned
