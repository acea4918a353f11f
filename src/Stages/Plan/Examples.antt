-- ===== src/Stages/Plan/Examples.antt =====
-- A request at its start: one drafting turn is planned, and later stages wait.
use mootloop.Base.{
  ℕ, ◌≡◌, ◌↔◌, refl, true, false, List, [], ◌∷◌, codes, text_eq, All, Result, ok, err, arith,
}
use mootloop.Base.Dict.{lookup}
use mootloop.Base.Floats.{whole}
use mootloop.Turn.{associate, judge}
use mootloop.Journal.Events.{initial}
use mootloop.Config.{TaskAdapterConfig, discovery}
use mootloop.Pipeline.{thin_full, matter_config, task_adapter, ResolvedPipeline}
use mootloop.Convergence.{insufficient_history}
use mootloop.Stages.Context.{Services, StageContext, done, fact_ids, collect}
use mootloop.Stages.Plan.{
  associate_draft, judge_panel, restructure, is_complete, name, draft_context,
}
use mootloop.Stages.Plan.Turns.{
  plan_request, plan_stages, plan, draft_spec, ordered_stages, request_complete,
}
use mootloop.Stages.Plan.Next.{IsOpen}
use mootloop.Stages.Plan.Fresh.{plan_request-IsOpen}
use mootloop.Stages.Plan.Complete.{judged_first, plan_request_complete}

abbrev task : TaskAdapterConfig ℕ
task = record {
  schema_version = codes "1.0";
  task = codes "discovery-responses";
  input_family = discovery;
  stages =
      codes "associate_draft" ∷ codes "judge_panel" ∷ codes "restructure" ∷ codes "assemble" ∷ [];
  loop_caps = record { associate_partner = 2; oc = 0; bolster = 0; restructure = 1 };
  panels = record { judges = 2; jury = false; jurors = 0; rubric_judges = 1 };
  convergence = record { score_delta_floor = 1; material_change_floor = 1; coverage_floor = 1 };
  gates = [];
  rubric_id = codes "r";
  rubric_threshold = 1;
  restructure_threshold = 1;
  deliverables = [];
  pipeline_strategies = [];
  overridable = [];
}

abbrev pub pipeline : ResolvedPipeline ℕ
pipeline = record {
  strategy = thin_full;
  effective_config = task;
  drafting_persona = associate;
  oc_personas = [];
  active_personas = associate ∷ judge ∷ [];
  bypassed_personas = [];
  max_turns_per_request = 4;
  sources = (
    record { kind = matter_config; locator = []; sha256 = [] },
    record { kind = task_adapter; locator = []; sha256 = [] },
  );
}

abbrev pub services : Services ℕ
services = record {
  floats = whole;
  normalize = λ s. s;
  strip = λ s. s;
  encode = λ o. [];
  sha256 = λ s. s;
  score = λ r s c. 0;
  coverage = λ d r c t. ok 0;
  converge = λ h n c. ok (record {
    converged = false;
    reason = insufficient_history;
    signals = record {
      score_delta = 0;
      coverage = 0;
      material_change = 1;
      iteration_number = 0;
      max_iterations = n;
    };
  });
}

abbrev request : StageContext ℕ ℕ
request = record {
  run_id = codes "r";
  req_index = 1;
  request = record { request_id = codes "ROG-1"; text = codes "State"; is_document = false };
  facts = ((codes "fact_id", codes "f1") ∷ []) ∷ [];
  adapter = record {
    task = codes "discovery-responses";
    draft_directive = codes "Draft";
    judge_question = codes "Would it survive?";
  };
  rubric = record { rubric_id = codes "r"; version = codes "1"; locked = true; criteria = [] };
  state = initial 0;
  pipeline = pipeline;
  tier_models = [];
  assembled_context = [];
}

abbrev pub value_of : {A : Type 0} → Result (List A) → List A
value_of (ok xs) = xs
value_of (err raised) = []

stages :
    ordered_stages services request task.stages
    ≡ ok (associate_draft ∷ judge_panel ∷ restructure ∷ [])
unfolding ordered_stages name text_eq lookup collect
stages = refl

planned : plan_request services request ≡ ok (value_of (plan_request services request))
unfolding plan_request plan_stages plan is_complete done draft_spec draft_context fact_ids
    ordered_stages name text_eq lookup initial
planned = refl

plan_request-IsOpen_example :
    All (IsOpen services request) (value_of (plan_request services request))
plan_request-IsOpen_example =
    plan_request-IsOpen services request (value_of (plan_request services request)) (omega arith)
      planned

judges_first : judged_first (associate_draft ∷ judge_panel ∷ restructure ∷ []) ≡ true
unfolding judged_first
judges_first = refl

plan_request_complete_example :
    (plan_request services request ≡ ok []) ↔ (request_complete services request ≡ ok true)
plan_request_complete_example =
    plan_request_complete services request (associate_draft ∷ judge_panel ∷ restructure ∷ [])
      (omega arith) stages judges_first
