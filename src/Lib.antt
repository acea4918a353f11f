-- ===== src/Lib.antt =====
-- A verification library for mootloop, which runs drafting loops of language-model personas over
-- the requests of a legal matter, records every step in a journal, and lets a run export only
-- when its gates have passed.
--
-- The parts, and the files that model them (paths from the repository's root):
--
-- - Turn: the vocabulary of a turn, src/mootloop/models/run.py and models/gates.py.
-- - Journal: src/mootloop/journal.py, persistence.py and models/events.py. Journal/Events has the
--   events and the run state, Journal/Fold the function `fold`, Journal/Read the readers
--   `tail_events` and `read_events` with the cache of parsed prefixes, Journal/Write the append
--   `append_fsync_line` with the repair of a torn tail, Journal/Body the write-once body of a turn,
--   `write_turn_body`. A file is the list of its bytes.
-- - Queue: src/mootloop/engine/queue.py. The state is the list of work items that the queue file
--   holds, and an operation is a function from that list to the list written back and the result;
--   the file lock makes each of them one step.
-- - Panels: src/mootloop/panels.py, the alignment of a judge's rulings with the objections of the
--   judged draft, the fold of the votes, and the lay readers' signal.
-- - GateLedger: src/mootloop/gate_ledger.py, the fold of the recorded gates over the journal and
--   the test that lets a run export.
-- - Config: src/mootloop/models/task.py and models/pipeline.py, the configuration of a task, the
--   check of its stage graph, and the ceiling on its turns.
-- - Pipeline: src/mootloop/models/pipeline.py, the committed pipeline and its validator
--   `validate_ownership`; Pipeline/Compile has `compile_pipeline` of src/mootloop/pipeline.py.
-- - Rubric: src/mootloop/models/rubric.py, the criteria of a rubric and its scores; Rubric/Final
--   the final gate over the scores of the panel.
-- - Completeness: src/mootloop/gates/completeness.py, the checks of the presence criteria, the gate
--   `evaluate` and the share `coverage` that convergence reads.
-- - Gates: src/mootloop/gates. Gates/Runtime is gates/runtime.py, the catalog of the gates, its
--   topological order and the runner that may halt; Gates/Degeneracy, Gates/Fabrication and
--   Gates/Turns are gates/degeneracy.py, gates/fabrication.py and gates/turn.py.
-- - Budget: src/mootloop/budget.py and models/budget.py, the tiers, the dated prices and the
--   metered cost of a call; Budget/Estimate has the estimate of a run.
-- - Orchestrator: src/mootloop/orchestrator.py. Orchestrator.antt has the committed context, the
--   files of a run and `_plan`, Orchestrator/Spend `_book_spend`, `_discard` and the cap,
--   Orchestrator/Record `_maybe_emit_rubric_gate` and `_finalize`, Orchestrator/Settle the
--   checkpoints, Orchestrator/Land `record_turn` and `plan_next`, Orchestrator/Verbs the
--   operator's verbs. An operation takes the files to the files and a result, so that what it
--   wrote before it raised stays written; the run's lock makes it one step.
-- - Stages: src/mootloop/stages.py. Stages.antt has class `SlotLayout`, Stages/Context the class
--   `StageContext` with the drafts that it finds, Stages/Plan each stage's `is_complete`, and
--   Stages/Plan/Turns each stage's `plan` with `plan_request` and `request_complete`.
-- - Convergence: src/mootloop/convergence.py, class `ConvergenceEvaluator`.
-- - Decisions: src/mootloop/decisions.py and models/decisions.py. Decisions.antt has the log, the
--   list of its records, Decisions/Proposals the gates that a draft implies, Decisions/Derive their
--   derivation, Decisions/Resolve what `resolve` does to the log and the journal, and
--   Orchestrator/Decide the whole of `resolve`, with the finalization that it calls.
--
-- The stages plan turns in the slots of their layout; the turns are recorded as events of the
-- journal, whose fold is the state that the stages, the gate ledger and the panels read; the
-- orchestrator lands a provider's text through the gates, books its spend and plans what is next;
-- the queue hands the runs to the workers.
--
-- Base has what they share: texts as lists of code points, insertion-ordered dictionaries,
-- errors as values, lists and tests over the native numbers.
--
-- What is not code of the repository is an argument: the floats (`FloatOps`, with no law assumed),
-- the validation of a journal line by the library, SHA-256 with injectivity as a hypothesis of the
-- theorem that needs it, the JSON encoding of an output, the ISO text of a time with its order as
-- a law of the interface, the word similarity of two drafts, Unicode's strip, lower, upper and
-- NFKC, the matches of the gates' regular expressions, `repr`, the validation and the dump of a
-- turn's record, the formats of a number, rounding, and the date of a time. The stages also take
-- the score source and the convergence source, which the code takes as fields, and the coverage,
-- which Completeness models, as arguments.
--
-- The backward scan for the last newline runs on fuel, the length of the file, which is enough
-- since each step moves back by a chunk of at least one byte; the theorem on the repair says so
-- for every file. The rounds of the gates' topological order run on fuel, the number of the
-- selected names, which is enough since each round settles one; a theorem says so. All other loops
-- are by structural recursion.
--
-- Not modelled: the file system's locks and fsync barriers, which the sequential model takes as
-- atomic steps; the web interface, the command line, the providers and containers, and the parsing
-- of documents; and of the core, the text of a prompt, the fixed pipeline of older runs, the start
-- of a run, the texts that the orchestrator renders (the deliverable, the gaps report beyond its
-- rows, the status views), the verification of citations, the attestation and the layered
-- configuration.
pub mod Base
pub mod Turn
pub mod Journal
pub mod Queue
pub mod Panels
pub mod GateLedger
pub mod Config
pub mod Stages
pub mod Convergence
pub mod Rubric
pub mod Completeness
pub mod Gates
pub mod Budget
pub mod Orchestrator
pub mod Pipeline
pub mod Decisions
