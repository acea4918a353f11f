-- ===== src/Journal/Examples.antt =====
-- Small journals: what the fold and the readers do on them, and the theorems at concrete inputs.
use mootloop.Base.{
  ℕ, ◌≡◌, refl, ◌↔◌, false, Option, none, some, List, [], ◌∷◌, ◌++◌, Text, codes, ok, ◌>>=◌, All,
  text_eq, text_eq_key,
}
use mootloop.Base.Dict.{lookup, insert, pop}
use mootloop.Base.Floats.{whole}
use mootloop.Turn.{TurnRecord, associate, Schema, TurnOutput, Verdict}
use mootloop.Journal.Events.{
  running, finished, paused, subscription, SpendRecorded, JournalEvent, turn_completed,
  turn_discarded, spend_recorded, run_finished, cap_raised, checkpoint_cleared, run_resumed,
  run_reopened, turn_intent, RunState, initial, is_finished, is_completed,
}
use mootloop.Journal.Fold.{step, fold, fold_from}
use mootloop.Journal.Lifecycle.{Reopens, step-Reopens, fold_from-finished}
use mootloop.Journal.Ledger.{outstanding, fold-outstanding, Totals, fold-Totals}
use mootloop.Journal.Turns.{land, view, fold-land}
use mootloop.Journal.Read.{scan, parse_line, strip, tail_events, read_events, ParsedPrefix}
use mootloop.Journal.Read.Resume.{tail_events-resume}
use mootloop.Journal.Read.Cached.{IsParsed, read_events-parse}
use mootloop.Journal.Write.{repair_torn_tail, append_fsync_line}
use mootloop.Journal.Write.Repair.{complete, repair_torn_tail-complete}
use mootloop.Journal.Write.Append.{append_fsync_line-read}

abbrev first : Text
first = codes "r-t0000"

abbrev second : Text
second = codes "r-t0001"

abbrev spent : SpendRecorded ℕ
spent = record {
  turn_id = first;
  input_tokens = 10;
  cache_read = 2;
  cache_write = 1;
  output_tokens = 5;
  model = codes "fake";
  usd_equiv = 3;
  billing_mode = subscription;
  provider_call_id = none;
}

abbrev turn : TurnRecord
turn = record {
  spec = record {
    turn_id = first;
    run_id = codes "r";
    persona = associate;
    request_id = some (codes "rog-1");
    stage = codes "associate_draft";
    output_schema_name = Schema.critique;
    attempt = 1;
    model = none;
    prompt_context = [];
  };
  output = TurnOutput.critique (record {
    verdict = Verdict.approve;
    critiques = [];
    instructions = [];
    self_assessment = codes "fine";
  });
  gate_results = [];
  completed_at = codes "2026";
}

abbrev log : List (JournalEvent ℕ)
log =
    turn_intent first (codes "fake") subscription 9
    ∷ turn_intent second (codes "fake") subscription 7
    ∷ spend_recorded spent
    ∷ turn_completed turn
    ∷ turn_discarded second (codes "schema") 1 (codes "bad json")
    ∷ turn_discarded second (codes "schema") 2 []
    ∷ run_reopened (codes "fixed") 2 false (codes "op")
    ∷ checkpoint_cleared (codes "drafting")
    ∷ run_finished finished
    ∷ []

abbrev zero_state : RunState ℕ
unfolding initial
zero_state = initial 0

program : Unit {0}
unfolding fold step initial lookup insert pop text_eq is_finished is_completed
program = tt

pending-log :
    (lookup first (fold whole log).pending_intents ≡ none)
    × (lookup second (fold whole log).pending_intents ≡ some 7)
unfolding program
pending-log = (refl, refl)

step-Reopens_example :
    ((step whole (record zero_state { status = paused }) run_resumed).status ≡ running)
    ↔ Reopens {Usd = ℕ} paused run_resumed
step-Reopens_example =
    step-Reopens whole (record zero_state { status = paused }) run_resumed
      (unfold is_finished in refl)

fold_from-finished_example :
    (fold_from whole
      (record zero_state { status = finished })
      (run_resumed ∷ cap_raised 5 ∷ [])).status
    ≡ finished
fold_from-finished_example =
    fold_from-finished whole (run_resumed ∷ cap_raised 5 ∷ [])
      (record zero_state { status = finished }) refl (refl, (refl, tt))

fold-outstanding_example :
    lookup second (fold whole log).pending_intents ≡ outstanding second none log
fold-outstanding_example = fold-outstanding whole second log

fold-Totals_example : Totals whole (initial 0) log (fold whole log)
fold-Totals_example = fold-Totals whole log

fold-land_example : lookup first (fold whole log).completed_turns ≡ view (land first) none log
fold-land_example = fold-land whole first log

-- A parser for one-byte records, and two files.
abbrev one_byte : List ℕ → Option ℕ
one_byte (b ∷ []) = some b
one_byte _ = none

reading : Unit {0}
unfolding scan parse_line strip tail_events repair_torn_tail append_fsync_line text_eq
reading = tt

abbrev torn : List ℕ
torn = codes "a" ++ 10 ∷ codes "b"

tail-torn : tail_events one_byte (some torn) 0 ≡ ok (97 ∷ [], 2)
unfolding reading
tail-torn = refl

tail_events-resume_example :
    tail_events one_byte (some (torn ++ 10 ∷ [])) 0
    ≡ (tail_events one_byte (some (torn ++ 10 ∷ [])) 2 >>= λ r. ok (97 ∷ r.0, r.1))
tail_events-resume_example = tail_events-resume one_byte torn (10 ∷ []) (97 ∷ []) 2 tail-torn

abbrev same_bytes : List ℕ → Text
same_bytes bytes = bytes

read_events-parse_example :
    let (r, after) = read_events same_bytes one_byte [] (codes "k") (some torn) in
    (r ≡ (scan one_byte [] torn >>= λ r. ok r.0)) × All (IsParsed same_bytes one_byte) after
read_events-parse_example =
    read_events-parse same_bytes one_byte (λ b c e. e) [] (codes "k") torn tt

abbrev empty_prefix : ParsedPrefix ℕ
empty_prefix = record { offset = 0; events = []; digest = [] }

repair_torn_tail-complete_example : repair_torn_tail torn ≡ complete torn
repair_torn_tail-complete_example = repair_torn_tail-complete torn

append_fsync_line-read_example :
    (scan one_byte [] (append_fsync_line torn (codes "c")) >>= λ r. ok r.0) ≡ ok (97 ∷ 99 ∷ [])
append_fsync_line-read_example =
    append_fsync_line-read one_byte torn (codes "c") (97 ∷ []) (99 ∷ []) 2 (refl, tt)
      (unfold reading in refl) (unfold reading in refl)
