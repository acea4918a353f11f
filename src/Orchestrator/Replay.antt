-- ===== src/Orchestrator/Replay.antt =====
-- The booking of a spend: a replay of a call whose spend is on the journal books nothing.
use mootloop.Base.{
  ◌≡◌, refl, ◌∙◌, Bool, true, false, ◌&&◌, Option, none, some, List, [], ◌∷◌, ◌++◌, Text,
  text_eq_iff, text_eq_key, nat_eq_iff, any, if◌then◌else◌, Result, ok, arith,
}
use mootloop.Journal.Events.{JournalEvent, SpendRecorded, spend_recorded}
use mootloop.Budget.{TokenUsage}
use mootloop.Orchestrator.{RunContext, Library, RunFiles, emit}
use mootloop.Orchestrator.Spend.{
  prior_with, prior_spends, is_signed, is_booked, spend_of, book_spend,
}

module _ {Usd : Type 0} where
  any-append_one :
      (test : SpendRecorded Usd → Bool) (spends : List (SpendRecorded Usd)) (e : SpendRecorded Usd)
      → test e ≡ true
      → any test (spends ++ e ∷ []) ≡ true
  any-append_one test [] e h = ground (arith, h)
  any-append_one test (s ∷ spends) e h = ground (arith, any-append_one test spends e h)

  prior_spends-append_one :
      (call : Option Text) (turn_id : Text) (prior : List (SpendRecorded Usd))
      (events : List (JournalEvent Usd)) (event : JournalEvent Usd)
      → prior_spends call turn_id prior (events ++ event ∷ [])
        ≡ prior_with call turn_id (prior_spends call turn_id prior events) event
  unfolding prior_spends
  prior_spends-append_one call turn_id prior [] event = refl
  prior_spends-append_one call turn_id prior (e ∷ events) event =
      prior_spends-append_one call turn_id (prior_with call turn_id prior e) events event

  prior_with-spend :
      (call : Option Text) (prior : List (SpendRecorded Usd)) (e : SpendRecorded Usd)
      → prior_with call e.turn_id prior (spend_recorded e) ≡ prior ++ e ∷ []
  unfolding prior_with
  prior_with-spend none prior e = ground (arith, text_eq_iff e.turn_id e.turn_id)
  prior_with-spend (some call) prior e = ground (arith, text_eq_iff e.turn_id e.turn_id)

  prior_spends-spend :
      (call : Option Text) (events : List (JournalEvent Usd)) (e : SpendRecorded Usd)
      → prior_spends call e.turn_id [] (events ++ spend_recorded e ∷ [])
        ≡ prior_spends call e.turn_id [] events ++ e ∷ []
  prior_spends-spend call events e =
      prior_spends-append_one call e.turn_id [] events (spend_recorded e)
      ∙ prior_with-spend call (prior_spends call e.turn_id [] events) e

module _ {F Usd : Type 0} (lib : Library F Usd) (ctx : RunContext F Usd) where
  is_booked-after :
      (turn_id : Text) (usage : TokenUsage) (model : Option Text) (now : Text) (call : Option Text)
      (events : List (JournalEvent Usd))
      → is_booked call turn_id usage
          (events ++ spend_recorded (spend_of lib ctx turn_id usage model now call) ∷ [])
        ≡ true
  unfolding is_booked spend_of is_signed
  is_booked-after turn_id usage model now none events =
      let e = spend_of lib ctx turn_id usage model now none in
      rw (prior_spends-spend none events e) (
        any-append_one (is_signed usage) (prior_spends none turn_id [] events) e (
          ground (
            arith,
            text_eq_iff usage.model usage.model,
            nat_eq_iff usage.input_tokens usage.input_tokens,
            nat_eq_iff usage.cache_read usage.cache_read,
            nat_eq_iff usage.cache_write usage.cache_write,
            nat_eq_iff usage.output_tokens usage.output_tokens,
          )))
  is_booked-after turn_id usage model now (some call) events =
      let e = spend_of lib ctx turn_id usage model now (some call) in
      rw (prior_spends-spend (some call) events e) (
        any-append_one _ (prior_spends (some call) turn_id [] events) e
          (ground (arith, text_eq_iff call call)))

  replayed :
      (turn_id : Text) (usage : TokenUsage) (model : Option Text) (now : Text) (call : Option Text)
      (files : RunFiles Usd)
      → is_booked call turn_id usage files.events ≡ true
      → book_spend lib ctx turn_id (some usage) model now true call files ≡ (files, ok _)
  unfolding book_spend
  replayed turn_id usage model now call files h = rw h refl

  kept_booked :
      (skipped : Bool) (turn_id : Text) (usage : TokenUsage) (model : Option Text) (now : Text)
      (call : Option Text) (files : RunFiles Usd)
      → (skipped ≡ true → is_booked call turn_id usage files.events ≡ true)
      → let booked : RunFiles Usd × Result (Unit {0}) =
          if skipped
          then (files, ok _)
          else emit (spend_recorded (spend_of lib ctx turn_id usage model now call)) files in
        is_booked call turn_id usage booked.0.events ≡ true
  unfolding emit
  kept_booked true turn_id usage model now call files h = h refl
  kept_booked false turn_id usage model now call files h =
      is_booked-after turn_id usage model now call files.events

  -- After a call's spend has been booked, deduplicated or not, a replay of the booking with the
  -- same identity and usage books nothing more: it succeeds and leaves every file as it is. Without
  -- an identity the usage takes its place.
  pub book_spend-replay :
      (turn_id : Text) (usage : TokenUsage) (model again : Option Text) (now later : Text)
      (dedupe : Bool) (call : Option Text) (files : RunFiles Usd)
      → let booked = (book_spend lib ctx turn_id (some usage) model now dedupe call files).0 in
        book_spend lib ctx turn_id (some usage) again later true call booked ≡ (booked, ok _)
  unfolding book_spend
  book_spend-replay turn_id usage model again now later dedupe call files =
      replayed turn_id usage again later call
        (book_spend lib ctx turn_id (some usage) model now dedupe call files).0
        (kept_booked (dedupe && is_booked call turn_id usage files.events) turn_id usage model now
          call files (λ e. ground (arith, e)))
