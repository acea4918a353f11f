-- ===== src/Convergence.antt =====
-- convergence.py: when a drafting loop stops. The similarity of two drafts, a library's ratio over
-- their words, is an argument, and so are the floats.
pub mod Reasons
mod Examples
use mootloop.Base.{
  ℕ, ◌-◌, Bool, true, false, ◌&&◌, not, Option, none, some, List, [], ◌∷◌, Text, if◌then◌else◌, ltb,
  leb, length, get_elem?, Result, ok, err, index_error,
}
use mootloop.Base.Floats.{FloatOps}
use mootloop.Config.{ConvergenceConfig}

pub record RoundState (F : Type 0) : Type 0 where
  pub score : F
  pub coverage : F
  pub text : Text

pub record DraftingSignals (F : Type 0) : Type 0 where
  pub score_delta : F
  pub coverage : F
  pub material_change : F
  pub iteration_number : ℕ
  pub max_iterations : ℕ

-- The strings that the source gives as `reason`.
pub data Reason : Type 0 where
  cap insufficient_history converged_ incomplete changing improving : Reason

pub record ConvergenceDecision (F : Type 0) : Type 0 where
  pub converged : Bool
  pub reason : Reason
  pub signals : DraftingSignals F

module _ {F : Type 0} (floats : FloatOps F) (zero_ one_ : F) (similarity : Text → Text → F) where
  -- `history[-1] if history else RoundState(0.0, 0.0, "")`
  unfoldable pub current_round : List (RoundState F) → RoundState F
  current_round [] = record { score = zero_; coverage = zero_; text = [] }
  current_round (r ∷ []) = r
  current_round (r ∷ s ∷ history) = current_round (s ∷ history)

  unfoldable pub signals_of :
      ConvergenceConfig F → RoundState F → RoundState F → (n max_iterations : ℕ) → DraftingSignals F
  signals_of config prev current n max_iterations = record {
    score_delta = floats.sub current.score prev.score;
    coverage = current.coverage;
    material_change = floats.sub one_ (similarity prev.text current.text);
    iteration_number = n;
    max_iterations = max_iterations;
  }

  unfoldable pub stopped_improving : ConvergenceConfig F → DraftingSignals F → Bool
  stopped_improving config s = floats.lt (floats.abs s.score_delta) config.score_delta_floor

  unfoldable pub stopped_changing : ConvergenceConfig F → DraftingSignals F → Bool
  stopped_changing config s = floats.lt s.material_change config.material_change_floor

  unfoldable pub is_complete : ConvergenceConfig F → DraftingSignals F → Bool
  is_complete config s = floats.le config.coverage_floor s.coverage

  unfoldable pub decide : ConvergenceConfig F → DraftingSignals F → ConvergenceDecision F
  unfolding stopped_improving stopped_changing is_complete
  decide config s =
      if stopped_improving config s && (stopped_changing config s && is_complete config s)
      then record { converged = true; reason = converged_; signals = s }
      else record {
        converged = false;
        reason =
            if not (is_complete config s)
            then incomplete
            else if not (stopped_changing config s)
            then changing
            else improving;
        signals = s;
      }

  -- The signals of a round that has no round before it to compare with.
  unfoldable pub unmeasured : F → F → (n max_iterations : ℕ) → DraftingSignals F
  unmeasured coverage material_change n max_iterations = record {
    score_delta = zero_;
    coverage = coverage;
    material_change = material_change;
    iteration_number = n;
    max_iterations = max_iterations;
  }

  -- `history[-2]` is out of range for fewer than two rounds.
  unfoldable pub evaluate :
      ConvergenceConfig F → List (RoundState F) → ℕ → Result (ConvergenceDecision F)
  unfolding decide signals_of unmeasured current_round
  evaluate config history max_iterations =
      let n = length history in
      let current = current_round history in
      if leb max_iterations n
      then ok (record {
        converged = true;
        reason = cap;
        signals = unmeasured current.coverage zero_ n max_iterations;
      })
      else if ltb n 2
      then ok (record {
        converged = false;
        reason = insufficient_history;
        signals = unmeasured current.coverage one_ n max_iterations;
      })
      else elim (get_elem? history (n - 2)) [
        | none ↦ err index_error
        | some prev ↦ ok (decide config (signals_of config prev current n max_iterations))
      ]
