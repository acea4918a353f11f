-- ===== src/Convergence/Reasons.antt =====
-- The verdict on a round, and its reason.
use mootloop.Base.{ℕ, ◌-◌, ◌≤◌, ◌<◌, ◌≡◌, ◌↔◌, true, false, some, List, Text, length, get_elem?}
use mootloop.Base.Floats.{FloatOps}
use mootloop.Config.{ConvergenceConfig}
use mootloop.Convergence.{
  RoundState, DraftingSignals, ConvergenceDecision, cap, insufficient_history, converged_,
  incomplete, current_round, signals_of, stopped_improving, stopped_changing, is_complete,
}

module _ {F : Type 0} (floats : FloatOps F) (zero_ one_ : F) (similarity : Text → Text → F) where
  -- What the decision on a round below the cap, after the round `prev`, has to be.
  abbrev pub IsVerdict : ConvergenceConfig F → DraftingSignals F → ConvergenceDecision F → Type 0
  IsVerdict config s d =
      (d.signals ≡ s)
      × ((d.converged ≡ true) ↔ (
          (stopped_improving floats zero_ one_ similarity config s ≡ true)
          × (stopped_changing floats zero_ one_ similarity config s ≡ true)
          × (is_complete floats zero_ one_ similarity config s ≡ true)))
      × ((d.reason ≡ converged_) ↔ (d.converged ≡ true))
      × ((d.reason ≡ incomplete) ↔ (is_complete floats zero_ one_ similarity config s ≡ false))

  -- What the evaluation of a history under a cap decides: at the cap it stops with the reason
  -- `cap`, below two rounds it goes on, and else it is the verdict on the last round against the
  -- one before it.
  abbrev pub IsDecision :
      ConvergenceConfig F → List (RoundState F) → ℕ → ConvergenceDecision F → Type 0
  IsDecision config history max_iterations d =
      (max_iterations ≤ length history → (d.converged ≡ true) × (d.reason ≡ cap))
      × (length history < max_iterations
          → length history < 2
          → (d.converged ≡ false) × (d.reason ≡ insufficient_history))
      × (length history < max_iterations
          → 2 ≤ length history
          → (prev : RoundState F) × (get_elem? history (length history - 2) ≡ some prev)
            × IsVerdict config
                (signals_of floats zero_ one_ similarity config prev
                  (current_round floats zero_ one_ similarity history) (length history)
                  max_iterations)
                d)
