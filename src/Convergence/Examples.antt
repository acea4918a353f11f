-- ===== src/Convergence/Examples.antt =====
-- A loop of two rounds that has stopped moving, with whole numbers for the floats.
use mootloop.Base.{ℕ, List, [], ◌∷◌, Text, codes}
use mootloop.Config.{ConvergenceConfig}
use mootloop.Convergence.{RoundState}

abbrev alike : Text → Text → ℕ
alike a b = 1

abbrev floors : ConvergenceConfig ℕ
floors = record { score_delta_floor = 1; material_change_floor = 1; coverage_floor = 8 }

abbrev rounds : List (RoundState ℕ)
rounds =
    record { score = 6; coverage = 9; text = codes "first draft" }
    ∷ record { score = 6; coverage = 9; text = codes "second draft" }
    ∷ []
