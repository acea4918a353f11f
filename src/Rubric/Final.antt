-- ===== src/Rubric/Final.antt =====
-- models/rubric.py, `final_gate`: the gate of the final panel. The two number formats are the
-- library's.
use mootloop.Base.{
  ℕ, Option, none, some, List, [], ◌∷◌, ◌++◌, Text, codes, text_lt, if◌then◌else◌, Result, ok,
  ◌>>=◌,
}
use mootloop.Base.Dict.{Dict}
use mootloop.Base.Floats.{FloatOps}
use mootloop.Turn.{GateResult, pass, fail}
use mootloop.Rubric.{Rubric, aggregate_panel}

-- `f"{x:.3f}"` and `f"{x:g}"`
pub record FloatFormat (F : Type 0) : Type 0 where
  pub fixed3 : F → Text
  pub general : F → Text

abbrev pub or_null : Text → Option Text
or_null [] = none
or_null (c ∷ s) = some (c ∷ s)

module _ {F : Type 0} where
  -- `sorted(per_criterion.items())`; the ids are distinct.
  unfoldable pub placed : Text × F → List (Text × F) → List (Text × F)
  placed e [] = e ∷ []
  placed e (d ∷ entries) =
      let rest = placed e entries in if text_lt e.0 d.0 then e ∷ d ∷ entries else d ∷ rest

  unfoldable pub sorted_items : List (Text × F) → List (Text × F)
  unfolding placed
  sorted_items [] = []
  sorted_items (e ∷ entries) = placed e (sorted_items entries)

  unfoldable pub score_list : FloatFormat F → List (Text × F) → Text
  score_list format [] = []
  score_list format ((id, value) ∷ []) = id ++ (codes "=" ++ format.general value)
  score_list format ((id, value) ∷ e ∷ entries) =
      id ++ (codes "=" ++ (format.general value ++ (codes ", " ++ score_list format (e ∷ entries))))

  unfoldable pub threshold_result : FloatOps F → FloatFormat F → F → F × Dict Text F → GateResult
  unfolding sorted_items score_list
  threshold_result floats format threshold (composite, per_criterion) =
      let detail = or_null (score_list format (sorted_items per_criterion)) in
      if floats.le threshold composite
      then record {
        gate = codes "rubric";
        findings =
            record {
              code = codes "rubric_met";
              message =
                  codes "weighted median "
                  ++ (format.fixed3 composite ++ (codes " >= " ++ format.fixed3 threshold));
              locator = detail;
            }
            ∷ [];
        status = pass;
      }
      else record {
        gate = codes "rubric";
        findings =
            record {
              code = codes "rubric_below_threshold";
              message =
                  codes "weighted median "
                  ++ (format.fixed3 composite ++ (codes " < " ++ format.fixed3 threshold));
              locator = detail;
            }
            ∷ [];
        status = fail;
      }

  unfoldable pub final_gate :
      FloatOps F → FloatFormat F → Rubric F → List (Dict Text ℕ) → Text → F → Result GateResult
  unfolding aggregate_panel threshold_result
  final_gate floats format rubric panel code threshold =
      aggregate_panel floats rubric panel code >>= λ scored.
      ok (threshold_result floats format threshold scored)
