-- ===== src/Temporal/Evaluate.antt =====
-- `evaluateTemporalRelation` (app/lib/phase6/temporalContract/evaluate.ts).
use atra_workunit_os.Prelude.{List, ◌∷◌}
use atra_workunit_os.Js.{Value}
use atra_workunit_os.Temporal.Types.{Success, Outcome, ok, fail, invalid_input, ◌>>=◌}
use atra_workunit_os.Temporal.Capture.{top_level_keys, capture_own, validate_observation}
use atra_workunit_os.Temporal.Relate.{relate}

-- The left observation is validated first.
unfoldable pub relate_values : List Value → Outcome Success
unfolding validate_observation relate
relate_values (left_raw ∷ right_raw ∷ _) = do
  left ← validate_observation left_raw
  right ← validate_observation right_raw
  ok (relate left right)
relate_values _ = fail invalid_input

unfoldable pub evaluate_temporal_relation : Value → Outcome Success
unfolding capture_own relate_values
evaluate_temporal_relation input = do
  captured ← capture_own input top_level_keys
  relate_values captured
