-- ===== src/Temporal/Tests.antt =====
-- Runs of the evaluator on concrete inputs.
use atra_workunit_os.Prelude.{◌≡◌, refl, String, [], ◌∷◌}
use atra_workunit_os.Js.{Value, null, str, obj, end, field, throws}
use atra_workunit_os.Temporal.Types.{
  Observation, ValidTimeRelation, SystemTimeRelation, valid_time_left_before_right,
  observed_time_right_before_left, recorded_time_left_before_right, ReasonCode,
  transition_not_established, supersession_not_established, Success, ArrivalClassification, ok,
  fail, input_unreadable, ◌>>=◌,
}
use atra_workunit_os.Temporal.Chronology.{
  Reads, IsChronological, evaluate_temporal_relation-IsChronological,
}
use atra_workunit_os.Temporal.Mirror.{pair, IsMirror, evaluate_temporal_relation-IsMirror}
use atra_workunit_os.Time.{text_lt}
use atra_workunit_os.Time.Canonical.{is_canonical_instant}
use atra_workunit_os.Temporal.Evaluate.{evaluate_temporal_relation}

abbrev observation : Value → Value → String → String → Value
observation from to observed recorded = obj (
    field "validFrom" from (
      field "validTo" to
        (field "observedAt" (str observed) (field "recordedAt" (str recorded) end))))

abbrev january : Value
january =
    observation (str "2026-01-01T00:00:00.000Z") (str "2026-01-31T00:00:00.000Z")
      "2026-03-01T00:00:00.000Z" "2026-03-01T00:00:01.000Z"

abbrev february : Value
february =
    observation (str "2026-02-01T00:00:00.000Z") (str "2026-02-28T00:00:00.000Z")
      "2026-02-28T00:00:00.000Z" "2026-03-02T00:00:01.000Z"

-- The January observation arrived late.
late :
    (evaluate_temporal_relation (pair january february) >>= λ s. ok s.arrival_classification)
    ≡ ok ArrivalClassification.left_late_arriving
unfolding evaluate_temporal_relation is_canonical_instant text_lt
late = refl

unreadable :
    evaluate_temporal_relation (obj (throws "left" (field "right" null end)))
    ≡ fail input_unreadable
unfolding evaluate_temporal_relation
unreadable = refl

abbrev related : Success
related = record {
  valid_time_relation = ValidTimeRelation.left_before_right;
  observed_time_relation = SystemTimeRelation.right_before_left;
  recorded_time_relation = SystemTimeRelation.left_before_right;
  arrival_classification = ArrivalClassification.left_late_arriving;
  reason_codes =
      valid_time_left_before_right ∷ observed_time_right_before_left
      ∷ recorded_time_left_before_right ∷ ReasonCode.left_late_arriving ∷ transition_not_established
      ∷ supersession_not_established ∷ [];
  narrative =
      "The left valid interval ends before the right valid interval begins."
      ∷ "The right observation was observed before the left observation."
      ∷ "The left observation was recorded before the right observation."
      ∷ "The left observation arrived after the right observation despite representing an earlier valid interval."
      ∷ "No explicit transition evidence is established by this temporal comparison."
      ∷ "No supersession order is established by this temporal comparison." ∷ [];
}

related-eq : evaluate_temporal_relation (pair january february) ≡ ok related
unfolding evaluate_temporal_relation is_canonical_instant text_lt
related-eq = refl

evaluate_temporal_relation-IsChronological_example :
    (l : Observation) × (r : Observation) × Reads (pair january february) l r
    × IsChronological l r related
evaluate_temporal_relation-IsChronological_example =
    evaluate_temporal_relation-IsChronological (pair january february) related-eq

evaluate_temporal_relation-IsMirror_example :
    (t : Success) × (evaluate_temporal_relation (pair february january) ≡ ok t) × IsMirror related t
evaluate_temporal_relation-IsMirror_example =
    evaluate_temporal_relation-IsMirror january february related-eq
