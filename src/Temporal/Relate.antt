-- ===== src/Temporal/Relate.antt =====
-- The relations between two valid observations (app/lib/phase6/temporalContract/evaluate.ts).
use atra_workunit_os.Prelude.{String, Option, some, [], ◌∷◌, if◌then◌else◌, ◌&&◌, ◌==◌, map}
use atra_workunit_os.Time.{text_lt}
use atra_workunit_os.Temporal.Types.{
  Observation, ValidTimeRelation, SystemTimeRelation, ArrivalClassification, ReasonCode, Success,
}

-- With all four boundaries known.
unfoldable pub relate_known : String → String → String → String → ValidTimeRelation
relate_known left_from left_to right_from right_to =
    if left_from == right_from && left_to == right_to
    then ValidTimeRelation.same_interval
    else if text_lt left_to right_from
    then ValidTimeRelation.left_before_right
    else if text_lt right_to left_from
    then ValidTimeRelation.right_before_left
    else ValidTimeRelation.overlaps

unfoldable pub relate_bounds :
    Option String → Option String → Option String → Option String → ValidTimeRelation
unfolding relate_known
relate_bounds (some a) (some b) (some c) (some d) = relate_known a b c d
relate_bounds _ _ _ _ = ValidTimeRelation.unresolved

unfoldable pub relate_valid_time : Observation → Observation → ValidTimeRelation
unfolding relate_bounds
relate_valid_time left right =
    relate_bounds left.valid_from left.valid_to right.valid_from right.valid_to

unfoldable pub relate_system_time : String → String → SystemTimeRelation
relate_system_time left right =
    if text_lt left right
    then SystemTimeRelation.left_before_right
    else if text_lt right left
    then SystemTimeRelation.right_before_left
    else SystemTimeRelation.same_instant

unfoldable pub classify_arrival : ValidTimeRelation → SystemTimeRelation → ArrivalClassification
classify_arrival ValidTimeRelation.left_before_right SystemTimeRelation.left_before_right =
    ArrivalClassification.in_order
classify_arrival ValidTimeRelation.right_before_left SystemTimeRelation.right_before_left =
    ArrivalClassification.in_order
classify_arrival ValidTimeRelation.left_before_right SystemTimeRelation.right_before_left =
    ArrivalClassification.left_late_arriving
classify_arrival ValidTimeRelation.right_before_left SystemTimeRelation.left_before_right =
    ArrivalClassification.right_late_arriving
classify_arrival _ _ = ArrivalClassification.unresolved

unfoldable pub valid_time_code : ValidTimeRelation → ReasonCode
valid_time_code ValidTimeRelation.left_before_right = ReasonCode.valid_time_left_before_right
valid_time_code ValidTimeRelation.right_before_left = ReasonCode.valid_time_right_before_left
valid_time_code ValidTimeRelation.same_interval = ReasonCode.valid_time_same_interval
valid_time_code ValidTimeRelation.overlaps = ReasonCode.valid_time_overlaps
valid_time_code ValidTimeRelation.unresolved = ReasonCode.valid_time_unresolved

unfoldable pub observed_time_code : SystemTimeRelation → ReasonCode
observed_time_code SystemTimeRelation.left_before_right = ReasonCode.observed_time_left_before_right
observed_time_code SystemTimeRelation.right_before_left = ReasonCode.observed_time_right_before_left
observed_time_code SystemTimeRelation.same_instant = ReasonCode.observed_time_same_instant

unfoldable pub recorded_time_code : SystemTimeRelation → ReasonCode
recorded_time_code SystemTimeRelation.left_before_right = ReasonCode.recorded_time_left_before_right
recorded_time_code SystemTimeRelation.right_before_left = ReasonCode.recorded_time_right_before_left
recorded_time_code SystemTimeRelation.same_instant = ReasonCode.recorded_time_same_instant

unfoldable pub arrival_code : ArrivalClassification → ReasonCode
arrival_code ArrivalClassification.in_order = ReasonCode.arrival_in_order
arrival_code ArrivalClassification.left_late_arriving = ReasonCode.left_late_arriving
arrival_code ArrivalClassification.right_late_arriving = ReasonCode.right_late_arriving
arrival_code ArrivalClassification.unresolved = ReasonCode.arrival_unresolved

unfoldable pub narrative_of : ReasonCode → String
narrative_of ReasonCode.valid_time_left_before_right =
    "The left valid interval ends before the right valid interval begins."
narrative_of ReasonCode.valid_time_right_before_left =
    "The right valid interval ends before the left valid interval begins."
narrative_of ReasonCode.valid_time_same_interval =
    "Both observations represent the same fully bounded valid interval."
narrative_of ReasonCode.valid_time_overlaps =
    "The two fully bounded valid intervals intersect without being identical."
narrative_of ReasonCode.valid_time_unresolved =
    "The valid-time relation is unresolved because at least one boundary is unknown."
narrative_of ReasonCode.observed_time_left_before_right =
    "The left observation was observed before the right observation."
narrative_of ReasonCode.observed_time_right_before_left =
    "The right observation was observed before the left observation."
narrative_of ReasonCode.observed_time_same_instant =
    "Both observations were observed at the same instant."
narrative_of ReasonCode.recorded_time_left_before_right =
    "The left observation was recorded before the right observation."
narrative_of ReasonCode.recorded_time_right_before_left =
    "The right observation was recorded before the left observation."
narrative_of ReasonCode.recorded_time_same_instant =
    "Both observations were recorded at the same instant."
narrative_of ReasonCode.arrival_in_order = "Observation order matches the proven valid-time order."
narrative_of ReasonCode.left_late_arriving =
    "The left observation arrived after the right observation despite representing an earlier valid interval."
narrative_of ReasonCode.right_late_arriving =
    "The right observation arrived after the left observation despite representing an earlier valid interval."
narrative_of ReasonCode.arrival_unresolved =
    "Arrival order is unresolved because no strict valid-time order and distinct observation order are both proven."
narrative_of ReasonCode.transition_not_established =
    "No explicit transition evidence is established by this temporal comparison."
narrative_of ReasonCode.supersession_not_established =
    "No supersession order is established by this temporal comparison."

-- The success that two valid observations give.
unfoldable pub relate : Observation → Observation → Success
unfolding relate_valid_time relate_system_time classify_arrival valid_time_code observed_time_code
    recorded_time_code arrival_code narrative_of
relate left right =
    let valid_time = relate_valid_time left right in
    let observed_time = relate_system_time left.observed_at right.observed_at in
    let recorded_time = relate_system_time left.recorded_at right.recorded_at in
    let arrival = classify_arrival valid_time observed_time in
    let reason_codes =
      valid_time_code valid_time
      ∷ observed_time_code observed_time
      ∷ recorded_time_code recorded_time
      ∷ arrival_code arrival
      ∷ ReasonCode.transition_not_established
      ∷ ReasonCode.supersession_not_established
      ∷ [] in
    record {
      valid_time_relation = valid_time;
      observed_time_relation = observed_time;
      recorded_time_relation = recorded_time;
      arrival_classification = arrival;
      reason_codes = reason_codes;
      narrative = map narrative_of reason_codes;
    }
