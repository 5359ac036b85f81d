-- ===== src/Temporal/Types.antt =====
-- The closed vocabularies (app/lib/phase6/temporalContract/types.ts).
use atra_workunit_os.Prelude.{String, Option, List}

-- Where `null` is written for an unknown boundary, it is `none`.
pub record Observation : Type 0 where
  pub valid_from : Option String
  pub valid_to : Option String
  pub observed_at : String
  pub recorded_at : String

pub data ValidTimeRelation : Type 0 where
  left_before_right right_before_left same_interval overlaps unresolved : ValidTimeRelation

pub data SystemTimeRelation : Type 0 where
  left_before_right right_before_left same_instant : SystemTimeRelation

pub data ArrivalClassification : Type 0 where
  in_order left_late_arriving right_late_arriving unresolved : ArrivalClassification

pub data ReasonCode : Type 0 where
  valid_time_left_before_right valid_time_right_before_left valid_time_same_interval : ReasonCode
  valid_time_overlaps valid_time_unresolved : ReasonCode
  observed_time_left_before_right observed_time_right_before_left observed_time_same_instant :
      ReasonCode
  recorded_time_left_before_right recorded_time_right_before_left recorded_time_same_instant :
      ReasonCode
  arrival_in_order left_late_arriving right_late_arriving arrival_unresolved : ReasonCode
  transition_not_established supersession_not_established : ReasonCode

pub data FailureCode : Type 0 where
  invalid_input input_unreadable unknown_field missing_field : FailureCode
  invalid_instant invalid_valid_interval recorded_before_observed : FailureCode

pub data Outcome (A : Type 0) : Type 0 where
  ok : A → Outcome A
  fail : FailureCode → Outcome A

infixl 5 ◌>>=◌
abbrev pub ◌>>=◌ : {A B : Type 0} → Outcome A → (A → Outcome B) → Outcome B
ok a >>= k = k a
fail c >>= k = fail c

-- The fields of a success that are no constant literals; `candidateOnly`, `shadowOnly`,
-- `humanReviewRequired` are always true, and the two verdicts always "not_established".
pub record Success : Type 0 where
  pub valid_time_relation : ValidTimeRelation
  pub observed_time_relation : SystemTimeRelation
  pub recorded_time_relation : SystemTimeRelation
  pub arrival_classification : ArrivalClassification
  pub reason_codes : List ReasonCode
  pub narrative : List String
