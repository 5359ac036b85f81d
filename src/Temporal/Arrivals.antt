-- ===== src/Temporal/Arrivals.antt =====
-- The outcomes of classifyArrival (app/lib/phase6/temporalContract/evaluate.ts) by its two arguments.
use atra_workunit_os.Prelude.{◌≡◌, ◌≢◌, ◌↔◌, ◌⊎◌, arith}
use atra_workunit_os.Temporal.Types.{ValidTimeRelation, SystemTimeRelation, ArrivalClassification}
use atra_workunit_os.Temporal.Relate.{classify_arrival}

module _ (v : ValidTimeRelation) (o : SystemTimeRelation) where
  pub classify_arrival_in_order : (classify_arrival v o ≡ ArrivalClassification.in_order) ↔ (
      ((v ≡ ValidTimeRelation.left_before_right) × (o ≡ SystemTimeRelation.left_before_right))
      ⊎ ((v ≡ ValidTimeRelation.right_before_left) × (o ≡ SystemTimeRelation.right_before_left)))
  unfolding classify_arrival
  classify_arrival_in_order = ground arith

  pub classify_arrival-left_late :
      (classify_arrival v o ≡ ArrivalClassification.left_late_arriving)
      ↔ ((v ≡ ValidTimeRelation.left_before_right) × (o ≡ SystemTimeRelation.right_before_left))
  unfolding classify_arrival
  classify_arrival-left_late = ground arith

  pub classify_arrival-right_late :
      (classify_arrival v o ≡ ArrivalClassification.right_late_arriving)
      ↔ ((v ≡ ValidTimeRelation.right_before_left) × (o ≡ SystemTimeRelation.left_before_right))
  unfolding classify_arrival
  classify_arrival-right_late = ground arith

  pub classify_arrival_unresolved : (classify_arrival v o ≡ ArrivalClassification.unresolved) ↔ (
      ((v ≢ ValidTimeRelation.left_before_right) × (v ≢ ValidTimeRelation.right_before_left))
      ⊎ (o ≡ SystemTimeRelation.same_instant))
  unfolding classify_arrival
  classify_arrival_unresolved = ground arith
