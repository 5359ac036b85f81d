-- ===== src/Temporal/Chronology.antt =====
-- The relations of two valid observations, in terms of points in time instead of texts.
use atra_workunit_os.Prelude.{◌<◌, ◌≡◌, ◌↔◌, ◌⊎◌, String, true, Option, List, [], ◌∷◌, arith}
use mathlib.Core.Path.{subst}
use atra_workunit_os.Js.{Read, absent, unreadable, value, read_own, Value, obj}
use atra_workunit_os.Time.Canonical.{is_canonical_instant}
use atra_workunit_os.Temporal.Types.{
  Observation, ValidTimeRelation, SystemTimeRelation, ArrivalClassification, Success, Outcome, ok,
}
use atra_workunit_os.Temporal.Capture.{
  then_read, read_all, capture_own, validate_observation, top_level_keys,
}
use atra_workunit_os.Temporal.Relate.{
  relate_bounds, relate_valid_time, relate_system_time, classify_arrival, relate,
}
use atra_workunit_os.Temporal.Intervals.{
  Before, Same, Overlap, Unknown, relate_bounds-Before, relate_bounds_after, relate_bounds-Same,
  relate_bounds-Overlap, relate_bounds-Unknown, relate_system_time_before, relate_system_time_after,
  relate_system_time_same,
}
use atra_workunit_os.Temporal.Arrivals.{
  classify_arrival_in_order, classify_arrival-left_late, classify_arrival-right_late,
  classify_arrival_unresolved,
}
use atra_workunit_os.Temporal.Evaluate.{relate_values, evaluate_temporal_relation}
use atra_workunit_os.Temporal.Valid.{
  point, IsBound, InOrder, IsValid, >>=-eq-ok, validate_observation-IsValid,
}

abbrev pub EndsBefore : Observation → Observation → Type 0
EndsBefore l r = Before l.valid_from l.valid_to r.valid_from r.valid_to

-- The parts of an input that was evaluated.
pub record Reads (input : Value) (l r : Observation) : Type 0 where
  pub left_raw : Value
  pub right_raw : Value
  pub captured : capture_own input top_level_keys ≡ ok (left_raw ∷ right_raw ∷ [])
  pub left_valid : validate_observation left_raw ≡ ok l
  pub right_valid : validate_observation right_raw ≡ ok r

-- What a relation of two system times says of them in points in time.
pub record IsClocked (a b : String) (o : SystemTimeRelation) : Type 0 where
  pub before : (o ≡ SystemTimeRelation.left_before_right) ↔ (point a < point b)
  pub after : (o ≡ SystemTimeRelation.right_before_left) ↔ (point b < point a)
  pub together : (o ≡ SystemTimeRelation.same_instant) ↔ (point a ≡ point b)

-- What a relation of valid times says of the intervals from `a` to `b` and from `c` to `d`.
pub record IsSpanned (a b c d : Option String) (v : ValidTimeRelation) : Type 0 where
  pub before : (v ≡ ValidTimeRelation.left_before_right) ↔ Before a b c d
  pub after : (v ≡ ValidTimeRelation.right_before_left) ↔ Before c d a b
  pub same : (v ≡ ValidTimeRelation.same_interval) ↔ Same a b c d
  pub overlapping : (v ≡ ValidTimeRelation.overlaps) ↔ Overlap a b c d
  pub undecided : (v ≡ ValidTimeRelation.unresolved) ↔ Unknown a b c d

-- What a classification says of the order in which the observations arrived.
pub record IsArrival (l r : Observation) (c : ArrivalClassification) : Type 0 where
  pub orderly : (c ≡ ArrivalClassification.in_order) ↔ (
      (EndsBefore l r × (point l.observed_at < point r.observed_at))
      ⊎ (EndsBefore r l × (point r.observed_at < point l.observed_at)))
  pub left_late :
      (c ≡ ArrivalClassification.left_late_arriving)
      ↔ (EndsBefore l r × (point r.observed_at < point l.observed_at))
  pub right_late :
      (c ≡ ArrivalClassification.right_late_arriving)
      ↔ (EndsBefore r l × (point l.observed_at < point r.observed_at))
  pub undecided :
      (c ≡ ArrivalClassification.unresolved)
      ↔ ((¬ EndsBefore l r × ¬ EndsBefore r l) ⊎ (point l.observed_at ≡ point r.observed_at))

-- What an evaluation says of the two observations in points in time.
pub record IsChronological (l r : Observation) (s : Success) : Type 0 where
  pub valid_time : IsSpanned l.valid_from l.valid_to r.valid_from r.valid_to s.valid_time_relation
  pub observed_time : IsClocked l.observed_at r.observed_at s.observed_time_relation
  pub recorded_time : IsClocked l.recorded_at r.recorded_at s.recorded_time_relation
  pub arrival : IsArrival l r s.arrival_classification

relate_system_time-IsClocked :
    (a b : String)
    → is_canonical_instant a ≡ true
    → is_canonical_instant b ≡ true
    → IsClocked a b (relate_system_time a b)
relate_system_time-IsClocked a b h k = record {
  before = relate_system_time_before a b h k;
  after = relate_system_time_after a b h k;
  together = relate_system_time_same a b h k;
}

relate_bounds-IsSpanned :
    (a b c d : Option String)
    → IsBound a
    → IsBound b
    → IsBound c
    → IsBound d
    → InOrder a b
    → InOrder c d
    → IsSpanned a b c d (relate_bounds a b c d)
relate_bounds-IsSpanned a b c d ka kb kc kd p q = record {
  before = relate_bounds-Before a b c d ka kb kc kd p q;
  after = relate_bounds_after a b c d ka kb kc kd p q;
  same = relate_bounds-Same a b c d ka kb kc kd p q;
  overlapping = relate_bounds-Overlap a b c d ka kb kc kd p q;
  undecided = relate_bounds-Unknown a b c d;
}

classify_arrival-IsArrival :
    (l r : Observation) (v : ValidTimeRelation) (o : SystemTimeRelation)
    → IsSpanned l.valid_from l.valid_to r.valid_from r.valid_to v
    → IsClocked l.observed_at r.observed_at o
    → IsArrival l r (classify_arrival v o)
classify_arrival-IsArrival l r v o s c = record {
  orderly = ground (arith, classify_arrival_in_order v o);
  left_late = ground (arith, classify_arrival-left_late v o);
  right_late = ground (arith, classify_arrival-right_late v o);
  undecided = ground (arith, classify_arrival_unresolved v o);
}

relate-IsChronological :
    (l r : Observation) → IsValid l → IsValid r → IsChronological l r (relate l r)
unfolding relate relate_valid_time
relate-IsChronological l r p q =
    let spanned =
      relate_bounds-IsSpanned l.valid_from l.valid_to r.valid_from r.valid_to p.from_known
        p.to_known q.from_known q.to_known p.span q.span in
    let observed =
      relate_system_time-IsClocked l.observed_at r.observed_at p.observed_known q.observed_known in
    record {
      valid_time = spanned;
      observed_time = observed;
      recorded_time =
          relate_system_time-IsClocked l.recorded_at r.recorded_at p.recorded_known
            q.recorded_known;
      arrival = classify_arrival-IsArrival l r _ _ spanned observed;
    }

then_read-eq-ok :
    (r : Read) (rest : Outcome (List Value)) {vs : List Value}
    → then_read r rest ≡ ok vs
    → (v : Value) × (ws : List Value) × (vs ≡ v ∷ ws) × (rest ≡ ok ws)
unfolding then_read
then_read-eq-ok absent rest h = absurd (cc)
then_read-eq-ok unreadable rest h = absurd (cc)
then_read-eq-ok (value v) rest h =
    let (ws, e, k) = >>=-eq-ok rest _ h in (v, ws, ground (arith, k), e)

capture_own_two :
    (input : Value) {vs : List Value}
    → capture_own input top_level_keys ≡ ok vs
    → (a : Value) × (b : Value) × (vs ≡ a ∷ b ∷ [])
unfolding capture_own
capture_own_two (obj fs) {vs} h =
    let read : read_all fs top_level_keys ≡ ok vs = ground arith in
    let (a, ws, e1, h1) = then_read-eq-ok (read_own "left" fs) _ read in
    let (b, us, e2, h2) = then_read-eq-ok (read_own "right" fs) _ h1 in
    (a, b, ground (arith, e1, e2, h2))
capture_own_two v h = absurd (cc)

-- An evaluation that succeeds has read two valid observations, and each outcome of each relation
-- holds exactly if the points in time stand so. In valid time: the left interval ends before the
-- right one begins, the reverse, the same boundaries, a common point but not the same boundaries, and
-- unresolved exactly if one of the four boundaries is unknown. In observed and in recorded time:
-- earlier, later, equal. The arrival is in order if the earlier interval was observed strictly
-- earlier, the left or the right one is late if it is the earlier and was observed strictly later, and
-- the rest, no strict order of the intervals or the same time of observation, is unresolved.
pub evaluate_temporal_relation-IsChronological :
    (input : Value) {s : Success}
    → evaluate_temporal_relation input ≡ ok s
    → (l : Observation) × (r : Observation) × Reads input l r × IsChronological l r s
unfolding evaluate_temporal_relation
evaluate_temporal_relation-IsChronological input {s} h =
    let (vs, e, h1) = >>=-eq-ok (capture_own input top_level_keys) _ h in
    let (a, b, shape) = capture_own_two input e in
    let h2 = subst (λ t. relate_values t ≡ ok s) shape h1 in
    let (l, el, h3) = >>=-eq-ok (validate_observation a) _ h2 in
    let (r, er, h4) = >>=-eq-ok (validate_observation b) _ h3 in
    let same : relate l r ≡ s = ground (arith, h4) in
    (
      l,
      r,
      record {
        left_raw = a;
        right_raw = b;
        captured = subst (λ t. capture_own input top_level_keys ≡ ok t) shape e;
        left_valid = el;
        right_valid = er;
      },
      subst (IsChronological l r) same (
          relate-IsChronological l r (validate_observation-IsValid a el)
            (validate_observation-IsValid b er)),
    )
