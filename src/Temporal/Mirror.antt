-- ===== src/Temporal/Mirror.antt =====
-- Exchanging the two observations mirrors the result.
use atra_workunit_os.Prelude.{◌≡◌, refl, String, true, Option, none, some, arith, eq_iff, ◌≤◌}
use mathlib.Core.Path.{subst}
use atra_workunit_os.Js.{Value, obj, end, field}
use atra_workunit_os.Temporal.Types.{
  Observation, ValidTimeRelation, SystemTimeRelation, ArrivalClassification, Success, ok, ◌>>=◌,
}
use atra_workunit_os.Temporal.Capture.{validate_observation}
use atra_workunit_os.Temporal.Relate.{
  relate_known, relate_bounds, relate_valid_time, relate_system_time, classify_arrival, relate,
}
use atra_workunit_os.Temporal.Evaluate.{evaluate_temporal_relation}
use atra_workunit_os.Temporal.Valid.{
  point, text_lt-point, IsBound, InOrder, IsValid, >>=-eq-ok, validate_observation-IsValid,
}
use atra_workunit_os.Time.Canonical.{is_canonical_instant}

abbrev pub mirror_valid : ValidTimeRelation → ValidTimeRelation
mirror_valid ValidTimeRelation.left_before_right = ValidTimeRelation.right_before_left
mirror_valid ValidTimeRelation.right_before_left = ValidTimeRelation.left_before_right
mirror_valid v = v

abbrev pub mirror_system : SystemTimeRelation → SystemTimeRelation
mirror_system SystemTimeRelation.left_before_right = SystemTimeRelation.right_before_left
mirror_system SystemTimeRelation.right_before_left = SystemTimeRelation.left_before_right
mirror_system SystemTimeRelation.same_instant = SystemTimeRelation.same_instant

abbrev pub mirror_arrival : ArrivalClassification → ArrivalClassification
mirror_arrival ArrivalClassification.left_late_arriving = ArrivalClassification.right_late_arriving
mirror_arrival ArrivalClassification.right_late_arriving = ArrivalClassification.left_late_arriving
mirror_arrival a = a

relate_known_mirror :
    (a b c d : String)
    → is_canonical_instant a ≡ true
    → is_canonical_instant b ≡ true
    → is_canonical_instant c ≡ true
    → is_canonical_instant d ≡ true
    → point a ≤ point b
    → point c ≤ point d
    → relate_known c d a b ≡ mirror_valid (relate_known a b c d)
unfolding relate_known
relate_known_mirror a b c d ha hb hc hd p q = ground (
  arith,
  text_lt-point b c hb hc,
  text_lt-point d a hd ha,
  eq_iff a c,
  eq_iff b d,
  eq_iff c a,
  eq_iff d b,
)

relate_bounds_mirror :
    (a b c d : Option String)
    → IsBound a
    → IsBound b
    → IsBound c
    → IsBound d
    → InOrder a b
    → InOrder c d
    → relate_bounds c d a b ≡ mirror_valid (relate_bounds a b c d)
unfolding relate_bounds
relate_bounds_mirror (some a) (some b) (some c) (some d) = relate_known_mirror a b c d
relate_bounds_mirror (some a) (some b) (some c) none = λ _ _ _ _ _ _. refl
relate_bounds_mirror (some a) (some b) none d = λ _ _ _ _ _ _. refl
relate_bounds_mirror (some a) none none d = λ _ _ _ _ _ _. refl
relate_bounds_mirror (some a) none (some c) none = λ _ _ _ _ _ _. refl
relate_bounds_mirror (some a) none (some c) (some d) = λ _ _ _ _ _ _. refl
relate_bounds_mirror none b none d = λ _ _ _ _ _ _. refl
relate_bounds_mirror none b (some c) none = λ _ _ _ _ _ _. refl
relate_bounds_mirror none b (some c) (some d) = λ _ _ _ _ _ _. refl

relate_system_time_mirror :
    (a b : String)
    → is_canonical_instant a ≡ true
    → is_canonical_instant b ≡ true
    → relate_system_time b a ≡ mirror_system (relate_system_time a b)
unfolding relate_system_time
relate_system_time_mirror a b h k = ground (arith, text_lt-point a b h k, text_lt-point b a k h)

classify_arrival_mirror :
    (v : ValidTimeRelation) (o : SystemTimeRelation)
    → classify_arrival (mirror_valid v) (mirror_system o) ≡ mirror_arrival (classify_arrival v o)
unfolding classify_arrival
classify_arrival_mirror v o = ground arith

-- The second result read from the other side.
pub record IsMirror (s t : Success) : Type 0 where
  pub valid_time : t.valid_time_relation ≡ mirror_valid s.valid_time_relation
  pub observed_time : t.observed_time_relation ≡ mirror_system s.observed_time_relation
  pub recorded_time : t.recorded_time_relation ≡ mirror_system s.recorded_time_relation
  pub arrival : t.arrival_classification ≡ mirror_arrival s.arrival_classification

relate-IsMirror : (l r : Observation) → IsValid l → IsValid r → IsMirror (relate l r) (relate r l)
unfolding relate relate_valid_time
relate-IsMirror l r p q =
    let bounds =
      relate_bounds_mirror l.valid_from l.valid_to r.valid_from r.valid_to p.from_known p.to_known
        q.from_known q.to_known p.span q.span in
    let seen =
      relate_system_time_mirror l.observed_at r.observed_at p.observed_known q.observed_known in
    record {
      valid_time = bounds;
      observed_time = seen;
      recorded_time =
          relate_system_time_mirror l.recorded_at r.recorded_at p.recorded_known q.recorded_known;
      arrival = rw (bounds, seen) (classify_arrival_mirror _ _);
    }

-- `{ left, right }`
abbrev pub pair : Value → Value → Value
pair left right = obj (field "left" left (field "right" right end))

pub evaluate-pair :
    (a b : Value)
    → evaluate_temporal_relation (pair a b)
      ≡ (validate_observation a >>= λ l. validate_observation b >>= λ r. ok (relate l r))
unfolding evaluate_temporal_relation
evaluate-pair a b = refl

-- If two observations can be related then so can they the other way round, and every relation and
-- the arrival classification are those of the first result with left and right exchanged.
pub evaluate_temporal_relation-IsMirror :
    (a b : Value) {s : Success}
    → evaluate_temporal_relation (pair a b) ≡ ok s
    → (t : Success) × (evaluate_temporal_relation (pair b a) ≡ ok t) × IsMirror s t
evaluate_temporal_relation-IsMirror a b {s} h =
    let (l, e, h1) = >>=-eq-ok (validate_observation a) _ (rw evaluate-pair at h) in
    let (r, e', h2) = >>=-eq-ok (validate_observation b) _ h1 in
    let same : relate l r ≡ s = ground (arith, h2) in
    (
      relate r l,
      rw (evaluate-pair, e', e) refl,
      subst (λ u. IsMirror u (relate r l)) same
          (relate-IsMirror l r (validate_observation-IsValid a e)
            (validate_observation-IsValid b e')),
    )
