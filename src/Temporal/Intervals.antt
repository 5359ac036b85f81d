-- ===== src/Temporal/Intervals.antt =====
-- The relations of relateValidTime and relateSystemTime (app/lib/phase6/temporalContract/evaluate.ts)
-- in terms of points in time.
use text.Mathlib.TextEquality.{Char-path}
use atra_workunit_os.Prelude.{
  ◌≤◌, ◌<◌, ◌≡◌, refl, ap, ◌↔◌, String, true, false, Option, none, some, arith, eq_iff, codes,
}
use atra_workunit_os.Time.{lex_lt, text_lt}
use atra_workunit_os.Time.Canonical.{is_canonical_instant}
use atra_workunit_os.Temporal.Types.{ValidTimeRelation, SystemTimeRelation}
use atra_workunit_os.Temporal.Relate.{relate_known, relate_bounds, relate_system_time}
use atra_workunit_os.Temporal.Valid.{point, text_lt-point, IsBound, InOrder}

lex_lt-equal :
    (s t : String) → lex_lt (codes s) (codes t) ≡ false → lex_lt (codes t) (codes s) ≡ false → s ≡ t
unfolding lex_lt
lex_lt-equal String.[] String.[] h k = refl
lex_lt-equal String.[] (String.◌∷◌ d t) h k = cc
lex_lt-equal (String.◌∷◌ c s) String.[] h k = cc
lex_lt-equal (String.◌∷◌ c s) (String.◌∷◌ d t) h k = ground (arith, lex_lt-equal s t, Char-path c d)

-- Two canonical texts are equal exactly if they name the same point.
point-eq :
    (a b : String)
    → is_canonical_instant a ≡ true
    → is_canonical_instant b ≡ true
    → (point a ≡ point b) ↔ (a ≡ b)
unfolding text_lt
point-eq a b h k = (
  λ e.
      lex_lt-equal a b (ground (arith, text_lt-point a b h k))
        (ground (arith, text_lt-point b a k h)),
  λ e. ap point e,
)

-- All four boundaries are known, and the first interval ends before the second begins.
abbrev pub Before : Option String → Option String → Option String → Option String → Type 0
Before (some a) (some b) (some c) (some d) = point b < point c
Before _ _ _ _ = ⊥

-- All four boundaries are known, and the intervals have the same ones.
abbrev pub Same : Option String → Option String → Option String → Option String → Type 0
Same (some a) (some b) (some c) (some d) = (point a ≡ point c) × (point b ≡ point d)
Same _ _ _ _ = ⊥

-- All four boundaries are known, and the intervals have a point in common without being the same.
abbrev pub Overlap : Option String → Option String → Option String → Option String → Type 0
Overlap (some a) (some b) (some c) (some d) =
    (point c ≤ point b) × (point a ≤ point d) × ¬ ((point a ≡ point c) × (point b ≡ point d))
Overlap _ _ _ _ = ⊥

-- A boundary is not known.
abbrev pub Unknown : Option String → Option String → Option String → Option String → Type 0
Unknown (some a) (some b) (some c) (some d) = ⊥
Unknown _ _ _ _ = Unit

module _ (a b c d : String) (ha : is_canonical_instant a ≡ true)
    (hb : is_canonical_instant b ≡ true) (hc : is_canonical_instant c ≡ true)
    (hd : is_canonical_instant d ≡ true) (p : point a ≤ point b) (q : point c ≤ point d) where
  relate_known_before :
      (relate_known a b c d ≡ ValidTimeRelation.left_before_right) ↔ (point b < point c)
  unfolding relate_known
  relate_known_before =
      ground (arith, text_lt-point b c hb hc, text_lt-point d a hd ha, eq_iff a c, eq_iff b d)

  relate_known_after :
      (relate_known a b c d ≡ ValidTimeRelation.right_before_left) ↔ (point d < point a)
  unfolding relate_known
  relate_known_after =
      ground (arith, text_lt-point b c hb hc, text_lt-point d a hd ha, eq_iff a c, eq_iff b d)

  relate_known_same :
      (relate_known a b c d ≡ ValidTimeRelation.same_interval)
      ↔ ((point a ≡ point c) × (point b ≡ point d))
  unfolding relate_known
  relate_known_same = ground (arith, eq_iff a c, eq_iff b d, point-eq a c ha hc, point-eq b d hb hd)

  relate_known_overlap :
      (relate_known a b c d ≡ ValidTimeRelation.overlaps)
      ↔ ((point c ≤ point b) × (point a ≤ point d) × ¬ ((point a ≡ point c) × (point b ≡ point d)))
  unfolding relate_known
  relate_known_overlap = ground (
    arith,
    text_lt-point b c hb hc,
    text_lt-point d a hd ha,
    eq_iff a c,
    eq_iff b d,
    point-eq a c ha hc,
    point-eq b d hb hd,
  )

relate_known_unknown : (a b c d : String) → ¬ (relate_known a b c d ≡ ValidTimeRelation.unresolved)
unfolding relate_known
relate_known_unknown a b c d h = ground arith

-- A boundary that is not known leaves the relation unresolved.
pub relate_bounds-Before :
    (a b c d : Option String)
    → IsBound a
    → IsBound b
    → IsBound c
    → IsBound d
    → InOrder a b
    → InOrder c d
    → (relate_bounds a b c d ≡ ValidTimeRelation.left_before_right) ↔ Before a b c d
unfolding relate_bounds
relate_bounds-Before (some a) (some b) (some c) (some d) = relate_known_before a b c d
relate_bounds-Before _ _ _ _ = λ _ _ _ _ _ _. (λ e. cc, λ h. absurd h)

not-Before_from : (b c d : Option String) → ¬ Before c d none b
not-Before_from b none d h = h
not-Before_from b (some c) none h = h
not-Before_from b (some c) (some d) h = h

not-Before_to : (a : String) (c d : Option String) → ¬ Before c d (some a) none
not-Before_to a none d h = h
not-Before_to a (some c) none h = h
not-Before_to a (some c) (some d) h = h

pub relate_bounds_after :
    (a b c d : Option String)
    → IsBound a
    → IsBound b
    → IsBound c
    → IsBound d
    → InOrder a b
    → InOrder c d
    → (relate_bounds a b c d ≡ ValidTimeRelation.right_before_left) ↔ Before c d a b
unfolding relate_bounds
relate_bounds_after (some a) (some b) (some c) (some d) = relate_known_after a b c d
relate_bounds_after none b c d = λ _ _ _ _ _ _. (λ e. cc, λ h. absurd (not-Before_from b c d h))
relate_bounds_after (some a) none c d =
    λ _ _ _ _ _ _. (λ e. cc, λ h. absurd (not-Before_to a c d h))
relate_bounds_after (some a) (some b) _ _ = λ _ _ _ _ _ _. (λ e. cc, λ h. absurd h)

pub relate_system_time_before :
    (a b : String)
    → is_canonical_instant a ≡ true
    → is_canonical_instant b ≡ true
    → (relate_system_time a b ≡ SystemTimeRelation.left_before_right) ↔ (point a < point b)
unfolding relate_system_time
relate_system_time_before a b h k = ground (arith, text_lt-point a b h k, text_lt-point b a k h)

pub relate_system_time_after :
    (a b : String)
    → is_canonical_instant a ≡ true
    → is_canonical_instant b ≡ true
    → (relate_system_time a b ≡ SystemTimeRelation.right_before_left) ↔ (point b < point a)
unfolding relate_system_time
relate_system_time_after a b h k = ground (arith, text_lt-point a b h k, text_lt-point b a k h)

pub relate_bounds-Same :
    (a b c d : Option String)
    → IsBound a
    → IsBound b
    → IsBound c
    → IsBound d
    → InOrder a b
    → InOrder c d
    → (relate_bounds a b c d ≡ ValidTimeRelation.same_interval) ↔ Same a b c d
unfolding relate_bounds
relate_bounds-Same (some a) (some b) (some c) (some d) = relate_known_same a b c d
relate_bounds-Same _ _ _ _ = λ _ _ _ _ _ _. (λ e. cc, λ h. absurd h)

pub relate_bounds-Overlap :
    (a b c d : Option String)
    → IsBound a
    → IsBound b
    → IsBound c
    → IsBound d
    → InOrder a b
    → InOrder c d
    → (relate_bounds a b c d ≡ ValidTimeRelation.overlaps) ↔ Overlap a b c d
unfolding relate_bounds
relate_bounds-Overlap (some a) (some b) (some c) (some d) = relate_known_overlap a b c d
relate_bounds-Overlap _ _ _ _ = λ _ _ _ _ _ _. (λ e. cc, λ h. absurd h)

pub relate_bounds-Unknown :
    (a b c d : Option String)
    → (relate_bounds a b c d ≡ ValidTimeRelation.unresolved) ↔ Unknown a b c d
unfolding relate_bounds
relate_bounds-Unknown (some a) (some b) (some c) (some d) =
    (relate_known_unknown a b c d, λ h. absurd h)
relate_bounds-Unknown _ _ _ _ = (λ e. tt, λ h. refl)

pub relate_system_time_same :
    (a b : String)
    → is_canonical_instant a ≡ true
    → is_canonical_instant b ≡ true
    → (relate_system_time a b ≡ SystemTimeRelation.same_instant) ↔ (point a ≡ point b)
unfolding relate_system_time
relate_system_time_same a b h k = ground (arith, text_lt-point a b h k, text_lt-point b a k h)
