-- ===== src/Temporal/Valid.antt =====
-- What a validated observation has: canonical instants, in order in time.
use atra_workunit_os.Prelude.{
  ℕ, ◌≤◌, ◌≡◌, refl, String, true, false, Option, none, some, List, ◌∷◌, inl, inr, arith, ltb,
  Option-cases, Bool-cases,
}
use mathlib.Core.Path.{subst}
use atra_workunit_os.Js.{Value, null, str}
use atra_workunit_os.Time.{text_lt, instant}
use atra_workunit_os.Time.Canonical.{canonical_instant, is_canonical_instant, text_lt-instant}
use atra_workunit_os.Temporal.Types.{Observation, Outcome, ok, fail, ◌>>=◌}
use atra_workunit_os.Temporal.Capture.{
  boundary, required_instant, inverted, check_order, check_observation, check_values, capture_own,
  validate_observation, observation_keys,
}

-- The point in time that a canonical text names.
pub point : String → ℕ
point s = elim (canonical_instant s) [ none ↦ 0 | some p ↦ instant p ]

pub text_lt-point :
    (a b : String)
    → is_canonical_instant a ≡ true
    → is_canonical_instant b ≡ true
    → text_lt a b ≡ ltb (point a) (point b)
unfolding is_canonical_instant point
text_lt-point a b h k = elim (Option-cases (canonical_instant a)) [
  | inl e ↦ absurd (ground arith)
  | inr (p, e) ↦ elim (Option-cases (canonical_instant b)) [
    | inl e' ↦ absurd (ground arith)
    | inr (q, e') ↦ ground (arith, text_lt-instant a b p q e e')
  ]
]

-- A known boundary is a canonical text.
abbrev pub IsBound : Option String → Type 0
IsBound none = Unit
IsBound (some s) = is_canonical_instant s ≡ true

abbrev pub InOrder : Option String → Option String → Type 0
InOrder (some s) (some t) = point s ≤ point t
InOrder none _ = Unit
InOrder (some _) none = Unit

-- What every validated observation has.
pub record IsValid (o : Observation) : Type 0 where
  pub from_known : IsBound o.valid_from
  pub to_known : IsBound o.valid_to
  pub observed_known : is_canonical_instant o.observed_at ≡ true
  pub recorded_known : is_canonical_instant o.recorded_at ≡ true
  pub span : InOrder o.valid_from o.valid_to
  pub delay : point o.observed_at ≤ point o.recorded_at

pub >>=-eq-ok :
    {S T : Type 0} (first : Outcome S) (next : S → Outcome T) {last : T}
    → (first >>= next) ≡ ok last
    → (mid : S) × (first ≡ ok mid) × (next mid ≡ ok last)
>>=-eq-ok (fail code) next h = cc
>>=-eq-ok (ok mid) next h = (mid, refl, h)

boundary-IsBound : (v : Value) (b : Option String) → boundary v ≡ ok b → IsBound b
unfolding boundary
boundary-IsBound null b h = ground arith
boundary-IsBound (str s) b h = ground arith
boundary-IsBound v b h = cc

required_instant-canonical :
    (v : Value) (s : String) → required_instant v ≡ ok s → is_canonical_instant s ≡ true
unfolding required_instant
required_instant-canonical (str s) t h = ground arith
required_instant-canonical v t h = cc

inverted-InOrder :
    (from to : Option String)
    → IsBound from
    → IsBound to
    → inverted from to ≡ false
    → InOrder from to
unfolding inverted
inverted-InOrder (some s) (some t) a b h = ground (arith, text_lt-point t s b a)
inverted-InOrder none to a b h = tt
inverted-InOrder (some s) none a b h = tt

check_order-IsValid :
    (from to : Option String) (observed recorded : String) {o : Observation}
    → IsBound from
    → IsBound to
    → is_canonical_instant observed ≡ true
    → is_canonical_instant recorded ≡ true
    → check_order from to observed recorded ≡ ok o
    → IsValid o
unfolding check_order
check_order-IsValid from to observed recorded {o} a b c d h = elim (Bool-cases (inverted from to)) [
  | inl bad ↦ absurd (ground arith)
  | inr good ↦ elim (Bool-cases (text_lt recorded observed)) [
    | inl bad ↦ absurd (ground arith)
    | inr late ↦
        let made : Observation = record {
          valid_from = from;
          valid_to = to;
          observed_at = observed;
          recorded_at = recorded;
        } in
        let same : made ≡ o = ground arith in
        subst IsValid same (record {
          from_known = a;
          to_known = b;
          observed_known = c;
          recorded_known = d;
          span = inverted-InOrder from to a b good;
          delay = ground (arith, text_lt-point recorded observed d c);
        })
  ]
]

check_observation-IsValid :
    (a b c d : Value) {o : Observation} → check_observation a b c d ≡ ok o → IsValid o
unfolding check_observation
check_observation-IsValid a b c d h =
    let (from, e1, h1) = >>=-eq-ok (boundary a) _ h in
    let (to, e2, h2) = >>=-eq-ok (boundary b) _ h1 in
    let (observed, e3, h3) = >>=-eq-ok (required_instant c) _ h2 in
    let (recorded, e4, h4) = >>=-eq-ok (required_instant d) _ h3 in
    check_order-IsValid from to observed recorded (boundary-IsBound a from e1)
      (boundary-IsBound b to e2) (required_instant-canonical c observed e3)
      (required_instant-canonical d recorded e4) h4

check_values-IsValid : (vs : List Value) {o : Observation} → check_values vs ≡ ok o → IsValid o
unfolding check_values
check_values-IsValid (a ∷ b ∷ c ∷ d ∷ vs) h = check_observation-IsValid a b c d h
check_values-IsValid vs h = cc

pub validate_observation-IsValid :
    (raw : Value) {o : Observation} → validate_observation raw ≡ ok o → IsValid o
unfolding validate_observation
validate_observation-IsValid raw h =
    let (vs, e, k) = >>=-eq-ok (capture_own raw observation_keys) _ h in check_values-IsValid vs k
