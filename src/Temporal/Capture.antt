-- ===== src/Temporal/Capture.antt =====
-- Reading one hostile object, and validating an observation
-- (app/lib/phase6/temporalContract/evaluate.ts).
use atra_workunit_os.Prelude.{
  String, Bool, true, false, Option, none, some, List, [], ◌∷◌, if◌then◌else◌, ◌&&◌,
}
use atra_workunit_os.Js.{
  Value, null, revoked, str, obj, Fields, end, field, throws, symbol, Read, absent, unreadable,
  value, read_own, includes,
}
use atra_workunit_os.Time.{text_lt}
use atra_workunit_os.Time.Canonical.{is_canonical_instant}
use atra_workunit_os.Temporal.Types.{
  Observation, invalid_input, input_unreadable, unknown_field, missing_field, invalid_instant,
  invalid_valid_interval, recorded_before_observed, Outcome, ok, fail, ◌>>=◌,
}

abbrev pub top_level_keys : List String
top_level_keys = "left" ∷ "right" ∷ []

abbrev pub observation_keys : List String
observation_keys = "validFrom" ∷ "validTo" ∷ "observedAt" ∷ "recordedAt" ∷ []

-- `for (const key of ownKeys)`: a symbol, or a name that is not allowed, is unknown.
unfoldable pub only_allowed : List String → Fields → Bool
unfolding includes
only_allowed allowed end = true
only_allowed allowed (field k v fs) = includes allowed k && only_allowed allowed fs
only_allowed allowed (throws k fs) = includes allowed k && only_allowed allowed fs
only_allowed allowed (symbol fs) = false

-- One key of the loop below, and then the rest of it.
unfoldable pub then_read : Read → Outcome (List Value) → Outcome (List Value)
then_read absent rest = fail missing_field
then_read unreadable rest = fail input_unreadable
then_read (value v) rest = do vs ← rest; ok (v ∷ vs)

-- `for (const key of allowedKeys)`
unfoldable pub read_all : Fields → List String → Outcome (List Value)
unfolding then_read read_own
read_all fs [] = ok []
read_all fs (k ∷ ks) = then_read (read_own k fs) (read_all fs ks)

unfoldable pub capture_own : Value → List String → Outcome (List Value)
unfolding only_allowed read_all
capture_own revoked allowed = fail input_unreadable
capture_own (obj fs) allowed =
    if only_allowed allowed fs then read_all fs allowed else fail unknown_field
capture_own _ allowed = fail invalid_input

-- A boundary is `null` or a canonical instant.
unfoldable pub boundary : Value → Outcome (Option String)
boundary null = ok none
boundary (str s) = if is_canonical_instant s then ok (some s) else fail invalid_instant
boundary _ = fail invalid_instant

unfoldable pub required_instant : Value → Outcome String
required_instant (str s) = if is_canonical_instant s then ok s else fail invalid_instant
required_instant _ = fail invalid_instant

-- `from !== null && to !== null && from > to`
unfoldable pub inverted : Option String → Option String → Bool
inverted (some from) (some to) = text_lt to from
inverted none _ = false
inverted (some _) none = false

-- The two order checks.
unfoldable pub check_order : Option String → Option String → String → String → Outcome Observation
unfolding inverted
check_order from to observed recorded =
    if inverted from to
    then fail invalid_valid_interval
    else if text_lt recorded observed
    then fail recorded_before_observed
    else ok (record {
      valid_from = from;
      valid_to = to;
      observed_at = observed;
      recorded_at = recorded;
    })

-- The checks behind the four values, in their order.
unfoldable pub check_observation : Value → Value → Value → Value → Outcome Observation
unfolding boundary required_instant check_order
check_observation valid_from valid_to observed_at recorded_at = do
  from ← boundary valid_from
  to ← boundary valid_to
  observed ← required_instant observed_at
  recorded ← required_instant recorded_at
  check_order from to observed recorded

-- `const [validFrom, validTo, observedAt, recordedAt] = captured.values`: a missing one is
-- `undefined`.
unfoldable pub check_values : List Value → Outcome Observation
unfolding check_observation
check_values (a ∷ b ∷ c ∷ d ∷ _) = check_observation a b c d
check_values _ = fail invalid_instant

unfoldable pub validate_observation : Value → Outcome Observation
unfolding capture_own check_values
validate_observation raw = do values ← capture_own raw observation_keys; check_values values
