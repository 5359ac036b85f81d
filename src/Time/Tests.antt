-- ===== src/Time/Tests.antt =====
-- The timestamp guard on concrete texts.
use atra_workunit_os.Prelude.{ℕ, ◌≡◌, refl, String, true, false, none, some, ltb, not}
use atra_workunit_os.Time.{
  IsoParts, parse_iso, is_iso_utc_timestamp, time_value, instant, text_lt, date_ge, date_gt,
}
use atra_workunit_os.Time.Canonical.{canonical_instant, is_canonical_instant, text_lt-instant}
use atra_workunit_os.Time.Compare.{date_ge-text_lt}
use Prim.Native.Nat.{compare}
use atra_workunit_os.Time.Profile.{compare_canonical_iso_utc}
use atra_workunit_os.Time.Profile.Instants.{compare_canonical_iso_utc-instant}

accepts : is_iso_utc_timestamp "2024-02-29T23:59:59.5Z" ≡ true
unfolding is_iso_utc_timestamp
accepts = refl

rejects : is_iso_utc_timestamp "2023-02-29T23:59:59Z" ≡ false
unfolding is_iso_utc_timestamp
rejects = refl

rejects_trailing : is_iso_utc_timestamp "2024-02-29T23:59:59.5Z " ≡ false
unfolding is_iso_utc_timestamp
rejects_trailing = refl

epoch : time_value (λ _. none) "1970-01-01T00:00:00Z" ≡ some 62167219200000
unfolding time_value
epoch = refl

abbrev noon : String
noon = "2026-01-01T12:00:00.000Z"

abbrev evening : String
evening = "2026-01-01T18:30:00.250Z"

abbrev day : ℕ → ℕ → ℕ → ℕ → IsoParts
day hour minute second millisecond = record {
  year = 2026;
  month = 1;
  day = 1;
  hour = hour;
  minute = minute;
  second = second;
  millisecond = millisecond;
}

noon_canonical : canonical_instant noon ≡ some (day 12 0 0 0)
unfolding canonical_instant
noon_canonical = refl

evening_canonical : canonical_instant evening ≡ some (day 18 30 0 250)
unfolding canonical_instant
evening_canonical = refl

text_lt-instant_example :
    text_lt noon evening ≡ ltb (instant (day 12 0 0 0)) (instant (day 18 30 0 250))
text_lt-instant_example =
    text_lt-instant noon evening (day 12 0 0 0) (day 18 30 0 250) noon_canonical evening_canonical

noon_is_canonical : is_canonical_instant noon ≡ true
unfolding is_canonical_instant
noon_is_canonical = refl

evening_is_canonical : is_canonical_instant evening ≡ true
unfolding is_canonical_instant
evening_is_canonical = refl

date_ge-text_lt_example :
    (date_ge (λ _. none) noon evening ≡ not (text_lt noon evening))
    × (date_gt (λ _. none) noon evening ≡ text_lt evening noon)
date_ge-text_lt_example =
    date_ge-text_lt (λ _. none) noon evening noon_is_canonical evening_is_canonical

noon_short : parse_iso "2026-01-01T12:00:00Z" ≡ some (day 12 0 0 0)
unfolding parse_iso
noon_short = refl

evening_short : parse_iso "2026-01-01T18:30:00.25Z" ≡ some (day 18 30 0 250)
unfolding parse_iso
evening_short = refl

compare_canonical_iso_utc-instant_example :
    compare_canonical_iso_utc "2026-01-01T12:00:00Z" "2026-01-01T18:30:00.25Z"
    ≡ compare (instant (day 12 0 0 0)) (instant (day 18 30 0 250))
compare_canonical_iso_utc-instant_example =
    compare_canonical_iso_utc-instant "2026-01-01T12:00:00Z" "2026-01-01T18:30:00.25Z"
      (day 12 0 0 0) (day 18 30 0 250) noon_short evening_short
