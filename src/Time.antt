-- ===== src/Time.antt =====
-- The shared timestamp guard (app/lib/phase6/shared/isoUtcTimestamp.ts), and the order of instants
-- that `new Date(a) < new Date(b)` and text comparison give.
mod Calendar
pub use Calendar.*
pub mod Order
pub mod Canonical
pub mod Compare
pub mod Profile
mod Tests
use atra_workunit_os.Prelude.{
  ℕ, zero, suc, ◌+◌, ◌-◌, ◌*◌, ◌^◌, String, Bool, true, false, Option, none, some, List, [], ◌∷◌,
  ltb, leb, eqb, if◌then◌else◌, ◌&&◌, ◌>>=◌, codes,
}

-- The numeric groups of `ISO_8601_UTC_COMPONENTS`, and the optional fraction in milliseconds.
pub record IsoParts : Type 0 where
  pub year : ℕ
  pub month : ℕ
  pub day : ℕ
  pub hour : ℕ
  pub minute : ℕ
  pub second : ℕ
  pub millisecond : ℕ

-- `\d`
unfoldable pub digit : ℕ → Option ℕ
digit c = if leb b'0' c && leb c b'9' then some (c - 48) else none

-- `\d{n}`, with the number that the digits before it stand for.
unfoldable pub read_digits : ℕ → ℕ → List ℕ → Option (ℕ × List ℕ)
unfolding digit
read_digits zero acc cs = some (acc, cs)
read_digits (suc n) acc [] = none
read_digits (suc n) acc (c ∷ cs) = elim (digit c) [
  | none ↦ none
  | some d ↦ read_digits n (acc * 10 + d) cs
]

-- One literal character.
unfoldable pub expect : ℕ → List ℕ → Option (List ℕ)
expect c [] = none
expect c (d ∷ cs) = if eqb c d then some cs else none

-- Up to `n` more digits of a fraction; the number is scaled as if all `n` stood there.
unfoldable pub more_digits : ℕ → ℕ → List ℕ → ℕ × List ℕ
unfolding digit
more_digits zero acc cs = (acc, cs)
more_digits (suc n) acc [] = (acc * 10 ^ suc n, [])
more_digits (suc n) acc (c ∷ cs) = elim (digit c) [
  | none ↦ (acc * 10 ^ suc n, c ∷ cs)
  | some d ↦ more_digits n (acc * 10 + d) cs
]

-- `(?:\.\d{1,3})?`: a point must be followed by a digit.
unfoldable pub read_fraction : List ℕ → Option (ℕ × List ℕ)
unfolding read_digits more_digits
read_fraction [] = some (0, [])
read_fraction (c ∷ cs) =
    if eqb c b'.'
    then (do (d, rest) ← read_digits 1 0 cs; some (more_digits 2 d rest))
    else some (0, c ∷ cs)

abbrev end_of_text : List ℕ → Option (Unit {0})
end_of_text [] = some tt
end_of_text (_ ∷ _) = none

-- `ISO_8601_UTC_COMPONENTS.exec(value)`
unfoldable pub exec : List ℕ → Option IsoParts
unfolding read_digits expect read_fraction
exec cs = do
  (year, cs) ← read_digits 4 0 cs
  cs ← expect b'-' cs
  (month, cs) ← read_digits 2 0 cs
  cs ← expect b'-' cs
  (day, cs) ← read_digits 2 0 cs
  cs ← expect b'T' cs
  (hour, cs) ← read_digits 2 0 cs
  cs ← expect b':' cs
  (minute, cs) ← read_digits 2 0 cs
  cs ← expect b':' cs
  (second, cs) ← read_digits 2 0 cs
  (millisecond, cs) ← read_fraction cs
  cs ← expect b'Z' cs
  end ← end_of_text cs
  some (record {
    year = year;
    month = month;
    day = day;
    hour = hour;
    minute = minute;
    second = second;
    millisecond = millisecond;
  })

-- The calendar and clock checks after the match.
unfoldable pub is_real : IsoParts → Bool
unfolding days_in_month
is_real p =
    leb 1 p.month
    && leb p.month 12
    && leb 1 p.day
    && leb p.day (days_in_month p.year p.month)
    && leb p.hour 23
    && leb p.minute 59
    && leb p.second 59

unfoldable pub parse_iso : String → Option IsoParts
unfolding exec is_real
parse_iso value = do p ← exec (codes value); if is_real p then some p else none

unfoldable pub is_iso_utc_timestamp : String → Bool
unfolding parse_iso
is_iso_utc_timestamp value = elim (parse_iso value) [ none ↦ false | some _ ↦ true ]

-- Milliseconds since the start of the year 0.
unfoldable pub instant : IsoParts → ℕ
unfolding day_number
instant p =
    (((day_number p.year p.month p.day * 24 + p.hour) * 60 + p.minute) * 60 + p.second) * 1000
    + p.millisecond

-- `a < b` on texts: by characters, the shorter one first.
unfoldable pub lex_lt : List ℕ → List ℕ → Bool
lex_lt [] [] = false
lex_lt [] (_ ∷ _) = true
lex_lt (_ ∷ _) [] = false
lex_lt (c ∷ cs) (d ∷ ds) = if ltb c d then true else if eqb c d then lex_lt cs ds else false

unfoldable pub text_lt : String → String → Bool
unfolding lex_lt
text_lt a b = lex_lt (codes a) (codes b)

-- What `Date` makes of a text in no format that the standard fixes: each engine's own business.
module _ (fallback : String → Option ℕ) where
  -- The time value of `new Date(text)`; `none` is an invalid date.
  unfoldable pub time_value : String → Option ℕ
  unfolding parse_iso instant
  time_value text = elim (parse_iso text) [ none ↦ fallback text | some p ↦ some (instant p) ]

  -- `new Date(a) >= new Date(b)`: false if either is invalid.
  unfoldable pub date_ge : String → String → Bool
  unfolding time_value
  date_ge a b = elim (time_value a) [
    | none ↦ false
    | some s ↦ elim (time_value b) [ none ↦ false | some t ↦ leb t s ]
  ]

  -- `new Date(a) > new Date(b)`
  unfoldable pub date_gt : String → String → Bool
  unfolding time_value
  date_gt a b = elim (time_value a) [
    | none ↦ false
    | some s ↦ elim (time_value b) [ none ↦ false | some t ↦ ltb t s ]
  ]
