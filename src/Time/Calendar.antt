-- ===== src/Time/Calendar.antt =====
-- Month lengths (app/lib/phase6/shared/isoUtcTimestamp.ts), and the day numbering of the Gregorian
-- calendar, which orders dates by year, month and day.
use native.Mathlib.Decide.{dec_lt}
use atra_workunit_os.Prelude.{
  ℕ, zero, suc, ◌+◌, ◌-◌, ◌*◌, ◌/◌, ◌%◌, ◌≤◌, ◌<◌, ◌≡◌, refl, Bool, arith, eqb, if◌then◌else◌, ◌&&◌,
  ◌||◌, not,
}

unfoldable pub is_gregorian_leap_year : ℕ → Bool
is_gregorian_leap_year year = (eqb (year % 4) 0 && not (eqb (year % 100) 0)) || eqb (year % 400) 0

unfoldable pub days_in_month : ℕ → ℕ → ℕ
unfolding is_gregorian_leap_year
days_in_month year month =
    if eqb month 1
      || eqb month 3
      || eqb month 5
      || eqb month 7
      || eqb month 8
      || eqb month 10
      || eqb month 12
    then 31
    else if eqb month 4 || eqb month 6 || eqb month 9 || eqb month 11
    then 30
    else if eqb month 2
    then (if is_gregorian_leap_year year then 29 else 28)
    else 0

-- The days before the given month, counted from month 1.
unfoldable pub days_before_month : ℕ → ℕ → ℕ
unfolding days_in_month
days_before_month year zero = 0
days_before_month year (suc m) = days_before_month year m + days_in_month year m

-- The days before the given year, counted from year 0.
unfoldable pub days_before_year : ℕ → ℕ
days_before_year year = 365 * year + (year + 3) / 4 - (year + 99) / 100 + (year + 399) / 400

unfoldable pub day_number : ℕ → ℕ → ℕ → ℕ
unfolding days_before_month days_before_year
day_number year month day = days_before_year year + days_before_month year month + day - 1

unfoldable pub year_length : ℕ → ℕ
unfolding is_gregorian_leap_year
year_length year = if is_gregorian_leap_year year then 366 else 365

pub days_before_year-suc : (y : ℕ) → days_before_year (suc y) ≡ days_before_year y + year_length y
unfolding days_before_year year_length
days_before_year-suc y = ground arith

-- A later year begins no earlier than the given one ends.
pub days_before_year_mono :
    (y z : ℕ) → y < z → days_before_year y + year_length y ≤ days_before_year z
days_before_year_mono y zero h = absurd (omega arith)
days_before_year_mono y (suc z) h = elim (dec_lt y z) [
  | yes p ↦ omega (arith, days_before_year-suc z, days_before_year_mono y z p)
  | no p ↦ let e : y ≡ z = omega arith in rw e (omega (arith, days_before_year-suc z))
]

days_before_month_mono :
    (y m n : ℕ) → m < n → days_before_month y m + days_in_month y m ≤ days_before_month y n
unfolding days_before_month
days_before_month_mono y m zero h = absurd (omega arith)
days_before_month_mono y m (suc n) h = elim (dec_lt m n) [
  | yes p ↦ omega (arith, days_before_month_mono y m n p)
  | no p ↦ let e : m ≡ n = omega arith in rw e (omega arith)
]

year_end : (y : ℕ) → days_before_month y 12 + 31 ≡ year_length y
unfolding days_before_month year_length
year_end y = ground arith

days_in_december : (y : ℕ) → days_in_month y 12 ≡ 31
unfolding days_in_month
days_in_december y = refl

-- The last day of a month lies in its year.
month_end : (y m : ℕ) → m ≤ 12 → days_before_month y m + days_in_month y m ≤ year_length y
month_end y m h = elim (dec_lt m 12) [
  | yes p ↦ omega (arith, days_before_month_mono y m 12 p, year_end y)
  | no p ↦ let e : m ≡ 12 = omega arith in rw e (omega (arith, year_end y, days_in_december y))
]

-- A date that the calendar has.
pub record IsDate (year month day : ℕ) : Type 0 where
  pub month_low : 1 ≤ month
  pub month_high : month ≤ 12
  pub day_low : 1 ≤ day
  pub day_high : day ≤ days_in_month year month

-- Dates of the calendar are numbered in the order of year, month and day.
pub data DateLt (y m d y' m' d' : ℕ) : Type 0 where
  by_year : y < y' → DateLt y m d y' m' d'
  by_month : y ≡ y' → m < m' → DateLt y m d y' m' d'
  by_day : y ≡ y' → m ≡ m' → d < d' → DateLt y m d y' m' d'

pub day_number_mono :
    (y m d y' m' d' : ℕ)
    → IsDate y m d
    → IsDate y' m' d'
    → DateLt y m d y' m' d'
    → day_number y m d < day_number y' m' d'
unfolding day_number
day_number_mono y m d y' m' d' p q (DateLt.by_year h) =
    omega (arith, month_end y m p.month_high, days_before_year_mono y y' h)
day_number_mono y m d y' m' d' p q (DateLt.by_month e h) =
    rw e (omega (arith, days_before_month_mono y' m m' h, rw e at p.day_high))
day_number_mono y m d y' m' d' p q (DateLt.by_day e e' h) = rw (e, e') (omega arith)
