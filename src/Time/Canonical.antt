-- ===== src/Time/Canonical.antt =====
-- Canonical instants (app/lib/phase6/temporalContract/evaluate.ts): texts with all three digits of
-- the fraction, whose order as texts is the order in time.
use atra_workunit_os.Prelude.{
  ℕ, ◌≤◌, ◌<◌, ◌≡◌, refl, ◌∙◌, String, Bool, true, false, Option, none, some, List, [], ◌∷◌, arith,
  ltb, eqb, if◌then◌else◌, ◌>>=◌, >>=-eq-some, codes, ◌+◌, ◌*◌,
}
use mathlib.Core.Path.{subst}
use mathlib.Core.Option.{some-injective}
use atra_workunit_os.Time.Order.{lex_lt-read_digits, read_digits_bounds}
use atra_workunit_os.Time.{
  IsoParts, read_digits, expect, end_of_text, is_real, instant, lex_lt, text_lt, IsDate, DateLt,
  day_number, day_number_mono,
}

-- `\d{n}` and the character behind it.
unfoldable pub numeral : ℕ → ℕ → List ℕ → Option (ℕ × List ℕ)
unfolding read_digits expect
numeral n c cs = do (v, rest) ← read_digits n 0 cs; rest ← expect c rest; some (v, rest)

-- `CANONICAL_INSTANT`, with its groups.
unfoldable pub canonical_parts : List ℕ → Option IsoParts
unfolding numeral
canonical_parts cs = do
  (year, cs) ← numeral 4 b'-' cs
  (month, cs) ← numeral 2 b'-' cs
  (day, cs) ← numeral 2 b'T' cs
  (hour, cs) ← numeral 2 b':' cs
  (minute, cs) ← numeral 2 b':' cs
  (second, cs) ← numeral 2 b'.' cs
  (millisecond, cs) ← numeral 3 b'Z' cs
  end ← end_of_text cs
  some (record {
    year = year;
    month = month;
    day = day;
    hour = hour;
    minute = minute;
    second = second;
    millisecond = millisecond;
  })

-- `Date.parse` of such a text prints back as the text exactly if its date and time are real.
unfoldable pub canonical_instant : String → Option IsoParts
unfolding canonical_parts is_real
canonical_instant value = do p ← canonical_parts (codes value); if is_real p then some p else none

unfoldable pub is_canonical_instant : String → Bool
unfolding canonical_instant
is_canonical_instant value = elim (canonical_instant value) [ none ↦ false | some _ ↦ true ]

expect-eq : (c : ℕ) (cs r : List ℕ) → expect c cs ≡ some r → cs ≡ c ∷ r
unfolding expect
expect-eq c [] r h = ground arith
expect-eq c (d ∷ cs) r h = ground arith

pub numeral-eq :
    (n c : ℕ) (cs : List ℕ) {v : ℕ} {r : List ℕ}
    → numeral n c cs ≡ some (v, r)
    → read_digits n 0 cs ≡ some (v, c ∷ r)
unfolding numeral
numeral-eq n c cs {v} {r} h =
    let ((v', r'), hr, he) = >>=-eq-some (read_digits n 0 cs) _ h in
    let (r'', hx, hs) = >>=-eq-some (expect c r') _ he in
    let shape = expect-eq c r' r'' hx in ground (arith, hr, hs, shape)

lex_lt-numeral :
    (n c : ℕ) (cs ds : List ℕ) (v w : ℕ) (r s : List ℕ)
    → numeral n c cs ≡ some (v, r)
    → numeral n c ds ≡ some (w, s)
    → lex_lt cs ds ≡ (if ltb v w then true else if eqb v w then lex_lt r s else false)
unfolding lex_lt
lex_lt-numeral n c cs ds v w r s h k =
    let step =
      lex_lt-read_digits n 0 cs ds v w (c ∷ r) (c ∷ s) (numeral-eq n c cs h)
        (numeral-eq n c ds k) in
    ground (arith, step)

-- The groups of a canonical text, one after the other.
pub record Groups (cs : List ℕ) (p : IsoParts) : Type 0 where
  pub r1 : List ℕ
  pub r2 : List ℕ
  pub r3 : List ℕ
  pub r4 : List ℕ
  pub r5 : List ℕ
  pub r6 : List ℕ
  pub r7 : List ℕ
  pub e1 : numeral 4 b'-' cs ≡ some (p.year, r1)
  pub e2 : numeral 2 b'-' r1 ≡ some (p.month, r2)
  pub e3 : numeral 2 b'T' r2 ≡ some (p.day, r3)
  pub e4 : numeral 2 b':' r3 ≡ some (p.hour, r4)
  pub e5 : numeral 2 b':' r4 ≡ some (p.minute, r5)
  pub e6 : numeral 2 b'.' r5 ≡ some (p.second, r6)
  pub e7 : numeral 3 b'Z' r6 ≡ some (p.millisecond, r7)
  pub e8 : r7 ≡ []

end_of_text-eq : (cs : List ℕ) {u : Unit {0}} → end_of_text cs ≡ some u → cs ≡ []
end_of_text-eq [] h = refl
end_of_text-eq (c ∷ cs) h = cc

pub canonical_parts-Groups :
    (cs : List ℕ) (p : IsoParts) → canonical_parts cs ≡ some p → Groups cs p
unfolding canonical_parts
canonical_parts-Groups cs p h =
    let ((year, r1), e1, h1) = >>=-eq-some (numeral 4 b'-' cs) _ h in
    let ((month, r2), e2, h2) = >>=-eq-some (numeral 2 b'-' r1) _ h1 in
    let ((day, r3), e3, h3) = >>=-eq-some (numeral 2 b'T' r2) _ h2 in
    let ((hour, r4), e4, h4) = >>=-eq-some (numeral 2 b':' r3) _ h3 in
    let ((minute, r5), e5, h5) = >>=-eq-some (numeral 2 b':' r4) _ h4 in
    let ((second, r6), e6, h6) = >>=-eq-some (numeral 2 b'.' r5) _ h5 in
    let ((millisecond, r7), e7, h7) = >>=-eq-some (numeral 3 b'Z' r6) _ h6 in
    let (u, e8, h8) = >>=-eq-some (end_of_text r7) _ h7 in
    subst (Groups cs) (some-injective _ _ h8) (record {
      r1 = r1;
      r2 = r2;
      r3 = r3;
      r4 = r4;
      r5 = r5;
      r6 = r6;
      r7 = r7;
      e1 = e1;
      e2 = e2;
      e3 = e3;
      e4 = e4;
      e5 = e5;
      e6 = e6;
      e7 = e7;
      e8 = end_of_text-eq r7 e8;
    })

-- One number decides, and where it is the same what follows does.
abbrev then_lt : ℕ → ℕ → Bool → Bool
then_lt a b rest = if ltb a b then true else if eqb a b then rest else false

clock_lt : IsoParts → IsoParts → Bool
clock_lt p q = then_lt p.hour q.hour (
    then_lt p.minute q.minute
      (then_lt p.second q.second (then_lt p.millisecond q.millisecond false)))

-- Parts compared from the year down.
pub parts_lt : IsoParts → IsoParts → Bool
unfolding clock_lt
parts_lt p q = then_lt p.year q.year (then_lt p.month q.month (then_lt p.day q.day (clock_lt p q)))

pub lex_lt-canonical_parts :
    (cs ds : List ℕ) (p q : IsoParts)
    → canonical_parts cs ≡ some p
    → canonical_parts ds ≡ some q
    → lex_lt cs ds ≡ parts_lt p q
unfolding parts_lt lex_lt
lex_lt-canonical_parts cs ds p q h k =
    let a = canonical_parts-Groups cs p h in
    let b = canonical_parts-Groups ds q k in
    rw
      (
        lex_lt-numeral 4 b'-' cs ds p.year q.year a.r1 b.r1 a.e1 b.e1,
        lex_lt-numeral 2 b'-' a.r1 b.r1 p.month q.month a.r2 b.r2 a.e2 b.e2,
        lex_lt-numeral 2 b'T' a.r2 b.r2 p.day q.day a.r3 b.r3 a.e3 b.e3,
        lex_lt-numeral 2 b':' a.r3 b.r3 p.hour q.hour a.r4 b.r4 a.e4 b.e4,
        lex_lt-numeral 2 b':' a.r4 b.r4 p.minute q.minute a.r5 b.r5 a.e5 b.e5,
        lex_lt-numeral 2 b'.' a.r5 b.r5 p.second q.second a.r6 b.r6 a.e6 b.e6,
        lex_lt-numeral 3 b'Z' a.r6 b.r6 p.millisecond q.millisecond a.r7 b.r7 a.e7 b.e7,
        a.e8,
        b.e8,
      )
      refl

pub record IsReal (p : IsoParts) : Type 0 where
  date : IsDate p.year p.month p.day
  hour_high : p.hour ≤ 23
  minute_high : p.minute ≤ 59
  second_high : p.second ≤ 59
  millisecond_high : p.millisecond ≤ 999

pub is_real-IsReal : (p : IsoParts) → p.millisecond ≤ 999 → is_real p ≡ true → IsReal p
unfolding is_real
is_real-IsReal p m h = record {
  date = ground arith;
  hour_high = ground arith;
  minute_high = ground arith;
  second_high = ground arith;
  millisecond_high = m;
}

module _ (y m d y' m' d' : ℕ) (p : IsDate y m d) (q : IsDate y' m' d') where
  by_year_lt : y < y' → day_number y m d < day_number y' m' d'
  by_year_lt h = day_number_mono y m d y' m' d' p q (DateLt.by_year h)

  by_month_lt : y ≡ y' → m < m' → day_number y m d < day_number y' m' d'
  by_month_lt e h = day_number_mono y m d y' m' d' p q (DateLt.by_month e h)

  by_day_lt : y ≡ y' → m ≡ m' → d < d' → day_number y m d < day_number y' m' d'
  by_day_lt e e' h = day_number_mono y m d y' m' d' p q (DateLt.by_day e e' h)

same_date : (y m d y' m' d' : ℕ) → y ≡ y' → m ≡ m' → d ≡ d' → day_number y m d ≡ day_number y' m' d'
same_date y m d y' m' d' a b c = cc

date_decides :
    (y m d y' m' d' : ℕ) (rest : Bool)
    → IsDate y m d
    → IsDate y' m' d'
    → then_lt y y' (then_lt m m' (then_lt d d' rest))
      ≡ then_lt (day_number y m d) (day_number y' m' d') rest
date_decides y m d y' m' d' rest p q = ground (
  arith,
  by_year_lt y m d y' m' d' p q,
  by_month_lt y m d y' m' d' p q,
  by_day_lt y m d y' m' d' p q,
  by_year_lt y' m' d' y m d q p,
  by_month_lt y' m' d' y m d q p,
  by_day_lt y' m' d' y m d q p,
  same_date y m d y' m' d',
)

clock : IsoParts → ℕ
clock p = ((p.hour * 60 + p.minute) * 60 + p.second) * 1000 + p.millisecond

clock_lt-clock : (p q : IsoParts) → IsReal p → IsReal q → clock_lt p q ≡ ltb (clock p) (clock q)
unfolding clock_lt clock
clock_lt-clock p q a b = ground arith

clock-lt : (p : IsoParts) → IsReal p → clock p < 86400000
unfolding clock
clock-lt p a = omega arith

instant-eq : (p : IsoParts) → instant p ≡ day_number p.year p.month p.day * 86400000 + clock p
unfolding instant clock
instant-eq p = omega arith

day_decides :
    (d d' c c' : ℕ)
    → c < 86400000
    → c' < 86400000
    → then_lt d d' (ltb c c') ≡ ltb (d * 86400000 + c) (d' * 86400000 + c')
day_decides d d' c c' h k = ground arith

pub parts_lt-instant :
    (p q : IsoParts) → IsReal p → IsReal q → parts_lt p q ≡ ltb (instant p) (instant q)
unfolding parts_lt
parts_lt-instant p q a b =
    rw
      (
        instant-eq p,
        instant-eq q,
        date_decides p.year p.month p.day q.year q.month q.day (clock_lt p q) a.date b.date,
        clock_lt-clock p q a b,
        day_decides (day_number p.year p.month p.day) (day_number q.year q.month q.day) (clock p)
            (clock q) (clock-lt p a) (clock-lt q b),
      )
      refl

pub canonical_parts-millisecond :
    (cs : List ℕ) (p : IsoParts) → canonical_parts cs ≡ some p → p.millisecond ≤ 999
canonical_parts-millisecond cs p e =
    let g = canonical_parts-Groups cs p e in
    omega
      (arith, read_digits_bounds 3 0 g.r6 p.millisecond (b'Z' ∷ g.r7) (numeral-eq 3 b'Z' g.r6 g.e7))

canonical_instant-parts :
    (value : String) (p : IsoParts)
    → canonical_instant value ≡ some p
    → (canonical_parts (codes value) ≡ some p) × IsReal p
unfolding canonical_instant
canonical_instant-parts value p h =
    let (q, e, k) = >>=-eq-some (canonical_parts (codes value)) _ h in
    let real : is_real q ≡ true = ground arith in
    let same : q ≡ p = ground (arith, k) in
    let e' = subst (λ t. canonical_parts (codes value) ≡ some t) same e in
    let ms = canonical_parts-millisecond (codes value) p e' in
    (e', is_real-IsReal p ms (subst (λ t. is_real t ≡ true) same real))

-- Canonical instants are ordered as texts exactly as they are in time.
pub text_lt-instant :
    (a b : String) (p q : IsoParts)
    → canonical_instant a ≡ some p
    → canonical_instant b ≡ some q
    → text_lt a b ≡ ltb (instant p) (instant q)
unfolding text_lt
text_lt-instant a b p q h k =
    let (pa, ra) = canonical_instant-parts a p h in
    let (pb, rb) = canonical_instant-parts b q k in
    lex_lt-canonical_parts (codes a) (codes b) p q pa pb ∙ parts_lt-instant p q ra rb
