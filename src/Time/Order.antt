-- ===== src/Time/Order.antt =====
-- Texts of a fixed number of digits are ordered as the numbers that they stand for, and real dates
-- and times as their instants.
use native.Mathlib.Nat.{pow-suc, mul-le-mul_right}
use atra_workunit_os.Prelude.{
  ℕ, zero, suc, ◌+◌, ◌*◌, ◌^◌, ◌≤◌, ◌<◌, ◌≡◌, refl, true, false, some, List, [], ◌∷◌, inl, inr, ap,
  arith, ltb, eqb, if◌then◌else◌, Option-cases,
}
use atra_workunit_os.Time.{digit, read_digits, lex_lt}

digit_bounds : (c d : ℕ) → digit c ≡ some d → (d ≤ 9) × (c ≡ d + 48)
unfolding digit
digit_bounds c d h = ground arith

pub read_digits_bounds :
    (n acc : ℕ) (cs : List ℕ) (v : ℕ) (r : List ℕ)
    → read_digits n acc cs ≡ some (v, r)
    → (acc * 10 ^ n ≤ v) × (v < acc * 10 ^ n + 10 ^ n)
unfolding read_digits
read_digits_bounds zero acc cs v r h = ground arith
read_digits_bounds (suc n) acc [] v r h = ground arith
read_digits_bounds (suc n) acc (c ∷ cs) v r h = elim (Option-cases (digit c)) [
  | inl none_e ↦ ground arith
  | inr (d, e) ↦
      let b = digit_bounds c d e in
      let ih = read_digits_bounds n (acc * 10 + d) cs v r (rw (e, read_digits) at h) in
      let scaled : d * 10 ^ n ≤ 9 * 10 ^ n = grind arith in
      omega (arith, pow-suc 10 n, ih, scaled, ap (λ (t : ℕ). acc * t) (pow-suc 10 n))
]

-- The first of the digits that were read.
record FirstDigit (n acc : ℕ) (cs : List ℕ) (v : ℕ) (r : List ℕ) : Type 0 where
  char : ℕ
  value : ℕ
  rest : List ℕ
  shape : cs ≡ char ∷ rest
  read : digit char ≡ some value
  tail : read_digits n (acc * 10 + value) rest ≡ some (v, r)

first_digit :
    (n acc : ℕ) (cs : List ℕ) {v : ℕ} {r : List ℕ}
    → read_digits (suc n) acc cs ≡ some (v, r)
    → FirstDigit n acc cs v r
unfolding read_digits
first_digit n acc [] h = absurd (ground arith)
first_digit n acc (c ∷ cs) h = elim (Option-cases (digit c)) [
  | inl none_e ↦ absurd (ground arith)
  | inr (d, e) ↦ record {
    char = c;
    value = d;
    rest = cs;
    shape = refl;
    read = e;
    tail = rw (e, read_digits) at h;
  }
]

-- A smaller first digit gives a smaller number.
smaller_first :
    (n acc d d' v w : ℕ)
    → d < d'
    → v < (acc * 10 + d) * 10 ^ n + 10 ^ n
    → (acc * 10 + d') * 10 ^ n ≤ w
    → v < w
smaller_first n acc d d' v w h p q =
    let scaled : suc d * 10 ^ n ≤ d' * 10 ^ n = mul-le-mul_right (10 ^ n) h in omega arith

-- Where both texts begin with `n` digits, the numbers decide, and then what follows.
pub lex_lt-read_digits :
    (n acc : ℕ) (cs ds : List ℕ) (v w : ℕ) (r s : List ℕ)
    → read_digits n acc cs ≡ some (v, r)
    → read_digits n acc ds ≡ some (w, s)
    → lex_lt cs ds ≡ (if ltb v w then true else if eqb v w then lex_lt r s else false)
unfolding read_digits lex_lt
lex_lt-read_digits zero acc cs ds v w r s h k = ground arith
lex_lt-read_digits (suc n) acc cs ds v w r s h k =
    let a = first_digit n acc cs h in
    let b = first_digit n acc ds k in
    let ca = digit_bounds a.char a.value a.read in
    let cb = digit_bounds b.char b.value b.read in
    let ba = read_digits_bounds n (acc * 10 + a.value) a.rest v r a.tail in
    let bb = read_digits_bounds n (acc * 10 + b.value) b.rest w s b.tail in
    rw (a.shape, b.shape)
      (ground (
        arith,
        ca,
        cb,
        ba,
        bb,
        smaller_first n acc a.value b.value v w,
        smaller_first n acc b.value a.value w v,
        lex_lt-read_digits n (acc * 10 + a.value) a.rest b.rest v w r s a.tail,
        b.tail,
      ))
