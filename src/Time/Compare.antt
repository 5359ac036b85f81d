-- ===== src/Time/Compare.antt =====
-- Canonical instants and `Date`: a canonical text is also well formed for the shared guard, and the
-- comparison of dates is then the comparison of texts that SQL makes.
use atra_workunit_os.Prelude.{
  ℕ, ◌≡◌, refl, String, true, false, Option, some, List, [], ◌∷◌, arith, >>=-eq-some, inl, inr, ltb,
  leb, Option-cases, not, codes,
}
use atra_workunit_os.Time.{
  IsoParts, read_digits, expect, more_digits, read_fraction, exec, parse_iso, instant,
  is_iso_utc_timestamp, time_value, date_ge, date_gt, text_lt,
}
use atra_workunit_os.Time.Canonical.{
  canonical_parts, canonical_instant, is_canonical_instant, canonical_parts-Groups, numeral-eq,
  text_lt-instant,
}

read_fraction-digits :
    (cs r : List ℕ) {v : ℕ}
    → read_digits 3 0 cs ≡ some (v, r)
    → read_fraction (b'.' ∷ cs) ≡ some (v, r)
unfolding read_fraction read_digits more_digits
read_fraction-digits [] r h = cc
read_fraction-digits (a ∷ []) r h = ground arith
read_fraction-digits (a ∷ b ∷ []) r h = ground arith
read_fraction-digits (a ∷ b ∷ c ∷ cs) r h = ground arith

canonical_parts-exec : (cs : List ℕ) (p : IsoParts) → canonical_parts cs ≡ some p → exec cs ≡ some p
unfolding exec expect
canonical_parts-exec cs p h =
    let g = canonical_parts-Groups cs p h in
    rw
      (
        exec,
        numeral-eq 4 b'-' cs g.e1,
        numeral-eq 2 b'-' g.r1 g.e2,
        numeral-eq 2 b'T' g.r2 g.e3,
        numeral-eq 2 b':' g.r3 g.e4,
        numeral-eq 2 b':' g.r4 g.e5,
        numeral-eq 2 b'.' g.r5 g.e6,
        read_fraction-digits g.r6 (b'Z' ∷ g.r7) (numeral-eq 3 b'Z' g.r6 g.e7),
        g.e8,
      )
      refl

canonical_instant-parse_iso :
    (value : String) (p : IsoParts) → canonical_instant value ≡ some p → parse_iso value ≡ some p
unfolding canonical_instant parse_iso
canonical_instant-parse_iso value p h =
    let (q, e, k) = >>=-eq-some (canonical_parts (codes value)) _ h in
    rw (parse_iso, canonical_parts-exec (codes value) q e) k

-- A canonical instant is a timestamp that the shared guard accepts.
pub is_canonical_instant-is_iso :
    (value : String) → is_canonical_instant value ≡ true → is_iso_utc_timestamp value ≡ true
unfolding is_canonical_instant is_iso_utc_timestamp
is_canonical_instant-is_iso value h = elim (Option-cases (canonical_instant value)) [
  | inl e ↦ absurd (ground (arith, e))
  | inr (p, e) ↦ rw (is_iso_utc_timestamp, canonical_instant-parse_iso value p e) refl
]

canonical_instant-time_value :
    (fallback : String → Option ℕ) (value : String) (p : IsoParts)
    → canonical_instant value ≡ some p
    → time_value fallback value ≡ some (instant p)
unfolding time_value
canonical_instant-time_value fallback value p h =
    rw (time_value, canonical_instant-parse_iso value p h) refl

leb-ltb : (a b : ℕ) → leb b a ≡ not (ltb a b)
leb-ltb a b = ground arith

-- On canonical instants the comparisons of dates are those of the texts.
pub date_ge-text_lt :
    (fallback : String → Option ℕ) (a b : String)
    → is_canonical_instant a ≡ true
    → is_canonical_instant b ≡ true
    → (date_ge fallback a b ≡ not (text_lt a b)) × (date_gt fallback a b ≡ text_lt b a)
unfolding is_canonical_instant date_ge date_gt
date_ge-text_lt fallback a b h k = elim (Option-cases (canonical_instant a)) [
  | inl e ↦ absurd (ground (arith, e))
  | inr (p, e) ↦ elim (Option-cases (canonical_instant b)) [
    | inl f ↦ absurd (ground (arith, f))
    | inr (q, f) ↦
        let s = canonical_instant-time_value fallback a p e in
        let t = canonical_instant-time_value fallback b q f in
        (
          rw (date_ge, s, t, text_lt-instant a b p q e f) (leb-ltb (instant p) (instant q)),
          rw (date_gt, s, t, text_lt-instant b a q p f e) refl,
        )
  ]
]

pub is_canonical_instant-nonempty : is_canonical_instant "" ≡ false
unfolding is_canonical_instant
is_canonical_instant-nonempty = refl
