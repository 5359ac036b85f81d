-- ===== src/Time/Profile/Instants.antt =====
-- On timestamps that the guard accepts, the comparison of texts is that of instants
-- (compareCanonicalIsoUtc of app/lib/phase6/canonicalIdentity/validation.ts).
use Prim.Native.Nat.{compare}
use atra_workunit_os.Prelude.{
  ℕ, zero, suc, ◌+◌, ◌≡◌, refl, ◌∙◌, sym, ap, inl, inr, String, true, false, Option, none, some,
  List, [], ◌∷◌, ◌++◌, arith, if◌then◌else◌, ◌&&◌, length, length-append, Option-cases, ◌*◌,
  >>=-eq-some, codes,
}
use atra_workunit_os.Time.{digit, read_digits, IsoParts, is_real, exec, parse_iso, instant, lex_lt}
use atra_workunit_os.Time.Canonical.{
  canonical_parts, lex_lt-canonical_parts, is_real-IsReal, parts_lt-instant,
  canonical_parts-millisecond, canonical_parts-Groups, numeral-eq,
}
use atra_workunit_os.Time.Profile.{
  same_codes, base, padded_fraction, order_of, compare_canonical_iso_utc,
}
use atra_workunit_os.Time.Profile.Padding.{padded, padded-canonical_parts}

-- Behind beginnings of the same length, the rest decides where they are the same.
lex_lt-append :
    (xs ys us vs : List ℕ)
    → length xs ≡ length ys
    → lex_lt (xs ++ us) (ys ++ vs) ≡ (if same_codes xs ys then lex_lt us vs else lex_lt xs ys)
unfolding lex_lt
lex_lt-append [] [] us vs h = refl
lex_lt-append [] (y ∷ ys) us vs h = absurd (omega (arith, h))
lex_lt-append (x ∷ xs) [] us vs h = absurd (omega (arith, h))
lex_lt-append (x ∷ xs) (y ∷ ys) us vs h =
    let ih = lex_lt-append xs ys us vs (omega (arith, h)) in ground (arith, ih)

same_codes-append :
    (xs ys us vs : List ℕ)
    → length xs ≡ length ys
    → same_codes (xs ++ us) (ys ++ vs) ≡ (same_codes xs ys && same_codes us vs)
same_codes-append [] [] us vs h = refl
same_codes-append [] (y ∷ ys) us vs h = absurd (omega (arith, h))
same_codes-append (x ∷ xs) (y ∷ ys) us vs h =
    let ih = same_codes-append xs ys us vs (omega (arith, h)) in ground (arith, ih)
same_codes-append (x ∷ xs) [] us vs h = absurd (omega (arith, h))

-- Texts are the same, or one of them comes first.
same_codes-lex_lt :
    (xs ys : List ℕ) → same_codes xs ys ≡ true → (lex_lt xs ys ≡ false) × (lex_lt ys xs ≡ false)
unfolding lex_lt
same_codes-lex_lt [] [] h = (refl, refl)
same_codes-lex_lt [] (y ∷ ys) h = absurd (ground (arith, h))
same_codes-lex_lt (x ∷ xs) [] h = absurd (ground (arith, h))
same_codes-lex_lt (x ∷ xs) (y ∷ ys) h =
    let ih = same_codes-lex_lt xs ys (ground (arith, h)) in
    (ground (arith, h, ih), ground (arith, h, ih))

lex_lt_total :
    (xs ys : List ℕ) → same_codes xs ys ≡ false → lex_lt xs ys ≡ false → lex_lt ys xs ≡ true
unfolding lex_lt
lex_lt_total [] [] h k = absurd (ground (arith, h))
lex_lt_total [] (y ∷ ys) h k = absurd (ground (arith, k))
lex_lt_total (x ∷ xs) [] h k = refl
lex_lt_total (x ∷ xs) (y ∷ ys) h k = ground (arith, h, k, lex_lt_total xs ys)

order_of-append :
    (xs ys us vs : List ℕ)
    → length xs ≡ length ys
    → order_of (xs ++ us) (ys ++ vs) ≡ (if same_codes xs ys then order_of us vs else order_of xs ys)
unfolding order_of
order_of-append xs ys us vs h =
    ground (arith, lex_lt-append xs ys us vs h, same_codes-append xs ys us vs h)

order_of-cons : (c : ℕ) (us vs : List ℕ) → order_of (c ∷ us) (c ∷ vs) ≡ order_of us vs
unfolding order_of lex_lt
order_of-cons c us vs = ground arith

order_of-snoc :
    (c : ℕ) (us vs : List ℕ)
    → length us ≡ length vs
    → order_of (us ++ (c ∷ [])) (vs ++ (c ∷ [])) ≡ order_of us vs
unfolding order_of lex_lt
order_of-snoc c us vs h =
    let step = order_of-append us vs (c ∷ []) (c ∷ []) h in
    let same = same_codes-lex_lt us vs in ground (arith, step, same)

-- The order of canonical texts is that of their instants.
order_of-instant :
    (xs ys : List ℕ) (p q : IsoParts)
    → canonical_parts xs ≡ some p
    → canonical_parts ys ≡ some q
    → is_real p ≡ true
    → is_real q ≡ true
    → order_of xs ys ≡ compare (instant p) (instant q)
unfolding order_of
order_of-instant xs ys p q a b r s =
    let rp = is_real-IsReal p (canonical_parts-millisecond xs p a) r in
    let rq = is_real-IsReal q (canonical_parts-millisecond ys q b) s in
    let before = lex_lt-canonical_parts xs ys p q a b ∙ parts_lt-instant p q rp rq in
    let after = lex_lt-canonical_parts ys xs q p b a ∙ parts_lt-instant q p rq rp in
    ground (arith, before, after, same_codes-lex_lt xs ys, lex_lt_total xs ys)

read_digits-length :
    (n acc : ℕ) (cs : List ℕ) {v : ℕ} {r : List ℕ}
    → read_digits n acc cs ≡ some (v, r)
    → length cs ≡ n + length r
unfolding read_digits
read_digits-length zero acc cs h = omega (arith, ap (λ o. rest_length o) h)
  where
    rest_length : Option (ℕ × List ℕ) → ℕ
    rest_length none = 0
    rest_length (some (v, r)) = length r
read_digits-length (suc n) acc [] h = absurd (ground (arith, h))
read_digits-length (suc n) acc (c ∷ cs) h = elim (Option-cases (digit c)) [
  | inl e ↦ absurd (ground (arith, h, e))
  | inr (d, e) ↦ omega (arith, read_digits-length n (acc * 10 + d) cs (rw (e, read_digits) at h))
]

-- A canonical text has twenty-four characters.
canonical_parts-length : (cs : List ℕ) (p : IsoParts) → canonical_parts cs ≡ some p → length cs ≡ 24
canonical_parts-length cs p h =
    let g = canonical_parts-Groups cs p h in
    omega (
      arith,
      read_digits-length 4 0 cs (numeral-eq 4 b'-' cs g.e1),
      read_digits-length 2 0 g.r1 (numeral-eq 2 b'-' g.r1 g.e2),
      read_digits-length 2 0 g.r2 (numeral-eq 2 b'T' g.r2 g.e3),
      read_digits-length 2 0 g.r3 (numeral-eq 2 b':' g.r3 g.e4),
      read_digits-length 2 0 g.r4 (numeral-eq 2 b':' g.r4 g.e5),
      read_digits-length 2 0 g.r5 (numeral-eq 2 b'.' g.r5 g.e6),
      read_digits-length 3 0 g.r6 (numeral-eq 3 b'Z' g.r6 g.e7),
      ap (λ x. length x) g.e8,
    )

padded_fraction-length :
    (cs : List ℕ) (p : IsoParts) → exec cs ≡ some p → length (padded_fraction cs) ≡ 3
unfolding padded
padded_fraction-length cs p h =
    let (canonical, len) = padded-canonical_parts cs p h in
    omega (
      arith,
      canonical_parts-length (padded cs) p canonical,
      len,
      length-append (base cs) (b'.' ∷ padded_fraction cs ++ (b'Z' ∷ [])),
      length-append (padded_fraction cs) (b'Z' ∷ []),
    )

-- The comparison by parts is that of the padded texts.
compare-padded :
    (a b : String)
    → length (base (codes a)) ≡ length (base (codes b))
    → length (padded_fraction (codes a)) ≡ length (padded_fraction (codes b))
    → compare_canonical_iso_utc a b ≡ order_of (padded (codes a)) (padded (codes b))
unfolding compare_canonical_iso_utc padded
compare-padded a b h k =
    let x = padded_fraction (codes a) in
    let y = padded_fraction (codes b) in
    let z : List ℕ = b'Z' ∷ [] in
    rw
      (
        order_of-append (base (codes a)) (base (codes b)) (b'.' ∷ x ++ z) (b'.' ∷ y ++ z) h,
        order_of-cons b'.' (x ++ z) (y ++ z),
        order_of-snoc b'Z' x y k,
      )
      refl

-- Two timestamps that the guard accepts compare as the instants that they denote, whether or not
-- their fractions are written out.
pub compare_canonical_iso_utc-instant :
    (a b : String) (p q : IsoParts)
    → parse_iso a ≡ some p
    → parse_iso b ≡ some q
    → compare_canonical_iso_utc a b ≡ compare (instant p) (instant q)
unfolding parse_iso
compare_canonical_iso_utc-instant a b p q h k =
    let (p', ep, hp) = >>=-eq-some (exec (codes a)) _ h in
    let (q', eq, hq) = >>=-eq-some (exec (codes b)) _ k in
    let rp : is_real p' ≡ true = ground (arith, hp) in
    let rq : is_real q' ≡ true = ground (arith, hq) in
    let sp : p' ≡ p = ground (arith, hp) in
    let sq : q' ≡ q = ground (arith, hq) in
    let (ca, la) = padded-canonical_parts (codes a) p' ep in
    let (cb, lb) = padded-canonical_parts (codes b) q' eq in
    compare-padded a b (la ∙ sym lb)
      (padded_fraction-length (codes a) p' ep ∙ sym (padded_fraction-length (codes b) q' eq))
    ∙ order_of-instant (padded (codes a)) (padded (codes b)) p' q' ca cb rp rq
    ∙ (λ i. compare (instant (sp i)) (instant (sq i)))
