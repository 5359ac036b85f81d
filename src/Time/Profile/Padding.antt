-- ===== src/Time/Profile/Padding.antt =====
-- A timestamp with its fraction padded to three digits is canonical.
use atra_workunit_os.Prelude.{
  ℕ, zero, suc, ◌+◌, ◌*◌, ◌≡◌, refl, ◌∙◌, ap, inl, inr, false, Option, some, List, [], ◌∷◌, ◌++◌,
  arith, eqb, length, Option-cases, >>=-eq-some, ◌>>=◌,
}
use atra_workunit_os.Time.{
  IsoParts, digit, read_digits, expect, more_digits, read_fraction, end_of_text, exec,
}
use atra_workunit_os.Time.Canonical.{numeral, canonical_parts}
use atra_workunit_os.Time.Profile.{
  without_first, before_point, after_point, pad_end, base, padded_fraction,
}

-- The base, a point, and three digits or more.
unfoldable pub padded : List ℕ → List ℕ
padded cs = base cs ++ (b'.' ∷ padded_fraction cs ++ (b'Z' ∷ []))

padded-cons :
    (c : ℕ) (cs : List ℕ)
    → eqb c b'Z' ≡ false
    → eqb c b'.' ≡ false
    → (padded (c ∷ cs) ≡ c ∷ padded cs) × (base (c ∷ cs) ≡ c ∷ base cs)
unfolding padded base padded_fraction without_first before_point after_point
padded-cons c cs z p = (rw (z, p) refl, rw (z, p) refl)

digit_plain : (c d : ℕ) → digit c ≡ some d → (eqb c b'Z' ≡ false) × (eqb c b'.' ≡ false)
unfolding digit
digit_plain c d h = (ground (arith, h), ground (arith, h))

-- Reading digits goes on in the padded text as in the text.
padded-read_digits :
    (n acc : ℕ) (cs : List ℕ) (v : ℕ) (r : List ℕ)
    → read_digits n acc cs ≡ some (v, r)
    → (read_digits n acc (padded cs) ≡ some (v, padded r))
      × (length (base cs) ≡ n + length (base r))
unfolding read_digits
padded-read_digits zero acc cs v r h =
    let same : cs ≡ r = ground (arith, h) in
    let value : acc ≡ v = ground (arith, h) in (rw (← same, value) refl, rw (← same) (omega arith))
padded-read_digits (suc n) acc [] v r h = absurd (ground (arith, h))
padded-read_digits (suc n) acc (c ∷ cs) v r h = elim (Option-cases (digit c)) [
  | inl e ↦ absurd (ground (arith, h, e))
  | inr (d, e) ↦
      let (z, p) = digit_plain c d e in
      let (same, longer) = padded-cons c cs z p in
      let (ih, len) = padded-read_digits n (acc * 10 + d) cs v r (rw (e, read_digits) at h) in
      (rw (same, read_digits, e) ih, rw (longer) (omega (arith, len)))
]

padded-expect :
    (c : ℕ) (cs r : List ℕ)
    → eqb c b'Z' ≡ false
    → eqb c b'.' ≡ false
    → expect c cs ≡ some r
    → (expect c (padded cs) ≡ some (padded r)) × (length (base cs) ≡ suc (length (base r)))
unfolding expect
padded-expect c [] r z p h = absurd (ground (arith, h))
padded-expect c (d ∷ cs) r z p h =
    let same : c ≡ d = ground (arith, h) in
    let rest : cs ≡ r = ground (arith, h) in
    let plain = padded-cons d cs (rw (← same) z) (rw (← same) p) in
    (rw (plain.0, expect, ← rest) (ground (arith, same)), rw (plain.1, ← rest) refl)

-- What stands behind the seconds.
padded-fraction :
    (cs r : List ℕ) (ms : ℕ)
    → read_fraction cs ≡ some (ms, r)
    → expect b'Z' r ≡ some []
    → (base cs ≡ []) × (numeral 3 b'Z' (padded_fraction cs ++ (b'Z' ∷ [])) ≡ some (ms, []))
unfolding read_fraction read_digits more_digits expect numeral base padded_fraction without_first
    before_point after_point pad_end digit
padded-fraction [] r ms h k = absurd (ground (arith, h, k))
padded-fraction (a ∷ []) r ms h k = (ground (arith, h, k), ground (arith, h, k))
padded-fraction (a ∷ b ∷ []) r ms h k = (ground (arith, h, k), ground (arith, h, k))
padded-fraction (a ∷ b ∷ c ∷ []) r ms h k = (ground (arith, h, k), ground (arith, h, k))
padded-fraction (a ∷ b ∷ c ∷ d ∷ []) r ms h k = (ground (arith, h, k), ground (arith, h, k))
padded-fraction (a ∷ b ∷ c ∷ d ∷ e ∷ cs) r ms h k = (ground (arith, h, k), ground (arith, h, k))

-- A number and the character behind it.
padded-numeral :
    (n c : ℕ) (cs : List ℕ) (v : ℕ) (r s : List ℕ)
    → eqb c b'Z' ≡ false
    → eqb c b'.' ≡ false
    → read_digits n 0 cs ≡ some (v, r)
    → expect c r ≡ some s
    → (numeral n c (padded cs) ≡ some (v, padded s))
      × (length (base cs) ≡ n + suc (length (base s)))
unfolding numeral
padded-numeral n c cs v r s z p h k =
    let (digits, len) = padded-read_digits n 0 cs v r h in
    let (next, one) = padded-expect c r s z p k in (rw (digits, next) refl, omega (arith, len, one))

-- The last number, with the point that the padding puts behind it.
padded-seconds :
    (cs : List ℕ) (v : ℕ) (r s : List ℕ) (ms : ℕ)
    → read_digits 2 0 cs ≡ some (v, r)
    → read_fraction r ≡ some (ms, s)
    → expect b'Z' s ≡ some []
    → (numeral 2 b'.' (padded cs) ≡ some (v, padded_fraction r ++ (b'Z' ∷ [])))
      × (length (base cs) ≡ 2)
unfolding numeral expect
padded-seconds cs v r s ms h f z =
    let (digits, len) = padded-read_digits 2 0 cs v r h in
    let (nothing, _) = padded-fraction r s ms f z in
    let shape : padded r ≡ b'.' ∷ padded_fraction r ++ (b'Z' ∷ []) =
      unfold padded in ap (λ x. x ++ (b'.' ∷ padded_fraction r ++ (b'Z' ∷ []))) nothing in
    (rw (digits, shape) refl, omega (arith, len, ap (λ x. length x) nothing))

end_of_text-nil : (cs : List ℕ) {u : Unit {0}} → end_of_text cs ≡ some u → cs ≡ []
end_of_text-nil [] h = refl
end_of_text-nil (c ∷ cs) h = absurd (ground (arith, h))

-- What `exec` does behind the date, and behind the minutes.
abbrev read_seconds : ℕ → ℕ → ℕ → ℕ → ℕ → List ℕ → Option IsoParts
read_seconds year month day hour minute cs = do
  (second, cs) ← read_digits 2 0 cs
  (millisecond, cs) ← read_fraction cs
  cs ← expect b'Z' cs
  end ← end_of_text cs
  some (record {
    year = year;
    month = month;
    day = day;
    hour = hour;
    minute = minute;
    second = second;
    millisecond = millisecond;
  })

abbrev read_clock : ℕ → ℕ → ℕ → List ℕ → Option IsoParts
read_clock year month day cs = do
  (hour, cs) ← read_digits 2 0 cs
  cs ← expect b':' cs
  (minute, cs) ← read_digits 2 0 cs
  cs ← expect b':' cs
  read_seconds year month day hour minute cs

abbrev padded_seconds : ℕ → ℕ → ℕ → ℕ → ℕ → List ℕ → Option IsoParts
padded_seconds year month day hour minute cs = do
  (second, cs) ← numeral 2 b'.' cs
  (millisecond, cs) ← numeral 3 b'Z' cs
  end ← end_of_text cs
  some (record {
    year = year;
    month = month;
    day = day;
    hour = hour;
    minute = minute;
    second = second;
    millisecond = millisecond;
  })

abbrev padded_clock : ℕ → ℕ → ℕ → List ℕ → Option IsoParts
padded_clock year month day cs = do
  (hour, cs) ← numeral 2 b':' cs
  (minute, cs) ← numeral 2 b':' cs
  padded_seconds year month day hour minute cs

read_seconds-padded :
    (y m d h n : ℕ) (cs : List ℕ) (p : IsoParts)
    → read_seconds y m d h n cs ≡ some p
    → (padded_seconds y m d h n (padded cs) ≡ some p) × (length (base cs) ≡ 2)
read_seconds-padded y m d h n cs p k =
    let ((second, s6), d6, k) = >>=-eq-some (read_digits 2 0 cs) _ k in
    let ((ms, s7), f, k) = >>=-eq-some (read_fraction s6) _ k in
    let (r7, x7, k) = >>=-eq-some (expect b'Z' s7) _ k in
    let (u, e, k) = >>=-eq-some (end_of_text r7) _ k in
    let nothing = end_of_text-nil r7 e in
    let z : expect b'Z' s7 ≡ some [] = x7 ∙ ap (λ x. some x) nothing in
    let (n6, l6) = padded-seconds cs second s6 s7 ms d6 f z in
    (rw (n6, (padded-fraction s6 s7 ms f z).1) k, l6)

read_clock-padded :
    (y m d : ℕ) (cs : List ℕ) (p : IsoParts)
    → read_clock y m d cs ≡ some p
    → (padded_clock y m d (padded cs) ≡ some p) × (length (base cs) ≡ 8)
read_clock-padded y m d cs p k =
    let ((hour, s4), d4, k) = >>=-eq-some (read_digits 2 0 cs) _ k in
    let (r4, x4, k) = >>=-eq-some (expect b':' s4) _ k in
    let ((minute, s5), d5, k) = >>=-eq-some (read_digits 2 0 r4) _ k in
    let (r5, x5, k) = >>=-eq-some (expect b':' s5) _ k in
    let (n4, l4) = padded-numeral 2 b':' cs hour s4 r4 refl refl d4 x4 in
    let (n5, l5) = padded-numeral 2 b':' r4 minute s5 r5 refl refl d5 x5 in
    let (rest, l6) = read_seconds-padded y m d hour minute r5 p k in
    (rw (n4, n5) rest, omega (arith, l4, l5, l6))

-- The padded text of a timestamp has the timestamp's parts, and a base of nineteen characters.
pub padded-canonical_parts :
    (cs : List ℕ) (p : IsoParts)
    → exec cs ≡ some p
    → (canonical_parts (padded cs) ≡ some p) × (length (base cs) ≡ 19)
unfolding exec canonical_parts
padded-canonical_parts cs p k =
    let ((year, s1), d1, k) = >>=-eq-some (read_digits 4 0 cs) _ k in
    let (r1, x1, k) = >>=-eq-some (expect b'-' s1) _ k in
    let ((month, s2), d2, k) = >>=-eq-some (read_digits 2 0 r1) _ k in
    let (r2, x2, k) = >>=-eq-some (expect b'-' s2) _ k in
    let ((day, s3), d3, k) = >>=-eq-some (read_digits 2 0 r2) _ k in
    let (r3, x3, k) = >>=-eq-some (expect b'T' s3) _ k in
    let (n1, l1) = padded-numeral 4 b'-' cs year s1 r1 refl refl d1 x1 in
    let (n2, l2) = padded-numeral 2 b'-' r1 month s2 r2 refl refl d2 x2 in
    let (n3, l3) = padded-numeral 2 b'T' r2 day s3 r3 refl refl d3 x3 in
    let (rest, l4) = read_clock-padded year month day r3 p k in
    (rw (n1, n2, n3) rest, omega (arith, l1, l2, l3, l4))
