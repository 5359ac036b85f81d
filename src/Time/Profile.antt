-- ===== src/Time/Profile.antt =====
-- The comparison of timestamps as texts, without `Date` (compareCanonicalIsoUtc of
-- app/lib/phase6/canonicalIdentity/validation.ts).
pub mod Padding
pub mod Instants
use Prim.Native.Nat.{Ordering}
use atra_workunit_os.Prelude.{
  ℕ, zero, suc, String, Bool, true, false, List, [], ◌∷◌, eqb, if◌then◌else◌, ◌&&◌, codes,
}
use atra_workunit_os.Time.{lex_lt}

abbrev pub same_codes : List ℕ → List ℕ → Bool
same_codes [] [] = true
same_codes [] (d ∷ ds) = false
same_codes (c ∷ cs) [] = false
same_codes (c ∷ cs) (d ∷ ds) = eqb c d && same_codes cs ds

-- `text.replace(c, "")`, which takes the first such character away.
unfoldable pub without_first : ℕ → List ℕ → List ℕ
without_first c [] = []
without_first c (d ∷ cs) = if eqb d c then cs else d ∷ without_first c cs

-- `text.split(".")[0]`
unfoldable pub before_point : List ℕ → List ℕ
before_point [] = []
before_point (c ∷ cs) = if eqb c b'.' then [] else c ∷ before_point cs

-- `text.split(".")[1]`, and the empty text where there is none.
unfoldable pub after_point : List ℕ → List ℕ
unfolding before_point
after_point [] = []
after_point (c ∷ cs) = if eqb c b'.' then before_point cs else after_point cs

-- `text.padEnd(n, "0")`
unfoldable pub pad_end : ℕ → List ℕ → List ℕ
pad_end zero cs = cs
pad_end (suc n) [] = b'0' ∷ pad_end n []
pad_end (suc n) (c ∷ cs) = c ∷ pad_end n cs

unfoldable pub base : List ℕ → List ℕ
unfolding without_first before_point
base cs = before_point (without_first b'Z' cs)

unfoldable pub padded_fraction : List ℕ → List ℕ
unfolding without_first after_point pad_end
padded_fraction cs = pad_end 3 (after_point (without_first b'Z' cs))

-- -1, 0 or 1.
unfoldable pub order_of : List ℕ → List ℕ → Ordering
order_of a b =
    if same_codes a b then Ordering.eq else if lex_lt a b then Ordering.lt else Ordering.gt

-- `compareCanonicalIsoUtc`
unfoldable pub compare_canonical_iso_utc : String → String → Ordering
unfolding base padded_fraction order_of
compare_canonical_iso_utc a b =
    if same_codes (base (codes a)) (base (codes b))
    then order_of (padded_fraction (codes a)) (padded_fraction (codes b))
    else order_of (base (codes a)) (base (codes b))

-- `compareCanonicalIsoUtc(a, b) >= 0`
unfoldable pub is_not_before : String → String → Bool
unfolding compare_canonical_iso_utc lex_lt
is_not_before a b = elim (compare_canonical_iso_utc a b) [ Ordering.lt ↦ false | _ ↦ true ]
