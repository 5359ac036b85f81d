-- ===== src/Prelude/Dict/Maps.antt =====
-- Maps with filtered entries: properties of all entries, sizes, and lookups under distinct keys.
use Prim.Native.Nat.{suc, ◌≤◌}
use Prim.Native.String.{String}
use mathlib.Core.Path.{◌≡◌, refl, subst, sym, ap, ◌∙◌}
use mathlib.Core.Logic.{inl, inr}
use mathlib.Core.Bool.{Bool}
use mathlib.Core.Option.{Option, none, some}
use mathlib.Core.List.{List, [], ◌∷◌}
use native.Mathlib.Omega.{arith}
use atra_workunit_os.Prelude.Tests.{if◌then◌else◌, Bool-cases}
use atra_workunit_os.Prelude.Text.{◌==◌, eq_iff}
use atra_workunit_os.Prelude.Lists.{length, keep, All}
use atra_workunit_os.Prelude.Dict.{Dict, lookup, insert, lookup-insert}

module _ {ℓ} {A : Type ℓ} where
  pub length-keep : (test : A → Bool) (xs : List A) → length (keep test xs) ≤ length xs
  length-keep test [] = omega arith
  length-keep test (x ∷ xs) =
      let rest = length-keep test xs in
      elim (Bool-cases (test x)) [
        | inl e ↦ rw (e) (omega (arith, rest))
        | inr e ↦ rw (e) (omega (arith, rest))
      ]

  pub keep-All {κ} :
      (P : A → Type κ) (test : A → Bool) (xs : List A) → All P xs → All P (keep test xs)
  keep-All P test [] h = h
  keep-All P test (x ∷ xs) (h, hs) =
      let rest = keep-All P test xs hs in
      elim (Bool-cases (test x)) [ inl e ↦ rw (e) (h, rest) | inr e ↦ rw (e) rest ]

module _ {ℓ} {V : Type ℓ} where
  pub length-insert : (k : String) (v : V) (m : Dict V) → length (insert k v m) ≤ suc (length m)
  length-insert k v [] = omega arith
  length-insert k v ((j, w) ∷ m) =
      let rest = length-insert k v m in
      elim (Bool-cases (j == k)) [
        | inl e ↦ rw (e) (omega arith)
        | inr e ↦ rw (e) (omega (arith, rest))
      ]

  pub insert-All {κ} :
      (P : String × V → Type κ) (k : String) (v : V) (m : Dict V)
      → P (k, v)
      → All P m
      → All P (insert k v m)
  insert-All P k v [] p h = (p, h)
  insert-All P k v ((j, w) ∷ m) p (h, hs) =
      let rest = insert-All P k v m p hs in
      elim (Bool-cases (j == k)) [
        | inl e ↦ rw (e) (subst (λ i. P (i, v)) (sym ((eq_iff j k).0 e)) p, hs)
        | inr e ↦ rw (e) (h, rest)
      ]

  pub lookup-All {κ} :
      (P : String × V → Type κ) (k : String) {v : V} (m : Dict V)
      → All P m
      → lookup k m ≡ some v
      → P (k, v)
  lookup-All P k [] h found = absurd (ground (arith, found))
  lookup-All P k {v} ((j, w) ∷ m) (h, hs) found = elim (Bool-cases (j == k)) [
    | inl e ↦
        let same : w ≡ v = ground (arith, found, e) in
        subst (λ x. P (k, x)) same (subst (λ i. P (i, w)) ((eq_iff j k).0 e) h)
    | inr e ↦ lookup-All P k m hs (ground (arith, found, e))
  ]

  -- No key twice.
  unfoldable pub IsMap : Dict V → Type ℓ
  IsMap [] = Unit
  IsMap ((j, w) ∷ m) = (lookup j m ≡ none) × IsMap m

  -- What a filter leaves under a key.
  abbrev pub kept : (String × V → Bool) → String → Option V → Option V
  kept test k none = none
  kept test k (some v) = if test (k, v) then some v else none

  keep-none :
      (test : String × V → Bool) (k : String) (m : Dict V)
      → lookup k m ≡ none
      → lookup k (keep test m) ≡ none
  keep-none test k [] h = h
  keep-none test k ((j, w) ∷ m) h = elim (Bool-cases (j == k)) [
    | inl e ↦ absurd (ground (arith, h, e))
    | inr e ↦
        let rest = keep-none test k m (ground (arith, h, e)) in
        elim (Bool-cases (test (j, w))) [ inl t ↦ rw (t, e) rest | inr t ↦ rw (t) rest ]
  ]

  pub keep-IsMap : (test : String × V → Bool) (m : Dict V) → IsMap m → IsMap (keep test m)
  unfolding IsMap
  keep-IsMap test [] h = h
  keep-IsMap test ((j, w) ∷ m) (h, hs) =
      let rest = keep-IsMap test m hs in
      let gone = keep-none test j m h in
      elim (Bool-cases (test (j, w))) [ inl t ↦ rw (t) (gone, rest) | inr t ↦ rw (t) rest ]

  pub insert-IsMap : (k : String) (v : V) (m : Dict V) → IsMap m → IsMap (insert k v m)
  unfolding IsMap
  insert-IsMap k v [] h = (refl, h)
  insert-IsMap k v ((j, w) ∷ m) (h, hs) =
      let rest = insert-IsMap k v m hs in
      let other = lookup-insert k j v m in
      elim (Bool-cases (j == k)) [
        | inl e ↦ rw (e) (h, hs)
        | inr e ↦ rw (e) (ground (arith, other, h, e, eq_iff j k, eq_iff k j), rest)
      ]

  pub lookup-keep :
      (test : String × V → Bool) (k : String) (m : Dict V)
      → IsMap m
      → lookup k (keep test m) ≡ kept test k (lookup k m)
  unfolding IsMap
  lookup-keep test k [] h = refl
  lookup-keep test k ((j, w) ∷ m) (h, hs) =
      let rest = lookup-keep test k m hs in
      elim (Bool-cases (j == k)) [
        | inl e ↦
            let same : j ≡ k = (eq_iff j k).0 e in
            let gone = keep-none test k m (ap (λ i. lookup i m) (sym same) ∙ h) in
            let tested : test (j, w) ≡ test (k, w) = ap (λ i. test (i, w)) same in
            elim (Bool-cases (test (k, w))) [
              | inl t ↦ rw (tested, t, e) (rw (t) refl)
              | inr t ↦ rw (tested, t, e, gone) (rw (t) refl)
            ]
        | inr e ↦ elim (Bool-cases (test (j, w))) [
          | inl t ↦ rw (t, e) rest
          | inr t ↦ rw (t, e) rest
        ]
      ]
