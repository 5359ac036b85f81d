-- ===== src/Persistence/Tables.antt =====
-- What the repositories do with a collection: the first member that passes a test, a stable sort,
-- and SQL's conditional update of a table.
use atra_workunit_os.Prelude.{
  ℕ, ◌+◌, ◌≡◌, refl, String, Bool, false, Option, none, some, List, [], ◌∷◌, inl, inr, arith, ◌==◌,
  eq_iff, if◌then◌else◌, ◌&&◌, Bool-cases, Option-cases, keep, All, sym, ap, ◌∙◌,
}
use atra_workunit_os.Prelude.Dict.{Dict, lookup, insert, values, lookup-insert}
use mathlib.Core.Path.{subst}
use mathlib.Core.Option.{some-injective}

module _ {ℓ} {A : Type ℓ} where
  -- The first member that passes.
  abbrev pub find_first : (A → Bool) → List A → Option A
  find_first test [] = none
  find_first test (x ∷ xs) = if test x then some x else find_first test xs

  abbrev pub insert_sorted : (A → A → Bool) → A → List A → List A
  insert_sorted before x [] = x ∷ []
  insert_sorted before x (y ∷ ys) = if before y x then y ∷ insert_sorted before x ys else x ∷ y ∷ ys

  -- A stable sort: `before x y` if the comparison of `x` to `y` is negative. A member goes in front
  -- of the later ones that compare equal.
  abbrev pub sort_by : (A → A → Bool) → List A → List A
  sort_by before [] = []
  sort_by before (x ∷ xs) = insert_sorted before x (sort_by before xs)

  -- `UPDATE … SET … WHERE …`: the table and the number of rows written.
  abbrev pub update_where : (A → Bool) → (A → A) → List A → ℕ × List A
  update_where test set [] = (0, [])
  update_where test set (row ∷ rows) =
      let (written, rest) = update_where test set rows in
      if test row then (1 + written, set row ∷ rest) else (written, row ∷ rest)

pub flip : (a b : String) → (a == b) ≡ false → (b == a) ≡ false
flip a b h = ground (arith, eq_iff a b, eq_iff b a)

-- A test in two parts is the first part on what passes the second.
module _ {ℓ} {A : Type ℓ} (p q : A → Bool) where
  pub find_first-keep : (xs : List A) → find_first (λ x. p x && q x) xs ≡ find_first p (keep q xs)
  find_first-keep [] = refl
  find_first-keep (x ∷ xs) =
      let rest = find_first-keep xs in
      elim (Bool-cases (p x)) [
        | inl a ↦ elim (Bool-cases (q x)) [ inl b ↦ rw (a, b, a) refl | inr b ↦ rw (a, b) rest ]
        | inr a ↦ elim (Bool-cases (q x)) [ inl b ↦ rw (a, b, a) rest | inr b ↦ rw (a, b) rest ]
      ]

  pub keep-keep : (xs : List A) → keep (λ x. p x && q x) xs ≡ keep p (keep q xs)
  keep-keep [] = refl
  keep-keep (x ∷ xs) =
      let rest = keep-keep xs in
      elim (Bool-cases (p x)) [
        | inl a ↦ elim (Bool-cases (q x)) [
          | inl b ↦ rw (a, b, a, rest) refl
          | inr b ↦ rw (a, b) rest
        ]
        | inr a ↦ elim (Bool-cases (q x)) [ inl b ↦ rw (a, b, a) rest | inr b ↦ rw (a, b) rest ]
      ]

module _ {ℓ κ} {V : Type ℓ} (P : V → Type κ) where
  pub All-insert :
      (id : String) (row : V) (rows : Dict V)
      → P row
      → All P (values rows)
      → All P (values (insert id row rows))
  All-insert id row [] p a = (p, tt)
  All-insert id row ((j, r) ∷ rows) p (q, a) = elim (Bool-cases (j == id)) [
    | inl same ↦ rw (same) (p, a)
    | inr other ↦ rw (other) (q, All-insert id row rows p a)
  ]

  pub All-lookup :
      (id : String) (rows : Dict V) {row : V}
      → All P (values rows)
      → lookup id rows ≡ some row
      → P row
  All-lookup id [] a e = absurd (ground (arith, e))
  All-lookup id ((j, r) ∷ rows) {row} (q, a) e = elim (Bool-cases (j == id)) [
    | inl same ↦ let now : some r ≡ some row = rw (same) at e in subst P (some-injective _ _ now) q
    | inr other ↦
        let rest : lookup id rows ≡ some row = rw (other) at e in All-lookup id rows a rest
  ]

module _ {ℓ} {V : Type ℓ} (key : V → String) where
  -- A map whose keys are those of its records, each once.
  abbrev pub Indexed : Dict V → Type ℓ
  Indexed [] = Unit
  Indexed ((k, v) ∷ m) = (key v ≡ k) × (lookup k m ≡ none) × Indexed m

  pub Indexed-insert :
      (k : String) (v : V) (m : Dict V) → key v ≡ k → Indexed m → Indexed (insert k v m)
  Indexed-insert k v [] e w = (e, refl, tt)
  Indexed-insert k v ((j, u) ∷ m) e (f, g, w) = elim (Bool-cases (j == k)) [
    | inl same ↦ rw (same) (e ∙ sym ((eq_iff j k).0 same), g, w)
    | inr other ↦
        rw (other) (f, rw (lookup-insert k j v m, flip j k other) g, Indexed-insert k v m e w)
  ]

  pub Indexed-key : (k : String) (m : Dict V) {v : V} → Indexed m → lookup k m ≡ some v → key v ≡ k
  Indexed-key k [] w h = cc
  Indexed-key k ((j, u) ∷ m) {v} (f, g, w) h = elim (Bool-cases (j == k)) [
    | inl same ↦
        let now : some u ≡ some v = rw (same) at h in
        ap key (sym (some-injective _ _ now)) ∙ f ∙ (eq_iff j k).0 same
    | inr other ↦ let rest : lookup k m ≡ some v = rw (other) at h in Indexed-key k m w rest
  ]

  module _ (k : String) (holds test : V → Bool) where
    -- A test on a table that names the key.
    abbrev pub NamesKey : List V → Type 0
    NamesKey rows = All (λ v. test v ≡ ((key v == k) && holds v)) rows

    update_where-absent :
        (set : V → V) (m : Dict V)
        → Indexed m
        → NamesKey (values m)
        → lookup k m ≡ none
        → update_where test set (values m) ≡ (0, values m)
    update_where-absent set [] w t h = refl
    update_where-absent set ((j, v) ∷ m) (f, g, w) (e, t) h = elim (Bool-cases (j == k)) [
      | inl same ↦ absurd (ground (arith, same))
      | inr other ↦
          let rest : lookup k m ≡ none = rw (other) at h in
          rw (update_where-absent set m w t rest, e, f, other) refl
    ]

    -- An update whose test names the key is an update of the map.
    pub update_where-values :
        (set : V → V) (m : Dict V)
        → Indexed m
        → NamesKey (values m)
        → update_where test set (values m) ≡ elim (lookup k m) [
          | none ↦ (0, values m)
          | some v ↦ if holds v then (1, values (insert k (set v) m)) else (0, values m)
        ]
    update_where-values set [] w t = refl
    update_where-values set ((j, v) ∷ m) (f, g, w) (e, t) = elim (Bool-cases (j == k)) [
      | inl same ↦
          let gone = subst (λ i. lookup i m ≡ none) ((eq_iff j k).0 same) g in
          let rest = update_where-absent set m w t gone in
          elim (Bool-cases (holds v)) [
            | inl h ↦ rw (rest, e, f, same, h, same) refl
            | inr h ↦ rw (rest, e, f, same, h) refl
          ]
      | inr other ↦
          let rest = update_where-values set m w t in
          elim (Option-cases (lookup k m)) [
            | inl none_left ↦ rw (rest, e, f, other, none_left) refl
            | inr (u, found) ↦ elim (Bool-cases (holds u)) [
              | inl h ↦ rw (rest, e, f, other, found, h, other) refl
              | inr h ↦ rw (rest, e, f, other, found, h) refl
            ]
          ]
    ]

    -- The first row that passes is the one under the key, if it passes.
    pub find_first-values :
        (m : Dict V)
        → Indexed m
        → NamesKey (values m)
        → find_first test (values m)
          ≡ elim (lookup k m) [ none ↦ none | some v ↦ if holds v then some v else none ]
    find_first-values [] w t = refl
    find_first-values ((j, v) ∷ m) (f, g, w) (e, t) = elim (Bool-cases (j == k)) [
      | inl same ↦
          let gone = subst (λ i. lookup i m ≡ none) ((eq_iff j k).0 same) g in
          let rest : find_first test (values m) ≡ none = rw (gone) at (find_first-values m w t) in
          elim (Bool-cases (holds v)) [
            | inl h ↦ rw (rest, e, f, same, h) refl
            | inr h ↦ rw (rest, e, f, same, h) refl
          ]
      | inr other ↦ rw (find_first-values m w t, e, f, other) refl
    ]
