-- ===== src/Persistence/AuditLog.antt =====
-- The in-memory audit log of app/lib/persistence/inMemoryRepositories.ts, with the row of
-- app/lib/persistence/types.ts.
use atra_workunit_os.Prelude.{
  ℕ, zero, suc, ◌-◌, ◌≤◌, ◌≡◌, refl, String, Bool, false, Option, none, some, List, [], ◌∷◌, ◌++◌,
  arith, ◌==◌, if◌then◌else◌, ◌&&◌, ◌||◌, inl, inr, Bool-cases, keep, length, length-append, ap,
  ◌∙◌,
}
use mathlib.Core.List.{reverse, reverse-append}

pub record AuditLogRow : Type 0 where
  pub id : String
  pub tenant_id : String
  pub event_kind : String
  pub actor_id : Option String
  pub request_id : Option String
  pub work_unit_id : Option String
  pub operation : Option String
  pub target : Option String
  pub reason : Option String
  pub metadata : Option String
  pub occurred_at : String

-- The row as it is stored: under the tenant of the context, whatever tenant the row names.
unfoldable pub stored : String → AuditLogRow → AuditLogRow
stored tenant row = record row { tenant_id = tenant }

-- The answer and the log, the oldest row first.
unfoldable pub append : String → AuditLogRow → List AuditLogRow → AuditLogRow × List AuditLogRow
append tenant row log = (stored tenant row, log ++ (stored tenant row ∷ []))

abbrev pub drop {ℓ} : {A : Type ℓ} → ℕ → List A → List A
drop zero xs = xs
drop (suc n) [] = []
drop (suc n) (x ∷ xs) = drop n xs

-- `slice(-limit)`: the last `limit` members, but all of them for 0, which is not a negative index.
abbrev pub slice_last {ℓ} : {A : Type ℓ} → ℕ → List A → List A
slice_last zero xs = xs
slice_last (suc n) xs = drop (length xs - suc n) xs

unfoldable pub list_recent : String → ℕ → List AuditLogRow → List AuditLogRow
list_recent tenant limit log =
    reverse (slice_last limit (keep (λ row. row.tenant_id == tenant) log))

abbrev pub names : String → Option String → Bool
names id none = false
names id (some x) = x == id

unfoldable pub refers : String → AuditLogRow → Bool
refers work_unit row = names work_unit row.request_id || names work_unit row.work_unit_id

unfoldable pub find_by_work_unit_id : String → String → List AuditLogRow → List AuditLogRow
find_by_work_unit_id tenant work_unit log =
    reverse (keep (λ row. (row.tenant_id == tenant) && refers work_unit row) log)

module _ {ℓ} {A : Type ℓ} where
  drop-append : (n : ℕ) (xs ys : List A) → n ≤ length xs → drop n (xs ++ ys) ≡ drop n xs ++ ys
  drop-append zero xs ys h = refl
  drop-append (suc n) [] ys h = absurd (omega (arith, h))
  drop-append (suc n) (x ∷ xs) ys h = drop-append n xs ys (omega (arith, h))

  drop-length : (xs : List A) → drop (length xs) xs ≡ []
  drop-length [] = refl
  drop-length (x ∷ xs) = drop-length xs

  slice_last_one : (xs : List A) (x : A) → slice_last 1 (xs ++ (x ∷ [])) ≡ x ∷ []
  slice_last_one xs x =
      let same : length (xs ++ (x ∷ [])) - 1 ≡ length xs =
        omega (arith, length-append xs (x ∷ [])) in
      ap (λ k. drop k (xs ++ (x ∷ []))) same
      ∙ drop-append (length xs) xs (x ∷ []) (omega arith)
      ∙ ap (λ t. t ++ (x ∷ [])) (drop-length xs)

  slice_last-append :
      (n : ℕ) (xs : List A) (x : A)
      → slice_last (suc (suc n)) (xs ++ (x ∷ [])) ≡ slice_last (suc n) xs ++ (x ∷ [])
  slice_last-append n xs x =
      let same : length (xs ++ (x ∷ [])) - suc (suc n) ≡ length xs - suc n =
        omega (arith, length-append xs (x ∷ [])) in
      ap (λ k. drop k (xs ++ (x ∷ []))) same
      ∙ drop-append (length xs - suc n) xs (x ∷ []) (omega arith)

  keep-append :
      (test : A → Bool) (xs : List A) (x : A)
      → keep test (xs ++ (x ∷ [])) ≡ (if test x then keep test xs ++ (x ∷ []) else keep test xs)
  keep-append test [] x = elim (Bool-cases (test x)) [ inl a ↦ rw (a) refl | inr a ↦ rw (a) refl ]
  keep-append test (y ∷ ys) x =
      let rest = keep-append test ys x in
      elim (Bool-cases (test x)) [
        | inl a ↦ elim (Bool-cases (test y)) [
          | inl b ↦ rw (b, rest, a) refl
          | inr b ↦ rw (b, rest, a) refl
        ]
        | inr a ↦ elim (Bool-cases (test y)) [
          | inl b ↦ rw (b, rest, a) refl
          | inr b ↦ rw (b, rest, a) refl
        ]
      ]

  reverse-keep :
      (test : A → Bool) (xs : List A) (x : A)
      → reverse (keep test (xs ++ (x ∷ [])))
        ≡ (if test x then x ∷ reverse (keep test xs) else reverse (keep test xs))
  reverse-keep test xs x = elim (Bool-cases (test x)) [
    | inl a ↦ rw (keep-append test xs x, a) (reverse-append (keep test xs) (x ∷ []))
    | inr a ↦ rw (keep-append test xs x, a) refl
  ]

  reverse-slice_last_one :
      (test : A → Bool) (xs : List A) (x : A)
      → reverse (slice_last 1 (keep test (xs ++ (x ∷ []))))
        ≡ (if test x then x ∷ [] else reverse (slice_last 1 (keep test xs)))
  reverse-slice_last_one test xs x = elim (Bool-cases (test x)) [
    | inl a ↦ rw (keep-append test xs x, a) (ap reverse (slice_last_one (keep test xs) x))
    | inr a ↦ rw (keep-append test xs x, a) refl
  ]

  reverse-slice_last :
      (test : A → Bool) (n : ℕ) (xs : List A) (x : A)
      → reverse (slice_last (suc (suc n)) (keep test (xs ++ (x ∷ [])))) ≡ (
          if test x
          then x ∷ reverse (slice_last (suc n) (keep test xs))
          else reverse (slice_last (suc (suc n)) (keep test xs)))
  reverse-slice_last test n xs x = elim (Bool-cases (test x)) [
    | inl a ↦
        rw (keep-append test xs x, a)
          (ap reverse (slice_last-append n (keep test xs) x)
            ∙ reverse-append (slice_last (suc n) (keep test xs)) (x ∷ []))
    | inr a ↦ rw (keep-append test xs x, a) refl
  ]

-- Whoever appends whatever row, a tenant other than the writer reads what it read before, whatever
-- limit it gives. The writer's tenant reads the stored row in front: before all that it read for a
-- limit of 0, which reads the whole log, alone for a limit of 1, and before what one row fewer gave
-- for a greater limit. A search by work unit finds the stored row first if it is the tenant's and
-- refers to the work unit, and what it found before in any case.
pub append-list_recent :
    (tenant writer work_unit : String) (row : AuditLogRow) (log : List AuditLogRow) (n : ℕ)
    → (list_recent tenant 0 (append writer row log).1 ≡ (
        if writer == tenant
        then (append writer row log).0 ∷ list_recent tenant 0 log
        else list_recent tenant 0 log))
      × (list_recent tenant 1 (append writer row log).1
          ≡ (if writer == tenant then (append writer row log).0 ∷ [] else list_recent tenant 1 log))
      × (list_recent tenant (suc (suc n)) (append writer row log).1 ≡ (
          if writer == tenant
          then (append writer row log).0 ∷ list_recent tenant (suc n) log
          else list_recent tenant (suc (suc n)) log))
      × (find_by_work_unit_id tenant work_unit (append writer row log).1 ≡ (
          if (writer == tenant) && refers work_unit row
          then (append writer row log).0 ∷ find_by_work_unit_id tenant work_unit log
          else find_by_work_unit_id tenant work_unit log))
unfolding append stored list_recent find_by_work_unit_id refers
append-list_recent tenant writer work_unit row log n = (
  reverse-keep (λ r. r.tenant_id == tenant) log (stored writer row),
  reverse-slice_last_one (λ r. r.tenant_id == tenant) log (stored writer row),
  reverse-slice_last (λ r. r.tenant_id == tenant) n log (stored writer row),
  reverse-keep (λ r. (r.tenant_id == tenant) && refers work_unit r) log (stored writer row),
)
