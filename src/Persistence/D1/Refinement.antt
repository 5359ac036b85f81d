-- ===== src/Persistence/D1/Refinement.antt =====
-- The statements of app/lib/persistence/d1/approvalRecordRepository.ts against the in-memory
-- repository of app/lib/persistence/inMemoryRepositories.ts.
use atra_workunit_os.Prelude.{
  ℕ, ◌≡◌, refl, ◌∙◌, String, Bool, true, Option, none, some, List, [], ◌∷◌, arith, ◌==◌, eq_iff,
  truthy, if◌then◌else◌, ◌&&◌, not, All, ltb, inl, inr, Option-cases, Bool-cases,
}
use atra_workunit_os.Prelude.Dict.{lookup, insert, values, lookup-insert}
use atra_workunit_os.Time.{date_ge, text_lt}
use atra_workunit_os.Time.Canonical.{is_canonical_instant}
use atra_workunit_os.Time.Compare.{date_ge-text_lt, is_canonical_instant-is_iso}
use atra_workunit_os.Approval.{ActionApprovalRecord}
use atra_workunit_os.Approval.Store.{use_record}
use atra_workunit_os.Persistence.Tables.{
  update_where, Indexed, Indexed-insert, Indexed-key, NamesKey, update_where-values,
  find_first-values,
}
use atra_workunit_os.Persistence.Approvals.{
  ClaimFields, Rows, may_claim_row, may_claim_row-tenant, claim_for_runtime,
}
use atra_workunit_os.Persistence.D1.{
  Table, is_null, owned_where, d1_find_by_id, claim_where, d1_claim_for_runtime,
}

-- A row whose expiry is canonical, and whose time of use is absent or a text that is not empty.
pub record IsSound (row : ActionApprovalRecord) : Type 0 where
  pub canonical_expiry : is_canonical_instant row.expires_at ≡ true
  pub used_or_absent : is_null row.used_at ≡ not (truthy row.used_at)

abbrev pub row_id : ActionApprovalRecord → String
row_id row = row.id

-- A collection that both repositories can hold.
pub record IsWellFormed (rows : Rows) : Type 0 where
  pub indexed : Indexed row_id rows
  pub sound : All IsSound (values rows)

pub owned_where-eq :
    (tenant id : String) (rows : List ActionApprovalRecord)
    → NamesKey row_id id (λ row. row.tenant_id == tenant) (owned_where tenant id) rows
owned_where-eq tenant id [] = tt
owned_where-eq tenant id (row ∷ rows) = (ground arith, owned_where-eq tenant id rows)

pub d1_find_by_id-insert :
    (tenant id : String) (row : ActionApprovalRecord) (rows : Rows)
    → Indexed row_id rows
    → row.id ≡ id
    → row.tenant_id ≡ tenant
    → d1_find_by_id tenant id (values (insert id row rows)) ≡ some row
unfolding d1_find_by_id
d1_find_by_id-insert tenant id row rows w e t =
    let same = (eq_iff id id).1 refl in
    let mine = (eq_iff row.tenant_id tenant).1 t in
    find_first-values row_id id (λ r. r.tenant_id == tenant) (owned_where tenant id)
      (insert id row rows) (Indexed-insert row_id id row rows e w)
      (owned_where-eq tenant id (values (insert id row rows)))
    ∙ rw (lookup-insert id id row rows, same, mine) refl

-- A conditional update that reports whether it wrote, on the rows of a map.
module _ (tenant id : String) (holds test : ActionApprovalRecord → Bool)
    (set : ActionApprovalRecord → ActionApprovalRecord) where
  abbrev compare_and_set : Table → Option ActionApprovalRecord × Table
  compare_and_set table =
      let (written, after) = update_where test set table in
      if ltb written 1 then (none, after) else (d1_find_by_id tenant id after, after)

  compare_and_set-values :
      (rows : Rows)
      → Indexed row_id rows
      → NamesKey row_id id holds test (values rows)
      → ((row : ActionApprovalRecord) → (set row).id ≡ row.id)
      → ((row : ActionApprovalRecord) → holds row ≡ true → (set row).tenant_id ≡ tenant)
      → compare_and_set (values rows) ≡ elim (lookup id rows) [
        | none ↦ (none, values rows)
        | some row ↦
            if holds row
            then (some (set row), values (insert id (set row) rows))
            else (none, values rows)
      ]
  compare_and_set-values rows w t keeps mine =
      let step = update_where-values row_id id holds test set rows w t in
      elim (Option-cases (lookup id rows)) [
        | inl e ↦ let done = rw (e) at step in rw (done, e) refl
        | inr (row, e) ↦ elim (Bool-cases (holds row)) [
          | inr h ↦ let done = rw (e, h) at step in rw (done, e, h) refl
          | inl h ↦
              let done = rw (e, h) at step in
              let key = Indexed-key row_id id rows w e in
              rw
                (
                  done,
                  d1_find_by_id-insert tenant id (set row) rows w (keeps row ∙ key) (mine row h),
                  e,
                  h,
                )
                refl
        ]
      ]

module _ (fallback : String → Option ℕ) where
  claim_where-row :
      (tenant : String) (input : ClaimFields) (row : ActionApprovalRecord) (unexpired : Bool)
      → date_ge fallback input.claimed_at row.expires_at ≡ not unexpired
      → text_lt input.claimed_at row.expires_at ≡ unexpired
      → is_null row.used_at ≡ not (truthy row.used_at)
      → claim_where tenant input row
        ≡ ((row.id == input.id) && may_claim_row fallback tenant input row)
  unfolding claim_where may_claim_row
  claim_where-row tenant input row unexpired h k n =
      rw (claim_where, may_claim_row, h, k, n) (ground arith)

  claim_where-eq :
      (tenant : String) (input : ClaimFields) (rows : List ActionApprovalRecord)
      → is_canonical_instant input.claimed_at ≡ true
      → All IsSound rows
      → NamesKey row_id input.id
          (may_claim_row fallback tenant input)
          (claim_where tenant input)
          rows
  claim_where-eq tenant input [] c s = tt
  claim_where-eq tenant input (row ∷ rows) c (r, s) = (
    claim_where-row tenant input row (text_lt input.claimed_at row.expires_at)
        (date_ge-text_lt fallback input.claimed_at row.expires_at c r.canonical_expiry).0 refl
        r.used_or_absent,
    claim_where-eq tenant input rows c s,
  )

  -- At a canonical time, and on rows with canonical expiries whose keys are their own, the exact
  -- binding claim in SQL returns what the in-memory claim returns and leaves the same rows.
  pub d1_claim_for_runtime-refines :
      (tenant : String) (input : ClaimFields) (rows : Rows)
      → is_canonical_instant input.claimed_at ≡ true
      → IsWellFormed rows
      → d1_claim_for_runtime tenant input (values rows) ≡ (
        (claim_for_runtime fallback tenant input rows).0,
        values (claim_for_runtime fallback tenant input rows).1,
      )
  unfolding d1_claim_for_runtime claim_for_runtime
  d1_claim_for_runtime-refines tenant input rows c w =
      let timely = is_canonical_instant-is_iso input.claimed_at c in
      let step =
        compare_and_set-values tenant input.id (may_claim_row fallback tenant input)
          (claim_where tenant input) (λ row. use_record row input.claimed_at) rows w.indexed
          (claim_where-eq tenant input (values rows) c w.sound) (λ _. refl)
          (λ row h. may_claim_row-tenant fallback tenant input row h) in
      elim (Option-cases (lookup input.id rows)) [
        | inl e ↦ rw (d1_claim_for_runtime, claim_for_runtime, timely, e) (rw (e) at step)
        | inr (row, e) ↦ elim (Bool-cases (may_claim_row fallback tenant input row)) [
          | inl h ↦ rw (d1_claim_for_runtime, claim_for_runtime, timely, e, h) (rw (e, h) at step)
          | inr h ↦ rw (d1_claim_for_runtime, claim_for_runtime, timely, e, h) (rw (e, h) at step)
        ]
      ]
