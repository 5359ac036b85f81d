-- ===== src/Persistence/Isolation.antt =====
-- Tenants and the in-memory approval repository (app/lib/persistence/inMemoryRepositories.ts): what
-- a tenant can see.
pub mod Writes
use atra_workunit_os.Prelude.{
  ℕ, ◌≡◌, refl, sym, ◌∙◌, ap, ◌≢◌, String, Bool, true, false, Option, none, some, List, [], ◌∷◌,
  arith, ◌==◌, eq_iff, if◌then◌else◌, ◌&&◌, ◌⊎◌, inl, inr, Option-cases, Bool-cases, keep,
}
use mathlib.Core.Path.{subst}
use mathlib.Core.Option.{some-injective}
use atra_workunit_os.Prelude.Dict.{Dict, lookup, insert, values}
use atra_workunit_os.Time.{is_iso_utc_timestamp}
use atra_workunit_os.Approval.{ApprovalStatus, used, ActionApprovalRecord}
use atra_workunit_os.Approval.Store.{use_record}
use atra_workunit_os.Persistence.Tables.{
  find_first, sort_by, find_first-keep, keep-keep, Indexed, Indexed-insert, Indexed-key, NamesKey,
  find_first-values,
}
use atra_workunit_os.Persistence.Approvals.{
  ClaimFields, Rows, own, with_status, create, find_by_id, find_by_preview_id, find_by_work_unit_id,
  update_status, may_mark_used, mark_used, may_claim_row, claim_for_runtime,
}

abbrev pub row_id : ActionApprovalRecord → String
row_id row = row.id

-- The rows of one tenant, in the order in which the map holds them.
unfoldable pub owned_rows : String → Rows → List ActionApprovalRecord
owned_rows tenant rows = keep (λ row. row.tenant_id == tenant) (values rows)

-- A write by one tenant over a row of its own, or under a free key, is invisible to another tenant.
pub owned_rows-insert :
    (tenant id : String) (new : ActionApprovalRecord) (rows : Rows)
    → (new.tenant_id == tenant) ≡ false
    → ((row : ActionApprovalRecord) → lookup id rows ≡ some row → (row.tenant_id == tenant) ≡ false)
    → owned_rows tenant (insert id new rows) ≡ owned_rows tenant rows
unfolding owned_rows
owned_rows-insert tenant id new [] n o = rw (n) refl
owned_rows-insert tenant id new ((j, r) ∷ rows) n o = elim (Bool-cases (j == id)) [
  | inl same ↦ rw (same, n, o r (rw (same) refl)) refl
  | inr other ↦
      rw (other, owned_rows-insert tenant id new rows n (λ row e. o row (rw (other) e))) refl
]

find_by_id-owned_rows :
    (tenant id : String) (rows : Rows)
    → Indexed row_id rows
    → find_by_id tenant id rows ≡ find_first (λ row. row.id == id) (owned_rows tenant rows)
unfolding find_by_id owned_rows
find_by_id-owned_rows tenant id rows w =
    sym (
      find_first-values row_id id (λ row. row.tenant_id == tenant)
        (λ row. (row.id == id) && (row.tenant_id == tenant)) rows w (names (values rows)))
    ∙ find_first-keep (λ row. row.id == id) (λ row. row.tenant_id == tenant) (values rows)
  where
    names :
        (rows : List ActionApprovalRecord)
        → NamesKey row_id id
            (λ row. row.tenant_id == tenant)
            (λ row. (row.id == id) && (row.tenant_id == tenant))
            rows
    names [] = tt
    names (row ∷ rows) = (refl, names rows)

-- What a tenant can read of the repository.
pub record SameReads (tenant : String) (a b : Rows) : Type 0 where
  pub by_id : (id : String) → find_by_id tenant id a ≡ find_by_id tenant id b
  pub by_preview :
      (preview : String) → find_by_preview_id tenant preview a ≡ find_by_preview_id tenant preview b
  pub by_work_unit :
      (before : String → String → Bool) (work_unit : String)
      → find_by_work_unit_id before tenant work_unit a
        ≡ find_by_work_unit_id before tenant work_unit b

pub owned_rows-SameReads :
    (tenant : String) (a b : Rows)
    → Indexed row_id a
    → Indexed row_id b
    → owned_rows tenant a ≡ owned_rows tenant b
    → SameReads tenant a b
unfolding owned_rows find_by_preview_id find_by_work_unit_id
owned_rows-SameReads tenant a b v w e = record {
  by_id = λ id.
      find_by_id-owned_rows tenant id a v
      ∙ ap (find_first (λ row. row.id == id)) e
      ∙ sym (find_by_id-owned_rows tenant id b w);
  by_preview = λ preview.
      find_first-keep (λ row. row.action_preview_id == preview) (mine tenant) (values a)
      ∙ ap (find_first (λ row. row.action_preview_id == preview)) e
      ∙ sym (find_first-keep (λ row. row.action_preview_id == preview) (mine tenant) (values b));
  by_work_unit = λ before work_unit. ap (sort_by (λ x y. before x.created_at y.created_at)) (
      keep-keep (λ row. row.work_unit_id == work_unit) (mine tenant) (values a)
      ∙ ap (keep (λ row. row.work_unit_id == work_unit)) e
      ∙ sym (keep-keep (λ row. row.work_unit_id == work_unit) (mine tenant) (values b)));
}
  where
    mine : String → ActionApprovalRecord → Bool
    mine t row = row.tenant_id == t
