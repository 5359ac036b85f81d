-- ===== src/Persistence/Approvals.antt =====
-- The in-memory approval repository (app/lib/persistence/inMemoryRepositories.ts). A context is
-- modelled by its tenant id, all that the repository reads of it.
use atra_workunit_os.Prelude.{
  ℕ, ◌≡◌, arith, eq_iff, String, Bool, true, false, Option, none, some, List, ◌==◌, truthy,
  if◌then◌else◌, ◌&&◌, unless, not, keep,
}
use atra_workunit_os.Prelude.Dict.{Dict, lookup, insert, values}
use atra_workunit_os.Time.{date_ge, date_gt, is_iso_utc_timestamp}
use atra_workunit_os.Approval.{ApprovalStatus, approved, is_status, ActionApprovalRecord}
use atra_workunit_os.Approval.Store.{use_record}
use atra_workunit_os.Persistence.Tables.{find_first, sort_by}

-- `RuntimeApprovalClaimFields`
pub record ClaimFields : Type 0 where
  pub id : String
  pub work_unit_id : String
  pub action_preview_id : String
  pub action_type : String
  pub target_hash : String
  pub payload_hash : String
  pub claimed_at : String

abbrev pub Rows : Type 0
Rows = Dict ActionApprovalRecord

-- `{ ...row, tenantId: ctx.tenantId }`
abbrev pub own : String → ActionApprovalRecord → ActionApprovalRecord
own tenant row = record row { tenant_id = tenant }

abbrev pub with_status : ApprovalStatus → ActionApprovalRecord → ActionApprovalRecord
with_status s row = record row { status = s }

unfoldable pub create : String → ActionApprovalRecord → Rows → ActionApprovalRecord × Rows
create tenant row rows = (own tenant row, insert row.id (own tenant row) rows)

unfoldable pub find_by_id : String → String → Rows → Option ActionApprovalRecord
find_by_id tenant id rows = elim (lookup id rows) [
  | none ↦ none
  | some row ↦ if row.tenant_id == tenant then some row else none
]

unfoldable pub find_by_preview_id : String → String → Rows → Option ActionApprovalRecord
find_by_preview_id tenant preview rows =
    find_first (λ row. (row.action_preview_id == preview) && (row.tenant_id == tenant))
      (values rows)

-- `before x y` is `y.createdAt.localeCompare(x.createdAt) < 0`, a matter of the locale.
unfoldable pub find_by_work_unit_id :
    (String → String → Bool) → String → String → Rows → List ActionApprovalRecord
find_by_work_unit_id before tenant work_unit rows =
    sort_by (λ x y. before x.created_at y.created_at)
      (keep (λ row. (row.work_unit_id == work_unit) && (row.tenant_id == tenant)) (values rows))

unfoldable pub update_status :
    String → String → ApprovalStatus → Rows → Option ActionApprovalRecord × Rows
update_status tenant id s rows = elim (lookup id rows) [
  | none ↦ (none, rows)
  | some row ↦
      unless (row.tenant_id == tenant) (none, rows)
        (some (with_status s row), insert id (with_status s row) rows)
]

unfoldable pub add_record : ActionApprovalRecord → Rows → Rows
add_record row rows = insert row.id row rows

unfoldable pub get_all_records : Rows → List ActionApprovalRecord
get_all_records rows = values rows

module _ (fallback : String → Option ℕ) where
  -- The tests of `markUsed` on a row that was found.
  unfoldable pub may_mark_used : String → String → ActionApprovalRecord → Bool
  may_mark_used tenant used_at row = unless (row.tenant_id == tenant) false (
      unless (is_status row.status approved) false (
        unless (not (truthy row.used_at)) false
          (unless (not (date_gt fallback used_at row.expires_at)) false true)))

  unfoldable pub mark_used : String → String → String → Rows → Option ActionApprovalRecord × Rows
  mark_used tenant id used_at rows = elim (lookup id rows) [
    | none ↦ (none, rows)
    | some row ↦
        if may_mark_used tenant used_at row
        then (some (use_record row used_at), insert id (use_record row used_at) rows)
        else (none, rows)
  ]

  -- The tests of `claimForRuntime` on a row that was found.
  unfoldable pub may_claim_row : String → ClaimFields → ActionApprovalRecord → Bool
  may_claim_row tenant input row = unless (row.tenant_id == tenant) false (
      unless (row.work_unit_id == input.work_unit_id) false (
        unless (row.action_preview_id == input.action_preview_id) false (
          unless (row.action_type == input.action_type) false (
            unless (row.target_hash == input.target_hash) false (
              unless (row.payload_hash == input.payload_hash) false (
                unless (is_status row.status approved) false (
                  unless (not (truthy row.used_at)) false (
                    unless (not (date_ge fallback input.claimed_at row.expires_at)) false
                      true))))))))

  unfoldable pub claim_for_runtime :
      String → ClaimFields → Rows → Option ActionApprovalRecord × Rows
  claim_for_runtime tenant input rows =
      unless (is_iso_utc_timestamp input.claimed_at) (none, rows)
        (elim (lookup input.id rows) [
          | none ↦ (none, rows)
          | some row ↦
              if may_claim_row tenant input row
              then (
                some (use_record row input.claimed_at),
                insert input.id (use_record row input.claimed_at) rows,
              )
              else (none, rows)
        ])

  pub may_claim_row-tenant :
      (tenant : String) (input : ClaimFields) (row : ActionApprovalRecord)
      → may_claim_row tenant input row ≡ true
      → row.tenant_id ≡ tenant
  unfolding may_claim_row
  may_claim_row-tenant tenant input row h = ground (arith, eq_iff row.tenant_id tenant)
