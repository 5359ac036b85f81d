-- ===== src/Persistence/D1.antt =====
-- The approval repository over SQL (app/lib/persistence/d1/approvalRecordRepository.ts): its
-- statements on a table of rows.
pub mod Refinement
pub mod Steps
pub mod Runs
pub mod Expiry
use atra_workunit_os.Prelude.{
  ℕ, ◌≡◌, refl, ◌≢◌, String, Bool, true, false, Option, none, some, List, [], ◌∷◌, ◌++◌, arith,
  ◌==◌, eq_iff, truthy, if◌then◌else◌, ◌&&◌, unless, not, keep, All, ltb, inl, inr, Option-cases,
  Bool-cases,
}
use atra_workunit_os.Prelude.Dict.{Dict, lookup, insert, values, lookup-insert}
use atra_workunit_os.Time.{date_ge, date_gt, is_iso_utc_timestamp, text_lt}
use atra_workunit_os.Time.Canonical.{is_canonical_instant}
use atra_workunit_os.Time.Compare.{date_ge-text_lt, is_canonical_instant-is_iso}
use atra_workunit_os.Approval.{ApprovalStatus, approved, used, is_status, ActionApprovalRecord}
use atra_workunit_os.Approval.Store.{use_record}
use atra_workunit_os.Persistence.Tables.{
  find_first, sort_by, update_where, Indexed, Indexed-insert, Indexed-key, NamesKey,
  update_where-values, find_first-values,
}
use atra_workunit_os.Persistence.Approvals.{
  ClaimFields, Rows, own, with_status, find_by_id, update_status, may_mark_used, mark_used,
  may_claim_row, claim_for_runtime,
}

abbrev pub Table : Type 0
Table = List ActionApprovalRecord

abbrev is_null : Option String → Bool
is_null none = true
is_null (some _) = false

-- `WHERE tenant_id = ? AND id = ?`
abbrev pub owned_where : String → String → ActionApprovalRecord → Bool
owned_where tenant id row = (row.tenant_id == tenant) && (row.id == id)

-- `INSERT_SQL` under its guard: a taken primary key is a conflict, whoever holds it.
unfoldable pub d1_create :
    String → ActionApprovalRecord → Table → Option ActionApprovalRecord × Table
d1_create tenant row table = elim (find_first (λ old. old.id == row.id) table) [
  | some _ ↦ (none, table)
  | none ↦ (some (own tenant row), table ++ (own tenant row ∷ []))
]

-- `FIND_BY_ID_SQL`
unfoldable pub d1_find_by_id : String → String → Table → Option ActionApprovalRecord
d1_find_by_id tenant id table = find_first (owned_where tenant id) table

-- `UPDATE_STATUS_SQL`
unfoldable pub d1_update_status :
    String → String → ApprovalStatus → Table → Option ActionApprovalRecord × Table
d1_update_status tenant id s table =
    let after = (update_where (owned_where tenant id) (with_status s) table).1 in
    (d1_find_by_id tenant id after, after)

-- The condition of `MARK_USED_SQL`; `expires_at > ?` compares texts.
unfoldable pub mark_used_where : String → String → String → ActionApprovalRecord → Bool
mark_used_where tenant id used_at row =
    (row.tenant_id == tenant)
    && (row.id == id)
    && is_status row.status approved
    && is_null row.used_at
    && text_lt used_at row.expires_at

unfoldable pub d1_mark_used : String → String → String → Table → Option ActionApprovalRecord × Table
d1_mark_used tenant id used_at table =
    let (written, after) =
      update_where (mark_used_where tenant id used_at) (λ row. use_record row used_at) table in
    if ltb written 1 then (none, after) else (d1_find_by_id tenant id after, after)

-- The condition of `CLAIM_FOR_RUNTIME_SQL`.
unfoldable pub claim_where : String → ClaimFields → ActionApprovalRecord → Bool
claim_where tenant input row =
    (row.tenant_id == tenant)
    && (row.id == input.id)
    && (row.work_unit_id == input.work_unit_id)
    && (row.action_preview_id == input.action_preview_id)
    && (row.action_type == input.action_type)
    && (row.target_hash == input.target_hash)
    && (row.payload_hash == input.payload_hash)
    && is_status row.status approved
    && is_null row.used_at
    && text_lt input.claimed_at row.expires_at

unfoldable pub d1_claim_for_runtime :
    String → ClaimFields → Table → Option ActionApprovalRecord × Table
d1_claim_for_runtime tenant input table =
    unless (is_iso_utc_timestamp input.claimed_at) (none, table)
      (let (written, after) =
          update_where (claim_where tenant input) (λ row. use_record row input.claimed_at) table in
        if ltb written 1 then (none, after) else (d1_find_by_id tenant input.id after, after))
