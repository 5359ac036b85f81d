-- ===== src/Persistence/Tests.antt =====
-- The approval repositories on concrete rows.
use atra_workunit_os.Prelude.{
  ℕ, ◌+◌, ◌==◌, keep, ◌≡◌, ◌⊎◌, refl, String, true, Option, none, some, List, [], ◌∷◌,
}
use atra_workunit_os.Prelude.Dict.{values}
use atra_workunit_os.Time.{is_iso_utc_timestamp, date_ge}
use atra_workunit_os.Time.Canonical.{is_canonical_instant}
use atra_workunit_os.Approval.{approved, rejected, ActionApprovalRecord}
use atra_workunit_os.Approval.Store.{use_record}
use atra_workunit_os.Persistence.Approvals.{
  ClaimFields, Rows, update_status, may_claim_row, mark_used, claim_for_runtime,
}
use atra_workunit_os.Persistence.D1.{d1_mark_used, d1_claim_for_runtime}
use atra_workunit_os.Persistence.D1.Refinement.{IsWellFormed, d1_claim_for_runtime-refines}
use atra_workunit_os.Persistence.D1.Runs.{Call, creating, finding, updating, claiming}
use atra_workunit_os.Persistence.D1.Expiry.{mark_used-at_expiry}
use atra_workunit_os.Persistence.Isolation.{SameReads}
use atra_workunit_os.Persistence.Isolation.Writes as Writes
use atra_workunit_os.Persistence.Isolation.Writes.{
  Write, write, write_all, AreForeign, Spares, write_all-SameReads,
}
use atra_workunit_os.Persistence.AuditLog.{
  AuditLogRow, append, list_recent, find_by_work_unit_id, append-list_recent,
}
use atra_workunit_os.Persistence.Usage.{
  UsageEventRow, summary_key, quantity_under, sum, record_event, record_all, no_usage,
  get_current_usage, record_all-balance, record_event-get_current_usage,
}
use atra_workunit_os.Persistence.Parents.{
  ActionPreviewRow, passed, parent_boundary_violation, create_approval, HasParents,
  create_approval_cases,
}

abbrev no_dates : String → Option ℕ
no_dates _ = none

abbrev row : ActionApprovalRecord
row = record {
  id = "a1";
  tenant_id = "t1";
  work_unit_id = "w1";
  action_preview_id = "p1";
  action_type = "slack_reply";
  target_hash = "th";
  payload_hash = "ph";
  status = approved;
  approved_by_user_id = some "u1";
  created_at = "2026-01-01T00:00:00.000Z";
  approved_at = some "2026-01-01T00:00:00.000Z";
  expires_at = "2026-01-01T01:00:00.000Z";
  used_at = none;
}

abbrev rows : Rows
rows = ("a1", row) ∷ []

abbrev second : ActionApprovalRecord
second = record row { id = "a2" }

abbrev fields : ClaimFields
fields = record {
  id = "a1";
  work_unit_id = "w1";
  action_preview_id = "p1";
  action_type = "slack_reply";
  target_hash = "th";
  payload_hash = "ph";
  claimed_at = "2026-01-01T00:30:00.000Z";
}

rows-IsWellFormed : IsWellFormed rows
unfolding is_canonical_instant
rows-IsWellFormed = record {
  indexed = (refl, refl, tt);
  sound = (record { canonical_expiry = refl; used_or_absent = refl }, tt);
}

claimed_at_canonical : is_canonical_instant "2026-01-01T00:30:00.000Z" ≡ true
unfolding is_canonical_instant
claimed_at_canonical = refl

d1_claim_for_runtime-refines_example : d1_claim_for_runtime "t1" fields (values rows) ≡ (
  (claim_for_runtime no_dates "t1" fields rows).0,
  values (claim_for_runtime no_dates "t1" fields rows).1,
)
d1_claim_for_runtime-refines_example =
    d1_claim_for_runtime-refines no_dates "t1" fields rows claimed_at_canonical rows-IsWellFormed

abbrev calls : List Call
calls =
    creating "t1" second
    ∷ claiming "t1" fields
    ∷ finding "t1" "a1"
    ∷ updating "t2" "a2" rejected
    ∷ []

expiry_canonical : is_canonical_instant "2026-01-01T01:00:00.000Z" ≡ true
unfolding is_canonical_instant
expiry_canonical = refl

mark_used-at_expiry_example :
    ((mark_used no_dates "t1" "a1" "2026-01-01T01:00:00.000Z" rows).0
      ≡ some (use_record row "2026-01-01T01:00:00.000Z"))
    × (d1_mark_used "t1" "a1" "2026-01-01T01:00:00.000Z" (values rows) ≡ (none, values rows))
mark_used-at_expiry_example =
    mark_used-at_expiry no_dates "a1" row rows rows-IsWellFormed refl refl refl expiry_canonical

abbrev others : List Write
others =
    Writes.updating "t2" "a1" rejected
    ∷ Writes.claiming "t2" fields
    ∷ Writes.creating "t2" second
    ∷ []

others-AreForeign : AreForeign no_dates "t1" others rows
unfolding AreForeign Spares write update_status claim_for_runtime may_claim_row is_iso_utc_timestamp
    date_ge
others-AreForeign = (refl, tt, (refl, tt, (refl, (λ r h. cc), tt)))

write_all-SameReads_example : SameReads "t1" (write_all no_dates others rows) rows
write_all-SameReads_example =
    write_all-SameReads no_dates "t1" others rows others-AreForeign (refl, refl, tt)

abbrev preview : ActionPreviewRow
preview = record {
  work_unit_id = "w1";
  action_type = "slack_reply";
  target_hash = "th";
  payload_hash = "ph";
}

abbrev find_unit : String → String → Option String
find_unit _ id = some id

abbrev find_one : String → String → Option ActionPreviewRow
find_one _ _ = some preview

abbrev add : ActionApprovalRecord → List ActionApprovalRecord → String × List ActionApprovalRecord
add r table = (r.id, r ∷ table)

create_approval_cases_example :
    (HasParents find_unit find_one "t1" row
      × (create_approval find_unit find_one add "t1" row [] ≡ (passed "a1", row ∷ [])))
    ⊎ ((¬ HasParents find_unit find_one "t1" row)
        × (create_approval find_unit find_one add "t1" row [] ≡ (parent_boundary_violation, [])))
create_approval_cases_example = create_approval_cases find_unit find_one add "t1" row []

abbrev event : AuditLogRow
event = record {
  id = "e1";
  tenant_id = "t1";
  event_kind = "runtime_authorization_eligible";
  actor_id = some "u1";
  request_id = some "r1";
  work_unit_id = some "w1";
  operation = none;
  target = none;
  reason = none;
  metadata = none;
  occurred_at = "2026-01-01T00:00:00.000Z";
}

abbrev log : List AuditLogRow
log = (append "t2" event (append "t1" event []).1).1

-- Tenant `t1` reads its own two events and not the one of `t2` between them.
append-list_recent_example :
    (list_recent "t1" 0 (append "t1" event log).1
      ≡ (append "t1" event log).0 ∷ list_recent "t1" 0 log)
    × (list_recent "t1" 1 (append "t1" event log).1 ≡ (append "t1" event log).0 ∷ [])
    × (list_recent "t1" 2 (append "t1" event log).1
        ≡ (append "t1" event log).0 ∷ list_recent "t1" 1 log)
    × (find_by_work_unit_id "t1" "w1" (append "t1" event log).1
        ≡ (append "t1" event log).0 ∷ find_by_work_unit_id "t1" "w1" log)
unfolding atra_workunit_os.Persistence.AuditLog.refers
append-list_recent_example = append-list_recent "t1" "t1" "w1" event log 0

abbrev use_of : String → ℕ → UsageEventRow
use_of id n = record {
  id = id;
  tenant_id = "t1";
  event_type = "feedback";
  quantity = n;
  resource_type = none;
  resource_id = none;
  metadata_json = none;
  created_at = "2026-01-01T00:00:00.000Z";
}

abbrev recorded : List (String × String × UsageEventRow)
recorded =
    ("t1", "2026-01-01T00:00:01.000Z", use_of "e1" 2)
    ∷ ("t2", "2026-01-01T00:00:02.000Z", use_of "e2" 5)
    ∷ ("t1", "2026-01-01T00:00:03.000Z", use_of "e3" 4)
    ∷ []

record_all-balance_example :
    quantity_under "t1:2026-01-01:feedback" (record_all recorded no_usage).summary
    ≡ sum (
        keep
          (λ row. summary_key row.tenant_id row == "t1:2026-01-01:feedback")
          (record_all recorded no_usage).events)
record_all-balance_example = record_all-balance recorded "t1:2026-01-01:feedback"

-- The two events of tenant `t1`, and not that of `t2`.
balance_six : quantity_under "t1:2026-01-01:feedback" (record_all recorded no_usage).summary ≡ 6
unfolding quantity_under record_event summary_key
balance_six = refl

record_event-get_current_usage_example :
    get_current_usage "t1" "t1" "feedback"
      (record_event "t1" "2026-01-01T00:00:04.000Z"
        (use_of "e4" 3)
        (record_all recorded no_usage)).1
    ≡ get_current_usage "t1" "t1" "feedback" (record_all recorded no_usage) + 3
record_event-get_current_usage_example =
    record_event-get_current_usage "t1" "2026-01-01T00:00:04.000Z" "t1" "t1" "feedback"
      (use_of "e4" 3) (record_all recorded no_usage)
