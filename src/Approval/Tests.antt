-- ===== src/Approval/Tests.antt =====
-- Approvals on concrete records.
use atra_workunit_os.Prelude.{
  ℕ, ◌≤◌, ◌≡◌, ◌↔◌, refl, String, true, false, Option, none, some, List, [], ◌∷◌, truthy,
}
use atra_workunit_os.Time.{date_ge, is_iso_utc_timestamp}
use atra_workunit_os.Approval.Record.{approved, ActionApprovalRecord, Binding}
use atra_workunit_os.Approval.Verify.{
  LookupInput, verified, denied, approval_used, verify_approval, IsApproved, verify_approval_iff,
}
use atra_workunit_os.Approval.Store.{
  Store, ClaimInput, find_approval_by_id, may_mark, mark_approval_used, may_claim,
  claim_approval_for_runtime,
}
use atra_workunit_os.Approval.Once.{Use, mark, claim, uses_left, use_once, wins, wins-once}
use atra_workunit_os.Approval.Agreement.{verify_in, claim_approval_for_runtime-verify}

abbrev no_dates : String → Option ℕ
no_dates _ = none

abbrev row : ActionApprovalRecord
row = record {
  id = "a1";
  tenant_id = "t1";
  work_unit_id = "w1";
  action_preview_id = "p1";
  action_type = "slack_reply";
  target_hash = "th";
  payload_hash = "ph";
  status = approved;
  approved_by_user_id = some "u1";
  created_at = "2026-01-01T00:00:00.000Z";
  approved_at = some "2026-01-01T00:00:00.000Z";
  expires_at = "2026-01-01T01:00:00.000Z";
  used_at = none;
}

abbrev binding : Binding
binding = record {
  tenant_id = "t1";
  work_unit_id = "w1";
  action_preview_id = "p1";
  approval_id = "a1";
  action_type = "slack_reply";
  target_hash = "th";
  payload_hash = "ph";
}

abbrev records : Store
records = ("a1", row) ∷ []

abbrev input : ClaimInput
input = record { binding = binding; claimed_at = "2026-01-01T00:30:00.000Z" }

abbrev calls : List Use
calls = claim input ∷ mark "a1" "2026-01-01T00:31:00.000Z" ∷ claim input ∷ []

wins_run : wins no_dates "a1" calls records ≡ 1
unfolding wins use_once claim_approval_for_runtime may_claim mark_approval_used may_mark
    is_iso_utc_timestamp date_ge
wins_run = refl

wins-once_example :
    (wins no_dates "a1" calls records ≤ 1)
    × (uses_left "a1" records ≡ 0 → wins no_dates "a1" calls records ≡ 0)
wins-once_example = wins-once no_dates "a1" calls records

lookup_approved :
    (row' : ActionApprovalRecord) × (find_approval_by_id "a1" records ≡ some row')
    × (truthy row'.used_at ≡ false)
    × (verify_in no_dates records binding "2026-01-01T00:30:00.000Z" ≡ verified row'.id)
unfolding find_approval_by_id verify_in verify_approval date_ge
lookup_approved = (row, refl, refl, refl)

claim_approval_for_runtime-verify_example :
    (((claim_approval_for_runtime no_dates input records).0 ≡ true) ↔ (
      (is_iso_utc_timestamp input.claimed_at ≡ true)
      × ((row' : ActionApprovalRecord) × (find_approval_by_id "a1" records ≡ some row')
          × (truthy row'.used_at ≡ false)
          × (verify_in no_dates records binding "2026-01-01T00:30:00.000Z" ≡ verified row'.id))))
    × ((claim_approval_for_runtime no_dates input records).0 ≡ true
        → (now : String)
        → verify_in no_dates (claim_approval_for_runtime no_dates input records).1 binding now
          ≡ denied approval_used)
    × ((claim_approval_for_runtime no_dates input records).0 ≡ false
        → (claim_approval_for_runtime no_dates input records).1 ≡ records)
claim_approval_for_runtime-verify_example = claim_approval_for_runtime-verify no_dates input records

abbrev lookup_input : LookupInput
lookup_input = record { binding = binding; now = "2026-01-01T00:30:00.000Z" }

verify_approval_iff_example :
    (verify_approval no_dates (λ i. find_approval_by_id i records) lookup_input ≡ verified "a1") ↔ (
      (row' : ActionApprovalRecord) × (find_approval_by_id "a1" records ≡ some row')
      × IsApproved no_dates row' lookup_input
      × ("a1" ≡ row'.id))
verify_approval_iff_example =
    verify_approval_iff no_dates (λ i. find_approval_by_id i records) lookup_input "a1"
