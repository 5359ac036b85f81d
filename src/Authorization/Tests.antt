-- ===== src/Authorization/Tests.antt =====
-- The gate on one concrete command.
use atra_workunit_os.Prelude.{
  ℕ, ◌≤◌, ◌≡◌, ◌⊎◌, ◌↔◌, refl, String, true, false, Option, none, some, List, [], ◌∷◌,
}
use atra_workunit_os.Js.{Value, null, bool, str, arr, nil, obj, Fields, field, end, includes}
use atra_workunit_os.Rbac.{owner, Session, has_permission, are_external_actions_enabled}
use atra_workunit_os.Time.{is_iso_utc_timestamp, date_ge}
use atra_workunit_os.Approval.{approved, ActionApprovalRecord}
use atra_workunit_os.Approval.Store.{Store, claim_approval_for_runtime, may_claim}
use atra_workunit_os.Approval.Once.{uses_left}
use atra_workunit_os.Authorization.{Evidence, done}
use atra_workunit_os.Authorization.Snapshot.{
  snapshot_record_or_null, snapshot_deep_frozen, property, only_keys, copy_fields,
}
use atra_workunit_os.Authorization.Decision.{
  copy_arrays, decision_issues, IsRuntimeReady, snapshot_human_decision,
  evaluate_human_decision_runtime_eligibility, evaluate_human_decision_runtime_eligibility_iff,
}
use atra_workunit_os.Authorization.Envelope.{
  equals_approver, iso_text, linkage_state_to_eligibility, read_intended_action, envelope_issues,
  executor_issues, deep_record,
}
use atra_workunit_os.Authorization.Eligibility.{
  Evaluators, read_input, check_linkage, read_executor, bounded_expiry, authorization_expiry,
  min_iso, ttl_ceiling, derive_authorization_id, derive_idempotency_key, evaluate_eligibility,
}
use atra_workunit_os.Authorization.Soundness.{IsEligible, evaluate_eligibility_sound}
use atra_workunit_os.Authorization.Audit.{Request}
use atra_workunit_os.Authorization.Bundle.{
  Envelope, Bundle, build_verification_context, stamp, eligibility_input, envelope_matches,
  claim_of,
}
use atra_workunit_os.Authorization.Receipt.{construct_receipt}
use atra_workunit_os.Authorization.Gate.{
  request_fields_valid, has_execute_permission, finalize, evaluate_resolved, recheck, authorized,
  Moments, Answer, authorize_runtime_command, claim_and_issue,
}
use atra_workunit_os.Authorization.Gate.Claims.{
  Cleared, Refusal, prior_events, authorize_runtime_command_outcome,
}
use atra_workunit_os.Authorization.Gate.Receipts.{Issued, authorize_runtime_command-receipt}
use atra_workunit_os.Time.Profile.{is_not_before}
use atra_workunit_os.Identity.Issues.{
  is_non_empty, is_iso, is_one_of, collect_unsupported_identity_marker_issues, unknown_issues,
}
use atra_workunit_os.Identity.Validation.{
  identity_issues, is_mispaired, validate_canonical_identity,
}
use atra_workunit_os.Identity.Constructors.{
  candidate, create_canonical_session_identity, produce_canonical_identity, session_input_issues,
  session_issues, collect_input_field_issues, expiry_issues, tenant_issues, is_past, differs,
}
use atra_workunit_os.Authorization.Gate.Executor.{
  role_name, snapshot_session, executor_input, executor_identity,
}
use atra_workunit_os.Authorization.Gate.Accountable.{
  IsAccountable, authorize_runtime_command-IsAccountable,
}
use atra_workunit_os.Authorization.Gate.Once.{Command, memory_store, receipts, receipts-once}
use atra_workunit_os.Authorization.Gate.DryRun.{
  is_verified, evaluate_dry_run, evaluate_dry_run-authorize,
}

abbrev no_dates : String → Option ℕ
no_dates _ = none

abbrev calls : Evaluators
calls = record {
  verify_approval_linkage = λ _ _. (true, "verified");
  validate_human_decision_record = λ _. some true;
  validate_canonical_identity = λ _. some true;
  hash_field = λ _. "h";
  to_iso_string = λ _. "2026-01-01T00:30:30.000Z";
  parse_other_date = no_dates;
}

abbrev identity : Value
identity = obj (
    field "actor_kind" (str "executor") (
      field "identity_source" (str "authenticated_session") (
        field "subject_type" (str "human_user")
          (field "tenant_id" (str "t1") (field "user_id" (str "u1") end)))))

abbrev identify : Session → String → String → Option Value
identify _ _ _ = some identity

abbrev session : Session
session = record {
  user_id = "u1";
  tenant_id = "t1";
  role = owner;
  email = "boss@example.com";
  is_dev_session = false;
  session_id = "s1";
  created_at = "2026-01-01T00:00:00.000Z";
  expires_at = "2026-01-02T00:00:00.000Z";
}

abbrev now : String
now = "2026-01-01T00:30:00.000Z"

abbrev moments : Moments
moments = record {
  requested_at = "2026-01-01T00:29:59.000Z";
  session_before = some session;
  actions_before = some "true";
  session_after = some session;
  claim_at = now;
  actions_after = some "true";
  caught_at = now;
}

abbrev request : Request
request = record {
  tenant_id = "t1";
  work_unit_id = "w1";
  action_preview_id = "p1";
  approval_id = "a1";
  action_type = "slack_reply";
}

abbrev envelope : Envelope
envelope = record {
  tenant_id = "t1";
  work_unit_id = "w1";
  action_preview_id = "p1";
  approval_id = "a1";
  action_type = "slack_reply";
  target_hash = "th";
  payload_hash = "ph";
}

abbrev linkage : Value
linkage = obj (
    field "tenant_id" (str "t1") (
      field "workunit_id" (str "w1") (
        field "action_preview_id" (str "p1") (
          field "approval_id" (str "a1") (
            field "action_type" (str "slack_reply") (
              field "target_hash" (str "th") (
                field "payload_hash" (str "ph") (
                  field "approver_id" (str "u2") (
                    field "approval_linkage_id" (str "l1") (
                      field "linkage_expires_at" (str "2026-01-01T01:00:00.000Z") (
                        field "preview_expires_at" (str "2026-01-01T01:00:00.000Z") (
                          field "approval_expires_at" (str "2026-01-01T01:00:00.000Z")
                            end))))))))))))

abbrev decision_fields : Fields
decision_fields = field "decision_status" (str "ready_for_future_gate_review") (
    field "decision_outcome" (str "pass") (
      field "decision_impact_scope" (str "action_readiness_assessment") (
        field "evidence_accepted" (bool true) (
          field "approval_required" (bool true) (
            field "execution_required" (bool true) (
              field "promotion_required" (bool false) (
                field "four_eyes_required" (bool true) (
                  field "self_approval_blocked" (bool true)
                    (field "no_go_flags" (arr nil) end)))))))))

abbrev bundle : Bundle
bundle = record {
  intended_action = some envelope;
  linkage = linkage;
  sources = record {
    tenant_id = str "t1";
    human_decision = obj decision_fields;
    review_evidence = null;
    identity_input = null;
    action_preview = null;
    approval_record = null;
    revoked_review_evidence_ids = arr nil;
    consumed_review_evidence_ids = arr nil;
    revoked_approval_ids = arr nil;
    consumed_approval_ids = arr nil;
    revoked_approval_linkage_ids = arr nil;
    consumed_approval_linkage_ids = arr nil;
  };
}

abbrev row : ActionApprovalRecord
row = record {
  id = "a1";
  tenant_id = "t1";
  work_unit_id = "w1";
  action_preview_id = "p1";
  action_type = "slack_reply";
  target_hash = "th";
  payload_hash = "ph";
  status = approved;
  approved_by_user_id = some "u2";
  created_at = "2026-01-01T00:00:00.000Z";
  approved_at = some "2026-01-01T00:00:00.000Z";
  expires_at = "2026-01-01T01:00:00.000Z";
  used_at = none;
}

abbrev records : Store
records = ("a1", row) ∷ []

abbrev evidence : Evidence
evidence = record {
  tenant_id = "t1";
  workunit_id = "w1";
  action_preview_id = "p1";
  approval_id = "a1";
  approval_linkage_id = str "l1";
  action_type = "slack_reply";
  target_hash = "th";
  payload_hash = "ph";
  executor_id = str "u1";
  idempotency_key = "h";
  authorization_id = "rauth_h";
  issued_at = now;
  expires_at = "2026-01-01T00:30:30.000Z";
}

abbrev input : Value
input = eligibility_input bundle envelope identity "2026-01-02T00:00:00.000Z" now

input_eligible : evaluate_eligibility calls input ≡ done evidence
unfolding evaluate_eligibility eligibility_input build_verification_context stamp read_input
    check_linkage read_executor bounded_expiry authorization_expiry min_iso ttl_ceiling
    derive_authorization_id derive_idempotency_key only_keys copy_fields snapshot_record_or_null
    snapshot_deep_frozen iso_text property is_iso_utc_timestamp read_intended_action deep_record
    evaluate_human_decision_runtime_eligibility snapshot_human_decision copy_arrays decision_issues
    envelope_issues executor_issues equals_approver linkage_state_to_eligibility includes date_ge
input_eligible = refl

given :
    (authorize_runtime_command calls identify
      (memory_store no_dates)
      moments
      request
      (some (some bundle))
      records).result
    ≡ authorized (construct_receipt calls.hash_field evidence)
unfolding authorize_runtime_command request_fields_valid has_execute_permission
    are_external_actions_enabled finalize evaluate_resolved envelope_matches recheck claim_and_issue
    memory_store claim_of claim_approval_for_runtime may_claim has_permission evaluate_eligibility
    eligibility_input build_verification_context stamp read_input check_linkage read_executor
    bounded_expiry authorization_expiry min_iso ttl_ceiling derive_authorization_id
    derive_idempotency_key only_keys copy_fields snapshot_record_or_null snapshot_deep_frozen
    iso_text property is_iso_utc_timestamp read_intended_action deep_record
    evaluate_human_decision_runtime_eligibility snapshot_human_decision copy_arrays decision_issues
    envelope_issues executor_issues equals_approver linkage_state_to_eligibility includes date_ge
given = refl

abbrev answer : Answer Store
answer =
    authorize_runtime_command calls identify (memory_store no_dates) moments request
      (some (some bundle)) records

authorize_runtime_command-receipt_example :
    Issued calls identify
      (memory_store no_dates)
      moments
      request
      (some (some bundle))
      records
      (construct_receipt calls.hash_field evidence)
      answer
authorize_runtime_command-receipt_example =
    authorize_runtime_command-receipt calls identify (memory_store no_dates) moments request
      (some (some bundle)) records (construct_receipt calls.hash_field evidence) given

authorize_runtime_command_outcome_example :
    ((c : Cleared calls identify moments request (some (some bundle))) × (answer
        ≡ claim_and_issue calls identify
            (memory_store no_dates)
            request
            (prior_events calls identify moments request c.evidence)
            c.evidence
            now
            records))
    ⊎ Refusal records answer
authorize_runtime_command_outcome_example =
    authorize_runtime_command_outcome calls identify moments request (memory_store no_dates) records
      (some (some bundle))

evaluate_eligibility_sound_example : IsEligible calls input evidence
evaluate_eligibility_sound_example = evaluate_eligibility_sound calls input evidence input_eligible

evaluate_human_decision_runtime_eligibility_iff_example :
    (evaluate_human_decision_runtime_eligibility calls.validate_human_decision_record
        (obj decision_fields)
      ≡ [])
    ↔ ((hd : Fields) × (snapshot_human_decision (obj decision_fields) ≡ some (some hd))
        × (calls.validate_human_decision_record hd ≡ some true)
        × IsRuntimeReady hd)
evaluate_human_decision_runtime_eligibility_iff_example =
    evaluate_human_decision_runtime_eligibility_iff calls.validate_human_decision_record
      (obj decision_fields)

abbrev command : Command
command = record { moments = moments; request = request; resolved = some (some bundle) }

abbrev commands : List Command
commands = command ∷ command ∷ []

receipts-once_example :
    (receipts calls identify no_dates "a1" commands records ≤ 1)
    × (uses_left "a1" records ≡ 0 → receipts calls identify no_dates "a1" commands records ≡ 0)
receipts-once_example = receipts-once calls identify no_dates "a1" commands records

evaluate_dry_run-authorize_example :
    (is_verified (evaluate_dry_run calls identify moments request (some (some bundle))) ≡ true
      → (c : Cleared calls identify moments request (some (some bundle))) × (answer
          ≡ claim_and_issue calls identify
              (memory_store no_dates)
              request
              (prior_events calls identify moments request c.evidence)
              c.evidence
              now
              records))
    × (is_verified (evaluate_dry_run calls identify moments request (some (some bundle))) ≡ false
        → Refusal records answer)
evaluate_dry_run-authorize_example =
    evaluate_dry_run-authorize calls identify moments request (memory_store no_dates) records
      (some (some bundle))

given_executor :
    (authorize_runtime_command calls executor_identity
      (memory_store no_dates)
      moments
      request
      (some (some bundle))
      records).result
    ≡ authorized (construct_receipt calls.hash_field evidence)
unfolding authorize_runtime_command request_fields_valid has_execute_permission
    are_external_actions_enabled finalize evaluate_resolved envelope_matches recheck claim_and_issue
    memory_store claim_of claim_approval_for_runtime may_claim has_permission evaluate_eligibility
    eligibility_input build_verification_context stamp read_input check_linkage read_executor
    bounded_expiry authorization_expiry min_iso ttl_ceiling derive_authorization_id
    derive_idempotency_key only_keys copy_fields snapshot_record_or_null snapshot_deep_frozen
    iso_text property is_iso_utc_timestamp read_intended_action deep_record
    evaluate_human_decision_runtime_eligibility snapshot_human_decision copy_arrays decision_issues
    envelope_issues executor_issues equals_approver linkage_state_to_eligibility includes date_ge
    executor_identity snapshot_session executor_input role_name create_canonical_session_identity
    produce_canonical_identity session_input_issues session_issues collect_input_field_issues
    expiry_issues tenant_issues is_past differs is_not_before validate_canonical_identity
    identity_issues is_mispaired is_non_empty is_iso is_one_of
    collect_unsupported_identity_marker_issues unknown_issues candidate
given_executor = refl

authorize_runtime_command-IsAccountable_example :
    IsAccountable calls moments request
      (some (some bundle))
      (construct_receipt calls.hash_field evidence)
authorize_runtime_command-IsAccountable_example =
    authorize_runtime_command-IsAccountable calls (memory_store no_dates) moments request
      (some (some bundle)) records (construct_receipt calls.hash_field evidence) given_executor
