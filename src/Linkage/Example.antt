-- ===== src/Linkage/Example.antt =====
-- Concrete sources of a linkage, for the tests.
use atra_workunit_os.Prelude.{false, none, String, true, some, []}
use atra_workunit_os.Js.{Value, bool, str, num, arr, obj, nil, Fields, field, end}
use atra_workunit_os.Identity.Constructors.{candidate}
use atra_workunit_os.Linkage.Sources.{Calls}
use atra_workunit_os.Linkage.Constructor.{created, create_approval_linkage_record}
use atra_workunit_os.Authorization.Eligibility.{Evaluators}
use atra_workunit_os.Authorization.Linked.{with_linkage}

abbrev pub now : String
now = "2026-01-01T00:30:00Z"

abbrev pub digest : String
digest = "0123456789abcdef0123456789abcdef0123456789abcdef0123456789abcdef"

abbrev pub calls : Calls
calls = record {
  hash_field = λ _. some digest;
  hash_action_target = λ _. some digest;
  hash_action_payload = λ _. some digest;
  parse_json = λ _. some (obj end);
  validate_human_decision_record = λ _. some true;
  validate_four_eyes_review_evidence = λ _. some true;
  verify_four_eyes_review_evidence = λ _ _. some [];
}

abbrev pub by_session : String → String → Fields
by_session user kind =
    candidate (str "t1") (str user) (str kind) "authenticated_session" (str "s1") (str now)

abbrev pub creator : Fields
creator =
    candidate (str "t1") (str "u1") (str "creator") "stored_action_preview_creator" (str "p1")
      (str now)

abbrev pub decision : Fields
decision = field "tenant_id" (str "t1") (
    field "human_decision_id" (str "d1") (
      field "decision_status" (str "ready_for_future_gate_review") (
        field "decision_outcome" (str "pass") (
          field "decision_impact_scope" (str "action_readiness_assessment") (
            field "evidence_accepted" (bool true) (
              field "approval_required" (bool true) (
                field "execution_required" (bool true) (
                  field "promotion_required" (bool false) (
                    field "four_eyes_required" (bool true) (
                      field "self_approval_blocked" (bool true)
                        (field "no_go_flags" (arr nil) end)))))))))))

abbrev pub review : Fields
review = field "tenant_id" (str "t1") (
    field "source_human_decision_id" (str "d1") (
      field "source_workunit_id" (str "w1") (
        field "first_reviewer_id" (str "u3") (
          field "second_reviewer_id" (str "u4") (
            field "review_evidence_id" (str "r1") (
              field "first_review_attestation_id" (str "x1") (
                field "second_review_attestation_id" (str "x2") (
                  field "review_completed_at" (str "2026-01-01T00:10:00Z") (
                    field "review_expires_at" (str "2026-01-01T02:00:00Z")
                      (field "reviewed_payload_hash" (str digest) end))))))))))

abbrev pub preview : Fields
preview = field "id" (str "p1") (
    field "tenantId" (str "t1") (
      field "workUnitId" (str "w1") (
        field "actionType" (str "slack_reply") (
          field "status" (str "preview") (
            field "creatorUserId" (str "u1") (
              field "createdAt" (str "2026-01-01T00:00:00Z") (
                field "expiresAt" (str "2026-01-01T03:00:00Z") (
                  field "targetPreview" (str "{}") (
                    field "payloadPreview" (str "{}") (
                      field "targetHash" (str digest) (
                        field "payloadHash" (str digest)
                          (field "requiresApproval" (num 1) end))))))))))))

abbrev pub approval : Fields
approval = field "id" (str "a1") (
    field "tenantId" (str "t1") (
      field "workUnitId" (str "w1") (
        field "actionPreviewId" (str "p1") (
          field "actionType" (str "slack_reply") (
            field "status" (str "approved") (
              field "approvedByUserId" (str "u2") (
                field "createdAt" (str "2026-01-01T00:15:00Z") (
                  field "approvedAt" (str "2026-01-01T00:20:00Z") (
                    field "expiresAt" (str "2026-01-01T01:00:00Z") (
                      field "targetHash" (str digest)
                        (field "payloadHash" (str digest) end)))))))))))

abbrev pub identities : Fields
identities = field "human_decision" (obj decision) (
    field "review_evidence" (obj review) (
      field "requester_identity" (obj (by_session "u1" "requester")) (
        field "creator_identity" (obj creator) (
          field "first_reviewer_identity" (obj (by_session "u3" "reviewer")) (
            field "second_reviewer_identity" (obj (by_session "u4" "reviewer")) (
              field "approver_identity" (obj (by_session "u2" "approver")) (
                field "expected_tenant_id" (str "t1") (
                  field "expected_human_decision_id" (str "d1") (
                    field "expected_workunit_id" (str "w1") (
                      field "expected_action_preview_id" (str "p1")
                        (field "evaluated_at" (str now) end)))))))))))

abbrev pub context : Value
context = obj (
    field "tenant_id" (str "t1") (
      field "human_decision" (obj decision) (
        field "review_evidence" (obj review) (
          field "identity_input" (obj identities) (
            field "action_preview" (obj preview) (
              field "approval_record" (obj approval) (
                field "evaluated_at" (str now) (
                  field "revoked_review_evidence_ids" (arr nil) (
                    field "consumed_review_evidence_ids" (arr nil) (
                      field "revoked_approval_ids" (arr nil) (
                        field "consumed_approval_ids" (arr nil) (
                          field "revoked_approval_linkage_ids" (arr nil)
                            (field "consumed_approval_linkage_ids" (arr nil) end)))))))))))))

abbrev pub linkage_input : Value
linkage_input =
    obj
      (field "approval_linkage_id" (str "l1") (field "linked_at" (str "2026-01-01T00:25:00Z") end))

abbrev pub linkage : Fields
linkage = elim (create_approval_linkage_record calls linkage_input context) [
  | created fs ↦ fs
  | _ ↦ end
]

abbrev pub plain_evaluators : Evaluators
plain_evaluators = record {
  verify_approval_linkage = λ _ _. (false, "invalid");
  validate_human_decision_record = λ _. some true;
  validate_canonical_identity = λ _. some true;
  hash_field = λ _. digest;
  to_iso_string = λ _. "2026-01-01T00:30:30.000Z";
  parse_other_date = λ _. none;
}

abbrev pub evaluators : Evaluators
evaluators = with_linkage calls plain_evaluators

abbrev pub eligible_input : Value
eligible_input = obj (
    field "linkage" (obj linkage) (
      field "linkage_context" context (
        field "executor_identity" (obj (by_session "u5" "executor")) (
          field "intended_action"
            (obj (
              field "tenant_id" (str "t1") (
                field "workunit_id" (str "w1") (
                  field "action_preview_id" (str "p1") (
                    field "approval_id" (str "a1") (
                      field "action_type" (str "slack_reply") (
                        field "target_hash" (str digest)
                          (field "payload_hash" (str digest) end))))))))
            (field "session_expires_at" (str "2026-01-02T00:00:00Z")
              (field "issued_at" (str now) end))))))
