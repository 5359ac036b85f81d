-- ===== src/Linkage/Chain.antt =====
-- The shared evaluation of the sources of a linkage
-- (app/lib/phase6/approvalLinkage/sourceEvaluation.ts), stage by stage.
use Prim.Native.String.{◌++◌ as ◌+++◌}
use atra_workunit_os.Prelude.{
  String, Bool, true, false, Option, none, some, List, [], ◌∷◌, ◌==◌, ◌&&◌, ◌||◌, not,
  if◌then◌else◌, ◌>>=◌,
}
use atra_workunit_os.Js.{Value, str, arr, obj, nil, Fields, field, end, includes}
use atra_workunit_os.Time.{is_iso_utc_timestamp}
use atra_workunit_os.Time.Profile.{is_not_before}
use atra_workunit_os.Authorization.Snapshot.{property, is_text}
use atra_workunit_os.Identity.Issues.{is_non_empty, is_iso}
use atra_workunit_os.Identity.Positions.{is_undefined}
use atra_workunit_os.Linkage.{
  state_missing, tenant_mismatch, workunit_mismatch, review_evidence_mismatch, identity_mismatch,
  action_preview_mismatch, approval_record_mismatch, action_type_mismatch, target_hash_mismatch,
  payload_hash_mismatch, approver_mismatch, expired, revoked_state, used, replayed, Issue,
  approval_linkage_issue, Check, check,
}
use atra_workunit_os.Linkage.Record.{action_types}
use atra_workunit_os.Linkage.Sources.{
  strict_equals, is_nullish, is_number, text_or_empty, is_string_array, in_collection,
  IdentityReading, snapshot_identity, PreviewReading, ApprovalReading,
}

abbrev pub context_fields : List String
context_fields =
    "tenant_id" ∷ "human_decision" ∷ "review_evidence" ∷ "identity_input" ∷ "action_preview"
    ∷ "approval_record" ∷ "evaluated_at" ∷ "revoked_review_evidence_ids"
    ∷ "consumed_review_evidence_ids" ∷ "revoked_approval_ids" ∷ "consumed_approval_ids"
    ∷ "revoked_approval_linkage_ids" ∷ "consumed_approval_linkage_ids" ∷ []

-- `isApprovalLinkageNonEmptyString(tenantId) && v !== tenantId` does not hold.
abbrev pub is_of_tenant : Fields → Value → Bool
is_of_tenant ctx v =
    not (is_non_empty (property "tenant_id" ctx)) || strict_equals v (property "tenant_id" ctx)

abbrev pub collection_check : Fields → String → Check
collection_check ctx name =
    check (is_string_array (property name ctx)) state_missing ("(context)." +++ name)

-- The context, its collections, and the use of the linkage's own id.
abbrev pub context_checks : Fields → String → String → List Check
context_checks ctx linked_at linkage_id =
    check (is_non_empty (property "tenant_id" ctx)) state_missing "(context).tenant_id"
    ∷ check (is_iso (property "evaluated_at" ctx)) state_missing "(context).evaluated_at"
    ∷ check (is_iso_utc_timestamp linked_at) state_missing "(linked_at)"
    ∷ collection_check ctx "revoked_review_evidence_ids"
    ∷ collection_check ctx "consumed_review_evidence_ids"
    ∷ collection_check ctx "revoked_approval_ids"
    ∷ collection_check ctx "consumed_approval_ids"
    ∷ collection_check ctx "revoked_approval_linkage_ids"
    ∷ collection_check ctx "consumed_approval_linkage_ids"
    ∷ check
        (not (
          not (linkage_id == "")
          && in_collection (property "consumed_approval_linkage_ids" ctx) linkage_id))
        replayed "(linkage).approval_linkage_id"
    ∷ check
        (not (
          not (linkage_id == "")
          && in_collection (property "revoked_approval_linkage_ids" ctx) linkage_id))
        revoked_state "(linkage).approval_linkage_id"
    ∷ []

-- `isIsoUtcTimestamp(evaluatedAt) && compare(evaluatedAt, t) >= 0` does not hold.
abbrev pub is_open_at : Value → String → Bool
is_open_at (str s) t = not (is_iso_utc_timestamp s && is_not_before s t)
is_open_at _ t = true

-- What is tested of a complete preview, with the hashes of its present content.
abbrev pub preview_checks : Fields → PreviewReading → String → String → List Check
preview_checks ctx p target_hash payload_hash =
    check (is_text (property "targetHash" p.snapshot) target_hash) target_hash_mismatch
      "(action_preview).targetHash"
    ∷ check (is_text (property "payloadHash" p.snapshot) payload_hash) payload_hash_mismatch
        "(action_preview).payloadHash"
    ∷ check (is_text (property "status" p.snapshot) "preview") action_preview_mismatch
        "(action_preview).status"
    ∷ check (is_number 1 (property "requiresApproval" p.snapshot)) action_preview_mismatch
        "(action_preview).requiresApproval"
    ∷ check (is_non_empty (property "creatorUserId" p.snapshot)) identity_mismatch
        "(action_preview).creatorUserId"
    ∷ check (includes action_types p.action_type) action_type_mismatch "(action_preview).actionType"
    ∷ check (is_of_tenant ctx (str p.tenant_id)) tenant_mismatch "(action_preview).tenantId"
    ∷ check (is_open_at (property "evaluated_at" ctx) p.expires_at) expired
        "(action_preview).expiresAt"
    ∷ []

abbrev pub approval_checks :
    Fields → PreviewReading → String → String → ApprovalReading → String → List Check
approval_checks ctx p target_hash payload_hash a evaluated_at =
    check (is_text (property "status" a.snapshot) "approved") approval_record_mismatch
      "(approval_record).status"
    ∷ check (is_non_empty (property "approvedByUserId" a.snapshot)) approver_mismatch
        "(approval_record).approvedByUserId"
    ∷ check (is_nullish (property "usedAt" a.snapshot)) used "(approval_record).usedAt"
    ∷ check (not (is_text (property "status" a.snapshot) "used")) used "(approval_record).status"
    ∷ check (is_of_tenant ctx (property "tenantId" a.snapshot)) tenant_mismatch
        "(approval_record).tenantId"
    ∷ check (is_text (property "workUnitId" a.snapshot) p.work_unit_id) workunit_mismatch
        "(approval_record).workUnitId"
    ∷ check (is_text (property "actionPreviewId" a.snapshot) p.id) action_preview_mismatch
        "(approval_record).actionPreviewId"
    ∷ check (is_text (property "actionType" a.snapshot) p.action_type) action_type_mismatch
        "(approval_record).actionType"
    ∷ check (is_text (property "targetHash" a.snapshot) target_hash) target_hash_mismatch
        "(approval_record).targetHash"
    ∷ check (is_text (property "payloadHash" a.snapshot) payload_hash) payload_hash_mismatch
        "(approval_record).payloadHash"
    ∷ check (not (in_collection (property "revoked_approval_ids" ctx) a.id)) revoked_state
        "(approval_record).id"
    ∷ check (not (in_collection (property "consumed_approval_ids" ctx) a.id)) used
        "(approval_record).id"
    ∷ check (not (is_not_before evaluated_at a.expires_at)) expired "(approval_record).expiresAt"
    ∷ []

-- `reContext`
abbrev pub review_context : Fields → String → PreviewReading → String → Fields
review_context ctx decision_id p envelope_hash =
    field "tenant_id" (str (text_or_empty (property "tenant_id" ctx))) (
      field "human_decision_id" (str decision_id) (
        field "workunit_id" (str p.work_unit_id) (
          field "current_payload_hash" (str envelope_hash) (
            field "evaluated_at"
              (str (
                if is_iso (property "evaluated_at" ctx)
                then text_or_empty (property "evaluated_at" ctx)
                else ""))
              (field "revoked_review_evidence_ids"
                (array_or_empty (property "revoked_review_evidence_ids" ctx))
                (field "consumed_review_evidence_ids"
                  (array_or_empty (property "consumed_review_evidence_ids" ctx)) end))))))
  where
    array_or_empty : Value → Value
    array_or_empty v = if is_string_array v then v else arr nil

-- The issue of the linkage for an issue of the review's verification.
unfoldable pub review_issue : String → Issue
review_issue code =
    if code == "review_evidence_expired"
    then approval_linkage_issue expired "(review_evidence).review_expires_at"
    else if code == "review_evidence_revoked"
    then approval_linkage_issue revoked_state "(review_evidence).review_evidence_id"
    else if code == "review_evidence_replayed"
    then approval_linkage_issue replayed "(review_evidence).review_evidence_id"
    else approval_linkage_issue review_evidence_mismatch "(review_evidence)"

abbrev pub review_issues : List String → List Issue
review_issues [] = []
review_issues (code ∷ codes) = review_issue code ∷ review_issues codes

-- The five identities, and the executor if there is one that is valid.
pub record Identities : Type 0 where
  pub requester : IdentityReading
  pub creator : IdentityReading
  pub first_reviewer : IdentityReading
  pub second_reviewer : IdentityReading
  pub approver : IdentityReading

unfoldable pub read_identities : Fields → Option Identities
read_identities top = do
  requester ← snapshot_identity (property "requester_identity" top)
  creator ← snapshot_identity (property "creator_identity" top)
  first ← snapshot_identity (property "first_reviewer_identity" top)
  second ← snapshot_identity (property "second_reviewer_identity" top)
  approver ← snapshot_identity (property "approver_identity" top)
  some (record {
    requester = requester;
    creator = creator;
    first_reviewer = first;
    second_reviewer = second;
    approver = approver;
  })

-- An executor's identity that is present and not valid.
abbrev pub is_executor_ok : Fields → Bool
is_executor_ok top =
    is_undefined (property "executor_identity" top)
    || elim (snapshot_identity (property "executor_identity" top)) [
      | none ↦ false
      | some executor ↦ true
    ]

abbrev pub executor_field : Option IdentityReading → Fields
executor_field none = end
executor_field (some executor) = field "executor_identity" (obj executor.snapshot) end

-- `iiForVerify`, with the executor if there is one.
unfoldable pub independence_fields :
    Fields → Fields → Fields → Identities → Option IdentityReading → Fields
independence_fields hd re top ids executor = field "human_decision" (obj hd) (
    field "review_evidence" (obj re) (
      field "requester_identity" (obj ids.requester.snapshot) (
        field "creator_identity" (obj ids.creator.snapshot) (
          field "first_reviewer_identity" (obj ids.first_reviewer.snapshot) (
            field "second_reviewer_identity" (obj ids.second_reviewer.snapshot) (
              field "approver_identity" (obj ids.approver.snapshot) (
                field "expected_tenant_id" (property "expected_tenant_id" top) (
                  field "expected_human_decision_id" (property "expected_human_decision_id" top) (
                    field "expected_workunit_id" (property "expected_workunit_id" top) (
                      field "expected_action_preview_id" (property "expected_action_preview_id" top)
                        (field "evaluated_at" (property "evaluated_at" top)
                          (executor_field executor))))))))))))

abbrev pub independence_input : Fields → Fields → Fields → Identities → Fields
independence_input hd re top ids =
    independence_fields hd re top ids (snapshot_identity (property "executor_identity" top))

-- The input of `buildApprovalIdentityChain`.
abbrev pub chain_input : Fields → Identities → Fields
chain_input ctx ids = field "tenant_id" (str (text_or_empty (property "tenant_id" ctx))) (
    field "requester_user_id" (str ids.requester.user_id) (
      field "creator_user_id" (str ids.creator.user_id) (
        field "creator_source_action_preview_id" (str ids.creator.source_record_id) (
          field "first_reviewer_user_id" (str ids.first_reviewer.user_id) (
            field "second_reviewer_user_id" (str ids.second_reviewer.user_id) (
              field "approver_user_id" (str ids.approver.user_id) (
                field "requester_identity_source" (str ids.requester.identity_source) (
                  field "creator_identity_source" (str ids.creator.identity_source) (
                    field "first_reviewer_identity_source" (str ids.first_reviewer.identity_source)
                      (field "second_reviewer_identity_source"
                        (str ids.second_reviewer.identity_source)
                        (field "approver_identity_source" (str ids.approver.identity_source) (
                          field "requester_actor_kind" (str ids.requester.actor_kind) (
                            field "creator_actor_kind" (str ids.creator.actor_kind) (
                              field "first_reviewer_actor_kind" (str ids.first_reviewer.actor_kind)
                                (field "second_reviewer_actor_kind"
                                  (str ids.second_reviewer.actor_kind)
                                  (field "approver_actor_kind" (str ids.approver.actor_kind)
                                    end))))))))))))))))
