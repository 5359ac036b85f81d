-- ===== src/Linkage/Evaluation.antt =====
-- The evaluation of the sources of a linkage, whole
-- (app/lib/phase6/approvalLinkage/sourceEvaluation.ts). Each stage goes on with what it has read.
use Prim.Native.Nat.{Ordering}
use atra_workunit_os.Prelude.{
  String, Bool, true, false, Option, none, some, List, [], ◌∷◌, ◌==◌, ◌&&◌, ◌||◌, not,
  if◌then◌else◌, ◌>>=◌,
}
use atra_workunit_os.Js.{Value, str, obj, Fields, field, end, includes}
use atra_workunit_os.Time.{is_iso_utc_timestamp}
use atra_workunit_os.Time.Profile.{is_not_before}
use atra_workunit_os.Authorization.Snapshot.{Attempt, property, is_text, non_empty_string}
use atra_workunit_os.Identity.Positions.{snapshot_or_null}
use atra_workunit_os.Identity.Independence.{evaluation_input_fields, verify_identity_independence}
use atra_workunit_os.Linkage.{
  invalid_approval_linkage_input, state_missing, tenant_mismatch, workunit_mismatch,
  human_decision_mismatch, review_evidence_mismatch, identity_mismatch, action_preview_mismatch,
  approval_record_mismatch, review_envelope_mismatch, approver_mismatch, stale, expired,
  validation_exception, approval_linkage_issue, Check, check, is_sha256_hex,
  compare_approval_linkage_iso_utc,
}
use atra_workunit_os.Linkage.Record.{unknown_key_issues}
use atra_workunit_os.Linkage.Payload.{build_approval_review_envelope, build_approval_identity_chain}
use atra_workunit_os.Linkage.Sources.{
  snapshot_decision, Calls, SourceEvaluation, push_all, checks, stop, or_stop, strict_equals,
  text_or_throw, text_or_empty, min_iso, PreviewReading, ApprovalReading, read_approval,
  ReviewReading, read_review, read_preview,
}
use atra_workunit_os.Linkage.Chain.{
  context_fields, is_of_tenant, context_checks, is_open_at, preview_checks, approval_checks,
  review_context, review_issues, Identities, read_identities, is_executor_ok, independence_input,
  chain_input,
}

-- What the stages have read, up to the approval record.
pub record Action : Type 0 where
  pub ctx : Fields
  pub decision : Fields
  pub decision_id : String
  pub decision_hash : String
  pub preview : PreviewReading
  pub target_hash : String
  pub payload_hash : String
  pub approval : ApprovalReading
  pub evaluated_at : String

-- The review evidence with its hash and that of the envelope.
pub record Review : Type 0 where
  pub evidence : ReviewReading
  pub envelope_hash : String
  pub evidence_hash : String

-- `compare(a, b) <= 0`
abbrev is_not_after : String → String → Bool
is_not_after a b = elim (compare_approval_linkage_iso_utc a b) [ Ordering.gt ↦ false | _ ↦ true ]

abbrev pub is_no_issue {ℓ} : {A : Type ℓ} → List A → Bool
is_no_issue [] = true
is_no_issue (issue ∷ issues) = false

-- The input of the review envelope.
abbrev pub envelope_input : Action → Fields
envelope_input a = field "tenant_id" (str (text_or_empty (property "tenant_id" a.ctx))) (
    field "human_decision_id" (str a.decision_id) (
      field "human_decision_hash" (str a.decision_hash) (
        field "workunit_id" (str a.preview.work_unit_id) (
          field "action_preview_id" (str a.preview.id) (
            field "action_type" (str a.preview.action_type) (
              field "target_hash" (str a.target_hash)
                (field "payload_hash" (str a.payload_hash) end)))))))

abbrev pub linkage_expires_at : Action → Review → String
linkage_expires_at a r =
    min_iso (min_iso r.evidence.expires_at a.preview.expires_at) a.approval.expires_at

-- `DerivedApprovalChain`
unfoldable pub derived_chain : Action → Review → String → Fields
derived_chain a r chain_hash =
    field "tenant_id" (str (text_or_empty (property "tenant_id" a.ctx))) (
      field "human_decision_id" (str a.decision_id) (
        field "human_decision_hash" (str a.decision_hash) (
          field "review_evidence_id" (str r.evidence.id) (
            field "review_evidence_hash" (str r.evidence_hash) (
              field "review_envelope_hash" (str r.envelope_hash) (
                field "first_review_attestation_id" (str r.evidence.first_attestation_id) (
                  field "second_review_attestation_id" (str r.evidence.second_attestation_id) (
                    field "identity_chain_hash" (str chain_hash) (
                      field "workunit_id" (str a.preview.work_unit_id) (
                        field "action_preview_id" (str a.preview.id) (
                          field "approval_id" (str a.approval.id) (
                            field "action_type" (str a.preview.action_type) (
                              field "target_hash" (str a.target_hash) (
                                field "payload_hash" (str a.payload_hash) (
                                  field "approver_id"
                                    (str (
                                      text_or_empty
                                        (property "approvedByUserId" a.approval.snapshot)))
                                    (expiries a r))))))))))))))))
  where
    expiries : Action → Review → Fields
    expiries a r = field "preview_created_at" (str a.preview.created_at) (
        field "preview_expires_at" (str a.preview.expires_at) (
          field "review_completed_at" (str r.evidence.completed_at) (
            field "review_expires_at" (str r.evidence.expires_at) (
              field "approval_created_at" (str a.approval.created_at) (
                field "approval_approved_at" (str a.approval.approved_at) (
                  field "approval_expires_at" (str a.approval.expires_at)
                    (field "linkage_expires_at" (str (linkage_expires_at a r)) end)))))))

-- The order of the times, and of the linkage's time among them.
abbrev pub timeline_checks : Action → Review → String → List Check
timeline_checks a r linked_at =
    check (not (is_not_before a.preview.created_at a.preview.expires_at)) stale "(timeline).preview"
    ∷ check (not (is_not_before r.evidence.completed_at r.evidence.expires_at)) stale
        "(timeline).review"
    ∷ check (is_not_after a.approval.created_at a.approval.approved_at) stale
        "(timeline).approval_created"
    ∷ check (not (is_not_before a.approval.approved_at a.approval.expires_at)) stale
        "(timeline).approval_expiry"
    ∷ check (unlinked || is_not_before linked_at r.evidence.completed_at) stale
        "(timeline).linked_at_review"
    ∷ check (unlinked || is_not_before linked_at a.approval.approved_at) stale
        "(timeline).linked_at_approval"
    ∷ check
        (unlinked
          || not (
              is_not_before linked_at r.evidence.expires_at
              || is_not_before linked_at a.preview.expires_at
              || is_not_before linked_at a.approval.expires_at))
        stale "(timeline).linked_at_expiry"
    ∷ check (is_open_at (property "evaluated_at" a.ctx) (linkage_expires_at a r)) expired
        "(linkage).linkage_expires_at"
    ∷ []
  where
    unlinked : Bool
    unlinked = not (is_iso_utc_timestamp linked_at)

-- The gate in front of a derived chain.
abbrev pub is_emitted : Action → Review → String → Bool
is_emitted a r chain_hash =
    is_sha256_hex a.decision_hash
    && is_sha256_hex r.evidence_hash
    && is_sha256_hex r.envelope_hash
    && is_sha256_hex chain_hash
    && is_sha256_hex a.target_hash
    && is_sha256_hex a.payload_hash
    && not (text_or_empty (property "tenant_id" a.ctx) == "")
    && not (text_or_empty (property "approvedByUserId" a.approval.snapshot) == "")

-- The artifacts that the identities' input repeats, its time, and its executor.
abbrev pub nested_checks : Action → Fields → Bool → Bool → List Check
nested_checks a top same_decision same_evidence =
    check same_decision human_decision_mismatch "(identity_input).human_decision"
    ∷ check same_evidence review_evidence_mismatch "(identity_input).review_evidence"
    ∷ check (is_text (property "evaluated_at" top) a.evaluated_at) identity_mismatch
        "(identity_input).evaluated_at"
    ∷ check (is_executor_ok top) identity_mismatch "(executor_identity)"
    ∷ []

-- The bindings between the identities and the other sources.
abbrev pub identity_checks : Action → Fields → Identities → Bool → List Check
identity_checks a top ids independent =
    check independent identity_mismatch "(identity_input)"
    ∷ check (strict_equals (property "expected_tenant_id" top) (property "tenant_id" a.ctx))
        tenant_mismatch "(identity_input).expected_tenant_id"
    ∷ check (is_text (property "expected_human_decision_id" top) a.decision_id)
        human_decision_mismatch "(identity_input).expected_human_decision_id"
    ∷ check (is_text (property "expected_workunit_id" top) a.preview.work_unit_id) workunit_mismatch
        "(identity_input).expected_workunit_id"
    ∷ check (is_text (property "expected_action_preview_id" top) a.preview.id)
        action_preview_mismatch "(identity_input).expected_action_preview_id"
    ∷ check (is_text (property "creatorUserId" a.preview.snapshot) ids.creator.user_id)
        identity_mismatch "(creator_identity).user_id"
    ∷ check (ids.creator.source_record_id == a.preview.id) identity_mismatch
        "(creator_identity).source_record_id"
    ∷ check (is_text (property "approvedByUserId" a.approval.snapshot) ids.approver.user_id)
        approver_mismatch "(approver_identity).user_id"
    ∷ check (ids.approver.identity_source == "authenticated_session") approver_mismatch
        "(approver_identity).identity_source"
    ∷ []

module _ (calls : Calls) where
  -- The content of a nested artifact has the hash.
  abbrev pub has_hash : Option Fields → String → Attempt Bool
  has_hash none hash = some false
  has_hash (some fs) hash = do h ← calls.hash_field (obj fs); some (h == hash)

  unfoldable pub derive_stage :
      String → Action → Review → Fields → Identities → Attempt SourceEvaluation
  derive_stage linked_at a r top ids = do
    chain_hash ← calls.hash_field (obj (build_approval_identity_chain (chain_input a.ctx ids)))
    checks (timeline_checks a r linked_at) (
        if is_emitted a r chain_hash
        then some (record { derived = some (derived_chain a r chain_hash); issues = [] })
        else stop state_missing "(derived)")

  -- The identities against the other sources.
  unfoldable pub bind_stage :
      String → Action → Review → Fields → Identities → Attempt SourceEvaluation
  bind_stage linked_at a r top ids =
      checks
        (identity_checks a top ids (
          is_no_issue (
            verify_identity_independence calls.validate_human_decision_record
              calls.validate_four_eyes_review_evidence
              (obj (independence_input a.decision r.evidence.snapshot top ids)))))
        (derive_stage linked_at a r top ids)

  unfoldable pub nested_stage :
      String → Action → Review → Fields → Bool → Bool → Attempt SourceEvaluation
  nested_stage linked_at a r top same_decision same_evidence =
      push_all
        (unknown_key_issues (includes evaluation_input_fields) identity_mismatch "(identity_input)"
          top [])
        (checks (nested_checks a top same_decision same_evidence) (
          or_stop (read_identities top) identity_mismatch "(identity_input)"
            (bind_stage linked_at a r top)))

  unfoldable pub top_stage : String → Action → Review → Fields → Attempt SourceEvaluation
  top_stage linked_at a r top = do
    decision ← snapshot_decision (property "human_decision" top)
    same_decision ← has_hash decision a.decision_hash
    same_evidence ← has_hash (snapshot_or_null (property "review_evidence" top)) r.evidence_hash
    nested_stage linked_at a r top same_decision same_evidence

  unfoldable pub identity_stage : String → Action → Review → Attempt SourceEvaluation
  identity_stage linked_at a r =
      or_stop (snapshot_or_null (property "identity_input" a.ctx)) identity_mismatch
        "(identity_input)" (top_stage linked_at a r)

  unfoldable pub evidence_stage :
      String → Action → String → ReviewReading → Attempt SourceEvaluation
  evidence_stage linked_at a envelope_hash evidence = do
    evidence_hash ← calls.hash_field (obj evidence.snapshot)
    codes ←
        calls.verify_four_eyes_review_evidence evidence.snapshot
          (review_context a.ctx a.decision_id a.preview envelope_hash)
    checks
        (check (is_text (property "reviewed_payload_hash" evidence.snapshot) envelope_hash)
            review_envelope_mismatch "(review_evidence).reviewed_payload_hash"
          ∷ [])
        (push_all (review_issues codes) (
          identity_stage linked_at a (record {
            evidence = evidence;
            envelope_hash = envelope_hash;
            evidence_hash = evidence_hash;
          })))

  unfoldable pub snapshot_stage : String → Action → String → Fields → Attempt SourceEvaluation
  snapshot_stage linked_at a envelope_hash fs = do
    valid ← calls.validate_four_eyes_review_evidence fs
    or_stop (if valid then read_review fs else none) review_evidence_mismatch "(review_evidence)"
        (evidence_stage linked_at a envelope_hash)

  unfoldable pub review_stage : String → Action → Attempt SourceEvaluation
  review_stage linked_at a = do
    envelope_hash ← calls.hash_field (obj (build_approval_review_envelope (envelope_input a)))
    or_stop (snapshot_or_null (property "review_evidence" a.ctx)) review_evidence_mismatch
        "(review_evidence)" (snapshot_stage linked_at a envelope_hash)

  unfoldable pub approval_stage : String → Action → Attempt SourceEvaluation
  approval_stage linked_at a =
      checks
        (approval_checks a.ctx a.preview a.target_hash a.payload_hash a.approval a.evaluated_at)
        (review_stage linked_at a)

  unfoldable pub record_stage :
      String
      → Fields
      → Fields
      → String
      → String
      → PreviewReading
      → String
      → String
      → ApprovalReading
      → Attempt SourceEvaluation
  record_stage linked_at ctx hd decision_id decision_hash p target_hash payload_hash a = do
    evaluated_at ← text_or_throw (property "evaluated_at" ctx)
    approval_stage linked_at (record {
      ctx = ctx;
      decision = hd;
      decision_id = decision_id;
      decision_hash = decision_hash;
      preview = p;
      target_hash = target_hash;
      payload_hash = payload_hash;
      approval = a;
      evaluated_at = evaluated_at;
    })

  unfoldable pub hashes_stage :
      String → Fields → Fields → String → String → PreviewReading → Attempt SourceEvaluation
  hashes_stage linked_at ctx hd decision_id decision_hash p = do
    target_hash ← calls.hash_action_target p.target
    payload_hash ← calls.hash_action_payload p.payload
    checks (preview_checks ctx p target_hash payload_hash) (
        or_stop (snapshot_or_null (property "approval_record" ctx) >>= read_approval)
          approval_record_mismatch "(approval_record)"
          (record_stage linked_at ctx hd decision_id decision_hash p target_hash payload_hash))

  unfoldable pub preview_stage :
      String → Fields → Fields → String → String → Attempt SourceEvaluation
  preview_stage linked_at ctx hd decision_id decision_hash =
      or_stop (snapshot_or_null (property "action_preview" ctx) >>= read_preview calls)
        action_preview_mismatch "(action_preview)"
        (hashes_stage linked_at ctx hd decision_id decision_hash)

  abbrev pub decision_ids : Bool → Fields → Option (String × String)
  decision_ids false hd = none
  decision_ids true hd = do
    id ← non_empty_string (property "human_decision_id" hd)
    tenant ← non_empty_string (property "tenant_id" hd)
    some (id, tenant)

  unfoldable pub ready_stage : String → Fields → Fields → String × String → Attempt SourceEvaluation
  ready_stage linked_at ctx hd ids = do
    decision_hash ← calls.hash_field (obj hd)
    checks (check (is_of_tenant ctx (str ids.1)) tenant_mismatch "(human_decision).tenant_id" ∷ [])
        (preview_stage linked_at ctx hd ids.0 decision_hash)

  unfoldable pub valid_stage : String → Fields → Fields → Attempt SourceEvaluation
  valid_stage linked_at ctx hd = do
    valid ← calls.validate_human_decision_record hd
    or_stop (decision_ids valid hd) human_decision_mismatch "(human_decision)"
        (ready_stage linked_at ctx hd)

  unfoldable pub decision_stage : String → Fields → Attempt SourceEvaluation
  decision_stage linked_at ctx = do
    found ← snapshot_decision (property "human_decision" ctx)
    or_stop found human_decision_mismatch "(human_decision)" (valid_stage linked_at ctx)

  unfoldable pub context_stage : String → String → Fields → Attempt SourceEvaluation
  context_stage linked_at linkage_id ctx =
      push_all
        (unknown_key_issues (includes context_fields) invalid_approval_linkage_input "(context)" ctx
          [])
        (checks (context_checks ctx linked_at linkage_id) (decision_stage linked_at ctx))

  -- What stands behind an evaluation that throws.
  abbrev pub or_exception : Attempt SourceEvaluation → SourceEvaluation
  or_exception none = record {
    derived = none;
    issues = approval_linkage_issue validation_exception "(source_evaluation)" ∷ [];
  }
  or_exception (some evaluation) = evaluation

  -- `evaluateApprovalChain`
  unfoldable pub evaluate_approval_chain : Value → String → String → SourceEvaluation
  evaluate_approval_chain context linked_at linkage_id = or_exception (
      or_stop (snapshot_or_null context) state_missing "(context)"
        (context_stage linked_at linkage_id))
