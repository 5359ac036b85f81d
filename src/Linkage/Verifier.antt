-- ===== src/Linkage/Verifier.antt =====
-- The verifier of a linkage record (app/lib/phase6/approvalLinkage/verifier.ts).
use Prim.Native.String.{◌++◌ as ◌+++◌}
use atra_workunit_os.Prelude.{
  String, Bool, true, false, Option, none, some, List, [], ◌∷◌, ◌++◌, ◌&&◌, ◌||◌, if◌then◌else◌,
  ◌>>=◌,
}
use atra_workunit_os.Js.{Value, obj, Fields}
use atra_workunit_os.Authorization.Snapshot.{Attempt, property, is_text}
use atra_workunit_os.Identity.Positions.{snapshot_or_null}
use atra_workunit_os.Linkage.{
  IssueCode, invalid_approval_linkage_input, hash_mismatch, stale, expired, revoked_state, used,
  replayed, validation_exception, Issue, approval_linkage_issue,
}
use atra_workunit_os.Linkage.Record.{
  hash_algorithm, canonicalization_algorithm, validate_approval_linkage_record,
}
use atra_workunit_os.Linkage.Payload.{build_approval_linkage_payload}
use atra_workunit_os.Linkage.Sources.{Calls, strict_equals, text_or_empty}
use atra_workunit_os.Linkage.Evaluation.{evaluate_approval_chain}

-- `ApprovalLinkageVerificationState`; the result is `ok` if it is `verified`.
pub data State : Type 0 where
  verified invalid is_stale is_expired is_revoked is_used is_replayed : State

-- `DERIVED_COMPARISON`
abbrev pub derived_comparison : List String
derived_comparison =
    "tenant_id" ∷ "human_decision_id" ∷ "human_decision_hash" ∷ "review_evidence_id"
    ∷ "review_evidence_hash" ∷ "review_envelope_hash" ∷ "first_review_attestation_id"
    ∷ "second_review_attestation_id" ∷ "identity_chain_hash" ∷ "workunit_id" ∷ "action_preview_id"
    ∷ "approval_id" ∷ "action_type" ∷ "target_hash" ∷ "payload_hash" ∷ "approver_id"
    ∷ "preview_created_at" ∷ "preview_expires_at" ∷ "review_completed_at" ∷ "review_expires_at"
    ∷ "approval_created_at" ∷ "approval_approved_at" ∷ "approval_expires_at" ∷ "linkage_expires_at"
    ∷ []

-- The stored fields that differ from the derived ones.
unfoldable pub stale_issues : List String → Fields → Fields → List Issue
stale_issues [] stored derived = []
stale_issues (name ∷ names) stored derived =
    let more = stale_issues names stored derived in
    if strict_equals (property name stored) (property name derived)
    then more
    else approval_linkage_issue stale ("(linkage)." +++ name) ∷ more

abbrev pub derived_issues : Fields → Option Fields → List Issue
derived_issues stored none = []
derived_issues stored (some derived) = stale_issues derived_comparison stored derived

abbrev pub is_replayed_code : IssueCode → Bool
is_replayed_code replayed = true
is_replayed_code _ = false

abbrev pub is_used_code : IssueCode → Bool
is_used_code used = true
is_used_code _ = false

abbrev pub is_revoked_code : IssueCode → Bool
is_revoked_code revoked_state = true
is_revoked_code _ = false

abbrev pub is_expired_code : IssueCode → Bool
is_expired_code expired = true
is_expired_code _ = false

-- `codes.has(code)`
unfoldable pub has_code : (IssueCode → Bool) → List Issue → Bool
has_code test [] = false
has_code test (issue ∷ issues) = test issue.code || has_code test issues

-- The state without an issue of the record itself, by fixed precedence.
unfoldable pub chain_state : List Issue → State
chain_state issues =
    if has_code is_replayed_code issues
    then is_replayed
    else if has_code is_used_code issues
    then is_used
    else if has_code is_revoked_code issues
    then is_revoked
    else if has_code is_expired_code issues
    then is_expired
    else elim issues [ [] ↦ verified | _ ∷ _ ↦ is_stale ]

abbrev pub exception_result : State × List Issue
exception_result = (invalid, approval_linkage_issue validation_exception "(verifier)" ∷ [])

module _ (calls : Calls) where
  -- The record's own hash covers its fields.
  unfoldable pub has_self_hash : Fields → Attempt Bool
  has_self_hash fs =
      if is_text (property "hash_algorithm" fs) hash_algorithm
        && is_text (property "canonicalization_algorithm" fs) canonicalization_algorithm
      then (do
        h ← calls.hash_field (obj (build_approval_linkage_payload fs))
        some (is_text (property "linkage_hash" fs) h))
      else some false

  -- The issues of the current sources, and of the stored fields against them.
  unfoldable pub chain_issues : Fields → Value → List Issue
  chain_issues fs context =
      let evaluation =
        evaluate_approval_chain calls context (text_or_empty (property "linked_at" fs))
          (text_or_empty (property "approval_linkage_id" fs)) in
      evaluation.issues ++ derived_issues fs evaluation.derived

  -- `verifyApprovalLinkage`
  unfoldable pub verify_approval_linkage : Value → Value → State × List Issue
  verify_approval_linkage linkage context = elim (snapshot_or_null linkage) [
    | none ↦ (invalid, approval_linkage_issue invalid_approval_linkage_input "(linkage)" ∷ [])
    | some fs ↦ elim (validate_approval_linkage_record (obj fs)) [
      | issue ∷ issues ↦ (invalid, issue ∷ issues)
      | [] ↦ elim (has_self_hash fs) [
        | none ↦ exception_result
        | some false ↦ (
          invalid,
          approval_linkage_issue hash_mismatch "(linkage).linkage_hash" ∷ chain_issues fs context,
        )
        | some true ↦ (chain_state (chain_issues fs context), chain_issues fs context)
      ]
    ]
  ]
