-- ===== src/Linkage/Payload.antt =====
-- The values that are hashed for a linkage (app/lib/phase6/approvalLinkage/canonical.ts).
use atra_workunit_os.Prelude.{String, List, [], ◌∷◌}
use atra_workunit_os.Js.{str, Fields, field, end}
use atra_workunit_os.Authorization.Snapshot.{property}
use atra_workunit_os.Linkage.Record.{hash_algorithm, canonicalization_algorithm}

-- `{ name: source.name, … }`, in front of other fields.
unfoldable pub pick : List String → Fields → Fields → Fields
pick [] source rest = rest
pick (name ∷ names) source rest = field name (property name source) (pick names source rest)

-- `{ hash_domain, hash_version, … }`
abbrev pub in_domain : String → Fields → Fields
in_domain domain fs = field "hash_domain" (str domain) (field "hash_version" (str "1") fs)

abbrev pub review_envelope_fields : List String
review_envelope_fields =
    "tenant_id" ∷ "human_decision_id" ∷ "human_decision_hash" ∷ "workunit_id" ∷ "action_preview_id"
    ∷ "action_type" ∷ "target_hash" ∷ "payload_hash" ∷ []

unfoldable pub build_approval_review_envelope : Fields → Fields
build_approval_review_envelope input =
    in_domain "atra.approval-review-envelope" (pick review_envelope_fields input end)

abbrev pub identity_chain_fields : List String
identity_chain_fields =
    "tenant_id" ∷ "requester_user_id" ∷ "creator_user_id" ∷ "creator_source_action_preview_id"
    ∷ "first_reviewer_user_id" ∷ "second_reviewer_user_id" ∷ "approver_user_id"
    ∷ "requester_identity_source" ∷ "creator_identity_source" ∷ "first_reviewer_identity_source"
    ∷ "second_reviewer_identity_source" ∷ "approver_identity_source" ∷ "requester_actor_kind"
    ∷ "creator_actor_kind" ∷ "first_reviewer_actor_kind" ∷ "second_reviewer_actor_kind"
    ∷ "approver_actor_kind" ∷ []

unfoldable pub build_approval_identity_chain : Fields → Fields
build_approval_identity_chain input =
    in_domain "atra.approval-identity-chain" (pick identity_chain_fields input end)

-- The fields of a linkage other than its algorithms and its hash.
abbrev pub linkage_payload_fields : List String
linkage_payload_fields =
    "approval_linkage_id" ∷ "tenant_id" ∷ "human_decision_id" ∷ "human_decision_hash"
    ∷ "review_evidence_id" ∷ "review_evidence_hash" ∷ "review_envelope_hash"
    ∷ "first_review_attestation_id" ∷ "second_review_attestation_id" ∷ "identity_chain_hash"
    ∷ "workunit_id" ∷ "action_preview_id" ∷ "approval_id" ∷ "action_type" ∷ "target_hash"
    ∷ "payload_hash" ∷ "approver_id" ∷ "preview_created_at" ∷ "preview_expires_at"
    ∷ "review_completed_at" ∷ "review_expires_at" ∷ "approval_created_at" ∷ "approval_approved_at"
    ∷ "approval_expires_at" ∷ "linked_at" ∷ "linkage_expires_at" ∷ []

abbrev pub with_algorithms : Fields → Fields
with_algorithms rest =
    field "hash_algorithm" (str hash_algorithm)
      (field "canonicalization_algorithm" (str canonicalization_algorithm) rest)

unfoldable pub build_approval_linkage_payload : Fields → Fields
build_approval_linkage_payload input =
    in_domain "atra.approval-linkage" (pick linkage_payload_fields input (with_algorithms end))
