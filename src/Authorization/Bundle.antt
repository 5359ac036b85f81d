-- ===== src/Authorization/Bundle.antt =====
-- The evidence bundle, and what the gate of app/lib/security/runtimeAuthorizationGate.ts builds of
-- it: the context of the linkage's verification, the evaluator's argument, and the claim.
use atra_workunit_os.Prelude.{String, Bool, Option, ◌==◌, if◌then◌else◌, ◌&&◌, not}
use atra_workunit_os.Js.{
  Value, undefined, null, revoked, bool, num, str, arr, obj, Fields, end, field, throws, symbol,
}
use atra_workunit_os.Approval.Store.{ClaimInput}
use atra_workunit_os.Authorization.Types.{Evidence}
use atra_workunit_os.Authorization.Audit.{Request}

-- The intended action of an evidence bundle.
pub record Envelope : Type 0 where
  pub tenant_id : String
  pub work_unit_id : String
  pub action_preview_id : String
  pub approval_id : String
  pub action_type : String
  pub target_hash : String
  pub payload_hash : String

pub record Sources : Type 0 where
  pub tenant_id : Value
  pub human_decision : Value
  pub review_evidence : Value
  pub identity_input : Value
  pub action_preview : Value
  pub approval_record : Value
  pub revoked_review_evidence_ids : Value
  pub consumed_review_evidence_ids : Value
  pub revoked_approval_ids : Value
  pub consumed_approval_ids : Value
  pub revoked_approval_linkage_ids : Value
  pub consumed_approval_linkage_ids : Value

-- `RuntimeAuthorizationEvidenceBundle`, resolved and frozen.
pub record Bundle : Type 0 where
  pub intended_action : Option Envelope
  pub linkage : Value
  pub sources : Sources

abbrev pub is_non_empty : String → Bool
is_non_empty s = not (s == "")

-- The envelope names what the request names, and both hashes.
unfoldable pub envelope_matches : Envelope → Request → Bool
envelope_matches envelope request =
    is_non_empty envelope.tenant_id
    && (envelope.tenant_id == request.tenant_id)
    && is_non_empty envelope.work_unit_id
    && (envelope.work_unit_id == request.work_unit_id)
    && is_non_empty envelope.action_preview_id
    && (envelope.action_preview_id == request.action_preview_id)
    && is_non_empty envelope.approval_id
    && (envelope.approval_id == request.approval_id)
    && is_non_empty envelope.action_type
    && (envelope.action_type == request.action_type)
    && is_non_empty envelope.target_hash
    && is_non_empty envelope.payload_hash

-- `{ ...fields, [key]: value }`
unfoldable pub spread : Fields → String → Value → Fields
spread end k v = field k v end
spread (field j w fs) k v = if j == k then field j v fs else field j w (spread fs k v)
spread (throws j fs) k v = throws j (spread fs k v)
spread (symbol fs) k v = symbol (spread fs k v)

-- The identity input with the fresh time in it, where it is an object.
unfoldable pub stamp : Value → String → Value
unfolding spread
stamp (obj fs) now = obj (spread fs "evaluated_at" (str now))
stamp undefined now = undefined
stamp null now = null
stamp revoked now = revoked
stamp (bool b) now = bool b
stamp (num n) now = num n
stamp (str s) now = str s
stamp (arr items) now = arr items

-- `buildVerificationContext`
unfoldable pub build_verification_context : Sources → String → Value
unfolding stamp
build_verification_context s now = obj (
    field "tenant_id" s.tenant_id (
      field "human_decision" s.human_decision (
        field "review_evidence" s.review_evidence (
          field "identity_input" (stamp s.identity_input now) (
            field "action_preview" s.action_preview (
              field "approval_record" s.approval_record (
                field "evaluated_at" (str now) (
                  field "revoked_review_evidence_ids" s.revoked_review_evidence_ids (
                    field "consumed_review_evidence_ids" s.consumed_review_evidence_ids (
                      field "revoked_approval_ids" s.revoked_approval_ids (
                        field "consumed_approval_ids" s.consumed_approval_ids (
                          field "revoked_approval_linkage_ids" s.revoked_approval_linkage_ids (
                            field "consumed_approval_linkage_ids" s.consumed_approval_linkage_ids
                              end)))))))))))))

-- The argument that the gate hands to the evaluator.
unfoldable pub eligibility_input : Bundle → Envelope → Value → String → String → Value
eligibility_input bundle envelope executor session_expires_at now = obj (
    field "linkage" bundle.linkage (
      field "linkage_context" (build_verification_context bundle.sources now) (
        field "executor_identity" executor (
          field "intended_action"
            (obj (
              field "tenant_id" (str envelope.tenant_id) (
                field "workunit_id" (str envelope.work_unit_id) (
                  field "action_preview_id" (str envelope.action_preview_id) (
                    field "approval_id" (str envelope.approval_id) (
                      field "action_type" (str envelope.action_type) (
                        field "target_hash" (str envelope.target_hash)
                          (field "payload_hash" (str envelope.payload_hash) end))))))))
            (field "session_expires_at" (str session_expires_at)
              (field "issued_at" (str now) end))))))

-- The claim that the gate makes on eligible evidence.
unfoldable pub claim_of : Evidence → ClaimInput
claim_of e = record {
  binding = record {
    tenant_id = e.tenant_id;
    work_unit_id = e.workunit_id;
    action_preview_id = e.action_preview_id;
    approval_id = e.approval_id;
    action_type = e.action_type;
    target_hash = e.target_hash;
    payload_hash = e.payload_hash;
  };
  claimed_at = e.issued_at;
}
