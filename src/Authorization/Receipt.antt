-- ===== src/Authorization/Receipt.antt =====
-- The receipt and its payload (app/lib/security/runtimeAuthorizationReceipt.ts,
-- app/lib/phase6/runtimeAuthorization/canonical.ts).
use atra_workunit_os.Prelude.{String, List, [], ◌∷◌}
use atra_workunit_os.Js.{Value, str}
use atra_workunit_os.Authorization.Types.{State, authorized_not_executed, Evidence}

-- `RuntimeAuthorizationReceipt`, less its constant fields.
pub record Receipt : Type 0 where
  pub status : State
  pub evidence : Evidence
  pub authorization_hash : String

-- `buildRuntimeAuthorizationPayload`, as the fields that are hashed.
unfoldable pub build_payload : Evidence → List (String × Value)
build_payload e =
    ("hash_domain", str "atra.runtime-authorization")
    ∷ ("hash_version", str "1")
    ∷ ("authorization_id", str e.authorization_id)
    ∷ ("status", str "authorized_not_executed")
    ∷ ("tenant_id", str e.tenant_id)
    ∷ ("workunit_id", str e.workunit_id)
    ∷ ("action_preview_id", str e.action_preview_id)
    ∷ ("approval_id", str e.approval_id)
    ∷ ("approval_linkage_id", e.approval_linkage_id)
    ∷ ("action_type", str e.action_type)
    ∷ ("target_hash", str e.target_hash)
    ∷ ("payload_hash", str e.payload_hash)
    ∷ ("executor_id", e.executor_id)
    ∷ ("idempotency_key", str e.idempotency_key)
    ∷ ("issued_at", str e.issued_at)
    ∷ ("expires_at", str e.expires_at)
    ∷ ("hash_algorithm", str "sha256")
    ∷ ("canonicalization_algorithm", str "atra-sorted-json-v1")
    ∷ []

-- `constructRuntimeAuthorizationReceipt`
unfoldable pub construct_receipt : (List (String × Value) → String) → Evidence → Receipt
construct_receipt hash_field e = record {
  status = authorized_not_executed;
  evidence = e;
  authorization_hash = hash_field (build_payload e);
}
