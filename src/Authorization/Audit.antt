-- ===== src/Authorization/Audit.antt =====
-- The redacted audit projection (app/lib/phase6/runtimeAuthorization/audit.ts) and the issue codes
-- that it lets through (app/lib/phase6/runtimeAuthorization/validation.ts).
use atra_workunit_os.Prelude.{String, List, [], ◌∷◌, ◌==◌, if◌then◌else◌, keep}
use atra_workunit_os.Js.{includes}
use atra_workunit_os.Authorization.Types.{State, Evidence}

-- `RUNTIME_AUTHORIZATION_ISSUE_CODES`
abbrev pub issue_codes : List String
issue_codes =
    "invalid_runtime_authorization_input" ∷ "runtime_authorization_validation_exception"
    ∷ "runtime_authorization_state_missing" ∷ "runtime_authorization_linkage_invalid"
    ∷ "runtime_authorization_linkage_stale" ∷ "runtime_authorization_linkage_expired"
    ∷ "runtime_authorization_linkage_revoked" ∷ "runtime_authorization_linkage_used"
    ∷ "runtime_authorization_linkage_replayed" ∷ "runtime_authorization_linkage_not_verified"
    ∷ "runtime_authorization_decision_not_ready" ∷ "runtime_authorization_decision_outcome_not_pass"
    ∷ "runtime_authorization_decision_scope_mismatch"
    ∷ "runtime_authorization_evidence_not_accepted" ∷ "runtime_authorization_approval_not_required"
    ∷ "runtime_authorization_execution_not_required" ∷ "runtime_authorization_promotion_required"
    ∷ "runtime_authorization_four_eyes_not_required"
    ∷ "runtime_authorization_self_approval_not_blocked" ∷ "runtime_authorization_no_go_flag_present"
    ∷ "runtime_authorization_decision_invalid" ∷ "runtime_authorization_tenant_mismatch"
    ∷ "runtime_authorization_workunit_mismatch" ∷ "runtime_authorization_action_preview_mismatch"
    ∷ "runtime_authorization_approval_mismatch" ∷ "runtime_authorization_action_type_mismatch"
    ∷ "runtime_authorization_target_hash_mismatch" ∷ "runtime_authorization_payload_hash_mismatch"
    ∷ "runtime_authorization_executor_invalid"
    ∷ "runtime_authorization_executor_actor_kind_mismatch"
    ∷ "runtime_authorization_executor_source_untrusted"
    ∷ "runtime_authorization_executor_subject_unsupported"
    ∷ "runtime_authorization_executor_tenant_mismatch"
    ∷ "runtime_authorization_executor_equals_approver" ∷ "runtime_authorization_expired"
    ∷ "runtime_authorization_timestamp_inconsistent" ∷ "runtime_authorization_rbac_denied"
    ∷ "runtime_authorization_kill_switch_off" ∷ []

pub data EventKind : Type 0 where
  requested eligible claimed created rejected replayed blocked : EventKind

-- `RuntimeAuthorizationAuditEvent`
pub record AuditEvent : Type 0 where
  pub event_kind : EventKind
  pub tenant_id : String
  pub workunit_id : String
  pub action_preview_id : String
  pub approval_id : String
  pub action_type : String
  pub state : State
  pub issue_codes : List String
  pub evaluated_at : String

-- The identifiers of a request or of the evidence.
pub record Request : Type 0 where
  pub tenant_id : String
  pub work_unit_id : String
  pub action_preview_id : String
  pub approval_id : String
  pub action_type : String

abbrev pub request_of : Evidence → Request
request_of e = record {
  tenant_id = e.tenant_id;
  work_unit_id = e.workunit_id;
  action_preview_id = e.action_preview_id;
  approval_id = e.approval_id;
  action_type = e.action_type;
}

-- `safeId`
abbrev safe_id : String → String
safe_id s = if s == "" then "redacted" else s

-- `auditFrom`, with `projectRuntimeAuthorizationAudit`
unfoldable pub audit_from : EventKind → Request → State → String → List String → AuditEvent
unfolding includes
audit_from kind source state at codes = record {
  event_kind = kind;
  tenant_id = safe_id source.tenant_id;
  workunit_id = safe_id source.work_unit_id;
  action_preview_id = safe_id source.action_preview_id;
  approval_id = safe_id source.approval_id;
  action_type = safe_id source.action_type;
  state = state;
  issue_codes = keep (λ code. includes issue_codes code) codes;
  evaluated_at = at;
}
