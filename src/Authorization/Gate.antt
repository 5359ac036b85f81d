-- ===== src/Authorization/Gate.antt =====
-- The gate of app/lib/security/runtimeAuthorizationGate.ts, which turns eligible evidence into a
-- receipt once the store's claim wins. What changes around its one `await` (the clock, the session
-- and the kill switch) is read at explicit moments.
pub mod Claims
pub mod Receipts
pub mod Once
pub mod DryRun
pub mod Executor
pub mod Accountable
use atra_workunit_os.Prelude.{
  ℕ, String, Bool, true, false, Option, none, some, List, [], ◌∷◌, ◌++◌, ◌==◌, if◌then◌else◌, ◌&&◌,
  not, unless,
}
use atra_workunit_os.Js.{
  Value, undefined, null, revoked, bool, num, str, arr, obj, Items, Fields, end, field, throws,
  symbol,
}
use atra_workunit_os.Rbac.{
  Session, workunit_execute_external_action, has_permission, are_external_actions_enabled,
}
use atra_workunit_os.Approval.{Binding}
use atra_workunit_os.Approval.Store.{ClaimInput}
use atra_workunit_os.Authorization.Types.{
  State, eligible, invalid, not_ready, forbidden, stale, used, blocked, authorized_not_executed,
  Evidence, Outcome, failed, done,
}
use atra_workunit_os.Authorization.Snapshot.{Attempt}
use atra_workunit_os.Authorization.Eligibility.{Evaluators, evaluate_eligibility}
use atra_workunit_os.Authorization.Audit as Audit
use atra_workunit_os.Authorization.Audit.{Request, AuditEvent, EventKind, request_of, audit_from}
use atra_workunit_os.Authorization.Receipt.{Receipt, construct_receipt}
use atra_workunit_os.Authorization.Bundle.{
  Bundle, is_non_empty, envelope_matches, eligibility_input, claim_of,
}

-- `RuntimeAuthorizationResult`
pub data Result : Type 0 where
  authorized : Receipt → Result
  refused : State → String → Result

-- What the gate reads, before and after it waits for the evidence. A session that is no object is
-- none; the last time is read where an exception is caught.
pub record Moments : Type 0 where
  pub requested_at : String
  pub session_before : Option Session
  pub actions_before : Option String
  pub session_after : Option Session
  pub claim_at : String
  pub actions_after : Option String
  pub caught_at : String

-- `hasExecutePermission`
unfoldable pub has_execute_permission : Option Session → Bool
unfolding has_permission
has_execute_permission none = false
has_execute_permission (some session) = has_permission session workunit_execute_external_action

unfoldable pub request_fields_valid : Request → Bool
request_fields_valid request =
    is_non_empty request.tenant_id
    && is_non_empty request.work_unit_id
    && is_non_empty request.action_preview_id
    && is_non_empty request.approval_id
    && is_non_empty request.action_type

abbrev pub first_code : List String → String
first_code [] = "runtime_authorization_state_missing"
first_code (code ∷ codes) = code

-- The store that the gate claims from; a claim that throws is none.
pub record ApprovalStore (S : Type 0) : Type 0 where
  pub claim : ClaimInput → S → Attempt Bool × S

-- The result, the events flushed to the sink, and the store.
pub record Answer (S : Type 0) : Type 0 where
  pub result : Result
  pub events : List AuditEvent
  pub store : S

module _ (calls : Evaluators)
    (create_session_identity : Session → String → String → Option Value) where
  -- `evaluateResolvedRuntimeAuthorization`
  unfoldable pub evaluate_resolved : Bundle → Session → String → Request → Outcome Evidence
  evaluate_resolved bundle session claim_at request = elim bundle.intended_action [
    | none ↦ failed stale ("runtime_authorization_state_missing" ∷ [])
    | some envelope ↦
        unless (envelope_matches envelope request)
          (failed stale ("runtime_authorization_state_missing" ∷ []))
          (elim (create_session_identity session request.tenant_id claim_at) [
            | none ↦ failed forbidden ("runtime_authorization_executor_invalid" ∷ [])
            | some executor ↦
                evaluate_eligibility calls
                  (eligibility_input bundle envelope executor session.expires_at claim_at)
          ])
  ]

  module _ {S : Type 0} (approvals : ApprovalStore S) (request : Request) where
    -- One more event, and a refusal.
    abbrev pub refuse :
        List AuditEvent → EventKind → Request → State → String → String → S → Answer S
    refuse prior kind source state at code store = record {
      result = refused state code;
      events = prior ++ (audit_from kind source state at (code ∷ []) ∷ []);
      store = store;
    }

    -- Steps 5 and 6, from the claim on.
    unfoldable pub claim_and_issue : List AuditEvent → Evidence → String → S → Answer S
    claim_and_issue prior e caught_at store =
        let (won, after) = approvals.claim (claim_of e) store in
        elim won [
          | none ↦
              refuse prior Audit.rejected request invalid caught_at
                "runtime_authorization_validation_exception" after
          | some false ↦
              refuse prior Audit.replayed (request_of e) used e.issued_at
                "runtime_authorization_linkage_used" after
          | some true ↦ record {
            result = authorized (construct_receipt calls.hash_field e);
            events =
                prior
                ++ (audit_from Audit.claimed (request_of e) eligible e.issued_at []
                    ∷ audit_from Audit.created (request_of e) authorized_not_executed e.issued_at []
                    ∷ []);
            store = after;
          }
        ]

  module _ {S : Type 0} (approvals : ApprovalStore S) (m : Moments) (request : Request) where
    -- The final checks, on the snapshot of the session, next to the claim.
    unfoldable pub recheck : List AuditEvent → Session → Evidence → S → Answer S
    unfolding has_execute_permission are_external_actions_enabled
    recheck prior session e store =
        unless (has_execute_permission (some session))
          (refuse approvals request prior Audit.rejected (request_of e) forbidden m.claim_at
            "runtime_authorization_rbac_denied" store)
          (unless (are_external_actions_enabled m.actions_after)
            (refuse approvals request prior Audit.blocked (request_of e) blocked m.claim_at
              "runtime_authorization_kill_switch_off" store)
            (claim_and_issue approvals request prior e m.caught_at store))

    abbrev failure_kind : State → EventKind
    failure_kind blocked = Audit.blocked
    failure_kind _ = Audit.rejected

    -- Step 4, synchronous from here to the claim.
    unfoldable pub finalize : List AuditEvent → Bundle → S → Answer S
    finalize prior bundle store = elim m.session_after [
      | none ↦
          refuse approvals request prior Audit.rejected request forbidden m.requested_at
            "runtime_authorization_executor_invalid" store
      | some session ↦ elim (evaluate_resolved bundle session m.claim_at request) [
        | failed state codes ↦
            refuse approvals request prior (failure_kind state) request state m.claim_at
              (first_code codes) store
        | done e ↦
            recheck
              (prior ++ (audit_from Audit.eligible (request_of e) eligible e.issued_at [] ∷ []))
              session e store
      ]
    ]

    -- `authorizeRuntimeCommand`, given what resolving the evidence gives or throws.
    unfoldable pub authorize_runtime_command : Attempt (Option Bundle) → S → Answer S
    authorize_runtime_command resolved store =
        let prior = audit_from Audit.requested request not_ready m.requested_at [] ∷ [] in
        unless (request_fields_valid request)
          (refuse approvals request prior Audit.rejected request invalid m.requested_at
            "invalid_runtime_authorization_input" store)
          (unless (has_execute_permission m.session_before)
            (refuse approvals request prior Audit.rejected request forbidden m.requested_at
              "runtime_authorization_rbac_denied" store)
            (unless (are_external_actions_enabled m.actions_before)
              (refuse approvals request prior Audit.blocked request blocked m.requested_at
                "runtime_authorization_kill_switch_off" store)
              (elim resolved [
                | none ↦
                    refuse approvals request prior Audit.rejected request invalid m.caught_at
                      "runtime_authorization_validation_exception" store
                | some none ↦
                    refuse approvals request prior Audit.rejected request not_ready m.requested_at
                      "runtime_authorization_state_missing" store
                | some (some bundle) ↦ finalize prior bundle store
              ])))
