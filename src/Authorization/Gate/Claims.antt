-- ===== src/Authorization/Gate/Claims.antt =====
-- How the gate of app/lib/security/runtimeAuthorizationGate.ts ends: with a receipt after a claim
-- that won, or with a refusal.
use atra_workunit_os.Prelude.{
  ◌≡◌, refl, ◌⊎◌, inl, inr, String, true, Option, none, some, List, [], ◌∷◌, ◌++◌, Bool-cases,
  Option-cases,
}
use atra_workunit_os.Js.{Value}
use atra_workunit_os.Rbac.{Session, are_external_actions_enabled}
use atra_workunit_os.Authorization.Types.{State, eligible, Evidence, done, Outcome-cases}
use atra_workunit_os.Authorization.Snapshot.{Attempt}
use atra_workunit_os.Authorization.Eligibility.{Evaluators}
use atra_workunit_os.Authorization.Bundle.{Bundle}
use atra_workunit_os.Authorization.Audit as Audit
use atra_workunit_os.Authorization.Audit.{Request, AuditEvent, request_of, audit_from}
use atra_workunit_os.Authorization.Gate.{
  refused, Moments, has_execute_permission, request_fields_valid, ApprovalStore, Answer,
  evaluate_resolved, claim_and_issue, recheck, finalize, authorize_runtime_command,
}

-- A refusal that claims nothing.
pub record Refusal {S : Type 0} (store : S) (answer : Answer S) : Type 0 where
  pub state : State
  pub code : String
  pub refusal : answer.result ≡ refused state code
  pub kept : answer.store ≡ store

refuses :
    {S : Type 0} {store : S} {answer : Answer S} (s : State) (code : String)
    → answer.result ≡ refused s code
    → answer.store ≡ store
    → Refusal store answer
refuses s code e k = record { state = s; code = code; refusal = e; kept = k }

module _ (calls : Evaluators) (create_session_identity : Session → String → String → Option Value)
    (m : Moments) (request : Request) where
  -- All the checks before the claim passed, on these.
  pub record Cleared (resolved : Attempt (Option Bundle)) : Type 0 where
    pub bundle : Bundle
    pub session : Session
    pub evidence : Evidence
    pub is_bundle : resolved ≡ some (some bundle)
    pub is_session : m.session_after ≡ some session
    pub valid : request_fields_valid request ≡ true
    pub permitted_before : has_execute_permission m.session_before ≡ true
    pub enabled_before : are_external_actions_enabled m.actions_before ≡ true
    pub resolves :
        evaluate_resolved calls create_session_identity bundle session m.claim_at request
        ≡ done evidence
    pub permitted : has_execute_permission (some session) ≡ true
    pub enabled : are_external_actions_enabled m.actions_after ≡ true

  -- The events before the claim.
  abbrev pub prior_events : Evidence → List AuditEvent
  prior_events e =
      (audit_from Audit.requested request State.not_ready m.requested_at [] ∷ [])
      ++ (audit_from Audit.eligible (request_of e) eligible e.issued_at [] ∷ [])

  module _ {S : Type 0} (approvals : ApprovalStore S) (store : S) where
    abbrev authorize : Attempt (Option Bundle) → Answer S
    authorize resolved =
        authorize_runtime_command calls create_session_identity approvals m request resolved store

    -- The answer of the claim, once all the checks passed.
    abbrev issue : Evidence → Answer S
    issue e =
        claim_and_issue calls create_session_identity approvals request (prior_events e) e
          m.caught_at store

    abbrev Outcomes : Attempt (Option Bundle) → Answer S → Type 0
    Outcomes resolved answer =
        ((c : Cleared resolved) × (answer ≡ issue c.evidence)) ⊎ Refusal store answer

    finalize_outcome :
        (bundle : Bundle)
        → request_fields_valid request ≡ true
        → has_execute_permission m.session_before ≡ true
        → are_external_actions_enabled m.actions_before ≡ true
        → Outcomes (some (some bundle)) (
            finalize calls create_session_identity approvals m request
              (audit_from Audit.requested request State.not_ready m.requested_at [] ∷ [])
              bundle
              store)
    unfolding finalize recheck
    finalize_outcome bundle v p k = elim (Option-cases m.session_after) [
      | inl none_left ↦ inr (rw (finalize, none_left) (refuses _ _ refl refl))
      | inr (session, s) ↦
          elim (Outcome-cases
            (evaluate_resolved calls create_session_identity bundle session m.claim_at request)) [
              | inl (kind, codes, f) ↦ inr (rw (finalize, s, f) (refuses _ _ refl refl))
              | inr (e, f) ↦ elim (Bool-cases (has_execute_permission (some session))) [
                | inr no_role ↦ inr (rw (finalize, s, f, recheck, no_role) (refuses _ _ refl refl))
                | inl role ↦ elim (Bool-cases (are_external_actions_enabled m.actions_after)) [
                  | inr off ↦ inr (rw (finalize, s, f, recheck, role, off) (refuses _ _ refl refl))
                  | inl on ↦ inl (
                    record {
                      bundle = bundle;
                      session = session;
                      evidence = e;
                      is_bundle = refl;
                      is_session = s;
                      valid = v;
                      permitted_before = p;
                      enabled_before = k;
                      resolves = f;
                      permitted = role;
                      enabled = on;
                    },
                    rw (finalize, s, f, recheck, role, on) refl,
                  )
                ]
              ]
            ]
    ]

    -- Either every check passed, and the answer is that of the claim; or the gate refuses and does
    -- not touch the store.
    pub authorize_runtime_command_outcome :
        (resolved : Attempt (Option Bundle))
        → ((c : Cleared resolved) × (authorize resolved ≡ issue c.evidence))
          ⊎ Refusal store (authorize resolved)
    unfolding authorize_runtime_command
    authorize_runtime_command_outcome resolved = elim (Bool-cases (request_fields_valid request)) [
      | inr v ↦ inr (rw (authorize_runtime_command, v) (refuses _ _ refl refl))
      | inl v ↦ elim (Bool-cases (has_execute_permission m.session_before)) [
        | inr p ↦ inr (rw (authorize_runtime_command, v, p) (refuses _ _ refl refl))
        | inl p ↦ elim (Bool-cases (are_external_actions_enabled m.actions_before)) [
          | inr k ↦ inr (rw (authorize_runtime_command, v, p, k) (refuses _ _ refl refl))
          | inl k ↦ cleared v p k resolved
        ]
      ]
    ]
      where
        cleared :
            request_fields_valid request ≡ true
            → has_execute_permission m.session_before ≡ true
            → are_external_actions_enabled m.actions_before ≡ true
            → (found : Attempt (Option Bundle)) → Outcomes found (authorize found)
        cleared v p k none = inr (rw (authorize_runtime_command, v, p, k) (refuses _ _ refl refl))
        cleared v p k (some none) =
            inr (rw (authorize_runtime_command, v, p, k) (refuses _ _ refl refl))
        cleared v p k (some (some bundle)) =
            rw (authorize_runtime_command, v, p, k) (finalize_outcome bundle v p k)
