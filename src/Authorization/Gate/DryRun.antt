-- ===== src/Authorization/Gate/DryRun.antt =====
-- `evaluateRuntimeAuthorizationDryRun` (app/lib/security/runtimeAuthorizationGate.ts), and that it
-- tells what the gate would do.
use atra_workunit_os.Prelude.{
  ◌≡◌, refl, ap, inl, inr, String, Bool, true, false, Option, none, some, arith, unless, Bool-cases,
  Option-cases,
}
use atra_workunit_os.Js.{Value}
use atra_workunit_os.Rbac.{Session, are_external_actions_enabled}
use atra_workunit_os.Authorization.Types.{State, done, failed, Outcome-cases}
use atra_workunit_os.Authorization.Snapshot.{Attempt}
use atra_workunit_os.Authorization.Eligibility.{Evaluators}
use atra_workunit_os.Authorization.Bundle.{Bundle}
use atra_workunit_os.Authorization.Audit.{Request}
use atra_workunit_os.Authorization.Gate.{
  ApprovalStore, claim_and_issue, recheck, finalize, authorize_runtime_command, Moments,
  has_execute_permission, request_fields_valid, evaluate_resolved,
}
use atra_workunit_os.Authorization.Gate.Claims.{
  Cleared, prior_events, Refusal, authorize_runtime_command_outcome,
}

-- `RuntimeAuthorizationDryRunResult`
pub data Disposition : Type 0 where
  verified blocked not_ready forbidden : Disposition

-- The disposition of a failed evaluation.
abbrev pub disposition_of : State → Disposition
disposition_of State.blocked = Disposition.blocked
disposition_of State.forbidden = Disposition.forbidden
disposition_of _ = Disposition.not_ready

abbrev pub is_verified : Disposition → Bool
is_verified Disposition.verified = true
is_verified _ = false

disposition_of-unverified : (s : State) → is_verified (disposition_of s) ≡ false
disposition_of-unverified State.eligible = refl
disposition_of-unverified State.invalid = refl
disposition_of-unverified State.not_ready = refl
disposition_of-unverified State.forbidden = refl
disposition_of-unverified State.stale = refl
disposition_of-unverified State.expired = refl
disposition_of-unverified State.revoked = refl
disposition_of-unverified State.used = refl
disposition_of-unverified State.replayed = refl
disposition_of-unverified State.blocked = refl
disposition_of-unverified State.authorized_not_executed = refl

module _ (calls : Evaluators) (create_session_identity : Session → String → String → Option Value)
    (m : Moments) (request : Request) where
  -- The part behind the wait for the evidence.
  unfoldable pub dry_run_finalize : Bundle → Disposition
  dry_run_finalize bundle = elim m.session_after [
    | none ↦ Disposition.forbidden
    | some session ↦
        elim (evaluate_resolved calls create_session_identity bundle session m.claim_at request) [
          | failed state codes ↦ disposition_of state
          | done e ↦ unless (has_execute_permission (some session)) Disposition.forbidden (
              unless (are_external_actions_enabled m.actions_after) Disposition.blocked
                Disposition.verified)
        ]
  ]

  unfoldable pub evaluate_dry_run : Attempt (Option Bundle) → Disposition
  evaluate_dry_run resolved = unless (request_fields_valid request) Disposition.not_ready (
      unless (has_execute_permission m.session_before) Disposition.forbidden (
        unless (are_external_actions_enabled m.actions_before) Disposition.blocked (elim resolved [
          | none ↦ Disposition.not_ready
          | some none ↦ Disposition.not_ready
          | some (some bundle) ↦ dry_run_finalize bundle
        ])))

  -- A dry run is verified if every check of the gate passes.
  Cleared-verified :
      (resolved : Attempt (Option Bundle))
      → Cleared calls create_session_identity m request resolved
      → evaluate_dry_run resolved ≡ Disposition.verified
  unfolding evaluate_dry_run dry_run_finalize
  Cleared-verified resolved c =
      rw
        (
          evaluate_dry_run, c.valid, c.permitted_before, c.enabled_before, c.is_bundle,
          dry_run_finalize, c.is_session, c.resolves, c.permitted, c.enabled,
        )
        refl

  -- The gate comes to the claim if every check passes.
  Cleared-issue :
      {S : Type 0} (approvals : ApprovalStore S) (store : S) (resolved : Attempt (Option Bundle))
      (c : Cleared calls create_session_identity m request resolved)
      → authorize_runtime_command calls create_session_identity approvals m request resolved store
        ≡ claim_and_issue calls create_session_identity approvals request
            (prior_events calls create_session_identity m request c.evidence)
            c.evidence
            m.caught_at
            store
  unfolding authorize_runtime_command finalize recheck
  Cleared-issue approvals store resolved c =
      rw
        (
          authorize_runtime_command, c.valid, c.permitted_before, c.enabled_before, c.is_bundle,
          finalize, c.is_session, c.resolves, recheck, c.permitted, c.enabled,
        )
        refl

  finalize-Cleared :
      (bundle : Bundle)
      → request_fields_valid request ≡ true
      → has_execute_permission m.session_before ≡ true
      → are_external_actions_enabled m.actions_before ≡ true
      → is_verified (dry_run_finalize bundle) ≡ true
      → Cleared calls create_session_identity m request (some (some bundle))
  unfolding dry_run_finalize
  finalize-Cleared bundle v p k h = elim (Option-cases m.session_after) [
    | inl none_left ↦ absurd (ground (arith, rw (dry_run_finalize, none_left) at h))
    | inr (session, s) ↦
        elim (Outcome-cases
          (evaluate_resolved calls create_session_identity bundle session m.claim_at request)) [
            | inl (state, codes, f) ↦
                absurd (
                  ground (arith, rw (dry_run_finalize, s, f) at h, disposition_of-unverified state))
            | inr (e, f) ↦ elim (Bool-cases (has_execute_permission (some session))) [
              | inr no_role ↦ absurd (ground (arith, rw (dry_run_finalize, s, f, no_role) at h))
              | inl role ↦ elim (Bool-cases (are_external_actions_enabled m.actions_after)) [
                | inr off ↦ absurd (ground (arith, rw (dry_run_finalize, s, f, role, off) at h))
                | inl on ↦ record {
                  bundle = bundle;
                  session = session;
                  evidence = e;
                  is_bundle = refl;
                  is_session = s;
                  valid = v;
                  permitted_before = p;
                  enabled_before = k;
                  resolves = f;
                  permitted = role;
                  enabled = on;
                }
              ]
            ]
          ]
  ]

  verified-Cleared :
      (resolved : Attempt (Option Bundle))
      → is_verified (evaluate_dry_run resolved) ≡ true
      → Cleared calls create_session_identity m request resolved
  unfolding evaluate_dry_run
  verified-Cleared resolved h = elim (Bool-cases (request_fields_valid request)) [
    | inr v ↦ absurd (ground (arith, rw (evaluate_dry_run, v) at h))
    | inl v ↦ elim (Bool-cases (has_execute_permission m.session_before)) [
      | inr p ↦ absurd (ground (arith, rw (evaluate_dry_run, v, p) at h))
      | inl p ↦ elim (Bool-cases (are_external_actions_enabled m.actions_before)) [
        | inr k ↦ absurd (ground (arith, rw (evaluate_dry_run, v, p, k) at h))
        | inl k ↦ found v p k resolved h
      ]
    ]
  ]
    where
      found :
          request_fields_valid request ≡ true
          → has_execute_permission m.session_before ≡ true
          → are_external_actions_enabled m.actions_before ≡ true
          → (r : Attempt (Option Bundle)) → is_verified (evaluate_dry_run r) ≡ true
          → Cleared calls create_session_identity m request r
      found v p k none g = absurd (ground (arith, rw (evaluate_dry_run, v, p, k) at g))
      found v p k (some none) g = absurd (ground (arith, rw (evaluate_dry_run, v, p, k) at g))
      found v p k (some (some bundle)) g =
          finalize-Cleared bundle v p k (rw (evaluate_dry_run, v, p, k) at g)

  -- With the same moments and evidence, a dry run is verified exactly if the gate gets as far as the
  -- claim; then the gate's answer is the claim's. If it is not verified, the gate refuses and leaves
  -- the store as it was.
  pub evaluate_dry_run-authorize :
      {S : Type 0} (approvals : ApprovalStore S) (store : S) (resolved : Attempt (Option Bundle))
      → (is_verified (evaluate_dry_run resolved) ≡ true
          → (c : Cleared calls create_session_identity m request resolved)
            × (authorize_runtime_command calls create_session_identity approvals m request resolved
                  store
                ≡ claim_and_issue calls create_session_identity approvals request
                    (prior_events calls create_session_identity m request c.evidence)
                    c.evidence
                    m.caught_at
                    store))
        × (is_verified (evaluate_dry_run resolved) ≡ false
            → Refusal store (
                authorize_runtime_command calls create_session_identity approvals m request resolved
                  store))
  evaluate_dry_run-authorize approvals store resolved =
      elim (authorize_runtime_command_outcome calls create_session_identity m request approvals
        store resolved) [
          | inl (c, f) ↦ (
            λ _. (c, f),
            λ h. absurd (ground (arith, h, ap is_verified (Cleared-verified resolved c))),
          )
          | inr r ↦ (
            λ h.
                let c = verified-Cleared resolved h in
                (c, Cleared-issue approvals store resolved c),
            λ _. r,
          )
        ]
