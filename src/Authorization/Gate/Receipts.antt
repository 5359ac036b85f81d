-- ===== src/Authorization/Gate/Receipts.antt =====
-- What stands behind a receipt of the gate of app/lib/security/runtimeAuthorizationGate.ts.
use atra_workunit_os.Prelude.{
  ◌≡◌, refl, ◌∙◌, sym, ap, inl, inr, String, Bool, true, false, Option, none, some, List, arith,
  eq_iff, Bool-cases, Option-cases,
}
use atra_workunit_os.Js.{Value}
use atra_workunit_os.Rbac.{owner, Session}
use atra_workunit_os.Rbac.Laws.{has_permission-owner}
use atra_workunit_os.Authorization.Types.{Evidence, done}
use atra_workunit_os.Authorization.Snapshot.{Attempt}
use atra_workunit_os.Authorization.Eligibility.{Evaluators, evaluate_eligibility}
use atra_workunit_os.Authorization.Binding.{evaluate_eligibility-IsOn}
use atra_workunit_os.Authorization.Bundle.{
  Envelope, Bundle, envelope_matches, eligibility_input, claim_of,
}
use atra_workunit_os.Authorization.Audit.{Request, AuditEvent}
use atra_workunit_os.Authorization.Receipt.{Receipt, construct_receipt}
use atra_workunit_os.Authorization.Gate.{
  Result, authorized, refused, Moments, has_execute_permission, ApprovalStore, Answer,
  evaluate_resolved, claim_and_issue, authorize_runtime_command,
}
use atra_workunit_os.Authorization.Gate.Claims.{
  Cleared, prior_events, authorize_runtime_command_outcome,
}

authorized-injective : {a b : Receipt} → authorized a ≡ authorized b → a ≡ b
authorized-injective {a} h = ap (λ r. receipt_of r) h
  where
    receipt_of : Result → Receipt
    receipt_of (authorized r) = r
    receipt_of (refused _ _) = a

-- The envelope is the request's.
record Same (envelope : Envelope) (request : Request) : Type 0 where
  tenant_id : envelope.tenant_id ≡ request.tenant_id
  work_unit_id : envelope.work_unit_id ≡ request.work_unit_id
  action_preview_id : envelope.action_preview_id ≡ request.action_preview_id
  approval_id : envelope.approval_id ≡ request.approval_id
  action_type : envelope.action_type ≡ request.action_type

envelope_matches-Same :
    (envelope : Envelope) (request : Request)
    → envelope_matches envelope request ≡ true
    → Same envelope request
unfolding envelope_matches
envelope_matches-Same envelope request h = ground (
  arith,
  h,
  eq_iff envelope.tenant_id request.tenant_id,
  eq_iff envelope.work_unit_id request.work_unit_id,
  eq_iff envelope.action_preview_id request.action_preview_id,
  eq_iff envelope.approval_id request.approval_id,
  eq_iff envelope.action_type request.action_type,
)

-- Evidence for a request at a time: every identifier is the request's, the hashes are those of the
-- resolved envelope.
pub record IsFor (e : Evidence) (request : Request) (bundle : Bundle) (now : String) : Type 0 where
  pub envelope : Envelope
  pub resolved : bundle.intended_action ≡ some envelope
  pub tenant_id : e.tenant_id ≡ request.tenant_id
  pub workunit_id : e.workunit_id ≡ request.work_unit_id
  pub action_preview_id : e.action_preview_id ≡ request.action_preview_id
  pub approval_id : e.approval_id ≡ request.approval_id
  pub action_type : e.action_type ≡ request.action_type
  pub target_hash : e.target_hash ≡ envelope.target_hash
  pub payload_hash : e.payload_hash ≡ envelope.payload_hash
  pub issued_at : e.issued_at ≡ now

module _ (calls : Evaluators)
    (create_session_identity : Session → String → String → Option Value) where
  evaluate_resolved-IsFor :
      (bundle : Bundle) (session : Session) (now : String) (request : Request) (e : Evidence)
      → evaluate_resolved calls create_session_identity bundle session now request ≡ done e
      → IsFor e request bundle now
  unfolding evaluate_resolved
  evaluate_resolved-IsFor bundle session now request e h =
      elim (Option-cases bundle.intended_action) [
        | inl f ↦ absurd (ground (arith, rw (evaluate_resolved, f) at h))
        | inr (envelope, f) ↦ elim (Bool-cases (envelope_matches envelope request)) [
          | inr g ↦ absurd (ground (arith, rw (evaluate_resolved, f, g) at h))
          | inl g ↦ elim (Option-cases (create_session_identity session request.tenant_id now)) [
            | inl k ↦ absurd (ground (arith, rw (evaluate_resolved, f, g, k) at h))
            | inr (executor, k) ↦
                let given : evaluate_eligibility calls
                      (eligibility_input bundle envelope executor session.expires_at now)
                    ≡ done e =
                  rw (evaluate_resolved, f, g, k) at h in
                let on =
                  evaluate_eligibility-IsOn calls bundle envelope executor session.expires_at now e
                    given in
                let same = envelope_matches-Same envelope request g in
                record {
                  envelope = envelope;
                  resolved = f;
                  tenant_id = on.tenant_id ∙ same.tenant_id;
                  workunit_id = on.workunit_id ∙ same.work_unit_id;
                  action_preview_id = on.action_preview_id ∙ same.action_preview_id;
                  approval_id = on.approval_id ∙ same.approval_id;
                  action_type = on.action_type ∙ same.action_type;
                  target_hash = on.target_hash;
                  payload_hash = on.payload_hash;
                  issued_at = on.issued_at;
                }
          ]
        ]
      ]

  module _ {S : Type 0} (approvals : ApprovalStore S) (m : Moments) (request : Request) where
    -- What a receipt means.
    pub record Issued (resolved : Attempt (Option Bundle)) (store : S) (receipt : Receipt)
        (answer : Answer S) : Type 0 where
      pub cleared : Cleared calls create_session_identity m request resolved
      pub constructed : receipt ≡ construct_receipt calls.hash_field cleared.evidence
      pub for_request : IsFor cleared.evidence request cleared.bundle m.claim_at
      pub executor_owns : cleared.session.role ≡ owner
      pub claimed : approvals.claim (claim_of cleared.evidence) store ≡ (some true, answer.store)

    abbrev issue : List AuditEvent → Evidence → String → S → Answer S
    issue prior e caught_at store =
        claim_and_issue calls create_session_identity approvals request prior e caught_at store

    -- The claim's answer is a receipt only if the claim won.
    claim_and_issue-won :
        (prior : List AuditEvent) (e : Evidence) (caught_at : String) (store : S)
        (receipt : Receipt)
        → (issue prior e caught_at store).result ≡ authorized receipt
        → (receipt ≡ construct_receipt calls.hash_field e)
          × (approvals.claim (claim_of e) store
              ≡ (some true, (issue prior e caught_at store).store))
    unfolding claim_and_issue
    claim_and_issue-won prior e caught_at store receipt h =
        by_claim (approvals.claim (claim_of e) store) refl
      where
        by_claim :
            (p : Attempt Bool × S)
            → approvals.claim (claim_of e) store ≡ p
            → (receipt ≡ construct_receipt calls.hash_field e)
              × (approvals.claim (claim_of e) store
                  ≡ (some true, (issue prior e caught_at store).store))
        by_claim (none, after) k = absurd (ground (arith, rw (claim_and_issue, k) at h))
        by_claim (some false, after) k = absurd (ground (arith, rw (claim_and_issue, k) at h))
        by_claim (some true, after) k = (
          sym (authorized-injective (rw (claim_and_issue, k) at h)),
          rw (claim_and_issue, k) (ap (λ q. (some true, q.1)) (sym k)),
        )

    -- The gate hands out a receipt only if all its checks passed on the evidence that it resolved,
    -- the session that it saw last is an owner's, and the store's claim won on exactly the request's
    -- identifiers and the resolved hashes, at the time read after the evidence. The receipt is built
    -- of that evidence, and the store that is left is the claim's.
    pub authorize_runtime_command-receipt :
        (resolved : Attempt (Option Bundle)) (store : S) (receipt : Receipt)
        → (authorize_runtime_command calls create_session_identity approvals m request resolved
            store).result
          ≡ authorized receipt
        → Issued resolved store receipt (
            authorize_runtime_command calls create_session_identity approvals m request resolved
              store)
    unfolding has_execute_permission
    authorize_runtime_command-receipt resolved store receipt h =
        elim (authorize_runtime_command_outcome calls create_session_identity m request approvals
          store resolved) [
            | inr r ↦ absurd (ground (arith, sym h ∙ r.refusal))
            | inl (c, f) ↦
                let (built, won) =
                  claim_and_issue-won
                    (prior_events calls create_session_identity m request c.evidence) c.evidence
                    m.caught_at store receipt (ap (λ a. a.result) (sym f) ∙ h) in
                record {
                  cleared = c;
                  constructed = built;
                  for_request =
                      evaluate_resolved-IsFor c.bundle c.session m.claim_at request c.evidence
                        c.resolves;
                  executor_owns = (has_permission-owner c.session).0.0 c.permitted;
                  claimed = won ∙ ap (λ a. (some true, a.store)) (sym f);
                }
          ]
