-- ===== src/Authorization/Gate/Accountable.antt =====
-- Who is accountable for a receipt of the gate of app/lib/security/runtimeAuthorizationGate.ts: the
-- user of the session that it saw last, and not the approver.
use atra_workunit_os.Prelude.{
  ◌≡◌, refl, ◌∙◌, sym, ap, inl, inr, String, false, Option, some, arith, ◌==◌, Bool-cases,
  Option-cases,
}
use mathlib.Core.Path.{subst}
use atra_workunit_os.Js.{Value, str, obj, Fields, read_own}
use atra_workunit_os.Rbac.{owner, Session}
use atra_workunit_os.Time.Profile.{is_not_before}
use atra_workunit_os.Identity.Constructors.{candidate}
use atra_workunit_os.Authorization.Types.{forbidden, Evidence, done, >>=-eq-done}
use atra_workunit_os.Authorization.Snapshot.{
  Attempt, copy_fields, snapshot_record_or_null, property, is_text,
}
use atra_workunit_os.Authorization.Envelope.{demand, caught, present, equals_approver}
use atra_workunit_os.Authorization.Eligibility.{Evaluators, read_executor, evaluate_eligibility}
use atra_workunit_os.Authorization.Soundness.{done-injective, evaluate_eligibility_sound}
use atra_workunit_os.Authorization.Binding.{caught-some, present-some, read_input-IsGiven}
use atra_workunit_os.Authorization.Bundle.{Bundle, envelope_matches, eligibility_input}
use atra_workunit_os.Authorization.Audit.{Request}
use atra_workunit_os.Authorization.Receipt.{Receipt, construct_receipt}
use atra_workunit_os.Authorization.Gate.{evaluate_resolved}
use atra_workunit_os.Authorization.Gate.{
  Moments, authorized, ApprovalStore, authorize_runtime_command,
}
use atra_workunit_os.Authorization.Gate.Receipts.{authorize_runtime_command-receipt}
use atra_workunit_os.Authorization.Gate.Executor.{
  executor_identity, IsExecutor, executor_identity-IsExecutor, some-some-injective,
}

-- What evidence that the gate evaluated says of the executor.
record IsResolved (session : Session) (bundle : Bundle) (request : Request) (now : String)
    (e : Evidence) : Type 0 where
  fs : Fields
  executor : IsExecutor session request.tenant_id now fs
  executor_id : e.executor_id ≡ str session.user_id
  linkage : Fields
  read_linkage : snapshot_record_or_null bundle.linkage ≡ some (some linkage)
  not_approver : is_text (property "approver_id" linkage) session.user_id ≡ false

candidate-copy :
    (a b c d : String)
    → snapshot_record_or_null
        (obj (candidate (str a) (str b) (str "executor") "authenticated_session" (str c) (str d)))
      ≡ some (
          some (candidate (str a) (str b) (str "executor") "authenticated_session" (str c) (str d)))
unfolding candidate snapshot_record_or_null copy_fields
candidate-copy a b c d = refl

candidate-user :
    (a b c d : String)
    → property "user_id"
        (candidate (str a) (str b) (str "executor") "authenticated_session" (str c) (str d))
      ≡ str b
unfolding candidate property read_own
candidate-user a b c d = refl

-- A snapshot of the identity is the identity.
same_snapshot :
    (session : Session) (tenant now : String) (fs : Fields) {gs : Fields}
    → IsExecutor session tenant now fs
    → snapshot_record_or_null (obj fs) ≡ some (some gs)
    → gs ≡ fs
same_snapshot session tenant now fs {gs} x h =
    let copy =
      subst (λ y. snapshot_record_or_null (obj y) ≡ some (some y)) (sym x.identity)
        (candidate-copy session.tenant_id session.user_id session.session_id now) in
    sym (some-some-injective (sym copy ∙ h))

user_of :
    (session : Session) (tenant now : String) (fs : Fields)
    → IsExecutor session tenant now fs
    → property "user_id" fs ≡ str session.user_id
user_of session tenant now fs x =
    ap (λ y. property "user_id" y) x.identity
    ∙ candidate-user session.tenant_id session.user_id session.session_id now

not_approver-text :
    (executor linkage : Fields) (user : String)
    → (user == "") ≡ false
    → property "user_id" executor ≡ str user
    → equals_approver executor linkage ≡ false
    → is_text (property "approver_id" linkage) user ≡ false
unfolding equals_approver
not_approver-text executor linkage user n p h = rw (equals_approver, p, n) at h

module _ (calls : Evaluators) where
  read_executor-snapshot :
      (v : Value) {fs : Fields}
      → read_executor calls v ≡ done fs
      → snapshot_record_or_null v ≡ some (some fs)
  unfolding read_executor
  read_executor-snapshot v {fs} h =
      let (found, ef, h) = >>=-eq-done (caught (snapshot_record_or_null v)) _ h in
      let (executor, ee, h) =
        >>=-eq-done (present found forbidden "runtime_authorization_executor_invalid") _ h in
      let (ok, eo, h) = >>=-eq-done (caught (calls.validate_canonical_identity executor)) _ h in
      let (_, ev, h) =
        >>=-eq-done (demand ok forbidden "runtime_authorization_executor_invalid") _ h in
      caught-some (snapshot_record_or_null v) ef
      ∙ ap (λ x. some x)
          (present-some found forbidden "runtime_authorization_executor_invalid" ee
            ∙ ap (λ x. some x) (done-injective h))

  evaluate_resolved-IsResolved :
      (bundle : Bundle) (session : Session) (now : String) (request : Request) (e : Evidence)
      → evaluate_resolved calls executor_identity bundle session now request ≡ done e
      → IsResolved session bundle request now e
  unfolding evaluate_resolved
  evaluate_resolved-IsResolved bundle session now request e h =
      elim (Option-cases bundle.intended_action) [
        | inl f ↦ absurd (ground (arith, rw (evaluate_resolved, f) at h))
        | inr (envelope, f) ↦ elim (Bool-cases (envelope_matches envelope request)) [
          | inr g ↦ absurd (ground (arith, rw (evaluate_resolved, f, g) at h))
          | inl g ↦ elim (Option-cases (executor_identity session request.tenant_id now)) [
            | inl k ↦ absurd (ground (arith, rw (evaluate_resolved, f, g, k) at h))
            | inr (executor, k) ↦
                let given : evaluate_eligibility calls
                      (eligibility_input bundle envelope executor session.expires_at now)
                    ≡ done e =
                  rw (evaluate_resolved, f, g, k) at h in
                let s =
                  evaluate_eligibility_sound calls
                    (eligibility_input bundle envelope executor session.expires_at now) e given in
                let i =
                  read_input-IsGiven bundle envelope executor session.expires_at now s.readings
                    s.read in
                let (fs, shape, x) =
                  executor_identity-IsExecutor session request.tenant_id now executor k in
                let read = read_executor-snapshot s.readings.executor_identity s.identified in
                let same = same_snapshot session request.tenant_id now fs x (
                  ap (λ v. snapshot_record_or_null v) (sym (i.executor_identity ∙ shape)) ∙ read) in
                let user =
                  ap (λ y. property "user_id" y) same
                  ∙ user_of session request.tenant_id now fs x in
                record {
                  fs = fs;
                  executor = x;
                  executor_id = s.executor_id ∙ user;
                  linkage = s.readings.linkage;
                  read_linkage = i.linkage;
                  not_approver =
                      not_approver-text s.executor s.readings.linkage session.user_id x.named user
                        s.separate.distinct;
                }
          ]
        ]
      ]

  -- What a receipt says of its executor.
  pub record IsAccountable (m : Moments) (request : Request) (resolved : Attempt (Option Bundle))
      (receipt : Receipt) : Type 0 where
    pub session : Session
    pub is_session : m.session_after ≡ some session
    pub owns : session.role ≡ owner
    pub same_tenant : session.tenant_id ≡ request.tenant_id
    pub genuine : session.is_dev_session ≡ false
    pub unexpired : is_not_before m.claim_at session.expires_at ≡ false
    pub executor_id : receipt.evidence.executor_id ≡ str session.user_id
    pub bundle : Bundle
    pub is_bundle : resolved ≡ some (some bundle)
    pub linkage : Fields
    pub read_linkage : snapshot_record_or_null bundle.linkage ≡ some (some linkage)
    pub not_approver : is_text (property "approver_id" linkage) session.user_id ≡ false

  -- With the executor's identity constructed as the code does, a receipt names as its executor the
  -- user of the session that the gate saw last. That session is an owner's of the request's tenant, no
  -- development session, and not past its expiry at the time of the claim, and its user is not the
  -- approver that the resolved linkage names.
  pub authorize_runtime_command-IsAccountable :
      {S : Type 0} (approvals : ApprovalStore S) (m : Moments) (request : Request)
      (resolved : Attempt (Option Bundle)) (store : S) (receipt : Receipt)
      → (authorize_runtime_command calls executor_identity approvals m request resolved
          store).result
        ≡ authorized receipt
      → IsAccountable m request resolved receipt
  unfolding construct_receipt
  authorize_runtime_command-IsAccountable approvals m request resolved store receipt h =
      let i =
        authorize_runtime_command-receipt calls executor_identity approvals m request resolved store
          receipt h in
      let c = i.cleared in
      let r =
        evaluate_resolved-IsResolved c.bundle c.session m.claim_at request c.evidence c.resolves in
      record {
        session = c.session;
        is_session = c.is_session;
        owns = i.executor_owns;
        same_tenant = r.executor.same_tenant;
        genuine = r.executor.genuine;
        unexpired = r.executor.unexpired;
        executor_id = ap (λ x. x.evidence.executor_id) i.constructed ∙ r.executor_id;
        bundle = c.bundle;
        is_bundle = c.is_bundle;
        linkage = r.linkage;
        read_linkage = r.read_linkage;
        not_approver = r.not_approver;
      }
