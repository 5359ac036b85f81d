-- ===== src/Authorization/Soundness.antt =====
-- What an eligible evaluation has checked (app/lib/phase6/runtimeAuthorization/eligibility.ts).
use atra_workunit_os.Prelude.{
  ◌≡◌, refl, ◌∙◌, sym, ap, String, Bool, true, false, List, [], ◌∷◌, arith, eq_iff, not,
}
use mathlib.Core.Path.{subst}
use atra_workunit_os.Js.{Value, Fields}
use atra_workunit_os.Time.{date_ge}
use atra_workunit_os.Authorization.Types.{
  State, expired, Evidence, Outcome, failed, done, >>=-eq-done,
}
use atra_workunit_os.Authorization.Snapshot.{property, is_text}
use atra_workunit_os.Authorization.Decision.{evaluate_human_decision_runtime_eligibility}
use atra_workunit_os.Authorization.Envelope.{
  IntendedAction, demand, caught, iso_text, envelope_issues, executor_issues, equals_approver,
  no_issues,
}
use atra_workunit_os.Authorization.Eligibility.{
  Evaluators, Readings, read_input, check_linkage, read_executor, ttl_ceiling, authorization_expiry,
  bounded_expiry, evaluate_eligibility,
}

not-true : (b : Bool) → not b ≡ true → b ≡ false
not-true true h = cc
not-true false h = refl

demand-done :
    (test : Bool) (s : State) (code : String) {u : Unit {0}}
    → demand test s code ≡ done u
    → test ≡ true
demand-done true s code h = refl
demand-done false s code h = absurd (ground (arith, h))

no_issues-done :
    (codes : List String) (s : State) {u : Unit {0}} → no_issues codes s ≡ done u → codes ≡ []
no_issues-done [] s h = refl
no_issues-done (code ∷ codes) s h = absurd (ground (arith, h))

pub done-injective : {A : Type 0} {a b : A} → done a ≡ done b → a ≡ b
done-injective {A} {a} h = ap (λ m. result m) h
  where
    result : Outcome A → A
    result (failed _ _) = a
    result (done x) = x

-- The linkage is bound to the intended action in every field.
pub record IsBound (linkage : Fields) (intended : IntendedAction) : Type 0 where
  pub tenant : is_text (property "tenant_id" linkage) intended.tenant_id ≡ true
  pub workunit : is_text (property "workunit_id" linkage) intended.workunit_id ≡ true
  pub preview : is_text (property "action_preview_id" linkage) intended.action_preview_id ≡ true
  pub approval : is_text (property "approval_id" linkage) intended.approval_id ≡ true
  pub action : is_text (property "action_type" linkage) intended.action_type ≡ true
  pub target : is_text (property "target_hash" linkage) intended.target_hash ≡ true
  pub payload : is_text (property "payload_hash" linkage) intended.payload_hash ≡ true

envelope_issues-IsBound :
    (linkage : Fields) (intended : IntendedAction)
    → envelope_issues linkage intended ≡ []
    → IsBound linkage intended
unfolding envelope_issues
envelope_issues-IsBound linkage intended h = ground (arith, h)

-- The executor is a human with a session in the tenant of the action, and is not its approver.
pub record IsSeparate (executor linkage : Fields) (intended : IntendedAction) : Type 0 where
  pub kind : is_text (property "actor_kind" executor) "executor" ≡ true
  pub source : is_text (property "identity_source" executor) "authenticated_session" ≡ true
  pub subject : is_text (property "subject_type" executor) "human_user" ≡ true
  pub tenant : is_text (property "tenant_id" executor) intended.tenant_id ≡ true
  pub distinct : equals_approver executor linkage ≡ false

executor_issues-IsSeparate :
    (executor linkage : Fields) (intended : IntendedAction)
    → executor_issues executor linkage intended ≡ []
    → IsSeparate executor linkage intended
unfolding executor_issues
executor_issues-IsSeparate executor linkage intended h = ground (arith, h)

module _ (calls : Evaluators) where
  -- All that stands behind an eligible evaluation.
  pub record IsEligible (input : Value) (e : Evidence) : Type 0 where
    pub readings : Readings
    pub read : read_input input ≡ done readings
    pub verified :
        calls.verify_approval_linkage readings.linkage readings.context ≡ (true, "verified")
    pub decided :
        evaluate_human_decision_runtime_eligibility calls.validate_human_decision_record
          (property "human_decision" readings.context)
        ≡ []
    pub bound : IsBound readings.linkage readings.intended
    pub executor : Fields
    pub identified : read_executor calls readings.executor_identity ≡ done executor
    pub separate : IsSeparate executor readings.linkage readings.intended
    pub tenant_id : e.tenant_id ≡ readings.intended.tenant_id
    pub workunit_id : e.workunit_id ≡ readings.intended.workunit_id
    pub action_preview_id : e.action_preview_id ≡ readings.intended.action_preview_id
    pub approval_id : e.approval_id ≡ readings.intended.approval_id
    pub action_type : e.action_type ≡ readings.intended.action_type
    pub target_hash : e.target_hash ≡ readings.intended.target_hash
    pub payload_hash : e.payload_hash ≡ readings.intended.payload_hash
    pub executor_id : e.executor_id ≡ property "user_id" executor
    pub issued_at : e.issued_at ≡ readings.issued_at
    pub unexpired : date_ge calls.parse_other_date e.issued_at e.expires_at ≡ false

  check_linkage-verified :
      (linkage context : Fields) {u : Unit {0}}
      → check_linkage calls linkage context ≡ done u
      → calls.verify_approval_linkage linkage context ≡ (true, "verified")
  unfolding check_linkage
  check_linkage-verified linkage context h =
      let both = demand-done _ _ _ h in
      ground (arith, both, eq_iff (calls.verify_approval_linkage linkage context).1 "verified")

  bounded_expiry-unexpired :
      (linkage : Fields) (issued_at session_expires_at : String) {expires_at : String}
      → bounded_expiry calls linkage issued_at session_expires_at ≡ done expires_at
      → date_ge calls.parse_other_date issued_at expires_at ≡ false
  unfolding bounded_expiry
  bounded_expiry-unexpired linkage issued_at session_expires_at {expires_at} h =
      let (linkage_end, _, h) =
        >>=-eq-done (iso_text (property "linkage_expires_at" linkage) _) _ h in
      let (preview_end, _, h) =
        >>=-eq-done (iso_text (property "preview_expires_at" linkage) _) _ h in
      let (approval_end, _, h) =
        >>=-eq-done (iso_text (property "approval_expires_at" linkage) _) _ h in
      let (ceiling, _, h) =
        >>=-eq-done (caught (ttl_ceiling calls.parse_other_date calls.to_iso_string issued_at)) _
          h in
      let first =
        authorization_expiry calls.parse_other_date linkage_end preview_end approval_end
          session_expires_at ceiling in
      let open_time = not (date_ge calls.parse_other_date issued_at first) in
      let (_, early, h) =
        >>=-eq-done (demand open_time expired "runtime_authorization_expired") _ h in
      let late : open_time ≡ true =
        demand-done open_time expired "runtime_authorization_expired" early in
      let same : first ≡ expires_at = done-injective h in
      subst (λ x. date_ge calls.parse_other_date issued_at x ≡ false) same
        (not-true (date_ge calls.parse_other_date issued_at first) late)

  -- An evaluation is eligible only if the linkage verifies on the very snapshots that are used, the
  -- human decision among them passes the runtime policy, the linkage is bound to the intended action
  -- in all seven fields, the executor is a valid human session identity of the action's tenant other
  -- than the approver, and the time of issue is not at or after the expiry. The evidence repeats the
  -- intended action, the executor's user and the time.
  pub evaluate_eligibility_sound :
      (input : Value) (e : Evidence)
      → evaluate_eligibility calls input ≡ done e
      → IsEligible input e
  unfolding evaluate_eligibility
  evaluate_eligibility_sound input e h =
      let (r, read, h) = >>=-eq-done (read_input input) _ h in
      let (_, linked, h) = >>=-eq-done (check_linkage calls r.linkage r.context) _ h in
      let (_, decided, h) = >>=-eq-done (no_issues _ _) _ h in
      let (_, same, h) = >>=-eq-done (no_issues _ _) _ h in
      let (executor, identified, h) = >>=-eq-done (read_executor calls r.executor_identity) _ h in
      let (_, fit, h) = >>=-eq-done (no_issues _ _) _ h in
      let (expires_at, bounded, h) =
        >>=-eq-done (bounded_expiry calls r.linkage r.issued_at r.session_expires_at) _ h in
      let late = bounded_expiry-unexpired r.linkage r.issued_at r.session_expires_at bounded in
      let same_evidence = done-injective h in
      record {
        readings = r;
        read = read;
        verified = check_linkage-verified r.linkage r.context linked;
        decided = no_issues-done _ _ decided;
        bound = envelope_issues-IsBound r.linkage r.intended (no_issues-done _ _ same);
        executor = executor;
        identified = identified;
        separate =
            executor_issues-IsSeparate executor r.linkage r.intended (no_issues-done _ _ fit);
        tenant_id = ap (λ x. x.tenant_id) (sym same_evidence);
        workunit_id = ap (λ x. x.workunit_id) (sym same_evidence);
        action_preview_id = ap (λ x. x.action_preview_id) (sym same_evidence);
        approval_id = ap (λ x. x.approval_id) (sym same_evidence);
        action_type = ap (λ x. x.action_type) (sym same_evidence);
        target_hash = ap (λ x. x.target_hash) (sym same_evidence);
        payload_hash = ap (λ x. x.payload_hash) (sym same_evidence);
        executor_id = ap (λ x. x.executor_id) (sym same_evidence);
        issued_at = ap (λ x. x.issued_at) (sym same_evidence);
        unexpired =
            ap (λ x. date_ge calls.parse_other_date x.issued_at x.expires_at) (sym same_evidence)
            ∙ late;
      }
