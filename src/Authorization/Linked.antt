-- ===== src/Authorization/Linked.antt =====
-- Eligibility with the code's own verifier of linkages: the evaluator of
-- app/lib/phase6/runtimeAuthorization/eligibility.ts with app/lib/phase6/approvalLinkage.
use atra_workunit_os.Prelude.{◌≡◌, String, Bool, true, false}
use atra_workunit_os.Js.{obj, Fields}
use atra_workunit_os.Authorization.Types.{Evidence}
use atra_workunit_os.Authorization.Snapshot.{property}
use atra_workunit_os.Authorization.Envelope.{equals_approver}
use atra_workunit_os.Authorization.Eligibility.{Evaluators}
use atra_workunit_os.Linkage.Sources.{Calls}
use atra_workunit_os.Linkage.Verifier.{
  State, verified, invalid, is_stale, is_expired, is_revoked, is_used, is_replayed,
  verify_approval_linkage,
}
use atra_workunit_os.Linkage.Trusted.{IsTrusted}

-- `state`, as the text that the evaluator compares.
unfoldable pub state_name : State → String
state_name verified = "verified"
state_name invalid = "invalid"
state_name is_stale = "stale"
state_name is_expired = "expired"
state_name is_revoked = "revoked"
state_name is_used = "used"
state_name is_replayed = "replayed"

-- `ok`
unfoldable pub is_ok : State → Bool
is_ok verified = true
is_ok _ = false

-- `ok` and the state of a result.
abbrev pub ok_and_name : State → Bool × String
ok_and_name s = (is_ok s, state_name s)

-- What the evaluator calls, with the code's own verifier of linkages.
unfoldable pub with_linkage : Calls → Evaluators → Evaluators
with_linkage sources calls = record calls {
  verify_approval_linkage = λ linkage context.
      ok_and_name (verify_approval_linkage sources (obj linkage) (obj context)).0;
}

module _ (sources : Calls) (calls : Evaluators) where
  -- What eligible evidence says of the sources.
  pub record IsGrounded (e : Evidence) : Type 0 where
    pub linkage : Fields
    pub context : Fields
    pub trusted : IsTrusted sources (obj linkage) (obj context)
    pub target : e.target_hash ≡ trusted.action.target_hash
    pub payload : e.payload_hash ≡ trusted.action.payload_hash
    pub approval : e.approval_id ≡ trusted.action.approval.id
    pub executor : Fields
    pub executor_id : e.executor_id ≡ property "user_id" executor
    pub not_approver : equals_approver executor linkage ≡ false
