-- ===== src/Authorization/Eligibility.antt =====
-- The eligibility evaluator (app/lib/phase6/runtimeAuthorization/eligibility.ts) and the derived
-- keys (app/lib/phase6/runtimeAuthorization/canonical.ts). The linkage verifier and the validators of
-- identities and of decisions are parameters, as are the hash and the text of an instant.
use atra_workunit_os.Prelude.{
  ℕ, ◌+◌, String, Bool, Option, none, some, List, [], ◌∷◌, if◌then◌else◌, ◌&&◌, not, ◌==◌,
}
use Prim.Native.String.{◌++◌ as ◌+++◌}
use atra_workunit_os.Js.{Value, str, Fields}
use atra_workunit_os.Time.{time_value, date_ge}
use atra_workunit_os.Authorization.Types.{
  invalid, not_ready, forbidden, stale, expired, Evidence, Outcome, done, ◌>>=◌,
}
use atra_workunit_os.Authorization.Snapshot.{
  Attempt, snapshot_record_or_null, property, only_keys, is_text,
}
use atra_workunit_os.Authorization.Decision.{evaluate_human_decision_runtime_eligibility}
use atra_workunit_os.Authorization.Envelope.{
  IntendedAction, input_fields, max_authorization_ttl_ms, demand, caught, present, iso_text,
  linkage_state_to_eligibility, read_intended_action, envelope_issues, executor_issues, no_issues,
  deep_record,
}

module _ (fallback : String → Option ℕ) where
  -- `minIso`
  unfoldable pub min_iso : String → String → String
  min_iso a b = if date_ge fallback b a then a else b

  -- The minimum of the linkage's three expiries, the session's, and the ceiling.
  unfoldable pub authorization_expiry : String → String → String → String → String → String
  authorization_expiry linkage preview approval session ceiling =
      min_iso (min_iso (min_iso (min_iso linkage preview) approval) session) ceiling

  -- `new Date(parseIsoMs(issuedAt) + MAX_AUTHORIZATION_TTL_MS).toISOString()`; an invalid date throws.
  unfoldable pub ttl_ceiling : (ℕ → String) → String → Attempt String
  ttl_ceiling to_iso_string issued_at = elim (time_value fallback issued_at) [
    | none ↦ none
    | some t ↦ some (to_iso_string (t + max_authorization_ttl_ms))
  ]

-- `deriveRuntimeAuthorizationIdempotencyKey`
unfoldable pub derive_idempotency_key :
    (List (String × Value) → String) → IntendedAction → Value → Value → String
derive_idempotency_key hash_field intended linkage_id executor_id = hash_field (
    ("hash_domain", str "atra.runtime-authorization-idempotency")
    ∷ ("hash_version", str "1")
    ∷ ("tenant_id", str intended.tenant_id)
    ∷ ("workunit_id", str intended.workunit_id)
    ∷ ("action_preview_id", str intended.action_preview_id)
    ∷ ("approval_id", str intended.approval_id)
    ∷ ("approval_linkage_id", linkage_id)
    ∷ ("action_type", str intended.action_type)
    ∷ ("target_hash", str intended.target_hash)
    ∷ ("payload_hash", str intended.payload_hash)
    ∷ ("executor_id", executor_id)
    ∷ [])

-- `deriveRuntimeAuthorizationId`
unfoldable pub derive_authorization_id : (List (String × Value) → String) → String → String
derive_authorization_id hash_field key =
    "rauth_"
    +++ hash_field (
        ("hash_domain", str "atra.runtime-authorization-idempotency")
        ∷ ("hash_version", str "1")
        ∷ ("idempotency_key", str key)
        ∷ [])

-- What the evaluator calls outside of its module.
pub record Evaluators : Type 0 where
  pub verify_approval_linkage : Fields → Fields → Bool × String
  pub validate_human_decision_record : Fields → Attempt Bool
  pub validate_canonical_identity : Fields → Attempt Bool
  pub hash_field : List (String × Value) → String
  pub to_iso_string : ℕ → String
  pub parse_other_date : String → Option ℕ

-- Steps 1 to 3: the timestamps, the intended action, the linkage and its context.
pub record Readings : Type 0 where
  pub issued_at : String
  pub session_expires_at : String
  pub intended : IntendedAction
  pub linkage : Fields
  pub context : Fields
  pub executor_identity : Value

unfoldable pub read_input : Value → Outcome Readings
read_input input = do
  found ← caught (snapshot_record_or_null input)
  snap ← present found invalid "invalid_runtime_authorization_input"
  known ← demand (only_keys input_fields snap) invalid "invalid_runtime_authorization_input"
  issued_at ← iso_text (property "issued_at" snap) "invalid_runtime_authorization_input"
  session_expires_at ←
      iso_text (property "session_expires_at" snap) "invalid_runtime_authorization_input"
  intended ← read_intended_action (property "intended_action" snap)
  linked ← caught (snapshot_record_or_null (property "linkage" snap))
  linkage ← present linked invalid "runtime_authorization_linkage_invalid"
  context ← deep_record (property "linkage_context" snap)
  timely ←
      demand (is_text (property "evaluated_at" context) issued_at) invalid
        "runtime_authorization_timestamp_inconsistent"
  done (record {
    issued_at = issued_at;
    session_expires_at = session_expires_at;
    intended = intended;
    linkage = linkage;
    context = context;
    executor_identity = property "executor_identity" snap;
  })

module _ (calls : Evaluators) where
  unfoldable pub check_linkage : Fields → Fields → Outcome (Unit {0})
  check_linkage linkage context =
      let (ok, state) = calls.verify_approval_linkage linkage context in
      let (mapped, code) = linkage_state_to_eligibility state in
      demand (ok && (state == "verified")) mapped code

  unfoldable pub read_executor : Value → Outcome Fields
  read_executor identity = do
    found ← caught (snapshot_record_or_null identity)
    executor ← present found forbidden "runtime_authorization_executor_invalid"
    ok ← caught (calls.validate_canonical_identity executor)
    valid ← demand ok forbidden "runtime_authorization_executor_invalid"
    done executor

  -- Step 8: the expiry, which the time of issue must precede.
  unfoldable pub bounded_expiry : Fields → String → String → Outcome String
  bounded_expiry linkage issued_at session_expires_at = do
    linkage_end ←
        iso_text (property "linkage_expires_at" linkage) "runtime_authorization_linkage_invalid"
    preview_end ←
        iso_text (property "preview_expires_at" linkage) "runtime_authorization_linkage_invalid"
    approval_end ←
        iso_text (property "approval_expires_at" linkage) "runtime_authorization_linkage_invalid"
    ceiling ← caught (ttl_ceiling calls.parse_other_date calls.to_iso_string issued_at)
    let expires_at =
        authorization_expiry calls.parse_other_date linkage_end preview_end approval_end
          session_expires_at ceiling
    early ←
        demand (not (date_ge calls.parse_other_date issued_at expires_at)) expired
          "runtime_authorization_expired"
    done expires_at

  -- `evaluateRuntimeAuthorizationEligibility`
  unfoldable pub evaluate_eligibility : Value → Outcome Evidence
  evaluate_eligibility input = do
    r ← read_input input
    linked ← check_linkage r.linkage r.context
    decided ←
        no_issues
          (evaluate_human_decision_runtime_eligibility calls.validate_human_decision_record
            (property "human_decision" r.context))
          not_ready
    same ← no_issues (envelope_issues r.linkage r.intended) stale
    executor ← read_executor r.executor_identity
    fit ← no_issues (executor_issues executor r.linkage r.intended) forbidden
    expires_at ← bounded_expiry r.linkage r.issued_at r.session_expires_at
    let linkage_id = property "approval_linkage_id" r.linkage
    let executor_id = property "user_id" executor
    let key = derive_idempotency_key calls.hash_field r.intended linkage_id executor_id
    done (record {
      tenant_id = r.intended.tenant_id;
      workunit_id = r.intended.workunit_id;
      action_preview_id = r.intended.action_preview_id;
      approval_id = r.intended.approval_id;
      approval_linkage_id = linkage_id;
      action_type = r.intended.action_type;
      target_hash = r.intended.target_hash;
      payload_hash = r.intended.payload_hash;
      executor_id = executor_id;
      idempotency_key = key;
      authorization_id = derive_authorization_id calls.hash_field key;
      issued_at = r.issued_at;
      expires_at = expires_at;
    })
