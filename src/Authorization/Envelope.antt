-- ===== src/Authorization/Envelope.antt =====
-- The intended action, the linkage and the executor, as the eligibility evaluator reads and compares
-- them (app/lib/phase6/runtimeAuthorization/eligibility.ts).
use atra_workunit_os.Prelude.{
  ℕ, String, Bool, false, Option, none, some, List, [], ◌∷◌, if◌then◌else◌, not, ◌==◌,
}
use atra_workunit_os.Js.{Value, str, obj, Fields, includes}
use atra_workunit_os.Time.{is_iso_utc_timestamp}
use atra_workunit_os.Authorization.Types.{
  State, invalid, not_ready, stale, expired, revoked, used, replayed, Outcome, failed, done, ◌>>=◌,
}
use atra_workunit_os.Authorization.Snapshot.{
  Attempt, snapshot_record_or_null, snapshot_deep_frozen, property, only_keys, is_text,
  non_empty_string,
}
use atra_workunit_os.Authorization.Decision.{require}

abbrev pub input_fields : List String
input_fields =
    "linkage" ∷ "linkage_context" ∷ "executor_identity" ∷ "intended_action" ∷ "session_expires_at"
    ∷ "issued_at" ∷ []

abbrev intended_action_fields : List String
intended_action_fields =
    "tenant_id" ∷ "workunit_id" ∷ "action_preview_id" ∷ "approval_id" ∷ "action_type"
    ∷ "target_hash" ∷ "payload_hash" ∷ []

abbrev pub action_types : List String
action_types = "slack_reply" ∷ "gmail_reply" ∷ "github_issue" ∷ "calendar_event" ∷ []

abbrev pub max_authorization_ttl_ms : ℕ
max_authorization_ttl_ms = 30000

-- `RuntimeAuthorizationIntendedAction`
pub record IntendedAction : Type 0 where
  pub tenant_id : String
  pub workunit_id : String
  pub action_preview_id : String
  pub approval_id : String
  pub action_type : String
  pub target_hash : String
  pub payload_hash : String

-- Fails unless the test holds.
abbrev pub demand : Bool → State → String → Outcome (Unit {0})
demand test s code = if test then done tt else failed s (code ∷ [])

-- An attempt that throws ends in the outermost `catch`.
abbrev pub caught : {A : Type 0} → Attempt A → Outcome A
caught none = failed invalid ("runtime_authorization_validation_exception" ∷ [])
caught (some a) = done a

abbrev pub present : {A : Type 0} → Option A → State → String → Outcome A
present none s code = failed s (code ∷ [])
present (some a) s code = done a

-- A text that the timestamp guard accepts.
unfoldable pub iso_text : Value → String → Outcome String
iso_text (str t) code = if is_iso_utc_timestamp t then done t else failed invalid (code ∷ [])
iso_text _ code = failed invalid (code ∷ [])

-- `linkageStateToEligibility`
unfoldable pub linkage_state_to_eligibility : String → State × String
linkage_state_to_eligibility state =
    if state == "invalid"
    then (invalid, "runtime_authorization_linkage_invalid")
    else if state == "stale"
    then (stale, "runtime_authorization_linkage_stale")
    else if state == "expired"
    then (expired, "runtime_authorization_linkage_expired")
    else if state == "revoked"
    then (revoked, "runtime_authorization_linkage_revoked")
    else if state == "used"
    then (used, "runtime_authorization_linkage_used")
    else if state == "replayed"
    then (replayed, "runtime_authorization_linkage_replayed")
    else (not_ready, "runtime_authorization_linkage_not_verified")

abbrev pub nonempty_field : String → Fields → Outcome String
nonempty_field k fs =
    present (non_empty_string (property k fs)) invalid "invalid_runtime_authorization_input"

-- The intended action, its fields checked in their order.
unfoldable pub read_intended_action : Value → Outcome IntendedAction
read_intended_action intended_value = do
  found ← caught (snapshot_record_or_null intended_value)
  intended ← present found invalid "invalid_runtime_authorization_input"
  known ←
      demand (only_keys intended_action_fields intended) invalid
        "invalid_runtime_authorization_input"
  tenant_id ← nonempty_field "tenant_id" intended
  workunit_id ← nonempty_field "workunit_id" intended
  action_preview_id ← nonempty_field "action_preview_id" intended
  approval_id ← nonempty_field "approval_id" intended
  action_type ← nonempty_field "action_type" intended
  target_hash ← nonempty_field "target_hash" intended
  payload_hash ← nonempty_field "payload_hash" intended
  supported ←
      demand (includes action_types action_type) invalid
        "runtime_authorization_action_type_mismatch"
  done (record {
    tenant_id = tenant_id;
    workunit_id = workunit_id;
    action_preview_id = action_preview_id;
    approval_id = approval_id;
    action_type = action_type;
    target_hash = target_hash;
    payload_hash = payload_hash;
  })

-- The fields of the linkage that differ from the intended action.
unfoldable pub envelope_issues : Fields → IntendedAction → List String
envelope_issues linkage intended =
    require (is_text (property "tenant_id" linkage) intended.tenant_id)
      "runtime_authorization_tenant_mismatch"
      (require (is_text (property "workunit_id" linkage) intended.workunit_id)
        "runtime_authorization_workunit_mismatch"
        (require (is_text (property "action_preview_id" linkage) intended.action_preview_id)
          "runtime_authorization_action_preview_mismatch"
          (require (is_text (property "approval_id" linkage) intended.approval_id)
            "runtime_authorization_approval_mismatch"
            (require (is_text (property "action_type" linkage) intended.action_type)
              "runtime_authorization_action_type_mismatch"
              (require (is_text (property "target_hash" linkage) intended.target_hash)
                "runtime_authorization_target_hash_mismatch"
                (require (is_text (property "payload_hash" linkage) intended.payload_hash)
                  "runtime_authorization_payload_hash_mismatch" []))))))

-- The executor's user is the approver of the linkage.
unfoldable pub equals_approver : Fields → Fields → Bool
equals_approver executor linkage = elim (non_empty_string (property "user_id" executor)) [
  | none ↦ false
  | some user ↦ is_text (property "approver_id" linkage) user
]

unfoldable pub executor_issues : Fields → Fields → IntendedAction → List String
executor_issues executor linkage intended =
    require (is_text (property "actor_kind" executor) "executor")
      "runtime_authorization_executor_actor_kind_mismatch"
      (require (is_text (property "identity_source" executor) "authenticated_session")
        "runtime_authorization_executor_source_untrusted"
        (require (is_text (property "subject_type" executor) "human_user")
          "runtime_authorization_executor_subject_unsupported"
          (require (is_text (property "tenant_id" executor) intended.tenant_id)
            "runtime_authorization_executor_tenant_mismatch"
            (require (not (equals_approver executor linkage))
              "runtime_authorization_executor_equals_approver" []))))

-- Stops with the issues, if there are any.
abbrev pub no_issues : List String → State → Outcome (Unit {0})
no_issues [] s = done tt
no_issues (code ∷ codes) s = failed s (code ∷ codes)

-- `snapshotDeepFrozen(value)`, which must be an object and no array.
unfoldable pub deep_record : Value → Outcome Fields
deep_record v = do frozen ← caught (snapshot_deep_frozen v 8); as_object frozen
  where
    as_object : Value → Outcome Fields
    as_object (obj fs) = done fs
    as_object _ = failed not_ready ("runtime_authorization_state_missing" ∷ [])
