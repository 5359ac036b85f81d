-- ===== src/Identity/Constructors.antt =====
-- The constructors of canonical identities (app/lib/phase6/canonicalIdentity/constructors.ts).
use atra_workunit_os.Prelude.{String, Bool, false, none, some, List, [], ◌∷◌, ◌==◌, ◌||◌, ◌&&◌, not}
use atra_workunit_os.Js.{Value, str, obj, Fields, field, end, includes}
use atra_workunit_os.Time.Profile.{is_not_before}
use atra_workunit_os.Authorization.Snapshot.{snapshot_record_or_null, property, is_flag}
use atra_workunit_os.Identity.Issues.{
  invalid_identity_input, identity_state_missing, identity_source_untrusted,
  identity_session_expired, identity_tenant_mismatch, identity_actor_kind_mismatch,
  identity_validation_exception, Issue, canonical_identity_issue, require, require_not,
  is_non_empty, is_iso, is_one_of, is_marker, collect_unsupported_identity_marker_issues,
  unknown_issues,
}
use atra_workunit_os.Identity.Validation.{validate_canonical_identity}

-- `CanonicalIdentityConstructionResult`
pub data Construction : Type 0 where
  refused : List Issue → Construction
  created : Fields → Construction

abbrev pub session_derivable_actor_kinds : List String
session_derivable_actor_kinds = "requester" ∷ "reviewer" ∷ "approver" ∷ "executor" ∷ []

abbrev pub session_input_fields : List String
session_input_fields = "actor_kind" ∷ "expected_tenant_id" ∷ "observed_at" ∷ []

abbrev pub preview_input_fields : List String
preview_input_fields = "expected_tenant_id" ∷ "observed_at" ∷ []

-- `collectInputFieldIssues`, in front of the issues of what follows. A marker among the keys has had
-- its own issue.
unfoldable pub collect_input_field_issues : Fields → List String → List Issue → List Issue
collect_input_field_issues snapshot allowed rest =
    collect_unsupported_identity_marker_issues snapshot "(input)"
      (unknown_issues (λ k. includes allowed k || is_marker k) "(input)" snapshot rest)

-- The candidate that a constructor builds.
unfoldable pub candidate : Value → Value → Value → String → Value → Value → Fields
candidate tenant user kind source source_record observed_at = field "tenant_id" tenant (
    field "user_id" user (
      field "actor_kind" kind (
        field "identity_source" (str source) (
          field "source_record_id" source_record
            (field "observed_at" observed_at (field "subject_type" (str "human_user") end))))))

-- `produceCanonicalIdentity`
unfoldable pub produce_canonical_identity : Fields → Construction
produce_canonical_identity fs = elim (validate_canonical_identity (obj fs)) [
  | [] ↦ created fs
  | issue ∷ issues ↦ refused (issue ∷ issues)
]

-- `compareCanonicalIsoUtc(observedAt, expiresAt) >= 0`, on texts.
unfoldable pub is_past : Value → Value → Bool
is_past (str observed_at) (str expires_at) = is_not_before observed_at expires_at
is_past _ _ = false

-- `a !== b`, on texts.
unfoldable pub differs : Value → Value → Bool
differs (str s) (str t) = not (s == t)
differs _ _ = false

unfoldable pub expiry_issues : Value → Value → List Issue → List Issue
expiry_issues observed_at expires_at rest =
    require (is_iso expires_at) identity_state_missing "(session).expiresAt" (
      require_not (is_iso expires_at && is_iso observed_at && is_past observed_at expires_at)
        identity_session_expired "(session).expiresAt" rest)

unfoldable pub tenant_issues : Value → Value → String → List Issue → List Issue
tenant_issues expected tenant place rest =
    require_not (is_non_empty expected && is_non_empty tenant && differs expected tenant)
      identity_tenant_mismatch place rest

-- The issues of the input of createCanonicalSessionIdentity, in front of the session's.
unfoldable pub session_input_issues : Fields → List Issue → List Issue
session_input_issues input rest = collect_input_field_issues input session_input_fields (
    require (is_one_of session_derivable_actor_kinds (property "actor_kind" input))
      identity_actor_kind_mismatch "(input).actor_kind"
      (require (is_non_empty (property "expected_tenant_id" input)) identity_state_missing
        "(input).expected_tenant_id"
        (require (is_iso (property "observed_at" input)) invalid_identity_input
          "(input).observed_at" rest)))

unfoldable pub session_issues : Fields → Fields → List Issue
session_issues session input = collect_unsupported_identity_marker_issues session "(session)" (
    require (is_non_empty (property "userId" session)) identity_state_missing "(session).userId" (
      require (is_non_empty (property "tenantId" session)) identity_state_missing
        "(session).tenantId"
        (require (is_non_empty (property "sessionId" session)) identity_state_missing
          "(session).sessionId"
          (expiry_issues (property "observed_at" input) (property "expiresAt" session) (
            require (is_flag (property "isDevSession" session) false) identity_source_untrusted
              "(session).isDevSession"
              (tenant_issues (property "expected_tenant_id" input) (property "tenantId" session)
                "(session).tenantId" []))))))

-- Refuses with the issues, if there are any.
abbrev pub unless_issues : List Issue → Construction → Construction
unless_issues [] next = next
unless_issues (issue ∷ issues) next = refused (issue ∷ issues)

-- `createCanonicalSessionIdentity`
unfoldable pub create_canonical_session_identity : Value → Value → Construction
create_canonical_session_identity session_value input_value =
    let caught : Construction = refused (
      canonical_identity_issue identity_validation_exception "(session_identity_constructor)"
      ∷ []) in
    elim (snapshot_record_or_null input_value) [
      | none ↦ caught
      | some none ↦ refused (canonical_identity_issue invalid_identity_input "(input)" ∷ [])
      | some (some input) ↦ elim (snapshot_record_or_null session_value) [
        | none ↦ caught
        | some none ↦ refused (
            session_input_issues input
              (canonical_identity_issue invalid_identity_input "(session)" ∷ []))
        | some (some session) ↦
            unless_issues (session_input_issues input (session_issues session input)) (
              produce_canonical_identity (
                candidate (property "tenantId" session) (property "userId" session)
                  (property "actor_kind" input) "authenticated_session"
                  (property "sessionId" session) (property "observed_at" input)))
      ]
    ]

unfoldable pub preview_input_issues : Fields → List Issue → List Issue
preview_input_issues input rest = collect_input_field_issues input preview_input_fields (
    require (is_non_empty (property "expected_tenant_id" input)) identity_state_missing
      "(input).expected_tenant_id"
      (require (is_iso (property "observed_at" input)) invalid_identity_input "(input).observed_at"
        rest))

unfoldable pub preview_issues : Fields → Fields → List Issue
preview_issues preview input = collect_unsupported_identity_marker_issues preview "(preview)" (
    require (is_non_empty (property "creatorUserId" preview)) identity_state_missing
      "(preview).creatorUserId"
      (require (is_non_empty (property "tenantId" preview)) identity_state_missing
        "(preview).tenantId"
        (require (is_non_empty (property "id" preview)) identity_state_missing "(preview).id" (
          require (is_non_empty (property "workUnitId" preview)) identity_state_missing
            "(preview).workUnitId"
            (tenant_issues (property "expected_tenant_id" input) (property "tenantId" preview)
              "(preview).tenantId" [])))))

-- `createCanonicalPreviewCreatorIdentity`
unfoldable pub create_canonical_preview_creator_identity : Value → Value → Construction
create_canonical_preview_creator_identity preview_value input_value =
    let caught : Construction = refused (
      canonical_identity_issue identity_validation_exception "(creator_identity_constructor)"
      ∷ []) in
    elim (snapshot_record_or_null input_value) [
      | none ↦ caught
      | some none ↦ refused (canonical_identity_issue invalid_identity_input "(input)" ∷ [])
      | some (some input) ↦ elim (snapshot_record_or_null preview_value) [
        | none ↦ caught
        | some none ↦ refused (
            preview_input_issues input
              (canonical_identity_issue invalid_identity_input "(preview)" ∷ []))
        | some (some preview) ↦
            unless_issues (preview_input_issues input (preview_issues preview input)) (
              produce_canonical_identity (
                candidate (property "tenantId" preview) (property "creatorUserId" preview)
                  (str "creator") "stored_action_preview_creator" (property "id" preview)
                  (property "observed_at" input)))
      ]
    ]
