-- ===== src/Identity/Tests.antt =====
-- Identities on concrete values.
use atra_workunit_os.Prelude.{◌≡◌, ◌↔◌, refl, String, Bool, true, false, some, []}
use atra_workunit_os.Js.{Value, str, bool, obj, Fields, field, end, includes}
use atra_workunit_os.Time.{is_iso_utc_timestamp}
use atra_workunit_os.Authorization.Snapshot.{
  Attempt, copy_fields, snapshot_record_or_null, property,
}
use atra_workunit_os.Identity.Issues.{
  is_non_empty, is_iso, is_one_of, has_own, collect_unsupported_identity_marker_issues,
  unknown_issues,
}
use atra_workunit_os.Identity.Validation.{
  identity_issues, is_mispaired, validate_canonical_identity, is_same_canonical_user,
}
use atra_workunit_os.Identity.Valid.{IsIdentity, validate_canonical_identity_iff}
use atra_workunit_os.Identity.Constructors.{
  candidate, created, create_canonical_session_identity, create_canonical_preview_creator_identity,
}
use atra_workunit_os.Identity.Creators.{
  IsFromPreview, create_canonical_preview_creator_identity_iff,
}
use atra_workunit_os.Identity.Sessions.{IsDerived, create_canonical_session_identity_iff}
use atra_workunit_os.Identity.Independence.{
  context_issues, is_same, provenance_issues, all_provenance_issues, is_other, binding_issues,
  separation_issues, structural_issues, bound_issues, verify_identity_independence,
}
use atra_workunit_os.Identity.Positions.{
  snapshot_or_null, keep_identity, read_identity, identity_at, read_issues,
}
use atra_workunit_os.Identity.Independence.Distinct.{
  IsIndependent, verify_identity_independence_sound,
}

abbrev now : String
now = "2026-01-01T00:30:00.000Z"

abbrev session : Value
session = obj (
    field "userId" (str "u1") (
      field "tenantId" (str "t1") (
        field "isDevSession" (bool false)
          (field "sessionId" (str "s1") (field "expiresAt" (str "2026-01-02T00:00:00Z") end)))))

abbrev session_input : Value
session_input = obj (
    field "actor_kind" (str "requester")
      (field "expected_tenant_id" (str "t1") (field "observed_at" (str now) end)))

abbrev identity : String → String → String → String → Fields
identity user kind source source_record =
    candidate (str "t1") (str user) (str kind) source (str source_record) (str now)

abbrev by_session : String → String → Fields
by_session user kind = identity user kind "authenticated_session" "s1"

validate_canonical_identity_iff_example :
    (validate_canonical_identity (obj (by_session "u1" "requester")) ≡ []) ↔ (
      (fs : Fields) × (snapshot_record_or_null (obj (by_session "u1" "requester")) ≡ some (some fs))
      × IsIdentity fs)
validate_canonical_identity_iff_example =
    validate_canonical_identity_iff (obj (by_session "u1" "requester"))

create_canonical_session_identity_iff_example :
    (create_canonical_session_identity session session_input
      ≡ created (by_session "u1" "requester"))
    ↔ IsDerived session session_input (by_session "u1" "requester")
create_canonical_session_identity_iff_example =
    create_canonical_session_identity_iff session session_input (by_session "u1" "requester")

abbrev preview : Value
preview = obj (
    field "id" (str "p1") (
      field "tenantId" (str "t1")
        (field "workUnitId" (str "w1") (field "creatorUserId" (str "u1") end))))

abbrev preview_input : Value
preview_input = obj (field "expected_tenant_id" (str "t1") (field "observed_at" (str now) end))

create_canonical_preview_creator_identity_iff_example :
    (create_canonical_preview_creator_identity preview preview_input
      ≡ created (identity "u1" "creator" "stored_action_preview_creator" "p1"))
    ↔ IsFromPreview preview preview_input
        (identity "u1" "creator" "stored_action_preview_creator" "p1")
create_canonical_preview_creator_identity_iff_example =
    create_canonical_preview_creator_identity_iff preview preview_input
      (identity "u1" "creator" "stored_action_preview_creator" "p1")

abbrev accept : Fields → Attempt Bool
accept _ = some true

abbrev evaluation : Value
evaluation = obj (
    field "human_decision"
      (obj (field "tenant_id" (str "t1") (field "human_decision_id" (str "d1") end)))
      (field "review_evidence"
        (obj (
          field "tenant_id" (str "t1") (
            field "source_human_decision_id" (str "d1") (
              field "source_workunit_id" (str "w1") (
                field "first_reviewer_id" (str "u3")
                  (field "second_reviewer_id" (str "u4") end))))))
        (field "requester_identity" (obj (by_session "u1" "requester")) (
          field "creator_identity"
            (obj (identity "u1" "creator" "stored_action_preview_creator" "p1"))
            (field "first_reviewer_identity" (obj (by_session "u3" "reviewer")) (
              field "second_reviewer_identity" (obj (by_session "u4" "reviewer")) (
                field "approver_identity" (obj (by_session "u2" "approver")) (
                  field "expected_tenant_id" (str "t1") (
                    field "expected_human_decision_id" (str "d1") (
                      field "expected_workunit_id" (str "w1") (
                        field "expected_action_preview_id" (str "p1")
                          (field "evaluated_at" (str now) end))))))))))))

evaluation_verified : verify_identity_independence accept accept evaluation ≡ []
unfolding verify_identity_independence snapshot_or_null keep_identity read_identity identity_at
    read_issues context_issues is_same provenance_issues all_provenance_issues is_other
    binding_issues separation_issues structural_issues bound_issues copy_fields
    snapshot_record_or_null property is_non_empty is_iso is_one_of has_own
    collect_unsupported_identity_marker_issues unknown_issues identity_issues is_mispaired
    validate_canonical_identity is_same_canonical_user candidate includes is_iso_utc_timestamp
evaluation_verified = refl

verify_identity_independence_sound_example : IsIndependent accept accept evaluation
verify_identity_independence_sound_example =
    verify_identity_independence_sound accept accept evaluation evaluation_verified
