-- ===== src/Identity/Validation.antt =====
-- The structural validator of canonical identities, and the equality of users
-- (app/lib/phase6/canonicalIdentity/validation.ts).
use atra_workunit_os.Prelude.{
  String, Bool, false, none, some, List, [], ◌∷◌, ◌||◌, ◌&&◌, not, if◌then◌else◌,
}
use atra_workunit_os.Js.{Value, str, Fields, includes}
use atra_workunit_os.Authorization.Snapshot.{snapshot_record_or_null, property, is_text}
use atra_workunit_os.Identity.Issues.{
  invalid_identity_input, identity_state_missing, identity_source_untrusted,
  identity_actor_kind_mismatch, identity_subject_unsupported, identity_validation_exception, Issue,
  canonical_identity_issue, require, require_not, is_non_empty, is_iso, is_one_of, is_marker,
  collect_unsupported_identity_marker_issues, unknown_issues,
}

abbrev pub canonical_actor_kinds : List String
canonical_actor_kinds = "requester" ∷ "creator" ∷ "reviewer" ∷ "approver" ∷ "executor" ∷ []

abbrev pub canonical_identity_sources : List String
canonical_identity_sources = "authenticated_session" ∷ "stored_action_preview_creator" ∷ []

abbrev pub canonical_identity_subject_types : List String
canonical_identity_subject_types = "human_user" ∷ []

abbrev pub canonical_identity_fields : List String
canonical_identity_fields =
    "tenant_id" ∷ "user_id" ∷ "actor_kind" ∷ "identity_source" ∷ "source_record_id" ∷ "observed_at"
    ∷ "subject_type" ∷ []

-- The only source from which an actor of the kind can come.
unfoldable pub expected_source : Value → String
expected_source kind =
    if is_text kind "creator" then "stored_action_preview_creator" else "authenticated_session"

-- A known kind and a known source that do not belong together.
unfoldable pub is_mispaired : Value → Value → Bool
unfolding expected_source
is_mispaired kind source =
    is_one_of canonical_actor_kinds kind
    && is_one_of canonical_identity_sources source
    && not (is_text source (expected_source kind))

-- The issues of a snapshot, the markers first.
unfoldable pub identity_issues : Fields → List Issue
identity_issues snapshot = collect_unsupported_identity_marker_issues snapshot "(identity)" (
    unknown_issues (λ k. includes canonical_identity_fields k || is_marker k) "(identity)" snapshot
      (require (is_non_empty (property "tenant_id" snapshot)) identity_state_missing
        "(identity).tenant_id"
        (require (is_non_empty (property "user_id" snapshot)) identity_state_missing
          "(identity).user_id"
          (require (is_non_empty (property "source_record_id" snapshot)) identity_state_missing
            "(identity).source_record_id"
            (require (is_one_of canonical_actor_kinds (property "actor_kind" snapshot))
              identity_actor_kind_mismatch "(identity).actor_kind"
              (require (is_one_of canonical_identity_sources (property "identity_source" snapshot))
                identity_source_untrusted "(identity).identity_source"
                (require
                  (is_one_of canonical_identity_subject_types (property "subject_type" snapshot))
                  identity_subject_unsupported "(identity).subject_type"
                  (require (is_iso (property "observed_at" snapshot)) invalid_identity_input
                    "(identity).observed_at"
                    (require_not
                      (is_mispaired (property "actor_kind" snapshot)
                        (property "identity_source" snapshot))
                      identity_source_untrusted "(identity).identity_source" [])))))))))

-- `validateCanonicalIdentity`: the issues, of which there are none exactly if the result is `ok`.
unfoldable pub validate_canonical_identity : Value → List Issue
validate_canonical_identity input = elim (snapshot_record_or_null input) [
  | none ↦ canonical_identity_issue identity_validation_exception "(identity)" ∷ []
  | some none ↦ canonical_identity_issue invalid_identity_input "(identity)" ∷ []
  | some (some snapshot) ↦ identity_issues snapshot
]

-- `a === b` on texts.
unfoldable pub same_text : Value → Value → Bool
same_text (str s) v = is_text v s
same_text _ v = false

-- `isSameCanonicalUser`, on two identities whose ids are texts.
unfoldable pub is_same_canonical_user : Fields → Fields → Bool
unfolding same_text
is_same_canonical_user a b =
    same_text (property "tenant_id" a) (property "tenant_id" b)
    && same_text (property "user_id" a) (property "user_id" b)
