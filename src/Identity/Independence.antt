-- ===== src/Identity/Independence.antt =====
-- The verifier of identity independence (app/lib/phase6/identityIndependence/verifier.ts and
-- validation.ts). The validators of the two artifacts are parameters.
pub mod Parties
pub mod Bindings
pub mod Stages
pub mod Distinct
use Prim.Native.Char.{code}
use Prim.Native.String.{◌++◌ as ◌+++◌}
use atra_workunit_os.Prelude.{
  String, Bool, true, false, Option, none, some, List, [], ◌∷◌, ◌++◌, ◌==◌, ◌&&◌, not, eqb,
  if◌then◌else◌, ◌>>=◌,
}
use atra_workunit_os.Js.{
  Value, undefined, null, revoked, bool, num, str, arr, obj, Fields, includes,
}
use atra_workunit_os.Authorization.Snapshot.{Attempt, snapshot_record_or_null, property, is_text}
use atra_workunit_os.Identity.Issues.{
  IssueCode, invalid_identity_input, identity_state_missing, identity_source_untrusted,
  identity_tenant_mismatch, identity_actor_kind_mismatch, identity_evidence_mismatch,
  duplicate_reviewer_identity, self_approval_forbidden, identity_validation_exception, Issue,
  canonical_identity_issue, require, require_not, is_non_empty, is_iso, unknown_issues,
}
use atra_workunit_os.Identity.Validation.{validate_canonical_identity, is_same_canonical_user}
use atra_workunit_os.Identity.Positions.{
  Position, requester_position, creator_position, first_reviewer_position, second_reviewer_position,
  approver_position, executor_position, identity_positions, snapshot_or_null, after_prefix,
  rescope_issue_field, rescope_all, is_undefined, at_position, keep_identity, read_identity,
  identity_at, read_issues,
}

abbrev pub evaluation_input_fields : List String
evaluation_input_fields =
    "human_decision" ∷ "review_evidence" ∷ "requester_identity" ∷ "creator_identity"
    ∷ "first_reviewer_identity" ∷ "second_reviewer_identity" ∷ "approver_identity"
    ∷ "executor_identity" ∷ "expected_tenant_id" ∷ "expected_human_decision_id"
    ∷ "expected_workunit_id" ∷ "expected_action_preview_id" ∷ "evaluated_at" ∷ []

-- Stage A: the evaluation context.
unfoldable pub context_issues : Fields → List Issue
context_issues snapshot = unknown_issues (includes evaluation_input_fields) "(input)" snapshot (
    require (is_non_empty (property "expected_tenant_id" snapshot)) identity_state_missing
      "(input).expected_tenant_id"
      (require (is_non_empty (property "expected_human_decision_id" snapshot))
        identity_state_missing "(input).expected_human_decision_id"
        (require (is_non_empty (property "expected_workunit_id" snapshot)) identity_state_missing
          "(input).expected_workunit_id"
          (require (is_non_empty (property "expected_action_preview_id" snapshot))
            identity_state_missing "(input).expected_action_preview_id"
            (require (is_iso (property "evaluated_at" snapshot)) identity_state_missing
              "(input).evaluated_at" [])))))

-- `a === b` where `b` is a text of the context.
unfoldable pub is_same : Value → Value → Bool
is_same a (str s) = is_text a s
is_same a _ = false

-- One round of the loop of stage C, in front of what follows.
unfoldable pub provenance_issues : Position → Option Fields → Value → List Issue → List Issue
provenance_issues position none tenant rest = rest
provenance_issues position (some identity) tenant rest =
    require (is_text (property "actor_kind" identity) position.actor_kind)
      identity_actor_kind_mismatch (at_position position ".actor_kind")
      (require (is_text (property "identity_source" identity) position.source)
        identity_source_untrusted (at_position position ".identity_source")
        (require (is_same (property "tenant_id" identity) tenant) identity_tenant_mismatch
          (at_position position ".tenant_id") rest))

unfoldable pub all_provenance_issues : Fields → List Position → List Issue → List Issue
all_provenance_issues snapshot [] rest = rest
all_provenance_issues snapshot (position ∷ positions) rest =
    provenance_issues position (identity_at snapshot position)
      (property "expected_tenant_id" snapshot) (all_provenance_issues snapshot positions rest)

-- `identity !== undefined && identity.key !== value`
unfoldable pub is_other : Option Fields → String → Value → Bool
is_other none key v = false
is_other (some identity) key v = not (is_same v (property key identity))

-- The rest of stage C: the decision, the evidence and the identities against one another.
unfoldable pub binding_issues : Fields → Fields → Fields → List Issue → List Issue
binding_issues snapshot decision evidence rest =
    require (is_same (property "tenant_id" decision) (property "expected_tenant_id" snapshot))
      identity_tenant_mismatch "(human_decision).tenant_id"
      (require
        (is_same (property "human_decision_id" decision)
          (property "expected_human_decision_id" snapshot))
        identity_evidence_mismatch "(human_decision).human_decision_id"
        (require (is_same (property "tenant_id" evidence) (property "expected_tenant_id" snapshot))
          identity_tenant_mismatch "(review_evidence).tenant_id"
          (require
            (is_same (property "source_human_decision_id" evidence)
              (property "expected_human_decision_id" snapshot))
            identity_evidence_mismatch "(review_evidence).source_human_decision_id"
            (require
              (is_same (property "source_workunit_id" evidence)
                (property "expected_workunit_id" snapshot))
              identity_evidence_mismatch "(review_evidence).source_workunit_id"
              (require_not
                (is_other (identity_at snapshot creator_position) "source_record_id"
                  (property "expected_action_preview_id" snapshot))
                identity_evidence_mismatch "(creator_identity).source_record_id"
                (require_not
                  (is_other (identity_at snapshot first_reviewer_position) "user_id"
                    (property "first_reviewer_id" evidence))
                  identity_evidence_mismatch "(review_evidence).first_reviewer_id"
                  (require_not
                    (is_other (identity_at snapshot second_reviewer_position) "user_id"
                      (property "second_reviewer_id" evidence))
                    identity_evidence_mismatch "(review_evidence).second_reviewer_id" rest)))))))

-- Stage D: the users. A missing identity would throw.
unfoldable pub separation_issues : Fields → Attempt (List Issue)
separation_issues snapshot = do
  requester ← identity_at snapshot requester_position
  approver ← identity_at snapshot approver_position
  first ← identity_at snapshot first_reviewer_position
  second ← identity_at snapshot second_reviewer_position
  creator ← identity_at snapshot creator_position
  some (
      require_not (is_same_canonical_user first second) duplicate_reviewer_identity
        "(second_reviewer_identity)"
        (require_not (is_same_canonical_user requester approver) self_approval_forbidden
          "(requester_identity)"
          (require_not (is_same_canonical_user creator approver) self_approval_forbidden
            "(creator_identity)"
            (require_not (is_same_canonical_user first approver) self_approval_forbidden
              "(first_reviewer_identity)"
              (require_not (is_same_canonical_user second approver) self_approval_forbidden
                "(second_reviewer_identity)" [])))))

abbrev pub exception_issues : List Issue
exception_issues = canonical_identity_issue identity_validation_exception "(verifier)" ∷ []

-- What stands behind an attempt that throws.
abbrev pub or_exception : Attempt (List Issue) → List Issue
or_exception none = exception_issues
or_exception (some issues) = issues

-- Stops with the issues, if there are any.
abbrev pub unless_any : List Issue → Attempt (List Issue) → Attempt (List Issue)
unless_any [] next = next
unless_any (issue ∷ issues) next = some (issue ∷ issues)

-- An artifact that is no record, or that its validator does not accept.
abbrev pub artifact_issues : (Fields → Attempt Bool) → Option Fields → String → Attempt (List Issue)
artifact_issues validate none place =
    some (canonical_identity_issue invalid_identity_input place ∷ [])
artifact_issues validate (some fs) place = do
  ok ← validate fs
  some (require ok invalid_identity_input place [])

module _
    (validate_human_decision_record validate_four_eyes_review_evidence : Fields
      → Attempt Bool) where
  -- Stage B, both artifacts and all identities.
  unfoldable pub structural_issues : Fields → Attempt (List Issue)
  structural_issues snapshot = do
    decision ←
        artifact_issues validate_human_decision_record
          (snapshot_or_null (property "human_decision" snapshot)) "(human_decision)"
    evidence ←
        artifact_issues validate_four_eyes_review_evidence
          (snapshot_or_null (property "review_evidence" snapshot)) "(review_evidence)"
    some (decision ++ (evidence ++ read_issues snapshot identity_positions))

  -- Stages C and D.
  unfoldable pub bound_issues : Fields → Attempt (List Issue)
  bound_issues snapshot = elim (snapshot_or_null (property "human_decision" snapshot)) [
    | none ↦ some (canonical_identity_issue invalid_identity_input "(input)" ∷ [])
    | some decision ↦ elim (snapshot_or_null (property "review_evidence" snapshot)) [
      | none ↦ some (canonical_identity_issue invalid_identity_input "(input)" ∷ [])
      | some evidence ↦ do
        separation ← separation_issues snapshot
        some (
            all_provenance_issues snapshot identity_positions
              (binding_issues snapshot decision evidence separation))
    ]
  ]

  -- `verifyIdentityIndependence`: the issues, of which there are none exactly if the result is `ok`.
  unfoldable pub verify_identity_independence : Value → List Issue
  verify_identity_independence input = elim (snapshot_or_null input) [
    | none ↦ canonical_identity_issue invalid_identity_input "(input)" ∷ []
    | some snapshot ↦ or_exception (
        unless_any (context_issues snapshot) (do
          structural ← structural_issues snapshot
          unless_any structural (bound_issues snapshot)))
  ]
