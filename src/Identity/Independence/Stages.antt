-- ===== src/Identity/Independence/Stages.antt =====
-- What stages A and B of the independence verifier have checked
-- (app/lib/phase6/identityIndependence/verifier.ts).
use atra_workunit_os.Prelude.{◌≡◌, refl, inl, inr, String, true, some, [], arith}
use mathlib.Core.List.{append-eq-nil_iff}
use atra_workunit_os.Js.{str, Fields}
use atra_workunit_os.Authorization.Snapshot.{property}
use atra_workunit_os.Identity.Issues.{is_non_empty-str}
use atra_workunit_os.Identity.Markers.{unknown_issues-rest}
use atra_workunit_os.Identity.Valid.{IsIdentity}
use atra_workunit_os.Identity.Independence.{context_issues}
use atra_workunit_os.Identity.Positions.{
  Position, requester_position, creator_position, first_reviewer_position, second_reviewer_position,
  approver_position, identity_positions, snapshot_or_null, read_identity, read_issues,
}
use atra_workunit_os.Identity.Independence.Parties.{IsRead, read_identity-none}

-- The texts of the evaluation context.
pub record IsContext (snapshot : Fields) : Type 0 where
  pub tenant_id : String
  pub human_decision_id : String
  pub workunit_id : String
  pub action_preview_id : String
  pub has_tenant : property "expected_tenant_id" snapshot ≡ str tenant_id
  pub has_decision : property "expected_human_decision_id" snapshot ≡ str human_decision_id
  pub has_workunit : property "expected_workunit_id" snapshot ≡ str workunit_id
  pub has_preview : property "expected_action_preview_id" snapshot ≡ str action_preview_id

pub context_issues-IsContext :
    (snapshot : Fields) → context_issues snapshot ≡ [] → IsContext snapshot
unfolding context_issues
context_issues-IsContext snapshot h =
    let r = unknown_issues-rest _ "(input)" snapshot _ h in
    let (tenant_id, has_tenant, _) =
      is_non_empty-str (property "expected_tenant_id" snapshot) (ground (arith, r)) in
    let (decision_id, has_decision, _) =
      is_non_empty-str (property "expected_human_decision_id" snapshot) (ground (arith, r)) in
    let (workunit_id, has_workunit, _) =
      is_non_empty-str (property "expected_workunit_id" snapshot) (ground (arith, r)) in
    let (preview_id, has_preview, _) =
      is_non_empty-str (property "expected_action_preview_id" snapshot) (ground (arith, r)) in
    record {
      tenant_id = tenant_id;
      human_decision_id = decision_id;
      workunit_id = workunit_id;
      action_preview_id = preview_id;
      has_tenant = has_tenant;
      has_decision = has_decision;
      has_workunit = has_workunit;
      has_preview = has_preview;
    }

-- An identity in its position: as it was read, valid, of the position's kind and the tenant.
pub record IsParty (snapshot : Fields) (position : Position) (tenant_id : String) (fs : Fields)
    : Type 0 where
  pub found : snapshot_or_null (property position.key snapshot) ≡ some fs
  pub identity : IsIdentity fs
  pub kind : property "actor_kind" fs ≡ str position.actor_kind
  pub source : property "identity_source" fs ≡ str position.source
  pub tenant : property "tenant_id" fs ≡ str tenant_id

pub required_read :
    (snapshot : Fields) (position : Position)
    → position.required ≡ true
    → (read_identity position (property position.key snapshot)).0 ≡ []
    → (fs : Fields) × IsRead (property position.key snapshot) position fs
required_read snapshot position r h =
    elim (read_identity-none position (property position.key snapshot) h) [
      | inl (n, _, _) ↦ absurd (ground (arith, r, n))
      | inr found ↦ found
    ]

-- Stage B left no issue at any position.
pub record AreRead (snapshot : Fields) : Type 0 where
  pub requester :
      (fs : Fields) × IsRead (property "requester_identity" snapshot) requester_position fs
  pub creator : (fs : Fields) × IsRead (property "creator_identity" snapshot) creator_position fs
  pub first :
      (fs : Fields) × IsRead
        (property "first_reviewer_identity" snapshot)
        first_reviewer_position
        fs
  pub second :
      (fs : Fields) × IsRead
        (property "second_reviewer_identity" snapshot)
        second_reviewer_position
        fs
  pub approver : (fs : Fields) × IsRead (property "approver_identity" snapshot) approver_position fs

pub read_issues-AreRead :
    (snapshot : Fields) → read_issues snapshot identity_positions ≡ [] → AreRead snapshot
unfolding read_issues
read_issues-AreRead snapshot h =
    let (h1, r1) = append-eq-nil_iff.0 h in
    let (h2, r2) = append-eq-nil_iff.0 r1 in
    let (h3, r3) = append-eq-nil_iff.0 r2 in
    let (h4, r4) = append-eq-nil_iff.0 r3 in
    let (h5, r5) = append-eq-nil_iff.0 r4 in
    record {
      requester = required_read snapshot requester_position refl h1;
      creator = required_read snapshot creator_position refl h2;
      first = required_read snapshot first_reviewer_position refl h3;
      second = required_read snapshot second_reviewer_position refl h4;
      approver = required_read snapshot approver_position refl h5;
    }
