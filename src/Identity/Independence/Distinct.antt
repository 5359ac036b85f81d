-- ===== src/Identity/Independence/Distinct.antt =====
-- Verified independence (app/lib/phase6/identityIndependence/verifier.ts): the approver is neither
-- the requester nor the creator nor a reviewer, and the reviewers are two.
use atra_workunit_os.Prelude.{
  ◌≡◌, refl, ◌∙◌, sym, ap, ◌≢◌, inl, inr, String, Bool, true, false, Option, none, some, List, [],
  ◌∷◌, arith, Option-cases, >>=-eq-some,
}
use mathlib.Core.List.{append-eq-nil_iff}
use mathlib.Core.Option.{some-injective}
use atra_workunit_os.Js.{Value, str, Fields}
use atra_workunit_os.Authorization.Snapshot.{Attempt, property}
use atra_workunit_os.Identity.Issues.{Issue}
use atra_workunit_os.Identity.Validation.{is_same_canonical_user}
use atra_workunit_os.Identity.Independence.{
  context_issues, all_provenance_issues, separation_issues, artifact_issues, or_exception,
  unless_any, structural_issues, bound_issues, verify_identity_independence,
}
use atra_workunit_os.Identity.Positions.{
  Position, requester_position, creator_position, first_reviewer_position, second_reviewer_position,
  approver_position, executor_position, snapshot_or_null, identity_at,
}
use atra_workunit_os.Identity.Independence.Parties.{IsRead}
use atra_workunit_os.Identity.Independence.Bindings.{
  is_same-str, IsProven, provenance_issues-IsProven, provenance_issues-rest, IsJoined,
  binding_issues-IsJoined, is_other-eq, IsSeparated, separation_issues-IsSeparated,
  is_same_canonical_user-user,
}
use atra_workunit_os.Identity.Independence.Stages.{
  IsContext, context_issues-IsContext, IsParty, AreRead, read_issues-AreRead,
}

module _
    (validate_human_decision_record validate_four_eyes_review_evidence : Fields
      → Attempt Bool) where
  -- What stands behind a verified independence.
  pub record IsIndependent (input : Value) : Type 0 where
    pub snapshot : Fields
    pub read : snapshot_or_null input ≡ some snapshot
    pub context : IsContext snapshot
    pub decision : Fields
    pub evidence : Fields
    pub read_decision : snapshot_or_null (property "human_decision" snapshot) ≡ some decision
    pub read_evidence : snapshot_or_null (property "review_evidence" snapshot) ≡ some evidence
    pub decided : validate_human_decision_record decision ≡ some true
    pub reviewed : validate_four_eyes_review_evidence evidence ≡ some true
    pub decision_tenant : property "tenant_id" decision ≡ str context.tenant_id
    pub decision_id : property "human_decision_id" decision ≡ str context.human_decision_id
    pub evidence_tenant : property "tenant_id" evidence ≡ str context.tenant_id
    pub evidence_decision :
        property "source_human_decision_id" evidence ≡ str context.human_decision_id
    pub evidence_workunit : property "source_workunit_id" evidence ≡ str context.workunit_id
    pub requester : Fields
    pub creator : Fields
    pub first : Fields
    pub second : Fields
    pub approver : Fields
    pub is_requester : IsParty snapshot requester_position context.tenant_id requester
    pub is_creator : IsParty snapshot creator_position context.tenant_id creator
    pub is_first : IsParty snapshot first_reviewer_position context.tenant_id first
    pub is_second : IsParty snapshot second_reviewer_position context.tenant_id second
    pub is_approver : IsParty snapshot approver_position context.tenant_id approver
    pub created : property "source_record_id" creator ≡ str context.action_preview_id
    pub first_named : property "first_reviewer_id" evidence ≡ str is_first.identity.user_id
    pub second_named : property "second_reviewer_id" evidence ≡ str is_second.identity.user_id
    pub two_reviewers : is_first.identity.user_id ≢ is_second.identity.user_id
    pub not_requester : is_requester.identity.user_id ≢ is_approver.identity.user_id
    pub not_creator : is_creator.identity.user_id ≢ is_approver.identity.user_id
    pub not_first : is_first.identity.user_id ≢ is_approver.identity.user_id
    pub not_second : is_second.identity.user_id ≢ is_approver.identity.user_id

  artifact_accepted :
      (validate : Fields → Attempt Bool) (o : Option Fields) (place : String)
      → artifact_issues validate o place ≡ some []
      → (fs : Fields) × (o ≡ some fs) × (validate fs ≡ some true)
  artifact_accepted validate none place h = absurd (ground (arith, h))
  artifact_accepted validate (some fs) place h = (fs, refl, ground (arith, h))

  -- What stage B has checked.
  record IsStructured (snapshot : Fields) : Type 0 where
    decision :
        (fs : Fields) × (snapshot_or_null (property "human_decision" snapshot) ≡ some fs)
        × (validate_human_decision_record fs ≡ some true)
    evidence :
        (fs : Fields) × (snapshot_or_null (property "review_evidence" snapshot) ≡ some fs)
        × (validate_four_eyes_review_evidence fs ≡ some true)
    positions : AreRead snapshot

  structural_issues-IsStructured :
      (snapshot : Fields)
      → structural_issues validate_human_decision_record validate_four_eyes_review_evidence snapshot
        ≡ some []
      → IsStructured snapshot
  unfolding structural_issues
  structural_issues-IsStructured snapshot h =
      let (decision, ed, h) =
        >>=-eq-some
          (artifact_issues validate_human_decision_record
            (snapshot_or_null (property "human_decision" snapshot)) "(human_decision)")
          _ h in
      let (evidence, ee, h) =
        >>=-eq-some
          (artifact_issues validate_four_eyes_review_evidence
            (snapshot_or_null (property "review_evidence" snapshot)) "(review_evidence)")
          _ h in
      let (nd, rest) = append-eq-nil_iff.0 (some-injective _ _ h) in
      let (ne, positions) = append-eq-nil_iff.0 rest in
      record {
        decision = artifact_accepted _ _ _ (ed ∙ ap (λ x. some x) nd);
        evidence = artifact_accepted _ _ _ (ee ∙ ap (λ x. some x) ne);
        positions = read_issues-AreRead snapshot positions;
      }

  -- What stages C and D have checked of the identities that stage B stored.
  record AreBound (snapshot decision evidence : Fields) (r : AreRead snapshot) : Type 0 where
    requester : IsProven requester_position r.requester.0 (property "expected_tenant_id" snapshot)
    creator : IsProven creator_position r.creator.0 (property "expected_tenant_id" snapshot)
    first : IsProven first_reviewer_position r.first.0 (property "expected_tenant_id" snapshot)
    second : IsProven second_reviewer_position r.second.0 (property "expected_tenant_id" snapshot)
    approver : IsProven approver_position r.approver.0 (property "expected_tenant_id" snapshot)
    joined : IsJoined snapshot decision evidence
    separated : IsSeparated r.requester.0 r.approver.0 r.first.0 r.second.0 r.creator.0

  bound_issues-AreBound :
      (snapshot decision evidence : Fields) (r : AreRead snapshot)
      → snapshot_or_null (property "human_decision" snapshot) ≡ some decision
      → snapshot_or_null (property "review_evidence" snapshot) ≡ some evidence
      → bound_issues validate_human_decision_record validate_four_eyes_review_evidence snapshot
        ≡ some []
      → AreBound snapshot decision evidence r
  unfolding bound_issues all_provenance_issues identity_at
  bound_issues-AreBound snapshot decision evidence r d e h =
      let here = rw (bound_issues, d, e) at h in
      let (separation, es, h) = >>=-eq-some (separation_issues snapshot) _ here in
      let (pr, h) =
        provenance_issues-IsProven requester_position r.requester.0 _ _ _ r.requester.1.kept
          (some-injective _ _ h) in
      let (pc, h) =
        provenance_issues-IsProven creator_position r.creator.0 _ _ _ r.creator.1.kept h in
      let (pf, h) =
        provenance_issues-IsProven first_reviewer_position r.first.0 _ _ _ r.first.1.kept h in
      let (ps, h) =
        provenance_issues-IsProven second_reviewer_position r.second.0 _ _ _ r.second.1.kept h in
      let (pa, h) =
        provenance_issues-IsProven approver_position r.approver.0 _ _ _ r.approver.1.kept h in
      let h = provenance_issues-rest executor_position _ _ _ h in
      let (joined, none_left) = binding_issues-IsJoined snapshot decision evidence _ h in
      record {
        requester = pr;
        creator = pc;
        first = pf;
        second = ps;
        approver = pa;
        joined = joined;
        separated =
            separation_issues-IsSeparated snapshot r.requester.0 r.approver.0 r.first.0 r.second.0
              r.creator.0 r.requester.1.kept r.approver.1.kept r.first.1.kept r.second.1.kept
              r.creator.1.kept (es ∙ ap (λ x. some x) none_left);
      }

  party :
      (snapshot : Fields) (position : Position) (c : IsContext snapshot) (fs : Fields)
      → IsRead (property position.key snapshot) position fs
      → IsProven position fs (property "expected_tenant_id" snapshot)
      → IsParty snapshot position c.tenant_id fs
  party snapshot position c fs r p = record {
    found = r.found;
    identity = r.identity;
    kind = p.kind;
    source = p.source;
    tenant = is_same-str _ _ c.has_tenant p.same_tenant;
  }

  different_users :
      (snapshot : Fields) (p q : Position) (tenant : String) (a b : Fields)
      (pa : IsParty snapshot p tenant a) (pb : IsParty snapshot q tenant b)
      → is_same_canonical_user a b ≡ false
      → pa.identity.user_id ≢ pb.identity.user_id
  different_users snapshot p q tenant a b pa pb h =
      is_same_canonical_user-user a b pa.tenant pb.tenant pa.identity.has_user pb.identity.has_user
        h

  unless_any-none :
      (issues : List Issue) (next : Attempt (List Issue))
      → or_exception (unless_any issues next) ≡ []
      → (issues ≡ []) × (next ≡ some [])
  unless_any-none [] none h = absurd (ground (arith, h))
  unless_any-none [] (some rest) h = (refl, ap (λ x. some x) h)
  unless_any-none (issue ∷ issues) next h = absurd (ground (arith, h))

  unless_any-some :
      (issues : List Issue) (next : Attempt (List Issue))
      → unless_any issues next ≡ some []
      → (issues ≡ []) × (next ≡ some [])
  unless_any-some [] next h = (refl, h)
  unless_any-some (issue ∷ issues) next h = absurd (ground (arith, h))

  -- Independence is verified only if both artifacts are accepted and agree with the expected tenant,
  -- decision and work unit, the five identities are valid, of their positions and of the tenant, the
  -- creator is that of the expected preview, the reviewers are those of the evidence and two users,
  -- and the approver is none of the other four.
  pub verify_identity_independence_sound :
      (input : Value)
      → verify_identity_independence validate_human_decision_record
          validate_four_eyes_review_evidence input
        ≡ []
      → IsIndependent input
  unfolding verify_identity_independence identity_at
  verify_identity_independence_sound input h = elim (Option-cases (snapshot_or_null input)) [
    | inl e ↦ absurd (ground (arith, h, e))
    | inr (snapshot, read) ↦
        let here = rw (verify_identity_independence, read) at h in
        let (nc, h) = unless_any-none (context_issues snapshot) _ here in
        let (structural, es, h) = >>=-eq-some (structural_issues _ _ snapshot) _ h in
        let (ns, bound) = unless_any-some structural _ h in
        let c = context_issues-IsContext snapshot nc in
        let s = structural_issues-IsStructured snapshot (es ∙ ap (λ x. some x) ns) in
        let r = s.positions in
        let (decision, read_decision, decided) = s.decision in
        let (evidence, read_evidence, reviewed) = s.evidence in
        let b =
          bound_issues-AreBound snapshot decision evidence r read_decision read_evidence bound in
        let j = b.joined in
        let requester =
          party snapshot requester_position c r.requester.0 r.requester.1 b.requester in
        let creator = party snapshot creator_position c r.creator.0 r.creator.1 b.creator in
        let first = party snapshot first_reviewer_position c r.first.0 r.first.1 b.first in
        let second = party snapshot second_reviewer_position c r.second.0 r.second.1 b.second in
        let approver = party snapshot approver_position c r.approver.0 r.approver.1 b.approver in
        record {
          snapshot = snapshot;
          read = read;
          context = c;
          decision = decision;
          evidence = evidence;
          read_decision = read_decision;
          read_evidence = read_evidence;
          decided = decided;
          reviewed = reviewed;
          decision_tenant = is_same-str _ _ c.has_tenant j.decision_tenant;
          decision_id = is_same-str _ _ c.has_decision j.decision_id;
          evidence_tenant = is_same-str _ _ c.has_tenant j.evidence_tenant;
          evidence_decision = is_same-str _ _ c.has_decision j.evidence_decision;
          evidence_workunit = is_same-str _ _ c.has_workunit j.evidence_workunit;
          requester = r.requester.0;
          creator = r.creator.0;
          first = r.first.0;
          second = r.second.0;
          approver = r.approver.0;
          is_requester = requester;
          is_creator = creator;
          is_first = first;
          is_second = second;
          is_approver = approver;
          created =
              creator.identity.has_record
              ∙ sym (
                  is_other-eq (identity_at snapshot creator_position) "source_record_id" _
                    r.creator.0 r.creator.1.kept creator.identity.has_record j.creator_preview)
              ∙ c.has_preview;
          first_named =
              is_other-eq (identity_at snapshot first_reviewer_position) "user_id" _ r.first.0
                r.first.1.kept first.identity.has_user j.first_named;
          second_named =
              is_other-eq (identity_at snapshot second_reviewer_position) "user_id" _ r.second.0
                r.second.1.kept second.identity.has_user j.second_named;
          two_reviewers = different_users snapshot _ _ _ _ _ first second b.separated.reviewers;
          not_requester =
              different_users snapshot _ _ _ _ _ requester approver b.separated.from_requester;
          not_creator =
              different_users snapshot _ _ _ _ _ creator approver b.separated.from_creator;
          not_first = different_users snapshot _ _ _ _ _ first approver b.separated.from_first;
          not_second = different_users snapshot _ _ _ _ _ second approver b.separated.from_second;
        }
  ]
