-- ===== src/Linkage/Reviewed.antt =====
-- The review evidence of an evaluation without issues
-- (app/lib/phase6/approvalLinkage/sourceEvaluation.ts).
use mathlib.Core.Option.{some-injective}
use atra_workunit_os.Prelude.{
  ◌≡◌, refl, String, true, none, some, List, [], ◌∷◌, arith, Bool-cases, if◌then◌else◌, >>=-eq-some,
  sym, ap, ◌∙◌, inl, inr,
}
use atra_workunit_os.Js.{obj, Fields}
use atra_workunit_os.Authorization.Snapshot.{property, is_text, non_empty_string}
use atra_workunit_os.Identity.Positions.{snapshot_or_null}
use atra_workunit_os.Linkage.{check}
use atra_workunit_os.Linkage.Payload.{build_approval_review_envelope}
use atra_workunit_os.Linkage.Sources.{
  Calls, SourceEvaluation, iso_string, ReviewReading, read_review,
}
use atra_workunit_os.Linkage.Chain.{review_context, review_issues}
use atra_workunit_os.Linkage.Evaluation.{
  Action, Review, envelope_input, identity_stage, evidence_stage, snapshot_stage, review_stage,
}
use atra_workunit_os.Linkage.Clean.{
  IsClean, push_all-IsClean, checks-IsClean, bind-IsClean, or_stop-IsClean,
}

module _ (calls : Calls) where
  -- The review evidence of a clean evaluation.
  pub record IsReviewed (a : Action) (r : Review) : Type 0 where
    pub read : snapshot_or_null (property "review_evidence" a.ctx) ≡ some r.evidence.snapshot
    pub valid : calls.validate_four_eyes_review_evidence r.evidence.snapshot ≡ some true
    pub envelope :
        calls.hash_field (obj (build_approval_review_envelope (envelope_input a)))
        ≡ some r.envelope_hash
    pub hashed : calls.hash_field (obj r.evidence.snapshot) ≡ some r.evidence_hash
    pub enveloped :
        is_text (property "reviewed_payload_hash" r.evidence.snapshot) r.envelope_hash ≡ true
    pub verified :
        calls.verify_four_eyes_review_evidence r.evidence.snapshot
          (review_context a.ctx a.decision_id a.preview r.envelope_hash)
        ≡ some []

  review_issues-none : (codes : List String) → review_issues codes ≡ [] → codes ≡ []
  review_issues-none [] h = refl
  review_issues-none (code ∷ codes) h = absurd (ground (arith, h))

  read_review-snapshot :
      (fs : Fields) (evidence : ReviewReading)
      → read_review fs ≡ some evidence
      → evidence.snapshot ≡ fs
  unfolding read_review
  read_review-snapshot fs evidence h =
      let (_, _, h) = >>=-eq-some (non_empty_string (property "review_evidence_id" fs)) _ h in
      let (_, _, h) =
        >>=-eq-some (non_empty_string (property "first_review_attestation_id" fs)) _ h in
      let (_, _, h) =
        >>=-eq-some (non_empty_string (property "second_review_attestation_id" fs)) _ h in
      let (_, _, h) = >>=-eq-some (iso_string (property "review_completed_at" fs)) _ h in
      let (_, _, h) = >>=-eq-some (iso_string (property "review_expires_at" fs)) _ h in
      sym (ap (λ e. e.snapshot) (some-injective _ _ h))

  evidence_stage-IsClean :
      (linked_at : String) (a : Action) (envelope_hash : String) (evidence : ReviewReading)
      (e : SourceEvaluation)
      → IsClean (evidence_stage calls linked_at a envelope_hash evidence) e
      → (h : String) × (calls.hash_field (obj evidence.snapshot) ≡ some h)
        × (calls.verify_four_eyes_review_evidence evidence.snapshot
              (review_context a.ctx a.decision_id a.preview envelope_hash)
            ≡ some [])
        × (is_text (property "reviewed_payload_hash" evidence.snapshot) envelope_hash ≡ true)
        × IsClean
            (identity_stage calls linked_at a
              (record { evidence = evidence; envelope_hash = envelope_hash; evidence_hash = h }))
            e
  unfolding evidence_stage
  evidence_stage-IsClean linked_at a envelope_hash evidence e h =
      let (hash, hashed, c) = bind-IsClean (calls.hash_field _) _ e h in
      let (codes, verified, c) = bind-IsClean (calls.verify_four_eyes_review_evidence _ _) _ e c in
      let ((enveloped, _), c) = checks-IsClean (check _ _ _ ∷ []) _ e c in
      let (none_left, c) = push_all-IsClean (review_issues codes) _ e c in
      (hash, hashed, verified ∙ ap (λ x. some x) (review_issues-none codes none_left), enveloped, c)

  snapshot_stage-IsClean :
      (linked_at : String) (a : Action) (envelope_hash : String) (fs : Fields)
      (e : SourceEvaluation)
      → IsClean (snapshot_stage calls linked_at a envelope_hash fs) e
      → (evidence : ReviewReading) × (evidence.snapshot ≡ fs)
        × (calls.validate_four_eyes_review_evidence fs ≡ some true)
        × IsClean (evidence_stage calls linked_at a envelope_hash evidence) e
  unfolding snapshot_stage
  snapshot_stage-IsClean linked_at a envelope_hash fs e h =
      let (valid, checked, c) = bind-IsClean (calls.validate_four_eyes_review_evidence fs) _ e h in
      let (evidence, read, c) =
        or_stop-IsClean (if valid then read_review fs else none) _ _ _ e c in
      elim (Bool-cases valid) [
        | inl accepted ↦
            let found : read_review fs ≡ some evidence =
              ap (λ b. if b then read_review fs else none) (sym accepted) ∙ read in
            (
              evidence,
              read_review-snapshot fs evidence found,
              checked ∙ ap (λ x. some x) accepted,
              c,
            )
        | inr rejected ↦ absurd (ground (arith, read, rejected))
      ]

  pub review_stage-IsClean :
      (linked_at : String) (a : Action) (e : SourceEvaluation)
      → IsClean (review_stage calls linked_at a) e
      → (r : Review) × IsReviewed a r × IsClean (identity_stage calls linked_at a r) e
  unfolding review_stage
  review_stage-IsClean linked_at a e h =
      let (envelope_hash, envelope, c) = bind-IsClean (calls.hash_field _) _ e h in
      let (fs, read, c) = or_stop-IsClean (snapshot_or_null _) _ _ _ e c in
      let (evidence, same, valid, c) = snapshot_stage-IsClean linked_at a envelope_hash fs e c in
      let (hash, hashed, verified, enveloped, c) =
        evidence_stage-IsClean linked_at a envelope_hash evidence e c in
      (
        record { evidence = evidence; envelope_hash = envelope_hash; evidence_hash = hash },
        record {
          read = read ∙ ap (λ x. some x) (sym same);
          valid = ap (λ x. calls.validate_four_eyes_review_evidence x) same ∙ valid;
          envelope = envelope;
          hashed = hashed;
          enveloped = enveloped;
          verified = verified;
        },
        c,
      )
