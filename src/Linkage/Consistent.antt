-- ===== src/Linkage/Consistent.antt =====
-- The whole of an evaluation without issues, from the context to the derived chain
-- (app/lib/phase6/approvalLinkage/sourceEvaluation.ts).
use atra_workunit_os.Prelude.{
  ◌≡◌, String, true, some, [], ◌∷◌, arith, Bool-cases, ◌>>=◌, sym, ap, ◌∙◌, inl, inr,
}
use atra_workunit_os.Js.{Value, obj, Fields}
use atra_workunit_os.Authorization.Snapshot.{property}
use atra_workunit_os.Identity.Positions.{snapshot_or_null}
use atra_workunit_os.Linkage.{check}
use atra_workunit_os.Linkage.Record.{unknown_key_issues}
use atra_workunit_os.Linkage.Sources.{
  snapshot_decision, Calls, SourceEvaluation, text_or_throw, PreviewReading, ApprovalReading,
  read_approval, read_preview,
}
use atra_workunit_os.Linkage.Chain.{context_checks, preview_checks, approval_checks}
use atra_workunit_os.Linkage.Evaluation.{
  Action, Review, approval_stage, record_stage, hashes_stage, preview_stage, decision_ids,
  ready_stage, valid_stage, decision_stage, context_stage, evaluate_approval_chain,
}
use atra_workunit_os.Linkage.Clean.{
  or_exception-IsClean, IsClean, Passed, push_all-IsClean, checks-IsClean, bind-IsClean,
  or_stop-IsClean,
}
use atra_workunit_os.Linkage.Reviewed.{IsReviewed, review_stage-IsClean}
use atra_workunit_os.Linkage.Sound.{IsBoundTo, identity_stage-IsClean}

module _ (calls : Calls) where
  -- The sources of a clean evaluation.
  pub record IsConsistent (context : Value) (linked_at linkage_id : String) (a : Action)
      (r : Review) : Type 0 where
    pub read : snapshot_or_null context ≡ some a.ctx
    pub opened : Passed (context_checks a.ctx linked_at linkage_id)
    pub decided : snapshot_decision (property "human_decision" a.ctx) ≡ some (some a.decision)
    pub decision_valid : calls.validate_human_decision_record a.decision ≡ some true
    pub decision_hashed : calls.hash_field (obj a.decision) ≡ some a.decision_hash
    pub read_preview :
        (snapshot_or_null (property "action_preview" a.ctx) >>= read_preview calls) ≡ some a.preview
    pub read_approval :
        (snapshot_or_null (property "approval_record" a.ctx) >>= read_approval) ≡ some a.approval
    pub target_hashed : calls.hash_action_target a.preview.target ≡ some a.target_hash
    pub payload_hashed : calls.hash_action_payload a.preview.payload ≡ some a.payload_hash
    pub previewed : Passed (preview_checks a.ctx a.preview a.target_hash a.payload_hash)
    pub approved :
        Passed
          (approval_checks a.ctx a.preview a.target_hash a.payload_hash a.approval a.evaluated_at)
    pub reviewed : IsReviewed calls a r

  -- The readings behind a clean evaluation.
  pub record Consistent (context : Value) (linked_at linkage_id : String) (e : SourceEvaluation)
      : Type 0 where
    pub action : Action
    pub review : Review
    pub sources : IsConsistent context linked_at linkage_id action review
    pub bound : IsBoundTo calls linked_at action review e

  approval_stage-IsClean :
      (linked_at : String) (a : Action) (e : SourceEvaluation)
      → IsClean (approval_stage calls linked_at a) e
      → (r : Review) × Passed
          (approval_checks a.ctx a.preview a.target_hash a.payload_hash a.approval a.evaluated_at)
        × IsReviewed calls a r
        × IsBoundTo calls linked_at a r e
  unfolding approval_stage
  approval_stage-IsClean linked_at a e h =
      let (approved, c) =
        checks-IsClean
          (approval_checks a.ctx a.preview a.target_hash a.payload_hash a.approval a.evaluated_at) _
          e h in
      let (r, reviewed, c) = review_stage-IsClean calls linked_at a e c in
      (r, approved, reviewed, identity_stage-IsClean calls linked_at a r e c)

  record_stage-IsClean :
      (linked_at : String) (ctx hd : Fields) (id hash : String) (p : PreviewReading)
      (target_hash payload_hash : String) (a : ApprovalReading) (e : SourceEvaluation)
      → IsClean (record_stage calls linked_at ctx hd id hash p target_hash payload_hash a) e
      → (evaluated_at : String) × IsClean
          (approval_stage calls linked_at (record {
            ctx = ctx;
            decision = hd;
            decision_id = id;
            decision_hash = hash;
            preview = p;
            target_hash = target_hash;
            payload_hash = payload_hash;
            approval = a;
            evaluated_at = evaluated_at;
          }))
          e
  unfolding record_stage
  record_stage-IsClean linked_at ctx hd id hash p target_hash payload_hash a e h =
      let (evaluated_at, _, c) = bind-IsClean (text_or_throw (property "evaluated_at" ctx)) _ e h in
      (evaluated_at, c)

  hashes_stage-IsClean :
      (linked_at : String) (ctx hd : Fields) (id hash : String) (p : PreviewReading)
      (e : SourceEvaluation)
      → IsClean (hashes_stage calls linked_at ctx hd id hash p) e
      → (th : String) × (ph : String) × (a : ApprovalReading) × (calls.hash_action_target p.target
          ≡ some th)
        × (calls.hash_action_payload p.payload ≡ some ph)
        × Passed (preview_checks ctx p th ph)
        × ((snapshot_or_null (property "approval_record" ctx) >>= read_approval) ≡ some a)
        × IsClean (record_stage calls linked_at ctx hd id hash p th ph a) e
  unfolding hashes_stage
  hashes_stage-IsClean linked_at ctx hd id hash p e h =
      let (th, target, c) = bind-IsClean (calls.hash_action_target _) _ e h in
      let (ph, payload, c) = bind-IsClean (calls.hash_action_payload _) _ e c in
      let (previewed, c) = checks-IsClean (preview_checks ctx p th ph) _ e c in
      let (a, found, c) = or_stop-IsClean (snapshot_or_null _ >>= read_approval) _ _ _ e c in
      (th, ph, a, target, payload, previewed, found, c)

  preview_stage-IsClean :
      (linked_at : String) (ctx hd : Fields) (id hash : String) (e : SourceEvaluation)
      → IsClean (preview_stage calls linked_at ctx hd id hash) e
      → (p : PreviewReading) × ((snapshot_or_null (property "action_preview" ctx)
            >>= read_preview calls)
          ≡ some p)
        × IsClean (hashes_stage calls linked_at ctx hd id hash p) e
  unfolding preview_stage
  preview_stage-IsClean linked_at ctx hd id hash e h =
      let (p, found, c) = or_stop-IsClean (snapshot_or_null _ >>= read_preview calls) _ _ _ e h in
      (p, found, c)

  ready_stage-IsClean :
      (linked_at : String) (ctx hd : Fields) (ids : String × String) (e : SourceEvaluation)
      → IsClean (ready_stage calls linked_at ctx hd ids) e
      → (hash : String) × (calls.hash_field (obj hd) ≡ some hash)
        × IsClean (preview_stage calls linked_at ctx hd ids.0 hash) e
  unfolding ready_stage
  ready_stage-IsClean linked_at ctx hd ids e h =
      let (hash, hashed, c) = bind-IsClean (calls.hash_field _) _ e h in
      let (_, c) = checks-IsClean (check _ _ _ ∷ []) _ e c in (hash, hashed, c)

  valid_stage-IsClean :
      (linked_at : String) (ctx hd : Fields) (e : SourceEvaluation)
      → IsClean (valid_stage calls linked_at ctx hd) e
      → (ids : String × String) × (calls.validate_human_decision_record hd ≡ some true)
        × IsClean (ready_stage calls linked_at ctx hd ids) e
  unfolding valid_stage
  valid_stage-IsClean linked_at ctx hd e h =
      let (valid, checked, c) = bind-IsClean (calls.validate_human_decision_record hd) _ e h in
      let (ids, read, c) = or_stop-IsClean (decision_ids calls valid hd) _ _ _ e c in
      elim (Bool-cases valid) [
        | inl accepted ↦ (ids, checked ∙ ap (λ x. some x) accepted, c)
        | inr rejected ↦
            let gone = ap (λ b. decision_ids calls b hd) (sym rejected) ∙ read in
            absurd (ground (arith, gone))
      ]

  decision_stage-IsClean :
      (linked_at : String) (ctx : Fields) (e : SourceEvaluation)
      → IsClean (decision_stage calls linked_at ctx) e
      → (hd : Fields) × (snapshot_decision (property "human_decision" ctx) ≡ some (some hd))
        × IsClean (valid_stage calls linked_at ctx hd) e
  unfolding decision_stage
  decision_stage-IsClean linked_at ctx e h =
      let (found, read, c) = bind-IsClean (snapshot_decision _) _ e h in
      let (hd, present, c) = or_stop-IsClean found _ _ _ e c in
      (hd, read ∙ ap (λ x. some x) present, c)

  context_stage-IsClean :
      (linked_at linkage_id : String) (ctx : Fields) (e : SourceEvaluation)
      → IsClean (context_stage calls linked_at linkage_id ctx) e
      → Passed (context_checks ctx linked_at linkage_id)
        × IsClean (decision_stage calls linked_at ctx) e
  unfolding context_stage
  context_stage-IsClean linked_at linkage_id ctx e h =
      let (_, c) = push_all-IsClean (unknown_key_issues _ _ _ ctx []) _ e h in
      checks-IsClean (context_checks ctx linked_at linkage_id) _ e c

  -- An evaluation without issues has consistent sources, and derives their chain.
  pub evaluate_approval_chain-Consistent :
      (context : Value) (linked_at linkage_id : String)
      → (evaluate_approval_chain calls context linked_at linkage_id).issues ≡ []
      → Consistent context linked_at linkage_id
          (evaluate_approval_chain calls context linked_at linkage_id)
  unfolding evaluate_approval_chain
  evaluate_approval_chain-Consistent context linked_at linkage_id h =
      let e = evaluate_approval_chain calls context linked_at linkage_id in
      let (ctx, read, c) =
        or_stop-IsClean (snapshot_or_null context) _ _ _ e (or_exception-IsClean calls _ h) in
      let (opened, c) = context_stage-IsClean linked_at linkage_id ctx e c in
      let (hd, decided, c) = decision_stage-IsClean linked_at ctx e c in
      let (ids, valid, c) = valid_stage-IsClean linked_at ctx hd e c in
      let (hash, hashed, c) = ready_stage-IsClean linked_at ctx hd ids e c in
      let (p, preview_found, c) = preview_stage-IsClean linked_at ctx hd ids.0 hash e c in
      let (th, ph, approval, target, payload, previewed, approval_found, c) =
        hashes_stage-IsClean linked_at ctx hd ids.0 hash p e c in
      let (at, c) = record_stage-IsClean linked_at ctx hd ids.0 hash p th ph approval e c in
      let a : Action = record {
        ctx = ctx;
        decision = hd;
        decision_id = ids.0;
        decision_hash = hash;
        preview = p;
        target_hash = th;
        payload_hash = ph;
        approval = approval;
        evaluated_at = at;
      } in
      let (r, approved, reviewed, bound) = approval_stage-IsClean linked_at a e c in
      record {
        action = a;
        review = r;
        sources = record {
          read = read;
          opened = opened;
          decided = decided;
          decision_valid = valid;
          decision_hashed = hashed;
          read_preview = preview_found;
          read_approval = approval_found;
          target_hashed = target;
          payload_hashed = payload;
          previewed = previewed;
          approved = approved;
          reviewed = reviewed;
        };
        bound = bound;
      }
