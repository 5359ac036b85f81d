-- ===== src/Linkage/Sound.antt =====
-- What an evaluation without issues has established
-- (app/lib/phase6/approvalLinkage/sourceEvaluation.ts).
use atra_workunit_os.Prelude.{◌≡◌, refl, String, Bool, true, some, List, []}
use atra_workunit_os.Js.{obj, Fields}
use atra_workunit_os.Authorization.Snapshot.{property}
use atra_workunit_os.Identity.Issues.{Issue as IdentityIssue}
use atra_workunit_os.Identity.Positions.{snapshot_or_null}
use atra_workunit_os.Identity.Independence.{verify_identity_independence}
use atra_workunit_os.Linkage.{state_missing}
use atra_workunit_os.Linkage.Record.{unknown_key_issues}
use atra_workunit_os.Linkage.Payload.{build_approval_identity_chain}
use atra_workunit_os.Linkage.Sources.{snapshot_decision, Calls, SourceEvaluation}
use atra_workunit_os.Linkage.Chain.{Identities, read_identities, independence_input, chain_input}
use atra_workunit_os.Linkage.Evaluation.{
  Action, Review, is_no_issue, derived_chain, timeline_checks, is_emitted, nested_checks,
  identity_checks, has_hash, derive_stage, bind_stage, nested_stage, top_stage, identity_stage,
}
use atra_workunit_os.Linkage.Clean.{
  clean, IsClean, Passed, push_all-IsClean, checks-IsClean, bind-IsClean, or_stop-IsClean,
  emit-IsClean,
}

module _ (calls : Calls) where
  abbrev pub independence_issues : Action → Review → Fields → Identities → List IdentityIssue
  independence_issues a r top ids =
      verify_identity_independence calls.validate_human_decision_record
        calls.validate_four_eyes_review_evidence
        (obj (independence_input a.decision r.evidence.snapshot top ids))

  -- The identities of a clean evaluation, and the chain that it derives.
  pub record IsBoundTo (linked_at : String) (a : Action) (r : Review) (e : SourceEvaluation)
      : Type 0 where
    pub top : Fields
    pub ids : Identities
    pub chain_hash : String
    pub read_top : snapshot_or_null (property "identity_input" a.ctx) ≡ some top
    pub read_ids : read_identities top ≡ some ids
    pub nested : Passed (nested_checks a top true true)
    pub bound : Passed (identity_checks a top ids (is_no_issue (independence_issues a r top ids)))
    pub chain :
        calls.hash_field (obj (build_approval_identity_chain (chain_input a.ctx ids)))
        ≡ some chain_hash
    pub timely : Passed (timeline_checks a r linked_at)
    pub emitted : is_emitted a r chain_hash ≡ true
    pub derived : e ≡ clean (derived_chain a r chain_hash)

  derive_stage-IsClean :
      (linked_at : String) (a : Action) (r : Review) (top : Fields) (ids : Identities)
      (e : SourceEvaluation)
      → IsClean (derive_stage calls linked_at a r top ids) e
      → (h : String) × (calls.hash_field
            (obj (build_approval_identity_chain (chain_input a.ctx ids)))
          ≡ some h)
        × Passed (timeline_checks a r linked_at)
        × (is_emitted a r h ≡ true)
        × (e ≡ clean (derived_chain a r h))
  unfolding derive_stage
  derive_stage-IsClean linked_at a r top ids e h =
      let (hash, hashed, c1) = bind-IsClean _ _ e h in
      let (timely, c2) = checks-IsClean (timeline_checks a r linked_at) _ e c1 in
      let (emitted, derived) =
        emit-IsClean (is_emitted a r hash) (derived_chain a r hash) state_missing "(derived)" e
          c2 in
      (hash, hashed, timely, emitted, derived)

  bind_stage-IsClean :
      (linked_at : String) (a : Action) (r : Review) (top : Fields) (ids : Identities)
      (e : SourceEvaluation)
      → IsClean (bind_stage calls linked_at a r top ids) e
      → Passed (identity_checks a top ids (is_no_issue (independence_issues a r top ids)))
        × IsClean (derive_stage calls linked_at a r top ids) e
  unfolding bind_stage
  bind_stage-IsClean linked_at a r top ids e h =
      checks-IsClean (identity_checks a top ids (is_no_issue (independence_issues a r top ids))) _ e
        h

  nested_stage-IsClean :
      (linked_at : String) (a : Action) (r : Review) (top : Fields) (d v : Bool)
      (e : SourceEvaluation)
      → IsClean (nested_stage calls linked_at a r top d v) e
      → (ids : Identities) × (read_identities top ≡ some ids)
        × Passed (nested_checks a top d v)
        × IsClean (bind_stage calls linked_at a r top ids) e
  unfolding nested_stage
  nested_stage-IsClean linked_at a r top d v e h =
      let (_, c) = push_all-IsClean (unknown_key_issues _ _ _ top []) _ e h in
      let (nested, c) = checks-IsClean (nested_checks a top d v) _ e c in
      let (ids, read, c) = or_stop-IsClean (read_identities top) _ _ _ e c in (ids, read, nested, c)

  top_stage-IsClean :
      (linked_at : String) (a : Action) (r : Review) (top : Fields) (e : SourceEvaluation)
      → IsClean (top_stage calls linked_at a r top) e
      → (d : Bool) × (v : Bool) × IsClean (nested_stage calls linked_at a r top d v) e
  unfolding top_stage
  top_stage-IsClean linked_at a r top e h =
      let (decision, _, c) = bind-IsClean (snapshot_decision _) _ e h in
      let (d, _, c) = bind-IsClean (has_hash calls decision a.decision_hash) _ e c in
      let (v, _, c) = bind-IsClean (has_hash calls (snapshot_or_null _) r.evidence_hash) _ e c in
      (d, v, c)

  pub identity_stage-IsClean :
      (linked_at : String) (a : Action) (r : Review) (e : SourceEvaluation)
      → IsClean (identity_stage calls linked_at a r) e
      → IsBoundTo linked_at a r e
  unfolding identity_stage
  identity_stage-IsClean linked_at a r e h =
      let (top, read_top, c) = or_stop-IsClean (snapshot_or_null _) _ _ _ e h in
      let (d, v, c) = top_stage-IsClean linked_at a r top e c in
      let (ids, read_ids, (same_d, (same_v, nested)), c) =
        nested_stage-IsClean linked_at a r top d v e c in
      let (bound, c) = bind_stage-IsClean linked_at a r top ids e c in
      let (hash, chain, timely, emitted, derived) =
        derive_stage-IsClean linked_at a r top ids e c in
      record {
        top = top;
        ids = ids;
        chain_hash = hash;
        read_top = read_top;
        read_ids = read_ids;
        nested = (refl, (refl, nested));
        bound = bound;
        chain = chain;
        timely = timely;
        emitted = emitted;
        derived = derived;
      }
