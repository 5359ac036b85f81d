-- ===== src/Linkage/Trusted.antt =====
-- What a verified linkage says of the approval and of the people behind it
-- (app/lib/phase6/approvalLinkage/verifier.ts).
use atra_workunit_os.Prelude.{◌≡◌, ◌≢◌, true, false, some, ◌>>=◌}
use atra_workunit_os.Js.{Value, str, Fields}
use atra_workunit_os.Authorization.Snapshot.{property}
use atra_workunit_os.Identity.Positions.{snapshot_or_null}
use atra_workunit_os.Linkage.Sources.{read_preview, read_approval, Calls, is_nullish, in_collection}
use atra_workunit_os.Linkage.Chain.{Identities}
use atra_workunit_os.Linkage.Evaluation.{Action}

-- Two reviewers, and an approver who is none of the other four.
pub record AreSeparate (ids : Identities) : Type 0 where
  pub two_reviewers : ids.first_reviewer.user_id ≢ ids.second_reviewer.user_id
  pub not_requester : ids.requester.user_id ≢ ids.approver.user_id
  pub not_creator : ids.creator.user_id ≢ ids.approver.user_id
  pub not_first : ids.first_reviewer.user_id ≢ ids.approver.user_id
  pub not_second : ids.second_reviewer.user_id ≢ ids.approver.user_id

module _ (calls : Calls) where
  -- What stands behind a verified linkage.
  pub record IsTrusted (linkage context : Value) : Type 0 where
    pub stored : Fields
    pub action : Action
    pub ids : Identities
    pub read : snapshot_or_null linkage ≡ some stored
    pub read_context : snapshot_or_null context ≡ some action.ctx
    pub read_preview :
        (snapshot_or_null (property "action_preview" action.ctx) >>= read_preview calls)
        ≡ some action.preview
    pub read_approval :
        (snapshot_or_null (property "approval_record" action.ctx) >>= read_approval)
        ≡ some action.approval
    pub target_hashed : calls.hash_action_target action.preview.target ≡ some action.target_hash
    pub payload_hashed : calls.hash_action_payload action.preview.payload ≡ some action.payload_hash
    pub target : property "target_hash" stored ≡ str action.target_hash
    pub payload : property "payload_hash" stored ≡ str action.payload_hash
    pub approved_target : property "targetHash" action.approval.snapshot ≡ str action.target_hash
    pub approved_payload : property "payloadHash" action.approval.snapshot ≡ str action.payload_hash
    pub approval_id : property "approval_id" stored ≡ str action.approval.id
    pub approved : property "status" action.approval.snapshot ≡ str "approved"
    pub unused : is_nullish (property "usedAt" action.approval.snapshot) ≡ true
    pub unconsumed :
        in_collection (property "consumed_approval_ids" action.ctx) action.approval.id ≡ false
    pub approver : property "approver_id" stored ≡ str ids.approver.user_id
    pub creator : property "creatorUserId" action.preview.snapshot ≡ str ids.creator.user_id
    pub separate : AreSeparate ids
