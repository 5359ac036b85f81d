-- ===== src/Approval/Record.antt =====
-- The approval record (app/lib/domain/types.ts, app/lib/persistence/types.ts).
use atra_workunit_os.Prelude.{String, Bool, true, false, Option}

pub data ApprovalStatus : Type 0 where
  pending approved rejected expired used : ApprovalStatus

abbrev pub is_status : ApprovalStatus → ApprovalStatus → Bool
is_status pending pending = true
is_status approved approved = true
is_status rejected rejected = true
is_status expired expired = true
is_status used used = true
is_status _ _ = false

-- The action type is one of four texts, and the rows hold it as a text.
pub record ActionApprovalRecord : Type 0 where
  pub id : String
  pub tenant_id : String
  pub work_unit_id : String
  pub action_preview_id : String
  pub action_type : String
  pub target_hash : String
  pub payload_hash : String
  pub status : ApprovalStatus
  pub approved_by_user_id : Option String
  pub created_at : String
  pub approved_at : Option String
  pub expires_at : String
  pub used_at : Option String

-- The exact binding that a lookup or a claim names.
pub record Binding : Type 0 where
  pub tenant_id : String
  pub work_unit_id : String
  pub action_preview_id : String
  pub approval_id : String
  pub action_type : String
  pub target_hash : String
  pub payload_hash : String
