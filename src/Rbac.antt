-- ===== src/Rbac.antt =====
-- Roles and permissions (app/lib/security/policy.ts, app/lib/security/rbac.ts,
-- app/lib/domain/auth/roles.ts) and the kill switch (app/lib/security/externalActions.ts).
pub mod Laws
mod Tests
use atra_workunit_os.Prelude.{
  ℕ, String, Bool, true, false, Option, none, some, List, [], ◌∷◌, ◌==◌, if◌then◌else◌, ◌||◌, leb,
  eqb,
}

-- `TenantRole`
pub data Role : Type 0 where
  owner manager editor viewer : Role

pub data Permission : Type 0 where
  workunit_read workunit_create workunit_edit workunit_review : Permission
  workunit_approve_external_action workunit_execute_external_action : Permission
  workunit_create_action_preview integration_read integration_manage : Permission
  audit_read tenant_manage : Permission

abbrev pub rank : Permission → ℕ
rank workunit_read = 0
rank workunit_create = 1
rank workunit_edit = 2
rank workunit_review = 3
rank workunit_approve_external_action = 4
rank workunit_execute_external_action = 5
rank workunit_create_action_preview = 6
rank integration_read = 7
rank integration_manage = 8
rank audit_read = 9
rank tenant_manage = 10

-- `ROLE_HIERARCHY`
unfoldable pub role_hierarchy : Role → ℕ
role_hierarchy owner = 3
role_hierarchy manager = 2
role_hierarchy editor = 1
role_hierarchy viewer = 0

-- `DEFAULT_ROLE_PERMISSIONS`
unfoldable pub default_role_permissions : Role → List Permission
default_role_permissions owner =
    workunit_read ∷ workunit_create ∷ workunit_edit ∷ workunit_review
    ∷ workunit_approve_external_action ∷ workunit_execute_external_action
    ∷ workunit_create_action_preview ∷ integration_read ∷ integration_manage ∷ audit_read
    ∷ tenant_manage ∷ []
default_role_permissions manager =
    workunit_read ∷ workunit_create ∷ workunit_edit ∷ workunit_review
    ∷ workunit_approve_external_action ∷ workunit_create_action_preview ∷ integration_read
    ∷ integration_manage ∷ audit_read ∷ []
default_role_permissions editor =
    workunit_read ∷ workunit_create ∷ workunit_edit ∷ workunit_review
    ∷ workunit_create_action_preview ∷ workunit_approve_external_action ∷ integration_read ∷ []
default_role_permissions viewer = workunit_read ∷ integration_read ∷ []

abbrev pub has : Permission → List Permission → Bool
has p [] = false
has p (q ∷ qs) = eqb (rank p) (rank q) || has p qs

-- `SessionContext`
pub record Session : Type 0 where
  pub user_id : String
  pub tenant_id : String
  pub role : Role
  pub email : String
  pub is_dev_session : Bool
  pub session_id : String
  pub created_at : String
  pub expires_at : String

unfoldable pub has_permission : Session → Permission → Bool
unfolding default_role_permissions
has_permission session permission = has permission (default_role_permissions session.role)

pub data DeniedReason : Type 0 where
  missing_permission : Permission → DeniedReason
  insufficient_role : List Role → DeniedReason

-- `RbacDeniedError`; its tenant mismatch is never built here.
pub record RbacDeniedError : Type 0 where
  pub reason : DeniedReason
  pub actor_role : Role
  pub tenant_id : String

unfoldable pub assert_permission : Session → Permission → Option RbacDeniedError
unfolding has_permission
assert_permission session permission =
    if has_permission session permission
    then none
    else some (record {
      reason = missing_permission permission;
      actor_role = session.role;
      tenant_id = session.tenant_id;
    })

unfoldable pub has_role : Session → List Role → Bool
unfolding role_hierarchy
has_role session [] = false
has_role session (r ∷ rs) =
    eqb (role_hierarchy r) (role_hierarchy session.role) || has_role session rs

unfoldable pub require_role : Session → List Role → Option RbacDeniedError
unfolding has_role
require_role session allowed =
    if has_role session allowed
    then none
    else some (record {
      reason = insufficient_role allowed;
      actor_role = session.role;
      tenant_id = session.tenant_id;
    })

unfoldable pub role_at_least : Role → Role → Bool
unfolding role_hierarchy
role_at_least role minimum = leb (role_hierarchy minimum) (role_hierarchy role)

-- `normalizeRoleInput`; nothing if it throws.
unfoldable pub normalize_role_input : Option String → Option Role
normalize_role_input none = none
normalize_role_input (some role) =
    if role == "admin"
    then some manager
    else if role == "pm" || role == "member"
    then some editor
    else if role == "owner"
    then some owner
    else if role == "manager"
    then some manager
    else if role == "editor"
    then some editor
    else if role == "viewer"
    then some viewer
    else none

-- `areExternalActionsEnabled`
unfoldable pub are_external_actions_enabled : Option String → Bool
are_external_actions_enabled none = false
are_external_actions_enabled (some text) = text == "true"
