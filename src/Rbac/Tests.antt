-- ===== src/Rbac/Tests.antt =====
-- Sessions and their permissions.
use atra_workunit_os.Prelude.{◌≡◌, ◌↔◌, refl, true, false}
use atra_workunit_os.Rbac.{
  owner, editor, workunit_edit, workunit_execute_external_action, tenant_manage, Session,
  has_permission, role_at_least,
}
use atra_workunit_os.Rbac.Laws.{has_permission-role_at_least, has_permission-owner}

abbrev boss : Session
boss = record {
  user_id = "u1";
  tenant_id = "t1";
  role = owner;
  email = "boss@example.com";
  is_dev_session = false;
  session_id = "s1";
  created_at = "2026-01-01T00:00:00.000Z";
  expires_at = "2026-01-02T00:00:00.000Z";
}

abbrev writer : Session
writer = record boss { user_id = "u2"; role = editor }

has_permission-role_at_least_example : has_permission boss workunit_edit ≡ true
unfolding has_permission role_at_least
has_permission-role_at_least_example =
    has_permission-role_at_least boss writer workunit_edit refl refl

has_permission-owner_example :
    ((has_permission writer workunit_execute_external_action ≡ true) ↔ (writer.role ≡ owner))
    × ((has_permission writer tenant_manage ≡ true) ↔ (writer.role ≡ owner))
has_permission-owner_example = has_permission-owner writer
