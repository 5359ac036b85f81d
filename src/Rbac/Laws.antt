-- ===== src/Rbac/Laws.antt =====
-- The permissions of app/lib/security/policy.ts follow the ranks of the roles.
use atra_workunit_os.Prelude.{
  ◌≡◌, refl, ◌↔◌, Bool, true, List, [], ◌∷◌, arith, eqb, inl, inr, Bool-cases, ◌∙◌, ◌&&◌,
}
use atra_workunit_os.Rbac.{
  Role, owner, manager, editor, viewer, Permission, workunit_execute_external_action, tenant_manage,
  rank, default_role_permissions, has, Session, has_permission, role_at_least,
}

-- Whether every permission of one list is in another.
abbrev contains : List Permission → List Permission → Bool
contains [] qs = true
contains (p ∷ ps) qs = has p qs && contains ps qs

has-rank : (p q : Permission) (qs : List Permission) → rank p ≡ rank q → has p qs ≡ has q qs
has-rank p q [] e = refl
has-rank p q (r ∷ qs) e = rw (e, has-rank p q qs e) refl

has-contains :
    (p : Permission) (ps qs : List Permission)
    → contains ps qs ≡ true
    → has p ps ≡ true
    → has p qs ≡ true
has-contains p [] qs c h = absurd (ground (arith, h))
has-contains p (q ∷ ps) qs c h = elim (Bool-cases (eqb (rank p) (rank q))) [
  | inl e ↦ has-rank p q qs (ground (arith, e)) ∙ ground (arith, c)
  | inr e ↦ has-contains p ps qs (ground (arith, c)) (ground (arith, h, e))
]

role_at_least-contains :
    (high low : Role)
    → role_at_least high low ≡ true
    → contains (default_role_permissions low) (default_role_permissions high) ≡ true
unfolding role_at_least default_role_permissions
role_at_least-contains owner owner h = refl
role_at_least-contains owner manager h = refl
role_at_least-contains owner editor h = refl
role_at_least-contains owner viewer h = refl
role_at_least-contains manager owner h = absurd (ground (arith, h))
role_at_least-contains manager manager h = refl
role_at_least-contains manager editor h = refl
role_at_least-contains manager viewer h = refl
role_at_least-contains editor owner h = absurd (ground (arith, h))
role_at_least-contains editor manager h = absurd (ground (arith, h))
role_at_least-contains editor editor h = refl
role_at_least-contains editor viewer h = refl
role_at_least-contains viewer owner h = absurd (ground (arith, h))
role_at_least-contains viewer manager h = absurd (ground (arith, h))
role_at_least-contains viewer editor h = absurd (ground (arith, h))
role_at_least-contains viewer viewer h = refl

-- A session has every permission of a session whose role is at most its own, so that a check on
-- ranks and a check on permissions never disagree.
pub has_permission-role_at_least :
    (high low : Session) (p : Permission)
    → role_at_least high.role low.role ≡ true
    → has_permission low p ≡ true
    → has_permission high p ≡ true
unfolding has_permission
has_permission-role_at_least high low p r h =
    has-contains p (default_role_permissions low.role) (default_role_permissions high.role)
      (role_at_least-contains high.role low.role r) h

owner_of_execute :
    (r : Role)
    → has workunit_execute_external_action (default_role_permissions r) ≡ true
    → r ≡ owner
unfolding default_role_permissions
owner_of_execute owner h = refl
owner_of_execute manager h = absurd (ground (arith, h))
owner_of_execute editor h = absurd (ground (arith, h))
owner_of_execute viewer h = absurd (ground (arith, h))

owner_of_manage : (r : Role) → has tenant_manage (default_role_permissions r) ≡ true → r ≡ owner
unfolding default_role_permissions
owner_of_manage owner h = refl
owner_of_manage manager h = absurd (ground (arith, h))
owner_of_manage editor h = absurd (ground (arith, h))
owner_of_manage viewer h = absurd (ground (arith, h))

-- Only an owner may execute an external action, and only an owner may manage the tenant.
pub has_permission-owner :
    (s : Session)
    → ((has_permission s workunit_execute_external_action ≡ true) ↔ (s.role ≡ owner))
      × ((has_permission s tenant_manage ≡ true) ↔ (s.role ≡ owner))
unfolding has_permission default_role_permissions
has_permission-owner s =
    ((owner_of_execute s.role, λ e. rw (e) refl), (owner_of_manage s.role, λ e. rw (e) refl))
