-- ===== src/Membership/Administrators.antt =====
-- About `canAdministerGroup` of domain/src/group-membership.ts.
use approvio.Base.{true, ◌≡◌, refl, ◌↔◌, ◌⊎◌, inl, inr}
use approvio.Role.{RoleScope}
use approvio.Role.Permission.{User, OrgRole, admin, member}
use approvio.Role.Permission.Grants.{Grants, has_permission_iff}
use approvio.Membership.{GroupManager, can_administer_group}

by_org_role :
    (g : GroupManager) (u : User) (r : OrgRole)
    → u.org_role ≡ r
    → (can_administer_group g u ≡ true)
      ↔ ((u.org_role ≡ admin) ⊎ Grants u.roles (RoleScope.group g.group_id) "manage")
unfolding can_administer_group
by_org_role g u admin e = ((λ _. inl e), λ _. rw e refl)
by_org_role g u member e = (
  (λ h. inr ((has_permission_iff u.roles (RoleScope.group g.group_id) "manage").0 (rw e at h))),
  λ h. elim h [
    | inl wrong ↦ cc
    | inr grants ↦
        rw e ((has_permission_iff u.roles (RoleScope.group g.group_id) "manage").1 grants)
  ],
)

-- A user may update and remove the members of a group exactly when the user is an administrator of
-- the organisation or holds a role that permits to manage at the scope of the group or of the
-- organisation.
pub can_administer_group_iff :
    (g : GroupManager) (u : User)
    → (can_administer_group g u ≡ true)
      ↔ ((u.org_role ≡ admin) ⊎ Grants u.roles (RoleScope.group g.group_id) "manage")
can_administer_group_iff g u = by_org_role g u u.org_role refl
