-- ===== src/Role/Permission.antt =====
-- domain/src/permission-checker.ts: what a list of roles permits, and who may assign roles.
pub mod Grants
pub mod Resources
pub mod Assignment
use approvio.Base.{
  ℕ, String, Option, none, some, Bool, true, false, not, List, [], ◌∷◌, ◌==◌, any, keep, length,
  includes, if◌then◌else◌, ◌&&◌, ◌||◌, nat_eq,
}
use approvio.Base.Dict.{Dict, lookup}
use approvio.Role.{RoleScope, BoundRole, org}

-- `scopeMatches(roleScope, requestedScope)`
unfoldable pub scope_matches : RoleScope → RoleScope → Bool
scope_matches org requested = true
scope_matches (RoleScope.space a) (RoleScope.space b) = a == b
scope_matches (RoleScope.group a) (RoleScope.group b) = a == b
scope_matches (RoleScope.workflow_template a) (RoleScope.workflow_template b) = a == b
scope_matches _ _ = false

-- `hasPermission`, and with it `hasGroupPermission`, `hasSpacePermission`,
-- `hasWorkflowTemplatePermission` and `hasAuditPermission`, which only narrow its types
unfoldable pub has_permission : List BoundRole → RoleScope → String → Bool
unfolding scope_matches
has_permission roles scope permission =
    any
      (λ role.
        if not (any (λ p. p == permission) role.permissions)
        then false
        else scope_matches role.scope scope)
      roles

-- `OrgRole`
pub data OrgRole : Type 0 where
  admin member : OrgRole

-- `User`, of domain/src/user.ts
pub record User : Type 0 where
  pub id : String
  pub display_name : String
  pub email : String
  pub created_at : ℕ
  pub org_role : OrgRole
  pub roles : List BoundRole

-- `requestor.orgRole === OrgRole.ADMIN`
abbrev pub is_admin : OrgRole → Bool
is_admin admin = true
is_admin member = false

-- `canAssignRoleAtScope` on the scope of the role; the parents map the names of templates to spaces
unfoldable pub can_assign_at_scope : User → RoleScope → Option (Dict String) → Bool
unfolding has_permission
can_assign_at_scope requestor org parents = false
can_assign_at_scope requestor (RoleScope.group g) parents =
    has_permission requestor.roles (RoleScope.group g) "manage"
can_assign_at_scope requestor (RoleScope.space s) parents =
    has_permission requestor.roles (RoleScope.space s) "manage"
can_assign_at_scope requestor (RoleScope.workflow_template name) none = false
can_assign_at_scope requestor (RoleScope.workflow_template name) (some parents) =
    elim (lookup name parents) [
      | none ↦ false
      | some space ↦
          if space == ""
          then false
          else has_permission requestor.roles (RoleScope.space space) "manage"
    ]

-- `canAssignRoleAtScope`
unfoldable pub can_assign_role_at_scope : User → BoundRole → Option (Dict String) → Bool
unfolding can_assign_at_scope
can_assign_role_at_scope requestor role parents =
    if is_admin requestor.org_role then true else can_assign_at_scope requestor role.scope parents

-- `canAssignRoles`
unfoldable pub can_assign_roles : User → List BoundRole → Option (Dict String) → Bool
unfolding can_assign_role_at_scope
can_assign_roles requestor roles parents =
    nat_eq (length (keep (λ r. not (can_assign_role_at_scope requestor r parents)) roles)) 0
