-- ===== src/Role/Permission/Assignment.antt =====
-- About `canAssignRoles` of domain/src/permission-checker.ts.
use approvio.Base.{
  String, Option, none, some, Bool, true, not, List, [], ◌∷◌, ◌≡◌, refl, ◌≢◌, ◌↔◌, ◌⊎◌, inl, inr,
  arith, eq_iff, In, keep, length, Option-cases, Bool-cases, nat_eq,
}
use approvio.Base.Dict.{Dict, lookup}
use approvio.Role.{RoleScope, BoundRole, org}
use approvio.Role.Permission.{
  User, OrgRole, admin, member, can_assign_at_scope, can_assign_role_at_scope, can_assign_roles,
}
use approvio.Role.Permission.Grants.{Grants, has_permission_iff}

-- The scope whose management entitles to assign a role at the given scope; for a template that is
-- its space, if the parents name one.
pub data ManagedBy (parents : Option (Dict String)) : RoleScope → RoleScope → Type 0 where
  by_group : {g : String} → ManagedBy parents (RoleScope.group g) (RoleScope.group g)
  by_space : {s : String} → ManagedBy parents (RoleScope.space s) (RoleScope.space s)
  by_parent :
      {name space : String} (known : Dict String)
      → parents ≡ some known
      → lookup name known ≡ some space
      → space ≢ ""
      → ManagedBy parents (RoleScope.workflow_template name) (RoleScope.space space)

-- The user is an administrator of the organisation, or manages the scope that is responsible.
abbrev pub MayAssign : User → Option (Dict String) → BoundRole → Type 0
MayAssign u parents role =
    (u.org_role ≡ admin)
    ⊎ ((managed : RoleScope) × ManagedBy parents role.scope managed
        × Grants u.roles managed "manage")

at_scope_sound :
    (u : User) (parents : Option (Dict String)) (scope : RoleScope)
    → can_assign_at_scope u scope parents ≡ true
    → (managed : RoleScope) × ManagedBy parents scope managed × Grants u.roles managed "manage"
unfolding can_assign_at_scope
at_scope_sound u parents org e = cc
at_scope_sound u parents (RoleScope.group g) e =
    (RoleScope.group g, by_group, (has_permission_iff u.roles _ "manage").0 e)
at_scope_sound u parents (RoleScope.space s) e =
    (RoleScope.space s, by_space, (has_permission_iff u.roles _ "manage").0 e)
at_scope_sound u none (RoleScope.workflow_template name) e = cc
at_scope_sound u (some known) (RoleScope.workflow_template name) e =
    elim (Option-cases (lookup name known)) [
      | inl unknown ↦ absurd (ground arith)
      | inr (s, found) ↦ (
        RoleScope.space s,
        by_parent known refl found (ground (arith, eq_iff s "")),
        (has_permission_iff u.roles (RoleScope.space s) "manage").0 (ground arith),
      )
    ]

at_scope_complete :
    (u : User) (parents : Option (Dict String)) {scope managed : RoleScope}
    → ManagedBy parents scope managed
    → Grants u.roles managed "manage"
    → can_assign_at_scope u scope parents ≡ true
unfolding can_assign_at_scope
at_scope_complete u parents by_group g = (has_permission_iff u.roles _ "manage").1 g
at_scope_complete u parents by_space g = (has_permission_iff u.roles _ "manage").1 g
at_scope_complete u parents (by_parent {space = s} known e found real) g =
    ground (arith, (has_permission_iff u.roles (RoleScope.space s) "manage").1 g, eq_iff s "")

by_org_role :
    (u : User) (parents : Option (Dict String)) (role : BoundRole) (r : OrgRole)
    → u.org_role ≡ r
    → (can_assign_role_at_scope u role parents ≡ true) ↔ MayAssign u parents role
unfolding can_assign_role_at_scope
by_org_role u parents role admin e = ((λ _. inl e), λ _. rw e refl)
by_org_role u parents role member e = (
  (λ given. inr (at_scope_sound u parents role.scope (rw e at given))),
  λ may. elim may [
    | inl wrong ↦ cc
    | inr (managed, by, grants) ↦ rw e (at_scope_complete u parents by grants)
  ],
)

can_assign_role_at_scope_iff :
    (u : User) (parents : Option (Dict String)) (role : BoundRole)
    → (can_assign_role_at_scope u role parents ≡ true) ↔ MayAssign u parents role
can_assign_role_at_scope_iff u parents role = by_org_role u parents role u.org_role refl

none_kept :
    (p : BoundRole → Bool) (roles : List BoundRole)
    → nat_eq (length (keep (λ r. not (p r)) roles)) 0 ≡ true
    → (r : BoundRole) → In r roles
    → p r ≡ true
none_kept p [] e r i = absurd i
none_kept p (x ∷ roles) e r i = elim (Bool-cases (p x)) [
  | inl t ↦ elim i [ inl q ↦ rw q at t | inr j ↦ none_kept p roles (rw t at e) r j ]
  | inr f ↦ absurd (ground arith)
]

all_passed :
    (p : BoundRole → Bool) (roles : List BoundRole)
    → ((r : BoundRole) → In r roles → p r ≡ true)
    → nat_eq (length (keep (λ r. not (p r)) roles)) 0 ≡ true
all_passed p [] h = refl
all_passed p (x ∷ roles) h = rw (h x (inl refl)) (all_passed p roles (λ r i. h r (inr i)))

-- A user may assign a list of roles exactly when each of its roles may be assigned: by an
-- administrator of the organisation any, and by another user a role at a group or space that the
-- user manages, or at a template whose known space the user manages; so never one at the scope of
-- the organisation.
pub can_assign_roles_iff :
    (u : User) (parents : Option (Dict String)) (roles : List BoundRole)
    → (can_assign_roles u roles parents ≡ true)
      ↔ ((role : BoundRole) → In role roles → MayAssign u parents role)
unfolding can_assign_roles
can_assign_roles_iff u parents roles = (
  (λ e role i.
      (can_assign_role_at_scope_iff u parents role).0
        (none_kept (λ r. can_assign_role_at_scope u r parents) roles e role i)),
  λ h.
      all_passed (λ r. can_assign_role_at_scope u r parents) roles
        (λ r i. (can_assign_role_at_scope_iff u parents r).1 (h r i)),
)
