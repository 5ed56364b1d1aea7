-- ===== src/Role/Permission/Grants.antt =====
-- About `hasPermission` and `scopeMatches` of domain/src/permission-checker.ts.
use approvio.Base.{
  String, Bool, true, false, not, List, ◌≡◌, refl, ◌↔◌, ◌⊎◌, inl, arith, eq_iff, In, any, any_sound,
  any_complete, ◌==◌, if◌then◌else◌, eq_refl,
}
use approvio.Role.{RoleScope, BoundRole, org}
use approvio.Role.Permission.{scope_matches, has_permission}

-- The organisation covers every scope; any other scope covers itself alone.
abbrev pub Covers : RoleScope → RoleScope → Type 0
Covers a b = (a ≡ org) ⊎ (a ≡ b)

pub scope_matches_iff : (a b : RoleScope) → (scope_matches a b ≡ true) ↔ Covers a b
unfolding scope_matches
scope_matches_iff org b = ((λ _. inl refl), λ _. refl)
scope_matches_iff (RoleScope.space a) (RoleScope.space b) =
    ((λ e. ground (arith, eq_iff a b)), λ e. ground (arith, eq_iff a b))
scope_matches_iff (RoleScope.group a) (RoleScope.group b) =
    ((λ e. ground (arith, eq_iff a b)), λ e. ground (arith, eq_iff a b))
scope_matches_iff (RoleScope.workflow_template a) (RoleScope.workflow_template b) =
    ((λ e. ground (arith, eq_iff a b)), λ e. ground (arith, eq_iff a b))
scope_matches_iff _ _ = ((λ e. cc), λ e. ground arith)

-- A role of the list that grants the permission at the scope.
pub record Grants (roles : List BoundRole) (scope : RoleScope) (permission : String) : Type 0 where
  pub role : BoundRole
  pub held : In role roles
  pub permits : In permission role.permissions
  pub covers : Covers role.scope scope

permits_sound : (p : String) (ps : List String) → any (λ q. q == p) ps ≡ true → In p ps
permits_sound p ps e =
    let (q, i, f) = any_sound (λ q. q == p) ps e in let g : q ≡ p = (eq_iff q p).0 f in rw g at i

permits_complete : (p : String) (ps : List String) → In p ps → any (λ q. q == p) ps ≡ true
permits_complete p ps i = any_complete (λ q. q == p) ps p i (eq_refl p)

-- What the callback of `some` tests of one role.
abbrev grants : RoleScope → String → BoundRole → Bool
grants scope permission role =
    if not (any (λ p. p == permission) role.permissions)
    then false
    else scope_matches role.scope scope

grants_sound :
    (scope : RoleScope) (permission : String) (r : BoundRole)
    → grants scope permission r ≡ true
    → In permission r.permissions × Covers r.scope scope
grants_sound scope permission r e = (
  permits_sound permission r.permissions (ground arith),
  (scope_matches_iff r.scope scope).0 (ground arith),
)

-- The check passes exactly when a role of the list grants the permission: it lists the permission,
-- and its scope is the organisation or the very scope that is asked for.
pub has_permission_iff :
    (roles : List BoundRole) (scope : RoleScope) (permission : String)
    → (has_permission roles scope permission ≡ true) ↔ Grants roles scope permission
unfolding has_permission
has_permission_iff roles scope permission = (
  (λ e.
      let (r, held, passed) = any_sound (grants scope permission) roles e in
      let (permits, covers) = grants_sound scope permission r passed in
      record { role = r; held = held; permits = permits; covers = covers }),
  λ g. any_complete (grants scope permission) roles g.role g.held (
      ground (
        arith,
        permits_complete permission g.role.permissions g.permits,
        (scope_matches_iff g.role.scope scope).1 g.covers,
      )),
)
