-- ===== src/Role/Scopes.antt =====
-- About `isSameScope` of domain/src/role.ts.
use approvio.Base.{true, ◌≡◌, refl, ◌↔◌, arith, eq_iff, ap}
use approvio.Role.{RoleScope, org, is_same_scope}

-- Two scopes are the same for `isSameScope` exactly when they are equal.
pub is_same_scope_iff : (a b : RoleScope) → (is_same_scope a b ≡ true) ↔ (a ≡ b)
unfolding is_same_scope
is_same_scope_iff org org = ((λ _. refl), λ _. refl)
is_same_scope_iff (RoleScope.space a) (RoleScope.space b) =
    ((λ e. ap RoleScope.space ((eq_iff a b).0 e)), λ e. ground (arith, eq_iff a b))
is_same_scope_iff (RoleScope.group a) (RoleScope.group b) =
    ((λ e. ap RoleScope.group ((eq_iff a b).0 e)), λ e. ground (arith, eq_iff a b))
is_same_scope_iff (RoleScope.workflow_template a) (RoleScope.workflow_template b) =
    ((λ e. ap RoleScope.workflow_template ((eq_iff a b).0 e)), λ e. ground (arith, eq_iff a b))
is_same_scope_iff _ _ = ((λ e. cc), λ e. cc)
