-- ===== src/Role/Permission/Resources.antt =====
-- About `hasPermission` of domain/src/permission-checker.ts and the resource types of the roles.
use approvio.Base.{String, List, [], ◌∷◌, ◌≡◌, refl, arith}
use approvio.Role.{RoleScope, ResourceType, BoundRole}
use approvio.Role.Permission.{has_permission}

-- The roles with other resource types.
abbrev pub retype : (BoundRole → ResourceType) → List BoundRole → List BoundRole
retype f [] = []
retype f (r ∷ roles) = record r { resource_type = f r } ∷ retype f roles

-- The permission check does not depend on the resource types: whatever types the roles had instead,
-- it would answer the same. So a role for templates or spaces passes as one for groups or audits.
pub has_permission-retype :
    (f : BoundRole → ResourceType) (roles : List BoundRole) (scope : RoleScope)
    (permission : String)
    → has_permission (retype f roles) scope permission ≡ has_permission roles scope permission
unfolding has_permission
has_permission-retype f [] scope permission = refl
has_permission-retype f (r ∷ roles) scope permission =
    ground (arith, has_permission-retype f roles scope permission)
