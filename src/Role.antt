-- ===== src/Role.antt =====
-- domain/src/role.ts: scopes, resource types, bound roles, and the factory's tests on them.
pub mod Scopes
pub mod Permission
pub mod Assigned
use approvio.Base.{
  String, Bool, true, false, not, List, [], ◌∷◌, ◌==◌, any, all, includes, if◌then◌else◌, ◌&&◌,
}
use approvio.Base.Result.{Result, left, right}

-- `RoleScope`
pub data RoleScope : Type 0 where
  org : RoleScope
  space group workflow_template : String → RoleScope

-- `ScopeType`
pub data ScopeType : Type 0 where
  org_type space_type group_type workflow_template_type : ScopeType

-- `scope.type`
unfoldable pub scope_type : RoleScope → ScopeType
scope_type org = org_type
scope_type (space _) = space_type
scope_type (group _) = group_type
scope_type (workflow_template _) = workflow_template_type

-- `ResourceType`
pub data ResourceType : Type 0 where
  group space workflow_template audit : ResourceType

-- `BoundRole`, with the permissions as the texts that they are
pub record BoundRole : Type 0 where
  pub name : String
  pub resource_type : ResourceType
  pub permissions : List String
  pub scope_type : ScopeType
  pub scope : RoleScope

-- `RoleTemplate`
pub record RoleTemplate : Type 0 where
  pub name : String
  pub resource_type : ResourceType
  pub permissions : List String
  pub scope_type : ScopeType

-- `ALLOWED_SCOPE_TYPES_BY_RESOURCE[resourceType].includes(scopeType)`
unfoldable pub is_allowed_scope_type : ResourceType → ScopeType → Bool
is_allowed_scope_type group group_type = true
is_allowed_scope_type group _ = false
is_allowed_scope_type space space_type = true
is_allowed_scope_type space org_type = true
is_allowed_scope_type space _ = false
is_allowed_scope_type workflow_template group_type = false
is_allowed_scope_type workflow_template _ = true
is_allowed_scope_type audit org_type = true
is_allowed_scope_type audit _ = false

-- `RESOURCE_PERMISSIONS`
unfoldable pub resource_permissions : ResourceType → List String
resource_permissions group = "read" ∷ "write" ∷ "manage" ∷ []
resource_permissions space = "read" ∷ "manage" ∷ []
resource_permissions workflow_template =
    "read" ∷ "write" ∷ "instantiate" ∷ "vote" ∷ "workflow_read" ∷ "workflow_list"
    ∷ "workflow_cancel" ∷ []
resource_permissions audit = "read" ∷ []

-- `RoleValidationError`, those that the modelled methods return
pub data RoleError : Type 0 where
  scope_incompatible_with_template entity_type_role_restriction : RoleError

-- `RoleFactory.validateScopeForTemplate`; a typed scope always passes `isValidRoleScope`
unfoldable pub validate_scope_for_template : RoleScope → RoleTemplate → Result RoleError RoleScope
unfolding is_allowed_scope_type scope_type
validate_scope_for_template scope template =
    if is_allowed_scope_type template.resource_type (scope_type scope)
    then right scope
    else left scope_incompatible_with_template

-- The `"user" | "agent"` of the source.
pub data EntityType : Type 0 where
  user agent : EntityType

-- `role.resourceType === "workflow_template"`
abbrev pub is_workflow_template : ResourceType → Bool
is_workflow_template workflow_template = true
is_workflow_template _ = false

-- `RoleFactory.validateRolesForEntityType`
unfoldable pub validate_roles_for_entity_type :
    List BoundRole → EntityType → Result RoleError (List BoundRole)
validate_roles_for_entity_type roles user = right roles
validate_roles_for_entity_type roles agent =
    if any (λ r. not (is_workflow_template r.resource_type)) roles
    then left entity_type_role_restriction
    else right roles

-- `RoleFactory.isSameScope`
unfoldable pub is_same_scope : RoleScope → RoleScope → Bool
is_same_scope org org = true
is_same_scope (space a) (space b) = a == b
is_same_scope (group a) (group b) = a == b
is_same_scope (workflow_template a) (workflow_template b) = a == b
is_same_scope _ _ = false
