-- ===== src/Quota.antt =====
-- domain/src/quota.ts: quotas, and the validation of what they are set on.
pub mod Placement
pub mod Service
pub mod Search
use approvio.Base.{
  ℕ, String, Option, none, some, Bool, true, false, not, List, [], ◌∷◌, if◌then◌else◌, ◌==◌, ◌||◌,
  includes, any,
}
use approvio.Base.Int.{ℤ, pos, int_ltb}
use approvio.Base.Result.{Result, left, right, ◌>>=◌, ◌>>◌, require, reject_if}
use approvio.Json.{Json, Fields, get, object_of, string_of, date_of, integer_of}
use approvio.Uuid.{is_uuid_v7}
use approvio.Hierarchy.{
  NodeType, org, group, space, workflow_template, workflow, user, node_type_of, node_type_name,
  Parent, is_node, is_undefined, parents_from, parent_of,
}

-- `SupportedQuotaType`
pub data QuotaType : Type 0 where
  max_concurrent_workflows max_entities_per_group max_workflow_templates_per_space max_groups
        max_roles_per_user max_spaces max_votes_per_workflow :
      QuotaType

-- `QUOTA_TYPE_NODE_MAPPING[quotaType]`
unfoldable pub lowest_node_type : QuotaType → NodeType
lowest_node_type max_concurrent_workflows = workflow_template
lowest_node_type max_entities_per_group = group
lowest_node_type max_workflow_templates_per_space = space
lowest_node_type max_groups = org
lowest_node_type max_roles_per_user = user
lowest_node_type max_spaces = org
lowest_node_type max_votes_per_workflow = workflow

-- The key of the mapping that the text is
unfoldable pub quota_type_of : String → Option QuotaType
quota_type_of s =
    if s == "MAX_CONCURRENT_WORKFLOWS"
    then some max_concurrent_workflows
    else if s == "MAX_ENTITIES_PER_GROUP"
    then some max_entities_per_group
    else if s == "MAX_WORKFLOW_TEMPLATES_PER_SPACE"
    then some max_workflow_templates_per_space
    else if s == "MAX_GROUPS"
    then some max_groups
    else if s == "MAX_ROLES_PER_USER"
    then some max_roles_per_user
    else if s == "MAX_SPACES"
    then some max_spaces
    else if s == "MAX_VOTES_PER_WORKFLOW"
    then some max_votes_per_workflow
    else none

-- The properties that every object of JavaScript inherits, which the operator `in` finds as well
abbrev pub inherited : List String
inherited =
    "constructor" ∷ "__defineGetter__" ∷ "__defineSetter__" ∷ "hasOwnProperty" ∷ "__lookupGetter__"
    ∷ "__lookupSetter__" ∷ "isPrototypeOf" ∷ "propertyIsEnumerable" ∷ "toString" ∷ "valueOf"
    ∷ "__proto__" ∷ "toLocaleString" ∷ []

-- What `val in QUOTA_TYPE_NODE_MAPPING` accepts: a quota type, or an inherited name
pub data Accepted : Type 0 where
  quota_type : QuotaType → Accepted
  inherited_name : Accepted

-- `isSupportedQuotaType`
unfoldable pub supported_quota_type : String → Option Accepted
unfolding quota_type_of
supported_quota_type s = elim (quota_type_of s) [
  | some q ↦ some (quota_type q)
  | none ↦ if includes s inherited then some inherited_name else none
]

-- `a === b` on node types
abbrev pub is_same_type : NodeType → NodeType → Bool
is_same_type org org = true
is_same_type group group = true
is_same_type space space = true
is_same_type workflow_template workflow_template = true
is_same_type workflow workflow = true
is_same_type user user = true
is_same_type _ _ = false

-- `isQuotaSupportedAt`, with the rounds that the loop of `getParentsOfType` may take. An inherited
-- name maps to a function or an object: it equals no node type, and is no key of `PARENT_MAP`.
unfoldable pub is_quota_supported_at : ℕ → Accepted → NodeType → Option Bool
unfolding lowest_node_type parents_from
is_quota_supported_at fuel inherited_name t = elim (parents_from fuel is_undefined) [
  | none ↦ none
  | some parents ↦ some (any (is_same_type t) parents)
]
is_quota_supported_at fuel (quota_type q) t =
    if is_same_type t (lowest_node_type q)
    then some true
    else elim (parents_from fuel (is_node (lowest_node_type q))) [
      | none ↦ none
      | some parents ↦ some (any (is_same_type t) parents)
    ]

-- `QuotaIdentifierValidationError`, those that are returned
pub data IdentifierError : Type 0 where
  invalid_format invalid_node_type invalid_target_id unsupported_quota_type unsupported_node_type :
      IdentifierError

-- `QuotaIdentifier`
pub record QuotaIdentifier : Type 0 where
  pub node_type : NodeType
  pub identifier : String
  pub quota : Accepted

-- `QuotaIdentifierFactory.validate` up to the last test
unfoldable pub read_identifier : Json → Result IdentifierError QuotaIdentifier
unfolding supported_quota_type node_type_of
read_identifier j = do
  fs ← require (object_of j) invalid_format
  node ← require (object_of (get "node" fs)) invalid_format
  name ← require (string_of (get "type" node)) invalid_node_type
  t ← require (node_type_of name) invalid_node_type
  id ← require (string_of (get "identifier" node)) invalid_target_id
  reject_if (not (is_uuid_v7 id)) invalid_target_id
  quota_name ← require (string_of (get "quotaType" fs)) unsupported_quota_type
  quota ← require (supported_quota_type quota_name) unsupported_quota_type
  right (record { node_type = t; identifier = id; quota = quota })

-- `QuotaIdentifierFactory.validate`; no result when the fuel is not enough
unfoldable pub validate_identifier : ℕ → Json → Option (Result IdentifierError QuotaIdentifier)
unfolding read_identifier is_quota_supported_at
validate_identifier fuel j = elim (read_identifier j) [
  | left e ↦ some (left e)
  | right q ↦ elim (is_quota_supported_at fuel q.quota q.node_type) [
    | none ↦ none
    | some supported ↦ some (if not supported then left unsupported_node_type else right q)
  ]
]
