-- ===== src/Quota/Service.antt =====
-- services/src/quota/quota.service.ts and services/src/hierarchy/hierarchy.service.ts: the search for
-- a quota along the parents of a resource, and the check of its usage. The repositories are
-- parameters.
use approvio.Base.{
  ℕ, ◌+◌, String, Option, none, some, Bool, true, false, not, List, [], ◌∷◌, leb, if◌then◌else◌,
}
use approvio.Base.Result.{Result, left, right, ◌>>=◌, map_left}
use approvio.Uuid.{is_uuid_v7}
use approvio.Hierarchy.{NodeType, org, group, space, workflow_template, workflow, user}
use approvio.Quota.{
  QuotaType, quota_type, QuotaIdentifier, IdentifierError, invalid_target_id, unsupported_node_type,
  lowest_node_type, is_same_type, is_quota_supported_at, max_concurrent_workflows,
  max_entities_per_group, max_workflow_templates_per_space, max_groups, max_roles_per_user,
  max_spaces, max_votes_per_workflow,
}

-- `Node`
pub record Node : Type 0 where
  pub node_type : NodeType
  pub identifier : String

-- `DEFAULT_ORG_ID`
abbrev pub default_org_id : String
default_org_id = "00000000-0000-7000-8000-000000000000"

abbrev pub default_org : Node
default_org = record { node_type = org; identifier = default_org_id }

-- The errors of the service; those of the repositories are passed on.
pub data ServiceError : Type 0 where
  quota_unknown_error quota_unsupported_quota_type_for_node : ServiceError
  from_repository : String → ServiceError

-- What `quotaRepo.getQuota` can answer
pub data Found : Type 0 where
  quota_not_found : Found
  found : ℕ → Found
  failed : String → Found

-- `isQuotaTypeApplicableTo`
unfoldable pub is_quota_type_applicable_to : QuotaType → NodeType → Bool
unfolding lowest_node_type
is_quota_type_applicable_to q t = is_same_type t (lowest_node_type q)

-- `isQuotaSupportedAt` for a quota type, with the five rounds that are enough
unfoldable pub supports : QuotaType → NodeType → Bool
unfolding is_quota_supported_at
supports q t = elim (is_quota_supported_at 5 (quota_type q) t) [ none ↦ false | some b ↦ b ]

-- `QuotaIdentifierFactory.fromNodeAndQuota`
unfoldable pub from_node_and_quota : Node → QuotaType → Result IdentifierError QuotaIdentifier
unfolding supports
from_node_and_quota node q =
    if not (is_uuid_v7 node.identifier)
    then left invalid_target_id
    else if not (supports q node.node_type)
    then left unsupported_node_type
    else right
        (record { node_type = node.node_type; identifier = node.identifier; quota = quota_type q })

-- The repositories that the two services read.
pub record Repositories : Type 0 where
  pub get_parent_space : String → Result String String
  pub get_parent_workflow_template : String → Result String String
  pub get_quota : QuotaIdentifier → Found
  pub count_groups : Result String ℕ
  pub count_spaces : Result String ℕ
  pub count_templates_of_space : String → Result String ℕ
  pub count_user_members : String → Result String ℕ
  pub count_agent_members : String → Result String ℕ
  pub count_active_workflows : String → Result String ℕ
  pub count_roles_of_user : String → Result String ℕ
  pub count_votes : String → Result String ℕ

-- `getParents` of a template: its space and the organisation
unfoldable pub parents_of_template : Repositories → String → Result ServiceError (List Node)
parents_of_template repos template = do
  id ← map_left (λ _. quota_unknown_error) (repos.get_parent_space template)
  right (record { node_type = space; identifier = id } ∷ default_org ∷ [])

-- `HierarchyService.getParents`, its error mapped as `getQuota` maps it
unfoldable pub get_parents : Repositories → Node → Result ServiceError (List Node)
unfolding parents_of_template
get_parents repos node = elim node.node_type [
  | org ↦ right []
  | group ↦ right (default_org ∷ [])
  | space ↦ right (default_org ∷ [])
  | user ↦ right (default_org ∷ [])
  | workflow_template ↦ parents_of_template repos node.identifier
  | workflow ↦
      map_left (λ _. quota_unknown_error) (repos.get_parent_workflow_template node.identifier)
      >>= λ id. parents_of_template repos id >>= λ above.
          right (record { node_type = workflow_template; identifier = id } ∷ above)
]

-- The look-up at one node
unfoldable pub quota_at : Repositories → QuotaType → Node → Result ServiceError (Option ℕ)
unfolding from_node_and_quota
quota_at repos q node = elim (from_node_and_quota node q) [
  | left e ↦ left quota_unknown_error
  | right id ↦ elim (repos.get_quota id) [
    | quota_not_found ↦ right none
    | found limit ↦ right (some limit)
    | failed e ↦ left (from_repository e)
  ]
]

-- `nodes.reduce(…)`: the next node is asked only while nothing was found
unfoldable pub search_quota :
    Repositories
    → QuotaType
    → List Node
    → Result ServiceError (Option ℕ)
    → Result ServiceError (Option ℕ)
unfolding quota_at
search_quota repos q [] acc = acc
search_quota repos q (node ∷ nodes) acc =
    search_quota repos q nodes
      (acc >>= λ o. elim o [ some limit ↦ right (some limit) | none ↦ quota_at repos q node ])

-- `getQuota`: the limit
unfoldable pub get_quota : Repositories → Node → QuotaType → Result ServiceError (Option ℕ)
unfolding get_parents search_quota
get_quota repos target q = do
  above ← get_parents repos target
  search_quota repos q (target ∷ above) (right none)

-- `getUsage`
unfoldable pub get_usage : Repositories → Node → QuotaType → Result ServiceError ℕ
get_usage repos target q = map_left from_repository (elim q [
  | max_groups ↦ repos.count_groups
  | max_spaces ↦ repos.count_spaces
  | max_workflow_templates_per_space ↦ repos.count_templates_of_space target.identifier
  | max_entities_per_group ↦ repos.count_user_members target.identifier >>= λ users.
      repos.count_agent_members target.identifier >>= λ agents. right (users + agents)
  | max_concurrent_workflows ↦ repos.count_active_workflows target.identifier
  | max_roles_per_user ↦ repos.count_roles_of_user target.identifier
  | max_votes_per_workflow ↦ repos.count_votes target.identifier
])

-- `isQuotaAvailable`
unfoldable pub is_quota_available : Repositories → Node → QuotaType → ℕ → Result ServiceError Bool
unfolding is_quota_type_applicable_to get_quota get_usage
is_quota_available repos target q amount =
    if not (is_quota_type_applicable_to q target.node_type)
    then left quota_unsupported_quota_type_for_node
    else do
      quota ← get_quota repos target q
      elim quota [
        | none ↦ right true
        | some limit ↦ get_usage repos target q >>= λ usage. right (leb (usage + amount) limit)
      ]
