-- ===== src/Template.antt =====
-- domain/src/workflow-templates.ts: templates, and who may vote on their workflows.
pub mod Voting
pub mod Version
pub mod Actions
pub mod Validation
pub mod Lifecycle
use approvio.Base.{
  ℕ, String, Option, none, some, Bool, true, false, not, List, [], ◌∷◌, ◌==◌, any, all, map,
  includes, if◌then◌else◌, ◌&&◌, ◌||◌,
}
use approvio.Base.Dict.{Dict}
use approvio.Base.Result.{Result, left, right}
use approvio.Role.{RoleScope, ResourceType, BoundRole, workflow_template}
use approvio.Rule.{Rule, voting_group_ids, is_high_privilege_required}
use approvio.Membership.{MembershipEntity, get_membership_entity_id, get_membership_entity_type}

-- `WorkflowTemplateStatus`
pub data TemplateStatus : Type 0 where
  active pending_deprecation deprecated : TemplateStatus

-- `WebhookActionHttpMethod`, of domain/src/workflow-actions.ts
pub data HttpMethod : Type 0 where
  get post put : HttpMethod

-- `WebhookActionRedactScope`
pub data RedactScope : Type 0 where
  headers url everything : RedactScope

-- `WorkflowAction`: recipients; URL, method, headers, redaction; webhook URL
pub data WorkflowAction : Type 0 where
  email : List String → WorkflowAction
  webhook : String → HttpMethod → Option (Dict String) → Option RedactScope → WorkflowAction
  slack : String → WorkflowAction

-- `WorkflowTemplateData`
pub record Template : Type 0 where
  pub id : String
  pub name : String
  pub version : ℕ
  pub description : Option String
  pub approval_rule : Rule
  pub actions : List WorkflowAction
  pub default_expires_in_hours : Option ℕ
  pub status : TemplateStatus
  pub allow_voting_on_deprecated_template : Bool
  pub space_id : String
  pub created_at : ℕ
  pub updated_at : ℕ

-- `MembershipWithGroupRef`
pub record GroupMembership : Type 0 where
  pub entity : MembershipEntity
  pub group_id : String

-- `WorkflowTemplateCantVoteReason | "inconsistent_memberships"`
pub data CantVote : Type 0 where
  entity_not_in_required_group workflow_template_not_active entity_not_eligible_to_vote
        inconsistent_memberships :
      CantVote

-- `status === WorkflowTemplateStatus.ACTIVE`
abbrev pub is_active : TemplateStatus → Bool
is_active active = true
is_active _ = false

-- `role.resourceType === "workflow_template"`
abbrev pub is_template_resource : ResourceType → Bool
is_template_resource ResourceType.workflow_template = true
is_template_resource _ = false

-- The scope is the organisation, the template's space or its name.
unfoldable pub is_voting_scope : Template → RoleScope → Bool
is_voting_scope t RoleScope.org = true
is_voting_scope t (RoleScope.space s) = s == t.space_id
is_voting_scope t (RoleScope.workflow_template n) = n == t.name
is_voting_scope t (RoleScope.group _) = false

-- The test of one role in `hasVotePermissionForWorkflowTemplate`
unfoldable pub permits_vote : Template → BoundRole → Bool
unfolding is_voting_scope
permits_vote t role =
    if not (is_template_resource role.resource_type) || not (includes "vote" role.permissions)
    then false
    else is_voting_scope t role.scope

-- `hasVotePermissionForWorkflowTemplate`
unfoldable pub has_vote_permission : Template → List BoundRole → Bool
unfolding permits_vote
has_vote_permission t roles = any (permits_vote t) roles

-- `m.getEntityType() === entityType && m.getEntityId() === entityId`
unfoldable pub is_same_entity : MembershipEntity → GroupMembership → Bool
unfolding get_membership_entity_id get_membership_entity_type
is_same_entity e m =
    (get_membership_entity_type m.entity == get_membership_entity_type e)
    && (get_membership_entity_id m.entity == get_membership_entity_id e)

-- `votedForGroups ?? memberships.map(m => m.groupId)`
abbrev pub target_groups : Option (List String) → List GroupMembership → List String
target_groups none memberships = map (λ m. m.group_id) memberships
target_groups (some groups) memberships = groups

-- `canVote`; on success, whether a high privilege is required
unfoldable pub can_vote :
    Template → List GroupMembership → List BoundRole → Option (List String) → Result CantVote Bool
unfolding has_vote_permission is_same_entity voting_group_ids is_high_privilege_required
    get_membership_entity_type
can_vote t memberships roles voted_for_groups =
    if not (is_active t.status) && not t.allow_voting_on_deprecated_template
    then left workflow_template_not_active
    else elim memberships [
      | [] ↦ left entity_not_in_required_group
      | first ∷ rest ↦
          if not (all (is_same_entity first.entity) (first ∷ rest))
          then left inconsistent_memberships
          else if not (has_vote_permission t roles)
          then left entity_not_eligible_to_vote
          else if not
              (any (λ m. includes m.group_id (voting_group_ids t.approval_rule)) (first ∷ rest))
          then left entity_not_in_required_group
          else right (
              if get_membership_entity_type first.entity == "agent"
              then false
              else is_high_privilege_required t.approval_rule
                  (target_groups voted_for_groups (first ∷ rest)))
    ]
