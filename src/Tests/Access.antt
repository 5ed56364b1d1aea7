-- ===== src/Tests/Access.antt =====
-- Who may vote, and who may assign roles.
use approvio.Base.{◌≤◌, String, none, Bool, true, false, List, [], ◌∷◌, ◌≡◌, ◌≢◌, refl, ◌↔◌, In}
use approvio.Base.Result.{left, right}
use approvio.Role.{RoleScope, ResourceType, BoundRole, org_type, group_type}
use approvio.Role.Permission.{User, member, has_permission, can_assign_roles}
use approvio.Role.Permission.Resources.{retype, has_permission-retype}
use approvio.Role.Permission.Assignment.{MayAssign, can_assign_roles_iff}
use approvio.Rule.Privilege.{Demands}
use approvio.Membership.{MembershipEntity, get_membership_entity_type}
use approvio.Template.{Template, WorkflowAction, active, GroupMembership, target_groups, can_vote}
use approvio.Template.Voting.{MayVote, can_vote_iff, can_vote-privilege}
use approvio.Workflow.{is_terminal}
use approvio.Workflow.Voting.{
  can_vote_on_workflow, can_vote_on_workflow_iff, invalid_terminal_status,
}
use approvio.Tests.Voting.{engineers, managers, rule, deploy}

-- A role to vote on every template.
abbrev voter : BoundRole
voter = record {
  name = "OrgWideWorkflowTemplateVoter";
  resource_type = ResourceType.workflow_template;
  permissions = "vote" ∷ [];
  scope_type = org_type;
  scope = RoleScope.org;
}

-- A role to manage the engineers.
abbrev group_manager : BoundRole
group_manager = record {
  name = "GroupManager";
  resource_type = ResourceType.group;
  permissions = "read" ∷ "manage" ∷ [];
  scope_type = group_type;
  scope = RoleScope.group engineers;
}

abbrev pub ann : User
ann = record {
  id = "0190a0b0-1c2d-7abc-8def-0123456789c1";
  display_name = "Ann";
  email = "ann@example.com";
  created_at = 5;
  org_role = member;
  roles = voter ∷ group_manager ∷ [];
}

abbrev pub template : Template
template = record {
  id = "0190a0b0-1c2d-7abc-8def-0123456789e0";
  name = "deploy";
  version = 1;
  description = none;
  approval_rule = rule;
  actions = WorkflowAction.email ("ops@example.com" ∷ []) ∷ [];
  default_expires_in_hours = none;
  status = active;
  allow_voting_on_deprecated_template = true;
  space_id = "0190a0b0-1c2d-7abc-8def-0123456789d0";
  created_at = 1;
  updated_at = 1;
}

abbrev pub memberships : List GroupMembership
memberships = record { entity = MembershipEntity.user ann; group_id = managers } ∷ []

votes_with_privilege : can_vote template memberships ann.roles none ≡ right true
unfolding can_vote
votes_with_privilege = refl

can_vote_iff_example :
    ((b : Bool) × (can_vote template memberships ann.roles none ≡ right b))
    ↔ MayVote template memberships ann.roles
can_vote_iff_example = can_vote_iff template memberships ann.roles none

can_vote-privilege_example : (true ≡ true) ↔ (
    ((m : GroupMembership) → In m memberships → get_membership_entity_type m.entity ≡ "user")
    × ((g : String) × In g (target_groups none memberships) × Demands g rule))
can_vote-privilege_example =
    can_vote-privilege template memberships ann.roles none true votes_with_privilege

can_vote_on_workflow_iff_example :
    (((b : Bool) × (can_vote_on_workflow 100 deploy template memberships ann.roles none ≡ right b))
      ↔ ((is_terminal deploy.status ≡ false)
          × (100 ≤ deploy.expires_at)
          × MayVote template memberships ann.roles))
    × (can_vote_on_workflow 100 deploy template memberships ann.roles none
        ≢ left invalid_terminal_status)
can_vote_on_workflow_iff_example =
    can_vote_on_workflow_iff 100 deploy template memberships ann.roles none

can_assign_roles_iff_example :
    (can_assign_roles ann (group_manager ∷ []) none ≡ true)
    ↔ ((role : BoundRole) → In role (group_manager ∷ []) → MayAssign ann none role)
can_assign_roles_iff_example = can_assign_roles_iff ann none (group_manager ∷ [])

-- Every role as one for audits.
abbrev for_audits : BoundRole → ResourceType
for_audits _ = ResourceType.audit

has_permission-retype_example :
    has_permission (retype for_audits ann.roles) RoleScope.org "vote"
    ≡ has_permission ann.roles RoleScope.org "vote"
has_permission-retype_example = has_permission-retype for_audits ann.roles RoleScope.org "vote"
