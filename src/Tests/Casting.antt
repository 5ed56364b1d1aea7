-- ===== src/Tests/Casting.antt =====
-- Votes cast through the service.
use approvio.Base.{none, some, true, false, List, [], ◌∷◌, ◌≡◌, refl}
use approvio.Base.Result.{right}
use approvio.Entity.Authenticated.{AuthenticatedEntity, StepUpContext, vote as voting}
use approvio.Membership.{Agent, MembershipEntity}
use approvio.Rule.{is_high_privilege_required}
use approvio.Template.{GroupMembership, can_vote}
use approvio.Vote.{approve}
use approvio.VoteService.{
  Services, CastVoteRequest, prepare, cast_vote, allowed, vote_pending,
  can_vote as can_vote_service,
}
use approvio.VoteService.Casting.{Ends, cast_vote_outcome}
use approvio.VoteService.Groups.{with_groups, prepare_any_groups}
use approvio.Workflow.Voting.{can_vote_on_workflow}
use approvio.Tests.Voting.{engineers, managers, deploy}
use approvio.Tests.Access.{ann, template, memberships}

-- A bot that belongs to the managers and has the roles of Ann.
abbrev bot : Agent
bot = record {
  id = "0190a0b0-1c2d-7abc-8def-0123456789c9";
  agent_name = "bot";
  public_key = "key";
  created_at = 5;
  roles = ann.roles;
}

abbrev services : List GroupMembership → Services
services members = record {
  get_workflow_by_identifier = λ _. right (deploy, template);
  get_latest_vote = λ _ _. right none;
  get_memberships = λ _. right members;
  is_vote_quota_available = λ _. right true;
  consume_token = λ _. right tt;
  persist_vote = λ v. right v;
}

abbrev step_up_of_ann : StepUpContext
step_up_of_ann = record { jti = "token"; operation = voting; resource = some deploy.id }

abbrev of_ann : CastVoteRequest
of_ann = record {
  workflow_id = deploy.id;
  requestor = AuthenticatedEntity.user ann (some step_up_of_ann);
  reason = none;
  ballot = approve (managers ∷ []);
}

abbrev of_bot : CastVoteRequest
of_bot = record {
  workflow_id = deploy.id;
  requestor = AuthenticatedEntity.agent bot;
  reason = none;
  ballot = approve (managers ∷ []);
}

abbrev members_of_bot : List GroupMembership
members_of_bot = record { entity = MembershipEntity.agent bot; group_id = managers } ∷ []

-- Ann, a manager only, may approve for the engineers.
manager_for_engineers :
    prepare (services memberships) 100 (with_groups of_ann (engineers ∷ [])) ≡ right none
unfolding prepare can_vote_on_workflow can_vote is_high_privilege_required
manager_for_engineers = refl

cast_vote_outcome_example :
    Ends
      (services memberships)
      100
      "0190a0b0-1c2d-7abc-8def-0123456789b1"
      101
      of_ann
      (cast_vote (services memberships) 100 "0190a0b0-1c2d-7abc-8def-0123456789b1" 101 of_ann).0
      (cast_vote (services memberships) 100 "0190a0b0-1c2d-7abc-8def-0123456789b1" 101 of_ann).1
cast_vote_outcome_example =
    cast_vote_outcome (services memberships) 100 "0190a0b0-1c2d-7abc-8def-0123456789b1" 101 of_ann

prepare_any_groups_example :
    prepare (services memberships) 100 (with_groups of_ann (engineers ∷ []))
    ≡ prepare (services memberships) 100 (with_groups of_ann [])
unfolding is_high_privilege_required
prepare_any_groups_example =
    prepare_any_groups (services memberships) 100 of_ann deploy template (engineers ∷ []) [] refl
      refl

bot_may :
    can_vote_service (services members_of_bot) 100 deploy.id of_bot.requestor
    ≡ right (record { status = vote_pending; answer = allowed false })
unfolding can_vote_service can_vote_on_workflow can_vote
bot_may = refl
