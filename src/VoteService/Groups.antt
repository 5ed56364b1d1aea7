-- ===== src/VoteService/Groups.antt =====
-- About the groups of an approval that services/src/vote/vote.service.ts lets through.
use approvio.Base.{ℕ, String, Bool, true, false, List, [], ◌≡◌, ◌≢◌, refl, Option, inl, inr, arith}
use approvio.Base.Result.{Result, left, right, ◌>>=◌, Result-cases, >>=-eq-right}
use approvio.Entity.Authenticated.{agent}
use approvio.Membership.{Agent}
use approvio.Rule.{is_high_privilege_required}
use approvio.Template.{Template}
use approvio.Vote.{approve}
use approvio.Workflow.{Workflow}
use approvio.VoteService.{
  CastVoteError, cast_vote, step_up, entity_not_supported, Services, can_vote, CastVoteRequest,
  require_allowed, check_quota, token_if, use_high_privilege_token, verify_high_privilege_if_needed,
  prepare,
}

-- The request with other groups to approve for
abbrev pub with_groups : CastVoteRequest → List String → CastVoteRequest
with_groups req groups = record req { ballot = approve groups }

token_same :
    (b : Bool) (req : CastVoteRequest) (groups groups' : List String)
    → token_if b (with_groups req groups) ≡ token_if b (with_groups req groups')
unfolding token_if
token_same true req groups groups' = refl
token_same false req groups groups' = refl

verify_same :
    (s : Services) (high : Bool) (req : CastVoteRequest) (w : Workflow) (t : Template)
    (groups groups' : List String)
    → s.get_workflow_by_identifier req.workflow_id ≡ right (w, t)
    → is_high_privilege_required t.approval_rule groups
      ≡ is_high_privilege_required t.approval_rule groups'
    → verify_high_privilege_if_needed s high (with_groups req groups) (approve groups)
      ≡ verify_high_privilege_if_needed s high (with_groups req groups') (approve groups')
unfolding verify_high_privilege_if_needed
verify_same s high req w t groups groups' found same =
    rw (found, same) (token_same _ req groups groups')

>>=-same :
    {E A B : Type 0} (m : Result E A) (f g : A → Result E B)
    → ((a : A) → f a ≡ g a)
    → (m >>= f) ≡ (m >>= g)
>>=-same (left e) f g h = refl
>>=-same (right a) f g h = h a

-- Which groups an approval is for is not compared with the memberships of the voter: the checks
-- before a vote end the same for any two lists of groups of which the rule of the workflow's
-- template demands a high privilege for both or for neither.
pub prepare_any_groups :
    (s : Services) (now : ℕ) (req : CastVoteRequest) (w : Workflow) (t : Template)
    (groups groups' : List String)
    → s.get_workflow_by_identifier req.workflow_id ≡ right (w, t)
    → is_high_privilege_required t.approval_rule groups
      ≡ is_high_privilege_required t.approval_rule groups'
    → prepare s now (with_groups req groups) ≡ prepare s now (with_groups req groups')
unfolding prepare
prepare_any_groups s now req w t groups groups' found same =
    >>=-same (can_vote s now req.workflow_id req.requestor) _ _ (λ response.
      >>=-same (require_allowed response.answer) _ _
        (λ high. >>=-same (check_quota s req.workflow_id) _ _ (λ _. verified high)))
  where
    verified :
        (high : Bool)
        → verify_high_privilege_if_needed s high (with_groups req groups) (approve groups)
          ≡ verify_high_privilege_if_needed s high (with_groups req groups') (approve groups')
    verified high = verify_same s high req w t groups groups' found same

token_if-agent :
    (req : CastVoteRequest) (a : Agent)
    → req.requestor ≡ agent a
    → token_if true req ≡ left (step_up entity_not_supported)
unfolding token_if use_high_privilege_token
token_if-agent req a who = rw who refl

module _ (s : Services) (now : ℕ) (req : CastVoteRequest) (a : Agent) (w : Workflow) (t : Template)
    (groups : List String) (who : req.requestor ≡ agent a)
    (found : s.get_workflow_by_identifier req.workflow_id ≡ right (w, t))
    (high : is_high_privilege_required t.approval_rule groups ≡ true) where
  verify-agent :
      (b : Bool)
      → verify_high_privilege_if_needed s b (with_groups req groups) (approve groups)
        ≡ left (step_up entity_not_supported)
  unfolding verify_high_privilege_if_needed
  verify-agent b = rw (found, high) (token_if-agent (with_groups req groups) a who)

  prepare-agent : (jti : Option String) → prepare s now (with_groups req groups) ≢ right jti
  unfolding prepare
  prepare-agent jti q =
      let (response, _, q1) = >>=-eq-right (can_vote s now req.workflow_id req.requestor) _ q in
      let (b, _, q2) = >>=-eq-right (require_allowed response.answer) _ q1 in
      let (_, _, q3) = >>=-eq-right (check_quota s req.workflow_id) _ q2 in
      ground (arith, verify-agent b, q3)

-- No approval of an agent for groups for which the rule of the workflow's template demands a high
-- privilege is ever cast: whatever the other services answer, castVote ends with an error and
-- changes nothing, also when canVote says that the agent may vote without a high privilege.
pub cast_vote-agent_refused :
    (s : Services) (now : ℕ) (id : String) (casted_at : ℕ) (req : CastVoteRequest) (a : Agent)
    (w : Workflow) (t : Template) (groups : List String)
    → req.requestor ≡ agent a
    → s.get_workflow_by_identifier req.workflow_id ≡ right (w, t)
    → is_high_privilege_required t.approval_rule groups ≡ true
    → (e : CastVoteError) × (cast_vote s now id casted_at (with_groups req groups) ≡ (left e, []))
unfolding cast_vote
cast_vote-agent_refused s now id casted_at req a w t groups who found high =
    elim (Result-cases (prepare s now (with_groups req groups))) [
      | inl (e, q) ↦ (e, rw (cast_vote, q) refl)
      | inr (jti, q) ↦ absurd (prepare-agent s now req a w t groups who found high jti q)
    ]
