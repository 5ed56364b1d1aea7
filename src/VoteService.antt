-- ===== src/VoteService.antt =====
-- services/src/vote/vote.service.ts, with `useHighPrivilegeToken` of services/src/auth/auth.service.ts.
-- The repositories and the other services are parameters.
pub mod Casting
pub mod Groups
use approvio.Base.{
  ℕ, String, Option, none, some, Bool, true, false, not, List, [], ◌∷◌, ◌==◌, ◌++◌, if◌then◌else◌,
}
use approvio.Base.Result.{Result, left, right, ◌>>=◌, ◌>>◌, reject_if, map_left}
use approvio.Base.Text.{truthy}
use approvio.Entity.{EntityRef}
use approvio.Entity.Authenticated.{
  StepUpOperation, vote, is_same_operation, StepUpContext, AuthenticatedEntity, user, agent,
  get_entity_roles, create_entity_reference,
}
use approvio.Rule.{is_high_privilege_required}
use approvio.Template.{Template, GroupMembership, inconsistent_memberships}
use approvio.Vote.{Vote, Ballot, approve, veto, withdraw}
use approvio.Vote.Validation.{VoteError, new_vote}
use approvio.Workflow.{Workflow}
use approvio.Workflow.Voting.{WorkflowCantVote, by_template, can_vote_on_workflow}

-- `UseHighPrivilegeTokenError`, as far as the service itself causes it
pub data StepUpError : Type 0 where
  entity_not_supported step_up_context_missing step_up_operation_mismatch
        step_up_resource_mismatch :
      StepUpError

-- `CastVoteServiceError`; the errors of repositories are passed on
pub data CastVoteError : Type 0 where
  cant_vote : WorkflowCantVote → CastVoteError
  quota_check_error quota_exceeded : CastVoteError
  step_up : StepUpError → CastVoteError
  invalid_vote : VoteError → CastVoteError
  from_repository : String → CastVoteError

-- What the service reads and calls.
pub record Services : Type 0 where
  pub get_workflow_by_identifier : String → Result String (Workflow × Template)
  pub get_latest_vote : String → EntityRef → Result String (Option Vote)
  pub get_memberships : EntityRef → Result String (List GroupMembership)
  pub is_vote_quota_available : String → Result String Bool
  pub consume_token : String → Result String (Unit {0})
  pub persist_vote : Vote → Result String Vote

-- `VoteStatus`
pub data VoteStatus : Type 0 where
  already_voted vote_pending : VoteStatus

abbrev pub status_of_ballot : Ballot → VoteStatus
status_of_ballot withdraw = vote_pending
status_of_ballot _ = already_voted

-- `getVoteStatus`
unfoldable pub get_vote_status : Option Vote → VoteStatus
get_vote_status none = vote_pending
get_vote_status (some v) = status_of_ballot v.ballot

-- `CanVoteResponse` without its status: allowed, and whether a high privilege is required; or not
pub data Answer : Type 0 where
  allowed : (require_high_privilege : Bool) → Answer
  denied : WorkflowCantVote → Answer

-- `CanVoteResponse`
pub record CanVoteResponse : Type 0 where
  pub status : VoteStatus
  pub answer : Answer

-- How `canVote` turns the result of `canVoteOnWorkflow` into its own
unfoldable pub answer_of : Result WorkflowCantVote Bool → Result CastVoteError Answer
answer_of (right high) = right (allowed high)
answer_of (left (by_template inconsistent_memberships)) =
    left (cant_vote (by_template inconsistent_memberships))
answer_of (left reason) = right (denied reason)

-- `canVote`, at the instant `now`
unfoldable pub can_vote :
    Services → ℕ → String → AuthenticatedEntity → Result CastVoteError CanVoteResponse
unfolding get_vote_status answer_of create_entity_reference get_entity_roles
can_vote s now workflow_id requestor = do
  found ← map_left from_repository (s.get_workflow_by_identifier workflow_id)
  latest ←
      map_left from_repository (s.get_latest_vote workflow_id (create_entity_reference requestor))
  memberships ← map_left from_repository (s.get_memberships (create_entity_reference requestor))
  answer ←
      answer_of
        (can_vote_on_workflow now found.0 found.1 memberships (get_entity_roles requestor) none)
  right (record { status = get_vote_status latest; answer = answer })

-- The test of the resource: a context without one fits every resource
unfoldable pub fits_resource : Option String → String → Bool
fits_resource o resource = elim (truthy o) [ none ↦ true | some r ↦ r == resource ]

-- `useHighPrivilegeToken` up to the consumption: the token that it consumes
unfoldable pub use_high_privilege_token :
    AuthenticatedEntity → StepUpOperation → String → Result StepUpError String
unfolding fits_resource
use_high_privilege_token (agent a) operation resource = left entity_not_supported
use_high_privilege_token (user u none) operation resource = left step_up_context_missing
use_high_privilege_token (user u (some c)) operation resource = do
  reject_if (not (is_same_operation c.operation operation)) step_up_operation_mismatch
  reject_if (not (fits_resource c.resource resource)) step_up_resource_mismatch
  right c.jti

-- `CastVoteRequest`
pub record CastVoteRequest : Type 0 where
  pub workflow_id : String
  pub requestor : AuthenticatedEntity
  pub reason : Option String
  pub ballot : Ballot

-- `if (!canVoteCheck.canVote) return TE.left(canVoteCheck.reason)`
unfoldable pub require_allowed : Answer → Result CastVoteError Bool
require_allowed (allowed high) = right high
require_allowed (denied reason) = left (cant_vote reason)

-- `checkQuota`
unfoldable pub check_quota : Services → String → Result CastVoteError (Unit {0})
check_quota s workflow_id = do
  available ← map_left (λ _. quota_check_error) (s.is_vote_quota_available workflow_id)
  reject_if (not available) quota_exceeded

-- The token to consume, if one is needed
unfoldable pub token_if : Bool → CastVoteRequest → Result CastVoteError (Option String)
unfolding use_high_privilege_token
token_if false req = right none
token_if true req =
    map_left step_up (use_high_privilege_token req.requestor vote req.workflow_id)
    >>= (λ jti. right (some jti))

-- `verifyHighPrivilegeIfNeeded`, up to the consumption; an approval asks the rule again, for the
-- groups of the request
unfoldable pub verify_high_privilege_if_needed :
    Services → Bool → CastVoteRequest → Ballot → Result CastVoteError (Option String)
unfolding token_if is_high_privilege_required
verify_high_privilege_if_needed s high req (approve groups) = do
  found ← map_left from_repository (s.get_workflow_by_identifier req.workflow_id)
  token_if (is_high_privilege_required found.1.approval_rule groups) req
verify_high_privilege_if_needed s high req veto = token_if high req
verify_high_privilege_if_needed s high req withdraw = token_if high req

-- `castVote` up to its first change: the token to consume
unfoldable pub prepare : Services → ℕ → CastVoteRequest → Result CastVoteError (Option String)
unfolding can_vote require_allowed check_quota verify_high_privilege_if_needed
prepare s now req = do
  response ← can_vote s now req.workflow_id req.requestor
  high ← require_allowed response.answer
  check_quota s req.workflow_id
  verify_high_privilege_if_needed s high req req.ballot

-- What `castVote` changes outside
pub data Effect : Type 0 where
  consumed : (jti : String) → Effect
  persisted : Vote → Effect
  enqueued : (workflow_id : String) → Effect

-- The vote is made, persisted, and its workflow enqueued; whether the queue takes the job is
-- ignored by the source.
unfoldable pub persist :
    Services → String → ℕ → CastVoteRequest → List Effect → Result CastVoteError Vote × List Effect
unfolding new_vote create_entity_reference
persist s id casted_at req done =
    elim (new_vote id casted_at req.workflow_id (create_entity_reference req.requestor) req.reason
      req.ballot) [
        | left e ↦ (left (invalid_vote e), done)
        | right v ↦ elim (s.persist_vote v) [
          | left e ↦ (left (from_repository e), done)
          | right saved ↦ (right saved, done ++ persisted v ∷ enqueued saved.workflow_id ∷ [])
        ]
      ]

-- `castVote`: its result and its effects in their order. The id of the vote comes from `uuidv7()`,
-- the two instants from the clock.
unfoldable pub cast_vote :
    Services → ℕ → String → ℕ → CastVoteRequest → Result CastVoteError Vote × List Effect
unfolding prepare persist
cast_vote s now id casted_at req = elim (prepare s now req) [
  | left e ↦ (left e, [])
  | right none ↦ persist s id casted_at req []
  | right (some jti) ↦ elim (s.consume_token jti) [
    | left e ↦ (left (from_repository e), [])
    | right _ ↦ persist s id casted_at req (consumed jti ∷ [])
  ]
]
