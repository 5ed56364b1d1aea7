-- ===== src/VoteService/Casting.antt =====
-- About `castVote` of services/src/vote/vote.service.ts: what a cast vote and a refusal imply.
use mathlib.Core.Path.{subst}
use approvio.Base.{
  ℕ, ◌≤◌, String, Option, none, some, Bool, true, false, List, [], ◌∷◌, ◌++◌, ◌≡◌, refl, arith, inl,
  inr,
}
use approvio.Base.Result.{Result, left, right, >>=-eq-right, Result-cases, map_left}
use approvio.Entity.Authenticated.{
  StepUpOperation, vote, is_same_operation, StepUpContext, AuthenticatedEntity, user, agent,
  get_entity_roles, create_entity_reference,
}
use approvio.Role.Permission.{User}
use approvio.Rule.{is_high_privilege_required}
use approvio.Template.{Template, GroupMembership}
use approvio.Template.Voting.{MayVote}
use approvio.Vote.{Vote, Ballot, approve, veto, withdraw}
use approvio.Vote.Validation.{new_vote}
use approvio.Workflow.{Workflow, is_terminal}
use approvio.Workflow.Voting.{WorkflowCantVote, can_vote_on_workflow, can_vote_on_workflow_iff}
use approvio.VoteService.{
  CastVoteError, from_repository, step_up, invalid_vote, Services, Answer, CanVoteResponse,
  answer_of, can_vote, fits_resource, use_high_privilege_token, CastVoteRequest, require_allowed,
  check_quota, token_if, verify_high_privilege_if_needed, prepare, Effect, consumed, persisted,
  enqueued, persist, cast_vote,
}

pub map_left-right :
    {E F A : Type 0} (f : E → F) (m : Result E A) (a : A) → map_left f m ≡ right a → m ≡ right a
map_left-right f (left e) a h = cc
map_left-right f (right b) a h = cc

-- Whether the vote needs a step-up: an approval asks for its groups, the others as `canVote` says.
unfoldable pub needs_privilege : Template → Bool → Ballot → Bool
unfolding is_high_privilege_required
needs_privilege t high (approve groups) = is_high_privilege_required t.approval_rule groups
needs_privilege t high _ = high

-- The token that is consumed: none is needed, or it is that of a user's step-up for voting on
-- this workflow.
pub data Unlocks (req : CastVoteRequest) : Bool → Option String → Type 0 where
  unneeded : Unlocks req false none
  stepped_up :
      {u : User} {c : StepUpContext}
      → req.requestor ≡ user u (some c)
      → c.operation ≡ vote
      → fits_resource c.resource req.workflow_id ≡ true
      → Unlocks req true (some c.jti)

-- What lets a vote through.
pub record Granted (s : Services) (now : ℕ) (req : CastVoteRequest) (token : Option String)
    : Type 0 where
  pub workflow : Workflow
  pub template : Template
  pub memberships : List GroupMembership
  pub high : Bool
  pub found : s.get_workflow_by_identifier req.workflow_id ≡ right (workflow, template)
  pub known : s.get_memberships (create_entity_reference req.requestor) ≡ right memberships
  pub open_still : is_terminal workflow.status ≡ false
  pub in_time : now ≤ workflow.expires_at
  pub may : MayVote template memberships (get_entity_roles req.requestor)
  pub quota : s.is_vote_quota_available req.workflow_id ≡ right true
  pub unlocks : Unlocks req (needs_privilege template high req.ballot) token

same_operation : (o : StepUpOperation) → is_same_operation o vote ≡ true → o ≡ vote
same_operation o h = ground arith

Unlocks-by :
    (e : AuthenticatedEntity) (req : CastVoteRequest) (jti : String)
    → req.requestor ≡ e
    → use_high_privilege_token e vote req.workflow_id ≡ right jti
    → Unlocks req true (some jti)
unfolding use_high_privilege_token
Unlocks-by (agent a) req jti q h = cc
Unlocks-by (user u none) req jti q h = cc
Unlocks-by (user u (some c)) req jti q h =
    let same : is_same_operation c.operation vote ≡ true = ground (arith, h) in
    let fits : fits_resource c.resource req.workflow_id ≡ true = ground (arith, h) in
    let e : c.jti ≡ jti = ground (arith, h) in
    subst (λ x. Unlocks req true (some x)) e (stepped_up q (same_operation c.operation same) fits)

token_if-Unlocks :
    (b : Bool) (req : CastVoteRequest) (token : Option String)
    → token_if b req ≡ right token
    → Unlocks req b token
unfolding token_if
token_if-Unlocks false req none h = unneeded
token_if-Unlocks false req (some x) h = cc
token_if-Unlocks true req token h =
    let (jti, e, f) =
      >>=-eq-right (map_left step_up (use_high_privilege_token req.requestor vote req.workflow_id))
        _ h in
    let q : some jti ≡ token = ground (arith, f) in
    subst (λ x. Unlocks req true x) q
      (Unlocks-by req.requestor req jti refl (map_left-right step_up _ jti e))

verify-Unlocks :
    (s : Services) (req : CastVoteRequest) (w : Workflow) (t : Template) (high : Bool) (b : Ballot)
    (token : Option String)
    → s.get_workflow_by_identifier req.workflow_id ≡ right (w, t)
    → verify_high_privilege_if_needed s high req b ≡ right token
    → Unlocks req (needs_privilege t high b) token
unfolding verify_high_privilege_if_needed needs_privilege
verify-Unlocks s req w t high (approve groups) token found h =
    token_if-Unlocks _ req token (rw found at h)
verify-Unlocks s req w t high veto token found h = token_if-Unlocks high req token h
verify-Unlocks s req w t high withdraw token found h = token_if-Unlocks high req token h

-- An answer that allows comes from a positive result.
answer_of-allowed :
    (r : Result WorkflowCantVote Bool) (a : Answer) (high : Bool)
    → answer_of r ≡ right a
    → require_allowed a ≡ right high
    → r ≡ right high
unfolding answer_of require_allowed
answer_of-allowed (right b) a high h k = ground (arith, h, k)
answer_of-allowed (left e) a high h k = ground (arith, h, k)

-- What a positive answer of `canVote` rests on.
record Allowed (s : Services) (now : ℕ) (req : CastVoteRequest) (high : Bool) : Type 0 where
  workflow : Workflow
  template : Template
  memberships : List GroupMembership
  found : s.get_workflow_by_identifier req.workflow_id ≡ right (workflow, template)
  known : s.get_memberships (create_entity_reference req.requestor) ≡ right memberships
  passes :
      can_vote_on_workflow now workflow template memberships (get_entity_roles req.requestor) none
      ≡ right high

can_vote-Allowed :
    (s : Services) (now : ℕ) (req : CastVoteRequest) (response : CanVoteResponse) (high : Bool)
    → can_vote s now req.workflow_id req.requestor ≡ right response
    → require_allowed response.answer ≡ right high
    → Allowed s now req high
unfolding can_vote
can_vote-Allowed s now req response high h k =
    let (found, f0, g0) =
      >>=-eq-right (map_left from_repository (s.get_workflow_by_identifier req.workflow_id)) _ h in
    let (latest, f1, g1) =
      >>=-eq-right
        (map_left from_repository
          (s.get_latest_vote req.workflow_id (create_entity_reference req.requestor)))
        _ g0 in
    let (memberships, f2, g2) =
      >>=-eq-right
        (map_left from_repository (s.get_memberships (create_entity_reference req.requestor))) _
        g1 in
    let (answer, f3, g3) =
      >>=-eq-right
        (answer_of (
          can_vote_on_workflow now found.0 found.1 memberships (get_entity_roles req.requestor)
            none))
        _ g2 in
    let q : answer ≡ response.answer = ground (arith, g3) in
    record {
      workflow = found.0;
      template = found.1;
      memberships = memberships;
      found = map_left-right from_repository _ _ f0;
      known = map_left-right from_repository _ _ f2;
      passes = answer_of-allowed _ answer high f3 (rw q k);
    }

check_quota-true :
    (s : Services) (id : String)
    → check_quota s id ≡ right tt
    → s.is_vote_quota_available id ≡ right true
unfolding check_quota
check_quota-true s id h = ground (arith, h)

prepare-Granted :
    (s : Services) (now : ℕ) (req : CastVoteRequest) (token : Option String)
    → prepare s now req ≡ right token
    → Granted s now req token
unfolding prepare
prepare-Granted s now req token h =
    let (response, e0, h0) = >>=-eq-right (can_vote s now req.workflow_id req.requestor) _ h in
    let (high, e1, h1) = >>=-eq-right (require_allowed response.answer) _ h0 in
    let (_, e2, h2) = >>=-eq-right (check_quota s req.workflow_id) _ h1 in
    granted_by response high (can_vote-Allowed s now req response high e0 e1) e2 h2
  where
    granted_by :
        (response : CanVoteResponse) (high : Bool)
        → Allowed s now req high
        → check_quota s req.workflow_id ≡ right tt
        → verify_high_privilege_if_needed s high req req.ballot ≡ right token
        → Granted s now req token
    granted_by response high a e2 h2 =
        let (open_still, in_time, may) =
          (can_vote_on_workflow_iff now a.workflow a.template a.memberships
              (get_entity_roles req.requestor) none).0.0
            (high, a.passes) in
        record {
          workflow = a.workflow;
          template = a.template;
          memberships = a.memberships;
          high = high;
          found = a.found;
          known = a.known;
          open_still = open_still;
          in_time = in_time;
          may = may;
          quota = check_quota-true s req.workflow_id e2;
          unlocks = verify-Unlocks s req a.workflow a.template high req.ballot token a.found h2;
        }

-- The effect of the step-up, if one was needed.
abbrev pub spent : Option String → List Effect
spent none = []
spent (some jti) = consumed jti ∷ []

-- The vote that the request asks for.
unfoldable pub requested : String → ℕ → CastVoteRequest → Result CastVoteError Vote
requested id casted_at req = map_left invalid_vote (
    new_vote id casted_at req.workflow_id (create_entity_reference req.requestor) req.reason
      req.ballot)

-- How `castVote` can end: the vote is through, persisted once, and the workflow enqueued; or the
-- result is an error and no vote is persisted.
pub data Ends (s : Services) (now : ℕ) (id : String) (casted_at : ℕ) (req : CastVoteRequest)
    (result : Result CastVoteError Vote) (effects : List Effect) : Type 0 where
  through :
      (token : Option String) (v saved : Vote)
      → Granted s now req token
      → requested id casted_at req ≡ right v
      → s.persist_vote v ≡ right saved
      → result ≡ right saved
      → effects ≡ spent token ++ persisted v ∷ enqueued saved.workflow_id ∷ []
      → Ends s now id casted_at req result effects
  refused :
      (e : CastVoteError) (token : Option String)
      → result ≡ left e
      → effects ≡ spent token
      → Ends s now id casted_at req result effects

module _ (s : Services) (now : ℕ) (id : String) (casted_at : ℕ) (req : CastVoteRequest) where
  Finished : Option String → Result CastVoteError Vote × List Effect → Type 0
  Finished token out = Ends s now id casted_at req out.0 out.1

  persist-Ends :
      (token : Option String)
      → Granted s now req token
      → Finished token (persist s id casted_at req (spent token))
  unfolding persist requested Finished
  persist-Ends token g =
      elim (Result-cases (
        new_vote id casted_at req.workflow_id (create_entity_reference req.requestor) req.reason
          req.ballot)) [
            | inl (e, q) ↦ rw (q, persist) (refused (invalid_vote e) token refl refl)
            | inr (v, q) ↦ elim (Result-cases (s.persist_vote v)) [
              | inl (e, p) ↦ rw (q, p, persist) (refused (from_repository e) token refl refl)
              | inr (saved, p) ↦
                  rw (q, p, persist) (through token v saved g (rw q refl) p refl refl)
            ]
          ]

  cast_by :
      (r : Result CastVoteError (Option String))
      → prepare s now req ≡ r
      → Finished none (cast_vote s now id casted_at req)
  unfolding cast_vote Finished
  cast_by (left e) q = rw (q, cast_vote) (refused e none refl refl)
  cast_by (right none) q = rw (q, cast_vote) (persist-Ends none (prepare-Granted s now req none q))
  cast_by (right (some jti)) q = elim (Result-cases (s.consume_token jti)) [
    | inl (e, p) ↦ rw (q, p, cast_vote) (refused (from_repository e) none refl refl)
    | inr (_, p) ↦
        rw (q, p, cast_vote) (persist-Ends (some jti) (prepare-Granted s now req (some jti) q))
  ]

  -- A vote is persisted, once, only for a workflow that is open and not expired, by a voter whom
  -- the template lets vote, within the quota, and, if the vote needs a high privilege, by a user
  -- whose step-up token for voting on this workflow has been consumed. Otherwise the result is an
  -- error and nothing is persisted or enqueued; a token may have been consumed even then.
  pub cast_vote_outcome :
      Ends s now id casted_at req
        (cast_vote s now id casted_at req).0
        (cast_vote s now id casted_at req).1
  unfolding Finished
  cast_vote_outcome = cast_by _ refl
