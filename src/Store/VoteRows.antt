-- ===== src/Store/VoteRows.antt =====
-- external/src/database/vote.repository.ts: how a vote is written to a row of the table `votes`, and
-- read again.
pub mod Columns
use mathlib.Core.Path.{subst}
use approvio.Base.{
  ℕ, String, Option, none, some, true, List, [], ◌∷◌, ◌≡◌, ◌≢◌, refl, ◌==◌, if◌then◌else◌, eq_iff,
  inl, inr, Bool-cases,
}
use approvio.Base.Text.{truthy}
use approvio.Base.Result.{Result, left, right, ◌>>=◌}
use approvio.Entity.{EntityRef}
use approvio.Entity.Keys.{IsKnownType}
use approvio.Vote.{Vote, Ballot, approve, veto, withdraw}
use approvio.Vote.Validation.{VoteError, IsValid, validate, validate_iff}
use approvio.Uuid.{is_uuid_v7}

-- `PrismaVote`; `voted_for_groups` is never null in the table
pub record VoteRow : Type 0 where
  pub id : String
  pub workflow_id : String
  pub user_id : Option String
  pub agent_id : Option String
  pub vote_type : String
  pub reason : Option String
  pub voted_for_groups : List String
  pub created_at : ℕ

-- `VoteValidationError`, with the ones of the mapping
pub data VoteRowError : Type 0 where
  invalid_vote_type missing_voter_entity conflicting_voter_entities : VoteRowError
  by_factory : VoteError → VoteRowError

abbrev pub vote_type_of : Ballot → String
vote_type_of (approve _) = "APPROVE"
vote_type_of veto = "VETO"
vote_type_of withdraw = "WITHDRAW"

-- `undefined` leaves the column at its default, the empty array
abbrev pub groups_column : Ballot → List String
groups_column (approve groups) = groups
groups_column _ = []

-- `voter.entityType === type ? voter.entityId : null`
abbrev pub voter_column : String → EntityRef → Option String
voter_column type voter = if voter.entity_type == type then some voter.entity_id else none

-- The `data` of `tx.vote.create`; what the columns hold of it is `Columns.store_row`.
unfoldable pub create_row : Vote → VoteRow
create_row v = record {
  id = v.id;
  workflow_id = v.workflow_id;
  user_id = voter_column "user" v.voter;
  agent_id = voter_column "agent" v.voter;
  vote_type = vote_type_of v.ballot;
  reason = v.reason;
  voted_for_groups = groups_column v.ballot;
  created_at = v.casted_at;
}

-- The voter of a row: exactly one of the two columns is set
unfoldable pub voter_of_row : Option String → Option String → Result VoteRowError EntityRef
voter_of_row none none = left missing_voter_entity
voter_of_row (some u) none = right (record { entity_id = u; entity_type = "user" })
voter_of_row none (some a) = right (record { entity_id = a; entity_type = "agent" })
voter_of_row (some u) (some a) = left conflicting_voter_entities

-- The comparisons of `voteType`
unfoldable pub ballot_of_row : String → List String → Result VoteRowError Ballot
ballot_of_row vote_type groups =
    if vote_type == "APPROVE"
    then right (approve groups)
    else if vote_type == "VETO"
    then right veto
    else if vote_type == "WITHDRAW"
    then right withdraw
    else left invalid_vote_type

abbrev pub of_factory : Result VoteError Vote → Result VoteRowError Vote
of_factory (left e) = left (by_factory e)
of_factory (right v) = right v

-- `mapPrismaVoteToDomainVote`
unfoldable pub to_domain_vote : VoteRow → Result VoteRowError Vote
unfolding voter_of_row ballot_of_row
to_domain_vote r = do
  voter ← voter_of_row (truthy r.user_id) (truthy r.agent_id)
  ballot ← ballot_of_row r.vote_type r.voted_for_groups
  of_factory (
      validate (record {
        id = r.id;
        workflow_id = r.workflow_id;
        voter = voter;
        reason = r.reason;
        casted_at = r.created_at;
        ballot = ballot;
      }))

-- `mapPrismaVotesToDomainVotes`, that is, `traverseArray`
unfoldable pub to_domain_votes : List VoteRow → Result VoteRowError (List Vote)
unfolding to_domain_vote
to_domain_votes [] = right []
to_domain_votes (r ∷ rows) = do v ← to_domain_vote r; vs ← to_domain_votes rows; right (v ∷ vs)

empty_is_no_uuid : is_uuid_v7 "" ≢ true
unfolding is_uuid_v7
empty_is_no_uuid h = cc

uuid_truthy : (s : String) → is_uuid_v7 s ≡ true → truthy (some s) ≡ some s
uuid_truthy s h = elim (Bool-cases (s == "")) [
  | inl e ↦ absurd (empty_is_no_uuid (subst (λ x. is_uuid_v7 x ≡ true) ((eq_iff s "").0 e) h))
  | inr e ↦ rw e refl
]

-- The columns of a voter name that voter again.
pub voter_of_row-columns :
    (e : EntityRef)
    → is_uuid_v7 e.entity_id ≡ true
    → IsKnownType e.entity_type
    → voter_of_row (truthy (voter_column "user" e)) (truthy (voter_column "agent" e)) ≡ right e
unfolding voter_of_row
voter_of_row-columns e u (inl q) = rw q (rw (uuid_truthy e.entity_id u) refl)
voter_of_row-columns e u (inr q) = rw q (rw (uuid_truthy e.entity_id u) refl)

pub ballot_of_row-columns :
    (b : Ballot) → ballot_of_row (vote_type_of b) (groups_column b) ≡ right b
unfolding ballot_of_row
ballot_of_row-columns (approve gs) = refl
ballot_of_row-columns veto = refl
ballot_of_row-columns withdraw = refl
