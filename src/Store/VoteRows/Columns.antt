-- ===== src/Store/VoteRows/Columns.antt =====
-- The columns of the table `votes`, prisma/schema.prisma, for which what Postgres does is a parameter.
use approvio.Base.{
  String, Option, none, some, true, false, List, [], ◌∷◌, ◌≡◌, refl, nat_eq, any, All, Bool-cases,
  inl, inr, ◌==◌,
}
use approvio.Base.Result.{right}
use approvio.Base.Text.{codes}
use approvio.Entity.{EntityRef}
use approvio.Uuid.{is_uuid_v7, lower, is_uuid_v7-lower, is_uuid_v7-no_nul}
use approvio.Vote.{Vote, Ballot, approve, veto, withdraw}
use approvio.Vote.Validation.{IsValid, HasGroupIds, validate_iff}
use approvio.Store.VoteRows.{
  VoteRow, create_row, to_domain_vote, voter_of_row-columns, ballot_of_row-columns, voter_column,
  vote_type_of, groups_column,
}

-- What a column of type `uuid`, and one of a text type, holds of a text, if Postgres takes it
pub record Columns : Type 0 where
  pub uuid : String → Option String
  pub text : String → Option String

abbrev pub HasNoNul : String → Type 0
HasNoNul s = any (λ c. nat_eq c 0) (codes s) ≡ false

-- What Postgres documents: a UUID is held in lower case, and a text without U+0000 as it is.
pub record IsPostgres (columns : Columns) : Type 0 where
  pub uuid : (s : String) → is_uuid_v7 s ≡ true → columns.uuid s ≡ some (lower s)
  pub text : (s : String) → HasNoNul s → columns.text s ≡ some s

-- A column that may be null
abbrev pub nullable : (String → Option String) → Option String → Option (Option String)
nullable f none = some none
nullable f (some s) = elim (f s) [ none ↦ none | some t ↦ some (some t) ]

-- A column of an array type
abbrev pub array : (String → Option String) → List String → Option (List String)
array f [] = some []
array f (s ∷ ss) = elim (f s) [
  | none ↦ none
  | some t ↦ elim (array f ss) [ none ↦ none | some ts ↦ some (t ∷ ts) ]
]

infixl 5 ◌>>=◌
abbrev ◌>>=◌ : {A B : Type 0} → Option A → (A → Option B) → Option B
none >>= f = none
some a >>= f = f a

-- The row that the table holds after `tx.vote.create` of the data, unless Postgres refuses it
unfoldable pub store_row : Columns → VoteRow → Option VoteRow
store_row c r = do
  id ← c.uuid r.id
  workflow_id ← c.uuid r.workflow_id
  user_id ← nullable c.uuid r.user_id
  agent_id ← nullable c.uuid r.agent_id
  vote_type ← c.text r.vote_type
  reason ← nullable c.text r.reason
  groups ← array c.text r.voted_for_groups
  some (record {
    id = id;
    workflow_id = workflow_id;
    user_id = user_id;
    agent_id = agent_id;
    vote_type = vote_type;
    reason = reason;
    voted_for_groups = groups;
    created_at = r.created_at;
  })

-- The vote with its ids in lower case, those of groups excepted, which are a text column
abbrev pub canonical : Vote → Vote
canonical v = record v {
  id = lower v.id;
  workflow_id = lower v.workflow_id;
  voter = record v.voter { entity_id = lower v.voter.entity_id };
}

canonical-IsValid : (v : Vote) → IsValid v → IsValid (canonical v)
canonical-IsValid v h = record {
  workflow = is_uuid_v7-lower v.workflow_id h.workflow;
  voter_id = is_uuid_v7-lower v.voter.entity_id h.voter_id;
  voter_type = h.voter_type;
  reason = h.reason;
  groups = h.groups;
}

abbrev pub IsStorable : Option String → Type 0
IsStorable none = Unit
IsStorable (some r) = HasNoNul r

module _ (c : Columns) (postgres : IsPostgres c) where
  text_groups : (gs : List String) → All (λ g. is_uuid_v7 g ≡ true) gs → array c.text gs ≡ some gs
  text_groups [] h = refl
  text_groups (g ∷ gs) (h, hs) =
      rw (array, postgres.text g (is_uuid_v7-no_nul g h), text_groups gs hs) refl

  array-groups_column :
      (b : Ballot) → HasGroupIds b → array c.text (groups_column b) ≡ some (groups_column b)
  array-groups_column (approve gs) h = text_groups gs h
  array-groups_column veto h = refl
  array-groups_column withdraw h = refl

  text-vote_type_of : (b : Ballot) → c.text (vote_type_of b) ≡ some (vote_type_of b)
  text-vote_type_of (approve gs) = postgres.text "APPROVE" refl
  text-vote_type_of veto = postgres.text "VETO" refl
  text-vote_type_of withdraw = postgres.text "WITHDRAW" refl

  nullable-reason : (o : Option String) → IsStorable o → nullable c.text o ≡ some o
  nullable-reason none h = refl
  nullable-reason (some r) h = rw (nullable, postgres.text r h) refl

  nullable-voter :
      (type : String) (e : EntityRef)
      → is_uuid_v7 e.entity_id ≡ true
      → nullable c.uuid (voter_column type e)
        ≡ some (voter_column type (record e { entity_id = lower e.entity_id }))
  nullable-voter type e u = elim (Bool-cases (e.entity_type == type)) [
    | inl same ↦ rw (same, postgres.uuid e.entity_id u) refl
    | inr other ↦ rw other refl
  ]

  -- A vote that is written to the table is read back, with the ids that are UUID columns in lower
  -- case and everything else as it was: for a valid vote, of which also its own id is a UUID of
  -- version 7 and the reason has no U+0000, the table takes the row, and the row is read as that vote.
  pub to_domain_vote-store_row :
      (v : Vote)
      → IsValid v
      → is_uuid_v7 v.id ≡ true
      → IsStorable v.reason
      → (row : VoteRow) × (store_row c (create_row v) ≡ some row)
        × (to_domain_vote row ≡ right (canonical v))
  unfolding store_row create_row to_domain_vote
  to_domain_vote-store_row v h id reason =
      let valid = canonical-IsValid v h in
      (
        create_row (canonical v),
        rw
            (
              postgres.uuid v.id id,
              postgres.uuid v.workflow_id h.workflow,
              nullable-voter "user" v.voter h.voter_id,
              nullable-voter "agent" v.voter h.voter_id,
              text-vote_type_of v.ballot,
              nullable-reason v.reason reason,
              array-groups_column v.ballot h.groups,
            )
            refl,
        rw
            (
              voter_of_row-columns (canonical v).voter valid.voter_id valid.voter_type,
              ballot_of_row-columns v.ballot,
              (validate_iff (canonical v)).1 valid,
            )
            refl,
      )
