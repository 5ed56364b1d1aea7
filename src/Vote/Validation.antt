-- ===== src/Vote/Validation.antt =====
-- `VoteFactory.validate` and `VoteFactory.newVote`.
use approvio.Base.{
  ℕ, ◌≤◌, String, Option, none, some, List, true, false, not, ◌≡◌, refl, any, ltb, ◌==◌, ◌&&◌,
  eq_iff, arith, All, [], ◌∷◌, ◌↔◌,
}
use approvio.Base.Result.{Result, right, ◌>>◌, reject_if}
use approvio.Base.Text.{codes, utf16_length}
use approvio.Uuid.{is_uuid_v7}
use approvio.Entity.{EntityRef}
use approvio.Entity.Keys.{IsKnownType}
use approvio.Vote.{Ballot, approve, veto, withdraw, Vote}

-- `VoteValidationError`, those that the factory returns
pub data VoteError : Type 0 where
  invalid_workflow_id invalid_voter_id invalid_voter_type reason_too_long invalid_group_id :
      VoteError

abbrev vote_reason_max_length : ℕ
vote_reason_max_length = 1024

-- The `reason` is validated only if it is truthy; the empty text is short enough anyway.
unfoldable pub validate_reason : Option String → Result VoteError (Unit {0})
validate_reason none = right tt
validate_reason (some r) =
    reject_if (ltb vote_reason_max_length (utf16_length (codes r))) reason_too_long

unfoldable pub validate_voter : EntityRef → Result VoteError (Unit {0})
validate_voter v = do
  reject_if (not (is_uuid_v7 v.entity_id)) invalid_voter_id
  reject_if (not (v.entity_type == "user") && not (v.entity_type == "agent")) invalid_voter_type

unfoldable pub validate_group_ids : Ballot → Result VoteError (Unit {0})
validate_group_ids (approve groups) =
    reject_if (any (λ g. not (is_uuid_v7 g)) groups) invalid_group_id
validate_group_ids _ = right tt

-- `VoteFactory.validate`
unfoldable pub validate : Vote → Result VoteError Vote
validate v = do
  reject_if (not (is_uuid_v7 v.workflow_id)) invalid_workflow_id
  validate_voter v.voter
  validate_reason v.reason
  validate_group_ids v.ballot
  right v

-- `VoteFactory.newVote`: the id comes from `uuidv7()`, the instant from the clock.
unfoldable pub new_vote :
    String → ℕ → String → EntityRef → Option String → Ballot → Result VoteError Vote
new_vote id casted_at workflow_id voter reason ballot = validate (record {
  id = id;
  workflow_id = workflow_id;
  voter = voter;
  reason = reason;
  casted_at = casted_at;
  ballot = ballot;
})

abbrev pub HasGroupIds : Ballot → Type 0
HasGroupIds (approve groups) = All (λ g. is_uuid_v7 g ≡ true) groups
HasGroupIds _ = Unit

abbrev HasShortReason : Option String → Type 0
HasShortReason none = Unit
HasShortReason (some r) = utf16_length (codes r) ≤ 1024

-- What a vote must satisfy, said without the order of the tests.
pub record IsValid (v : Vote) : Type 0 where
  pub workflow : is_uuid_v7 v.workflow_id ≡ true
  pub voter_id : is_uuid_v7 v.voter.entity_id ≡ true
  pub voter_type : IsKnownType v.voter.entity_type
  pub reason : HasShortReason v.reason
  pub groups : HasGroupIds v.ballot

group_ids_sound :
    (gs : List String)
    → any (λ g. not (is_uuid_v7 g)) gs ≡ false
    → All (λ g. is_uuid_v7 g ≡ true) gs
group_ids_sound [] h = tt
group_ids_sound (g ∷ gs) h = (ground arith, group_ids_sound gs (ground arith))

group_ids_complete :
    (gs : List String)
    → All (λ g. is_uuid_v7 g ≡ true) gs
    → any (λ g. not (is_uuid_v7 g)) gs ≡ false
group_ids_complete [] h = refl
group_ids_complete (g ∷ gs) h = ground (arith, group_ids_complete gs h.1)

validate_reason_iff : (o : Option String) → (validate_reason o ≡ right tt) ↔ HasShortReason o
unfolding validate_reason
validate_reason_iff none = ((λ _. tt), λ _. refl)
validate_reason_iff (some r) = ((λ h. ground arith), λ h. ground arith)

validate_voter_iff :
    (v : EntityRef)
    → (validate_voter v ≡ right tt) ↔ ((is_uuid_v7 v.entity_id ≡ true) × IsKnownType v.entity_type)
unfolding validate_voter
validate_voter_iff v = (
  (λ h. ground (arith, eq_iff v.entity_type "user", eq_iff v.entity_type "agent")),
  λ h. ground (arith, eq_iff v.entity_type "user", eq_iff v.entity_type "agent"),
)

validate_group_ids_iff : (b : Ballot) → (validate_group_ids b ≡ right tt) ↔ HasGroupIds b
unfolding validate_group_ids
validate_group_ids_iff (approve gs) =
    ((λ h. group_ids_sound gs (ground arith)), λ h. ground (arith, group_ids_complete gs h))
validate_group_ids_iff veto = ((λ _. tt), λ _. refl)
validate_group_ids_iff withdraw = ((λ _. tt), λ _. refl)

-- The validation returns a vote as it is exactly when the vote is valid.
pub validate_iff : (v : Vote) → (validate v ≡ right v) ↔ IsValid v
unfolding validate
validate_iff v = (
  (λ h.
      let facts : (validate_voter v.voter ≡ right tt)
          × (validate_reason v.reason ≡ right tt)
          × (validate_group_ids v.ballot ≡ right tt)
          × (is_uuid_v7 v.workflow_id ≡ true) =
        ground arith in
      record {
        workflow = facts.3;
        voter_id = ((validate_voter_iff v.voter).0 facts.0).0;
        voter_type = ((validate_voter_iff v.voter).0 facts.0).1;
        reason = (validate_reason_iff v.reason).0 facts.1;
        groups = (validate_group_ids_iff v.ballot).0 facts.2;
      }),
  λ h. ground (
    arith,
    (validate_voter_iff v.voter).1 (h.voter_id, h.voter_type),
    (validate_reason_iff v.reason).1 h.reason,
    (validate_group_ids_iff v.ballot).1 h.groups,
  ),
)

-- Validation never changes a vote.
pub validate-eq_self : (v w : Vote) → validate v ≡ right w → w ≡ v
unfolding validate
validate-eq_self v w h = ground arith
