-- ===== src/Rule.antt =====
-- domain/src/approval-rules.ts: approval rules and what the votes must be to cover them.
pub mod Coverage
pub mod Satisfies
pub mod WellFormed
pub mod Privilege
pub mod Validation
use approvio.Base.{
  ℕ, String, Option, none, some, Bool, true, false, List, [], ◌∷◌, ◌++◌, ◌&&◌, ◌||◌, leb, length,
  includes,
}
use approvio.Base.Dict.{Dict, lookup}

-- `ApprovalRuleData`; the `rules` of a rule are a list of their own
mutual
  pub data Rule : Type 0 where
    and_rule or_rule : Rules → Rule
    group_requirement : String → ℕ → Option Bool → Rule

  pub data Rules : Type 0 where
    nil : Rules
    cons : Rule → Rules → Rules

-- `groupVoters.get(groupId)?.size ?? 0`
unfoldable pub voter_count : String → Dict (List String) → ℕ
voter_count g voters = elim (lookup g voters) [ none ↦ 0 | some s ↦ length s ]

unfoldable mutual
  unfolding voter_count

  -- `doesVotesCoverApprovalRules`
  pub covers : Rule → Dict (List String) → Bool
  covers (group_requirement g min_count _) voters = leb min_count (voter_count g voters)
  covers (and_rule rules) voters = covers_all rules voters
  covers (or_rule rules) voters = covers_any rules voters

  -- `rules.every(…)`
  pub covers_all : Rules → Dict (List String) → Bool
  covers_all nil voters = true
  covers_all (cons r rules) voters = covers r voters && covers_all rules voters

  -- `rules.some(…)`
  pub covers_any : Rules → Dict (List String) → Bool
  covers_any nil voters = false
  covers_any (cons r rules) voters = covers r voters || covers_any rules voters

unfoldable mutual
  -- `getVotingGroupIds`
  pub voting_group_ids : Rule → List String
  voting_group_ids (group_requirement g _ _) = g ∷ []
  voting_group_ids (and_rule rules) = voting_group_ids_all rules
  voting_group_ids (or_rule rules) = voting_group_ids_all rules

  -- `rules.flatMap(getVotingGroupIds)`
  pub voting_group_ids_all : Rules → List String
  voting_group_ids_all nil = []
  voting_group_ids_all (cons r rules) = voting_group_ids r ++ voting_group_ids_all rules

-- `rule.requireHighPrivilege === true`
abbrev is_true : Option Bool → Bool
is_true (some true) = true
is_true _ = false

unfoldable mutual
  -- `isHighPrivilegeRequired`
  pub is_high_privilege_required : Rule → List String → Bool
  is_high_privilege_required (group_requirement g _ high) groups = includes g groups && is_true high
  is_high_privilege_required (and_rule rules) groups = any_high_privilege rules groups
  is_high_privilege_required (or_rule rules) groups = any_high_privilege rules groups

  pub any_high_privilege : Rules → List String → Bool
  any_high_privilege nil groups = false
  any_high_privilege (cons r rules) groups =
      is_high_privilege_required r groups || any_high_privilege rules groups
