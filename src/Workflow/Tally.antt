-- ===== src/Workflow/Tally.antt =====
-- The state that `evaluateWorkflowStatus` plays the votes on: `activeVoters`, `groupVoters` and
-- `activeVetoers`, and what one vote changes in it (steps 2.1 and 2.2 of the loop).
pub mod History
pub mod Updates
pub mod Represents
use approvio.Base.{String, Option, none, some, Bool, List, [], ◌∷◌}
use approvio.Base.Dict.{Dict, lookup, insert, erase}
use approvio.Base.Sets.{add, delete}
use approvio.Entity.{normalized_entity_id}
use approvio.Vote.{Vote, Ballot, approve, veto, withdraw}

pub record Tally : Type 0 where
  pub active_voters : Dict Vote
  pub group_voters : Dict (List String)
  pub active_vetoers : List String

abbrev pub empty_tally : Tally
empty_tally = record { active_voters = []; group_voters = []; active_vetoers = [] }

-- The set of voters of a group; a group that the map lacks has none.
abbrev pub voters_of : String → Dict (List String) → List String
voters_of g voters = elim (lookup g voters) [ none ↦ [] | some s ↦ s ]

-- `groupVoters.get(groupId)?.delete(voterKey)`
unfoldable pub drop_voter : String → String → Dict (List String) → Dict (List String)
drop_voter key g voters = elim (lookup g voters) [
  | none ↦ voters
  | some s ↦ insert g (delete key s) voters
]

-- `if (!groupVoters.has(groupId)) groupVoters.set(groupId, new Set())`, then
-- `groupVoters.get(groupId)!.add(voterKey)`
unfoldable pub add_voter : String → String → Dict (List String) → Dict (List String)
add_voter key g voters = insert g (add key (voters_of g voters)) voters

-- `for (const groupId of previousVote.votedForGroups) …`
unfoldable pub drop_from_groups : String → List String → Dict (List String) → Dict (List String)
unfolding drop_voter
drop_from_groups key [] voters = voters
drop_from_groups key (g ∷ gs) voters = drop_from_groups key gs (drop_voter key g voters)

-- `for (const groupId of vote.votedForGroups) …`
unfoldable pub add_to_groups : String → List String → Dict (List String) → Dict (List String)
unfolding add_voter
add_to_groups key [] voters = voters
add_to_groups key (g ∷ gs) voters = add_to_groups key gs (add_voter key g voters)

-- 2.1: the effects of the previous vote of the voter are taken back.
unfoldable pub remove_ballot : String → Ballot → Tally → Tally
unfolding drop_from_groups
remove_ballot key veto t = record t { active_vetoers = delete key t.active_vetoers }
remove_ballot key (approve gs) t = record t {
  group_voters = drop_from_groups key gs t.group_voters;
}
remove_ballot key withdraw t = t

-- 2.2, after `activeVoters.set(voterKey, vote)`
unfoldable pub apply_ballot : String → Ballot → Tally → Tally
unfolding add_to_groups
apply_ballot key veto t = record t { active_vetoers = add key t.active_vetoers }
apply_ballot key (approve gs) t = record t { group_voters = add_to_groups key gs t.group_voters }
apply_ballot key withdraw t = record t { active_voters = erase key t.active_voters }

-- `if (previousVote) …`
unfoldable pub remove_previous : String → Option Vote → Tally → Tally
unfolding remove_ballot
remove_previous key none t = t
remove_previous key (some previous) t = remove_ballot key previous.ballot t

-- `activeVoters.set(voterKey, vote)`
unfoldable pub set_active : String → Vote → Tally → Tally
set_active key v t = record t { active_voters = insert key v t.active_voters }

-- One round of the loop, up to the evaluation.
unfoldable pub apply_vote : Vote → Tally → Tally
unfolding remove_previous set_active apply_ballot
apply_vote v t =
    let key = normalized_entity_id v.voter in
    let cleared = remove_previous key (lookup key t.active_voters) t in
    apply_ballot key v.ballot (set_active key v cleared)
