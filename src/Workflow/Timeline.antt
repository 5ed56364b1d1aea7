-- ===== src/Workflow/Timeline.antt =====
-- The timeline of `evaluateWorkflowStatus`: `[...votes].sort(…)`, chronological, a veto before the
-- other votes of its instant. `Array.prototype.sort` is stable; here it is an insertion sort.
pub mod Order
pub mod Later
use approvio.Base.{ℕ, Bool, true, false, not, ◌&&◌, List, [], ◌∷◌, ltb, if◌then◌else◌}
use approvio.Vote.{Vote, Ballot, approve, veto, withdraw}

-- `vote.type === "VETO"`
abbrev pub is_veto : Ballot → Bool
is_veto veto = true
is_veto (approve _) = false
is_veto withdraw = false

-- The sign of the comparator: negative, zero, positive.
pub data Sign : Type 0 where
  negative zero positive : Sign

-- The comparator that is passed to `sort`.
unfoldable pub compare_votes : Vote → Vote → Sign
compare_votes a b =
    if ltb a.casted_at b.casted_at
    then negative
    else if ltb b.casted_at a.casted_at
    then positive
    else if is_veto a.ballot && not (is_veto b.ballot)
    then negative
    else if is_veto b.ballot && not (is_veto a.ballot)
    then positive
    else zero

-- Puts an older vote in front of the first that is not strictly before it.
unfoldable pub insert_vote : Vote → List Vote → List Vote
insert_vote v [] = v ∷ []
insert_vote v (u ∷ us) = elim (compare_votes u v) [
  | negative ↦ u ∷ insert_vote v us
  | zero ↦ v ∷ u ∷ us
  | positive ↦ v ∷ u ∷ us
]

-- `votesSortedAsc`
unfoldable pub sort_votes : List Vote → List Vote
unfolding insert_vote compare_votes
sort_votes [] = []
sort_votes (v ∷ vs) = insert_vote v (sort_votes vs)
