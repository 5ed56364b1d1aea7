-- ===== src/Workflow/Tally/History.antt =====
-- The specification of the tally: what the last vote of each voter says. A history lists the votes
-- with the last one first.
use approvio.Base.{
  ℕ, String, Option, none, some, Bool, true, false, List, [], ◌∷◌, ◌==◌, if◌then◌else◌, includes,
  keep, length,
}
use approvio.Entity.{normalized_entity_id}
use approvio.Vote.{Vote, approve, veto, withdraw}

-- The last vote of a voter.
abbrev pub latest : String → List Vote → Option Vote
latest k [] = none
latest k (v ∷ h) = if normalized_entity_id v.voter == k then some v else latest k h

abbrev pub vetoes : Option Vote → Bool
vetoes none = false
vetoes (some v) = elim v.ballot [ veto ↦ true | approve _ ↦ false | withdraw ↦ false ]

abbrev pub approves : String → Option Vote → Bool
approves g none = false
approves g (some v) = elim v.ballot [ veto ↦ false | approve gs ↦ includes g gs | withdraw ↦ false ]

-- A vote that is not withdrawn.
abbrev pub standing : Option Vote → Option Vote
standing none = none
standing (some v) = elim v.ballot [ veto ↦ some v | approve _ ↦ some v | withdraw ↦ none ]

-- Each voter of the history once.
abbrev pub voters : List Vote → List String
voters [] = []
voters (v ∷ h) =
    if includes (normalized_entity_id v.voter) (voters h)
    then voters h
    else normalized_entity_id v.voter ∷ voters h

-- How many voters approve for a group by their last vote.
abbrev pub supporters : List Vote → String → ℕ
supporters h g = length (keep (λ k. approves g (latest k h)) (voters h))
