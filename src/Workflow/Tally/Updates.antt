-- ===== src/Workflow/Tally/Updates.antt =====
-- What the loops over the groups of a vote do to the sets of voters.
use approvio.Base.{
  String, Bool, true, false, List, [], ◌∷◌, ◌≡◌, refl, arith, ◌==◌, eq_iff, includes, if◌then◌else◌,
  ◌&&◌, Option-cases, inl, inr,
}
use approvio.Base.Dict.{Dict, lookup, lookup-insert}
use approvio.Base.Sets.{
  IsUnique, add, delete, includes-add, includes-delete, add-IsUnique, delete-IsUnique,
}
use approvio.Workflow.Tally.{voters_of, drop_voter, add_voter, drop_from_groups, add_to_groups}

-- Every group has each voter once.
abbrev pub HasUniqueVoters : Dict (List String) → Type 0
HasUniqueVoters m = (g : String) → IsUnique (voters_of g m)

voters_of-drop_voter :
    (k g j : String) (m : Dict (List String))
    → voters_of j (drop_voter k g m) ≡ (if g == j then delete k (voters_of j m) else voters_of j m)
unfolding drop_voter delete
voters_of-drop_voter k g j m = elim (Option-cases (lookup g m)) [
  | inl absent ↦ ground (arith, eq_iff g j)
  | inr (s, found) ↦ ground (arith, eq_iff g j, lookup-insert g j (delete k s) m)
]

voters_of-add_voter :
    (k g j : String) (m : Dict (List String))
    → voters_of j (add_voter k g m) ≡ (if g == j then add k (voters_of j m) else voters_of j m)
unfolding add_voter
voters_of-add_voter k g j m =
    ground (arith, eq_iff g j, lookup-insert g j (add k (voters_of g m)) m)

drop_voter-HasUniqueVoters :
    (k g : String) (m : Dict (List String)) → HasUniqueVoters m → HasUniqueVoters (drop_voter k g m)
drop_voter-HasUniqueVoters k g m u j = rw (voters_of-drop_voter k g j m) (pick (g == j))
  where
    pick : (b : Bool) → IsUnique (if b then delete k (voters_of j m) else voters_of j m)
    pick true = delete-IsUnique k (voters_of j m) (u j)
    pick false = u j

add_voter-HasUniqueVoters :
    (k g : String) (m : Dict (List String)) → HasUniqueVoters m → HasUniqueVoters (add_voter k g m)
add_voter-HasUniqueVoters k g m u j = rw (voters_of-add_voter k g j m) (pick (g == j))
  where
    pick : (b : Bool) → IsUnique (if b then add k (voters_of j m) else voters_of j m)
    pick true = add-IsUnique k (voters_of j m) (u j)
    pick false = u j

includes-drop_voter :
    (k g i j : String) (m : Dict (List String))
    → HasUniqueVoters m
    → includes i (voters_of j (drop_voter k g m))
      ≡ (if (g == j) && (k == i) then false else includes i (voters_of j m))
includes-drop_voter k g i j m u = rw (voters_of-drop_voter k g j m) (pick (g == j))
  where
    pick :
        (b : Bool)
        → includes i (if b then delete k (voters_of j m) else voters_of j m)
          ≡ (if b && (k == i) then false else includes i (voters_of j m))
    pick true = includes-delete k i (voters_of j m) (u j)
    pick false = refl

includes-add_voter :
    (k g i j : String) (m : Dict (List String))
    → includes i (voters_of j (add_voter k g m))
      ≡ (if (g == j) && (k == i) then true else includes i (voters_of j m))
includes-add_voter k g i j m = rw (voters_of-add_voter k g j m) (pick (g == j))
  where
    pick :
        (b : Bool)
        → includes i (if b then add k (voters_of j m) else voters_of j m)
          ≡ (if b && (k == i) then true else includes i (voters_of j m))
    pick true = includes-add k i (voters_of j m)
    pick false = refl

pub drop_from_groups-HasUniqueVoters :
    (k : String) (gs : List String) (m : Dict (List String))
    → HasUniqueVoters m
    → HasUniqueVoters (drop_from_groups k gs m)
unfolding drop_from_groups
drop_from_groups-HasUniqueVoters k [] m u = u
drop_from_groups-HasUniqueVoters k (g ∷ gs) m u =
    drop_from_groups-HasUniqueVoters k gs (drop_voter k g m) (drop_voter-HasUniqueVoters k g m u)

pub add_to_groups-HasUniqueVoters :
    (k : String) (gs : List String) (m : Dict (List String))
    → HasUniqueVoters m
    → HasUniqueVoters (add_to_groups k gs m)
unfolding add_to_groups
add_to_groups-HasUniqueVoters k [] m u = u
add_to_groups-HasUniqueVoters k (g ∷ gs) m u =
    add_to_groups-HasUniqueVoters k gs (add_voter k g m) (add_voter-HasUniqueVoters k g m u)

-- The voter leaves the groups that are listed, and nothing else changes.
pub includes-drop_from_groups :
    (k : String) (gs : List String) (i j : String) (m : Dict (List String))
    → HasUniqueVoters m
    → includes i (voters_of j (drop_from_groups k gs m))
      ≡ (if includes j gs && (k == i) then false else includes i (voters_of j m))
unfolding drop_from_groups
includes-drop_from_groups k [] i j m u = refl
includes-drop_from_groups k (g ∷ gs) i j m u = ground (
  arith,
  includes-drop_from_groups k gs i j (drop_voter k g m) (drop_voter-HasUniqueVoters k g m u),
  includes-drop_voter k g i j m u,
)

-- The voter enters the groups that are listed, and nothing else changes.
pub includes-add_to_groups :
    (k : String) (gs : List String) (i j : String) (m : Dict (List String))
    → includes i (voters_of j (add_to_groups k gs m))
      ≡ (if includes j gs && (k == i) then true else includes i (voters_of j m))
unfolding add_to_groups
includes-add_to_groups k [] i j m = refl
includes-add_to_groups k (g ∷ gs) i j m =
    ground (arith, includes-add_to_groups k gs i j (add_voter k g m), includes-add_voter k g i j m)
