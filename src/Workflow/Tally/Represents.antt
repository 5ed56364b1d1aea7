-- ===== src/Workflow/Tally/Represents.antt =====
-- About the tally of `evaluateWorkflowStatus`: its invariant over the votes played.
use approvio.Base.{
  String, none, some, false, List, [], ◌∷◌, ◌≡◌, refl, sym, arith, ◌==◌, eq_iff, includes,
  if◌then◌else◌, Option-cases, inl, inr,
}
use mathlib.Core.Path.{subst}
use approvio.Base.Dict.{
  lookup, insert, HasUniqueKeys, lookup-insert, lookup-erase, insert-HasUniqueKeys,
  erase-HasUniqueKeys,
}
use approvio.Base.Sets.{IsUnique, includes-add, includes-delete, add-IsUnique, delete-IsUnique}
use approvio.Entity.{normalized_entity_id}
use approvio.Vote.{Vote, Ballot, approve, veto, withdraw}
use approvio.Workflow.Tally.{
  Tally, empty_tally, voters_of, remove_ballot, apply_ballot, remove_previous, set_active,
  apply_vote,
}
use approvio.Workflow.Tally.History.{latest, vetoes, approves, standing}
use approvio.Workflow.Tally.Updates.{
  HasUniqueVoters, drop_from_groups-HasUniqueVoters, add_to_groups-HasUniqueVoters,
  includes-drop_from_groups, includes-add_to_groups,
}

-- The tally holds for each voter what the last vote says, and nothing twice.
pub record Represents (h : List Vote) (t : Tally) : Type 0 where
  pub active : (k : String) → lookup k t.active_voters ≡ standing (latest k h)
  pub vetoers : (k : String) → includes k t.active_vetoers ≡ vetoes (latest k h)
  pub groups : (g k : String) → includes k (voters_of g t.group_voters) ≡ approves g (latest k h)
  pub unique_keys : HasUniqueKeys t.active_voters
  pub unique_vetoers : IsUnique t.active_vetoers
  pub unique_voters : HasUniqueVoters t.group_voters

-- The tally when the previous vote of `key` is taken back.
record IsCleared (key : String) (h : List Vote) (t : Tally) : Type 0 where
  active : (k : String) → lookup k t.active_voters ≡ standing (latest k h)
  vetoers :
      (k : String) → includes k t.active_vetoers ≡ (if key == k then false else vetoes (latest k h))
  groups :
      (g k : String)
      → includes k (voters_of g t.group_voters)
        ≡ (if key == k then false else approves g (latest k h))
  unique_keys : HasUniqueKeys t.active_voters
  unique_vetoers : IsUnique t.active_vetoers
  unique_voters : HasUniqueVoters t.group_voters

module _ (key : String) (h : List Vote) (t : Tally) (r : Represents h t) where
  clear_none : latest key h ≡ none → IsCleared key h t
  clear_none e = record {
    active = r.active;
    vetoers = λ k. ground (arith, r.vetoers k, eq_iff key k);
    groups = λ g k. ground (arith, r.groups g k, eq_iff key k);
    unique_keys = r.unique_keys;
    unique_vetoers = r.unique_vetoers;
    unique_voters = r.unique_voters;
  }

  clear_ballot :
      (p : Vote) (b : Ballot)
      → p.ballot ≡ b
      → latest key h ≡ some p
      → IsCleared key h (remove_ballot key b t)
  unfolding remove_ballot
  clear_ballot p veto e l = record {
    active = r.active;
    vetoers = λ k.
        ground (
          arith,
          r.vetoers k,
          eq_iff key k,
          includes-delete key k t.active_vetoers r.unique_vetoers,
        );
    groups = λ g k. ground (arith, r.groups g k, eq_iff key k);
    unique_keys = r.unique_keys;
    unique_vetoers = delete-IsUnique key t.active_vetoers r.unique_vetoers;
    unique_voters = r.unique_voters;
  }
  clear_ballot p (approve gs) e l = record {
    active = r.active;
    vetoers = λ k. ground (arith, r.vetoers k, eq_iff key k);
    groups = λ g k. ground (
      arith,
      r.groups g k,
      eq_iff key k,
      includes-drop_from_groups key gs k g t.group_voters r.unique_voters,
    );
    unique_keys = r.unique_keys;
    unique_vetoers = r.unique_vetoers;
    unique_voters = drop_from_groups-HasUniqueVoters key gs t.group_voters r.unique_voters;
  }
  clear_ballot p withdraw e l = record {
    active = r.active;
    vetoers = λ k. ground (arith, r.vetoers k, eq_iff key k);
    groups = λ g k. ground (arith, r.groups g k, eq_iff key k);
    unique_keys = r.unique_keys;
    unique_vetoers = r.unique_vetoers;
    unique_voters = r.unique_voters;
  }

  clear_previous :
      (p : Vote) (b : Ballot)
      → p.ballot ≡ b
      → latest key h ≡ some p
      → IsCleared key h
          (remove_previous key (elim b [ veto ↦ some p | approve _ ↦ some p | withdraw ↦ none ]) t)
  unfolding remove_previous
  clear_previous p veto e l =
      subst (λ b. IsCleared key h (remove_ballot key b t)) (sym e) (clear_ballot p veto e l)
  clear_previous p (approve gs) e l =
      subst (λ b. IsCleared key h (remove_ballot key b t)) (sym e) (clear_ballot p (approve gs) e l)
  clear_previous p withdraw e l = unfold remove_ballot in clear_ballot p withdraw e l

  remove_previous-IsCleared : IsCleared key h (remove_previous key (lookup key t.active_voters) t)
  unfolding remove_previous
  remove_previous-IsCleared = elim (Option-cases (latest key h)) [
    | inl e ↦ rw (r.active key, e) (clear_none e)
    | inr (p, e) ↦ rw (r.active key, e) (clear_previous p p.ballot refl e)
  ]

module _ (v : Vote) (h : List Vote) (t : Tally)
    (c : IsCleared (normalized_entity_id v.voter) h t) where
  apply_ballot-Represents :
      (b : Ballot)
      → v.ballot ≡ b
      → Represents (v ∷ h) (
          apply_ballot
            (normalized_entity_id v.voter)
            b
            (set_active (normalized_entity_id v.voter) v t))
  unfolding apply_ballot set_active
  apply_ballot-Represents veto e = record {
    active = λ k.
        ground
          (arith, c.active k, lookup-insert (normalized_entity_id v.voter) k v t.active_voters);
    vetoers = λ k.
        ground (arith, c.vetoers k, includes-add (normalized_entity_id v.voter) k t.active_vetoers);
    groups = λ g k. ground (arith, c.groups g k);
    unique_keys =
        insert-HasUniqueKeys (normalized_entity_id v.voter) v t.active_voters c.unique_keys;
    unique_vetoers = add-IsUnique (normalized_entity_id v.voter) t.active_vetoers c.unique_vetoers;
    unique_voters = c.unique_voters;
  }
  apply_ballot-Represents (approve gs) e = record {
    active = λ k.
        ground
          (arith, c.active k, lookup-insert (normalized_entity_id v.voter) k v t.active_voters);
    vetoers = λ k. ground (arith, c.vetoers k);
    groups = λ g k. ground (
      arith,
      c.groups g k,
      includes-add_to_groups (normalized_entity_id v.voter) gs k g t.group_voters,
    );
    unique_keys =
        insert-HasUniqueKeys (normalized_entity_id v.voter) v t.active_voters c.unique_keys;
    unique_vetoers = c.unique_vetoers;
    unique_voters =
        add_to_groups-HasUniqueVoters (normalized_entity_id v.voter) gs t.group_voters
          c.unique_voters;
  }
  apply_ballot-Represents withdraw e = record {
    active = λ k. ground (
      arith,
      c.active k,
      lookup-insert (normalized_entity_id v.voter) k v t.active_voters,
      lookup-erase (normalized_entity_id v.voter) k
          (insert (normalized_entity_id v.voter) v t.active_voters)
          (insert-HasUniqueKeys (normalized_entity_id v.voter) v t.active_voters c.unique_keys),
    );
    vetoers = λ k. ground (arith, c.vetoers k);
    groups = λ g k. ground (arith, c.groups g k);
    unique_keys =
        erase-HasUniqueKeys (normalized_entity_id v.voter)
          (insert (normalized_entity_id v.voter) v t.active_voters)
          (insert-HasUniqueKeys (normalized_entity_id v.voter) v t.active_voters c.unique_keys);
    unique_vetoers = c.unique_vetoers;
    unique_voters = c.unique_voters;
  }

-- One round of the loop: if the tally represents the votes so far, it represents them with the
-- next one.
pub apply_vote-Represents :
    (v : Vote) (h : List Vote) (t : Tally) → Represents h t → Represents (v ∷ h) (apply_vote v t)
unfolding apply_vote
apply_vote-Represents v h t r =
    apply_ballot-Represents v h _ (remove_previous-IsCleared (normalized_entity_id v.voter) h t r)
      v.ballot refl

pub empty_tally-Represents : Represents [] empty_tally
unfolding lookup
empty_tally-Represents = record {
  active = λ k. refl;
  vetoers = λ k. refl;
  groups = λ g k. refl;
  unique_keys = tt;
  unique_vetoers = tt;
  unique_voters = λ g. tt;
}
