-- ===== src/Rule/Satisfies.antt =====
-- What a rule asks for, stated over the number of supporters of each group: the specification of
-- `doesVotesCoverApprovalRules`.
use approvio.Base.{
  ℕ, ◌≤◌, String, Option, Bool, true, List, ◌≡◌, refl, ◌↔◌, inl, inr, arith, Bool-cases,
}
use approvio.Base.Dict.{Dict}
use approvio.Rule.{
  Rule, Rules, and_rule, or_rule, group_requirement, nil, cons, voter_count, covers, covers_all,
  covers_any,
}

-- A requirement wants as many supporters as its count, an AND rule each of its rules, an OR rule
-- one of them.
mutual
  pub data Satisfies (count : String → ℕ) : Rule → Type 0 where
    enough :
        {g : String} {n : ℕ} {h : Option Bool}
        → n ≤ count g
        → Satisfies count (group_requirement g n h)
    every : {rs : Rules} → SatisfiesAll count rs → Satisfies count (and_rule rs)
    one_of : {rs : Rules} → SatisfiesAny count rs → Satisfies count (or_rule rs)

  pub data SatisfiesAll (count : String → ℕ) : Rules → Type 0 where
    done : SatisfiesAll count nil
    both :
        {r : Rule} {rs : Rules}
        → Satisfies count r
        → SatisfiesAll count rs
        → SatisfiesAll count (cons r rs)

  pub data SatisfiesAny (count : String → ℕ) : Rules → Type 0 where
    here : {r : Rule} {rs : Rules} → Satisfies count r → SatisfiesAny count (cons r rs)
    there : {r : Rule} {rs : Rules} → SatisfiesAny count rs → SatisfiesAny count (cons r rs)

module _ (voters : Dict (List String)) (count : String → ℕ)
    (same : (g : String) → voter_count g voters ≡ count g) where
  mutual
    unfolding covers

    sound : (r : Rule) → covers r voters ≡ true → Satisfies count r
    sound (group_requirement g n h) e = enough (ground (arith, same g))
    sound (and_rule rs) e = every (sound_all rs e)
    sound (or_rule rs) e = one_of (sound_any rs e)

    sound_all : (rs : Rules) → covers_all rs voters ≡ true → SatisfiesAll count rs
    sound_all nil e = done
    sound_all (cons r rs) e = both (sound r (ground arith)) (sound_all rs (ground arith))

    sound_any : (rs : Rules) → covers_any rs voters ≡ true → SatisfiesAny count rs
    sound_any nil e = cc
    sound_any (cons r rs) e = elim (Bool-cases (covers r voters)) [
      | inl f ↦ here (sound r f)
      | inr f ↦ there (sound_any rs (ground arith))
    ]

  mutual
    unfolding covers

    complete : {r : Rule} → Satisfies count r → covers r voters ≡ true
    complete (enough {g = g} p) = ground (arith, same g)
    complete (every p) = complete_all p
    complete (one_of p) = complete_any p

    complete_all : {rs : Rules} → SatisfiesAll count rs → covers_all rs voters ≡ true
    complete_all done = refl
    complete_all (both p q) = ground (arith, complete p, complete_all q)

    complete_any : {rs : Rules} → SatisfiesAny count rs → covers_any rs voters ≡ true
    complete_any (here p) = ground (arith, complete p)
    complete_any (there {r = r} p) = ground (arith, complete_any p)

  -- For counts that are the sizes of the groups' sets of voters, the check computes exactly whether
  -- the rule is satisfied by the counts.
  pub covers_iff : (r : Rule) → (covers r voters ≡ true) ↔ Satisfies count r
  covers_iff r = (sound r, complete)
