-- ===== src/Rule/WellFormed.antt =====
-- Well-formed rules: counts of at least one, no empty AND or OR, a bounded number of levels.
use approvio.Base.{
  ℕ, suc, ◌≤◌, String, Option, Bool, true, List, ◌≡◌, refl, arith, In, inl, In-append_left,
  In-append_right,
}
use approvio.Uuid.{is_uuid_v7}
use approvio.Rule.{
  Rule, Rules, and_rule, or_rule, group_requirement, nil, cons, voting_group_ids,
  voting_group_ids_all,
}
use approvio.Rule.Satisfies.{
  Satisfies, SatisfiesAll, SatisfiesAny, enough, every, one_of, both, here, there,
}

-- `WellFormed d r`: the rule has at most `d` levels.
mutual
  pub data WellFormed : ℕ → Rule → Type 0 where
    requirement :
        {d n : ℕ} {g : String} {h : Option Bool}
        → is_uuid_v7 g ≡ true
        → 1 ≤ n
        → WellFormed (suc d) (group_requirement g n h)
    all_of :
        {d : ℕ} {r : Rule} {rs : Rules}
        → WellFormedAll d (cons r rs)
        → WellFormed (suc d) (and_rule (cons r rs))
    any_of :
        {d : ℕ} {r : Rule} {rs : Rules}
        → WellFormedAll d (cons r rs)
        → WellFormed (suc d) (or_rule (cons r rs))

  pub data WellFormedAll : ℕ → Rules → Type 0 where
    last : {d : ℕ} → WellFormedAll d nil
    next :
        {d : ℕ} {r : Rule} {rs : Rules}
        → WellFormed d r
        → WellFormedAll d rs
        → WellFormedAll d (cons r rs)

module _ (count : String → ℕ) where
  -- A group of the rule with a supporter.
  abbrev pub HasSupporter : List String → Type 0
  HasSupporter groups = (g : String) × In g groups × (1 ≤ count g)

  mutual
    unfolding voting_group_ids

    supporter :
        {d : ℕ} {r : Rule} → WellFormed d r → Satisfies count r → HasSupporter (voting_group_ids r)
    supporter (requirement {g = g} u p) (enough q) = (g, inl refl, omega arith)
    supporter (all_of w) (every s) = supporter_all w s
    supporter (any_of w) (one_of s) = supporter_any w s

    supporter_all :
        {d : ℕ} {r : Rule} {rs : Rules}
        → WellFormedAll d (cons r rs)
        → SatisfiesAll count (cons r rs)
        → HasSupporter (voting_group_ids_all (cons r rs))
    supporter_all (next w ws) (both s ss) =
        let (g, i, p) = supporter w s in (g, In-append_left g _ _ i, p)

    supporter_any :
        {d : ℕ} {rs : Rules}
        → WellFormedAll d rs
        → SatisfiesAny count rs
        → HasSupporter (voting_group_ids_all rs)
    supporter_any last s = elim s [ ]
    supporter_any (next w ws) (here s) =
        let (g, i, p) = supporter w s in (g, In-append_left g _ _ i, p)
    supporter_any (next {r = r} w ws) (there s) =
        let (g, i, p) = supporter_any ws s in (g, In-append_right g (voting_group_ids r) _ i, p)

  -- Whoever satisfies a well-formed rule supports one of its groups.
  pub supporter_of_Satisfies :
      (d : ℕ) (r : Rule) → WellFormed d r → Satisfies count r → HasSupporter (voting_group_ids r)
  supporter_of_Satisfies d r w s = supporter w s
