-- ===== src/Rule/Coverage.antt =====
-- About `doesVotesCoverApprovalRules` of domain/src/approval-rules.ts on different voters.
use approvio.Base.{
  ◌≤◌, String, true, List, ◌≡◌, refl, inl, arith, In, In-append_left, In-append_right,
}
use approvio.Base.Dict.{Dict}
use approvio.Rule.{
  Rule, Rules, and_rule, or_rule, group_requirement, nil, cons, voter_count, covers, covers_all,
  covers_any, voting_group_ids, voting_group_ids_all,
}

-- The voters of each group that the rule names are at least as many in `w` as in `v`.
abbrev pub Grows : List String → Dict (List String) → Dict (List String) → Type 0
Grows groups v w = (g : String) → In g groups → voter_count g v ≤ voter_count g w

mutual
  unfolding covers voting_group_ids

  covers_mono_rule :
      (r : Rule) (v w : Dict (List String))
      → Grows (voting_group_ids r) v w
      → covers r v ≡ true
      → covers r w ≡ true
  covers_mono_rule (group_requirement g n h) v w grows e = ground (arith, grows g (inl refl))
  covers_mono_rule (and_rule rs) v w grows e = covers_mono_all rs v w grows e
  covers_mono_rule (or_rule rs) v w grows e = covers_mono_any rs v w grows e

  covers_mono_all :
      (rs : Rules) (v w : Dict (List String))
      → Grows (voting_group_ids_all rs) v w
      → covers_all rs v ≡ true
      → covers_all rs w ≡ true
  covers_mono_all nil v w grows e = refl
  covers_mono_all (cons r rs) v w grows e = ground (
    arith,
    covers_mono_rule r v w (λ g i. grows g (In-append_left g _ _ i)),
    covers_mono_all rs v w (λ g i. grows g (In-append_right g (voting_group_ids r) _ i)),
  )

  covers_mono_any :
      (rs : Rules) (v w : Dict (List String))
      → Grows (voting_group_ids_all rs) v w
      → covers_any rs v ≡ true
      → covers_any rs w ≡ true
  covers_mono_any nil v w grows e = cc
  covers_mono_any (cons r rs) v w grows e = ground (
    arith,
    covers_mono_rule r v w (λ g i. grows g (In-append_left g _ _ i)),
    covers_mono_any rs v w (λ g i. grows g (In-append_right g (voting_group_ids r) _ i)),
  )

-- A rule that is covered stays covered when no group that it names loses voters.
pub covers_mono :
    (r : Rule) (v w : Dict (List String))
    → Grows (voting_group_ids r) v w
    → covers r v ≡ true
    → covers r w ≡ true
covers_mono r v w grows e = covers_mono_rule r v w grows e
