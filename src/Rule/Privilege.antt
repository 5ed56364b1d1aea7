-- ===== src/Rule/Privilege.antt =====
-- About `isHighPrivilegeRequired` of domain/src/approval-rules.ts.
use approvio.Base.{
  ℕ, String, none, some, true, false, List, ◌≡◌, arith, In, includes_iff, ◌↔◌, inl, inr, Bool-cases,
}
use approvio.Rule.{
  Rule, Rules, nil, cons, and_rule, or_rule, group_requirement, is_high_privilege_required,
  any_high_privilege,
}

-- Somewhere in the rule the group is required with high privilege.
mutual
  pub data Demands (g : String) : Rule → Type 0 where
    here : {n : ℕ} → Demands g (group_requirement g n (some true))
    in_and : {rs : Rules} → DemandsAny g rs → Demands g (and_rule rs)
    in_or : {rs : Rules} → DemandsAny g rs → Demands g (or_rule rs)

  pub data DemandsAny (g : String) : Rules → Type 0 where
    head : {r : Rule} {rs : Rules} → Demands g r → DemandsAny g (cons r rs)
    tail : {r : Rule} {rs : Rules} → DemandsAny g rs → DemandsAny g (cons r rs)

mutual
  unfolding is_high_privilege_required any_high_privilege

  sound :
      (r : Rule) (groups : List String)
      → is_high_privilege_required r groups ≡ true
      → (g : String) × In g groups × Demands g r
  sound (group_requirement g n none) groups e = absurd (ground arith)
  sound (group_requirement g n (some false)) groups e = absurd (ground arith)
  sound (group_requirement g n (some true)) groups e =
      (g, (includes_iff g groups).0 (ground arith), here)
  sound (and_rule rs) groups e = let (g, i, d) = sound_any rs groups e in (g, i, in_and d)
  sound (or_rule rs) groups e = let (g, i, d) = sound_any rs groups e in (g, i, in_or d)

  sound_any :
      (rs : Rules) (groups : List String)
      → any_high_privilege rs groups ≡ true
      → (g : String) × In g groups × DemandsAny g rs
  sound_any nil groups e = cc
  sound_any (cons r rs) groups e = elim (Bool-cases (is_high_privilege_required r groups)) [
    | inl h ↦ let (g, i, d) = sound r groups h in (g, i, head d)
    | inr h ↦ let (g, i, d) = sound_any rs groups (ground arith) in (g, i, tail d)
  ]

mutual
  unfolding is_high_privilege_required any_high_privilege

  complete :
      {r : Rule} (g : String) (groups : List String)
      → In g groups
      → Demands g r
      → is_high_privilege_required r groups ≡ true
  complete g groups i here = ground (arith, (includes_iff g groups).1 i)
  complete g groups i (in_and d) = complete_any g groups i d
  complete g groups i (in_or d) = complete_any g groups i d

  complete_any :
      {rs : Rules} (g : String) (groups : List String)
      → In g groups
      → DemandsAny g rs
      → any_high_privilege rs groups ≡ true
  complete_any g groups i (head d) = ground (arith, complete g groups i d)
  complete_any g groups i (tail d) = ground (arith, complete_any g groups i d)

-- A vote for some groups needs high privilege exactly when a requirement of the rule, at any depth,
-- demands it for one of these groups.
pub is_high_privilege_required_iff :
    (r : Rule) (groups : List String)
    → (is_high_privilege_required r groups ≡ true) ↔ ((g : String) × In g groups × Demands g r)
is_high_privilege_required_iff r groups =
    ((λ e. sound r groups e), λ h. let (g, i, d) = h in complete g groups i d)
