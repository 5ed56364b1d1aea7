-- ===== src/Workflow/Evaluation/Moments.antt =====
-- The specification of the evaluation: what holds after the votes up to a moment, and whether the
-- timeline has a moment of approval.
use approvio.Base.{
  String, true, false, List, [], ◌∷◌, ◌≡◌, refl, arith, eq_iff, includes, ◌↔◌, length, keep, sym,
  ◌∙◌, ◌⊎◌, Bool-cases, inl, inr,
}
use approvio.Base.Counting.{length-eq_of_includes, includes-keep, keep-IsUnique}
use approvio.Base.Dict.{Dict}
use approvio.Base.Sets.{IsUnique, is_nonempty}
use approvio.Entity.{normalized_entity_id}
use approvio.Rule.{Rule, voter_count}
use approvio.Rule.Satisfies.{Satisfies, covers_iff}
use approvio.Vote.{Vote}
use approvio.Workflow.{approved, rejected, evaluation_in_progress}
use approvio.Workflow.Evaluation.{state_at}
use approvio.Workflow.Tally.{Tally, voters_of}
use approvio.Workflow.Tally.History.{latest, vetoes, approves, voters, supporters}
use approvio.Workflow.Tally.Represents.{Represents}

-- Some voter's last vote is a veto.
abbrev pub HasVeto : List Vote → Type 0
HasVeto h = (k : String) × (vetoes (latest k h) ≡ true)

-- No voter's last vote is a veto, and the last votes satisfy the rule.
pub record IsApproving (rule : Rule) (h : List Vote) : Type 0 where
  pub unopposed : (k : String) → vetoes (latest k h) ≡ false
  pub satisfied : Satisfies (supporters h) rule

-- After some vote of the timeline, played on the history, the rule is met.
pub data ReachesApproval (rule : Rule) : List Vote → List Vote → Type 0 where
  at_once :
      {v : Vote} {h vs : List Vote} → IsApproving rule (v ∷ h) → ReachesApproval rule h (v ∷ vs)
  later :
      {v : Vote} {h vs : List Vote}
      → ReachesApproval rule (v ∷ h) vs
      → ReachesApproval rule h (v ∷ vs)

-- The history when the timeline has been played.
abbrev pub history : List Vote → List Vote → List Vote
history h [] = h
history h (v ∷ vs) = history (v ∷ h) vs

voters-IsUnique : (h : List Vote) → IsUnique (voters h)
voters-IsUnique [] = tt
voters-IsUnique (v ∷ h) = elim (Bool-cases (includes (normalized_entity_id v.voter) (voters h))) [
  | inl e ↦ rw e (voters-IsUnique h)
  | inr e ↦ rw e (e, voters-IsUnique h)
]

-- Whoever approves for a group is one of the voters.
approves-includes :
    (g k : String) (h : List Vote) → approves g (latest k h) ≡ true → includes k (voters h) ≡ true
approves-includes g k [] e = cc
approves-includes g k (v ∷ h) e =
    ground (arith, approves-includes g k h, eq_iff (normalized_entity_id v.voter) k)

member_of_nonempty : (s : List String) → is_nonempty s ≡ true → (k : String) × (includes k s ≡ true)
member_of_nonempty [] e = cc
member_of_nonempty (x ∷ s) e = (x, ground (arith, eq_iff x x))

nonempty_of_includes : (k : String) (s : List String) → includes k s ≡ true → is_nonempty s ≡ true
nonempty_of_includes k [] e = cc
nonempty_of_includes k (x ∷ s) e = refl

voter_count_lem : (g : String) (m : Dict (List String)) → voter_count g m ≡ length (voters_of g m)
unfolding voter_count
voter_count_lem g m = ground arith

module _ (h : List Vote) (t : Tally) (r : Represents h t) where
  -- The size of a group's set is the number of its supporters.
  pub voter_count-eq-supporters : (g : String) → voter_count g t.group_voters ≡ supporters h g
  voter_count-eq-supporters g =
      voter_count_lem g t.group_voters
      ∙ length-eq_of_includes (voters_of g t.group_voters)
          (keep (λ k. approves g (latest k h)) (voters h)) (r.unique_voters g)
          (keep-IsUnique (λ k. approves g (latest k h)) (voters h) (voters-IsUnique h))
          (λ k. ground (
            arith,
            r.groups g k,
            approves-includes g k h,
            includes-keep (λ k. approves g (latest k h)) k (voters h),
          ))

  veto_of_vetoers : is_nonempty t.active_vetoers ≡ true → HasVeto h
  veto_of_vetoers e =
      let (k, i) = member_of_nonempty t.active_vetoers e in (k, sym (r.vetoers k) ∙ i)

  vetoers_of_veto : HasVeto h → is_nonempty t.active_vetoers ≡ true
  vetoers_of_veto (k, e) = nonempty_of_includes k t.active_vetoers (r.vetoers k ∙ e)

  -- The loop is at REJECTED exactly when some voter's last vote is a veto.
  pub state_at-eq-rejected_iff : (rule : Rule) → (state_at rule t ≡ rejected) ↔ HasVeto h
  unfolding state_at
  state_at-eq-rejected_iff rule =
      ((λ e. veto_of_vetoers (ground arith)), λ v. rw (vetoers_of_veto v))

  -- It is at APPROVED exactly when nobody vetoes and the supporters satisfy the rule.
  pub state_at-eq-approved_iff : (rule : Rule) → (state_at rule t ≡ approved) ↔ IsApproving rule h
  unfolding state_at
  state_at-eq-approved_iff rule = (
    (λ e. record {
      unopposed = λ k. elim (Bool-cases (vetoes (latest k h))) [
        | inl v ↦ ground (arith, vetoers_of_veto (k, v))
        | inr no_veto ↦ no_veto
      ];
      satisfied =
          (covers_iff t.group_voters (supporters h) voter_count-eq-supporters rule).0
            (ground arith);
    }),
    λ a. elim (Bool-cases (is_nonempty t.active_vetoers)) [
      | inl e ↦ let (k, v) = veto_of_vetoers e in cc (a.unopposed k)
      | inr e ↦ rw (
        e,
        (covers_iff t.group_voters (supporters h) voter_count-eq-supporters rule).1 a.satisfied,
      )
    ],
  )

  -- Otherwise it is in progress: no other status occurs.
  pub state_at_cases :
      (rule : Rule)
      → (state_at rule t ≡ rejected)
        ⊎ (state_at rule t ≡ approved)
        ⊎ (state_at rule t ≡ evaluation_in_progress)
  unfolding state_at
  state_at_cases rule = ground arith
