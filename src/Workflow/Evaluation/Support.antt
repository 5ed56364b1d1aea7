-- ===== src/Workflow/Evaluation/Support.antt =====
-- About the votes behind an approval by `evaluateWorkflowStatus` of domain/src/workflows.ts.
use approvio.Base.{
  ℕ, ◌≤◌, String, Bool, true, false, List, [], ◌∷◌, ◌≡◌, refl, arith, ◌⊎◌, inl, inr, In, keep,
  length, includes, includes_iff, Bool-cases, ◌==◌,
}
use approvio.Base.Result.{right}
use approvio.Entity.{normalized_entity_id}
use approvio.Rule.{Rule, voting_group_ids}
use approvio.Rule.WellFormed.{WellFormed, supporter_of_Satisfies}
use approvio.Vote.{Vote, Ballot, approve, veto, withdraw}
use approvio.Workflow.{approved, Workflow, is_terminal}
use approvio.Workflow.Validation.{IsValid}
use approvio.Workflow.Timeline.{sort_votes}
use approvio.Workflow.Timeline.Order.{In-sort_votes}
use approvio.Workflow.Tally.History.{latest, approves, voters, supporters}
use approvio.Workflow.Evaluation.{evaluate_workflow_status}
use approvio.Workflow.Evaluation.Moments.{ReachesApproval, IsApproving, at_once, later}
use approvio.Workflow.Evaluation.Outcome.{evaluated, Decides_of_result}
use approvio.Workflow.Evaluation.Finality.{reached}

-- A vote of the list that approves for the group.
abbrev pub IsApprovedFor : String → List Vote → Type 0
IsApprovedFor g h = (v : Vote) × In v h × (gs : List String) × (v.ballot ≡ approve gs) × In g gs

approval_of_ballot :
    (g : String) (v : Vote) (h : List Vote) (b : Ballot)
    → v.ballot ≡ b
    → elim b [ veto ↦ false | approve gs ↦ includes g gs | withdraw ↦ false ] ≡ true
    → IsApprovedFor g (v ∷ h)
approval_of_ballot g v h (approve gs) e i = (v, inl refl, gs, e, (includes_iff g gs).0 i)
approval_of_ballot g v h veto e i = cc
approval_of_ballot g v h withdraw e i = cc

-- The last vote of a voter who approves for a group is an approval for that group.
approval_of_approves :
    (g k : String) (h : List Vote) → approves g (latest k h) ≡ true → IsApprovedFor g h
approval_of_approves g k [] e = cc
approval_of_approves g k (v ∷ h) e = elim (Bool-cases (normalized_entity_id v.voter == k)) [
  | inl q ↦ approval_of_ballot g v h v.ballot refl (rw q at e)
  | inr q ↦ let (u, i, gs, p, j) = approval_of_approves g k h (rw q at e) in (u, inr i, gs, p, j)
]

kept_of_length :
    (p : String → Bool) (s : List String) → 1 ≤ length (keep p s) → (k : String) × (p k ≡ true)
kept_of_length p [] h = absurd (omega arith)
kept_of_length p (x ∷ s) h = elim (Bool-cases (p x)) [
  | inl e ↦ (x, e)
  | inr e ↦ kept_of_length p s (rw e at h)
]

moment_of_ReachesApproval :
    {rule : Rule} {h vs : List Vote}
    → ReachesApproval rule h vs
    → (m : List Vote) × IsApproving rule m × ((v : Vote) → In v m → In v h ⊎ In v vs)
moment_of_ReachesApproval (at_once {v = v} {h = h} a) =
    (v ∷ h, a, λ u i. elim i [ inl e ↦ inr (inl e) | inr j ↦ inl j ])
moment_of_ReachesApproval (later r) =
    let (m, a, f) = moment_of_ReachesApproval r in
    (
      m,
      a,
      λ u i. elim (f u i) [ inl (inl e) ↦ inr (inl e) | inl (inr j) ↦ inl j | inr j ↦ inr (inr j) ],
    )

-- If a valid workflow that is open, and was created before the clock is read, is approved on some
-- votes and its rule is well-formed, then one of the votes approves for a group that the rule
-- names.
pub approval_needs_approve :
    (now updated : ℕ) (rule : Rule) (d : ℕ) (w : Workflow) (votes : List Vote)
    → IsValid w
    → w.created_at ≤ updated
    → is_terminal w.status ≡ false
    → WellFormed d rule
    → evaluate_workflow_status now updated rule w votes ≡ right (evaluated w approved updated)
    → (g : String) × In g (voting_group_ids rule) × IsApprovedFor g votes
approval_needs_approve now updated rule d w votes valid created is_open formed e =
    let (in_time, r) =
      reached now rule w votes is_open
        (Decides_of_result now rule w votes updated valid created approved e) in
    let (m, a, from) = moment_of_ReachesApproval r in
    let (g, named, enough) = supporter_of_Satisfies (supporters m) d rule formed a.satisfied in
    let (k, approving) = kept_of_length (λ k. approves g (latest k m)) (voters m) enough in
    let (v, i, gs, b, j) = approval_of_approves g k m approving in
    (g, named, (v, In-sort_votes v votes (cast v (from v i)), gs, b, j))
  where
    cast : (v : Vote) → In v [] ⊎ In v (sort_votes votes) → In v (sort_votes votes)
    cast v (inl i) = absurd i
    cast v (inr i) = i
