-- ===== src/Workflow/Evaluation/Play.antt =====
-- About the loop of `evaluateWorkflowStatus` of domain/src/workflows.ts.
use approvio.Base.{List, [], ◌∷◌, ◌≡◌, refl, ◌⊎◌, inl, inr, sym, ◌∙◌, ◌≢◌}
use approvio.Rule.{Rule}
use approvio.Vote.{Vote}
use approvio.Workflow.{Status, approved, rejected, evaluation_in_progress}
use approvio.Workflow.Evaluation.{state_at, Played, halted, ended, play}
use approvio.Workflow.Evaluation.Moments.{
  HasVeto, IsApproving, ReachesApproval, at_once, later, history, state_at-eq-rejected_iff,
  state_at-eq-approved_iff, state_at_cases,
}
use approvio.Workflow.Tally.{Tally, apply_vote}
use approvio.Workflow.Tally.Represents.{Represents, apply_vote-Represents}

-- What a step of the loop does, with the test's result at hand.
play_approved :
    (rule : Rule) (v : Vote) (vs : List Vote) (t : Tally) (c : Status)
    → state_at rule (apply_vote v t) ≡ approved
    → play rule (v ∷ vs) t c ≡ halted
unfolding play
play_approved rule v vs t c e = rw (e, play)

play_goes_on :
    (rule : Rule) (v : Vote) (vs : List Vote) (t : Tally) (c s : Status)
    → state_at rule (apply_vote v t) ≡ s
    → s ≢ approved
    → play rule (v ∷ vs) t c ≡ play rule vs (apply_vote v t) s
unfolding play
play_goes_on rule v vs t c approved e n = absurd (n refl)
play_goes_on rule v vs t c s e n = rw (e, play)

-- The status at the end of a timeline that has no moment of approval.
abbrev pub Ends : List Vote → Status → Type 0
Ends h s = ((s ≡ rejected) × HasVeto h) ⊎ ((s ≡ evaluation_in_progress) × ¬ HasVeto h)

abbrev pub Plays : Rule → List Vote → List Vote → Played → Type 0
Plays rule h vs halted = ReachesApproval rule h vs
Plays rule h vs (ended s) = (¬ ReachesApproval rule h vs) × Ends (history h vs) s

not_reached :
    {rule : Rule} {h vs : List Vote} {v : Vote}
    → ¬ IsApproving rule (v ∷ h)
    → ¬ ReachesApproval rule (v ∷ h) vs
    → ¬ ReachesApproval rule h (v ∷ vs)
not_reached n m (at_once a) = n a
not_reached n m (later r) = m r

Plays-cons :
    (rule : Rule) (v : Vote) (h vs : List Vote) (p : Played)
    → ¬ IsApproving rule (v ∷ h)
    → Plays rule (v ∷ h) vs p
    → Plays rule h (v ∷ vs) p
Plays-cons rule v h vs halted n r = later r
Plays-cons rule v h vs (ended s) n (m, e) = (not_reached n m, e)

module _ (rule : Rule) (v : Vote) (h vs : List Vote) (t : Tally) (c : Status)
    (r : Represents (v ∷ h) (apply_vote v t)) where
  not-IsApproving :
      (s : Status) → state_at rule (apply_vote v t) ≡ s → s ≢ approved → ¬ IsApproving rule (v ∷ h)
  not-IsApproving s x n a = n (sym x ∙ (state_at-eq-approved_iff (v ∷ h) _ r rule).1 a)

  no_veto : state_at rule (apply_vote v t) ≡ evaluation_in_progress → ¬ HasVeto (v ∷ h)
  no_veto x veto = cc (x, (state_at-eq-rejected_iff (v ∷ h) _ r rule).1 veto)

  -- One round, given what the loop does on the votes that are left.
  step_Plays :
      ((s : Status)
        → Represents (v ∷ h) (apply_vote v t)
        → Ends (v ∷ h) s
        → Plays rule (v ∷ h) vs (play rule vs (apply_vote v t) s))
      → Plays rule h (v ∷ vs) (play rule (v ∷ vs) t c)
  step_Plays rest = elim (state_at_cases (v ∷ h) _ r rule) [
    | inl x ↦ rw (play_goes_on rule v vs t c rejected x (λ q. cc)) (
        Plays-cons rule v h vs _ (not-IsApproving rejected x (λ q. cc))
          (rest rejected r (inl (refl, (state_at-eq-rejected_iff (v ∷ h) _ r rule).0 x))))
    | inr (inl x) ↦
        rw (play_approved rule v vs t c x)
          (at_once ((state_at-eq-approved_iff (v ∷ h) _ r rule).0 x))
    | inr (inr x) ↦ rw (play_goes_on rule v vs t c evaluation_in_progress x (λ q. cc)) (
        Plays-cons rule v h vs _ (not-IsApproving evaluation_in_progress x (λ q. cc))
          (rest evaluation_in_progress r (inr (refl, no_veto x))))
  ]

no_moment : (rule : Rule) (h : List Vote) → ¬ ReachesApproval rule h []
no_moment rule h reached = at_nil reached refl
  where
    at_nil : {h vs : List Vote} → ReachesApproval rule h vs → vs ≡ [] → ⊥
    at_nil (at_once a) e = cc
    at_nil (later m) e = cc

-- The loop halts exactly at a moment of approval, and else ends with the status of the last moment.
pub play-Plays :
    (rule : Rule) (vs h : List Vote) (t : Tally) (c : Status)
    → Represents h t
    → Ends h c
    → Plays rule h vs (play rule vs t c)
play-Plays rule [] h t c r e = unfold play in (no_moment rule h, e)
play-Plays rule (v ∷ vs) h t c r e =
    step_Plays rule v h vs t c (apply_vote-Represents v h t r)
      (play-Plays rule vs (v ∷ h) (apply_vote v t))
