-- ===== src/Workflow/Evaluation/Finality.antt =====
-- About `evaluateWorkflowStatus` of domain/src/workflows.ts when later votes are added.
use approvio.Base.{ℕ, ◌≤◌, false, List, [], ◌++◌, ◌≡◌, refl}
use approvio.Base.Result.{right}
use approvio.Rule.{Rule}
use approvio.Vote.{Vote}
use approvio.Workflow.{approved, Workflow, is_terminal}
use approvio.Workflow.Validation.{IsValid}
use approvio.Workflow.Timeline.{sort_votes}
use approvio.Workflow.Timeline.Later.{Older, sort_votes-append}
use approvio.Workflow.Evaluation.{evaluate_workflow_status}
use approvio.Workflow.Evaluation.Moments.{ReachesApproval, at_once, later}
use approvio.Workflow.Evaluation.Outcome.{
  evaluated, Decides, stays, times_out, approves as approves_now, rejects, waits, Decides_of_result,
  result_of_Decides,
}

ReachesApproval-append :
    {rule : Rule} {h vs : List Vote} (us : List Vote)
    → ReachesApproval rule h vs
    → ReachesApproval rule h (vs ++ us)
ReachesApproval-append us (at_once a) = at_once a
ReachesApproval-append us (later r) = later (ReachesApproval-append us r)

pub reached :
    (now : ℕ) (rule : Rule) (w : Workflow) (votes : List Vote)
    → is_terminal w.status ≡ false
    → Decides now rule w votes approved
    → (now ≤ w.expires_at) × ReachesApproval rule [] (sort_votes votes)
reached now rule w votes t (stays u e) = cc
reached now rule w votes t (times_out u l e) = cc
reached now rule w votes t (approves_now u l r e) = (l, r)
reached now rule w votes t (rejects u l r v e) = cc
reached now rule w votes t (waits u l r v e) = cc

module _ (now updated : ℕ) (rule : Rule) (w : Workflow) (valid : IsValid w)
    (created : w.created_at ≤ updated) (is_open : is_terminal w.status ≡ false) where
  -- An approval is final: if a valid workflow that is open, and was created before the clock is
  -- read, is approved on some votes, it is approved at the same time on these together with any
  -- votes cast later, vetoes and withdrawals included.
  pub approval_final :
      (votes later_votes : List Vote)
      → Older votes later_votes
      → evaluate_workflow_status now updated rule w votes ≡ right (evaluated w approved updated)
      → evaluate_workflow_status now updated rule w (votes ++ later_votes)
        ≡ right (evaluated w approved updated)
  approval_final votes later_votes older e =
      let (in_time, moment) =
        reached now rule w votes is_open
          (Decides_of_result now rule w votes updated valid created approved e) in
      result_of_Decides now rule w (votes ++ later_votes) updated valid created approved (
        approves_now is_open in_time
          (rw (sort_votes-append votes later_votes older)
            (ReachesApproval-append (sort_votes later_votes) moment))
          refl)
