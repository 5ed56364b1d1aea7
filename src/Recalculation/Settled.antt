-- ===== src/Recalculation/Settled.antt =====
-- About the status that the worker stores, relative to the votes.
use approvio.Base.{ℕ, true, false, List, [], ◌≡◌, arith}
use approvio.Base.Result.{right}
use approvio.Rule.{Rule}
use approvio.Vote.{Vote}
use approvio.Workflow.{Status, canceled, evaluation_in_progress, Workflow, is_terminal}
use approvio.Workflow.Evaluation.{change_status, evaluate_workflow_status}
use approvio.Workflow.Validation.{validate, validate_status-status_value}

-- A status that takes account of all the votes: nobody has voted yet, or the workflow was canceled,
-- or an evaluation of these very votes, for an open workflow with the given end, gave it.
pub data Settled (rule : Rule) (expires_at : ℕ) (votes : List Vote) (s : Status) : Type 0 where
  unvoted : votes ≡ [] → s ≡ evaluation_in_progress → Settled rule expires_at votes s
  called_off : s ≡ canceled → Settled rule expires_at votes s
  decided :
      (now updated : ℕ) (w w' : Workflow)
      → is_terminal w.status ≡ false
      → w.expires_at ≡ expires_at
      → evaluate_workflow_status now updated rule w votes ≡ right w'
      → s ≡ w'.status
      → Settled rule expires_at votes s

-- Of a terminal workflow, an evaluation keeps the status.
pub evaluate_workflow_status-terminal :
    (now updated : ℕ) (rule : Rule) (w w' : Workflow) (votes : List Vote)
    → is_terminal w.status ≡ true
    → evaluate_workflow_status now updated rule w votes ≡ right w'
    → w'.status ≡ w.status
unfolding evaluate_workflow_status change_status validate
evaluate_workflow_status-terminal now updated rule w w' votes t h =
    ground (arith, validate_status-status_value w.status)
