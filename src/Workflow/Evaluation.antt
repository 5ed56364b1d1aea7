-- ===== src/Workflow/Evaluation.antt =====
-- `evaluateWorkflowStatus` and `changeStatusAndMarkAsRecalculated`.
pub mod Moments
pub mod Play
pub mod Outcome
pub mod Finality
pub mod Support
use approvio.Base.{ℕ, Bool, true, false, List, [], ◌∷◌, ltb, if◌then◌else◌}
use approvio.Base.Sets.{is_nonempty}
use approvio.Base.Result.{Result}
use approvio.Rule.{Rule, covers}
use approvio.Vote.{Vote}
use approvio.Workflow.{
  Status, approved, canceled, expired, rejected, evaluation_in_progress, Workflow, is_terminal,
}
use approvio.Workflow.Validation.{WorkflowError, validate, to_data}
use approvio.Workflow.Timeline.{sort_votes}
use approvio.Workflow.Tally.{Tally, empty_tally, apply_vote}

-- 2.3: the state at one point in time
unfoldable pub state_at : Rule → Tally → Status
state_at rule t =
    if is_nonempty t.active_vetoers
    then rejected
    else if covers rule t.group_voters
    then approved
    else evaluation_in_progress

-- How the loop ends: by the early return, or with the last `currentStatus`.
pub data Played : Type 0 where
  halted : Played
  ended : Status → Played

-- The loop over the timeline.
unfoldable pub play : Rule → List Vote → Tally → Status → Played
unfolding state_at
play rule [] t current = ended current
play rule (v ∷ vs) t current = elim (state_at rule (apply_vote v t)) [
  | approved ↦ halted
  | s ↦ play rule vs (apply_vote v t) s
]

-- `changeStatusAndMarkAsRecalculated`; `updated` is its reading of the clock
unfoldable pub change_status : Workflow → Status → ℕ → Result WorkflowError Workflow
change_status w status updated = validate (to_data w status false updated)

-- 3: the fallback on the expiration
unfoldable pub fall_back : ℕ → ℕ → Status → Status
fall_back now expires_at evaluation_in_progress =
    if ltb expires_at now then expired else evaluation_in_progress
fall_back now expires_at s = s

-- `evaluateWorkflowStatus` at two readings of the clock: `now`, and `updated` at its end
unfoldable pub evaluate_workflow_status :
    ℕ → ℕ → Rule → Workflow → List Vote → Result WorkflowError Workflow
unfolding change_status fall_back
evaluate_workflow_status now updated rule w votes =
    if is_terminal w.status
    then change_status w w.status updated
    else if ltb w.expires_at now
    then change_status w expired updated
    else elim (play rule (sort_votes votes) empty_tally evaluation_in_progress) [
      | halted ↦ change_status w approved updated
      | ended s ↦ change_status w (fall_back now w.expires_at s) updated
    ]
