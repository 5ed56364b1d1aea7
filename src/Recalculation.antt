-- ===== src/Recalculation.antt =====
-- services/src/workflow/workflow-recalculation.service.ts: the recalculation of a workflow's status
-- by the background worker, and the sweep of expired workflows.
pub mod Settled
pub mod Interleaving
pub mod Alone
pub mod Canceled
pub mod Refines
pub mod Liveness
use approvio.Base.{
  ℕ, String, Option, none, some, Bool, true, false, not, List, [], ◌∷◌, ◌&&◌, ◌==◌, if◌then◌else◌,
}
use approvio.Base.Result.{Result, left, right, ◌>>=◌, map_left}
use approvio.Rule.{Rule}
use approvio.Template.Validation.{TemplateError}
use approvio.Vote.{Vote}
use approvio.Workflow.{
  Status, approved, canceled, expired, rejected, evaluation_in_progress, Workflow,
}
use approvio.Workflow.Validation.{WorkflowError, status_value}
use approvio.Workflow.Evaluation.{evaluate_workflow_status}
use approvio.Store.{
  WorkflowRow, read_workflow, WorkflowUpdate, UpdateError, write_row, Db, mark_workflows,
  find_expired_workflows,
}

-- The errors that the rows themselves can cause, of `WorkflowRecalculationError`
pub data RecalculationError : Type 0 where
  invalid_workflow : WorkflowError → RecalculationError
  invalid_template : TemplateError → RecalculationError
  update_failed : UpdateError → RecalculationError

-- What the worker writes: the evaluated status, and that the flag is cleared
unfoldable pub update_of : Workflow → WorkflowUpdate
update_of w = record {
  status = some w.status;
  recalculation_required = some false;
  updated_at = w.updated_at;
}

-- The status of an event `enqueueWorkflowStatusChanged`, if one is enqueued: old and new
pub record StatusChanged : Type 0 where
  pub old_status : Status
  pub new_status : Status

abbrev pub is_in_progress : Status → Bool
is_in_progress evaluation_in_progress = true
is_in_progress _ = false

abbrev pub is_same_status : Status → Status → Bool
is_same_status a b = status_value a == status_value b

unfoldable pub event_of : Status → Status → Option StatusChanged
unfolding status_value
event_of old new =
    if not (is_same_status old new) && not (is_in_progress new)
    then some (record { old_status = old; new_status = new })
    else none

-- `recalculateWorkflowStatusByWorkflowId` with a template that is read as valid and has the rule, when
-- nobody else uses the tables meanwhile: the tables as it leaves them, and the event. A failure to
-- enqueue is ignored by the source.
unfoldable pub recalculate_workflow_status :
    ℕ → ℕ → Rule → Db → Result RecalculationError (Db × Option StatusChanged)
unfolding read_workflow evaluate_workflow_status update_of write_row event_of
recalculate_workflow_status now updated rule db = do
  w ← map_left invalid_workflow (read_workflow db.row)
  w' ← map_left invalid_workflow (evaluate_workflow_status now updated rule w db.votes)
  row ← map_left update_failed (write_row db.row.occ (update_of w') db.row)
  right (record db { row = row }, event_of w.status w'.status)

-- `recalculateWorkflowStatusByWorkflowId` whole: `getWorkflowById` reads the workflow and then its
-- template, of which `template` is the rule, or why it is not valid.
unfoldable pub recalculate_workflow_status_by_workflow_id :
    ℕ → ℕ → Result TemplateError Rule → Db → Result RecalculationError (Db × Option StatusChanged)
unfolding read_workflow evaluate_workflow_status update_of write_row event_of
recalculate_workflow_status_by_workflow_id now updated template db = do
  w ← map_left invalid_workflow (read_workflow db.row)
  rule ← map_left invalid_template template
  w' ← map_left invalid_workflow (evaluate_workflow_status now updated rule w db.votes)
  row ← map_left update_failed (write_row db.row.occ (update_of w') db.row)
  right (record db { row = row }, event_of w.status w'.status)

-- `sweepExpiredWorkflows` at the instant `now`, with the default limit of 1000: the ids that are
-- enqueued, and the rows as it leaves them; `enqueued` tells whether the queue took the jobs.
unfoldable pub sweep_expired_workflows :
    ℕ → Bool → List WorkflowRow → Result String (List String × List WorkflowRow)
unfolding find_expired_workflows mark_workflows
sweep_expired_workflows now enqueued rows = elim (find_expired_workflows now 1000 rows) [
  | [] ↦ right ([], rows)
  | id ∷ ids ↦
      if enqueued then right (id ∷ ids, mark_workflows (id ∷ ids) rows) else left "unknown_error"
]
