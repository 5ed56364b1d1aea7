-- ===== src/Cancellation.antt =====
-- services/src/workflow-template/workflow-template.service.ts: `cancelWorkflows`, its loop, and
-- `cancelWorkflowsAndDeprecateTemplate`, while nobody else uses the table of workflows.
pub mod Everywhere
use approvio.Base.{ℕ, zero, suc, String, none, some, Bool, true, List, [], ◌∷◌, ltb, if◌then◌else◌}
use approvio.Base.Result.{Result, left, right, ◌>>=◌, ◌>>◌, map_left}
use approvio.Recalculation.Interleaving.{cancel_update}
use approvio.Store.{WorkflowRow, read_workflow, UpdateError, update_workflow_concurrent_safe}
use approvio.Store.Listing.{Filters, Templates, Versioned, list_workflows}
use approvio.Template.{Template}
use approvio.Template.Actions.{Urls}
use approvio.Template.Lifecycle.{DeprecationError, mark_template_as_deprecated}
use approvio.Workflow.Validation.{WorkflowError}

-- The errors of the cancellation; those of the template repository are passed on.
pub data CancelError : Type 0 where
  max_attempts_reached : CancelError
  invalid_workflow : WorkflowError → CancelError
  update_failed : UpdateError → CancelError
  not_deprecated : DeprecationError → CancelError
  from_repository : String → CancelError

-- The filters of `getActiveWorkflowsForTemplate`
unfoldable pub active_filters : String → Filters
active_filters template_id = record {
  include_only_non_terminal_state = true;
  template_id = some template_id;
  workflow_template_id = none;
  workflow_template_name = none;
  include_groups = [];
}

-- After the statement: the table, and the row mapped to the domain
unfoldable pub written :
    List WorkflowRow
    → Result UpdateError (WorkflowRow × List WorkflowRow)
    → List WorkflowRow × Result CancelError (Unit {0})
unfolding read_workflow
written rows (left e) = (rows, left (update_failed e))
written rows (right (r, rows')) = (rows', map_left invalid_workflow (read_workflow r) >> right tt)

-- One `updateWorkflowConcurrentSafe`: the table as it leaves it, and what it returns. The clock is
-- read for each workflow.
unfoldable pub cancel_one :
    (String → ℕ) → Versioned → List WorkflowRow → List WorkflowRow × Result CancelError (Unit {0})
unfolding cancel_update update_workflow_concurrent_safe written
cancel_one clock v rows =
    written rows (
      update_workflow_concurrent_safe v.workflow.id v.occ (cancel_update (clock v.workflow.id))
        rows)

-- `TE.sequenceArray` over the workflows: all of them are tried, and the first error is returned.
unfoldable pub cancel_each :
    (String → ℕ)
    → List Versioned
    → List WorkflowRow
    → List WorkflowRow × Result CancelError (Unit {0})
unfolding cancel_one
cancel_each clock [] rows = (rows, right tt)
cancel_each clock (v ∷ vs) rows =
    let one = cancel_one clock v rows in
    let rest = cancel_each clock vs one.0 in (rest.0, one.1 >> rest.1)

-- `cancelWorkflows`: the table as it leaves it, and the number of workflows still active
unfoldable pub cancel_workflows :
    Templates → (String → ℕ) → String → List WorkflowRow → List WorkflowRow × Result CancelError ℕ
unfolding list_workflows active_filters cancel_each
cancel_workflows templates clock template_id rows =
    elim (list_workflows templates (active_filters template_id) rows) [
      | left e ↦ (rows, left (invalid_workflow e))
      | right (listed, _) ↦
          let after = cancel_each clock listed rows in
          (
            after.0,
            after.1
                >> map_left invalid_workflow
                    (list_workflows templates (active_filters template_id) after.0)
                >>= (λ found. right found.1),
          )
    ]

-- `cancelWorkflowsLoop`, with the number of attempts that are left after this one
unfoldable pub cancel_workflows_loop :
    Templates
    → (String → ℕ)
    → String
    → ℕ
    → List WorkflowRow
    → List WorkflowRow × Result CancelError (Unit {0})
unfolding cancel_workflows
cancel_workflows_loop templates clock template_id zero rows =
    let pass = cancel_workflows templates clock template_id rows in
    (
      pass.0,
      pass.1 >>= (λ remaining. if ltb 0 remaining then left max_attempts_reached else right tt),
    )
cancel_workflows_loop templates clock template_id (suc n) rows =
    let pass = cancel_workflows templates clock template_id rows in
    let rest = cancel_workflows_loop templates clock template_id n pass.0 in
    elim pass.1 [
      | left e ↦ (pass.0, left e)
      | right remaining ↦ if ltb 0 remaining then rest else (pass.0, right tt)
    ]

-- The two calls of the template repository
pub record TemplateRepository : Type 0 where
  pub get_workflow_template_by_id : String → Result String (Template × ℕ)
  pub update_workflow_template : Template → ℕ → Result String (Unit {0})

-- `cancelWorkflowsAndDeprecateTemplate` with its two attempts, the deprecation at `now`
unfoldable pub cancel_workflows_and_deprecate_template :
    Urls
    → Templates
    → TemplateRepository
    → (String → ℕ)
    → ℕ
    → String
    → List WorkflowRow
    → List WorkflowRow × Result CancelError (Unit {0})
unfolding cancel_workflows_loop mark_template_as_deprecated
cancel_workflows_and_deprecate_template urls templates repo clock now template_id rows =
    let loop = cancel_workflows_loop templates clock template_id 1 rows in
    (
      loop.0,
      loop.1
          >> map_left from_repository (repo.get_workflow_template_by_id template_id)
          >>= (λ found.
              map_left not_deprecated (mark_template_as_deprecated urls now found.0)
              >>= (λ t. map_left from_repository (repo.update_workflow_template t found.1))),
    )
