-- ===== src/Store/Listing.antt =====
-- external/src/database/workflow.repository.ts: the filters of `listWorkflows`, and the counts of
-- active workflows.
use approvio.Base.{
  ℕ, String, Option, none, some, Bool, true, not, List, [], ◌∷◌, any, keep, length, if◌then◌else◌,
  ◌&&◌, ◌==◌,
}
use approvio.Base.Text.{truthy}
use approvio.Base.Result.{Result, right, ◌>>=◌}
use approvio.Workflow.{Workflow, is_terminal}
use approvio.Workflow.Validation.{WorkflowError}
use approvio.Store.{WorkflowRow, read_workflow}

-- `filters` of `ListWorkflowsRequestRepo`
pub record Filters : Type 0 where
  pub include_only_non_terminal_state : Bool
  pub template_id : Option String
  pub workflow_template_id : Option String
  pub workflow_template_name : Option String
  pub include_groups : List String

-- What the query reads of the table of templates: the name of a template, and whether the text of
-- its approval rule contains the id of a group.
pub record Templates : Type 0 where
  pub name_of : String → String
  pub rule_contains : String → String → Bool

-- `where.workflowTemplateId`, or else the name
unfoldable pub matches_template : Templates → Filters → WorkflowRow → Bool
matches_template templates f r = elim (truthy f.workflow_template_id) [
  | some id ↦ r.workflow.workflow_template_id == id
  | none ↦ elim (truthy f.workflow_template_name) [
    | some name ↦ templates.name_of r.workflow.workflow_template_id == name
    | none ↦ true
  ]
]

unfoldable pub matches_groups : Templates → List String → WorkflowRow → Bool
matches_groups templates [] r = true
matches_groups templates (g ∷ gs) r =
    any (templates.rule_contains r.workflow.workflow_template_id) (g ∷ gs)

-- The condition `where` of `listWorkflowsTaskNoErrorHandling`
unfoldable pub matches_filters : Templates → Filters → WorkflowRow → Bool
unfolding is_terminal matches_template matches_groups
matches_filters templates f r =
    (if f.include_only_non_terminal_state then not (is_terminal r.workflow.status) else true)
    && matches_template templates f r
    && matches_groups templates f.include_groups r

-- A workflow with its number, as `include: {occ: true}` gives it
pub record Versioned : Type 0 where
  pub workflow : Workflow
  pub occ : ℕ

unfoldable pub read_all : List WorkflowRow → Result WorkflowError (List Versioned)
unfolding read_workflow
read_all [] = right []
read_all (r ∷ rows) = do
  w ← read_workflow r
  ws ← read_all rows
  right (record { workflow = w; occ = r.occ } ∷ ws)

-- `listWorkflows` without pages: the workflows, and `pagination.total`
unfoldable pub list_workflows :
    Templates → Filters → List WorkflowRow → Result WorkflowError (List Versioned × ℕ)
unfolding matches_filters read_all
list_workflows templates f rows =
    read_all (keep (matches_filters templates f) rows)
    >>= (λ ws. right (ws, length (keep (matches_filters templates f) rows)))

-- `countActiveWorkflowsByTemplateId`
unfoldable pub count_active_workflows_by_template_id : String → List WorkflowRow → ℕ
unfolding is_terminal
count_active_workflows_by_template_id id rows = length (
    keep (λ r. (r.workflow.workflow_template_id == id) && not (is_terminal r.workflow.status)) rows)

-- `countActiveWorkflows`
unfoldable pub count_active_workflows : List WorkflowRow → ℕ
unfolding is_terminal
count_active_workflows rows = length (keep (λ r. not (is_terminal r.workflow.status)) rows)
