-- ===== src/Recalculation/Alone.antt =====
-- About a recalculation that runs while nobody else changes the tables.
use approvio.Base.Text.{truthy, truthy-truthy}
use approvio.Base.{
  String, Option, none, some, Bool-cases, inl, inr, ◌==◌, ℕ, ◌≤◌, true, false, ◌≡◌, refl, arith,
  if◌then◌else◌,
}
use approvio.Base.Result.{Result, left, right}
use approvio.Rule.{Rule}
use approvio.Uuid.{is_uuid_v7}
use approvio.Workflow.{Status, evaluation_in_progress, Workflow}
use approvio.Workflow.Validation.{
  IsValid, validate, validate_name, validate_description, validate_status-status_value,
}
use approvio.Workflow.Evaluation.Outcome.{Decides, evaluated, evaluate_workflow_status_outcome}
use approvio.Store.{WorkflowRow, read_workflow, apply_update, write_row, Db}
use approvio.Template.Validation.{TemplateError}
use approvio.Recalculation.{
  invalid_template, recalculate_workflow_status_by_workflow_id, update_of, event_of,
  recalculate_workflow_status,
}

-- A row that the validation of a read accepts: `createWorkflow` makes such rows.
pub record IsStored (r : WorkflowRow) : Type 0 where
  pub template : is_uuid_v7 r.workflow.workflow_template_id ≡ true
  pub name : validate_name r.workflow.name ≡ right tt
  pub description : validate_description r.workflow.description ≡ right tt
  pub updated : r.workflow.created_at ≤ r.workflow.updated_at
  pub expires : r.workflow.created_at ≤ r.workflow.expires_at

-- The workflow as it is read: marked for recalculation, it is in progress; an empty description is
-- none.
abbrev pub as_read : WorkflowRow → Workflow
as_read r = record r.workflow {
  description = truthy r.workflow.description;
  status = if r.workflow.recalculation_required then evaluation_in_progress else r.workflow.status;
}

described :
    (d : Option String)
    → validate_description d ≡ right tt
    → validate_description (truthy d) ≡ right tt
unfolding validate_description
described none h = refl
described (some s) h = elim (Bool-cases (s == "")) [ inl e ↦ rw e refl | inr e ↦ rw e h ]

pub read_workflow-IsStored : (r : WorkflowRow) → IsStored r → read_workflow r ≡ right (as_read r)
unfolding read_workflow validate
read_workflow-IsStored r s = ground (
  arith,
  validate_status-status_value r.workflow.status,
  described r.workflow.description s.description,
)

as_read-IsValid : (r : WorkflowRow) → IsStored r → IsValid (as_read r)
as_read-IsValid r s = record {
  template = s.template;
  name = s.name;
  description = described r.workflow.description s.description;
  described = truthy-truthy r.workflow.description;
  updated = s.updated;
  expires = s.expires;
  recalculated = λ e. rw e refl;
}

-- The tables after a status is stored.
abbrev pub settled_db : Db → Status → ℕ → Db
settled_db db s updated = record db {
  row = record db.row {
    workflow = record db.row.workflow {
      status = s;
      recalculation_required = false;
      updated_at = updated;
    };
  };
}

write_row-own :
    (r : WorkflowRow) (w : Workflow)
    → write_row r.occ (update_of w) r ≡ right (apply_update (update_of w) r)
unfolding write_row
write_row-own r w = ground arith

module _ (now updated : ℕ) (db : Db) (stored : IsStored db.row)
    (later : db.row.workflow.created_at ≤ updated) where
  pub recalculate_alone :
      (rule : Rule)
      → (s : Status) × Decides now rule (as_read db.row) db.votes s
        × (recalculate_workflow_status now updated rule db
            ≡ right (settled_db db s updated, event_of (as_read db.row).status s))
  unfolding recalculate_workflow_status update_of apply_update
  recalculate_alone rule =
      let (s, d, e, _) =
        evaluate_workflow_status_outcome now rule (as_read db.row) db.votes updated
          (as_read-IsValid db.row stored) later in
      (
        s,
        d,
        rw
            (
              read_workflow-IsStored db.row stored,
              e,
              write_row-own db.row (evaluated (as_read db.row) s updated),
            )
            refl,
      )

  -- A recalculation that nobody disturbs, of a row that is read as a valid workflow, not before
  -- the creation of the workflow: if the template is read as valid, it succeeds, stores the status
  -- that the template's rule, the votes in the table and the clock call for, clears the mark, and
  -- changes neither the number nor the votes; if not, it fails with the error of the template.
  pub recalculate_workflow_status_alone :
      (template : Result TemplateError Rule)
      → ((rule : Rule)
          → template ≡ right rule
          → (s : Status) × Decides now rule (as_read db.row) db.votes s
            × (recalculate_workflow_status_by_workflow_id now updated template db
                ≡ right (settled_db db s updated, event_of (as_read db.row).status s)))
        × ((e : TemplateError)
            → template ≡ left e
            → recalculate_workflow_status_by_workflow_id now updated template db
              ≡ left (invalid_template e))
  unfolding recalculate_workflow_status_by_workflow_id recalculate_workflow_status
  recalculate_workflow_status_alone template = (
    (λ rule q. let (s, d, e) = recalculate_alone rule in (s, d, rw q e)),
    λ e q. rw (read_workflow-IsStored db.row stored, q) refl,
  )
