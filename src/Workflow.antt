-- ===== src/Workflow.antt =====
-- domain/src/workflows.ts: the workflow record, its statuses and its validation. The evaluation of
-- its votes is in the child modules.
pub mod Validation
pub mod Timeline
pub mod Tally
pub mod Evaluation
pub mod Voting
use approvio.Base.{ℕ, String, Option, Bool, true, false}

-- `WorkflowStatus`
pub data Status : Type 0 where
  approved canceled expired rejected evaluation_in_progress : Status

-- `Workflow`; an instant is a number of milliseconds
pub record Workflow : Type 0 where
  pub id : String
  pub name : String
  pub description : Option String
  pub status : Status
  pub recalculation_required : Bool
  pub workflow_template_id : String
  pub expires_at : ℕ
  pub created_at : ℕ
  pub updated_at : ℕ

-- `WORKFLOW_TERMINAL_STATUSES.includes(status)`
unfoldable pub is_terminal : Status → Bool
is_terminal approved = true
is_terminal canceled = true
is_terminal expired = true
is_terminal rejected = false
is_terminal evaluation_in_progress = false
