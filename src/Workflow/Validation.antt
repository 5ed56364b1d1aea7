-- ===== src/Workflow/Validation.antt =====
-- `WorkflowFactory`: `validate`, `newWorkflow`, and `getStringAsEnum` over `WorkflowStatus`.
use approvio.Base.{
  ℕ, ◌≤◌, String, Option, none, some, List, Bool, true, false, not, ◌≡◌, refl, ltb, if◌then◌else◌,
  ◌==◌, ◌&&◌, ◌||◌, arith, [], ◌∷◌, nat_eq,
}
use approvio.Base.Result.{Result, left, right, ◌>>=◌, ◌>>◌, reject_if}
use approvio.Base.Text.{codes, utf16_length, is_blank, is_alnum, truthy}
use approvio.Uuid.{is_uuid_v7}
use approvio.Workflow.{
  Status, approved, canceled, expired, rejected, evaluation_in_progress, Workflow,
}

-- `WorkflowValidationError`
pub data WorkflowError : Type 0 where
  name_empty name_too_long name_invalid_characters description_too_long update_before_create
        status_invalid workflow_template_id_invalid_uuid expires_at_in_the_past :
      WorkflowError

-- The values of the enum.
unfoldable pub status_value : Status → String
status_value approved = "APPROVED"
status_value canceled = "CANCELED"
status_value expired = "EXPIRED"
status_value rejected = "REJECTED"
status_value evaluation_in_progress = "EVALUATION_IN_PROGRESS"

-- `validateWorkflowStatus`, through `getStringAsEnum`
unfoldable pub validate_status : String → Result WorkflowError Status
validate_status s =
    if s == "APPROVED"
    then right approved
    else if s == "CANCELED"
    then right canceled
    else if s == "EXPIRED"
    then right expired
    else if s == "REJECTED"
    then right rejected
    else if s == "EVALUATION_IN_PROGRESS"
    then right evaluation_in_progress
    else left status_invalid

abbrev workflow_name_max_length : ℕ
workflow_name_max_length = 512

abbrev workflow_description_max_length : ℕ
workflow_description_max_length = 2048

-- `[a-zA-Z0-9_-]`
unfoldable pub is_name_character : ℕ → Bool
unfolding is_alnum
is_name_character c = is_alnum c || nat_eq c b'_' || nat_eq c b'-'

-- `/^[a-zA-Z0-9_-]+$/` on a text that is not empty
unfoldable pub all_name_characters : List ℕ → Bool
unfolding is_name_character
all_name_characters [] = true
all_name_characters (c ∷ s) = is_name_character c && all_name_characters s

-- `validateWorkflowName`
unfoldable pub validate_name : String → Result WorkflowError (Unit {0})
unfolding all_name_characters is_blank utf16_length
validate_name name = do
  reject_if (is_blank (codes name)) name_empty
  reject_if (ltb workflow_name_max_length (utf16_length (codes name))) name_too_long
  reject_if (not (all_name_characters (codes name))) name_invalid_characters

-- `validateWorkflowDescription`; the source does not call it for a description that is missing or
-- empty, which this accepts as well
unfoldable pub validate_description : Option String → Result WorkflowError (Unit {0})
unfolding utf16_length
validate_description none = right tt
validate_description (some d) =
    reject_if (ltb workflow_description_max_length (utf16_length (codes d))) description_too_long

-- The argument of `instantiateWorkflow`: a workflow whose status is still a text.
pub record WorkflowData : Type 0 where
  pub id : String
  pub name : String
  pub description : Option String
  pub status : String
  pub recalculation_required : Bool
  pub workflow_template_id : String
  pub expires_at : ℕ
  pub created_at : ℕ
  pub updated_at : ℕ

-- `WorkflowFactory.validate`, that is, `instantiateWorkflow`; an empty description becomes a missing
-- one
unfoldable pub validate : WorkflowData → Result WorkflowError Workflow
validate d = do
  reject_if (not (is_uuid_v7 d.workflow_template_id)) workflow_template_id_invalid_uuid
  validate_name d.name
  validate_description (truthy d.description)
  reject_if (ltb d.updated_at d.created_at) update_before_create
  reject_if (ltb d.expires_at d.created_at) expires_at_in_the_past
  status ← validate_status d.status
  right (record {
    id = d.id;
    name = d.name;
    description = truthy d.description;
    status = if d.recalculation_required then evaluation_in_progress else status;
    recalculation_required = d.recalculation_required;
    workflow_template_id = d.workflow_template_id;
    expires_at = d.expires_at;
    created_at = d.created_at;
    updated_at = d.updated_at;
  })

-- `WorkflowFactory.newWorkflow`: the id comes from `uuidv7()`, `now` from the clock.
unfoldable pub new_workflow :
    String → ℕ → String → Option String → String → ℕ → Result WorkflowError Workflow
new_workflow uuid now name description workflow_template_id expires_at = validate (record {
  id = uuid;
  name = name;
  description = description;
  status = "EVALUATION_IN_PROGRESS";
  recalculation_required = false;
  workflow_template_id = workflow_template_id;
  expires_at = expires_at;
  created_at = now;
  updated_at = now;
})

-- What every workflow that passed validation satisfies.
pub record IsValid (w : Workflow) : Type 0 where
  pub template : is_uuid_v7 w.workflow_template_id ≡ true
  pub name : validate_name w.name ≡ right tt
  pub description : validate_description w.description ≡ right tt
  pub described : truthy w.description ≡ w.description
  pub updated : w.created_at ≤ w.updated_at
  pub expires : w.created_at ≤ w.expires_at
  pub recalculated : w.recalculation_required ≡ true → w.status ≡ evaluation_in_progress

-- A status survives being written as its text and read again.
pub validate_status-status_value : (s : Status) → validate_status (status_value s) ≡ right s
unfolding validate_status status_value
validate_status-status_value approved = refl
validate_status-status_value canceled = refl
validate_status-status_value expired = refl
validate_status-status_value rejected = refl
validate_status-status_value evaluation_in_progress = refl

-- The row of a workflow, as it is handed to `validate` when it is read again.
abbrev pub to_data : Workflow → Status → Bool → ℕ → WorkflowData
to_data w s recalculation updated = record {
  id = w.id;
  name = w.name;
  description = w.description;
  status = status_value s;
  recalculation_required = recalculation;
  workflow_template_id = w.workflow_template_id;
  expires_at = w.expires_at;
  created_at = w.created_at;
  updated_at = updated;
}

-- What passes validation is valid.
pub validate-IsValid : (d : WorkflowData) (w : Workflow) → validate d ≡ right w → IsValid w
unfolding validate
validate-IsValid d w h = ground arith

-- Of a valid workflow the update with a status and a later instant passes.
pub validate-to_data :
    (w : Workflow) (s : Status) (now : ℕ)
    → IsValid w
    → w.created_at ≤ now
    → validate (to_data w s false now)
      ≡ right (record w { status = s; recalculation_required = false; updated_at = now })
unfolding validate
validate-to_data w s now v h = ground (arith, validate_status-status_value s)
