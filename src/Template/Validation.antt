-- ===== src/Template/Validation.antt =====
-- domain/src/workflow-templates.ts: `WorkflowTemplateFactory`.
use approvio.Base.{
  ℕ, String, Option, none, some, Bool, false, not, List, [], ◌∷◌, ltb, if◌then◌else◌, ◌==◌, ◌&&◌,
  ◌||◌, nat_eq,
}
use approvio.Base.Int.{pos, negsuc}
use approvio.Base.Text.{codes, utf16_length, is_blank, is_alnum, is_space}
use approvio.Base.Result.{Result, left, right, ◌>>=◌, ◌>>◌, reject_if, map_left}
use approvio.Json.{Json, Number, num, integer, fractional, undefined}
use approvio.Rule.Validation as rules
use approvio.Template.{TemplateStatus, active, pending_deprecation, deprecated, Template}
use approvio.Template.Actions.{ActionError, Urls, validate_workflow_actions}
use approvio.Uuid.{is_uuid_v7}

-- `WorkflowTemplateValidationError`
pub data TemplateError : Type 0 where
  name_empty name_too_long name_invalid_characters description_too_long update_before_create
        expires_in_hours_invalid status_invalid version_invalid_number version_invalid_format
        space_id_invalid_uuid :
      TemplateError
  by_rule : rules.RuleError → TemplateError
  by_action : ActionError → TemplateError

abbrev pub template_name_max_length : ℕ
template_name_max_length = 512

abbrev pub template_description_max_length : ℕ
template_description_max_length = 2048

abbrev pub max_expires_in_hours : ℕ
max_expires_in_hours = 8760

-- `[a-zA-Z0-9_\-\s]`
unfoldable pub is_inner_character : ℕ → Bool
unfolding is_alnum is_space
is_inner_character c = is_alnum c || nat_eq c b'_' || nat_eq c b'-' || is_space c

-- `[a-zA-Z0-9_\-\s]+[a-zA-Z0-9]$`
unfoldable pub ends_well : List ℕ → Bool
unfolding is_inner_character
ends_well [] = false
ends_well (c ∷ []) = false
ends_well (c ∷ d ∷ []) = is_inner_character c && is_alnum d
ends_well (c ∷ d ∷ e ∷ s) = is_inner_character c && ends_well (d ∷ e ∷ s)

-- `/^[a-zA-Z0-9][a-zA-Z0-9_\-\s]+[a-zA-Z0-9]$/`
unfoldable pub is_template_name : List ℕ → Bool
unfolding ends_well
is_template_name [] = false
is_template_name (c ∷ s) = is_alnum c && ends_well s

-- `validateWorkflowTemplateName`
unfoldable pub validate_name : String → Result TemplateError String
unfolding is_template_name is_blank utf16_length
validate_name name = do
  reject_if (is_blank (codes name)) name_empty
  reject_if (ltb template_name_max_length (utf16_length (codes name))) name_too_long
  reject_if (not (is_template_name (codes name))) name_invalid_characters
  right name

-- `validateWorkflowTemplateDescription`
unfoldable pub validate_description : Option String → Result TemplateError (Option String)
unfolding utf16_length
validate_description none = right none
validate_description (some d) = do
  reject_if (ltb template_description_max_length (utf16_length (codes d))) description_too_long
  right (some d)

-- `validateExpiresInHours`
unfoldable pub validate_expires_in_hours : Json → Result TemplateError (Option ℕ)
validate_expires_in_hours undefined = right none
validate_expires_in_hours (num (integer (pos n))) =
    if ltb n 1 || ltb max_expires_in_hours n then left expires_in_hours_invalid else right (some n)
validate_expires_in_hours _ = left expires_in_hours_invalid

-- The values of the enum
unfoldable pub template_status_value : TemplateStatus → String
template_status_value active = "ACTIVE"
template_status_value pending_deprecation = "PENDING_DEPRECATION"
template_status_value deprecated = "DEPRECATED"

-- `validateWorkflowTemplateStatus`
unfoldable pub validate_status : String → Result TemplateError TemplateStatus
validate_status s =
    if s == "ACTIVE"
    then right active
    else if s == "PENDING_DEPRECATION"
    then right pending_deprecation
    else if s == "DEPRECATED"
    then right deprecated
    else left status_invalid

-- `validateWorkflowTemplateVersion`
unfoldable pub validate_version : Number → Result TemplateError ℕ
validate_version fractional = left version_invalid_format
validate_version (integer (negsuc n)) = left version_invalid_number
validate_version (integer (pos n)) = if ltb n 1 then left version_invalid_number else right n

-- `validateSpaceId`
unfoldable pub validate_space_id : String → Result TemplateError String
validate_space_id id = if is_uuid_v7 id then right id else left space_id_invalid_uuid

-- The argument of `createWorkflowTemplate`: what is not checked yet is raw.
pub record TemplateData : Type 0 where
  pub id : String
  pub name : String
  pub version : Number
  pub description : Option String
  pub approval_rule : Json
  pub actions : Json
  pub default_expires_in_hours : Json
  pub status : String
  pub allow_voting_on_deprecated_template : Bool
  pub space_id : String
  pub created_at : ℕ
  pub updated_at : ℕ

-- `WorkflowTemplateFactory.validate`, that is, `createWorkflowTemplate`
unfoldable pub validate : Urls → TemplateData → Result TemplateError Template
unfolding validate_name validate_version validate_description validate_expires_in_hours
    validate_status validate_space_id
validate urls d = do
  name ← validate_name d.name
  version ← validate_version d.version
  description ← validate_description d.description
  approval_rule ← map_left by_rule (rules.validate d.approval_rule)
  actions ← map_left by_action (validate_workflow_actions urls d.actions)
  hours ← validate_expires_in_hours d.default_expires_in_hours
  status ← validate_status d.status
  space_id ← validate_space_id d.space_id
  reject_if (ltb d.updated_at d.created_at) update_before_create
  right (record {
    id = d.id;
    name = name;
    version = version;
    description = description;
    approval_rule = approval_rule;
    actions = actions;
    default_expires_in_hours = hours;
    status = status;
    allow_voting_on_deprecated_template = d.allow_voting_on_deprecated_template;
    space_id = space_id;
    created_at = d.created_at;
    updated_at = d.updated_at;
  })
