-- ===== src/Task.antt =====
-- domain/src/workflow-tasks: base.ts, the common part of the tasks that carry out the actions of a
-- workflow, and email-task.ts, the task that sends an e-mail. The factories validate data whose
-- fields have the declared types.
pub mod Locks
pub mod Trimming
pub mod Reasons
pub mod Rows
pub mod Processing
use Prim.Native.Char.{code}
use approvio.Base.{
  ℕ, ◌+◌, String, Option, none, some, Bool, true, false, not, ◌&&◌, List, [], ◌∷◌, if◌then◌else◌,
  ltb, nat_eq, leb, ◌||◌, any,
}
use approvio.Base.Result.{Result, left, right, ◌>>=◌, ◌>>◌, reject_if}
use approvio.Base.Text.{codes, utf16_length, is_blank, is_space, is_alnum}
use approvio.Email.{is_email}

-- `TaskStatus`
pub data TaskStatus : Type 0 where
  pending completed error : TaskStatus

pub record Lock : Type 0 where
  pub locked_by : String
  pub locked_at : ℕ

-- `WorkflowActionTaskValidationError` and `WorkflowActionEmailTaskValidationError`, those that typed
-- data can lead to
pub data TaskError : Type 0 where
  invalid_retry_count invalid_error_reason error_reason_too_long error_reason_is_empty
        lock_date_prior_creation lock_by_too_long lock_by_is_empty lock_by_invalid_format
        empty_recipients invalid_recipient empty_subject empty_body :
      TaskError

-- `WorkflowActionEmailTask` with its decorators
pub record EmailTask : Type 0 where
  pub id : String
  pub workflow_id : String
  pub created_at : ℕ
  pub updated_at : ℕ
  pub status : TaskStatus
  pub retry_count : ℕ
  pub error_reason : Option String
  pub occ : ℕ
  pub lock : Option Lock
  pub recipients : List String
  pub subject : String
  pub body : String

abbrev pub max_lock_by_length : ℕ
max_lock_by_length = 1024

abbrev pub max_error_reason_length : ℕ
max_error_reason_length = 16384

-- `(-?[a-zA-Z0-9]+)*$`
unfoldable pub is_lock_rest : List ℕ → Bool
is_lock_rest [] = true
is_lock_rest (c ∷ []) = is_alnum c
is_lock_rest (c ∷ d ∷ s) = (is_alnum c || nat_eq c b'-' && is_alnum d) && is_lock_rest (d ∷ s)

-- `[a-zA-Z]`
unfoldable pub is_letter : ℕ → Bool
is_letter c = leb b'a' c && leb c b'z' || leb b'A' c && leb c b'Z'

-- `/^[a-zA-Z](-?[a-zA-Z0-9]+)*$/`
unfoldable pub is_lock_by : List ℕ → Bool
unfolding is_lock_rest
is_lock_by [] = false
is_lock_by (c ∷ s) = is_letter c && is_lock_rest s

-- `validateLock`
unfoldable pub validate_lock : Option Lock → ℕ → Result TaskError (Unit {0})
unfolding is_lock_by
validate_lock none created_at = right tt
validate_lock (some l) created_at = do
  reject_if (ltb l.locked_at created_at) lock_date_prior_creation
  reject_if (ltb max_lock_by_length (utf16_length (codes l.locked_by))) lock_by_too_long
  reject_if (is_blank (codes l.locked_by)) lock_by_is_empty
  reject_if (not (is_lock_by (codes l.locked_by))) lock_by_invalid_format

-- The two ends of `trim`
unfoldable pub trim_start : String → String
trim_start String.[] = String.[]
trim_start (String.◌∷◌ c s) =
    let rest = trim_start s in if is_space (code c) then rest else String.◌∷◌ c s

unfoldable pub trim_end : String → String
trim_end String.[] = String.[]
trim_end (String.◌∷◌ c s) =
    let rest = trim_end s in
    if is_blank (codes s) && is_space (code c) then String.[] else String.◌∷◌ c rest

unfoldable pub trim : String → String
unfolding trim_start trim_end
trim s = trim_end (trim_start s)

-- `validateErrorReason` of a text
unfoldable pub validate_error_reason : String → Result TaskError String
unfolding trim
validate_error_reason s = do
  reject_if (is_blank (codes (trim s))) error_reason_is_empty
  reject_if (ltb max_error_reason_length (utf16_length (codes (trim s)))) error_reason_too_long
  right (trim s)

-- `validatePendingTaskData`, `validateCompletedTaskData`, `validateErrorTaskData`: the error reason
-- that the data keeps
unfoldable pub validate_status_data :
    TaskStatus → ℕ → Option String → Result TaskError (Option String)
unfolding validate_error_reason
validate_status_data pending retry_count reason = do
  reject_if (not (nat_eq retry_count 0)) invalid_retry_count
  right reason
validate_status_data completed retry_count reason = right reason
validate_status_data error retry_count none = left invalid_error_reason
validate_status_data error retry_count (some s) = do r ← validate_error_reason s; right (some r)

-- `WorkflowActionTaskFactory.validate`
unfoldable pub validate_base : EmailTask → Result TaskError EmailTask
unfolding validate_status_data validate_lock
validate_base t = do
  reason ← validate_status_data t.status t.retry_count t.error_reason
  validate_lock t.lock t.created_at
  right (record t { error_reason = reason })

abbrev is_none_given : List String → Bool
is_none_given [] = true
is_none_given (_ ∷ _) = false

-- `WorkflowActionEmailTaskFactory.validate`
unfoldable pub validate : EmailTask → Result TaskError EmailTask
unfolding validate_base
validate t = do
  base ← validate_base t
  reject_if (is_none_given t.recipients) empty_recipients
  reject_if (any (λ r. not (is_email r)) t.recipients) invalid_recipient
  reject_if (is_blank (codes (trim t.subject))) empty_subject
  reject_if (is_blank (codes (trim t.body))) empty_body
  right (record base { subject = trim t.subject; body = trim t.body })

-- `toFailedEmail`
unfoldable pub to_failed_email : ℕ → EmailTask → String → Result TaskError EmailTask
to_failed_email now t reason = validate (record t {
  updated_at = now;
  retry_count = t.retry_count + 1;
  error_reason = some reason;
  status = error;
})

-- `toCompletedEmail`
unfoldable pub to_completed_email : ℕ → EmailTask → Result TaskError EmailTask
to_completed_email now t =
    validate (record t { updated_at = now; error_reason = none; status = completed })
