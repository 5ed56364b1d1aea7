-- ===== src/Task/Rows.antt =====
-- external/src/database/task.repository.ts: the row of one e-mail task, its lock and its number.
use approvio.Base.{
  ℕ, suc, String, Option, none, some, Bool, false, ◌&&◌, ◌==◌, if◌then◌else◌, nat_eq, not,
}
use approvio.Base.Result.{Result, left, right, map_left}
use approvio.Task.{TaskStatus, error, TaskError, Lock, EmailTask, validate}

-- `TaskLockError`, `TaskUpdateError`, `TaskGetErrorEmailTask`
pub data RowError : Type 0 where
  task_not_found task_locked_by_other task_concurrent_update task_lock_inconsistent unknown_error :
      RowError
  invalid : TaskError → RowError

-- `workflow_actions_email_task`: the columns of the lock beside the task
pub record Row : Type 0 where
  pub task : EmailTask
  pub locked_by : Option String
  pub locked_at : Option ℕ

abbrev pub is_owner : Option String → String → Bool
is_owner none owner = false
is_owner (some w) owner = w == owner

-- The lock of the two columns in `getEmailTask`
unfoldable pub lock_of : Option String → Option ℕ → Result RowError (Option Lock)
lock_of none none = right none
lock_of (some w) (some at) = right (some (record { locked_by = w; locked_at = at }))
lock_of _ _ = left task_lock_inconsistent

-- `getEmailTask`
unfoldable pub get_email_task : Row → Result RowError EmailTask
unfolding lock_of
get_email_task r = elim (lock_of r.locked_by r.locked_at) [
  | left e ↦ left e
  | right lock ↦ map_left invalid (validate (record r.task { lock = lock }))
]

-- `lockTask`: the number of the row that it has locked, or that its owner has locked before
unfoldable pub lock_task : String → ℕ → Row → Result RowError (ℕ × Row)
lock_task owner now r = elim r.locked_by [
  | none ↦ right (
    suc r.task.occ,
    record {
      task = record r.task { occ = suc r.task.occ };
      locked_by = some owner;
      locked_at = some now;
    },
  )
  | some w ↦ if w == owner then right (r.task.occ, r) else left task_locked_by_other
]

-- `categorizeErrorTypeAndRaise`, for a task that is there
unfoldable pub categorize_error : String → ℕ → Row → RowError
categorize_error owner occ r =
    if not (is_owner r.locked_by owner)
    then task_locked_by_other
    else if not (nat_eq r.task.occ occ)
    then task_concurrent_update
    else unknown_error

-- The error reason that an update stores: of a task that has not failed, the column stays.
abbrev stored_reason : TaskStatus → Option String → Option String → Option String
stored_reason error new old = new
stored_reason _ new old = old

-- The columns that `updateEmailTask` writes
abbrev pub write_task : EmailTask → Row → Row
write_task t r = record r {
  task = record r.task {
    status = t.status;
    retry_count = t.retry_count;
    error_reason = stored_reason t.status t.error_reason r.task.error_reason;
    updated_at = t.updated_at;
    occ = suc r.task.occ;
  };
}

-- `updateEmailTask`
unfoldable pub update_email_task : String → ℕ → EmailTask → Row → Result RowError (ℕ × Row)
unfolding categorize_error
update_email_task owner occ t r =
    if nat_eq r.task.occ occ && is_owner r.locked_by owner
    then right (suc r.task.occ, write_task t r)
    else left (categorize_error owner occ r)

-- `releaseLock`
unfoldable pub release_lock : String → ℕ → Row → Result RowError Row
unfolding categorize_error
release_lock owner occ r =
    if nat_eq r.task.occ occ && is_owner r.locked_by owner
    then right (record {
      task = record r.task { occ = suc r.task.occ };
      locked_by = none;
      locked_at = none;
    })
    else left (categorize_error owner occ r)
