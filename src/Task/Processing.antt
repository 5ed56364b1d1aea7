-- ===== src/Task/Processing.antt =====
-- worker/src/processor/workflow-action-email.processor.ts: the handler of an e-mail task, on the row
-- of the task, and the steps of several handlers. What the mail server answers is an argument.
pub mod Alone
pub mod Exclusion
use approvio.Base.{ℕ, String, Option, none, some, List, [], ◌∷◌, ◌≡◌, nat_eq, if◌then◌else◌}
use approvio.Base.Result.{Result, left, right, ◌>>=◌, map_left}
use approvio.Task.{EmailTask, to_failed_email, to_completed_email}
use approvio.Task.Rows.{
  RowError, invalid, Row, get_email_task, lock_task, update_email_task, release_lock,
}

unfoldable pub append : String → String → String
append String.[] t = t
append (String.◌∷◌ c s) t = String.◌∷◌ c (append s t)

-- The task after the attempt, with the error of the mail server, if any
unfoldable pub outcome_of : ℕ → EmailTask → Option String → Result RowError EmailTask
unfolding append
outcome_of now t none = map_left invalid (to_completed_email now t)
outcome_of now t (some e) =
    map_left invalid (to_failed_email now t (append "Unable to send email: " e))

-- The end of `handleEmailAction`: the update and the release of the lock
unfoldable pub finish :
    String → ℕ → Option String → EmailTask → ℕ → Row → Result RowError (Unit {0}) × Row
unfolding outcome_of
finish owner now answer t occ row = elim (outcome_of now t answer) [
  | left e ↦ (left e, row)
  | right t' ↦ elim (update_email_task owner occ t' row) [
    | left e ↦ (left e, row)
    | right (occ', row') ↦ elim (release_lock owner occ' row') [
      | left e ↦ (left e, row')
      | right row'' ↦ (right tt, row'')
    ]
  ]
]

-- `handleEmailAction` alone: what it returns, the row it leaves, and the mails it has sent
unfoldable pub handle_email_action :
    (EmailTask → Option String)
    → String
    → ℕ
    → ℕ
    → Row
    → (Result RowError (Unit {0}) × Row) × List EmailTask
unfolding finish
handle_email_action send owner locked_at now row = elim (get_email_task row) [
  | left e ↦ ((left e, row), [])
  | right t ↦ elim (lock_task owner locked_at row) [
    | left e ↦ ((left e, row), [])
    | right (occ, row') ↦ (finish owner now (send t) t occ row', t ∷ [])
  ]
]

-- Where a handler stands: outside; after `getEmailTask`; after `lockTask`, while it sends; after the
-- mail server has answered; after `updateEmailTask`.
pub data Pc : Type 0 where
  idle : Pc
  fetched : EmailTask → Pc
  sending : EmailTask → (occ : ℕ) → Pc
  answered : EmailTask → (occ : ℕ) → Option String → Pc
  updated : (occ : ℕ) → Pc

-- One step of a handler for the owner. A handler that fails gives up, its lock stays.
pub data Move (owner : String) (row : Row) : Pc → Row → Pc → Type 0 where
  fetch : {t : EmailTask} → get_email_task row ≡ right t → Move owner row idle row (fetched t)
  take_lock :
      {t : EmailTask} {occ : ℕ} {row' : Row} (now : ℕ)
      → lock_task owner now row ≡ right (occ, row')
      → Move owner row (fetched t) row' (sending t occ)
  send :
      {t : EmailTask} {occ : ℕ} (answer : Option String)
      → Move owner row (sending t occ) row (answered t occ answer)
  update :
      {t t' : EmailTask} {occ occ' : ℕ} {answer : Option String} {row' : Row} (now : ℕ)
      → outcome_of now t answer ≡ right t'
      → update_email_task owner occ t' row ≡ right (occ', row')
      → Move owner row (answered t occ answer) row' (updated occ')
  release :
      {occ : ℕ} {row' : Row}
      → release_lock owner occ row ≡ right row'
      → Move owner row (updated occ) row' idle
  give_up : {p : Pc} → Move owner row p row idle

-- The row of the task, and where each handler stands
pub record System : Type 0 where
  pub row : Row
  pub pc : ℕ → Pc

abbrev pub set_pc : (ℕ → Pc) → ℕ → Pc → ℕ → Pc
set_pc pc i p j = if nat_eq i j then p else pc j

pub data Step (owner : ℕ → String) (s : System) : System → Type 0 where
  pick :
      (i : ℕ) {row : Row} {p : Pc}
      → Move (owner i) s.row (s.pc i) row p
      → Step owner s (record { row = row; pc = set_pc s.pc i p })

-- What steps lead to from a row that nobody works on
pub data Reach (owner : ℕ → String) (row : Row) : System → Type 0 where
  start : Reach owner row (record { row = row; pc = λ _. idle })
  later : {s t : System} → Reach owner row s → Step owner s t → Reach owner row t
