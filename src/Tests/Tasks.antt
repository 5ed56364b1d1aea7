-- ===== src/Tests/Tasks.antt =====
-- An e-mail task, its handlers, and what they leave.
use approvio.Base.{ℕ, zero, suc, String, none, some, [], ◌∷◌, ◌≡◌, refl, ap, arith, length}
use approvio.Base.Result.{right, left}
use approvio.Base.Text.{codes, is_space, is_alnum, is_blank, utf16_length}
use approvio.Email.{is_email}
use approvio.Task.{
  TaskStatus, pending, EmailTask, validate, validate_base, validate_status_data, validate_lock,
  trim, trim_start, trim_end, to_failed_email, to_completed_email,
}
use approvio.Task.Reasons.{IsSound, failed, done_with, to_failed_email_outcome}
use approvio.Task.Rows.{
  Row, RowError, get_email_task, lock_of, lock_task, update_email_task, release_lock, write_task,
}
use approvio.Task.Processing.{
  handle_email_action, outcome_of, idle, fetched, sending, answered, System, Reach, start, later,
  pick, fetch, take_lock, send, set_pc,
}
use approvio.Task.Processing.Alone.{
  handle_email_action_outcome, handle_email_action-digit_owner, processed,
}
use approvio.Task.Processing.Exclusion.{one_handler, outcome_stored}

abbrev mail : EmailTask
mail = record {
  id = "m";
  workflow_id = "w";
  created_at = 100;
  updated_at = 100;
  status = pending;
  retry_count = 0;
  error_reason = none;
  occ = 0;
  lock = none;
  recipients = "ann.lee@mail.example.org" ∷ [];
  subject = "deploy";
  body = "please vote";
}

abbrev row : Row
row = record { task = mail; locked_by = none; locked_at = none }

mail-IsSound : IsSound mail
unfolding validate_status_data validate_lock is_email is_space is_alnum trim trim_start trim_end
    is_blank
mail-IsSound = record {
  reason = refl;
  lock = refl;
  some_recipient = refl;
  recipients = refl;
  subject = refl;
  subject_given = refl;
  body = refl;
  body_given = refl;
}

row_read : get_email_task row ≡ right mail
unfolding get_email_task lock_of validate validate_base validate_status_data validate_lock is_email
    is_space is_alnum trim trim_start trim_end is_blank
row_read = refl

trimmed : trim " timeout " ≡ "timeout"
unfolding trim trim_start trim_end is_blank is_space
trimmed = refl

to_failed_email_outcome_example :
    (to_failed_email 200 mail " timeout " ≡ right (failed 200 mail " timeout "))
    × IsSound (failed 200 mail " timeout ")
unfolding trim trim_start trim_end is_blank is_space utf16_length
to_failed_email_outcome_example =
    (to_failed_email_outcome 200 mail " timeout " mail-IsSound).2 refl (ground arith)

handle_email_action_outcome_example :
    handle_email_action (λ _. none) "worker" 150 200 row
    ≡ ((right tt, processed (done_with 200 mail) row), mail ∷ [])
handle_email_action_outcome_example =
    (handle_email_action_outcome (λ _. none) "worker" 150 200 row mail row_read refl).0 refl

abbrev worker_id : String
worker_id = "0190a0b0-1c2d-7abc-8def-0123456789b0"

abbrev locked : Row
locked = record { task = mail; locked_by = some worker_id; locked_at = some 150 }

handle_email_action-digit_owner_example :
    (e : RowError) × (handle_email_action (λ _. none) worker_id 160 200 locked
      ≡ ((left e, locked), []))
handle_email_action-digit_owner_example =
    handle_email_action-digit_owner (λ _. none) worker_id worker_id 160 200 48
      (codes "190a0b0-1c2d-7abc-8def-0123456789b0") locked refl refl (ground arith) (ground arith)

owner : ℕ → String
owner zero = "w"
owner (suc n) = String.◌∷◌ "w" (owner n)

length-owner : (n : ℕ) → length (codes (owner n)) ≡ suc n
unfolding owner
length-owner zero = refl
length-owner (suc n) = ap suc (length-owner n)

owner_inj : (i j : ℕ) → owner i ≡ owner j → i ≡ j
owner_inj i j h = omega (arith, ap (λ s. length (codes s)) h, length-owner i, length-owner j)

-- The handler 1 has taken the lock and sent the mail.
abbrev taken : Row
taken = record { task = record mail { occ = 1 }; locked_by = some (owner 1); locked_at = some 150 }

abbrev sent : System
sent = record {
  row = taken;
  pc =
      set_pc (set_pc (set_pc (λ _. idle) 1 (fetched mail)) 1 (sending mail 1)) 1
        (answered mail 1 none);
}

Reach-sent : Reach owner row sent
unfolding lock_task
Reach-sent =
    later (later (later start (pick 1 (fetch row_read))) (pick 1 (take_lock 150 refl)))
      (pick 1 (send none))

one_handler_example : ◌≡◌ {A = ℕ} 1 1
one_handler_example = one_handler owner owner_inj Reach-sent 1 1 tt tt

outcome_stored_example :
    (update_email_task (owner 1) 1 (done_with 200 mail) taken
      ≡ right (2, write_task (done_with 200 mail) taken))
    × (released : Row) × (release_lock (owner 1) 2 (write_task (done_with 200 mail) taken)
        ≡ right released)
    × (released.locked_by ≡ none)
    × (released.task.status ≡ TaskStatus.completed)
unfolding outcome_of to_completed_email validate validate_base validate_status_data validate_lock
    is_email is_space is_alnum trim trim_start trim_end is_blank
outcome_stored_example =
    outcome_stored owner owner_inj Reach-sent 1 200 1 mail (done_with 200 mail) none refl refl
