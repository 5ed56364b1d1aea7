-- ===== src/Task/Processing/Alone.antt =====
-- About one run of the handler of an e-mail task.
use approvio.Base.{
  ℕ, suc, ◌+◌, ◌≤◌, String, Option, none, some, true, false, List, [], ◌∷◌, ◌≡◌, ◌≢◌, refl, sym, ap,
  arith, inl, inr, nat_eq, Option-cases, eq_refl,
}
use approvio.Base.Result.{left, right, Result-cases, >>=-eq-right}
use approvio.Base.Text.{codes}
use approvio.Task.{
  validate_base, error, EmailTask, Lock, validate, is_letter, is_lock_by, validate_lock,
  to_failed_email,
}
use approvio.Task.Reasons.{
  validate_base-steps, IsSound, validate-IsSound, to_completed_email-IsSound,
  to_failed_email-result, done_with,
}
use approvio.Task.Rows.{
  Row, RowError, lock_of, get_email_task, lock_task, update_email_task, release_lock, write_task,
}
use approvio.Task.Processing.{append, outcome_of, finish, handle_email_action}

-- The row that a run on a free row leaves: three more changes, and free again
abbrev pub processed : EmailTask → Row → Row
processed t r = record {
  task = record (write_task t r).task { occ = suc (suc (suc r.task.occ)) };
  locked_by = none;
  locked_at = none;
}

read-IsSound : (r : Row) (t : EmailTask) → get_email_task r ≡ right t → IsSound t
unfolding get_email_task
read-IsSound r t h = elim (Result-cases (lock_of r.locked_by r.locked_at)) [
  | inl (e, q) ↦ ground arith
  | inr (l, q) ↦ validate-IsSound (record r.task { lock = l }) t (ground arith)
]

finish_eq :
    (owner : String) (at now : ℕ) (answer : Option String) (t t' : EmailTask) (r : Row)
    → outcome_of now t answer ≡ right t'
    → finish owner now answer t (suc r.task.occ) (record {
      task = record r.task { occ = suc r.task.occ };
      locked_by = some owner;
      locked_at = some at;
    })
      ≡ (right tt, processed t' r)
unfolding finish update_email_task release_lock
finish_eq owner at now answer t t' r o =
    let same : nat_eq (suc r.task.occ) (suc r.task.occ) ≡ true = ground arith in
    let next : nat_eq (suc (suc r.task.occ)) (suc (suc r.task.occ)) ≡ true = ground arith in
    rw (finish, o, same, eq_refl owner, next, eq_refl owner) refl

-- A run on a task that can be read and that nobody has locked, whatever its status, also if it is
-- completed: it sends one mail; if the mail server accepts it, the run succeeds, and leaves the row
-- completed and free; if the mail server answers with an error that makes a valid reason, the run
-- succeeds too, and leaves the row failed, with that reason and one more retry, and free.
pub handle_email_action_outcome :
    (send : EmailTask → Option String) (owner : String) (at now : ℕ) (r : Row) (t : EmailTask)
    → get_email_task r ≡ right t
    → r.locked_by ≡ none
    → (send t ≡ none
        → handle_email_action send owner at now r
          ≡ ((right tt, processed (done_with now t) r), t ∷ []))
      × ((e : String) (t' : EmailTask)
          → send t ≡ some e
          → to_failed_email now t (append "Unable to send email: " e) ≡ right t'
          → (handle_email_action send owner at now r ≡ ((right tt, processed t' r), t ∷ []))
            × (t'.status ≡ error)
            × (t'.retry_count ≡ t.retry_count + 1))
unfolding handle_email_action lock_task outcome_of
handle_email_action_outcome send owner at now r t h free =
    let v = read-IsSound r t h in
    (
      (λ q.
          let o : outcome_of now t none ≡ right (done_with now t) =
            rw (to_completed_email-IsSound now t v) refl in
          rw (handle_email_action, h, lock_task, free, q)
            (rw (finish_eq owner at now none t (done_with now t) r o) refl)),
      λ e t' q f.
          let failure =
            sym (to_failed_email-result now t t' (append "Unable to send email: " e) v f) in
          let o : outcome_of now t (some e) ≡ right t' = rw f refl in
          (
            rw (handle_email_action, h, lock_task, free, q)
                (rw (finish_eq owner at now (some e) t t' r o) refl),
            ap (λ (x : EmailTask). x.status) failure,
            ap (λ (x : EmailTask). x.retry_count) failure,
          ),
    )

digit_refused :
    (c created_at : ℕ) (s : List ℕ) (l : Lock)
    → codes l.locked_by ≡ c ∷ s
    → b'0' ≤ c
    → c ≤ b'9'
    → validate_lock (some l) created_at ≢ right tt
unfolding validate_lock is_lock_by is_letter
digit_refused c created_at s l name low high h =
    let bad : is_lock_by (codes l.locked_by) ≡ false = rw name (ground arith) in ground arith

unreadable :
    (holder : String) (c : ℕ) (s : List ℕ) (r : Row) (t : EmailTask)
    → r.locked_by ≡ some holder
    → codes holder ≡ c ∷ s
    → b'0' ≤ c
    → c ≤ b'9'
    → get_email_task r ≢ right t
unfolding get_email_task lock_of validate
unreadable holder c s r t locked name low high h = elim (Option-cases r.locked_at) [
  | inl none_at ↦ ground arith
  | inr (at, some_at) ↦
      let l : Lock = record { locked_by = holder; locked_at = at } in
      let ok : validate (record r.task { lock = some l }) ≡ right t = ground arith in
      let (b, e, _) = >>=-eq-right (validate_base (record r.task { lock = some l })) _ ok in
      let (_, _, passed, _) = validate_base-steps (record r.task { lock = some l }) b e in
      digit_refused c r.task.created_at s l name low high passed
]

-- A row whose lock has an owner with a digit at the start of the name, as the ids of the workers
-- have, cannot be read: every run fails, a run of the owner too, sends nothing and leaves the row.
pub handle_email_action-digit_owner :
    (send : EmailTask → Option String) (owner holder : String) (at now c : ℕ) (s : List ℕ) (r : Row)
    → r.locked_by ≡ some holder
    → codes holder ≡ c ∷ s
    → b'0' ≤ c
    → c ≤ b'9'
    → (e : RowError) × (handle_email_action send owner at now r ≡ ((left e, r), []))
unfolding handle_email_action
handle_email_action-digit_owner send owner holder at now c s r locked name low high =
    elim (Result-cases (get_email_task r)) [
      | inl (e, q) ↦ (e, rw (handle_email_action, q) refl)
      | inr (t, q) ↦ absurd (unreadable holder c s r t locked name low high q)
    ]
