-- ===== src/Task/Reasons.antt =====
-- About the outcome of an e-mail task, `toFailedEmail` and `toCompletedEmail` of
-- domain/src/workflow-tasks/email-task.ts.
use mathlib.Core.Path.{subst}
use approvio.Base.{
  ℕ, ◌≤◌, ◌<◌, ◌+◌, String, true, false, some, none, not, ◌≡◌, refl, arith, inl, inr, ap, ◌∙◌,
  Bool-cases, ltb, any, Option,
}
use approvio.Base.Result.{left, right, >>=-eq-right}
use approvio.Base.Text.{codes, utf16_length, is_blank}
use approvio.Email.{is_email}
use approvio.Task.Trimming.{trim-trim}
use approvio.Task.{
  TaskStatus, pending, completed, error, TaskError, EmailTask, validate_lock, trim,
  validate_error_reason, validate_status_data, validate_base, is_none_given, validate,
  to_failed_email, to_completed_email,
}

-- What an e-mail task satisfies that the factory returns unchanged.
pub record IsSound (t : EmailTask) : Type 0 where
  pub reason : validate_status_data t.status t.retry_count t.error_reason ≡ right t.error_reason
  pub lock : validate_lock t.lock t.created_at ≡ right tt
  pub some_recipient : is_none_given t.recipients ≡ false
  pub recipients : any (λ r. not (is_email r)) t.recipients ≡ false
  pub subject : trim t.subject ≡ t.subject
  pub subject_given : is_blank (codes t.subject) ≡ false
  pub body : trim t.body ≡ t.body
  pub body_given : is_blank (codes t.body) ≡ false

validate_error_reason-again :
    (s r : String) → validate_error_reason s ≡ right r → validate_error_reason r ≡ right r
unfolding validate_error_reason
validate_error_reason-again s r h =
    let q : trim s ≡ r = ground arith in
    subst (λ x. validate_error_reason x ≡ right x) q (rw (trim-trim s) ground arith)

validate_status_data-again :
    (status : TaskStatus) (n : ℕ) (o r : Option String)
    → validate_status_data status n o ≡ right r
    → validate_status_data status n r ≡ right r
unfolding validate_status_data
validate_status_data-again pending n o r h = ground arith
validate_status_data-again completed n o r h = refl
validate_status_data-again error n none r h = ground arith
validate_status_data-again error n (some s) r h =
    let (x, e, q) = >>=-eq-right (validate_error_reason s) (λ y. right (some y)) h in
    let q' : some x ≡ r = ground arith in
    subst (λ y. validate_status_data error n y ≡ right y) q'
      (rw (validate_error_reason-again s x e) refl)

pub validate_base-steps :
    (t b : EmailTask)
    → validate_base t ≡ right b
    → (r : Option String) × (validate_status_data t.status t.retry_count t.error_reason ≡ right r)
      × (validate_lock t.lock t.created_at ≡ right tt)
      × (record t { error_reason = r } ≡ b)
unfolding validate_base
validate_base-steps t b h =
    let (r, e, h') =
      >>=-eq-right (validate_status_data t.status t.retry_count t.error_reason) _ h in
    let (u, l, h'') = >>=-eq-right (validate_lock t.lock t.created_at) _ h' in
    (r, e, l, ground arith)

-- What the factory returns, it returns unchanged.
pub validate-IsSound : (t u : EmailTask) → validate t ≡ right u → IsSound u
unfolding validate
validate-IsSound t u h =
    let (b, e, h') = >>=-eq-right (validate_base t) _ h in
    let (r, s, l, q) = validate_base-steps t b e in
    let facts : (is_none_given t.recipients ≡ false)
        × (any (λ x. not (is_email x)) t.recipients ≡ false)
        × (is_blank (codes (trim t.subject)) ≡ false)
        × (is_blank (codes (trim t.body)) ≡ false)
        × (record b { subject = trim t.subject; body = trim t.body } ≡ u) =
      ground arith in
    let q' : record t { error_reason = r; subject = trim t.subject; body = trim t.body } ≡ u =
      ap {A = EmailTask} (λ x. record x { subject = trim t.subject; body = trim t.body }) q
      ∙ facts.4 in
    subst IsSound q' (record {
      reason = validate_status_data-again t.status t.retry_count t.error_reason r s;
      lock = l;
      some_recipient = facts.0;
      recipients = facts.1;
      subject = trim-trim t.subject;
      subject_given = facts.2;
      body = trim-trim t.body;
      body_given = facts.3;
    })

pub IsSound-validate : (t : EmailTask) → IsSound t → validate t ≡ right t
unfolding validate validate_base
IsSound-validate t v =
    rw
      (
        v.reason, v.lock, v.some_recipient, v.recipients, v.subject, v.subject_given, v.body,
        v.body_given,
      )
      refl

abbrev pub failed : ℕ → EmailTask → String → EmailTask
failed now t reason = record t {
  updated_at = now;
  retry_count = t.retry_count + 1;
  error_reason = some (trim reason);
  status = error;
}

-- A failed task: of a sound task, toFailedEmail keeps everything but its instant, one more retry, the
-- status and the trimmed reason, if that is not empty and has at most 16384 code units, and then the
-- result is sound, so that it is read back; a blank reason and a longer one are refused.
pub to_failed_email_outcome :
    (now : ℕ) (t : EmailTask) (reason : String)
    → IsSound t
    → (is_blank (codes (trim reason)) ≡ true
        → to_failed_email now t reason ≡ left TaskError.error_reason_is_empty)
      × (is_blank (codes (trim reason)) ≡ false
          → 16384 < utf16_length (codes (trim reason))
          → to_failed_email now t reason ≡ left TaskError.error_reason_too_long)
      × (is_blank (codes (trim reason)) ≡ false
          → utf16_length (codes (trim reason)) ≤ 16384
          → (to_failed_email now t reason ≡ right (failed now t reason))
            × IsSound (failed now t reason))
unfolding to_failed_email validate validate_base validate_status_data validate_error_reason
to_failed_email_outcome now t reason v =
    let long : 16384 < utf16_length (codes (trim reason))
        → ltb 16384 (utf16_length (codes (trim reason))) ≡ true =
      λ l. ground arith in
    let short : utf16_length (codes (trim reason)) ≤ 16384
        → ltb 16384 (utf16_length (codes (trim reason))) ≡ false =
      λ l. ground arith in
    (
      (λ b. rw b refl),
      (λ b l. rw (b, long l) refl),
      λ b l.
          let ok : to_failed_email now t reason ≡ right (failed now t reason) =
            rw
              (
                b,
                short l,
                v.lock,
                v.some_recipient,
                v.recipients,
                v.subject,
                v.subject_given,
                v.body,
                v.body_given,
              )
              refl in
          (
            ok,
            validate-IsSound
                (record t {
                  updated_at = now;
                  retry_count = t.retry_count + 1;
                  error_reason = some reason;
                  status = error;
                })
                (failed now t reason) ok,
          ),
    )

abbrev pub done_with : ℕ → EmailTask → EmailTask
done_with now t = record t { updated_at = now; error_reason = none; status = completed }

-- A sound task is completed whatever happened before.
pub to_completed_email-IsSound :
    (now : ℕ) (t : EmailTask) → IsSound t → to_completed_email now t ≡ right (done_with now t)
unfolding to_completed_email validate validate_base validate_status_data
to_completed_email-IsSound now t v =
    rw (v.lock, v.some_recipient, v.recipients, v.subject, v.subject_given, v.body, v.body_given)
      refl

pub to_failed_email-result :
    (now : ℕ) (t t' : EmailTask) (reason : String)
    → IsSound t
    → to_failed_email now t reason ≡ right t'
    → failed now t reason ≡ t'
unfolding to_failed_email
to_failed_email-result now t t' reason v h =
    let (empty, long, fine) = to_failed_email_outcome now t reason v in
    elim (Bool-cases (is_blank (codes (trim reason)))) [
      | inl b ↦ let q = empty b in ground arith
      | inr b ↦ elim (Bool-cases (ltb 16384 (utf16_length (codes (trim reason))))) [
        | inl l ↦ let q = long b (ground arith) in ground arith
        | inr l ↦ let q = (fine b (ground arith)).0 in ground arith
      ]
    ]
