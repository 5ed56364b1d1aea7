-- ===== src/Task/Processing/Exclusion.antt =====
-- About several handlers of one task, each with a worker id of its own.
use mathlib.Core.Path.{subst}
use approvio.Base.{
  ◌⊎◌, ℕ, suc, String, Option, none, some, true, ◌≡◌, ◌≢◌, refl, sym, ◌∙◌, arith, nat_eq,
  Bool-cases, Option-cases, inl, inr, eq_iff, ap, eq_refl,
}
use approvio.Base.Result.{right}
use approvio.Task.{EmailTask}
use approvio.Task.Rows.{Row, is_owner, lock_task, update_email_task, release_lock, write_task}
use approvio.Task.Processing.{
  Pc, idle, fetched, sending, answered, updated, outcome_of, Move, fetch, take_lock, send, update,
  release, give_up, System, Step, pick, Reach, start, later,
}

-- The handler has the lock, and knows the number of the row.
HasLock : String → ℕ → Row → Type 0
HasLock owner occ row = (row.locked_by ≡ some owner) × (row.task.occ ≡ occ)

Knows : String → Row → Pc → Type 0
unfolding HasLock
Knows owner row idle = Unit
Knows owner row (fetched t) = Unit
Knows owner row (sending t occ) = HasLock owner occ row
Knows owner row (answered t occ answer) = HasLock owner occ row
Knows owner row (updated occ) = HasLock owner occ row

lock_task-HasLock :
    (owner : String) (now occ : ℕ) (row row' : Row)
    → lock_task owner now row ≡ right (occ, row')
    → HasLock owner occ row'
unfolding HasLock lock_task
lock_task-HasLock owner now occ row row' h = elim (Option-cases row.locked_by) [
  | inl e ↦ ground arith
  | inr (w, e) ↦ ground (arith, eq_iff w owner)
]

is_owner_sound : (o : Option String) (owner : String) → is_owner o owner ≡ true → o ≡ some owner
is_owner_sound none owner h = ground arith
is_owner_sound (some w) owner h = ap some ((eq_iff w owner).0 h)

is_owner_complete : (owner : String) → is_owner (some owner) owner ≡ true
is_owner_complete owner = eq_refl owner

update-HasLock :
    (owner : String) (occ occ' : ℕ) (t : EmailTask) (row row' : Row)
    → update_email_task owner occ t row ≡ right (occ', row')
    → HasLock owner occ' row' × (row.locked_by ≡ some owner)
unfolding HasLock update_email_task
update-HasLock owner occ occ' t row row' h =
    let mine : row.locked_by ≡ some owner = is_owner_sound row.locked_by owner (ground arith) in
    let q : row' ≡ write_task t row = ground arith in
    let n : occ' ≡ suc row.task.occ = ground arith in
    ((ap (λ (r : Row). r.locked_by) q ∙ mine, ap (λ (r : Row). r.task.occ) q ∙ sym n), mine)

release-owner :
    (owner : String) (occ : ℕ) (row row' : Row)
    → release_lock owner occ row ≡ right row'
    → row.locked_by ≡ some owner
unfolding release_lock
release-owner owner occ row row' h = is_owner_sound row.locked_by owner (ground arith)

Move-Knows :
    {owner : String} {row row' : Row} {p p' : Pc}
    → Move owner row p row' p'
    → Knows owner row p
    → Knows owner row' p'
unfolding Knows
Move-Knows (fetch e) k = tt
Move-Knows {owner} {row} {row'} (take_lock {t} {occ} now e) k =
    lock_task-HasLock owner now occ row row' e
Move-Knows (send answer) k = k
Move-Knows {owner} {row} {row'} (update {t} {t'} {occ} {occ'} now o e) k =
    (update-HasLock owner occ occ' t' row row' e).0
Move-Knows (release e) k = tt
Move-Knows give_up k = tt

-- A step changes the row only if nobody or the handler itself has the lock.
lock_task-changes :
    (owner : String) (now occ : ℕ) (row row' : Row)
    → lock_task owner now row ≡ right (occ, row')
    → (row.locked_by ≡ none) ⊎ (row' ≡ row)
unfolding lock_task
lock_task-changes owner now occ row row' h = elim (Option-cases row.locked_by) [
  | inl e ↦ inl e
  | inr (w, e) ↦ inr ground (arith, eq_iff w owner)
]

Move-changes :
    {owner : String} {row row' : Row} {p p' : Pc}
    → Move owner row p row' p'
    → (row.locked_by ≡ none) ⊎ (row.locked_by ≡ some owner) ⊎ (row' ≡ row)
Move-changes (fetch e) = inr (inr refl)
Move-changes {owner} {row} {row'} (take_lock {t} {occ} now e) =
    elim (lock_task-changes owner now occ row row' e) [ inl n ↦ inl n | inr q ↦ inr (inr q) ]
Move-changes (send answer) = inr (inr refl)
Move-changes {owner} {row} {row'} (update {t} {t'} {occ} {occ'} now o e) =
    inr (inl (update-HasLock owner occ occ' t' row row' e).1)
Move-changes {owner} {row} {row'} (release {occ} e) = inr (inl (release-owner owner occ row row' e))
Move-changes give_up = inr (inr refl)

HasLock-kept :
    {owner other : String} {row row' : Row} (occ : ℕ)
    → owner ≢ other
    → (row.locked_by ≡ none) ⊎ (row.locked_by ≡ some owner) ⊎ (row' ≡ row)
    → HasLock other occ row
    → HasLock other occ row'
unfolding HasLock
HasLock-kept {owner} {other} {row} {row'} occ differ c (l, n) = elim c [
  | inl e ↦ let q : none ≡ some other = sym e ∙ l in absurd (ground arith)
  | inr d ↦ elim d [
    | inl e ↦ let q : some owner ≡ some other = sym e ∙ l in absurd (differ (ground arith))
    | inr q ↦ (ap (λ (r : Row). r.locked_by) q ∙ l, ap (λ (r : Row). r.task.occ) q ∙ n)
  ]
]

Knows-kept :
    {owner other : String} {row row' : Row} (p : Pc)
    → owner ≢ other
    → (row.locked_by ≡ none) ⊎ (row.locked_by ≡ some owner) ⊎ (row' ≡ row)
    → Knows other row p
    → Knows other row' p
unfolding Knows
Knows-kept idle differ c k = tt
Knows-kept (fetched t) differ c k = tt
Knows-kept (sending t occ) differ c k = HasLock-kept occ differ c k
Knows-kept (answered t occ a) differ c k = HasLock-kept occ differ c k
Knows-kept (updated occ) differ c k = HasLock-kept occ differ c k

-- The handler has taken the lock and has not given it back.
abbrev pub IsWorking : Pc → Type 0
IsWorking idle = ⊥
IsWorking (fetched t) = ⊥
IsWorking _ = Unit

Knows-owner :
    (owner : String) (row : Row) (p : Pc)
    → IsWorking p
    → Knows owner row p
    → row.locked_by ≡ some owner
unfolding Knows HasLock
Knows-owner owner row idle w k = absurd w
Knows-owner owner row (fetched t) w k = absurd w
Knows-owner owner row (sending t occ) w k = k.0
Knows-owner owner row (answered t occ a) w k = k.0
Knows-owner owner row (updated occ) w k = k.0

module _ (owner : ℕ → String) (distinct : (i j : ℕ) → owner i ≡ owner j → i ≡ j) where
  Step-Knows :
      {s t : System}
      → Step owner s t
      → ((i : ℕ) → Knows (owner i) s.row (s.pc i))
      → (j : ℕ) → Knows (owner j) t.row (t.pc j)
  Step-Knows {s} (pick i {row} {p} mv) k j = elim (Bool-cases (nat_eq i j)) [
    | inl e ↦
        let q : i ≡ j = ground arith in
        rw e (subst (λ x. Knows (owner x) row p) q (Move-Knows mv (k i)))
    | inr e ↦ rw e (
        Knows-kept (s.pc j) (λ q. let r : i ≡ j = distinct i j q in ground arith) (Move-changes mv)
          (k j))
  ]

  Reach-Knows :
      {row : Row} {s : System} → Reach owner row s → (i : ℕ) → Knows (owner i) s.row (s.pc i)
  unfolding Knows
  Reach-Knows start i = tt
  Reach-Knows (later r st) i = Step-Knows st (Reach-Knows r) i

  -- At most one handler at a time sends the mail of a task and works on its row: in every state that
  -- handlers with worker ids of their own lead to, two that have the lock are the same.
  pub one_handler :
      {row : Row} {s : System}
      → Reach owner row s
      → (i j : ℕ) → IsWorking (s.pc i)
      → IsWorking (s.pc j)
      → i ≡ j
  one_handler {row} {s} r i j wi wj =
      let p = Knows-owner (owner i) s.row (s.pc i) wi (Reach-Knows r i) in
      let q = Knows-owner (owner j) s.row (s.pc j) wj (Reach-Knows r j) in
      let e : some (owner i) ≡ some (owner j) = sym p ∙ q in distinct i j (ground arith)

  -- The outcome of a mail that was sent is never refused by the table: in every state that handlers
  -- with worker ids of their own lead to, the handler whose mail server has answered, and whose
  -- outcome is valid, can store it and then release the lock.
  pub outcome_stored :
      {row : Row} {s : System}
      → Reach owner row s
      → (i now occ : ℕ) (t t' : EmailTask) (answer : Option String) → s.pc i ≡ answered t occ answer
      → outcome_of now t answer ≡ right t'
      → (update_email_task (owner i) occ t' s.row ≡ right (suc occ, write_task t' s.row))
        × (released : Row) × (release_lock (owner i) (suc occ) (write_task t' s.row)
            ≡ right released)
        × (released.locked_by ≡ none)
        × (released.task.status ≡ t'.status)
  unfolding Knows HasLock update_email_task release_lock
  outcome_stored {row} {s} r i now occ t t' answer e o =
      let k : HasLock (owner i) occ s.row = subst (Knows (owner i) s.row) e (Reach-Knows r i) in
      let own : is_owner s.row.locked_by (owner i) ≡ true =
        subst (λ o. is_owner o (owner i) ≡ true) (sym k.0) (is_owner_complete (owner i)) in
      let same : nat_eq s.row.task.occ occ ≡ true = ground (arith, k.1) in
      let next : nat_eq (suc s.row.task.occ) (suc occ) ≡ true = ground (arith, k.1) in
      let released : Row = record {
        task = record (write_task t' s.row).task { occ = suc (suc s.row.task.occ) };
        locked_by = none;
        locked_at = none;
      } in
      (rw (own, same) (rw k.1 refl), released, rw (own, next) refl, refl, refl)
