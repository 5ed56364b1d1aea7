-- ===== src/Recalculation/Interleaving/Knowledge.antt =====
-- About what a caller in the middle of a recalculation knows of the tables.
use mathlib.Core.Path.{subst}
use approvio.Base.{ℕ, ◌≤◌, ◌<◌, true, false, ◌≡◌, refl, arith, ◌⊎◌, inl, inr, Bool-cases, sym, ◌∙◌}
use approvio.Base.Result.{right}
use approvio.Rule.{Rule}
use approvio.Workflow.{Workflow, is_terminal}
use approvio.Workflow.Validation.{validate, validate_status-status_value}
use approvio.Workflow.Evaluation.{evaluate_workflow_status}
use approvio.Store.{
  WorkflowRow, read_workflow, WorkflowUpdate, apply_update, write_row, Db, persist_vote, mark_row,
}
use approvio.Recalculation.{update_of}
use approvio.Recalculation.Settled.{Settled, called_off, decided, evaluate_workflow_status-terminal}
use approvio.Recalculation.Interleaving.{
  Pc, idle, loaded, ready, listed, cancel_update, Move, vote, mark, load, read_votes, write_status,
  list, cancel, give_up,
}

module _ (rule : Rule) (expires_at : ℕ) where
  -- Of a workflow that was read with the number `occ`.
  pub record Snapshot (db : Db) (w : Workflow) (occ : ℕ) : Type 0 where
    pub before : occ ≤ db.row.occ
    pub end : w.expires_at ≡ expires_at
    pub terminal :
        is_terminal w.status ≡ true → occ ≡ db.row.occ → Settled rule expires_at db.votes w.status

  -- What a caller knows, where it stands.
  abbrev pub Knows : Db → Pc → Type 0
  Knows db (loaded w occ) = Snapshot db w occ
  Knows db (ready w occ votes) = Snapshot db w occ × (occ ≡ db.row.occ → votes ≡ db.votes)
  Knows db _ = Unit

  -- The tables later: either no vote has come, or the number has grown.
  abbrev pub Advances : Db → Db → Type 0
  Advances db db' =
      ((db'.row.occ ≡ db.row.occ) × (db'.votes ≡ db.votes)) ⊎ (db.row.occ < db'.row.occ)

  Snapshot-Advances :
      (db db' : Db) (w : Workflow) (occ : ℕ)
      → Advances db db'
      → Snapshot db w occ
      → Snapshot db' w occ
  Snapshot-Advances db db' w occ (inl (o, v)) k = record {
    before = omega (arith, k.before);
    end = k.end;
    terminal = λ t e. rw v (k.terminal t (omega arith));
  }
  Snapshot-Advances db db' w occ (inr lt) k = record {
    before = omega (arith, k.before);
    end = k.end;
    terminal = λ t e. absurd (omega (arith, k.before));
  }

  -- What a caller knows is not lost when others act.
  pub Knows-Advances : (db db' : Db) (p : Pc) → Advances db db' → Knows db p → Knows db' p
  Knows-Advances db db' idle a k = tt
  Knows-Advances db db' (listed occ) a k = tt
  Knows-Advances db db' (loaded w occ) a k = Snapshot-Advances db db' w occ a k
  Knows-Advances db db' (ready w occ votes) (inl (o, v)) (k, same) =
      (Snapshot-Advances db db' w occ (inl (o, v)) k, λ e. rw v (same (omega arith)))
  Knows-Advances db db' (ready w occ votes) (inr lt) (k, same) =
      (Snapshot-Advances db db' w occ (inr lt) k, λ e. absurd (omega (arith, k.before)))

  -- What holds of the tables alone: the end stays, and an unmarked status is settled.
  pub record Sound (db : Db) : Type 0 where
    pub end : db.row.workflow.expires_at ≡ expires_at
    pub settled :
        db.row.workflow.recalculation_required ≡ false
        → Settled rule expires_at db.votes db.row.workflow.status

  write_row-cases :
      (occ : ℕ) (u : WorkflowUpdate) (r r' : WorkflowRow)
      → write_row occ u r ≡ right r'
      → (r.occ ≡ occ) × (apply_update u r ≡ r')
  unfolding write_row
  write_row-cases occ u r r' h = ground arith

  -- A workflow is read with the end of its row; marked, it is read as open; else as it is stored.
  read_workflow-cases :
      (r : WorkflowRow) (w : Workflow)
      → read_workflow r ≡ right w
      → (w.expires_at ≡ r.workflow.expires_at)
        × (is_terminal w.status ≡ true
            → (r.workflow.recalculation_required ≡ false) × (w.status ≡ r.workflow.status))
  unfolding read_workflow validate is_terminal
  read_workflow-cases r w h = ground (arith, validate_status-status_value r.workflow.status)

  Sound-load :
      (db : Db) (w : Workflow)
      → Sound db
      → read_workflow db.row ≡ right w
      → Snapshot db w db.row.occ
  Sound-load db w s h =
      let (e, t) = read_workflow-cases db.row w h in
      record {
        before = omega arith;
        end = e ∙ s.end;
        terminal = λ q _. let (f, same) = t q in rw same (s.settled f);
      }

  -- What the worker writes is settled, if no vote came since it read the workflow.
  Settled-evaluated :
      (now updated : ℕ) (db : Db) (w w' : Workflow)
      → Snapshot db w db.row.occ
      → evaluate_workflow_status now updated rule w db.votes ≡ right w'
      → Settled rule expires_at db.votes w'.status
  Settled-evaluated now updated db w w' k e = elim (Bool-cases (is_terminal w.status)) [
    | inl t ↦
        rw (evaluate_workflow_status-terminal now updated rule w w' db.votes t e)
          (k.terminal t refl)
    | inr t ↦ decided now updated w w' t k.end e refl
  ]

  pub Move-Advances : {db db' : Db} {p p' : Pc} → Move rule db p db' p' → Advances db db'
  unfolding persist_vote mark_row apply_update
  Move-Advances (vote v) = inr (omega arith)
  Move-Advances mark = inl (refl, refl)
  Move-Advances (load h) = inl (refl, refl)
  Move-Advances read_votes = inl (refl, refl)
  Move-Advances {db} (write_status now updated w' {occ} {row} e h) =
      let (o, q) = write_row-cases occ (update_of w') db.row row h in inl (rw (sym q) refl, refl)
  Move-Advances list = inl (refl, refl)
  Move-Advances {db} (cancel now {occ} {row} h) =
      let (o, q) = write_row-cases occ (cancel_update now) db.row row h in
      inl (rw (sym q) refl, refl)
  Move-Advances give_up = inl (refl, refl)

  pub Move-Sound :
      {db db' : Db} {p p' : Pc} → Move rule db p db' p' → Sound db → Knows db p → Sound db'
  unfolding persist_vote mark_row apply_update update_of cancel_update
  Move-Sound (vote v) s k = record { end = s.end; settled = λ f. cc }
  Move-Sound mark s k = record { end = s.end; settled = λ f. cc }
  Move-Sound (load h) s k = s
  Move-Sound read_votes s k = s
  Move-Sound {db} (write_status now updated w' {w} {occ} {votes} {row} e h) s (k, same) =
      let (o, q) = write_row-cases occ (update_of w') db.row row h in
      let e' : evaluate_workflow_status now updated rule w db.votes ≡ right w' =
        rw (same (sym o)) at e in
      let k' : Snapshot db w db.row.occ = subst (λ x. Snapshot db w x) (sym o) k in
      let done : Settled rule expires_at db.votes w'.status =
        Settled-evaluated now updated db w w' k' e' in
      rw (sym q) (record { end = s.end; settled = λ f. done })
  Move-Sound list s k = s
  Move-Sound {db} (cancel now {occ} {row} h) s k =
      let (o, q) = write_row-cases occ (cancel_update now) db.row row h in
      rw (sym q) (record { end = s.end; settled = λ f. called_off refl })
  Move-Sound give_up s k = s

  pub Move-Knows :
      {db db' : Db} {p p' : Pc} → Move rule db p db' p' → Sound db → Knows db p → Knows db' p'
  Move-Knows (vote v) s k = tt
  Move-Knows mark s k = tt
  Move-Knows {db} (load {w} h) s k = Sound-load db w s h
  Move-Knows read_votes s k = (k, λ _. refl)
  Move-Knows (write_status now updated w' e h) s k = tt
  Move-Knows list s k = tt
  Move-Knows (cancel now h) s k = tt
  Move-Knows give_up s k = tt
