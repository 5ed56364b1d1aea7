-- ===== src/Recalculation/Liveness.antt =====
-- About what a worker can always reach.
use mathlib.Core.Path.{subst}
use approvio.Base.{ℕ, ◌≤◌, false, ◌≡◌, refl, arith, sym}
use approvio.Rule.{Rule}
use approvio.Workflow.{Workflow}
use approvio.Workflow.Evaluation.Outcome.{Decides}
use approvio.Store.{Db}
use approvio.Recalculation.Alone.{IsStored, as_read, settled_db, recalculate_alone}
use approvio.Recalculation.Refines.{Runs, done, then_do, recalculate_workflow_status-Runs}
use approvio.Recalculation.Interleaving.{Pc, idle, Move, System, set_pc, pick, Reach, later}

set_pc-same : (pc : ℕ → Pc) (i : ℕ) (p : Pc) → set_pc pc i p i ≡ p
set_pc-same pc i p = ground arith

module _ {rule : Rule} {w : Workflow} (i : ℕ) where
  -- The steps of one caller are steps of the system.
  Runs-Reach :
      {db db' : Db} {p p' : Pc}
      → Runs rule db p db' p'
      → (pc : ℕ → Pc) → pc i ≡ p
      → Reach rule w (record { db = db; pc = pc })
      → (pc' : ℕ → Pc) × (pc' i ≡ p') × Reach rule w (record { db = db'; pc = pc' })
  Runs-Reach done pc e r = (pc, e, r)
  Runs-Reach {db} (then_do {db' = next} {p' = q} mv runs) pc e r =
      Runs-Reach runs (set_pc pc i q) (set_pc-same pc i q)
        (later r (pick i (subst (λ x. Move rule db x next q) (sym e) mv)))

  -- From every reachable state a free worker can settle the workflow: where it stands outside, and
  -- the row is as the validation wants it, a state is reachable with the same votes in which the
  -- row is not marked and has the status that these votes and the clock call for.
  pub can_settle :
      (now updated : ℕ) (s : System)
      → Reach rule w s
      → s.pc i ≡ idle
      → IsStored s.db.row
      → s.db.row.workflow.created_at ≤ updated
      → (t : System) × Reach rule w t
        × (t.db.votes ≡ s.db.votes)
        × (t.db.row.workflow.recalculation_required ≡ false)
        × Decides now rule (as_read s.db.row) s.db.votes t.db.row.workflow.status
  can_settle now updated s r free stored u =
      let (status, d, e) = recalculate_alone now updated s.db stored u rule in
      let (runs, _) = (recalculate_workflow_status-Runs now updated rule s.db _).0 (_, e) in
      let (pc', _, r') = Runs-Reach runs s.pc free r in
      (record { db = settled_db s.db status updated; pc = pc' }, r', refl, refl, d)
