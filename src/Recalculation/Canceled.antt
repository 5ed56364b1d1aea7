-- ===== src/Recalculation/Canceled.antt =====
-- About a cancellation of a workflow that is marked for recalculation.
use approvio.Base.{ℕ, ◌≤◌, List, true, ◌≡◌, refl, arith}
use approvio.Rule.{Rule}
use approvio.Vote.{Vote}
use approvio.Workflow.{Status, Workflow}
use approvio.Workflow.Evaluation.Outcome.{
  Decides, stays, times_out, approves, rejects, waits, Decides_unique,
}
use approvio.Store.{apply_update, Db}
use approvio.Recalculation.{recalculate_workflow_status}
use approvio.Recalculation.Interleaving.{cancel_update}
use approvio.Recalculation.Alone.{IsStored, as_read, recalculate_alone}

-- What is called for depends on the status and the end only.
Decides_same :
    (now : ℕ) (rule : Rule) (w w' : Workflow) (votes : List Vote) (s : Status)
    → w.status ≡ w'.status
    → w.expires_at ≡ w'.expires_at
    → Decides now rule w votes s
    → Decides now rule w' votes s
Decides_same now rule w w' votes s e f (stays t q) = stays (cc) (cc)
Decides_same now rule w w' votes s e f (times_out t l q) = times_out (cc) (omega arith) q
Decides_same now rule w w' votes s e f (approves t l r q) = approves (cc) (omega arith) r q
Decides_same now rule w w' votes s e f (rejects t l n v q) = rejects (cc) (omega arith) n v q
Decides_same now rule w w' votes s e f (waits t l n v q) = waits (cc) (omega arith) n v q

-- The tables after a cancellation at the instant `at` that wins the optimistic check
unfoldable pub canceled_db : ℕ → Db → Db
unfolding cancel_update apply_update
canceled_db at db = record db { row = apply_update (cancel_update at) db.row }

-- A cancellation of a workflow that is marked for recalculation has no effect: the recalculation
-- that follows ends exactly as it would have without the cancellation, in the tables and in what
-- it announces. It holds for stored rows, and instants not before the workflow's creation.
pub recalculate_workflow_status-canceled_db :
    (now at updated : ℕ) (rule : Rule) (db : Db)
    → IsStored db.row
    → db.row.workflow.created_at ≤ at
    → db.row.workflow.created_at ≤ updated
    → db.row.workflow.recalculation_required ≡ true
    → recalculate_workflow_status now updated rule (canceled_db at db)
      ≡ recalculate_workflow_status now updated rule db
unfolding canceled_db cancel_update apply_update
recalculate_workflow_status-canceled_db now at updated rule db stored a u marked =
    let (s, d, e) = recalculate_alone now updated db stored u rule in
    let (s', d', e') = recalculate_alone now updated (canceled_db at db) stored' u rule in
    let same : s' ≡ s =
      Decides_unique now rule (as_read db.row) db.votes s' s
        (Decides_same now rule (as_read (canceled_db at db).row) (as_read db.row) db.votes s'
          (rw marked refl) refl d')
        d in
    rw (e, e', same, marked) refl
  where
    stored' : IsStored (canceled_db at db).row
    stored' = record {
      template = stored.template;
      name = stored.name;
      description = stored.description;
      updated = a;
      expires = stored.expires;
    }
