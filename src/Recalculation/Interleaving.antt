-- ===== src/Recalculation/Interleaving.antt =====
-- The tables of external/src/database under concurrent requests and workers, for one workflow: who
-- votes, cancels, sweeps or recalculates does so in steps, of which each reads or changes the tables
-- once, in any order.
pub mod Knowledge
pub mod Safety
use approvio.Base.{ℕ, none, some, true, false, List, [], ◌≡◌, nat_eq, if◌then◌else◌}
use approvio.Base.Result.{left, right}
use approvio.Rule.{Rule}
use approvio.Vote.{Vote}
use approvio.Workflow.{canceled, evaluation_in_progress, Workflow}
use approvio.Workflow.Evaluation.{evaluate_workflow_status}
use approvio.Store.{
  WorkflowRow, read_workflow, WorkflowUpdate, write_row, Db, persist_vote, mark_row,
}
use approvio.Recalculation.{update_of}

-- Where a caller stands: outside; a worker after `getWorkflow` and after `getVotes`; a cancellation
-- (`cancelWorkflows`) after it has listed the workflow.
pub data Pc : Type 0 where
  idle : Pc
  loaded : (w : Workflow) (occ : ℕ) → Pc
  ready : (w : Workflow) (occ : ℕ) (votes : List Vote) → Pc
  listed : (occ : ℕ) → Pc

-- What `cancelWorkflows` writes, at the instant `now`
unfoldable pub cancel_update : ℕ → WorkflowUpdate
cancel_update now = record {
  status = some canceled;
  recalculation_required = none;
  updated_at = now;
}

-- One access to the tables. A call that fails, or that loses the optimistic check, gives up.
pub data Move (rule : Rule) (db : Db) : Pc → Db → Pc → Type 0 where
  vote : (v : Vote) → Move rule db idle (persist_vote v db) idle
  mark : Move rule db idle (record db { row = mark_row db.row }) idle
  load :
      {w : Workflow} → read_workflow db.row ≡ right w → Move rule db idle db (loaded w db.row.occ)
  read_votes : {w : Workflow} {occ : ℕ} → Move rule db (loaded w occ) db (ready w occ db.votes)
  write_status :
      (now updated : ℕ) (w' : Workflow) {w : Workflow} {occ : ℕ} {votes : List Vote}
      {row : WorkflowRow}
      → evaluate_workflow_status now updated rule w votes ≡ right w'
      → write_row occ (update_of w') db.row ≡ right row
      → Move rule db (ready w occ votes) (record db { row = row }) idle
  list : Move rule db idle db (listed db.row.occ)
  cancel :
      (now : ℕ) {occ : ℕ} {row : WorkflowRow}
      → write_row occ (cancel_update now) db.row ≡ right row
      → Move rule db (listed occ) (record db { row = row }) idle
  give_up : {p : Pc} → Move rule db p db idle

-- The tables, and where each caller stands
pub record System : Type 0 where
  pub db : Db
  pub pc : ℕ → Pc

abbrev pub set_pc : (ℕ → Pc) → ℕ → Pc → ℕ → Pc
set_pc pc i p j = if nat_eq i j then p else pc j

pub data Step (rule : Rule) (s : System) : System → Type 0 where
  pick :
      (i : ℕ) {db : Db} {p : Pc}
      → Move rule s.db (s.pc i) db p
      → Step rule s (record { db = db; pc = set_pc s.pc i p })

-- The tables after `createWorkflow` of a workflow, before any vote
abbrev pub created : Workflow → Db
created w = record { row = record { workflow = w; occ = 0 }; votes = [] }

-- The states that the steps lead to from a new workflow
pub data Reach (rule : Rule) (w : Workflow) : System → Type 0 where
  start : Reach rule w (record { db = created w; pc = λ _. idle })
  later : {s t : System} → Reach rule w s → Step rule s t → Reach rule w t
