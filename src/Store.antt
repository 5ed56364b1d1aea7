-- ===== src/Store.antt =====
-- external/src/database: the rows of a workflow and of its votes (workflow.repository.ts,
-- vote.repository.ts, shared.ts), and the statements that read and change them.
pub mod VoteRows
pub mod Listing
use approvio.Base.{
  ℕ, suc, String, Option, none, some, Bool, true, false, not, List, [], ◌∷◌, ◌++◌, keep, map, ltb,
  nat_eq, if◌then◌else◌, ◌==◌, ◌&&◌, includes,
}
use approvio.Base.Result.{Result, left, right, ◌>>=◌}
use approvio.Vote.{Vote}
use approvio.Workflow.{Status, Workflow, is_terminal}
use approvio.Workflow.Validation.{WorkflowError, validate, to_data}

-- A row of the table `workflows`: the workflow with the values as stored, and the number for the
-- optimistic concurrency control, counted from POSTGRES_BIGINT_LOWER_BOUND
pub record WorkflowRow : Type 0 where
  pub workflow : Workflow
  pub occ : ℕ

-- `mapWorkflowToNonVersionedDomain`
unfoldable pub read_workflow : WorkflowRow → Result WorkflowError Workflow
read_workflow r =
    validate
      (to_data r.workflow r.workflow.status r.workflow.recalculation_required r.workflow.updated_at)

-- `ConcurrentUnsafeWorkflowUpdateData`; a missing property leaves its column as it is
pub record WorkflowUpdate : Type 0 where
  pub status : Option Status
  pub recalculation_required : Option Bool
  pub updated_at : ℕ

abbrev pub or_keep {ℓ} : {A : Type ℓ} → Option A → A → A
or_keep none old = old
or_keep (some new) old = new

unfoldable pub apply_update : WorkflowUpdate → WorkflowRow → WorkflowRow
apply_update u r = record r {
  workflow = record r.workflow {
    status = or_keep u.status r.workflow.status;
    recalculation_required = or_keep u.recalculation_required r.workflow.recalculation_required;
    updated_at = u.updated_at;
  };
}

-- `WorkflowUpdateError`, as far as the tables themselves cause it
pub data UpdateError : Type 0 where
  concurrency_error : UpdateError

-- `updateWorkflowTask` on the row with the id: `where: {id, occ: occCheck}`
unfoldable pub write_row : ℕ → WorkflowUpdate → WorkflowRow → Result UpdateError WorkflowRow
write_row occ u r = if nat_eq r.occ occ then right (apply_update u r) else left concurrency_error

-- `updateWorkflowConcurrentSafe` on the whole table, before the row is mapped to the domain: the row
-- as it is stored, and the table. The id is the primary key.
unfoldable pub update_workflow_concurrent_safe :
    String
    → ℕ
    → WorkflowUpdate
    → List WorkflowRow
    → Result UpdateError (WorkflowRow × List WorkflowRow)
unfolding write_row
update_workflow_concurrent_safe id occ u [] = left concurrency_error
update_workflow_concurrent_safe id occ u (r ∷ rows) =
    let rest = update_workflow_concurrent_safe id occ u rows in
    if r.workflow.id == id
    then write_row occ u r >>= (λ r'. right (r', r' ∷ rows))
    else rest >>= (λ found. right (found.0, r ∷ found.1))

-- A workflow and its votes
pub record Db : Type 0 where
  pub row : WorkflowRow
  pub votes : List Vote

-- The transaction of `persistVoteAndMarkWorkflowRecalculation`, of a vote as the table holds it
unfoldable pub persist_vote : Vote → Db → Db
persist_vote v db = record {
  row = record {
    workflow = record db.row.workflow { recalculation_required = true };
    occ = suc db.row.occ;
  };
  votes = db.votes ++ v ∷ [];
}

-- What `markWorkflowsAsRecalculationRequired` does to a row
unfoldable pub mark_row : WorkflowRow → WorkflowRow
mark_row r = record r { workflow = record r.workflow { recalculation_required = true } }

-- `markWorkflowsAsRecalculationRequired`: `where: {id: {in: ids}}`
unfoldable pub mark_workflows : List String → List WorkflowRow → List WorkflowRow
unfolding mark_row
mark_workflows ids rows = map (λ r. if includes r.workflow.id ids then mark_row r else r) rows

-- The condition of `findExpiredWorkflows`
unfoldable pub is_sweepable : ℕ → WorkflowRow → Bool
unfolding is_terminal
is_sweepable now r =
    not (is_terminal r.workflow.status)
    && ltb r.workflow.expires_at now
    && not r.workflow.recalculation_required

-- the first `limit` items
abbrev pub take {ℓ} : {A : Type ℓ} → ℕ → List A → List A
take n [] = []
take ℕ.zero (x ∷ xs) = []
take (suc n) (x ∷ xs) = x ∷ take n xs

-- `findExpiredWorkflows(now, limit)`
unfoldable pub find_expired_workflows : ℕ → ℕ → List WorkflowRow → List String
unfolding is_sweepable
find_expired_workflows now limit rows =
    take limit (map (λ r. r.workflow.id) (keep (is_sweepable now) rows))
