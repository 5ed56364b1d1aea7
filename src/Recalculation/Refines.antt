-- ===== src/Recalculation/Refines.antt =====
-- About the service function as a sequence of the steps of a caller.
use approvio.Base.{ℕ, Option, List, [], ◌∷◌, ◌≡◌, ◌↔◌, refl, arith}
use mathlib.Core.Path.{subst}
use approvio.Base.Result.{Result, right, >>=-eq-right, map_left}
use approvio.Rule.{Rule}
use approvio.Workflow.Evaluation.{evaluate_workflow_status}
use approvio.Store.{read_workflow, write_row, Db}
use approvio.Recalculation.{
  invalid_workflow, update_failed, update_of, event_of, StatusChanged, recalculate_workflow_status,
}
use approvio.Recalculation.Interleaving.{
  Pc, idle, Move, load, read_votes, write_status, vote, mark, list, give_up,
}

-- The steps of one caller, taken in a row.
pub data Runs (rule : Rule) : Db → Pc → Db → Pc → Type 0 where
  done : {db : Db} {p : Pc} → Runs rule db p db p
  then_do :
      {db db' db'' : Db} {p p' p'' : Pc}
      → Move rule db p db' p'
      → Runs rule db' p' db'' p''
      → Runs rule db p db'' p''

-- What a step does to the tables
pub data Access : Type 0 where
  loads reads_votes other : Access
  writes : (now updated : ℕ) → Access

unfoldable pub access_of : {rule : Rule} {db db' : Db} {p p' : Pc} → Move rule db p db' p' → Access
access_of (load e) = loads
access_of read_votes = reads_votes
access_of (write_status now updated w' e h) = writes now updated
access_of _ = other

unfoldable pub accesses :
    {rule : Rule} {db db' : Db} {p p' : Pc} → Runs rule db p db' p' → List Access
unfolding access_of
accesses done = []
accesses (then_do m run) = access_of m ∷ accesses run

map_left-right :
    {E F A : Type 0} (f : E → F) (m : Result E A) (a : A) → map_left f m ≡ right a → m ≡ right a
map_left-right f (Result.left e) a h = cc
map_left-right f (right b) a h = cc

to_run :
    (now updated : ℕ) (rule : Rule) (db db' : Db) (event : Option StatusChanged)
    → recalculate_workflow_status now updated rule db ≡ right (db', event)
    → (run : Runs rule db idle db' idle) × (accesses run
        ≡ loads ∷ reads_votes ∷ writes now updated ∷ [])
unfolding recalculate_workflow_status accesses
to_run now updated rule db db' event h =
    let (w, e0, h0) = >>=-eq-right (map_left invalid_workflow (read_workflow db.row)) _ h in
    let (w', e1, h1) =
      >>=-eq-right
        (map_left invalid_workflow (evaluate_workflow_status now updated rule w db.votes)) _ h0 in
    let (row, e2, h2) =
      >>=-eq-right (map_left update_failed (write_row db.row.occ (update_of w') db.row)) _ h1 in
    let q : ◌≡◌ {A = Db} (record db { row = row }) db' = cc in
    subst
      (λ x.
        (run : Runs rule db idle x idle) × (accesses run
          ≡ loads ∷ reads_votes ∷ writes now updated ∷ []))
      q
      (
        then_do (load (map_left-right invalid_workflow _ w e0)) (
            then_do read_votes (
              then_do
                (write_status now updated w' (map_left-right invalid_workflow _ w' e1)
                  (map_left-right update_failed _ row e2))
                done)),
        refl,
      )

from_run :
    (now updated : ℕ) (rule : Rule) (db db' : Db) (run : Runs rule db idle db' idle)
    → accesses run ≡ loads ∷ reads_votes ∷ writes now updated ∷ []
    → (event : Option StatusChanged) × (recalculate_workflow_status now updated rule db
        ≡ right (db', event))
unfolding recalculate_workflow_status accesses
from_run now updated rule db db' done h = cc
from_run now updated rule db db' (then_do (vote v) run) h = cc
from_run now updated rule db db' (then_do mark run) h = cc
from_run now updated rule db db' (then_do list run) h = cc
from_run now updated rule db db' (then_do give_up run) h = cc
from_run now updated rule db db' (then_do (load e) (then_do give_up run)) h = cc
from_run now updated rule db db' (then_do (load e) (then_do read_votes (then_do give_up run))) h =
    cc
from_run now updated rule db db'
      (then_do
        (load {w} e)
        (then_do read_votes (then_do (write_status n u w' {row = row} f g) done)))
      h =
    let same_now : n ≡ now = ground arith in
    let same_updated : u ≡ updated = ground arith in
    (
      event_of w.status w'.status,
      rw
          (
            e,
            subst (λ x. evaluate_workflow_status x updated rule w db.votes ≡ right w') same_now
                (subst (λ x. evaluate_workflow_status n x rule w db.votes ≡ right w') same_updated
                  f),
            g,
          )
          refl,
    )
from_run now updated rule db db'
      (then_do (load e) (then_do read_votes (then_do (write_status n u w' f g) (then_do m run))))
      h =
    cc

-- A recalculation that nobody disturbs, with a template that has the rule, succeeds and leaves the
-- tables in a state exactly if three steps of a caller in a row lead there: it loads the workflow,
-- then reads the votes, and then writes the status that the evaluation at the instant `now` gives for
-- what it has read, under the check of the number that it has loaded. Each of these steps is one that
-- a caller takes also among others.
pub recalculate_workflow_status-Runs :
    (now updated : ℕ) (rule : Rule) (db db' : Db)
    → ((event : Option StatusChanged) × (recalculate_workflow_status now updated rule db
          ≡ right (db', event)))
      ↔ ((run : Runs rule db idle db' idle) × (accesses run
            ≡ loads ∷ reads_votes ∷ writes now updated ∷ []))
recalculate_workflow_status-Runs now updated rule db db' = (
  (λ (event, h). to_run now updated rule db db' event h),
  λ (run, h). from_run now updated rule db db' run h,
)
