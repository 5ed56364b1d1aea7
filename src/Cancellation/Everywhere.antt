-- ===== src/Cancellation/Everywhere.antt =====
-- About `cancelWorkflows` on a table of workflows of several templates.
use approvio.Base.{
  ℕ, ◌≤◌, String, true, false, not, List, [], ◌∷◌, ◌≡◌, ◌≢◌, refl, arith, All, ap, map, keep,
  length, nat_eq, eq_iff, eq_refl, Bool-cases, inl, inr, if◌then◌else◌, ◌==◌,
}
use approvio.Base.Result.{Result, left, right, ◌>>=◌}
use approvio.Recalculation.Alone.{IsStored, as_read, read_workflow-IsStored}
use approvio.Recalculation.Interleaving.{cancel_update}
use approvio.Store.{
  WorkflowRow, apply_update, write_row, update_workflow_concurrent_safe, UpdateError,
  WorkflowUpdate,
}
use approvio.Store.Listing.{
  Templates, Versioned, matches_filters, matches_template, matches_groups, read_all, list_workflows,
}
use approvio.Workflow.{is_terminal}
use approvio.Cancellation.{
  written, active_filters, cancel_one, cancel_each, cancel_workflows, cancel_workflows_loop,
}

-- A row is canceled, unless it is in a terminal status.
abbrev pub cancel_active : (String → ℕ) → WorkflowRow → WorkflowRow
cancel_active clock r =
    if is_terminal r.workflow.status
    then r
    else apply_update (cancel_update (clock r.workflow.id)) r

abbrev as_versioned : WorkflowRow → Versioned
as_versioned r = record { workflow = as_read r; occ = r.occ }

abbrev active_rows : List WorkflowRow → List Versioned
active_rows [] = []
active_rows (r ∷ rows) =
    if is_terminal r.workflow.status then active_rows rows else as_versioned r ∷ active_rows rows

-- The ids of the rows differ, as those of a table do.
abbrev pub HasDistinctIds : List WorkflowRow → Type 0
HasDistinctIds [] = Unit
HasDistinctIds (r ∷ rows) = All (λ x. x.workflow.id ≢ r.workflow.id) rows × HasDistinctIds rows

-- The rows can be read, and the clock is read after they were created.
abbrev pub AreStored : (String → ℕ) → List WorkflowRow → Type 0
AreStored clock rows = All (λ r. IsStored r × (r.workflow.created_at ≤ clock r.workflow.id)) rows

module _ (templates : Templates) (clock : String → ℕ) (template_id : String) where
  matches_active :
      (r : WorkflowRow)
      → matches_filters templates (active_filters template_id) r
        ≡ not (is_terminal r.workflow.status)
  unfolding matches_filters active_filters matches_template matches_groups
  matches_active r = ground arith

  read_active :
      (rows : List WorkflowRow)
      → AreStored clock rows
      → read_all (keep (matches_filters templates (active_filters template_id)) rows)
        ≡ right (active_rows rows)
  unfolding read_all
  read_active [] s = refl
  read_active (r ∷ rows) (s, ss) = elim (Bool-cases (is_terminal r.workflow.status)) [
    | inl t ↦ rw (matches_active r, t) (read_active rows ss)
    | inr t ↦ rw (matches_active r, t, read_workflow-IsStored r s.0, read_active rows ss) refl
  ]

  skip :
      (id : String) (occ : ℕ) (u : WorkflowUpdate) (r : WorkflowRow) (rows : List WorkflowRow)
      → (r.workflow.id == id) ≡ false
      → update_workflow_concurrent_safe id occ u (r ∷ rows) ≡ (
          update_workflow_concurrent_safe id occ u rows >>= (λ found. right (found.0, r ∷ found.1)))
  unfolding update_workflow_concurrent_safe
  skip id occ u r rows e = rw e refl

  own :
      (u : WorkflowUpdate) (r : WorkflowRow) (rows : List WorkflowRow)
      → update_workflow_concurrent_safe r.workflow.id r.occ u (r ∷ rows)
        ≡ right (apply_update u r, apply_update u r ∷ rows)
  unfolding update_workflow_concurrent_safe write_row
  own u r rows = rw (eq_refl r.workflow.id) (rw (same r.occ) refl)
    where
      same : (n : ℕ) → nat_eq n n ≡ true
      same n = ground arith

  written-skip :
      (r : WorkflowRow) (rows : List WorkflowRow)
      (found : Result UpdateError (WorkflowRow × List WorkflowRow))
      → written (r ∷ rows) (found >>= (λ f. right (f.0, r ∷ f.1)))
        ≡ (r ∷ (written rows found).0, (written rows found).1)
  unfolding written
  written-skip r rows (left e) = refl
  written-skip r rows (right f) = refl

  cancel_one-skip :
      (v : Versioned) (r : WorkflowRow) (rows : List WorkflowRow)
      → v.workflow.id ≢ r.workflow.id
      → cancel_one clock v (r ∷ rows)
        ≡ (r ∷ (cancel_one clock v rows).0, (cancel_one clock v rows).1)
  unfolding cancel_one
  cancel_one-skip v r rows n = elim (Bool-cases (r.workflow.id == v.workflow.id)) [
    | inl e ↦ absurd (n (ground (arith, eq_iff r.workflow.id v.workflow.id)))
    | inr e ↦
        rw (skip v.workflow.id v.occ (cancel_update (clock v.workflow.id)) r rows e)
          (written-skip r rows _)
  ]

  cancel_each-skip :
      (vs : List Versioned) (r : WorkflowRow) (rows : List WorkflowRow)
      → All (λ v. v.workflow.id ≢ r.workflow.id) vs
      → cancel_each clock vs (r ∷ rows)
        ≡ (r ∷ (cancel_each clock vs rows).0, (cancel_each clock vs rows).1)
  unfolding cancel_each
  cancel_each-skip [] r rows h = refl
  cancel_each-skip (v ∷ vs) r rows (h, hs) =
      rw (cancel_one-skip v r rows h)
        (rw (cancel_each-skip vs r (cancel_one clock v rows).0 hs) refl)

  active_rows-distinct :
      (id : String) (rows : List WorkflowRow)
      → All (λ x. x.workflow.id ≢ id) rows
      → All (λ v. v.workflow.id ≢ id) (active_rows rows)
  active_rows-distinct id [] h = tt
  active_rows-distinct id (r ∷ rows) (h, hs) = elim (Bool-cases (is_terminal r.workflow.status)) [
    | inl t ↦ rw t (active_rows-distinct id rows hs)
    | inr t ↦ rw t (h, active_rows-distinct id rows hs)
  ]

  canceled-IsStored :
      (r : WorkflowRow)
      → IsStored r
      → r.workflow.created_at ≤ clock r.workflow.id
      → IsStored (apply_update (cancel_update (clock r.workflow.id)) r)
  unfolding apply_update cancel_update
  canceled-IsStored r s h = record {
    template = s.template;
    name = s.name;
    description = s.description;
    updated = h;
    expires = s.expires;
  }

  cancel_one-own :
      (r : WorkflowRow) (rows : List WorkflowRow)
      → IsStored r
      → r.workflow.created_at ≤ clock r.workflow.id
      → cancel_one clock (as_versioned r) (r ∷ rows)
        ≡ (apply_update (cancel_update (clock r.workflow.id)) r ∷ rows, right tt)
  unfolding cancel_one written
  cancel_one-own r rows s h =
      rw
        (
          own (cancel_update (clock r.workflow.id)) r rows,
          read_workflow-IsStored _ (canceled-IsStored r s h),
        )
        refl

  cancel_each-active :
      (rows : List WorkflowRow)
      → AreStored clock rows
      → HasDistinctIds rows
      → cancel_each clock (active_rows rows) rows ≡ (map (cancel_active clock) rows, right tt)
  unfolding cancel_each apply_update
  cancel_each-active [] s d = refl
  cancel_each-active (r ∷ rows) (s, ss) (d, ds) =
      elim (Bool-cases (is_terminal r.workflow.status)) [
        | inl t ↦ rw t (
            rw
              (
                cancel_each-skip (active_rows rows) r rows
                    (active_rows-distinct r.workflow.id rows d),
                cancel_each-active rows ss ds,
              )
              refl)
        | inr t ↦ rw t (
            rw (cancel_one-own r rows s.0 s.1) (
              rw
                (
                  cancel_each-skip (active_rows rows)
                      (apply_update (cancel_update (clock r.workflow.id)) r) rows
                      (active_rows-distinct r.workflow.id rows d),
                  cancel_each-active rows ss ds,
                )
                refl))
      ]

  -- Afterwards the query finds nothing.
  none_active :
      (rows : List WorkflowRow)
      → keep
          (matches_filters templates (active_filters template_id))
          (map (cancel_active clock) rows)
        ≡ []
  unfolding apply_update cancel_update is_terminal
  none_active [] = refl
  none_active (r ∷ rows) = elim (Bool-cases (is_terminal r.workflow.status)) [
    | inl t ↦ rw t (rw (matches_active r, t) (none_active rows))
    | inr t ↦ rw t (
        rw (matches_active (apply_update (cancel_update (clock r.workflow.id)) r))
          (none_active rows))
  ]

  list_before :
      (rows : List WorkflowRow)
      → AreStored clock rows
      → (n : ℕ) × (list_workflows templates (active_filters template_id) rows
          ≡ right (active_rows rows, n))
  unfolding list_workflows
  list_before rows s = (
    length (keep (matches_filters templates (active_filters template_id)) rows),
    rw (read_active rows s) refl,
  )

  list_after :
      (rows : List WorkflowRow)
      → list_workflows templates (active_filters template_id) (map (cancel_active clock) rows)
        ≡ right ([], 0)
  unfolding list_workflows read_all
  list_after rows = rw (none_active rows) refl

  cancel_workflows_everywhere :
      (rows : List WorkflowRow)
      → AreStored clock rows
      → HasDistinctIds rows
      → cancel_workflows templates clock template_id rows
        ≡ (map (cancel_active clock) rows, right 0)
  unfolding cancel_workflows
  cancel_workflows_everywhere rows s d =
      let (n, e) = list_before rows s in
      rw (cancel_workflows, e) (rw (cancel_each-active rows s d) (rw (list_after rows) refl))

  -- On a table that can be read, the cancellation of the workflows of one template, which the loop
  -- completes in its first pass, cancels every workflow that is not in a terminal status, of this
  -- and of every other template: the query does not look at `templateId`.
  pub cancel_workflows_loop_everywhere :
      (n : ℕ) (rows : List WorkflowRow)
      → AreStored clock rows
      → HasDistinctIds rows
      → cancel_workflows_loop templates clock template_id n rows
        ≡ (map (cancel_active clock) rows, right tt)
  unfolding cancel_workflows_loop
  cancel_workflows_loop_everywhere ℕ.zero rows s d = rw (cancel_workflows_everywhere rows s d) refl
  cancel_workflows_loop_everywhere (ℕ.suc n) rows s d =
      rw (cancel_workflows_loop, cancel_workflows_everywhere rows s d)
        (ap (λ pass. (pass.0, right tt)) (cancel_workflows_everywhere rows s d))
