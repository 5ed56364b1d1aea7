-- ===== src/Workflow/Evaluation/Outcome.antt =====
-- About `evaluateWorkflowStatus` of domain/src/workflows.ts as a whole.
use approvio.Base.{ℕ, ◌≤◌, ◌<◌, true, false, List, [], ◌≡◌, refl, arith, inl, inr, ltb, Bool-cases}
use approvio.Base.Result.{right}
use approvio.Rule.{Rule}
use approvio.Vote.{Vote}
use approvio.Workflow.{
  Status, approved, expired, rejected, evaluation_in_progress, Workflow, is_terminal,
}
use approvio.Workflow.Validation.{IsValid, validate-to_data}
use approvio.Workflow.Timeline.{sort_votes}
use approvio.Workflow.Tally.{empty_tally}
use approvio.Workflow.Tally.Represents.{empty_tally-Represents}
use approvio.Workflow.Evaluation.{
  Played, halted, ended, play, change_status, evaluate_workflow_status,
}
use approvio.Workflow.Evaluation.Moments.{HasVeto, ReachesApproval, history}
use approvio.Workflow.Evaluation.Play.{Plays, play-Plays}

-- The workflow as an evaluation leaves it.
abbrev pub evaluated : Workflow → Status → ℕ → Workflow
evaluated w s updated = record w {
  status = s;
  recalculation_required = false;
  updated_at = updated;
}

-- The status that the votes and the clock call for.
pub data Decides (now : ℕ) (rule : Rule) (w : Workflow) (votes : List Vote) (s : Status)
    : Type 0 where
  stays : is_terminal w.status ≡ true → s ≡ w.status → Decides now rule w votes s
  times_out :
      is_terminal w.status ≡ false → w.expires_at < now → s ≡ expired → Decides now rule w votes s
  approves :
      is_terminal w.status ≡ false
      → now ≤ w.expires_at
      → ReachesApproval rule [] (sort_votes votes)
      → s ≡ approved
      → Decides now rule w votes s
  rejects :
      is_terminal w.status ≡ false
      → now ≤ w.expires_at
      → ¬ ReachesApproval rule [] (sort_votes votes)
      → HasVeto (history [] (sort_votes votes))
      → s ≡ rejected
      → Decides now rule w votes s
  waits :
      is_terminal w.status ≡ false
      → now ≤ w.expires_at
      → ¬ ReachesApproval rule [] (sort_votes votes)
      → ¬ HasVeto (history [] (sort_votes votes))
      → s ≡ evaluation_in_progress
      → Decides now rule w votes s

module _ (now : ℕ) (rule : Rule) (w : Workflow) (votes : List Vote) where
  -- Only one status is called for.
  pub Decides_unique :
      (s s' : Status) → Decides now rule w votes s → Decides now rule w votes s' → s ≡ s'
  Decides_unique s s' (stays t e) (stays u f) = cc
  Decides_unique s s' (stays t e) (times_out u l f) = cc
  Decides_unique s s' (stays t e) (approves u l r f) = cc
  Decides_unique s s' (stays t e) (rejects u l r v f) = cc
  Decides_unique s s' (stays t e) (waits u l r v f) = cc
  Decides_unique s s' (times_out t k e) (stays u f) = cc
  Decides_unique s s' (times_out t k e) (times_out u l f) = cc
  Decides_unique s s' (times_out t k e) (approves u l r f) = absurd (omega arith)
  Decides_unique s s' (times_out t k e) (rejects u l r v f) = absurd (omega arith)
  Decides_unique s s' (times_out t k e) (waits u l r v f) = absurd (omega arith)
  Decides_unique s s' (approves t k q e) (stays u f) = cc
  Decides_unique s s' (approves t k q e) (times_out u l f) = absurd (omega arith)
  Decides_unique s s' (approves t k q e) (approves u l r f) = cc
  Decides_unique s s' (approves t k q e) (rejects u l r v f) = absurd (r q)
  Decides_unique s s' (approves t k q e) (waits u l r v f) = absurd (r q)
  Decides_unique s s' (rejects t k q d e) (stays u f) = cc
  Decides_unique s s' (rejects t k q d e) (times_out u l f) = absurd (omega arith)
  Decides_unique s s' (rejects t k q d e) (approves u l r f) = absurd (q r)
  Decides_unique s s' (rejects t k q d e) (rejects u l r v f) = cc
  Decides_unique s s' (rejects t k q d e) (waits u l r v f) = absurd (v d)
  Decides_unique s s' (waits t k q d e) (stays u f) = cc
  Decides_unique s s' (waits t k q d e) (times_out u l f) = absurd (omega arith)
  Decides_unique s s' (waits t k q d e) (approves u l r f) = absurd (q r)
  Decides_unique s s' (waits t k q d e) (rejects u l r v f) = absurd (d v)
  Decides_unique s s' (waits t k q d e) (waits u l r v f) = cc

  module _ (updated : ℕ) (valid : IsValid w) (later : w.created_at ≤ updated) where
    change_status-eq : (s : Status) → change_status w s updated ≡ right (evaluated w s updated)
    unfolding change_status
    change_status-eq s = validate-to_data w s updated valid later

    -- What the loop and the fallback give, when the workflow is open and has not expired.
    open_outcome :
        is_terminal w.status ≡ false
        → ltb w.expires_at now ≡ false
        → (p : Played) → Plays rule [] (sort_votes votes) p
        → play rule (sort_votes votes) empty_tally evaluation_in_progress ≡ p
        → (s : Status) × Decides now rule w votes s
          × (evaluate_workflow_status now updated rule w votes ≡ right (evaluated w s updated))
    unfolding evaluate_workflow_status
    open_outcome t e halted r q =
        (approved, approves t (ground arith) r refl, rw (t, e, q) (change_status-eq approved))
    open_outcome t e (ended s) (n, inl (x, v)) q =
        (rejected, rejects t (ground arith) n v refl, rw (t, e, q, x) (change_status-eq rejected))
    open_outcome t e (ended s) (n, inr (x, v)) q = (
      evaluation_in_progress,
      waits t (ground arith) n v refl,
      rw (t, e, q, x) (rw e (change_status-eq evaluation_in_progress)),
    )

    outcome :
        (s : Status) × Decides now rule w votes s
        × (evaluate_workflow_status now updated rule w votes ≡ right (evaluated w s updated))
    unfolding evaluate_workflow_status
    outcome = elim (Bool-cases (is_terminal w.status)) [
      | inl t ↦ (w.status, stays t refl, rw t (change_status-eq w.status))
      | inr t ↦ elim (Bool-cases (ltb w.expires_at now)) [
        | inl e ↦ (expired, times_out t (ground arith) refl, rw (t, e) (change_status-eq expired))
        | inr e ↦
            open_outcome t e _
              (play-Plays rule (sort_votes votes) [] empty_tally evaluation_in_progress
                empty_tally-Represents (inr (refl, λ v. nobody v)))
              refl
      ]
    ]
      where
        nobody : HasVeto [] → ⊥
        nobody (k, v) = cc

    -- Of a valid workflow that was created before the clock is read, the evaluation returns no
    -- error but the workflow with a status that its votes and the clock call for, no longer
    -- marked for recalculation; and they call for no other status.
    pub evaluate_workflow_status_outcome :
        (s : Status) × Decides now rule w votes s
        × (evaluate_workflow_status now updated rule w votes ≡ right (evaluated w s updated))
        × ((s' : Status) → Decides now rule w votes s' → s' ≡ s)
    evaluate_workflow_status_outcome =
        let (s, d, e) = outcome in (s, d, e, λ s' d'. Decides_unique s' s d' d)

    -- So the result tells what was called for.
    pub Decides_of_result :
        (s : Status)
        → evaluate_workflow_status now updated rule w votes ≡ right (evaluated w s updated)
        → Decides now rule w votes s
    Decides_of_result s f = let (s', d, e) = outcome in let q : s' ≡ s = cc in rw q at d

    pub result_of_Decides :
        (s : Status)
        → Decides now rule w votes s
        → evaluate_workflow_status now updated rule w votes ≡ right (evaluated w s updated)
    result_of_Decides s d' = let (s', d, e) = outcome in rw (Decides_unique s s' d' d) e
