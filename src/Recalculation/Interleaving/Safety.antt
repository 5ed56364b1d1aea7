-- ===== src/Recalculation/Interleaving/Safety.antt =====
-- About all interleavings of votes, cancellations, sweeps and workers.
use approvio.Base.{ℕ, false, ◌≡◌, refl, nat_eq, Bool-cases, inl, inr}
use approvio.Rule.{Rule}
use approvio.Workflow.{Workflow, evaluation_in_progress}
use approvio.Recalculation.Settled.{Settled, unvoted}
use approvio.Recalculation.Interleaving.{System, Step, pick, Reach, start, later}
use approvio.Recalculation.Interleaving.Knowledge.{
  Knows, Knows-Advances, Sound, Move-Advances, Move-Sound, Move-Knows,
}

-- The tables are sound, and every caller knows what its place says.
record Inv (rule : Rule) (expires_at : ℕ) (s : System) : Type 0 where
  sound : Sound rule expires_at s.db
  knows : (i : ℕ) → Knows rule expires_at s.db (s.pc i)

Step-Inv :
    {rule : Rule} {expires_at : ℕ} {s t : System}
    → Step rule s t
    → Inv rule expires_at s
    → Inv rule expires_at t
Step-Inv {rule} {expires_at} {s} (pick i {db} {p} mv) inv = record {
  sound = Move-Sound rule expires_at mv inv.sound (inv.knows i);
  knows = λ j. elim (Bool-cases (nat_eq i j)) [
    | inl e ↦ rw e (Move-Knows rule expires_at mv inv.sound (inv.knows i))
    | inr e ↦ rw e (
        Knows-Advances rule expires_at s.db db (s.pc j) (Move-Advances rule expires_at mv)
          (inv.knows j))
  ];
}

module _ {rule : Rule} {w : Workflow} where
  Reach-Inv :
      {s : System} → w.status ≡ evaluation_in_progress → Reach rule w s → Inv rule w.expires_at s
  Reach-Inv e start = record {
    sound = record { end = refl; settled = λ f. unvoted refl e };
    knows = λ i. tt;
  }
  Reach-Inv e (later r st) = Step-Inv st (Reach-Inv e r)

  -- No vote is lost: from a new workflow in progress, after any interleaving of votes,
  -- cancellations, sweeps and workers, a row that is not marked for recalculation has a status that
  -- takes account of every vote in the table; it is what an evaluation of exactly these votes gave
  -- for the open workflow, unless nobody has voted or the workflow was canceled.
  pub no_vote_lost :
      {s : System}
      → w.status ≡ evaluation_in_progress
      → Reach rule w s
      → s.db.row.workflow.recalculation_required ≡ false
      → Settled rule w.expires_at s.db.votes s.db.row.workflow.status
  no_vote_lost e r f = (Reach-Inv e r).sound.settled f
