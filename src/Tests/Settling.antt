-- ===== src/Tests/Settling.antt =====
-- A new workflow, one approval that the rule asks two of, and a worker.
use approvio.Base.{Option, ◌↔◌, none, true, false, [], ◌∷◌, ◌≡◌, refl, arith}
use approvio.Base.Result.{Result, left, right}
use approvio.Base.Dict.{lookup, insert}
use approvio.Base.Sets.{add}
use approvio.Entity.{normalized_entity_id}
use approvio.Rule.{Rule, covers}
use approvio.Template.Validation.{TemplateError}
use approvio.Uuid.{is_uuid_v7}
use approvio.Vote.{Vote}
use approvio.Workflow.{Workflow, Status, evaluation_in_progress, is_terminal}
use approvio.Workflow.Validation.{
  validate, validate_name, validate_description, validate_status, status_value,
}
use approvio.Workflow.Timeline.{sort_votes}
use approvio.Workflow.Tally.{apply_vote}
use approvio.Workflow.Evaluation.{play, evaluate_workflow_status}
use approvio.Workflow.Evaluation.Outcome.{Decides}
use approvio.Store.{Db, persist_vote, read_workflow, write_row, apply_update}
use approvio.Recalculation.{
  StatusChanged, invalid_template, recalculate_workflow_status_by_workflow_id, update_of, event_of,
  recalculate_workflow_status,
}
use approvio.Recalculation.Alone.{IsStored, as_read, settled_db, recalculate_workflow_status_alone}
use approvio.Recalculation.Canceled.{canceled_db, recalculate_workflow_status-canceled_db}
use approvio.Recalculation.Interleaving.{
  idle, loaded, ready, set_pc, System, pick, Reach, start, later, created, vote, load, read_votes,
  write_status,
}
use approvio.Recalculation.Interleaving.Safety.{no_vote_lost}
use approvio.Recalculation.Liveness.{can_settle}
use approvio.Recalculation.Refines.{
  Runs, accesses, loads, reads_votes, writes, recalculate_workflow_status-Runs,
}
use approvio.Recalculation.Settled.{Settled}
use approvio.Tests.Voting.{engineers, rule, deploy, cast}

abbrev new_deploy : Workflow
new_deploy = record deploy { recalculation_required = false }

abbrev approval : Vote
approval = cast "ann" 30 engineers

-- After the vote
abbrev voted : Db
voted = record {
  row = record { workflow = record new_deploy { recalculation_required = true }; occ = 1 };
  votes = approval ∷ [];
}

voted_is_next : persist_vote approval (created new_deploy) ≡ voted
unfolding persist_vote
voted_is_next = refl

voted-IsStored : IsStored voted.row
unfolding is_uuid_v7 validate_name validate_description
voted-IsStored = record {
  template = refl;
  name = refl;
  description = refl;
  updated = omega arith;
  expires = omega arith;
}

settled_again :
    recalculate_workflow_status 100 101 rule voted
    ≡ right (settled_db voted evaluation_in_progress 101, none)
unfolding recalculate_workflow_status evaluate_workflow_status validate validate_name
    validate_description validate_status status_value is_uuid_v7 is_terminal sort_votes play
    apply_vote covers normalized_entity_id lookup read_workflow write_row event_of insert add
    apply_update
settled_again = refl

abbrev in_progress : Workflow
in_progress = as_read voted.row

abbrev in_progress_still : Workflow
in_progress_still = record in_progress { recalculation_required = false; updated_at = 101 }

-- The caller 0 has voted, and the worker 1 has recalculated the status.
abbrev settled : System
settled = record {
  db = settled_db voted evaluation_in_progress 101;
  pc =
      set_pc
        (set_pc (set_pc (set_pc (λ _. idle) 0 idle) 1 (loaded in_progress 1)) 1
          (ready in_progress 1 (approval ∷ [])))
        1 idle;
}

Reach-settled : Reach rule new_deploy settled
unfolding persist_vote recalculate_workflow_status evaluate_workflow_status validate validate_name
    validate_description validate_status status_value is_uuid_v7 is_terminal sort_votes play
    apply_vote covers normalized_entity_id lookup read_workflow write_row event_of insert add
    apply_update update_of
Reach-settled =
    later
      (later (later (later start (pick 0 (vote approval))) (pick 1 (load {w = in_progress} refl)))
        (pick 1 read_votes))
      (pick 1 (write_status 100 101 in_progress_still refl refl))

no_vote_lost_example : Settled rule 1000 (approval ∷ []) evaluation_in_progress
no_vote_lost_example = no_vote_lost {s = settled} refl Reach-settled refl

abbrev after_vote : System
after_vote = record { db = voted; pc = set_pc (λ _. idle) 0 idle }

Reach-vote : Reach rule new_deploy after_vote
unfolding persist_vote
Reach-vote = later start (pick 0 (vote approval))

can_settle_example :
    (t : System) × Reach rule new_deploy t
    × (t.db.votes ≡ approval ∷ [])
    × (t.db.row.workflow.recalculation_required ≡ false)
    × Decides 100 rule in_progress (approval ∷ []) t.db.row.workflow.status
can_settle_example = can_settle 1 100 102 after_vote Reach-vote refl voted-IsStored (omega arith)

recalculate_workflow_status-Runs_example :
    ((event : Option StatusChanged) × (recalculate_workflow_status 100 101 rule voted
        ≡ right (settled_db voted evaluation_in_progress 101, event)))
    ↔ ((run : Runs rule voted idle (settled_db voted evaluation_in_progress 101) idle) × (accesses
            run
          ≡ loads ∷ reads_votes ∷ writes 100 101 ∷ []))
recalculate_workflow_status-Runs_example =
    recalculate_workflow_status-Runs 100 101 rule voted
      (settled_db voted evaluation_in_progress 101)

recalculate_workflow_status_alone_example :
    ((r : Rule)
      → ◌≡◌ {A = Result TemplateError Rule} (right rule) (right r)
      → (s : Status) × Decides 100 r in_progress (approval ∷ []) s
        × (recalculate_workflow_status_by_workflow_id 100 101 (right rule) voted
            ≡ right (settled_db voted s 101, event_of evaluation_in_progress s)))
    × ((e : TemplateError)
        → ◌≡◌ {A = Result TemplateError Rule} (right rule) (left e)
        → recalculate_workflow_status_by_workflow_id 100 101 (right rule) voted
          ≡ left (invalid_template e))
recalculate_workflow_status_alone_example =
    recalculate_workflow_status_alone 100 101 voted voted-IsStored (omega arith) (right rule)

recalculate_workflow_status-canceled_db_example :
    recalculate_workflow_status 100 101 rule (canceled_db 50 voted)
    ≡ recalculate_workflow_status 100 101 rule voted
recalculate_workflow_status-canceled_db_example =
    recalculate_workflow_status-canceled_db 100 50 101 rule voted voted-IsStored (omega arith)
      (omega arith) refl
