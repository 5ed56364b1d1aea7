-- ===== src/Tests/Voting.antt =====
-- A workflow with the rule "two of the engineers or one of the managers".
use approvio.Base.{ℕ, String, none, some, true, List, [], ◌∷◌, ◌++◌, ◌≡◌, refl, arith, In, keep}
use approvio.Base.Result.{right}
use approvio.Base.Dict.{lookup, insert, erase}
use approvio.Base.Sets.{add, delete}
use approvio.Entity.{EntityRef, normalized_entity_id}
use approvio.Rule.{Rule, or_rule, group_requirement, nil, cons, voting_group_ids, covers}
use approvio.Rule.WellFormed.{WellFormed, any_of, requirement, next, last}
use approvio.Uuid.{is_uuid_v7}
use approvio.Vote.{Vote, approve, veto, withdraw}
use approvio.Workflow.{Workflow, Status, approved, rejected, evaluation_in_progress, is_terminal}
use approvio.Workflow.Validation.{
  IsValid, validate, validate_name, validate_description, validate_status, status_value,
}
use approvio.Workflow.Timeline.{sort_votes}
use approvio.Workflow.Tally.{empty_tally, apply_vote}
use approvio.Workflow.Tally.Represents.{Represents, apply_vote-Represents, empty_tally-Represents}
use approvio.Workflow.Timeline.Order.{IsTimeline, ties, sort_votes_sorts}
use approvio.Workflow.Timeline.Later.{Older}
use mathlib.Core.List.{Perm}
use approvio.Workflow.Evaluation.{evaluate_workflow_status, play}
use approvio.Workflow.Evaluation.Outcome.{evaluated, Decides, evaluate_workflow_status_outcome}
use approvio.Workflow.Evaluation.Finality.{approval_final}
use approvio.Workflow.Evaluation.Support.{IsApprovedFor, approval_needs_approve}

abbrev pub engineers : String
engineers = "0190a0b0-1c2d-7abc-8def-0123456789a1"

abbrev pub managers : String
managers = "0190a0b0-1c2d-7abc-8def-0123456789a2"

abbrev pub rule : Rule
rule = or_rule (
    cons (group_requirement engineers 2 none) (cons (group_requirement managers 1 (some true)) nil))

abbrev user : String → EntityRef
user id = record { entity_id = id; entity_type = "user" }

abbrev pub deploy : Workflow
deploy = record {
  id = "0190a0b0-1c2d-7abc-8def-0123456789f0";
  name = "deploy_42";
  description = none;
  status = evaluation_in_progress;
  recalculation_required = true;
  workflow_template_id = "0190a0b0-1c2d-7abc-8def-0123456789e0";
  expires_at = 1000;
  created_at = 10;
  updated_at = 20;
}

abbrev pub cast : String → ℕ → String → Vote
cast voter at group = record {
  id = "v";
  workflow_id = "w";
  voter = user voter;
  reason = none;
  casted_at = at;
  ballot = approve (group ∷ []);
}

abbrev cast_veto : String → ℕ → Vote
cast_veto voter at = record {
  id = "v";
  workflow_id = "w";
  voter = user voter;
  reason = none;
  casted_at = at;
  ballot = veto;
}

abbrev cast_withdraw : String → ℕ → Vote
cast_withdraw voter at = record {
  id = "v";
  workflow_id = "w";
  voter = user voter;
  reason = none;
  casted_at = at;
  ballot = withdraw;
}

-- ann approves, bob vetoes and withdraws, then approves.
abbrev votes : List Vote
votes =
    cast "ann" 30 engineers
    ∷ cast_veto "bob" 40
    ∷ cast "bob" 60 engineers
    ∷ cast_withdraw "bob" 50
    ∷ []

-- Afterwards dan vetoes.
abbrev late : List Vote
late = cast_veto "dan" 70 ∷ []

deploy-IsValid : IsValid deploy
unfolding validate_name validate_description is_uuid_v7
deploy-IsValid = record {
  template = refl;
  name = refl;
  description = refl;
  described = refl;
  updated = omega arith;
  expires = omega arith;
  recalculated = λ _. refl;
}

pub rule-WellFormed : WellFormed 3 rule
unfolding is_uuid_v7
rule-WellFormed =
    any_of (next (requirement refl (omega arith)) (next (requirement refl (omega arith)) last))

votes_approve :
    evaluate_workflow_status 100 101 rule deploy votes ≡ right (evaluated deploy approved 101)
unfolding evaluate_workflow_status validate validate_name validate_description validate_status
    status_value is_uuid_v7 is_terminal sort_votes play apply_vote covers normalized_entity_id
    lookup insert erase add delete
votes_approve = refl

veto_wins_tie :
    evaluate_workflow_status 100 101 rule deploy (cast "eve" 30 managers ∷ cast_veto "bob" 30 ∷ [])
    ≡ right (evaluated deploy rejected 101)
unfolding evaluate_workflow_status validate validate_name validate_description validate_status
    status_value is_uuid_v7 is_terminal sort_votes play apply_vote covers normalized_entity_id
    lookup insert erase add delete
veto_wins_tie = refl

evaluate_workflow_status_outcome_example :
    (s : Status) × Decides 100 rule deploy votes s
    × (evaluate_workflow_status 100 101 rule deploy votes ≡ right (evaluated deploy s 101))
    × ((s' : Status) → Decides 100 rule deploy votes s' → s' ≡ s)
evaluate_workflow_status_outcome_example =
    evaluate_workflow_status_outcome 100 rule deploy votes 101 deploy-IsValid (omega arith)

votes-Older : Older votes late
votes-Older = ((omega arith, tt), ((omega arith, tt), ((omega arith, tt), ((omega arith, tt), tt))))

approval_final_example :
    evaluate_workflow_status 100 101 rule deploy (votes ++ late)
    ≡ right (evaluated deploy approved 101)
approval_final_example =
    approval_final 100 101 rule deploy deploy-IsValid (omega arith) (unfold is_terminal in refl)
      votes late votes-Older votes_approve

approval_needs_approve_example : (g : String) × In g (voting_group_ids rule) × IsApprovedFor g votes
approval_needs_approve_example =
    approval_needs_approve 100 101 rule 3 deploy votes deploy-IsValid (omega arith)
      (unfold is_terminal in refl) rule-WellFormed votes_approve

apply_vote-Represents_example :
    Represents (cast "ann" 30 engineers ∷ []) (apply_vote (cast "ann" 30 engineers) empty_tally)
apply_vote-Represents_example =
    apply_vote-Represents (cast "ann" 30 engineers) [] empty_tally empty_tally-Represents

sort_votes_sorts_example :
    Perm (sort_votes votes) votes
    × IsTimeline (sort_votes votes)
    × ((k : Vote) → keep (ties k) (sort_votes votes) ≡ keep (ties k) votes)
sort_votes_sorts_example = sort_votes_sorts votes
