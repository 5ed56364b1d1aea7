-- ===== src/Tests/Canceling.antt =====
-- Workflows of two templates, and the deprecation of one of these.
use approvio.Base.{
  String, Option, none, some, true, false, List, [], ◌∷◌, ◌≡◌, refl, arith, inl, map, if◌then◌else◌,
  ◌≢◌, ◌==◌, eq_iff, any, nat_eq,
}
use approvio.Base.Text.{codes, utf16_length, is_alnum, is_space, is_blank}
use approvio.Base.Result.{right, left}
use approvio.Cancellation.{cancel_workflows_loop}
use approvio.Cancellation.Everywhere.{cancel_active, cancel_workflows_loop_everywhere}
use approvio.Email.{is_email}
use approvio.Json.{arr}
use approvio.Recalculation.Alone.{IsStored}
use approvio.Role.{BoundRole}
use approvio.Store.{WorkflowRow}
use approvio.Store.Listing.{Templates}
use approvio.Store.VoteRows.{VoteRow, create_row, to_domain_vote}
use approvio.Store.VoteRows.Columns.{
  Columns, IsPostgres, store_row, canonical, to_domain_vote-store_row,
}
use approvio.Template.{
  Template, deprecated, workflow_template_not_active, can_vote, GroupMembership, email,
}
use approvio.Template.Actions.{Urls, validate_workflow_actions}
use approvio.Template.Actions.Exact.{
  IsAction, to_some, actions_to_items, validate_workflow_actions-to_items,
}
use approvio.Template.Lifecycle as lifecycle
use approvio.Template.Lifecycle.{deprecate, deprecate-can_vote}
use approvio.Template.Validation.{
  validate_name as validate_template_name, validate_description as validate_template_description,
}
use approvio.Uuid.{is_uuid_v7, lower}
use approvio.Vote.{Vote, veto}
use approvio.Vote.Validation as votes
use approvio.Workflow.Validation.{validate_name, validate_description}
use approvio.Tests.Voting.{deploy, rule-WellFormed}
use approvio.Tests.Access.{template}

abbrev other_deploy : WorkflowRow
other_deploy = record {
  workflow = record deploy {
    id = "0190a0b0-1c2d-7abc-8def-0123456789f1";
    workflow_template_id = "0190a0b0-1c2d-7abc-8def-0123456789e9";
  };
  occ = 3;
}

abbrev rows : List WorkflowRow
rows = record { workflow = deploy; occ = 7 } ∷ other_deploy ∷ []

abbrev no_names : Templates
no_names = record { name_of = λ _. "deploy"; rule_contains = λ _ _. false }

deploy-IsStored : IsStored (record { workflow = deploy; occ = 7 })
unfolding is_uuid_v7 validate_name validate_description
deploy-IsStored = record {
  template = refl;
  name = refl;
  description = refl;
  updated = omega arith;
  expires = omega arith;
}

other-IsStored : IsStored other_deploy
unfolding is_uuid_v7 validate_name validate_description
other-IsStored = record {
  template = refl;
  name = refl;
  description = refl;
  updated = omega arith;
  expires = omega arith;
}

differ : (a b : String) → (a == b) ≡ false → a ≢ b
differ a b h e = ground (arith, eq_iff a b)

cancel_workflows_loop_everywhere_example :
    cancel_workflows_loop no_names (λ _. 60) "0190a0b0-1c2d-7abc-8def-0123456789e0" 1 rows
    ≡ (map (cancel_active (λ _. 60)) rows, right tt)
cancel_workflows_loop_everywhere_example =
    cancel_workflows_loop_everywhere no_names (λ _. 60) "0190a0b0-1c2d-7abc-8def-0123456789e0" 1
      rows ((deploy-IsStored, omega arith), ((other-IsStored, omega arith), tt))
      ((differ _ _ refl, tt), (tt, tt))

abbrev no_urls : Urls
no_urls = record { protocol = λ _. none }

actions-IsAction : IsAction no_urls (email ("ops@example.com" ∷ []))
unfolding is_email is_alnum is_space
actions-IsAction = to_some (refl, tt)

validate_workflow_actions-to_items_example :
    validate_workflow_actions no_urls (arr (actions_to_items (email ("ops@example.com" ∷ []) ∷ [])))
    ≡ right (email ("ops@example.com" ∷ []) ∷ [])
validate_workflow_actions-to_items_example =
    validate_workflow_actions-to_items no_urls (email ("ops@example.com" ∷ []) ∷ [])
      (actions-IsAction, tt)

template-IsValid : lifecycle.IsValid no_urls template
unfolding is_uuid_v7 validate_template_name validate_template_description is_alnum is_space is_blank
    utf16_length
template-IsValid = record {
  name = refl;
  version = omega arith;
  description = refl;
  rule = rule-WellFormed;
  actions = (actions-IsAction, tt);
  hours = tt;
  space = refl;
  updated = omega arith;
}

deprecate-can_vote_example :
    (t : Template) × (deprecate no_urls 50 60 template true ≡ right t)
    × (t.status ≡ deprecated)
    × ((ms : List GroupMembership) (roles : List BoundRole) (groups : Option (List String))
        → can_vote t ms roles groups
          ≡ (if true then left workflow_template_not_active else can_vote template ms roles groups))
deprecate-can_vote_example =
    deprecate-can_vote no_urls 50 60 template true template-IsValid (omega arith) (omega arith) refl

abbrev ballot_of_ann : Vote
ballot_of_ann = record {
  id = "0190a0b0-1c2d-7abc-8def-0123456789b1";
  workflow_id = "0190A0B0-1C2D-7ABC-8DEF-0123456789F0";
  voter = record { entity_id = "0190a0b0-1c2d-7abc-8def-0123456789c1"; entity_type = "user" };
  reason = some "";
  casted_at = 30;
  ballot = veto;
}

ballot_of_ann-IsValid : votes.IsValid ballot_of_ann
unfolding is_uuid_v7 utf16_length
ballot_of_ann-IsValid = record {
  workflow = refl;
  voter_id = refl;
  voter_type = inl refl;
  reason = omega arith;
  groups = tt;
}

-- A table that takes UUIDs of version 7 only
abbrev postgres : Columns
postgres = record {
  uuid = λ s. if is_uuid_v7 s then some (lower s) else none;
  text = λ s. if any (λ c. nat_eq c 0) (codes s) then none else some s;
}

postgres-IsPostgres : IsPostgres postgres
postgres-IsPostgres = record { uuid = λ s h. rw h refl; text = λ s h. rw h refl }

to_domain_vote-store_row_example :
    (row : VoteRow) × (store_row postgres (create_row ballot_of_ann) ≡ some row)
    × (to_domain_vote row ≡ right (canonical ballot_of_ann))
unfolding is_uuid_v7
to_domain_vote-store_row_example =
    to_domain_vote-store_row postgres postgres-IsPostgres ballot_of_ann ballot_of_ann-IsValid refl
      refl
