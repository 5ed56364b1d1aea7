-- ===== src/Tests/Quotas.antt =====
-- Quotas on an organisation, one of them with an inherited name for its type.
use approvio.Base.{none, some, ◌≡◌, refl, ◌⊎◌, List, In, ◌↔◌, arith}
use approvio.Base.Result.{left, right}
use approvio.Json.{Json, str, obj, end, field, get}
use approvio.Uuid.{is_uuid_v7}
use approvio.Base.{true, false}
use approvio.Quota.Service.{
  Repositories, found, quota_not_found, default_org, is_quota_available,
  is_quota_type_applicable_to,
}
use approvio.Quota.Search.{Answers, is_quota_available_iff}
use approvio.Hierarchy.{
  group, space, workflow_template, user, NodeType, org, workflow, Below, is_node, parents_from,
  parents_from_iff,
}
use approvio.Quota.{
  QuotaIdentifier, unsupported_node_type, max_spaces, quota_type, inherited_name, read_identifier,
  validate_identifier,
}
use approvio.Quota.Placement.{IsPlace, validate_identifier_outcome, validate_identifier_diverges}

abbrev request : Json → Json
request quota = obj (
    field "node"
      (obj (
        field "type" (str "Org")
          (field "identifier" (str "0190a0b0-1c2d-7abc-8def-0123456789d9") end)))
      (field "quotaType" quota end))

abbrev spaces : QuotaIdentifier
spaces = record {
  node_type = org;
  identifier = "0190a0b0-1c2d-7abc-8def-0123456789d9";
  quota = quota_type max_spaces;
}

abbrev odd : QuotaIdentifier
odd = record spaces { quota = inherited_name }

reads_spaces : read_identifier (request (str "MAX_SPACES")) ≡ right spaces
unfolding read_identifier is_uuid_v7 get
reads_spaces = refl

reads_odd : read_identifier (request (str "constructor")) ≡ right odd
unfolding read_identifier is_uuid_v7 get
reads_odd = refl

validate_identifier_outcome_example :
    (IsPlace max_spaces org
      × (validate_identifier 5 (request (str "MAX_SPACES")) ≡ some (right spaces)))
    ⊎ ((¬ IsPlace max_spaces org)
        × (validate_identifier 5 (request (str "MAX_SPACES")) ≡ some (left unsupported_node_type)))
validate_identifier_outcome_example =
    validate_identifier_outcome 5 (request (str "MAX_SPACES")) spaces max_spaces (omega arith)
      reads_spaces refl

validate_identifier_diverges_example : validate_identifier 1000 (request (str "constructor")) ≡ none
validate_identifier_diverges_example =
    validate_identifier_diverges 1000 (request (str "constructor")) odd reads_odd refl

parents_from_iff_example :
    (ps : List NodeType) × (parents_from 5 (is_node workflow) ≡ some ps)
    × ((b : NodeType) → In b ps ↔ Below workflow b)
parents_from_iff_example = parents_from_iff 5 workflow (omega arith)

-- A store with one quota on spaces, for the whole organisation, and three spaces.
abbrev store : Repositories
store = record {
  get_parent_space = λ _. left "unknown";
  get_parent_workflow_template = λ _. left "unknown";
  get_quota = λ id. elim id.node_type [
    | org ↦ found 4
    | group ↦ quota_not_found
    | space ↦ quota_not_found
    | workflow_template ↦ quota_not_found
    | workflow ↦ quota_not_found
    | user ↦ quota_not_found
  ];
  count_groups = right 0;
  count_spaces = right 3;
  count_templates_of_space = λ _. right 0;
  count_user_members = λ _. right 0;
  count_agent_members = λ _. right 0;
  count_active_workflows = λ _. right 0;
  count_roles_of_user = λ _. right 0;
  count_votes = λ _. right 0;
}

one_more_space : is_quota_available store default_org max_spaces 1 ≡ right true
unfolding is_quota_available is_uuid_v7
one_more_space = refl

two_more_spaces : is_quota_available store default_org max_spaces 2 ≡ right false
unfolding is_quota_available is_uuid_v7
two_more_spaces = refl

is_quota_available_iff_example :
    (is_quota_available store default_org max_spaces 1 ≡ right true) ↔ (
      (is_quota_type_applicable_to max_spaces default_org.node_type ≡ true)
      × Answers store default_org max_spaces 1 true)
is_quota_available_iff_example = is_quota_available_iff store default_org max_spaces 1 true
