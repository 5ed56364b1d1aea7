-- ===== src/Template/Lifecycle.antt =====
-- domain/src/workflow-templates.ts: new templates, and the two steps of their deprecation.
use approvio.Base.{
  ℕ, ◌≤◌, String, Option, none, some, Bool, true, false, not, List, ◌≡◌, refl, arith, All, ltb,
  Bool-cases, inl, inr, if◌then◌else◌,
}
use approvio.Base.Int.{pos}
use approvio.Base.Result.{Result, left, right, ◌>>=◌, map_left}
use approvio.Json.{Json, num, integer, undefined, arr}
use approvio.Role.{BoundRole}
use approvio.Rule.WellFormed.{WellFormed}
use approvio.Rule.Validation.Exact.{to_json, validate_exact}
use approvio.Template.{
  TemplateStatus, active, pending_deprecation, deprecated, is_active, Template, GroupMembership,
  workflow_template_not_active, can_vote,
}
use approvio.Template.Actions.{Urls}
use approvio.Template.Actions.Exact.{IsAction, actions_to_items, validate_workflow_actions-to_items}
use approvio.Template.Validation.{
  TemplateError, TemplateData, validate, validate_name, validate_version, validate_description,
  validate_expires_in_hours, validate_status, validate_space_id, template_status_value,
  max_expires_in_hours,
}
use approvio.Uuid.{is_uuid_v7}

abbrev hours_to_json : Option ℕ → Json
hours_to_json none = undefined
hours_to_json (some n) = num (integer (pos n))

-- A template as the argument of the factory
unfoldable pub to_template_data : Template → TemplateData
unfolding actions_to_items template_status_value
to_template_data t = record {
  id = t.id;
  name = t.name;
  version = integer (pos t.version);
  description = t.description;
  approval_rule = to_json t.approval_rule;
  actions = arr (actions_to_items t.actions);
  default_expires_in_hours = hours_to_json t.default_expires_in_hours;
  status = template_status_value t.status;
  allow_voting_on_deprecated_template = t.allow_voting_on_deprecated_template;
  space_id = t.space_id;
  created_at = t.created_at;
  updated_at = t.updated_at;
}

-- `newWorkflowTemplate`: the id comes from `uuidv7()`, `now` from the clock; the other properties
-- from the argument.
unfoldable pub new_workflow_template :
    Urls → String → ℕ → Option ℕ → TemplateData → Result TemplateError Template
unfolding validate
new_workflow_template urls uuid now version input = validate urls (record input {
  id = uuid;
  version = elim version [ none ↦ integer (pos 1) | some n ↦ integer (pos n) ];
  status = "ACTIVE";
  allow_voting_on_deprecated_template = true;
  created_at = now;
  updated_at = now;
})

-- `WorkflowTemplateDeprecationError | WorkflowTemplateValidationError`
pub data DeprecationError : Type 0 where
  template_not_active template_not_pending_deprecation : DeprecationError
  invalid_template : TemplateError → DeprecationError

-- `markTemplateForDeprecation`, at the instant `now`
unfoldable pub mark_template_for_deprecation :
    Urls → ℕ → Template → Bool → Result DeprecationError Template
unfolding validate to_template_data
mark_template_for_deprecation urls now t cancel_workflows =
    if not (is_active t.status)
    then left template_not_active
    else map_left invalid_template (
        validate urls (
          to_template_data (record t {
            status = pending_deprecation;
            allow_voting_on_deprecated_template = not cancel_workflows;
            updated_at = now;
          })))

-- `template.status === PENDING_DEPRECATION`
abbrev pub is_pending : TemplateStatus → Bool
is_pending pending_deprecation = true
is_pending _ = false

-- `markTemplateAsDeprecated`, at the instant `now`
unfoldable pub mark_template_as_deprecated : Urls → ℕ → Template → Result DeprecationError Template
unfolding validate to_template_data
mark_template_as_deprecated urls now t =
    if not (is_pending t.status)
    then left template_not_pending_deprecation
    else map_left invalid_template
        (validate urls (to_template_data (record t { status = deprecated; updated_at = now })))

abbrev HasHours : Option ℕ → Type 0
HasHours none = Unit
HasHours (some n) = (1 ≤ n) × (n ≤ max_expires_in_hours)

-- What a valid template satisfies.
pub record IsValid (urls : Urls) (t : Template) : Type 0 where
  pub name : validate_name t.name ≡ right t.name
  pub version : 1 ≤ t.version
  pub description : validate_description t.description ≡ right t.description
  pub rule : WellFormed 3 t.approval_rule
  pub actions : All (IsAction urls) t.actions
  pub hours : HasHours t.default_expires_in_hours
  pub space : is_uuid_v7 t.space_id ≡ true
  pub updated : t.created_at ≤ t.updated_at

validate_hours : (o : Option ℕ) → HasHours o → validate_expires_in_hours (hours_to_json o) ≡ right o
unfolding validate_expires_in_hours
validate_hours none h = refl
validate_hours (some n) h = ground arith

validate_status-value : (s : TemplateStatus) → validate_status (template_status_value s) ≡ right s
unfolding validate_status template_status_value
validate_status-value active = refl
validate_status-value pending_deprecation = refl
validate_status-value deprecated = refl

validate_version-pos : (n : ℕ) → 1 ≤ n → validate_version (integer (pos n)) ≡ right n
unfolding validate_version
validate_version-pos n h = ground arith

in_order : (t : Template) → t.created_at ≤ t.updated_at → ltb t.updated_at t.created_at ≡ false
in_order t h = ground arith

-- A valid template that is validated again is the same template.
pub validate-to_template_data :
    (urls : Urls) (t : Template) → IsValid urls t → validate urls (to_template_data t) ≡ right t
unfolding validate to_template_data validate_space_id
validate-to_template_data urls t v =
    rw
      (
        v.name,
        validate_version-pos t.version v.version,
        v.description,
        (validate_exact t.approval_rule).1 v.rule,
        validate_workflow_actions-to_items urls t.actions v.actions,
        validate_hours t.default_expires_in_hours v.hours,
        validate_status-value t.status,
        v.space,
        in_order t v.updated,
      )
      refl

-- The template with another status, flag and instant is valid too.
changed-IsValid :
    (urls : Urls) (t : Template) (s : TemplateStatus) (b : Bool) (now : ℕ)
    → IsValid urls t
    → t.created_at ≤ now
    → IsValid urls
        (record t { status = s; allow_voting_on_deprecated_template = b; updated_at = now })
changed-IsValid urls t s b now v h = record {
  name = v.name;
  version = v.version;
  description = v.description;
  rule = v.rule;
  actions = v.actions;
  hours = v.hours;
  space = v.space;
  updated = h;
}

module _ (urls : Urls) (t : Template) (valid : IsValid urls t) where
  -- The deprecation of a valid active template succeeds and changes its status, its flag and its
  -- instant only; of another template it is refused.
  pub mark_template_for_deprecation_outcome :
      (now : ℕ) (cancel_workflows : Bool)
      → t.created_at ≤ now
      → (is_active t.status ≡ true
          → mark_template_for_deprecation urls now t cancel_workflows
            ≡ right (record t {
              status = pending_deprecation;
              allow_voting_on_deprecated_template = not cancel_workflows;
              updated_at = now;
            }))
        × (is_active t.status ≡ false
            → mark_template_for_deprecation urls now t cancel_workflows ≡ left template_not_active)
  unfolding mark_template_for_deprecation
  mark_template_for_deprecation_outcome now cancel h = (
    (λ e.
        rw
          (
            e,
            validate-to_template_data urls _
                (changed-IsValid urls t pending_deprecation (not cancel) now valid h),
          )
          refl),
    λ e. rw e refl,
  )

  mark_template_as_deprecated_outcome :
      (now : ℕ)
      → t.created_at ≤ now
      → is_pending t.status ≡ true
      → mark_template_as_deprecated urls now t
        ≡ right (record t { status = deprecated; updated_at = now })
  unfolding mark_template_as_deprecated
  mark_template_as_deprecated_outcome now h e =
      rw
        (
          e,
          validate-to_template_data urls _
              (changed-IsValid urls t deprecated t.allow_voting_on_deprecated_template now valid h),
        )
        refl

-- The two steps together, at two instants
unfoldable pub deprecate : Urls → ℕ → ℕ → Template → Bool → Result DeprecationError Template
unfolding mark_template_for_deprecation mark_template_as_deprecated
deprecate urls now later t cancel_workflows =
    mark_template_for_deprecation urls now t cancel_workflows
    >>= (λ t'. mark_template_as_deprecated urls later t')

-- A valid active template can be deprecated. Afterwards, if the workflows were to be canceled,
-- nobody may vote on its workflows, whoever asks; if not, every entity may vote, and must prove its
-- privilege, exactly as before.
pub deprecate-can_vote :
    (urls : Urls) (now later : ℕ) (t : Template) (cancel_workflows : Bool)
    → IsValid urls t
    → t.created_at ≤ now
    → t.created_at ≤ later
    → is_active t.status ≡ true
    → (t' : Template) × (deprecate urls now later t cancel_workflows ≡ right t')
      × (t'.status ≡ deprecated)
      × ((ms : List GroupMembership) (roles : List BoundRole) (groups : Option (List String))
          → can_vote t' ms roles groups ≡ (
              if cancel_workflows
              then left workflow_template_not_active
              else can_vote t ms roles groups))
unfolding deprecate can_vote
deprecate-can_vote urls now later t cancel valid h k e = (
  record t {
    status = deprecated;
    allow_voting_on_deprecated_template = not cancel;
    updated_at = later;
  },
  rw
      (
        (mark_template_for_deprecation_outcome urls t valid now cancel h).0 e,
        mark_template_as_deprecated_outcome urls _
            (changed-IsValid urls t pending_deprecation (not cancel) now valid h) later k refl,
      )
      refl,
  refl,
  λ ms roles groups. elim (Bool-cases cancel) [ inl c ↦ rw c refl | inr c ↦ rw (c, e) refl ],
)
