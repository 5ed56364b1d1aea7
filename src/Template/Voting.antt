-- ===== src/Template/Voting.antt =====
-- About `canVote` of domain/src/workflow-templates.ts.
use approvio.Base.{
  String, Option, Bool, true, false, List, [], ◌∷◌, ◌≡◌, refl, arith, eq_iff, In, any, all,
  includes, includes_iff, ◌↔◌, ◌⊎◌, inl, inr, any_sound, any_complete, all_sound, all_complete,
  ◌||◌, if◌then◌else◌, ◌==◌, sym, ◌∙◌,
}
use approvio.Base.Result.{right}
use approvio.Role.{RoleScope, ResourceType, BoundRole}
use approvio.Rule.{voting_group_ids, is_high_privilege_required}
use approvio.Rule.Privilege.{Demands, is_high_privilege_required_iff}
use approvio.Membership.{MembershipEntity, get_membership_entity_id, get_membership_entity_type}
use approvio.Template.{
  Template, TemplateStatus, active, pending_deprecation, deprecated, GroupMembership, is_active,
  is_voting_scope, permits_vote, has_vote_permission, is_same_entity, target_groups, can_vote,
  is_template_resource,
}

-- The scopes at which a role reaches the template.
pub data Reaches (t : Template) : RoleScope → Type 0 where
  from_org : Reaches t RoleScope.org
  from_space : {s : String} → s ≡ t.space_id → Reaches t (RoleScope.space s)
  from_name : {n : String} → n ≡ t.name → Reaches t (RoleScope.workflow_template n)

-- A role for templates that lists "vote" and reaches the template.
pub record PermitsVote (t : Template) (role : BoundRole) : Type 0 where
  pub resource : role.resource_type ≡ ResourceType.workflow_template
  pub permission : In "vote" role.permissions
  pub scope : Reaches t role.scope

-- What the template asks of the entity with these memberships and roles.
pub record MayVote (t : Template) (ms : List GroupMembership) (roles : List BoundRole)
    : Type 0 where
  pub status : (t.status ≡ active) ⊎ (t.allow_voting_on_deprecated_template ≡ true)
  pub permitted : (role : BoundRole) × In role roles × PermitsVote t role
  pub member : (m : GroupMembership) × In m ms × In m.group_id (voting_group_ids t.approval_rule)
  pub same_type :
      (m n : GroupMembership)
      → In m ms
      → In n ms
      → get_membership_entity_type m.entity ≡ get_membership_entity_type n.entity
  pub same_id :
      (m n : GroupMembership)
      → In m ms
      → In n ms
      → get_membership_entity_id m.entity ≡ get_membership_entity_id n.entity

is_voting_scope_iff : (t : Template) (s : RoleScope) → (is_voting_scope t s ≡ true) ↔ Reaches t s
unfolding is_voting_scope
is_voting_scope_iff t RoleScope.org = ((λ _. from_org), λ _. refl)
is_voting_scope_iff t (RoleScope.space s) = (
  (λ e. from_space ((eq_iff s t.space_id).0 e)),
  λ h. elim h [ from_space e ↦ (eq_iff s t.space_id).1 e ],
)
is_voting_scope_iff t (RoleScope.workflow_template n) =
    ((λ e. from_name ((eq_iff n t.name).0 e)), λ h. elim h [ from_name e ↦ (eq_iff n t.name).1 e ])
is_voting_scope_iff t (RoleScope.group g) = ((λ e. cc), λ h. elim h [ ])

is_template_resource-eq :
    (r : ResourceType) → is_template_resource r ≡ true → r ≡ ResourceType.workflow_template
is_template_resource-eq ResourceType.workflow_template e = refl
is_template_resource-eq ResourceType.group e = cc
is_template_resource-eq ResourceType.space e = cc
is_template_resource-eq ResourceType.audit e = cc

permits_vote_iff :
    (t : Template) (role : BoundRole) → (permits_vote t role ≡ true) ↔ PermitsVote t role
unfolding permits_vote
permits_vote_iff t role = (
  (λ e. record {
    resource = is_template_resource-eq role.resource_type (ground arith);
    permission = (includes_iff "vote" role.permissions).0 (ground arith);
    scope = (is_voting_scope_iff t role.scope).0 (ground arith);
  }),
  λ h.
      rw (h.resource, (includes_iff "vote" role.permissions).1 h.permission)
        ((is_voting_scope_iff t role.scope).1 h.scope),
)

has_vote_permission_iff :
    (t : Template) (roles : List BoundRole)
    → (has_vote_permission t roles ≡ true)
      ↔ ((role : BoundRole) × In role roles × PermitsVote t role)
unfolding has_vote_permission
has_vote_permission_iff t roles = (
  (λ e. let (r, i, p) = any_sound (permits_vote t) roles e in (r, i, (permits_vote_iff t r).0 p)),
  λ h. let (r, i, p) = h in any_complete (permits_vote t) roles r i ((permits_vote_iff t r).1 p),
)

is_same_entity_iff :
    (e : MembershipEntity) (m : GroupMembership)
    → (is_same_entity e m ≡ true) ↔ (
        (get_membership_entity_type m.entity ≡ get_membership_entity_type e)
        × (get_membership_entity_id m.entity ≡ get_membership_entity_id e))
unfolding is_same_entity
is_same_entity_iff e m = (
  (λ h. ((eq_iff _ _).0 (ground arith), (eq_iff _ _).0 (ground arith))),
  λ h. ground (
    arith,
    (eq_iff (get_membership_entity_type m.entity) (get_membership_entity_type e)).1 h.0,
    (eq_iff (get_membership_entity_id m.entity) (get_membership_entity_id e)).1 h.1,
  ),
)

status_allows :
    (t : Template)
    → (is_active t.status || t.allow_voting_on_deprecated_template) ≡ true
    → (t.status ≡ active) ⊎ (t.allow_voting_on_deprecated_template ≡ true)
status_allows t e = by_status t.status e
  where
    by_status :
        {b : Bool} (s : TemplateStatus) → (is_active s || b) ≡ true → (s ≡ active) ⊎ (b ≡ true)
    by_status active h = inl refl
    by_status pending_deprecation h = inr h
    by_status deprecated h = inr h

allows_status :
    (t : Template)
    → (t.status ≡ active) ⊎ (t.allow_voting_on_deprecated_template ≡ true)
    → (is_active t.status || t.allow_voting_on_deprecated_template) ≡ true
allows_status t (inl e) = rw e refl
allows_status t (inr e) = ground (arith, e)

-- What the tests of `can_vote` say of memberships that start with `first`.
passed :
    (t : Template) (first : GroupMembership) (rest : List GroupMembership) (roles : List BoundRole)
    (groups : Option (List String)) (b : Bool)
    → can_vote t (first ∷ rest) roles groups ≡ right b
    → ((is_active t.status || t.allow_voting_on_deprecated_template) ≡ true)
      × (all (is_same_entity first.entity) (first ∷ rest) ≡ true)
      × (has_vote_permission t roles ≡ true)
      × (any (λ m. includes m.group_id (voting_group_ids t.approval_rule)) (first ∷ rest) ≡ true)
unfolding can_vote
passed t first rest roles groups b e = ground arith

passes :
    (t : Template) (first : GroupMembership) (rest : List GroupMembership) (roles : List BoundRole)
    (groups : Option (List String))
    → (is_active t.status || t.allow_voting_on_deprecated_template) ≡ true
    → all (is_same_entity first.entity) (first ∷ rest) ≡ true
    → has_vote_permission t roles ≡ true
    → any (λ m. includes m.group_id (voting_group_ids t.approval_rule)) (first ∷ rest) ≡ true
    → can_vote t (first ∷ rest) roles groups
      ≡ right (
          if get_membership_entity_type first.entity == "agent"
          then false
          else is_high_privilege_required t.approval_rule (target_groups groups (first ∷ rest)))
unfolding can_vote
passes t first rest roles groups a b c d = ground arith

may_vote :
    (t : Template) (first : GroupMembership) (rest : List GroupMembership) (roles : List BoundRole)
    → (is_active t.status || t.allow_voting_on_deprecated_template) ≡ true
    → all (is_same_entity first.entity) (first ∷ rest) ≡ true
    → has_vote_permission t roles ≡ true
    → any (λ m. includes m.group_id (voting_group_ids t.approval_rule)) (first ∷ rest) ≡ true
    → MayVote t (first ∷ rest) roles
may_vote t first rest roles a b c d =
    let same : (m : GroupMembership)
        → In m (first ∷ rest)
        → (get_membership_entity_type m.entity ≡ get_membership_entity_type first.entity)
          × (get_membership_entity_id m.entity ≡ get_membership_entity_id first.entity) =
      λ m i.
        (is_same_entity_iff first.entity m).0
          (all_sound (is_same_entity first.entity) (first ∷ rest) m b i) in
    let (m, i, p) =
      any_sound (λ m. includes m.group_id (voting_group_ids t.approval_rule)) (first ∷ rest) d in
    record {
      status = status_allows t a;
      permitted = (has_vote_permission_iff t roles).0 c;
      member = (m, i, (includes_iff m.group_id (voting_group_ids t.approval_rule)).0 p);
      same_type = λ m n i j. (same m i).0 ∙ sym (same n j).0;
      same_id = λ m n i j. (same m i).1 ∙ sym (same n j).1;
    }

-- A template lets an entity vote exactly when it is active, or allows votes when it is not, the
-- memberships belong to one entity, one of them is in a group that the rule names, and a role
-- permits to vote on templates at the organisation, at the template's space or at its name.
pub can_vote_iff :
    (t : Template) (ms : List GroupMembership) (roles : List BoundRole)
    (groups : Option (List String))
    → ((b : Bool) × (can_vote t ms roles groups ≡ right b)) ↔ MayVote t ms roles
unfolding can_vote
can_vote_iff t [] roles groups =
    ((λ h. let (b, e) = h in absurd (ground arith)), λ h. let (m, i, p) = h.member in absurd i)
can_vote_iff t (first ∷ rest) roles groups = (
  (λ h.
      let (b, e) = h in
      let (a, s, c, d) = passed t first rest roles groups b e in
      may_vote t first rest roles a s c d),
  λ h. (
    _,
    passes t first rest roles groups (allows_status t h.status)
        (all_complete (is_same_entity first.entity) (first ∷ rest) (λ m i.
          (is_same_entity_iff first.entity m).1
            (h.same_type m first i (inl refl), h.same_id m first i (inl refl))))
        ((has_vote_permission_iff t roles).1 h.permitted)
        (let (m, i, p) = h.member in
          any_complete (λ m. includes m.group_id (voting_group_ids t.approval_rule)) (first ∷ rest)
            m i ((includes_iff m.group_id (voting_group_ids t.approval_rule)).1 p)),
  ),
)

not_agent :
    (e : MembershipEntity)
    → (get_membership_entity_type e == "agent") ≡ false
    → get_membership_entity_type e ≡ "user"
unfolding get_membership_entity_type
not_agent (MembershipEntity.user u) h = refl
not_agent (MembershipEntity.agent a) h = cc

user_not_agent :
    (e : MembershipEntity)
    → get_membership_entity_type e ≡ "user"
    → (get_membership_entity_type e == "agent") ≡ false
user_not_agent e h = rw h refl

-- Where a vote is allowed, a token of high privilege is asked for exactly of a user, never of an
-- agent, and only when the rule demands it for one of the groups voted for; without such groups
-- those of the memberships count.
pub can_vote-privilege :
    (t : Template) (ms : List GroupMembership) (roles : List BoundRole)
    (groups : Option (List String)) (b : Bool)
    → can_vote t ms roles groups ≡ right b
    → (b ≡ true) ↔ (
        ((m : GroupMembership) → In m ms → get_membership_entity_type m.entity ≡ "user")
        × ((g : String) × In g (target_groups groups ms) × Demands g t.approval_rule))
unfolding can_vote
can_vote-privilege t [] roles groups b e = absurd (ground arith)
can_vote-privilege t (first ∷ rest) roles groups b e =
    let (a, s, c, d) = passed t first rest roles groups b e in
    let same = (may_vote t first rest roles a s c d).same_type in
    let value : b ≡ (
        if get_membership_entity_type first.entity == "agent"
        then false
        else is_high_privilege_required t.approval_rule (target_groups groups (first ∷ rest))) =
      ground (arith, passes t first rest roles groups a s c d) in
    (
      (λ h. (
        (λ m i. same m first i (inl refl) ∙ not_agent first.entity (ground arith)),
        (is_high_privilege_required_iff t.approval_rule (target_groups groups (first ∷ rest))).0
            (ground arith),
      )),
      λ h.
          let (users, demand) = h in
          value
          ∙ rw (user_not_agent first.entity (users first (inl refl))) (
              (is_high_privilege_required_iff t.approval_rule
                  (target_groups groups (first ∷ rest))).1
                demand),
    )
