-- ===== src/Membership.antt =====
-- domain/src/group-membership.ts and membership-entity.ts: who belongs to a group, and the manager
-- that adds and removes members.
pub mod Manager
pub mod Removal
pub mod Administrators
use Prim.Native.String
use approvio.Base.{
  ℕ, String, Bool, true, false, List, [], ◌∷◌, map, ltb, length, nat_eq, if◌then◌else◌, not,
}
use approvio.Base.Dict.{Dict, lookup, has, insert, erase, values}
use approvio.Base.Sets.{add}
use approvio.Base.Result.{Result, left, right}
use approvio.Base.{any, keep, none, some, ◌==◌, ◌&&◌}
use approvio.Role.{RoleScope, BoundRole}
use approvio.Role.Permission.{User, is_admin, has_permission}

-- `Agent`, of domain/src/agent.ts
pub record Agent : Type 0 where
  pub id : String
  pub agent_name : String
  pub public_key : String
  pub created_at : ℕ
  pub roles : List BoundRole

-- `MembershipEntity`
pub data MembershipEntity : Type 0 where
  user : User → MembershipEntity
  agent : Agent → MembershipEntity

-- `getMembershipEntityId`
unfoldable pub get_membership_entity_id : MembershipEntity → String
get_membership_entity_id (user u) = u.id
get_membership_entity_id (agent a) = a.id

-- `getMembershipEntityType`
unfoldable pub get_membership_entity_type : MembershipEntity → String
get_membership_entity_type (user _) = "user"
get_membership_entity_type (agent _) = "agent"

-- `getNormalizedId` of an entity
unfoldable pub get_normalized_id : MembershipEntity → String
unfolding get_membership_entity_id get_membership_entity_type
get_normalized_id e =
    String.◌++◌ (get_membership_entity_type e) (String.◌++◌ ":" (get_membership_entity_id e))

-- `Membership`
pub record Membership : Type 0 where
  pub entity : MembershipEntity
  pub created_at : ℕ
  pub updated_at : ℕ

-- The errors of this file
pub data MembershipError : Type 0 where
  inconsistent_dates duplicated_membership entity_already_in_group not_found no_admin :
      MembershipError

-- `MembershipFactory.validate`
unfoldable pub validate : Membership → Result MembershipError Membership
validate m = if ltb m.updated_at m.created_at then left inconsistent_dates else right m

-- `GroupManager`: the id of its group, and the private map
pub record GroupManager : Type 0 where
  pub group_id : String
  pub memberships : Dict Membership

-- `getMemberships`
unfoldable pub get_memberships : GroupManager → List Membership
get_memberships g = values g.memberships

-- `this.memberships.set(getNormalizedId(m.entity), m)` for each, in order
unfoldable pub set_all : List Membership → Dict Membership → Dict Membership
unfolding get_normalized_id
set_all [] d = d
set_all (m ∷ ms) d = set_all ms (insert (get_normalized_id m.entity) m d)

-- `new Set(memberships.map(…))`
unfoldable pub add_ids : List Membership → List String → List String
unfolding get_normalized_id
add_ids [] s = s
add_ids (m ∷ ms) s = add_ids ms (add (get_normalized_id m.entity) s)

-- `createGroupManager`
unfoldable pub create_group_manager : String → List Membership → Result MembershipError GroupManager
unfolding set_all add_ids
create_group_manager id ms =
    if not (nat_eq (length (add_ids ms [])) (length ms))
    then left duplicated_membership
    else right (record { group_id = id; memberships = set_all ms [] })

-- `isEntityInMembership`
unfoldable pub is_entity_in_membership : GroupManager → String → Bool
is_entity_in_membership g id = has id g.memberships

-- `addMembership`: what it returns, and the manager as the call leaves it
unfoldable pub add_membership :
    Membership → GroupManager → Result MembershipError (Unit {0}) × GroupManager
unfolding is_entity_in_membership get_normalized_id
add_membership m g =
    if is_entity_in_membership g (get_normalized_id m.entity)
    then (left entity_already_in_group, g)
    else (right tt, record g { memberships = insert (get_normalized_id m.entity) m g.memberships })

-- The error of the first call that fails, as the applicative of `Either` keeps it
abbrev pub first_error :
    Result MembershipError (Unit {0})
    → Result MembershipError (Unit {0})
    → Result MembershipError (Unit {0})
first_error (left e) _ = left e
first_error (right _) r = r

-- `addMemberships`: the traversal calls `addMembership` on every element, also after one failed
unfoldable pub add_memberships :
    List Membership → GroupManager → Result MembershipError (Unit {0}) × GroupManager
unfolding add_membership
add_memberships [] g = (right tt, g)
add_memberships (m ∷ ms) g =
    let (r, h) = add_membership m g in
    let (rest, k) = add_memberships ms h in (first_error r rest, k)

-- `entity.type === "user" && RolePermissionChecker.hasGroupPermission(…, groupScope, "manage")`
unfoldable pub is_administrator : String → Membership → Bool
unfolding has_permission
is_administrator group_id m = elim m.entity [
  | user u ↦ has_permission u.roles (RoleScope.group group_id) "manage"
  | agent a ↦ false
]

-- `removeMembership` of the entity with the normalised id
unfoldable pub remove_membership :
    String → GroupManager → Result MembershipError (Unit {0}) × GroupManager
unfolding is_administrator get_normalized_id
remove_membership id g = elim (lookup id g.memberships) [
  | none ↦ (left not_found, g)
  | some m ↦
      if is_administrator g.group_id m
        && not (
            any (is_administrator g.group_id)
              (keep (λ n. not (get_normalized_id n.entity == id)) (values g.memberships)))
      then (left no_admin, g)
      else (right tt, record g { memberships = erase id g.memberships })
]

-- `canAdministerGroup`, and with it `canUpdateMembership` and `canRemoveMembership`
unfoldable pub can_administer_group : GroupManager → User → Bool
unfolding has_permission
can_administer_group g requestor =
    if is_admin requestor.org_role
    then true
    else has_permission requestor.roles (RoleScope.group g.group_id) "manage"
