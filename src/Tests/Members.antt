-- ===== src/Tests/Members.antt =====
-- The group of the engineers with two members, one of whom manages it.
use approvio.Base.{String, [], ◌∷◌, ◌≡◌, ◌==◌, ◌||◌, any, refl}
use approvio.Base.Dict.{lookup, has}
use approvio.Base.Result.{left}
use approvio.Role.Permission.{User, has_permission}
use approvio.Membership.{
  MembershipEntity, Membership, MembershipError, GroupManager, get_normalized_id, add_memberships,
  is_administrator, remove_membership,
}
use approvio.Membership.Manager.{IsConsistent, add_memberships-members}
use approvio.Membership.Removal.{
  HasAdministrator, Removal, remove_membership_outcome, remove_membership-HasAdministrator,
}
use approvio.Tests.Voting.{engineers}
use approvio.Tests.Access.{ann}

abbrev bob : User
bob = record ann { id = "0190a0b0-1c2d-7abc-8def-0123456789c2"; roles = [] }

abbrev of_user : User → Membership
of_user u = record { entity = MembershipEntity.user u; created_at = 7; updated_at = 7 }

abbrev id_of : User → String
id_of u = get_normalized_id (MembershipEntity.user u)

abbrev group : GroupManager
group = record {
  group_id = engineers;
  memberships = (id_of ann, of_user ann) ∷ (id_of bob, of_user bob) ∷ [];
}

group-IsConsistent : IsConsistent group
unfolding get_normalized_id has
group-IsConsistent = record { keyed = (refl, (refl, tt)); unique = (refl, (refl, tt)) }

group-HasAdministrator : HasAdministrator group
unfolding is_administrator has_permission
group-HasAdministrator = refl

ann_stays : (remove_membership (id_of ann) group).0 ≡ left MembershipError.no_admin
unfolding remove_membership get_normalized_id lookup
ann_stays = refl

add_memberships-members_example :
    has "user:x" (add_memberships (of_user ann ∷ []) group).1.memberships ≡ (
      has "user:x" group.memberships
      || any (λ m. get_normalized_id m.entity == "user:x") (of_user ann ∷ []))
add_memberships-members_example = add_memberships-members (of_user ann ∷ []) group "user:x"

remove_membership_outcome_example : Removal (id_of ann) group (remove_membership (id_of ann) group)
remove_membership_outcome_example = remove_membership_outcome (id_of ann) group group-IsConsistent

remove_membership-HasAdministrator_example :
    IsConsistent (remove_membership (id_of bob) group).1
    × HasAdministrator (remove_membership (id_of bob) group).1
remove_membership-HasAdministrator_example =
    remove_membership-HasAdministrator (id_of bob) group group-IsConsistent group-HasAdministrator
