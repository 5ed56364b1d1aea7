-- ===== src/Membership/Removal.antt =====
-- About `removeMembership` of `GroupManager`, domain/src/group-membership.ts.
use Prim.Native.String.{String}
use approvio.Base.{
  Bool, true, false, not, Option, none, some, [], ◌∷◌, ◌≡◌, refl, arith, ◌==◌, any, keep, eq_iff,
  Bool-cases, ◌⊎◌, inl, inr,
}
use approvio.Base.Dict.{Dict, lookup, has, erase, values, HasUniqueKeys, erase-HasUniqueKeys}
use approvio.Base.Result.{Result, left, right}
use approvio.Membership.{
  Membership, MembershipError, GroupManager, get_normalized_id, is_administrator, remove_membership,
  not_found, no_admin,
}
use approvio.Membership.Manager.{IsKeyed, IsConsistent, erase-IsKeyed}

-- Some member is a user who manages the group.
abbrev pub HasAdministrator : GroupManager → Type 0
HasAdministrator g = any (is_administrator g.group_id) (values g.memberships) ≡ true

another_stays :
    (p : Membership → Bool) (k : String) (m : Membership) (d : Dict Membership)
    → lookup k d ≡ some m
    → p m ≡ false
    → any p (values d) ≡ true
    → any p (values (erase k d)) ≡ true
unfolding lookup erase
another_stays p k m [] e f h = cc
another_stays p k m ((j, n) ∷ d) e f h = elim (Bool-cases (j == k)) [
  | inl q ↦ rw q (ground arith)
  | inr q ↦ rw q (ground (arith, another_stays p k m d (rw q at e) f))
]

-- How a removal can end.
pub data Removal (id : String) (g : GroupManager)
    : Result MembershipError (Unit {0}) × GroupManager → Type 0 where
  unknown : lookup id g.memberships ≡ none → Removal id g (left not_found, g)
  last_administrator :
      (m : Membership)
      → lookup id g.memberships ≡ some m
      → is_administrator g.group_id m ≡ true
      → any (is_administrator g.group_id) (values (erase id g.memberships)) ≡ false
      → Removal id g (left no_admin, g)
  removed :
      (m : Membership)
      → lookup id g.memberships ≡ some m
      → (is_administrator g.group_id m ≡ false)
        ⊎ (any (is_administrator g.group_id) (values (erase id g.memberships)) ≡ true)
      → Removal id g (right tt, record g { memberships = erase id g.memberships })

others_kept :
    (k : String) (d : Dict Membership)
    → IsKeyed d
    → has k d ≡ false
    → keep (λ n. not (get_normalized_id n.entity == k)) (values d) ≡ values d
unfolding has
others_kept k [] w h = refl
others_kept k ((j, n) ∷ d) w h = ground (arith, others_kept k d w.1)

erased_kept :
    (k : String) (d : Dict Membership)
    → IsKeyed d
    → HasUniqueKeys d
    → keep (λ n. not (get_normalized_id n.entity == k)) (values d) ≡ values (erase k d)
unfolding erase
erased_kept k [] w u = refl
erased_kept k ((j, n) ∷ d) w u =
    ground (arith, erased_kept k d w.1 u.1, others_kept k d w.1, eq_iff j k)

by_lookup :
    (id : String) (g : GroupManager) (o : Option Membership)
    → IsConsistent g
    → lookup id g.memberships ≡ o
    → Removal id g (remove_membership id g)
unfolding remove_membership
by_lookup id g none c e = rw (e, remove_membership) (unknown e)
by_lookup id g (some m) c e = elim (Bool-cases (is_administrator g.group_id m)) [
  | inr f ↦ rw (e, remove_membership, f) (removed m e (inl f))
  | inl t ↦
      elim (Bool-cases (any (is_administrator g.group_id) (values (erase id g.memberships)))) [
        | inl o ↦
            rw (e, remove_membership, erased_kept id g.memberships c.keyed c.unique, t, o)
              (removed m e (inr o))
        | inr o ↦
            rw (e, remove_membership, erased_kept id g.memberships c.keyed c.unique, t, o)
              (last_administrator m e t o)
      ]
]

-- A removal from a consistent manager fails, and changes nothing, when the entity is no member or
-- when it is a user who manages the group and no other member is one; it succeeds otherwise.
pub remove_membership_outcome :
    (id : String) (g : GroupManager) → IsConsistent g → Removal id g (remove_membership id g)
remove_membership_outcome id g c = by_lookup id g _ c refl

keeps :
    (id : String) (g : GroupManager) (out : Result MembershipError (Unit {0}) × GroupManager)
    → IsConsistent g
    → HasAdministrator g
    → Removal id g out
    → IsConsistent out.1 × HasAdministrator out.1
keeps id g out c h (unknown e) = (c, h)
keeps id g out c h (last_administrator m e t o) = (c, h)
keeps id g out c h (removed m e why) = (
  record {
    keyed = erase-IsKeyed id g.memberships c.keyed;
    unique = erase-HasUniqueKeys id g.memberships c.unique;
  },
  elim why [
    | inl f ↦ another_stays (is_administrator g.group_id) id m g.memberships e f h
    | inr t ↦ t
  ],
)

-- Whatever a removal returns, the manager stays consistent, and a group that has an administrator
-- still has one.
pub remove_membership-HasAdministrator :
    (id : String) (g : GroupManager)
    → IsConsistent g
    → HasAdministrator g
    → IsConsistent (remove_membership id g).1 × HasAdministrator (remove_membership id g).1
remove_membership-HasAdministrator id g c h = keeps id g _ c h (remove_membership_outcome id g c)
