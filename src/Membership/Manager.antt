-- ===== src/Membership/Manager.antt =====
-- About `GroupManager` of domain/src/group-membership.ts: creation and additions.
use Prim.Native.String.{String}
use approvio.Base.{
  true, false, List, [], ◌∷◌, ◌++◌, ◌≡◌, refl, arith, ◌==◌, ◌||◌, ◌+◌, ◌≤◌, any, length, includes,
  eq_iff, Bool-cases, ◌⊎◌, inl, inr, nat_eq, if◌then◌else◌, suc, ap, sym, ◌∙◌,
}
use approvio.Base.Dict.{
  Dict, has, insert, erase, values, HasUniqueKeys, insert-HasUniqueKeys, has-insert,
}
use mathlib.Core.List.{append-nil, append_assoc}
use approvio.Base.Sets.{add, includes-add}
use approvio.Base.Result.{left, right}
use approvio.Membership.{
  Membership, MembershipError, GroupManager, get_normalized_id, get_memberships, set_all, add_ids,
  create_group_manager, add_membership, add_memberships, duplicated_membership,
}

-- Each entry stands under the normalised id of its entity.
abbrev pub IsKeyed : Dict Membership → Type 0
IsKeyed [] = Unit
IsKeyed ((k, m) ∷ d) = (k ≡ get_normalized_id m.entity) × IsKeyed d

-- The map has each member once, under its own id.
pub record IsConsistent (g : GroupManager) : Type 0 where
  pub keyed : IsKeyed g.memberships
  pub unique : HasUniqueKeys g.memberships

-- None of the ids is in the set, and none is listed twice.
abbrev pub AreNew : List Membership → List String → Type 0
AreNew [] s = Unit
AreNew (m ∷ ms) s =
    (includes (get_normalized_id m.entity) s ≡ false)
    × AreNew ms (add (get_normalized_id m.entity) s)

insert-IsKeyed :
    (m : Membership) (d : Dict Membership)
    → IsKeyed d
    → IsKeyed (insert (get_normalized_id m.entity) m d)
unfolding insert
insert-IsKeyed m [] h = (refl, tt)
insert-IsKeyed m ((k, n) ∷ d) h = elim (Bool-cases (k == get_normalized_id m.entity)) [
  | inl e ↦ rw e ((eq_iff k _).0 e, h.1)
  | inr e ↦ rw e (h.0, insert-IsKeyed m d h.1)
]

pub erase-IsKeyed : (k : String) (d : Dict Membership) → IsKeyed d → IsKeyed (erase k d)
unfolding erase
erase-IsKeyed k [] h = tt
erase-IsKeyed k ((j, n) ∷ d) h = elim (Bool-cases (j == k)) [
  | inl e ↦ rw e h.1
  | inr e ↦ rw e (h.0, erase-IsKeyed k d h.1)
]

length-add :
    (k : String) (s : List String)
    → length (add k s) ≡ (if includes k s then length s else suc (length s))
unfolding add
length-add k [] = refl
length-add k (x ∷ s) = ground (arith, length-add k s)

length-add_ids :
    (ms : List Membership) (s : List String) → length (add_ids ms s) ≤ length s + length ms
unfolding add_ids
length-add_ids [] s = omega arith
length-add_ids (m ∷ ms) s = ground (
  arith,
  length-add (get_normalized_id m.entity) s,
  length-add_ids ms (add (get_normalized_id m.entity) s),
)

add_ids_new :
    (ms : List Membership) (s : List String)
    → length (add_ids ms s) ≡ length s + length ms
    → AreNew ms s
unfolding add_ids
add_ids_new [] s e = tt
add_ids_new (m ∷ ms) s e = elim (Bool-cases (includes (get_normalized_id m.entity) s)) [
  | inl i ↦ absurd (
      ground (
        arith,
        length-add (get_normalized_id m.entity) s,
        length-add_ids ms (add (get_normalized_id m.entity) s),
      ))
  | inr i ↦ (i, add_ids_new ms _ (ground (arith, length-add (get_normalized_id m.entity) s)))
]

new_add_ids :
    (ms : List Membership) (s : List String)
    → AreNew ms s
    → length (add_ids ms s) ≡ length s + length ms
unfolding add_ids
new_add_ids [] s h = omega arith
new_add_ids (m ∷ ms) s h = ground (
  arith,
  length-add (get_normalized_id m.entity) s,
  new_add_ids ms (add (get_normalized_id m.entity) s) h.1,
)

values-insert :
    (k : String) (m : Membership) (d : Dict Membership)
    → has k d ≡ false
    → values (insert k m d) ≡ values d ++ m ∷ []
unfolding insert has
values-insert k m [] h = refl
values-insert k m ((j, n) ∷ d) h = elim (Bool-cases (j == k)) [
  | inl e ↦ absurd (ground arith)
  | inr e ↦ rw e (ap (λ l. n ∷ l) (values-insert k m d (rw e at h)))
]

has-add :
    (k : String) (m : Membership) (d : Dict Membership) (s : List String)
    → ((j : String) → includes j s ≡ has j d)
    → (j : String) → includes j (add k s) ≡ has j (insert k m d)
has-add k m d s h j = rw (includes-add k j s, has-insert k j m d, h j) refl

set_all_outcome :
    (ms : List Membership) (d : Dict Membership) (s : List String)
    → ((j : String) → includes j s ≡ has j d)
    → AreNew ms s
    → values (set_all ms d) ≡ values d ++ ms
unfolding set_all
set_all_outcome [] d s h new = sym (append-nil (values d))
set_all_outcome (m ∷ ms) d s h new =
    let k = get_normalized_id m.entity in
    set_all_outcome ms (insert k m d) (add k s) (has-add k m d s h) new.1
    ∙ ap (λ l. l ++ ms) (values-insert k m d (sym (h k) ∙ new.0))
    ∙ append_assoc (values d) (m ∷ []) ms

set_all-IsKeyed : (ms : List Membership) (d : Dict Membership) → IsKeyed d → IsKeyed (set_all ms d)
unfolding set_all
set_all-IsKeyed [] d h = h
set_all-IsKeyed (m ∷ ms) d h = set_all-IsKeyed ms _ (insert-IsKeyed m d h)

set_all-HasUniqueKeys :
    (ms : List Membership) (d : Dict Membership) → HasUniqueKeys d → HasUniqueKeys (set_all ms d)
unfolding set_all
set_all-HasUniqueKeys [] d h = h
set_all-HasUniqueKeys (m ∷ ms) d h =
    set_all-HasUniqueKeys ms _ (insert-HasUniqueKeys (get_normalized_id m.entity) m d h)

-- A manager can be created exactly when no two of the memberships have the same normalised id;
-- it then is consistent and has just these members, in the same order.
pub create_group_manager_outcome :
    (id : String) (ms : List Membership)
    → ((AreNew ms [])
        × ((g : GroupManager) × (create_group_manager id ms ≡ right g)
            × IsConsistent g
            × (get_memberships g ≡ ms)))
      ⊎ (¬ AreNew ms [] × (create_group_manager id ms ≡ left duplicated_membership))
unfolding create_group_manager get_memberships
create_group_manager_outcome id ms =
    elim (Bool-cases (nat_eq (length (add_ids ms [])) (length ms))) [
      | inl e ↦
          let new : AreNew ms [] = add_ids_new ms [] (ground arith) in
          inl (
            new,
            (
              record { group_id = id; memberships = set_all ms [] },
              (rw e refl),
              record { keyed = set_all-IsKeyed ms [] tt; unique = set_all-HasUniqueKeys ms [] tt },
              set_all_outcome ms [] [] (λ j. unfold has in refl) new,
            ),
          )
      | inr e ↦ inr ((λ new. absurd (ground (arith, new_add_ids ms [] new))), rw e refl)
    ]

-- A membership is added exactly when its entity is not yet a member; a consistent manager stays
-- consistent, and gets the membership as its last.
pub add_membership_outcome :
    (m : Membership) (g : GroupManager)
    → IsConsistent g
    → ((has (get_normalized_id m.entity) g.memberships ≡ true)
        × (add_membership m g ≡ (left MembershipError.entity_already_in_group, g)))
      ⊎ ((has (get_normalized_id m.entity) g.memberships ≡ false)
          × ((h : GroupManager) × (add_membership m g ≡ (right tt, h))
              × IsConsistent h
              × (get_memberships h ≡ get_memberships g ++ m ∷ [])))
unfolding add_membership get_memberships
add_membership_outcome m g c = elim (Bool-cases (has (get_normalized_id m.entity) g.memberships)) [
  | inl e ↦ inl (e, rw e refl)
  | inr e ↦ inr (
    e,
    (
      record g { memberships = insert (get_normalized_id m.entity) m g.memberships },
      (rw e refl),
      record {
        keyed = insert-IsKeyed m g.memberships c.keyed;
        unique = insert-HasUniqueKeys (get_normalized_id m.entity) m g.memberships c.unique;
      },
      values-insert (get_normalized_id m.entity) m g.memberships e,
    ),
  )
]

add_membership-members :
    (m : Membership) (g : GroupManager) (k : String)
    → has k (add_membership m g).1.memberships
      ≡ (has k g.memberships || (get_normalized_id m.entity == k))
unfolding add_membership
add_membership-members m g k = ground (
  arith,
  has-insert (get_normalized_id m.entity) k m g.memberships,
  eq_iff (get_normalized_id m.entity) k,
)

-- Whether or not the call reports an error, afterwards the members are those from before and all
-- those of the list: an element that is refused does not keep the others out.
pub add_memberships-members :
    (ms : List Membership) (g : GroupManager) (k : String)
    → has k (add_memberships ms g).1.memberships
      ≡ (has k g.memberships || any (λ m. get_normalized_id m.entity == k) ms)
unfolding add_memberships
add_memberships-members [] g k = ground arith
add_memberships-members (m ∷ ms) g k =
    ground
      (arith, add_membership-members m g k, add_memberships-members ms (add_membership m g).1 k)
