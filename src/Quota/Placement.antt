-- ===== src/Quota/Placement.antt =====
-- About `QuotaIdentifierFactory.validate` and `isQuotaSupportedAt` of domain/src/quota.ts.
use approvio.Base.{
  ℕ, ◌≤◌, none, some, Bool, true, ◌≡◌, refl, arith, ◌↔◌, ◌⊎◌, inl, inr, any, any_sound,
  any_complete, Bool-cases,
}
use approvio.Base.Result.{left, right}
use approvio.Json.{Json}
use approvio.Hierarchy.{
  NodeType, org, group, space, workflow_template, workflow, user, Below, parents_from_iff,
  parents_from-undefined,
}
use approvio.Quota.{
  QuotaType, lowest_node_type, quota_type, inherited_name, is_same_type, is_quota_supported_at,
  QuotaIdentifier, unsupported_node_type, read_identifier, validate_identifier,
}

is_same_type-eq : (a b : NodeType) → is_same_type a b ≡ true → a ≡ b
is_same_type-eq org org e = refl
is_same_type-eq group group e = refl
is_same_type-eq space space e = refl
is_same_type-eq workflow_template workflow_template e = refl
is_same_type-eq workflow workflow e = refl
is_same_type-eq user user e = refl
is_same_type-eq _ _ e = cc

is_same_type_refl : (a : NodeType) → is_same_type a a ≡ true
is_same_type_refl org = refl
is_same_type_refl group = refl
is_same_type_refl space = refl
is_same_type_refl workflow_template = refl
is_same_type_refl workflow = refl
is_same_type_refl user = refl

-- The kind of resource that the quota measures, or one above it.
abbrev pub IsPlace : QuotaType → NodeType → Type 0
IsPlace q t = (t ≡ lowest_node_type q) ⊎ Below (lowest_node_type q) t

-- With five rounds or more the test of a quota type ends, and tells whether the resource is of the
-- kind that the quota measures or of one above it.
pub is_quota_supported_at_iff :
    (fuel : ℕ) (q : QuotaType) (t : NodeType)
    → 5 ≤ fuel
    → (b : Bool) × (is_quota_supported_at fuel (quota_type q) t ≡ some b)
      × ((b ≡ true) ↔ IsPlace q t)
unfolding is_quota_supported_at
is_quota_supported_at_iff fuel q t h =
    let (ps, e, above) = parents_from_iff fuel (lowest_node_type q) h in
    elim (Bool-cases (is_same_type t (lowest_node_type q))) [
      | inl same ↦ (
        true,
        rw same refl,
        ((λ _. inl (is_same_type-eq t (lowest_node_type q) same)), λ _. refl),
      )
      | inr differs ↦ (
        any (is_same_type t) ps,
        rw (differs, e) refl,
        (
          (λ found.
              let (p, i, same) = any_sound (is_same_type t) ps found in
              inr ((above t).0 (rw (is_same_type-eq t p same) i))),
          λ place. elim place [
            | inl at ↦ absurd (ground (arith, is_same_type_refl t, at))
            | inr b ↦ any_complete (is_same_type t) ps t ((above t).1 b) (is_same_type_refl t)
          ],
        ),
      )
    ]

-- An identifier whose parts are read, with a real quota type, is accepted exactly when the resource
-- is of the kind that the quota measures or of one above it, and refused otherwise; five rounds
-- of the loop are enough for this.
pub validate_identifier_outcome :
    (fuel : ℕ) (j : Json) (i : QuotaIdentifier) (q : QuotaType)
    → 5 ≤ fuel
    → read_identifier j ≡ right i
    → i.quota ≡ quota_type q
    → (IsPlace q i.node_type × (validate_identifier fuel j ≡ some (right i)))
      ⊎ ((¬ IsPlace q i.node_type)
          × (validate_identifier fuel j ≡ some (left unsupported_node_type)))
unfolding validate_identifier
validate_identifier_outcome fuel j i q h r real =
    let (b, e, place) = is_quota_supported_at_iff fuel q i.node_type h in
    let at : is_quota_supported_at fuel i.quota i.node_type ≡ some b = rw real e in
    elim (Bool-cases b) [
      | inl t ↦ inl (place.0 t, rw (r, validate_identifier, at, t) refl)
      | inr f ↦
          inr ((λ p. absurd (ground (arith, place.1 p))), rw (r, validate_identifier, at, f) refl)
    ]

-- When the quota type is a name that each object inherits, such as "constructor", and the other
-- parts of the identifier are in order, the validation never ends.
pub validate_identifier_diverges :
    (fuel : ℕ) (j : Json) (i : QuotaIdentifier)
    → read_identifier j ≡ right i
    → i.quota ≡ inherited_name
    → validate_identifier fuel j ≡ none
unfolding validate_identifier is_quota_supported_at
validate_identifier_diverges fuel j i r e =
    let at : is_quota_supported_at fuel i.quota i.node_type ≡ none =
      rw e (rw (is_quota_supported_at, parents_from-undefined fuel) refl) in
    rw (r, validate_identifier, at) refl
