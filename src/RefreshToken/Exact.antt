-- ===== src/RefreshToken/Exact.antt =====
-- About `RefreshTokenFactory.validate` of domain/src/refresh-token.ts: when a token is valid.
use mathlib.Core.Path.{subst}
use approvio.Base.{
  ℕ, ◌≤◌, String, Bool, true, false, ◌==◌, ◌≡◌, ◌≢◌, refl, arith, eq_iff, Option-cases, inl, inr,
  ltb,
}
use approvio.Base.Result.{right, ◌>>◌, require, reject_if, Result-cases, >>=-eq-right}
use approvio.Json.{Json, Fields, get, object_of, string_of, date_of}
use approvio.Uuid.{is_uuid_v7}
use approvio.RefreshToken.{
  RefreshToken, TokenStatus, TokenEntity, active, revoked, used, user, agent, TokenError, StatusTag,
  EntityTag, Common, status_tag_of, entity_tag_of, parse_status, parse_entity_type, uuid_property,
  validate_common_fields, validate_used_status_props, validate_status_props, validate_entity_props,
  validate, to_json, active_tag, used_tag, revoked_tag, user_tag, agent_tag, assemble,
}

-- A used token was not used before it was created, and names the next one.
abbrev pub IsStatusValid : ℕ → TokenStatus → Type 0
IsStatusValid created active = Unit
IsStatusValid created revoked = Unit
IsStatusValid created (used at next) = (created ≤ at) × (is_uuid_v7 next ≡ true)

abbrev pub IsEntityValid : TokenEntity → Type 0
IsEntityValid (user id) = is_uuid_v7 id ≡ true
IsEntityValid (agent id) = is_uuid_v7 id ≡ true

-- What a refresh token must satisfy.
pub record IsValid (t : RefreshToken) : Type 0 where
  pub id : is_uuid_v7 t.id ≡ true
  pub family : is_uuid_v7 t.family_id ≡ true
  pub hash : t.token_hash ≢ ""
  pub expires : t.created_at ≤ t.expires_at
  pub status : IsStatusValid t.created_at t.status
  pub entity : IsEntityValid t.entity

uuid_property_sound :
    (key : String) (e : TokenError) (fs : Fields) (s : String)
    → uuid_property key e fs ≡ right s
    → is_uuid_v7 s ≡ true
unfolding uuid_property
uuid_property_sound key e fs s h = elim (Option-cases (string_of (get key fs))) [
  | inl absent ↦ ground arith
  | inr (r, found) ↦ ground arith
]

used_inversion :
    (created : ℕ) (fs : Fields) (s : TokenStatus)
    → validate_used_status_props created fs ≡ right s
    → (at : ℕ) × (next : String) × (used at next ≡ s) × (created ≤ at) × (is_uuid_v7 next ≡ true)
unfolding validate_used_status_props
used_inversion created fs s h = elim (Option-cases (date_of (get "usedAt" fs))) [
  | inl absent ↦ ground arith
  | inr (at, found) ↦
      elim (Result-cases (uuid_property "nextTokenId" TokenError.invalid_next_token_id fs)) [
        | inl (e, refused) ↦ ground arith
        | inr (next, passed) ↦ (
          at,
          next,
          ground arith,
          ground arith,
          uuid_property_sound "nextTokenId" _ fs next passed,
        )
      ]
]

status_sound :
    (tag : StatusTag) (created : ℕ) (fs : Fields) (s : TokenStatus)
    → validate_status_props tag created fs ≡ right s
    → IsStatusValid created s
unfolding validate_status_props
status_sound active_tag created fs s h =
    let q : active ≡ s = cc in subst (IsStatusValid created) q tt
status_sound revoked_tag created fs s h =
    let q : revoked ≡ s = cc in subst (IsStatusValid created) q tt
status_sound used_tag created fs s h =
    let (at, next, q, l, u) = used_inversion created fs s h in
    subst (IsStatusValid created) q (l, u)

entity_sound :
    (tag : EntityTag) (fs : Fields) (e : TokenEntity)
    → validate_entity_props tag fs ≡ right e
    → IsEntityValid e
unfolding validate_entity_props
entity_sound user_tag fs e h =
    elim (Result-cases (uuid_property "userId" TokenError.invalid_user_id fs)) [
      | inl (x, refused) ↦ ground arith
      | inr (id, passed) ↦
          let q : user id ≡ e = ground arith in
          subst IsEntityValid q (uuid_property_sound "userId" _ fs id passed)
    ]
entity_sound agent_tag fs e h =
    elim (Result-cases (uuid_property "agentId" TokenError.invalid_agent_id fs)) [
      | inl (x, refused) ↦ ground arith
      | inr (id, passed) ↦
          let q : agent id ≡ e = ground arith in
          subst IsEntityValid q (uuid_property_sound "agentId" _ fs id passed)
    ]

last_step :
    (c d : Common)
    → ((reject_if (ltb c.expires_at c.created_at) TokenError.expire_before_create) >> right c)
      ≡ right d
    → is_uuid_v7 c.id ≡ true
    → is_uuid_v7 c.family_id ≡ true
    → (c.token_hash == "") ≡ false
    → (is_uuid_v7 d.id ≡ true)
      × (is_uuid_v7 d.family_id ≡ true)
      × (d.token_hash ≢ "")
      × (d.created_at ≤ d.expires_at)
last_step c d h id family hash =
    let q : c ≡ d = ground arith in
    let valid : (is_uuid_v7 c.id ≡ true)
        × (is_uuid_v7 c.family_id ≡ true)
        × (c.token_hash ≢ "")
        × (c.created_at ≤ c.expires_at) =
      (id, family, (λ e. ground (arith, (eq_iff c.token_hash "").1 e)), ground arith) in
    subst
      (λ x.
        (is_uuid_v7 x.id ≡ true)
        × (is_uuid_v7 x.family_id ≡ true)
        × (x.token_hash ≢ "")
        × (x.created_at ≤ x.expires_at))
      q valid

common_sound :
    (fs : Fields) (c : Common)
    → validate_common_fields fs ≡ right c
    → (is_uuid_v7 c.id ≡ true)
      × (is_uuid_v7 c.family_id ≡ true)
      × (c.token_hash ≢ "")
      × (c.created_at ≤ c.expires_at)
unfolding validate_common_fields
common_sound fs c h =
    let (id, id_passed, h₁) = >>=-eq-right (uuid_property "id" TokenError.invalid_id fs) _ h in
    let (family, family_passed, h₂) =
      >>=-eq-right (uuid_property "familyId" TokenError.invalid_family_id fs) _ h₁ in
    let (hash, hash_found, h₃) =
      >>=-eq-right (require (string_of (get "tokenHash" fs)) TokenError.invalid_token_hash) _ h₂ in
    let (t, hash_passed, h₄) =
      >>=-eq-right (reject_if (hash == "") TokenError.invalid_token_hash) _ h₃ in
    let (status, status_parsed, h₅) = >>=-eq-right (parse_status fs) _ h₄ in
    let (entity, entity_parsed, h₆) = >>=-eq-right (parse_entity_type fs) _ h₅ in
    let (expires, expires_found, h₇) =
      >>=-eq-right (require (date_of (get "expiresAt" fs)) TokenError.invalid_expires_at) _ h₆ in
    let (created, created_found, h₈) =
      >>=-eq-right (require (date_of (get "createdAt" fs)) TokenError.invalid_created_at) _ h₇ in
    last_step _ c h₈ (uuid_property_sound "id" _ fs id id_passed)
      (uuid_property_sound "familyId" _ fs family family_passed) (by_test (hash == "") hash_passed)
  where
    by_test :
        (b : Bool) {u : Unit {0}} → reject_if b TokenError.invalid_token_hash ≡ right u → b ≡ false
    by_test true h = cc
    by_test false h = refl

round_trip : (t : RefreshToken) → IsValid t → validate (to_json t) ≡ right t
unfolding validate to_json get parse_status parse_entity_type status_tag_of entity_tag_of
    uuid_property
round_trip t v =
    ground (arith, v.id, v.family, v.hash, v.expires, v.status, v.entity, eq_iff t.token_hash "")

sound : (j : Json) (t : RefreshToken) → validate j ≡ right t → IsValid t
unfolding validate
sound j t h =
    let (fs, found, h₁) = >>=-eq-right (require (object_of j) TokenError.invalid_structure) _ h in
    let (c, common, h₂) = >>=-eq-right (validate_common_fields fs) _ h₁ in
    let (s, status, h₃) = >>=-eq-right (validate_status_props c.status c.created_at fs) _ h₂ in
    let (e, entity, h₄) = >>=-eq-right (validate_entity_props c.entity_type fs) _ h₃ in
    let (id, family, hash, expires) = common_sound fs c common in
    let q : assemble c s e ≡ t = cc in
    subst IsValid q (record {
      id = id;
      family = family;
      hash = hash;
      expires = expires;
      status = status_sound c.status c.created_at fs s status;
      entity = entity_sound c.entity_type fs e entity;
    })

-- Whatever token the validation returns is valid; and each valid token passes, as it is, when it is
-- validated as an object.
pub validate_token_exact :
    (t : RefreshToken)
    → ((j : Json) → validate j ≡ right t → IsValid t) × (IsValid t → validate (to_json t) ≡ right t)
validate_token_exact t = ((λ j h. sound j t h), round_trip t)

-- An object that shows a token is validated as that token or not at all.
pub validate-to_json : (t u : RefreshToken) → validate (to_json t) ≡ right u → u ≡ t
unfolding validate to_json get parse_status parse_entity_type status_tag_of entity_tag_of
    uuid_property
validate-to_json t u h = ground arith
