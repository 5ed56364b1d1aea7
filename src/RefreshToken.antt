-- ===== src/RefreshToken.antt =====
-- domain/src/refresh-token.ts: refresh tokens, their validation, and when one can be used.
pub mod Exact
pub mod Refreshing
pub mod Family
pub mod Rotation
use approvio.Base.{
  ℕ, ◌+◌, ◌-◌, ◌*◌, String, Option, none, some, Bool, true, false, not, ltb, leb, if◌then◌else◌,
  ◌==◌,
}
use approvio.Base.Result.{Result, left, right, ◌>>=◌, ◌>>◌, reject_if, require}
use approvio.Json.{Json, Fields, str, date, obj, end, field, get, object_of, string_of, date_of}
use approvio.Uuid.{is_uuid_v7}

-- `StatusProps`: active, used (when, and the next token's id), or revoked
pub data TokenStatus : Type 0 where
  active revoked : TokenStatus
  used : ℕ → String → TokenStatus

-- `EntityProps`: the id of the user or of the agent
pub data TokenEntity : Type 0 where
  user agent : String → TokenEntity

-- `RefreshToken`
pub record RefreshToken : Type 0 where
  pub id : String
  pub token_hash : String
  pub family_id : String
  pub expires_at : ℕ
  pub created_at : ℕ
  pub status : TokenStatus
  pub entity : TokenEntity

-- `RefreshTokenValidationError`, those that the modelled methods return
pub data TokenError : Type 0 where
  invalid_structure invalid_id invalid_family_id invalid_token_hash invalid_status
        missing_entity_type invalid_entity_type invalid_expires_at invalid_created_at
        expire_before_create invalid_used_at used_before_create invalid_next_token_id
        invalid_user_id invalid_agent_id :
      TokenError

-- `RefreshTokenStatus`
pub data StatusTag : Type 0 where
  active_tag used_tag revoked_tag : StatusTag

-- `EntityType`, of domain/src/entityType.ts
pub data EntityTag : Type 0 where
  user_tag agent_tag : EntityTag

-- `getStringAsEnum(data.status, RefreshTokenStatus)`
unfoldable pub status_tag_of : String → Option StatusTag
status_tag_of s =
    if s == "active"
    then some active_tag
    else if s == "used"
    then some used_tag
    else if s == "revoked"
    then some revoked_tag
    else none

-- `getStringAsEnum(data.entityType, EntityType)`
unfoldable pub entity_tag_of : String → Option EntityTag
entity_tag_of s =
    if s == "user" then some user_tag else if s == "agent" then some agent_tag else none

-- `parseStatus`
unfoldable pub parse_status : Fields → Result TokenError StatusTag
unfolding status_tag_of
parse_status fs = do
  s ← require (string_of (get "status" fs)) invalid_status
  require (status_tag_of s) invalid_status

-- `parseEntityType`
unfoldable pub parse_entity_type : Fields → Result TokenError EntityTag
unfolding entity_tag_of
parse_entity_type fs = do
  s ← require (string_of (get "entityType" fs)) missing_entity_type
  require (entity_tag_of s) invalid_entity_type

-- A property that must be a UUID of version 7.
unfoldable pub uuid_property : String → TokenError → Fields → Result TokenError String
uuid_property key e fs = do
  s ← require (string_of (get key fs)) e
  reject_if (not (is_uuid_v7 s)) e
  right s

-- `RefreshTokenBase & {status, entityType}`
pub record Common : Type 0 where
  pub id : String
  pub family_id : String
  pub token_hash : String
  pub status : StatusTag
  pub entity_type : EntityTag
  pub expires_at : ℕ
  pub created_at : ℕ

-- `validateCommonFields`
unfoldable pub validate_common_fields : Fields → Result TokenError Common
unfolding uuid_property parse_status parse_entity_type
validate_common_fields fs = do
  id ← uuid_property "id" invalid_id fs
  family ← uuid_property "familyId" invalid_family_id fs
  hash ← require (string_of (get "tokenHash" fs)) invalid_token_hash
  reject_if (hash == "") invalid_token_hash
  status ← parse_status fs
  entity ← parse_entity_type fs
  expires ← require (date_of (get "expiresAt" fs)) invalid_expires_at
  created ← require (date_of (get "createdAt" fs)) invalid_created_at
  reject_if (ltb expires created) expire_before_create
  right (record {
    id = id;
    family_id = family;
    token_hash = hash;
    status = status;
    entity_type = entity;
    expires_at = expires;
    created_at = created;
  })

-- `validateUsedStatusProps`
unfoldable pub validate_used_status_props : ℕ → Fields → Result TokenError TokenStatus
unfolding uuid_property
validate_used_status_props created fs = do
  at ← require (date_of (get "usedAt" fs)) invalid_used_at
  reject_if (ltb at created) used_before_create
  next ← uuid_property "nextTokenId" invalid_next_token_id fs
  right (used at next)

-- `validateStatusProps`
unfoldable pub validate_status_props : StatusTag → ℕ → Fields → Result TokenError TokenStatus
unfolding validate_used_status_props
validate_status_props active_tag created fs = right active
validate_status_props used_tag created fs = validate_used_status_props created fs
validate_status_props revoked_tag created fs = right revoked

-- `validateEntityProps`
unfoldable pub validate_entity_props : EntityTag → Fields → Result TokenError TokenEntity
unfolding uuid_property
validate_entity_props user_tag fs = do
  id ← uuid_property "userId" invalid_user_id fs
  right (user id)
validate_entity_props agent_tag fs = do
  id ← uuid_property "agentId" invalid_agent_id fs
  right (agent id)

-- The token from its three parts.
abbrev pub assemble : Common → TokenStatus → TokenEntity → RefreshToken
assemble c s e = record {
  id = c.id;
  token_hash = c.token_hash;
  family_id = c.family_id;
  expires_at = c.expires_at;
  created_at = c.created_at;
  status = s;
  entity = e;
}

-- `RefreshTokenFactory.validate` without selectors; further properties of the object are passed on
-- by the source and have no place in the model
unfoldable pub validate : Json → Result TokenError RefreshToken
unfolding validate_common_fields validate_status_props validate_entity_props
validate j = do
  fs ← require (object_of j) invalid_structure
  common ← validate_common_fields fs
  status ← validate_status_props common.status common.created_at fs
  entity ← validate_entity_props common.entity_type fs
  right (assemble common status entity)

abbrev pub status_fields : TokenStatus → Fields → Fields
status_fields active fs = field "status" (str "active") fs
status_fields revoked fs = field "status" (str "revoked") fs
status_fields (used at next) fs =
    field "status" (str "used") (field "usedAt" (date at) (field "nextTokenId" (str next) fs))

abbrev pub entity_fields : TokenEntity → Fields
entity_fields (user id) = field "entityType" (str "user") (field "userId" (str id) end)
entity_fields (agent id) = field "entityType" (str "agent") (field "agentId" (str id) end)

-- The token as the object that it is.
unfoldable pub to_json : RefreshToken → Json
to_json t = obj (
    field "id" (str t.id) (
      field "tokenHash" (str t.token_hash) (
        field "familyId" (str t.family_id) (
          field "expiresAt" (date t.expires_at) (
            field "createdAt" (date t.created_at)
              (status_fields t.status (entity_fields t.entity)))))))

-- `markAsUsed`, at the instant `now`
unfoldable pub mark_as_used : ℕ → RefreshToken → String → Result TokenError RefreshToken
unfolding validate to_json
mark_as_used now t next =
    let updated : RefreshToken = record t { status = used now next } in
    validate (to_json updated) >>= λ _. right updated

-- `markAsRevoked`
unfoldable pub mark_as_revoked : RefreshToken → Result TokenError RefreshToken
unfolding validate to_json
mark_as_revoked t =
    let updated : RefreshToken = record t { status = revoked } in
    validate (to_json updated) >>= λ _. right updated

-- `GRACE_PERIOD_SECONDS`
abbrev pub grace_period_seconds : ℕ
grace_period_seconds = 30

-- `isWithinGracePeriod`; a time before the use, where the source's difference is negative, is within
unfoldable pub is_within_grace_period : RefreshToken → ℕ → Bool
is_within_grace_period t time = elim t.status [
  | active ↦ false
  | revoked ↦ false
  | used at next ↦ leb (time - at) (grace_period_seconds * 1000)
]

-- `isExpired`
unfoldable pub is_expired : RefreshToken → ℕ → Bool
is_expired t time = ltb t.expires_at time

-- `RefreshTokenEligibilityError`
pub data EligibilityError : Type 0 where
  token_expired token_revoked reuse_detected : EligibilityError

-- `canTokenBeRefreshed`
unfoldable pub can_token_be_refreshed : RefreshToken → ℕ → Result EligibilityError (Unit {0})
unfolding is_expired is_within_grace_period
can_token_be_refreshed t time = if is_expired t time then left token_expired else elim t.status [
  | revoked ↦ left token_revoked
  | active ↦ right tt
  | used at next ↦ if not (is_within_grace_period t time) then left reuse_detected else right tt
]
