-- ===== src/RefreshToken/Rotation.antt =====
-- services/src/auth/auth.service.ts, `refreshTokenForUser` and `refreshTokenForAgent`, over the rows
-- of external/src/database/refresh-token.repository.ts, for any number of concurrent callers.
pub mod Rows
pub mod Tracking
pub mod Revoked
pub mod Gap
use approvio.Base.{
  ℕ, suc, ◌+◌, ◌*◌, String, Option, none, some, Bool, List, [], ◌∷◌, ◌≡◌, ◌≢◌, In, if◌then◌else◌,
  any, map, ◌==◌, ◌&&◌, nat_eq,
}
use approvio.Base.Result.{Result, right, ◌>>=◌}
use approvio.RefreshToken.{
  RefreshToken, TokenEntity, active, TokenError, validate, to_json, mark_as_used,
  can_token_be_refreshed,
}
use approvio.RefreshToken.Family.{Row, revoke}

-- `REFRESH_TOKEN_EXPIRY_DAYS`, in milliseconds
abbrev pub refresh_token_expiry : ℕ
refresh_token_expiry = 30 * 24 * 60 * 60 * 1000

-- `createForUser` and `createForAgent`: the ids come from `uuidv7()`, the hash from SHA-256, the
-- instants from the clock
unfoldable pub create_token :
    String → String → String → ℕ → ℕ → TokenEntity → Result TokenError RefreshToken
unfolding validate to_json
create_token id family_id token_hash now created_at entity =
    let token : RefreshToken = record {
      id = id;
      token_hash = token_hash;
      family_id = family_id;
      expires_at = now + refresh_token_expiry;
      created_at = created_at;
      status = active;
      entity = entity;
    } in
    validate (to_json token) >>= λ _. right token

-- `tx.refreshToken.update` with `where: {id, occ}`; none if it finds no row, and throws
unfoldable pub update_token : RefreshToken → ℕ → List Row → Option (List Row)
update_token token occ [] = none
update_token token occ (r ∷ rows) =
    let rest = update_token token occ rows in
    if (r.token.id == token.id) && nat_eq r.occ occ
    then some (record { token = token; occ = suc occ } ∷ rows)
    else elim rest [ none ↦ none | some rows' ↦ some (r ∷ rows') ]

-- The transaction of `persistNewTokenUpdateOldToken`
unfoldable pub persist_new_token_update_old_token :
    RefreshToken → ℕ → RefreshToken → List Row → Option (List Row)
unfolding update_token
persist_new_token_update_old_token old occ new rows = elim (update_token old occ rows) [
  | none ↦ none
  | some rows' ↦ some (record { token = new; occ = 0 } ∷ rows')
]

-- What the one statement of `revokeFamily` writes when it ends: READ COMMITTED, it revokes the
-- latest versions of the rows whose ids it has seen when it started, and of no others.
unfoldable pub revoke_seen : String → List String → List Row → List Row
revoke_seen family seen [] = []
revoke_seen family seen (r ∷ rows) =
    (if (r.token.family_id == family) && any (λ id. id == r.token.id) seen then revoke r else r)
    ∷ revoke_seen family seen rows

-- Where a caller stands: outside, in a refresh whose token was found eligible, or in a revocation of
-- a family whose statement has started and sees the rows with these ids.
pub data Pc : Type 0 where
  idle : Pc
  revoking : (family : String) (seen : List String) → Pc
  eligible : (old : RefreshToken) (occ : ℕ) → Pc

-- The id of a new token is that of no other token.
abbrev pub IsNewId : String → List Row → Type 0
IsNewId id rows = (r : Row) → In r rows → r.token.id ≢ id

-- What a caller does at once, at READ COMMITTED: a login creates a token with a new family; a refresh
-- reads its token, or finds it reused and starts to revoke its family; the statement that revokes
-- ends; a refresh commits the use of its token together with the next one of the family; a caller
-- that fails gives up.
pub data Move (rows : List Row) : Pc → List Row → Pc → Type 0 where
  login :
      (id family_id token_hash : String) (now created_at : ℕ) (entity : TokenEntity)
      (new : RefreshToken)
      → create_token id family_id token_hash now created_at entity ≡ right new
      → IsNewId id rows
      → ((r : Row) → In r rows → r.token.family_id ≢ family_id)
      → Move rows idle (record { token = new; occ = 0 } ∷ rows) idle
  read :
      (r : Row) (time : ℕ)
      → In r rows
      → can_token_be_refreshed r.token time ≡ right tt
      → Move rows idle rows (eligible r.token r.occ)
  detect : (family : String) → Move rows idle rows (revoking family (map (λ r. r.token.id) rows))
  finish :
      {family : String} {seen : List String}
      → Move rows (revoking family seen) (revoke_seen family seen rows) idle
  rotate :
      {old : RefreshToken} {occ : ℕ} {rows' : List Row} (id token_hash : String)
      (now created_at used_at : ℕ) (new used : RefreshToken)
      → create_token id old.family_id token_hash now created_at old.entity ≡ right new
      → mark_as_used used_at old id ≡ right used
      → IsNewId id rows
      → persist_new_token_update_old_token used occ new rows ≡ some rows'
      → Move rows (eligible old occ) rows' idle
  give_up : {p : Pc} → Move rows p rows idle

-- The table, and where each caller stands
pub record System : Type 0 where
  pub rows : List Row
  pub pc : ℕ → Pc

abbrev pub set_pc : (ℕ → Pc) → ℕ → Pc → ℕ → Pc
set_pc pc i p j = if nat_eq i j then p else pc j

pub data Step (s : System) : System → Type 0 where
  pick :
      (i : ℕ) {rows : List Row} {p : Pc}
      → Move s.rows (s.pc i) rows p
      → Step s (record { rows = rows; pc = set_pc s.pc i p })

-- Any number of steps from one state to another
pub data Steps (s : System) : System → Type 0 where
  done : Steps s s
  later : {t u : System} → Steps s t → Step t u → Steps s u

abbrev pub empty : System
empty = record { rows = []; pc = λ _. idle }
