-- ===== src/RefreshToken/Refreshing.antt =====
-- About `markAsUsed` and `canTokenBeRefreshed` of domain/src/refresh-token.ts, which
-- services/src/auth/auth.service.ts calls one after the other.
use mathlib.Core.Path.{subst}
use approvio.Base.{sym, ℕ, ◌+◌, ◌≤◌, String, true, ◌≡◌, refl, arith, ◌↔◌, ap}
use approvio.Base.Result.{right, >>=-eq-right}
use approvio.Uuid.{is_uuid_v7}
use approvio.RefreshToken.{
  RefreshToken, TokenStatus, active, revoked, used, validate, to_json, mark_as_used,
  is_within_grace_period, is_expired, can_token_be_refreshed,
}
use approvio.RefreshToken.Exact.{IsValid, validate_token_exact, validate-to_json, IsStatusValid}

with_status :
    (t : RefreshToken) (s : TokenStatus)
    → IsValid t
    → IsStatusValid t.created_at s
    → IsValid (record t { status = s })
with_status t s v w = record {
  id = v.id;
  family = v.family;
  hash = v.hash;
  expires = v.expires;
  status = w;
  entity = v.entity;
}

-- A valid token is marked as used exactly when the clock is not before its creation and the next
-- token's id is a UUID of version 7; the result is valid too, and differs in its status only.
pub mark_as_used_iff :
    (now : ℕ) (t u : RefreshToken) (next : String)
    → IsValid t
    → (mark_as_used now t next ≡ right u) ↔ (
        (t.created_at ≤ now)
        × (is_uuid_v7 next ≡ true)
        × IsValid u
        × (u ≡ record t { status = used now next }))
unfolding mark_as_used
mark_as_used_iff now t u next v = (
  (λ h.
      let (r, passed, same) =
        >>=-eq-right (validate (to_json (record t { status = used now next }))) _ h in
      let q : u ≡ record t { status = used now next } = cc in
      let valid =
        subst IsValid (validate-to_json (record t { status = used now next }) r passed)
          ((validate_token_exact r).0 (to_json (record t { status = used now next })) passed) in
      (valid.status.0, valid.status.1, subst IsValid (sym q) valid, q)),
  λ h.
      let (l, uuid, valid, q) = h in
      rw
        ((validate_token_exact (record t { status = used now next })).1
          (with_status t (used now next) v (l, uuid)))
        (ap right (sym q)),
)

-- The status lets a token be refreshed at the time.
abbrev pub IsFresh : TokenStatus → ℕ → Type 0
IsFresh active time = Unit
IsFresh revoked time = ⊥
IsFresh (used at next) time = time ≤ at + 30000

-- A token can be refreshed exactly up to its expiry, while it is active, or for thirty seconds from
-- when it was last used; never when it is revoked.
pub can_token_be_refreshed_iff :
    (t : RefreshToken) (time : ℕ)
    → (can_token_be_refreshed t time ≡ right tt) ↔ ((time ≤ t.expires_at) × IsFresh t.status time)
unfolding can_token_be_refreshed is_expired is_within_grace_period
can_token_be_refreshed_iff t time = by_status t.status refl
  where
    by_status :
        (s : TokenStatus)
        → t.status ≡ s
        → (can_token_be_refreshed t time ≡ right tt) ↔ ((time ≤ t.expires_at) × IsFresh s time)
    by_status active e = ((λ h. (ground arith, tt)), λ h. ground arith)
    by_status revoked e = ((λ h. absurd (ground arith)), λ h. absurd h.1)
    by_status (used at next) e = ((λ h. (ground arith, ground arith)), λ h. ground arith)

-- A valid token that was marked as used, whatever its status was before, can be refreshed again
-- until thirty seconds after this mark or its expiry; so a use within the grace period of an
-- earlier one starts the period anew.
pub mark_as_used-can_token_be_refreshed :
    (now later : ℕ) (t u : RefreshToken) (next : String)
    → IsValid t
    → mark_as_used now t next ≡ right u
    → (can_token_be_refreshed u later ≡ right tt) ↔ ((later ≤ t.expires_at) × (later ≤ now + 30000))
mark_as_used-can_token_be_refreshed now later t u next v h =
    let (l, uuid, valid, q) = (mark_as_used_iff now t u next v).0 h in
    rw q (can_token_be_refreshed_iff (record t { status = used now next }) later)
