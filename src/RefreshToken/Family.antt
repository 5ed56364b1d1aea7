-- ===== src/RefreshToken/Family.antt =====
-- services/src/auth/auth.service.ts, `validateTokenRefreshEligibilityOrRevoke`, over the rows of
-- external/src/database/refresh-token.repository.ts, while nobody else uses the table; a failure of
-- the database itself is left out. `Rotation` has what others do meanwhile.
use approvio.Base.{
  ℕ, suc, String, not, List, [], ◌∷◌, ◌≡◌, ◌≢◌, refl, arith, eq_iff, In, keep, if◌then◌else◌, ◌==◌,
  Bool-cases, inl, inr, ap, sym,
}
use approvio.Base.Result.{Result, left, right}
use approvio.RefreshToken.{
  RefreshToken, revoked, EligibilityError, token_expired, token_revoked, reuse_detected,
  can_token_be_refreshed, is_expired,
}

-- A row of the table: the token, and the number for the optimistic concurrency control
pub record Row : Type 0 where
  pub token : RefreshToken
  pub occ : ℕ

-- `data: {status: REVOKED, occ: {increment: 1}}`
abbrev pub revoke : Row → Row
revoke r = record { token = record r.token { status = revoked }; occ = suc r.occ }

-- `revokeFamily`
unfoldable pub revoke_family : String → List Row → List Row
revoke_family family [] = []
revoke_family family (r ∷ rows) =
    (if r.token.family_id == family then revoke r else r) ∷ revoke_family family rows

-- `validateTokenRefreshEligibilityOrRevoke`: what it returns, and the rows as it leaves them
unfoldable pub validate_or_revoke :
    RefreshToken → ℕ → List Row → Result EligibilityError (Unit {0}) × List Row
unfolding can_token_be_refreshed revoke_family
validate_or_revoke t time rows = elim (can_token_be_refreshed t time) [
  | right _ ↦ (right tt, rows)
  | left reuse_detected ↦ (left reuse_detected, revoke_family t.family_id rows)
  | left token_expired ↦ (left token_expired, rows)
  | left token_revoked ↦ (left token_revoked, rows)
]

-- No row of the family has a token that can be refreshed, at any time.
abbrev pub IsDead : String → List Row → Type 0
IsDead family rows =
    (r : Row)
    → In r rows
    → r.token.family_id ≡ family
    → (time : ℕ) → can_token_be_refreshed r.token time ≢ right tt

-- The rows of the other families.
abbrev pub others : String → List Row → List Row
others family rows = keep (λ r. not (r.token.family_id == family)) rows

pub revoked_refused :
    (t : RefreshToken) (time : ℕ) → t.status ≡ revoked → can_token_be_refreshed t time ≢ right tt
unfolding can_token_be_refreshed is_expired
revoked_refused t time e h = absurd (ground arith)

revoke_family-IsDead :
    (family : String) (rows : List Row) → IsDead family (revoke_family family rows)
unfolding revoke_family
revoke_family-IsDead family [] r i e time h = absurd i
revoke_family-IsDead family (x ∷ rows) r i e time h =
    elim (Bool-cases (x.token.family_id == family)) [
      | inl same ↦ elim i [
        | inl q ↦
            let q' : revoke x ≡ r = rw same at q in
            revoked_refused r.token time (ap (λ y. y.token.status) (sym q')) h
        | inr j ↦ revoke_family-IsDead family rows r j e time h
      ]
      | inr differs ↦ elim i [
        | inl q ↦
            let q' : x ≡ r = rw differs at q in
            absurd
              (ground (arith, eq_iff x.token.family_id family, ap (λ y. y.token.family_id) q', e))
        | inr j ↦ revoke_family-IsDead family rows r j e time h
      ]
    ]

others-revoke_family :
    (family : String) (rows : List Row)
    → others family (revoke_family family rows) ≡ others family rows
unfolding revoke_family
others-revoke_family family [] = refl
others-revoke_family family (x ∷ rows) = elim (Bool-cases (x.token.family_id == family)) [
  | inl same ↦ rw (same, revoke_family) (rw same (others-revoke_family family rows))
  | inr differs ↦
      rw (differs, revoke_family) (rw differs (ap (λ l. x ∷ l) (others-revoke_family family rows)))
]

by_result :
    (t : RefreshToken) (time : ℕ) (rows : List Row) (r : Result EligibilityError (Unit {0}))
    → can_token_be_refreshed t time ≡ r
    → ((validate_or_revoke t time rows).0 ≡ r)
      × (r ≡ left reuse_detected
          → IsDead t.family_id (validate_or_revoke t time rows).1
            × (others t.family_id (validate_or_revoke t time rows).1 ≡ others t.family_id rows))
      × (r ≢ left reuse_detected → (validate_or_revoke t time rows).1 ≡ rows)
unfolding validate_or_revoke
by_result t time rows (right _) e =
    (rw (e, validate_or_revoke) refl, (λ q. cc), λ n. rw (e, validate_or_revoke) refl)
by_result t time rows (left reuse_detected) e = (
  rw (e, validate_or_revoke) refl,
  (λ q.
      rw (e, validate_or_revoke)
        (revoke_family-IsDead t.family_id rows, others-revoke_family t.family_id rows)),
  λ n. absurd (n refl),
)
by_result t time rows (left token_expired) e =
    (rw (e, validate_or_revoke) refl, (λ q. cc), λ n. rw (e, validate_or_revoke) refl)
by_result t time rows (left token_revoked) e =
    (rw (e, validate_or_revoke) refl, (λ q. cc), λ n. rw (e, validate_or_revoke) refl)

-- The call returns what the eligibility test returns. If that is a detected reuse, afterwards no
-- token of the family can be refreshed at any time, and the other families are as before; in each
-- other case no row changes.
pub validate_or_revoke_outcome :
    (t : RefreshToken) (time : ℕ) (rows : List Row)
    → ((validate_or_revoke t time rows).0 ≡ can_token_be_refreshed t time)
      × (can_token_be_refreshed t time ≡ left reuse_detected
          → IsDead t.family_id (validate_or_revoke t time rows).1
            × (others t.family_id (validate_or_revoke t time rows).1 ≡ others t.family_id rows))
      × (can_token_be_refreshed t time ≢ left reuse_detected
          → (validate_or_revoke t time rows).1 ≡ rows)
validate_or_revoke_outcome t time rows = by_result t time rows (can_token_be_refreshed t time) refl
