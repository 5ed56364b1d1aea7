-- ===== src/Tests/Tokens.antt =====
-- A refresh token that is used twice within the grace period.
use approvio.Base.{◌≤◌, ◌+◌, String, ◌≡◌, refl, arith, ◌↔◌}
use approvio.Base.{List, [], ◌∷◌, ◌≢◌}
use approvio.RefreshToken.{active, reuse_detected}
use approvio.RefreshToken.Family.{
  Row, IsDead, others, validate_or_revoke, validate_or_revoke_outcome,
}
use approvio.Base.Result.{left, right}
use approvio.Json.{Json, get}
use approvio.Uuid.{is_uuid_v7}
use approvio.RefreshToken.{
  RefreshToken, TokenEntity, used, validate, to_json, mark_as_used, can_token_be_refreshed,
  parse_status, parse_entity_type, uuid_property,
}
use approvio.RefreshToken.Exact.{IsValid, validate_token_exact}
use approvio.RefreshToken.Refreshing.{mark_as_used-can_token_be_refreshed}

abbrev next : String
next = "0190a0b0-1c2d-7abc-8def-0123456789b2"

abbrev token : RefreshToken
token = record {
  id = "0190a0b0-1c2d-7abc-8def-0123456789b1";
  token_hash = "hash";
  family_id = "0190a0b0-1c2d-7abc-8def-0123456789b0";
  expires_at = 1000000;
  created_at = 100;
  status = used 1000 next;
  entity = TokenEntity.user "0190a0b0-1c2d-7abc-8def-0123456789c1";
}

abbrev used_again : RefreshToken
used_again = record token { status = used 30000 next }

token-IsValid : IsValid token
unfolding is_uuid_v7
token-IsValid = record {
  id = refl;
  family = refl;
  hash = λ e. cc;
  expires = omega arith;
  status = (omega arith, refl);
  entity = refl;
}

marks_again : mark_as_used 30000 token next ≡ right used_again
unfolding mark_as_used is_uuid_v7 get parse_status parse_entity_type uuid_property
marks_again = refl

validate_token_exact_example :
    ((j : Json) → validate j ≡ right token → IsValid token)
    × (IsValid token → validate (to_json token) ≡ right token)
validate_token_exact_example = validate_token_exact token

mark_as_used-can_token_be_refreshed_example :
    (can_token_be_refreshed used_again 60000 ≡ right tt)
    ↔ ((60000 ≤ token.expires_at) × (60000 ≤ 30000 + 30000))
mark_as_used-can_token_be_refreshed_example =
    mark_as_used-can_token_be_refreshed 30000 60000 token used_again next token-IsValid marks_again

abbrev other_token : RefreshToken
other_token = record token { family_id = "0190a0b0-1c2d-7abc-8def-0123456789bf"; status = active }

abbrev rows : List Row
rows = record { token = token; occ = 1 } ∷ record { token = other_token; occ = 0 } ∷ []

detects_reuse : can_token_be_refreshed token 40000 ≡ left reuse_detected
unfolding can_token_be_refreshed
detects_reuse = refl

validate_or_revoke_outcome_example :
    ((validate_or_revoke token 40000 rows).0 ≡ can_token_be_refreshed token 40000)
    × (can_token_be_refreshed token 40000 ≡ left reuse_detected
        → IsDead token.family_id (validate_or_revoke token 40000 rows).1
          × (others token.family_id (validate_or_revoke token 40000 rows).1
              ≡ others token.family_id rows))
    × (can_token_be_refreshed token 40000 ≢ left reuse_detected
        → (validate_or_revoke token 40000 rows).1 ≡ rows)
validate_or_revoke_outcome_example = validate_or_revoke_outcome token 40000 rows
