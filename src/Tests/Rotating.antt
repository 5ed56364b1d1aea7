-- ===== src/Tests/Rotating.antt =====
-- A family that is revoked while a refresh of its token is under way, and commits before or after.
use approvio.Base.{
  ◌+◌, String, [], ◌∷◌, ◌≡◌, ◌≢◌, refl, arith, inl, inr, ap, ◌∙◌, eq_iff, ◌==◌, false,
}
use approvio.Base.Result.{right}
use approvio.Json.{get}
use approvio.RefreshToken.{
  used, RefreshToken, TokenEntity, active, can_token_be_refreshed, is_expired, parse_status,
  parse_entity_type, uuid_property,
}
use approvio.RefreshToken.Rotation.{
  revoking, revoke_seen, detect, create_token, idle, eligible, login, read, System, set_pc, pick,
  Steps, done, later, empty,
}
use approvio.RefreshToken.Rotation.Revoked.{
  IsWorthless, after_revocation, revoked_token_stays-IsWorthless,
}
use approvio.Uuid.{is_uuid_v7}

abbrev family : String
family = "0190a0b0-1c2d-7abc-8def-0123456789b0"

abbrev other_family : String
other_family = "0190a0b0-1c2d-7abc-8def-0123456789ba"

abbrev created : String → String → RefreshToken
created id family_id = record {
  id = id;
  token_hash = "hash";
  family_id = family_id;
  expires_at = 100 + 2592000000;
  created_at = 100;
  status = active;
  entity = TokenEntity.user "0190a0b0-1c2d-7abc-8def-0123456789c1";
}

abbrev first : RefreshToken
first = created "0190a0b0-1c2d-7abc-8def-0123456789b1" family

abbrev other : RefreshToken
other = created "0190a0b0-1c2d-7abc-8def-0123456789bb" other_family

first_created : create_token first.id family "hash" 100 100 first.entity ≡ right first
unfolding create_token get parse_status parse_entity_type uuid_property is_uuid_v7
first_created = refl

other_created : create_token other.id other_family "hash" 100 100 other.entity ≡ right other
unfolding create_token get parse_status parse_entity_type uuid_property is_uuid_v7
other_created = refl

differ : (a b : String) → (a == b) ≡ false → a ≢ b
differ a b h e = ground (arith, eq_iff a b)

-- The caller 1 has read the token.
abbrev under_way : System
under_way = record {
  rows = record { token = first; occ = 0 } ∷ [];
  pc = set_pc (set_pc (λ _. idle) 0 idle) 1 (eligible first 0);
}

Steps-under_way : Steps empty under_way
unfolding can_token_be_refreshed is_expired
Steps-under_way =
    later
      (later done (
        pick 0 (
          login first.id family "hash" 100 100 first.entity first first_created (λ r i. absurd i)
            (λ r i. absurd i))))
      (pick 1 (read (record { token = first; occ = 0 }) 200 (inl refl) refl))

-- The caller 3 starts to revoke the family.
abbrev revocation : System
revocation = record {
  rows = under_way.rows;
  pc = set_pc under_way.pc 3 (revoking family (first.id ∷ []));
}

Steps-revocation : Steps empty revocation
Steps-revocation = later Steps-under_way (pick 3 (detect family))

-- The revocation ends, and somebody logs in.
abbrev logged_in : System
logged_in = record {
  rows =
      record { token = other; occ = 0 }
      ∷ (after_revocation 3 family (first.id ∷ []) revocation).rows;
  pc = set_pc (set_pc revocation.pc 3 idle) 2 idle;
}

Steps-logged_in : Steps (after_revocation 3 family (first.id ∷ []) revocation) logged_in
unfolding revoke_seen
Steps-logged_in = later done (
    pick 2 (
      login other.id other_family "hash" 100 100 other.entity other other_created
        (λ r i e. elim i [
          | inl q ↦ differ first.id other.id refl (ap (λ y. y.token.id) q ∙ e)
          | inr j ↦ absurd j
        ])
        (λ r i e. elim i [
          | inl q ↦ differ family other_family refl (ap (λ y. y.token.family_id) q ∙ e)
          | inr j ↦ absurd j
        ])))

revoked_token_stays-IsWorthless_example : IsWorthless first.id logged_in.rows
revoked_token_stays-IsWorthless_example =
    revoked_token_stays-IsWorthless revocation logged_in 3 family (first.id ∷ [])
      (record { token = first; occ = 0 }) Steps-revocation refl (inl refl) refl refl Steps-logged_in

-- The refresh of the caller 1 commits while the caller 3 revokes the family.
abbrev next : RefreshToken
next = created "0190a0b0-1c2d-7abc-8def-0123456789b2" family

abbrev used_first : RefreshToken
used_first = record first { status = used 200 next.id }
