-- ===== src/OrganizationAdmin.antt =====
-- domain/src/organization-admin.ts: `OrganizationAdminFactory`.
use approvio.Base.{ℕ, String, true, false, not, ◌≡◌, ◌↔◌, ◌≤◌, arith, ltb}
use approvio.Base.Result.{Result, right, ◌>>◌, reject_if}
use approvio.Base.Text.{codes, utf16_length, is_blank}
use approvio.Email.{is_email}
use approvio.Uuid.{is_uuid_v7}

-- `OrganizationAdminValidationError`
pub data AdminError : Type 0 where
  invalid_uuid email_empty email_too_long email_invalid : AdminError

pub record OrganizationAdmin : Type 0 where
  pub id : String
  pub email : String
  pub created_at : ℕ

abbrev org_admin_email_max_length : ℕ
org_admin_email_max_length = 512

-- `validateOrganizationAdminEmail`
unfoldable pub validate_email : String → Result AdminError (Unit {0})
validate_email email = do
  reject_if (is_blank (codes email)) email_empty
  reject_if (ltb org_admin_email_max_length (utf16_length (codes email))) email_too_long
  reject_if (not (is_email email)) email_invalid

-- `OrganizationAdminFactory.validate`
unfoldable pub validate : OrganizationAdmin → Result AdminError OrganizationAdmin
unfolding validate_email
validate a = do reject_if (not (is_uuid_v7 a.id)) invalid_uuid; validate_email a.email; right a

-- `newOrganizationAdmin`: the id comes from `uuidv7()`, the instant from the clock.
unfoldable pub new_organization_admin : String → ℕ → String → Result AdminError OrganizationAdmin
unfolding validate
new_organization_admin id now email = validate (record { id = id; email = email; created_at = now })

-- An administrator is accepted as it is exactly if its id is a UUID of version 7, and its text for an
-- e-mail address is one, has at most 512 code units, and is not blank.
pub validate_iff :
    (a : OrganizationAdmin)
    → (validate a ≡ right a) ↔ (
        (is_uuid_v7 a.id ≡ true)
        × (is_email a.email ≡ true)
        × (utf16_length (codes a.email) ≤ 512)
        × (is_blank (codes a.email) ≡ false))
unfolding validate validate_email
validate_iff a = ((λ h. ground arith), λ h. ground (arith, h.0, h.1, h.2))
