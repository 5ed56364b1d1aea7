-- ===== src/Space.antt =====
-- domain/src/space.ts: `SpaceFactory`.
use mathlib.Core.Path.{subst}
use approvio.Base.{
  ℕ, String, Option, none, some, Bool, true, false, not, ◌≡◌, refl, arith, ltb, nat_eq, ◌||◌, all,
}
use approvio.Base.Result.{Result, right, ◌>>◌, reject_if}
use approvio.Base.Text.{codes, utf16_length, is_blank, is_alnum, is_space, truthy, truthy-truthy}
use approvio.Uuid.{is_uuid_v7}

-- `SpaceValidationError`
pub data SpaceError : Type 0 where
  invalid_uuid name_empty name_too_long name_invalid_characters description_too_long
        update_before_create :
      SpaceError

pub record Space : Type 0 where
  pub id : String
  pub name : String
  pub description : Option String
  pub created_at : ℕ
  pub updated_at : ℕ

abbrev space_name_max_length : ℕ
space_name_max_length = 255

abbrev space_description_max_length : ℕ
space_description_max_length = 2048

-- `[a-zA-Z0-9\s_-]`
is_name_character : ℕ → Bool
is_name_character c = is_alnum c || is_space c || nat_eq c b'_' || nat_eq c b'-'

-- `validateName`
unfoldable pub validate_name : String → Result SpaceError (Unit {0})
unfolding is_name_character
validate_name name = do
  reject_if (is_blank (codes name)) name_empty
  reject_if (ltb space_name_max_length (utf16_length (codes name))) name_too_long
  reject_if (not (all is_name_character (codes name))) name_invalid_characters

-- `validateDescription`, of a description that is not empty
unfoldable pub validate_description : Option String → Result SpaceError (Unit {0})
validate_description none = right tt
validate_description (some d) =
    reject_if (ltb space_description_max_length (utf16_length (codes d))) description_too_long

-- `SpaceFactory.validate`: an empty description becomes a missing one.
unfoldable pub validate : Space → Result SpaceError Space
unfolding validate_name validate_description
validate s = do
  reject_if (not (is_uuid_v7 s.id)) invalid_uuid
  validate_name s.name
  validate_description (truthy s.description)
  reject_if (ltb s.updated_at s.created_at) update_before_create
  right (record s { description = truthy s.description })

-- `SpaceFactory.newSpace`: the id comes from `uuidv7()`, the instant from the clock.
unfoldable pub new_space : String → ℕ → String → Option String → Result SpaceError Space
unfolding validate
new_space id now name description =
    validate (record {
      id = id;
      name = name;
      description = description;
      created_at = now;
      updated_at = now;
    })

-- What the validation returns, it returns again unchanged, so a stored space is read back.
pub validate-again : (s t : Space) → validate s ≡ right t → validate t ≡ right t
unfolding validate
validate-again s t h =
    let facts : (is_uuid_v7 s.id ≡ true)
        × (validate_name s.name ≡ right tt)
        × (validate_description (truthy s.description) ≡ right tt)
        × (ltb s.updated_at s.created_at ≡ false)
        × (record s { description = truthy s.description } ≡ t) =
      ground arith in
    subst (λ x. validate x ≡ right x) facts.4
      (rw (facts.0, facts.1, truthy-truthy s.description, facts.2, facts.3) refl)
