-- ===== src/Group.antt =====
-- domain/src/group.ts: `GroupFactory`.
pub mod Names
use approvio.Base.{
  ℕ, zero, suc, String, Option, none, some, Bool, true, false, not, List, [], ◌∷◌, ◌≡◌, ◌≢◌, ◌↔◌,
  ◌⊎◌, inl, inr, refl, arith, ltb, leb, nat_eq, ◌&&◌, ◌||◌, any, All, ◌≤◌, Bool-cases, sym, ◌∙◌,
}
use approvio.Base.Int.{ℤ, int_ltb}
use approvio.Base.Result.{Result, right, ◌>>=◌, ◌>>◌, reject_if}
use approvio.Base.Text.{codes, utf16_length, is_blank, is_alnum, truthy}

-- `GroupValidationError`
pub data GroupError : Type 0 where
  name_empty name_too_long name_invalid_characters description_too_long update_before_create
        entities_count_invalid :
      GroupError

-- `Group`, with the number of its members if it has one
pub record Group : Type 0 where
  pub id : String
  pub name : String
  pub description : Option String
  pub created_at : ℕ
  pub updated_at : ℕ
  pub entities_count : Option ℤ

abbrev name_max_length : ℕ
name_max_length = 512

abbrev description_max_length : ℕ
description_max_length = 2048

-- `[^a-zA-Z0-9-]`
unfoldable pub is_foreign : ℕ → Bool
is_foreign c = not (is_alnum c || nat_eq c b'-')

-- `^[-0-9]`
unfoldable pub starts_badly : List ℕ → Bool
starts_badly [] = false
starts_badly (c ∷ s) = nat_eq c b'-' || leb b'0' c && leb c b'9'

-- `-$`
unfoldable pub ends_badly : List ℕ → Bool
ends_badly [] = false
ends_badly (c ∷ []) = nat_eq c b'-'
ends_badly (c ∷ d ∷ s) = ends_badly (d ∷ s)

-- `/[^a-zA-Z0-9-]|(^[-0-9])|(-$)/`
unfoldable pub has_invalid_characters : List ℕ → Bool
unfolding is_foreign starts_badly ends_badly
has_invalid_characters s = any is_foreign s || starts_badly s || ends_badly s

-- `validateGroupName`
unfoldable pub validate_group_name : String → Result GroupError (Unit {0})
unfolding has_invalid_characters
validate_group_name name = do
  reject_if (is_blank (codes name)) name_empty
  reject_if (ltb name_max_length (utf16_length (codes name))) name_too_long
  reject_if (has_invalid_characters (codes name)) name_invalid_characters

-- `validateGroupDescription`, of a description that is not empty
unfoldable pub validate_group_description : Option String → Result GroupError (Unit {0})
validate_group_description none = right tt
validate_group_description (some d) =
    reject_if (ltb description_max_length (utf16_length (codes d))) description_too_long

-- The test of `entitiesCount`
unfoldable pub validate_entities_count : Option ℤ → Result GroupError (Unit {0})
validate_entities_count none = right tt
validate_entities_count (some n) = reject_if (int_ltb n 0) entities_count_invalid

-- `GroupFactory.validate`: an empty description becomes a missing one.
unfoldable pub validate : Group → Result GroupError Group
unfolding validate_group_name validate_group_description validate_entities_count
validate g = do
  validate_group_name g.name
  validate_group_description (truthy g.description)
  reject_if (ltb g.updated_at g.created_at) update_before_create
  validate_entities_count g.entities_count
  right (record g { description = truthy g.description })

-- `GroupFactory.newGroup`: the id comes from `uuidv7()`, the instant from the clock.
unfoldable pub new_group : String → ℕ → String → Option String → Result GroupError Group
unfolding validate
new_group id now name description = validate (record {
  id = id;
  name = name;
  description = description;
  created_at = now;
  updated_at = now;
  entities_count = none;
})
