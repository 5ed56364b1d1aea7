-- ===== src/Rule/Validation.antt =====
-- `ApprovalRuleFactory`: the validation of a raw value, and what it lets through.
pub mod Exact
use approvio.Base.{
  ℕ, zero, suc, ◌≤◌, String, Option, none, some, Bool, true, false, not, ◌≡◌, refl, ltb,
  if◌then◌else◌, ◌==◌, arith, ap, ◌∙◌, Option-cases, Bool-cases, inl, inr, eq_iff, ◌||◌,
}
use approvio.Base.Int.{ℤ, pos, negsuc, int_ltb}
use approvio.Base.Result.{Result, left, right, ◌>>=◌, ◌>>◌, reject_if, require, >>=-eq-right}
use approvio.Json
use approvio.Json.{
  Json, Items, Fields, undefined, bool, num, integer, str, arr, obj, end, field, get, object_of,
  string_of, integer_of, array_of,
}
use approvio.Rule.{Rule, Rules, and_rule, or_rule, nil, cons}
use approvio.Rule.WellFormed.{WellFormed, WellFormedAll, requirement, all_of, any_of, last, next}
use approvio.Uuid.{is_uuid_v7}

-- `ApprovalRuleValidationError`
pub data RuleError : Type 0 where
  invalid_rule_type group_rule_invalid_group_id group_rule_invalid_min_count
        and_rule_must_have_rules or_rule_must_have_rules max_rule_nesting_exceeded
        malformed_content :
      RuleError

-- `ApprovalRuleType`
pub data RuleType : Type 0 where
  and or group_requirement : RuleType

-- `getStringAsEnum(data.type, ApprovalRuleType)`
unfoldable pub rule_type_of : String → Option RuleType
rule_type_of s =
    if s == "AND"
    then some and
    else if s == "OR"
    then some or
    else if s == "GROUP_REQUIREMENT"
    then some group_requirement
    else none

-- The optional flag: absent, a Boolean, or malformed.
unfoldable pub validate_high_privilege : Json → Result RuleError (Option Bool)
validate_high_privilege undefined = right none
validate_high_privilege (bool b) = right (some b)
validate_high_privilege _ = left malformed_content

-- The integer as a count; a negative one is below 1.
abbrev count_of : ℤ → ℕ
count_of (pos n) = n
count_of (negsuc _) = 0

-- `validateGroupRequirementRule`
unfoldable pub validate_group_requirement : Fields → Result RuleError Rule
unfolding validate_high_privilege
validate_group_requirement fs = do
  group ← require (string_of (get "groupId" fs)) group_rule_invalid_group_id
  reject_if (not (is_uuid_v7 group)) group_rule_invalid_group_id
  min_count ← require (integer_of (get "minCount" fs)) group_rule_invalid_min_count
  reject_if (int_ltb min_count 1) group_rule_invalid_min_count
  high ← validate_high_privilege (get "requireHighPrivilege" fs)
  right (Rule.group_requirement group (count_of min_count) high)

-- `A.traverse(E.Applicative)`: the first error wins.
unfoldable pub traverse_rules : (Json → Result RuleError Rule) → Items → Result RuleError Rules
traverse_rules f Json.nil = right nil
traverse_rules f (Json.cons x xs) = do r ← f x; rs ← traverse_rules f xs; right (cons r rs)

-- `!Array.isArray(data.rules) || data.rules.length === 0`
unfoldable pub nonempty_rules : Json → RuleError → Result RuleError Items
nonempty_rules (arr (Json.cons x xs)) e = right (Json.cons x xs)
nonempty_rules _ e = left e

-- `validateApprovalRuleData` at the depth where so many levels are left: a rule deeper than
-- MAX_NESTING_DEPTH has none.
unfoldable pub validate_rule_data : ℕ → Json → Result RuleError Rule
unfolding validate_group_requirement traverse_rules nonempty_rules rule_type_of
validate_rule_data zero value = left max_rule_nesting_exceeded
validate_rule_data (suc levels) value = do
  fs ← require (object_of value) invalid_rule_type
  type_name ← require (string_of (get "type" fs)) invalid_rule_type
  rule_type ← require (rule_type_of type_name) invalid_rule_type
  elim rule_type [
    | group_requirement ↦ validate_group_requirement fs
    | and ↦ nonempty_rules (get "rules" fs) and_rule_must_have_rules >>= λ items.
        traverse_rules (validate_rule_data levels) items >>= λ rules. right (and_rule rules)
    | or ↦ nonempty_rules (get "rules" fs) or_rule_must_have_rules >>= λ items.
        traverse_rules (validate_rule_data levels) items >>= λ rules. right (or_rule rules)
  ]

abbrev pub max_nesting_depth : ℕ
max_nesting_depth = 2

-- `ApprovalRuleFactory.validate`
unfoldable pub validate : Json → Result RuleError Rule
unfolding validate_rule_data
validate value = validate_rule_data (suc max_nesting_depth) value
