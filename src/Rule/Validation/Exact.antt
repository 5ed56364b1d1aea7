-- ===== src/Rule/Validation/Exact.antt =====
-- About `ApprovalRuleFactory.validate` of domain/src/approval-rules.ts, with rules stored as raw values.
use approvio.Base.{
  ℕ, zero, suc, ◌≤◌, String, Option, none, some, Bool, true, ◌≡◌, refl, arith, Option-cases, inl,
  inr,
}
use approvio.Base.Int.{pos, negsuc}
use approvio.Base.Result.{Result, right, require, ◌>>=◌, Result-cases}
use approvio.Json
use approvio.Json.{
  Json, Items, Fields, undefined, bool, num, integer, str, arr, obj, end, field, get, object_of,
  string_of, integer_of,
}
use approvio.Rule.{Rule, Rules, and_rule, or_rule, nil, cons}
use approvio.Rule.WellFormed.{WellFormed, WellFormedAll, requirement, all_of, any_of, last, next}
use approvio.Rule.Validation.{
  RuleError, RuleType, and, or, group_requirement, rule_type_of, validate_high_privilege,
  validate_group_requirement, traverse_rules, nonempty_rules, validate_rule_data, validate,
}
use approvio.Uuid.{is_uuid_v7}

-- The flag is stored only if it is there.
abbrev privilege : Option Bool → Fields
privilege none = end
privilege (some b) = field "requireHighPrivilege" (bool b) end

-- A rule as the raw value that it is stored as.
mutual
  pub to_json : Rule → Json
  to_json (Rule.group_requirement g n h) = obj (
      field "type" (str "GROUP_REQUIREMENT")
        (field "groupId" (str g) (field "minCount" (num (integer (pos n))) (privilege h))))
  to_json (and_rule rs) = obj (field "type" (str "AND") (field "rules" (arr (to_items rs)) end))
  to_json (or_rule rs) = obj (field "type" (str "OR") (field "rules" (arr (to_items rs)) end))

  pub to_items : Rules → Items
  to_items nil = Json.nil
  to_items (cons r rs) = Json.cons (to_json r) (to_items rs)

group_requirement_inversion :
    (fs : Fields) (r : Rule)
    → validate_group_requirement fs ≡ right r
    → (g : String) × (n : ℕ) × (h : Option Bool) × (r ≡ Rule.group_requirement g n h)
      × (is_uuid_v7 g ≡ true)
      × (1 ≤ n)
unfolding validate_group_requirement
group_requirement_inversion fs r e = elim (Option-cases (string_of (get "groupId" fs))) [
  | inl no_group ↦ ground arith
  | inr (g, group) ↦ elim (Option-cases (integer_of (get "minCount" fs))) [
    | inl no_count ↦ ground arith
    | inr (negsuc m, count) ↦ ground arith
    | inr (pos n, count) ↦
        elim (Result-cases (validate_high_privilege (get "requireHighPrivilege" fs))) [
          | inl (x, malformed) ↦ ground arith
          | inr (h, flag) ↦ (g, n, h, ground arith, ground arith, ground arith)
        ]
  ]
]

group_requirement_sound :
    (d : ℕ) (fs : Fields) (r : Rule)
    → validate_group_requirement fs ≡ right r
    → WellFormed (suc d) r
group_requirement_sound d fs r e =
    let (g, n, h, shape, uuid, positive) = group_requirement_inversion fs r e in
    rw shape (requirement uuid positive)

module _ (d : ℕ) (f : Json → Result RuleError Rule)
    (sound : (j : Json) (r : Rule) → f j ≡ right r → WellFormed d r) where
  traverse_inversion :
      (x : Json) (xs : Items) (rs : Rules)
      → traverse_rules f (Json.cons x xs) ≡ right rs
      → (r : Rule) × (ss : Rules) × (rs ≡ cons r ss)
        × (f x ≡ right r)
        × (traverse_rules f xs ≡ right ss)
  unfolding traverse_rules
  traverse_inversion x xs rs e = elim (Result-cases (f x)) [
    | inl (y, refused) ↦ ground arith
    | inr (r, passed) ↦ elim (Result-cases (traverse_rules f xs)) [
      | inl (y, refused) ↦ ground arith
      | inr (ss, others) ↦ (r, ss, ground arith, passed, others)
    ]
  ]

  traverse_sound : (xs : Items) (rs : Rules) → traverse_rules f xs ≡ right rs → WellFormedAll d rs
  traverse_sound Json.nil rs e =
      unfold traverse_rules in let q : nil ≡ rs = cc in rw q at (last {d = d})
  traverse_sound (Json.cons x xs) rs e =
      let (r, ss, shape, passed, others) = traverse_inversion x xs rs e in
      rw shape (next (sound x r passed) (traverse_sound xs ss others))

  nonempty_sound :
      (j : Json) (x : RuleError) (items : Items) (rs : Rules)
      → nonempty_rules j x ≡ right items
      → traverse_rules f items ≡ right rs
      → (r : Rule) × (ss : Rules) × (rs ≡ cons r ss) × WellFormedAll d (cons r ss)
  unfolding nonempty_rules
  nonempty_sound (arr (Json.cons y ys)) x items rs e t =
      let q : items ≡ Json.cons y ys = cc in
      let (r, ss, shape, passed, others) = traverse_inversion y ys rs (rw q at t) in
      (r, ss, shape, next (sound y r passed) (traverse_sound ys ss others))
  nonempty_sound (arr Json.nil) x items rs e t = cc
  nonempty_sound undefined x items rs e t = cc
  nonempty_sound Json.null x items rs e t = cc
  nonempty_sound (bool b) x items rs e t = cc
  nonempty_sound (num n) x items rs e t = cc
  nonempty_sound (str s) x items rs e t = cc
  nonempty_sound (Json.date s) x items rs e t = cc
  nonempty_sound (obj s) x items rs e t = cc

-- The nested rules of an AND or OR rule that passed.
abbrev HasNested : ℕ → (Rules → Rule) → Rule → Type 0
HasNested d make r =
    (x : RuleError) × (j : Json) × (items : Items) × (rs : Rules) × (nonempty_rules j x
      ≡ right items)
    × (traverse_rules (validate_rule_data d) items ≡ right rs)
    × (r ≡ make rs)

nested_inversion :
    (d : ℕ) (make : Rules → Rule) (x : RuleError) (j : Json) (r : Rule)
    → (nonempty_rules j x >>= λ items.
        traverse_rules (validate_rule_data d) items >>= λ rs. right (make rs))
      ≡ right r
    → HasNested d make r
nested_inversion d make x j r e = elim (Result-cases (nonempty_rules j x)) [
  | inl (y, refused) ↦ ground arith
  | inr (items, nonempty) ↦ elim (Result-cases (traverse_rules (validate_rule_data d) items)) [
    | inl (y, refused) ↦ ground arith
    | inr (rs, passed) ↦ (x, j, items, rs, nonempty, passed, ground arith)
  ]
]

-- What a value that passed at some depth was.
data Passed (d : ℕ) (r : Rule) : Type 0 where
  as_requirement : (fs : Fields) → validate_group_requirement fs ≡ right r → Passed d r
  as_and : HasNested d and_rule r → Passed d r
  as_or : HasNested d or_rule r → Passed d r

Passed-inversion :
    (d : ℕ) (j : Json) (r : Rule) → validate_rule_data (suc d) j ≡ right r → Passed d r
unfolding validate_rule_data
Passed-inversion d j r e = elim (Option-cases (object_of j)) [
  | inl no_object ↦ absurd (ground arith)
  | inr (fs, object) ↦ elim (Option-cases (string_of (get "type" fs))) [
    | inl no_type ↦ absurd (ground arith)
    | inr (name, named) ↦ by_type fs (rule_type_of name) (rw (object, named) at e)
  ]
]
  where
    by_type :
        (fs : Fields) (t : Option RuleType)
        → (require t RuleError.invalid_rule_type >>= λ rule_type. elim rule_type [
          | group_requirement ↦ validate_group_requirement fs
          | and ↦ nonempty_rules (get "rules" fs) RuleError.and_rule_must_have_rules >>= λ items.
              traverse_rules (validate_rule_data d) items >>= λ rules. right (and_rule rules)
          | or ↦ nonempty_rules (get "rules" fs) RuleError.or_rule_must_have_rules >>= λ items.
              traverse_rules (validate_rule_data d) items >>= λ rules. right (or_rule rules)
        ])
          ≡ right r
        → Passed d r
    by_type fs none f = cc
    by_type fs (some group_requirement) f = as_requirement fs f
    by_type fs (some and) f = as_and (nested_inversion d and_rule _ _ r f)
    by_type fs (some or) f = as_or (nested_inversion d or_rule _ _ r f)

-- Whatever the raw value, the rule that validation returns is well-formed.
validate_sound : (d : ℕ) (j : Json) (r : Rule) → validate_rule_data d j ≡ right r → WellFormed d r
validate_sound zero j r e = unfold validate_rule_data in cc
validate_sound (suc d) j r e = by_shape (validate_sound d) (Passed-inversion d j r e)
  where
    by_shape :
        ((i : Json) (s : Rule) → validate_rule_data d i ≡ right s → WellFormed d s)
        → Passed d r
        → WellFormed (suc d) r
    by_shape ih (as_requirement fs f) = group_requirement_sound d fs r f
    by_shape ih (as_and (x, i, items, rs, n, t, shape)) =
        let (s, ss, cons_shape, formed) =
          nonempty_sound d (validate_rule_data d) ih i x items rs n t in
        rw (shape, cons_shape) (all_of formed)
    by_shape ih (as_or (x, i, items, rs, n, t, shape)) =
        let (s, ss, cons_shape, formed) =
          nonempty_sound d (validate_rule_data d) ih i x items rs n t in
        rw (shape, cons_shape) (any_of formed)

mutual
  unfolding validate_rule_data to_json get

  round_trip : {d : ℕ} {r : Rule} → WellFormed d r → validate_rule_data d (to_json r) ≡ right r
  round_trip (requirement {n = n} {h = none} u p) = ground arith
  round_trip (requirement {n = n} {h = some b} u p) = ground arith
  round_trip (all_of w) = rw (round_trip_all w)
  round_trip (any_of w) = rw (round_trip_all w)

  round_trip_all :
      {d : ℕ} {rs : Rules}
      → WellFormedAll d rs
      → traverse_rules (validate_rule_data d) (to_items rs) ≡ right rs
  round_trip_all last = refl
  round_trip_all (next w ws) = rw (round_trip w, round_trip_all ws)

-- Whatever rule the validation returns is well-formed with at most three levels; and each such
-- rule passes, as it is, when it is stored as a raw value and validated again.
pub validate_exact :
    (r : Rule)
    → ((j : Json) → validate j ≡ right r → WellFormed 3 r)
      × (WellFormed 3 r → validate (to_json r) ≡ right r)
unfolding validate
validate_exact r = ((λ j e. validate_sound 3 j r e), round_trip)
