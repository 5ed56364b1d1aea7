-- ===== src/Tests/Rules.antt =====
-- The rule "two of the engineers or one of the managers", checked, stored and read again.
use approvio.Base.{ℕ, String, true, List, [], ◌∷◌, ◌≡◌, refl, sym, ◌↔◌, inl, inr, arith}
use approvio.Base.Dict.{Dict, lookup}
use approvio.Base.Result.{right}
use approvio.Entity.{EntityRef}
use approvio.Json.{Json}
use approvio.Rule.{voter_count, voting_group_ids, covers}
use approvio.Rule.Satisfies.{Satisfies, covers_iff}
use approvio.Rule.Coverage.{Grows}
use approvio.Rule.WellFormed.{WellFormed}
use approvio.Rule.Validation as RuleValidation
use approvio.Rule.Validation.Exact.{to_json, validate_exact}
use approvio.Tests.Voting.{engineers, managers, rule}

validate_exact_example :
    ((j : Json) → RuleValidation.validate j ≡ right rule → WellFormed 3 rule)
    × (WellFormed 3 rule → RuleValidation.validate (to_json rule) ≡ right rule)
validate_exact_example = validate_exact rule

-- One engineer.
abbrev one : Dict (List String)
one = (engineers, "user:ann" ∷ []) ∷ []

-- Two engineers.
abbrev two : Dict (List String)
two = (engineers, "user:ann" ∷ "user:bob" ∷ []) ∷ []

abbrev voters_in_two : String → ℕ
voters_in_two g = voter_count g two

covers_iff_example : (covers rule two ≡ true) ↔ Satisfies voters_in_two rule
covers_iff_example = covers_iff two voters_in_two (λ g. refl) rule

abbrev manager : Dict (List String)
manager = (managers, "user:eve" ∷ []) ∷ []

abbrev both : Dict (List String)
both = (engineers, "user:ann" ∷ []) ∷ (managers, "user:eve" ∷ []) ∷ []

both-Grows : Grows (voting_group_ids rule) manager both
unfolding voter_count voting_group_ids lookup
both-Grows g (inl e) = rw (sym e) (omega arith)
both-Grows g (inr (inl e)) = rw (sym e) (omega arith)
both-Grows g (inr (inr x)) = absurd x

abbrev ann_reference : EntityRef
ann_reference = record { entity_id = engineers; entity_type = "user" }
