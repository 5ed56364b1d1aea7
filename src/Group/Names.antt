-- ===== src/Group/Names.antt =====
-- About the names of groups, `validateGroupName` of domain/src/group.ts.
use approvio.Base.{
  ℕ, true, false, List, [], ◌∷◌, ◌≡◌, ◌≢◌, ◌↔◌, ◌⊎◌, inl, inr, refl, arith, nat_eq, any, All,
  Bool-cases, String, ◌≤◌, ltb,
}
use approvio.Base.Result.{right}
use approvio.Base.Text.{codes, utf16_length, is_blank, is_alnum, is_space}
use approvio.Group.{
  is_foreign, starts_badly, ends_badly, has_invalid_characters, validate_group_name,
}

-- The last character is no hyphen.
abbrev EndsWell : List ℕ → Type 0
EndsWell [] = Unit
EndsWell (c ∷ []) = c ≢ b'-'
EndsWell (c ∷ d ∷ s) = EndsWell (d ∷ s)

ends_badly_iff : (s : List ℕ) → (ends_badly s ≡ false) ↔ EndsWell s
unfolding ends_badly
ends_badly_iff [] = ((λ _. tt), λ _. refl)
ends_badly_iff (c ∷ []) = (
  (λ h e. ground arith),
  λ h. elim (Bool-cases (nat_eq c b'-')) [ inl e ↦ absurd (h (ground arith)) | inr e ↦ e ],
)
ends_badly_iff (c ∷ d ∷ s) = ends_badly_iff (d ∷ s)

any_foreign_iff :
    (s : List ℕ) → (any is_foreign s ≡ false) ↔ All (λ c. (is_alnum c ≡ true) ⊎ (c ≡ b'-')) s
unfolding is_foreign
any_foreign_iff [] = ((λ _. tt), λ _. refl)
any_foreign_iff (c ∷ s) = (
  (λ h. (
    elim (Bool-cases (is_alnum c)) [ inl a ↦ inl a | inr n ↦ inr ground arith ],
    (any_foreign_iff s).0 (ground arith),
  )),
  λ (a, rest). elim a [
    | inl l ↦ ground (arith, l, (any_foreign_iff s).1 rest)
    | inr l ↦ ground (arith, l, (any_foreign_iff s).1 rest)
  ],
)

-- `[a-zA-Z]`
abbrev IsLetter : ℕ → Type 0
IsLetter c = ((b'a' ≤ c) × (c ≤ b'z')) ⊎ ((b'A' ≤ c) × (c ≤ b'Z'))

-- What the comment in `validateGroupName` asks for, and the length.
pub record IsGroupName (c : ℕ) (s : List ℕ) : Type 0 where
  pub starts : IsLetter c
  pub characters : All (λ d. (is_alnum d ≡ true) ⊎ (d ≡ b'-')) (c ∷ s)
  pub ends : EndsWell (c ∷ s)
  pub short : utf16_length (c ∷ s) ≤ 512

alnum_start : (c : ℕ) (s : List ℕ) → is_alnum c ≡ true → starts_badly (c ∷ s) ≡ false → IsLetter c
unfolding is_alnum starts_badly
alnum_start c s a h = ground arith

dash_starts_badly : (c : ℕ) (s : List ℕ) → c ≡ b'-' → starts_badly (c ∷ s) ≢ false
unfolding starts_badly
dash_starts_badly c s e h = ground arith

letter_start : (c : ℕ) (s : List ℕ) → IsLetter c → starts_badly (c ∷ s) ≡ false
unfolding starts_badly
letter_start c s l = elim l [ inl r ↦ ground arith | inr r ↦ ground arith ]

letter_not_blank : (c : ℕ) (s : List ℕ) → IsLetter c → is_blank (c ∷ s) ≡ false
unfolding is_blank is_space
letter_not_blank c s l = elim l [ inl r ↦ ground arith | inr r ↦ ground arith ]

-- A name that is not empty is accepted exactly if it is what the comment beside the pattern says:
-- it has at most 512 code units, all letters, digits or hyphens, starts with a letter, and does not
-- end with a hyphen.
pub validate_group_name_iff :
    (name : String) (c : ℕ) (s : List ℕ)
    → codes name ≡ c ∷ s
    → (validate_group_name name ≡ right tt) ↔ IsGroupName c s
unfolding validate_group_name has_invalid_characters
validate_group_name_iff name c s e = (
  (λ h.
      let facts : (ltb 512 (utf16_length (codes name)) ≡ false)
          × (any is_foreign (codes name) ≡ false)
          × (starts_badly (codes name) ≡ false)
          × (ends_badly (codes name) ≡ false) =
        ground arith in
      let (long, foreign, start, end) = rw e at facts in
      let chars = (any_foreign_iff (c ∷ s)).0 foreign in
      let first : is_alnum c ≡ true = elim chars.0 [
        | inl a ↦ a
        | inr dash ↦ absurd (dash_starts_badly c s dash start)
      ] in
      record {
        starts = alnum_start c s first start;
        characters = chars;
        ends = (ends_badly_iff (c ∷ s)).0 end;
        short = ground arith;
      }),
  λ n.
      let short : ltb 512 (utf16_length (c ∷ s)) ≡ false = ground (arith, n.short) in
      rw
        (
          e,
          letter_not_blank c s n.starts,
          short,
          (any_foreign_iff (c ∷ s)).1 n.characters,
          letter_start c s n.starts,
          (ends_badly_iff (c ∷ s)).1 n.ends,
        )
        refl,
)
