-- ===== src/Task/Locks.antt =====
-- About the names of lock owners, `validateLock` of domain/src/workflow-tasks/base.ts.
use approvio.Base.{
  ℕ, true, List, [], ◌∷◌, ◌≡◌, ◌≢◌, ◌↔◌, ◌⊎◌, inl, inr, refl, arith, Bool-cases, All,
}
use approvio.Base.Text.{is_alnum}
use approvio.Task.{is_lock_rest, is_letter, is_lock_by}

-- No two dashes in a row
abbrev HasSingleDashes : List ℕ → Type 0
HasSingleDashes [] = Unit
HasSingleDashes (c ∷ []) = Unit
HasSingleDashes (c ∷ d ∷ s) = ((c ≡ b'-') → d ≢ b'-') × HasSingleDashes (d ∷ s)

-- The last character of the text is a letter or a digit.
abbrev EndsInAlnum : List ℕ → Type 0
EndsInAlnum [] = Unit
EndsInAlnum (c ∷ []) = is_alnum c ≡ true
EndsInAlnum (c ∷ d ∷ s) = EndsInAlnum (d ∷ s)

-- What the comment above the pattern asks for.
pub record IsOwnerName (c : ℕ) (s : List ℕ) : Type 0 where
  pub starts : is_letter c ≡ true
  pub characters : All (λ d. (is_alnum d ≡ true) ⊎ (d ≡ b'-')) s
  pub dashes : HasSingleDashes s
  pub ends : EndsInAlnum s

abbrev IsRest : List ℕ → Type 0
IsRest s = All (λ d. (is_alnum d ≡ true) ⊎ (d ≡ b'-')) s × HasSingleDashes s × EndsInAlnum s

dash_not_alnum : (d : ℕ) → is_alnum d ≡ true → d ≢ b'-'
unfolding is_alnum
dash_not_alnum d h e = ground arith

is_lock_rest_sound : (s : List ℕ) → is_lock_rest s ≡ true → IsRest s
unfolding is_lock_rest
is_lock_rest_sound [] h = (tt, tt, tt)
is_lock_rest_sound (c ∷ []) h = ((inl h, tt), tt, h)
is_lock_rest_sound (c ∷ d ∷ s) h =
    let (chars, dashes, ends) = is_lock_rest_sound (d ∷ s) (ground arith) in
    elim (Bool-cases (is_alnum c)) [
      | inl a ↦ ((inl a, chars), ((λ e. absurd (dash_not_alnum c a e)), dashes), ends)
      | inr n ↦
          let dash : c ≡ b'-' = ground arith in
          let next : is_alnum d ≡ true = ground arith in
          ((inr dash, chars), ((λ _. dash_not_alnum d next), dashes), ends)
    ]

is_lock_rest_complete : (s : List ℕ) → IsRest s → is_lock_rest s ≡ true
unfolding is_lock_rest
is_lock_rest_complete [] h = refl
is_lock_rest_complete (c ∷ []) h = h.2
is_lock_rest_complete (c ∷ d ∷ s) ((a, (b, bs)), (p, ps), e) =
    let rest = is_lock_rest_complete (d ∷ s) ((b, bs), ps, e) in
    elim a [
      | inl al ↦ ground (arith, al, rest)
      | inr dash ↦ elim b [
        | inl al ↦ ground (arith, al, dash, rest)
        | inr again ↦ absurd (p dash again)
      ]
    ]

-- The pattern accepts exactly the names that the comment above it describes: a letter first, then
-- letters, digits and dashes, no two dashes in a row, and a letter or a digit at the end.
pub is_lock_by_iff : (c : ℕ) (s : List ℕ) → (is_lock_by (c ∷ s) ≡ true) ↔ IsOwnerName c s
unfolding is_lock_by
is_lock_by_iff c s = (
  (λ h.
      let (chars, dashes, ends) = is_lock_rest_sound s (ground arith) in
      record { starts = ground arith; characters = chars; dashes = dashes; ends = ends }),
  λ n. ground (arith, n.starts, is_lock_rest_complete s (n.characters, n.dashes, n.ends)),
)
