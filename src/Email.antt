-- ===== src/Email.antt =====
-- utils/src/validation.ts, `isEmail`: the regular expression EMAIL_REGEX over the code points of the
-- text. Neither form of a domain has an `@`, so the domain is what follows the last one.
use Prim.Native.Nat.{ℕ}
use approvio.Base.{
  Bool, true, false, not, ◌&&◌, ◌||◌, List, [], ◌∷◌, String, leb, nat_eq, length, all, ◌≡◌, refl,
  if◌then◌else◌, Option, none, some,
}
use approvio.Base.Text.{codes, is_space, is_alnum}

-- The text between the places of a separator
unfoldable pub split_on : ℕ → List ℕ → List (List ℕ)
split_on sep [] = [] ∷ []
split_on sep (c ∷ s) = elim (split_on sep s) [
  | [] ↦ [] ∷ []
  | part ∷ parts ↦ if nat_eq c sep then [] ∷ part ∷ parts else (c ∷ part) ∷ parts
]

-- What stands before and after the last `@`
unfoldable pub split_at_last : List ℕ → Option (List ℕ × List ℕ)
split_at_last [] = none
split_at_last (c ∷ s) = elim (split_at_last s) [
  | some (a, b) ↦ some (c ∷ a, b)
  | none ↦ if nat_eq c b'@' then some ([], s) else none
]

-- `[^<>()[\]\\.,;:\s@"]`
is_local_character : ℕ → Bool
is_local_character c = not (
    nat_eq c b'<'
    || nat_eq c b'>'
    || nat_eq c b'('
    || nat_eq c b')'
    || nat_eq c b'['
    || nat_eq c b']'
    || nat_eq c 92
    || nat_eq c b'.'
    || nat_eq c b','
    || nat_eq c b';'
    || nat_eq c b':'
    || is_space c
    || nat_eq c b'@'
    || nat_eq c 34)

is_nonempty : List ℕ → Bool
is_nonempty [] = false
is_nonempty (_ ∷ _) = true

-- What `.` matches: not the end of a line
is_in_line : ℕ → Bool
is_in_line c = not (nat_eq c 10 || nat_eq c 13 || nat_eq c 0x2028 || nat_eq c 0x2029)

-- `.+"` up to the end
closes_quote : List ℕ → Bool
closes_quote [] = false
closes_quote (c ∷ []) = false
closes_quote (c ∷ d ∷ []) = is_in_line c && nat_eq d 34
closes_quote (c ∷ d ∷ e ∷ s) = is_in_line c && closes_quote (d ∷ e ∷ s)

is_quoted : List ℕ → Bool
is_quoted [] = false
is_quoted (c ∷ s) = nat_eq c 34 && closes_quote s

is_letter : ℕ → Bool
is_letter c = leb b'a' c && leb c b'z' || leb b'A' c && leb c b'Z'

is_digit : ℕ → Bool
is_digit c = leb b'0' c && leb c b'9'

-- `([a-zA-Z\-0-9]+\.)+[a-zA-Z]{2,}`, by the parts between the dots
is_host : List (List ℕ) → Bool
is_host [] = false
is_host (part ∷ []) = false
is_host (part ∷ last ∷ []) =
    is_nonempty part
    && all (λ c. is_alnum c || nat_eq c b'-') part
    && leb 2 (length last)
    && all is_letter last
is_host (part ∷ next ∷ more ∷ parts) =
    is_nonempty part && all (λ c. is_alnum c || nat_eq c b'-') part && is_host (next ∷ more ∷ parts)

-- `[0-9]{1,3}`
is_octet : List ℕ → Bool
is_octet s = is_nonempty s && leb (length s) 3 && all is_digit s

-- The four numbers, with the bracket at the end of the last
drop_bracket : List ℕ → Option (List ℕ)
drop_bracket [] = none
drop_bracket (c ∷ []) = if nat_eq c b']' then some [] else none
drop_bracket (c ∷ d ∷ s) = elim (drop_bracket (d ∷ s)) [ none ↦ none | some t ↦ some (c ∷ t) ]

is_address : List ℕ → Bool
is_address [] = false
is_address (c ∷ s) = nat_eq c b'[' && elim (drop_bracket s) [
  | none ↦ false
  | some t ↦
      leb 4 (length (split_on b'.' t))
      && leb (length (split_on b'.' t)) 4
      && all is_octet (split_on b'.' t)
]

-- `isEmail`
unfoldable pub is_email : String → Bool
unfolding split_at_last split_on is_quoted is_local_character is_nonempty is_address is_host
    closes_quote drop_bracket is_octet is_letter is_in_line is_digit
is_email value = elim (split_at_last (codes value)) [
  | none ↦ false
  | some (local, domain) ↦
      (all (λ part. is_nonempty part && all is_local_character part) (split_on b'.' local)
        || is_quoted local)
      && (is_address domain || is_host (split_on b'.' domain))
]

plain_address : is_email "ann.lee@mail.example.org" ≡ true
unfolding is_email is_alnum is_space
plain_address = refl

no_domain : is_email "ann@example" ≡ false
unfolding is_email is_alnum is_space
no_domain = refl

quoted_address : is_email "\"ann lee\"@[10.0.0.1]" ≡ true
unfolding is_email is_alnum is_space
quoted_address = refl

double_dot : is_email "ann..lee@example.org" ≡ false
unfolding is_email is_alnum is_space
double_dot = refl
