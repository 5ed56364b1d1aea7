-- ===== src/Uuid.antt =====
-- utils/src/validation.ts, `isUUIDv7`: the regular expression UUID_REGEX with its `i` flag, over the
-- code points of the text.
use Prim.Native.Nat.{ℕ}
use mathlib.Core.Path.{subst}
use approvio.Base.{
  ◌≤◌, ◌+◌, Bool-cases, any, inl, inr, arith, if◌then◌else◌, Bool, true, false, ◌&&◌, ◌||◌, List,
  [], ◌∷◌, String, leb, nat_eq, ◌≡◌, refl,
}
use Prim.Native.Char.{Char, code}
use approvio.Base.Text.{codes}

-- `[0-9a-f]` under the `i` flag
is_hex : ℕ → Bool
is_hex c = leb b'0' c && leb c b'9' || leb b'a' c && leb c b'f' || leb b'A' c && leb c b'F'

-- `[89ab]` under the `i` flag
is_variant : ℕ → Bool
is_variant c =
    nat_eq c b'8'
    || nat_eq c b'9'
    || nat_eq c b'a'
    || nat_eq c b'b'
    || nat_eq c b'A'
    || nat_eq c b'B'

-- What a place of the pattern accepts: a hexadecimal digit, the dash, the version, the variant.
pub data Place : Type 0 where
  hex dash version variant : Place

accepts : Place → ℕ → Bool
accepts hex c = is_hex c
accepts dash c = nat_eq c b'-'
accepts version c = nat_eq c b'7'
accepts variant c = is_variant c

matches : List Place → List ℕ → Bool
matches [] [] = true
matches [] (_ ∷ _) = false
matches (_ ∷ _) [] = false
matches (p ∷ ps) (c ∷ cs) = accepts p c && matches ps cs

abbrev uuid_regex : List Place
uuid_regex =
    hex ∷ hex ∷ hex ∷ hex ∷ hex ∷ hex ∷ hex ∷ hex ∷ dash ∷ hex ∷ hex ∷ hex ∷ hex ∷ dash ∷ version
    ∷ hex ∷ hex ∷ hex ∷ dash ∷ variant ∷ hex ∷ hex ∷ hex ∷ dash ∷ hex ∷ hex ∷ hex ∷ hex ∷ hex ∷ hex
    ∷ hex ∷ hex ∷ hex ∷ hex ∷ hex ∷ hex ∷ []

unfoldable pub is_uuid_v7 : String → Bool
unfolding matches accepts is_hex is_variant
is_uuid_v7 value = matches uuid_regex (codes value)

accepts_v7 : is_uuid_v7 "0190a0b0-1C2d-7abc-8def-0123456789ab" ≡ true
unfolding is_uuid_v7
accepts_v7 = refl

rejects_v4 : is_uuid_v7 "0190a0b0-1c2d-4abc-8def-0123456789ab" ≡ false
unfolding is_uuid_v7
rejects_v4 = refl

-- The lower case of an upper-case hexadecimal digit
abbrev lower_hex : Char → Char
lower_hex c =
    if nat_eq (code c) b'A'
    then "a"
    else if nat_eq (code c) b'B'
    then "b"
    else if nat_eq (code c) b'C'
    then "c"
    else if nat_eq (code c) b'D'
    then "d"
    else if nat_eq (code c) b'E'
    then "e"
    else if nat_eq (code c) b'F'
    then "f"
    else c

-- A UUID in lower case
unfoldable pub lower : String → String
lower String.[] = String.[]
lower (String.◌∷◌ c s) = String.◌∷◌ (lower_hex c) (lower s)

-- An upper-case digit A to F and its lower case are accepted at the same places.
accepts-shift :
    (p : Place) (n : ℕ) → 65 ≤ n → n ≤ 70 → accepts p n ≡ true → accepts p (n + 32) ≡ true
unfolding accepts is_hex is_variant
accepts-shift hex n a b h = ground arith
accepts-shift dash n a b h = ground arith
accepts-shift version n a b h = ground arith
accepts-shift variant n a b h = ground arith

accepts-hit :
    (p : Place) (n m : ℕ)
    → accepts p n ≡ true
    → 65 ≤ m
    → m ≤ 70
    → nat_eq n m ≡ true
    → accepts p (m + 32) ≡ true
accepts-hit p n m h a b e =
    let q : n ≡ m = ground arith in accepts-shift p m a b (subst (λ x. accepts p x ≡ true) q h)

accepts-lower_hex :
    (p : Place) (c : Char) → accepts p (code c) ≡ true → accepts p (code (lower_hex c)) ≡ true
accepts-lower_hex p c h = elim (Bool-cases (nat_eq (code c) b'A')) [
  | inl e ↦ rw e (accepts-hit p (code c) 65 h (omega arith) (omega arith) e)
  | inr x ↦ elim (Bool-cases (nat_eq (code c) b'B')) [
    | inl e ↦ rw (x, e) (accepts-hit p (code c) 66 h (omega arith) (omega arith) e)
    | inr y ↦ elim (Bool-cases (nat_eq (code c) b'C')) [
      | inl e ↦ rw (x, y, e) (accepts-hit p (code c) 67 h (omega arith) (omega arith) e)
      | inr z ↦ elim (Bool-cases (nat_eq (code c) b'D')) [
        | inl e ↦ rw (x, y, z, e) (accepts-hit p (code c) 68 h (omega arith) (omega arith) e)
        | inr u ↦ elim (Bool-cases (nat_eq (code c) b'E')) [
          | inl e ↦ rw (x, y, z, u, e) (accepts-hit p (code c) 69 h (omega arith) (omega arith) e)
          | inr v ↦ elim (Bool-cases (nat_eq (code c) b'F')) [
            | inl e ↦
                rw (x, y, z, u, v, e) (accepts-hit p (code c) 70 h (omega arith) (omega arith) e)
            | inr w ↦ rw (x, y, z, u, v, w) h
          ]
        ]
      ]
    ]
  ]
]

matches-lower :
    (ps : List Place) (s : String)
    → matches ps (codes s) ≡ true
    → matches ps (codes (lower s)) ≡ true
unfolding matches lower
matches-lower [] String.[] h = refl
matches-lower [] (String.◌∷◌ c s) h = cc
matches-lower (p ∷ ps) String.[] h = cc
matches-lower (p ∷ ps) (String.◌∷◌ c s) h =
    ground (arith, accepts-lower_hex p c, matches-lower ps s)

pub is_uuid_v7-lower : (s : String) → is_uuid_v7 s ≡ true → is_uuid_v7 (lower s) ≡ true
unfolding is_uuid_v7
is_uuid_v7-lower s h = matches-lower uuid_regex s h

not_nul : (p : Place) (n : ℕ) → accepts p n ≡ true → nat_eq n 0 ≡ false
unfolding accepts is_hex is_variant
not_nul hex n h = ground arith
not_nul dash n h = ground arith
not_nul version n h = ground arith
not_nul variant n h = ground arith

matches-no_nul :
    (ps : List Place) (s : List ℕ) → matches ps s ≡ true → any (λ c. nat_eq c 0) s ≡ false
unfolding matches
matches-no_nul [] [] h = refl
matches-no_nul [] (c ∷ s) h = cc
matches-no_nul (p ∷ ps) [] h = cc
matches-no_nul (p ∷ ps) (c ∷ s) h = ground (arith, not_nul p c, matches-no_nul ps s)

pub is_uuid_v7-no_nul : (s : String) → is_uuid_v7 s ≡ true → any (λ c. nat_eq c 0) (codes s) ≡ false
unfolding is_uuid_v7
is_uuid_v7-no_nul s h = matches-no_nul uuid_regex (codes s) h
