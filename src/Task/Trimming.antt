-- ===== src/Task/Trimming.antt =====
-- About `trim`, as domain/src/workflow-tasks uses it.
use Prim.Native.Char.{Char, code}
use mathlib.Core.Path.{subst}
use approvio.Base.{String, false, ◌≡◌, refl, inl, inr, ap, sym, ◌∙◌, Bool-cases}
use approvio.Base.Text.{codes, is_blank, is_space}
use approvio.Task.{trim_start, trim_end, trim}

-- The first and the last character of the text, if any, are no space.
abbrev StartsTight : String → Type 0
StartsTight String.[] = Unit
StartsTight (String.◌∷◌ c s) = is_space (code c) ≡ false

trim_start-tight : (s : String) → StartsTight (trim_start s)
unfolding trim_start
trim_start-tight String.[] = tt
trim_start-tight (String.◌∷◌ c s) = elim (Bool-cases (is_space (code c))) [
  | inl e ↦ rw e (trim_start-tight s)
  | inr e ↦ rw e e
]

trim_start-eq : (s : String) → StartsTight s → trim_start s ≡ s
unfolding trim_start
trim_start-eq String.[] h = refl
trim_start-eq (String.◌∷◌ c s) h = rw h refl

trim_end-keeps :
    (c : Char) (s : String)
    → is_space (code c) ≡ false
    → trim_end (String.◌∷◌ c s) ≡ String.◌∷◌ c (trim_end s)
unfolding trim_end
trim_end-keeps c s h = elim (Bool-cases (is_blank (codes s))) [
  | inl e ↦ rw (e, h) refl
  | inr e ↦ rw e refl
]

trim_end-tight : (s : String) → StartsTight s → StartsTight (trim_end s)
unfolding trim_end
trim_end-tight String.[] h = tt
trim_end-tight (String.◌∷◌ c s) h = subst StartsTight (sym (trim_end-keeps c s h)) h

is_blank-trim_end : (s : String) → is_blank (codes (trim_end s)) ≡ is_blank (codes s)
unfolding trim_end is_blank
is_blank-trim_end String.[] = refl
is_blank-trim_end (String.◌∷◌ c s) = elim (Bool-cases (is_blank (codes s))) [
  | inl e ↦ elim (Bool-cases (is_space (code c))) [
    | inl f ↦ rw (e, f) refl
    | inr f ↦ rw (e, f) rw f refl
  ]
  | inr e ↦ rw e (rw (is_blank-trim_end s, e) refl)
]

trim_end-trim_end : (s : String) → trim_end (trim_end s) ≡ trim_end s
unfolding trim_end
trim_end-trim_end String.[] = refl
trim_end-trim_end (String.◌∷◌ c s) = elim (Bool-cases (is_blank (codes s))) [
  | inl b ↦ elim (Bool-cases (is_space (code c))) [
    | inl f ↦ rw (b, f) refl
    | inr f ↦ rw (b, f) (rw (is_blank-trim_end s, b, f, trim_end-trim_end s) refl)
  ]
  | inr b ↦ rw b (rw (is_blank-trim_end s, b, trim_end-trim_end s) refl)
]

-- Trimming twice is trimming once.
pub trim-trim : (s : String) → trim (trim s) ≡ trim s
unfolding trim
trim-trim s =
    ap trim_end
      (trim_start-eq (trim_end (trim_start s)) (trim_end-tight (trim_start s) (trim_start-tight s)))
    ∙ trim_end-trim_end (trim_start s)
