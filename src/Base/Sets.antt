-- ===== src/Base/Sets.antt =====
-- JavaScript's `Set<string>`: a list in insertion order, without repetition.
use Prim.Native.String.{String}
use mathlib.Core.Path.{◌≡◌, refl}
use mathlib.Core.Bool.{Bool, true, false}
use mathlib.Core.List.{List, [], ◌∷◌}
use native.Mathlib.Omega.{arith}
use text.Mathlib.Text.{◌==◌}
use text.Mathlib.TextEquality.{eq_iff}
use approvio.Base.Tests.{if◌then◌else◌}
use approvio.Base.Lists.{includes}

-- `s.add(k)`
unfoldable pub add : String → List String → List String
add k [] = k ∷ []
add k (x ∷ s) = if x == k then x ∷ s else x ∷ add k s

-- `s.delete(k)`
unfoldable pub delete : String → List String → List String
delete k [] = []
delete k (x ∷ s) = if x == k then s else x ∷ delete k s

-- `s.size > 0`
abbrev pub is_nonempty : List String → Bool
is_nonempty [] = false
is_nonempty (_ ∷ _) = true

-- No element is listed twice.
abbrev pub IsUnique : List String → Type 0
IsUnique [] = Unit
IsUnique (x ∷ s) = (includes x s ≡ false) × IsUnique s

pub includes-add :
    (k j : String) (s : List String)
    → includes j (add k s) ≡ (if k == j then true else includes j s)
unfolding add
includes-add k j [] = ground arith
includes-add k j (x ∷ s) = ground (arith, eq_iff k j, eq_iff x k, eq_iff x j, includes-add k j s)

pub add-IsUnique : (k : String) (s : List String) → IsUnique s → IsUnique (add k s)
unfolding add
add-IsUnique k [] h = (refl, tt)
add-IsUnique k (x ∷ s) h =
    ground (arith, add-IsUnique k s h.1, includes-add k x s, eq_iff x k, eq_iff k x)

pub includes-delete-false :
    (k j : String) (s : List String) → includes j s ≡ false → includes j (delete k s) ≡ false
unfolding delete
includes-delete-false k j [] h = refl
includes-delete-false k j (x ∷ s) h = ground (arith, includes-delete-false k j s)

pub includes-delete :
    (k j : String) (s : List String)
    → IsUnique s
    → includes j (delete k s) ≡ (if k == j then false else includes j s)
unfolding delete
includes-delete k j [] h = ground arith
includes-delete k j (x ∷ s) h =
    ground (arith, eq_iff k j, eq_iff x k, eq_iff x j, includes-delete k j s h.1)

pub delete-IsUnique : (k : String) (s : List String) → IsUnique s → IsUnique (delete k s)
unfolding delete
delete-IsUnique k [] h = tt
delete-IsUnique k (x ∷ s) h =
    ground (arith, delete-IsUnique k s h.1, includes-delete-false k x s h.0)
