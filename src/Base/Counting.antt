-- ===== src/Base/Counting.antt =====
-- Lengths of lists without repetition.
use approvio.Base.Sets.{IsUnique, delete, includes-delete, delete-IsUnique}
use approvio.Base.Lists.{length, includes, keep}
use Prim.Native.Nat.{◌≤◌, suc}
use Prim.Native.String.{String}
use mathlib.Core.Path.{◌≡◌, refl}
use mathlib.Core.Bool.{Bool, true, ◌&&◌}
use mathlib.Core.List.{List, [], ◌∷◌}
use native.Mathlib.Omega.{arith}
use text.Mathlib.TextEquality.{eq_iff}

length-delete :
    (k : String) (s : List String) → includes k s ≡ true → suc (length (delete k s)) ≡ length s
unfolding delete
length-delete k [] h = cc
length-delete k (x ∷ s) h = ground (arith, length-delete k s)

pub length-le_of_includes :
    (s t : List String)
    → IsUnique s
    → IsUnique t
    → ((k : String) → includes k s ≡ true → includes k t ≡ true)
    → length s ≤ length t
length-le_of_includes [] t u v f = omega arith
length-le_of_includes (x ∷ s) t u v f =
    let here : includes x t ≡ true = f x (ground (arith, eq_iff x x)) in
    let rest =
      length-le_of_includes s (delete x t) u.1 (delete-IsUnique x t v)
        (λ k i. ground (arith, f k, includes-delete x k t v, eq_iff x k)) in
    omega (arith, length-delete x t here, rest)

pub length-eq_of_includes :
    (s t : List String)
    → IsUnique s
    → IsUnique t
    → ((k : String) → includes k s ≡ includes k t)
    → length s ≡ length t
length-eq_of_includes s t u v f = omega (
  arith,
  length-le_of_includes s t u v (λ k i. ground (arith, f k)),
  length-le_of_includes t s v u (λ k i. ground (arith, f k)),
)

pub includes-keep :
    (p : String → Bool) (k : String) (s : List String)
    → includes k (keep p s) ≡ (includes k s && p k)
includes-keep p k [] = refl
includes-keep p k (x ∷ s) = ground (arith, includes-keep p k s, eq_iff x k)

pub keep-IsUnique : (p : String → Bool) (s : List String) → IsUnique s → IsUnique (keep p s)
keep-IsUnique p [] u = tt
keep-IsUnique p (x ∷ s) u = ground (arith, keep-IsUnique p s u.1, includes-keep p x s)
