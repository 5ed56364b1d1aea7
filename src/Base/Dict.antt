-- ===== src/Base/Dict.antt =====
-- JavaScript's `Map<string, V>` and `Set<string>`, in insertion order.
use Prim.Native.String.{String}
use mathlib.Core.Path.{◌≡◌, refl}
use mathlib.Core.Bool.{Bool, true, false}
use mathlib.Core.Option.{Option, none, some}
use mathlib.Core.List.{List, [], ◌∷◌}
use native.Mathlib.Omega.{arith}
use text.Mathlib.Text.{◌==◌}
use text.Mathlib.TextEquality.{eq_iff}
use approvio.Base.Tests.{if◌then◌else◌}

abbrev pub Dict {ℓ} : Type ℓ → Type ℓ
Dict V = List (String × V)

module _ {ℓ} {V : Type ℓ} where
  -- `m.get(k)`
  unfoldable pub lookup : String → Dict V → Option V
  lookup key [] = none
  lookup key ((other, new) ∷ rest) = if other == key then some new else lookup key rest

  -- `m.has(k)`
  unfoldable pub has : String → Dict V → Bool
  has k [] = false
  has k ((j, v) ∷ m) = if j == k then true else has k m

  -- `m.set(k, v)`: a known key keeps its place
  unfoldable pub insert : String → V → Dict V → Dict V
  insert key new [] = (key, new) ∷ []
  insert key new ((other, old) ∷ rest) =
      if other == key then (other, new) ∷ rest else (other, old) ∷ insert key new rest

  -- `m.delete(k)`
  unfoldable pub erase : String → Dict V → Dict V
  erase k [] = []
  erase k ((j, w) ∷ m) = if j == k then m else (j, w) ∷ erase k m

  abbrev pub keys : Dict V → List String
  keys [] = []
  keys ((k, _) ∷ m) = k ∷ keys m

  abbrev pub values : Dict V → List V
  values [] = []
  values ((_, v) ∷ m) = v ∷ values m

  -- No key is listed twice.
  abbrev pub HasUniqueKeys : Dict V → Type 0
  HasUniqueKeys [] = Unit
  HasUniqueKeys ((k, _) ∷ m) = (has k m ≡ false) × HasUniqueKeys m

  pub lookup-insert :
      (key other : String) (new : V) (rest : Dict V)
      → lookup other (insert key new rest) ≡ (if key == other then some new else lookup other rest)
  unfolding lookup insert
  lookup-insert key other new [] = refl
  lookup-insert key other new ((first, old) ∷ rest) = ground (
    arith,
    eq_iff key other,
    eq_iff first key,
    eq_iff first other,
    lookup-insert key other new rest,
  )

  pub has-insert :
      (k j : String) (v : V) (m : Dict V)
      → has j (insert k v m) ≡ (if k == j then true else has j m)
  unfolding has insert
  has-insert k j v [] = refl
  has-insert k j v ((i, w) ∷ m) =
      ground (arith, eq_iff k j, eq_iff i k, eq_iff i j, has-insert k j v m)

  pub insert-HasUniqueKeys :
      (k : String) (v : V) (m : Dict V) → HasUniqueKeys m → HasUniqueKeys (insert k v m)
  unfolding insert
  insert-HasUniqueKeys k v [] h = (unfold has in refl, tt)
  insert-HasUniqueKeys k v ((i, w) ∷ m) h =
      ground (arith, insert-HasUniqueKeys k v m h.1, has-insert k i v m, eq_iff i k, eq_iff k i)

  pub has-eq-false_of_lookup : (k : String) (m : Dict V) → lookup k m ≡ none → has k m ≡ false
  unfolding lookup has
  has-eq-false_of_lookup k [] h = refl
  has-eq-false_of_lookup k ((i, w) ∷ m) h = ground (arith, has-eq-false_of_lookup k m)

  pub lookup-eq-none_of_has : (k : String) (m : Dict V) → has k m ≡ false → lookup k m ≡ none
  unfolding lookup has
  lookup-eq-none_of_has k [] h = refl
  lookup-eq-none_of_has k ((i, w) ∷ m) h = ground (arith, lookup-eq-none_of_has k m)

  pub has-erase_ne : (k j : String) (m : Dict V) → has j m ≡ false → has j (erase k m) ≡ false
  unfolding has erase
  has-erase_ne k j [] h = refl
  has-erase_ne k j ((i, w) ∷ m) h = ground (arith, has-erase_ne k j m)

  pub erase-HasUniqueKeys : (k : String) (m : Dict V) → HasUniqueKeys m → HasUniqueKeys (erase k m)
  unfolding erase
  erase-HasUniqueKeys k [] h = tt
  erase-HasUniqueKeys k ((i, w) ∷ m) h =
      ground (arith, erase-HasUniqueKeys k m h.1, has-erase_ne k i m h.0)

  pub lookup-erase :
      (k j : String) (m : Dict V)
      → HasUniqueKeys m
      → lookup j (erase k m) ≡ (if k == j then none else lookup j m)
  unfolding lookup erase
  lookup-erase k j [] h = ground arith
  lookup-erase k j ((i, w) ∷ m) h = ground (
    arith,
    eq_iff k j,
    eq_iff i k,
    eq_iff i j,
    lookup-erase k j m h.1,
    lookup-eq-none_of_has i m h.0,
  )
