-- ===== src/Base/Result.antt =====
-- `Either` of fp-ts with its `chain`, which `do` blocks use, and the traversal of an array.
use mathlib.Core.Path.{◌≡◌, refl}
use mathlib.Core.Bool.{Bool, true, false}
use mathlib.Core.Option.{Option, none, some}
use mathlib.Core.Logic.{◌⊎◌, inl, inr}

-- `left` and `right` of `Either<E, A>`
pub data Result {ℓ} (E : Type 0) (A : Type ℓ) : Type ℓ where
  left : E → Result E A
  right : A → Result E A

infixl 5 ◌>>=◌ ◌>>◌
abbrev pub ◌>>=◌ {ℓ κ} :
    {E : Type 0} {A : Type ℓ} {B : Type κ} → Result E A → (A → Result E B) → Result E B
left e >>= f = left e
right a >>= f = f a

abbrev pub ◌>>◌ {ℓ κ} :
    {E : Type 0} {A : Type ℓ} {B : Type κ} → Result E A → Result E B → Result E B
m >> k = m >>= λ _. k

-- `if (b) return left(e)`
abbrev pub reject_if : {E : Type 0} → Bool → E → Result E (Unit {0})
reject_if true e = left e
reject_if false e = right tt

-- `if (typeof value !== …) return left(e)`: the value if it has the type
abbrev pub require {ℓ} : {E : Type 0} {A : Type ℓ} → Option A → E → Result E A
require none e = left e
require (some a) e = right a

-- `E.mapLeft(f)`
abbrev pub map_left {ℓ} : {E F : Type 0} {A : Type ℓ} → (E → F) → Result E A → Result F A
map_left f (left e) = left (f e)
map_left f (right a) = right a

pub >>=-eq-right {ℓ κ} :
    {E : Type 0} {A : Type ℓ} {B : Type κ} (m : Result E A) (f : A → Result E B) {b : B}
    → (m >>= f) ≡ right b
    → (a : A) × (m ≡ right a) × (f a ≡ right b)
>>=-eq-right (left e) f h = cc
>>=-eq-right (right a) f h = (a, refl, h)

pub Result-cases {ℓ} :
    {E : Type 0} {A : Type ℓ} (m : Result E A)
    → ((e : E) × (m ≡ left e)) ⊎ ((a : A) × (m ≡ right a))
Result-cases (left e) = inl (e, refl)
Result-cases (right a) = inr (a, refl)
