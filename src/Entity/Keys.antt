-- ===== src/Entity/Keys.antt =====
-- About `getNormalizedEntityId` of domain/src/authenticated-entity.ts.
use Prim.Native.Char.{code}
use Prim.Native.String
use text.Mathlib.TextLemmas.{append_cancel_left, cons-append}
use approvio.Base.{ℕ, String, ◌≡◌, ◌⊎◌, inl, inr, arith, ap}
use approvio.Entity.{EntityRef, normalized_entity_id}

-- The types that the `EntityReference` type of the source allows.
abbrev pub IsKnownType : String → Type 0
IsKnownType t = (t ≡ "user") ⊎ (t ≡ "agent")

abbrev key_of : String → String → String
key_of t i = String.◌++◌ t (String.◌++◌ ":" i)

abbrev first : String → ℕ
first String.[] = 0
first (String.◌∷◌ c s) = code c

first_user : (i : String) → first (key_of "user" i) ≡ b'u'
first_user i = rw cons-append

first_agent : (i : String) → first (key_of "agent" i) ≡ b'a'
first_agent i = rw cons-append

user_ne_agent : (i j : String) → key_of "user" i ≡ key_of "agent" j → ⊥
user_ne_agent i j h = omega (arith, ap first h, first_user i, first_agent j)

same_type :
    (a b : EntityRef) (t : String)
    → a.entity_type ≡ t
    → b.entity_type ≡ t
    → normalized_entity_id a ≡ normalized_entity_id b
    → a ≡ b
unfolding normalized_entity_id
same_type a b t p q h =
    let k : key_of t a.entity_id ≡ key_of t b.entity_id = cc in
    let i = append_cancel_left ":" _ _ (append_cancel_left t _ _ k) in cc

-- Two references with known types and the same normalised id are the same reference.
pub normalized_entity_id_inj :
    (a b : EntityRef)
    → IsKnownType a.entity_type
    → IsKnownType b.entity_type
    → normalized_entity_id a ≡ normalized_entity_id b
    → a ≡ b
unfolding normalized_entity_id
normalized_entity_id_inj a b (inl p) (inl q) h = same_type a b "user" p q h
normalized_entity_id_inj a b (inl p) (inr q) h = absurd (user_ne_agent a.entity_id b.entity_id cc)
normalized_entity_id_inj a b (inr p) (inl q) h = absurd (user_ne_agent b.entity_id a.entity_id cc)
normalized_entity_id_inj a b (inr p) (inr q) h = same_type a b "agent" p q h
