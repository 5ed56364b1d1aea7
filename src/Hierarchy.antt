-- ===== src/Hierarchy.antt =====
-- domain/src/hierarchy.ts: the kinds of resources and their parents.
use mathlib.Core.Path.{subst}
use approvio.Base.{
  ℕ, zero, suc, String, Option, none, some, List, [], ◌∷◌, ◌≡◌, refl, arith, if◌then◌else◌, ◌==◌,
  In, inl, inr, ◌↔◌, ◌∙◌, ap, ◌≤◌,
}

-- `NodeType`
pub data NodeType : Type 0 where
  org group space workflow_template workflow user : NodeType

-- The text of a node type
unfoldable pub node_type_name : NodeType → String
node_type_name org = "Org"
node_type_name group = "Group"
node_type_name space = "Space"
node_type_name workflow_template = "WorkflowTemplate"
node_type_name workflow = "Workflow"
node_type_name user = "User"

-- `isNodeType`, with the type that it narrows the text to
unfoldable pub node_type_of : String → Option NodeType
node_type_of s =
    if s == "Org"
    then some org
    else if s == "Group"
    then some group
    else if s == "Space"
    then some space
    else if s == "WorkflowTemplate"
    then some workflow_template
    else if s == "Workflow"
    then some workflow
    else if s == "User"
    then some user
    else none

-- What `PARENT_MAP[current]` gives: a node type, `null`, or, for a key that the map lacks, `undefined`
pub data Parent : Type 0 where
  is_node : NodeType → Parent
  is_null is_undefined : Parent

-- `PARENT_MAP[current]`
unfoldable pub parent_of : NodeType → Parent
parent_of workflow = is_node workflow_template
parent_of workflow_template = is_node space
parent_of space = is_node org
parent_of group = is_node org
parent_of user = is_node org
parent_of org = is_null

-- The loop of `getParentsOfType`: each round reads a parent and ends at `null`; at `undefined`,
-- which is not `null`, it goes on. Without fuel there is no result.
unfoldable pub parents_from : ℕ → Parent → Option (List NodeType)
unfolding parent_of
parents_from zero current = none
parents_from (suc n) is_null = some []
parents_from (suc n) is_undefined = parents_from n is_undefined
parents_from (suc n) (is_node t) = elim (parents_from n (parent_of t)) [
  | none ↦ none
  | some above ↦ elim (parent_of t) [
    | is_node p ↦ some (p ∷ above)
    | is_null ↦ some above
    | is_undefined ↦ some above
  ]
]

-- One kind of resource lies below another.
pub data Below : NodeType → NodeType → Type 0 where
  direct : {a b : NodeType} → parent_of a ≡ is_node b → Below a b
  through : {a b c : NodeType} → parent_of a ≡ is_node b → Below b c → Below a c

-- From a value that is no node type the loop never ends.
pub parents_from-undefined : (n : ℕ) → parents_from n is_undefined ≡ none
unfolding parents_from
parents_from-undefined zero = refl
parents_from-undefined (suc n) = parents_from-undefined n

-- Five rounds are enough for each node type.
abbrev pub parents : NodeType → List NodeType
parents org = []
parents group = org ∷ []
parents user = org ∷ []
parents space = org ∷ []
parents workflow_template = space ∷ org ∷ []
parents workflow = workflow_template ∷ space ∷ org ∷ []

parents_from_enough :
    (n : ℕ) (t : NodeType)
    → parents_from (suc (suc (suc (suc (suc n))))) (is_node t) ≡ some (parents t)
unfolding parents_from
parents_from_enough n org = refl
parents_from_enough n group = refl
parents_from_enough n space = refl
parents_from_enough n workflow_template = refl
parents_from_enough n workflow = refl
parents_from_enough n user = refl

parents_step : (a b : NodeType) → parent_of a ≡ is_node b → parents a ≡ b ∷ parents b
unfolding parent_of
parents_step org b e = cc
parents_step group b e = let q : org ≡ b = cc in subst (λ x. parents group ≡ x ∷ parents x) q refl
parents_step user b e = let q : org ≡ b = cc in subst (λ x. parents user ≡ x ∷ parents x) q refl
parents_step space b e = let q : org ≡ b = cc in subst (λ x. parents space ≡ x ∷ parents x) q refl
parents_step workflow_template b e =
    let q : space ≡ b = cc in subst (λ x. parents workflow_template ≡ x ∷ parents x) q refl
parents_step workflow b e =
    let q : workflow_template ≡ b = cc in subst (λ x. parents workflow ≡ x ∷ parents x) q refl

below_sound : (a b : NodeType) → Below a b → In b (parents a)
below_sound a b (direct e) = rw (parents_step a b e) (inl refl)
below_sound a c (through {b = b} e h) = rw (parents_step a b e) (inr (below_sound b c h))

reached_from :
    (a p : NodeType)
    → parent_of a ≡ is_node p
    → ((b : NodeType) → In b (parents p) → Below p b)
    → (b : NodeType) → In b (p ∷ parents p)
    → Below a b
reached_from a p e h b (inl q) = direct (e ∙ ap is_node q)
reached_from a p e h b (inr i) = through e (h b i)

below_org : (b : NodeType) → In b (parents org) → Below org b
below_org b i = absurd i

below_space : (b : NodeType) → In b (parents space) → Below space b
unfolding parent_of
below_space b i = reached_from space org refl below_org b i

below_template : (b : NodeType) → In b (parents workflow_template) → Below workflow_template b
unfolding parent_of
below_template b i = reached_from workflow_template space refl below_space b i

below_complete : (a b : NodeType) → In b (parents a) → Below a b
unfolding parent_of
below_complete org b i = below_org b i
below_complete group b i = reached_from group org refl below_org b i
below_complete user b i = reached_from user org refl below_org b i
below_complete space b i = below_space b i
below_complete workflow_template b i = below_template b i
below_complete workflow b i = reached_from workflow workflow_template refl below_template b i

pub enough : (n : ℕ) (t : NodeType) → 5 ≤ n → parents_from n (is_node t) ≡ some (parents t)
enough zero t h = absurd (omega arith)
enough (suc zero) t h = absurd (omega arith)
enough (suc (suc zero)) t h = absurd (omega arith)
enough (suc (suc (suc zero))) t h = absurd (omega arith)
enough (suc (suc (suc (suc zero)))) t h = absurd (omega arith)
enough (suc (suc (suc (suc (suc n))))) t h = parents_from_enough n t

-- With five rounds or more the loop ends, for each node type, with exactly the kinds of resources
-- above it.
pub parents_from_iff :
    (n : ℕ) (a : NodeType)
    → 5 ≤ n
    → (ps : List NodeType) × (parents_from n (is_node a) ≡ some ps)
      × ((b : NodeType) → In b ps ↔ Below a b)
parents_from_iff n a h = (parents a, enough n a h, λ b. (below_complete a b, below_sound a b))
