-- ===== src/Role/Assigned.antt =====
-- domain/src/user.ts: the test for duplicate roles, and the filter of `removeRoles`.
use approvio.Base.{
  Bool, true, false, not, List, [], ◌∷◌, ◌≡◌, refl, sym, ◌↔◌, arith, eq_iff, In, any, any_sound,
  any_complete, keep, if◌then◌else◌, ◌&&◌, ◌==◌, Bool-cases, inl, inr,
}
use approvio.Base.Result.{Result, left, right}
use approvio.Role.{BoundRole, is_same_scope}
use approvio.Role.Scopes.{is_same_scope_iff}

-- `"user_duplicate_roles"`
pub data DuplicateError : Type 0 where
  user_duplicate_roles : DuplicateError

-- `a.name === b.name && RoleFactory.isSameScope(a.scope, b.scope)`
unfoldable pub is_same_role : BoundRole → BoundRole → Bool
unfolding is_same_scope
is_same_role a b = (a.name == b.name) && is_same_scope a.scope b.scope

-- `checkForDuplicateRoles`: each role against those after it
unfoldable pub check_for_duplicate_roles : List BoundRole → Result DuplicateError (Unit {0})
unfolding is_same_role
check_for_duplicate_roles [] = right tt
check_for_duplicate_roles (r ∷ rs) =
    if any (is_same_role r) rs then left user_duplicate_roles else check_for_duplicate_roles rs

-- The filter of `removeRoles`
unfoldable pub remaining_roles : List BoundRole → List BoundRole → List BoundRole
unfolding is_same_role
remaining_roles to_remove roles = keep (λ r. not (any (is_same_role r) to_remove)) roles

abbrev pub AreAlike : BoundRole → BoundRole → Type 0
AreAlike a b = (a.name ≡ b.name) × (a.scope ≡ b.scope)

-- No role is like one after it.
abbrev pub AreDistinct : List BoundRole → Type 0
AreDistinct [] = Unit
AreDistinct (r ∷ rs) = ((s : BoundRole) → In s rs → ¬ AreAlike r s) × AreDistinct rs

is_same_role_iff : (a b : BoundRole) → (is_same_role a b ≡ true) ↔ AreAlike a b
unfolding is_same_role
is_same_role_iff a b = (
  (λ e. (
    (eq_iff a.name b.name).0 (ground arith),
    (is_same_scope_iff a.scope b.scope).0 (ground arith),
  )),
  λ h. ground (arith, (eq_iff a.name b.name).1 h.0, (is_same_scope_iff a.scope b.scope).1 h.1),
)

none_alike :
    (r : BoundRole) (rs : List BoundRole)
    → any (is_same_role r) rs ≡ false
    → (s : BoundRole) → In s rs
    → ¬ AreAlike r s
none_alike r rs f s i h =
    absurd (ground (arith, any_complete (is_same_role r) rs s i ((is_same_role_iff r s).1 h)))

-- The check accepts exactly the lists in which no two roles have the same name and the same scope.
pub check_for_duplicate_roles_iff :
    (rs : List BoundRole) → (check_for_duplicate_roles rs ≡ right tt) ↔ AreDistinct rs
unfolding check_for_duplicate_roles
check_for_duplicate_roles_iff [] = ((λ _. tt), λ _. refl)
check_for_duplicate_roles_iff (r ∷ rs) = elim (Bool-cases (any (is_same_role r) rs)) [
  | inl found ↦ (
    (λ e. absurd (ground arith)),
    λ h.
        let (s, i, p) = any_sound (is_same_role r) rs found in
        absurd (h.0 s i ((is_same_role_iff r s).0 p)),
  )
  | inr clear ↦ (
    (λ e. (none_alike r rs clear, (check_for_duplicate_roles_iff rs).0 (ground arith))),
    λ h. ground (arith, (check_for_duplicate_roles_iff rs).1 h.1),
  )
]

In-keep :
    (p : BoundRole → Bool) (rs : List BoundRole) (r : BoundRole)
    → In r (keep p rs) ↔ (In r rs × (p r ≡ true))
In-keep p [] r = ((λ i. absurd i), λ h. absurd h.0)
In-keep p (x ∷ rs) r = elim (Bool-cases (p x)) [
  | inl t ↦ rw t (
    (λ i. elim i [
      | inl e ↦ (inl e, rw (sym e) t)
      | inr j ↦ let (k, q) = (In-keep p rs r).0 j in (inr k, q)
    ]),
    λ h. let (i, q) = h in elim i [ inl e ↦ inl e | inr j ↦ inr ((In-keep p rs r).1 (j, q)) ],
  )
  | inr f ↦ rw f (
    (λ i. let (k, q) = (In-keep p rs r).0 i in (inr k, q)),
    λ h.
        let (i, q) = h in
        elim i [
          | inl e ↦ let w : p x ≡ true = rw e q in absurd (ground arith)
          | inr j ↦ (In-keep p rs r).1 (j, q)
        ],
  )
]

keep-AreDistinct :
    (p : BoundRole → Bool) (rs : List BoundRole) → AreDistinct rs → AreDistinct (keep p rs)
keep-AreDistinct p [] h = tt
keep-AreDistinct p (r ∷ rs) h = elim (Bool-cases (p r)) [
  | inl t ↦ rw t ((λ s i. h.0 s ((In-keep p rs s).0 i).0), keep-AreDistinct p rs h.1)
  | inr f ↦ rw f (keep-AreDistinct p rs h.1)
]

-- A removal leaves exactly the roles that are like none of those to be removed, in name and scope;
-- and where no two roles were alike, no two of the remaining are.
pub remaining_roles_outcome :
    (to_remove roles : List BoundRole)
    → ((r : BoundRole)
        → In r (remaining_roles to_remove roles)
          ↔ (In r roles × ((s : BoundRole) → In s to_remove → ¬ AreAlike r s)))
      × (AreDistinct roles → AreDistinct (remaining_roles to_remove roles))
unfolding remaining_roles
remaining_roles_outcome to_remove roles = (
  (λ r. (
    (λ i.
        let (k, q) = (In-keep (λ x. not (any (is_same_role x) to_remove)) roles r).0 i in
        (k, none_alike r to_remove (ground arith))),
    λ h.
        let (i, clear) = h in
        (In-keep (λ x. not (any (is_same_role x) to_remove)) roles r).1 (
          i,
          elim (Bool-cases (any (is_same_role r) to_remove)) [
            | inl found ↦
                let (s, j, p) = any_sound (is_same_role r) to_remove found in
                absurd (clear s j ((is_same_role_iff r s).0 p))
            | inr none_found ↦ ground arith
          ],
        ),
  )),
  λ h. keep-AreDistinct (λ x. not (any (is_same_role x) to_remove)) roles h,
)
