-- ===== src/Template/Version.antt =====
-- domain/src/workflow-templates.ts, `getMostRecentVersionFromTuples`.
use approvio.Base.{
  ℕ, ◌≤◌, ◌<◌, List, [], ◌∷◌, ◌++◌, ◌≡◌, refl, arith, All, ltb, if◌then◌else◌, Bool-cases, inl, inr,
  ap, ◌⊎◌,
}
use approvio.Base.Result.{Result, left, right}

-- `"empty_array"`
pub data VersionError : Type 0 where
  empty_array : VersionError

module _ {A : Type 0} (version : A → ℕ) where
  -- The callback of `reduce`, over the rest of the array
  unfoldable pub reduce : A → List A → A
  reduce most_recent [] = most_recent
  reduce most_recent (current ∷ rest) =
      reduce (if ltb (version most_recent) (version current) then current else most_recent) rest

  -- `getMostRecentVersionFromTuples`
  unfoldable pub get_most_recent_version : List A → Result VersionError A
  unfolding reduce
  get_most_recent_version [] = left empty_array
  get_most_recent_version (first ∷ rest) = right (reduce first rest)

  -- `t` is the first of the greatest versions: those before are older, those after not newer.
  pub data IsFirstGreatest (t : A) (ts : List A) : Type 0 where
    at :
        (before after : List A)
        → ts ≡ before ++ t ∷ after
        → All (λ u. version u < version t) before
        → All (λ u. version u ≤ version t) after
        → IsFirstGreatest t ts

  skip :
      (t m : A) (ts : List A)
      → version m < version t
      → IsFirstGreatest t ts
      → IsFirstGreatest t (m ∷ ts)
  skip t m ts l (at before after e older newer) =
      at (m ∷ before) after (ap (λ us. m ∷ us) e) (l, older) newer

  -- The first of the greatest versions of `m` and the rest, unless `m` is one itself.
  reduce-cases :
      (m : A) (ts : List A)
      → ((reduce m ts ≡ m) × All (λ u. version u ≤ version m) ts)
        ⊎ ((version m < version (reduce m ts)) × IsFirstGreatest (reduce m ts) ts)
  unfolding reduce
  reduce-cases m [] = inl (refl, tt)
  reduce-cases m (c ∷ ts) = elim (Bool-cases (ltb (version m) (version c))) [
    | inl newer ↦
        let l : version m < version c = ground arith in
        rw newer (elim (reduce-cases c ts) [
          | inl (e, le) ↦ inr (rw e (l, at [] ts refl tt le))
          | inr (k, g) ↦ inr (ground arith, skip (reduce c ts) c ts k g)
        ])
    | inr older ↦
        let l : version c ≤ version m = ground arith in
        rw older (elim (reduce-cases m ts) [
          | inl (e, le) ↦ inl (e, (l, le))
          | inr (k, g) ↦ inr (k, skip (reduce m ts) c ts (ground arith) g)
        ])
  ]

  -- Of a list that is not empty, the first of those elements is returned whose version is greatest;
  -- only of the empty list there is none.
  pub get_most_recent_version_outcome :
      (ts : List A)
      → ((ts ≡ []) × (get_most_recent_version ts ≡ left empty_array))
        ⊎ ((t : A) × (get_most_recent_version ts ≡ right t) × IsFirstGreatest t ts)
  unfolding get_most_recent_version
  get_most_recent_version_outcome [] = inl (refl, refl)
  get_most_recent_version_outcome (t ∷ ts) = inr (
    reduce t ts,
    refl,
    elim (reduce-cases t ts) [
      | inl (e, le) ↦ rw e (at [] ts refl tt le)
      | inr (l, g) ↦ skip (reduce t ts) t ts l g
    ],
  )
