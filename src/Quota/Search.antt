-- ===== src/Quota/Search.antt =====
-- About `getQuota` and `isQuotaAvailable` of services/src/quota/quota.service.ts.
use mathlib.Core.Path.{subst}
use approvio.Base.{
  ℕ, ◌+◌, Option, none, some, Bool, true, List, [], ◌∷◌, ◌≡◌, refl, arith, ◌↔◌, sym, ◌∙◌, inl, inr,
  leb, Bool-cases,
}
use approvio.Base.Result.{Result, left, right, >>=-eq-right, ◌>>=◌}
use approvio.Quota.{QuotaType}
use approvio.Quota.Service.{
  Node, ServiceError, Repositories, is_quota_type_applicable_to, get_parents, quota_at,
  search_quota, get_quota, get_usage, is_quota_available,
}

module _ (repos : Repositories) (q : QuotaType) where
  -- The limit that the first of the nodes with a quota has; none, if no node has one.
  pub data Nearest : List Node → Option ℕ → Type 0 where
    nowhere : Nearest [] none
    here :
        {n : Node} {ns : List Node} {limit : ℕ}
        → quota_at repos q n ≡ right (some limit)
        → Nearest (n ∷ ns) (some limit)
    beyond :
        {n : Node} {ns : List Node} {o : Option ℕ}
        → quota_at repos q n ≡ right none
        → Nearest ns o
        → Nearest (n ∷ ns) o

  search_failed : (ns : List Node) (e : ServiceError) → search_quota repos q ns (left e) ≡ left e
  unfolding search_quota
  search_failed [] e = refl
  search_failed (n ∷ ns) e = search_failed ns e

  search_found :
      (ns : List Node) (l : ℕ) → search_quota repos q ns (right (some l)) ≡ right (some l)
  unfolding search_quota
  search_found [] l = refl
  search_found (n ∷ ns) l = search_found ns l

  search_step :
      (n : Node) (ns : List Node) (o : Option ℕ) (r : Result ServiceError (Option ℕ))
      → ((p : Option ℕ) → search_quota repos q ns (right none) ≡ right p → Nearest ns p)
      → quota_at repos q n ≡ r
      → search_quota repos q ns r ≡ right o
      → Nearest (n ∷ ns) o
  search_step n ns o (left e) rest at h = absurd (ground (arith, search_failed ns e))
  search_step n ns o (right none) rest at h = beyond at (rest o h)
  search_step n ns o (right (some l)) rest at h =
      let e : some l ≡ o = ground (arith, search_found ns l) in subst (Nearest (n ∷ ns)) e (here at)

  search_sound :
      (ns : List Node) (o : Option ℕ)
      → search_quota repos q ns (right none) ≡ right o
      → Nearest ns o
  unfolding search_quota
  search_sound [] o h = let e : none ≡ o = cc in subst (Nearest []) e nowhere
  search_sound (n ∷ ns) o h = search_step n ns o (quota_at repos q n) (search_sound ns) refl h

  search_complete :
      {ns : List Node} {o : Option ℕ}
      → Nearest ns o
      → search_quota repos q ns (right none) ≡ right o
  unfolding search_quota
  search_complete nowhere = refl
  search_complete (here {ns = ns} {limit = l} at) = rw at (search_found ns l)
  search_complete (beyond at rest) = rw at (search_complete rest)

-- How the check of a quota can answer: without a quota at the resource or above it the usage is
-- unlimited, and else the nearest quota counts.
pub data Answers (repos : Repositories) (target : Node) (q : QuotaType) (amount : ℕ)
    : Bool → Type 0 where
  unlimited :
      {above : List Node}
      → get_parents repos target ≡ right above
      → Nearest repos q (target ∷ above) none
      → Answers repos target q amount true
  limited :
      {above : List Node} {limit usage : ℕ}
      → get_parents repos target ≡ right above
      → Nearest repos q (target ∷ above) (some limit)
      → get_usage repos target q ≡ right usage
      → Answers repos target q amount (leb (usage + amount) limit)

module _ (repos : Repositories) (target : Node) (q : QuotaType) (amount : ℕ) where
  limited_sound :
      (above : List Node) (limit : ℕ) (b : Bool) (usage : Result ServiceError ℕ)
      → get_parents repos target ≡ right above
      → Nearest repos q (target ∷ above) (some limit)
      → get_usage repos target q ≡ usage
      → (usage >>= λ u. right (leb (u + amount) limit)) ≡ right b
      → Answers repos target q amount b
  limited_sound above limit b (left e) p n u h = cc
  limited_sound above limit b (right used) p n u h =
      let e : leb (used + amount) limit ≡ b = cc in
      subst (Answers repos target q amount) e (limited p n u)

  -- What the check does with the limit that it found.
  abbrev against : Option ℕ → Result ServiceError Bool
  against none = right true
  against (some limit) = get_usage repos target q >>= λ usage. right (leb (usage + amount) limit)

  checked :
      is_quota_type_applicable_to q target.node_type ≡ true
      → is_quota_available repos target q amount ≡ (get_quota repos target q >>= against)
  unfolding is_quota_available
  checked t = rw (is_quota_available, t) refl

  by_limit :
      (above : List Node) (b : Bool) (quota : Option ℕ)
      → get_parents repos target ≡ right above
      → Nearest repos q (target ∷ above) quota
      → against quota ≡ right b
      → Answers repos target q amount b
  by_limit above b none p n h =
      let e : true ≡ b = cc in subst (Answers repos target q amount) e (unlimited p n)
  by_limit above b (some limit) p n h =
      limited_sound above limit b (get_usage repos target q) p n refl h

  Answers-of_result :
      (b : Bool)
      → (get_quota repos target q >>= against) ≡ right b
      → Answers repos target q amount b
  unfolding get_quota
  Answers-of_result b h =
      let (quota, found, checked_against) = >>=-eq-right (get_quota repos target q) against h in
      let (above, p, search) =
        >>=-eq-right (get_parents repos target)
          (λ above. search_quota repos q (target ∷ above) (right none)) found in
      by_limit above b quota p (search_sound repos q (target ∷ above) quota search) checked_against

  result_of-Answers :
      {b : Bool}
      → Answers repos target q amount b
      → (get_quota repos target q >>= against) ≡ right b
  unfolding get_quota
  result_of-Answers (unlimited p n) = rw (get_quota, p, search_complete repos q n) refl
  result_of-Answers (limited p n u) = rw (get_quota, p, search_complete repos q n, u) refl

  -- A quota is reported as available, or not, exactly when the quota type is measured at the kind of
  -- the target, the parents of the target are known, and either neither the target nor a parent has
  -- such a quota, or the usage together with the amount is within the nearest one, or not.
  pub is_quota_available_iff :
      (b : Bool)
      → (is_quota_available repos target q amount ≡ right b) ↔ (
          (is_quota_type_applicable_to q target.node_type ≡ true) × Answers repos target q amount b)
  unfolding is_quota_available
  is_quota_available_iff b = elim (Bool-cases (is_quota_type_applicable_to q target.node_type)) [
    | inl t ↦ (
      (λ h. (t, Answers-of_result b (sym (checked t) ∙ h))),
      λ h. let (_, a) = h in checked t ∙ result_of-Answers a,
    )
    | inr f ↦ ((λ h. absurd (ground arith)), λ h. let (t, _) = h in absurd (ground arith))
  ]
