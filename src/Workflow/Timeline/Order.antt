-- ===== src/Workflow/Timeline/Order.antt =====
-- About the timeline of `evaluateWorkflowStatus`: the order of the votes.
use mathlib.Core.List.{Perm}
use mathlib.Core.List.Perm
use approvio.Base.{
  ◌<◌, Bool, true, false, not, ◌&&◌, List, [], ◌∷◌, nat_eq, if◌then◌else◌, ◌≡◌, refl, ap, ◌∙◌, ◌⊎◌,
  inl, inr, arith, All, keep, In,
}
use approvio.Vote.{Vote}
use approvio.Workflow.Timeline.{
  is_veto, Sign, negative, zero, positive, compare_votes, insert_vote, sort_votes,
}

-- `a` may stand before `b`: it is older, or of the same instant and no other vote before a veto.
abbrev pub MayPrecede : Vote → Vote → Type 0
MayPrecede a b =
    (a.casted_at < b.casted_at)
    ⊎ ((a.casted_at ≡ b.casted_at) × ((is_veto a.ballot ≡ true) ⊎ (is_veto b.ballot ≡ false)))

abbrev pub IsTimeline : List Vote → Type 0
IsTimeline [] = Unit
IsTimeline (v ∷ vs) = All (MayPrecede v) vs × IsTimeline vs

insert_vote-perm : (v : Vote) (vs : List Vote) → Perm (insert_vote v vs) (v ∷ vs)
unfolding insert_vote
insert_vote-perm v [] = Perm.refl _
insert_vote-perm v (u ∷ us) =
    elim (compare_votes u v)
      as (λ s.
        Perm
          (elim s [ negative ↦ u ∷ insert_vote v us | zero ↦ v ∷ u ∷ us | positive ↦ v ∷ u ∷ us ])
          (v ∷ u ∷ us)) [
            | negative ↦ Perm.trans (Perm.cons u (insert_vote-perm v us)) (Perm.swap v u us)
            | zero ↦ Perm.refl _
            | positive ↦ Perm.refl _
          ]

-- The timeline has each vote as often as it was cast.
pub sort_votes-perm : (vs : List Vote) → Perm (sort_votes vs) vs
unfolding sort_votes
sort_votes-perm [] = Perm.refl _
sort_votes-perm (v ∷ vs) =
    Perm.trans (insert_vote-perm v (sort_votes vs)) (Perm.cons v (sort_votes-perm vs))

MayPrecede-trans : (a b c : Vote) → MayPrecede a b → MayPrecede b c → MayPrecede a c
MayPrecede-trans a b c h k = ground arith

compare_negative : (a b : Vote) → compare_votes a b ≡ negative → MayPrecede a b
unfolding compare_votes
compare_negative a b h = ground arith

compare_zero : (a b : Vote) → compare_votes a b ≡ zero → MayPrecede b a
unfolding compare_votes
compare_zero a b h = ground arith

compare_positive : (a b : Vote) → compare_votes a b ≡ positive → MayPrecede b a
unfolding compare_votes
compare_positive a b h = ground arith

module _ (P : Vote → Type 0) where
  pub insert_vote-All : (v : Vote) (vs : List Vote) → P v → All P vs → All P (insert_vote v vs)
  unfolding insert_vote
  insert_vote-All v [] p h = (p, tt)
  insert_vote-All v (u ∷ us) p h = by_sign (compare_votes u v) (insert_vote-All v us p h.1)
    where
      by_sign :
          (s : Sign)
          → All P (insert_vote v us)
          → All P (elim s [
            | negative ↦ u ∷ insert_vote v us
            | zero ↦ v ∷ u ∷ us
            | positive ↦ v ∷ u ∷ us
          ])
      by_sign negative ih = (h.0, ih)
      by_sign zero ih = (p, h)
      by_sign positive ih = (p, h)

  -- What holds of every vote holds of every vote of the timeline.
  pub sort_votes-All : (vs : List Vote) → All P vs → All P (sort_votes vs)
  unfolding sort_votes
  sort_votes-All [] h = tt
  sort_votes-All (v ∷ vs) h = insert_vote-All v (sort_votes vs) h.0 (sort_votes-All vs h.1)

All-MayPrecede_trans :
    (a b : Vote) (vs : List Vote) → MayPrecede a b → All (MayPrecede b) vs → All (MayPrecede a) vs
All-MayPrecede_trans a b [] p h = tt
All-MayPrecede_trans a b (v ∷ vs) p h =
    (MayPrecede-trans a b v p h.0, All-MayPrecede_trans a b vs p h.1)

insert_vote-IsTimeline : (v : Vote) (vs : List Vote) → IsTimeline vs → IsTimeline (insert_vote v vs)
unfolding insert_vote
insert_vote-IsTimeline v [] h = (tt, tt)
insert_vote-IsTimeline v (u ∷ us) h =
    by_sign (compare_votes u v) refl (insert_vote-IsTimeline v us h.1)
  where
    in_front : MayPrecede v u → IsTimeline (v ∷ u ∷ us)
    in_front p = ((p, All-MayPrecede_trans v u us p h.0), h)

    by_sign :
        (s : Sign)
        → compare_votes u v ≡ s
        → IsTimeline (insert_vote v us)
        → IsTimeline
            (elim s [ negative ↦ u ∷ insert_vote v us | zero ↦ v ∷ u ∷ us | positive ↦ v ∷ u ∷ us ])
    by_sign negative e ih = (insert_vote-All (MayPrecede u) v us (compare_negative u v e) h.0, ih)
    by_sign zero e ih = in_front (compare_zero u v e)
    by_sign positive e ih = in_front (compare_positive u v e)

-- The timeline is in order: no vote is older than one before it, and at one instant no vote of
-- another type stands before a veto.
pub sort_votes-IsTimeline : (vs : List Vote) → IsTimeline (sort_votes vs)
unfolding sort_votes
sort_votes-IsTimeline [] = tt
sort_votes-IsTimeline (v ∷ vs) = insert_vote-IsTimeline v (sort_votes vs) (sort_votes-IsTimeline vs)

-- `a` and `b` are equal for the comparator.
abbrev pub ties : Vote → Vote → Bool
ties a b =
    nat_eq a.casted_at b.casted_at
    && (if is_veto a.ballot then is_veto b.ballot else not (is_veto b.ballot))

not_both_tie :
    (k u v : Vote) → compare_votes u v ≡ negative → (ties k u ≡ false) ⊎ (ties k v ≡ false)
unfolding compare_votes
not_both_tie k u v h = ground arith

swap_untied :
    (k u v : Vote) (us : List Vote)
    → (ties k u ≡ false) ⊎ (ties k v ≡ false)
    → keep (ties k) (u ∷ v ∷ us) ≡ keep (ties k) (v ∷ u ∷ us)
swap_untied k u v us (inl e) = rw e
swap_untied k u v us (inr e) = rw e

insert_vote-ties :
    (k v : Vote) (vs : List Vote) → keep (ties k) (insert_vote v vs) ≡ keep (ties k) (v ∷ vs)
unfolding insert_vote
insert_vote-ties k v [] = refl
insert_vote-ties k v (u ∷ us) = by_sign (compare_votes u v) refl (insert_vote-ties k v us)
  where
    by_sign :
        (s : Sign)
        → compare_votes u v ≡ s
        → keep (ties k) (insert_vote v us) ≡ keep (ties k) (v ∷ us)
        → keep
            (ties k)
            (elim s [ negative ↦ u ∷ insert_vote v us | zero ↦ v ∷ u ∷ us | positive ↦ v ∷ u ∷ us ])
          ≡ keep (ties k) (v ∷ u ∷ us)
    by_sign negative e ih =
        ap (λ l. if ties k u then u ∷ l else l) ih ∙ swap_untied k u v us (not_both_tie k u v e)
    by_sign zero e ih = refl
    by_sign positive e ih = refl

-- The sort is stable: the votes that tie with a vote keep the order in which they were given.
pub sort_votes-stable :
    (k : Vote) (vs : List Vote) → keep (ties k) (sort_votes vs) ≡ keep (ties k) vs
unfolding sort_votes
sort_votes-stable k [] = refl
sort_votes-stable k (v ∷ vs) =
    insert_vote-ties k v (sort_votes vs)
    ∙ ap (λ l. if ties k v then v ∷ l else l) (sort_votes-stable k vs)

In-insert_vote : (a v : Vote) (vs : List Vote) → In a (insert_vote v vs) → (v ≡ a) ⊎ In a vs
unfolding insert_vote
In-insert_vote a v [] i = i
In-insert_vote a v (u ∷ us) i = by_sign (compare_votes u v) (In-insert_vote a v us) i
  where
    by_sign :
        (s : Sign)
        → (In a (insert_vote v us) → (v ≡ a) ⊎ In a us)
        → In a
            (elim s [ negative ↦ u ∷ insert_vote v us | zero ↦ v ∷ u ∷ us | positive ↦ v ∷ u ∷ us ])
        → (v ≡ a) ⊎ (u ≡ a) ⊎ In a us
    by_sign negative ih (inl e) = inr (inl e)
    by_sign negative ih (inr j) = elim (ih j) [ inl e ↦ inl e | inr k ↦ inr (inr k) ]
    by_sign zero ih j = j
    by_sign positive ih j = j

-- The timeline holds only votes that were cast.
pub In-sort_votes : (a : Vote) (vs : List Vote) → In a (sort_votes vs) → In a vs
unfolding sort_votes
In-sort_votes a [] i = i
In-sort_votes a (v ∷ vs) i = elim (In-insert_vote a v (sort_votes vs) i) [
  | inl e ↦ inl e
  | inr j ↦ inr (In-sort_votes a vs j)
]

-- Sorting returns the votes that were cast, each as often; ordered by their instants with the
-- vetoes first among those of the same instant; and votes that are equal in this order stay as
-- they were.
pub sort_votes_sorts :
    (vs : List Vote)
    → Perm (sort_votes vs) vs
      × IsTimeline (sort_votes vs)
      × ((k : Vote) → keep (ties k) (sort_votes vs) ≡ keep (ties k) vs)
sort_votes_sorts vs = (sort_votes-perm vs, sort_votes-IsTimeline vs, λ k. sort_votes-stable k vs)
