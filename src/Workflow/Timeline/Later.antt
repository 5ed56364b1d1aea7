-- ===== src/Workflow/Timeline/Later.antt =====
-- About the timeline of `evaluateWorkflowStatus` when later votes are added.
use approvio.Base.{◌<◌, List, [], ◌∷◌, ◌++◌, ◌≡◌, refl, arith, ◌⊎◌, inl, inr, ap, ◌∙◌, All}
use approvio.Vote.{Vote}
use approvio.Workflow.Timeline.{
  Sign, negative, zero, positive, compare_votes, insert_vote, sort_votes,
}
use approvio.Workflow.Timeline.Order.{sort_votes-All}

-- Every vote of the one list is older than every vote of the other.
abbrev pub Older : List Vote → List Vote → Type 0
Older vs us = All (λ v. All (λ u. v.casted_at < u.casted_at) us) vs

not_negative :
    (u v : Vote)
    → v.casted_at < u.casted_at
    → (compare_votes u v ≡ zero) ⊎ (compare_votes u v ≡ positive)
unfolding compare_votes
not_negative u v h = ground arith

insert_vote_first :
    (v : Vote) (us : List Vote)
    → All (λ u. v.casted_at < u.casted_at) us
    → insert_vote v us ≡ v ∷ us
unfolding insert_vote
insert_vote_first v [] h = refl
insert_vote_first v (u ∷ us) h = elim (not_negative u v h.0) [
  | inl e ↦ rw (e, insert_vote)
  | inr e ↦ rw (e, insert_vote)
]

insert_vote-append :
    (v : Vote) (vs us : List Vote)
    → All (λ u. v.casted_at < u.casted_at) us
    → insert_vote v (vs ++ us) ≡ insert_vote v vs ++ us
unfolding insert_vote
insert_vote-append v [] us h = insert_vote_first v us h
insert_vote-append v (w ∷ vs) us h = by_sign (compare_votes w v) (insert_vote-append v vs us h)
  where
    by_sign :
        (s : Sign)
        → insert_vote v (vs ++ us) ≡ insert_vote v vs ++ us
        → elim s [
          | negative ↦ w ∷ insert_vote v (vs ++ us)
          | zero ↦ v ∷ w ∷ (vs ++ us)
          | positive ↦ v ∷ w ∷ (vs ++ us)
        ]
          ≡ elim s [ negative ↦ w ∷ insert_vote v vs | zero ↦ v ∷ w ∷ vs | positive ↦ v ∷ w ∷ vs ]
            ++ us
    by_sign negative ih = ap (◌∷◌ w) ih
    by_sign zero ih = refl
    by_sign positive ih = refl

-- Votes that are all later come after the timeline so far.
pub sort_votes-append :
    (vs us : List Vote) → Older vs us → sort_votes (vs ++ us) ≡ sort_votes vs ++ sort_votes us
unfolding sort_votes
sort_votes-append [] us h = refl
sort_votes-append (v ∷ vs) us h =
    ap (insert_vote v) (sort_votes-append vs us h.1)
    ∙ insert_vote-append v (sort_votes vs) (sort_votes us)
        (sort_votes-All (λ u. v.casted_at < u.casted_at) us h.0)
