-- ===== src/RefreshToken/Rotation/Rows.antt =====
-- About the rows of refresh tokens that callers have read, as others change the table.
use mathlib.Core.Path.{subst}
use approvio.Base.{
  ℕ, suc, String, some, List, [], ◌∷◌, ◌≡◌, refl, arith, ◌⊎◌, inl, inr, sym, ap, ◌∙◌, nat_eq, In,
  any, true, false, eq_iff, Bool-cases, Option-cases, ◌==◌, ◌&&◌,
}
use approvio.Base.Result.{right, >>=-eq-right}
use approvio.RefreshToken.{RefreshToken, TokenEntity, mark_as_used, used, validate, to_json}
use approvio.RefreshToken.Family.{Row, revoke}
use approvio.RefreshToken.Rotation.{create_token, update_token, revoke_seen}

-- A token keeps its id and family when it is marked as used, and has those that it is created with.
pub mark_as_used-keeps :
    (now : ℕ) (t u : RefreshToken) (next : String)
    → mark_as_used now t next ≡ right u
    → (u.id ≡ t.id) × (u.family_id ≡ t.family_id)
unfolding mark_as_used
mark_as_used-keeps now t u next h =
    let (_, _, same) =
      >>=-eq-right (validate (to_json (record t { status = used now next }))) _ h in
    let q : ◌≡◌ {A = RefreshToken} (record t { status = used now next }) u = cc in
    (ap (λ x. x.id) (sym q), ap (λ x. x.family_id) (sym q))

pub create_token-has :
    (id family hash : String) (now created : ℕ) (e : TokenEntity) (t : RefreshToken)
    → create_token id family hash now created e ≡ right t
    → (t.id ≡ id) × (t.family_id ≡ family)
unfolding create_token
create_token-has id family hash now created e t h = ground (arith, h)

-- The first row is the one that is updated, or it stays.
pub update_token-first :
    (t : RefreshToken) (occ : ℕ) (x : Row) (rows rows' : List Row)
    → update_token t occ (x ∷ rows) ≡ some rows'
    → ((x.token.id ≡ t.id) × (x.occ ≡ occ) × (rows' ≡ record { token = t; occ = suc occ } ∷ rows))
      ⊎ ((rest : List Row) × (update_token t occ rows ≡ some rest) × (rows' ≡ x ∷ rest))
unfolding update_token
update_token-first t occ x rows rows' h =
    elim (Bool-cases ((x.token.id == t.id) && nat_eq x.occ occ)) [
      | inl e ↦ inl (ground (arith, eq_iff x.token.id t.id), ground arith, ground (arith, h))
      | inr e ↦ elim (Option-cases (update_token t occ rows)) [
        | inl n ↦ absurd (ground (arith, h))
        | inr (rest, q) ↦ inr (rest, q, ground (arith, h))
      ]
    ]

-- Each row afterwards was there, or is the updated one.
pub update_token-cases :
    (t : RefreshToken) (occ : ℕ) (rows rows' : List Row)
    → update_token t occ rows ≡ some rows'
    → (r : Row) → In r rows'
    → In r rows
      ⊎ ((r ≡ record { token = t; occ = suc occ })
          × (o : Row) × In o rows
          × (o.token.id ≡ t.id)
          × (o.occ ≡ occ))
unfolding update_token
update_token-cases t occ [] rows' h r i = cc
update_token-cases t occ (x ∷ rows) rows' h r i = elim (update_token-first t occ x rows rows' h) [
  | inl (same, at, q) ↦ elim (subst (In r) q i) [
    | inl e ↦ inr (sym e, x, inl refl, same, at)
    | inr j ↦ inl (inr j)
  ]
  | inr (rest, q, e) ↦ elim (subst (In r) e i) [
    | inl f ↦ inl (inl f)
    | inr j ↦ elim (update_token-cases t occ rows rest q r j) [
      | inl k ↦ inl (inr k)
      | inr (f, o, k, same, at) ↦ inr (f, o, inr k, same, at)
    ]
  ]
]

-- Every id stays.
pub update_token-keeps :
    (t : RefreshToken) (occ : ℕ) (rows rows' : List Row)
    → update_token t occ rows ≡ some rows'
    → (r : Row) → In r rows
    → (r' : Row) × In r' rows' × (r'.token.id ≡ r.token.id)
unfolding update_token
update_token-keeps t occ [] rows' h r i = cc
update_token-keeps t occ (x ∷ rows) rows' h r i = elim (update_token-first t occ x rows rows' h) [
  | inl (same, at, q) ↦ elim i [
    | inl e ↦ (
      record { token = t; occ = suc occ },
      subst (In _) (sym q) (inl refl),
      sym same ∙ ap (λ y. y.token.id) e,
    )
    | inr j ↦ (r, subst (In r) (sym q) (inr j), refl)
  ]
  | inr (rest, q, e) ↦ elim i [
    | inl f ↦ (x, subst (In x) (sym e) (inl refl), ap (λ y. y.token.id) f)
    | inr j ↦
        let (r', k, same) = update_token-keeps t occ rows rest q r j in
        (r', subst (In r') (sym e) (inr k), same)
  ]
]

-- Each row afterwards is a row, or a row of the family that was seen, revoked.
pub revoke_seen-cases :
    (family : String) (seen : List String) (rows : List Row) (r : Row)
    → In r (revoke_seen family seen rows)
    → (o : Row) × In o rows
      × ((r ≡ revoke o)
          ⊎ ((((o.token.family_id == family) && any (λ id. id == o.token.id) seen) ≡ false)
              × (r ≡ o)))
unfolding revoke_seen
revoke_seen-cases family seen [] r i = absurd i
revoke_seen-cases family seen (x ∷ rows) r (inr j) =
    let (o, k, c) = revoke_seen-cases family seen rows r j in (o, inr k, c)
revoke_seen-cases family seen (x ∷ rows) r (inl e) =
    elim (Bool-cases ((x.token.family_id == family) && any (λ id. id == x.token.id) seen)) [
      | inl hit ↦ let q : revoke x ≡ r = rw hit at e in (x, inl refl, inl (sym q))
      | inr miss ↦ let q : x ≡ r = rw miss at e in (x, inl refl, inr (miss, sym q))
    ]

-- Every id stays, and a row that is not hit stays as it is.
pub revoke_seen-keeps :
    (family : String) (seen : List String) (rows : List Row) (r : Row)
    → In r rows
    → (r' : Row) × In r' (revoke_seen family seen rows)
      × (r'.token.id ≡ r.token.id)
      × (any (λ id. id == r.token.id) seen ≡ false → r' ≡ r)
unfolding revoke_seen
revoke_seen-keeps family seen [] r i = absurd i
revoke_seen-keeps family seen (x ∷ rows) r (inr j) =
    let (r', k, same, kept) = revoke_seen-keeps family seen rows r j in (r', inr k, same, kept)
revoke_seen-keeps family seen (x ∷ rows) r (inl e) =
    elim (Bool-cases ((x.token.family_id == family) && any (λ id. id == x.token.id) seen)) [
      | inl hit ↦ (
        revoke x,
        rw hit (inl refl),
        ap (λ y. y.token.id) e,
        λ unseen.
            let seen_x : any (λ id. id == x.token.id) seen ≡ true = ground arith in
            let unseen_x : any (λ id. id == x.token.id) seen ≡ false =
              subst (λ y. any (λ id. id == y.token.id) seen ≡ false) (sym e) unseen in
            absurd (ground (arith, seen_x, unseen_x)),
      )
      | inr miss ↦ (x, rw miss (inl refl), ap (λ y. y.token.id) e, λ _. e)
    ]

-- An update finds its row.
pub update_token-found :
    (t : RefreshToken) (occ : ℕ) (rows rows' : List Row)
    → update_token t occ rows ≡ some rows'
    → (o : Row) × In o rows × (o.token.id ≡ t.id) × (o.occ ≡ occ)
unfolding update_token
update_token-found t occ [] rows' h = cc
update_token-found t occ (x ∷ rows) rows' h = elim (update_token-first t occ x rows rows' h) [
  | inl (same, at, _) ↦ (x, inl refl, same, at)
  | inr (rest, q, _) ↦
      let (o, i, same, at) = update_token-found t occ rows rest q in (o, inr i, same, at)
]
