-- ===== src/RefreshToken/Rotation/Tracking.antt =====
-- About what a refresh knows of the table after it has read its token.
use mathlib.Core.Path.{subst}
use approvio.Base.{
  All, map, any, ◌&&◌, ℕ, ◌≤◌, String, some, List, [], ◌∷◌, ◌≡◌, refl, arith, ◌⊎◌, inl, inr, sym,
  ap, ◌∙◌, In, Bool-cases, Option-cases, ◌==◌,
}
use approvio.RefreshToken.{RefreshToken}
use approvio.RefreshToken.Family.{Row}
use approvio.RefreshToken.Rotation.{
  update_token, persist_new_token_update_old_token, revoke_seen, Pc, idle, eligible, revoking,
  finish, IsNewId, Move, login, read, detect, rotate, give_up,
}
use approvio.RefreshToken.Rotation.Rows.{
  mark_as_used-keeps, create_token-has, update_token-first, update_token-cases, update_token-keeps,
  revoke_seen-cases, revoke_seen-keeps,
}

-- The ids of the rows differ, as those of a table do.
abbrev pub HasDistinctIds : List Row → Type 0
HasDistinctIds [] = Unit
HasDistinctIds (r ∷ rows) = IsNewId r.token.id rows × HasDistinctIds rows

pub HasDistinctIds-same :
    (rows : List Row)
    → HasDistinctIds rows
    → (r r' : Row) → In r rows
    → In r' rows
    → r.token.id ≡ r'.token.id
    → r ≡ r'
HasDistinctIds-same [] d r r' i j e = absurd i
HasDistinctIds-same (x ∷ rows) (n, d) r r' (inl p) (inl q) e = sym p ∙ q
HasDistinctIds-same (x ∷ rows) (n, d) r r' (inl p) (inr j) e =
    absurd (n r' j (sym e ∙ ap (λ y. y.token.id) (sym p)))
HasDistinctIds-same (x ∷ rows) (n, d) r r' (inr i) (inl q) e =
    absurd (n r i (e ∙ ap (λ y. y.token.id) (sym q)))
HasDistinctIds-same (x ∷ rows) (n, d) r r' (inr i) (inr j) e = HasDistinctIds-same rows d r r' i j e

update_token-HasDistinctIds :
    (t : RefreshToken) (occ : ℕ) (rows rows' : List Row)
    → update_token t occ rows ≡ some rows'
    → HasDistinctIds rows
    → HasDistinctIds rows'
unfolding update_token
update_token-HasDistinctIds t occ [] rows' h d = cc
update_token-HasDistinctIds t occ (x ∷ rows) rows' h (n, d) =
    elim (update_token-first t occ x rows rows' h) [
      | inl (same, at, q) ↦ subst HasDistinctIds (sym q) ((λ r i e. n r i (e ∙ sym same)), d)
      | inr (rest, q, e) ↦ subst HasDistinctIds (sym e) (
        (λ r i f. elim (update_token-cases t occ rows rest q r i) [
          | inl j ↦ n r j f
          | inr (g, o, j, same, at) ↦ n o j (same ∙ sym (ap (λ y. y.token.id) g) ∙ f)
        ]),
        update_token-HasDistinctIds t occ rows rest q d,
      )
    ]

revoke_seen-HasDistinctIds :
    (family : String) (seen : List String) (rows : List Row)
    → HasDistinctIds rows
    → HasDistinctIds (revoke_seen family seen rows)
unfolding revoke_seen
revoke_seen-HasDistinctIds family seen [] d = tt
revoke_seen-HasDistinctIds family seen (x ∷ rows) (n, d) =
    elim (Bool-cases ((x.token.family_id == family) && any (λ id. id == x.token.id) seen)) [
      | inl hit ↦ rw hit (fresh, revoke_seen-HasDistinctIds family seen rows d)
      | inr miss ↦ rw miss (fresh, revoke_seen-HasDistinctIds family seen rows d)
    ]
  where
    fresh : IsNewId x.token.id (revoke_seen family seen rows)
    fresh r i e =
        let (o, j, c) = revoke_seen-cases family seen rows r i in
        elim c [
          | inl q ↦ n o j (sym (ap (λ y. y.token.id) q) ∙ e)
          | inr (_, q) ↦ n o j (sym (ap (λ y. y.token.id) q) ∙ e)
        ]

-- Every row afterwards continues a row, or has a new id; and every id stays.
pub record Grows (rows rows' : List Row) : Type 0 where
  pub from :
      (r' : Row)
      → In r' rows'
      → ((o : Row) × In o rows
          × (o.token.id ≡ r'.token.id)
          × (o.token.family_id ≡ r'.token.family_id)
          × (o.occ ≤ r'.occ))
        ⊎ IsNewId r'.token.id rows
  pub keeps : (r : Row) → In r rows → (r' : Row) × In r' rows' × (r'.token.id ≡ r.token.id)

-- The row of the token that was read with the number `occ` is there, and has not gone back.
pub record Tracks (rows : List Row) (old : RefreshToken) (occ : ℕ) : Type 0 where
  pub there : (r : Row) × In r rows × (r.token.id ≡ old.id)
  pub since :
      (r : Row)
      → In r rows
      → r.token.id ≡ old.id
      → (r.token.family_id ≡ old.family_id) × (occ ≤ r.occ)

-- Each of the ids is that of a row.
abbrev pub HasSeen : List Row → List String → Type 0
HasSeen rows seen = All (λ id. (r : Row) × In r rows × (r.token.id ≡ id)) seen

abbrev pub Knows : List Row → Pc → Type 0
Knows rows idle = Unit
Knows rows (eligible old occ) = Tracks rows old occ
Knows rows (revoking family seen) = HasSeen rows seen

HasSeen-ids :
    (rows rows' : List Row)
    → ((r : Row) → In r rows → In r rows')
    → HasSeen rows' (map (λ r. r.token.id) rows)
HasSeen-ids [] rows' h = tt
HasSeen-ids (x ∷ rows) rows' h =
    ((x, h x (inl refl), refl), HasSeen-ids rows rows' (λ r i. h r (inr i)))

HasSeen-Grows :
    (rows rows' : List Row) (seen : List String)
    → Grows rows rows'
    → HasSeen rows seen
    → HasSeen rows' seen
HasSeen-Grows rows rows' [] g k = tt
HasSeen-Grows rows rows' (id ∷ seen) g ((r, i, e), k) =
    let (r', j, f) = g.keeps r i in ((r', j, f ∙ e), HasSeen-Grows rows rows' seen g k)

Tracks-Grows :
    (rows rows' : List Row) (old : RefreshToken) (occ : ℕ)
    → Grows rows rows'
    → Tracks rows old occ
    → Tracks rows' old occ
Tracks-Grows rows rows' old occ g k = record {
  there = let (r, i, e) = k.there in let (r', j, f) = g.keeps r i in (r', j, f ∙ e);
  since = λ r' j e. elim (g.from r' j) [
    | inl (o, i, same, fam, le) ↦
        let (fam', le') = k.since o i (same ∙ e) in (sym fam ∙ fam', omega (arith, le, le'))
    | inr new ↦ let (r, i, f) = k.there in absurd (new r i (f ∙ sym e))
  ];
}

pub Knows-Grows : (rows rows' : List Row) (p : Pc) → Grows rows rows' → Knows rows p → Knows rows' p
Knows-Grows rows rows' idle g k = tt
Knows-Grows rows rows' (eligible old occ) g k = Tracks-Grows rows rows' old occ g k
Knows-Grows rows rows' (revoking family seen) g k = HasSeen-Grows rows rows' seen g k

Grows-same : (rows : List Row) → Grows rows rows
Grows-same rows = record {
  from = λ r i. inl (r, i, refl, refl, omega arith);
  keeps = λ r i. (r, i, refl);
}

Grows-new : (rows : List Row) (r : Row) → IsNewId r.token.id rows → Grows rows (r ∷ rows)
Grows-new rows r new = record {
  from = λ r' j. elim j [
    | inl e ↦ inr (subst (λ x. IsNewId x.token.id rows) e new)
    | inr i ↦ inl (r', i, refl, refl, omega arith)
  ];
  keeps = λ x i. (x, inr i, refl);
}

pub Grows-revoke :
    (family : String) (seen : List String) (rows : List Row)
    → Grows rows (revoke_seen family seen rows)
Grows-revoke family seen rows = record {
  from = λ r' j.
      let (o, i, c) = revoke_seen-cases family seen rows r' j in
      inl (elim c [
        | inl q ↦ (
          o,
          i,
          ap (λ y. y.token.id) (sym q),
          ap (λ y. y.token.family_id) (sym q),
          omega (arith, ap (λ y. y.occ) q),
        )
        | inr (_, q) ↦ (
          o,
          i,
          ap (λ y. y.token.id) (sym q),
          ap (λ y. y.token.family_id) (sym q),
          omega (arith, ap (λ y. y.occ) q),
        )
      ]);
  keeps = λ r i. let (r', j, e, _) = revoke_seen-keeps family seen rows r i in (r', j, e);
}

Grows-update :
    (rows rows' : List Row) (old t : RefreshToken) (occ : ℕ)
    → Tracks rows old occ
    → t.id ≡ old.id
    → t.family_id ≡ old.family_id
    → update_token t occ rows ≡ some rows'
    → Grows rows rows'
Grows-update rows rows' old t occ k id fam h = record {
  from = λ r' j. elim (update_token-cases t occ rows rows' h r' j) [
    | inl i ↦ inl (r', i, refl, refl, omega arith)
    | inr (q, o, i, same, at) ↦ inl (
      o,
      i,
      same ∙ ap (λ y. y.token.id) (sym q),
      (k.since o i (same ∙ id)).0 ∙ sym fam ∙ ap (λ y. y.token.family_id) (sym q),
      omega (arith, ap (λ y. y.occ) q, at),
    )
  ];
  keeps = λ r i. update_token-keeps t occ rows rows' h r i;
}

Grows-trans : (a b c : List Row) → Grows a b → Grows b c → Grows a c
Grows-trans a b c g h = record {
  from = λ r i. elim (h.from r i) [
    | inl (o, j, same, fam, le) ↦ elim (g.from o j) [
      | inl (p, k, same', fam', le') ↦ inl (p, k, same' ∙ same, fam' ∙ fam, omega (arith, le, le'))
      | inr new ↦ inr (subst (λ x. IsNewId x a) same new)
    ]
    | inr new ↦ inr (λ q k e. let (q', l, f) = g.keeps q k in new q' l (f ∙ e))
  ];
  keeps = λ r i. let (r', j, e) = g.keeps r i in let (r'', k, f) = h.keeps r' j in (r'', k, f ∙ e);
}

update_token-IsNewId :
    (t : RefreshToken) (occ : ℕ) (rows rows' : List Row) (id : String)
    → update_token t occ rows ≡ some rows'
    → IsNewId id rows
    → IsNewId id rows'
update_token-IsNewId t occ rows rows' id h new r i e =
    elim (update_token-cases t occ rows rows' h r i) [
      | inl j ↦ new r j e
      | inr (q, o, j, same, at) ↦ new o j (same ∙ sym (ap (λ y. y.token.id) q) ∙ e)
    ]

-- The transaction is an update, and a new first row.
pub persist-cases :
    (t : RefreshToken) (occ : ℕ) (new : RefreshToken) (rows rows' : List Row)
    → persist_new_token_update_old_token t occ new rows ≡ some rows'
    → (updated : List Row) × (update_token t occ rows ≡ some updated)
      × (rows' ≡ record { token = new; occ = 0 } ∷ updated)
unfolding persist_new_token_update_old_token
persist-cases t occ new rows rows' h = elim (Option-cases (update_token t occ rows)) [
  | inl n ↦ absurd (ground (arith, h))
  | inr (updated, q) ↦ (updated, q, ground (arith, h))
]

-- A move keeps the ids of the rows different, lets the table grow, and what its caller knows then
-- is true.
pub record Moved (rows rows' : List Row) (p' : Pc) : Type 0 where
  pub distinct : HasDistinctIds rows'
  pub grows : Grows rows rows'
  pub knows : Knows rows' p'

pub Move-Moved :
    {rows rows' : List Row} {p p' : Pc}
    → Move rows p rows' p'
    → HasDistinctIds rows
    → Knows rows p
    → Moved rows rows' p'
Move-Moved {rows} (login id family hash now created entity new h fresh _) d k =
    let (same, _) = create_token-has id family hash now created entity new h in
    let fresh' : IsNewId new.id rows = subst (λ x. IsNewId x rows) (sym same) fresh in
    record { distinct = (fresh', d); grows = Grows-new rows _ fresh'; knows = tt }
Move-Moved {rows} (read r time i e) d k = record {
  distinct = d;
  grows = Grows-same rows;
  knows = record {
    there = (r, i, refl);
    since = λ r' j e.
        let q = HasDistinctIds-same rows d r' r j i e in
        (ap (λ y. y.token.family_id) q, omega (arith, ap (λ y. y.occ) q));
  };
}
Move-Moved {rows} (detect family) d k = record {
  distinct = d;
  grows = Grows-same rows;
  knows = HasSeen-ids rows rows (λ r i. i);
}
Move-Moved {rows} (finish {family} {seen}) d k = record {
  distinct = revoke_seen-HasDistinctIds family seen rows d;
  grows = Grows-revoke family seen rows;
  knows = tt;
}
Move-Moved {rows} (rotate {old} {occ} {rows'} id hash now created at new used h m fresh p) d k =
    let (updated, u, q) = persist-cases used occ new rows rows' p in
    let (same, _) = create_token-has id old.family_id hash now created old.entity new h in
    let (same_id, same_family) = mark_as_used-keeps at old used id m in
    let fresh' : IsNewId new.id updated =
      update_token-IsNewId used occ rows updated new.id u
        (subst (λ x. IsNewId x rows) (sym same) fresh) in
    subst (λ x. Moved rows x idle) (sym q)
      (record {
        distinct = (fresh', update_token-HasDistinctIds used occ rows updated u d);
        grows =
            Grows-trans rows updated _
              (Grows-update rows updated old used occ k same_id same_family u)
              (Grows-new updated _ fresh');
        knows = tt;
      })
Move-Moved {rows} give_up d k = record { distinct = d; grows = Grows-same rows; knows = tt }
