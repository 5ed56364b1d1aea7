-- ===== src/RefreshToken/Rotation/Revoked.antt =====
-- About the tokens that a revocation of their family has seen, whatever callers do concurrently.
use mathlib.Core.Path.{subst}
use approvio.Base.{
  refl, any, true, false, ◌&&◌, ◌==◌, eq_iff, ℕ, ◌<◌, String, List, ◌≡◌, ◌≢◌, arith, inl, inr, sym,
  ap, ◌∙◌, In, Bool-cases, nat_eq,
}
use approvio.Base.Result.{right}
use approvio.RefreshToken.{can_token_be_refreshed}
use approvio.RefreshToken.Family.{Row, revoke, revoked_refused}
use approvio.RefreshToken.Rotation.{
  Pc, set_pc, revoking, finish, revoke_seen, idle, eligible, Move, login, read, detect, rotate,
  give_up, System, Step, pick, Steps, done, later, empty,
}
use approvio.RefreshToken.Rotation.Rows.{
  mark_as_used-keeps, create_token-has, update_token-cases, revoke_seen-cases,
}
use approvio.RefreshToken.Rotation.Tracking.{
  HasDistinctIds, HasDistinctIds-same, Grows, Knows, Knows-Grows, Grows-revoke, persist-cases,
  Move-Moved,
}

-- In every state that the steps lead to, the ids differ and the callers know what they should.
pub record Inv (s : System) : Type 0 where
  pub distinct : HasDistinctIds s.rows
  pub knows : (i : ℕ) → Knows s.rows (s.pc i)

pub Step-Inv : {s t : System} → Step s t → Inv s → Inv t
Step-Inv {s} (pick i {rows} {p} mv) inv =
    let moved = Move-Moved mv inv.distinct (inv.knows i) in
    record {
      distinct = moved.distinct;
      knows = λ j. elim (Bool-cases (nat_eq i j)) [
        | inl e ↦ rw e moved.knows
        | inr e ↦ rw e (Knows-Grows s.rows rows (s.pc j) moved.grows (inv.knows j))
      ];
    }

pub Steps-Inv : {s t : System} → Steps s t → Inv s → Inv t
Steps-Inv done inv = inv
Steps-Inv (later r st) inv = Step-Inv st (Steps-Inv r inv)

pub empty-Inv : Inv empty
empty-Inv = record { distinct = tt; knows = λ i. tt }

-- No row with this id has a token that can be refreshed, at any time.
abbrev pub IsWorthless : String → List Row → Type 0
IsWorthless id rows =
    (r : Row)
    → In r rows
    → r.token.id ≡ id
    → (time : ℕ) → can_token_be_refreshed r.token time ≢ right tt

-- What a revocation has seen of its family is revoked when it ends.
revoke_seen-IsWorthless :
    (family : String) (seen : List String) (rows : List Row) (r : Row)
    → HasDistinctIds rows
    → In r rows
    → r.token.family_id ≡ family
    → any (λ id. id == r.token.id) seen ≡ true
    → (r' : Row) → In r' (revoke_seen family seen rows)
    → r'.token.id ≡ r.token.id
    → (o : Row) × In o rows × (r' ≡ revoke o)
revoke_seen-IsWorthless family seen rows r d i fam hit r' j e =
    let (o, k, c) = revoke_seen-cases family seen rows r' j in
    elim c [
      | inl q ↦ (o, k, q)
      | inr (miss, q) ↦
          let same : o ≡ r =
            HasDistinctIds-same rows d o r k i (ap (λ y. y.token.id) (sym q) ∙ e) in
          let miss' : ((r.token.family_id == family) && any (λ id. id == r.token.id) seen) ≡ false =
            subst
              (λ y. ((y.token.family_id == family) && any (λ id. id == y.token.id) seen) ≡ false)
              same miss in
          absurd (ground (arith, miss', hit, (eq_iff r.token.family_id family).1 fam))
    ]

module _ (id : String) where
  -- A refresh of the token that is under way has read its row before a change of it.
  Late : List Row → Pc → Type 0
  Late rows (eligible old occ) = old.id ≡ id → (r : Row) → In r rows → r.token.id ≡ id → occ < r.occ
  Late rows _ = Unit

  -- The token is there, it cannot be refreshed, and no refresh of it under way can succeed.
  record Closed (s : System) : Type 0 where
    present : (r : Row) × In r s.rows × (r.token.id ≡ id)
    worthless : IsWorthless id s.rows
    late : (i : ℕ) → Late s.rows (s.pc i)

  Late-Grows :
      (rows rows' : List Row) (p : Pc)
      → Grows rows rows'
      → (r : Row) × In r rows × (r.token.id ≡ id)
      → Late rows p
      → Late rows' p
  unfolding Late
  Late-Grows rows rows' idle g x l = tt
  Late-Grows rows rows' (revoking family seen) g x l = tt
  Late-Grows rows rows' (eligible old occ) g (r, i, f) l = λ same r' j e. elim (g.from r' j) [
    | inl (o, k, e', _, le) ↦ omega (arith, l same o k (e' ∙ e), le)
    | inr new ↦ absurd (new r i (f ∙ sym e))
  ]

  present-Grows :
      (rows rows' : List Row)
      → Grows rows rows'
      → (r : Row) × In r rows × (r.token.id ≡ id)
      → (r : Row) × In r rows' × (r.token.id ≡ id)
  present-Grows rows rows' g (r, i, e) = let (r', j, f) = g.keeps r i in (r', j, f ∙ e)

  Move-Late :
      {rows rows' : List Row} {p p' : Pc}
      → Move rows p rows' p'
      → IsWorthless id rows
      → Late rows' p'
  unfolding Late
  Move-Late (login x f hash now created e new h n u) w = tt
  Move-Late (read r time i e) w = λ same. absurd (w r i same time e)
  Move-Late (detect f) w = tt
  Move-Late finish w = tt
  Move-Late (rotate x hash now created at new used h m fresh p) w = tt
  Move-Late give_up w = tt

  Move-IsWorthless :
      {rows rows' : List Row} {p p' : Pc}
      → Move rows p rows' p'
      → (r : Row) × In r rows × (r.token.id ≡ id)
      → IsWorthless id rows
      → Late rows p
      → IsWorthless id rows'
  unfolding Late
  Move-IsWorthless (login x f hash now created e new h n u) (o, i, same) w l = λ r j is time.
      elim j [
        | inl q ↦
            let (has, _) = create_token-has x f hash now created e new h in
            absurd (n o i (same ∙ sym is ∙ sym (ap (λ y. y.token.id) q) ∙ has))
        | inr k ↦ w r k is time
      ]
  Move-IsWorthless (read r time i e) x w l = w
  Move-IsWorthless (detect f) x w l = w
  Move-IsWorthless {rows} (finish {family} {seen}) x w l = λ r j is time.
      let (o, i, c) = revoke_seen-cases family seen rows r j in
      elim c [
        | inl q ↦ revoked_refused r.token time (ap (λ y. y.token.status) q)
        | inr (_, q) ↦
            subst (λ y. can_token_be_refreshed y.token time ≢ right tt) (sym q)
              (w o i (ap (λ y. y.token.id) (sym q) ∙ is) time)
      ]
  Move-IsWorthless {rows} (rotate {old} {occ} {rows'} x hash now created at new used h m fresh p)
        (o, i, same) w l =
      λ r j is time.
        let (updated, u, q) = persist-cases used occ new rows rows' p in
        let (new_id, _) = create_token-has x old.family_id hash now created old.entity new h in
        let (used_id, _) = mark_as_used-keeps at old used x m in
        elim (subst (In r) q j) [
          | inl e ↦ absurd (fresh o i (same ∙ sym is ∙ sym (ap (λ y. y.token.id) e) ∙ new_id))
          | inr k ↦ elim (update_token-cases used occ rows updated u r k) [
            | inl k' ↦ w r k' is time
            | inr (e, f, k', f_id, f_occ) ↦
                let old_id : old.id ≡ id = sym used_id ∙ ap (λ y. y.token.id) (sym e) ∙ is in
                absurd (omega (arith, l old_id f k' (f_id ∙ used_id ∙ old_id), f_occ))
          ]
        ]
  Move-IsWorthless give_up x w l = w

  Step-Closed : {s t : System} → Step s t → Inv s → Closed s → Closed t
  Step-Closed {s} (pick i {rows} {p} mv) inv c =
      let moved = Move-Moved mv inv.distinct (inv.knows i) in
      record {
        present = present-Grows s.rows rows moved.grows c.present;
        worthless = Move-IsWorthless mv c.present c.worthless (c.late i);
        late = λ j. elim (Bool-cases (nat_eq i j)) [
          | inl e ↦ rw e (Move-Late mv c.worthless)
          | inr e ↦ rw e (Late-Grows s.rows rows (s.pc j) moved.grows c.present (c.late j))
        ];
      }

  Steps-Closed : {s t : System} → Steps s t → Inv s → Closed s → Closed t
  Steps-Closed done inv c = c
  Steps-Closed (later r st) inv c = Step-Closed st (Steps-Inv r inv) (Steps-Closed r inv c)

-- The system after the caller has ended its revocation
abbrev pub after_revocation : ℕ → String → List String → System → System
after_revocation i family seen s = record {
  rows = revoke_seen family seen s.rows;
  pc = set_pc s.pc i idle;
}

after-Closed :
    (i : ℕ) (family : String) (seen : List String) (s : System) (r : Row)
    → Inv s
    → In r s.rows
    → r.token.family_id ≡ family
    → any (λ id. id == r.token.id) seen ≡ true
    → Closed r.token.id (after_revocation i family seen s)
unfolding Late
after-Closed i family seen s r inv k fam hit = record {
  present = present-Grows r.token.id s.rows _ (Grows-revoke family seen s.rows) (r, k, refl);
  worthless = λ r' j e time.
      let (o, _, q) = hits r' j e in revoked_refused r'.token time (ap (λ y. y.token.status) q);
  late = λ j. elim (Bool-cases (nat_eq i j)) [
    | inl e ↦ rw e tt
    | inr e ↦ rw e (late (s.pc j) (inv.knows j))
  ];
}
  where
    hits :
        (r' : Row)
        → In r' (revoke_seen family seen s.rows)
        → r'.token.id ≡ r.token.id
        → (o : Row) × In o s.rows × (r' ≡ revoke o)
    hits = revoke_seen-IsWorthless family seen s.rows r inv.distinct k fam hit

    late : (p : Pc) → Knows s.rows p → Late r.token.id (revoke_seen family seen s.rows) p
    late idle known = tt
    late (revoking f ids) known = tt
    late (eligible old occ) known = λ same r' j e.
        let (o, k', q) = hits r' j e in
        let (_, le) = known.since o k' (sym (ap (λ y. y.token.id) q) ∙ e ∙ sym same) in
        omega (arith, le, ap (λ y. y.occ) q)

-- A token that the revocation of its family has seen is worth nothing for ever: from a state that any
-- logins, refreshes and revocations have led to, in which a caller is about to end the revocation
-- of a family, for a row of this family with an id that the revocation saw when it started, no
-- further steps after its end, of refreshes that were under way included, lead to a state in which
-- the token with this id can be refreshed at any time.
pub revoked_token_stays-IsWorthless :
    (s t : System) (i : ℕ) (family : String) (seen : List String) (r : Row)
    → Steps empty s
    → s.pc i ≡ revoking family seen
    → In r s.rows
    → r.token.family_id ≡ family
    → any (λ id. id == r.token.id) seen ≡ true
    → Steps (after_revocation i family seen s) t
    → IsWorthless r.token.id t.rows
revoked_token_stays-IsWorthless s t i family seen r before at k fam hit after =
    (Steps-Closed r.token.id after after-Inv
      (after-Closed i family seen s r inv k fam hit)).worthless
  where
    inv : Inv s
    inv = Steps-Inv before empty-Inv

    after-Inv : Inv (after_revocation i family seen s)
    after-Inv =
        Step-Inv
          (pick i
            (subst (λ p. Move s.rows p (revoke_seen family seen s.rows) idle) (sym at) finish))
          inv
