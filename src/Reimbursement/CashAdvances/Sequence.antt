-- ===== src/Reimbursement/CashAdvances/Sequence.antt =====
-- services/cash_advance.py: sequences of calls of its writers.
use office_connect.Base.{
  ◌+◌, ◌<◌, ◌≡◌, ◌≢◌, ◌⊎◌, Bool, true, false, none, refl, sym, ap, subst, ◌∙◌, inl, inr, List, [],
  ◌∷◌, ◌++◌, ◌==◌, In, here, there, In-append_left, In-append_cases, In-map, map-In, find?, map,
  arith, Bool-cases,
}
use office_connect.Reimbursement.CashAdvances.{blocks, open_cash_advance_for}
use office_connect.Reimbursement.CashAdvances.Ledger.{
  Recorded, Effect, IsPinned, replace, Recorded-Effect,
}
use office_connect.Reimbursement.Records.{CashAdvance, Store, is_settled, is_unliquidated}

-- The ids of the table are distinct and handed out, and nobody holds two unliquidated advances.
pub record IsSound (s : Store) : Type 0 where
  pub unique : (a b : CashAdvance) → In a s.advances → In b s.advances → a.id ≡ b.id → a ≡ b
  pub fresh : (a : CashAdvance) → In a s.advances → a.id < s.next_advance_id
  pub one :
      (a b : CashAdvance)
      → In a s.advances
      → In b s.advances
      → is_unliquidated a.status ≡ true
      → is_unliquidated b.status ≡ true
      → a.claimant_id ≡ b.claimant_id
      → a ≡ b

abbrev pub Keeps : Store → Store → Type 0
Keeps s after =
    (a : CashAdvance) → In a s.advances → is_settled a.status ≡ true → In a after.advances

only : {x y : CashAdvance} → In x (y ∷ []) → y ≡ x
only (here e) = e
only (there m) = elim m [ ]

find?-none :
    (p : CashAdvance → Bool) {x : CashAdvance} {xs : List CashAdvance}
    → In x xs
    → find? p xs ≡ none
    → p x ≡ false
find?-none p (here e) h = ground arith
find?-none p (there m) h = find?-none p m (ground arith)

same_IsSound :
    (s after : Store)
    → after.advances ≡ s.advances
    → after.next_advance_id ≡ s.next_advance_id
    → IsSound s
    → IsSound after
same_IsSound s after rows next sound =
    let back : (a : CashAdvance) → In a after.advances → In a s.advances =
      λ a m. subst (λ (x : List CashAdvance). In a x) rows m in
    record {
      unique = λ a b m n e. sound.unique a b (back a m) (back b n) e;
      fresh = λ a m. let below = sound.fresh a (back a m) in omega arith;
      one = λ a b m n u v e. sound.one a b (back a m) (back b n) u v e;
    }

-- The table with one row more.
module _ (s after : Store) (row : CashAdvance) (sound : IsSound s) (id : row.id ≡ s.next_advance_id)
    (free : open_cash_advance_for s row.claimant_id ≡ none)
    (rows : after.advances ≡ s.advances ++ row ∷ [])
    (next : after.next_advance_id ≡ s.next_advance_id + 1) where
  split : (a : CashAdvance) → In a after.advances → In a s.advances ⊎ (row ≡ a)
  split a m = elim (In-append_cases s.advances (subst (λ (x : List CashAdvance). In a x) rows m)) [
    | inl old ↦ inl old
    | inr new ↦ inr (only new)
  ]

  -- A row of the table has another id, and its claimant holds none or it is settled.
  other : (a : CashAdvance) → In a s.advances → a.id ≢ row.id
  other a m e = let below = sound.fresh a m in absurd (omega arith)

  held :
      (a : CashAdvance)
      → In a s.advances
      → is_unliquidated a.status ≡ true
      → a.claimant_id ≢ row.claimant_id
  unfolding open_cash_advance_for
  held a m u e = let no = find?-none (blocks row.claimant_id) m free in ground arith

  added_IsSound : IsSound after
  added_IsSound = record {
    unique = λ a b m n e. elim (split a m) [
      | inl m' ↦ elim (split b n) [
        | inl n' ↦ sound.unique a b m' n' e
        | inr f ↦ absurd (other a m' (e ∙ ap (λ (x : CashAdvance). x.id) (sym f)))
      ]
      | inr f ↦ elim (split b n) [
        | inl n' ↦ absurd (other b n' (sym e ∙ ap (λ (x : CashAdvance). x.id) (sym f)))
        | inr g ↦ sym f ∙ g
      ]
    ];
    fresh = λ a m. elim (split a m) [
      | inl m' ↦ let below = sound.fresh a m' in omega arith
      | inr f ↦ let e = ap (λ (x : CashAdvance). x.id) f in omega arith
    ];
    one = λ a b m n u v e. elim (split a m) [
      | inl m' ↦ elim (split b n) [
        | inl n' ↦ sound.one a b m' n' u v e
        | inr f ↦ absurd (held a m' u (e ∙ ap (λ (x : CashAdvance). x.claimant_id) (sym f)))
      ]
      | inr f ↦ elim (split b n) [
        | inl n' ↦ absurd (held b n' v (sym e ∙ ap (λ (x : CashAdvance). x.claimant_id) (sym f)))
        | inr g ↦ sym f ∙ g
      ]
    ];
  }

  added_Keeps : Keeps s after
  added_Keeps a m e =
      subst (λ (x : List CashAdvance). In a x) (sym rows) (In-append_left (row ∷ []) m)

-- The table with one row replaced.
module _ (s after : Store) (old new : CashAdvance) (sound : IsSound s) (listed : In old s.advances)
    (id : new.id ≡ old.id) (claimant : new.claimant_id ≡ old.claimant_id)
    (live : is_settled old.status ≡ false) (rows : after.advances ≡ map (replace new) s.advances)
    (next : after.next_advance_id ≡ s.next_advance_id) where
  -- A row of the new table comes from a row with its id and claimant that is unliquidated if it is.
  source :
      (b : CashAdvance)
      → In b after.advances
      → (a : CashAdvance) × In a s.advances
        × (replace new a ≡ b)
        × (a.id ≡ b.id)
        × (a.claimant_id ≡ b.claimant_id)
        × (is_unliquidated b.status ≡ true → is_unliquidated a.status ≡ true)
  source b m =
      let (a, n, e) =
        map-In (replace new) s.advances (subst (λ (x : List CashAdvance). In b x) rows m) in
      elim (Bool-cases (a.id == new.id)) [
        | inl same ↦
            let it : a ≡ old = sound.unique a old n listed (ground arith) in
            let e' : new ≡ b = rw same at e in
            (
              a,
              n,
              e,
              ap (λ (x : CashAdvance). x.id) it ∙ sym id ∙ ap (λ (x : CashAdvance). x.id) e',
              ap (λ (x : CashAdvance). x.claimant_id) it
                  ∙ sym claimant
                  ∙ ap (λ (x : CashAdvance). x.claimant_id) e',
              λ u.
                  subst (λ (x : CashAdvance). is_unliquidated x.status ≡ true) (sym it)
                    (ground arith),
            )
        | inr other ↦
            let e' : a ≡ b = rw other at e in
            (
              a,
              n,
              e,
              ap (λ (x : CashAdvance). x.id) e',
              ap (λ (x : CashAdvance). x.claimant_id) e',
              λ u. subst (λ (x : CashAdvance). is_unliquidated x.status ≡ true) (sym e') u,
            )
      ]

  replaced_IsSound : IsSound after
  replaced_IsSound = record {
    unique = λ b1 b2 m1 m2 e.
        let (a1, n1, e1, i1, c1, u1) = source b1 m1 in
        let (a2, n2, e2, i2, c2, u2) = source b2 m2 in
        sym e1 ∙ ap (replace new) (sound.unique a1 a2 n1 n2 (i1 ∙ e ∙ sym i2)) ∙ e2;
    fresh =
        λ b m. let (a, n, e, i, c, u) = source b m in let below = sound.fresh a n in omega arith;
    one = λ b1 b2 m1 m2 v1 v2 e.
        let (a1, n1, e1, i1, c1, u1) = source b1 m1 in
        let (a2, n2, e2, i2, c2, u2) = source b2 m2 in
        sym e1 ∙ ap (replace new) (sound.one a1 a2 n1 n2 (u1 v1) (u2 v2) (c1 ∙ e ∙ sym c2)) ∙ e2;
  }

  replaced_Keeps : Keeps s after
  replaced_Keeps a m done = elim (Bool-cases (a.id == new.id)) [
    | inl same ↦
        let it : a ≡ old = sound.unique a old m listed (ground arith) in
        let stuck : is_settled old.status ≡ true =
          subst (λ (x : CashAdvance). is_settled x.status ≡ true) it done in
        cc
    | inr other ↦
        let same : replace new a ≡ a = rw other refl in
        subst (λ (x : List CashAdvance). In a x) (sym rows)
          (subst (λ (x : CashAdvance). In x (map (replace new) s.advances)) same
            (In-map (replace new) m))
  ]

step : {s after : Store} → Effect s after → IsSound s → IsSound after × Keeps s after
step {s} {after} (Effect.kept rows next) sound = (
  same_IsSound s after rows next sound,
  λ a m done. subst (λ (x : List CashAdvance). In a x) (sym rows) m,
)
step {s} {after} (Effect.added row id free rows next) sound = (
  added_IsSound s after row sound id free rows next,
  added_Keeps s after row sound id free rows next,
)
step {s} {after} (Effect.replaced old new listed id claimant live pinned rows next) sound = (
  replaced_IsSound s after old new sound listed id claimant live rows next,
  replaced_Keeps s after old new sound listed id claimant live rows next,
)

-- Any number of calls, one after another.
pub data Recording (s : Store) : Store → Type 0 where
  begin : Recording s s
  call : {before after : Store} → Recording s before → Recorded before after → Recording s after

-- However many calls of the writers return, and in whatever order: if the ids of the advances were distinct
-- and no claimant held two unliquidated advances, that is still so, and every advance that was settled
-- stands with its row unchanged, the settlement recorded on it included.
pub Recording-IsSound :
    {s after : Store}
    → Recording s after
    → IsSound s
    → IsSound after
      × ((a : CashAdvance) → In a s.advances → is_settled a.status ≡ true → In a after.advances)
Recording-IsSound Recording.begin sound = (sound, λ a m e. m)
Recording-IsSound (Recording.call calls last) sound =
    let (between, kept) = Recording-IsSound calls sound in
    let (end, kept_last) = step (Recorded-Effect last) between in
    (end, λ a m e. kept_last a (kept a m e) e)

-- In one call of a writer, an advance keeps its row under its id, and its pinned deadline and basis are
-- unchanged unless its return date is another one (in a table whose ids are distinct).
pub Recorded-IsPinned :
    {s after : Store}
    → Recorded s after
    → IsSound s
    → (a : CashAdvance) → In a s.advances
    → (b : CashAdvance) × In b after.advances × (b.id ≡ a.id) × IsPinned a b
Recorded-IsPinned {s} {after} made sound a m = pinned (Recorded-Effect made)
  where
    pinned : Effect s after → (b : CashAdvance) × In b after.advances × (b.id ≡ a.id) × IsPinned a b
    pinned (Effect.kept rows next) =
        (a, subst (λ (x : List CashAdvance). In a x) (sym rows) m, refl, inl (refl, refl))
    pinned (Effect.added row id free rows next) = (
      a,
      subst (λ (x : List CashAdvance). In a x) (sym rows) (In-append_left (row ∷ []) m),
      refl,
      inl (refl, refl),
    )
    pinned (Effect.replaced old new listed id claimant live same rows next) =
        let moved =
          subst (λ (x : List CashAdvance). In (replace new a) x) (sym rows)
            (In-map (replace new) m) in
        elim (Bool-cases (a.id == new.id)) [
          | inl e ↦
              let it : a ≡ old = sound.unique a old m listed (ground arith) in
              let place : replace new a ≡ new = rw e refl in
              (
                new,
                subst (λ (x : CashAdvance). In x after.advances) place moved,
                ground arith,
                subst (λ (x : CashAdvance). IsPinned x new) (sym it) same,
              )
          | inr e ↦
              let place : replace new a ≡ a = rw e refl in
              (
                a,
                subst (λ (x : CashAdvance). In x after.advances) place moved,
                refl,
                inl (refl, refl),
              )
        ]
