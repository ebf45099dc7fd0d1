-- ===== src/Reimbursement/Liquidations/Once.antt =====
-- services/liquidation.py: starting a liquidation, and starting it again.
use office_connect.Base.{
  ℕ, ◌≡◌, ◌≢◌, Bool, true, false, none, some, refl, sym, ap, subst, ◌∙◌, inl, inr, List, [], ◌∷◌,
  ◌++◌, ◌==◌, if◌then◌else◌, In, here, there, In-append_cases, In-append_right, In-map, map-In,
  In-any, any, map, arith, Bool-cases, find?-holds,
}
use office_connect.Reimbursement.CashAdvances.{link_claim, mark_liquidation_started, is_opened}
use office_connect.Reimbursement.Claims.Lifecycle.{staff_of, draft_claim, create_draft_claim}
use office_connect.Reimbursement.Errors.{
  Error, ok, >>=-eq-ok, require-eq-ok, guard-eq-ok, raise_if-eq-ok, ok-injective,
}
use office_connect.Reimbursement.Liquidations.{
  liquidation_for_advance, is_indexed, holds_advance, refuse_existing, prefilled, start_liquidation,
}
use office_connect.Reimbursement.Records.{
  ClaimKind, CashAdvance, Claim, Staff, Store, is_settled, put_claim, put_advance, find_advance,
}

abbrev pub replace : Claim → Claim → Claim
replace row c = if c.id == row.id then row else c

-- a draft beside an advance
abbrev pub linked : Claim → CashAdvance → Claim
linked c advance = record c {
  dpo_no = advance.dpo_no;
  date_return = advance.date_return;
  cash_advance_id = some advance.id;
  liquidation_deadline = advance.deadline_date;
}

-- What `start_liquidation` leaves.
pub record Begun (s : Store) (id actor now : ℕ) (claim : Claim) (after : Store) : Type 0 where
  pub advance : CashAdvance
  pub found : find_advance s id ≡ some advance
  pub open_still : is_settled advance.status ≡ false
  pub own : holds_advance s actor advance ≡ true
  pub unused : any (is_indexed id) s.claims ≡ false
  pub staff : Staff
  pub row :
      claim ≡ linked (draft_claim s.next_claim_id ClaimKind.liquidation staff actor now) advance
  pub rows :
      after.claims
      ≡ map
          (replace claim)
          (s.claims ++ draft_claim s.next_claim_id ClaimKind.liquidation staff actor now ∷ [])

start_claims :
    (s : Store) (row : CashAdvance) → (mark_liquidation_started s row).1.claims ≡ s.claims
unfolding mark_liquidation_started put_advance
start_claims s row = elim (Bool-cases (is_opened row.status)) [
  | inl e ↦ rw e refl
  | inr e ↦ rw e refl
]

create-drafts :
    (s : Store) (actor : ℕ) (kind : ClaimKind) (now : ℕ) {c : Claim} {after : Store}
    → create_draft_claim s actor kind now ≡ ok (c, after)
    → (staff : Staff) × (c ≡ draft_claim s.next_claim_id kind staff actor now)
      × (after.claims ≡ s.claims ++ draft_claim s.next_claim_id kind staff actor now ∷ [])
unfolding create_draft_claim
create-drafts s actor kind now h =
    let (staff, linked, h1) = require-eq-ok (staff_of s actor) Error.no_staff_link _ h in
    let (live, h2) = raise_if-eq-ok staff.deleted Error.no_staff_link _ h1 in
    let e = ok-injective h2 in
    (staff, sym (ap (λ (x : Claim × Store). x.0) e), sym (ap (λ (x : Claim × Store). x.1.claims) e))

linked_claim :
    (s : Store) (c : Claim) (advance : CashAdvance)
    → (link_claim s (prefilled c advance) advance).0 ≡ linked c advance
unfolding link_claim
linked_claim s c advance = refl

linked_rows :
    (s : Store) (c : Claim) (advance : CashAdvance) {rows : List Claim}
    → s.claims ≡ rows
    → (link_claim s (prefilled c advance) advance).1.claims ≡ map (replace (linked c advance)) rows
unfolding link_claim put_claim
linked_rows s c advance e = ap (map (replace (linked c advance))) e

start-Begun :
    (s : Store) (id actor now : ℕ) {claim : Claim} {after : Store}
    → start_liquidation s id actor now ≡ ok (claim, after)
    → Begun s id actor now claim after
unfolding start_liquidation
start-Begun s id actor now {claim} {after} h =
    let (advance, found, h1) = require-eq-ok (find_advance s id) Error.cash_advance_not_found _ h in
    let (live, h2) =
      raise_if-eq-ok (is_settled advance.status) Error.cash_advance_already_settled_for_liquidation
        _ h1 in
    let (own, h3) = guard-eq-ok (holds_advance s actor advance) Error.not_advance_holder _ h2 in
    let (u, free, h4) = >>=-eq-ok (refuse_existing (liquidation_for_advance s id)) _ h3 in
    let (drafted, drafted_ok, h5) =
      >>=-eq-ok (create_draft_claim s actor ClaimKind.liquidation now) _ h4 in
    let (unused, h6) =
      raise_if-eq-ok (any (is_indexed id) s.claims) (Error.liquidation_exists none) _ h5 in
    let (staff, is_draft, listed) = create-drafts s actor ClaimKind.liquidation now drafted_ok in
    let e = ok-injective h6 in
    let is_linked = linked_claim drafted.1 drafted.0 advance in
    let same = ap (λ (x : Claim × Store). x.0) e in
    record {
      advance = advance;
      found = found;
      open_still = live;
      own = own;
      unused = unused;
      staff = staff;
      row = sym same ∙ is_linked ∙ ap (λ (x : Claim). linked x advance) is_draft;
      rows =
          sym (ap (λ (x : Claim × Store). x.1.claims) e)
          ∙ start_claims (link_claim drafted.1 (prefilled drafted.0 advance) advance).1 advance
          ∙ linked_rows drafted.1 drafted.0 advance listed
          ∙ ap
              (λ (x : Claim). map (replace x) (
                s.claims ++ draft_claim s.next_claim_id ClaimKind.liquidation staff actor now ∷ []))
              (sym is_linked ∙ same);
    }

only : {x y : Claim} → In x (y ∷ []) → y ≡ x
only (here e) = e
only (there m) = elim m [ ]

not_any :
    (p : Claim → Bool) {x : Claim} {xs : List Claim} → any p xs ≡ false → In x xs → p x ≡ false
not_any p h m = elim (Bool-cases (p _)) [ inl e ↦ let some_one = In-any p m e in cc | inr e ↦ e ]

-- What is seen from outside: the claim, in the table, and every other liquidation of the advance.
module _ (s : Store) (id actor now : ℕ) (claim : Claim) (after : Store)
    (b : Begun s id actor now claim after) where
  draft : Claim
  draft = draft_claim s.next_claim_id ClaimKind.liquidation b.staff actor now

  new_id : claim.id ≡ s.next_claim_id
  new_id = ap (λ (x : Claim). x.id) b.row

  listed : In claim after.claims
  unfolding draft
  listed =
      let place : replace claim draft ≡ claim =
        let same : draft.id == claim.id ≡ true = ground (arith, new_id) in rw same refl in
      subst (λ (x : List Claim). In claim x) (sym b.rows)
        (subst (λ (x : Claim). In x (map (replace claim) (s.claims ++ draft ∷ []))) place
          (In-map (replace claim) (In-append_right s.claims (here refl))))

  only_one : (c : Claim) → In c after.claims → is_indexed id c ≡ true → c ≡ claim
  unfolding draft
  only_one c m t =
      let (x, n, e) =
        map-In (replace claim) (s.claims ++ draft ∷ [])
          (subst (λ (x : List Claim). In c x) b.rows m) in
      elim (Bool-cases (x.id == claim.id)) [
        | inl same ↦ sym (rw same at e)
        | inr other ↦
            let it : x ≡ c = rw other at e in
            elim (In-append_cases s.claims n) [
              | inl old ↦
                  let off = not_any (is_indexed id) b.unused old in
                  let on : is_indexed id x ≡ true =
                    subst (λ (y : Claim). is_indexed id y ≡ true) (sym it) t in
                  absurd (cc)
              | inr new ↦
                  let is_draft = only new in
                  let same_id : x.id ≡ s.next_claim_id = sym (ap (λ (y : Claim). y.id) is_draft) in
                  absurd (ground (arith, new_id))
            ]
      ]

advance_id :
    (s : Store) (id : ℕ) {advance : CashAdvance}
    → find_advance s id ≡ some advance
    → advance.id ≡ id
unfolding find_advance
advance_id s id h =
    let e = find?-holds (λ (a : CashAdvance). a.id == id) s.advances h in ground arith

indexed_new :
    (id advance : ℕ) (c : Claim)
    → c.cash_advance_id ≡ some advance
    → advance ≡ id
    → c.kind ≡ ClaimKind.liquidation
    → c.status ≡ some "draft"
    → is_indexed id c ≡ true
indexed_new id advance c e f g h = rw (e, g, h) (ground arith)

-- A start of a liquidation that returns leaves one liquidation of the advance that is not cancelled: the
-- new claim, linked to the advance and with its deadline. A second start on what it leaves, by whom and
-- when ever, does not return.
pub start_liquidation-once :
    (s : Store) (id actor now again later : ℕ) {claim : Claim} {after : Store}
    (other : Claim × Store)
    → start_liquidation s id actor now ≡ ok (claim, after)
    → (claim.cash_advance_id ≡ some id)
      × In claim after.claims
      × (is_indexed id claim ≡ true)
      × ((c : Claim) → In c after.claims → is_indexed id c ≡ true → c ≡ claim)
      × (start_liquidation after id again later ≢ ok other)
start_liquidation-once s id actor now again later {claim} {after} other h =
    let b = start-Begun s id actor now h in
    let at = advance_id s id b.found in
    let link = ap (λ (x : Claim). x.cash_advance_id) b.row in
    let new =
      indexed_new id b.advance.id claim link at (ap (λ (x : Claim). x.kind) b.row)
        (ap (λ (x : Claim). x.status) b.row) in
    let there_now = listed s id actor now claim after b in
    (
      link ∙ ap some at,
      there_now,
      new,
      only_one s id actor now claim after b,
      λ h2.
          let c = start-Begun after id again later h2 in
          let off = not_any (is_indexed id) c.unused there_now in differ (sym new ∙ off),
    )
  where
    differ : true ≡ false → ⊥
    differ e = cc
