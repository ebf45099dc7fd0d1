-- ===== src/Reimbursement/Settling/Final.antt =====
-- services/settlement.py: recording a settlement, and recording it again.
use office_connect.Base.{
  ℕ, String, ◌+◌, ◌<◌, arith, ◌≡◌, ◌≢◌, ◌⊎◌, inl, inr, Bool, true, false, ◌&&◌, ◌||◌, some, refl,
  sym, ap, subst, ◌∙◌, is_some, truthy, Bool-cases,
}
use office_connect.Base.Int.{ℤ, pos, pos_part, neg_part, ltb_ℤ}
use office_connect.Reimbursement.CashAdvances.{is_mode, settled_row, mark_settled}
use office_connect.Reimbursement.Claims.{status_or_draft}
use office_connect.Reimbursement.Claims.Kept.{Passed-Facts}
use office_connect.Reimbursement.Claims.Lifecycle.{Environment, locked_claim, claim_action}
use office_connect.Reimbursement.Claims.Lockstep.{claim_action-Passed}
use office_connect.Reimbursement.Errors.{
  Error, ok, guard, raise_if, >>=-eq-ok, require-eq-ok, guard-eq-ok, raise_if-eq-ok, ok-injective,
}
use office_connect.Reimbursement.Fms.{closing}
use office_connect.Reimbursement.Records.{
  CashAdvance, Claim, Totals, Store, is_settled, is_liquidation, put_advance, find_claim,
  find_advance,
}
use office_connect.Reimbursement.Records.Lookup.{
  find_advance-put_advance, find_advance-same, find_advance_id, find_claim-same,
}
use office_connect.Reimbursement.Settling.{
  settlement_mode, Settlement, is_refund, check_receipt, validate_receipt, settling, may_settle,
  record_settlement,
}
use office_connect.Reimbursement.Status.{handed_to_fms}
use text.Mathlib.Text.{◌==◌ as str_eq}

same_value {ℓ} : {A : Type ℓ} {p q : A} → some p ≡ some q → p ≡ q
same_value e = cc

-- A receipt with its date where money comes back, and neither where none does.
abbrev pub IsReceipted : Totals → Settlement → Type 0
IsReceipted totals r =
    ((ltb_ℤ (pos 0) totals.to_refund ≡ true) × (truthy r.or_no && is_some r.or_date ≡ true))
    ⊎ ((ltb_ℤ (pos 0) totals.to_refund ≡ false) × (truthy r.or_no || is_some r.or_date ≡ false))

infix 50 ◌<ℤ◌
abbrev pub ◌<ℤ◌ : ℤ → ℤ → Type 0
a <ℤ b = pos_part a + neg_part b < pos_part b + neg_part a

-- The mode of a settlement: money comes back, or is still owed, or neither.
abbrev pub IsMode : Totals → String → Type 0
IsMode totals mode =
    ((pos 0 <ℤ totals.to_refund) × (mode ≡ "refund"))
    ⊎ ((¬ (pos 0 <ℤ totals.to_refund)) × (pos 0 <ℤ totals.to_reimburse) × (mode ≡ "over_advance"))
    ⊎ ((¬ (pos 0 <ℤ totals.to_refund)) × (¬ (pos 0 <ℤ totals.to_reimburse)) × (mode ≡ "exact"))

settlement_mode-IsMode : (t : Totals) → IsMode t (settlement_mode t)
unfolding settlement_mode
settlement_mode-IsMode t = elim (Bool-cases (ltb_ℤ (pos 0) t.to_refund)) [
  | inl e ↦ inl (ground arith, rw e refl)
  | inr e ↦ elim (Bool-cases (ltb_ℤ (pos 0) t.to_reimburse)) [
    | inl f ↦ inr (inl (λ k. ground arith, ground arith, rw (e, f) refl))
    | inr f ↦ inr (inr (λ k. ground arith, λ k. ground arith, rw (e, f) refl))
  ]
]

mode_refund : (t : Totals) → is_refund (settlement_mode t) ≡ ltb_ℤ (pos 0) t.to_refund
unfolding settlement_mode
mode_refund t = elim (Bool-cases (ltb_ℤ (pos 0) t.to_refund)) [
  | inl e ↦ rw e refl
  | inr e ↦ elim (Bool-cases (ltb_ℤ (pos 0) t.to_reimburse)) [
    | inl f ↦ rw (e, f) refl
    | inr f ↦ rw (e, f) refl
  ]
]

receipt-IsReceipted :
    (t : Totals) (r : Settlement) {u : Unit {0}}
    → validate_receipt (settlement_mode t) t.to_refund r ≡ ok u
    → IsReceipted t r
unfolding validate_receipt
receipt-IsReceipted t r h =
    let (v, checked, h1) = >>=-eq-ok (check_receipt (is_refund (settlement_mode t)) r) _ h in
    elim (Bool-cases (ltb_ℤ (pos 0) t.to_refund)) [
      | inl e ↦
          let on : check_receipt true r ≡ ok v =
            subst (λ (x : Bool). check_receipt x r ≡ ok v) (mode_refund t ∙ e) checked in
          inl (e, held (truthy r.or_no && is_some r.or_date) on)
      | inr e ↦
          let off : check_receipt false r ≡ ok v =
            subst (λ (x : Bool). check_receipt x r ≡ ok v) (mode_refund t ∙ e) checked in
          inr (e, clear (truthy r.or_no || is_some r.or_date) off)
    ]
  where
    held : (b : Bool) {v : Unit {0}} → guard b Error.refund_receipt_required ≡ ok v → b ≡ true
    held true h = refl
    held false h = cc

    clear :
        (b : Bool) {v : Unit {0}}
        → raise_if b Error.refund_receipt_not_applicable ≡ ok v
        → b ≡ false
    clear true h = cc
    clear false h = refl

-- What `record_settlement` has checked before it writes.
pub record Checked (s : Store) (r : Settlement) (advance : CashAdvance) (totals : Totals)
    : Type 0 where
  pub claim : Claim
  pub found : find_claim s r.claim_id ≡ some claim
  pub id : ℕ
  pub link : claim.cash_advance_id ≡ some id
  pub at : find_advance s id ≡ some advance
  pub live : is_settled advance.status ≡ false
  pub computed : claim.totals ≡ some totals
  pub receipt : IsReceipted totals r

may_settle-Checked :
    (s : Store) (r : Settlement) {advance : CashAdvance} {totals : Totals}
    → may_settle s r ≡ ok (advance, totals)
    → Checked s r advance totals
unfolding may_settle locked_claim
may_settle-Checked s r h =
    let (claim, found, h1) = require-eq-ok (find_claim s r.claim_id) Error.claim_not_found _ h in
    let (kind, h2) = guard-eq-ok (is_liquidation claim.kind) Error.not_a_liquidation _ h1 in
    let (id, link, h3) =
      require-eq-ok claim.cash_advance_id Error.liquidation_without_advance _ h2 in
    let (advance, at, h4) = require-eq-ok (find_advance s id) Error.cash_advance_not_found _ h3 in
    let (live, h5) =
      raise_if-eq-ok (is_settled advance.status) Error.settlement_already_recorded _ h4 in
    let (at_fms, h6) =
      guard-eq-ok (str_eq (status_or_draft claim.status) handed_to_fms)
        (Error.settlement_wrong_state (status_or_draft claim.status)) _ h5 in
    let (totals, computed, h7) = require-eq-ok claim.totals Error.settlement_totals_missing _ h6 in
    let (u, valid, h8) =
      >>=-eq-ok (validate_receipt (settlement_mode totals) totals.to_refund r) _ h7 in
    subst (λ (x : CashAdvance × Totals). Checked s r x.0 x.1) (ok-injective h8)
      (record {
        claim = claim;
        found = found;
        id = id;
        link = link;
        at = at;
        live = live;
        computed = computed;
        receipt = receipt-IsReceipted totals r valid;
      })

abbrev pub row_of : CashAdvance → Settlement → Totals → CashAdvance
row_of advance r totals = settled_row advance (settling r (settlement_mode totals) totals.to_refund)

-- A settlement that returned: the claim as it was, and the settled row of its advance.
pub record Settled (s : Store) (r : Settlement) (out : Claim) (after : Store) : Type 0 where
  pub advance : CashAdvance
  pub totals : Totals
  pub checked : Checked s r advance totals
  pub row : find_advance after checked.id ≡ some (row_of advance r totals)
  pub stored : find_claim after r.claim_id ≡ some out
  pub same_link : out.cash_advance_id ≡ some checked.id

marked :
    (s : Store) (r : Settlement) (advance : CashAdvance) (totals : Totals) {b : Bool}
    {after : Store}
    → is_settled advance.status ≡ false
    → mark_settled s advance (settling r (settlement_mode totals) totals.to_refund) ≡ ok (b, after)
    → after ≡ put_advance (row_of advance r totals) s
unfolding mark_settled
marked s r advance totals live h =
    let (known, h1) = guard-eq-ok (is_mode (settlement_mode totals)) Error.value_error _ h in
    let e = ok-injective (rw live at h1) in sym (ap (λ (x : Bool × Store). x.1) e)

put_advance_claims : (a : CashAdvance) (s : Store) → (put_advance a s).claims ≡ s.claims
unfolding put_advance
put_advance_claims a s = refl

settled :
    (env : Environment) (s t : Store) (r : Settlement) (advance : CashAdvance) (totals : Totals)
    {out : Claim} {after : Store}
    → Checked s r advance totals
    → t ≡ put_advance (row_of advance r totals) s
    → claim_action env t (closing r.claim_id r.actor_user_id r.comment r.expected_version r.now)
      ≡ ok (out, after)
    → Settled s r out after
settled env s t r advance totals {out} {after} c e h =
    let q = closing r.claim_id r.actor_user_id r.comment r.expected_version r.now in
    let p = claim_action-Passed env t q h in
    let (id, stored, facts, rows) = Passed-Facts env t q p in
    let row = row_of advance r totals in
    let claims = ap (λ (x : Store). x.claims) e ∙ put_advance_claims row s in
    let same = same_value (sym p.found ∙ find_claim-same t s r.claim_id claims c.found) in
    record {
      advance = advance;
      totals = totals;
      checked = c;
      row =
          find_advance-same after (put_advance row s) c.id (rows ∙ ap (λ (x : Store). x.advances) e)
            (find_advance-put_advance row s c.id (find_advance_id s c.id c.at) c.at);
      stored = stored;
      same_link = facts.advance ∙ ap (λ (x : Claim). x.cash_advance_id) same ∙ c.link;
    }

pub record_settlement-Settled :
    (env : Environment) (s : Store) (r : Settlement) {out : Claim} {after : Store}
    → record_settlement env s r ≡ ok (out, after)
    → Settled s r out after
unfolding record_settlement
record_settlement-Settled env s r h =
    let (checked, checked_ok, h1) = >>=-eq-ok (may_settle s r) _ h in
    let (mark, mark_ok, h2) =
      >>=-eq-ok
        (mark_settled s checked.0 (settling r (settlement_mode checked.1) checked.1.to_refund)) _
        h1 in
    let c = may_settle-Checked s r checked_ok in
    settled env s mark.1 r checked.0 checked.1 c (marked s r checked.0 checked.1 c.live mark_ok) h2

-- A settlement is recorded once: a call of record_settlement that returns found the advance of the claim
-- not settled, and leaves it settled in the mode that the claim's totals say, with the official receipt and
-- its date given exactly where money comes back; and no second call for the claim, whatever its arguments,
-- returns on what it leaves.
pub record_settlement-once :
    (env : Environment) (s : Store) (r again : Settlement) (other : Claim × Store) {out : Claim}
    {after : Store}
    → again.claim_id ≡ r.claim_id
    → record_settlement env s r ≡ ok (out, after)
    → (x : Settled s r out after) × (is_settled x.advance.status ≡ false)
      × (find_advance after x.checked.id ≡ some (row_of x.advance r x.totals))
      × IsReceipted x.totals r
      × ((mode : String) × IsMode x.totals mode
          × ((row_of x.advance r x.totals).settlement_mode ≡ some mode))
      × (record_settlement env after again ≢ ok other)
record_settlement-once env s r again other {out} {after} same h =
    let x = record_settlement-Settled env s r h in
    (
      x,
      x.checked.live,
      x.row,
      x.checked.receipt,
      (settlement_mode x.totals, settlement_mode-IsMode x.totals, refl),
      λ h2.
          let y = record_settlement-Settled env after again h2 in
          let claim = same_value (sym y.checked.found ∙ ap (find_claim after) same ∙ x.stored) in
          let id =
            same_value
              (sym y.checked.link ∙ ap (λ (c : Claim). c.cash_advance_id) claim ∙ x.same_link) in
          let advance = same_value (sym y.checked.at ∙ ap (find_advance after) id ∙ x.row) in
          differ (sym (ap (λ (a : CashAdvance). is_settled a.status) advance) ∙ y.checked.live),
    )
  where
    differ : true ≡ false → ⊥
    differ e = cc
