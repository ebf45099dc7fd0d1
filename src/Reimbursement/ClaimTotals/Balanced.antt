-- ===== src/Reimbursement/ClaimTotals/Balanced.antt =====
-- services/compute.py: what the totals of a claim are, and what computing them leaves alone.
use office_connect.Base.{
  ℕ, ◌≡◌, ◌≢◌, ◌⊎◌, Option, some, refl, sym, ap, subst, ◌∙◌, inl, inr, ◌==◌, List, In, In-map, map,
  if◌then◌else◌, arith, Bool-cases, get_or,
}
use office_connect.Base.Int.{ℤ, pos, ◌+ℤ◌, ◌≤ℤ◌}
use office_connect.Reimbursement.ClaimTotals.{
  legs_of, trip_claim, is_negative, advance_amount, totals_of, computed_leg, compute_claim_totals,
}
use office_connect.Reimbursement.Errors.{
  Error, ok, >>=-eq-ok, require-eq-ok, raise_if-eq-ok, ok-injective, from_per_diem,
}
use office_connect.Reimbursement.PerDiem.Rows.{PerDiemResult}
use office_connect.Reimbursement.PerDiem.Totals.{compute_per_diem}
use office_connect.Reimbursement.Records.{Claim, Totals, Store, put_claim, find_claim}
use office_connect.Reimbursement.Records.Lookup.{
  find_claim-put_claim, find_claim_id, find_claim-same, put_claim_db, put_claim_claims,
  put_claim_advances,
}
use office_connect.Reimbursement.Settlement.{settle-balances}

-- What `compute_claim_totals` leaves.
pub record Computed (s : Store) (id : ℕ) (other_total : Option ℤ) (result : PerDiemResult)
    (after : Store) : Type 0 where
  pub claim : Claim
  pub found : find_claim s id ≡ some claim
  pub out : Claim
  pub row : out ≡ record claim {
    other_total = get_or other_total claim.other_total;
    totals = some (
        totals_of result
          (get_or other_total claim.other_total)
          (advance_amount s claim.cash_advance_id)
          s.db.clock);
  }
  pub listed : find_claim after id ≡ some out
  pub db : after.db ≡ s.db
  pub advances : after.advances ≡ s.advances
  pub claims : after.claims ≡ map (λ x. if x.id == claim.id then out else x) s.claims

pub compute-Computed :
    (s : Store) (id : ℕ) (other_total : Option ℤ) {result : PerDiemResult} {after : Store}
    → compute_claim_totals s id other_total ≡ ok (result, after)
    → Computed s id other_total result after
unfolding compute_claim_totals
compute-Computed s id other_total {result} {after} h =
    let (sign, h1) = raise_if-eq-ok (is_negative other_total) Error.value_error _ h in
    let (claim, found, h2) = require-eq-ok (find_claim s id) Error.claim_not_found _ h1 in
    let (computed, per_diem, h3) =
      >>=-eq-ok (from_per_diem (compute_per_diem (trip_claim s claim (legs_of s claim.id)))) _ h2 in
    let other = get_or other_total claim.other_total in
    let out : Claim = record claim {
      other_total = other;
      totals = some (totals_of computed other (advance_amount s claim.cash_advance_id) s.db.clock);
    } in
    let priced : Store = record s {
      legs =
          map
            (λ leg. if leg.claim_id == claim.id then computed_leg computed.leg_values leg else leg)
            s.legs;
    } in
    subst (λ (x : PerDiemResult × Store). Computed s id other_total x.0 x.1) (ok-injective h3)
      (written claim found computed out priced refl refl refl refl)
  where
    written :
        (claim : Claim)
        → find_claim s id ≡ some claim
        → (computed : PerDiemResult) (out : Claim) (priced : Store)
        → out ≡ record claim {
          other_total = get_or other_total claim.other_total;
          totals = some (
              totals_of computed
                (get_or other_total claim.other_total)
                (advance_amount s claim.cash_advance_id)
                s.db.clock);
        }
        → priced.claims ≡ s.claims
        → priced.db ≡ s.db
        → priced.advances ≡ s.advances
        → Computed s id other_total computed (put_claim out priced)
    written claim found computed out priced row rows db advances =
        let same : out.id ≡ claim.id = ap (λ (x : Claim). x.id) row in
        let at : claim.id ≡ id = find_claim_id s id found in
        record {
          claim = claim;
          found = found;
          out = out;
          row = row;
          listed =
              subst (λ (x : ℕ). find_claim (put_claim out priced) x ≡ some out) (same ∙ at)
                (find_claim-put_claim out priced (
                  subst (λ (x : ℕ). find_claim priced x ≡ some claim) (sym (same ∙ at))
                    (find_claim-same priced s id rows found)));
          db = put_claim_db out priced ∙ db;
          advances = put_claim_advances out priced ∙ advances;
          claims =
              put_claim_claims out priced
              ∙ ap (map (λ (x : Claim). if x.id == out.id then out else x)) rows
              ∙ ap (λ (n : ℕ). map (λ (x : Claim). if x.id == n then out else x) s.claims) same;
        }

-- What the figures of a claim satisfy: they add up to the grand total, and settling it against the advance
-- neither makes nor loses money.
pub record IsBalanced (t : Totals) : Type 0 where
  pub sums : t.grand ≡ t.per_diem +ℤ t.transport +ℤ t.other
  pub settles :
      (pos 0 ≤ℤ t.to_reimburse)
      × (pos 0 ≤ℤ t.to_refund)
      × ((t.to_reimburse ≡ pos 0) ⊎ (t.to_refund ≡ pos 0))
      × (t.to_reimburse +ℤ t.advance ≡ t.grand +ℤ t.to_refund)

totals_of-IsBalanced :
    (result : PerDiemResult) (other advance : ℤ) (now : ℕ)
    → IsBalanced (totals_of result other advance now)
unfolding totals_of
totals_of-IsBalanced result other advance now = record {
  sums = refl;
  settles = settle-balances (result.per_diem_total +ℤ result.transport_total +ℤ other) advance;
}

-- A computation of totals that returns leaves the claim, under its id, with totals that add up and that
-- neither make nor lose money against the amount of the claim's own advance (none is zero), with the sums of
-- the per-diem result in them and the other expenses that were given, or else the recorded ones; and every
-- other claim, and every advance, stays as it is.
pub compute_claim_totals-IsBalanced :
    (s : Store) (id : ℕ) (other_total : Option ℤ) {claim : Claim} {result : PerDiemResult}
    {after : Store}
    → find_claim s id ≡ some claim
    → compute_claim_totals s id other_total ≡ ok (result, after)
    → (out : Claim) × (t : Totals) × (find_claim after id ≡ some out)
      × (out.totals ≡ some t)
      × IsBalanced t
      × (t.per_diem ≡ result.per_diem_total)
      × (t.transport ≡ result.transport_total)
      × (t.other ≡ get_or other_total claim.other_total)
      × (t.advance ≡ advance_amount s claim.cash_advance_id)
      × ((c : Claim) → In c s.claims → c.id ≢ id → In c after.claims)
      × (after.advances ≡ s.advances)
unfolding totals_of
compute_claim_totals-IsBalanced s id other_total {claim} {result} {after} found h =
    let c = compute-Computed s id other_total h in
    let same : c.claim ≡ claim = same_value (sym c.found ∙ found) in
    let at = find_claim_id s id found in
    let advance = advance_amount s c.claim.cash_advance_id in
    let other = get_or other_total c.claim.other_total in
    (
      c.out,
      totals_of result other advance s.db.clock,
      c.listed,
      ap (λ (x : Claim). x.totals) c.row,
      totals_of-IsBalanced result other advance s.db.clock,
      refl,
      refl,
      ap (λ (x : Claim). get_or other_total x.other_total) same,
      ap (λ (x : Claim). advance_amount s x.cash_advance_id) same,
      λ k m apart.
          let place : Claim → Claim = λ x. if x.id == c.claim.id then c.out else x in
          let kept : place k ≡ k =
            untouched k c.claim.id c.out (λ e. apart (e ∙ ap (λ (x : Claim). x.id) same ∙ at)) in
          subst (λ (x : List Claim). In k x) (sym c.claims)
            (subst (λ (x : Claim). In x (map place s.claims)) kept (In-map place m)),
      c.advances,
    )
  where
    same_value : {x y : Claim} → some x ≡ some y → x ≡ y
    same_value e = cc

    untouched : (k : Claim) (n : ℕ) (out : Claim) → k.id ≢ n → (if k.id == n then out else k) ≡ k
    untouched k n out apart = elim (Bool-cases (k.id == n)) [
      | inl e ↦ absurd (apart (ground arith))
      | inr e ↦ rw e refl
    ]
