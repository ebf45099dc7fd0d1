-- ===== src/Reimbursement/ClaimTotals.antt =====
-- office_connect/modules/reimbursement/services/compute.py: the totals of a claim, computed from its
-- rows and persisted on it. `utc_now()` is the clock of the store.

pub mod Balanced
use office_connect.Base.{
  ℕ, Bool, true, false, ◌&&◌, Option, none, some, List, [], ◌∷◌, String, ltb, leb, ◌==◌,
  if◌then◌else◌, find?, filter, map, get_or,
}
use office_connect.Base.Int.{ℤ, pos, ◌+ℤ◌, ltb_ℤ}
use office_connect.Reimbursement.Errors.{
  Error, Result, ok, err, ◌>>=◌, ◌>>◌, raise_if, require, from_per_diem,
}
use office_connect.Reimbursement.PerDiem.Rows.{
  LegInput, RegionRow, RateRow, ConfigRow, PerDiemResult,
}
use office_connect.Reimbursement.PerDiem.Totals.{
  Claim as TripClaim, compute_per_diem, is_gov_vehicle, Values,
}
use office_connect.Reimbursement.Records.{
  Claim, ItineraryLeg, Totals, Config, Store, put_claim, find_claim, find_advance,
}
use office_connect.Reimbursement.Settlement.{settle}
use text.Mathlib.Text.{◌==◌ as str_eq}

-- `order_by(seq, id)`: the rows stand in id order
unfoldable pub insert_leg : ItineraryLeg → List ItineraryLeg → List ItineraryLeg
insert_leg leg [] = leg ∷ []
insert_leg leg (next ∷ legs) =
    let rest = insert_leg leg legs in
    if leb leg.seq next.seq then leg ∷ next ∷ legs else next ∷ rest

unfoldable pub by_seq : List ItineraryLeg → List ItineraryLeg
unfolding insert_leg
by_seq [] = []
by_seq (leg ∷ legs) = insert_leg leg (by_seq legs)

unfoldable pub legs_of : Store → ℕ → List ItineraryLeg
unfolding by_seq
legs_of s claim_id = by_seq (filter (λ leg. leg.claim_id == claim_id) s.legs)

abbrev pub leg_input : ItineraryLeg → LegInput
leg_input leg = record {
  id = some leg.id;
  seq = leg.seq;
  leg_date = leg.leg_date;
  destination_region_code = leg.destination_region_code;
  transport_mode = leg.transport_mode;
  fare = leg.fare;
  lodging_provided = leg.lodging_provided;
  meals_provided = leg.meals_provided;
}

abbrev pub is_per_diem_key : String → Bool
is_per_diem_key key =
    if str_eq key "per_diem.apportionment" then true else str_eq key "per_diem.departure_day_rate"

abbrev pub config_row : Config → ConfigRow
config_row c = record { key = c.key; value = c.value; effective_from = c.effective_from }

unfoldable pub trip_claim : Store → Claim → List ItineraryLeg → TripClaim
trip_claim s claim legs = record {
  legs = map leg_input legs;
  date_depart = claim.date_depart;
  date_return = claim.date_return;
  claim_region_code = claim.destination_region_code;
  is_within_50km = claim.is_within_50km;
  overnight_stay = claim.overnight_stay;
  regions =
      map
        (λ r. record {
          region_code = r.region_code;
          cluster = r.cluster;
          effective_from = r.effective_from;
        })
        (filter (λ r. r.is_active) s.regions);
  rates =
      map
        (λ r. record {
          cluster = r.cluster;
          daily_rate = r.daily_rate;
          effective_from = r.effective_from;
        })
        (filter (λ r. r.is_active) s.rates);
  configs = map config_row (filter (λ c. is_per_diem_key c.key && c.is_active) s.configs);
}

-- `result.leg_values.get(leg.id, (0, _ZERO))`
unfoldable pub value_of : ℕ → Values → ℤ × ℤ
value_of id [] = (pos 0, pos 0)
value_of id ((k, v) ∷ values) = if k == id then v else value_of id values

abbrev pub counted_fare : ItineraryLeg → ℤ
counted_fare leg = if is_gov_vehicle leg.transport_mode then pos 0 else get_or leg.fare (pos 0)

-- the loop that writes the computed columns of a leg
abbrev pub computed_leg : Values → ItineraryLeg → ItineraryLeg
computed_leg values leg =
    let (pct, amount) = value_of leg.id values in
    record leg {
      per_diem_pct = some pct;
      per_diem_amount = some amount;
      leg_total = some (counted_fare leg +ℤ amount);
    }

-- the amount of the advance that the claim nets
unfoldable pub advance_amount : Store → Option ℕ → ℤ
advance_amount s none = pos 0
advance_amount s (some id) = elim (find_advance s id) [ none ↦ pos 0 | some a ↦ a.amount ]

-- the figures, and `_totals_json` of them
unfoldable pub totals_of : PerDiemResult → ℤ → ℤ → ℕ → Totals
totals_of result other advance now =
    let grand = result.per_diem_total +ℤ result.transport_total +ℤ other in
    let (to_reimburse, to_refund) = settle grand advance in
    record {
      per_diem = result.per_diem_total;
      transport = result.transport_total;
      other = other;
      grand = grand;
      advance = advance;
      to_reimburse = to_reimburse;
      to_refund = to_refund;
      computed_at = now;
      days = result.days;
    }

abbrev pub is_negative : Option ℤ → Bool
is_negative none = false
is_negative (some amount) = ltb_ℤ amount (pos 0)

unfoldable pub compute_claim_totals : Store → ℕ → Option ℤ → Result (PerDiemResult × Store)
unfolding totals_of
compute_claim_totals s claim_id other_total = do
  raise_if (is_negative other_total) Error.value_error
  claim ← require (find_claim s claim_id) Error.claim_not_found
  result ← from_per_diem (compute_per_diem (trip_claim s claim (legs_of s claim.id)))
  let other = get_or other_total claim.other_total
  let priced = record s {
    legs =
        map (λ leg. if leg.claim_id == claim.id then computed_leg result.leg_values leg else leg)
          s.legs;
  }
  ok (
    result,
    put_claim
        (record claim {
          other_total = other;
          totals =
              some (totals_of result other (advance_amount s claim.cash_advance_id) s.db.clock);
        })
        priced,
  )
