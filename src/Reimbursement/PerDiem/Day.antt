-- ===== src/Reimbursement/PerDiem/Day.antt =====
-- The body of the `for offset in range(span_days)` of compute_per_diem: one day of the trip.
use office_connect.Base.{
  ℕ, ◌+◌, ◌/◌, Bool, true, false, ◌&&◌, ◌||◌, Option, none, some, List, [], ◌∷◌, String, ltb, ◌==◌,
  if◌then◌else◌, filter, get_or, is_id, truthy,
}
use office_connect.Base.Int.{ℤ, pos, sub_ℕ, pos_part, neg_part, ◌+ℤ◌, ◌*ℤ◌}
use office_connect.Reimbursement.PerDiem.Rows.{
  LegInput, RegionRow, RateRow, ConfigRow, DayType, Parts, DayBreakdown, Error, Result, ok, ◌>>=◌,
  require, by_region, by_cluster, as_of, Apportionment, apportionment, departure_pct,
}

-- what the loop body reads and does not change
pub record Trip : Type 0 where
  pub legs : List LegInput
  pub first : ℕ
  pub last : ℕ
  pub claim_region_code : Option String
  pub gated : Bool
  pub regions : List RegionRow
  pub rates : List RateRow
  pub configs : List ConfigRow

-- `to_money(x / 100)` for an amount `x` in hundredths of a centavo: ROUND_HALF_UP, away from zero
abbrev pub half_up : ℕ → ℕ
half_up n = (n + 50) / 100

unfoldable pub percent_of : ℤ → ℤ → ℤ
unfolding ◌*ℤ◌
percent_of amount pct =
    sub_ℕ (half_up (pos_part (amount *ℤ pct))) (half_up (neg_part (amount *ℤ pct)))

-- the key of the `max`: `(leg.seq, leg.id or 0)`
abbrev pub controls_over : LegInput → LegInput → Bool
controls_over a b = ltb b.seq a.seq || (b.seq == a.seq && ltb (get_or b.id 0) (get_or a.id 0))

-- Python's `max` keeps the first of equal legs
unfoldable pub last_leg : LegInput → List LegInput → LegInput
last_leg best [] = best
last_leg best (leg ∷ legs) = last_leg (if controls_over leg best then leg else best) legs

abbrev pub last_of : List LegInput → Option LegInput
last_of [] = none
last_of (leg ∷ legs) = some (last_leg leg legs)

-- `by_date.get(day, [])` and its controlling leg
unfoldable pub controlling_leg : List LegInput → ℕ → Option LegInput
unfolding last_leg
controlling_leg legs day = last_of (filter (λ l. is_id l.leg_date day) legs)

abbrev leg_region : LegInput → Option String
leg_region l = if truthy l.destination_region_code then l.destination_region_code else none

abbrev pub or_claim : Option String → Option String → Option String
or_claim none claim = claim
or_claim (some r) claim = some r

-- the region of the day: the controlling leg's, else on a day with no leg the previous day's, else the
-- claim's
abbrev pub region_of : Option LegInput → Option String → Option String → Option String
region_of (some l) previous claim = or_claim (leg_region l) claim
region_of none previous claim = or_claim previous claim

unfoldable pub day_type_of : ℕ → ℕ → ℕ → DayType
day_type_of first last day =
    if last == first
    then DayType.same_day
    else if day == first
    then DayType.arrival
    else if day == last
    then DayType.return
    else DayType.full

abbrev pub pct_of : DayType → ℤ → ℤ
pct_of DayType.arrival departure = pos 100
pct_of DayType.full departure = pos 100
pct_of DayType.return departure = departure
pct_of DayType.same_day departure = departure

abbrev pub has_lodging : DayType → Bool
has_lodging DayType.arrival = true
has_lodging DayType.full = true
has_lodging _ = false

abbrev pub no_parts : Parts
no_parts = record { lodging = none; meals = none; incidentals = none }

unfoldable pub components_of : ℤ → Apportionment → DayType → Parts
components_of rate parts kind = record {
  lodging = if has_lodging kind then some (percent_of rate parts.lodging) else none;
  meals = some (percent_of rate parts.meals);
  incidentals = some (percent_of rate parts.incidentals);
}

-- the provisions of the controlling leg, none on a day without one
abbrev pub lodging_provided : Option LegInput → Bool
lodging_provided none = false
lodging_provided (some l) = l.lodging_provided

abbrev pub meals_provided : Option LegInput → Bool
meals_provided none = false
meals_provided (some l) = l.meals_provided

-- `components.pop(name)` where the host provides it, and the deduction that records it
unfoldable pub kept : Option LegInput → Parts → Parts
kept leg parts = record {
  lodging = if lodging_provided leg then none else parts.lodging;
  meals = if meals_provided leg then none else parts.meals;
  incidentals = parts.incidentals;
}

unfoldable pub deducted : Option LegInput → Parts → Parts
deducted leg parts = record {
  lodging = if lodging_provided leg then parts.lodging else none;
  meals = if meals_provided leg then parts.meals else none;
  incidentals = none;
}

-- `sum(parts.values(), 0)`
unfoldable pub sum_parts : Parts → ℤ
sum_parts parts =
    get_or parts.lodging (pos 0) +ℤ get_or parts.meals (pos 0) +ℤ get_or parts.incidentals (pos 0)

abbrev pub leg_id_of : Option LegInput → Option ℕ
leg_id_of none = none
leg_id_of (some l) = l.id

-- the breakdown of a day whose region, rate and percentages are known
unfoldable pub breakdown :
    Trip → ℕ → Option LegInput → String → String → ℤ → Apportionment → ℤ → DayBreakdown
unfolding day_type_of components_of kept deducted sum_parts
breakdown trip day leg region cluster rate parts departure =
    let kind = day_type_of trip.first trip.last day in
    let gross = components_of rate parts kind in
    let components = if trip.gated then no_parts else kept leg gross in
    record {
      day = day;
      day_type = kind;
      leg_id = leg_id_of leg;
      region_code = region;
      cluster = cluster;
      daily_rate = rate;
      pct = if trip.gated then pos 0 else pct_of kind departure;
      components = components;
      deductions = if trip.gated then no_parts else deducted leg gross;
      amount = sum_parts components;
      gated_50km = trip.gated;
    }

unfoldable pub day_breakdown : Trip → ℕ → Option String → Result DayBreakdown
day_breakdown trip day previous = do
  let leg = controlling_leg trip.legs day
  region ←
      require (region_of leg previous trip.claim_region_code)
        (Error.missing_region_cluster day none)
  region_row ←
      require (as_of by_region trip.regions day region)
        (Error.missing_region_cluster day (some region))
  rate_row ←
      require (as_of by_cluster trip.rates day region_row.cluster)
        (Error.missing_dte_rate region_row.cluster day)
  parts ← apportionment trip.configs day
  departure ← departure_pct trip.configs day parts
  ok (breakdown trip day leg region region_row.cluster rate_row.daily_rate parts departure)
