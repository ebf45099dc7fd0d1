-- ===== src/Reimbursement/PerDiem/Totals.antt =====
-- compute_per_diem: the checks, the loop over the days of the trip, and the totals.
use office_connect.Base.{
  ℕ, zero, suc, ◌+◌, ◌-◌, Bool, true, false, not, ◌&&◌, Option, none, some, List, [], ◌∷◌, String,
  ltb, leb, ◌==◌, if◌then◌else◌, get_or, min, max,
}
use office_connect.Base.Int.{ℤ, pos, ◌+ℤ◌}
use office_connect.Reimbursement.PerDiem.Rows.{
  LegInput, RegionRow, RateRow, ConfigRow, DayBreakdown, PerDiemResult, Error, Result, ok, err,
  ◌>>=◌, ◌>>◌, raise_if, require, eq_ℤ,
}
use office_connect.Reimbursement.PerDiem.Day.{Trip, day_breakdown}
use text.Mathlib.Text.{◌==◌ as str_eq}

-- the arguments of `compute_per_diem`
pub record Claim : Type 0 where
  pub legs : List LegInput
  pub date_depart : Option ℕ
  pub date_return : Option ℕ
  pub claim_region_code : Option String
  pub is_within_50km : Bool
  pub overnight_stay : Bool
  pub regions : List RegionRow
  pub rates : List RateRow
  pub configs : List ConfigRow

abbrev pub is_gov_vehicle : Option String → Bool
is_gov_vehicle none = false
is_gov_vehicle (some mode) = str_eq mode "gov_vehicle"

abbrev pub has_fare : Option ℤ → Bool
has_fare none = false
has_fare (some fare) = not (eq_ℤ fare (pos 0))

-- the first `for leg in legs`; it hands on the dates, which are then known to be there
unfoldable pub check_legs : List LegInput → Result (List ℕ)
check_legs [] = ok []
check_legs (leg ∷ legs) =
    let rest = check_legs legs in
    do
      date ← require leg.leg_date (Error.leg_date_required leg.seq)
      raise_if (is_gov_vehicle leg.transport_mode && has_fare leg.fare)
          (Error.gov_vehicle_fare leg.seq)
      dates ← rest
      ok (date ∷ dates)

abbrev pub min_date : ℕ → List ℕ → ℕ
min_date d [] = d
min_date d (e ∷ es) = min_date (min d e) es

abbrev pub max_date : ℕ → List ℕ → ℕ
max_date d [] = d
max_date d (e ∷ es) = max_date (max d e) es

-- the first and last day: the claim's own if both are set, else those of the legs
unfoldable pub span : Option ℕ → Option ℕ → List ℕ → Result (ℕ × ℕ)
span (some first) (some last) dates = ok (first, last)
span depart return [] = err Error.no_computable_days
span depart return (d ∷ ds) = ok (min_date d ds, max_date d ds)

-- `if not first <= leg.leg_date <= last: raise ...`
unfoldable pub check_span : ℕ → ℕ → List ℕ → Result (Unit {0})
check_span first last [] = ok tt
check_span first last (d ∷ ds) =
    let rest = check_span first last ds in
    raise_if (not (leb first d && leb d last)) (Error.leg_outside_trip_dates d) >> rest

-- the days from `day` on, with `n` still to do
unfoldable pub days_from : Trip → ℕ → ℕ → Option String → Result (List DayBreakdown)
days_from trip zero day previous = ok []
days_from trip (suc n) day previous = do
  b ← day_breakdown trip day previous
  rest ← days_from trip n (day + 1) (some b.region_code)
  ok (b ∷ rest)

abbrev pub Values : Type 0
Values = List (ℕ × (ℤ × ℤ))

-- `leg_values[k] = v`
unfoldable pub put : ℕ → ℤ × ℤ → Values → Values
put k v [] = (k, v) ∷ []
put k v ((j, w) ∷ values) = if j == k then (k, v) ∷ values else (j, w) ∷ put k v values

-- `{leg.id: (0, 0.00) for leg in legs if leg.id is not None}`
unfoldable pub zero_values : List LegInput → Values → Values
zero_values [] values = values
zero_values (leg ∷ legs) values =
    zero_values legs (elim leg.id [ none ↦ values | some id ↦ put id (pos 0, pos 0) values ])

-- the assignments of the loop, day after day
unfoldable pub attribute : List DayBreakdown → Values → Values
attribute [] values = values
attribute (b ∷ days) values =
    attribute days (elim b.leg_id [ none ↦ values | some id ↦ put id (b.pct, b.amount) values ])

unfoldable pub sum_days : List DayBreakdown → ℤ
sum_days [] = pos 0
sum_days (b ∷ days) = b.amount +ℤ sum_days days

-- the fares that count: a fare on a leg that is not by government vehicle
abbrev pub counted_fare : LegInput → ℤ
counted_fare leg = if is_gov_vehicle leg.transport_mode then pos 0 else get_or leg.fare (pos 0)

unfoldable pub sum_fares : List LegInput → ℤ
sum_fares [] = pos 0
sum_fares (leg ∷ legs) = counted_fare leg +ℤ sum_fares legs

abbrev pub is_empty : List LegInput → Bool
is_empty [] = true
is_empty (leg ∷ legs) = false

abbrev pub trip_of : Claim → ℕ → ℕ → Trip
trip_of c first last = record {
  legs = c.legs;
  first = first;
  last = last;
  claim_region_code = c.claim_region_code;
  gated = c.is_within_50km && not c.overnight_stay;
  regions = c.regions;
  rates = c.rates;
  configs = c.configs;
}

unfoldable pub compute_per_diem : Claim → Result PerDiemResult
unfolding zero_values attribute put
compute_per_diem c = do
  raise_if (is_empty c.legs) Error.no_computable_days
  dates ← check_legs c.legs
  bounds ← span c.date_depart c.date_return dates
  raise_if (ltb bounds.1 bounds.0) Error.no_computable_days
  check_span bounds.0 bounds.1 dates
  days ← days_from (trip_of c bounds.0 bounds.1) (bounds.1 - bounds.0 + 1) bounds.0 none
  ok (record {
    days = days;
    leg_values = attribute days (zero_values c.legs []);
    per_diem_total = sum_days days;
    transport_total = sum_fares c.legs;
  })
