-- ===== src/Reimbursement/Examples.antt =====
-- Runs of the reimbursement calculations, and the theorems about them at concrete claims.
use office_connect.Base.{◌≡◌, ◌≤◌, refl, ℕ, true, false, Option, some, none, [], ◌∷◌, arith}
use office_connect.Base.Int.{pos, ◌+ℤ◌}
use office_connect.Json.{Json, Fields, index, lookup, int_of}
use office_connect.Reimbursement.PerDiem.Rows.{
  LegInput, RegionRow, RateRow, ConfigRow, PerDiemResult, Result, ok, err, as_of, by_cluster,
  apportionment, departure_pct,
}
use office_connect.Reimbursement.PerDiem.Day.{percent_of, controlling_leg, breakdown, day_breakdown}
use office_connect.Reimbursement.PerDiem.Totals.{
  Claim, check_legs, span, check_span, days_from, sum_days, sum_fares, compute_per_diem,
}
use office_connect.Reimbursement.PerDiem.AsOf.{IsLatest, as_of-IsLatest}
use office_connect.Reimbursement.PerDiem.Span.{Entitlement, compute_per_diem-Entitlement}
use office_connect.Reimbursement.Deadline.{calendar, working, read_rule, liquidation_deadline}
use office_connect.Reimbursement.Deadline.Rule.{Outcome, configured_basis, read_rule-Outcome}
use office_connect.Reimbursement.Deadline.Order.{calendar-no_later}
use office_connect.Workdays.{is_working_day, forward, add_working_days}

abbrev cebu : RegionRow
cebu = record { region_code = "07"; cluster = "B"; effective_from = 100 }

abbrev old_rate : RateRow
old_rate = record { cluster = "B"; daily_rate = pos 150000; effective_from = 100 }

abbrev new_rate : RateRow
new_rate = record { cluster = "B"; daily_rate = pos 180000; effective_from = 500 }

abbrev shares : ConfigRow
shares = record {
  key = "per_diem.apportionment";
  value = Json.obj (
      Fields.field "lodging" (Json.int (pos 50)) (
        Fields.field "meals" (Json.int (pos 30))
          (Fields.field "incidentals" (Json.int (pos 20)) Fields.end)));
  effective_from = 100;
}

abbrev last_day : ConfigRow
last_day = record {
  key = "per_diem.departure_day_rate";
  value = Json.obj (Fields.field "pct" (Json.int (pos 50)) Fields.end);
  effective_from = 100;
}

abbrev outward : LegInput
outward = record {
  id = some 1;
  seq = 1;
  leg_date = some 600;
  destination_region_code = some "07";
  transport_mode = some "bus";
  fare = some (pos 45000);
  lodging_provided = false;
  meals_provided = true;
}

-- three days at the new rate, with the meals of the first provided
abbrev trip : Claim
trip = record {
  legs = outward ∷ [];
  date_depart = some 600;
  date_return = some 602;
  claim_region_code = none;
  is_within_50km = false;
  overnight_stay = true;
  regions = cebu ∷ [];
  rates = old_rate ∷ new_rate ∷ [];
  configs = shares ∷ last_day ∷ [];
}

abbrev empty_result : PerDiemResult
empty_result = record {
  days = [];
  leg_values = [];
  per_diem_total = pos 0;
  transport_total = pos 0;
}

abbrev result_of : Result PerDiemResult → PerDiemResult
result_of (ok result) = result
result_of (err e) = empty_result

abbrev trip_result : PerDiemResult
trip_result = result_of (compute_per_diem trip)

-- 1260.00 (without the meals), 1800.00 and 900.00, and the fare of 450.00
trip_totals : (trip_result.per_diem_total ≡ pos 396000) × (trip_result.transport_total ≡ pos 45000)
unfolding compute_per_diem check_legs span check_span days_from day_breakdown controlling_leg as_of
    apportionment departure_pct index int_of breakdown percent_of sum_days sum_fares ◌+ℤ◌
trip_totals = (refl, refl)

trip_computes : compute_per_diem trip ≡ ok trip_result
unfolding compute_per_diem check_legs span check_span days_from day_breakdown controlling_leg as_of
    apportionment departure_pct index int_of ◌+ℤ◌ breakdown
trip_computes = refl

compute_per_diem-Entitlement_example : Entitlement trip trip_result
compute_per_diem-Entitlement_example =
    compute_per_diem-Entitlement trip {result = trip_result} trip_computes

as_of-IsLatest_example :
    IsLatest by_cluster 600 "B"
      (old_rate ∷ new_rate ∷ [])
      (as_of by_cluster (old_rate ∷ new_rate ∷ []) 600 "B")
as_of-IsLatest_example = as_of-IsLatest by_cluster (old_rate ∷ new_rate ∷ []) 600 "B"

-- 45 days, and a basis that is misspelt
abbrev typo : Option Fields
typo = some (
    Fields.field "liquidation.deadline"
      (Json.obj (
        Fields.field "days" (Json.text " 45 ")
          (Fields.field "basis" (Json.text "calender") Fields.end)))
      Fields.end)

typo_rule :
    read_rule typo ≡ some (record { days = pos 45; basis = "calendar"; reason = "unknown_basis" })
unfolding read_rule lookup int_of
typo_rule = refl

read_rule-Outcome_example : Outcome (configured_basis typo) (read_rule typo)
read_rule-Outcome_example = read_rule-Outcome typo

-- from Tuesday 2026-01-06, thirty working days end on 2026-02-17
thirty_working :
    liquidation_deadline
      (some 739622)
      (record { days = pos 30; basis = working; reason = "configured" })
      []
    ≡ some (some 739664)
unfolding liquidation_deadline add_working_days forward is_working_day
thirty_working = refl

calendar-no_later_example :
    (early : ℕ) × (liquidation_deadline
        (some 739622)
        (record { days = pos 30; basis = calendar; reason = "no_config_row" })
        []
      ≡ some (some early))
    × (early ≤ 739664)
calendar-no_later_example =
    calendar-no_later 739622 30 "configured" "no_config_row" [] {late = 739664} (omega arith)
      thirty_working
