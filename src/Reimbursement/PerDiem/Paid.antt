-- ===== src/Reimbursement/PerDiem/Paid.antt =====
-- What one day of a trip pays.
use office_connect.Base.{
  ℕ, ◌≡◌, refl, sym, ap, subst, Bool, true, false, Option, none, some, String, if◌then◌else◌,
}
use office_connect.Base.Int.{ℤ, pos, ◌+ℤ◌}
use office_connect.Base.Attempts.{>>=-eq-ok, require-eq-ok, ok-injective}
use office_connect.Reimbursement.PerDiem.Rows.{
  LegInput, RateRow, RegionRow, DayType, DayBreakdown, Error, ok, by_cluster, by_region, as_of,
  Apportionment, apportionment, departure_rate_key, departure_pct,
}
use office_connect.Reimbursement.PerDiem.AsOf.{IsLatest, as_of-IsLatest}
use office_connect.Reimbursement.PerDiem.Controlling.{
  IsControlling, controlling_leg-IsControlling, IsRegion, region_of-IsRegion,
}
use office_connect.Reimbursement.PerDiem.Day.{
  Trip, controlling_leg, region_of, day_type_of, components_of, no_parts, pct_of, kept, deducted,
  percent_of, sum_parts, leg_id_of, breakdown, day_breakdown,
}
use office_connect.Reimbursement.PerDiem.Shares.{
  IsConfigured, AreShares, apportionment-AreShares, departure_pct-IsConfigured, percent_of-IsShare,
}
use office_connect.Reimbursement.PerDiem.Payment.{
  IsKind, Payment, day_type_of-IsKind, lodging_due, meals_due, pct_due,
}

-- A day of the trip, after one in the region `previous`, is paid by the tables: the leg is the one that
-- controls the day, the region follows from it, the cluster is the newest in force for the region and the
-- rate the newest for the cluster, and the payment is by the configured shares. A claim that is gated pays
-- and deducts nothing.
pub record IsPaid (trip : Trip) (previous : Option String) (b : DayBreakdown) : Type 0 where
  pub leg : Option LegInput
  pub controlling : IsControlling trip.legs b.day leg
  pub leg_id : b.leg_id ≡ leg_id_of leg
  pub region : IsRegion trip.claim_region_code leg previous b.region_code
  pub region_row : RegionRow
  pub region_newest : IsLatest by_region b.day b.region_code trip.regions (some region_row)
  pub cluster : b.cluster ≡ region_row.cluster
  pub rate_row : RateRow
  pub rate_newest : IsLatest by_cluster b.day b.cluster trip.rates (some rate_row)
  pub daily : b.daily_rate ≡ rate_row.daily_rate
  pub kind : IsKind trip.first trip.last b.day b.day_type
  pub parts : Apportionment
  pub shares : AreShares trip.configs b.day parts
  pub departure : ℤ
  pub departure_configured : IsConfigured trip.configs b.day departure_rate_key "pct" departure
  pub paid : trip.gated ≡ false → Payment leg parts departure b
  pub unpaid :
      trip.gated ≡ true
      → (b.amount ≡ pos 0) × (b.pct ≡ pos 0) × (b.components ≡ no_parts) × (b.deductions ≡ no_parts)

module _ (trip : Trip) (day : ℕ) (leg : Option LegInput) (region cluster : String) (rate : ℤ)
    (parts : Apportionment) (departure : ℤ) where
  abbrev made : DayBreakdown
  made = breakdown trip day leg region cluster rate parts departure

  abbrev kind_made : DayType
  kind_made = day_type_of trip.first trip.last day

  -- the day, were the claim gated or not
  abbrev shown : Bool → DayBreakdown
  shown gated =
      let gross = components_of rate parts kind_made in
      let components = if gated then no_parts else kept leg gross in
      record {
        day = day;
        day_type = kind_made;
        leg_id = leg_id_of leg;
        region_code = region;
        cluster = cluster;
        daily_rate = rate;
        pct = if gated then pos 0 else pct_of kind_made departure;
        components = components;
        deductions = if gated then no_parts else deducted leg gross;
        amount = sum_parts components;
        gated_50km = gated;
      }

  made-shown : (gated : Bool) → trip.gated ≡ gated → shown gated ≡ made
  unfolding breakdown
  made-shown gated e = ap shown (sym e)

  shown_open : Payment leg parts departure (shown false)
  unfolding sum_parts kept deducted components_of
  shown_open = record {
    lodging_share = percent_of rate parts.lodging;
    lodging_rounded = percent_of-IsShare rate parts.lodging;
    lodging = lodging_due rate parts leg kind_made;
    meals_share = percent_of rate parts.meals;
    meals_rounded = percent_of-IsShare rate parts.meals;
    meals = meals_due rate parts leg kind_made;
    incidentals_share = percent_of rate parts.incidentals;
    incidentals_rounded = percent_of-IsShare rate parts.incidentals;
    incidentals = refl;
    incidentals_kept = refl;
    pct = pct_due kind_made departure;
    amount = refl;
  }

  made_open : trip.gated ≡ false → Payment leg parts departure made
  made_open off =
      subst (λ (b : DayBreakdown). Payment leg parts departure b) (made-shown false off) shown_open

  abbrev PaysNothing : DayBreakdown → Type 0
  PaysNothing b =
      (b.amount ≡ pos 0) × (b.pct ≡ pos 0) × (b.components ≡ no_parts) × (b.deductions ≡ no_parts)

  shown_gated : PaysNothing (shown true)
  unfolding sum_parts ◌+ℤ◌
  shown_gated = (refl, refl, refl, refl)

  made_gated : trip.gated ≡ true → PaysNothing made
  made_gated on = subst PaysNothing (made-shown true on) shown_gated

made_IsPaid :
    (trip : Trip) (day : ℕ) (previous : Option String) (region : String) (region_row : RegionRow)
    (rate_row : RateRow) (parts : Apportionment) (departure : ℤ)
    → region_of (controlling_leg trip.legs day) previous trip.claim_region_code ≡ some region
    → as_of by_region trip.regions day region ≡ some region_row
    → as_of by_cluster trip.rates day region_row.cluster ≡ some rate_row
    → apportionment trip.configs day ≡ ok parts
    → departure_pct trip.configs day parts ≡ ok departure
    → let leg = controlling_leg trip.legs day in
      let b =
        breakdown trip day leg region region_row.cluster rate_row.daily_rate parts departure in
      (b.day ≡ day) × IsPaid trip previous b
unfolding breakdown
made_IsPaid trip day previous region region_row rate_row parts departure named at rated shares pct =
    let leg = controlling_leg trip.legs day in
    (
      refl,
      record {
        leg = leg;
        controlling = controlling_leg-IsControlling trip.legs day;
        leg_id = refl;
        region = region_of-IsRegion leg previous trip.claim_region_code named;
        region_row = region_row;
        region_newest =
            subst (λ (x : Option RegionRow). IsLatest by_region day region trip.regions x) at
              (as_of-IsLatest by_region trip.regions day region);
        cluster = refl;
        rate_row = rate_row;
        rate_newest =
            subst (λ (x : Option RateRow). IsLatest by_cluster day region_row.cluster trip.rates x)
              rated (as_of-IsLatest by_cluster trip.rates day region_row.cluster);
        daily = refl;
        kind = day_type_of-IsKind trip.first trip.last day;
        parts = parts;
        shares = apportionment-AreShares trip.configs day shares;
        departure = departure;
        departure_configured = departure_pct-IsConfigured trip.configs day parts pct;
        paid = made_open trip day leg region region_row.cluster rate_row.daily_rate parts departure;
        unpaid =
            made_gated trip day leg region region_row.cluster rate_row.daily_rate parts departure;
      },
    )

pub day_breakdown-IsPaid :
    (trip : Trip) (day : ℕ) (previous : Option String) {b : DayBreakdown}
    → day_breakdown trip day previous ≡ ok b
    → (b.day ≡ day) × IsPaid trip previous b
unfolding day_breakdown
day_breakdown-IsPaid trip day previous {b} h =
    let leg = controlling_leg trip.legs day in
    let (region, named, h1) =
      require-eq-ok (region_of leg previous trip.claim_region_code)
        (Error.missing_region_cluster day none) _ h in
    let (region_row, at, h2) =
      require-eq-ok (as_of by_region trip.regions day region)
        (Error.missing_region_cluster day (some region)) _ h1 in
    let (rate_row, rated, h3) =
      require-eq-ok (as_of by_cluster trip.rates day region_row.cluster)
        (Error.missing_dte_rate region_row.cluster day) _ h2 in
    let (parts, shares, h4) = >>=-eq-ok (apportionment trip.configs day) _ h3 in
    let (departure, pct, h5) = >>=-eq-ok (departure_pct trip.configs day parts) _ h4 in
    subst (λ (x : DayBreakdown). (x.day ≡ day) × IsPaid trip previous x) (ok-injective h5)
      (made_IsPaid trip day previous region region_row rate_row parts departure named at rated
        shares pct)
