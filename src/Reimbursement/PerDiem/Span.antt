-- ===== src/Reimbursement/PerDiem/Span.antt =====
-- What a claim that computes has paid: every day of the trip, once and in order.
use office_connect.Base.{
  ℕ, zero, suc, ◌+◌, ◌-◌, ◌≤◌, ◌≡◌, refl, subst, true, false, Option, none, some, List, [], ◌∷◌,
  String, ltb, length, arith,
}
use office_connect.Base.Int.{pos, ◌+ℤ◌}
use office_connect.Reimbursement.PerDiem.Rows.{DayBreakdown, PerDiemResult, Error, ok}
use office_connect.Reimbursement.PerDiem.Day.{Trip, day_breakdown}
use office_connect.Reimbursement.PerDiem.Totals.{
  Claim, check_legs, span, check_span, days_from, sum_days, trip_of, compute_per_diem, is_empty,
}
use office_connect.Base.Attempts.{>>=-eq-ok, raise_if-eq-ok, ok-injective}
use office_connect.Reimbursement.PerDiem.Paid.{IsPaid, day_breakdown-IsPaid}

-- The days `day`, `day + 1` and so on, each paid after the region of the one before.
abbrev pub ArePaid : Trip → ℕ → Option String → List DayBreakdown → Type 0
ArePaid trip day previous [] = Unit
ArePaid trip day previous (b ∷ days) =
    (b.day ≡ day) × IsPaid trip previous b × ArePaid trip (day + 1) (some b.region_code) days

days_from-ArePaid :
    (trip : Trip) (n day : ℕ) (previous : Option String) {days : List DayBreakdown}
    → days_from trip n day previous ≡ ok days
    → (length days ≡ n) × ArePaid trip day previous days
unfolding days_from
days_from-ArePaid trip zero day previous {days} h =
    let none_left = ok-injective h in
    subst (λ (x : List DayBreakdown). (length x ≡ 0) × ArePaid trip day previous x) none_left
      (refl, tt)
days_from-ArePaid trip (suc n) day previous {days} h =
    let (b, made_day, h1) = >>=-eq-ok (day_breakdown trip day previous) _ h in
    let (rest, later, h2) = >>=-eq-ok (days_from trip n (day + 1) (some b.region_code)) _ h1 in
    let (same_day, paid) = day_breakdown-IsPaid trip day previous made_day in
    let (count, paid_later) = days_from-ArePaid trip n (day + 1) (some b.region_code) later in
    subst (λ (x : List DayBreakdown). (length x ≡ suc n) × ArePaid trip day previous x)
      (ok-injective h2) (ground arith, (same_day, paid, paid_later))

gated_total :
    (trip : Trip) (day : ℕ) (previous : Option String) (days : List DayBreakdown)
    → trip.gated ≡ true
    → ArePaid trip day previous days
    → sum_days days ≡ pos 0
unfolding sum_days ◌+ℤ◌
gated_total trip day previous [] on paid = refl
gated_total trip day previous (b ∷ days) on paid =
    let rest = gated_total trip (day + 1) (some b.region_code) days on paid.2 in
    let none_paid = (paid.1.unpaid on).0 in ground arith

-- What a claim that computes has paid.
pub record Entitlement (c : Claim) (result : PerDiemResult) : Type 0 where
  pub first : ℕ
  pub last : ℕ
  pub in_order : first ≤ last
  pub own_dates :
      (depart return : ℕ)
      → c.date_depart ≡ some depart
      → c.date_return ≡ some return
      → (first ≡ depart) × (last ≡ return)
  pub span_days : length result.days ≡ last - first + 1
  pub paid : ArePaid (trip_of c first last) first none result.days
  pub total : result.per_diem_total ≡ sum_days result.days
  pub gated : c.is_within_50km ≡ true → c.overnight_stay ≡ false → result.per_diem_total ≡ pos 0

own_span :
    (depart return : Option ℕ) (dates : List ℕ) (first last d r : ℕ)
    → span depart return dates ≡ ok (first, last)
    → depart ≡ some d
    → return ≡ some r
    → (first ≡ d) × (last ≡ r)
unfolding span
own_span none return dates first last d r h left back = cc
own_span (some x) none dates first last d r h left back = cc
own_span (some x) (some y) dates first last d r h left back = (cc, cc)

-- A claim that computes pays every day from the first to the last of its trip exactly once and in order.
-- An open day is in the region of its last leg (or carried over, or the claim's), at the rate that is newest
-- in force for the cluster of that region, and pays the configured shares of it, rounded to the centavo,
-- that its type is due and the host of that leg does not provide; those it provides are deducted. The total
-- is the sum of the days, and is zero where the claim is within 50 km without an overnight stay.
pub compute_per_diem-Entitlement :
    (c : Claim) {result : PerDiemResult} → compute_per_diem c ≡ ok result → Entitlement c result
unfolding compute_per_diem
compute_per_diem-Entitlement c {result} h =
    let (some_legs, h1) = raise_if-eq-ok (is_empty c.legs) Error.no_computable_days _ h in
    let (dates, checked, h2) = >>=-eq-ok (check_legs c.legs) _ h1 in
    let (bounds, spanned, h3) = >>=-eq-ok (span c.date_depart c.date_return dates) _ h2 in
    let (forwards, h4) = raise_if-eq-ok (ltb bounds.1 bounds.0) Error.no_computable_days _ h3 in
    let (unit, inside, h5) = >>=-eq-ok (check_span bounds.0 bounds.1 dates) _ h4 in
    let trip = trip_of c bounds.0 bounds.1 in
    let (days, made_days, h6) =
      >>=-eq-ok (days_from trip (bounds.1 - bounds.0 + 1) bounds.0 none) _ h5 in
    let (count, paid) = days_from-ArePaid trip (bounds.1 - bounds.0 + 1) bounds.0 none made_days in
    subst (λ (x : PerDiemResult). Entitlement c x) (ok-injective h6)
      (record {
        first = bounds.0;
        last = bounds.1;
        in_order = ground arith;
        own_dates = λ d r left back.
            own_span c.date_depart c.date_return dates bounds.0 bounds.1 d r spanned left back;
        span_days = count;
        paid = paid;
        total = refl;
        gated = λ near same_day. gated_total trip bounds.0 none days (ground arith) paid;
      })
