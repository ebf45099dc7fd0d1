-- ===== src/Reimbursement/PerDiem/Payment.antt =====
-- The type of a day of a trip, and what such a day is due.
use office_connect.Base.{
  ℕ, ◌≡◌, ◌≢◌, refl, Bool, true, false, Option, none, some, get_or, arith, if◌then◌else◌,
  Bool-cases, inl, inr, ◌==◌,
}
use office_connect.Base.Int.{ℤ, pos, ◌+ℤ◌}
use office_connect.Reimbursement.PerDiem.Rows.{LegInput, DayType, DayBreakdown, Apportionment}
use office_connect.Reimbursement.PerDiem.Day.{
  day_type_of, components_of, pct_of, kept, deducted, percent_of,
}
use office_connect.Reimbursement.PerDiem.Shares.{IsShare}

-- The type of a day, by the first and the last day of the trip.
abbrev pub IsKind : ℕ → ℕ → ℕ → DayType → Type 0
IsKind first last day DayType.same_day = first ≡ last
IsKind first last day DayType.arrival = (first ≢ last) × (day ≡ first)
IsKind first last day DayType.return = (first ≢ last) × (day ≢ first) × (day ≡ last)
IsKind first last day DayType.full = (first ≢ last) × (day ≢ first) × (day ≢ last)

-- A component that the host provides is deducted, and any other is paid.
abbrev pub IsSplit : Bool → ℤ → Option ℤ → Option ℤ → Type 0
IsSplit true share paid deducted = (paid ≡ none) × (deducted ≡ some share)
IsSplit false share paid deducted = (paid ≡ some share) × (deducted ≡ none)

-- The host is that of the controlling leg; a day without a leg has none.
abbrev pub LodgingSplit : Option LegInput → ℤ → Option ℤ → Option ℤ → Type 0
LodgingSplit none share paid deducted = IsSplit false share paid deducted
LodgingSplit (some l) share paid deducted = IsSplit l.lodging_provided share paid deducted

abbrev pub MealsSplit : Option LegInput → ℤ → Option ℤ → Option ℤ → Type 0
MealsSplit none share paid deducted = IsSplit false share paid deducted
MealsSplit (some l) share paid deducted = IsSplit l.meals_provided share paid deducted

-- Lodging is due on the day of arrival and on full days, and neither paid nor deducted on others.
abbrev pub LodgingDue : DayType → Option LegInput → ℤ → Option ℤ → Option ℤ → Type 0
LodgingDue DayType.arrival leg share paid deducted = LodgingSplit leg share paid deducted
LodgingDue DayType.full leg share paid deducted = LodgingSplit leg share paid deducted
LodgingDue DayType.return leg share paid deducted = (paid ≡ none) × (deducted ≡ none)
LodgingDue DayType.same_day leg share paid deducted = (paid ≡ none) × (deducted ≡ none)

-- The percentage: all of it on the day of arrival and on full days, the configured one on others.
abbrev pub PctDue : DayType → ℤ → ℤ → Type 0
PctDue DayType.arrival departure pct = pct ≡ pos 100
PctDue DayType.full departure pct = pct ≡ pos 100
PctDue DayType.return departure pct = pct ≡ departure
PctDue DayType.same_day departure pct = pct ≡ departure

-- What an open day pays and deducts: the configured shares of the daily rate, in whole centavos; the amount
-- is the sum of what is paid.
pub record Payment (leg : Option LegInput) (parts : Apportionment) (departure : ℤ)
    (b : DayBreakdown) : Type 0 where
  pub lodging_share : ℤ
  pub lodging_rounded : IsShare b.daily_rate parts.lodging lodging_share
  pub lodging : LodgingDue b.day_type leg lodging_share b.components.lodging b.deductions.lodging
  pub meals_share : ℤ
  pub meals_rounded : IsShare b.daily_rate parts.meals meals_share
  pub meals : MealsSplit leg meals_share b.components.meals b.deductions.meals
  pub incidentals_share : ℤ
  pub incidentals_rounded : IsShare b.daily_rate parts.incidentals incidentals_share
  pub incidentals : b.components.incidentals ≡ some incidentals_share
  pub incidentals_kept : b.deductions.incidentals ≡ none
  pub pct : PctDue b.day_type departure b.pct
  pub amount :
      b.amount
      ≡ get_or b.components.lodging (pos 0)
        +ℤ get_or b.components.meals (pos 0)
        +ℤ get_or b.components.incidentals (pos 0)

pub day_type_of-IsKind : (first last day : ℕ) → IsKind first last day (day_type_of first last day)
unfolding day_type_of
day_type_of-IsKind first last day = elim (Bool-cases (last == first)) [
  | inl one ↦ let same : first ≡ last = ground arith in rw one same
  | inr more ↦
      let other : first ≢ last = ground arith in
      elim (Bool-cases (day == first)) [
        | inl start ↦ let at : day ≡ first = ground arith in rw (more, start) (other, at)
        | inr later ↦
            let after : day ≢ first = ground arith in
            elim (Bool-cases (day == last)) [
              | inl end ↦
                  let at : day ≡ last = ground arith in rw (more, later, end) (other, after, at)
              | inr between ↦
                  let before : day ≢ last = ground arith in
                  rw (more, later, between) (other, after, before)
            ]
      ]
]

split :
    (provided : Bool) (share : ℤ)
    → IsSplit provided share
        (if provided then none else some share)
        (if provided then some share else none)
split true share = (refl, refl)
split false share = (refl, refl)

neither : (provided : Bool) (x : Option ℤ) → (if provided then x else x) ≡ x
neither true x = refl
neither false x = refl

module _ (rate : ℤ) (parts : Apportionment) where
  pub lodging_due :
      (leg : Option LegInput) (kind : DayType)
      → LodgingDue kind leg
          (percent_of rate parts.lodging)
          (kept leg (components_of rate parts kind)).lodging
          (deducted leg (components_of rate parts kind)).lodging
  unfolding kept deducted components_of
  lodging_due none DayType.arrival = (refl, refl)
  lodging_due none DayType.full = (refl, refl)
  lodging_due none DayType.return = (refl, refl)
  lodging_due none DayType.same_day = (refl, refl)
  lodging_due (some l) DayType.arrival = split l.lodging_provided (percent_of rate parts.lodging)
  lodging_due (some l) DayType.full = split l.lodging_provided (percent_of rate parts.lodging)
  lodging_due (some l) DayType.return =
      (neither l.lodging_provided none, neither l.lodging_provided none)
  lodging_due (some l) DayType.same_day =
      (neither l.lodging_provided none, neither l.lodging_provided none)

  pub meals_due :
      (leg : Option LegInput) (kind : DayType)
      → MealsSplit leg
          (percent_of rate parts.meals)
          (kept leg (components_of rate parts kind)).meals
          (deducted leg (components_of rate parts kind)).meals
  unfolding kept deducted components_of
  meals_due none kind = (refl, refl)
  meals_due (some l) kind = split l.meals_provided (percent_of rate parts.meals)

pub pct_due : (kind : DayType) (departure : ℤ) → PctDue kind departure (pct_of kind departure)
pct_due DayType.arrival departure = refl
pct_due DayType.full departure = refl
pct_due DayType.return departure = refl
pct_due DayType.same_day departure = refl
