-- ===== src/Reimbursement/PerDiem/Rows.antt =====
-- The inputs and outputs of per_diem.py, its errors, and the reading of effective-dated rows.
pub use office_connect.Base.Attempts.{
  Attempt, ok, err, ◌>>=◌, ◌>>◌, raise_if, require, >>=-eq-ok, raise_if-eq-ok, require-eq-ok,
  ok-injective,
}
use office_connect.Base.{
  ℕ, ◌+◌, Bool, true, not, ◌||◌, Option, none, some, List, [], ◌∷◌, String, ltb, ◌==◌,
  if◌then◌else◌,
}
use office_connect.Base.Int.{ℤ, pos, pos_part, neg_part, ◌+ℤ◌}
use office_connect.Json.{Json, index, int_of}
use text.Mathlib.Text.{◌==◌ as str_eq}

pub record LegInput : Type 0 where
  pub id : Option ℕ
  pub seq : ℕ
  pub leg_date : Option ℕ
  pub destination_region_code : Option String
  pub transport_mode : Option String
  pub fare : Option ℤ
  pub lodging_provided : Bool
  pub meals_provided : Bool

pub record RegionRow : Type 0 where
  pub region_code : String
  pub cluster : String
  pub effective_from : ℕ

pub record RateRow : Type 0 where
  pub cluster : String
  pub daily_rate : ℤ
  pub effective_from : ℕ

pub record ConfigRow : Type 0 where
  pub key : String
  pub value : Json
  pub effective_from : ℕ

pub data DayType : Type 0 where
  arrival full return same_day : DayType

-- `components` and `deductions`: a dict with at most these three keys
pub record Parts : Type 0 where
  pub lodging : Option ℤ
  pub meals : Option ℤ
  pub incidentals : Option ℤ

pub record DayBreakdown : Type 0 where
  pub day : ℕ
  pub day_type : DayType
  pub leg_id : Option ℕ
  pub region_code : String
  pub cluster : String
  pub daily_rate : ℤ
  pub pct : ℤ
  pub components : Parts
  pub deductions : Parts
  pub amount : ℤ
  pub gated_50km : Bool

pub record PerDiemResult : Type 0 where
  pub days : List DayBreakdown
  pub leg_values : List (ℕ × (ℤ × ℤ))
  pub per_diem_total : ℤ
  pub transport_total : ℤ

-- the factories of services/errors.py that per_diem.py raises
pub data Error : Type 0 where
  no_computable_days : Error
  leg_date_required gov_vehicle_fare : ℕ → Error
  leg_outside_trip_dates : ℕ → Error
  missing_region_cluster : ℕ → Option String → Error
  missing_dte_rate : String → ℕ → Error
  config_missing : String → ℕ → Error
  config_invalid : String → Error

-- A call that raises, or its value.
abbrev pub Result {ℓ} : Type ℓ → Type ℓ
Result A = Attempt Error A

-- A row of one of the effective-dated tables, by its key and its first day.
pub record Dated {ℓ} (A : Type ℓ) : Type ℓ where
  pub key_of : A → String
  pub from : A → ℕ

abbrev pub by_region : Dated RegionRow
by_region = record { key_of = λ r. r.region_code; from = λ r. r.effective_from }

abbrev pub by_cluster : Dated RateRow
by_cluster = record { key_of = λ r. r.cluster; from = λ r. r.effective_from }

abbrev pub by_key : Dated ConfigRow
by_key = record { key_of = λ r. r.key; from = λ r. r.effective_from }

module _ {ℓ} {A : Type ℓ} (table : Dated A) (day : ℕ) (key : String) where
  -- `getattr(row, keyattr) != keyval or row.effective_from > day`
  abbrev pub passed_over : A → Bool
  passed_over row = not (str_eq (table.key_of row) key) || ltb day (table.from row)

  -- `best is None or row.effective_from > best.effective_from`
  abbrev pub improves : A → Option A → Bool
  improves row none = true
  improves row (some best) = ltb (table.from best) (table.from row)

  -- the loop of `_as_of`
  unfoldable pub as_of_from : Option A → List A → Option A
  as_of_from best [] = best
  as_of_from best (row ∷ rows) =
      as_of_from (if passed_over row then best else if improves row best then some row else best)
        rows

unfoldable pub as_of {ℓ} : {A : Type ℓ} → Dated A → List A → ℕ → String → Option A
unfolding as_of_from
as_of table rows day key = as_of_from table day key none rows

abbrev pub apportionment_key : String
apportionment_key = "per_diem.apportionment"

abbrev pub departure_rate_key : String
departure_rate_key = "per_diem.departure_day_rate"

pub record Apportionment : Type 0 where
  pub lodging : ℤ
  pub meals : ℤ
  pub incidentals : ℤ

-- `int(value[k])` with its exceptions as `config_invalid`
abbrev pub int_at : Json → String → String → Result ℤ
int_at value k key = elim (index value k) [
  | none ↦ err (config_invalid key)
  | some v ↦ require (int_of v) (config_invalid key)
]

abbrev pub eq_ℤ : ℤ → ℤ → Bool
eq_ℤ a b = pos_part a + neg_part b == pos_part b + neg_part a

unfoldable pub apportionment : List ConfigRow → ℕ → Result Apportionment
apportionment configs day = do
  row ← require (as_of by_key configs day apportionment_key) (config_missing apportionment_key day)
  lodging ← int_at row.value "lodging" apportionment_key
  meals ← int_at row.value "meals" apportionment_key
  incidentals ← int_at row.value "incidentals" apportionment_key
  raise_if (not (eq_ℤ (lodging +ℤ meals +ℤ incidentals) (pos 100)))
      (config_invalid apportionment_key)
  ok (record { lodging = lodging; meals = meals; incidentals = incidentals })

unfoldable pub departure_pct : List ConfigRow → ℕ → Apportionment → Result ℤ
departure_pct configs day parts = do
  row ←
      require (as_of by_key configs day departure_rate_key) (config_missing departure_rate_key day)
  pct ← int_at row.value "pct" departure_rate_key
  raise_if (not (eq_ℤ pct (parts.meals +ℤ parts.incidentals))) (config_invalid departure_rate_key)
  ok pct
