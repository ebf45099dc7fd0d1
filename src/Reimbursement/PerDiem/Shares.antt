-- ===== src/Reimbursement/PerDiem/Shares.antt =====
-- The percentages that are configured for a day, and the share of the daily rate that one of them is.
use office_connect.Base.{
  ℕ, suc, ◌+◌, ◌*◌, ◌≤◌, ◌<◌, ◌≡◌, refl, not, Option, none, some, String, List, arith, subst, ap,
}
use office_connect.Base.Int.{ℤ, pos, negsuc, sub_ℕ, pos_part, neg_part, ◌+ℤ◌, ◌*ℤ◌}
use office_connect.Json.{Json, index, int_of}
use office_connect.Reimbursement.PerDiem.Rows.{
  ConfigRow, Error, Result, ok, err, require, by_key, as_of, Apportionment, apportionment_key,
  departure_rate_key, int_at, eq_ℤ, apportionment, departure_pct, require-eq-ok, >>=-eq-ok,
  raise_if-eq-ok, ok-injective,
}
use office_connect.Reimbursement.PerDiem.AsOf.{IsLatest, as_of-IsLatest}
use office_connect.Reimbursement.PerDiem.Day.{half_up, percent_of}

-- The newest row of the key that is in force on the day has the number under the name.
pub record IsConfigured (configs : List ConfigRow) (day : ℕ) (key name : String) (n : ℤ)
    : Type 0 where
  pub row : ConfigRow
  pub newest : IsLatest by_key day key configs (some row)
  pub value : Json
  pub held : index row.value name ≡ some value
  pub number : int_of value ≡ some n

required : (o : Option ℤ) (e : Error) {n : ℤ} → require o e ≡ ok n → o ≡ some n
required none e h = cc
required (some m) e h = ap some (ok-injective h)

-- what int_at does with the value that it finds
abbrev int_from : Option Json → String → Result ℤ
int_from found key = elim found [
  | none ↦ err (Error.config_invalid key)
  | some v ↦ require (int_of v) (Error.config_invalid key)
]

int_from-held :
    (found : Option Json) (key : String) {n : ℤ}
    → int_from found key ≡ ok n
    → (v : Json) × (found ≡ some v) × (int_of v ≡ some n)
int_from-held none key h = cc
int_from-held (some v) key h = (v, refl, required (int_of v) (Error.config_invalid key) h)

int_at-held :
    (value : Json) (name key : String) {n : ℤ}
    → int_at value name key ≡ ok n
    → (v : Json) × (index value name ≡ some v) × (int_of v ≡ some n)
int_at-held value name key h = int_from-held (index value name) key h

as_of-newest :
    (configs : List ConfigRow) (day : ℕ) (key : String) {row : ConfigRow}
    → as_of by_key configs day key ≡ some row
    → IsLatest by_key day key configs (some row)
as_of-newest configs day key e =
    subst (λ (x : Option ConfigRow). IsLatest by_key day key configs x) e
      (as_of-IsLatest by_key configs day key)

configured :
    (configs : List ConfigRow) (day : ℕ) (key name : String) {row : ConfigRow} {n : ℤ}
    → as_of by_key configs day key ≡ some row
    → int_at row.value name key ≡ ok n
    → IsConfigured configs day key name n
configured configs day key name {row} e h =
    let (v, held, number) = int_at-held row.value name key h in
    record {
      row = row;
      newest = as_of-newest configs day key e;
      value = v;
      held = held;
      number = number;
    }

-- The three shares of the day are the configured ones.
pub record AreShares (configs : List ConfigRow) (day : ℕ) (parts : Apportionment) : Type 0 where
  pub lodging : IsConfigured configs day apportionment_key "lodging" parts.lodging
  pub meals : IsConfigured configs day apportionment_key "meals" parts.meals
  pub incidentals : IsConfigured configs day apportionment_key "incidentals" parts.incidentals

pub apportionment-AreShares :
    (configs : List ConfigRow) (day : ℕ) {parts : Apportionment}
    → apportionment configs day ≡ ok parts
    → AreShares configs day parts
unfolding apportionment
apportionment-AreShares configs day {parts} h =
    let (row, at, h1) =
      require-eq-ok (as_of by_key configs day apportionment_key)
        (Error.config_missing apportionment_key day) _ h in
    let (l, lodging, h2) = >>=-eq-ok (int_at row.value "lodging" apportionment_key) _ h1 in
    let (m, meals, h3) = >>=-eq-ok (int_at row.value "meals" apportionment_key) _ h2 in
    let (i, incidentals, h4) = >>=-eq-ok (int_at row.value "incidentals" apportionment_key) _ h3 in
    let (whole, h5) =
      raise_if-eq-ok (not (eq_ℤ (l +ℤ m +ℤ i) (pos 100))) (Error.config_invalid apportionment_key) _
        h4 in
    subst (λ (x : Apportionment). AreShares configs day x) (ok-injective h5)
      (record {
        lodging = configured configs day apportionment_key "lodging" at lodging;
        meals = configured configs day apportionment_key "meals" at meals;
        incidentals = configured configs day apportionment_key "incidentals" at incidentals;
      })

pub departure_pct-IsConfigured :
    (configs : List ConfigRow) (day : ℕ) (parts : Apportionment) {pct : ℤ}
    → departure_pct configs day parts ≡ ok pct
    → IsConfigured configs day departure_rate_key "pct" pct
unfolding departure_pct
departure_pct-IsConfigured configs day parts h =
    let (row, at, h1) =
      require-eq-ok (as_of by_key configs day departure_rate_key)
        (Error.config_missing departure_rate_key day) _ h in
    let (p, read, h2) = >>=-eq-ok (int_at row.value "pct" departure_rate_key) _ h1 in
    let (whole, h3) =
      raise_if-eq-ok (not (eq_ℤ p (parts.meals +ℤ parts.incidentals)))
        (Error.config_invalid departure_rate_key) _ h2 in
    subst (λ (x : ℤ). IsConfigured configs day departure_rate_key "pct" x) (ok-injective h3)
      (configured configs day departure_rate_key "pct" at read)

-- `share` is a hundredth of `n` to the nearest, a half counting up.
abbrev pub IsNearest : ℕ → ℕ → Type 0
IsNearest n share = (share * 100 ≤ n + 50) × (n + 50 < share * 100 + 100)

-- A hundredth of the number to the nearest, a half counting away from zero.
abbrev pub IsRounded : ℤ → ℤ → Type 0
IsRounded (pos n) share = (q : ℕ) × (share ≡ pos q) × IsNearest n q
IsRounded (negsuc n) share = (q : ℕ) × (share ≡ sub_ℕ 0 q) × IsNearest (suc n) q

-- The share is the percentage of the amount, in whole centavos.
abbrev pub IsShare : ℤ → ℤ → ℤ → Type 0
IsShare amount pct share = IsRounded (amount *ℤ pct) share

nearest : (n : ℕ) → IsNearest n (half_up n)
nearest n = (omega arith, omega arith)

rounded : (z : ℤ) → IsRounded z (sub_ℕ (half_up (pos_part z)) (half_up (neg_part z)))
rounded (pos n) = (half_up n, ground arith, nearest n)
rounded (negsuc n) = (half_up (suc n), ground arith, nearest (suc n))

pub percent_of-IsShare : (amount pct : ℤ) → IsShare amount pct (percent_of amount pct)
unfolding percent_of
percent_of-IsShare amount pct = rounded (amount *ℤ pct)
