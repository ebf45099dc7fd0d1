-- ===== src/Reimbursement/Configs.antt =====
-- The configuration that the claim services read: `effective_config` of services/checklist_facts.py,
-- `config_int` and `config_working_days` of services/lifecycle.py, and `load_nonworking_dates` of
-- core/workdays.py.

use office_connect.Base.{
  ℕ, Bool, true, false, ◌&&◌, ◌||◌, Option, none, some, List, [], ◌∷◌, String, leb, ltb, ◌==◌,
  if◌then◌else◌, filter, map, is_some,
}
use office_connect.Base.Int.{ℤ}
use office_connect.Json.{Json, Fields, index, int_of}
use office_connect.Reimbursement.Records.{Config, Holiday, is_non_working}
use text.Mathlib.Text.{◌==◌ as str_eq}

-- the `where` of the query
abbrev pub is_effective : ℕ → Config → Bool
is_effective today row = row.is_active && leb row.effective_from today

-- Python orders `False` before `True`.
abbrev pub ltb_Bool : Bool → Bool → Bool
ltb_Bool false b = b
ltb_Bool true b = false

-- `(row.effective_from, row.tenant_id is not None) > (current. ...)`
abbrev pub newer : Config → Config → Bool
newer row current =
    ltb current.effective_from row.effective_from
    || (row.effective_from == current.effective_from
        && ltb_Bool (is_some current.tenant_id) (is_some row.tenant_id))

-- one round of the loop, on the rows that `best` holds: one for each key
unfoldable pub improve : Config → List Config → List Config
improve row [] = row ∷ []
improve row (current ∷ best) =
    let rest = improve row best in
    if str_eq current.key row.key
    then (if newer row current then row ∷ best else current ∷ best)
    else current ∷ rest

unfoldable pub best_of : List Config → List Config → List Config
unfolding improve
best_of [] best = best
best_of (row ∷ rows) best = best_of rows (improve row best)

-- `{key: row.value for key, row in best.items()}`
unfoldable pub values_of : List Config → Fields
values_of [] = Fields.end
values_of (row ∷ best) = Fields.field row.key row.value (values_of best)

unfoldable pub effective_config : List Config → ℕ → Fields
unfolding best_of values_of
effective_config configs today = values_of (best_of (filter (is_effective today) configs) [])

-- `max(rows, key=...)`: of equal dates the first row
unfoldable pub latest : Config → List Config → Config
latest best [] = best
latest best (row ∷ rows) =
    latest (if ltb best.effective_from row.effective_from then row else best) rows

abbrev pub int_or : Option Json → ℤ → ℤ
int_or none default = default
int_or (some value) default = elim (int_of value) [ none ↦ default | some n ↦ n ]

abbrev pub read_int : List Config → String → ℤ → ℤ
read_int [] entry default = default
read_int (row ∷ rows) entry default = int_or (index (latest row rows).value entry) default

unfoldable pub config_int : List Config → String → String → ℤ → ℕ → ℤ
unfolding latest
config_int configs key entry default today =
    read_int (filter (λ c. str_eq c.key key && is_effective today c) configs) entry default

unfoldable pub config_working_days : List Config → String → ℤ → ℕ → ℤ
unfolding config_int
config_working_days configs key default today = config_int configs key "working_days" default today

-- `load_nonworking_dates`: the active holidays of a range, as ordinals
unfoldable pub load_nonworking_dates : List Holiday → ℕ → ℕ → List ℕ
load_nonworking_dates holidays start end =
    map (λ h. h.calendar_date)
      (filter
        (λ h.
          leb start h.calendar_date && leb h.calendar_date end && h.is_active && is_non_working h)
        holidays)
