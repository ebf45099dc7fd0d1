-- ===== src/Reimbursement/Deadline.antt =====
-- office_connect/modules/reimbursement/services/deadline.py: the liquidation deadline of an advance.
-- A `date` is its ordinal, as in Workdays. The outer `none` is an exception: the `TypeError` of
-- `basis not in BASES` where the basis is a list or an object, and the `OverflowError` of a date
-- outside Python's range.
pub mod Rule
pub mod Order
use office_connect.Base.{
  ℕ, zero, suc, ◌+◌, ◌-◌, Bool, true, false, ◌||◌, Option, none, some, List, String, leb, ltb,
  if◌then◌else◌,
}
use office_connect.Base.Int.{ℤ, pos, negsuc, ◌-ℤ◌, ltb_ℤ, leb_ℤ}
use office_connect.Workdays.{max_ordinal, add_working_days}
use office_connect.Json.{Json, Fields, index, lookup, int_of}
use text.Mathlib.Text.{◌==◌ as str_eq}

abbrev pub deadline_key : String
deadline_key = "liquidation.deadline"

abbrev pub calendar : String
calendar = "calendar"

abbrev pub working : String
working = "working"

abbrev pub default_days : ℤ
default_days = pos 30

abbrev pub due_soon_days : ℤ
due_soon_days = pos 7

pub record DeadlineRule : Type 0 where
  pub days : ℤ
  pub basis : String
  pub reason : String

abbrev pub default_rule : String → DeadlineRule
default_rule reason = record { days = default_days; basis = calendar; reason = reason }

abbrev pub with_basis : ℤ → String → DeadlineRule
with_basis days basis =
    if str_eq basis calendar || str_eq basis working
    then record { days = days; basis = basis; reason = "configured" }
    else record { days = days; basis = calendar; reason = "unknown_basis" }

-- `basis not in BASES` and the two returns after it; a list or an object cannot be hashed
abbrev pub read_basis : ℤ → Option Json → Option DeadlineRule
read_basis days none = some (with_basis days calendar)
read_basis days (some (Json.text basis)) = some (with_basis days basis)
read_basis days (some (Json.arr items)) = none
read_basis days (some (Json.obj fields)) = none
read_basis days (some other) =
    some (record { days = days; basis = calendar; reason = "unknown_basis" })

-- the days, as `int(value["days"])` reads them, and then the basis
abbrev pub read_days : Option ℤ → Option Json → Option DeadlineRule
read_days none basis = some (default_rule "unreadable_days")
read_days (some days) basis =
    if leb_ℤ days (pos 0) then some (default_rule "non_positive_days") else read_basis days basis

abbrev pub int_of_entry : Option Json → Option ℤ
int_of_entry none = none
int_of_entry (some value) = int_of value

abbrev pub read_value : Option Json → Option DeadlineRule
read_value (some (Json.obj fields)) =
    read_days (int_of_entry (lookup "days" fields)) (lookup "basis" fields)
read_value other = some (default_rule "no_config_row")

unfoldable pub read_rule : Option Fields → Option DeadlineRule
read_rule none = some (default_rule "no_config_row")
read_rule (some config) = read_value (lookup deadline_key config)

-- `date_return + timedelta(days=rule.days)`
abbrev pub shift : ℕ → ℤ → Option ℕ
shift day (pos n) = if leb (day + n) max_ordinal then some (day + n) else none
shift day (negsuc n) = if ltb (suc n) day then some (day - suc n) else none

abbrev pub return_date : Option ℕ → Option (Option ℕ)
return_date none = none
return_date (some day) = some (some day)

unfoldable pub liquidation_deadline : Option ℕ → DeadlineRule → List ℕ → Option (Option ℕ)
liquidation_deadline none rule nonworking = some none
liquidation_deadline (some day) rule nonworking =
    if str_eq rule.basis working
    then return_date (add_working_days nonworking day rule.days)
    else return_date (shift day rule.days)

unfoldable pub days_remaining : Option ℕ → ℕ → Option ℤ
days_remaining none today = none
days_remaining (some deadline) today = some (pos deadline -ℤ pos today)

pub data DeadlineState : Type 0 where
  on_track due_soon overdue : DeadlineState

abbrev pub state_of : Option ℤ → Option DeadlineState
state_of none = none
state_of (some remaining) =
    if ltb_ℤ remaining (pos 0)
    then some DeadlineState.overdue
    else if leb_ℤ remaining due_soon_days
    then some DeadlineState.due_soon
    else some DeadlineState.on_track

unfoldable pub deadline_state : Option ℕ → ℕ → Option DeadlineState
unfolding days_remaining ◌-ℤ◌
deadline_state deadline today = state_of (days_remaining deadline today)
