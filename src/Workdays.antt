-- ===== src/Workdays.antt =====
-- office_connect/core/workdays.py: the working-day calendar behind every deadline.
-- A `date` is its proleptic ordinal (`date.toordinal()`), from 1 to `max_ordinal`; `none` is the
-- `OverflowError` of a step outside that range. Each loop recurs on the days that are left before the
-- end of the range, so the fuel is exactly what Python's own range allows.
-- The set `nonworking` is a list that is only asked for membership.
pub mod Roll
pub mod Count
pub mod Bounds
mod Examples
use office_connect.Base.{
  ℕ, zero, suc, ◌+◌, ◌-◌, ◌%◌, Bool, true, false, not, ◌&&◌, ◌||◌, Option, none, some, List, any,
  ltb, ◌==◌, if◌then◌else◌, String,
}
use office_connect.Base.Int.{ℤ, pos, negsuc, -ℤ◌}
use text.Mathlib.Text.{◌==◌ as str_eq}

-- `date.max.toordinal()`; `date.min.toordinal()` is 1.
abbrev pub max_ordinal : ℕ
max_ordinal = 3652059

-- `date.weekday()`: Monday is 0.
abbrev pub weekday : ℕ → ℕ
weekday d = (d + 6) % 7

-- `WEEKEND = frozenset({5, 6})`
abbrev pub is_weekend : ℕ → Bool
is_weekend w = w == 5 || w == 6

unfoldable pub is_working_day : ℕ → List ℕ → Bool
is_working_day day nonworking =
    not (is_weekend (weekday day)) && not (any (λ x. x == day) nonworking)

module _ (nonworking : List ℕ) where
  -- the `while` of `next_working_day`, with `room` days before `date.max`
  pub next_from : ℕ → ℕ → Option ℕ
  next_from zero cursor = if is_working_day cursor nonworking then some cursor else none
  next_from (suc room) cursor = elim (is_working_day cursor nonworking) [
    | true ↦ some cursor
    | false ↦ next_from room (cursor + 1)
  ]

  -- the `while` of `previous_working_day`, with `room` days after `date.min`
  pub previous_from : ℕ → ℕ → Option ℕ
  previous_from zero cursor = if is_working_day cursor nonworking then some cursor else none
  previous_from (suc room) cursor = elim (is_working_day cursor nonworking) [
    | true ↦ some cursor
    | false ↦ previous_from room (cursor - 1)
  ]

  pub next_working_day : ℕ → Option ℕ
  next_working_day day = next_from (max_ordinal - day) day

  pub previous_working_day : ℕ → Option ℕ
  previous_working_day day = previous_from (day - 1) day

  -- the `while remaining` of `add_working_days` with `step = 1`
  unfoldable pub forward : ℕ → ℕ → ℕ → Option ℕ
  forward room zero cursor = some cursor
  forward zero (suc remaining) cursor = none
  forward (suc room) (suc remaining) cursor =
      forward room (if is_working_day (cursor + 1) nonworking then remaining else suc remaining)
        (cursor + 1)

  -- the same loop with `step = -1`
  pub backward : ℕ → ℕ → ℕ → Option ℕ
  backward room zero cursor = some cursor
  backward zero (suc remaining) cursor = none
  backward (suc room) (suc remaining) cursor =
      backward room (if is_working_day (cursor - 1) nonworking then remaining else suc remaining)
        (cursor - 1)

  unfoldable pub add_working_days : ℕ → ℤ → Option ℕ
  add_working_days start (pos n) = forward (max_ordinal - start) n start
  add_working_days start (negsuc n) = backward (start - 1) (suc n) start

  -- the `while cursor <= hi` of `working_days_between`: the working days among the `n` days after `lo`
  pub tally : ℕ → ℕ → ℕ
  tally zero lo = 0
  tally (suc n) lo = (if is_working_day (lo + 1) nonworking then 1 else 0) + tally n (lo + 1)

  -- The last `cursor += timedelta(days=1)` steps past `hi`, which overflows at `date.max`.
  pub count_days : ℕ → ℕ → Option ℕ
  count_days lo hi = if hi == max_ordinal then none else some (tally (hi - lo) lo)

  pub working_days_between : ℕ → ℕ → Option ℤ
  unfolding count_days
  working_days_between start end =
      if end == start
      then some (pos 0)
      else if ltb start end
      then elim (count_days start end) [ none ↦ none | some n ↦ some (pos n) ]
      else elim (count_days end start) [ none ↦ none | some n ↦ some (-ℤ◌ (pos n)) ]

  pub adjust_to_working_day : ℕ → String → Option ℕ
  adjust_to_working_day day direction =
      if str_eq direction "backward" then previous_working_day day else next_working_day day
