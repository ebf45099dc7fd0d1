-- ===== src/Workdays/Roll.antt =====
-- Rolling a date onto a working day: next_working_day, previous_working_day, adjust_to_working_day.
use office_connect.Base.{
  ℕ, zero, suc, ◌+◌, ◌-◌, ◌≤◌, ◌<◌, ◌≡◌, true, false, Option, none, some, List, arith, Bool-cases,
  inl, inr, ◌⊎◌, ◌≢◌, String, eq_iff,
}
use office_connect.Workdays.{
  max_ordinal, is_working_day, next_from, previous_from, next_working_day, previous_working_day,
  adjust_to_working_day,
}
use text.Mathlib.Text.{◌==◌ as str_eq}

-- The first working day of `day ... date.max`, or `none` where there is no such day.
abbrev pub IsFirstFrom : List ℕ → ℕ → Option ℕ → Type 0
IsFirstFrom nonworking day none =
    (d : ℕ) → day ≤ d → d ≤ max_ordinal → is_working_day d nonworking ≡ false
IsFirstFrom nonworking day (some r) =
    (day ≤ r)
    × (r ≤ max_ordinal)
    × (is_working_day r nonworking ≡ true)
    × ((d : ℕ) → day ≤ d → d < r → is_working_day d nonworking ≡ false)

-- The last working day of `date.min ... day`, or `none` where there is no such day.
abbrev pub IsLastTo : List ℕ → ℕ → Option ℕ → Type 0
IsLastTo nonworking day none = (d : ℕ) → 1 ≤ d → d ≤ day → is_working_day d nonworking ≡ false
IsLastTo nonworking day (some r) =
    (1 ≤ r)
    × (r ≤ day)
    × (is_working_day r nonworking ≡ true)
    × ((d : ℕ) → r < d → d ≤ day → is_working_day d nonworking ≡ false)

module _ (nw : List ℕ) where
  -- A day that is off can be put before a range whose first working day is known.
  extend_first :
      (day : ℕ) (o : Option ℕ)
      → is_working_day day nw ≡ false
      → IsFirstFrom nw (day + 1) o
      → IsFirstFrom nw day o
  extend_first day none off h = λ d lo hi. ground (arith, h d)
  extend_first day (some r) off h =
      (omega arith, h.1, h.2, λ d lo hi. let later = h.3 d in ground arith)

  next_from_on : (room day : ℕ) → is_working_day day nw ≡ true → next_from nw room day ≡ some day
  unfolding next_from
  next_from_on zero day on = rw on
  next_from_on (suc room) day on = ground arith

  next_from_off :
      (room day : ℕ)
      → is_working_day day nw ≡ false
      → next_from nw (suc room) day ≡ next_from nw room (day + 1)
  unfolding next_from
  next_from_off room day off = ground arith

  next_from_end : (day : ℕ) → is_working_day day nw ≡ false → next_from nw zero day ≡ none
  unfolding next_from
  next_from_end day off = rw off

  next_from-IsFirstFrom :
      (room day : ℕ) → day + room ≡ max_ordinal → IsFirstFrom nw day (next_from nw room day)
  next_from-IsFirstFrom zero day e = elim (Bool-cases (is_working_day day nw)) [
    | inl on ↦
        rw (next_from_on zero day on)
          (omega arith, omega arith, on, λ d lo hi. absurd (omega arith))
    | inr off ↦ rw (next_from_end day off) (λ d lo hi. ground arith)
  ]
  next_from-IsFirstFrom (suc room) day e = elim (Bool-cases (is_working_day day nw)) [
    | inl on ↦
        rw (next_from_on (suc room) day on)
          (omega arith, omega arith, on, λ d lo hi. absurd (omega arith))
    | inr off ↦ rw (next_from_off room day off) (
        extend_first day (next_from nw room (day + 1)) off
          (next_from-IsFirstFrom room (day + 1) (omega arith)))
  ]

  -- Every date of the range is rolled forward to the first working day on or after it, and the
  -- roll overflows exactly when no working day is left before the last date.
  pub next_working_day-IsFirstFrom :
      (day : ℕ) → day ≤ max_ordinal → IsFirstFrom nw day (next_working_day nw day)
  unfolding next_working_day
  next_working_day-IsFirstFrom day h = next_from-IsFirstFrom (max_ordinal - day) day (omega arith)

  extend_last :
      (before day : ℕ) (o : Option ℕ)
      → suc before ≡ day
      → is_working_day day nw ≡ false
      → IsLastTo nw before o
      → IsLastTo nw day o
  extend_last before day none e off h = λ d lo hi. ground (arith, h d)
  extend_last before day (some r) e off h =
      (h.0, omega arith, h.2, λ d lo hi. let earlier = h.3 d in ground arith)

  previous_from_on :
      (room day : ℕ) → is_working_day day nw ≡ true → previous_from nw room day ≡ some day
  unfolding previous_from
  previous_from_on zero day on = rw on
  previous_from_on (suc room) day on = ground arith

  previous_from_off :
      (room day : ℕ)
      → is_working_day day nw ≡ false
      → previous_from nw (suc room) day ≡ previous_from nw room (day - 1)
  unfolding previous_from
  previous_from_off room day off = ground arith

  previous_from_end : (day : ℕ) → is_working_day day nw ≡ false → previous_from nw zero day ≡ none
  unfolding previous_from
  previous_from_end day off = rw off

  previous_from-IsLastTo :
      (room day : ℕ) → day ≡ suc room → IsLastTo nw day (previous_from nw room day)
  previous_from-IsLastTo zero day e = elim (Bool-cases (is_working_day day nw)) [
    | inl on ↦
        rw (previous_from_on zero day on)
          (omega arith, omega arith, on, λ d lo hi. absurd (omega arith))
    | inr off ↦ rw (previous_from_end day off) (λ d lo hi. ground arith)
  ]
  previous_from-IsLastTo (suc room) day e = elim (Bool-cases (is_working_day day nw)) [
    | inl on ↦
        rw (previous_from_on (suc room) day on)
          (omega arith, omega arith, on, λ d lo hi. absurd (omega arith))
    | inr off ↦ rw (previous_from_off room day off) (
        extend_last (day - 1) day (previous_from nw room (day - 1)) (omega arith) off
          (previous_from-IsLastTo room (day - 1) (omega arith)))
  ]

  -- Every date is rolled back to the last working day on or before it, and the roll overflows
  -- exactly when the range has no working day up to the date.
  pub previous_working_day-IsLastTo :
      (day : ℕ) → 1 ≤ day → IsLastTo nw day (previous_working_day nw day)
  unfolding previous_working_day
  previous_working_day-IsLastTo day h = previous_from-IsLastTo (day - 1) day (omega arith)

  -- A deadline is rolled back for the direction "backward" and forward for any other text.
  pub adjust_to_working_day-rolls :
      (day : ℕ) (direction : String)
      → 1 ≤ day
      → day ≤ max_ordinal
      → (direction ≡ "backward" × IsLastTo nw day (adjust_to_working_day nw day direction))
        ⊎ (direction ≢ "backward" × IsFirstFrom nw day (adjust_to_working_day nw day direction))
  unfolding adjust_to_working_day
  adjust_to_working_day-rolls day direction lo hi =
      elim (Bool-cases (str_eq direction "backward")) [
        | inl same ↦
            inl
              ((eq_iff direction "backward").0 same, rw same (previous_working_day-IsLastTo day lo))
        | inr other ↦ inr (
          λ e. cc (other, (eq_iff direction "backward").1 e),
          rw other (next_working_day-IsFirstFrom day hi),
        )
      ]
