-- ===== src/Reimbursement/Deadline/Order.antt =====
-- The two bases against each other, and the states against the dates.
use office_connect.Base.{ℕ, ◌+◌, ◌≤◌, ◌<◌, ◌≡◌, refl, ◌↔◌, Option, none, some, List, arith, String}
use office_connect.Base.Int.{pos}
use office_connect.Workdays.{max_ordinal, add_working_days}
use office_connect.Workdays.Bounds.{add_bounds}
use office_connect.Reimbursement.Deadline.{
  calendar, working, liquidation_deadline, deadline_state, DeadlineState, return_date,
}

returned : (o : Option ℕ) {d : ℕ} → return_date o ≡ some (some d) → o ≡ some d
returned none h = cc
returned (some e) h = cc

-- A compliance clock fails short: for the same return date and number of days, wherever the working
-- basis gives a deadline the calendar basis gives one too, and never a later one.
pub calendar-no_later :
    (date_return days : ℕ) (reason why : String) (nonworking : List ℕ) {late : ℕ}
    → date_return ≤ max_ordinal
    → liquidation_deadline
        (some date_return)
        (record { days = pos days; basis = working; reason = reason })
        nonworking
      ≡ some (some late)
    → (early : ℕ) × (liquidation_deadline
          (some date_return)
          (record { days = pos days; basis = calendar; reason = why })
          nonworking
        ≡ some (some early))
      × (early ≤ late)
unfolding liquidation_deadline
calendar-no_later date_return days reason why nonworking {late} le h =
    let bounds =
      add_bounds nonworking days date_return {d = late} le
        (returned (add_working_days nonworking date_return (pos days)) h) in
    (date_return + days, ground arith, bounds.0)

-- A deadline is overdue from the day after it on, due soon on it and on the seven days before it, and
-- on track before those; without a deadline there is no state.
pub deadline_state_iff :
    (deadline today : ℕ)
    → (deadline_state none today ≡ none)
      × ((deadline_state (some deadline) today ≡ some DeadlineState.overdue) ↔ (deadline < today))
      × ((deadline_state (some deadline) today ≡ some DeadlineState.due_soon)
          ↔ ((today ≤ deadline) × (deadline ≤ today + 7)))
      × ((deadline_state (some deadline) today ≡ some DeadlineState.on_track)
          ↔ (today + 7 < deadline))
unfolding deadline_state
deadline_state_iff deadline today = (
  refl,
  (λ h. ground arith, λ h. ground arith),
  (λ h. ground arith, λ h. ground arith),
  (λ h. ground arith, λ h. ground arith),
)
