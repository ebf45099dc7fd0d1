-- ===== src/Workdays/Bounds.antt =====
-- How far working days carry a date.
use office_connect.Base.{ℕ, zero, suc, ◌+◌, ◌-◌, ◌≤◌, ◌≡◌, some, List, inl, inr, arith, Bool-cases}
use office_connect.Base.Int.{pos}
use office_connect.Workdays.{max_ordinal, is_working_day, forward, add_working_days}

module _ (nonworking : List ℕ) where
  forward_bounds :
      (room n cursor : ℕ) {d : ℕ}
      → forward nonworking room n cursor ≡ some d
      → (cursor + n ≤ d) × (d ≤ cursor + room)
  unfolding forward
  forward_bounds room zero cursor h = (ground arith, ground arith)
  forward_bounds zero (suc n) cursor h = cc
  forward_bounds (suc room) (suc n) cursor {d} h =
      elim (Bool-cases (is_working_day (cursor + 1) nonworking)) [
        | inl on ↦
            let rest = forward_bounds room n (cursor + 1) {d = d} (ground arith) in
            (ground arith, ground arith)
        | inr off ↦
            let rest = forward_bounds room (suc n) (cursor + 1) {d = d} (ground arith) in
            (ground arith, ground arith)
      ]

  pub add_bounds :
      (n day : ℕ) {d : ℕ}
      → day ≤ max_ordinal
      → add_working_days nonworking day (pos n) ≡ some d
      → (day + n ≤ d) × (d ≤ max_ordinal)
  unfolding add_working_days
  add_bounds n day {d} le h =
      let bounds = forward_bounds (max_ordinal - day) n day {d = d} h in (bounds.0, ground arith)
