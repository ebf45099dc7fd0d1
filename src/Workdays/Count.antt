-- ===== src/Workdays/Count.antt =====
-- Counting working days: add_working_days against working_days_between.
use office_connect.Base.{
  ℕ, zero, suc, ◌+◌, ◌-◌, ◌≤◌, ◌<◌, ◌≡◌, refl, true, some, List, arith, if◌then◌else◌,
}
use office_connect.Base.Int.{pos, negsuc, -ℤ◌}
use office_connect.Workdays.{
  max_ordinal, is_working_day, forward, backward, add_working_days, tally, working_days_between,
}

-- 1 for a working day, 0 for any other.
abbrev pub weight : ℕ → List ℕ → ℕ
weight day nw = if is_working_day day nw then 1 else 0

module _ (nw : List ℕ) where
  -- One more day at the far end of the range.
  tally-suc : (n c : ℕ) → tally nw (suc n) c ≡ tally nw n c + weight (c + n + 1) nw
  unfolding tally
  tally-suc zero c = rw (let e : c + 0 + 1 ≡ c + 1 = omega arith in e) (omega arith)
  tally-suc (suc n) c =
      let e : c + suc n + 1 ≡ c + 1 + n + 1 = omega arith in
      rw e (omega (arith, tally-suc n (c + 1)))

  forward_lem :
      (room n c : ℕ) {e : ℕ}
      → forward nw room n c ≡ some e
      → (k : ℕ) × (e ≡ c + k) × (k ≤ room) × (tally nw k c ≡ n)
  unfolding forward tally
  forward_lem zero zero c h = (0, ground arith, ground arith, refl)
  forward_lem (suc room) zero c h = (0, ground arith, ground arith, refl)
  forward_lem zero (suc n) c h = cc
  forward_lem (suc room) (suc n) c h =
      let (k, reached, fits, counted) =
        forward_lem room (if is_working_day (c + 1) nw then n else suc n) (c + 1) h in
      (suc k, omega arith, omega arith, ground arith)

  -- The loop stops on the day that took the last unit of the count, which is a working day.
  forward-working :
      (room n c : ℕ) {e : ℕ}
      → (n ≡ 0 → is_working_day c nw ≡ true)
      → forward nw room n c ≡ some e
      → is_working_day e nw ≡ true
  unfolding forward
  forward-working zero zero c p h = ground (arith, p refl)
  forward-working (suc room) zero c p h = ground (arith, p refl)
  forward-working zero (suc n) c p h = cc
  forward-working (suc room) (suc n) c p h =
      forward-working room (if is_working_day (c + 1) nw then n else suc n) (c + 1)
        (λ z. ground arith) h

  backward-working :
      (room n c : ℕ) {e : ℕ}
      → (n ≡ 0 → is_working_day c nw ≡ true)
      → backward nw room n c ≡ some e
      → is_working_day e nw ≡ true
  unfolding backward
  backward-working zero zero c p h = ground (arith, p refl)
  backward-working (suc room) zero c p h = ground (arith, p refl)
  backward-working zero (suc n) c p h = cc
  backward-working (suc room) (suc n) c p h =
      backward-working room (if is_working_day (c - 1) nw then n else suc n) (c - 1)
        (λ z. ground arith) h

  -- Going one day further back exchanges the day that was counted for the day it started from.
  backward_count :
      (n c e k : ℕ)
      → e + k + 1 ≡ c
      → weight e nw + tally nw k e
        ≡ (if is_working_day (c - 1) nw then n else suc n) + weight (c - 1) nw
      → weight e nw + tally nw (suc k) e ≡ suc n + weight c nw
  backward_count n c e k last counted = rw (tally-suc k e, last) (ground arith)

  backward_lem :
      (room n c : ℕ) {e : ℕ}
      → room < c
      → backward nw room n c ≡ some e
      → (k : ℕ) × (e + k ≡ c) × (k ≤ room) × (weight e nw + tally nw k e ≡ n + weight c nw)
  unfolding backward tally
  backward_lem zero zero c p h = (0, ground arith, ground arith, ground arith)
  backward_lem (suc room) zero c p h = (0, ground arith, ground arith, ground arith)
  backward_lem zero (suc n) c p h = cc
  backward_lem (suc room) (suc n) c {e} p h =
      let (k, reached, fits, counted) =
        backward_lem room (if is_working_day (c - 1) nw then n else suc n) (c - 1) (omega arith)
          h in
      let last : e + k + 1 ≡ c = omega arith in
      (suc k, omega arith, omega arith, backward_count n c e k last counted)

  pub tally-le : (n c : ℕ) → tally nw n c ≤ n
  unfolding tally
  tally-le zero c = omega arith
  tally-le (suc n) c = ground (arith, tally-le n (c + 1))

  -- What `working_days_between` returns for two different dates, in both orders.
  between_ahead :
      (start k : ℕ)
      → 0 < k
      → start + k < max_ordinal
      → working_days_between nw start (start + k) ≡ some (pos (tally nw k start))
  unfolding working_days_between
  between_ahead start k p hi = let e : start + k - start ≡ k = omega arith in rw e (ground arith)

  between_behind :
      (e k : ℕ)
      → 0 < k
      → e + k < max_ordinal
      → working_days_between nw (e + k) e ≡ some (-ℤ◌ (pos (tally nw k e)))
  unfolding working_days_between
  between_behind e k p hi = let d : e + k - e ≡ k = omega arith in rw d (ground arith)

  -- Counting n working days ahead lands on a working day, and `working_days_between` of the two
  -- dates gives n back: the docstring's law, for every result that is not the very last date.
  pub working_days_between-add :
      (start n : ℕ) {e : ℕ}
      → start ≤ max_ordinal
      → e < max_ordinal
      → 0 < n
      → add_working_days nw start (pos n) ≡ some e
      → (working_days_between nw start e ≡ some (pos n))
        × (is_working_day e nw ≡ true)
        × (start < e)
  unfolding add_working_days
  working_days_between-add start n {e} lo hi p h =
      let (k, reached, fits, counted) = forward_lem (max_ordinal - start) n start h in
      let far : 0 < k = omega (arith, tally-le k start) in
      (
        rw (reached, between_ahead start k far (omega arith), counted) refl,
        forward-working (max_ordinal - start) n start (λ z. absurd (omega arith)) h,
        omega arith,
      )

  -- Counting n working days back also lands on a working day, but the count of the days between
  -- gives -n back only when the start is a working day itself; from a day off it gives -(n - 1).
  pub working_days_between-add_back :
      (start n : ℕ) {e : ℕ}
      → 1 ≤ start
      → start < max_ordinal
      → add_working_days nw start (negsuc n) ≡ some e
      → (working_days_between nw start e ≡ some (-ℤ◌ (pos (n + weight start nw))))
        × (is_working_day e nw ≡ true)
        × (e < start)
  unfolding add_working_days
  working_days_between-add_back start n {e} lo hi h =
      let (k, reached, fits, counted) = backward_lem (start - 1) (suc n) start (omega arith) h in
      let on = backward-working (start - 1) (suc n) start (λ z. absurd (omega arith)) h in
      let full : tally nw k e ≡ n + weight start nw = ground arith in
      let far : 0 < k = grind (arith, tally-le k e) in
      (cc (reached, full, between_behind e k far (omega arith)), on, omega arith)
