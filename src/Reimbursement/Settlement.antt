-- ===== src/Reimbursement/Settlement.antt =====
-- `settle` of office_connect/modules/reimbursement/services/per_diem.py: claim against cash advance.
-- Amounts are centavos, on which `to_money` is the identity.
use office_connect.Base.{◌≡◌, ◌⊎◌, arith, if◌then◌else◌}
use office_connect.Base.Int.{ℤ, pos, ◌-ℤ◌, -ℤ◌, ◌+ℤ◌, ◌≤ℤ◌, ltb_ℤ}

-- `max(a, b)`: Python keeps the first of two equal values
abbrev pub max_ℤ : ℤ → ℤ → ℤ
max_ℤ a b = if ltb_ℤ a b then b else a

-- `(to_reimburse, to_refund)`
pub settle : ℤ → ℤ → ℤ × ℤ
settle grand advance = let diff = advance -ℤ grand in (max_ℤ (-ℤ◌ diff) (pos 0), max_ℤ diff (pos 0))

-- Settlement neither makes nor loses money: both figures are at least zero, one of them is zero, and
-- what the traveller is owed less what they refund is the claim less the advance.
pub settle-balances :
    (grand advance : ℤ)
    → let (to_reimburse, to_refund) = settle grand advance in
      (pos 0 ≤ℤ to_reimburse)
      × (pos 0 ≤ℤ to_refund)
      × ((to_reimburse ≡ pos 0) ⊎ (to_refund ≡ pos 0))
      × (to_reimburse +ℤ advance ≡ grand +ℤ to_refund)
unfolding settle ◌-ℤ◌ ◌+ℤ◌
settle-balances grand advance = ground arith
