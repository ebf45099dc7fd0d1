-- ===== src/Reimbursement/PerDiem.antt =====
-- office_connect/modules/reimbursement/services/per_diem.py: a claim's travel entitlement, day by day.
-- Dates are ordinals and amounts centavos (`Numeric(12, 2)`); `to_money` rounds a percentage of an
-- amount half up to the centavo and is the identity on sums. Percentages are integers, as in Python.
pub mod Rows
pub mod Day
pub mod Controlling
pub mod Totals
pub mod AsOf
pub mod Shares
pub mod Payment
pub mod Paid
pub mod Span
