-- ===== src/Reimbursement.antt =====
-- office_connect/modules/reimbursement: the claims module that consumes the core services.
pub mod PerDiem
pub mod Settlement
pub mod Deadline
pub mod Errors
pub mod Records
pub mod Configs
pub mod CashAdvances
pub mod ClaimTotals
pub mod References
pub mod Claims
pub mod Liquidations
pub mod Texts
pub mod Fms
pub mod Settling
pub mod Status
mod Walkthrough
mod ClaimExamples
mod Examples
