-- ===== src/Workflow.antt =====
-- office_connect/core/workflow: the approval engine that every module of the platform shares.
-- `Types` has the tables, `Result` the error codes, and each further child is one file of the package.
pub mod Types
pub mod Result
pub mod Guards
pub mod Steps
pub mod Segregation
pub mod Delegation
pub mod Decisions
pub mod Transitions
pub mod Sweep
pub mod Service
pub mod Definitions
pub mod Replay
pub mod Walkthrough
mod Examples
