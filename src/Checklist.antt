-- ===== src/Checklist.antt =====
-- office_connect/core/checklist: which documents a subject must bring, and whether its packet is complete.
pub mod Values
pub mod Grammar
pub mod Checks
pub mod Engine
mod Examples
