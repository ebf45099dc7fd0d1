-- ===== src/Auth.antt =====
-- office_connect/core/auth.
pub mod Throttle
