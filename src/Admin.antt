-- ===== src/Admin.antt =====
-- The administrative domain of crates/embyr-core/src/admin.
pub mod Rbac
pub mod Billing
