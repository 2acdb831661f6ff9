-- ===== src/Domain.antt =====
-- The domain types of crates/embyr-core/src/domain.
pub mod FieldValue
pub mod Query
pub mod Error
pub mod FieldTransform
