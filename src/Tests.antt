-- ===== src/Tests.antt =====
-- Runs of the model at concrete inputs, and the theorems at inputs that meet their hypotheses.
pub mod Floats
pub mod Access
pub mod Parsing
pub mod Routing
pub mod Transforms
pub mod Members
pub mod Billing
pub mod RulesFile
pub mod Limits
