-- ===== src/AccessControl.antt =====
-- crates/embyr-core/src/access_control: security rules.
pub mod Syntax
pub mod Resolve
pub mod Compare
pub mod Eval
pub mod Discovery
pub mod Compliance
pub mod PathRouting
pub mod Token
pub mod PathTemplates
pub mod Operands
pub mod Scan
pub mod Tokenizer
pub mod Parser
pub mod RulesFile
