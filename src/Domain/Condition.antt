-- ===== src/Domain/Condition.antt =====
-- The condition language: crates/core/src/domain/condition_dsl.rs.
pub mod Glob
pub mod Backtrack
pub mod Decides
pub mod Ends
pub mod Expr
pub mod Equal
