-- ===== src/Domain.antt =====
-- The domain rules of crates/core/src/domain.
pub mod Time
pub mod Status
pub mod Codes
pub mod Incident
pub mod Escalation
pub mod Monitor
pub mod Maintenance
pub mod Silence
pub mod Delivery
pub mod Page
pub mod Channel
pub mod OnCall
pub mod Condition
pub mod Account
pub mod Scope
