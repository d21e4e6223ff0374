-- ===== src/Storage.antt =====
-- The in-memory storage of crates/storage/src/memory.rs.
pub mod Memory
pub mod Incidents
pub mod Escalation
pub mod Maintenance
pub mod Silences
pub mod Results
pub mod Deliveries
pub mod Accounts
pub mod Tokens
