-- ===== src/Tests.antt =====
-- Runs of the theorems at concrete inputs.
pub mod Data
pub mod Incidents
pub mod Escalations
pub mod Passes
pub mod Dispatches
pub mod OnCall
pub mod Subscribers
pub mod Conditions
pub mod Limits
pub mod Logins
pub mod Tokens
