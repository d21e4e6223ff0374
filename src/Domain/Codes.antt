-- ===== src/Domain/Codes.antt =====
-- The database texts of the enumerations of crates/core/src/domain.
pub mod Faithful
pub mod Statuses
pub mod Incidents
pub mod Accounts
use statuspage.Domain.Status
use statuspage.Domain.Incident.Kinds
use statuspage.Domain.OnCall.Slot
use statuspage.Domain.Escalation
use statuspage.Domain.Delivery
use statuspage.Domain.Account
