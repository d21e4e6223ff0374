-- ===== src/Domain/OnCall.antt =====
-- On-call schedules: crates/core/src/domain/on_call.rs. The rotation arithmetic is in Slot, the choice
-- of who is on call in Resolve.
pub mod Slot
pub mod Resolve
pub mod Overridden
pub mod Rotation
pub mod Handoff
