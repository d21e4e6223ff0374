-- ===== src/Server.antt =====
-- The background workers and handlers of bin/status-server/src.
pub mod Dispatch
pub mod Writer
pub mod Background
pub mod Engine
pub mod Api
pub mod Subscribers
pub mod RateLimit
pub mod Auth
