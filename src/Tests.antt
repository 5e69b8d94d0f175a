-- ===== src/Tests.antt =====
-- Concrete values and the properties at them.
pub mod Values
pub mod Caches
pub mod Reports
pub mod Handles
pub mod Reconciles
pub mod Commands
pub mod Places
pub mod Hubs
pub mod Streams
