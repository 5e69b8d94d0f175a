-- ===== src/Facade.antt =====
-- crates/bat-markets/src: the facade crate.
pub mod Sequence
pub mod Entry
pub mod Pending
pub mod Hub
pub mod Validation
pub mod Reconcile
pub mod Place
pub mod Batch
pub mod Amend
pub mod Shared
pub mod Session
pub mod Retry
