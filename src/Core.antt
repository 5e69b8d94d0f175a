-- ===== src/Core.antt =====
-- crates/bat-markets-core: the domain types, the market conversions, the health report and the
-- engine state.
pub mod Types
pub mod Numeric
pub mod Failure
pub mod Instrument
pub mod Market
pub mod Trade
pub mod Command
pub mod Execution
pub mod Health
pub mod Engine
