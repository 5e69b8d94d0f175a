-- ===== src/Facade/Reconcile/Decided.antt =====
-- crates/bat-markets/src/runtime.rs with entry.rs: what the handle of a command of unknown outcome
-- is told, by what the venue knows of the command.
use bat_markets.Core.Engine.Private
