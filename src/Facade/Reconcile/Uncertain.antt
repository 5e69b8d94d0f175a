-- ===== src/Facade/Reconcile/Uncertain.antt =====
-- crates/bat-markets/src/runtime.rs: a reconcile pass does not report `Synchronized` while a
-- pending command has left no trace.
use bat_markets.Prelude.{◌≡◌, ◌≢◌, Option, List, In}
use bat_markets.Prelude.Int.{ℤ}
use bat_markets.OrdMap.{values}
use bat_markets.Core.Instrument.{InstrumentSpec}
use bat_markets.Core.Trade.{Order, Execution, GetOrderRequest}
use bat_markets.Core.Engine.{EngineState}
use bat_markets.Core.Failure.{ok}
use bat_markets.Facade.Pending.{PendingUnknownCommand}
use bat_markets.Facade.Pending.Evidence.{IsOrderOf, IsFillOf, HasEvidence}
use bat_markets.Facade.Reconcile.{VenueRest}
use bat_markets.Facade.Reconcile.Asks.{request_of}

-- The venue knows nothing of the command: it has no order for it, and none of the orders and fills
-- that it answers names it.
pub record IsUnknown {D : Type 0} (v : VenueRest D) (command : PendingUnknownCommand) : Type 0 where
  pub no_answer : (spec : InstrumentSpec D) (o : Order D) → v.order spec (request_of command) ≢ ok o
  pub no_order :
      (spec : InstrumentSpec D) (request : GetOrderRequest) (o : Order D)
      → v.order spec request ≡ ok o
      → ¬ IsOrderOf command o
  pub no_open_order :
      (os : List (Order D))
      → v.open_orders ≡ ok os
      → (o : Order D) → In o os
      → ¬ IsOrderOf command o
  pub no_past_order :
      (spec : InstrumentSpec D) (window : Option (ℤ × ℤ)) (os : List (Order D))
      → v.order_history spec window ≡ ok os
      → (o : Order D) → In o os
      → ¬ IsOrderOf command o
  pub no_fill :
      (spec : InstrumentSpec D) (window : Option (ℤ × ℤ)) (es : List (Execution D))
      → v.executions spec window ≡ ok es
      → (e : Execution D) → In e es
      → ¬ IsFillOf command e

-- The engine state holds no order and no fill that names the command.
abbrev pub IsTraceless : {D : Type 0} → PendingUnknownCommand → EngineState D → Type 0
IsTraceless command s = ¬ HasEvidence command (values s.orders) s.executions
