-- ===== src/Core/Engine/Ops.antt =====
-- crates/bat-markets-core/src/state.rs: every public method that changes the engine state as one
-- type, and a history of calls.
use bat_markets.Prelude.{ℕ, Option, List, [], ◌∷◌}
use bat_markets.Prelude.Int.{ℤ}
use bat_markets.Core.Numeric.{DecimalOps}
use bat_markets.Core.Instrument.{InstrumentSpec}
use bat_markets.Core.Trade.{Position, Order, Execution}
use bat_markets.Core.Command.{CommandReceipt, ReconcileReport, AccountSnapshot, PrivateSnapshot}
use bat_markets.Core.Execution.{PublicLaneEvent, PrivateLaneEvent}
use bat_markets.Core.Engine.{EngineState}
use bat_markets.Core.Engine.Public.{apply_public_event}
use bat_markets.Core.Engine.Private

pub data Op (D : Type 0) : Type 0 where
  public_event : PublicLaneEvent D → Op D
  private_event : PrivateLaneEvent D → Op D
  command_receipt : CommandReceipt → Op D
  replace_instruments : List (InstrumentSpec D) → Op D
  replace_account_snapshot : AccountSnapshot D → Op D
  replace_positions : List (Position D) → Op D
  replace_open_orders : List (Order D) → Op D
  merge_order_history : List (Order D) → Op D
  merge_executions : List (Execution D) → Op D
  private_snapshot : PrivateSnapshot D → Op D
  reconcile_report : ReconcileReport → Op D
  rest_success : Option ℤ → Op D
  public_disconnect private_disconnect reconnect : Op D
  snapshot_age : ℕ → ℕ → Op D

module _ {D : Type 0} (dec : DecimalOps D) where
  -- One call; a failed `apply_public_event` leaves what it left.
  unfoldable pub step : Op D → EngineState D → EngineState D
  step (Op.public_event e) s = (apply_public_event dec e s).0
  step (Op.private_event e) s = Private.apply_private_event e s
  step (Op.command_receipt r) s = Private.apply_command_receipt r s
  step (Op.replace_instruments specs) s = Private.replace_instruments specs s
  step (Op.replace_account_snapshot a) s = Private.replace_account_snapshot a s
  step (Op.replace_positions ps) s = Private.replace_positions ps s
  step (Op.replace_open_orders os) s = Private.replace_open_orders os s
  step (Op.merge_order_history os) s = Private.merge_order_history os s
  step (Op.merge_executions es) s = Private.merge_executions es s
  step (Op.private_snapshot p) s = Private.apply_private_snapshot p s
  step (Op.reconcile_report r) s = Private.apply_reconcile_report r s
  step (Op.rest_success skew) s = Private.mark_rest_success skew s
  step Op.public_disconnect s = Private.mark_public_disconnect s
  step Op.private_disconnect s = Private.mark_private_disconnect s
  step Op.reconnect s = Private.mark_reconnect s
  step (Op.snapshot_age age stale) s = Private.mark_snapshot_age age stale s

  unfoldable pub run : List (Op D) → EngineState D → EngineState D
  run [] s = s
  run (op ∷ ops) s = run ops (step op s)
