-- ===== src/Facade/Reconcile.antt =====
-- crates/bat-markets/src/runtime.rs: `reconcile_private` with the reads it makes, and
-- `apply_command_receipt` with the recovery it starts. The engine state, the cached pending
-- commands and the events sent on the command bus are passed along as one record. What the venue
-- answers to a request, parsed by its adapter, is a parameter.
pub mod Asks
pub mod Pass
pub mod Traces
pub mod Kept
pub mod History
pub mod Chain
pub mod Uncertain
pub mod Bus
pub mod Settled
pub mod Answered
pub mod Failed
pub mod Decided
use bat_markets.Prelude.{
  ℕ, Bool, true, false, ◌||◌, Option, none, some, List, [], ◌∷◌, ◌++◌, map, if◌then◌else◌, is_some,
  unwrap_or, length,
}
use bat_markets.Prelude.Int.{ℤ}
use bat_markets.Prelude.Text.{Str, str}
use bat_markets.Ord.{str_ord}
use bat_markets.OrdMap.{OrdMap, get, insert}
use bat_markets.Core.Types.{Venue, Product, InstrumentId, TimestampMs}
use bat_markets.Core.Failure.{ErrorKind, MarketError, Result, ok, err}
use bat_markets.Core.Instrument.{InstrumentSpec}
use bat_markets.Core.Trade.{Position, Order, Execution, GetOrderRequest}
use bat_markets.Core.Command.{AccountSnapshot, CommandLaneEvent}
use bat_markets.Core.Execution.{PrivateLaneEvent}
use bat_markets.Core.Engine.{EngineState}
use bat_markets.Core.Engine.Private.{
  apply_private_event, replace_account_if, replace_account_snapshot, replace_positions,
  replace_open_orders, merge_order_history, merge_executions, mark_rest_success,
}
use bat_markets.Core.Engine.Read.{
  orders, positions, open_orders, latest_order_update_at, latest_execution_at,
}
use bat_markets.Core.Numeric.{DecimalOps}
use bat_markets.Facade.Validation.{require_spec}
use bat_markets.Facade.Pending.{
  PendingUnknownCommand, unresolved_pending_after_state, unresolved_pending_after_orders,
  unresolved_pending_after_executions, pending_by_instrument, min_known, repair_window_start_ms,
}

-- Of the context, what the functions below read and change.
pub record Live (D : Type 0) : Type 0 where
  pub state : EngineState D
  pub pending : List PendingUnknownCommand
  pub bus : List CommandLaneEvent

-- The venue: its clock, the instruments that its adapter resolves, and its answers to the signed
-- requests, as its adapter parses them. Binance answers the account with the positions. Of the other
-- tasks, the commands that they cache while a pass awaits the answers about the pending commands.
pub record VenueRest (D : Type 0) : Type 0 where
  pub venue : Venue
  pub product : Product
  pub now : TimestampMs
  pub resolve_instrument : InstrumentId → Option (InstrumentSpec D)
  pub account : Result (AccountSnapshot D × Option (List (Position D)))
  pub positions : Result (Option (AccountSnapshot D) × List (Position D))
  pub open_orders : Result (List (Order D))
  pub order : InstrumentSpec D → GetOrderRequest → Result (Order D)
  pub order_history : InstrumentSpec D → Option (ℤ × ℤ) → Result (List (Order D))
  pub executions : InstrumentSpec D → Option (ℤ × ℤ) → Result (List (Execution D))
  pub cached_meanwhile : List PendingUnknownCommand

-- A call on the context: its result, and the context after it.
abbrev pub Call : Type 0 → Type 0 → Type 0
Call D A = Result A × Live D

abbrev pub write : {D : Type 0} → (EngineState D → EngineState D) → Live D → Live D
write f c = record c { state = f c.state }

-- `call.await?` and what follows it.
infixl 5 ◌>>+◌
abbrev pub ◌>>+◌ : {D A B : Type 0} → Call D A → (A → Live D → Call D B) → Call D B
(err e, c) >>+ next = (err e, c)
(ok a, c) >>+ next = next a c

abbrev pub replace_positions_if :
    {D : Type 0} → Option (List (Position D)) → EngineState D → EngineState D
replace_positions_if none s = s
replace_positions_if (some ps) s = replace_positions ps s

-- `if !orders.is_empty() { state.merge_order_history(…) }`, and the same of fills.
abbrev pub merge_orders_if : {D : Type 0} → List (Order D) → EngineState D → EngineState D
merge_orders_if [] s = s
merge_orders_if (o ∷ os) s = merge_order_history (o ∷ os) s

abbrev pub merge_executions_if : {D : Type 0} → List (Execution D) → EngineState D → EngineState D
merge_executions_if [] s = s
merge_executions_if (e ∷ es) s = merge_executions (e ∷ es) s

module _ {D : Type 0} (v : VenueRest D) where
  -- `fetch_balance`, of which `refresh_account` hands out the summary.
  unfoldable pub refresh_account : Live D → Call D Unit
  refresh_account c = elim v.account [
    | err e ↦ (err e, c)
    | ok (account, ps) ↦ (
      ok tt,
      write
          (λ s.
            mark_rest_success none (replace_positions_if ps (replace_account_snapshot account s)))
          c,
    )
  ]

  unfoldable pub refresh_positions : Live D → Call D Unit
  refresh_positions c = elim v.positions [
    | err e ↦ (err e, c)
    | ok (account, ps) ↦ (
      ok tt,
      write (λ s. mark_rest_success none (replace_positions ps (replace_account_if account s))) c,
    )
  ]

  unfoldable pub refresh_open_orders : Live D → Call D Unit
  refresh_open_orders c = elim v.open_orders [
    | err e ↦ (err e, c)
    | ok os ↦ (ok tt, write (λ s. mark_rest_success none (replace_open_orders os s)) c)
  ]
