-- ===== src/Facade/Reconcile/Asks.antt =====
-- crates/bat-markets/src/runtime.rs: the requests that look for the orders and the fills of pending
-- commands, and what each leaves unresolved.
use bat_markets.Prelude.{
  Bool, true, false, ◌||◌, Option, none, some, List, [], ◌∷◌, ◌++◌, map, if◌then◌else◌, is_some,
}
use bat_markets.Prelude.Int.{ℤ}
use bat_markets.Ord.{str_ord}
use bat_markets.OrdMap.{OrdMap}
use bat_markets.Core.Types.{InstrumentId}
use bat_markets.Core.Failure.{ErrorKind, Result, ok, err}
use bat_markets.Core.Instrument.{InstrumentSpec}
use bat_markets.Core.Trade.{Order, Execution, GetOrderRequest}
use bat_markets.Core.Execution.{PrivateLaneEvent}
use bat_markets.Core.Engine.Private.{apply_private_event, mark_rest_success}
use bat_markets.Core.Engine.Read.{orders, latest_order_update_at, latest_execution_at}
use bat_markets.Facade.Validation.{require_spec}
use bat_markets.Facade.Pending.{
  PendingUnknownCommand, unresolved_pending_after_state, unresolved_pending_after_orders,
  unresolved_pending_after_executions, min_known, repair_window_start_ms,
}
use bat_markets.Facade.Reconcile.{
  Live, VenueRest, Call, write, merge_orders_if, merge_executions_if,
}

-- `is_missing_order_error`.
abbrev pub is_missing_order : ErrorKind → Bool
is_missing_order ErrorKind.exchange_reject = true
is_missing_order ErrorKind.unsupported = true
is_missing_order _ = false

abbrev pub request_of : PendingUnknownCommand → GetOrderRequest
request_of command = record {
  request_id = none;
  instrument_id = command.instrument_id;
  order_id = command.order_id;
  client_order_id = command.client_order_id;
}

-- `if !resolved { unresolved.push(command) }` for the rest of the loop.
abbrev pub also_unresolved :
    {D : Type 0}
    → PendingUnknownCommand
    → Call D (List PendingUnknownCommand)
    → Call D (List PendingUnknownCommand)
also_unresolved command (err e, c) = (err e, c)
also_unresolved command (ok left, c) = (ok (command ∷ left), c)

abbrev pub then_left :
    {D : Type 0}
    → List PendingUnknownCommand
    → Call D (List PendingUnknownCommand)
    → Call D (List PendingUnknownCommand)
then_left left (err e, c) = (err e, c)
then_left left (ok rest, c) = (ok (left ++ rest), c)

module _ {D : Type 0} where
  unfoldable pub resolve_pending_from_local_state :
      List PendingUnknownCommand → Live D → List PendingUnknownCommand
  unfolding orders unresolved_pending_after_state
  resolve_pending_from_local_state pending c =
      unresolved_pending_after_state pending (orders c.state) c.state.executions

module _ {D : Type 0} (v : VenueRest D) where
  abbrev pub spec_for : InstrumentId → Result (InstrumentSpec D)
  spec_for id = require_spec v.venue v.product v.resolve_instrument id

  -- The answer to `get_order`, its instrument resolved first.
  abbrev pub order_answer : GetOrderRequest → Result (Order D)
  order_answer request = elim (spec_for request.instrument_id) [
    | err e ↦ err e
    | ok spec ↦ v.order spec request
  ]

  unfoldable pub get_order : GetOrderRequest → Live D → Call D (Order D)
  unfolding require_spec
  get_order request c = elim (order_answer request) [
    | err e ↦ (err e, c)
    | ok o ↦ (
      ok o,
      write (λ s. mark_rest_success none (apply_private_event (PrivateLaneEvent.order o) s)) c,
    )
  ]

  unfoldable pub repair_time_window :
      InstrumentId → List PendingUnknownCommand → Live D → Option (ℤ × ℤ)
  unfolding min_known repair_window_start_ms latest_order_update_at latest_execution_at
  repair_time_window id commands c =
      elim (repair_window_start_ms v.now (latest_order_update_at c.state id)
        (latest_execution_at c.state id) c.state.health.last_private_msg_at
        (min_known (map (λ command. some command.recorded_at) commands))) [
          | none ↦ none
          | some start ↦ some (start, v.now)
        ]

  unfoldable pub refresh_recent_order_history :
      InstrumentId → List PendingUnknownCommand → Live D → Result (List (Order D))
  unfolding repair_time_window require_spec
  refresh_recent_order_history id commands c = elim (spec_for id) [
    | err e ↦ err e
    | ok spec ↦ v.order_history spec (repair_time_window id commands c)
  ]

  unfoldable pub refresh_recent_execution_history :
      InstrumentId → List PendingUnknownCommand → Live D → Result (List (Execution D))
  unfolding repair_time_window require_spec
  refresh_recent_execution_history id commands c = elim (spec_for id) [
    | err e ↦ err e
    | ok spec ↦ v.executions spec (repair_time_window id commands c)
  ]

  -- One command of the loop over the pending ones: whether it is resolved.
  unfoldable pub ask_for : PendingUnknownCommand → Live D → Call D Bool
  unfolding get_order
  ask_for command c =
      if is_some command.order_id || is_some command.client_order_id
      then (let (answer, after) = get_order (request_of command) c in
          elim answer [
            | ok o ↦ (ok true, after)
            | err e ↦ (if is_missing_order e.kind then (ok false, after) else (err e, after))
          ])
      else (ok false, c)

  unfoldable pub ask_for_orders :
      List PendingUnknownCommand → Live D → Call D (List PendingUnknownCommand)
  unfolding ask_for
  ask_for_orders [] c = (ok [], c)
  ask_for_orders (command ∷ commands) c =
      let (answer, after) = ask_for command c in
      let rest = ask_for_orders commands after in
      elim answer [
        | err e ↦ (err e, after)
        | ok resolved ↦ (if resolved then rest else also_unresolved command rest)
      ]

  -- The loops over the groups of an instrument each, of the order and of the execution history.
  unfoldable pub order_history_loop :
      OrdMap InstrumentId (List PendingUnknownCommand)
      → Live D
      → Call D (List PendingUnknownCommand)
  unfolding refresh_recent_order_history
  order_history_loop [] c = (ok [], c)
  order_history_loop ((id, commands) ∷ groups) c =
      elim (refresh_recent_order_history id commands c) [
        | err e ↦ (err e, c)
        | ok os ↦ then_left (unresolved_pending_after_orders commands os) (
            order_history_loop groups
              (write (λ s. mark_rest_success none (merge_orders_if os s)) c))
      ]

  unfoldable pub execution_history_loop :
      OrdMap InstrumentId (List PendingUnknownCommand)
      → Live D
      → Call D (List PendingUnknownCommand)
  unfolding refresh_recent_execution_history
  execution_history_loop [] c = (ok [], c)
  execution_history_loop ((id, commands) ∷ groups) c =
      elim (refresh_recent_execution_history id commands c) [
        | err e ↦ (err e, c)
        | ok es ↦ then_left (unresolved_pending_after_executions commands es) (
            execution_history_loop groups
              (write (λ s. mark_rest_success none (merge_executions_if es s)) c))
      ]
