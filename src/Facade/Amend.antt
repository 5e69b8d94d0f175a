-- ===== src/Facade/Amend.antt =====
-- crates/bat-markets/src/runtime.rs: `amend_order` on Binance, from the checks to the receipt.
pub mod Kept
use bat_markets.Prelude.{
  Bool, true, false, not, ◌&&◌, is_some, Option, none, some, List, [], ◌∷◌, if◌then◌else◌,
  or_option, unwrap_or,
}
use bat_markets.Prelude.Text.{Str, str}
use bat_markets.Ord.{◌===◌, str_ord}
use bat_markets.Core.Types.{OrderType, TimestampMs}
use bat_markets.Core.Failure.{
  MarketError, Result, ok, err, ◌>>=◌, market_error, config_error, unsupported,
}
use bat_markets.Core.Instrument.{InstrumentSpec}
use bat_markets.Core.Trade.{AmendOrderRequest, GetOrderRequest, Order}
use bat_markets.Core.Command.{CommandAck, CommandOperation}
use bat_markets.Core.Engine.Read.{orders}
use bat_markets.Binance.{Serde}
use bat_markets.Facade.Pending.{PendingUnknownCommand, names_order, names_client}
use bat_markets.Facade.Validation.{require_spec}
use bat_markets.Facade.Reconcile.{Live, VenueRest, Call, ◌>>+◌}
use bat_markets.Facade.Reconcile.Asks.{get_order}
use bat_markets.Facade.Place.{
  Amendment, Endpoints, Sent, is_websocket_only, over_rest, over_ws, unsupported_ws_command,
  hydrate_amend_receipt, settle_receipt,
}
use bat_markets.Facade.Batch.{append_order_identity, validate_amend_order}

abbrev pub is_limit : OrderType → Bool
is_limit OrderType.limit = true
is_limit _ = false

-- The command that is kept of a request to amend an order.
abbrev pub amended : {D : Type 0} → AmendOrderRequest D → TimestampMs → PendingUnknownCommand
amended request now = record {
  operation = CommandOperation.amend_order;
  instrument_id = request.instrument_id;
  order_id = request.order_id;
  client_order_id = request.client_order_id;
  recorded_at = now;
}

-- The test of `resolve_order_for_amend` on a cached order.
abbrev pub is_asked_for : {D : Type 0} → AmendOrderRequest D → Order D → Bool
is_asked_for request order =
    (order.instrument_id === request.instrument_id)
    && (if is_some request.order_id
        then names_order request.order_id order.order_id
        else names_client request.client_order_id order.client_order_id)

-- `Iterator::find`
abbrev pub find_order : {D : Type 0} → (Order D → Bool) → List (Order D) → Option (Order D)
find_order p [] = none
find_order p (o ∷ os) = let rest = find_order p os in if p o then some o else rest

module _ {D P V : Type 0} (v : VenueRest D) (serde : Serde P V)
    (resolve_native_symbol : Str → Option (InstrumentSpec D)) (endpoints : Endpoints D P) where
  unfoldable pub resolve_order_for_amend : AmendOrderRequest D → Live D → Call D (Order D)
  unfolding orders get_order
  resolve_order_for_amend request c = elim (find_order (is_asked_for request) (orders c.state)) [
    | some order ↦ (ok order, c)
    | none ↦
        get_order v
          (record {
            request_id = request.request_id;
            instrument_id = request.instrument_id;
            order_id = request.order_id;
            client_order_id = request.client_order_id;
          })
          c
  ]

  -- Once the amendment is there.
  unfoldable pub send_amendment : AmendOrderRequest D → Amendment D → Result Sent
  unfolding over_ws over_rest unsupported_ws_command
  send_amendment request amendment =
      if endpoints.ws_order_entry
      then over_ws serde resolve_native_symbol CommandOperation.amend_order request.request_id
          endpoints.mode (endpoints.modify_ws amendment) (endpoints.modify amendment)
      else if is_websocket_only endpoints.mode
      then err (unsupported_ws_command v (str "edit_order_ws"))
      else over_rest serde resolve_native_symbol CommandOperation.amend_order request.request_id
          (endpoints.modify amendment)

  unfoldable pub send_amend : InstrumentSpec D → Order D → AmendOrderRequest D → Result Sent
  unfolding append_order_identity send_amendment
  send_amend spec current request =
      if not (is_limit current.order_type)
      then err (market_error unsupported (str "binance amend currently supports only LIMIT orders"))
      else if is_some request.trigger_price
      then err (
          market_error unsupported
            (str "binance amend does not support modifying trigger_price on linear futures"))
      else elim (or_option request.price current.price) [
        | none ↦ err (
            market_error config_error
              (str "binance amend requires a limit price or a cached order price"))
        | some price ↦ append_order_identity request.order_id request.client_order_id >>= λ named.
            send_amendment request (record {
              native_symbol = spec.native_symbol;
              side = current.side;
              quantity = unwrap_or request.quantity current.quantity;
              price = price;
              order_id = request.order_id;
              client_order_id = request.client_order_id;
              order_type = current.order_type;
            })
      ]

  unfoldable pub settle_amended :
      AmendOrderRequest D → TimestampMs → Sent → Live D → Call D CommandAck
  unfolding hydrate_amend_receipt settle_receipt
  settle_amended request now (receipt, transport) c =
      settle_receipt (amended request now) (hydrate_amend_receipt receipt request) transport now c

  -- The checks, and the specification.
  unfoldable pub check_amend : AmendOrderRequest D → Result (InstrumentSpec D)
  unfolding validate_amend_order require_spec
  check_amend request =
      validate_amend_order v.venue v.product v.resolve_instrument request >>= λ checked.
      require_spec v.venue v.product v.resolve_instrument request.instrument_id

  -- `amend_order`; the wait of its rate limiter and the note of its latency are left out.
  unfoldable pub amend_order : AmendOrderRequest D → TimestampMs → Live D → Call D CommandAck
  unfolding check_amend resolve_order_for_amend send_amend settle_amended
  amend_order request now c = (check_amend request, c) >>+ λ spec checked.
      resolve_order_for_amend request checked >>+ λ current resolved.
      (send_amend spec current request, resolved) >>+ λ sent placed.
      settle_amended request now sent placed
