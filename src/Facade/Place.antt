-- ===== src/Facade/Place.antt =====
-- crates/bat-markets/src/runtime.rs: `create_order` on Binance, from the checks to the receipt. What
-- the endpoints answer to a request is a parameter.
pub mod Kept
pub mod Lost
use bat_markets.Prelude.{
  ℕ, Bool, true, false, not, ◌&&◌, ◌++◌, Option, none, some, if◌then◌else◌, or_option,
}
use bat_markets.Prelude.Text.{Str, str}
use bat_markets.Core.Types.{
  InstrumentId, Side, ClientOrderId, OrderId, OrderType, RequestId, TimestampMs,
}
use bat_markets.Core.Failure.{
  ErrorKind, MarketError, Result, ok, err, ◌>>=◌, market_error, with_venue, config_error,
  unsupported,
}
use bat_markets.Core.Numeric.{DecimalOps}
use bat_markets.Core.Instrument.{InstrumentSpec}
use bat_markets.Core.Trade.{CreateOrderRequest, CancelOrderRequest, AmendOrderRequest}
use bat_markets.Core.Command.{CommandAck, CommandOperation, CommandReceipt, CommandTransport}
use bat_markets.Binance.{Serde, classify_command}
use bat_markets.Facade.Entry.{is_unknown}
use bat_markets.Facade.Pending.{PendingUnknownCommand, cache_pending_unknown}
use bat_markets.Facade.Validation.{Checked, config, validate_create_order, require_spec}
use bat_markets.Facade.Reconcile.{Live, VenueRest, Call}
use bat_markets.Facade.Reconcile.Pass.{apply_command_receipt, with_pending}

pub data CommandTransportMode : Type 0 where
  auto web_socket_only : CommandTransportMode

abbrev pub is_websocket_only : CommandTransportMode → Bool
is_websocket_only CommandTransportMode.auto = false
is_websocket_only CommandTransportMode.web_socket_only = true

-- transport.rs: the request was never sent, or it is unknown whether it was carried out.
pub data CommandWsRequestError : Type 0 where
  unavailable uncertain : MarketError → CommandWsRequestError

pub data WsAnswer (P : Type 0) : Type 0 where
  answered : P → WsAnswer P
  unanswered : CommandWsRequestError → WsAnswer P

-- `is_uncertain_command_error`
unfoldable pub is_uncertain_command_error : MarketError → Bool
is_uncertain_command_error e = is_uncertain e.kind
  where
    is_uncertain : ErrorKind → Bool
    is_uncertain ErrorKind.transport_error = true
    is_uncertain ErrorKind.timeout = true
    is_uncertain ErrorKind.temporary_unavailable = true
    is_uncertain _ = false

abbrev pub uses_algo_endpoint : OrderType → Bool
uses_algo_endpoint OrderType.market = false
uses_algo_endpoint OrderType.limit = false
uses_algo_endpoint _ = true

unfoldable pub binance_create_uses_algo_order_endpoint : {D : Type 0} → CreateOrderRequest D → Bool
binance_create_uses_algo_order_endpoint request = uses_algo_endpoint request.order_type

unfoldable pub binance_create_prefers_ws : {D : Type 0} → CreateOrderRequest D → Bool
unfolding binance_create_uses_algo_order_endpoint
binance_create_prefers_ws request = not (binance_create_uses_algo_order_endpoint request)

unfoldable pub hydrate_create_receipt :
    {D : Type 0} → CommandReceipt → CreateOrderRequest D → CommandReceipt
hydrate_create_receipt receipt request = record receipt {
  instrument_id = or_option receipt.instrument_id (some request.instrument_id);
  client_order_id = or_option receipt.client_order_id request.client_order_id;
}

unfoldable pub hydrate_cancel_receipt : CommandReceipt → CancelOrderRequest → CommandReceipt
hydrate_cancel_receipt receipt request = record receipt {
  instrument_id = or_option receipt.instrument_id (some request.instrument_id);
  order_id = or_option receipt.order_id request.order_id;
  client_order_id = or_option receipt.client_order_id request.client_order_id;
}

unfoldable pub hydrate_amend_receipt :
    {D : Type 0} → CommandReceipt → AmendOrderRequest D → CommandReceipt
hydrate_amend_receipt receipt request = record receipt {
  instrument_id = or_option receipt.instrument_id (some request.instrument_id);
  order_id = or_option receipt.order_id request.order_id;
  client_order_id = or_option receipt.client_order_id request.client_order_id;
}

-- What `order.modify` is asked for.
pub record Amendment (D : Type 0) : Type 0 where
  pub native_symbol : Str
  pub side : Side
  pub quantity : D
  pub price : D
  pub order_id : Option OrderId
  pub client_order_id : Option ClientOrderId
  pub order_type : OrderType

-- The connection to the venue: its transport mode, whether it takes orders on the websocket, and
-- what `order.place`, `/fapi/v1/order` and `/fapi/v1/algoOrder` answer to a request to create an
-- order, and `order.modify` and `/fapi/v1/order` to one to amend it.
pub record Endpoints (D P : Type 0) : Type 0 where
  pub mode : CommandTransportMode
  pub ws_order_entry : Bool
  pub place_ws : CreateOrderRequest D → WsAnswer P
  pub place : CreateOrderRequest D → Result P
  pub place_algo : CreateOrderRequest D → Result P
  pub modify_ws : Amendment D → WsAnswer P
  pub modify : Amendment D → Result P

abbrev pub Sent : Type 0
Sent = CommandReceipt × CommandTransport

-- The command that is kept of a request to create an order.
abbrev pub created : {D : Type 0} → CreateOrderRequest D → TimestampMs → PendingUnknownCommand
created request now = record {
  operation = CommandOperation.create_order;
  instrument_id = request.instrument_id;
  order_id = none;
  client_order_id = request.client_order_id;
  recorded_at = now;
}

-- How a command ends once its receipt is there: the command is kept if the receipt is of unknown
-- outcome. The clock is read once, for the time of the command and of its acknowledgement.
unfoldable pub settle_receipt :
    {D : Type 0}
    → PendingUnknownCommand
    → CommandReceipt
    → CommandTransport
    → TimestampMs
    → Live D
    → Call D CommandAck
unfolding cache_pending_unknown apply_command_receipt
settle_receipt command receipt transport now c =
    let cached =
      if is_unknown receipt.status
      then with_pending (cache_pending_unknown command c.pending) c
      else c in
    let (ack, after) = apply_command_receipt receipt transport now cached in (ok ack, after)

module _ {D P V : Type 0} (serde : Serde P V)
    (resolve_native_symbol : Str → Option (InstrumentSpec D)) (operation : CommandOperation)
    (request_id : Option RequestId) where
  -- `(adapter.classify_command(operation, …)?, transport)`
  abbrev pub classified : CommandTransport → Option P → Result Sent
  classified transport payload =
      classify_command serde resolve_native_symbol operation payload request_id >>= λ receipt.
      ok (receipt, transport)

  -- The `match` on the answer to a signed request.
  unfoldable pub over_rest : Result P → Result Sent
  unfolding classify_command is_uncertain_command_error
  over_rest (ok payload) = classified CommandTransport.rest (some payload)
  over_rest (err e) =
      if is_uncertain_command_error e then classified CommandTransport.rest none else err e

  -- The `match` on the answer of the websocket, with its way back to the signed request, whose
  -- answer is the last argument.
  unfoldable pub over_ws : CommandTransportMode → WsAnswer P → Result P → Result Sent
  unfolding over_rest classify_command
  over_ws mode (answered payload) signed = classified CommandTransport.web_socket (some payload)
  over_ws mode (unanswered (CommandWsRequestError.uncertain e)) signed =
      classified CommandTransport.web_socket none
  over_ws mode (unanswered (CommandWsRequestError.unavailable e)) signed =
      if is_websocket_only mode then err e else over_rest signed

module _ {D : Type 0} (v : VenueRest D) where
  -- `unsupported_ws_command`
  unfoldable pub unsupported_ws_command : Str → MarketError
  unsupported_ws_command operation =
      with_venue
        (market_error unsupported
          (operation ++ str " requires websocket command transport for this venue/path"))
        v.venue v.product

module _ {D P V : Type 0} (dec : DecimalOps D) (v : VenueRest D) (serde : Serde P V)
    (resolve_native_symbol : Str → Option (InstrumentSpec D)) (show_index : ℕ → Str)
    (endpoints : Endpoints D P) where
  abbrev pub signed : CreateOrderRequest D → Result P → Result Sent
  signed request answer =
      over_rest serde resolve_native_symbol CommandOperation.create_order request.request_id answer

  -- The branch of Binance.
  unfoldable pub send_binance : CreateOrderRequest D → Result Sent
  unfolding over_ws over_rest binance_create_uses_algo_order_endpoint binance_create_prefers_ws
      unsupported_ws_command
  send_binance request =
      if binance_create_uses_algo_order_endpoint request
      then (if is_websocket_only endpoints.mode
          then err (unsupported_ws_command v (str "create_order_ws"))
          else signed request (endpoints.place_algo request))
      else if endpoints.ws_order_entry && binance_create_prefers_ws request
      then over_ws serde resolve_native_symbol CommandOperation.create_order request.request_id
          endpoints.mode (endpoints.place_ws request) (endpoints.place request)
      else if is_websocket_only endpoints.mode
      then err (unsupported_ws_command v (str "create_order_ws"))
      else signed request (endpoints.place request)

  -- From the receipt on.
  unfoldable pub settle_created :
      CreateOrderRequest D → TimestampMs → Sent → Live D → Call D CommandAck
  unfolding hydrate_create_receipt settle_receipt
  settle_created request now (receipt, transport) c =
      settle_receipt (created request now) (hydrate_create_receipt receipt request) transport now c

  -- `create_order` up to the receipt; the wait of its rate limiter is left out.
  unfoldable pub send_created : CreateOrderRequest D → Result Sent
  unfolding validate_create_order require_spec send_binance
  send_created request =
      validate_create_order dec v.venue v.product v.resolve_instrument show_index request
      >>= (λ checked. require_spec v.venue v.product v.resolve_instrument request.instrument_id)
      >>= (λ spec. send_binance request)

  abbrev pub settle_if_sent :
      CreateOrderRequest D → TimestampMs → Live D → Result Sent → Call D CommandAck
  settle_if_sent request now c (err e) = (err e, c)
  settle_if_sent request now c (ok sent) = settle_created request now sent c

  -- `create_order`; the note of its latency is left out.
  unfoldable pub create_order : CreateOrderRequest D → TimestampMs → Live D → Call D CommandAck
  unfolding send_created settle_created
  create_order request now c = settle_if_sent request now c (send_created request)
