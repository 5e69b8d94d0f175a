-- ===== src/Binance.antt =====
-- crates/bat-markets-binance/src/lib.rs: how the adapter classifies the answer to a command.
use bat_markets.Prelude.{Bool, true, false, Option, none, some, ◌++◌}
use bat_markets.Prelude.Int.{ℤ}
use bat_markets.Prelude.Text.{Str, str}
use bat_markets.Core.Types.{Venue, Product, InstrumentId, OrderId, ClientOrderId, RequestId}
use bat_markets.Core.Failure.{
  MarketError, Result, ok, err, ◌>>=◌, market_error, with_venue, with_operation, ok_or,
  decode_error, unsupported,
}
use bat_markets.Core.Instrument.{InstrumentSpec}
use bat_markets.Core.Command.{CommandOperation, CommandReceipt, CommandStatus}

-- Of the payloads of native.rs, the fields that are read here.
pub record ErrorResponse : Type 0 where
  pub code : ℤ
  pub message : Str

pub record OrderResponse : Type 0 where
  pub symbol : Str
  pub order_id : ℤ
  pub client_order_id : Str

pub record AlgoOrderSnapshot : Type 0 where
  pub symbol : Str
  pub algo_id : ℤ
  pub client_algo_id : Str

pub record CancelAlgoOrderResponse : Type 0 where
  pub algo_id : ℤ
  pub client_algo_id : Str

pub record SetLeverageResponse : Type 0 where
  pub symbol : Str
  pub leverage : ℤ

pub record SuccessResponse : Type 0 where
  pub code : Option ℤ
  pub message : Str

pub data BinanceAcceptedCommand : Type 0 where
  order : OrderResponse → BinanceAcceptedCommand
  algo_order : AlgoOrderSnapshot → BinanceAcceptedCommand
  cancel_algo : CancelAlgoOrderResponse → BinanceAcceptedCommand

-- What serde_json makes of a text: a value, or an error with its text.
pub data Decoded (A : Type 0) : Type 0 where
  decoded : A → Decoded A
  undecoded : Str → Decoded A

-- The calls of serde_json: a payload as a tree, a field of a tree, and both read as a type. The
-- calls on text also stand for the `Display` of an `i64`.
pub record Serde (P V : Type 0) : Type 0 where
  pub value : P → Option V
  pub field : V → Str → Option V
  pub error_value : V → Decoded ErrorResponse
  pub error : P → Decoded ErrorResponse
  pub order_value : V → Decoded OrderResponse
  pub order : P → Decoded OrderResponse
  pub algo_order : P → Decoded AlgoOrderSnapshot
  pub cancel_algo : P → Decoded CancelAlgoOrderResponse
  pub leverage : P → Decoded SetLeverageResponse
  pub success : P → Decoded SuccessResponse
  pub show_int : ℤ → Str

-- `Result::map_err` with `MarketError::new(…, format!(…))`.
abbrev pub decoded_or : {A : Type 0} → (Str → MarketError) → Decoded A → Result A
decoded_or refusal (decoded a) = ok a
decoded_or refusal (undecoded text) = err (refusal text)

abbrev decode_text : Str → Str → MarketError
decode_text what text = market_error decode_error (what ++ text)

unfoldable pub binance_receipt :
    CommandOperation
    → CommandStatus
    → Option InstrumentId
    → Option OrderId
    → Option ClientOrderId
    → Option RequestId
    → Str
    → Option Str
    → Bool
    → CommandReceipt
binance_receipt operation status instrument order_id client request text native retriable = record {
  operation = operation;
  status = status;
  venue = Venue.binance;
  product = Product.linear_usdt;
  instrument_id = instrument;
  order_id = order_id;
  client_order_id = client;
  request_id = request;
  message = some text;
  native_code = native;
  retriable = retriable;
}

module _ {P V : Type 0} (serde : Serde P V) where
  unfoldable pub binance_algo_order_id : ℤ → OrderId
  binance_algo_order_id algo_id = str "binance-algo:" ++ serde.show_int algo_id

  -- `value.get(…)` of the payload as a tree.
  abbrev pub field_of : P → Str → Option V
  field_of payload name = elim (serde.value payload) [
    | none ↦ none
    | some value ↦ serde.field value name
  ]

  unfoldable pub parse_binance_order_response : P → Decoded OrderResponse
  parse_binance_order_response payload = elim (field_of payload (str "result")) [
    | none ↦ serde.order payload
    | some result ↦ serde.order_value result
  ]

  unfoldable pub parse_binance_command_identity : P → Decoded BinanceAcceptedCommand
  unfolding parse_binance_order_response
  parse_binance_command_identity payload = elim (parse_binance_order_response payload) [
    | decoded response ↦ decoded (BinanceAcceptedCommand.order response)
    | undecoded text ↦ elim (serde.algo_order payload) [
      | decoded response ↦ decoded (BinanceAcceptedCommand.algo_order response)
      | undecoded text ↦ elim (serde.cancel_algo payload) [
        | decoded response ↦ decoded (BinanceAcceptedCommand.cancel_algo response)
        | undecoded text ↦ undecoded text
      ]
    ]
  ]

  -- The error of the payload: under `error`, or else the payload itself.
  unfoldable pub error_of_field : Option V → Option ErrorResponse
  error_of_field none = none
  error_of_field (some value) = elim (serde.error_value value) [
    | decoded error ↦ some error
    | undecoded text ↦ none
  ]

  unfoldable pub error_of : P → Option ErrorResponse
  unfolding error_of_field
  error_of payload = elim (error_of_field (field_of payload (str "error"))) [
    | some error ↦ some error
    | none ↦ elim (serde.error payload) [ decoded error ↦ some error | undecoded text ↦ none ]
  ]

module _ {D P V : Type 0} (serde : Serde P V)
    (resolve_native_symbol : Str → Option (InstrumentSpec D)) where
  unfoldable pub require_native_symbol : Str → Result (InstrumentSpec D)
  require_native_symbol symbol = ok_or (resolve_native_symbol symbol) (
      with_venue
        (market_error unsupported (str "unsupported binance symbol '" ++ symbol ++ str "'"))
        Venue.binance Product.linear_usdt)

  abbrev pub symbol_id : Option Str → Result (Option InstrumentId)
  symbol_id none = ok none
  symbol_id (some symbol) = require_native_symbol symbol >>= λ spec. ok (some spec.instrument_id)

  -- The symbol, the order id and the client order id of an accepted command.
  unfoldable pub identity_of :
      BinanceAcceptedCommand → Option Str × (Option OrderId × Option ClientOrderId)
  unfolding binance_algo_order_id
  identity_of (BinanceAcceptedCommand.order r) =
      (some r.symbol, (some (serde.show_int r.order_id), some r.client_order_id))
  identity_of (BinanceAcceptedCommand.algo_order r) =
      (some r.symbol, (some (binance_algo_order_id serde r.algo_id), some r.client_algo_id))
  identity_of (BinanceAcceptedCommand.cancel_algo r) =
      (none, (some (binance_algo_order_id serde r.algo_id), some r.client_algo_id))

  unfoldable pub classify_order : CommandOperation → P → Option RequestId → Result CommandReceipt
  unfolding require_native_symbol identity_of parse_binance_command_identity binance_receipt
  classify_order operation payload request_id =
      decoded_or
        (λ text.
          with_operation
            (with_venue (decode_text (str "failed to classify binance order response: ") text)
              Venue.binance Product.linear_usdt)
            (str "binance.classify_command"))
        (parse_binance_command_identity serde payload)
      >>= λ response.
          let (symbol, (order_id, client_order_id)) = identity_of response in
          symbol_id symbol >>= λ instrument_id. ok (
            binance_receipt operation CommandStatus.accepted instrument_id order_id client_order_id
              request_id (str "accepted") none false)

  -- The `match` on the operation, for a payload that is no error.
  unfoldable pub classify_accepted : CommandOperation → P → Option RequestId → Result CommandReceipt
  unfolding classify_order binance_receipt
  classify_accepted CommandOperation.create_order payload request_id =
      classify_order CommandOperation.create_order payload request_id
  classify_accepted CommandOperation.amend_order payload request_id =
      classify_order CommandOperation.amend_order payload request_id
  classify_accepted CommandOperation.cancel_order payload request_id =
      classify_order CommandOperation.cancel_order payload request_id
  classify_accepted CommandOperation.close_position payload request_id =
      classify_order CommandOperation.close_position payload request_id
  classify_accepted CommandOperation.get_order payload request_id =
      classify_order CommandOperation.get_order payload request_id
  classify_accepted CommandOperation.set_leverage payload request_id =
      decoded_or (decode_text (str "failed to classify binance leverage response: "))
        (serde.leverage payload)
      >>= λ response. require_native_symbol response.symbol >>= λ spec. ok (
          binance_receipt CommandOperation.set_leverage CommandStatus.accepted
            (some spec.instrument_id) none none request_id
            (str "leverage set to " ++ serde.show_int response.leverage) none false)
  classify_accepted CommandOperation.set_margin_mode payload request_id =
      decoded_or (decode_text (str "failed to classify binance margin-mode response: "))
        (serde.success payload)
      >>= λ response. ok (
          binance_receipt CommandOperation.set_margin_mode CommandStatus.accepted none none none
            request_id response.message (shown response.code) false)
    where
      shown : Option ℤ → Option Str
      shown none = none
      shown (some code) = some (serde.show_int code)
  classify_accepted operation payload request_id = ok (
      binance_receipt operation CommandStatus.accepted none none none request_id (str "accepted")
        none false)

  unfoldable pub classify_command :
      CommandOperation → Option P → Option RequestId → Result CommandReceipt
  unfolding classify_accepted error_of binance_receipt
  classify_command operation none request_id = ok (
      binance_receipt operation CommandStatus.unknown_execution none none none request_id
        (str "command outcome requires reconcile") none true)
  classify_command operation (some payload) request_id = elim (error_of serde payload) [
    | some error ↦ ok (
        binance_receipt operation CommandStatus.rejected none none none request_id error.message
          (some (serde.show_int error.code)) false)
    | none ↦ classify_accepted operation payload request_id
  ]
