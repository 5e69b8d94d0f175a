-- ===== src/Facade/Validation.antt =====
-- crates/bat-markets/src/runtime.rs: the checks of a command before it is sent. The specification
-- that the adapter resolves is an argument.
pub mod Checks
use bat_markets.Prelude.{
  ℕ, suc, Bool, true, false, not, ◌&&◌, ◌||◌, is_some, is_none, Option, none, some, List, [], ◌∷◌,
  ◌++◌, length, if◌then◌else◌, ltb,
}
use bat_markets.Prelude.Text.{Str, str}
use bat_markets.Ord.{str_ord}
use bat_markets.OrdMap.{OrdMap, get, insert}
use bat_markets.Core.Types.{InstrumentId, ClientOrderId, OrderType, Product, Venue}
use bat_markets.Core.Failure.{
  MarketError, Result, ok, err, ◌>>=◌, market_error, with_venue, ok_or, config_error, unsupported,
}
use bat_markets.Core.Numeric.{DecimalOps}
use bat_markets.Core.Instrument.{InstrumentSpec}
use bat_markets.Core.Trade.{
  CreateOrderRequest, CreateOrdersRequest, CancelOrdersRequest, OrderTarget,
}

abbrev pub Checked : Type 0
Checked = Result (Unit {0})

abbrev pub config : Str → Checked
config text = err (market_error config_error text)

-- `if test { return Err(…) }`
abbrev pub refuse_if : Bool → Str → Checked → Checked
refuse_if test text rest = if test then config text else rest

module _ {D : Type 0} (dec : DecimalOps D) where
  -- The `match` on the order type.
  unfoldable pub validate_order_type : CreateOrderRequest D → OrderType → Checked
  validate_order_type r OrderType.market =
      refuse_if (is_some r.price) (str "market orders must not include a limit price") (ok tt)
  validate_order_type r OrderType.limit =
      refuse_if (is_none r.price) (str "limit orders require price") (ok tt)
  validate_order_type r OrderType.stop_market =
      refuse_if (is_none r.trigger_price) (str "stop_market orders require trigger_price") (
        refuse_if (is_some r.price) (str "stop_market orders must not include a limit price")
          (ok tt))
  validate_order_type r OrderType.stop_limit =
      refuse_if (is_none r.price || is_none r.trigger_price)
        (str "stop_limit orders require both price and trigger_price") (ok tt)
  validate_order_type r OrderType.take_profit_market =
      refuse_if (is_none r.trigger_price) (str "take_profit_market orders require trigger_price") (
        refuse_if (is_some r.price) (str "take_profit_market orders must not include a limit price")
          (ok tt))
  validate_order_type r OrderType.take_profit_limit =
      refuse_if (is_none r.price || is_none r.trigger_price)
        (str "take_profit_limit orders require both price and trigger_price") (ok tt)

  abbrev pub notional_is_low : InstrumentSpec D → CreateOrderRequest D → Option D → Bool
  notional_is_low spec r none = false
  notional_is_low spec r (some price) = dec.lt (dec.mul price r.quantity) spec.min_notional

  abbrev pub notional_text : InstrumentSpec D → CreateOrderRequest D → Option D → Str
  notional_text spec r none = []
  notional_text spec r (some price) =
      str "order notional "
      ++ dec.show (dec.mul price r.quantity)
      ++ str " is below min_notional "
      ++ dec.show spec.min_notional
      ++ str " for "
      ++ spec.instrument_id

  -- `validate_create_order` once the specification is there.
  unfoldable pub validate_against : InstrumentSpec D → CreateOrderRequest D → Checked
  unfolding validate_order_type
  validate_against spec r =
      refuse_if (dec.lt r.quantity spec.min_qty)
        (str "order quantity "
          ++ dec.show r.quantity
          ++ str " is below min_qty "
          ++ dec.show spec.min_qty
          ++ str " for "
          ++ spec.instrument_id)
        (refuse_if (notional_is_low spec r r.price) (notional_text spec r r.price)
          (validate_order_type r r.order_type))

module _ {D : Type 0} (venue : Venue) (product : Product)
    (resolve_instrument : InstrumentId → Option (InstrumentSpec D)) where
  unfoldable pub require_spec : InstrumentId → Result (InstrumentSpec D)
  require_spec id =
      ok_or (resolve_instrument id)
        (with_venue (market_error unsupported (str "unknown instrument " ++ id)) venue product)

module _ {D : Type 0} (dec : DecimalOps D) (venue : Venue) (product : Product)
    (resolve_instrument : InstrumentId → Option (InstrumentSpec D)) (show_index : ℕ → Str) where
  unfoldable pub validate_create_order : CreateOrderRequest D → Checked
  unfolding require_spec validate_against
  validate_create_order r =
      require_spec venue product resolve_instrument r.instrument_id >>= λ spec.
      validate_against dec spec r

  -- The checks of one order of a batch, with the map of the ids seen before it.
  abbrev pub client_id_of :
      ℕ → Option ClientOrderId → OrdMap ClientOrderId ℕ → Result (OrdMap ClientOrderId ℕ)
  client_id_of index none seen = err (
      market_error config_error
        (str "batch create requires client_order_id on every order for deterministic tracking"))
  client_id_of index (some id) seen = elim (get id seen) [
    | some previous ↦ err (
        market_error config_error (
          str "duplicate client_order_id '"
          ++ id
          ++ str "' in batch create at indexes "
          ++ show_index previous
          ++ str " and "
          ++ show_index index))
    | none ↦ ok (insert id index seen)
  ]

  -- The loop of `validate_create_orders`; `many` is `request.orders.len() > 1`.
  unfoldable pub validate_orders_from :
      Bool → ℕ → List (CreateOrderRequest D) → OrdMap ClientOrderId ℕ → Checked
  unfolding validate_create_order
  validate_orders_from many index [] seen = ok tt
  validate_orders_from many index (r ∷ rs) seen =
      validate_create_order r
      >>= (λ checked. (if many then client_id_of index r.client_order_id seen else ok seen))
      >>= (λ seen'. validate_orders_from many (suc index) rs seen')

  unfoldable pub validate_create_orders : CreateOrdersRequest D → Checked
  unfolding validate_orders_from
  validate_create_orders request =
      refuse_if (ltb (length request.orders) 1) (str "create_orders requires at least one order")
        (validate_orders_from (ltb 1 (length request.orders)) 0 request.orders [])

unfoldable pub validate_targets : List OrderTarget → Checked
validate_targets [] = ok tt
validate_targets (t ∷ ts) =
    let rest = validate_targets ts in
    if is_some t.order_id || is_some t.client_order_id
    then rest
    else config (str "cancel_orders requires order_id or client_order_id on every target")

unfoldable pub validate_cancel_orders : CancelOrdersRequest → Checked
unfolding validate_targets
validate_cancel_orders request =
    refuse_if (ltb (length request.orders) 1) (str "cancel_orders requires at least one target")
      (validate_targets request.orders)
