-- ===== src/Facade/Batch.antt =====
-- crates/bat-markets/src/runtime.rs: the receipts of a batch of commands, and the checks of amended
-- orders.
pub mod Receipts
use bat_markets.Prelude.{
  ℕ, suc, Bool, true, false, ◌&&◌, ◌++◌, is_none, Option, none, some, List, [], ◌∷◌, map,
  if◌then◌else◌, or_option, length, ltb,
}
use bat_markets.Prelude.Text.{Str, str}
use bat_markets.Core.Types.{
  InstrumentId, ClientOrderId, OrderId, RequestId, TimestampMs, Venue, Product,
}
use bat_markets.Core.Failure.{Result, ok, err, ◌>>=◌, market_error, decode_error}
use bat_markets.Core.Instrument.{InstrumentSpec}
use bat_markets.Core.Trade.{AmendOrderRequest, CreateOrderRequest, OrderTarget}
use bat_markets.Core.Command.{CommandAck, CommandOperation, CommandReceipt, CommandTransport}
use bat_markets.Facade.Entry.{is_unknown}
use bat_markets.Facade.Pending.{PendingUnknownCommand, cache_pending_unknown}
use bat_markets.Facade.Validation.{Checked, config, refuse_if, require_spec}
use bat_markets.Facade.Reconcile.{Live}
use bat_markets.Facade.Reconcile.Pass.{apply_command_receipt, with_pending}

-- Without the request id, which only the requests to Bybit read.
pub record BatchIdentity : Type 0 where
  pub instrument_id : Option InstrumentId
  pub order_id : Option OrderId
  pub client_order_id : Option ClientOrderId

unfoldable pub hydrate_create_request_with_batch_id :
    {D : Type 0} → CreateOrderRequest D → Option RequestId → CreateOrderRequest D
hydrate_create_request_with_batch_id request batch_request_id = record request {
  request_id = or_option request.request_id batch_request_id;
}

unfoldable pub hydrate_amend_request_with_batch_id :
    {D : Type 0} → AmendOrderRequest D → Option RequestId → AmendOrderRequest D
hydrate_amend_request_with_batch_id request batch_request_id = record request {
  request_id = or_option request.request_id batch_request_id;
}

-- `append_order_identity`, of whose query only the error is read here.
unfoldable pub append_order_identity : Option OrderId → Option ClientOrderId → Checked
append_order_identity (some order_id) client = ok tt
append_order_identity none (some client_order_id) = ok tt
append_order_identity none none = config (str "either order_id or client_order_id is required")

module _ {D : Type 0} (venue : Venue) (product : Product)
    (resolve_instrument : InstrumentId → Option (InstrumentSpec D)) where
  unfoldable pub validate_amend_order : AmendOrderRequest D → Checked
  unfolding require_spec append_order_identity
  validate_amend_order request =
      require_spec venue product resolve_instrument request.instrument_id
      >>= (λ spec. append_order_identity request.order_id request.client_order_id)
      >>= (λ named.
          refuse_if
            (is_none request.quantity && is_none request.price && is_none request.trigger_price)
            (str "amend_order requires at least one of quantity, price, or trigger_price") (ok tt))

  unfoldable pub validate_each_amend : List (AmendOrderRequest D) → Checked
  unfolding validate_amend_order
  validate_each_amend [] = ok tt
  validate_each_amend (order ∷ orders) =
      validate_amend_order order >>= λ checked. validate_each_amend orders

  unfoldable pub validate_amend_orders : List (AmendOrderRequest D) → Checked
  unfolding validate_each_amend
  validate_amend_orders orders =
      refuse_if (ltb (length orders) 1) (str "amend_orders requires at least one order")
        (validate_each_amend orders)

-- `collect_batch_acks`, from an index on; `show_index` is the `Display` of a `usize`.
unfoldable pub collect_batch_acks :
    (ℕ → Str) → ℕ → List (Option CommandAck) → Str → Result (List CommandAck)
collect_batch_acks show_index index [] operation = ok []
collect_batch_acks show_index index (none ∷ acks) operation = err (
    market_error decode_error
      (str "missing ack " ++ show_index index ++ str " while finalizing " ++ operation))
collect_batch_acks show_index index (some ack ∷ acks) operation =
    collect_batch_acks show_index (suc index) acks operation >>= λ rest. ok (ack ∷ rest)

-- The command that is kept of a receipt, if it is of unknown outcome and its request names an
-- instrument.
abbrev pub pending_of :
    CommandOperation → TimestampMs → CommandReceipt → BatchIdentity → Option PendingUnknownCommand
pending_of operation now receipt identity = elim identity.instrument_id [
  | none ↦ none
  | some instrument_id ↦
      if is_unknown receipt.status
      then some (record {
        operation = operation;
        instrument_id = instrument_id;
        order_id = identity.order_id;
        client_order_id = identity.client_order_id;
        recorded_at = now;
      })
      else none
]

abbrev pub keep_pending : {D : Type 0} → Option PendingUnknownCommand → Live D → Live D
keep_pending none c = c
keep_pending (some command) c = with_pending (cache_pending_unknown command c.pending) c

-- The clock is read once here, for the whole batch.
unfoldable pub cache_and_emit_batch_receipts :
    {D : Type 0}
    → List CommandReceipt
    → List BatchIdentity
    → CommandOperation
    → CommandTransport
    → TimestampMs
    → Live D
    → List CommandAck × Live D
unfolding apply_command_receipt cache_pending_unknown
cache_and_emit_batch_receipts (receipt ∷ receipts) (identity ∷ identities) operation transport now
      c =
    let (ack, told) =
      apply_command_receipt receipt transport now
        (keep_pending (pending_of operation now receipt identity) c) in
    let (acks, after) =
      cache_and_emit_batch_receipts receipts identities operation transport now told in
    (ack ∷ acks, after)
cache_and_emit_batch_receipts _ _ operation transport now c = ([], c)

abbrev pub create_identity : {D : Type 0} → CreateOrderRequest D → BatchIdentity
create_identity order = record {
  instrument_id = some order.instrument_id;
  order_id = none;
  client_order_id = order.client_order_id;
}

abbrev pub amend_identity : {D : Type 0} → AmendOrderRequest D → BatchIdentity
amend_identity order = record {
  instrument_id = some order.instrument_id;
  order_id = order.order_id;
  client_order_id = order.client_order_id;
}

abbrev pub cancel_identity : OrderTarget → BatchIdentity
cancel_identity target = record {
  instrument_id = some target.instrument_id;
  order_id = target.order_id;
  client_order_id = target.client_order_id;
}

module _ {D : Type 0} (receipts : List CommandReceipt) (transport : CommandTransport)
    (now : TimestampMs) (c : Live D) where
  unfoldable pub cache_and_emit_create_receipts :
      List (CreateOrderRequest D) → List CommandAck × Live D
  unfolding cache_and_emit_batch_receipts
  cache_and_emit_create_receipts requests =
      cache_and_emit_batch_receipts receipts (map create_identity requests)
        CommandOperation.create_order transport now c

  unfoldable pub cache_and_emit_amend_receipts :
      List (AmendOrderRequest D) → List CommandAck × Live D
  unfolding cache_and_emit_batch_receipts
  cache_and_emit_amend_receipts requests =
      cache_and_emit_batch_receipts receipts (map amend_identity requests)
        CommandOperation.amend_order transport now c

  unfoldable pub cache_and_emit_cancel_receipts : List OrderTarget → List CommandAck × Live D
  unfolding cache_and_emit_batch_receipts
  cache_and_emit_cancel_receipts targets =
      cache_and_emit_batch_receipts receipts (map cancel_identity targets)
        CommandOperation.cancel_order transport now c
