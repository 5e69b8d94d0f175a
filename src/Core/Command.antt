-- ===== src/Core/Command.antt =====
-- crates/bat-markets-core/src/command.rs and reconcile.rs: command receipts, acknowledgements and
-- lifecycle events, and the reports and snapshots of a reconcile pass.
use bat_markets.Prelude.{Bool, Option, List}
use bat_markets.Prelude.Text.{Str}
use bat_markets.Core.Types.{
  Venue, Product, ClientOrderId, InstrumentId, OrderId, RequestId, TimestampMs,
}
use bat_markets.Core.Trade.{AccountSummary, Balance, Order, Position}

pub data CommandOperation : Type 0 where
  create_order create_orders amend_order amend_orders cancel_order cancel_orders : CommandOperation
  cancel_all_orders close_position validate_order get_order set_leverage : CommandOperation
  set_margin_mode set_position_mode : CommandOperation

pub data CommandStatus : Type 0 where
  accepted rejected unknown_execution : CommandStatus

pub record CommandReceipt : Type 0 where
  pub operation : CommandOperation
  pub status : CommandStatus
  pub venue : Venue
  pub product : Product
  pub instrument_id : Option InstrumentId
  pub order_id : Option OrderId
  pub client_order_id : Option ClientOrderId
  pub request_id : Option RequestId
  pub message : Option Str
  pub native_code : Option Str
  pub retriable : Bool

pub data CommandTransport : Type 0 where
  auto rest web_socket : CommandTransport

pub record CommandAck : Type 0 where
  pub receipt : CommandReceipt
  pub transport : CommandTransport
  pub acknowledged_at : TimestampMs

pub data ReconcileTrigger : Type 0 where
  manual reconnect sequence_gap unknown_execution periodic : ReconcileTrigger

pub data ReconcileOutcome : Type 0 where
  synchronized still_uncertain diverged : ReconcileOutcome

pub record ReconcileReport : Type 0 where
  pub trigger : ReconcileTrigger
  pub outcome : ReconcileOutcome
  pub repaired_at : TimestampMs
  pub note : Option Str

pub data CommandLifecycleEvent : Type 0 where
  ack : CommandAck → CommandLifecycleEvent
  receipt : CommandReceipt → CommandLifecycleEvent
  recovery_scheduled : CommandAck → CommandLifecycleEvent
  recovery_completed : CommandAck → ReconcileReport → CommandLifecycleEvent

pub data CommandLaneEvent : Type 0 where
  receipt : CommandReceipt → CommandLaneEvent
  lifecycle : CommandLifecycleEvent → CommandLaneEvent

pub record AccountSnapshot (D : Type 0) : Type 0 where
  pub balances : List (Balance D)
  pub summary : Option (AccountSummary D)

pub record PrivateSnapshot (D : Type 0) : Type 0 where
  pub account : Option (AccountSnapshot D)
  pub positions : List (Position D)
  pub open_orders : List (Order D)
