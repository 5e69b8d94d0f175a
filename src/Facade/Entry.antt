-- ===== src/Facade/Entry.antt =====
-- crates/bat-markets/src/entry.rs: the handle of a pending command. The receiver is the list of
-- what the command bus delivers; where the list ends, the call still waits.
pub mod Recovery
use native.Mathlib.Decide.{ℕ_discrete}
use mathlib.Core.Bool.{decide}
use bat_markets.Prelude.{
  ℕ, zero, suc, length, ◌≡◌, Bool, true, false, not, ◌&&◌, Option, none, some, List, [], ◌∷◌, ◌++◌,
  if◌then◌else◌, unwrap_or,
}
use bat_markets.Prelude.Int.{ℤ}
use bat_markets.Prelude.Text.{Str, str}
use bat_markets.Ord.{◌===◌, str_ord}
use bat_markets.Core.Types.{Venue, Product}
use bat_markets.Core.Failure.{Result, ok, err, MarketError, market_error, transport_error}
use bat_markets.Core.Command.{
  CommandAck, CommandLaneEvent, CommandLifecycleEvent, CommandOperation, CommandReceipt,
  CommandStatus, CommandTransport, ReconcileOutcome, ReconcileReport,
}

pub CommandOperation-discrete : Discrete CommandOperation
CommandOperation-discrete = hlevel

pub CommandReceipt-discrete : Discrete CommandReceipt
CommandReceipt-discrete = hlevel ℕ_discrete

pub CommandAck-discrete : Discrete CommandAck
CommandAck-discrete = hlevel (CommandReceipt-discrete, ℕ_discrete)

-- What one `recv` gives: an event, or the text of its error (closed or lagged).
pub data Delivery : Type 0 where
  delivered : CommandLaneEvent → Delivery
  failed : Str → Delivery

-- An `async` call: done with its result, or still waiting.
pub data Await (A : Type 0) : Type 0 where
  ready : Result A → Await A
  waiting : Await A

pub record PendingCommandHandle : Type 0 where
  pub ack : CommandAck
  pub receiver : List Delivery
  pub initial_receipt_pending : Bool

-- `PendingCommandHandle::from_ack` and `from_receipt`; the time is an argument.
unfoldable pub from_ack : CommandAck → List Delivery → PendingCommandHandle
from_ack ack receiver = record { ack = ack; receiver = receiver; initial_receipt_pending = true }

unfoldable pub from_receipt :
    CommandReceipt → CommandTransport → ℤ → List Delivery → PendingCommandHandle
unfolding from_ack
from_receipt receipt transport now receiver =
    from_ack (record { receipt = receipt; transport = transport; acknowledged_at = now }) receiver

-- `if let (Some(left), Some(right)) = … { return left == right; }`
abbrev pub both_named : Option Str → Option Str → Bool → Bool
both_named (some a) (some b) rest = a === b
both_named none b rest = rest
both_named (some a) none rest = rest

unfoldable pub matches_receipt : CommandReceipt → CommandReceipt → Bool
matches_receipt left right =
    decide (CommandOperation-discrete left.operation right.operation)
    && both_named left.order_id right.order_id (
        both_named left.client_order_id right.client_order_id
          (both_named left.request_id right.request_id false))

unfoldable pub matches_lifecycle : CommandAck → CommandLifecycleEvent → Bool
matches_lifecycle ack (CommandLifecycleEvent.ack other) = decide (CommandAck-discrete ack other)
matches_lifecycle ack (CommandLifecycleEvent.recovery_scheduled other) =
    decide (CommandAck-discrete ack other)
matches_lifecycle ack (CommandLifecycleEvent.recovery_completed other report) =
    decide (CommandAck-discrete ack other)
matches_lifecycle ack (CommandLifecycleEvent.receipt other) = matches_receipt ack.receipt other

abbrev pub resolved_by : CommandReceipt → ReconcileReport → ReconcileOutcome → CommandReceipt
resolved_by receipt report ReconcileOutcome.synchronized = record receipt {
  status = CommandStatus.accepted;
  retriable = false;
  message = some (unwrap_or report.note (str "command outcome resolved by reconcile"));
}
resolved_by receipt report ReconcileOutcome.still_uncertain = record receipt {
  status = CommandStatus.unknown_execution;
  retriable = true;
  message = some (unwrap_or report.note (str "command outcome remains unresolved after reconcile"));
}
resolved_by receipt report ReconcileOutcome.diverged = record receipt {
  status = CommandStatus.unknown_execution;
  retriable = true;
  message = some (unwrap_or report.note (str "command outcome remains unresolved after reconcile"));
}

unfoldable pub receipt_after_recovery : CommandReceipt → ReconcileReport → CommandReceipt
receipt_after_recovery receipt report = resolved_by receipt report report.outcome

-- The loop of `receipt`: the next matching receipt, with what is left on the bus.
unfoldable pub receipt_loop : CommandAck → List Delivery → Await CommandReceipt × List Delivery
receipt_loop ack [] = (waiting, [])
receipt_loop ack (failed text ∷ ds) = (
  ready (err (market_error transport_error (str "command receipt receive failed: " ++ text))),
  ds,
)
receipt_loop ack (delivered (CommandLaneEvent.receipt r) ∷ ds) =
    let rest = receipt_loop ack ds in
    if matches_receipt ack.receipt r then (ready (ok r), ds) else rest
receipt_loop ack (delivered (CommandLaneEvent.lifecycle l) ∷ ds) = receipt_loop ack ds

-- `PendingCommandHandle::receipt`.
unfoldable pub receipt : PendingCommandHandle → Await CommandReceipt × PendingCommandHandle
receipt h =
    if h.initial_receipt_pending
    then (ready (ok h.ack.receipt), record h { initial_receipt_pending = false })
    else let (r, rest) = receipt_loop h.ack h.receiver in (r, record h { receiver = rest })

abbrev pub receive_failure : Str → MarketError
receive_failure text =
    market_error transport_error (str "command lifecycle receive failed: " ++ text)

-- The loop of `next_lifecycle`.
unfoldable pub lifecycle_loop :
    CommandAck → List Delivery → Await CommandLifecycleEvent × List Delivery
lifecycle_loop ack [] = (waiting, [])
lifecycle_loop ack (failed text ∷ ds) = (ready (err (receive_failure text)), ds)
lifecycle_loop ack (delivered (CommandLaneEvent.receipt r) ∷ ds) = lifecycle_loop ack ds
lifecycle_loop ack (delivered (CommandLaneEvent.lifecycle l) ∷ ds) =
    let rest = lifecycle_loop ack ds in if matches_lifecycle ack l then (ready (ok l), ds) else rest

-- What `resolved` does with the next lifecycle event: the receipt, or one more round.
unfoldable pub recovered_by : CommandAck → CommandLifecycleEvent → Option CommandReceipt
recovered_by ack (CommandLifecycleEvent.recovery_completed other report) =
    some (receipt_after_recovery ack.receipt report)
recovered_by ack (CommandLifecycleEvent.ack other) = none
recovered_by ack (CommandLifecycleEvent.receipt other) = none
recovered_by ack (CommandLifecycleEvent.recovery_scheduled other) = none

-- The loop of `resolved`, with fuel for its rounds.
unfoldable pub resolved_loop : ℕ → CommandAck → List Delivery → Await CommandReceipt × List Delivery
resolved_loop zero ack ds = (waiting, ds)
resolved_loop (suc fuel) ack ds = elim (lifecycle_loop ack ds).0 [
  | waiting ↦ (waiting, (lifecycle_loop ack ds).1)
  | ready (err e) ↦ (ready (err e), (lifecycle_loop ack ds).1)
  | ready (ok l) ↦ elim (recovered_by ack l) [
    | some r ↦ (ready (ok r), (lifecycle_loop ack ds).1)
    | none ↦ resolved_loop fuel ack (lifecycle_loop ack ds).1
  ]
]

abbrev pub is_unknown : CommandStatus → Bool
is_unknown CommandStatus.accepted = false
is_unknown CommandStatus.rejected = false
is_unknown CommandStatus.unknown_execution = true

-- `PendingCommandHandle::resolved`. A round takes an event off the bus, so one more round than
-- there are deliveries is fuel enough.
unfoldable pub resolved : PendingCommandHandle → Await CommandReceipt × PendingCommandHandle
resolved h =
    if is_unknown h.ack.receipt.status
    then (let (r, rest) = resolved_loop (suc (length h.receiver)) h.ack h.receiver in
        (r, record h { receiver = rest }))
    else (ready (ok h.ack.receipt), h)
