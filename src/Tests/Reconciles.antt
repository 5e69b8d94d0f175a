-- ===== src/Tests/Reconciles.antt =====
-- crates/bat-markets/src/runtime.rs: the properties of the reconcile pass at a concrete context.
use bat_markets.Prelude.{ℕ, ◌≡◌, ◌⊎◌, refl, true, false, none, some, List, [], ◌∷◌}
use bat_markets.Prelude.Int.{pos}
use bat_markets.Prelude.Text.{Str, str}
use bat_markets.Core.Types.{Venue, Product, OrderStatus}
use bat_markets.Core.Failure.{ErrorKind, MarketError, market_error, Result, ok, err}
use bat_markets.Core.Health.{HealthStatus, DegradedReason}
use bat_markets.Core.Command.{
  CommandOperation, CommandReceipt, CommandStatus, CommandTransport, ReconcileOutcome,
  ReconcileReport, ReconcileTrigger,
}
use bat_markets.Core.Trade.{Order}
use bat_markets.Core.Engine.{new}
use bat_markets.Core.Engine.Private
use bat_markets.Core.Health
use bat_markets.Facade.Entry.{ready, waiting, resolved, receipt_after_recovery}
use bat_markets.OrdMap.{get, insert, collect}
use bat_markets.Facade.Pending.{PendingUnknownCommand, reconcile_mode, execution_repair_scope}
use bat_markets.Facade.Reconcile.{
  Live, VenueRest, refresh_account, refresh_positions, refresh_open_orders,
}
use bat_markets.Facade.Reconcile.Pass.{
  apply_command_receipt, recover, reconcile_private, repair, conclude,
  resolve_pending_unknown_commands,
}
use bat_markets.Facade.Reconcile.Settled.{handle_on, resolved_after_recovery}
use bat_markets.Facade.Reconcile.Answered.{IsAnswering, IsFound}
use bat_markets.Facade.Reconcile.Failed.{failed_pass_forgets}
use bat_markets.Tests.Values.{Decimal, btc, spec_of, order_of, fresh}

abbrev rejected : MarketError
rejected = market_error ErrorKind.exchange_reject (str "order does not exist")

abbrev pub unreachable : MarketError
unreachable = market_error ErrorKind.timeout (str "timed out")

-- A command that another task caches while a pass awaits its answers.
abbrev pub later : PendingUnknownCommand
later = record {
  operation = CommandOperation.create_order;
  instrument_id = btc;
  order_id = none;
  client_order_id = some (str "later");
  recorded_at = pos 950;
}

-- A venue that answers, and has no order and no fill.
abbrev silent : VenueRest Decimal
silent = record {
  venue = Venue.binance;
  product = Product.linear_usdt;
  now = pos 5000;
  resolve_instrument = λ id. some (spec_of id);
  account = ok (record { balances = []; summary = none }, none);
  positions = ok (none, []);
  open_orders = ok [];
  order = λ spec request. err rejected;
  order_history = λ spec window. ok [];
  executions = λ spec window. ok [];
  cached_meanwhile = later ∷ [];
}

abbrev mine : Order Decimal
mine = record (order_of (str "1") OrderStatus.new) { client_order_id = some (str "mine") }

-- A venue that has the order.
abbrev pub knowing : VenueRest Decimal
knowing = record silent { order = λ spec request. ok mine }

-- A venue that cannot be reached.
abbrev offline : VenueRest Decimal
offline = record silent { account = err unreachable }

abbrev pub placed : PendingUnknownCommand
placed = record {
  operation = CommandOperation.create_order;
  instrument_id = btc;
  order_id = none;
  client_order_id = some (str "mine");
  recorded_at = pos 900;
}

abbrev pub waiting_for : List PendingUnknownCommand → Live Decimal
waiting_for ps = record { state = fresh; pending = ps; bus = [] }

abbrev pub show_count : ℕ → Str
show_count n = str "some"

abbrev pub unknown_receipt : CommandReceipt
unknown_receipt = record {
  operation = CommandOperation.create_order;
  status = CommandStatus.unknown_execution;
  venue = Venue.binance;
  product = Product.linear_usdt;
  instrument_id = some btc;
  order_id = none;
  client_order_id = some (str "mine");
  request_id = none;
  message = none;
  native_code = none;
  retriable = true;
}

abbrev manual_pass : Result ReconcileReport × Live Decimal
manual_pass =
    reconcile_private silent show_count 30000 ReconcileTrigger.manual (waiting_for (placed ∷ []))

abbrev started : Live Decimal
started =
    (apply_command_receipt unknown_receipt CommandTransport.rest (pos 1000)
      (waiting_for (placed ∷ []))).1

resolved_after_recovery_example :
    let (ack, applied) =
      apply_command_receipt unknown_receipt CommandTransport.rest
        (pos 1000)
        (waiting_for (placed ∷ [])) in
    let pass =
      (reconcile_private offline show_count 30000 ReconcileTrigger.unknown_execution applied).0 in
    let ended = (resolved (handle_on ack (recover offline show_count 30000 ack applied))).0 in
    ((e : MarketError) × (pass ≡ err e) × (ended ≡ waiting))
    ⊎ ((report : ReconcileReport) × (pass ≡ ok report)
        × (ended ≡ ready (ok (receipt_after_recovery unknown_receipt report))))
resolved_after_recovery_example =
    resolved_after_recovery offline show_count 30000 unknown_receipt CommandTransport.rest
      (pos 1000) (waiting_for (placed ∷ [])) refl refl

pub knowing-IsAnswering : IsAnswering knowing
knowing-IsAnswering = record { account_ok = refl; positions_ok = refl; open_orders_ok = refl }

pub placed-IsFound : IsFound knowing placed
placed-IsFound = record {
  named = refl;
  spec = spec_of btc;
  known = refl;
  order = mine;
  answered = refl;
}

-- What another task caches while the pass awaits its answers is lost when the pass ends.
later_dropped : manual_pass.1.pending ≡ placed ∷ []
unfolding reconcile_private reconcile_mode repair refresh_account refresh_positions
    refresh_open_orders resolve_pending_unknown_commands new execution_repair_scope insert collect
    get Private.mark_rest_success Private.replace_open_orders Private.replace_positions
    Private.replace_account_snapshot
later_dropped = refl

abbrev failed_pass : Result ReconcileReport × Live Decimal
failed_pass = reconcile_private offline show_count 30000 ReconcileTrigger.reconnect (waiting_for [])

failed_pass-err : failed_pass.0 ≡ err unreachable
unfolding reconcile_private reconcile_mode repair refresh_account conclude
failed_pass-err = refl

failed_pass-pending : failed_pass.1.pending ≡ []
unfolding reconcile_private reconcile_mode repair refresh_account conclude
failed_pass-pending = refl

failed_pass-divergence : failed_pass.1.state.health.state_divergence ≡ false
unfolding reconcile_private reconcile_mode repair refresh_account conclude
    Private.apply_reconcile_report Private.mark_snapshot_age Health.mark_reconcile_required
    Health.mark_snapshot_age new
failed_pass-divergence = refl

failed_pass_forgets_example :
    let next = reconcile_private silent show_count 30000 ReconcileTrigger.periodic failed_pass.1 in
    (failed_pass.1.state.health.status ≡ HealthStatus.reconcile_required)
    × (failed_pass.1.state.health.degraded_reason ≡ some DegradedReason.snapshot_stale)
    × ((report : ReconcileReport) × (next.0 ≡ ok report)
        × (report.outcome ≡ ReconcileOutcome.synchronized))
    × (next.1.state.executions ≡ failed_pass.1.state.executions)
failed_pass_forgets_example =
    failed_pass_forgets offline silent show_count 30000 ReconcileTrigger.reconnect (waiting_for [])
      unreachable failed_pass-err failed_pass-pending failed_pass-divergence refl refl refl
