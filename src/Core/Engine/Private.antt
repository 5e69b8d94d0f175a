-- ===== src/Core/Engine/Private.antt =====
-- crates/bat-markets-core/src/state.rs: `apply_private_event`, the snapshot replacements, the
-- history merges, the reconcile report and the transport marks.
use bat_markets.Prelude.{
  ℕ, Bool, true, false, not, Option, none, some, List, [], ◌∷◌, map, or_option, map_option,
}
use bat_markets.Prelude.Int.{ℤ}
use bat_markets.Ord.{str_ord}
use bat_markets.OrdMap.{OrdMap, contains_key, insert, collect, values, retain}
use bat_markets.Core.Types.{OrderStatus, InstrumentId, AssetCode, OrderId}
use bat_markets.Core.Instrument.{InstrumentSpec}
use bat_markets.Core.Trade.{Balance, Position, Order, Execution}
use bat_markets.Core.Command.{
  CommandReceipt, CommandStatus, ReconcileReport, ReconcileOutcome, AccountSnapshot,
  PrivateSnapshot,
}
use bat_markets.Core.Execution.{DivergenceEvent, PrivateLaneEvent}
use bat_markets.Core.Health
use bat_markets.Core.Health.{HealthReport}
use bat_markets.Core.Engine.{
  EngineState, spec_entry, record_execution, max_timestamp, observe_private_at,
}

abbrev pub private_divergence : DivergenceEvent → HealthReport → HealthReport
private_divergence DivergenceEvent.reconcile_required h = Health.mark_reconcile_required h
private_divergence (DivergenceEvent.sequence_gap at) h = Health.mark_private_gap h
private_divergence DivergenceEvent.state_divergence h = Health.mark_state_divergence h

abbrev pub receipt_health : CommandStatus → HealthReport → HealthReport
receipt_health CommandStatus.accepted h = h
receipt_health CommandStatus.rejected h = h
receipt_health CommandStatus.unknown_execution h = Health.mark_command_uncertain h

abbrev pub reconcile_health : ReconcileOutcome → HealthReport → HealthReport
reconcile_health ReconcileOutcome.synchronized h = Health.mark_reconcile_complete h
reconcile_health ReconcileOutcome.still_uncertain h = Health.mark_reconcile_required h
reconcile_health ReconcileOutcome.diverged h = Health.mark_state_divergence h

-- `OrderStatus::New | OrderStatus::PartiallyFilled`
abbrev pub is_open : OrderStatus → Bool
is_open OrderStatus.new = true
is_open OrderStatus.partially_filled = true
is_open _ = false

module _ {D : Type 0} where
  abbrev pub balance_entry : Balance D → AssetCode × Balance D
  balance_entry b = (b.asset, b)

  abbrev pub position_entry : Position D → InstrumentId × Position D
  position_entry p = (p.instrument_id, p)

  unfoldable pub apply_private_event : PrivateLaneEvent D → EngineState D → EngineState D
  apply_private_event (PrivateLaneEvent.balance b) s = record s {
    health = Health.observe_private_message b.updated_at s.health;
    balances = insert b.asset b s.balances;
  }
  apply_private_event (PrivateLaneEvent.position p) s = record s {
    health = Health.observe_private_message p.updated_at s.health;
    positions = insert p.instrument_id p s.positions;
  }
  apply_private_event (PrivateLaneEvent.order o) s = record s {
    health = Health.observe_private_message o.updated_at s.health;
    orders = insert o.order_id o s.orders;
  }
  apply_private_event (PrivateLaneEvent.execution e) s = record s {
    health = Health.observe_private_message e.executed_at s.health;
    executions = record_execution s.state_policy.execution_capacity e s.executions;
  }
  apply_private_event (PrivateLaneEvent.divergence d) s = record s {
    health = private_divergence d s.health;
  }

  unfoldable pub apply_command_receipt : CommandReceipt → EngineState D → EngineState D
  apply_command_receipt r s = record s { health = receipt_health r.status s.health }

  -- `prune_orphan_market_state`.
  unfoldable pub prune_orphan_market_state : EngineState D → EngineState D
  prune_orphan_market_state s = record s {
    tickers = retain (λ id v. contains_key id s.instruments) s.tickers;
    recent_trades = retain (λ id v. contains_key id s.instruments) s.recent_trades;
    book_tops = retain (λ id v. contains_key id s.instruments) s.book_tops;
    klines = retain (λ id v. contains_key id s.instruments) s.klines;
    mark_prices = retain (λ id v. contains_key id s.instruments) s.mark_prices;
    funding_rates = retain (λ id v. contains_key id s.instruments) s.funding_rates;
    open_interest = retain (λ id v. contains_key id s.instruments) s.open_interest;
    liquidations = retain (λ id v. contains_key id s.instruments) s.liquidations;
  }

  unfoldable pub replace_instruments : List (InstrumentSpec D) → EngineState D → EngineState D
  unfolding prune_orphan_market_state
  replace_instruments specs s =
      prune_orphan_market_state (record s { instruments = collect (map spec_entry specs) })

  unfoldable pub replace_account_snapshot : AccountSnapshot D → EngineState D → EngineState D
  replace_account_snapshot snapshot s =
      let balances = collect (map balance_entry snapshot.balances) in
      let updated_at =
        or_option (map_option (λ a. a.updated_at) snapshot.summary)
          (max_timestamp (map (λ b. b.updated_at) (values balances))) in
      record s {
        balances = balances;
        account_summary = snapshot.summary;
        health = observe_private_at updated_at s.health;
      }

  unfoldable pub replace_positions : List (Position D) → EngineState D → EngineState D
  replace_positions positions s = record s {
    positions = collect (map position_entry positions);
    health = observe_private_at (max_timestamp (map (λ p. p.updated_at) positions)) s.health;
  }

  -- `for order in orders { self.orders.insert(order.order_id.clone(), order); }`
  unfoldable pub insert_orders :
      List (Order D) → OrdMap OrderId (Order D) → OrdMap OrderId (Order D)
  insert_orders [] m = m
  insert_orders (o ∷ os) m = insert_orders os (insert o.order_id o m)

  unfoldable pub replace_open_orders : List (Order D) → EngineState D → EngineState D
  unfolding insert_orders
  replace_open_orders open_orders s = record s {
    orders = insert_orders open_orders (retain (λ id o. not (is_open o.status)) s.orders);
    health = observe_private_at (max_timestamp (map (λ o. o.updated_at) open_orders)) s.health;
  }

  unfoldable pub merge_order_history : List (Order D) → EngineState D → EngineState D
  unfolding insert_orders
  merge_order_history orders s = record s {
    orders = insert_orders orders s.orders;
    health = observe_private_at (max_timestamp (map (λ o. o.updated_at) orders)) s.health;
  }

  -- The loop of `merge_executions`.
  unfoldable pub record_executions :
      ℕ → List (Execution D) → List (Execution D) → List (Execution D)
  record_executions cap [] es = es
  record_executions cap (x ∷ xs) es = record_executions cap xs (record_execution cap x es)

  unfoldable pub merge_executions : List (Execution D) → EngineState D → EngineState D
  merge_executions executions s = record s {
    executions = record_executions s.state_policy.execution_capacity executions s.executions;
    health = observe_private_at (max_timestamp (map (λ e. e.executed_at) executions)) s.health;
  }

  abbrev pub replace_account_if : Option (AccountSnapshot D) → EngineState D → EngineState D
  replace_account_if none s = s
  replace_account_if (some account) s = replace_account_snapshot account s

  unfoldable pub apply_private_snapshot : PrivateSnapshot D → EngineState D → EngineState D
  apply_private_snapshot snapshot s =
      replace_open_orders snapshot.open_orders
        (replace_positions snapshot.positions (replace_account_if snapshot.account s))

  unfoldable pub apply_reconcile_report : ReconcileReport → EngineState D → EngineState D
  apply_reconcile_report report s = record s { health = reconcile_health report.outcome s.health }

  unfoldable pub mark_rest_success : Option ℤ → EngineState D → EngineState D
  mark_rest_success skew s = record s { health = Health.observe_rest_success skew s.health }

  unfoldable pub mark_public_disconnect : EngineState D → EngineState D
  mark_public_disconnect s = record s { health = Health.mark_public_disconnect s.health }

  unfoldable pub mark_private_disconnect : EngineState D → EngineState D
  mark_private_disconnect s = record s { health = Health.mark_private_disconnect s.health }

  unfoldable pub mark_reconnect : EngineState D → EngineState D
  mark_reconnect s = record s { health = Health.mark_reconnect s.health }

  unfoldable pub mark_snapshot_age : ℕ → ℕ → EngineState D → EngineState D
  mark_snapshot_age age stale_after s = record s {
    health = Health.mark_snapshot_age age stale_after s.health;
  }
