-- ===== src/Facade/Pending.antt =====
-- crates/bat-markets/src/runtime.rs: the commands of unknown outcome, the evidence that resolves
-- them, and what a reconcile pass repairs.
pub mod Named
pub mod Groups
pub mod Evidence
pub mod Window
use native.Mathlib.Decide.{ℕ_discrete}
use mathlib.Core.Bool.{decide}
use bat_markets.Prelude.{
  ℕ, Bool, true, false, not, ◌&&◌, ◌||◌, Option, none, some, List, [], ◌∷◌, ◌++◌, any, keep,
  if◌then◌else◌, unwrap_or, or_option, ltb,
}
use bat_markets.Prelude.Int.{ℤ, pos, min_ℤ, max_ℤ, saturating_sub_i64}
use bat_markets.Ord.{◌===◌, str_ord}
use bat_markets.OrdMap.{OrdMap, get, insert}
use bat_markets.Core.Types.{InstrumentId, OrderId, ClientOrderId, TimestampMs}
use bat_markets.Core.Trade.{Order, Execution}
use bat_markets.Core.Command.{CommandOperation, ReconcileTrigger}
use bat_markets.Core.Health.{HealthReport, DegradedReason}

pub record PendingUnknownCommand : Type 0 where
  pub operation : CommandOperation
  pub instrument_id : InstrumentId
  pub order_id : Option OrderId
  pub client_order_id : Option ClientOrderId
  pub recorded_at : TimestampMs

pub PendingUnknownCommand-discrete : Discrete PendingUnknownCommand
PendingUnknownCommand-discrete = hlevel ℕ_discrete

-- `LiveRuntimeState::cache_pending_unknown`.
unfoldable pub cache_pending_unknown :
    PendingUnknownCommand → List PendingUnknownCommand → List PendingUnknownCommand
cache_pending_unknown pending commands =
    if any (λ existing. decide (PendingUnknownCommand-discrete existing pending)) commands
    then commands
    else commands ++ pending ∷ []

-- What a run of calls of it caches.
unfoldable pub cache_each :
    List PendingUnknownCommand → List PendingUnknownCommand → List PendingUnknownCommand
unfolding cache_pending_unknown
cache_each [] commands = commands
cache_each (pending ∷ more) commands = cache_each more (cache_pending_unknown pending commands)

-- `pending.order_id.as_ref().is_some_and(|order_id| &order.order_id == order_id)`
abbrev pub names_order : Option OrderId → OrderId → Bool
names_order none id = false
names_order (some order_id) id = id === order_id

-- The same for a client order id, which the order or fill may lack.
abbrev pub names_client : Option ClientOrderId → Option ClientOrderId → Bool
names_client none id = false
names_client (some client_order_id) none = false
names_client (some client_order_id) (some id) = id === client_order_id

module _ {D : Type 0} where
  unfoldable pub order_matches_pending : Order D → PendingUnknownCommand → Bool
  order_matches_pending order pending =
      (order.instrument_id === pending.instrument_id)
      && (names_order pending.order_id order.order_id
          || names_client pending.client_order_id order.client_order_id)

  unfoldable pub execution_matches_pending : Execution D → PendingUnknownCommand → Bool
  execution_matches_pending execution pending =
      (execution.instrument_id === pending.instrument_id)
      && (names_order pending.order_id execution.order_id
          || names_client pending.client_order_id execution.client_order_id)

  unfoldable pub unresolved_pending_after_orders :
      List PendingUnknownCommand → List (Order D) → List PendingUnknownCommand
  unresolved_pending_after_orders pending orders =
      keep (λ command. not (any (λ order. order_matches_pending order command) orders)) pending

  unfoldable pub unresolved_pending_after_executions :
      List PendingUnknownCommand → List (Execution D) → List PendingUnknownCommand
  unresolved_pending_after_executions pending executions =
      keep (λ command. not (any (λ e. execution_matches_pending e command) executions)) pending

  unfoldable pub unresolved_pending_after_state :
      List PendingUnknownCommand → List (Order D) → List (Execution D) → List PendingUnknownCommand
  unfolding unresolved_pending_after_orders unresolved_pending_after_executions
  unresolved_pending_after_state pending orders executions =
      let unresolved = unresolved_pending_after_orders pending orders in
      unresolved_pending_after_executions unresolved executions

-- The loop of `pending_by_instrument`: `entry(…).or_default().push(command)`.
unfoldable pub group_from :
    List PendingUnknownCommand
    → OrdMap InstrumentId (List PendingUnknownCommand)
    → OrdMap InstrumentId (List PendingUnknownCommand)
group_from [] grouped = grouped
group_from (command ∷ commands) grouped = group_from commands (
    insert command.instrument_id (unwrap_or (get command.instrument_id grouped) [] ++ command ∷ [])
      grouped)

unfoldable pub pending_by_instrument :
    List PendingUnknownCommand → OrdMap InstrumentId (List PendingUnknownCommand)
unfolding group_from
pending_by_instrument pending = group_from pending []

pub data PrivateReconcileMode : Type 0 where
  snapshot_only recent_history_repair : PrivateReconcileMode

pub data ExecutionRepairScope : Type 0 where
  pending_unknown_only local_evidence : ExecutionRepairScope

-- The reasons of the two `matches!`.
abbrev pub asks_repair : Option DegradedReason → Bool
asks_repair (some DegradedReason.private_stream_gap) = true
asks_repair (some DegradedReason.reconcile_required) = true
asks_repair (some DegradedReason.command_uncertain) = true
asks_repair (some DegradedReason.state_divergence) = true
asks_repair _ = false

abbrev pub asks_evidence : Option DegradedReason → Bool
asks_evidence (some DegradedReason.private_stream_gap) = true
asks_evidence (some DegradedReason.reconcile_required) = true
asks_evidence (some DegradedReason.state_divergence) = true
asks_evidence _ = false

unfoldable pub needs_recent_history_repair : HealthReport → ℕ → Bool
needs_recent_history_repair health pending_unknown_count =
    if ltb 0 pending_unknown_count || health.state_divergence
    then true
    else asks_repair health.degraded_reason

-- `reconcile_mode`; the count of pending commands and the health are read from the context.
unfoldable pub reconcile_mode : ReconcileTrigger → HealthReport → ℕ → PrivateReconcileMode
reconcile_mode ReconcileTrigger.periodic health pending_unknown_count =
    if needs_recent_history_repair health pending_unknown_count
    then PrivateReconcileMode.recent_history_repair
    else PrivateReconcileMode.snapshot_only
reconcile_mode _ health pending_unknown_count = PrivateReconcileMode.recent_history_repair

unfoldable pub execution_repair_scope : ReconcileTrigger → HealthReport → ExecutionRepairScope
execution_repair_scope ReconcileTrigger.unknown_execution health =
    ExecutionRepairScope.pending_unknown_only
execution_repair_scope ReconcileTrigger.periodic health =
    if health.state_divergence || asks_evidence health.degraded_reason
    then ExecutionRepairScope.local_evidence
    else ExecutionRepairScope.pending_unknown_only
execution_repair_scope _ health = ExecutionRepairScope.local_evidence

abbrev pub history_repair_rewind_ms : ℤ
history_repair_rewind_ms = pos 60000

abbrev pub history_repair_max_lookback_ms : ℤ
history_repair_max_lookback_ms = pos 604800000

-- `Iterator::min` over the times that are known.
unfoldable pub min_known : List (Option ℤ) → Option ℤ
min_known [] = none
min_known (none ∷ ts) = min_known ts
min_known (some t ∷ ts) = elim (min_known ts) [ none ↦ some t | some u ↦ some (min_ℤ t u) ]

unfoldable pub repair_window_start_ms : ℤ → Option ℤ → Option ℤ → Option ℤ → Option ℤ → Option ℤ
unfolding min_known
repair_window_start_ms now latest_order latest_execution fallback_last_private oldest_pending =
    let lower_bound = saturating_sub_i64 now history_repair_max_lookback_ms in
    elim (or_option (min_known (latest_order ∷ latest_execution ∷ oldest_pending ∷ []))
      fallback_last_private) [
        | none ↦ none
        | some anchor ↦
            some
              (min_ℤ (max_ℤ (saturating_sub_i64 anchor history_repair_rewind_ms) lower_bound) now)
      ]
