-- ===== src/Tests/Commands.antt =====
-- crates/bat-markets/src/runtime.rs: the properties of pending commands, checks and retries at
-- concrete values.
use bat_markets.Prelude.{
  In, ◌↔◌, ℕ, zero, suc, ◌≡◌, ◌⊎◌, ◌≤◌, refl, false, not, ◌&&◌, ◌||◌, none, some, List, [], ◌∷◌,
  arith, length, ltb, Option, inl,
}
use bat_markets.Prelude.Int.{ℤ, pos, IsI64, ◌≤ℤ◌, saturating_sub_i64}
use bat_markets.Prelude.Text.{Str, str}
use bat_markets.Ord.{str_ord}
use bat_markets.Core.Types.{Venue, Product, OrderStatus, OrderType, Side}
use bat_markets.Core.Failure.{Result, ok, err, market_error, timeout}
use bat_markets.Core.Instrument.{InstrumentSpec}
use bat_markets.Core.Trade.{Order, CreateOrderRequest, CreateOrdersRequest}
use bat_markets.Core.Command.{CommandOperation}
use bat_markets.Facade.Pending.{
  PendingUnknownCommand, unresolved_pending_after_state, repair_window_start_ms,
  history_repair_rewind_ms, history_repair_max_lookback_ms,
}
use bat_markets.Facade.Pending.Evidence.{HasEvidence, unresolved_pending_after_state_lem}
use bat_markets.Facade.Pending.Window.{repair_window_start_ms_lem}
use bat_markets.Facade.Validation.{validate_against, validate_create_orders, notional_is_low}
use bat_markets.Facade.Validation.Checks.{
  is_ok, has_shape, all_pass, are_distinct, client_ids, validate_against_lem,
  validate_create_orders_lem,
}
use bat_markets.Facade.Retry.{RetryPolicy, backoff, max_ℕ, with_rest_retries, retry_loop}
use bat_markets.Facade.Retry.Budget.{IsEnded, backoff_lem, with_rest_retries-IsEnded}
use bat_markets.Tests.Values.{Decimal, decimal_ops, one, btc, eth, spec_of, order_of, fill_of}

abbrev pending_of : Str → Str → PendingUnknownCommand
pending_of instrument order = record {
  operation = CommandOperation.create_order;
  instrument_id = instrument;
  order_id = some order;
  client_order_id = none;
  recorded_at = pos 900;
}

abbrev waiting_commands : List PendingUnknownCommand
waiting_commands = pending_of btc (str "o1") ∷ pending_of eth (str "o2") ∷ []

abbrev known_orders : List (Order Decimal)
known_orders = order_of (str "o1") OrderStatus.new ∷ []

unresolved_pending_after_state_lem_example :
    In
      (pending_of eth (str "o2"))
      (unresolved_pending_after_state waiting_commands known_orders (fill_of (str "e1") ∷ []))
    ↔ (In (pending_of eth (str "o2")) waiting_commands
        × (¬ HasEvidence (pending_of eth (str "o2")) known_orders (fill_of (str "e1") ∷ [])))
unresolved_pending_after_state_lem_example =
    unresolved_pending_after_state_lem (pending_of eth (str "o2")) waiting_commands known_orders
      (fill_of (str "e1") ∷ [])

now-IsI64 : IsI64 (pos 1700000000000)
now-IsI64 = ground arith

repair_window_start_ms_lem_example :
    (s : ℤ) × (repair_window_start_ms (pos 1700000000000) (some (pos 1699999000000)) none none none
      ≡ some s)
    × (s ≤ℤ pos 1700000000000)
    × (saturating_sub_i64 (pos 1700000000000) history_repair_max_lookback_ms ≤ℤ s)
    × ((s ≤ℤ saturating_sub_i64 (pos 1699999000000) history_repair_rewind_ms)
        ⊎ (s ≡ saturating_sub_i64 (pos 1700000000000) history_repair_max_lookback_ms))
repair_window_start_ms_lem_example =
    repair_window_start_ms_lem (pos 1700000000000) (pos 1699999000000) (some (pos 1699999000000))
      none none none now-IsI64 (inl refl)

abbrev pub request_of : Str → CreateOrderRequest Decimal
request_of id = record {
  request_id = none;
  instrument_id = btc;
  client_order_id = some id;
  side = Side.buy;
  order_type = OrderType.limit;
  time_in_force = none;
  quantity = one;
  price = some one;
  trigger_price = none;
  trigger_type = none;
  reduce_only = false;
  post_only = false;
}

validate_against_lem_example :
    is_ok (validate_against decimal_ops (spec_of btc) (request_of (str "c1"))) ≡ (
      not (decimal_ops.lt one one)
      && not (notional_is_low decimal_ops (spec_of btc) (request_of (str "c1")) (some one))
      && has_shape decimal_ops (request_of (str "c1")))
validate_against_lem_example =
    validate_against_lem decimal_ops (spec_of btc) (request_of (str "c1"))

abbrev listed : Str → Option (InstrumentSpec Decimal)
listed id = some (spec_of id)

abbrev pub show_none : ℕ → Str
show_none n = []

abbrev batch : CreateOrdersRequest Decimal
batch = record { request_id = none; orders = request_of (str "c1") ∷ request_of (str "c2") ∷ [] }

validate_create_orders_lem_example :
    is_ok
      (validate_create_orders decimal_ops Venue.binance Product.linear_usdt listed show_none batch)
    ≡ (not (ltb (length batch.orders) 1)
        && all_pass decimal_ops Venue.binance Product.linear_usdt listed show_none batch.orders
        && (not (ltb 1 (length batch.orders))
            || are_distinct (
                client_ids decimal_ops Venue.binance Product.linear_usdt listed show_none
                  batch.orders)))
validate_create_orders_lem_example =
    validate_create_orders_lem decimal_ops Venue.binance Product.linear_usdt listed show_none batch

backoff_lem_example :
    (1 ≤ backoff 100 1000 1)
    × (backoff 100 1000 5 ≤ max_ℕ 1000 (max_ℕ 100 1))
    × (backoff 100 1000 1 ≤ backoff 100 1000 5)
backoff_lem_example = backoff_lem 100 1000 1 5 (omega arith)

abbrev retries : RetryPolicy
retries = record { rest_retries = 2; rest_initial_backoff_ms = 100; rest_max_backoff_ms = 1000 }

-- A request that times out twice and then gives its text.
abbrev flaky : ℕ → Result Str
flaky zero = err (market_error timeout (str "timed out"))
flaky (suc zero) = err (market_error timeout (str "timed out"))
flaky (suc (suc n)) = ok (str "payload")

with_rest_retries-IsEnded_example :
    IsEnded (str "fetch") flaky 2 0 (with_rest_retries retries (str "fetch") flaky)
with_rest_retries-IsEnded_example = with_rest_retries-IsEnded retries (str "fetch") flaky

flaky-calls : (with_rest_retries retries (str "fetch") flaky).calls ≡ 3
unfolding with_rest_retries retry_loop
flaky-calls = refl
