-- ===== src/Tests/Caches.antt =====
-- crates/bat-markets-core/src/state.rs: the properties of the engine at concrete histories.
use bat_markets.Prelude.{◌≡◌, ◌⊎◌, refl, true, false, some, List, [], ◌∷◌, All, any, or_option, not}
use bat_markets.Prelude.Text.{str}
use bat_markets.Ord.{◌===◌, str_ord}
use bat_markets.OrdMap.{get, collect, insert}
use bat_markets.OrdMap.Sorted.{kept}
use bat_markets.Core.Types.{Venue, Product, OrderStatus}
use bat_markets.Core.Failure.{ok}
use bat_markets.Core.Execution.{PublicLaneEvent}
use bat_markets.Core.Trade.{Order}
use bat_markets.Core.Engine.{EngineState, new}
use bat_markets.Core.Engine.Public.{apply_public_event}
use bat_markets.Core.Engine.Private.{replace_open_orders, is_open}
use bat_markets.Core.Engine.Read.{open_orders}
use bat_markets.Core.Engine.Bounds.{IsBounded, run-new-IsBounded}
use bat_markets.Core.Engine.Orphans.{HasNoOrphans, run-new-HasNoOrphans}
use bat_markets.Core.Engine.Filed.{IsFiled, run-new-IsFiled}
use bat_markets.Core.Engine.Ingest.{is_listed, scaled_by, IsRefused, apply_public_event_listed}
use bat_markets.Core.Engine.Orders.{last_named, replace_open_orders_lookup, open_orders_reported}
use bat_markets.Tests.Values.{
  Decimal, decimal_ops, btc, eth, spec_of, policy, specs, trade_of, order_of, fresh, history,
  after_history,
}

run-new-IsBounded_example : IsBounded after_history × (after_history.state_policy ≡ policy)
run-new-IsBounded_example =
    run-new-IsBounded decimal_ops Venue.binance Product.linear_usdt policy specs history

run-new-HasNoOrphans_example : HasNoOrphans after_history
run-new-HasNoOrphans_example =
    run-new-HasNoOrphans decimal_ops Venue.binance Product.linear_usdt policy specs history

run-new-IsFiled_example : IsFiled after_history
run-new-IsFiled_example =
    run-new-IsFiled decimal_ops Venue.binance Product.linear_usdt policy specs history

abbrev late_trade : PublicLaneEvent Decimal
late_trade = PublicLaneEvent.trade (trade_of eth (str "t3"))

apply_public_event_listed_example :
    ((is_listed (scaled_by late_trade) after_history ≡ true)
      × ((apply_public_event decimal_ops late_trade after_history).1 ≡ ok tt))
    ⊎ ((is_listed (scaled_by late_trade) after_history ≡ false)
        × IsRefused after_history (apply_public_event decimal_ops late_trade after_history))
apply_public_event_listed_example = apply_public_event_listed decimal_ops late_trade after_history

-- The specification that the fresh engine has.
btc_is_listed : get btc fresh.instruments ≡ some (spec_of btc)
unfolding new get collect insert
btc_is_listed = refl

abbrev with_trade : EngineState Decimal
with_trade =
    (apply_public_event decimal_ops (PublicLaneEvent.trade (trade_of btc (str "t1"))) fresh).0

abbrev open_o1 : List (Order Decimal)
open_o1 = order_of (str "o2") OrderStatus.new ∷ []

replace_open_orders_lookup_example :
    get (str "o1") (replace_open_orders open_o1 after_history).orders
    ≡ or_option
        (last_named (str "o1") open_o1)
        (kept (λ o. not (is_open o.status)) (get (str "o1") after_history.orders))
replace_open_orders_lookup_example =
    replace_open_orders_lookup open_o1 after_history (str "o1")
      (run-new-IsFiled decimal_ops Venue.binance Product.linear_usdt policy specs history)

open_orders_reported_example :
    All
      (λ o. any (λ x. x.order_id === o.order_id) open_o1 ≡ true)
      (open_orders (replace_open_orders open_o1 after_history))
open_orders_reported_example = open_orders_reported open_o1 after_history
