-- ===== src/Tests/Hubs.antt =====
-- crates/bat-markets/src/subscriptions.rs: the properties of the hubs at concrete histories.
use bat_markets.Prelude.{
  ℕ, zero, suc, ap, ◌∙◌, ◌≡◌, ◌&&◌, refl, true, none, some, List, [], ◌∷◌, any, Option,
}
use bat_markets.Prelude.Text.{Str, str}
use bat_markets.Ord.{nat_ord, str_ord}
use bat_markets.OrdMap.{get}
use bat_markets.OrdMap.Laws.{get-insert_self}
use bat_markets.Core.Types.{Venue}
use bat_markets.Core.Failure.{MarketError, market_error, transport_error}
use bat_markets.Facade.Hub.{PublicSubscription, nothing_wanted, route_public_subscriptions}
use bat_markets.Facade.Hub.Streams.{PublicHub, PublicHubCommand, hub_step, run_public_hub, new_hub}
use bat_markets.Facade.Hub.Leaks.{IsTidy, run_public_hub-IsTidy}
use bat_markets.Facade.Hub.Cover.{
  Topic, wants, is_routed, any_named, route_public_subscriptions_lem,
}
use bat_markets.Facade.Hub.Opened.{never, opened_routes}
use bat_markets.Facade.Hub.Follow.{acquire-active, leases_served}
use bat_markets.Facade.Hub.Private.{
  PrivateHubCommand, run_private_hub, new_private_hub, IsShared, run_private_hub-IsShared,
}
use bat_markets.Tests.Values.{btc, eth}

abbrev tickers_of : Str → PublicSubscription
tickers_of id = record nothing_wanted { instrument_ids = id ∷ []; ticker = true }

abbrev books_of : Str → PublicSubscription
books_of id = record nothing_wanted { instrument_ids = id ∷ []; order_book = true }

abbrev leases : List PublicHubCommand
leases =
    PublicHubCommand.acquire 1 (tickers_of btc)
    ∷ PublicHubCommand.acquire 2 (books_of eth)
    ∷ PublicHubCommand.release 1
    ∷ []

-- The second attempt to start a stream fails.
abbrev second_fails : ℕ → Option MarketError
second_fails zero = none
second_fails (suc zero) = some (market_error transport_error (str "refused"))
second_fails (suc (suc n)) = none

run_public_hub-IsTidy_example : IsTidy (run_public_hub second_fails Venue.binance leases new_hub)
run_public_hub-IsTidy_example = run_public_hub-IsTidy second_fails Venue.binance leases

abbrev held : List PublicSubscription
held = tickers_of btc ∷ books_of eth ∷ []

route_public_subscriptions_lem_example :
    is_routed Topic.order_book eth (route_public_subscriptions Venue.binance held)
    ≡ (any_named eth held && any (λ s. wants Topic.order_book s) held)
route_public_subscriptions_lem_example =
    route_public_subscriptions_lem Venue.binance Topic.order_book eth held

abbrev two_leases : List PublicHubCommand
two_leases =
    PublicHubCommand.acquire 1 (tickers_of btc) ∷ PublicHubCommand.acquire 2 (books_of eth) ∷ []

abbrev first_held : PublicHub
first_held = (hub_step never Venue.binance (PublicHubCommand.acquire 1 (tickers_of btc)) new_hub).1

lease_2 : get 2 (run_public_hub never Venue.binance two_leases new_hub).active ≡ some (books_of eth)
unfolding run_public_hub
lease_2 =
    ap (λ m. get 2 m) (acquire-active Venue.binance 2 (books_of eth) first_held)
    ∙ get-insert_self 2 (books_of eth) first_held.active

leases_served_example :
    is_routed Topic.order_book eth
      (opened_routes (run_public_hub never Venue.binance two_leases new_hub).current_streams)
    ≡ true
leases_served_example =
    leases_served Venue.binance two_leases 2 (books_of eth) Topic.order_book eth lease_2 refl

run_private_hub-IsShared_example : IsShared (
    run_private_hub second_fails
      (PrivateHubCommand.acquire 1 ∷ PrivateHubCommand.release 1 ∷ PrivateHubCommand.acquire 2 ∷ [])
      new_private_hub)
run_private_hub-IsShared_example =
    run_private_hub-IsShared second_fails
      (PrivateHubCommand.acquire 1 ∷ PrivateHubCommand.release 1 ∷ PrivateHubCommand.acquire 2 ∷ [])
