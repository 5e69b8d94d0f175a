-- ===== src/Facade/Hub.antt =====
-- crates/bat-markets/src/subscriptions.rs and stream.rs: the hub that shares the public streams
-- among leases, and the hub that shares the private stream.
pub mod Streams
pub mod Private
pub mod Replacements
pub mod Leaks
pub mod Cover
pub mod Opened
pub mod Follow
use native.Mathlib.Decide.{ℕ_discrete}
use mathlib.Core.Bool.{decide}
use bat_markets.Prelude.{
  ℕ, suc, Bool, true, false, not, ◌&&◌, ◌||◌, Option, none, some, List, [], ◌∷◌, ◌++◌,
  if◌then◌else◌,
}
use bat_markets.Prelude.Text.{Str}
use bat_markets.Ord.{str_ord, nat_ord}
use bat_markets.OrdMap.{OrdMap, get, insert, remove, contains_key, values, keys}
use bat_markets.Core.Types.{InstrumentId, Venue}
use bat_markets.Core.Failure.{MarketError, Result, ok, err}

pub record PublicSubscription : Type 0 where
  pub instrument_ids : List InstrumentId
  pub ticker : Bool
  pub trades : Bool
  pub book_top : Bool
  pub order_book : Bool
  pub mark_price : Bool
  pub funding_rate : Bool
  pub open_interest : Bool
  pub liquidations : Bool
  pub kline_intervals : List Str

pub PublicSubscription-discrete : Discrete PublicSubscription
PublicSubscription-discrete = hlevel ℕ_discrete

pub data PublicStreamRoute : Type 0 where
  default binance_market binance_public : PublicStreamRoute

-- A `BTreeMap<PublicStreamRoute, V>`: what it holds at each of the three routes, in their order.
pub record Routes (V : Type 0) : Type 0 where
  pub at_default : Option V
  pub at_market : Option V
  pub at_public : Option V

abbrev pub no_routes : {V : Type 0} → Routes V
no_routes = record { at_default = none; at_market = none; at_public = none }

pub Routes-discrete : Discrete (Routes PublicSubscription)
Routes-discrete = hlevel PublicSubscription-discrete

-- A `BTreeSet` of texts, and `extend`.
abbrev pub TextSet : Type 0
TextSet = OrdMap Str (Unit {0})

unfoldable pub extend : List Str → TextSet → TextSet
extend [] set = set
extend (x ∷ xs) set = extend xs (insert x tt set)

abbrev pub nothing_wanted : PublicSubscription
nothing_wanted = record {
  instrument_ids = [];
  ticker = false;
  trades = false;
  book_top = false;
  order_book = false;
  mark_price = false;
  funding_rate = false;
  open_interest = false;
  liquidations = false;
  kline_intervals = [];
}

-- What the loop of `merge_public_subscriptions` carries.
pub record Merging : Type 0 where
  pub instrument_ids : TextSet
  pub kline_intervals : TextSet
  pub merged : PublicSubscription

unfoldable pub merge_one : PublicSubscription → Merging → Merging
unfolding extend
merge_one s m = record {
  instrument_ids = extend s.instrument_ids m.instrument_ids;
  kline_intervals = extend s.kline_intervals m.kline_intervals;
  merged = record m.merged {
    ticker = m.merged.ticker || s.ticker;
    trades = m.merged.trades || s.trades;
    book_top = m.merged.book_top || s.book_top;
    order_book = m.merged.order_book || s.order_book;
    mark_price = m.merged.mark_price || s.mark_price;
    funding_rate = m.merged.funding_rate || s.funding_rate;
    open_interest = m.merged.open_interest || s.open_interest;
    liquidations = m.merged.liquidations || s.liquidations;
  };
}

unfoldable pub merge_all : List PublicSubscription → Merging → Merging
merge_all [] m = m
merge_all (s ∷ ss) m = merge_all ss (merge_one s m)

abbrev pub merged_from : Merging → PublicSubscription
merged_from m = record m.merged {
  instrument_ids = keys m.instrument_ids;
  kline_intervals = keys m.kline_intervals;
}

abbrev pub some_unless_empty : TextSet → PublicSubscription → Option PublicSubscription
some_unless_empty [] s = none
some_unless_empty (x ∷ xs) s = some s

unfoldable pub merge_public_subscriptions : List PublicSubscription → Option PublicSubscription
unfolding merge_all
merge_public_subscriptions ss =
    let m =
      merge_all ss
        (record { instrument_ids = []; kline_intervals = []; merged = nothing_wanted }) in
    some_unless_empty m.instrument_ids (merged_from m)

abbrev pub is_filled : List Str → Bool
is_filled [] = false
is_filled (x ∷ xs) = true

abbrev pub wants_market : PublicSubscription → Bool
wants_market s =
    s.ticker
    || s.trades
    || s.mark_price
    || s.funding_rate
    || s.open_interest
    || s.liquidations
    || is_filled s.kline_intervals

unfoldable pub split_binance_public_subscription : PublicSubscription → Routes PublicSubscription
split_binance_public_subscription s = record {
  at_default = none;
  at_market =
      if wants_market s then some (record s { book_top = false; order_book = false }) else none;
  at_public =
      if s.book_top || s.order_book
      then some (record nothing_wanted {
        instrument_ids = s.instrument_ids;
        book_top = s.book_top;
        order_book = s.order_book;
      })
      else none;
}

abbrev pub routes_of : Venue → Option PublicSubscription → Routes PublicSubscription
routes_of venue none = no_routes
routes_of Venue.binance (some s) = split_binance_public_subscription s
routes_of Venue.bybit (some s) = record no_routes { at_default = some s }
routes_of Venue.mexc (some s) = record no_routes { at_default = some s }

unfoldable pub route_public_subscriptions :
    Venue → List PublicSubscription → Routes PublicSubscription
unfolding merge_public_subscriptions split_binance_public_subscription
route_public_subscriptions venue ss = routes_of venue (merge_public_subscriptions ss)
