-- ===== src/Facade/Hub/Cover.antt =====
-- crates/bat-markets/src/subscriptions.rs: the streams carry what the leases ask for.
use bat_markets.Prelude.{
  ◌≡◌, refl, Bool, false, ◌&&◌, ◌||◌, is_some, Option, none, some, List, [], ◌∷◌, arith, any, ◌∙◌,
}
use bat_markets.Prelude.Text.{Str}
use bat_markets.Ord.{◌===◌, nat_ord, str_ord}
use bat_markets.OrdMap.{get, insert, keys}
use bat_markets.OrdMap.Laws.{get-insert}
use bat_markets.Core.Types.{Venue, InstrumentId}
use bat_markets.Facade.Hub.{
  PublicSubscription, Routes, TextSet, extend, Merging, merge_one, merge_all,
  merge_public_subscriptions, split_binance_public_subscription, route_public_subscriptions,
  routes_of, merged_from, nothing_wanted, some_unless_empty, is_filled,
}

-- What a subscription can ask for of an instrument.
pub data Topic : Type 0 where
  ticker trades book_top order_book mark_price funding_rate open_interest liquidations : Topic
  kline : Str → Topic

abbrev pub wants : Topic → PublicSubscription → Bool
wants Topic.ticker s = s.ticker
wants Topic.trades s = s.trades
wants Topic.book_top s = s.book_top
wants Topic.order_book s = s.order_book
wants Topic.mark_price s = s.mark_price
wants Topic.funding_rate s = s.funding_rate
wants Topic.open_interest s = s.open_interest
wants Topic.liquidations s = s.liquidations
wants (Topic.kline interval) s = any (λ i. interval === i) s.kline_intervals

-- A subscription asks for a topic of an instrument.
abbrev pub carries : Topic → InstrumentId → PublicSubscription → Bool
carries topic id s = any (λ i. id === i) s.instrument_ids && wants topic s

abbrev pub carries_on : Topic → InstrumentId → Option PublicSubscription → Bool
carries_on topic id none = false
carries_on topic id (some s) = carries topic id s

-- Some route's subscription asks for it.
abbrev pub is_routed : Topic → InstrumentId → Routes PublicSubscription → Bool
is_routed topic id r =
    carries_on topic id r.at_default
    || carries_on topic id r.at_market
    || carries_on topic id r.at_public

has-extend :
    (x : Str) (xs : List Str) (set : TextSet)
    → is_some (get x (extend xs set)) ≡ (is_some (get x set) || any (λ i. x === i) xs)
unfolding extend
has-extend x [] set = ground arith
has-extend x (y ∷ ys) set = ground (arith, has-extend x ys (insert y tt set), get-insert x y tt set)

has-keys : (x : Str) (set : TextSet) → any (λ i. x === i) (keys set) ≡ is_some (get x set)
unfolding get
has-keys x [] = refl
has-keys x ((k, u) ∷ set) = ground (arith, has-keys x set)

-- Whether what is merged so far asks for it.
abbrev merged_wants : Topic → Merging → Bool
merged_wants topic m = wants topic (merged_from m)

abbrev pub any_named : InstrumentId → List PublicSubscription → Bool
any_named id ss = any (λ s. any (λ i. id === i) s.instrument_ids) ss

ids-merge_all :
    (id : InstrumentId) (ss : List PublicSubscription) (m : Merging)
    → is_some (get id (merge_all ss m).instrument_ids)
      ≡ (is_some (get id m.instrument_ids) || any (λ s. any (λ i. id === i) s.instrument_ids) ss)
unfolding merge_all merge_one
ids-merge_all id [] m = ground arith
ids-merge_all id (s ∷ ss) m =
    ground
      (arith, ids-merge_all id ss (merge_one s m), has-extend id s.instrument_ids m.instrument_ids)

wants-merge_one :
    (topic : Topic) (s : PublicSubscription) (m : Merging)
    → merged_wants topic (merge_one s m) ≡ (merged_wants topic m || wants topic s)
unfolding merge_one
wants-merge_one Topic.ticker s m = refl
wants-merge_one (Topic.kline x) s m = ground (
  arith,
  has-keys x (extend s.kline_intervals m.kline_intervals),
  has-keys x m.kline_intervals,
  has-extend x s.kline_intervals m.kline_intervals,
)
wants-merge_one _ s m = refl

wants-merge_all :
    (topic : Topic) (ss : List PublicSubscription) (m : Merging)
    → merged_wants topic (merge_all ss m) ≡ (merged_wants topic m || any (λ s. wants topic s) ss)
unfolding merge_all
wants-merge_all topic [] m = ground arith
wants-merge_all topic (s ∷ ss) m =
    ground (arith, wants-merge_all topic ss (merge_one s m), wants-merge_one topic s m)

any-unfilled : (p : Str → Bool) (xs : List Str) → is_filled xs ≡ false → any p xs ≡ false
any-unfilled p [] h = refl
any-unfilled p (x ∷ xs) h = cc

-- Splitting a subscription by route neither loses nor adds anything.
routed_whole :
    (venue : Venue) (topic : Topic) (id : InstrumentId) (s : PublicSubscription)
    → is_routed topic id (routes_of venue (some s)) ≡ carries topic id s
unfolding split_binance_public_subscription
routed_whole Venue.bybit topic id s = ground arith
routed_whole Venue.mexc topic id s = ground arith
routed_whole Venue.binance (Topic.kline x) id s =
    ground (arith, any-unfilled (λ i. x === i) s.kline_intervals)
routed_whole Venue.binance topic id s = ground arith

abbrev all_merged : List PublicSubscription → Merging
all_merged ss =
    merge_all ss (record { instrument_ids = []; kline_intervals = []; merged = nothing_wanted })

nothing_wants : (topic : Topic) → wants topic nothing_wanted ≡ false
nothing_wants Topic.ticker = refl
nothing_wants _ = refl

carries-all_merged :
    (topic : Topic) (id : InstrumentId) (ss : List PublicSubscription)
    → carries topic id (merged_from (all_merged ss))
      ≡ (any_named id ss && any (λ s. wants topic s) ss)
unfolding get
carries-all_merged topic id ss = ground (
  arith,
  has-keys id (all_merged ss).instrument_ids,
  ids-merge_all id ss
      (record { instrument_ids = []; kline_intervals = []; merged = nothing_wanted }),
  wants-merge_all topic ss
      (record { instrument_ids = []; kline_intervals = []; merged = nothing_wanted }),
  nothing_wants topic,
)

routed-some_unless_empty :
    (venue : Venue) (topic : Topic) (id : InstrumentId) (set : TextSet) (s : PublicSubscription)
    → s.instrument_ids ≡ keys set
    → is_routed topic id (routes_of venue (some_unless_empty set s)) ≡ carries topic id s
routed-some_unless_empty venue topic id [] s e = ground arith
routed-some_unless_empty venue topic id (x ∷ set) s e = routed_whole venue topic id s

-- The routed subscriptions ask for a topic of an instrument exactly when some lease names the
-- instrument and some lease, perhaps another, asks for the topic; this holds for every venue, also
-- where the topics are split over two routes.
pub route_public_subscriptions_lem :
    (venue : Venue) (topic : Topic) (id : InstrumentId) (ss : List PublicSubscription)
    → is_routed topic id (route_public_subscriptions venue ss)
      ≡ (any_named id ss && any (λ s. wants topic s) ss)
unfolding route_public_subscriptions merge_public_subscriptions
route_public_subscriptions_lem venue topic id ss =
    routed-some_unless_empty venue topic id (all_merged ss).instrument_ids
      (merged_from (all_merged ss)) refl
    ∙ carries-all_merged topic id ss
