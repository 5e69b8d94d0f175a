-- ===== src/Core/Engine.antt =====
-- crates/bat-markets-core/src/state.rs: the engine state and its bounded queues. `Public`,
-- `Private` and `Read` hold the methods, `Ops` every method that changes the state as one type.
pub mod Public
pub mod Private
pub mod Read
pub mod Ops
pub mod Queues
pub mod Bounds
pub mod Ingest
pub mod Orphans
pub mod Filed
pub mod Orders
pub mod Tape
use bat_markets.Prelude.{
  ℕ, Bool, true, false, Option, none, some, List, [], ◌∷◌, ◌++◌, map, ltb, if◌then◌else◌, length,
  any,
}
use bat_markets.Prelude.Int.{ℤ, leb_ℤ}
use bat_markets.Prelude.Text.{Str, str}
use bat_markets.Ord.{◌===◌, str_ord}
use bat_markets.OrdMap.{OrdMap, get, collect}
use bat_markets.Core.Types.{
  Venue, Product, InstrumentId, AssetCode, OrderId, TimestampMs, show_venue, show_product,
}
use bat_markets.Core.Failure.{Result, market_error, config_error, ok_or}
use bat_markets.Core.Instrument.{InstrumentSpec}
use bat_markets.Core.Market.{
  Ticker, TradeTick, BookTop, Kline, MarkPrice, FundingRate, OpenInterest, Liquidation,
}
use bat_markets.Core.Trade.{Balance, AccountSummary, Position, Order, Execution}
use bat_markets.Core.Health.{HealthReport, default_health, observe_private_message}

-- `StatePolicy` of crates/bat-markets-core/src/config.rs.
pub record StatePolicy : Type 0 where
  pub recent_trade_capacity : ℕ
  pub execution_capacity : ℕ

pub record EngineState (D : Type 0) : Type 0 where
  pub venue : Venue
  pub product : Product
  pub state_policy : StatePolicy
  pub instruments : OrdMap InstrumentId (InstrumentSpec D)
  pub tickers : OrdMap InstrumentId (Ticker D)
  pub recent_trades : OrdMap InstrumentId (List (TradeTick D))
  pub book_tops : OrdMap InstrumentId (BookTop D)
  pub klines : OrdMap InstrumentId (Kline D)
  pub mark_prices : OrdMap InstrumentId (MarkPrice D)
  pub funding_rates : OrdMap InstrumentId (FundingRate D)
  pub open_interest : OrdMap InstrumentId (OpenInterest D)
  pub liquidations : OrdMap InstrumentId (List (Liquidation D))
  pub balances : OrdMap AssetCode (Balance D)
  pub account_summary : Option (AccountSummary D)
  pub positions : OrdMap InstrumentId (Position D)
  pub orders : OrdMap OrderId (Order D)
  pub executions : List (Execution D)
  pub health : HealthReport

module _ {ℓ} {A : Type ℓ} where
  -- `while queue.len() > capacity { queue.pop_front(); }`
  unfoldable pub trim_front : ℕ → List A → List A
  trim_front cap [] = []
  trim_front cap (x ∷ xs) = if ltb cap (length (x ∷ xs)) then trim_front cap xs else x ∷ xs

  -- `push_back` and that loop.
  unfoldable pub push_bounded : ℕ → A → List A → List A
  unfolding trim_front
  push_bounded cap x xs = trim_front cap (xs ++ x ∷ [])

  -- `VecDeque::back`.
  unfoldable pub back : List A → Option A
  back [] = none
  back (x ∷ []) = some x
  back (x ∷ y ∷ ys) = back (y ∷ ys)

-- `Iterator::max` over timestamps.
unfoldable pub max_timestamp : List ℤ → Option ℤ
max_timestamp [] = none
max_timestamp (x ∷ xs) = elim (max_timestamp xs) [
  | none ↦ some x
  | some y ↦ some (if leb_ℤ x y then y else x)
]

-- `if let Some(updated_at) = updated_at { health.observe_private_message(updated_at) }`
abbrev pub observe_private_at : Option TimestampMs → HealthReport → HealthReport
observe_private_at none h = h
observe_private_at (some at) h = observe_private_message at h

module _ {D : Type 0} where
  abbrev pub spec_entry : InstrumentSpec D → InstrumentId × InstrumentSpec D
  spec_entry spec = (spec.instrument_id, spec)

  -- `EngineState::new`.
  unfoldable pub new : Venue → Product → StatePolicy → List (InstrumentSpec D) → EngineState D
  new venue product policy specs = record {
    venue = venue;
    product = product;
    state_policy = policy;
    instruments = collect (map spec_entry specs);
    tickers = [];
    recent_trades = [];
    book_tops = [];
    klines = [];
    mark_prices = [];
    funding_rates = [];
    open_interest = [];
    liquidations = [];
    balances = [];
    account_summary = none;
    positions = [];
    orders = [];
    executions = [];
    health = default_health;
  }

  -- The private `spec`.
  unfoldable pub spec : EngineState D → InstrumentId → Result (InstrumentSpec D)
  spec s id = ok_or (get id s.instruments) (
      market_error config_error (
        str "unknown instrument "
        ++ (id ++ (str " for " ++ (show_venue s.venue ++ (str " " ++ show_product s.product))))))

  -- The dedup of fills by `execution_id`, then the bounded push.
  unfoldable pub record_execution : ℕ → Execution D → List (Execution D) → List (Execution D)
  unfolding push_bounded
  record_execution cap e es =
      if any (λ x. x.execution_id === e.execution_id) es then es else push_bounded cap e es
