-- ===== src/Core/Engine/Read.antt =====
-- crates/bat-markets-core/src/state.rs: the reads of the engine state that compute something.
use bat_markets.Prelude.{Option, none, some, List, [], ◌∷◌, map, keep}
use bat_markets.Prelude.Int.{pos}
use bat_markets.Ord.{◌===◌, str_ord}
use bat_markets.OrdMap.{get, values}
use bat_markets.Core.Types.{InstrumentId, TimestampMs}
use bat_markets.Core.Numeric.{DecimalOps}
use bat_markets.Core.Market.{Ticker, TradeTick, Liquidation}
use bat_markets.Core.Instrument.{InstrumentSpec}
use bat_markets.Core.Trade.{Balance, AccountSummary, Position, Order}
use bat_markets.Core.Engine.{EngineState, max_timestamp}
use bat_markets.Core.Engine.Private.{is_open}

module _ {D : Type 0} where
  unfoldable pub ticker : EngineState D → InstrumentId → Option (Ticker D)
  ticker s id = get id s.tickers

  unfoldable pub recent_trades : EngineState D → InstrumentId → Option (List (TradeTick D))
  recent_trades s id = get id s.recent_trades

  unfoldable pub liquidations : EngineState D → InstrumentId → Option (List (Liquidation D))
  liquidations s id = get id s.liquidations

  unfoldable pub orders : EngineState D → List (Order D)
  orders s = values s.orders

  unfoldable pub positions : EngineState D → List (Position D)
  positions s = values s.positions

  unfoldable pub instrument_specs : EngineState D → List (InstrumentSpec D)
  instrument_specs s = values s.instruments

  unfoldable pub open_orders : EngineState D → List (Order D)
  open_orders s = keep (λ o. is_open o.status) (values s.orders)

  unfoldable pub latest_order_update_at : EngineState D → InstrumentId → Option TimestampMs
  latest_order_update_at s id =
      max_timestamp (map (λ o. o.updated_at) (keep (λ o. o.instrument_id === id) (values s.orders)))

  unfoldable pub latest_execution_at : EngineState D → InstrumentId → Option TimestampMs
  latest_execution_at s id =
      max_timestamp (map (λ e. e.executed_at) (keep (λ e. e.instrument_id === id) s.executions))

module _ {D : Type 0} (dec : DecimalOps D) where
  -- The loop of `account_summary`; `none` is the early return of a sum that overflows.
  unfoldable pub add_balances : D → D → List (Balance D) → Option (D × D)
  add_balances wallet available [] = some (wallet, available)
  add_balances wallet available (b ∷ bs) = elim (dec.checked_add wallet b.wallet_balance) [
    | none ↦ none
    | some w ↦ elim (dec.checked_add available b.available_balance) [
      | none ↦ none
      | some a ↦ add_balances w a bs
    ]
  ]

  abbrev pub summarize : List (Balance D) → Option (AccountSummary D)
  summarize [] = none
  summarize (first ∷ rest) = elim (add_balances first.wallet_balance first.available_balance rest) [
    | none ↦ none
    | some (w, a) ↦ some (record {
      total_wallet_balance = w;
      total_available_balance = a;
      total_unrealized_pnl = dec.new (pos 0) 0;
      updated_at = first.updated_at;
    })
  ]

  unfoldable pub account_summary : EngineState D → Option (AccountSummary D)
  unfolding add_balances
  account_summary s = elim s.account_summary [
    | some summary ↦ some summary
    | none ↦ summarize (values s.balances)
  ]
