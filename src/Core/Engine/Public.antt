-- ===== src/Core/Engine/Public.antt =====
-- crates/bat-markets-core/src/state.rs: `apply_public_event` and the `apply_fast_*` methods. A
-- method returns the state after it and its result, so what an error leaves behind is visible.
use bat_markets.Prelude.{Bool, false, Option, none, some, [], if◌then◌else◌, unwrap_or}
use bat_markets.Ord.{◌===◌, str_ord}
use bat_markets.OrdMap.{get, insert}
use bat_markets.Core.Types.{TradeId}
use bat_markets.Core.Failure.{Result, ok, err}
use bat_markets.Core.Numeric.{DecimalOps}
use bat_markets.Core.Market.{
  FastTicker, FastTrade, FastBookTop, FastKline, FastMarkPrice, FastLiquidation, TradeTick,
  unify_ticker, unify_trade, unify_book_top, unify_kline, unify_mark_price, unify_liquidation,
}
use bat_markets.Core.Execution.{DivergenceEvent, PublicLaneEvent}
use bat_markets.Core.Health.{observe_public_message, mark_public_gap, mark_state_divergence}
use bat_markets.Core.Engine.{EngineState, spec, push_bounded, back}

-- What a method that may fail leaves: the state, and `Ok(())` or the error.
abbrev pub Outcome : Type 0 → Type 0
Outcome D = EngineState D × Result (Unit {0})

module _ {D : Type 0} where
  -- `entry.back().is_some_and(|existing| existing.trade_id == unified.trade_id)`
  abbrev pub repeats : TradeId → Option (TradeTick D) → Bool
  repeats id none = false
  repeats id (some t) = t.trade_id === id

module _ {D : Type 0} (dec : DecimalOps D) where
  unfoldable pub apply_fast_ticker : FastTicker → EngineState D → Outcome D
  apply_fast_ticker t s = elim (spec s t.instrument_id) [
    | err e ↦ (s, err e)
    | ok sp ↦ (
      record s {
        health = observe_public_message t.event_time s.health;
        tickers = insert t.instrument_id (unify_ticker dec sp t) s.tickers;
      },
      ok tt,
    )
  ]

  unfoldable pub apply_fast_trade : FastTrade → EngineState D → Outcome D
  unfolding unify_trade
  apply_fast_trade t s = elim (spec s t.instrument_id) [
    | err e ↦ (s, err e)
    | ok sp ↦
        let unified = unify_trade dec sp t in
        let entry = unwrap_or (get t.instrument_id s.recent_trades) [] in
        let seen : EngineState D = record s {
          health = observe_public_message t.event_time s.health;
        } in
        if repeats unified.trade_id (back entry)
        then (record seen { recent_trades = insert t.instrument_id entry s.recent_trades }, ok tt)
        else (
          record seen {
            recent_trades =
                insert t.instrument_id
                  (push_bounded s.state_policy.recent_trade_capacity unified entry) s.recent_trades;
          },
          ok tt,
        )
  ]

  unfoldable pub apply_fast_book_top : FastBookTop → EngineState D → Outcome D
  apply_fast_book_top b s = elim (spec s b.instrument_id) [
    | err e ↦ (s, err e)
    | ok sp ↦ (
      record s {
        health = observe_public_message b.event_time s.health;
        book_tops = insert b.instrument_id (unify_book_top dec sp b) s.book_tops;
      },
      ok tt,
    )
  ]

  unfoldable pub apply_fast_kline : FastKline → EngineState D → Outcome D
  apply_fast_kline k s = elim (spec s k.instrument_id) [
    | err e ↦ (s, err e)
    | ok sp ↦ (
      record s {
        health = observe_public_message k.close_time s.health;
        klines = insert k.instrument_id (unify_kline dec sp k) s.klines;
      },
      ok tt,
    )
  ]

  unfoldable pub apply_fast_mark_price : FastMarkPrice D → EngineState D → Outcome D
  apply_fast_mark_price m s = elim (spec s m.instrument_id) [
    | err e ↦ (s, err e)
    | ok sp ↦ (
      record s {
        health = observe_public_message m.event_time s.health;
        mark_prices = insert m.instrument_id (unify_mark_price dec sp m) s.mark_prices;
      },
      ok tt,
    )
  ]

  unfoldable pub apply_fast_liquidation : FastLiquidation → EngineState D → Outcome D
  apply_fast_liquidation l s = elim (spec s l.instrument_id) [
    | err e ↦ (s, err e)
    | ok sp ↦
        let entry = unwrap_or (get l.instrument_id s.liquidations) [] in
        (
          record s {
            health = observe_public_message l.event_time s.health;
            liquidations =
                insert l.instrument_id
                  (push_bounded s.state_policy.recent_trade_capacity (unify_liquidation dec sp l)
                    entry)
                  s.liquidations;
          },
          ok tt,
        )
  ]

  unfoldable pub apply_public_divergence : DivergenceEvent → EngineState D → EngineState D
  apply_public_divergence DivergenceEvent.reconcile_required s = record s {
    health = mark_public_gap s.health;
  }
  apply_public_divergence (DivergenceEvent.sequence_gap at) s = record s {
    health = mark_public_gap s.health;
  }
  apply_public_divergence DivergenceEvent.state_divergence s = record s {
    health = mark_state_divergence s.health;
  }

  unfoldable pub apply_public_event : PublicLaneEvent D → EngineState D → Outcome D
  apply_public_event (PublicLaneEvent.ticker t) s = apply_fast_ticker t s
  apply_public_event (PublicLaneEvent.trade t) s = apply_fast_trade t s
  apply_public_event (PublicLaneEvent.book_top b) s = apply_fast_book_top b s
  apply_public_event (PublicLaneEvent.order_book_delta d) s = (s, ok tt)
  apply_public_event (PublicLaneEvent.kline k) s = apply_fast_kline k s
  apply_public_event (PublicLaneEvent.mark_price m) s = apply_fast_mark_price m s
  apply_public_event (PublicLaneEvent.funding_rate f) s = (
    record s {
      health = observe_public_message f.event_time s.health;
      funding_rates = insert f.instrument_id f s.funding_rates;
    },
    ok tt,
  )
  apply_public_event (PublicLaneEvent.open_interest o) s = (
    record s {
      health = observe_public_message o.event_time s.health;
      open_interest = insert o.instrument_id o s.open_interest;
    },
    ok tt,
  )
  apply_public_event (PublicLaneEvent.liquidation l) s = apply_fast_liquidation l s
  apply_public_event (PublicLaneEvent.divergence d) s = (apply_public_divergence d s, ok tt)
