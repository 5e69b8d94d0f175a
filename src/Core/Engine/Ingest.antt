-- ===== src/Core/Engine/Ingest.antt =====
-- crates/bat-markets-core/src/state.rs: what `apply_public_event` accepts, and what it writes.
use bat_markets.Prelude.{
  ℕ, ◌<◌, ◌≡◌, ◌⊎◌, refl, Bool, true, false, Option, none, some, List, [], arith, unwrap_or,
  if◌then◌else◌, inl, inr, Bool-cases, Option-cases, map_option,
}
use bat_markets.Ord.{◌===◌, str_ord}
use bat_markets.OrdMap.{get, contains_key, insert}
use bat_markets.OrdMap.Laws.{get-insert, get-insert_self}
use bat_markets.Core.Types.{InstrumentId, TradeId}
use bat_markets.Core.Failure.{ok, err, config_error}
use bat_markets.Core.Numeric.{DecimalOps}
use bat_markets.Core.Instrument.{InstrumentSpec}
use bat_markets.Core.Market.{FastTicker, FastTrade, TradeTick, unify_ticker, unify_trade}
use bat_markets.Core.Execution.{PublicLaneEvent}
use bat_markets.Core.Engine.{EngineState, spec, push_bounded, back}
use bat_markets.Core.Engine.Queues.{back-push_bounded}
use bat_markets.Core.Engine.Public.{
  Outcome, repeats, apply_public_event, apply_fast_ticker, apply_fast_trade, apply_fast_book_top,
  apply_fast_kline, apply_fast_mark_price, apply_fast_liquidation,
}

module _ {D : Type 0} where
  -- The instrument whose scales an event is converted with, if it is converted.
  abbrev pub scaled_by : PublicLaneEvent D → Option InstrumentId
  scaled_by (PublicLaneEvent.ticker t) = some t.instrument_id
  scaled_by (PublicLaneEvent.trade t) = some t.instrument_id
  scaled_by (PublicLaneEvent.book_top b) = some b.instrument_id
  scaled_by (PublicLaneEvent.kline k) = some k.instrument_id
  scaled_by (PublicLaneEvent.mark_price m) = some m.instrument_id
  scaled_by (PublicLaneEvent.liquidation l) = some l.instrument_id
  scaled_by _ = none

  abbrev pub is_listed : Option InstrumentId → EngineState D → Bool
  is_listed none s = true
  is_listed (some id) s = contains_key id s.instruments

  -- The trades of an instrument, oldest first, and the id of the newest of a queue.
  abbrev pub trades_of : EngineState D → InstrumentId → List (TradeTick D)
  trades_of s id = unwrap_or (get id s.recent_trades) []

  abbrev pub newest_id : List (TradeTick D) → Option TradeId
  newest_id q = map_option (λ t. t.trade_id) (back q)

  -- Rejected as a configuration error, with nothing changed.
  abbrev pub IsRefused : EngineState D → Outcome D → Type 0
  IsRefused s (s', ok x) = ⊥
  IsRefused s (s', err e) = (s' ≡ s) × (e.kind ≡ config_error)

module _ {D : Type 0} (dec : DecimalOps D) where
  -- An event is taken if it needs no scales or its instrument is listed; else it is refused with a
  -- configuration error and leaves the whole state as it was.
  pub apply_public_event_listed :
      (e : PublicLaneEvent D) (s : EngineState D)
      → ((is_listed (scaled_by e) s ≡ true) × ((apply_public_event dec e s).1 ≡ ok tt))
        ⊎ ((is_listed (scaled_by e) s ≡ false) × IsRefused s (apply_public_event dec e s))
  unfolding apply_public_event apply_fast_ticker apply_fast_trade apply_fast_book_top
      apply_fast_kline apply_fast_mark_price apply_fast_liquidation spec contains_key
  apply_public_event_listed (PublicLaneEvent.ticker t) s = ground arith
  apply_public_event_listed (PublicLaneEvent.trade t) s = ground arith
  apply_public_event_listed _ s = ground arith

  -- A ticker of a listed instrument is read back in the instrument's scales, under its id only.
  pub ticker_read_back :
      (t : FastTicker) (s : EngineState D) (sp : InstrumentSpec D) (j : InstrumentId)
      → get t.instrument_id s.instruments ≡ some sp
      → get j (apply_public_event dec (PublicLaneEvent.ticker t) s).0.tickers
        ≡ (if j === t.instrument_id then some (unify_ticker dec sp t) else get j s.tickers)
  unfolding apply_public_event apply_fast_ticker spec
  ticker_read_back t s sp j h =
      rw (h, apply_fast_ticker) (get-insert j t.instrument_id (unify_ticker dec sp t) s.tickers)

  -- The queue that a trade leaves for its instrument.
  queue_after :
      (t : FastTrade) (s : EngineState D) (sp : InstrumentSpec D)
      → get t.instrument_id s.instruments ≡ some sp
      → let entry = trades_of s t.instrument_id in
        (apply_public_event dec (PublicLaneEvent.trade t) s).0.recent_trades
        ≡ insert t.instrument_id
            (if repeats t.trade_id (back entry)
              then entry
              else push_bounded s.state_policy.recent_trade_capacity (unify_trade dec sp t) entry)
            s.recent_trades
  unfolding apply_public_event apply_fast_trade spec
  queue_after t s sp h =
      rw (h, apply_fast_trade)
        (elim (Bool-cases (repeats t.trade_id (back (trades_of s t.instrument_id)))) [
          | inl e ↦ rw e refl
          | inr e ↦ rw e refl
        ])

  repeats_newest :
      (id : TradeId) (q : List (TradeTick D)) → repeats id (back q) ≡ true → newest_id q ≡ some id
  repeats_newest id q e = elim (Option-cases (back q)) [
    | inl h ↦ ground arith
    | inr (x, h) ↦ ground (arith, str_ord.cmp_iff x.trade_id id)
  ]

  newest_after :
      (t : FastTrade) (cap : ℕ) (sp : InstrumentSpec D) (q : List (TradeTick D))
      → 0 < cap
      → newest_id
          (if repeats t.trade_id (back q) then q else push_bounded cap (unify_trade dec sp t) q)
        ≡ some t.trade_id
  unfolding unify_trade
  newest_after t cap sp q room = elim (Bool-cases (repeats t.trade_id (back q))) [
    | inl e ↦ rw e (repeats_newest t.trade_id q e)
    | inr e ↦ rw e (rw (back-push_bounded cap (unify_trade dec sp t) q room) refl)
  ]

  -- With room for one trade, a trade of a listed instrument ends as the newest of its queue. The
  -- queue is kept if its newest trade had that id and else takes the trade in the instrument's
  -- scales, within the capacity; no other queue changes.
  pub trade_retained :
      (t : FastTrade) (s : EngineState D) (sp : InstrumentSpec D) (j : InstrumentId)
      → get t.instrument_id s.instruments ≡ some sp
      → 0 < s.state_policy.recent_trade_capacity
      → let s' = (apply_public_event dec (PublicLaneEvent.trade t) s).0 in
        let q = trades_of s t.instrument_id in
        (newest_id (trades_of s' t.instrument_id) ≡ some t.trade_id)
        × (get j s'.recent_trades ≡ (
            if j === t.instrument_id
            then some (
                if repeats t.trade_id (back q)
                then q
                else push_bounded s.state_policy.recent_trade_capacity (unify_trade dec sp t) q)
            else get j s.recent_trades))
  trade_retained t s sp j h room =
      let q = trades_of s t.instrument_id in
      let cap : ℕ = s.state_policy.recent_trade_capacity in
      let q' =
        if repeats t.trade_id (back q) then q else push_bounded cap (unify_trade dec sp t) q in
      rw (queue_after t s sp h) (
        rw (get-insert_self t.instrument_id q' s.recent_trades) (newest_after t cap sp q room),
        get-insert j t.instrument_id q' s.recent_trades,
      )
