-- ===== src/Core/Engine/Orphans.antt =====
-- crates/bat-markets-core/src/state.rs: market state is kept for listed instruments only.
use bat_markets.Prelude.{
  ◌≡◌, refl, true, some, List, [], ◌∷◌, arith, inl, inr, unwrap_or, Option-cases, Bool-cases,
}
use bat_markets.Ord.{str_ord}
use bat_markets.OrdMap.{OrdMap, get, contains_key, insert, retain}
use bat_markets.OrdMap.Entries.{AllEntries, AllEntries-insert}
use bat_markets.Core.Command.{PrivateSnapshot}
use bat_markets.Core.Types.{Venue, Product, InstrumentId}
use bat_markets.Core.Numeric.{DecimalOps}
use bat_markets.Core.Instrument.{InstrumentSpec}
use bat_markets.Core.Market.{
  unify_ticker, unify_trade, unify_book_top, unify_kline, unify_mark_price, unify_liquidation,
}
use bat_markets.Core.Execution.{PublicLaneEvent, PrivateLaneEvent}
use bat_markets.Core.Engine.{EngineState, StatePolicy, new, spec, push_bounded, back}
use bat_markets.Core.Engine.Public
use bat_markets.Core.Engine.Private
use bat_markets.Core.Engine.Ops.{Op, step, run}

module _ {D : Type 0} where
  -- The key of an entry is a listed instrument.
  abbrev pub Listed :
      {V : Type 0} → OrdMap InstrumentId (InstrumentSpec D) → InstrumentId → V → Type 0
  Listed instruments id v = contains_key id instruments ≡ true

  -- The six caches that are filled through the scales of an instrument.
  pub record HasNoOrphans (s : EngineState D) : Type 0 where
    pub tickers : AllEntries (Listed s.instruments) s.tickers
    pub trades : AllEntries (Listed s.instruments) s.recent_trades
    pub tops : AllEntries (Listed s.instruments) s.book_tops
    pub candles : AllEntries (Listed s.instruments) s.klines
    pub marks : AllEntries (Listed s.instruments) s.mark_prices
    pub forced : AllEntries (Listed s.instruments) s.liquidations

  retained-Listed :
      {V : Type 0} (instruments : OrdMap InstrumentId (InstrumentSpec D))
      (m : OrdMap InstrumentId V)
      → AllEntries (Listed instruments) (retain (λ id v. contains_key id instruments) m)
  retained-Listed instruments [] = tt
  retained-Listed instruments ((k, v) ∷ m) = ground (arith, retained-Listed instruments m)

  replace_instruments-HasNoOrphans :
      (specs : List (InstrumentSpec D)) (s : EngineState D)
      → HasNoOrphans (Private.replace_instruments specs s)
  unfolding Private.replace_instruments
  replace_instruments-HasNoOrphans specs s = record {
    tickers = retained-Listed _ s.tickers;
    trades = retained-Listed _ s.recent_trades;
    tops = retained-Listed _ s.book_tops;
    candles = retained-Listed _ s.klines;
    marks = retained-Listed _ s.mark_prices;
    forced = retained-Listed _ s.liquidations;
  }

  -- A value filed under an instrument whose spec was found.
  insert-Listed :
      {V : Type 0} (instruments : OrdMap InstrumentId (InstrumentSpec D)) (id : InstrumentId)
      (sp : InstrumentSpec D) (v : V) (m : OrdMap InstrumentId V)
      → get id instruments ≡ some sp
      → AllEntries (Listed instruments) m
      → AllEntries (Listed instruments) (insert id v m)
  unfolding contains_key
  insert-Listed instruments id sp v m h b =
      AllEntries-insert (Listed instruments) id v m (rw (h, contains_key) refl) b

module _ {D : Type 0} (dec : DecimalOps D) where
  public_event-HasNoOrphans :
      (e : PublicLaneEvent D) (s : EngineState D)
      → HasNoOrphans s
      → HasNoOrphans (Public.apply_public_event dec e s).0
  unfolding Public.apply_public_event Public.apply_fast_ticker Public.apply_fast_trade
      Public.apply_fast_book_top Public.apply_fast_kline Public.apply_fast_mark_price
      Public.apply_fast_liquidation Public.apply_public_divergence spec unify_trade
  public_event-HasNoOrphans (PublicLaneEvent.ticker t) s b =
      elim (Option-cases (get t.instrument_id s.instruments)) [
        | inl h ↦ rw (h, Public.apply_fast_ticker) b
        | inr (sp, h) ↦
            rw (h, Public.apply_fast_ticker)
              (record {
                tickers =
                    insert-Listed s.instruments t.instrument_id sp (unify_ticker dec sp t) s.tickers
                      h b.tickers;
                trades = b.trades;
                tops = b.tops;
                candles = b.candles;
                marks = b.marks;
                forced = b.forced;
              })
      ]
  public_event-HasNoOrphans (PublicLaneEvent.trade t) s b =
      elim (Option-cases (get t.instrument_id s.instruments)) [
        | inl h ↦ rw (h, Public.apply_fast_trade) b
        | inr (sp, h) ↦
            rw (h, Public.apply_fast_trade)
              (elim (Bool-cases (
                Public.repeats t.trade_id
                  (back (unwrap_or (get t.instrument_id s.recent_trades) [])))) [
                    | inl e ↦ rw e (
                        ground (
                          arith,
                          insert-Listed s.instruments t.instrument_id sp
                              (unwrap_or (get t.instrument_id s.recent_trades) []) s.recent_trades h
                              b.trades,
                        ))
                    | inr e ↦ rw e (
                        ground (
                          arith,
                          insert-Listed s.instruments t.instrument_id sp
                              (push_bounded s.state_policy.recent_trade_capacity
                                (unify_trade dec sp t)
                                (unwrap_or (get t.instrument_id s.recent_trades) []))
                              s.recent_trades h b.trades,
                        ))
                  ])
      ]
  public_event-HasNoOrphans (PublicLaneEvent.book_top t) s b =
      elim (Option-cases (get t.instrument_id s.instruments)) [
        | inl h ↦ rw (h, Public.apply_fast_book_top) b
        | inr (sp, h) ↦
            rw (h, Public.apply_fast_book_top)
              (ground (
                arith,
                insert-Listed s.instruments t.instrument_id sp (unify_book_top dec sp t) s.book_tops
                    h b.tops,
              ))
      ]
  public_event-HasNoOrphans (PublicLaneEvent.kline t) s b =
      elim (Option-cases (get t.instrument_id s.instruments)) [
        | inl h ↦ rw (h, Public.apply_fast_kline) b
        | inr (sp, h) ↦
            rw (h, Public.apply_fast_kline)
              (ground (
                arith,
                insert-Listed s.instruments t.instrument_id sp (unify_kline dec sp t) s.klines h
                    b.candles,
              ))
      ]
  public_event-HasNoOrphans (PublicLaneEvent.mark_price t) s b =
      elim (Option-cases (get t.instrument_id s.instruments)) [
        | inl h ↦ rw (h, Public.apply_fast_mark_price) b
        | inr (sp, h) ↦
            rw (h, Public.apply_fast_mark_price)
              (ground (
                arith,
                insert-Listed s.instruments t.instrument_id sp (unify_mark_price dec sp t)
                    s.mark_prices h b.marks,
              ))
      ]
  public_event-HasNoOrphans (PublicLaneEvent.liquidation t) s b =
      elim (Option-cases (get t.instrument_id s.instruments)) [
        | inl h ↦ rw (h, Public.apply_fast_liquidation) b
        | inr (sp, h) ↦
            rw (h, Public.apply_fast_liquidation)
              (ground (
                arith,
                insert-Listed s.instruments t.instrument_id sp
                    (push_bounded s.state_policy.recent_trade_capacity (unify_liquidation dec sp t)
                      (unwrap_or (get t.instrument_id s.liquidations) []))
                    s.liquidations h b.forced,
              ))
      ]
  public_event-HasNoOrphans _ s b = ground arith

  private_event-HasNoOrphans :
      (e : PrivateLaneEvent D) (s : EngineState D)
      → HasNoOrphans s
      → HasNoOrphans (Private.apply_private_event e s)
  unfolding Private.apply_private_event
  private_event-HasNoOrphans (PrivateLaneEvent.balance x) s b = ground arith
  private_event-HasNoOrphans _ s b = ground arith

  private_snapshot-HasNoOrphans :
      (p : PrivateSnapshot D) (s : EngineState D)
      → HasNoOrphans s
      → HasNoOrphans (Private.apply_private_snapshot p s)
  unfolding Private.apply_private_snapshot Private.replace_open_orders Private.replace_positions
      Private.replace_account_snapshot
  private_snapshot-HasNoOrphans p s b = ground arith

  step-HasNoOrphans :
      (op : Op D) (s : EngineState D) → HasNoOrphans s → HasNoOrphans (step dec op s)
  unfolding step Private.apply_command_receipt Private.replace_account_snapshot
      Private.replace_positions Private.replace_open_orders Private.merge_order_history
      Private.merge_executions Private.apply_reconcile_report Private.mark_rest_success
      Private.mark_public_disconnect Private.mark_private_disconnect Private.mark_reconnect
      Private.mark_snapshot_age
  step-HasNoOrphans (Op.public_event e) s b = public_event-HasNoOrphans e s b
  step-HasNoOrphans (Op.private_event e) s b = private_event-HasNoOrphans e s b
  step-HasNoOrphans (Op.replace_instruments specs) s b = replace_instruments-HasNoOrphans specs s
  step-HasNoOrphans (Op.private_snapshot p) s b = private_snapshot-HasNoOrphans p s b
  step-HasNoOrphans _ s b = ground arith

  run-HasNoOrphans :
      (ops : List (Op D)) (s : EngineState D) → HasNoOrphans s → HasNoOrphans (run dec ops s)
  unfolding run
  run-HasNoOrphans [] s b = b
  run-HasNoOrphans (op ∷ ops) s b = run-HasNoOrphans ops (step dec op s) (step-HasNoOrphans op s b)

  -- After any calls on a new engine, also ones that replace the instruments, each ticker, trade
  -- queue, book top, kline, mark price and liquidation queue belongs to a listed instrument.
  pub run-new-HasNoOrphans :
      (venue : Venue) (product : Product) (policy : StatePolicy) (specs : List (InstrumentSpec D))
      (ops : List (Op D))
      → HasNoOrphans (run dec ops (new venue product policy specs))
  unfolding new
  run-new-HasNoOrphans venue product policy specs ops =
      run-HasNoOrphans ops (new venue product policy specs)
        (record { tickers = tt; trades = tt; tops = tt; candles = tt; marks = tt; forced = tt })
