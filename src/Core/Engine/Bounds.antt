-- ===== src/Core/Engine/Bounds.antt =====
-- crates/bat-markets-core/src/state.rs: the retained queues stay within `StatePolicy`, and the
-- fills stay free of repeats, through every method.
use bat_markets.Prelude.{ℕ, ◌≤◌, ◌≡◌, refl, List, [], ◌∷◌, arith, length, unwrap_or, inl, inr, ◌∙◌}
use bat_markets.Ord.{str_ord}
use bat_markets.OrdMap.{get}
use bat_markets.OrdMap.Entries.{
  AllEntries, AllEntries-insert, AllEntries-unwrap_or, AllEntries-retain,
}
use bat_markets.Core.Types.{Venue, Product, InstrumentId}
use bat_markets.Core.Failure.{Result-cases}
use bat_markets.Core.Numeric.{DecimalOps}
use bat_markets.Core.Instrument.{InstrumentSpec}
use bat_markets.Core.Market.{
  FastTrade, FastLiquidation, TradeTick, Liquidation, unify_trade, unify_liquidation,
}
use bat_markets.Core.Trade.{Execution}
use bat_markets.Core.Execution.{PublicLaneEvent, PrivateLaneEvent}
use bat_markets.Core.Command.{PrivateSnapshot}
use bat_markets.Core.Engine.{EngineState, StatePolicy, new, spec, push_bounded, record_execution}
use bat_markets.Core.Engine.Public
use bat_markets.Core.Engine.Private
use bat_markets.Core.Engine.Ops.{Op, step, run}
use bat_markets.Core.Engine.Queues.{
  IsUnique, length-push_bounded, record_execution-IsUnique, length-record_execution,
}

abbrev pub Within : {A : Type 0} → ℕ → InstrumentId → List A → Type 0
Within cap id q = length q ≤ cap

module _ {D : Type 0} where
  -- Within the policy: each trade queue, each liquidation queue and the fills, no fill twice.
  pub record IsBounded (s : EngineState D) : Type 0 where
    pub trades : AllEntries (Within s.state_policy.recent_trade_capacity) s.recent_trades
    pub forced : AllEntries (Within s.state_policy.recent_trade_capacity) s.liquidations
    pub fills : length s.executions ≤ s.state_policy.execution_capacity
    pub unique : IsUnique s.executions

  record_executions-bounds :
      (cap : ℕ) (xs es : List (Execution D))
      → length es ≤ cap
      → IsUnique es
      → (length (Private.record_executions cap xs es) ≤ cap)
        × IsUnique (Private.record_executions cap xs es)
  unfolding Private.record_executions
  record_executions-bounds cap [] es h u = (h, u)
  record_executions-bounds cap (x ∷ xs) es h u =
      record_executions-bounds cap xs (record_execution cap x es)
        (length-record_execution cap x es h) (record_execution-IsUnique cap x es u)

module _ {D : Type 0} (dec : DecimalOps D) where
  trade-IsBounded :
      (t : FastTrade) (s : EngineState D)
      → IsBounded s
      → IsBounded (Public.apply_fast_trade dec t s).0
  unfolding Public.apply_fast_trade
  trade-IsBounded t s b = elim (Result-cases (spec s t.instrument_id)) [
    | inl (e, h) ↦ rw (h, Public.apply_fast_trade) b
    | inr (sp, h) ↦
        let cap : ℕ = s.state_policy.recent_trade_capacity in
        let entry : List (TradeTick D) = unwrap_or (get t.instrument_id s.recent_trades) [] in
        rw (h, Public.apply_fast_trade)
          (ground (
            arith,
            AllEntries-insert (Within cap) t.instrument_id entry s.recent_trades
                (AllEntries-unwrap_or (Within cap) t.instrument_id [] s.recent_trades (omega arith)
                  b.trades)
                b.trades,
            AllEntries-insert (Within cap) t.instrument_id
                (push_bounded cap (unify_trade dec sp t) entry) s.recent_trades
                (length-push_bounded cap (unify_trade dec sp t) entry) b.trades,
          ))
  ]

  liquidation-IsBounded :
      (l : FastLiquidation) (s : EngineState D)
      → IsBounded s
      → IsBounded (Public.apply_fast_liquidation dec l s).0
  unfolding Public.apply_fast_liquidation
  liquidation-IsBounded l s b = elim (Result-cases (spec s l.instrument_id)) [
    | inl (e, h) ↦ rw (h, Public.apply_fast_liquidation) b
    | inr (sp, h) ↦
        let cap : ℕ = s.state_policy.recent_trade_capacity in
        let entry : List (Liquidation D) = unwrap_or (get l.instrument_id s.liquidations) [] in
        rw (h, Public.apply_fast_liquidation)
          (record {
            trades = b.trades;
            forced =
                AllEntries-insert (Within cap) l.instrument_id
                  (push_bounded cap (unify_liquidation dec sp l) entry) s.liquidations
                  (length-push_bounded cap (unify_liquidation dec sp l) entry) b.forced;
            fills = b.fills;
            unique = b.unique;
          })
  ]

  public_event-IsBounded :
      (e : PublicLaneEvent D) (s : EngineState D)
      → IsBounded s
      → IsBounded (Public.apply_public_event dec e s).0
  unfolding Public.apply_public_event Public.apply_fast_ticker Public.apply_fast_book_top
      Public.apply_fast_kline Public.apply_fast_mark_price Public.apply_public_divergence
  public_event-IsBounded (PublicLaneEvent.trade t) s b = trade-IsBounded t s b
  public_event-IsBounded (PublicLaneEvent.liquidation l) s b = liquidation-IsBounded l s b
  public_event-IsBounded _ s b = ground arith

module _ {D : Type 0} where
  private_event-IsBounded :
      (e : PrivateLaneEvent D) (s : EngineState D)
      → IsBounded s
      → IsBounded (Private.apply_private_event e s)
  unfolding Private.apply_private_event
  private_event-IsBounded (PrivateLaneEvent.execution e) s b =
      let cap : ℕ = s.state_policy.execution_capacity in
      record {
        trades = b.trades;
        forced = b.forced;
        fills = length-record_execution cap e s.executions b.fills;
        unique = record_execution-IsUnique cap e s.executions b.unique;
      }
  private_event-IsBounded (PrivateLaneEvent.balance x) s b = ground arith
  private_event-IsBounded _ s b = ground arith

  replace_instruments-IsBounded :
      (specs : List (InstrumentSpec D)) (s : EngineState D)
      → IsBounded s
      → IsBounded (Private.replace_instruments specs s)
  unfolding Private.replace_instruments
  replace_instruments-IsBounded specs s b = record {
    trades =
        AllEntries-retain (Within s.state_policy.recent_trade_capacity) _ s.recent_trades b.trades;
    forced =
        AllEntries-retain (Within s.state_policy.recent_trade_capacity) _ s.liquidations b.forced;
    fills = b.fills;
    unique = b.unique;
  }

  merge_executions-IsBounded :
      (es : List (Execution D)) (s : EngineState D)
      → IsBounded s
      → IsBounded (Private.merge_executions es s)
  unfolding Private.merge_executions
  merge_executions-IsBounded es s b =
      let kept =
        record_executions-bounds s.state_policy.execution_capacity es s.executions b.fills
          b.unique in
      record { trades = b.trades; forced = b.forced; fills = kept.0; unique = kept.1 }

  private_snapshot-IsBounded :
      (p : PrivateSnapshot D) (s : EngineState D)
      → IsBounded s
      → IsBounded (Private.apply_private_snapshot p s)
  unfolding Private.apply_private_snapshot Private.replace_open_orders Private.replace_positions
      Private.replace_account_snapshot
  private_snapshot-IsBounded p s b = ground arith

module _ {D : Type 0} (dec : DecimalOps D) where
  -- Every method keeps the queues within the policy and the fills free of repeats.
  pub step-IsBounded : (op : Op D) (s : EngineState D) → IsBounded s → IsBounded (step dec op s)
  unfolding step Private.apply_command_receipt Private.replace_account_snapshot
      Private.replace_positions Private.replace_open_orders Private.merge_order_history
      Private.apply_reconcile_report Private.mark_rest_success Private.mark_public_disconnect
      Private.mark_private_disconnect Private.mark_reconnect Private.mark_snapshot_age
  step-IsBounded (Op.public_event e) s b = public_event-IsBounded dec e s b
  step-IsBounded (Op.private_event e) s b = private_event-IsBounded e s b
  step-IsBounded (Op.replace_instruments specs) s b = replace_instruments-IsBounded specs s b
  step-IsBounded (Op.merge_executions es) s b = merge_executions-IsBounded es s b
  step-IsBounded (Op.private_snapshot p) s b = private_snapshot-IsBounded p s b
  step-IsBounded _ s b = ground arith

  step-policy : (op : Op D) (s : EngineState D) → (step dec op s).state_policy ≡ s.state_policy
  unfolding step Public.apply_public_event Public.apply_fast_ticker Public.apply_fast_trade
      Public.apply_fast_book_top Public.apply_fast_kline Public.apply_fast_mark_price
      Public.apply_fast_liquidation Public.apply_public_divergence Private.apply_private_event
      Private.apply_command_receipt Private.replace_instruments Private.replace_account_snapshot
      Private.replace_positions Private.replace_open_orders Private.merge_order_history
      Private.merge_executions Private.apply_private_snapshot Private.apply_reconcile_report
      Private.mark_rest_success Private.mark_public_disconnect Private.mark_private_disconnect
      Private.mark_reconnect Private.mark_snapshot_age
  step-policy (Op.public_event (PublicLaneEvent.trade t)) s = ground arith
  step-policy (Op.public_event _) s = ground arith
  step-policy (Op.private_event (PrivateLaneEvent.execution e)) s = refl
  step-policy (Op.private_event _) s = refl
  step-policy _ s = ground arith

  run-IsBounded :
      (ops : List (Op D)) (s : EngineState D)
      → IsBounded s
      → IsBounded (run dec ops s) × ((run dec ops s).state_policy ≡ s.state_policy)
  unfolding run
  run-IsBounded [] s b = (b, refl)
  run-IsBounded (op ∷ ops) s b =
      let rest = run-IsBounded ops (step dec op s) (step-IsBounded op s b) in
      (rest.0, rest.1 ∙ step-policy op s)

  -- After any calls on a new engine, in any order, every trade queue and liquidation queue is within
  -- the trade capacity, the fills are within theirs and none is held twice.
  pub run-new-IsBounded :
      (venue : Venue) (product : Product) (policy : StatePolicy) (specs : List (InstrumentSpec D))
      (ops : List (Op D))
      → let s = run dec ops (new venue product policy specs) in
        IsBounded s × (s.state_policy ≡ policy)
  unfolding new
  run-new-IsBounded venue product policy specs ops =
      run-IsBounded ops (new venue product policy specs)
        (record { trades = tt; forced = tt; fills = omega arith; unique = tt })
