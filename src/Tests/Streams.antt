-- ===== src/Tests/Streams.antt =====
-- crates/bat-markets/src: the properties of the shared state and of the public streams at concrete
-- frames, and the tape of trades.
use bat_markets.Prelude.{
  ℕ, ◌≡◌, ◌⊎◌, refl, true, false, none, some, List, [], ◌∷◌, ◌++◌, All, arith, ltb,
}
use bat_markets.Prelude.Int.{pos, pos_part, max_ℤ, wrap_i64, ◌+ℤ◌}
use bat_markets.Prelude.Text.{str}
use bat_markets.Core.Types.{Venue}
use bat_markets.Core.Failure.{MarketError, ok, err, config_error}
use bat_markets.Core.Execution.{PublicLaneEvent, DivergenceEvent}
use bat_markets.Core.Health.{mark_public_gap}
use bat_markets.Core.Health
use bat_markets.Core.Engine.{EngineState, new}
use bat_markets.Core.Engine.Filed.{IsFiled, run-new-IsFiled}
use bat_markets.Core.Engine.Queues.{drop_front}
use bat_markets.Core.Engine.Tape.{Shows, apply_events, tape_events, apply_events-Shows}
use bat_markets.Facade.Hub.{PublicSubscription, nothing_wanted}
use bat_markets.Facade.Retry.{ReconnectPolicy, should_reconnect}
use bat_markets.Facade.Sequence.{
  SequenceObservation, SequenceTracker, gap, observe_all, observe, observe_after,
}
use bat_markets.Facade.Shared.{
  SharedState, new_shared, share_public_events, should_publish_health_change,
}
use bat_markets.Facade.Shared.Listed.{IsListed}
use bat_markets.Facade.Shared.Batches.{taken, share_public_events_lem}
use bat_markets.Facade.Shared.Watch.{
  Act, stored, published, started, acts, IsInStep, acts-IsInStep, late_publish_stays,
  should_publish-status,
}
use bat_markets.Facade.Session.{Turn, Reader, ended, turn, turns}
use bat_markets.Facade.Session.Kinds.{shared_of, AllWanted}
use bat_markets.Facade.Session.Announced.{turns-AllWanted, turn_gap}
use bat_markets.Facade.Session.Reconnects.{IsEnded, run_public_stream, run_public_stream-IsEnded}
use bat_markets.OrdMap.{get, insert, collect}
use bat_markets.Ord.{str_ord}
use bat_markets.Tests.Values.{
  Decimal, decimal_ops, btc, eth, spec_of, specs, policy, trade_of, ticker_of, fresh, history,
  after_history,
}
use bat_markets.Core.Types.{Product}

abbrev batch : List (PublicLaneEvent Decimal)
batch =
    PublicLaneEvent.trade (trade_of btc (str "t9"))
    ∷ PublicLaneEvent.ticker (ticker_of (str "DOGE/USDT:USDT"))
    ∷ []

abbrev shared : SharedState Decimal
shared = new_shared after_history

shared-IsFiled : IsFiled shared.state
unfolding new_shared
shared-IsFiled = run-new-IsFiled decimal_ops Venue.binance Product.linear_usdt policy specs history

share_public_events_lem_example :
    let (after, result) = share_public_events decimal_ops batch shared in
    (All (IsListed shared.state) batch
      × (result ≡ ok tt)
      × (after.state ≡ taken decimal_ops batch shared.state)
      × (after.public_events ≡ shared.public_events ++ batch))
    ⊎ ((¬ All (IsListed shared.state) batch)
        × ((e : MarketError) × (result ≡ err e) × (e.kind ≡ config_error))
        × (after ≡ shared))
share_public_events_lem_example = share_public_events_lem decimal_ops batch shared shared-IsFiled

abbrev uncertain : EngineState Decimal → EngineState Decimal
uncertain s = record s { health = Health.mark_command_uncertain s.health }

abbrev required : EngineState Decimal → EngineState Decimal
required s = record s { health = Health.mark_reconcile_required s.health }

first_changes : should_publish_health_change fresh.health (uncertain fresh).health ≡ true
unfolding new Health.mark_command_uncertain
first_changes = should_publish-status fresh.health (uncertain fresh).health (λ e. cc)

second_changes :
    should_publish_health_change (uncertain fresh).health (required (uncertain fresh)).health ≡ true
unfolding Health.mark_command_uncertain Health.mark_reconcile_required
second_changes =
    should_publish-status (uncertain fresh).health (required (uncertain fresh)).health (λ e. cc)

-- Two writes, the second before the first is published.
abbrev two_writes : List (Act Decimal)
two_writes = stored uncertain ∷ stored required ∷ published 0 ∷ published 0 ∷ []

two_writes-done : (acts two_writes (started fresh)).in_flight ≡ []
unfolding acts new_shared
two_writes-done = rw (first_changes, second_changes) refl

acts-IsInStep_example : IsInStep (acts two_writes (started fresh)).shared
acts-IsInStep_example = acts-IsInStep two_writes fresh (refl, (refl, tt)) two_writes-done

late_publish_stays_example :
    let last =
      acts (stored uncertain ∷ stored required ∷ published 1 ∷ published 0 ∷ []) (started fresh) in
    (last.in_flight ≡ [])
    × (last.shared.health_watch ≡ (uncertain fresh).health)
    × (last.shared.state.health ≡ (required (uncertain fresh)).health)
late_publish_stays_example =
    late_publish_stays uncertain required fresh first_changes second_changes

abbrev trades_only : PublicSubscription
trades_only = record nothing_wanted { instrument_ids = btc ∷ []; trades = true }

abbrev numbered : ℕ → SequenceObservation
numbered n = record { topic = str "trades"; value = pos n; strict_gap = true; reset = false }

-- A frame is its number; each carries a trade and a ticker.
abbrev reader : Reader Decimal ℕ
reader = record {
  venue = Venue.binance;
  idle_operation = str "binance.public_ws.idle";
  sequence_operation = str "binance.public_ws.sequence";
  closed_text = str "binance public stream closed";
  show_int = λ n. str "number";
  is_control = λ n. false;
  observations = λ n. ok (numbered n ∷ []);
  parse_public = λ n. ok (
      PublicLaneEvent.trade (trade_of btc (str "t1"))
      ∷ PublicLaneEvent.ticker (ticker_of btc)
      ∷ []);
}

abbrev frames : List (Turn Decimal ℕ)
frames = Turn.text 1 ∷ Turn.text 2 ∷ Turn.other ∷ Turn.text 5 ∷ []

turns-AllWanted_example :
    AllWanted trades_only
      (shared_of (turns decimal_ops reader trades_only frames (new_shared fresh) []))
unfolding new_shared
turns-AllWanted_example =
    turns-AllWanted decimal_ops reader trades_only frames (new_shared fresh) [] tt

abbrev reconnects : ReconnectPolicy
reconnects = record {
  ws_initial_backoff_ms = 100;
  ws_max_backoff_ms = 5000;
  max_reconnect_attempts = some 3;
  refresh_metadata_on_reconnect = false;
  reconcile_private_on_reconnect = false;
}

abbrev seen_two : SequenceTracker
seen_two = (observe_all (numbered 2 ∷ []) []).0

skipped : (observe_all (numbered 5 ∷ []) seen_two).1 ≡ gap (pos 3)
unfolding observe_all observe observe_after get insert wrap_i64 ◌+ℤ◌
skipped = refl

turn_gap_example :
    (after : SharedState Decimal) × (e : MarketError) × (turn decimal_ops reader trades_only
        (Turn.text 5)
        (new_shared fresh)
        seen_two
      ≡ ended after (err e))
    × (after.state ≡ record (new_shared fresh).state {
      health = mark_public_gap (new_shared fresh).state.health;
    })
    × (after.public_events
        ≡ (new_shared fresh).public_events
          ++ PublicLaneEvent.divergence
              (DivergenceEvent.sequence_gap (some (pos_part (max_ℤ (pos 3) (pos 0)))))
            ∷ [])
    × (should_reconnect reconnects 0 e
        ≡ elim reconnects.max_reconnect_attempts [ none ↦ true | some max ↦ ltb 0 max ])
turn_gap_example =
    turn_gap decimal_ops reader trades_only 5 (numbered 5 ∷ []) (pos 3) (new_shared fresh) seen_two
      reconnects 0 refl refl skipped

run_public_stream-IsEnded_example :
    IsEnded decimal_ops reader trades_only reconnects
      (λ attempt. Turn.closed ∷ [])
      (λ attempt. ok specs)
      3
      0
      (run_public_stream decimal_ops reader trades_only reconnects
        (λ attempt. Turn.closed ∷ [])
        (λ attempt. ok specs)
        3
        (new_shared fresh))
run_public_stream-IsEnded_example =
    run_public_stream-IsEnded decimal_ops reader trades_only reconnects
      (λ attempt. Turn.closed ∷ []) (λ attempt. ok specs) 3 (new_shared fresh) refl

fresh-Shows : Shows decimal_ops btc (spec_of btc) fresh []
unfolding new get insert collect drop_front
fresh-Shows = record { listed = refl; room = omega arith; shown = refl }

abbrev traded : List (PublicLaneEvent Decimal)
traded =
    PublicLaneEvent.trade (trade_of btc (str "t1"))
    ∷ PublicLaneEvent.trade (trade_of btc (str "t1"))
    ∷ PublicLaneEvent.trade (trade_of eth (str "t2"))
    ∷ PublicLaneEvent.trade (trade_of btc (str "t3"))
    ∷ PublicLaneEvent.trade (trade_of btc (str "t4"))
    ∷ []

apply_events-Shows_example :
    Shows decimal_ops btc
      (spec_of btc)
      (apply_events decimal_ops btc (spec_of btc) traded fresh)
      (tape_events decimal_ops btc (spec_of btc) traded [])
apply_events-Shows_example =
    apply_events-Shows decimal_ops btc (spec_of btc) traded fresh [] fresh-Shows
