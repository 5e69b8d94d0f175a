-- ===== src/Facade/Shared.antt =====
-- crates/bat-markets/src/client.rs: `SharedState`, the engine state behind its lock, with what its
-- channels are sent.
pub mod Listed
pub mod Outcomes
pub mod Batches
pub mod Watch
use native.Mathlib.Decide.{ℕ_discrete}
use mathlib.Core.Bool.{decide}
use bat_markets.Prelude.{
  Bool, true, false, not, ◌||◌, ◌&&◌, Option, none, some, List, [], ◌∷◌, ◌++◌, any, if◌then◌else◌,
}
use bat_markets.Prelude.Int.{ℤ}
use bat_markets.Prelude.Text.{Str, str}
use bat_markets.Ord.{◌===◌, str_ord}
use bat_markets.Core.Types.{InstrumentId, show_venue, show_product}
use bat_markets.Core.Numeric.{DecimalOps}
use bat_markets.Core.Failure.{MarketError, Result, ok, err, market_error, config_error}
use bat_markets.Core.Health.{HealthReport, HealthStatus, DegradedReason}
use bat_markets.Core.Execution.{PublicLaneEvent, PrivateLaneEvent}
use bat_markets.Core.Engine.{EngineState}
use bat_markets.Core.Engine.Public.{apply_public_event}
use bat_markets.Core.Engine.Private
use bat_markets.Core.Engine.Read.{instrument_specs}

-- `HealthNotification` of health.rs.
pub record HealthNotification : Type 0 where
  pub previous : HealthReport
  pub current : HealthReport

-- The state, the value of the watch channel, and what the broadcast channels were sent, oldest
-- first. The command bus is modelled with the reconcile pass, lock timings are left out.
pub record SharedState (D : Type 0) : Type 0 where
  pub state : EngineState D
  pub health_watch : HealthReport
  pub health_notifications : List HealthNotification
  pub public_events : List (PublicLaneEvent D)
  pub private_events : List (PrivateLaneEvent D)

pub HealthStatus-discrete : Discrete HealthStatus
HealthStatus-discrete = hlevel

pub DegradedReason-discrete : Discrete (Option DegradedReason)
DegradedReason-discrete = hlevel

pub skew-discrete : Discrete (Option ℤ)
skew-discrete = hlevel ℕ_discrete

pub bool-discrete : Discrete Bool
bool-discrete = hlevel

unfoldable pub should_publish_health_change : HealthReport → HealthReport → Bool
should_publish_health_change before after =
    not (decide (HealthStatus-discrete before.status after.status))
    || not (decide (bool-discrete before.rest_ok after.rest_ok))
    || not (decide (bool-discrete before.ws_public_ok after.ws_public_ok))
    || not (decide (bool-discrete before.ws_private_ok after.ws_private_ok))
    || not (decide (skew-discrete before.clock_skew_ms after.clock_skew_ms))
    || not (decide (ℕ_discrete before.reconnect_count after.reconnect_count))
    || not (decide (bool-discrete before.state_divergence after.state_divergence))
    || not (decide (DegradedReason-discrete before.degraded_reason after.degraded_reason))

-- `SharedState::new`.
unfoldable pub new_shared : {D : Type 0} → EngineState D → SharedState D
new_shared s = record {
  state = s;
  health_watch = s.health;
  health_notifications = [];
  public_events = [];
  private_events = [];
}

module _ {D : Type 0} where
  -- `SharedState::write` while it holds the lock: what the closure leaves as the state, and the
  -- change of the health that is to be published.
  abbrev pub store :
      {A : Type 0}
      → (EngineState D → EngineState D × A)
      → SharedState D
      → SharedState D × Option HealthNotification × A
  store f s =
      let (after, result) = f s.state in
      (
        record s { state = after },
        if should_publish_health_change s.state.health after.health
            then some (record { previous = s.state.health; current = after.health })
            else none,
        result,
      )

  -- After the lock is released: `send_replace` on the watch channel and `send` on the other.
  abbrev pub publish : Option HealthNotification → SharedState D → SharedState D
  publish none s = s
  publish (some change) s = record s {
    health_watch = change.current;
    health_notifications = s.health_notifications ++ change ∷ [];
  }

  -- `SharedState::write` of one task; another may take the lock between its two halves.
  unfoldable pub write :
      {A : Type 0} → (EngineState D → EngineState D × A) → SharedState D → SharedState D × A
  unfolding should_publish_health_change
  write f s = let (held, change, result) = store f s in (publish change held, result)

  unfoldable pub fallible_public_event_instrument_id : PublicLaneEvent D → Option InstrumentId
  fallible_public_event_instrument_id (PublicLaneEvent.ticker t) = some t.instrument_id
  fallible_public_event_instrument_id (PublicLaneEvent.trade t) = some t.instrument_id
  fallible_public_event_instrument_id (PublicLaneEvent.book_top b) = some b.instrument_id
  fallible_public_event_instrument_id (PublicLaneEvent.kline k) = some k.instrument_id
  fallible_public_event_instrument_id (PublicLaneEvent.mark_price m) = some m.instrument_id
  fallible_public_event_instrument_id (PublicLaneEvent.liquidation l) = some l.instrument_id
  fallible_public_event_instrument_id (PublicLaneEvent.order_book_delta d) = none
  fallible_public_event_instrument_id (PublicLaneEvent.funding_rate f) = none
  fallible_public_event_instrument_id (PublicLaneEvent.open_interest o) = none
  fallible_public_event_instrument_id (PublicLaneEvent.divergence d) = none

  unfoldable pub unknown_public_event_error : EngineState D → InstrumentId → MarketError
  unknown_public_event_error s id = market_error config_error (
      str "unknown instrument "
      ++ (id ++ (str " for " ++ (show_venue s.venue ++ (str " " ++ show_product s.product)))))

  -- The check of a batch of several events: the first whose instrument is not listed.
  abbrev pub check_one : EngineState D → Option InstrumentId → Result (Unit {0}) → Result (Unit {0})
  check_one s none rest = rest
  check_one s (some id) rest =
      if any (λ spec. spec.instrument_id === id) (instrument_specs s)
      then rest
      else err (unknown_public_event_error s id)

  unfoldable pub check_events : EngineState D → List (PublicLaneEvent D) → Result (Unit {0})
  unfolding instrument_specs fallible_public_event_instrument_id unknown_public_event_error
  check_events s [] = ok tt
  check_events s (e ∷ es) = check_one s (fallible_public_event_instrument_id e) (check_events s es)

  abbrev pub checked_if_many : EngineState D → List (PublicLaneEvent D) → Result (Unit {0})
  checked_if_many s [] = ok tt
  checked_if_many s (e ∷ []) = ok tt
  checked_if_many s (d ∷ e ∷ es) = check_events s (d ∷ e ∷ es)

  -- `let _ = self.public_events.send(event)` for each event, after a success.
  abbrev pub announce :
      List (PublicLaneEvent D)
      → SharedState D × Result (Unit {0})
      → SharedState D × Result (Unit {0})
  announce events (s, err failure) = (s, err failure)
  announce events (s, ok done) = (record s { public_events = s.public_events ++ events }, ok done)

  unfoldable pub apply_private_events : List (PrivateLaneEvent D) → EngineState D → EngineState D
  apply_private_events [] s = s
  apply_private_events (e ∷ es) s = apply_private_events es (Private.apply_private_event e s)

  -- `SharedState::apply_private_events` and `apply_private_event`.
  unfoldable pub share_private_events : List (PrivateLaneEvent D) → SharedState D → SharedState D
  unfolding write apply_private_events
  share_private_events [] s = s
  share_private_events (e ∷ es) s =
      let after = (write (λ state. (apply_private_events (e ∷ es) state, tt)) s).0 in
      record after { private_events = after.private_events ++ e ∷ es }

  unfoldable pub share_private_event : PrivateLaneEvent D → SharedState D → SharedState D
  unfolding write
  share_private_event e s =
      let after = (write (λ state. (Private.apply_private_event e state, tt)) s).0 in
      record after { private_events = after.private_events ++ e ∷ [] }

module _ {D : Type 0} (dec : DecimalOps D) where
  -- The loop over the events; the first error leaves it.
  unfoldable pub apply_each :
      List (PublicLaneEvent D) → EngineState D → EngineState D × Result (Unit {0})
  apply_each [] s = (s, ok tt)
  apply_each (e ∷ es) s =
      let (after, result) = apply_public_event dec e s in
      elim result [ ok done ↦ apply_each es after | err failure ↦ (after, err failure) ]

  -- The closure of `apply_public_events`.
  unfoldable pub apply_checked :
      List (PublicLaneEvent D) → EngineState D → EngineState D × Result (Unit {0})
  unfolding check_events apply_each
  apply_checked events s = elim (checked_if_many s events) [
    | ok passed ↦ apply_each events s
    | err failure ↦ (s, err failure)
  ]

  -- `SharedState::apply_public_events` and `apply_public_event`.
  unfoldable pub share_public_events :
      List (PublicLaneEvent D) → SharedState D → SharedState D × Result (Unit {0})
  unfolding write apply_checked
  share_public_events [] s = (s, ok tt)
  share_public_events (e ∷ es) s = announce (e ∷ es) (write (apply_checked (e ∷ es)) s)

  unfoldable pub share_public_event :
      PublicLaneEvent D → SharedState D → SharedState D × Result (Unit {0})
  unfolding write
  share_public_event e s = announce (e ∷ []) (write (apply_public_event dec e) s)
