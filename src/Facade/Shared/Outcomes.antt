-- ===== src/Facade/Shared/Outcomes.antt =====
-- crates/bat-markets/src/client.rs: what a write that fails and one that succeeds leave.
use native.Mathlib.Decide.{ℕ_discrete}
use bat_markets.Prelude.{◌≡◌, refl, false, List, ◌++◌, inl, inr, Bool-cases, decide_yes}
use bat_markets.Ord.{str_ord}
use bat_markets.Core.Failure.{MarketError, Result, ok, err}
use bat_markets.Core.Health.{HealthReport}
use bat_markets.Core.Execution.{PublicLaneEvent}
use bat_markets.Core.Engine.{EngineState}
use bat_markets.Facade.Shared.{
  SharedState, write, announce, should_publish_health_change, HealthStatus-discrete,
  DegradedReason-discrete, skew-discrete, bool-discrete,
}

should_publish-same : (h : HealthReport) → should_publish_health_change h h ≡ false
unfolding should_publish_health_change
should_publish-same h =
    rw
      (
        decide_yes (HealthStatus-discrete h.status h.status) refl,
        decide_yes (bool-discrete h.rest_ok h.rest_ok) refl,
        decide_yes (bool-discrete h.ws_public_ok h.ws_public_ok) refl,
        decide_yes (bool-discrete h.ws_private_ok h.ws_private_ok) refl,
        decide_yes (skew-discrete h.clock_skew_ms h.clock_skew_ms) refl,
        decide_yes (ℕ_discrete h.reconnect_count h.reconnect_count) refl,
        decide_yes (bool-discrete h.state_divergence h.state_divergence) refl,
        decide_yes (DegradedReason-discrete h.degraded_reason h.degraded_reason) refl,
      )
      refl

module _ {D : Type 0} where
  pub write_nothing :
      (f : EngineState D → EngineState D × Result (Unit {0})) (s : SharedState D) (e : MarketError)
      → f s.state ≡ (s.state, err e)
      → write f s ≡ (s, err e)
  unfolding write
  write_nothing f s e h = rw (h, write, should_publish-same s.state.health) refl

  pub write_done :
      (f : EngineState D → EngineState D × Result (Unit {0})) (s : SharedState D)
      (t : EngineState D)
      → f s.state ≡ (t, ok tt)
      → ((write f s).1 ≡ ok tt)
        × ((write f s).0.state ≡ t)
        × ((write f s).0.public_events ≡ s.public_events)
  unfolding write
  write_done f s t h =
      elim (Bool-cases (should_publish_health_change s.state.health (f s.state).0.health)) [
        | inl y ↦ rw (y, h, write) (refl, refl, refl)
        | inr n ↦ rw (n, h, write) (refl, refl, refl)
      ]

pub announce_done :
    {D : Type 0} (es : List (PublicLaneEvent D)) (r : SharedState D × Result (Unit {0}))
    → r.1 ≡ ok tt
    → announce es r ≡ (record r.0 { public_events = r.0.public_events ++ es }, ok tt)
announce_done es (s, ok done) h = refl
announce_done es (s, err e) h = absurd (cc)
