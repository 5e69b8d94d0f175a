-- ===== src/Core/Health/Recovery.antt =====
-- crates/bat-markets-core/src/health.rs: which transitions lift a degraded report.
use bat_markets.Prelude.{
  ◌≡◌, ◌↔◌, not, Bool, true, false, ◌&&◌, ◌||◌, none, some, List, [], ◌∷◌, arith,
}
use bat_markets.Core.Types.{TimestampMs}
use bat_markets.Core.Health.{
  HealthReport, HealthStatus, DegradedReason, observe_public_message, observe_private_message,
  observe_rest_success, mark_public_disconnect, mark_private_disconnect, mark_snapshot_age,
  mark_reconnect, mark_reconcile_complete,
}
use bat_markets.Core.Health.Status.{Transition, transition, transitions}

-- The transitions that only observe: messages, REST successes, snapshot ages and reconnect counts.
abbrev pub observes : Transition → Bool
observes (Transition.public_message at) = true
observes (Transition.private_message at) = true
observes (Transition.rest_success skew) = true
observes (Transition.snapshot_age age stale) = true
observes Transition.reconnect = true
observes _ = false

abbrev pub AllObserve : List Transition → Type 0
AllObserve [] = Unit
AllObserve (t ∷ ts) = (observes t ≡ true) × AllObserve ts

observed_uncertain :
    (t : Transition) (h : HealthReport)
    → observes t ≡ true
    → h.status ≡ HealthStatus.command_uncertain
    → h.degraded_reason ≡ some DegradedReason.command_uncertain
    → ((transition t h).status ≡ HealthStatus.command_uncertain)
      × ((transition t h).degraded_reason ≡ some DegradedReason.command_uncertain)
unfolding transition observe_public_message observe_private_message observe_rest_success
    mark_snapshot_age mark_reconnect
observed_uncertain Transition.reconnect h o s r = ground arith
observed_uncertain _ h o s r = ground arith

-- An uncertain command outcome stays visible through any number of messages, REST successes,
-- snapshot ages and counted reconnects (`mark_reconnect`): none of them lifts it.
pub uncertain_stays :
    (ts : List Transition) (h : HealthReport)
    → AllObserve ts
    → h.status ≡ HealthStatus.command_uncertain
    → h.degraded_reason ≡ some DegradedReason.command_uncertain
    → ((transitions ts h).status ≡ HealthStatus.command_uncertain)
      × ((transitions ts h).degraded_reason ≡ some DegradedReason.command_uncertain)
unfolding transitions
uncertain_stays [] h o s r = (s, r)
uncertain_stays (t ∷ ts) h o s r =
    let next = observed_uncertain t h o.0 s r in
    uncertain_stays ts (transition t h) o.1 next.0 next.1

-- With the divergence flag set a public message leaves status and reason alone. But once the
-- private stream has dropped, the next private message, whatever was flagged, makes the report
-- healthy with the flag still set.
pub divergence_and_messages :
    (h : HealthReport) (at : TimestampMs)
    → h.state_divergence ≡ true
    → let seen = observe_public_message at h in
      let back = observe_private_message at (mark_private_disconnect h) in
      (seen.status ≡ h.status)
      × (seen.degraded_reason ≡ h.degraded_reason)
      × (back.status ≡ HealthStatus.healthy)
      × (back.degraded_reason ≡ none)
      × (back.state_divergence ≡ true)
unfolding observe_public_message observe_private_message mark_private_disconnect
divergence_and_messages h at d = ground arith

-- A completed reconcile clears the divergence and is healthy exactly when the public stream and
-- one private source are up; with only the public stream up it is read-only, and else disconnected.
pub mark_reconcile_complete_status :
    (h : HealthReport)
    → let r = mark_reconcile_complete h in
      (r.state_divergence ≡ false)
      × ((r.status ≡ HealthStatus.healthy)
          ↔ ((h.ws_public_ok && (h.ws_private_ok || h.rest_ok)) ≡ true))
      × ((r.status ≡ HealthStatus.disconnected) ↔ (h.ws_public_ok ≡ false))
      × ((r.status ≡ HealthStatus.read_only_safe)
          ↔ ((h.ws_public_ok && not (h.ws_private_ok || h.rest_ok)) ≡ true))
unfolding mark_reconcile_complete
mark_reconcile_complete_status h = ground arith

-- A dropped and resumed public stream hides an uncertain command: from a report that is uncertain,
-- with no divergence flagged, the disconnect and the next public message end in a healthy report.
pub uncertain_lost_on_public_reconnect :
    (h : HealthReport) (at : TimestampMs)
    → h.status ≡ HealthStatus.command_uncertain
    → h.state_divergence ≡ false
    → let back = observe_public_message at (mark_public_disconnect h) in
      (back.status ≡ HealthStatus.healthy) × (back.degraded_reason ≡ none)
unfolding observe_public_message mark_public_disconnect
uncertain_lost_on_public_reconnect h at s d = ground arith
