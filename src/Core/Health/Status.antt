-- ===== src/Core/Health/Status.antt =====
-- crates/bat-markets-core/src/health.rs: every transition as one type, and the pairs of status and
-- reason that a report can show.
use bat_markets.Prelude.{
  ℕ, ◌≡◌, ◌≢◌, ◌↔◌, Bool, true, false, Option, none, some, List, [], ◌∷◌, arith,
}
use bat_markets.Prelude.Int.{ℤ}
use bat_markets.Core.Types.{TimestampMs}
use bat_markets.Core.Health.{
  HealthReport, HealthStatus, DegradedReason, default_health, observe_public_message,
  observe_private_message, observe_rest_success, mark_public_disconnect, mark_public_gap,
  mark_private_disconnect, mark_private_gap, mark_snapshot_age, mark_reconnect,
  mark_reconcile_required, mark_command_uncertain, mark_state_divergence, mark_reconcile_complete,
}

-- The methods of `HealthReport`.
pub data Transition : Type 0 where
  public_message private_message : TimestampMs → Transition
  rest_success : Option ℤ → Transition
  public_disconnect public_gap private_disconnect private_gap : Transition
  snapshot_age : ℕ → ℕ → Transition
  reconnect needs_reconcile command_uncertain state_divergence reconcile_complete : Transition

unfoldable pub transition : Transition → HealthReport → HealthReport
transition (Transition.public_message at) h = observe_public_message at h
transition (Transition.private_message at) h = observe_private_message at h
transition (Transition.rest_success skew) h = observe_rest_success skew h
transition Transition.public_disconnect h = mark_public_disconnect h
transition Transition.public_gap h = mark_public_gap h
transition Transition.private_disconnect h = mark_private_disconnect h
transition Transition.private_gap h = mark_private_gap h
transition (Transition.snapshot_age age stale) h = mark_snapshot_age age stale h
transition Transition.reconnect h = mark_reconnect h
transition Transition.needs_reconcile h = mark_reconcile_required h
transition Transition.command_uncertain h = mark_command_uncertain h
transition Transition.state_divergence h = mark_state_divergence h
transition Transition.reconcile_complete h = mark_reconcile_complete h

unfoldable pub transitions : List Transition → HealthReport → HealthReport
transitions [] h = h
transitions (t ∷ ts) h = transitions ts (transition t h)

-- The reasons that go with each status; none go with `DegradedPrivateStream`.
abbrev pub explains : HealthStatus → Option DegradedReason → Bool
explains HealthStatus.healthy none = true
explains HealthStatus.degraded_public_stream (some DegradedReason.public_stream_gap) = true
explains HealthStatus.reconcile_required (some DegradedReason.private_stream_gap) = true
explains HealthStatus.reconcile_required (some DegradedReason.reconcile_required) = true
explains HealthStatus.reconcile_required (some DegradedReason.snapshot_stale) = true
explains HealthStatus.reconcile_required (some DegradedReason.state_divergence) = true
explains HealthStatus.command_uncertain (some DegradedReason.command_uncertain) = true
explains HealthStatus.read_only_safe (some DegradedReason.private_stream_gap) = true
explains HealthStatus.disconnected (some DegradedReason.disconnected) = true
explains _ _ = false

-- The reason explains the status, and a recorded divergence reason comes with the flag.
pub record IsExplained (h : HealthReport) : Type 0 where
  pub explained : explains h.status h.degraded_reason ≡ true
  pub flagged : h.degraded_reason ≡ some DegradedReason.state_divergence → h.state_divergence ≡ true

-- Every transition keeps the status explained by the reason.
pub transition-IsExplained :
    (t : Transition) (h : HealthReport) → IsExplained h → IsExplained (transition t h)
unfolding transition observe_public_message observe_private_message observe_rest_success
    mark_public_disconnect mark_public_gap mark_private_disconnect mark_private_gap
    mark_snapshot_age mark_reconnect mark_reconcile_required mark_command_uncertain
    mark_state_divergence mark_reconcile_complete
transition-IsExplained Transition.reconnect h e = ground arith
transition-IsExplained _ h e = ground arith

pub transitions-IsExplained :
    (ts : List Transition) (h : HealthReport) → IsExplained h → IsExplained (transitions ts h)
unfolding transitions
transitions-IsExplained [] h e = e
transitions-IsExplained (t ∷ ts) h e =
    transitions-IsExplained ts (transition t h) (transition-IsExplained t h e)

status_facts :
    (h : HealthReport)
    → IsExplained h
    → IsExplained h
      × ((h.status ≡ HealthStatus.healthy) ↔ (h.degraded_reason ≡ none))
      × (h.status ≢ HealthStatus.degraded_private_stream)
status_facts h e = (e, (ground arith, ground arith), ground arith)

-- After any history of transitions from the default report, the reason explains the status; so
-- the report is healthy exactly when no reason is recorded, and `DegradedPrivateStream` never shows.
pub transitions_reason :
    (ts : List Transition)
    → let h = transitions ts default_health in
      IsExplained h
      × ((h.status ≡ HealthStatus.healthy) ↔ (h.degraded_reason ≡ none))
      × (h.status ≢ HealthStatus.degraded_private_stream)
transitions_reason ts =
    status_facts (transitions ts default_health)
      (transitions-IsExplained ts default_health (ground arith))
