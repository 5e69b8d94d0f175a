-- ===== src/Tests/Reports.antt =====
-- crates/bat-markets-core/src/numeric.rs and health.rs: the properties at concrete values.
use bat_markets.Prelude.{◌≡◌, ◌↔◌, List, ◌≢◌, refl, true, false, none, some, [], ◌∷◌}
use bat_markets.Prelude.Int.{pos}
use bat_markets.Ord.{str_ord}
use bat_markets.Core.Health.{
  HealthReport, HealthStatus, DegradedReason, default_health, observe_public_message,
  observe_private_message, mark_public_disconnect, mark_private_disconnect, mark_command_uncertain,
  mark_state_divergence,
}
use bat_markets.Core.Health.Status.{Transition, transitions, IsExplained, transitions_reason}
use bat_markets.Core.Health.Recovery.{
  uncertain_stays, divergence_and_messages, uncertain_lost_on_public_reconnect,
}

abbrev connected : HealthReport
connected =
    transitions (Transition.public_message (pos 5) ∷ Transition.private_message (pos 6) ∷ [])
      default_health

transitions_reason_example :
    IsExplained connected
    × ((connected.status ≡ HealthStatus.healthy) ↔ (connected.degraded_reason ≡ none))
    × (connected.status ≢ HealthStatus.degraded_private_stream)
transitions_reason_example =
    transitions_reason (Transition.public_message (pos 5) ∷ Transition.private_message (pos 6) ∷ [])

abbrev uncertain : HealthReport
uncertain = mark_command_uncertain default_health

uncertain-status : uncertain.status ≡ HealthStatus.command_uncertain
unfolding mark_command_uncertain
uncertain-status = refl

uncertain-reason : uncertain.degraded_reason ≡ some DegradedReason.command_uncertain
unfolding mark_command_uncertain
uncertain-reason = refl

uncertain-no_divergence : uncertain.state_divergence ≡ false
unfolding mark_command_uncertain
uncertain-no_divergence = refl

abbrev messages : List Transition
messages = Transition.public_message (pos 5) ∷ Transition.private_message (pos 6) ∷ []

uncertain_stays_example :
    ((transitions messages uncertain).status ≡ HealthStatus.command_uncertain)
    × ((transitions messages uncertain).degraded_reason ≡ some DegradedReason.command_uncertain)
uncertain_stays_example =
    uncertain_stays messages uncertain (refl, (refl, tt)) uncertain-status uncertain-reason

abbrev diverged : HealthReport
diverged = mark_state_divergence default_health

diverged-flag : diverged.state_divergence ≡ true
unfolding mark_state_divergence
diverged-flag = refl

divergence_and_messages_example :
    ((observe_public_message (pos 5) diverged).status ≡ diverged.status)
    × ((observe_public_message (pos 5) diverged).degraded_reason ≡ diverged.degraded_reason)
    × ((observe_private_message (pos 5) (mark_private_disconnect diverged)).status
        ≡ HealthStatus.healthy)
    × ((observe_private_message (pos 5) (mark_private_disconnect diverged)).degraded_reason ≡ none)
    × ((observe_private_message (pos 5) (mark_private_disconnect diverged)).state_divergence ≡ true)
divergence_and_messages_example = divergence_and_messages diverged (pos 5) diverged-flag

uncertain_lost_on_public_reconnect_example :
    ((observe_public_message (pos 5) (mark_public_disconnect uncertain)).status
      ≡ HealthStatus.healthy)
    × ((observe_public_message (pos 5) (mark_public_disconnect uncertain)).degraded_reason ≡ none)
uncertain_lost_on_public_reconnect_example =
    uncertain_lost_on_public_reconnect uncertain (pos 5) uncertain-status uncertain-no_divergence
