-- ===== src/Core/Health.antt =====
-- crates/bat-markets-core/src/health.rs: the health report and its transitions. `reconnect_count`
-- is a `u64`, so its increment wraps.
pub mod Status
pub mod Recovery
use bat_markets.Prelude.{
  ℕ, ◌+◌, ◌%◌, ◌^◌, Bool, true, false, not, ◌&&◌, ◌||◌, Option, none, some, leb, if◌then◌else◌,
  is_some,
}
use bat_markets.Prelude.Int.{ℤ}
use bat_markets.Core.Types.{TimestampMs}

pub data HealthStatus : Type 0 where
  healthy degraded_public_stream degraded_private_stream reconcile_required : HealthStatus
  command_uncertain read_only_safe disconnected : HealthStatus

pub data DegradedReason : Type 0 where
  public_stream_gap private_stream_gap reconcile_required command_uncertain : DegradedReason
  snapshot_stale state_divergence disconnected : DegradedReason

pub record HealthReport : Type 0 where
  pub status : HealthStatus
  pub rest_ok : Bool
  pub ws_public_ok : Bool
  pub ws_private_ok : Bool
  pub clock_skew_ms : Option ℤ
  pub last_public_msg_at : Option TimestampMs
  pub last_private_msg_at : Option TimestampMs
  pub reconnect_count : ℕ
  pub snapshot_age_ms : Option ℕ
  pub state_divergence : Bool
  pub degraded_reason : Option DegradedReason

-- `HealthReport::default`.
abbrev pub default_health : HealthReport
default_health = record {
  status = HealthStatus.disconnected;
  rest_ok = false;
  ws_public_ok = false;
  ws_private_ok = false;
  clock_skew_ms = none;
  last_public_msg_at = none;
  last_private_msg_at = none;
  reconnect_count = 0;
  snapshot_age_ms = none;
  state_divergence = false;
  degraded_reason = some DegradedReason.disconnected;
}

-- The statuses that a public message may lift.
abbrev pub lifted_by_public : HealthStatus → Bool
lifted_by_public HealthStatus.disconnected = true
lifted_by_public HealthStatus.degraded_public_stream = true
lifted_by_public HealthStatus.read_only_safe = true
lifted_by_public _ = false

-- The reasons that hold a public message back.
abbrev pub blocks_public : Option DegradedReason → Bool
blocks_public (some DegradedReason.reconcile_required) = true
blocks_public (some DegradedReason.command_uncertain) = true
blocks_public (some DegradedReason.state_divergence) = true
blocks_public _ = false

abbrev pub lifted_by_private : HealthStatus → Bool
lifted_by_private HealthStatus.disconnected = true
lifted_by_private HealthStatus.degraded_private_stream = true
lifted_by_private HealthStatus.read_only_safe = true
lifted_by_private _ = false

abbrev pub lifted_by_rest : HealthStatus → Bool
lifted_by_rest HealthStatus.disconnected = true
lifted_by_rest _ = false

abbrev pub blocks_stale : Option DegradedReason → Bool
blocks_stale (some DegradedReason.command_uncertain) = true
blocks_stale (some DegradedReason.state_divergence) = true
blocks_stale _ = false

unfoldable pub observe_public_message : TimestampMs → HealthReport → HealthReport
observe_public_message at h =
    let seen : HealthReport = record h { last_public_msg_at = some at; ws_public_ok = true } in
    if lifted_by_public h.status && not h.state_divergence && not (blocks_public h.degraded_reason)
    then record seen { status = HealthStatus.healthy; degraded_reason = none }
    else seen

unfoldable pub observe_private_message : TimestampMs → HealthReport → HealthReport
observe_private_message at h =
    let seen : HealthReport = record h { last_private_msg_at = some at; ws_private_ok = true } in
    if lifted_by_private h.status
    then record seen { status = HealthStatus.healthy; degraded_reason = none }
    else seen

unfoldable pub observe_rest_success : Option ℤ → HealthReport → HealthReport
observe_rest_success skew h =
    let seen : HealthReport = record h {
      rest_ok = true;
      clock_skew_ms = if is_some skew then skew else h.clock_skew_ms;
    } in
    if lifted_by_rest h.status
    then record seen { status = HealthStatus.healthy; degraded_reason = none }
    else seen

unfoldable pub mark_public_disconnect : HealthReport → HealthReport
mark_public_disconnect h =
    if h.ws_private_ok || h.rest_ok
    then record h {
      ws_public_ok = false;
      status = HealthStatus.degraded_public_stream;
      degraded_reason = some DegradedReason.public_stream_gap;
    }
    else record h {
      ws_public_ok = false;
      status = HealthStatus.disconnected;
      degraded_reason = some DegradedReason.disconnected;
    }

unfoldable pub mark_public_gap : HealthReport → HealthReport
mark_public_gap h = record h {
  status = HealthStatus.degraded_public_stream;
  ws_public_ok = false;
  degraded_reason = some DegradedReason.public_stream_gap;
}

unfoldable pub mark_private_disconnect : HealthReport → HealthReport
mark_private_disconnect h =
    if h.ws_public_ok || h.rest_ok
    then record h {
      ws_private_ok = false;
      status = HealthStatus.read_only_safe;
      degraded_reason = some DegradedReason.private_stream_gap;
    }
    else record h {
      ws_private_ok = false;
      status = HealthStatus.disconnected;
      degraded_reason = some DegradedReason.disconnected;
    }

unfoldable pub mark_private_gap : HealthReport → HealthReport
mark_private_gap h = record h {
  status = HealthStatus.reconcile_required;
  ws_private_ok = false;
  degraded_reason = some DegradedReason.private_stream_gap;
}

unfoldable pub mark_snapshot_age : ℕ → ℕ → HealthReport → HealthReport
mark_snapshot_age age stale_after h =
    let aged : HealthReport = record h { snapshot_age_ms = some age } in
    if leb stale_after age && not (blocks_stale h.degraded_reason)
    then record aged {
      status = HealthStatus.reconcile_required;
      degraded_reason = some DegradedReason.snapshot_stale;
    }
    else aged

unfoldable pub mark_reconnect : HealthReport → HealthReport
mark_reconnect h = record h { reconnect_count = (h.reconnect_count + 1) % 2 ^ 64 }

unfoldable pub mark_reconcile_required : HealthReport → HealthReport
mark_reconcile_required h = record h {
  status = HealthStatus.reconcile_required;
  degraded_reason = some DegradedReason.reconcile_required;
}

unfoldable pub mark_command_uncertain : HealthReport → HealthReport
mark_command_uncertain h = record h {
  status = HealthStatus.command_uncertain;
  degraded_reason = some DegradedReason.command_uncertain;
}

unfoldable pub mark_state_divergence : HealthReport → HealthReport
mark_state_divergence h = record h {
  status = HealthStatus.reconcile_required;
  state_divergence = true;
  degraded_reason = some DegradedReason.state_divergence;
}

unfoldable pub mark_reconcile_complete : HealthReport → HealthReport
mark_reconcile_complete h =
    let clear : HealthReport = record h { state_divergence = false; snapshot_age_ms = some 0 } in
    if h.ws_public_ok && (h.ws_private_ok || h.rest_ok)
    then record clear { status = HealthStatus.healthy; degraded_reason = none }
    else if h.ws_public_ok
    then record clear {
      status = HealthStatus.read_only_safe;
      degraded_reason = some DegradedReason.private_stream_gap;
    }
    else record clear {
      status = HealthStatus.disconnected;
      degraded_reason = some DegradedReason.disconnected;
    }
