-- ===== src/Facade/Reconcile/Failed.antt =====
-- crates/bat-markets/src/runtime.rs: what a failed reconcile pass leaves to the next periodic one.
use bat_markets.Prelude.{
  ℕ, zero, suc, ◌≡◌, ◌∙◌, refl, true, false, none, some, Option, List, [], length, arith,
}
use bat_markets.Prelude.Text.{Str}
use bat_markets.Core.Failure.{MarketError, ok, err}
use bat_markets.Core.Trade.{Position}
use bat_markets.Core.Engine.{EngineState}
use bat_markets.Core.Command.{AccountSnapshot, ReconcileOutcome, ReconcileReport, ReconcileTrigger}
use bat_markets.Core.Engine.Private
use bat_markets.Core.Engine.Private.{replace_account_if}
use bat_markets.Core.Health
use bat_markets.Core.Health.{HealthReport, HealthStatus, DegradedReason}
use bat_markets.Facade.Pending.{
  PendingUnknownCommand, PrivateReconcileMode, reconcile_mode, needs_recent_history_repair,
}
use bat_markets.Facade.Reconcile.{
  Live, VenueRest, Call, replace_positions_if, refresh_account, refresh_positions,
  refresh_open_orders,
}
use bat_markets.Facade.Reconcile.Pass.{reconcile_private, repair, report_of, conclude}
use bat_markets.Facade.Reconcile.Answered.{is_ok, answer_of}

stale_mode :
    (h : HealthReport) (pending : List PendingUnknownCommand)
    → pending ≡ []
    → h.state_divergence ≡ false
    → h.degraded_reason ≡ some DegradedReason.snapshot_stale
    → reconcile_mode ReconcileTrigger.periodic h (length pending)
      ≡ PrivateReconcileMode.snapshot_only
unfolding reconcile_mode needs_recent_history_repair
stale_mode h pending p d r = rw (p, d, r) refl

module _ {D : Type 0} where
  -- The marks of a failed pass.
  failed_health :
      (v : VenueRest D) (show_count : ℕ → Str) (stale_after : ℕ) (trigger : ReconcileTrigger)
      (mode : PrivateReconcileMode) (r : Call D ℕ) (e : MarketError)
      → let failed = conclude v stale_after (report_of v show_count trigger mode r.0) r in
        failed.0 ≡ err e
        → (failed.1.state.health.status ≡ HealthStatus.reconcile_required)
          × (failed.1.state.health.degraded_reason ≡ some DegradedReason.snapshot_stale)
  unfolding conclude report_of Private.apply_reconcile_report Private.mark_snapshot_age
      Health.mark_snapshot_age Health.mark_reconcile_required
  failed_health v show_count stale_after trigger mode (ok zero, c) e h = absurd (cc)
  failed_health v show_count stale_after trigger mode (ok (suc n), c) e h = absurd (cc)
  failed_health v show_count stale_after trigger mode (err f, c) e h = ground arith

  account-executions :
      (account : Option (AccountSnapshot D)) (s : EngineState D)
      → (replace_account_if account s).executions ≡ s.executions
  unfolding Private.replace_account_snapshot
  account-executions none s = refl
  account-executions (some account) s = refl

  positions-executions :
      (ps : Option (List (Position D))) (s : EngineState D)
      → (replace_positions_if ps s).executions ≡ s.executions
  unfolding Private.replace_positions
  positions-executions none s = refl
  positions-executions (some ps) s = refl

  -- A pass over the snapshots alone, all of them answered.
  snapshot_pass :
      (w : VenueRest D) (show_count : ℕ → Str) (stale_after : ℕ) (c : Live D)
      → is_ok w.account ≡ true
      → is_ok w.positions ≡ true
      → is_ok w.open_orders ≡ true
      → reconcile_mode ReconcileTrigger.periodic c.state.health (length c.pending)
        ≡ PrivateReconcileMode.snapshot_only
      → let next = reconcile_private w show_count stale_after ReconcileTrigger.periodic c in
        ((report : ReconcileReport) × (next.0 ≡ ok report)
          × (report.outcome ≡ ReconcileOutcome.synchronized))
        × (next.1.state.executions ≡ c.state.executions)
  unfolding reconcile_private repair report_of conclude refresh_account refresh_positions
      refresh_open_orders Private.apply_reconcile_report Private.mark_rest_success
      Private.replace_open_orders Private.replace_positions Private.replace_account_snapshot
  snapshot_pass w show_count stale_after c a p o m =
      let (a, account) = answer_of w.account a in
      let (p, positions) = answer_of w.positions p in
      let (o, open_orders) = answer_of w.open_orders o in
      rw (m, account, positions, open_orders)
        ((_, refl, refl), account-executions p.0 _ ∙ positions-executions a.1 _)

-- When a pass fails, the reason is from then on that the snapshot is stale, whatever it was. With
-- no command pending and no divergence flagged, the next periodic pass then reads the snapshots
-- alone: it reads no fill, and where the venue answers the snapshots it reports `Synchronized`.
pub failed_pass_forgets :
    {D : Type 0} (v w : VenueRest D) (show_count : ℕ → Str) (stale_after : ℕ)
    (trigger : ReconcileTrigger) (c : Live D) (e : MarketError)
    → let failed = reconcile_private v show_count stale_after trigger c in
      let next = reconcile_private w show_count stale_after ReconcileTrigger.periodic failed.1 in
      failed.0 ≡ err e
      → failed.1.pending ≡ []
      → failed.1.state.health.state_divergence ≡ false
      → is_ok w.account ≡ true
      → is_ok w.positions ≡ true
      → is_ok w.open_orders ≡ true
      → (failed.1.state.health.status ≡ HealthStatus.reconcile_required)
        × (failed.1.state.health.degraded_reason ≡ some DegradedReason.snapshot_stale)
        × ((report : ReconcileReport) × (next.0 ≡ ok report)
            × (report.outcome ≡ ReconcileOutcome.synchronized))
        × (next.1.state.executions ≡ failed.1.state.executions)
unfolding reconcile_private
failed_pass_forgets v w show_count stale_after trigger c e f p d a q o =
    let mode = reconcile_mode trigger c.state.health (length c.pending) in
    let (status, reason) =
      failed_health v show_count stale_after trigger mode (repair v trigger mode c) e f in
    let failed = (reconcile_private v show_count stale_after trigger c).1 in
    let (passed, same) =
      snapshot_pass w show_count stale_after failed a q o
        (stale_mode failed.state.health failed.pending p d reason) in
    (status, reason, passed, same)
