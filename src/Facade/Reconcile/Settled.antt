-- ===== src/Facade/Reconcile/Settled.antt =====
-- crates/bat-markets/src/runtime.rs with entry.rs: how the wait for a command of unknown outcome
-- ends.
use bat_markets.Prelude.{
  ℕ, ◌≡◌, ◌⊎◌, ◌∙◌, refl, true, List, [], ◌∷◌, ◌++◌, map, arith, inl, inr, ap,
}
use bat_markets.Prelude.Text.{Str}
use bat_markets.Core.Types.{TimestampMs}
use bat_markets.Core.Failure.{MarketError, ok, err, Result-cases}
use bat_markets.Core.Command.{
  CommandAck, CommandLaneEvent, CommandLifecycleEvent, CommandReceipt, CommandTransport,
  ReconcileReport, ReconcileTrigger,
}
use bat_markets.Facade.Entry.{
  delivered, waiting, ready, is_unknown, from_ack, receipt_after_recovery, resolved,
  PendingCommandHandle,
}
use bat_markets.Facade.Entry.Recovery.{resolved_completes, resolved_settles, settle}
use bat_markets.Facade.Reconcile.{Live, VenueRest}
use bat_markets.Facade.Reconcile.Pass.{apply_command_receipt, recover, reconcile_private}
use bat_markets.Facade.Reconcile.Bus.{reconcile_private-bus}

-- The handle of an acknowledged command, that has received all that the bus was sent.
abbrev pub handle_on : {D : Type 0} → CommandAck → Live D → PendingCommandHandle
handle_on ack c = from_ack ack (map delivered c.bus)

-- What the bus has been sent of a command of unknown outcome before its recovery.
abbrev sent : CommandAck → List CommandLaneEvent
sent ack =
    CommandLaneEvent.lifecycle (CommandLifecycleEvent.ack ack)
    ∷ CommandLaneEvent.receipt ack.receipt
    ∷ CommandLaneEvent.lifecycle (CommandLifecycleEvent.recovery_scheduled ack)
    ∷ []

abbrev recovery : CommandAck → ReconcileReport → CommandLaneEvent
recovery ack report =
    CommandLaneEvent.lifecycle (CommandLifecycleEvent.recovery_completed ack report)

module _ {D : Type 0} (v : VenueRest D) (show_count : ℕ → Str) (stale_after : ℕ) where
  applied_bus :
      (r : CommandReceipt) (transport : CommandTransport) (now : TimestampMs) (c : Live D)
      → c.bus ≡ []
      → is_unknown r.status ≡ true
      → let (ack, applied) = apply_command_receipt r transport now c in
        (ack.receipt ≡ r) × (applied.bus ≡ sent ack)
  unfolding apply_command_receipt
  applied_bus r transport now c e u = (refl, rw (u, e) refl)

  recovered_bus :
      (ack : CommandAck) (c : Live D)
      → let pass =
          (reconcile_private v show_count stale_after ReconcileTrigger.unknown_execution c).0 in
        ((e : MarketError) × (pass ≡ err e)
          × ((recover v show_count stale_after ack c).bus ≡ c.bus))
        ⊎ ((report : ReconcileReport) × (pass ≡ ok report)
            × ((recover v show_count stale_after ack c).bus ≡ c.bus ++ recovery ack report ∷ []))
  unfolding recover
  recovered_bus ack c =
      let quiet =
        reconcile_private-bus v show_count stale_after ReconcileTrigger.unknown_execution c in
      elim (Result-cases
        (reconcile_private v show_count stale_after ReconcileTrigger.unknown_execution c).0) [
          | inl (e, p) ↦ inl (e, p, rw (p, recover) quiet)
          | inr (report, p) ↦
              inr (report, p, rw (p, recover) (ap (λ b. b ++ (recovery ack report ∷ [])) quiet))
        ]

  settle_sent : (ack : CommandAck) → (settle ack (map delivered (sent ack))).0 ≡ waiting
  unfolding settle
  settle_sent ack = refl

  resolved_waits :
      (ack : CommandAck) (c : Live D)
      → is_unknown ack.receipt.status ≡ true
      → c.bus ≡ sent ack
      → (resolved (handle_on ack c)).0 ≡ waiting
  unfolding from_ack
  resolved_waits ack c u b = elim (resolved_settles (handle_on ack c)) [
    | inl known ↦ absurd (ground (arith, u, known.0))
    | inr unknown ↦
        ap (λ x. x.0) unknown.1 ∙ ap (λ b. (settle ack (map delivered b)).0) b ∙ settle_sent ack
  ]

  resolved_ends :
      (ack : CommandAck) (report : ReconcileReport) (c : Live D)
      → is_unknown ack.receipt.status ≡ true
      → c.bus ≡ sent ack ++ recovery ack report ∷ []
      → (resolved (handle_on ack c)).0 ≡ ready (ok (receipt_after_recovery ack.receipt report))
  unfolding from_ack
  resolved_ends ack report c u b =
      ap (λ x. x.0)
        (resolved_completes (handle_on ack c) (map delivered (sent ack)) [] report u
          (ap (map delivered) b) (tt, (tt, (tt, tt)))).0

-- A command whose receipt is of unknown outcome starts one recovery. From its receipt on, the wait
-- of its handle ends with that receipt after the recovery exactly if the reconcile pass ends with
-- a report; if the pass fails, the handle still waits.
pub resolved_after_recovery :
    {D : Type 0} (v : VenueRest D) (show_count : ℕ → Str) (stale_after : ℕ) (r : CommandReceipt)
    (transport : CommandTransport) (now : TimestampMs) (c : Live D)
    → c.bus ≡ []
    → is_unknown r.status ≡ true
    → let (ack, applied) = apply_command_receipt r transport now c in
      let pass =
        (reconcile_private v show_count stale_after ReconcileTrigger.unknown_execution applied).0 in
      let ended = (resolved (handle_on ack (recover v show_count stale_after ack applied))).0 in
      ((e : MarketError) × (pass ≡ err e) × (ended ≡ waiting))
      ⊎ ((report : ReconcileReport) × (pass ≡ ok report)
          × (ended ≡ ready (ok (receipt_after_recovery r report))))
unfolding apply_command_receipt
resolved_after_recovery v show_count stale_after r transport now c b u =
    let (ack, applied) = apply_command_receipt r transport now c in
    let after = recover v show_count stale_after ack applied in
    let start = applied_bus v show_count stale_after r transport now c b u in
    elim (recovered_bus v show_count stale_after ack applied) [
      | inl (e, p, same) ↦
          inl (e, p, resolved_waits v show_count stale_after ack after u (same ∙ start.1))
      | inr (report, p, more) ↦ inr (
        report,
        p,
        resolved_ends v show_count stale_after ack report after u
            (more ∙ ap (λ x. x ++ recovery ack report ∷ []) start.1),
      )
    ]
