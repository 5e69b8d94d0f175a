-- ===== src/Facade/Reconcile/Pass.antt =====
-- crates/bat-markets/src/runtime.rs: `resolve_pending_unknown_commands`,
-- `refresh_execution_repair_evidence`, `reconcile_private` and `apply_command_receipt`.
use bat_markets.Prelude.{
  ℕ, zero, suc, none, some, List, [], ◌∷◌, ◌++◌, map, if◌then◌else◌, unwrap_or, length,
}
use bat_markets.Prelude.Text.{Str, str}
use bat_markets.Ord.{str_ord}
use bat_markets.OrdMap.{OrdMap, get, insert}
use bat_markets.Core.Types.{InstrumentId, TimestampMs}
use bat_markets.Core.Failure.{Result, ok, err}
use bat_markets.Core.Command.{
  CommandAck, CommandLaneEvent, CommandLifecycleEvent, CommandReceipt, CommandTransport,
  ReconcileOutcome, ReconcileReport, ReconcileTrigger,
}
use bat_markets.Core.Engine.Private
use bat_markets.Core.Engine.Read.{positions, open_orders}
use bat_markets.Facade.Entry.{is_unknown}
use bat_markets.Facade.Pending.{
  PendingUnknownCommand, cache_each, PrivateReconcileMode, ExecutionRepairScope,
  pending_by_instrument, reconcile_mode, execution_repair_scope,
}
use bat_markets.Facade.Reconcile.{
  Live, VenueRest, Call, ◌>>+◌, write, merge_executions_if, refresh_account, refresh_positions,
  refresh_open_orders,
}
use bat_markets.Facade.Reconcile.Asks.{
  resolve_pending_from_local_state, ask_for_orders, order_history_loop, execution_history_loop,
  refresh_recent_execution_history,
}

abbrev Commands : Type 0
Commands = List PendingUnknownCommand

-- `replace_pending_unknown_commands`.
abbrev pub with_pending : {D : Type 0} → List PendingUnknownCommand → Live D → Live D
with_pending pending c = record c { pending = pending }

-- `emit_command_event`.
abbrev pub emit : {D : Type 0} → CommandLaneEvent → Live D → Live D
emit event c = record c { bus = c.bus ++ event ∷ [] }

-- `instrument_ids.entry(id).or_default()` of each id, and the `extend` by the grouped commands.
unfoldable pub touch :
    List InstrumentId → OrdMap InstrumentId Commands → OrdMap InstrumentId Commands
touch [] m = m
touch (id ∷ ids) m = touch ids (insert id (unwrap_or (get id m) []) m)

unfoldable pub extend_groups :
    OrdMap InstrumentId Commands → OrdMap InstrumentId Commands → OrdMap InstrumentId Commands
extend_groups [] m = m
extend_groups ((id, commands) ∷ groups) m =
    extend_groups groups (insert id (unwrap_or (get id m) [] ++ commands) m)

abbrev pub mode_note : PrivateReconcileMode → Str
mode_note PrivateReconcileMode.snapshot_only = str "snapshot reconcile completed"
mode_note PrivateReconcileMode.recent_history_repair =
    str "snapshot reconcile with recent-history repair completed"

module _ {D : Type 0} (v : VenueRest D) where
  -- The instruments whose fills are read again, each with its pending commands.
  unfoldable pub repair_evidence : Live D → OrdMap InstrumentId Commands
  unfolding touch extend_groups positions open_orders pending_by_instrument
  repair_evidence c =
      let held = map (λ p. p.instrument_id) (positions c.state) in
      let working = map (λ o. o.instrument_id) (open_orders c.state) in
      let filled = map (λ e. e.instrument_id) c.state.executions in
      extend_groups (pending_by_instrument c.pending) (touch filled (touch working (touch held [])))

  -- The loop; an instrument that the adapter does not resolve is passed over.
  unfoldable pub evidence_loop : OrdMap InstrumentId Commands → Live D → Call D Unit
  unfolding refresh_recent_execution_history
  evidence_loop [] c = (ok tt, c)
  evidence_loop ((id, commands) ∷ groups) c = elim (v.resolve_instrument id) [
    | none ↦ evidence_loop groups c
    | some spec ↦ elim (refresh_recent_execution_history v id commands c) [
      | err e ↦ (err e, c)
      | ok es ↦
          evidence_loop groups
            (write (λ s. Private.mark_rest_success none (merge_executions_if es s)) c)
    ]
  ]

  unfoldable pub refresh_execution_repair_evidence : Live D → Call D Unit
  unfolding evidence_loop repair_evidence
  refresh_execution_repair_evidence c = evidence_loop (repair_evidence c) c

  -- From the execution history on: `unresolved` is what the requests before it have left.
  unfoldable pub resolve_by_fills : List PendingUnknownCommand → Live D → Call D ℕ
  unfolding execution_history_loop pending_by_instrument
  resolve_by_fills [] c = (ok 0, with_pending [] c)
  resolve_by_fills (p ∷ ps) c =
      execution_history_loop v (pending_by_instrument (p ∷ ps)) c >>+ λ last done.
      (ok (length last), with_pending last done)

  -- From the order history on.
  unfoldable pub resolve_by_history : List PendingUnknownCommand → Live D → Call D ℕ
  unfolding order_history_loop resolve_by_fills pending_by_instrument
  resolve_by_history [] c = (ok 0, with_pending [] c)
  resolve_by_history (p ∷ ps) c =
      order_history_loop v (pending_by_instrument (p ∷ ps)) c >>+ resolve_by_fills

  -- From the requests for single orders on; without a command there is an early return.
  unfoldable pub resolve_by_orders : List PendingUnknownCommand → Live D → Call D ℕ
  unfolding resolve_pending_from_local_state ask_for_orders resolve_by_history
  resolve_by_orders [] c = (ok 0, c)
  resolve_by_orders (p ∷ ps) c = ask_for_orders v (p ∷ ps) c >>+ λ asked after.
      resolve_by_history (resolve_pending_from_local_state asked after) after

  -- The pending commands are read first. What other tasks cache while the requests are awaited is
  -- in the list that the pass replaces at its end, or leaves when a request fails.
  unfoldable pub resolve_pending_unknown_commands : Live D → Call D ℕ
  unfolding resolve_pending_from_local_state resolve_by_orders cache_each
  resolve_pending_unknown_commands c =
      resolve_by_orders (resolve_pending_from_local_state c.pending c)
        (with_pending (cache_each v.cached_meanwhile c.pending) c)

  abbrev pub repair_history : ExecutionRepairScope → Live D → Call D ℕ
  repair_history ExecutionRepairScope.local_evidence c =
      refresh_execution_repair_evidence c >>+ λ done after. resolve_pending_unknown_commands after
  repair_history ExecutionRepairScope.pending_unknown_only c = resolve_pending_unknown_commands c

  abbrev pub after_snapshots : ReconcileTrigger → PrivateReconcileMode → Live D → Call D ℕ
  after_snapshots trigger PrivateReconcileMode.snapshot_only c = (ok 0, c)
  after_snapshots trigger PrivateReconcileMode.recent_history_repair c =
      repair_history (execution_repair_scope trigger c.state.health) c

  abbrev pub refresh_private : Live D → Call D Unit
  refresh_private c = refresh_account v c >>+ λ account c1. refresh_positions v c1

  abbrev pub refresh_snapshots : Live D → Call D Unit
  refresh_snapshots c = refresh_private c >>+ λ positions c2. refresh_open_orders v c2

  -- The `async` block of `reconcile_private`.
  unfoldable pub repair : ReconcileTrigger → PrivateReconcileMode → Live D → Call D ℕ
  unfolding refresh_account refresh_positions refresh_open_orders resolve_pending_unknown_commands
      refresh_execution_repair_evidence
  repair trigger mode c = refresh_snapshots c >>+ λ orders c3. after_snapshots trigger mode c3

  -- What is reported of a pass; `show_count` writes the number into the note.
  unfoldable pub report_of :
      (ℕ → Str) → ReconcileTrigger → PrivateReconcileMode → Result ℕ → ReconcileReport
  report_of show_count trigger mode (ok zero) = record {
    trigger = trigger;
    outcome = ReconcileOutcome.synchronized;
    repaired_at = v.now;
    note = some (mode_note mode);
  }
  report_of show_count trigger mode (ok (suc n)) = record {
    trigger = trigger;
    outcome = ReconcileOutcome.still_uncertain;
    repaired_at = v.now;
    note = some (show_count (suc n) ++ str " pending command outcomes still unresolved");
  }
  report_of show_count trigger mode (err e) = record {
    trigger = trigger;
    outcome = ReconcileOutcome.still_uncertain;
    repaired_at = v.now;
    note = some (str "snapshot reconcile failed");
  }

  -- `match result`; `stale_after` is `config.health.snapshot_stale_after_ms`.
  unfoldable pub conclude : ℕ → ReconcileReport → Call D ℕ → Call D ReconcileReport
  conclude stale_after report (ok n, c) =
      (ok report, write (Private.apply_reconcile_report report) c)
  conclude stale_after report (err e, c) = (
    err e,
    write
        (λ s.
          Private.mark_snapshot_age stale_after stale_after
            (Private.apply_reconcile_report report s))
        c,
  )

  unfoldable pub reconcile_private :
      (ℕ → Str) → ℕ → ReconcileTrigger → Live D → Call D ReconcileReport
  unfolding repair report_of conclude
  reconcile_private show_count stale_after trigger c =
      let mode = reconcile_mode trigger c.state.health (length c.pending) in
      let result = repair trigger mode c in
      conclude stale_after (report_of show_count trigger mode result.0) result

-- `apply_command_receipt` up to the spawn of its recovery; the time is an argument.
unfoldable pub apply_command_receipt :
    {D : Type 0} → CommandReceipt → CommandTransport → TimestampMs → Live D → CommandAck × Live D
apply_command_receipt receipt transport now c =
    let ack : CommandAck = record {
      receipt = receipt;
      transport = transport;
      acknowledged_at = now;
    } in
    let told = emit (CommandLaneEvent.receipt receipt) (
      emit (CommandLaneEvent.lifecycle (CommandLifecycleEvent.ack ack))
        (write (Private.apply_command_receipt receipt) c)) in
    (
      ack,
      if is_unknown receipt.status
          then emit (CommandLaneEvent.lifecycle (CommandLifecycleEvent.recovery_scheduled ack)) told
          else told,
    )

-- The task that it spawns for a receipt of unknown outcome.
unfoldable pub recover : {D : Type 0} → VenueRest D → (ℕ → Str) → ℕ → CommandAck → Live D → Live D
unfolding reconcile_private
recover v show_count stale_after ack c =
    let (result, after) =
      reconcile_private v show_count stale_after ReconcileTrigger.unknown_execution c in
    elim result [
      | ok report ↦
          emit (CommandLaneEvent.lifecycle (CommandLifecycleEvent.recovery_completed ack report))
            after
      | err e ↦ after
    ]
