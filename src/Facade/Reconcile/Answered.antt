-- ===== src/Facade/Reconcile/Answered.antt =====
-- crates/bat-markets/src/runtime.rs with entry.rs: while the venue answers, the recovery of a
-- command of unknown outcome ends, and with it the wait for the command.
use bat_markets.Prelude.{
  ℕ, zero, suc, ◌≡◌, ◌∙◌, refl, Bool, true, false, List, [], ◌∷◌, inl, inr, subst, ap, sym, is_some,
  some, Bool-cases, All, All-keep, ◌||◌,
}
use bat_markets.Prelude.Text.{Str}
use bat_markets.Core.Types.{TimestampMs}
use bat_markets.Core.Instrument.{InstrumentSpec}
use bat_markets.Core.Trade.{Order}
use bat_markets.Core.Failure.{Result, ok, err}
use bat_markets.Core.Command.{
  CommandReceipt, CommandStatus, CommandTransport, ReconcileOutcome, ReconcileReport,
  ReconcileTrigger,
}
use bat_markets.Core.Engine.Read.{orders}
use bat_markets.Facade.Entry.{ready, is_unknown, receipt_after_recovery, resolved}
use bat_markets.Facade.Pending.{
  PendingUnknownCommand, PrivateReconcileMode, unresolved_pending_after_state,
  unresolved_pending_after_orders, unresolved_pending_after_executions, reconcile_mode,
  execution_repair_scope,
}
use bat_markets.Facade.Pending.Evidence.{unresolved_pending_after_state-keep}
use bat_markets.Facade.Reconcile.{
  Live, VenueRest, Call, ◌>>+◌, refresh_account, refresh_positions, refresh_open_orders,
}
use bat_markets.Facade.Reconcile.Asks.{
  request_of, get_order, ask_for, ask_for_orders, resolve_pending_from_local_state,
}
use bat_markets.Facade.Validation.{require_spec}
use bat_markets.Facade.Reconcile.Pass.{
  apply_command_receipt, recover, reconcile_private, resolve_by_history, resolve_by_orders,
  resolve_pending_unknown_commands, refresh_snapshots, repair, report_of, conclude,
}
use bat_markets.Facade.Reconcile.Settled.{handle_on, resolved_after_recovery}

abbrev pub is_ok : {A : Type 0} → Result A → Bool
is_ok (ok a) = true
is_ok (err e) = false

-- A request that is answered has an answer.
pub answer_of : {A : Type 0} (r : Result A) → is_ok r ≡ true → (a : A) × (r ≡ ok a)
answer_of (ok a) h = (a, refl)
answer_of (err e) h = absurd (cc)

module _ {D : Type 0} (v : VenueRest D) where
  -- The venue answers the snapshots.
  pub record IsAnswering : Type 0 where
    pub account_ok : is_ok v.account ≡ true
    pub positions_ok : is_ok v.positions ≡ true
    pub open_orders_ok : is_ok v.open_orders ≡ true

  -- The command names its order, its instrument is known, and the venue has the order.
  pub record IsFound (command : PendingUnknownCommand) : Type 0 where
    pub named : (is_some command.order_id || is_some command.client_order_id) ≡ true
    pub spec : InstrumentSpec D
    pub known : v.resolve_instrument command.instrument_id ≡ some spec
    pub order : Order D
    pub answered : v.order spec (request_of command) ≡ ok order

  module _ (answering : IsAnswering) where
    ask_for-answered :
        (p : PendingUnknownCommand) (c : Live D) → IsFound p → (ask_for v p c).0 ≡ ok true
    unfolding ask_for get_order require_spec
    ask_for-answered p c h = rw (h.named, ask_for, h.known, h.answered) refl

    ask_for_orders-answered :
        (ps : List PendingUnknownCommand) (c : Live D)
        → All IsFound ps
        → (ask_for_orders v ps c).0 ≡ ok []
    unfolding ask_for_orders
    ask_for_orders-answered [] c h = refl
    ask_for_orders-answered (p ∷ ps) c h =
        rw (ask_for-answered p c h.0, ask_for_orders)
          (ask_for_orders-answered ps (ask_for v p c).1 h.1)

    bind-found :
        {A B : Type 0} (r : Call D A) (next : A → Live D → Call D B) (a : A)
        → r.0 ≡ ok a
        → (r >>+ next) ≡ next a r.1
    bind-found (err e, c) next a h = absurd (cc)
    bind-found (ok b, c) next a h = let same : b ≡ a = cc in ap (λ x. next x c) same

    local-IsFound :
        (ps : List PendingUnknownCommand) (c : Live D)
        → All IsFound ps
        → All IsFound (resolve_pending_from_local_state ps c)
    unfolding resolve_pending_from_local_state orders
    local-IsFound ps c h =
        subst (All IsFound)
          (sym (unresolved_pending_after_state-keep ps (orders c.state) c.state.executions))
          (All-keep IsFound _ ps h)

    resolve_by_orders-answered :
        (ps : List PendingUnknownCommand) (c : Live D)
        → All IsFound ps
        → (resolve_by_orders v ps c).0 ≡ ok zero
    unfolding resolve_by_orders resolve_by_history resolve_pending_from_local_state
        unresolved_pending_after_state unresolved_pending_after_orders
        unresolved_pending_after_executions
    resolve_by_orders-answered [] c h = refl
    resolve_by_orders-answered (p ∷ ps) c h =
        ap (λ x. x.0)
          (bind-found (ask_for_orders v (p ∷ ps) c) _ [] (ask_for_orders-answered (p ∷ ps) c h))

    -- The snapshots end well, and leave the pending commands alone.
    snapshots-answered :
        (c : Live D)
        → ((refresh_snapshots v c).0 ≡ ok tt) × ((refresh_snapshots v c).1.pending ≡ c.pending)
    unfolding refresh_account refresh_positions refresh_open_orders
    snapshots-answered c =
        let (a, account) = answer_of v.account answering.account_ok in
        let (p, positions) = answer_of v.positions answering.positions_ok in
        let (o, open_orders) = answer_of v.open_orders answering.open_orders_ok in
        rw (account, positions, open_orders) (refl, refl)

    repair-answered :
        (c : Live D)
        → All IsFound c.pending
        → (repair v ReconcileTrigger.unknown_execution PrivateReconcileMode.recent_history_repair
            c).0
          ≡ ok zero
    unfolding repair resolve_pending_unknown_commands execution_repair_scope
    repair-answered c h =
        let (done, same) = snapshots-answered c in
        ap (λ x. x.0) (bind-found (refresh_snapshots v c) _ tt done)
        ∙ resolve_by_orders-answered _ _
            (local-IsFound _ (refresh_snapshots v c).1 (subst (All IsFound) (sym same) h))

    concluded :
        (show_count : ℕ → Str) (stale_after : ℕ) (r : Call D ℕ)
        → r.0 ≡ ok zero
        → let report =
            report_of v show_count ReconcileTrigger.unknown_execution
              PrivateReconcileMode.recent_history_repair r.0 in
          ((conclude v stale_after report r).0 ≡ ok report)
          × (report.outcome ≡ ReconcileOutcome.synchronized)
    unfolding conclude report_of
    concluded show_count stale_after (err e, c) h = absurd (cc)
    concluded show_count stale_after (ok zero, c) h = (refl, refl)
    concluded show_count stale_after (ok (suc n), c) h = absurd (cc)

    reconcile-answered :
        (show_count : ℕ → Str) (stale_after : ℕ) (c : Live D)
        → All IsFound c.pending
        → (report : ReconcileReport) × ((reconcile_private v show_count stale_after
              ReconcileTrigger.unknown_execution c).0
            ≡ ok report)
          × (report.outcome ≡ ReconcileOutcome.synchronized)
    unfolding reconcile_private reconcile_mode report_of conclude
    reconcile-answered show_count stale_after c h =
        let pass =
          repair v ReconcileTrigger.unknown_execution PrivateReconcileMode.recent_history_repair
            c in
        let (passed, synchronized) = concluded show_count stale_after pass (repair-answered c h) in
        (
          report_of v show_count ReconcileTrigger.unknown_execution
              PrivateReconcileMode.recent_history_repair pass.0,
          passed,
          synchronized,
        )

pub applied_pending :
    {D : Type 0} (r : CommandReceipt) (transport : CommandTransport) (now : TimestampMs)
    (c : Live D)
    → (apply_command_receipt r transport now c).1.pending ≡ c.pending
unfolding apply_command_receipt
applied_pending r transport now c = elim (Bool-cases (is_unknown r.status)) [
  | inl u ↦ rw (u) refl
  | inr k ↦ rw (k) refl
]

receipt_after_recovery-accepted :
    (r : CommandReceipt) (report : ReconcileReport)
    → report.outcome ≡ ReconcileOutcome.synchronized
    → (receipt_after_recovery r report).status ≡ CommandStatus.accepted
unfolding receipt_after_recovery
receipt_after_recovery-accepted r report h = rw (h) refl

-- While every pending command is found, the handle of one of unknown outcome is settled.
pub found_settles :
    {D : Type 0} (v : VenueRest D) (show_count : ℕ → Str) (stale_after : ℕ) (r : CommandReceipt)
    (transport : CommandTransport) (now : TimestampMs) (c : Live D)
    → IsAnswering v
    → All (IsFound v) c.pending
    → c.bus ≡ []
    → is_unknown r.status ≡ true
    → let (ack, applied) = apply_command_receipt r transport now c in
      (after : CommandReceipt) × ((resolved
          (handle_on ack (recover v show_count stale_after ack applied))).0
        ≡ ready (ok after))
      × (after.status ≡ CommandStatus.accepted)
found_settles v show_count stale_after r transport now c answering askable b u =
    let applied = (apply_command_receipt r transport now c).1 in
    let (report, passed, synchronized) =
      reconcile-answered v answering show_count stale_after applied
        (subst (All (IsFound v)) (sym (applied_pending r transport now c)) askable) in
    elim (resolved_after_recovery v show_count stale_after r transport now c b u) [
      | inl (e, failed, w) ↦ absurd (cc)
      | inr (other, ended, settled) ↦
          let same : report ≡ other = cc in
          (
            receipt_after_recovery r other,
            settled,
            receipt_after_recovery-accepted r other (ap (λ x. x.outcome) (sym same) ∙ synchronized),
          )
    ]
