-- ===== src/Facade/Reconcile/Bus.antt =====
-- crates/bat-markets/src/runtime.rs: `reconcile_private` sends nothing on the command bus.
use bat_markets.Prelude.{ℕ, ◌≡◌, ◌∙◌, refl, List, [], ◌∷◌, arith, inl, inr, ap, Option-cases}
use bat_markets.Prelude.Text.{Str}
use bat_markets.Core.Failure.{ok, err, Result-cases}
use bat_markets.Core.Types.{InstrumentId}
use bat_markets.OrdMap.{OrdMap}
use bat_markets.Core.Command.{ReconcileReport, ReconcileTrigger}
use bat_markets.Facade.Pending.{
  PendingUnknownCommand, PrivateReconcileMode, ExecutionRepairScope, pending_by_instrument,
  execution_repair_scope,
}
use bat_markets.Facade.Reconcile.{
  Live, VenueRest, Call, ◌>>+◌, refresh_account, refresh_positions, refresh_open_orders,
}
use bat_markets.Facade.Reconcile.Asks.{
  resolve_pending_from_local_state, ask_for_orders, order_history_loop, execution_history_loop,
  refresh_recent_execution_history,
}
use bat_markets.Facade.Reconcile.Pass.{
  evidence_loop, refresh_execution_repair_evidence, repair_evidence, resolve_by_history,
  resolve_by_fills, resolve_by_orders, resolve_pending_unknown_commands, repair_history,
  after_snapshots, repair_history, refresh_private, refresh_snapshots, repair, reconcile_private,
  conclude,
}
use bat_markets.Facade.Reconcile.Asks.{
  get_order, ask_for, order_answer, request_of, refresh_recent_order_history,
}
use bat_markets.Facade.Reconcile.Kept.{also_unresolved_context, answer-cases}
use bat_markets.Facade.Reconcile.History.{then_left_context}

module _ {D : Type 0} (v : VenueRest D) where
  bind-bus :
      {A B : Type 0} (r : Call D A) (next : A → Live D → Call D B)
      → ((a : A) (c : Live D) → (next a c).1.bus ≡ c.bus)
      → (r >>+ next).1.bus ≡ r.1.bus
  bind-bus (err e, c) next f = refl
  bind-bus (ok a, c) next f = f a c

  get_order-bus :
      (p : PendingUnknownCommand) (c : Live D) → (get_order v (request_of p) c).1.bus ≡ c.bus
  unfolding get_order
  get_order-bus p c = elim (Result-cases (order_answer v (request_of p))) [
    | inl (e, r) ↦ rw (r, get_order) refl
    | inr (o, r) ↦ rw (r, get_order) refl
  ]

  ask_for-bus : (p : PendingUnknownCommand) (c : Live D) → (ask_for v p c).1.bus ≡ c.bus
  unfolding ask_for
  ask_for-bus p c = ground (arith, get_order-bus p c)

  ask_for_orders-bus :
      (ps : List PendingUnknownCommand) (c : Live D) → (ask_for_orders v ps c).1.bus ≡ c.bus
  unfolding ask_for_orders
  ask_for_orders-bus [] c = refl
  ask_for_orders-bus (p ∷ ps) c =
      let rest = ask_for_orders-bus ps (ask_for v p c).1 ∙ ask_for-bus p c in
      elim (answer-cases (ask_for v p c).0) [
        | inl (e, r) ↦ rw (r, ask_for_orders) (ask_for-bus p c)
        | inr (inl r) ↦ rw (r, ask_for_orders) rest
        | inr (inr r) ↦
            rw (r, ask_for_orders)
              (ap (λ c. c.bus) (also_unresolved_context p (ask_for_orders v ps (ask_for v p c).1))
                ∙ rest)
      ]

  order_history_loop-bus :
      (groups : OrdMap InstrumentId (List PendingUnknownCommand)) (c : Live D)
      → (order_history_loop v groups c).1.bus ≡ c.bus
  unfolding order_history_loop
  order_history_loop-bus [] c = refl
  order_history_loop-bus ((id, ps) ∷ groups) c =
      elim (Result-cases (refresh_recent_order_history v id ps c)) [
        | inl (e, r) ↦ rw (r, order_history_loop) refl
        | inr (os, r) ↦
            rw (r, order_history_loop)
              (ap (λ c. c.bus) (then_left_context _ _) ∙ order_history_loop-bus groups _)
      ]

  execution_history_loop-bus :
      (groups : OrdMap InstrumentId (List PendingUnknownCommand)) (c : Live D)
      → (execution_history_loop v groups c).1.bus ≡ c.bus
  unfolding execution_history_loop
  execution_history_loop-bus [] c = refl
  execution_history_loop-bus ((id, ps) ∷ groups) c =
      elim (Result-cases (refresh_recent_execution_history v id ps c)) [
        | inl (e, r) ↦ rw (r, execution_history_loop) refl
        | inr (os, r) ↦
            rw (r, execution_history_loop)
              (ap (λ c. c.bus) (then_left_context _ _) ∙ execution_history_loop-bus groups _)
      ]

  resolve_by_fills-bus :
      (us : List PendingUnknownCommand) (c : Live D) → (resolve_by_fills v us c).1.bus ≡ c.bus
  unfolding resolve_by_fills
  resolve_by_fills-bus [] c = refl
  resolve_by_fills-bus (p ∷ ps) c =
      let groups = pending_by_instrument (p ∷ ps) in
      bind-bus (execution_history_loop v groups c) _ (λ last done. refl)
      ∙ execution_history_loop-bus groups c

  resolve_by_history-bus :
      (us : List PendingUnknownCommand) (c : Live D) → (resolve_by_history v us c).1.bus ≡ c.bus
  unfolding resolve_by_history
  resolve_by_history-bus [] c = refl
  resolve_by_history-bus (p ∷ ps) c =
      let groups = pending_by_instrument (p ∷ ps) in
      bind-bus (order_history_loop v groups c) (resolve_by_fills v) resolve_by_fills-bus
      ∙ order_history_loop-bus groups c

  resolve_by_orders-bus :
      (us : List PendingUnknownCommand) (c : Live D) → (resolve_by_orders v us c).1.bus ≡ c.bus
  unfolding resolve_by_orders
  resolve_by_orders-bus [] c = refl
  resolve_by_orders-bus (p ∷ ps) c =
      bind-bus (ask_for_orders v (p ∷ ps) c) _
        (λ asked after. resolve_by_history-bus (resolve_pending_from_local_state asked after) after)
      ∙ ask_for_orders-bus (p ∷ ps) c

  evidence_loop-bus :
      (groups : OrdMap InstrumentId (List PendingUnknownCommand)) (c : Live D)
      → (evidence_loop v groups c).1.bus ≡ c.bus
  unfolding evidence_loop
  evidence_loop-bus [] c = refl
  evidence_loop-bus ((id, ps) ∷ groups) c = elim (Option-cases (v.resolve_instrument id)) [
    | inl none_there ↦ rw (none_there, evidence_loop) (evidence_loop-bus groups c)
    | inr (spec, there) ↦ elim (Result-cases (refresh_recent_execution_history v id ps c)) [
      | inl (f, r) ↦ rw (there, evidence_loop, r) refl
      | inr (es, r) ↦ rw (there, evidence_loop, r) (evidence_loop-bus groups _)
    ]
  ]

  refresh_account-bus : (c : Live D) → (refresh_account v c).1.bus ≡ c.bus
  unfolding refresh_account
  refresh_account-bus c = elim (Result-cases v.account) [
    | inl (e, r) ↦ rw (r, refresh_account) refl
    | inr (a, r) ↦ rw (r, refresh_account) refl
  ]

  refresh_positions-bus : (c : Live D) → (refresh_positions v c).1.bus ≡ c.bus
  unfolding refresh_positions
  refresh_positions-bus c = elim (Result-cases v.positions) [
    | inl (e, r) ↦ rw (r, refresh_positions) refl
    | inr (a, r) ↦ rw (r, refresh_positions) refl
  ]

  refresh_open_orders-bus : (c : Live D) → (refresh_open_orders v c).1.bus ≡ c.bus
  unfolding refresh_open_orders
  refresh_open_orders-bus c = elim (Result-cases v.open_orders) [
    | inl (e, r) ↦ rw (r, refresh_open_orders) refl
    | inr (os, r) ↦ rw (r, refresh_open_orders) refl
  ]

  resolve_pending-bus : (c : Live D) → (resolve_pending_unknown_commands v c).1.bus ≡ c.bus
  unfolding resolve_pending_unknown_commands
  resolve_pending-bus c = resolve_by_orders-bus (resolve_pending_from_local_state c.pending c) _

  repair_history-bus :
      (scope : ExecutionRepairScope) (c : Live D) → (repair_history v scope c).1.bus ≡ c.bus
  unfolding refresh_execution_repair_evidence
  repair_history-bus ExecutionRepairScope.pending_unknown_only c = resolve_pending-bus c
  repair_history-bus ExecutionRepairScope.local_evidence c =
      bind-bus (refresh_execution_repair_evidence v c) _ (λ done after. resolve_pending-bus after)
      ∙ evidence_loop-bus (repair_evidence v c) c

  after_snapshots-bus :
      (trigger : ReconcileTrigger) (mode : PrivateReconcileMode) (c : Live D)
      → (after_snapshots v trigger mode c).1.bus ≡ c.bus
  after_snapshots-bus trigger PrivateReconcileMode.snapshot_only c = refl
  after_snapshots-bus trigger PrivateReconcileMode.recent_history_repair c =
      repair_history-bus (execution_repair_scope trigger c.state.health) c

  repair-bus :
      (trigger : ReconcileTrigger) (mode : PrivateReconcileMode) (c : Live D)
      → (repair v trigger mode c).1.bus ≡ c.bus
  unfolding repair
  repair-bus trigger mode c =
      bind-bus (refresh_snapshots v c) (λ orders c3. after_snapshots v trigger mode c3)
        (λ orders c3. after_snapshots-bus trigger mode c3)
      ∙ bind-bus (refresh_private v c) (λ positions c2. refresh_open_orders v c2)
          (λ positions c2. refresh_open_orders-bus c2)
      ∙ bind-bus (refresh_account v c) (λ account c1. refresh_positions v c1)
          (λ account c1. refresh_positions-bus c1)
      ∙ refresh_account-bus c

  conclude-bus :
      (stale_after : ℕ) (report : ReconcileReport) (r : Call D ℕ)
      → (conclude v stale_after report r).1.bus ≡ r.1.bus
  unfolding conclude
  conclude-bus stale_after report (ok n, c) = refl
  conclude-bus stale_after report (err e, c) = refl

  pub reconcile_private-bus :
      (show_count : ℕ → Str) (stale_after : ℕ) (trigger : ReconcileTrigger) (c : Live D)
      → (reconcile_private v show_count stale_after trigger c).1.bus ≡ c.bus
  unfolding reconcile_private
  reconcile_private-bus show_count stale_after trigger c =
      conclude-bus stale_after _ _ ∙ repair-bus trigger _ c
