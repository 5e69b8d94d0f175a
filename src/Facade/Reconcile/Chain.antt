-- ===== src/Facade/Reconcile/Chain.antt =====
-- crates/bat-markets/src/runtime.rs: a pending command of which there is no trace stays pending
-- through the chain of calls of a reconcile pass.
use bat_markets.Prelude.{
  ℕ, ◌≡◌, ◌⊎◌, refl, none, List, [], ◌∷◌, In, inl, inr, In-keep, subst, sym, length, Option-cases,
}
use bat_markets.Core.Failure.{MarketError, ok, err, Result-cases}
use bat_markets.Core.Types.{InstrumentId}
use bat_markets.OrdMap.{OrdMap}
use bat_markets.Core.Command.{ReconcileTrigger}
use bat_markets.Core.Engine.Private.{mark_rest_success}
use bat_markets.Core.Engine.Read.{orders}
use bat_markets.Facade.Pending.{
  PendingUnknownCommand, cache_each, PrivateReconcileMode, ExecutionRepairScope,
  pending_by_instrument, execution_repair_scope,
}
use bat_markets.Facade.Pending.Evidence.{unresolved_pending_after_state-keep, cache_each-keeps}
use bat_markets.Facade.Reconcile.{
  Live, VenueRest, Call, ◌>>+◌, write, merge_executions_if, refresh_account, refresh_positions,
  refresh_open_orders,
}
use bat_markets.Facade.Reconcile.Asks.{
  resolve_pending_from_local_state, ask_for_orders, order_history_loop, execution_history_loop,
  refresh_recent_execution_history,
}
use bat_markets.Facade.Reconcile.Pass.{
  evidence_loop, refresh_execution_repair_evidence, repair_evidence, resolve_by_history,
  resolve_by_fills, resolve_by_orders, resolve_pending_unknown_commands, repair_history,
  refresh_private, refresh_snapshots, repair, with_pending,
}
use bat_markets.Facade.Reconcile.Traces.{
  IsUntraced-open_orders, IsUntraced-merge_executions, IsUntraced-positions, IsUntraced-account,
}
use bat_markets.Facade.Reconcile.Kept.{
  IsUnmatched, Unseen, grouped, ask_for_orders-Unseen, ask_for_orders-kept,
}
use bat_markets.Facade.Reconcile.History.{
  order_history_loop-Unseen, order_history_loop-kept, execution_history_loop-kept,
  execution_history_loop-Unseen, execution_history_unmatched,
}

module _ {D : Type 0} (v : VenueRest D) (command : PendingUnknownCommand)
    (u : IsUnmatched v command) where
  -- The command stays pending, and a call that ends well counts what is pending.
  abbrev pub IsKept : Call D ℕ → Type 0
  IsKept r =
      In command r.1.pending
      × (((e : MarketError) × (r.0 ≡ err e)) ⊎ (r.0 ≡ ok (length r.1.pending)))

  -- A chain keeps the command when its first call keeps it and what follows a success does.
  bind-IsKept :
      {A : Type 0} (r : Call D A) (next : A → Live D → Call D ℕ)
      → In command r.1.pending
      → ((a : A) → r.0 ≡ ok a → IsKept (next a r.1))
      → IsKept (r >>+ next)
  bind-IsKept (err e, c) next k f = (k, inl (e, refl))
  bind-IsKept (ok a, c) next k f = f a refl

  resolve_by_fills-IsKept :
      (us : List PendingUnknownCommand) (c : Live D)
      → Unseen v command c
      → In command us
      → IsKept (resolve_by_fills v us c)
  unfolding resolve_by_fills
  resolve_by_fills-IsKept [] c h k = absurd k
  resolve_by_fills-IsKept (p ∷ ps) c h k =
      let groups = pending_by_instrument (p ∷ ps) in
      bind-IsKept (execution_history_loop v groups c) _
        (execution_history_loop-Unseen v command u groups c h).1
        (λ last found. (
          execution_history_loop-kept v command u groups last c (grouped v command (p ∷ ps) k)
              found,
          inr refl,
        ))

  resolve_by_history-IsKept :
      (us : List PendingUnknownCommand) (c : Live D)
      → Unseen v command c
      → In command us
      → IsKept (resolve_by_history v us c)
  unfolding resolve_by_history
  resolve_by_history-IsKept [] c h k = absurd k
  resolve_by_history-IsKept (p ∷ ps) c h k =
      let groups = pending_by_instrument (p ∷ ps) in
      let seen = order_history_loop-Unseen v command u groups c h in
      bind-IsKept (order_history_loop v groups c) (resolve_by_fills v) seen.1 (λ left found.
        resolve_by_fills-IsKept left _ seen
          (order_history_loop-kept v command u groups left c (grouped v command (p ∷ ps) k) found))

  local-kept :
      (ps : List PendingUnknownCommand) (c : Live D)
      → Unseen v command c
      → In command ps
      → In command (resolve_pending_from_local_state ps c)
  unfolding resolve_pending_from_local_state orders
  local-kept ps c h k =
      subst (In command)
        (sym (unresolved_pending_after_state-keep ps (orders c.state) c.state.executions))
        (In-keep command _ ps k (rw (h.0.no_order, h.0.no_execution) refl))

  resolve_by_orders-IsKept :
      (us : List PendingUnknownCommand) (c : Live D)
      → Unseen v command c
      → In command us
      → IsKept (resolve_by_orders v us c)
  unfolding resolve_by_orders
  resolve_by_orders-IsKept [] c h k = absurd k
  resolve_by_orders-IsKept (p ∷ ps) c h k =
      let r = ask_for_orders v (p ∷ ps) c in
      let seen = ask_for_orders-Unseen v command u (p ∷ ps) c h in
      bind-IsKept r _ seen.1 (λ asked found.
        resolve_by_history-IsKept (resolve_pending_from_local_state asked r.1) r.1 seen
          (local-kept asked r.1 seen (ask_for_orders-kept v command u (p ∷ ps) asked c k found)))

  resolve_pending-IsKept :
      (c : Live D) → Unseen v command c → IsKept (resolve_pending_unknown_commands v c)
  unfolding resolve_pending_unknown_commands
  resolve_pending-IsKept c h =
      resolve_by_orders-IsKept (resolve_pending_from_local_state c.pending c)
        (with_pending (cache_each v.cached_meanwhile c.pending) c)
        (h.0, cache_each-keeps command v.cached_meanwhile c.pending h.1)
        (local-kept c.pending c h h.1)

  evidence_loop-Unseen :
      (groups : OrdMap InstrumentId (List PendingUnknownCommand)) (c : Live D)
      → Unseen v command c
      → Unseen v command (evidence_loop v groups c).1
  unfolding evidence_loop
  evidence_loop-Unseen [] c h = h
  evidence_loop-Unseen ((id, ps) ∷ groups) c h = elim (Option-cases (v.resolve_instrument id)) [
    | inl none_there ↦ rw (none_there, evidence_loop) (evidence_loop-Unseen groups c h)
    | inr (spec, there) ↦ elim (Result-cases (refresh_recent_execution_history v id ps c)) [
      | inl (f, r) ↦ rw (there, evidence_loop, r) h
      | inr (es, r) ↦
          let after : Live D = write (λ s. mark_rest_success none (merge_executions_if es s)) c in
          let seen : Unseen v command after = (
            IsUntraced-merge_executions command es c.state
                (execution_history_unmatched v command u id ps c es r) h.0,
            h.1,
          ) in
          rw (there, evidence_loop, r) (evidence_loop-Unseen groups after seen)
    ]
  ]

  refresh_account-Unseen :
      (c : Live D) → Unseen v command c → Unseen v command (refresh_account v c).1
  unfolding refresh_account
  refresh_account-Unseen c h = elim (Result-cases v.account) [
    | inl (e, r) ↦ rw (r, refresh_account) h
    | inr (a, r) ↦ rw (r, refresh_account) (IsUntraced-account command a.0 a.1 c.state h.0, h.1)
  ]

  refresh_positions-Unseen :
      (c : Live D) → Unseen v command c → Unseen v command (refresh_positions v c).1
  unfolding refresh_positions
  refresh_positions-Unseen c h = elim (Result-cases v.positions) [
    | inl (e, r) ↦ rw (r, refresh_positions) h
    | inr (a, r) ↦ rw (r, refresh_positions) (IsUntraced-positions command a.0 a.1 c.state h.0, h.1)
  ]

  refresh_open_orders-Unseen :
      (c : Live D) → Unseen v command c → Unseen v command (refresh_open_orders v c).1
  unfolding refresh_open_orders
  refresh_open_orders-Unseen c h = elim (Result-cases v.open_orders) [
    | inl (e, r) ↦ rw (r, refresh_open_orders) h
    | inr (os, r) ↦
        rw (r, refresh_open_orders)
          (IsUntraced-open_orders command os c.state (u.no_open_order os r) h.0, h.1)
  ]

  repair_history-IsKept :
      (scope : ExecutionRepairScope) (c : Live D)
      → Unseen v command c
      → IsKept (repair_history v scope c)
  unfolding refresh_execution_repair_evidence
  repair_history-IsKept ExecutionRepairScope.pending_unknown_only c h = resolve_pending-IsKept c h
  repair_history-IsKept ExecutionRepairScope.local_evidence c h =
      let seen = evidence_loop-Unseen (repair_evidence v c) c h in
      bind-IsKept (refresh_execution_repair_evidence v c) _ seen.1
        (λ done found. resolve_pending-IsKept _ seen)

  bind-Unseen :
      {A B : Type 0} (r : Call D A) (next : A → Live D → Call D B)
      → Unseen v command r.1
      → ((a : A) (c : Live D) → Unseen v command c → Unseen v command (next a c).1)
      → Unseen v command (r >>+ next).1
  bind-Unseen (err e, c) next h f = h
  bind-Unseen (ok a, c) next h f = f a c h

  pub repair-IsKept :
      (trigger : ReconcileTrigger) (c : Live D)
      → Unseen v command c
      → IsKept (repair v trigger PrivateReconcileMode.recent_history_repair c)
  unfolding repair
  repair-IsKept trigger c h =
      let placed : Unseen v command (refresh_private v c).1 =
        bind-Unseen (refresh_account v c) (λ account c1. refresh_positions v c1)
          (refresh_account-Unseen c h) (λ account c1 g. refresh_positions-Unseen c1 g) in
      let listed : Unseen v command (refresh_snapshots v c).1 =
        bind-Unseen (refresh_private v c) (λ positions c2. refresh_open_orders v c2) placed
          (λ positions c2 g. refresh_open_orders-Unseen c2 g) in
      bind-IsKept (refresh_snapshots v c) _ listed.1 (λ orders found.
        repair_history-IsKept
          (execution_repair_scope trigger (refresh_snapshots v c).1.state.health)
          (refresh_snapshots v c).1 listed)
