-- ===== src/Facade/Reconcile/History.antt =====
-- crates/bat-markets/src/runtime.rs: a pending command of which there is no trace stays pending
-- through the order history and the execution history.
use bat_markets.Prelude.{
  ◌≡◌, ◌∙◌, refl, false, none, List, [], ◌∷◌, ◌++◌, any, In, arith, inl, inr, In-append-left,
  In-append-right, In-keep, subst, ap, sym,
}
use bat_markets.OrdMap.{OrdMap}
use bat_markets.Core.Types.{InstrumentId}
use bat_markets.Core.Failure.{MarketError, ok, err, Result-cases}
use bat_markets.Core.Trade.{Order, Execution}
use bat_markets.Core.Engine.Private.{mark_rest_success}
use bat_markets.Facade.Pending.{
  PendingUnknownCommand, order_matches_pending, execution_matches_pending,
  unresolved_pending_after_orders, unresolved_pending_after_executions,
}
use bat_markets.Facade.Reconcile.{
  Live, VenueRest, Call, write, merge_orders_if, merge_executions_if,
}
use bat_markets.Facade.Reconcile.Asks.{
  spec_for, order_history_loop, execution_history_loop, refresh_recent_order_history,
  refresh_recent_execution_history, repair_time_window, then_left,
}
use bat_markets.Facade.Reconcile.Traces.{IsUntraced-merge_orders, IsUntraced-merge_executions}
use bat_markets.Facade.Reconcile.Kept.{IsUnmatched, Unseen, InGroups}

pub then_left_context :
    {D : Type 0} (xs : List PendingUnknownCommand) (r : Call D (List PendingUnknownCommand))
    → (then_left xs r).1 ≡ r.1
then_left_context xs (err e, c) = refl
then_left_context xs (ok left, c) = refl

then_left_result :
    {D : Type 0} (xs : List PendingUnknownCommand) (r : Call D (List PendingUnknownCommand))
    (left : List PendingUnknownCommand)
    → (then_left xs r).0 ≡ ok left
    → (rest : List PendingUnknownCommand) × (r.0 ≡ ok rest) × (left ≡ xs ++ rest)
then_left_result xs (err e, c) left h = absurd (cc)
then_left_result xs (ok rest, c) left h = (rest, refl, cc)

module _ {D : Type 0} (v : VenueRest D) where
  order_history-err :
      (id : InstrumentId) (ps : List PendingUnknownCommand)
      (groups : OrdMap InstrumentId (List PendingUnknownCommand)) (c : Live D) (e : MarketError)
      → refresh_recent_order_history v id ps c ≡ err e
      → order_history_loop v ((id, ps) ∷ groups) c ≡ (err e, c)
  unfolding order_history_loop
  order_history-err id ps groups c e r = rw (r, order_history_loop) refl

  order_history-ok :
      (id : InstrumentId) (ps : List PendingUnknownCommand)
      (groups : OrdMap InstrumentId (List PendingUnknownCommand)) (c : Live D) (os : List (Order D))
      → refresh_recent_order_history v id ps c ≡ ok os
      → order_history_loop v ((id, ps) ∷ groups) c
        ≡ then_left (unresolved_pending_after_orders ps os) (
            order_history_loop v groups
              (write (λ s. mark_rest_success none (merge_orders_if os s)) c))
  unfolding order_history_loop
  order_history-ok id ps groups c os r = rw (r, order_history_loop) refl

  module _ (command : PendingUnknownCommand) (u : IsUnmatched v command) where
    pub order_history_unmatched :
        (id : InstrumentId) (ps : List PendingUnknownCommand) (c : Live D) (os : List (Order D))
        → refresh_recent_order_history v id ps c ≡ ok os
        → any (λ o. order_matches_pending o command) os ≡ false
    unfolding refresh_recent_order_history
    order_history_unmatched id ps c os r = elim (Result-cases (spec_for v id)) [
      | inl (e, f) ↦ absurd (cc)
      | inr (spec, f) ↦ u.no_past_order spec (repair_time_window v id ps c) os (cc)
    ]

    pub order_history_loop-Unseen :
        (groups : OrdMap InstrumentId (List PendingUnknownCommand)) (c : Live D)
        → Unseen v command c
        → Unseen v command (order_history_loop v groups c).1
    unfolding order_history_loop
    order_history_loop-Unseen [] c h = h
    order_history_loop-Unseen ((id, ps) ∷ groups) c h =
        elim (Result-cases (refresh_recent_order_history v id ps c)) [
          | inl (f, r) ↦
              subst (Unseen v command) (ap (λ x. x.1) (sym (order_history-err id ps groups c f r)))
                h
          | inr (os, r) ↦
              let after : Live D = write (λ s. mark_rest_success none (merge_orders_if os s)) c in
              let seen : Unseen v command after = (
                IsUntraced-merge_orders command os c.state (order_history_unmatched id ps c os r)
                    h.0,
                h.1,
              ) in
              subst (Unseen v command)
                (sym (
                  ap (λ x. x.1) (order_history-ok id ps groups c os r)
                  ∙ then_left_context (unresolved_pending_after_orders ps os)
                      (order_history_loop v groups after)))
                (order_history_loop-Unseen groups after seen)
        ]

    pub order_history_loop-kept :
        (groups : OrdMap InstrumentId (List PendingUnknownCommand))
        (left : List PendingUnknownCommand) (c : Live D)
        → InGroups v command groups
        → (order_history_loop v groups c).0 ≡ ok left
        → In command left
    unfolding unresolved_pending_after_orders
    order_history_loop-kept [] left c k e = absurd k
    order_history_loop-kept ((id, ps) ∷ groups) left c k e =
        elim (Result-cases (refresh_recent_order_history v id ps c)) [
          | inl (f, r) ↦ absurd (ground (arith, order_history-err id ps groups c f r, e))
          | inr (os, r) ↦
              let after : Live D = write (λ s. mark_rest_success none (merge_orders_if os s)) c in
              let (rest, found, shape) =
                then_left_result (unresolved_pending_after_orders ps os)
                  (order_history_loop v groups after) left
                  (ap (λ x. x.0) (sym (order_history-ok id ps groups c os r)) ∙ e) in
              let unmatched = order_history_unmatched id ps c os r in
              subst (In command) (sym shape) (elim k [
                | inl here ↦
                    In-append-left command (unresolved_pending_after_orders ps os) rest
                      (In-keep command _ ps here (ground (arith, unmatched)))
                | inr later ↦
                    In-append-right command (unresolved_pending_after_orders ps os) rest
                      (order_history_loop-kept groups rest after later found)
              ])
        ]

module _ {D : Type 0} (v : VenueRest D) where
  execution_history-err :
      (id : InstrumentId) (ps : List PendingUnknownCommand)
      (groups : OrdMap InstrumentId (List PendingUnknownCommand)) (c : Live D) (e : MarketError)
      → refresh_recent_execution_history v id ps c ≡ err e
      → execution_history_loop v ((id, ps) ∷ groups) c ≡ (err e, c)
  unfolding execution_history_loop
  execution_history-err id ps groups c e r = rw (r, execution_history_loop) refl

  execution_history-ok :
      (id : InstrumentId) (ps : List PendingUnknownCommand)
      (groups : OrdMap InstrumentId (List PendingUnknownCommand)) (c : Live D)
      (os : List (Execution D))
      → refresh_recent_execution_history v id ps c ≡ ok os
      → execution_history_loop v ((id, ps) ∷ groups) c
        ≡ then_left (unresolved_pending_after_executions ps os) (
            execution_history_loop v groups
              (write (λ s. mark_rest_success none (merge_executions_if os s)) c))
  unfolding execution_history_loop
  execution_history-ok id ps groups c os r = rw (r, execution_history_loop) refl

  module _ (command : PendingUnknownCommand) (u : IsUnmatched v command) where
    pub execution_history_unmatched :
        (id : InstrumentId) (ps : List PendingUnknownCommand) (c : Live D) (os : List (Execution D))
        → refresh_recent_execution_history v id ps c ≡ ok os
        → any (λ o. execution_matches_pending o command) os ≡ false
    unfolding refresh_recent_execution_history
    execution_history_unmatched id ps c os r = elim (Result-cases (spec_for v id)) [
      | inl (e, f) ↦ absurd (cc)
      | inr (spec, f) ↦ u.no_fill spec (repair_time_window v id ps c) os (cc)
    ]

    pub execution_history_loop-Unseen :
        (groups : OrdMap InstrumentId (List PendingUnknownCommand)) (c : Live D)
        → Unseen v command c
        → Unseen v command (execution_history_loop v groups c).1
    unfolding execution_history_loop
    execution_history_loop-Unseen [] c h = h
    execution_history_loop-Unseen ((id, ps) ∷ groups) c h =
        elim (Result-cases (refresh_recent_execution_history v id ps c)) [
          | inl (f, r) ↦
              subst (Unseen v command)
                (ap (λ x. x.1) (sym (execution_history-err id ps groups c f r))) h
          | inr (os, r) ↦
              let after : Live D =
                write (λ s. mark_rest_success none (merge_executions_if os s)) c in
              let seen : Unseen v command after = (
                IsUntraced-merge_executions command os c.state
                    (execution_history_unmatched id ps c os r) h.0,
                h.1,
              ) in
              subst (Unseen v command)
                (sym (
                  ap (λ x. x.1) (execution_history-ok id ps groups c os r)
                  ∙ then_left_context (unresolved_pending_after_executions ps os)
                      (execution_history_loop v groups after)))
                (execution_history_loop-Unseen groups after seen)
        ]

    pub execution_history_loop-kept :
        (groups : OrdMap InstrumentId (List PendingUnknownCommand))
        (left : List PendingUnknownCommand) (c : Live D)
        → InGroups v command groups
        → (execution_history_loop v groups c).0 ≡ ok left
        → In command left
    unfolding unresolved_pending_after_executions
    execution_history_loop-kept [] left c k e = absurd k
    execution_history_loop-kept ((id, ps) ∷ groups) left c k e =
        elim (Result-cases (refresh_recent_execution_history v id ps c)) [
          | inl (f, r) ↦ absurd (ground (arith, execution_history-err id ps groups c f r, e))
          | inr (os, r) ↦
              let after : Live D =
                write (λ s. mark_rest_success none (merge_executions_if os s)) c in
              let (rest, found, shape) =
                then_left_result (unresolved_pending_after_executions ps os)
                  (execution_history_loop v groups after) left
                  (ap (λ x. x.0) (sym (execution_history-ok id ps groups c os r)) ∙ e) in
              let unmatched = execution_history_unmatched id ps c os r in
              subst (In command) (sym shape) (elim k [
                | inl here ↦
                    In-append-left command (unresolved_pending_after_executions ps os) rest
                      (In-keep command _ ps here (ground (arith, unmatched)))
                | inr later ↦
                    In-append-right command (unresolved_pending_after_executions ps os) rest
                      (execution_history_loop-kept groups rest after later found)
              ])
        ]
