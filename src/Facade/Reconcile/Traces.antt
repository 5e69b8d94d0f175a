-- ===== src/Facade/Reconcile/Traces.antt =====
-- crates/bat-markets/src/runtime.rs: what the writes of a reconcile pass leave of the evidence in
-- the engine state.
use bat_markets.Prelude.{
  ℕ, ◌≡◌, refl, Bool, false, not, Option, none, some, List, [], ◌∷◌, ◌++◌, any, any-append, arith,
}
use bat_markets.Ord.{Ord, str_ord}
use bat_markets.OrdMap.{OrdMap, insert, values, retain}
use bat_markets.Core.Trade.{Order, Execution, Position}
use bat_markets.Core.Command.{AccountSnapshot}
use bat_markets.Core.Execution.{PrivateLaneEvent}
use bat_markets.Core.Engine.{EngineState, trim_front, push_bounded, record_execution}
use bat_markets.Core.Engine.Private.{
  insert_orders, record_executions, apply_private_event, replace_account_snapshot,
  replace_positions, replace_open_orders, merge_order_history, merge_executions, mark_rest_success,
  is_open, replace_account_if,
}
use bat_markets.Facade.Pending.{
  PendingUnknownCommand, order_matches_pending, execution_matches_pending,
}
use bat_markets.Facade.Reconcile.{replace_positions_if, merge_orders_if, merge_executions_if}

any-values-insert :
    {V : Type 0} {K : Type 0} ⦃o : Ord K⦄ (p : V → Bool) (k : K) (v : V) (m : OrdMap K V)
    → p v ≡ false
    → any p (values m) ≡ false
    → any p (values (insert k v m)) ≡ false
unfolding insert
any-values-insert p k v [] e h = ground arith
any-values-insert p k v ((j, w) ∷ m) e h = ground (arith, any-values-insert p k v m)

any-values-retain :
    {V : Type 0} {K : Type 0} (p : V → Bool) (q : K → V → Bool) (m : OrdMap K V)
    → any p (values m) ≡ false
    → any p (values (retain q m)) ≡ false
any-values-retain p q [] h = refl
any-values-retain p q ((j, w) ∷ m) h = ground (arith, any-values-retain p q m)

any-trim_front :
    {A : Type 0} (p : A → Bool) (cap : ℕ) (xs : List A)
    → any p xs ≡ false
    → any p (trim_front cap xs) ≡ false
unfolding trim_front
any-trim_front p cap [] h = refl
any-trim_front p cap (x ∷ xs) h = ground (arith, any-trim_front p cap xs)

module _ {D : Type 0} (command : PendingUnknownCommand) where
  abbrev by_order : Order D → Bool
  by_order o = order_matches_pending o command

  abbrev by_execution : Execution D → Bool
  by_execution e = execution_matches_pending e command

  any-insert_orders :
      (os : List (Order D)) (m : OrdMap _ (Order D))
      → any by_order os ≡ false
      → any by_order (values m) ≡ false
      → any by_order (values (insert_orders os m)) ≡ false
  unfolding insert_orders
  any-insert_orders [] m e h = h
  any-insert_orders (o ∷ os) m e h =
      any-insert_orders os (insert o.order_id o m) (ground (arith, e))
        (any-values-insert by_order o.order_id o m (ground (arith, e)) h)

  any-record_execution :
      (cap : ℕ) (e : Execution D) (es : List (Execution D))
      → by_execution e ≡ false
      → any by_execution es ≡ false
      → any by_execution (record_execution cap e es) ≡ false
  unfolding record_execution push_bounded
  any-record_execution cap e es h k =
      ground
        (arith, any-trim_front by_execution cap (es ++ e ∷ []), any-append by_execution es (e ∷ []))

  any-record_executions :
      (cap : ℕ) (xs es : List (Execution D))
      → any by_execution xs ≡ false
      → any by_execution es ≡ false
      → any by_execution (record_executions cap xs es) ≡ false
  unfolding record_executions
  any-record_executions cap [] es h k = k
  any-record_executions cap (x ∷ xs) es h k =
      any-record_executions cap xs (record_execution cap x es) (ground (arith, h))
        (any-record_execution cap x es (ground (arith, h)) k)

  -- The state holds no order and no fill that is evidence of the command.
  pub record IsUntraced (s : EngineState D) : Type 0 where
    pub no_order : any by_order (values s.orders) ≡ false
    pub no_execution : any by_execution s.executions ≡ false

  pub IsUntraced-order :
      (o : Order D) (s : EngineState D)
      → order_matches_pending o command ≡ false
      → IsUntraced s
      → IsUntraced (mark_rest_success none (apply_private_event (PrivateLaneEvent.order o) s))
  unfolding mark_rest_success apply_private_event
  IsUntraced-order o s e h = record {
    no_order = any-values-insert by_order o.order_id o s.orders e h.no_order;
    no_execution = h.no_execution;
  }

  pub IsUntraced-open_orders :
      (os : List (Order D)) (s : EngineState D)
      → any by_order os ≡ false
      → IsUntraced s
      → IsUntraced (mark_rest_success none (replace_open_orders os s))
  unfolding mark_rest_success replace_open_orders
  IsUntraced-open_orders os s e h = record {
    no_order =
        any-insert_orders os _ e
          (any-values-retain by_order (λ id o. not (is_open o.status)) s.orders h.no_order);
    no_execution = h.no_execution;
  }

  pub IsUntraced-merge_orders :
      (os : List (Order D)) (s : EngineState D)
      → any by_order os ≡ false
      → IsUntraced s
      → IsUntraced (mark_rest_success none (merge_orders_if os s))
  unfolding mark_rest_success merge_order_history
  IsUntraced-merge_orders [] s e h = record { no_order = h.no_order; no_execution = h.no_execution }
  IsUntraced-merge_orders (o ∷ os) s e h = record {
    no_order = any-insert_orders (o ∷ os) s.orders e h.no_order;
    no_execution = h.no_execution;
  }

  pub IsUntraced-merge_executions :
      (es : List (Execution D)) (s : EngineState D)
      → any by_execution es ≡ false
      → IsUntraced s
      → IsUntraced (mark_rest_success none (merge_executions_if es s))
  unfolding mark_rest_success merge_executions
  IsUntraced-merge_executions [] s e h = record {
    no_order = h.no_order;
    no_execution = h.no_execution;
  }
  IsUntraced-merge_executions (x ∷ es) s e h = record {
    no_order = h.no_order;
    no_execution = any-record_executions _ (x ∷ es) s.executions e h.no_execution;
  }

  pub IsUntraced-positions :
      (account : Option (AccountSnapshot D)) (ps : List (Position D)) (s : EngineState D)
      → IsUntraced s
      → IsUntraced (mark_rest_success none (replace_positions ps (replace_account_if account s)))
  unfolding mark_rest_success replace_positions replace_account_snapshot
  IsUntraced-positions none ps s h = record { no_order = h.no_order; no_execution = h.no_execution }
  IsUntraced-positions (some account) ps s h = record {
    no_order = h.no_order;
    no_execution = h.no_execution;
  }

  pub IsUntraced-account :
      (account : AccountSnapshot D) (ps : Option (List (Position D))) (s : EngineState D)
      → IsUntraced s
      → IsUntraced
          (mark_rest_success none (replace_positions_if ps (replace_account_snapshot account s)))
  unfolding mark_rest_success replace_positions replace_account_snapshot
  IsUntraced-account account none s h = record {
    no_order = h.no_order;
    no_execution = h.no_execution;
  }
  IsUntraced-account account (some ps) s h = record {
    no_order = h.no_order;
    no_execution = h.no_execution;
  }
