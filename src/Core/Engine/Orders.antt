-- ===== src/Core/Engine/Orders.antt =====
-- crates/bat-markets-core/src/state.rs: what the order snapshots and the order history leave, and
-- what `open_orders` then reads.
use bat_markets.Prelude.{
  ◌≡◌, refl, true, not, Option, none, some, List, [], ◌∷◌, arith, All, any, keep, if◌then◌else◌,
  or_option, ◌∙◌, ap, All-imp,
}
use bat_markets.Ord.{◌===◌, str_ord}
use bat_markets.OrdMap.{OrdMap, get, insert, values, retain}
use bat_markets.OrdMap.Laws.{get-insert}
use bat_markets.OrdMap.Entries.{AllEntries, AllEntries-insert}
use bat_markets.OrdMap.Sorted.{kept, get-retain}
use bat_markets.Core.Types.{OrderId}
use bat_markets.Core.Trade.{Order}
use bat_markets.Core.Engine.{EngineState}
use bat_markets.Core.Engine.Private.{
  is_open, insert_orders, replace_open_orders, merge_order_history,
}
use bat_markets.Core.Engine.Read.{open_orders}
use bat_markets.Core.Engine.Filed.{IsFiled}

module _ {D : Type 0} where
  -- The last order of a list that carries the id.
  abbrev pub last_named : OrderId → List (Order D) → Option (Order D)
  last_named id [] = none
  last_named id (o ∷ os) = or_option (last_named id os) (if id === o.order_id then some o else none)

  get-insert_orders :
      (id : OrderId) (os : List (Order D)) (m : OrdMap OrderId (Order D))
      → get id (insert_orders os m) ≡ or_option (last_named id os) (get id m)
  unfolding insert_orders
  get-insert_orders id [] m = refl
  get-insert_orders id (o ∷ os) m =
      ground (arith, get-insert_orders id os (insert o.order_id o m), get-insert id o.order_id o m)

  -- An id reads as the last order of the snapshot that carries it; without one, as the terminal
  -- order that was known; an open order that the snapshot omits is gone.
  pub replace_open_orders_lookup :
      (os : List (Order D)) (s : EngineState D) (id : OrderId)
      → IsFiled s
      → get id (replace_open_orders os s).orders
        ≡ or_option (last_named id os) (kept (λ o. not (is_open o.status)) (get id s.orders))
  unfolding replace_open_orders
  replace_open_orders_lookup os s id f =
      get-insert_orders id os _
      ∙ ap (or_option (last_named id os))
          (get-retain id (λ k o. not (is_open o.status)) s.orders f.orders.ordered)

  -- A history merge overwrites what it names, the later entry winning, and forgets nothing.
  pub merge_order_history_lookup :
      (os : List (Order D)) (s : EngineState D) (id : OrderId)
      → get id (merge_order_history os s).orders ≡ or_option (last_named id os) (get id s.orders)
  unfolding merge_order_history
  merge_order_history_lookup os s id = get-insert_orders id os s.orders

  abbrev Reported : List (Order D) → OrderId → Order D → Type 0
  Reported os id o = is_open o.status ≡ true → any (λ x. x.order_id === o.order_id) os ≡ true

  terminal-Reported :
      (os : List (Order D)) (m : OrdMap OrderId (Order D))
      → AllEntries (Reported os) (retain (λ k o. not (is_open o.status)) m)
  terminal-Reported os [] = tt
  terminal-Reported os ((k, o) ∷ m) = ground (arith, terminal-Reported os m)

  insert_orders-Reported :
      (all os : List (Order D)) (m : OrdMap OrderId (Order D))
      → All (λ o. any (λ x. x.order_id === o.order_id) all ≡ true) os
      → AllEntries (Reported all) m
      → AllEntries (Reported all) (insert_orders os m)
  unfolding insert_orders
  insert_orders-Reported all [] m h r = r
  insert_orders-Reported all (o ∷ os) m h r =
      insert_orders-Reported all os (insert o.order_id o m) h.1
        (AllEntries-insert (Reported all) o.order_id o m (λ is_new. h.0) r)

  self_named : (os : List (Order D)) → All (λ o. any (λ x. x.order_id === o.order_id) os ≡ true) os
  self_named [] = tt
  self_named (x ∷ os) = (
    ground (arith, str_ord.cmp_iff x.order_id x.order_id),
    All-imp (λ o h. ground arith) os (self_named os),
  )

  open_values :
      (os : List (Order D)) (m : OrdMap OrderId (Order D))
      → AllEntries (Reported os) m
      → All
          (λ o. any (λ x. x.order_id === o.order_id) os ≡ true)
          (keep (λ o. is_open o.status) (values m))
  open_values os [] r = tt
  open_values os ((k, o) ∷ m) r = ground (arith, open_values os m r.1)

  -- After a snapshot of the open orders, every order that `open_orders` reads is one the snapshot
  -- names: nothing that the venue no longer reports as open stays open.
  pub open_orders_reported :
      (os : List (Order D)) (s : EngineState D)
      → All
          (λ o. any (λ x. x.order_id === o.order_id) os ≡ true)
          (open_orders (replace_open_orders os s))
  unfolding open_orders replace_open_orders
  open_orders_reported os s =
      open_values os (insert_orders os (retain (λ k o. not (is_open o.status)) s.orders))
        (insert_orders-Reported os os _ (self_named os) (terminal-Reported os s.orders))
