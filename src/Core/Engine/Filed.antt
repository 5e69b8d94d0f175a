-- ===== src/Core/Engine/Filed.antt =====
-- crates/bat-markets-core/src/state.rs: the keyed stores. Each is ordered by its keys, holds a key
-- once, and files a value under the id that the value carries.
use bat_markets.Prelude.{◌≡◌, refl, Bool, Option, none, some, List, [], ◌∷◌, arith, map}
use bat_markets.Ord.{str_ord}
use bat_markets.OrdMap.{OrdMap, insert, collect, retain}
use bat_markets.OrdMap.Entries.{
  AllEntries, AllEntries-insert, AllEntries-collect, AllEntries-retain,
}
use bat_markets.OrdMap.Sorted.{IsSorted, insert-IsSorted, retain-IsSorted, collect-IsSorted}
use bat_markets.Prelude.Text.{Str}
use bat_markets.Core.Types.{Venue, Product, OrderId}
use bat_markets.Core.Numeric.{DecimalOps}
use bat_markets.Core.Instrument.{InstrumentSpec}
use bat_markets.Core.Trade.{Order, Position}
use bat_markets.Core.Command.{AccountSnapshot, PrivateSnapshot}
use bat_markets.Core.Execution.{PublicLaneEvent, PrivateLaneEvent}
use bat_markets.Core.Engine.{EngineState, StatePolicy, new}
use bat_markets.Core.Engine.Public
use bat_markets.Core.Engine.Private
use bat_markets.Core.Engine.Ops.{Op, step, run}

module _ {V : Type 0} (id_of : V → Str) where
  -- A store under the ids of its values.
  pub record IsStore (m : OrdMap Str V) : Type 0 where
    pub ordered : IsSorted m
    pub named : AllEntries (λ k v. id_of v ≡ k) m

  pub insert-IsStore : (v : V) (m : OrdMap Str V) → IsStore m → IsStore (insert (id_of v) v m)
  insert-IsStore v m h = record {
    ordered = insert-IsSorted (id_of v) v m h.ordered;
    named = AllEntries-insert (λ k w. id_of w ≡ k) (id_of v) v m refl h.named;
  }

  pub retain-IsStore : (p : Str → V → Bool) (m : OrdMap Str V) → IsStore m → IsStore (retain p m)
  retain-IsStore p m h = record {
    ordered = retain-IsSorted p m h.ordered;
    named = AllEntries-retain (λ k w. id_of w ≡ k) p m h.named;
  }

  entries_named : (vs : List V) → AllEntries (λ k v. id_of v ≡ k) (map (λ v. (id_of v, v)) vs)
  entries_named [] = tt
  entries_named (v ∷ vs) = (refl, entries_named vs)

  pub collect-IsStore : (vs : List V) → IsStore (collect (map (λ v. (id_of v, v)) vs))
  collect-IsStore vs = record {
    ordered = collect-IsSorted (map (λ v. (id_of v, v)) vs);
    named = AllEntries-collect (λ k v. id_of v ≡ k) (map (λ v. (id_of v, v)) vs) (entries_named vs);
  }

module _ {D : Type 0} where
  pub record IsFiled (s : EngineState D) : Type 0 where
    pub instruments : IsStore (λ v. v.instrument_id) s.instruments
    pub balances : IsStore (λ v. v.asset) s.balances
    pub positions : IsStore (λ v. v.instrument_id) s.positions
    pub orders : IsStore (λ v. v.order_id) s.orders

  pub insert_orders-IsStore :
      (os : List (Order D)) (m : OrdMap OrderId (Order D))
      → IsStore (λ v. v.order_id) m
      → IsStore (λ v. v.order_id) (Private.insert_orders os m)
  unfolding Private.insert_orders
  insert_orders-IsStore [] m h = h
  insert_orders-IsStore (o ∷ os) m h =
      insert_orders-IsStore os (insert o.order_id o m) (insert-IsStore (λ v. v.order_id) o m h)

  private_event-IsFiled :
      (e : PrivateLaneEvent D) (s : EngineState D)
      → IsFiled s
      → IsFiled (Private.apply_private_event e s)
  unfolding Private.apply_private_event
  private_event-IsFiled (PrivateLaneEvent.balance x) s b = record {
    instruments = b.instruments;
    balances = insert-IsStore (λ v. v.asset) x s.balances b.balances;
    positions = b.positions;
    orders = b.orders;
  }
  private_event-IsFiled (PrivateLaneEvent.position x) s b = record {
    instruments = b.instruments;
    balances = b.balances;
    positions = insert-IsStore (λ v. v.instrument_id) x s.positions b.positions;
    orders = b.orders;
  }
  private_event-IsFiled (PrivateLaneEvent.order x) s b = record {
    instruments = b.instruments;
    balances = b.balances;
    positions = b.positions;
    orders = insert-IsStore (λ v. v.order_id) x s.orders b.orders;
  }
  private_event-IsFiled (PrivateLaneEvent.execution x) s b = ground arith
  private_event-IsFiled (PrivateLaneEvent.divergence x) s b = ground arith

  account-IsFiled :
      (a : AccountSnapshot D) (s : EngineState D)
      → IsFiled s
      → IsFiled (Private.replace_account_snapshot a s)
  unfolding Private.replace_account_snapshot
  account-IsFiled a s b = record {
    instruments = b.instruments;
    balances = collect-IsStore (λ v. v.asset) a.balances;
    positions = b.positions;
    orders = b.orders;
  }

  positions-IsFiled :
      (ps : List (Position D)) (s : EngineState D)
      → IsFiled s
      → IsFiled (Private.replace_positions ps s)
  unfolding Private.replace_positions
  positions-IsFiled ps s b = record {
    instruments = b.instruments;
    balances = b.balances;
    positions = collect-IsStore (λ v. v.instrument_id) ps;
    orders = b.orders;
  }

  open_orders-IsFiled :
      (os : List (Order D)) (s : EngineState D)
      → IsFiled s
      → IsFiled (Private.replace_open_orders os s)
  unfolding Private.replace_open_orders
  open_orders-IsFiled os s b = record {
    instruments = b.instruments;
    balances = b.balances;
    positions = b.positions;
    orders = insert_orders-IsStore os _ (retain-IsStore (λ v. v.order_id) _ s.orders b.orders);
  }

  history-IsFiled :
      (os : List (Order D)) (s : EngineState D)
      → IsFiled s
      → IsFiled (Private.merge_order_history os s)
  unfolding Private.merge_order_history
  history-IsFiled os s b = record {
    instruments = b.instruments;
    balances = b.balances;
    positions = b.positions;
    orders = insert_orders-IsStore os s.orders b.orders;
  }

  specs-IsFiled :
      (specs : List (InstrumentSpec D)) (s : EngineState D)
      → IsFiled s
      → IsFiled (Private.replace_instruments specs s)
  unfolding Private.replace_instruments
  specs-IsFiled specs s b = record {
    instruments = collect-IsStore (λ v. v.instrument_id) specs;
    balances = b.balances;
    positions = b.positions;
    orders = b.orders;
  }

  replace_account_if-IsFiled :
      (a : Option (AccountSnapshot D)) (s : EngineState D)
      → IsFiled s
      → IsFiled (Private.replace_account_if a s)
  replace_account_if-IsFiled none s b = b
  replace_account_if-IsFiled (some a) s b = account-IsFiled a s b

  snapshot-IsFiled :
      (p : PrivateSnapshot D) (s : EngineState D)
      → IsFiled s
      → IsFiled (Private.apply_private_snapshot p s)
  unfolding Private.apply_private_snapshot
  snapshot-IsFiled p s b =
      open_orders-IsFiled p.open_orders _
        (positions-IsFiled p.positions _ (replace_account_if-IsFiled p.account s b))

module _ {D : Type 0} (dec : DecimalOps D) where
  public_event-IsFiled :
      (e : PublicLaneEvent D) (s : EngineState D)
      → IsFiled s
      → IsFiled (Public.apply_public_event dec e s).0
  unfolding Public.apply_public_event Public.apply_fast_ticker Public.apply_fast_trade
      Public.apply_fast_book_top Public.apply_fast_kline Public.apply_fast_mark_price
      Public.apply_fast_liquidation Public.apply_public_divergence
  public_event-IsFiled (PublicLaneEvent.ticker t) s b = ground arith
  public_event-IsFiled _ s b = ground arith

  step-IsFiled : (op : Op D) (s : EngineState D) → IsFiled s → IsFiled (step dec op s)
  unfolding step Private.apply_command_receipt Private.merge_executions
      Private.apply_reconcile_report Private.mark_rest_success Private.mark_public_disconnect
      Private.mark_private_disconnect Private.mark_reconnect Private.mark_snapshot_age
  step-IsFiled (Op.public_event e) s b = public_event-IsFiled e s b
  step-IsFiled (Op.private_event e) s b = private_event-IsFiled e s b
  step-IsFiled (Op.replace_instruments specs) s b = specs-IsFiled specs s b
  step-IsFiled (Op.replace_account_snapshot a) s b = account-IsFiled a s b
  step-IsFiled (Op.replace_positions ps) s b = positions-IsFiled ps s b
  step-IsFiled (Op.replace_open_orders os) s b = open_orders-IsFiled os s b
  step-IsFiled (Op.merge_order_history os) s b = history-IsFiled os s b
  step-IsFiled (Op.private_snapshot p) s b = snapshot-IsFiled p s b
  step-IsFiled _ s b = ground arith

  run-IsFiled : (ops : List (Op D)) (s : EngineState D) → IsFiled s → IsFiled (run dec ops s)
  unfolding run
  run-IsFiled [] s b = b
  run-IsFiled (op ∷ ops) s b = run-IsFiled ops (step dec op s) (step-IsFiled op s b)

  -- After any calls on a new engine the instruments, balances, positions and orders are each ordered
  -- by key with no key twice, and each value is filed under the id that it carries.
  pub run-new-IsFiled :
      (venue : Venue) (product : Product) (policy : StatePolicy) (specs : List (InstrumentSpec D))
      (ops : List (Op D))
      → IsFiled (run dec ops (new venue product policy specs))
  unfolding new
  run-new-IsFiled venue product policy specs ops =
      run-IsFiled ops (new venue product policy specs) (record {
        instruments = collect-IsStore (λ v. v.instrument_id) specs;
        balances = record { ordered = tt; named = tt };
        positions = record { ordered = tt; named = tt };
        orders = record { ordered = tt; named = tt };
      })
