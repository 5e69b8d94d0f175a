-- ===== src/Facade/Validation/Checks.antt =====
-- crates/bat-markets/src/runtime.rs: what the checks of a create command accept.
use bat_markets.Prelude.{
  ℕ, suc, ◌≡◌, refl, Bool, true, false, not, ◌&&◌, ◌||◌, is_some, is_none, Option, none, some, List,
  [], ◌∷◌, any, length, ltb, map, arith, inl, inr, Option-cases,
}
use bat_markets.Prelude.Text.{Str}
use bat_markets.Ord.{◌===◌, str_ord}
use bat_markets.OrdMap.{OrdMap, get, insert}
use bat_markets.OrdMap.Laws.{get-insert}
use bat_markets.Core.Types.{InstrumentId, ClientOrderId, OrderType, Product, Venue}
use bat_markets.Core.Failure.{ok, err, Result-cases}
use bat_markets.Core.Numeric.{DecimalOps}
use bat_markets.Core.Instrument.{InstrumentSpec}
use bat_markets.Core.Trade.{CreateOrderRequest, CreateOrdersRequest}
use bat_markets.Facade.Validation.{
  Checked, validate_order_type, notional_is_low, validate_against, validate_create_order,
  validate_orders_from, validate_create_orders,
}

-- The order types that rest at a price, and the ones that wait for a trigger.
abbrev pub wants_price : OrderType → Bool
wants_price OrderType.limit = true
wants_price OrderType.stop_limit = true
wants_price OrderType.take_profit_limit = true
wants_price _ = false

abbrev pub wants_trigger : OrderType → Bool
wants_trigger OrderType.market = false
wants_trigger OrderType.limit = false
wants_trigger _ = true

abbrev pub is_ok : Checked → Bool
is_ok (ok t) = true
is_ok (err e) = false

abbrev agrees : Bool → Bool → Bool
agrees true b = b
agrees false b = not b

module _ {D : Type 0} (dec : DecimalOps D) where
  -- The price is there exactly where the order type wants one, and a trigger where it wants one.
  abbrev pub has_shape : CreateOrderRequest D → Bool
  has_shape r =
      agrees (wants_price r.order_type) (is_some r.price)
      && (not (wants_trigger r.order_type) || is_some r.trigger_price)

  -- An order passes exactly when it is not below the least quantity, its notional at the limit price,
  -- if it has one, is not below the least notional, and its prices are those of its type.
  pub validate_against_lem :
      (spec : InstrumentSpec D) (r : CreateOrderRequest D)
      → is_ok (validate_against dec spec r) ≡ (
          not (dec.lt r.quantity spec.min_qty)
          && not (notional_is_low dec spec r r.price)
          && has_shape r)
  unfolding validate_against validate_order_type
  validate_against_lem spec r = ground arith

-- The id is named by an order of the list.
abbrev pub is_named : ClientOrderId → List (Option ClientOrderId) → Bool
is_named id ids = any (λ other. elim other [ none ↦ false | some x ↦ x === id ]) ids

-- Every order names itself, and no two alike.
abbrev pub are_distinct : List (Option ClientOrderId) → Bool
are_distinct [] = true
are_distinct (none ∷ ids) = false
are_distinct (some id ∷ ids) = not (is_named id ids) && are_distinct ids

-- None of the ids is among those seen.
abbrev are_unseen : List (Option ClientOrderId) → OrdMap ClientOrderId ℕ → Bool
are_unseen [] seen = true
are_unseen (none ∷ ids) seen = are_unseen ids seen
are_unseen (some id ∷ ids) seen = is_none (get id seen) && are_unseen ids seen

are_unseen-insert :
    (ids : List (Option ClientOrderId)) (id : ClientOrderId) (n : ℕ) (seen : OrdMap ClientOrderId ℕ)
    → are_unseen ids (insert id n seen) ≡ (are_unseen ids seen && not (is_named id ids))
are_unseen-insert [] id n seen = refl
are_unseen-insert (none ∷ ids) id n seen = are_unseen-insert ids id n seen
are_unseen-insert (some x ∷ ids) id n seen =
    ground (arith, are_unseen-insert ids id n seen, get-insert x id n seen)

are_unseen-empty : (ids : List (Option ClientOrderId)) → are_unseen ids [] ≡ true
unfolding get
are_unseen-empty [] = refl
are_unseen-empty (none ∷ ids) = are_unseen-empty ids
are_unseen-empty (some id ∷ ids) = are_unseen-empty ids

module _ {D : Type 0} (dec : DecimalOps D) (venue : Venue) (product : Product)
    (resolve_instrument : InstrumentId → Option (InstrumentSpec D)) (show_index : ℕ → Str) where
  abbrev passes : CreateOrderRequest D → Bool
  passes r = is_ok (validate_create_order dec venue product resolve_instrument show_index r)

  abbrev pub all_pass : List (CreateOrderRequest D) → Bool
  all_pass rs = not (any (λ r. not (passes r)) rs)

  abbrev pub client_ids : List (CreateOrderRequest D) → List (Option ClientOrderId)
  client_ids rs = map (λ r. r.client_order_id) rs

  orders_from-many :
      (index : ℕ) (rs : List (CreateOrderRequest D)) (seen : OrdMap ClientOrderId ℕ)
      → is_ok
          (validate_orders_from dec venue product resolve_instrument show_index true index rs seen)
        ≡ (all_pass rs && are_distinct (client_ids rs) && are_unseen (client_ids rs) seen)
  unfolding validate_orders_from
  orders_from-many index [] seen = refl
  orders_from-many index (r ∷ rs) seen =
      elim (Result-cases
        (validate_create_order dec venue product resolve_instrument show_index r)) [
          | inl (e, h) ↦ rw (h, validate_orders_from) refl
          | inr (t, h) ↦ elim (Option-cases r.client_order_id) [
            | inl n ↦ rw (h, n, validate_orders_from) (ground arith)
            | inr (id, n) ↦ elim (Option-cases (get id seen)) [
              | inr (k, g) ↦ rw (h, n, g, validate_orders_from) (ground arith)
              | inl g ↦
                  rw (h, n, g, validate_orders_from)
                    (ground (
                      arith,
                      orders_from-many (suc index) rs (insert id index seen),
                      are_unseen-insert (client_ids rs) id index seen,
                    ))
            ]
          ]
        ]

  orders_from-one :
      (index : ℕ) (rs : List (CreateOrderRequest D)) (seen : OrdMap ClientOrderId ℕ)
      → is_ok
          (validate_orders_from dec venue product resolve_instrument show_index false index rs seen)
        ≡ all_pass rs
  unfolding validate_orders_from
  orders_from-one index [] seen = refl
  orders_from-one index (r ∷ rs) seen = ground (arith, orders_from-one (suc index) rs seen)

  -- A batch passes exactly when it is not empty, every order passes, and, with more than one order,
  -- each carries a client order id and no two carry the same.
  pub validate_create_orders_lem :
      (request : CreateOrdersRequest D)
      → is_ok (validate_create_orders dec venue product resolve_instrument show_index request) ≡ (
          not (ltb (length request.orders) 1)
          && all_pass request.orders
          && (not (ltb 1 (length request.orders)) || are_distinct (client_ids request.orders)))
  unfolding validate_create_orders
  validate_create_orders_lem request = ground (
    arith,
    orders_from-many 0 request.orders [],
    orders_from-one 0 request.orders [],
    are_unseen-empty (client_ids request.orders),
  )
