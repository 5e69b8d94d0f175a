-- ===== src/Facade/Reconcile/Kept.antt =====
-- crates/bat-markets/src/runtime.rs: a pending command of which there is no trace stays pending
-- through the requests of a reconcile pass.
use bat_markets.Prelude.{
  ◌≡◌, ◌≢◌, ◌⊎◌, ◌∙◌, refl, Bool, true, false, Option, List, [], ◌∷◌, any, In, arith, inl, inr,
  In-keep, unwrap_or, subst, ap, sym,
}
use bat_markets.Prelude.Int.{ℤ}
use bat_markets.Ord.{str_ord}
use bat_markets.OrdMap.{OrdMap, get}
use bat_markets.Core.Types.{InstrumentId}
use bat_markets.Core.Failure.{MarketError, Result, ok, err, Result-cases}
use bat_markets.Core.Instrument.{InstrumentSpec}
use bat_markets.Core.Trade.{Order, Execution, GetOrderRequest}
use bat_markets.Facade.Pending.{
  PendingUnknownCommand, order_matches_pending, execution_matches_pending, pending_by_instrument,
}
use bat_markets.Facade.Pending.Groups.{pending_by_instrument_lookup}
use bat_markets.Facade.Reconcile.{Live, VenueRest, Call}
use bat_markets.Facade.Reconcile.Asks.{
  request_of, spec_for, order_answer, get_order, ask_for, ask_for_orders, also_unresolved,
}
use bat_markets.Facade.Reconcile.Traces.{IsUntraced, IsUntraced-order}

pub answer-cases :
    (r : Result Bool) → ((e : MarketError) × (r ≡ err e)) ⊎ (r ≡ ok true) ⊎ (r ≡ ok false)
answer-cases (err e) = inl (e, refl)
answer-cases (ok true) = inr (inl refl)
answer-cases (ok false) = inr (inr refl)

pub also_unresolved_context :
    {D : Type 0} (p : PendingUnknownCommand) (r : Call D (List PendingUnknownCommand))
    → (also_unresolved p r).1 ≡ r.1
also_unresolved_context p (err e, c) = refl
also_unresolved_context p (ok left, c) = refl

also_unresolved_result :
    {D : Type 0} (p : PendingUnknownCommand) (r : Call D (List PendingUnknownCommand))
    (left : List PendingUnknownCommand)
    → (also_unresolved p r).0 ≡ ok left
    → (rest : List PendingUnknownCommand) × (r.0 ≡ ok rest) × (left ≡ p ∷ rest)
also_unresolved_result p (err e, c) left h = absurd (cc)
also_unresolved_result p (ok rest, c) left h = (rest, refl, cc)

module _ {D : Type 0} (v : VenueRest D) (command : PendingUnknownCommand) where
  -- The venue has no order for the command, and none of the orders and fills that it answers is
  -- evidence of it.
  pub record IsUnmatched : Type 0 where
    pub no_answer :
        (spec : InstrumentSpec D) (o : Order D) → v.order spec (request_of command) ≢ ok o
    pub no_order :
        (spec : InstrumentSpec D) (request : GetOrderRequest) (o : Order D)
        → v.order spec request ≡ ok o
        → order_matches_pending o command ≡ false
    pub no_open_order :
        (os : List (Order D))
        → v.open_orders ≡ ok os
        → any (λ o. order_matches_pending o command) os ≡ false
    pub no_past_order :
        (spec : InstrumentSpec D) (window : Option (ℤ × ℤ)) (os : List (Order D))
        → v.order_history spec window ≡ ok os
        → any (λ o. order_matches_pending o command) os ≡ false
    pub no_fill :
        (spec : InstrumentSpec D) (window : Option (ℤ × ℤ)) (es : List (Execution D))
        → v.executions spec window ≡ ok es
        → any (λ e. execution_matches_pending e command) es ≡ false

  -- The command is pending in the context, and no evidence of it is in the state.
  abbrev pub Unseen : Live D → Type 0
  Unseen c = IsUntraced command c.state × In command c.pending

  ask_for_orders-err :
      (p : PendingUnknownCommand) (ps : List PendingUnknownCommand) (c : Live D) (f : MarketError)
      → (ask_for v p c).0 ≡ err f
      → ask_for_orders v (p ∷ ps) c ≡ (err f, (ask_for v p c).1)
  unfolding ask_for_orders
  ask_for_orders-err p ps c f r = rw (r, ask_for_orders) refl

  ask_for_orders-true :
      (p : PendingUnknownCommand) (ps : List PendingUnknownCommand) (c : Live D)
      → (ask_for v p c).0 ≡ ok true
      → ask_for_orders v (p ∷ ps) c ≡ ask_for_orders v ps (ask_for v p c).1
  unfolding ask_for_orders
  ask_for_orders-true p ps c r = rw (r, ask_for_orders) refl

  ask_for_orders-false :
      (p : PendingUnknownCommand) (ps : List PendingUnknownCommand) (c : Live D)
      → (ask_for v p c).0 ≡ ok false
      → ask_for_orders v (p ∷ ps) c ≡ also_unresolved p (ask_for_orders v ps (ask_for v p c).1)
  unfolding ask_for_orders
  ask_for_orders-false p ps c r = rw (r, ask_for_orders) refl

  -- The command is in one of the groups.
  abbrev pub InGroups : OrdMap InstrumentId (List PendingUnknownCommand) → Type 0
  InGroups [] = ⊥
  InGroups ((id, commands) ∷ groups) = In command commands ⊎ InGroups groups

  group-InGroups :
      (id : InstrumentId) (groups : OrdMap InstrumentId (List PendingUnknownCommand))
      → In command (unwrap_or (get id groups) [])
      → InGroups groups
  unfolding get
  group-InGroups id [] h = h
  group-InGroups id ((j, commands) ∷ groups) h =
      ground (arith, str_ord.cmp_iff id j, group-InGroups id groups)

  pub grouped :
      (ps : List PendingUnknownCommand) → In command ps → InGroups (pending_by_instrument ps)
  grouped ps h = group-InGroups command.instrument_id (pending_by_instrument ps) (
      subst (In command) (sym (pending_by_instrument_lookup command.instrument_id ps)) (
        In-keep command _ ps h
          (ground (arith, str_ord.cmp_iff command.instrument_id command.instrument_id))))

  module _ (u : IsUnmatched) where
    answer_from :
        (request : GetOrderRequest) (o : Order D)
        → order_answer v request ≡ ok o
        → (spec : InstrumentSpec D) × (v.order spec request ≡ ok o)
    answer_from request o e = elim (Result-cases (spec_for v request.instrument_id)) [
      | inl (f, r) ↦ absurd (cc)
      | inr (spec, r) ↦ (spec, cc)
    ]

    get_order-Unseen :
        (request : GetOrderRequest) (c : Live D) → Unseen c → Unseen (get_order v request c).1
    unfolding get_order
    get_order-Unseen request c h = elim (Result-cases (order_answer v request)) [
      | inl (e, r) ↦ rw (r, get_order) h
      | inr (o, r) ↦
          let (spec, answer) = answer_from request o r in
          rw (r, get_order)
            (IsUntraced-order command o c.state (u.no_order spec request o answer) h.0, h.1)
    ]

    ask_for-Unseen : (p : PendingUnknownCommand) (c : Live D) → Unseen c → Unseen (ask_for v p c).1
    unfolding ask_for
    ask_for-Unseen p c h = ground (arith, get_order-Unseen (request_of p) c h)

    get_order_result :
        (request : GetOrderRequest) (c : Live D)
        → (get_order v request c).0 ≡ order_answer v request
    unfolding get_order
    get_order_result request c = elim (Result-cases (order_answer v request)) [
      | inl (e, r) ↦ rw (r, get_order) refl
      | inr (o, r) ↦ rw (r, get_order) refl
    ]

    -- The venue has no order for the command, so asking does not resolve it.
    ask_for-own : (c : Live D) → (ask_for v command c).0 ≢ ok true
    unfolding ask_for
    ask_for-own c e = elim (Result-cases (order_answer v (request_of command))) [
      | inl (f, r) ↦ ground (arith, r, get_order_result (request_of command) c)
      | inr (o, r) ↦
          let (spec, answer) = answer_from (request_of command) o r in
          absurd (u.no_answer spec o answer)
    ]

    pub ask_for_orders-Unseen :
        (ps : List PendingUnknownCommand) (c : Live D) → Unseen c → Unseen (ask_for_orders v ps c).1
    unfolding ask_for_orders
    ask_for_orders-Unseen [] c h = h
    ask_for_orders-Unseen (p ∷ ps) c h =
        let seen = ask_for-Unseen p c h in
        let rest = ask_for_orders-Unseen ps (ask_for v p c).1 seen in
        elim (answer-cases (ask_for v p c).0) [
          | inl (e, r) ↦ rw (r, ask_for_orders) seen
          | inr (inl r) ↦ rw (r, ask_for_orders) rest
          | inr (inr r) ↦
              rw (r, ask_for_orders)
                (subst Unseen
                  (sym (also_unresolved_context p (ask_for_orders v ps (ask_for v p c).1))) rest)
        ]

    pub ask_for_orders-kept :
        (ps left : List PendingUnknownCommand) (c : Live D)
        → In command ps
        → (ask_for_orders v ps c).0 ≡ ok left
        → In command left
    ask_for_orders-kept [] left c h e = absurd h
    ask_for_orders-kept (p ∷ ps) left c h e = elim (answer-cases (ask_for v p c).0) [
      | inl (f, r) ↦ absurd (ground (arith, ask_for_orders-err p ps c f r, e))
      | inr (inl r) ↦ elim h [
        | inl same ↦ absurd (ask_for-own c (subst (λ q. (ask_for v q c).0 ≡ ok true) (sym same) r))
        | inr later ↦
            ask_for_orders-kept ps left (ask_for v p c).1 later
              (ap (λ x. x.0) (sym (ask_for_orders-true p ps c r)) ∙ e)
      ]
      | inr (inr r) ↦
          let (rest, found, shape) =
            also_unresolved_result p (ask_for_orders v ps (ask_for v p c).1) left
              (ap (λ x. x.0) (sym (ask_for_orders-false p ps c r)) ∙ e) in
          subst (In command) (sym shape) (elim h [
            | inl same ↦ inl same
            | inr later ↦ inr (ask_for_orders-kept ps rest (ask_for v p c).1 later found)
          ])
    ]
