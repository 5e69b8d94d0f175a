-- ===== src/Facade/Amend/Kept.antt =====
-- crates/bat-markets/src/runtime.rs: what an amended order leaves pending.
use bat_markets.Prelude.{
  ◌≡◌, ◌⊎◌, ◌∙◌, refl, subst, inl, inr, true, false, List, Option, Option-cases,
}
use bat_markets.Prelude.Text.{Str}
use bat_markets.Core.Types.{TimestampMs}
use bat_markets.Core.Failure.{MarketError, ok, err, Result-cases}
use bat_markets.Core.Instrument.{InstrumentSpec}
use bat_markets.Core.Trade.{AmendOrderRequest, GetOrderRequest}
use bat_markets.Core.Command.{CommandAck}
use bat_markets.Core.Engine.Read.{orders}
use bat_markets.Binance.{Serde}
use bat_markets.Facade.Entry.{is_unknown}
use bat_markets.Facade.Pending.{PendingUnknownCommand}
use bat_markets.Facade.Reconcile.{Live, VenueRest, Call, ◌>>+◌}
use bat_markets.Facade.Reconcile.Asks.{get_order, order_answer}
use bat_markets.Facade.Place.{Endpoints, Sent, hydrate_amend_receipt}
use bat_markets.Facade.Place.Kept.{IsKeptUncertain, settle_receipt-IsSettledAs}
use bat_markets.Facade.Amend.{
  amended, amend_order, check_amend, find_order, is_asked_for, resolve_order_for_amend, send_amend,
  settle_amended,
}

get_order-pending :
    {D : Type 0} (v : VenueRest D) (request : GetOrderRequest) (c : Live D)
    → (get_order v request c).1.pending ≡ c.pending
unfolding get_order
get_order-pending v request c = elim (Result-cases (order_answer v request)) [
  | inl (e, refused) ↦ rw (refused, get_order) refl
  | inr (o, answered) ↦ rw (answered, get_order) refl
]

-- How a call that amends an order leaves the pending commands.
abbrev pub IsKeeping :
    {D : Type 0} → PendingUnknownCommand → List PendingUnknownCommand → Call D CommandAck → Type 0
IsKeeping command pending (result, after) =
    ((e : MarketError) × (result ≡ err e) × (after.pending ≡ pending))
    ⊎ ((ack : CommandAck) × (result ≡ ok ack)
        × ((is_unknown ack.receipt.status ≡ false) × (after.pending ≡ pending)
            ⊎ (is_unknown ack.receipt.status ≡ true) × IsKeptUncertain command pending after))

-- What follows a call is all that changes the pending commands, if the call itself does not.
after_call :
    {D A : Type 0} (command : PendingUnknownCommand) (pending : List PendingUnknownCommand)
    (r : Call D A) (next : A → Live D → Call D CommandAck)
    → r.1.pending ≡ pending
    → ((a : A) (c : Live D) → c.pending ≡ pending → IsKeeping command pending (next a c))
    → IsKeeping command pending (r >>+ next)
after_call command pending (err e, c) next same h = inl (e, refl, same)
after_call command pending (ok a, c) next same h = h a c same

module _ {D P V : Type 0} (v : VenueRest D) (serde : Serde P V)
    (resolve_native_symbol : Str → Option (InstrumentSpec D)) (endpoints : Endpoints D P) where
  resolve_order_for_amend-pending :
      (request : AmendOrderRequest D) (c : Live D)
      → (resolve_order_for_amend v serde resolve_native_symbol endpoints request c).1.pending
        ≡ c.pending
  unfolding resolve_order_for_amend
  resolve_order_for_amend-pending request c =
      elim (Option-cases (find_order (is_asked_for request) (orders c.state))) [
        | inl missing ↦ rw (missing, resolve_order_for_amend) (get_order-pending v _ c)
        | inr (order, found) ↦ rw (found, resolve_order_for_amend) refl
      ]

  settle_amended-IsKeeping :
      (request : AmendOrderRequest D) (now : TimestampMs) (sent : Sent) (c : Live D)
      → IsKeeping
          (amended request now)
          c.pending
          (settle_amended v serde resolve_native_symbol endpoints request now sent c)
  unfolding settle_amended
  settle_amended-IsKeeping request now (receipt, transport) c =
      let (ack, done, same, ended) =
        settle_receipt-IsSettledAs (amended request now) (hydrate_amend_receipt receipt request)
          transport now c in
      elim ended [
        | inl known ↦ inr (ack, done, inl (known.0, known.1))
        | inr kept ↦ inr (ack, done, inr kept)
      ]

  -- An order is amended without a pending command being dropped: if it is refused, or its outcome is
  -- known, the pending commands are as they were, also where the order was asked for first; if its
  -- outcome is unknown, its command is recorded beside them and the report is uncertain.
  pub amend_order-keeps :
      (request : AmendOrderRequest D) (now : TimestampMs) (c : Live D)
      → IsKeeping
          (amended request now)
          c.pending
          (amend_order v serde resolve_native_symbol endpoints request now c)
  unfolding amend_order
  amend_order-keeps request now c =
      let command = amended request now in
      after_call command c.pending (check_amend v serde resolve_native_symbol endpoints request, c)
        _ refl
        (λ spec checked p.
          after_call command c.pending
            (resolve_order_for_amend v serde resolve_native_symbol endpoints request checked) _
            (resolve_order_for_amend-pending request checked ∙ p)
            (λ current resolved q.
              after_call command c.pending
                (send_amend v serde resolve_native_symbol endpoints spec current request, resolved)
                _ q
                (λ sent placed r.
                  subst
                    (λ pending. IsKeeping command pending (
                      settle_amended v serde resolve_native_symbol endpoints request now sent
                        placed))
                    r (settle_amended-IsKeeping request now sent placed))))
