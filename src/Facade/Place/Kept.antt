-- ===== src/Facade/Place/Kept.antt =====
-- crates/bat-markets/src/runtime.rs: what an order leaves in the context, by its receipt.
use bat_markets.Prelude.{
  ℕ, ◌≡◌, ◌⊎◌, ◌∙◌, refl, sym, ap, inl, inr, true, false, Bool-cases, Option, is_some, List, [],
  ◌∷◌, ◌++◌, All, In, In-append-right, any, arith, decide-true, decide_yes,
}
use mathlib.Core.Bool.{decide}
use bat_markets.Prelude.Text.{Str}
use bat_markets.Core.Types.{TimestampMs}
use bat_markets.Core.Failure.{MarketError, ok, err, Result-cases}
use bat_markets.Core.Numeric.{DecimalOps}
use bat_markets.Core.Instrument.{InstrumentSpec}
use bat_markets.Core.Trade.{CreateOrderRequest}
use bat_markets.Core.Command.{CommandTransport, CommandAck, CommandReceipt, CommandStatus}
use bat_markets.Core.Health.{HealthReport, HealthStatus, mark_command_uncertain}
use bat_markets.Core.Engine.Private
use bat_markets.Binance.{Serde}
use bat_markets.Facade.Entry.{is_unknown}
use bat_markets.Facade.Pending.{
  PendingUnknownCommand, PendingUnknownCommand-discrete, cache_pending_unknown,
}
use bat_markets.Facade.Reconcile.{Live, VenueRest, Call}
use bat_markets.Facade.Reconcile.Pass.{apply_command_receipt}
use bat_markets.Facade.Place.{
  Endpoints, Sent, created, create_order, send_created, settle_created, settle_receipt,
  hydrate_create_receipt,
}

listed :
    (command : PendingUnknownCommand) (ps : List PendingUnknownCommand)
    → any (λ existing. decide (PendingUnknownCommand-discrete existing command)) ps ≡ true
    → In command ps
listed command [] h = absurd (cc)
listed command (p ∷ ps) h = elim (Bool-cases (decide (PendingUnknownCommand-discrete p command))) [
  | inl same ↦ inl (sym (decide-true (PendingUnknownCommand-discrete p command) same))
  | inr other ↦ inr (listed command ps (rw (other) at h))
]

pub In-cache_pending_unknown :
    (command : PendingUnknownCommand) (ps : List PendingUnknownCommand)
    → In command (cache_pending_unknown command ps)
unfolding cache_pending_unknown
In-cache_pending_unknown command ps =
    elim (Bool-cases
      (any (λ existing. decide (PendingUnknownCommand-discrete existing command)) ps)) [
        | inl found ↦ rw (found) (listed command ps found)
        | inr missing ↦ rw (missing) (In-append-right command ps (command ∷ []) (inl refl))
      ]

pub All-cache_pending_unknown :
    (P : PendingUnknownCommand → Type 0) (command : PendingUnknownCommand)
    (ps : List PendingUnknownCommand)
    → All P ps
    → P command
    → All P (cache_pending_unknown command ps)
unfolding cache_pending_unknown
All-cache_pending_unknown P command ps h k =
    elim (Bool-cases
      (any (λ existing. decide (PendingUnknownCommand-discrete existing command)) ps)) [
        | inl found ↦ rw (found) h
        | inr missing ↦ rw (missing) (pushed ps h)
      ]
  where
    pushed : (xs : List PendingUnknownCommand) → All P xs → All P (xs ++ command ∷ [])
    pushed [] h = (k, tt)
    pushed (x ∷ xs) h = (h.0, pushed xs h.1)

-- The pending commands after one was recorded: it is put at their end, unless it is among them.
abbrev pub IsRecorded :
    PendingUnknownCommand → List PendingUnknownCommand → List PendingUnknownCommand → Type 0
IsRecorded command old new =
    (In command old × (new ≡ old)) ⊎ ((¬ In command old) × (new ≡ old ++ command ∷ []))

unlisted :
    (command : PendingUnknownCommand) (ps : List PendingUnknownCommand)
    → In command ps
    → any (λ existing. decide (PendingUnknownCommand-discrete existing command)) ps ≡ true
unlisted command [] h = absurd h
unlisted command (p ∷ ps) (inl same) =
    rw (decide_yes (PendingUnknownCommand-discrete p command) (sym same)) refl
unlisted command (p ∷ ps) (inr later) = ground (arith, unlisted command ps later)

pub cache_pending_unknown-IsRecorded :
    (command : PendingUnknownCommand) (ps : List PendingUnknownCommand)
    → IsRecorded command ps (cache_pending_unknown command ps)
unfolding cache_pending_unknown
cache_pending_unknown-IsRecorded command ps =
    elim (Bool-cases
      (any (λ existing. decide (PendingUnknownCommand-discrete existing command)) ps)) [
        | inl found ↦ rw (found) (inl (listed command ps found, refl))
        | inr missing ↦
            rw (missing) (inr (λ h. ground (arith, missing, unlisted command ps h), refl))
      ]

-- From the pending commands `old`, the command is recorded and no other dropped, and the report
-- says that a command is uncertain.
pub record IsKeptUncertain {D : Type 0} (command : PendingUnknownCommand)
    (old : List PendingUnknownCommand) (c : Live D) : Type 0 where
  pub recorded : IsRecorded command old c.pending
  pub reported : c.state.health.status ≡ HealthStatus.command_uncertain

unknown_health :
    (status : CommandStatus) (h : HealthReport)
    → is_unknown status ≡ true
    → Private.receipt_health status h ≡ mark_command_uncertain h
unknown_health CommandStatus.accepted h u = absurd (cc)
unknown_health CommandStatus.rejected h u = absurd (cc)
unknown_health CommandStatus.unknown_execution h u = refl

known_health :
    (status : CommandStatus) (h : HealthReport)
    → is_unknown status ≡ false
    → Private.receipt_health status h ≡ h
known_health CommandStatus.accepted h k = refl
known_health CommandStatus.rejected h k = refl
known_health CommandStatus.unknown_execution h k = absurd (cc)

hydrated_named :
    {D : Type 0} (receipt : CommandReceipt) (request : CreateOrderRequest D)
    → is_some (hydrate_create_receipt receipt request).instrument_id ≡ true
unfolding hydrate_create_receipt
hydrated_named receipt request = ground arith

-- What an acknowledgement with the receipt leaves of the command and the report.
abbrev pub IsSettledAs :
    {D : Type 0} → PendingUnknownCommand → CommandReceipt → Live D → Call D CommandAck → Type 0
IsSettledAs command receipt c (result, after) =
    (ack : CommandAck) × (result ≡ ok ack)
    × (ack.receipt ≡ receipt)
    × ((is_unknown ack.receipt.status ≡ false)
          × (after.pending ≡ c.pending)
          × (after.state.health ≡ c.state.health)
        ⊎ (is_unknown ack.receipt.status ≡ true) × IsKeptUncertain command c.pending after)

pub settle_receipt-IsSettledAs :
    {D : Type 0} (command : PendingUnknownCommand) (receipt : CommandReceipt)
    (transport : CommandTransport) (now : TimestampMs) (c : Live D)
    → IsSettledAs command receipt c (settle_receipt command receipt transport now c)
unfolding settle_receipt apply_command_receipt Private.apply_command_receipt mark_command_uncertain
settle_receipt-IsSettledAs command receipt transport now c =
    elim (Bool-cases (is_unknown receipt.status)) [
      | inl u ↦ (
        _,
        refl,
        refl,
        inr (
          u,
          record {
            recorded = rw (u) (cache_pending_unknown-IsRecorded command c.pending);
            reported = rw (u) (ap (λ h. h.status) (unknown_health receipt.status _ u));
          },
        ),
      )
      | inr k ↦ (_, refl, refl, inl (k, rw (k) refl, rw (k) (known_health receipt.status _ k)))
    ]

module _ {D P V : Type 0} (dec : DecimalOps D) (v : VenueRest D) (serde : Serde P V)
    (resolve_native_symbol : Str → Option (InstrumentSpec D)) (show_index : ℕ → Str)
    (endpoints : Endpoints D P) where
  settle_created-IsSettledAs :
      (request : CreateOrderRequest D) (now : TimestampMs) (sent : Sent) (c : Live D)
      → IsSettledAs
          (created request now)
          (hydrate_create_receipt sent.0 request)
          c
          (settle_created dec v serde resolve_native_symbol show_index endpoints request now sent c)
  unfolding settle_created
  settle_created-IsSettledAs request now (receipt, transport) c =
      settle_receipt-IsSettledAs (created request now) (hydrate_create_receipt receipt request)
        transport now c

  -- An order that is not acknowledged changes nothing. An acknowledged order has a receipt that
  -- names an instrument: if its outcome is unknown, its command is recorded beside those pending
  -- before, and the report is uncertain; if its outcome is known, the pending commands and the
  -- report are as they were.
  pub create_order-kept :
      (request : CreateOrderRequest D) (now : TimestampMs) (c : Live D)
      → let (result, after) =
          create_order dec v serde resolve_native_symbol show_index endpoints request now c in
        ((e : MarketError) × (result ≡ err e) × (after ≡ c))
        ⊎ ((ack : CommandAck) × (result ≡ ok ack)
            × (is_some ack.receipt.instrument_id ≡ true)
            × ((is_unknown ack.receipt.status ≡ false)
                  × (after.pending ≡ c.pending)
                  × (after.state.health ≡ c.state.health)
                ⊎ (is_unknown ack.receipt.status ≡ true)
                  × IsKeptUncertain (created request now) c.pending after))
  unfolding create_order
  create_order-kept request now c =
      elim (Result-cases
        (send_created dec v serde resolve_native_symbol show_index endpoints request)) [
          | inl (e, refused) ↦ rw (refused) (inl (e, refl, refl))
          | inr (sent, done) ↦
              let (ack, found, same, kept) = settle_created-IsSettledAs request now sent c in
              rw (done) (
                inr (
                  ack,
                  found,
                  ap (λ r. is_some r.instrument_id) same ∙ hydrated_named sent.0 request,
                  kept,
                ))
        ]
