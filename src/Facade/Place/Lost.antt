-- ===== src/Facade/Place/Lost.antt =====
-- crates/bat-markets/src/runtime.rs: an order whose answer is lost, and how the wait for it ends.
use bat_markets.Prelude.{
  ℕ, ◌≡◌, refl, sym, subst, inl, inr, true, Bool-cases, Option, some, List, [], All, arith,
  Option-cases,
}
use bat_markets.Prelude.Text.{Str}
use bat_markets.Core.Types.{TimestampMs}
use bat_markets.Core.Failure.{MarketError, Result, ok, err}
use bat_markets.Core.Numeric.{DecimalOps}
use bat_markets.Core.Instrument.{InstrumentSpec}
use bat_markets.Core.Trade.{CreateOrderRequest}
use bat_markets.Core.Command.{CommandAck, CommandOperation, CommandReceipt, CommandStatus}
use bat_markets.Binance.{Serde, classify_command, binance_receipt}
use bat_markets.Facade.Entry.{is_unknown, ready, resolved}
use bat_markets.Facade.Pending.{PendingUnknownCommand, cache_pending_unknown}
use bat_markets.Facade.Validation.{validate_create_order, require_spec}
use bat_markets.Facade.Reconcile.{Live, VenueRest, Call}
use bat_markets.Facade.Reconcile.Pass.{apply_command_receipt, recover, with_pending}
use bat_markets.Facade.Reconcile.Settled.{handle_on}
use bat_markets.Facade.Reconcile.Answered.{IsAnswering, IsFound, found_settles, applied_pending}
use bat_markets.Facade.Place.{
  CommandTransportMode, CommandWsRequestError, Endpoints, Sent, unanswered, created, create_order,
  send_created, settle_created, settle_receipt, send_binance, over_ws, over_rest,
  hydrate_create_receipt, is_uncertain_command_error, binance_create_uses_algo_order_endpoint,
  binance_create_prefers_ws,
}
use bat_markets.Facade.Place.Kept.{
  IsRecorded, All-cache_pending_unknown, cache_pending_unknown-IsRecorded,
}

module _ {D P V : Type 0} (dec : DecimalOps D) (v : VenueRest D) (serde : Serde P V)
    (resolve_native_symbol : Str → Option (InstrumentSpec D)) (show_index : ℕ → Str)
    (endpoints : Endpoints D P) where
  -- Every way to place the order loses its answer, and the mode allows each of them: the websocket
  -- does not answer, and a signed request ends in an error that leaves the outcome open.
  pub record IsLosing (request : CreateOrderRequest D) : Type 0 where
    pub mode_auto : endpoints.mode ≡ CommandTransportMode.auto
    pub ws_error : CommandWsRequestError
    pub ws_lost : endpoints.place_ws request ≡ unanswered ws_error
    pub rest_error : MarketError
    pub rest_lost : endpoints.place request ≡ err rest_error
    pub rest_open : is_uncertain_command_error rest_error ≡ true
    pub algo_error : MarketError
    pub algo_lost : endpoints.place_algo request ≡ err algo_error
    pub algo_open : is_uncertain_command_error algo_error ≡ true

  -- What is sent of it: a receipt of unknown outcome.
  abbrev IsUnknownSent : Result Sent → Type 0
  IsUnknownSent r = (sent : Sent) × (r ≡ ok sent) × (is_unknown sent.0.status ≡ true)

  over_rest-lost :
      (request : CreateOrderRequest D) (answer : Result P) (e : MarketError)
      → answer ≡ err e
      → is_uncertain_command_error e ≡ true
      → IsUnknownSent (
          over_rest serde resolve_native_symbol CommandOperation.create_order request.request_id
            answer)
  unfolding over_rest classify_command binance_receipt
  over_rest-lost request answer e h u = rw (h, over_rest, u) (_, refl, refl)

  over_ws-lost :
      (request : CreateOrderRequest D)
      → IsLosing request
      → (e : CommandWsRequestError)
      → IsUnknownSent (
          over_ws serde resolve_native_symbol CommandOperation.create_order request.request_id
            endpoints.mode
            (unanswered e)
            (endpoints.place request))
  unfolding over_ws classify_command binance_receipt
  over_ws-lost request l (CommandWsRequestError.uncertain e) = (_, refl, refl)
  over_ws-lost request l (CommandWsRequestError.unavailable e) =
      rw (l.mode_auto)
        (over_rest-lost request (endpoints.place request) l.rest_error l.rest_lost l.rest_open)

  send_binance-lost :
      (request : CreateOrderRequest D)
      → IsLosing request
      → IsUnknownSent (send_binance dec v serde resolve_native_symbol show_index endpoints request)
  unfolding send_binance binance_create_prefers_ws
  send_binance-lost request l =
      elim (Bool-cases (binance_create_uses_algo_order_endpoint request)) [
        | inl algo ↦
            rw (algo, l.mode_auto)
              (over_rest-lost request (endpoints.place_algo request) l.algo_error l.algo_lost
                l.algo_open)
        | inr plain ↦ elim (Bool-cases endpoints.ws_order_entry) [
          | inl ws ↦ rw (plain, ws, l.ws_lost) (over_ws-lost request l l.ws_error)
          | inr rest ↦
              rw (plain, rest, l.mode_auto)
                (over_rest-lost request (endpoints.place request) l.rest_error l.rest_lost
                  l.rest_open)
        ]
      ]

  known_instrument :
      (request : CreateOrderRequest D)
      → validate_create_order dec v.venue v.product v.resolve_instrument show_index request ≡ ok tt
      → (spec : InstrumentSpec D) × (v.resolve_instrument request.instrument_id ≡ some spec)
  unfolding validate_create_order require_spec
  known_instrument request h = elim (Option-cases (v.resolve_instrument request.instrument_id)) [
    | inl missing ↦ absurd (ground (arith, missing, h))
    | inr found ↦ found
  ]

  send_created-lost :
      (request : CreateOrderRequest D)
      → validate_create_order dec v.venue v.product v.resolve_instrument show_index request ≡ ok tt
      → IsLosing request
      → IsUnknownSent (send_created dec v serde resolve_native_symbol show_index endpoints request)
  unfolding send_created require_spec
  send_created-lost request checked l =
      let (spec, known) = known_instrument request checked in
      rw (checked, known) (send_binance-lost request l)

  -- What `create_order` comes to when its answer is lost.
  abbrev kept_receipt : CreateOrderRequest D → TimestampMs → Live D → Sent → CommandAck × Live D
  kept_receipt request now c (receipt, transport) =
      apply_command_receipt (hydrate_create_receipt receipt request) transport now
        (with_pending (cache_pending_unknown (created request now) c.pending) c)

  create_order-lost :
      (request : CreateOrderRequest D) (now : TimestampMs) (c : Live D) (sent : Sent)
      → send_created dec v serde resolve_native_symbol show_index endpoints request ≡ ok sent
      → is_unknown sent.0.status ≡ true
      → create_order dec v serde resolve_native_symbol show_index endpoints request now c
        ≡ (ok (kept_receipt request now c sent).0, (kept_receipt request now c sent).1)
  unfolding create_order settle_created hydrate_create_receipt settle_receipt
  create_order-lost request now c (receipt, transport) h u = rw (h, u) refl

  kept_receipt-unknown :
      (request : CreateOrderRequest D) (now : TimestampMs) (c : Live D) (sent : Sent)
      → is_unknown sent.0.status ≡ true
      → is_unknown (kept_receipt request now c sent).0.receipt.status ≡ true
  unfolding apply_command_receipt hydrate_create_receipt
  kept_receipt-unknown request now c sent u = u

  kept_receipt-IsRecorded :
      (request : CreateOrderRequest D) (now : TimestampMs) (c : Live D) (sent : Sent)
      → IsRecorded (created request now) c.pending (kept_receipt request now c sent).1.pending
  kept_receipt-IsRecorded request now c (receipt, transport) =
      subst (IsRecorded (created request now) c.pending)
        (sym (
          applied_pending (hydrate_create_receipt receipt request) transport now
            (with_pending (cache_pending_unknown (created request now) c.pending) c)))
        (cache_pending_unknown-IsRecorded (created request now) c.pending)

  hydrated-unknown :
      (receipt : CommandReceipt) (request : CreateOrderRequest D)
      → is_unknown receipt.status ≡ true
      → is_unknown (hydrate_create_receipt receipt request).status ≡ true
  unfolding hydrate_create_receipt
  hydrated-unknown receipt request u = u

  -- How an order whose answer is lost ends: its command is recorded, and its handle is settled.
  abbrev pub IsSettled :
      (ℕ → Str)
      → ℕ
      → PendingUnknownCommand
      → List PendingUnknownCommand
      → Call D CommandAck
      → Type 0
  IsSettled show_count stale_after command old call =
      (ack : CommandAck) × (call.0 ≡ ok ack)
      × (is_unknown ack.receipt.status ≡ true)
      × IsRecorded command old call.1.pending
      × ((after : CommandReceipt) × ((resolved
              (handle_on ack (recover v show_count stale_after ack call.1))).0
            ≡ ready (ok after))
          × (after.status ≡ CommandStatus.accepted))

  -- An order that passes the checks, but whose answer is lost, is acknowledged as of unknown
  -- outcome, never refused, and its command is recorded beside those that were pending. If the venue
  -- answers its snapshots and has the order of this and of every other pending command, the recovery
  -- of the order settles its handle: the wait ends, with a receipt that is accepted.
  pub lost_order_settles :
      (show_count : ℕ → Str) (stale_after : ℕ) (request : CreateOrderRequest D) (now : TimestampMs)
      (c : Live D)
      → validate_create_order dec v.venue v.product v.resolve_instrument show_index request ≡ ok tt
      → IsLosing request
      → IsAnswering v
      → IsFound v (created request now)
      → All (IsFound v) c.pending
      → c.bus ≡ []
      → IsSettled show_count stale_after
          (created request now)
          c.pending
          (create_order dec v serde resolve_native_symbol show_index endpoints request now c)
  lost_order_settles show_count stale_after request now c checked l answering own others b =
      let (sent, send, u) = send_created-lost request checked l in
      let hydrated = hydrate_create_receipt sent.0 request in
      let kept = with_pending (cache_pending_unknown (created request now) c.pending) c in
      subst (IsSettled show_count stale_after (created request now) c.pending)
        (sym (create_order-lost request now c sent send u))
        (
          (kept_receipt request now c sent).0,
          refl,
          kept_receipt-unknown request now c sent u,
          kept_receipt-IsRecorded request now c sent,
          found_settles v show_count stale_after hydrated sent.1 now kept answering
              (All-cache_pending_unknown (IsFound v) (created request now) c.pending others own) b
              (hydrated-unknown sent.0 request u),
        )
