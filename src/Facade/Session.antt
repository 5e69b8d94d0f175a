-- ===== src/Facade/Session.antt =====
-- crates/bat-markets/src/runtime.rs: the public streams of Binance and Bybit, from the subscription on,
-- and the loop that reconnects them. What the select yields at each turn of the loop is a list; the
-- parsing of a frame is the adapter's.
pub mod Kinds
pub mod Announced
pub mod Reconnects
use bat_markets.Prelude.{
  ℕ, suc, Bool, true, false, not, ◌&&◌, Option, none, some, List, [], ◌∷◌, ◌++◌, keep,
  if◌then◌else◌,
}
use bat_markets.Prelude.Int.{ℤ, pos, max_ℤ, pos_part}
use bat_markets.Prelude.Text.{Str, str}
use bat_markets.Core.Types.{Venue, Product, InstrumentId}
use bat_markets.Core.Numeric.{DecimalOps}
use bat_markets.Core.Instrument.{InstrumentSpec}
use bat_markets.Core.Market.{OpenInterest}
use bat_markets.Core.Failure.{
  ErrorKind, MarketError, Result, ok, err, market_error, transport_error, with_venue,
  with_operation, with_retriable,
}
use bat_markets.Core.Execution.{PublicLaneEvent, DivergenceEvent}
use bat_markets.Core.Engine.Private
use bat_markets.Facade.Hub.{PublicSubscription}
use bat_markets.Facade.Sequence.{
  SequenceObservation, SequenceTracker, Observed, in_order, gap, observe_all,
}
use bat_markets.Facade.Shared.{SharedState, write, share_public_event, share_public_events}

abbrev pub is_empty : List Str → Bool
is_empty [] = true
is_empty (x ∷ xs) = false

-- The test of `retain_public_events_for_subscription`.
unfoldable pub is_wanted : {D : Type 0} → PublicSubscription → PublicLaneEvent D → Bool
is_wanted s (PublicLaneEvent.ticker t) = s.ticker
is_wanted s (PublicLaneEvent.trade t) = s.trades
is_wanted s (PublicLaneEvent.book_top b) = s.book_top
is_wanted s (PublicLaneEvent.order_book_delta d) = s.order_book
is_wanted s (PublicLaneEvent.mark_price m) = s.mark_price
is_wanted s (PublicLaneEvent.funding_rate f) = s.funding_rate
is_wanted s (PublicLaneEvent.open_interest o) = s.open_interest
is_wanted s (PublicLaneEvent.liquidation l) = s.liquidations
is_wanted s (PublicLaneEvent.kline k) = not (is_empty s.kline_intervals)
is_wanted s (PublicLaneEvent.divergence d) = true

unfoldable pub retain_public_events_for_subscription :
    {D : Type 0} → PublicSubscription → List (PublicLaneEvent D) → List (PublicLaneEvent D)
unfolding is_wanted
retain_public_events_for_subscription s events = keep (is_wanted s) events

-- `sequence_gap_error`; `show_int` is the `Display` of an `i64`.
unfoldable pub sequence_gap_error : (ℤ → Str) → Venue → Str → Option ℤ → MarketError
sequence_gap_error show_int venue operation at =
    with_retriable
      (with_operation
        (with_venue
          (market_error transport_error (elim at [
            | none ↦ str "sequence gap detected from transport idle or reset"
            | some near ↦ str "sequence gap detected near watermark " ++ show_int near
          ]))
          venue Product.linear_usdt)
        operation)
      true

-- What a refresh of the metadata is answered: the skew of the server's clock, and the instruments.
pub record Metadata (D : Type 0) : Type 0 where
  pub skew : Result ℤ
  pub specs : Result (List (InstrumentSpec D))

-- What one turn of the `select` yields: the shutdown, a ping sent with its outcome, the open
-- interest polled for one instrument with its answer, the maintenance tick of a stream that has been
-- idle for too long, that of another with the metadata if their refresh is due, the end of the
-- socket, a failed read, a text frame, or another frame.
pub data Turn (D P : Type 0) : Type 0 where
  shutdown : Turn D P
  pinged : Result (Unit {0}) → Turn D P
  polled : Result (OpenInterest D) → Turn D P
  idle : Turn D P
  maintained : Option (Metadata D) → Turn D P
  closed : Turn D P
  unreadable : MarketError → Turn D P
  text : P → Turn D P
  other : Turn D P

-- The adapter's reading of a payload: an acknowledgement or control message, its numbers, and its
-- events; with the texts of the venue's operations.
pub record Reader (D P : Type 0) : Type 0 where
  pub venue : Venue
  pub idle_operation : Str
  pub sequence_operation : Str
  pub closed_text : Str
  pub show_int : ℤ → Str
  pub is_control : P → Bool
  pub observations : P → Result (List SequenceObservation)
  pub parse_public : P → Result (List (PublicLaneEvent D))

-- Where the loop is: it goes on, or has returned.
pub data Progress (D : Type 0) : Type 0 where
  going : SharedState D → SequenceTracker → Progress D
  ended : SharedState D → Result (Unit {0}) → Progress D

module _ {D : Type 0} where
  -- `sync_server_time` and `refresh_metadata`, their results dropped; an error changes nothing.
  unfoldable pub sync_server_time : Result ℤ → SharedState D → SharedState D
  unfolding write
  sync_server_time (err e) s = s
  sync_server_time (ok skew) s =
      (write (λ state. (Private.mark_rest_success (some skew) state, tt)) s).0

  unfoldable pub refresh_metadata : Result (List (InstrumentSpec D)) → SharedState D → SharedState D
  unfolding write
  refresh_metadata (err e) s = s
  refresh_metadata (ok specs) s =
      (write
        (λ state. (Private.mark_rest_success none (Private.replace_instruments specs state), tt))
        s).0

module _ {D P : Type 0} (dec : DecimalOps D) (r : Reader D P)
    (subscription : PublicSubscription) where
  -- `apply_public_event(…)?` and `return Err(sequence_gap_error(…))`.
  abbrev pub after_gap : MarketError → SharedState D × Result (Unit {0}) → Progress D
  after_gap failure (s, ok done) = ended s (err failure)
  after_gap failure (s, err e) = ended s (err e)

  abbrev pub unless_failed : SequenceTracker → SharedState D × Result (Unit {0}) → Progress D
  unless_failed tracker (s, ok done) = going s tracker
  unless_failed tracker (s, err e) = ended s (err e)

  -- The events of a frame whose numbers are in order.
  unfoldable pub take_events : P → SharedState D → SequenceTracker → Progress D
  unfolding share_public_events retain_public_events_for_subscription
  take_events payload s tracker = elim (r.parse_public payload) [
    | err e ↦ ended s (err e)
    | ok events ↦
        unless_failed tracker
          (share_public_events dec (retain_public_events_for_subscription subscription events) s)
  ]

  unfoldable pub take_text : P → SharedState D → SequenceTracker → Progress D
  unfolding take_events observe_all share_public_event sequence_gap_error
  take_text payload s tracker =
      if r.is_control payload then going s tracker else elim (r.observations payload) [
        | err e ↦ ended s (err e)
        | ok observations ↦
            let (after, observed) = observe_all observations tracker in
            elim observed [
              | in_order ↦ take_events payload s after
              | gap at ↦
                  after_gap (sequence_gap_error r.show_int r.venue r.sequence_operation (some at)) (
                    share_public_event dec
                      (PublicLaneEvent.divergence
                        (DivergenceEvent.sequence_gap (some (pos_part (max_ℤ at (pos 0))))))
                      s)
            ]
      ]

  -- `refresh_open_interest`, its result dropped.
  unfoldable pub poll_open_interest : Result (OpenInterest D) → SharedState D → SharedState D
  unfolding share_public_event write
  poll_open_interest (err e) s = s
  poll_open_interest (ok o) s =
      let (shared, result) = share_public_event dec (PublicLaneEvent.open_interest o) s in
      elim result [
        | ok done ↦ (write (λ state. (Private.mark_rest_success none state, tt)) shared).0
        | err e ↦ shared
      ]

  -- One turn of the loop of `run_binance_public_stream`, or of `run_bybit_public_stream`.
  unfoldable pub turn : Turn D P → SharedState D → SequenceTracker → Progress D
  unfolding take_text poll_open_interest sync_server_time refresh_metadata share_public_event
      sequence_gap_error
  turn Turn.shutdown s tracker = ended s (ok tt)
  turn (Turn.pinged (ok sent)) s tracker = going s tracker
  turn (Turn.pinged (err e)) s tracker = ended s (err e)
  turn (Turn.polled answer) s tracker =
      if subscription.open_interest
      then going (poll_open_interest answer s) tracker
      else going s tracker
  turn Turn.idle s tracker =
      after_gap (sequence_gap_error r.show_int r.venue r.idle_operation none)
        (share_public_event dec (PublicLaneEvent.divergence (DivergenceEvent.sequence_gap none)) s)
  turn (Turn.maintained none) s tracker = going s tracker
  turn (Turn.maintained (some m)) s tracker =
      going (refresh_metadata m.specs (sync_server_time m.skew s)) tracker
  turn Turn.closed s tracker = ended s (err (market_error transport_error r.closed_text))
  turn (Turn.unreadable e) s tracker = ended s (err e)
  turn (Turn.text payload) s tracker = take_text payload s tracker
  turn Turn.other s tracker = going s tracker

  -- The loop, to its end or to where the turns do.
  unfoldable pub turns : List (Turn D P) → SharedState D → SequenceTracker → Progress D
  unfolding turn
  turns [] s tracker = going s tracker
  turns (t ∷ ts) s tracker = elim (turn t s tracker) [
    | going after next ↦ turns ts after next
    | ended after result ↦ ended after result
  ]
