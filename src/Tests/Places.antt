-- ===== src/Tests/Places.antt =====
-- crates/bat-markets/src/runtime.rs: the properties of `create_order` at a concrete order.
use bat_markets.Prelude.{
  ◌≡◌, ◌⊎◌, refl, some, ◌↔◌, true, false, Option, none, is_some, List, [], ◌∷◌, map, In,
}
use bat_markets.Prelude.Int.{pos}
use bat_markets.Prelude.Text.{Str, str}
use bat_markets.Core.Failure.{MarketError, ok, err}
use bat_markets.Core.Instrument.{InstrumentSpec}
use bat_markets.Core.Command.{
  CommandAck, CommandOperation, CommandReceipt, CommandStatus, CommandTransport,
}
use bat_markets.Binance.{Serde, undecoded}
use bat_markets.Facade.Entry.{is_unknown}
use bat_markets.Facade.Validation.{
  validate_create_order, validate_against, validate_order_type, require_spec,
}
use bat_markets.Facade.Place.{
  CommandTransportMode, CommandWsRequestError, Endpoints, unanswered, created, create_order,
  is_uncertain_command_error,
}
use bat_markets.Facade.Place.Kept.{IsKeptUncertain, create_order-kept}
use bat_markets.Facade.Place.Lost.{IsLosing, IsSettled, lost_order_settles}
use bat_markets.Facade.Batch.{BatchIdentity, cache_and_emit_batch_receipts, create_identity}
use bat_markets.Facade.Batch.Receipts.{paired, IsOneOf, batch_kept}
use bat_markets.Tests.Values.{Decimal, decimal_ops, one, btc}
use bat_markets.Core.Trade.{AmendOrderRequest}
use bat_markets.Facade.Reconcile.Answered.{IsFound}
use bat_markets.Facade.Amend.{amended, amend_order}
use bat_markets.Facade.Amend.Kept.{IsKeeping, amend_order-keeps}
use bat_markets.Tests.Commands.{request_of, show_none}
use bat_markets.Tests.Reconciles.{
  unreachable, knowing, knowing-IsAnswering, placed, placed-IsFound, waiting_for, show_count,
  unknown_receipt,
}

-- Payloads that nothing decodes.
abbrev serde : Serde Str Str
serde = record {
  value = λ p. none;
  field = λ v name. none;
  error_value = λ v. undecoded [];
  error = λ p. undecoded [];
  order_value = λ v. undecoded [];
  order = λ p. undecoded [];
  algo_order = λ p. undecoded [];
  cancel_algo = λ p. undecoded [];
  leverage = λ p. undecoded [];
  success = λ p. undecoded [];
  show_int = λ n. [];
}

abbrev no_symbol : Str → Option (InstrumentSpec Decimal)
no_symbol symbol = none

-- A websocket that is closed, and a server that does not answer in time.
abbrev losing : Endpoints Decimal Str
losing = record {
  mode = CommandTransportMode.auto;
  ws_order_entry = true;
  place_ws = λ request. unanswered (CommandWsRequestError.unavailable unreachable);
  place = λ request. err unreachable;
  place_algo = λ request. err unreachable;
  modify_ws = λ amendment. unanswered (CommandWsRequestError.unavailable unreachable);
  modify = λ amendment. err unreachable;
}

losing-IsLosing :
    IsLosing decimal_ops knowing serde no_symbol show_none losing (request_of (str "mine"))
unfolding is_uncertain_command_error
losing-IsLosing = record {
  mode_auto = refl;
  ws_error = CommandWsRequestError.unavailable unreachable;
  ws_lost = refl;
  rest_error = unreachable;
  rest_lost = refl;
  rest_open = refl;
  algo_error = unreachable;
  algo_lost = refl;
  algo_open = refl;
}

passes :
    validate_create_order decimal_ops knowing.venue knowing.product knowing.resolve_instrument
      show_none
      (request_of (str "mine"))
    ≡ ok tt
unfolding validate_create_order validate_against validate_order_type require_spec
passes = refl

create_order-kept_example :
    let (result, after) =
      create_order decimal_ops knowing serde no_symbol show_none losing
        (request_of (str "mine"))
        (pos 900)
        (waiting_for []) in
    ((e : MarketError) × (result ≡ err e) × (after ≡ waiting_for []))
    ⊎ ((ack : CommandAck) × (result ≡ ok ack)
        × (is_some ack.receipt.instrument_id ≡ true)
        × ((is_unknown ack.receipt.status ≡ false)
              × (after.pending ≡ [])
              × (after.state.health ≡ (waiting_for []).state.health)
            ⊎ (is_unknown ack.receipt.status ≡ true)
              × IsKeptUncertain (created (request_of (str "mine")) (pos 900)) [] after))
create_order-kept_example =
    create_order-kept decimal_ops knowing serde no_symbol show_none losing (request_of (str "mine"))
      (pos 900) (waiting_for [])

mine-IsFound : IsFound knowing (created (request_of (str "mine")) (pos 900))
mine-IsFound = placed-IsFound

lost_order_settles_example :
    IsSettled decimal_ops knowing serde no_symbol show_none losing show_count 30000
      (created (request_of (str "mine")) (pos 900))
      []
      (create_order decimal_ops knowing serde no_symbol show_none losing
        (request_of (str "mine"))
        (pos 900)
        (waiting_for []))
lost_order_settles_example =
    lost_order_settles decimal_ops knowing serde no_symbol show_none losing show_count 30000
      (request_of (str "mine")) (pos 900) (waiting_for []) passes losing-IsLosing
      knowing-IsAnswering mine-IsFound tt refl

-- A batch of two orders: the outcome of the second is unknown.
abbrev receipts : List CommandReceipt
receipts = record unknown_receipt { status = CommandStatus.accepted } ∷ unknown_receipt ∷ []

abbrev identities : List BatchIdentity
identities =
    create_identity (request_of (str "first")) ∷ create_identity (request_of (str "mine")) ∷ []

batch_kept_example :
    let (acks, after) =
      cache_and_emit_batch_receipts receipts identities CommandOperation.create_order
        CommandTransport.rest
        (pos 900)
        (waiting_for []) in
    (map (λ ack. ack.receipt) acks ≡ paired receipts identities)
    × (In placed after.pending ↔ (
        IsOneOf CommandOperation.create_order (pos 900) placed receipts identities ⊎ In placed []))
batch_kept_example =
    batch_kept CommandOperation.create_order CommandTransport.rest (pos 900) placed receipts
      identities (waiting_for [])

abbrev amendment : AmendOrderRequest Decimal
amendment = record {
  request_id = none;
  instrument_id = btc;
  order_id = some (str "1");
  client_order_id = none;
  quantity = none;
  price = some one;
  trigger_price = none;
}

amend_order-keeps_example :
    IsKeeping
      (amended amendment (pos 900))
      (placed ∷ [])
      (amend_order knowing serde no_symbol losing amendment (pos 900) (waiting_for (placed ∷ [])))
amend_order-keeps_example =
    amend_order-keeps knowing serde no_symbol losing amendment (pos 900) (waiting_for (placed ∷ []))
