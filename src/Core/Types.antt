-- ===== src/Core/Types.antt =====
-- crates/bat-markets-core/src/types.rs, ids.rs and primitives.rs: the enumerations, the typed
-- identifiers and the primitive values. An identifier is its text.
use bat_markets.Prelude.{ℕ}
use bat_markets.Prelude.Int.{ℤ}
use bat_markets.Prelude.Text.{Str, str}

pub data Venue : Type 0 where
  binance bybit mexc : Venue

-- `Display for Venue`.
unfoldable pub show_venue : Venue → Str
show_venue binance = str "binance"
show_venue bybit = str "bybit"
show_venue mexc = str "mexc"

pub data Product : Type 0 where
  linear_usdt : Product

-- `Display for Product`.
unfoldable pub show_product : Product → Str
show_product linear_usdt = str "linear_usdt"

pub data MarketType : Type 0 where
  linear_perpetual : MarketType

pub data Side : Type 0 where
  buy sell : Side

pub data AggressorSide : Type 0 where
  buyer seller : AggressorSide

pub data OrderType : Type 0 where
  market limit stop_market stop_limit take_profit_market take_profit_limit : OrderType

pub data TimeInForce : Type 0 where
  gtc ioc fok post_only : TimeInForce

pub data MarginMode : Type 0 where
  cross isolated : MarginMode

pub data PositionMode : Type 0 where
  one_way hedge : PositionMode

pub data PositionDirection : Type 0 where
  long short flat : PositionDirection

pub data OrderStatus : Type 0 where
  new partially_filled filled canceled rejected expired pending_cancel : OrderStatus

pub data TriggerType : Type 0 where
  last_price mark_price index_price : TriggerType

abbrev pub AssetCode : Type 0
AssetCode = Str

abbrev pub InstrumentId : Type 0
InstrumentId = Str

abbrev pub OrderId : Type 0
OrderId = Str

abbrev pub ClientOrderId : Type 0
ClientOrderId = Str

abbrev pub PositionId : Type 0
PositionId = Str

abbrev pub RequestId : Type 0
RequestId = Str

abbrev pub TradeId : Type 0
TradeId = Str

-- A `u64`.
abbrev pub SequenceNumber : Type 0
SequenceNumber = ℕ

-- Milliseconds since the epoch, an `i64`.
abbrev pub TimestampMs : Type 0
TimestampMs = ℤ
