-- ===== src/Core/Market.antt =====
-- crates/bat-markets-core/src/market.rs: the fast and the unified market data, and the conversion
-- of one into the other by an instrument's scales. The children hold the intervals and requests.
pub mod Interval
pub mod Request
use bat_markets.Prelude.{Bool, Option, List, map, map_option}
use bat_markets.Prelude.Text.{Str}
use bat_markets.Core.Types.{InstrumentId, TradeId, TimestampMs, AggressorSide, Side}
use bat_markets.Core.Numeric.{DecimalOps, FastPrice, FastQuantity, FastNotional, from_fast}
use bat_markets.Core.Instrument.{InstrumentSpec, price_from_fast, quantity_from_fast}

pub record FastTicker : Type 0 where
  pub instrument_id : InstrumentId
  pub last_price : FastPrice
  pub mark_price : Option FastPrice
  pub index_price : Option FastPrice
  pub volume_24h : Option FastQuantity
  pub turnover_24h : Option FastNotional
  pub event_time : TimestampMs

pub record FastTrade : Type 0 where
  pub instrument_id : InstrumentId
  pub trade_id : TradeId
  pub price : FastPrice
  pub quantity : FastQuantity
  pub aggressor_side : AggressorSide
  pub event_time : TimestampMs

pub record FastBookTop : Type 0 where
  pub instrument_id : InstrumentId
  pub bid_price : FastPrice
  pub bid_quantity : FastQuantity
  pub ask_price : FastPrice
  pub ask_quantity : FastQuantity
  pub event_time : TimestampMs

pub record FastOrderBookDelta : Type 0 where
  pub instrument_id : InstrumentId
  pub bids : List (FastPrice × FastQuantity)
  pub asks : List (FastPrice × FastQuantity)
  pub event_time : TimestampMs

-- The source's field `open` is `open_price` here.
pub record FastKline : Type 0 where
  pub instrument_id : InstrumentId
  pub interval : Str
  pub open_price : FastPrice
  pub high : FastPrice
  pub low : FastPrice
  pub close : FastPrice
  pub volume : FastQuantity
  pub open_time : TimestampMs
  pub close_time : TimestampMs
  pub closed : Bool

pub record FastMarkPrice (D : Type 0) : Type 0 where
  pub instrument_id : InstrumentId
  pub price : FastPrice
  pub funding_rate : Option D
  pub event_time : TimestampMs

pub record FastFundingRate (D : Type 0) : Type 0 where
  pub instrument_id : InstrumentId
  pub value : D
  pub mark_price : Option FastPrice
  pub event_time : TimestampMs

pub record FastLiquidation : Type 0 where
  pub instrument_id : InstrumentId
  pub side : Side
  pub price : FastPrice
  pub quantity : FastQuantity
  pub event_time : TimestampMs

pub record Ticker (D : Type 0) : Type 0 where
  pub instrument_id : InstrumentId
  pub last_price : D
  pub mark_price : Option D
  pub index_price : Option D
  pub volume_24h : Option D
  pub turnover_24h : Option D
  pub event_time : TimestampMs

pub record TradeTick (D : Type 0) : Type 0 where
  pub instrument_id : InstrumentId
  pub trade_id : TradeId
  pub price : D
  pub quantity : D
  pub aggressor_side : AggressorSide
  pub event_time : TimestampMs

pub record BookLevel (D : Type 0) : Type 0 where
  pub price : D
  pub quantity : D

pub record OrderBookLevel (D : Type 0) : Type 0 where
  pub price : D
  pub quantity : D

pub record BookTop (D : Type 0) : Type 0 where
  pub instrument_id : InstrumentId
  pub bid : BookLevel D
  pub ask : BookLevel D
  pub event_time : TimestampMs

pub record OrderBookDelta (D : Type 0) : Type 0 where
  pub instrument_id : InstrumentId
  pub bids : List (OrderBookLevel D)
  pub asks : List (OrderBookLevel D)
  pub event_time : TimestampMs

pub record Kline (D : Type 0) : Type 0 where
  pub instrument_id : InstrumentId
  pub interval : Str
  pub open_price : D
  pub high : D
  pub low : D
  pub close : D
  pub volume : D
  pub open_time : TimestampMs
  pub close_time : TimestampMs
  pub closed : Bool

pub record MarkPrice (D : Type 0) : Type 0 where
  pub instrument_id : InstrumentId
  pub price : D
  pub funding_rate : Option D
  pub event_time : TimestampMs

pub record Liquidation (D : Type 0) : Type 0 where
  pub instrument_id : InstrumentId
  pub side : Side
  pub price : D
  pub quantity : D
  pub event_time : TimestampMs

pub record FundingRate (D : Type 0) : Type 0 where
  pub instrument_id : InstrumentId
  pub value : D
  pub mark_price : Option D
  pub event_time : TimestampMs

pub record OpenInterest (D : Type 0) : Type 0 where
  pub instrument_id : InstrumentId
  pub value : D
  pub event_time : TimestampMs

-- The methods `to_unified`, one for each fast type.
module _ {D : Type 0} (dec : DecimalOps D) (spec : InstrumentSpec D) where
  unfoldable pub unify_ticker : FastTicker → Ticker D
  unify_ticker t = record {
    instrument_id = t.instrument_id;
    last_price = price_from_fast dec spec t.last_price;
    mark_price = map_option (price_from_fast dec spec) t.mark_price;
    index_price = map_option (price_from_fast dec spec) t.index_price;
    volume_24h = map_option (quantity_from_fast dec spec) t.volume_24h;
    turnover_24h = map_option (λ v. from_fast dec v spec.quote_scale) t.turnover_24h;
    event_time = t.event_time;
  }

  unfoldable pub unify_trade : FastTrade → TradeTick D
  unify_trade t = record {
    instrument_id = t.instrument_id;
    trade_id = t.trade_id;
    price = price_from_fast dec spec t.price;
    quantity = quantity_from_fast dec spec t.quantity;
    aggressor_side = t.aggressor_side;
    event_time = t.event_time;
  }

  unfoldable pub unify_book_top : FastBookTop → BookTop D
  unify_book_top b = record {
    instrument_id = b.instrument_id;
    bid = record {
      price = price_from_fast dec spec b.bid_price;
      quantity = quantity_from_fast dec spec b.bid_quantity;
    };
    ask = record {
      price = price_from_fast dec spec b.ask_price;
      quantity = quantity_from_fast dec spec b.ask_quantity;
    };
    event_time = b.event_time;
  }

  -- The closure that both sides of a delta map over their levels.
  abbrev pub unify_level : FastPrice × FastQuantity → OrderBookLevel D
  unify_level (p, q) = record {
    price = price_from_fast dec spec p;
    quantity = quantity_from_fast dec spec q;
  }

  unfoldable pub unify_order_book_delta : FastOrderBookDelta → OrderBookDelta D
  unify_order_book_delta d = record {
    instrument_id = d.instrument_id;
    bids = map unify_level d.bids;
    asks = map unify_level d.asks;
    event_time = d.event_time;
  }

  unfoldable pub unify_kline : FastKline → Kline D
  unify_kline k = record {
    instrument_id = k.instrument_id;
    interval = k.interval;
    open_price = price_from_fast dec spec k.open_price;
    high = price_from_fast dec spec k.high;
    low = price_from_fast dec spec k.low;
    close = price_from_fast dec spec k.close;
    volume = quantity_from_fast dec spec k.volume;
    open_time = k.open_time;
    close_time = k.close_time;
    closed = k.closed;
  }

  unfoldable pub unify_mark_price : FastMarkPrice D → MarkPrice D
  unify_mark_price m = record {
    instrument_id = m.instrument_id;
    price = price_from_fast dec spec m.price;
    funding_rate = m.funding_rate;
    event_time = m.event_time;
  }

  unfoldable pub unify_funding_rate : FastFundingRate D → FundingRate D
  unify_funding_rate f = record {
    instrument_id = f.instrument_id;
    value = f.value;
    mark_price = map_option (price_from_fast dec spec) f.mark_price;
    event_time = f.event_time;
  }

  unfoldable pub unify_liquidation : FastLiquidation → Liquidation D
  unify_liquidation l = record {
    instrument_id = l.instrument_id;
    side = l.side;
    price = price_from_fast dec spec l.price;
    quantity = quantity_from_fast dec spec l.quantity;
    event_time = l.event_time;
  }
