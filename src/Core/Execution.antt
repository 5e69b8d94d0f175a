-- ===== src/Core/Execution.antt =====
-- crates/bat-markets-core/src/execution.rs: the events of the public and the private lane.
use bat_markets.Prelude.{Option}
use bat_markets.Core.Types.{SequenceNumber}
use bat_markets.Core.Market.{
  FastBookTop, FastKline, FastTicker, FastTrade, FundingRate, OpenInterest, FastLiquidation,
  FastMarkPrice, FastOrderBookDelta,
}
use bat_markets.Core.Trade.{Balance, Position, Order, Execution}

pub data DivergenceEvent : Type 0 where
  reconcile_required : DivergenceEvent
  state_divergence : DivergenceEvent
  sequence_gap : Option SequenceNumber → DivergenceEvent

pub data PublicLaneEvent (D : Type 0) : Type 0 where
  ticker : FastTicker → PublicLaneEvent D
  trade : FastTrade → PublicLaneEvent D
  book_top : FastBookTop → PublicLaneEvent D
  order_book_delta : FastOrderBookDelta → PublicLaneEvent D
  kline : FastKline → PublicLaneEvent D
  mark_price : FastMarkPrice D → PublicLaneEvent D
  funding_rate : FundingRate D → PublicLaneEvent D
  open_interest : OpenInterest D → PublicLaneEvent D
  liquidation : FastLiquidation → PublicLaneEvent D
  divergence : DivergenceEvent → PublicLaneEvent D

pub data PrivateLaneEvent (D : Type 0) : Type 0 where
  balance : Balance D → PrivateLaneEvent D
  position : Position D → PrivateLaneEvent D
  order : Order D → PrivateLaneEvent D
  execution : Execution D → PrivateLaneEvent D
  divergence : DivergenceEvent → PrivateLaneEvent D
