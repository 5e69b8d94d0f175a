-- ===== src/Core/Trade.antt =====
-- crates/bat-markets-core/src/trade.rs, account.rs and position.rs: orders, fills, order requests,
-- balances and positions.
use bat_markets.Prelude.{Bool, Option, List}
use bat_markets.Prelude.Text.{Str}
use bat_markets.Core.Types.{
  AssetCode, ClientOrderId, InstrumentId, OrderId, PositionId, RequestId, TradeId, TimestampMs,
  MarginMode, OrderStatus, OrderType, PositionDirection, PositionMode, Side, TimeInForce,
  TriggerType,
}

pub record Order (D : Type 0) : Type 0 where
  pub order_id : OrderId
  pub client_order_id : Option ClientOrderId
  pub instrument_id : InstrumentId
  pub side : Side
  pub order_type : OrderType
  pub time_in_force : Option TimeInForce
  pub status : OrderStatus
  pub price : Option D
  pub quantity : D
  pub filled_quantity : D
  pub average_fill_price : Option D
  pub reduce_only : Bool
  pub post_only : Bool
  pub created_at : TimestampMs
  pub updated_at : TimestampMs
  pub venue_status : Option Str

pub data Liquidity : Type 0 where
  maker taker : Liquidity

pub record Execution (D : Type 0) : Type 0 where
  pub execution_id : TradeId
  pub order_id : OrderId
  pub client_order_id : Option ClientOrderId
  pub instrument_id : InstrumentId
  pub side : Side
  pub quantity : D
  pub price : D
  pub fee : Option D
  pub fee_asset : Option AssetCode
  pub liquidity : Option Liquidity
  pub executed_at : TimestampMs

pub record CreateOrderRequest (D : Type 0) : Type 0 where
  pub request_id : Option RequestId
  pub instrument_id : InstrumentId
  pub client_order_id : Option ClientOrderId
  pub side : Side
  pub order_type : OrderType
  pub time_in_force : Option TimeInForce
  pub quantity : D
  pub price : Option D
  pub trigger_price : Option D
  pub trigger_type : Option TriggerType
  pub reduce_only : Bool
  pub post_only : Bool

pub record OrderTarget : Type 0 where
  pub instrument_id : InstrumentId
  pub order_id : Option OrderId
  pub client_order_id : Option ClientOrderId

pub record GetOrderRequest : Type 0 where
  pub request_id : Option RequestId
  pub instrument_id : InstrumentId
  pub order_id : Option OrderId
  pub client_order_id : Option ClientOrderId

pub record CreateOrdersRequest (D : Type 0) : Type 0 where
  pub request_id : Option RequestId
  pub orders : List (CreateOrderRequest D)

pub record AmendOrderRequest (D : Type 0) : Type 0 where
  pub request_id : Option RequestId
  pub instrument_id : InstrumentId
  pub order_id : Option OrderId
  pub client_order_id : Option ClientOrderId
  pub quantity : Option D
  pub price : Option D
  pub trigger_price : Option D

pub record CancelOrderRequest : Type 0 where
  pub request_id : Option RequestId
  pub instrument_id : InstrumentId
  pub order_id : Option OrderId
  pub client_order_id : Option ClientOrderId

pub record CancelOrdersRequest : Type 0 where
  pub request_id : Option RequestId
  pub orders : List OrderTarget

pub record ClosePositionRequest (D : Type 0) : Type 0 where
  pub request_id : Option RequestId
  pub instrument_id : InstrumentId
  pub quantity : Option D
  pub client_order_id : Option ClientOrderId
  pub price : Option D
  pub time_in_force : Option TimeInForce
  pub post_only : Bool

pub record Balance (D : Type 0) : Type 0 where
  pub asset : AssetCode
  pub wallet_balance : D
  pub available_balance : D
  pub updated_at : TimestampMs

pub record AccountSummary (D : Type 0) : Type 0 where
  pub total_wallet_balance : D
  pub total_available_balance : D
  pub total_unrealized_pnl : D
  pub updated_at : TimestampMs

pub record Position (D : Type 0) : Type 0 where
  pub position_id : PositionId
  pub instrument_id : InstrumentId
  pub direction : PositionDirection
  pub size : D
  pub entry_price : Option D
  pub mark_price : Option D
  pub unrealized_pnl : Option D
  pub leverage : Option D
  pub margin_mode : MarginMode
  pub position_mode : PositionMode
  pub updated_at : TimestampMs
