-- ===== src/Core/Instrument.antt =====
-- crates/bat-markets-core/src/instrument.rs: the specification of an instrument.
use bat_markets.Prelude.{ℕ, Bool, Option}
use bat_markets.Prelude.Text.{Str}
use bat_markets.Ord.{◌===◌, str_ord}
use bat_markets.Core.Types.{Venue, Product, MarketType, InstrumentId, AssetCode}
use bat_markets.Core.Numeric.{DecimalOps, FastPrice, FastQuantity, from_fast}

pub data InstrumentStatus : Type 0 where
  active halted settled : InstrumentStatus

pub record InstrumentSupport : Type 0 where
  pub public_streams : Bool
  pub private_trading : Bool
  pub leverage_set : Bool
  pub margin_mode_set : Bool
  pub funding_rate : Bool
  pub open_interest : Bool

-- `InstrumentSpec`; the scales are `u32`.
pub record InstrumentSpec (D : Type 0) : Type 0 where
  pub venue : Venue
  pub product : Product
  pub market_type : MarketType
  pub instrument_id : InstrumentId
  pub canonical_symbol : Str
  pub native_symbol : Str
  pub base : AssetCode
  pub quote : AssetCode
  pub settle : AssetCode
  pub contract_size : D
  pub tick_size : D
  pub step_size : D
  pub min_qty : D
  pub min_notional : D
  pub price_scale : ℕ
  pub qty_scale : ℕ
  pub quote_scale : ℕ
  pub max_leverage : Option D
  pub support : InstrumentSupport
  pub status : InstrumentStatus

module _ {D : Type 0} where
  abbrev pub price_from_fast : DecimalOps D → InstrumentSpec D → FastPrice → D
  price_from_fast dec spec value = from_fast dec value spec.price_scale

  abbrev pub quantity_from_fast : DecimalOps D → InstrumentSpec D → FastQuantity → D
  quantity_from_fast dec spec value = from_fast dec value spec.qty_scale

  abbrev pub matches_native_symbol : InstrumentSpec D → Str → Bool
  matches_native_symbol spec symbol = spec.native_symbol === symbol
