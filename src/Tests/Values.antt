-- ===== src/Tests/Values.antt =====
-- Concrete values of crates/bat-markets-core/src: a decimal, two instruments, events and orders.
use bat_markets.Prelude.{ℕ, true, false, none, some, List, [], ◌∷◌}
use bat_markets.Prelude.Int.{ℤ, pos, ◌+ℤ◌, ltb_ℤ, leb_ℤ, eqb_ℤ}
use bat_markets.Prelude.Text.{Str, str}
use bat_markets.Core.Types.{Venue, Product, MarketType, Side, AggressorSide, OrderType, OrderStatus}
use bat_markets.Core.Numeric.{DecimalOps}
use bat_markets.Core.Instrument.{InstrumentSpec, InstrumentStatus}
use bat_markets.Core.Market.{FastTicker, FastTrade}
use bat_markets.Core.Trade.{Order, Execution}
use bat_markets.Core.Execution.{PublicLaneEvent, PrivateLaneEvent}
use bat_markets.Core.Engine.{EngineState, StatePolicy, new}
use bat_markets.Core.Engine.Ops.{Op, run}

-- A decimal as its mantissa and its scale.
pub record Decimal : Type 0 where
  pub digits : ℤ
  pub scale : ℕ

abbrev pub at_scale : ℕ → Decimal → Decimal
at_scale s d = record { digits = d.digits; scale = s }

abbrev pub decimal_ops : DecimalOps Decimal
decimal_ops = record {
  new = λ m s. record { digits = m; scale = s };
  rescale = λ d s. at_scale s d;
  mantissa = λ d. d.digits;
  checked_add = λ a b. some (record { digits = a.digits +ℤ b.digits; scale = a.scale });
  mul = λ a b. a;
  lt = λ a b. ltb_ℤ a.digits b.digits;
  le = λ a b. leb_ℤ a.digits b.digits;
  is_zero = λ a. eqb_ℤ a.digits (pos 0);
  show = λ a. str "decimal";
}

abbrev pub one : Decimal
one = record { digits = pos 1; scale = 0 }

abbrev pub btc : Str
btc = str "BTC/USDT:USDT"

abbrev pub eth : Str
eth = str "ETH/USDT:USDT"

abbrev pub spec_of : Str → InstrumentSpec Decimal
spec_of id = record {
  venue = Venue.binance;
  product = Product.linear_usdt;
  market_type = MarketType.linear_perpetual;
  instrument_id = id;
  canonical_symbol = id;
  native_symbol = str "BTCUSDT";
  base = str "BTC";
  quote = str "USDT";
  settle = str "USDT";
  contract_size = one;
  tick_size = one;
  step_size = one;
  min_qty = one;
  min_notional = one;
  price_scale = 2;
  qty_scale = 3;
  quote_scale = 5;
  max_leverage = none;
  support = record {
    public_streams = true;
    private_trading = true;
    leverage_set = true;
    margin_mode_set = true;
    funding_rate = true;
    open_interest = true;
  };
  status = InstrumentStatus.active;
}

abbrev pub policy : StatePolicy
policy = record { recent_trade_capacity = 2; execution_capacity = 2 }

abbrev pub specs : List (InstrumentSpec Decimal)
specs = spec_of btc ∷ spec_of eth ∷ []

abbrev pub trade_of : Str → Str → FastTrade
trade_of id trade = record {
  instrument_id = id;
  trade_id = trade;
  price = pos 650000;
  quantity = pos 5;
  aggressor_side = AggressorSide.buyer;
  event_time = pos 1000;
}

abbrev pub ticker_of : Str → FastTicker
ticker_of id = record {
  instrument_id = id;
  last_price = pos 650000;
  mark_price = none;
  index_price = none;
  volume_24h = none;
  turnover_24h = none;
  event_time = pos 1000;
}

abbrev pub order_of : Str → OrderStatus → Order Decimal
order_of id status = record {
  order_id = id;
  client_order_id = none;
  instrument_id = btc;
  side = Side.buy;
  order_type = OrderType.limit;
  time_in_force = none;
  status = status;
  price = some one;
  quantity = one;
  filled_quantity = one;
  average_fill_price = none;
  reduce_only = false;
  post_only = false;
  created_at = pos 900;
  updated_at = pos 1000;
  venue_status = none;
}

abbrev pub fill_of : Str → Execution Decimal
fill_of id = record {
  execution_id = id;
  order_id = str "o1";
  client_order_id = none;
  instrument_id = btc;
  side = Side.buy;
  quantity = one;
  price = one;
  fee = none;
  fee_asset = none;
  liquidity = none;
  executed_at = pos 1000;
}

abbrev pub fresh : EngineState Decimal
fresh = new Venue.binance Product.linear_usdt policy specs

-- A history: trades, orders, a fill twice, and a change of the instruments.
abbrev pub history : List (Op Decimal)
history =
    Op.public_event (PublicLaneEvent.trade (trade_of btc (str "t1")))
    ∷ Op.public_event (PublicLaneEvent.trade (trade_of eth (str "t2")))
    ∷ Op.private_event (PrivateLaneEvent.order (order_of (str "o1") OrderStatus.new))
    ∷ Op.private_event (PrivateLaneEvent.execution (fill_of (str "e1")))
    ∷ Op.private_event (PrivateLaneEvent.execution (fill_of (str "e1")))
    ∷ Op.private_event (PrivateLaneEvent.execution (fill_of (str "e2")))
    ∷ Op.replace_instruments (spec_of btc ∷ [])
    ∷ []

abbrev pub after_history : EngineState Decimal
after_history = run decimal_ops history fresh
