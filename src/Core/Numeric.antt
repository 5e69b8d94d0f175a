-- ===== src/Core/Numeric.antt =====
-- crates/bat-markets-core/src/numeric.rs: the decimal wrappers, the scaled integers of the fast
-- path and the conversions between them. `rust_decimal::Decimal` is a parameter: a type with the
-- operations that the source calls. `Decimal::new` panics above scale 28, so nothing is asked of
-- it there.
use bat_markets.Prelude.{ℕ, Bool, Option, ◌&&◌, ◌++◌, if◌then◌else◌}
use bat_markets.Prelude.Int.{ℤ, leb_ℤ, i64_min, i64_max}
use bat_markets.Prelude.Text.{Str, str}
use bat_markets.Core.Failure.{Result, ok, err, market_error, config_error}

-- The operations of `Decimal`; `mantissa` is an `i128`.
pub record DecimalOps (D : Type 0) : Type 0 where
  pub new : ℤ → ℕ → D
  pub rescale : D → ℕ → D
  pub mantissa : D → ℤ
  pub checked_add : D → D → Option D
  pub mul : D → D → D
  pub lt : D → D → Bool
  pub le : D → D → Bool
  pub is_zero : D → Bool
  pub show : D → Str

-- `Price`, `Quantity`, `Amount`, `Notional`, `Leverage` and `Rate` wrap a decimal; `FastPrice`,
-- `FastQuantity` and `FastNotional` wrap an `i64`.
abbrev pub FastPrice : Type 0
FastPrice = ℤ

abbrev pub FastQuantity : Type 0
FastQuantity = ℤ

abbrev pub FastNotional : Type 0
FastNotional = ℤ

module _ {D : Type 0} (dec : DecimalOps D) where
  -- `i64::try_from(value.mantissa())` after the rescale.
  unfoldable pub quantize_decimal : D → ℕ → Result ℤ
  quantize_decimal value scale =
      let v = dec.rescale value scale in
      if leb_ℤ i64_min (dec.mantissa v) && leb_ℤ (dec.mantissa v) i64_max
      then ok (dec.mantissa v)
      else err (
          market_error config_error
            (str "value " ++ dec.show v ++ str " does not fit into fast-path i64 representation"))

  -- `FastPrice::to_price`, `FastQuantity::to_quantity` and `FastNotional::to_notional`.
  abbrev pub from_fast : ℤ → ℕ → D
  from_fast units scale = dec.new units scale

  -- `Notional::from_price_qty`.
  abbrev pub notional_from_price_qty : D → D → D
  notional_from_price_qty price quantity = dec.mul price quantity
