-- ===== src/Core/Market/Interval.antt =====
-- crates/bat-markets-core/src/market.rs: `KlineInterval`, its texts and the close time of a candle.
-- The `time` crate is a parameter: the year and month of an instant, and the instant at which a
-- month begins.
use bat_markets.Prelude.{ℕ, ◌*◌, ◌≡◌, refl, Bool, ◌||◌, Option, none, some, if◌then◌else◌}
use bat_markets.Prelude.Int.{ℤ, pos, ◌+ℤ◌, ◌-ℤ◌, wrap_i64}
use bat_markets.Prelude.Text.{Str, str}
use bat_markets.Ord.{◌===◌, str_ord}

pub data KlineInterval : Type 0 where
  minute1 minute3 minute5 minute15 minute30 hour1 hour2 hour4 hour6 hour12 : KlineInterval
  day1 day3 week1 month1 : KlineInterval

abbrev is_one_of : Str → Str → Str → Bool
is_one_of raw a b = (raw === a) || (raw === b)

-- `KlineInterval::parse`.
unfoldable pub parse : Str → Option KlineInterval
parse raw =
    if is_one_of raw (str "1") (str "1m")
    then some KlineInterval.minute1
    else if is_one_of raw (str "3") (str "3m")
    then some KlineInterval.minute3
    else if is_one_of raw (str "5") (str "5m")
    then some KlineInterval.minute5
    else if is_one_of raw (str "15") (str "15m")
    then some KlineInterval.minute15
    else if is_one_of raw (str "30") (str "30m")
    then some KlineInterval.minute30
    else if is_one_of raw (str "60") (str "1h")
    then some KlineInterval.hour1
    else if is_one_of raw (str "120") (str "2h")
    then some KlineInterval.hour2
    else if is_one_of raw (str "240") (str "4h")
    then some KlineInterval.hour4
    else if is_one_of raw (str "360") (str "6h")
    then some KlineInterval.hour6
    else if is_one_of raw (str "720") (str "12h")
    then some KlineInterval.hour12
    else if is_one_of raw (str "D") (str "1d")
    then some KlineInterval.day1
    else if raw === str "3d"
    then some KlineInterval.day3
    else if is_one_of raw (str "W") (str "1w")
    then some KlineInterval.week1
    else if is_one_of raw (str "M") (str "1M")
    then some KlineInterval.month1
    else none

-- `as_interval_str`, and `as_binance_str`, which returns the same.
unfoldable pub as_interval_str : KlineInterval → Str
as_interval_str KlineInterval.minute1 = str "1m"
as_interval_str KlineInterval.minute3 = str "3m"
as_interval_str KlineInterval.minute5 = str "5m"
as_interval_str KlineInterval.minute15 = str "15m"
as_interval_str KlineInterval.minute30 = str "30m"
as_interval_str KlineInterval.hour1 = str "1h"
as_interval_str KlineInterval.hour2 = str "2h"
as_interval_str KlineInterval.hour4 = str "4h"
as_interval_str KlineInterval.hour6 = str "6h"
as_interval_str KlineInterval.hour12 = str "12h"
as_interval_str KlineInterval.day1 = str "1d"
as_interval_str KlineInterval.day3 = str "3d"
as_interval_str KlineInterval.week1 = str "1w"
as_interval_str KlineInterval.month1 = str "1M"

unfoldable pub as_bybit_str : KlineInterval → Str
as_bybit_str KlineInterval.minute1 = str "1"
as_bybit_str KlineInterval.minute3 = str "3"
as_bybit_str KlineInterval.minute5 = str "5"
as_bybit_str KlineInterval.minute15 = str "15"
as_bybit_str KlineInterval.minute30 = str "30"
as_bybit_str KlineInterval.hour1 = str "60"
as_bybit_str KlineInterval.hour2 = str "120"
as_bybit_str KlineInterval.hour4 = str "240"
as_bybit_str KlineInterval.hour6 = str "360"
as_bybit_str KlineInterval.hour12 = str "720"
as_bybit_str KlineInterval.day1 = str "D"
as_bybit_str KlineInterval.day3 = str "3d"
as_bybit_str KlineInterval.week1 = str "W"
as_bybit_str KlineInterval.month1 = str "M"

-- Both texts of an interval parse back to it.
pub parse_round_trip :
    (i : KlineInterval) → (parse (as_interval_str i) ≡ some i) × (parse (as_bybit_str i) ≡ some i)
unfolding parse as_interval_str as_bybit_str
parse_round_trip KlineInterval.minute1 = (refl, refl)
parse_round_trip _ = (refl, refl)

-- `time::Month`.
pub data Month : Type 0 where
  january february march april may june july august september october november december : Month

-- The private `next_month`.
unfoldable pub next_month : Month → Month
next_month Month.january = Month.february
next_month Month.february = Month.march
next_month Month.march = Month.april
next_month Month.april = Month.may
next_month Month.may = Month.june
next_month Month.june = Month.july
next_month Month.july = Month.august
next_month Month.august = Month.september
next_month Month.september = Month.october
next_month Month.october = Month.november
next_month Month.november = Month.december
next_month Month.december = Month.january

-- What the source asks of the `time` crate: the civil year and month of an instant in milliseconds,
-- if it is in range, and the instant at which a month of a year begins, if that is in range.
pub record Calendar : Type 0 where
  pub year_month : ℤ → Option (ℤ × Month)
  pub month_start : ℤ → Month → Option ℤ

-- The fixed length of an interval in milliseconds; a month has none.
unfoldable pub duration_ms : KlineInterval → Option ℕ
duration_ms KlineInterval.minute1 = some 60000
duration_ms KlineInterval.minute3 = some (3 * 60000)
duration_ms KlineInterval.minute5 = some (5 * 60000)
duration_ms KlineInterval.minute15 = some (15 * 60000)
duration_ms KlineInterval.minute30 = some (30 * 60000)
duration_ms KlineInterval.hour1 = some (60 * 60000)
duration_ms KlineInterval.hour2 = some (120 * 60000)
duration_ms KlineInterval.hour4 = some (240 * 60000)
duration_ms KlineInterval.hour6 = some (360 * 60000)
duration_ms KlineInterval.hour12 = some (720 * 60000)
duration_ms KlineInterval.day1 = some (24 * 60 * 60000)
duration_ms KlineInterval.day3 = some (3 * 24 * 60 * 60000)
duration_ms KlineInterval.week1 = some (7 * 24 * 60 * 60000)
duration_ms KlineInterval.month1 = none

-- The year and month after those of the open time.
unfoldable pub following : ℤ × Month → ℤ × Month
unfolding next_month
following (year, Month.december) = (year +ℤ pos 1, Month.january)
following (year, month) = (year, next_month month)

module _ (cal : Calendar) where
  -- `close_time_ms`; the additions are those of `i64` and wrap.
  unfoldable pub close_time_ms : KlineInterval → ℤ → Option ℤ
  unfolding duration_ms following
  close_time_ms i open_time = elim (duration_ms i) [
    | some d ↦ some (wrap_i64 (wrap_i64 (open_time +ℤ pos d) -ℤ pos 1))
    | none ↦ elim (cal.year_month open_time) [
      | none ↦ none
      | some ym ↦ elim (cal.month_start (following ym).0 (following ym).1) [
        | none ↦ none
        | some next_open ↦ some (wrap_i64 (next_open -ℤ pos 1))
      ]
    ]
  ]
