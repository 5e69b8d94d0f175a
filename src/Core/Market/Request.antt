-- ===== src/Core/Market/Request.antt =====
-- crates/bat-markets-core/src/market.rs: the market data requests with their checks.
use bat_markets.Prelude.{ℕ, ◌≡◌, ◌↔◌, Option, List, [], ◌∷◌, length, ltb, if◌then◌else◌, arith}
use bat_markets.Prelude.Text.{Str, str}
use bat_markets.Core.Types.{InstrumentId, TimestampMs}
use bat_markets.Core.Failure.{Result, ok, err, ◌>>=◌, market_error, config_error, unsupported}

pub record FetchOhlcvRequest : Type 0 where
  pub instrument_ids : List InstrumentId
  pub interval : Str
  pub start_time : Option TimestampMs
  pub end_time : Option TimestampMs
  pub limit : Option ℕ

abbrev pub fetch_ohlcv_max_instruments_per_call : ℕ
fetch_ohlcv_max_instruments_per_call = 30

-- `FetchOhlcvRequest::instrument_ids`.
unfoldable pub ohlcv_instrument_ids : FetchOhlcvRequest → Result (List InstrumentId)
ohlcv_instrument_ids r =
    if ltb (length r.instrument_ids) 1
    then err (market_error config_error (str "fetch_ohlcv requires at least one instrument"))
    else if ltb fetch_ohlcv_max_instruments_per_call (length r.instrument_ids)
    then err (market_error unsupported (str "fetch_ohlcv supports at most 30 instruments per call"))
    else ok r.instrument_ids

-- The end of `single_instrument_id`: the only id of the list.
abbrev pub only_id : List InstrumentId → Result InstrumentId
only_id (id ∷ []) = ok id
only_id [] = err (
    market_error unsupported
      (str "single-instrument OHLCV parsing requires exactly one instrument_id"))
only_id (id ∷ next ∷ ids) = err (
    market_error unsupported
      (str "single-instrument OHLCV parsing requires exactly one instrument_id"))

-- `FetchOhlcvRequest::single_instrument_id`.
unfoldable pub single_instrument_id : FetchOhlcvRequest → Result InstrumentId
unfolding ohlcv_instrument_ids
single_instrument_id r = ohlcv_instrument_ids r >>= only_id

ids-single :
    (ids : List InstrumentId) (interval : Str) (start end : Option TimestampMs) (limit : Option ℕ)
    (id : InstrumentId)
    → (single_instrument_id (record {
      instrument_ids = ids;
      interval = interval;
      start_time = start;
      end_time = end;
      limit = limit;
    })
        ≡ ok id)
      ↔ (ids ≡ id ∷ [])
unfolding single_instrument_id ohlcv_instrument_ids
ids-single [] interval start end limit id = (λ e. cc, λ e. cc)
ids-single (x ∷ []) interval start end limit id = ground arith
ids-single (x ∷ y ∷ ids) interval start end limit id = (λ e. ground (arith, e), λ e. cc)

-- A request has a single instrument exactly when its list holds that instrument and nothing else; an
-- empty, a longer and an overlong list are all refused.
pub single_instrument_id_lem :
    (r : FetchOhlcvRequest) (id : InstrumentId)
    → (single_instrument_id r ≡ ok id) ↔ (r.instrument_ids ≡ id ∷ [])
single_instrument_id_lem r id =
    ids-single r.instrument_ids r.interval r.start_time r.end_time r.limit id
