-- ===== src/Core/Failure.antt =====
-- crates/bat-markets-core/src/error.rs: the error classes, the error with its context, and the
-- result type with its `?`.
use bat_markets.Prelude.{◌≡◌, refl, ◌⊎◌, inl, inr, Bool, false, Option, none, some}
use bat_markets.Prelude.Text.{Str}
use bat_markets.Core.Types.{Venue, Product, RequestId}

pub data ErrorKind : Type 0 where
  config_error transport_error timeout rate_limited auth_error permission_denied unsupported :
      ErrorKind
  decode_error exchange_reject unknown_execution state_divergence compliance_required : ErrorKind
  temporary_unavailable : ErrorKind

pub record ErrorContext : Type 0 where
  pub venue : Option Venue
  pub product : Option Product
  pub operation : Option Str
  pub request_id : Option RequestId
  pub native_code : Option Str
  pub retriable : Bool

-- `ErrorContext::default`.
abbrev pub default_context : ErrorContext
default_context = record {
  venue = none;
  product = none;
  operation = none;
  request_id = none;
  native_code = none;
  retriable = false;
}

pub record MarketError : Type 0 where
  pub kind : ErrorKind
  pub message : Str
  pub context : ErrorContext

-- `MarketError::new`.
abbrev pub market_error : ErrorKind → Str → MarketError
market_error k m = record { kind = k; message = m; context = default_context }

abbrev pub with_venue : MarketError → Venue → Product → MarketError
with_venue e v p = record e { context = record e.context { venue = some v; product = some p } }

abbrev pub with_operation : MarketError → Str → MarketError
with_operation e o = record e { context = record e.context { operation = some o } }

abbrev pub with_request_id : MarketError → RequestId → MarketError
with_request_id e r = record e { context = record e.context { request_id = some r } }

abbrev pub with_native_code : MarketError → Str → MarketError
with_native_code e c = record e { context = record e.context { native_code = some c } }

abbrev pub with_retriable : MarketError → Bool → MarketError
with_retriable e b = record e { context = record e.context { retriable = b } }

pub data Result {ℓ} (A : Type ℓ) : Type ℓ where
  ok : A → Result A
  err : MarketError → Result A

-- The `?` operator: the first error leaves the function.
infixl 5 ◌>>=◌
abbrev pub ◌>>=◌ {ℓ κ} : {T : Type ℓ} {U : Type κ} → Result T → (T → Result U) → Result U
err failure >>= next = err failure
ok value >>= next = next value

-- `Option::ok_or_else`.
abbrev pub ok_or {ℓ} : {A : Type ℓ} → Option A → MarketError → Result A
ok_or none e = err e
ok_or (some a) e = ok a

-- To split on a computed result and keep the equation.
pub Result-cases {ℓ} :
    {A : Type ℓ} (r : Result A) → ((e : MarketError) × (r ≡ err e)) ⊎ ((a : A) × (r ≡ ok a))
Result-cases (ok a) = inr (a, refl)
Result-cases (err e) = inl (e, refl)
