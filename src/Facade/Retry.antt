-- ===== src/Facade/Retry.antt =====
-- crates/bat-markets/src/runtime.rs: retries of REST reads and reconnects of streams, with their
-- backoff. Of `RetryPolicy` and `ReconnectPolicy` (crates/bat-markets-core/src/config.rs) the
-- fields that these read.
pub mod Budget
use bat_markets.Prelude.{
  ℕ, zero, suc, ◌+◌, ◌*◌, Bool, true, false, ◌&&◌, Option, none, some, List, [], ◌∷◌, ltb, leb,
  if◌then◌else◌,
}
use bat_markets.Prelude.Text.{Str}
use bat_markets.Core.Failure.{
  ErrorKind, MarketError, Result, ok, err, with_operation, transport_error, timeout, rate_limited,
  temporary_unavailable,
}

pub record RetryPolicy : Type 0 where
  pub rest_retries : ℕ
  pub rest_initial_backoff_ms : ℕ
  pub rest_max_backoff_ms : ℕ

pub record ReconnectPolicy : Type 0 where
  pub ws_initial_backoff_ms : ℕ
  pub ws_max_backoff_ms : ℕ
  pub max_reconnect_attempts : Option ℕ
  pub refresh_metadata_on_reconnect : Bool
  pub reconcile_private_on_reconnect : Bool

abbrev pub u64_max : ℕ
u64_max = 18446744073709551615

abbrev pub min_ℕ : ℕ → ℕ → ℕ
min_ℕ a b = if leb a b then a else b

abbrev pub max_ℕ : ℕ → ℕ → ℕ
max_ℕ a b = if leb a b then b else a

-- `2_u64.saturating_pow(n)` and `saturating_mul`.
unfoldable pub pow_two : ℕ → ℕ
pow_two zero = 1
pow_two (suc n) = 2 * pow_two n

abbrev pub saturating_pow_two : ℕ → ℕ
saturating_pow_two n = min_ℕ (pow_two n) u64_max

abbrev pub saturating_mul : ℕ → ℕ → ℕ
saturating_mul a b = min_ℕ (a * b) u64_max

-- The delay that `rest_backoff` and `reconnect_backoff` compute alike.
unfoldable pub backoff : ℕ → ℕ → ℕ → ℕ
backoff initial_ms max_ms attempt =
    let initial : ℕ = max_ℕ initial_ms 1 in
    let cap : ℕ = max_ℕ max_ms initial in
    min_ℕ (saturating_mul initial (saturating_pow_two (min_ℕ attempt 8))) cap

unfoldable pub rest_backoff : RetryPolicy → ℕ → ℕ
unfolding backoff
rest_backoff p attempt = backoff p.rest_initial_backoff_ms p.rest_max_backoff_ms attempt

unfoldable pub reconnect_backoff : ReconnectPolicy → ℕ → ℕ
unfolding backoff
reconnect_backoff p attempt = backoff p.ws_initial_backoff_ms p.ws_max_backoff_ms attempt

abbrev pub is_transient : ErrorKind → Bool
is_transient ErrorKind.transport_error = true
is_transient ErrorKind.timeout = true
is_transient ErrorKind.temporary_unavailable = true
is_transient _ = false

abbrev pub is_retried : ErrorKind → Bool
is_retried ErrorKind.transport_error = true
is_retried ErrorKind.timeout = true
is_retried ErrorKind.rate_limited = true
is_retried ErrorKind.temporary_unavailable = true
is_retried _ = false

unfoldable pub should_reconnect : ReconnectPolicy → ℕ → MarketError → Bool
should_reconnect p attempt error =
    if is_transient error.kind
    then elim p.max_reconnect_attempts [ none ↦ true | some max ↦ ltb attempt max ]
    else false

-- What `with_rest_retries` leaves: its result, the calls of `f` that it made and what it slept.
pub record Retried (A : Type 0) : Type 0 where
  pub result : Result A
  pub calls : ℕ
  pub slept : List ℕ

abbrev pub after_call : {A : Type 0} → ℕ → Retried A → Retried A
after_call delay r = record { result = r.result; calls = suc r.calls; slept = delay ∷ r.slept }

module _ {A : Type 0} (p : RetryPolicy) (operation : Str) (f : ℕ → Result A) where
  -- The loop, with the retries that are left as fuel: `attempt` counts up to `rest_retries`. The
  -- call made at an attempt is `f` of the attempt.
  unfoldable pub retry_loop : ℕ → ℕ → Retried A
  unfolding rest_backoff
  retry_loop zero attempt = elim (f attempt) [
    | ok a ↦ record { result = ok a; calls = 1; slept = [] }
    | err e ↦ record { result = err (with_operation e operation); calls = 1; slept = [] }
  ]
  retry_loop (suc left) attempt =
      let rest = retry_loop left (suc attempt) in
      elim (f attempt) [
        | ok a ↦ record { result = ok a; calls = 1; slept = [] }
        | err e ↦
            (if is_retried e.kind
              then after_call (rest_backoff p (suc attempt)) rest
              else record { result = err (with_operation e operation); calls = 1; slept = [] })
      ]

  unfoldable pub with_rest_retries : Retried A
  unfolding retry_loop
  with_rest_retries = retry_loop p.rest_retries 0
