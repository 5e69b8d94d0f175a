-- ===== src/Facade/Session/Reconnects.antt =====
-- crates/bat-markets/src/runtime.rs: `run_public_stream`, the loop that runs a public stream again
-- after an error that passes.
use bat_markets.Prelude.{
  ℕ, zero, suc, ◌+◌, ◌≤◌, ◌<◌, ◌≡◌, ◌≢◌, ◌⊎◌, refl, true, false, some, List, [], ◌∷◌, length, arith,
  inl, inr, Bool-cases, if◌then◌else◌, subst,
}
use bat_markets.Core.Numeric.{DecimalOps}
use bat_markets.Core.Instrument.{InstrumentSpec}
use bat_markets.Core.Failure.{MarketError, Result, ok, err}
use bat_markets.Core.Engine.Private
use bat_markets.Facade.Hub.{PublicSubscription}
use bat_markets.Facade.Retry.{ReconnectPolicy, should_reconnect, reconnect_backoff, is_transient}
use bat_markets.Facade.Sequence.{SequenceTracker}
use bat_markets.Facade.Shared.{SharedState, write}
use bat_markets.Facade.Session.{Turn, Reader, Progress, going, ended, turns, refresh_metadata}

-- How the loop stands: it has returned, or its stream is open, or the fuel for its attempts is out.
pub data Standing : Type 0 where
  returned : Result (Unit {0}) → Standing
  open_at : ℕ → Standing
  out_of_fuel : Standing

-- The loop's end, the streams it has run, and what it slept before each attempt after the first.
pub record Streamed (D : Type 0) : Type 0 where
  pub standing : Standing
  pub shared : SharedState D
  pub streams : ℕ
  pub slept : List ℕ

Ending-cases :
    {D : Type 0} (p : Progress D)
    → ((s : SharedState D) × (t : SequenceTracker) × (p ≡ going s t))
      ⊎ ((s : SharedState D) × (done : Unit {0}) × (p ≡ ended s (ok done)))
      ⊎ ((s : SharedState D) × (e : MarketError) × (p ≡ ended s (err e)))
Ending-cases (going s t) = inl (s, t, refl)
Ending-cases (ended s (ok done)) = inr (inl (s, done, refl))
Ending-cases (ended s (err e)) = inr (inr (s, e, refl))

module _ {D P : Type 0} (dec : DecimalOps D) (r : Reader D P) (subscription : PublicSubscription)
    (policy : ReconnectPolicy) (feed : ℕ → List (Turn D P))
    (metadata : ℕ → Result (List (InstrumentSpec D))) where
  -- What precedes the next attempt.
  unfoldable pub before_attempt : ℕ → SharedState D → SharedState D
  unfolding write refresh_metadata
  before_attempt attempt s =
      let marked =
        (write (λ state. (Private.mark_reconnect (Private.mark_public_disconnect state), tt))
          s).0 in
      if policy.refresh_metadata_on_reconnect
      then refresh_metadata (metadata attempt) marked
      else marked

  abbrev pub stopped : Standing → SharedState D → Streamed D
  stopped standing s = record { standing = standing; shared = s; streams = 1; slept = [] }

  abbrev pub after_attempt : ℕ → Streamed D → Streamed D
  after_attempt delay run = record {
    standing = run.standing;
    shared = run.shared;
    streams = suc run.streams;
    slept = delay ∷ run.slept;
  }

  -- The loop from an attempt on, with fuel for the streams. Each stream starts its own tracker, and
  -- `feed` gives what it reads.
  unfoldable pub stream_loop : ℕ → ℕ → SharedState D → Streamed D
  unfolding turns should_reconnect reconnect_backoff before_attempt
  stream_loop zero attempt s = record {
    standing = out_of_fuel;
    shared = s;
    streams = 0;
    slept = [];
  }
  stream_loop (suc fuel) attempt s = elim (turns dec r subscription (feed attempt) s []) [
    | going after tracker ↦ stopped (open_at attempt) after
    | ended after (ok done) ↦ stopped (returned (ok done)) after
    | ended after (err e) ↦
        let next = stream_loop fuel (suc attempt) (before_attempt (suc attempt) after) in
        if should_reconnect policy attempt e
        then after_attempt (reconnect_backoff policy (suc attempt)) next
        else stopped (returned (err e)) after
  ]

  -- The loop has returned with the end of its last stream, or waits for an open one. It ran at most
  -- one stream more than attempts were left, slept between two of them each, and returns an error
  -- only if the error does not pass, or no attempt is left.
  pub record IsEnded (left attempt : ℕ) (run : Streamed D) : Type 0 where
    pub in_fuel : run.standing ≢ out_of_fuel
    pub in_budget : run.streams ≤ suc left
    pub rests : suc (length run.slept) ≡ run.streams
    pub last_error :
        (e : MarketError)
        → run.standing ≡ returned (err e)
        → (is_transient e.kind ≡ false) ⊎ (run.streams ≡ suc left)

  stopped-IsEnded :
      (left attempt : ℕ) (standing : Standing) (s : SharedState D)
      → standing ≢ out_of_fuel
      → ((e : MarketError)
          → standing ≡ returned (err e)
          → (is_transient e.kind ≡ false) ⊎ (left ≡ 0))
      → IsEnded left attempt (stopped standing s)
  stopped-IsEnded left attempt standing s f why = record {
    in_fuel = f;
    in_budget = omega arith;
    rests = refl;
    last_error = λ e h. elim (why e h) [ inl n ↦ inl n | inr z ↦ inr (omega (arith, z)) ];
  }

  after-IsEnded :
      (left attempt delay : ℕ) (run : Streamed D)
      → IsEnded left (suc attempt) run
      → IsEnded (suc left) attempt (after_attempt delay run)
  after-IsEnded left attempt delay run h = record {
    in_fuel = h.in_fuel;
    in_budget = omega (arith, h.in_budget);
    rests = omega (arith, h.rests);
    last_error = λ e k. elim (h.last_error e k) [ inl n ↦ inl n | inr z ↦ inr (omega (arith, z)) ];
  }

  reconnect_room :
      (attempt max : ℕ) (e : MarketError)
      → policy.max_reconnect_attempts ≡ some max
      → should_reconnect policy attempt e ≡ true
      → attempt < max
  unfolding should_reconnect
  reconnect_room attempt max e m h = ground arith

  reconnect_refused :
      (attempt max : ℕ) (e : MarketError)
      → policy.max_reconnect_attempts ≡ some max
      → should_reconnect policy attempt e ≡ false
      → (is_transient e.kind ≡ false) ⊎ (max ≤ attempt)
  unfolding should_reconnect
  reconnect_refused attempt max e m h = ground arith

  -- The delay before the attempt after this one.
  abbrev delay_after : ℕ → ℕ
  delay_after attempt = reconnect_backoff policy (suc attempt)

  step-IsEnded :
      (left attempt max : ℕ) (s : SharedState D)
      → policy.max_reconnect_attempts ≡ some max
      → attempt + left ≡ max
      → ((t : SharedState D)
          → attempt < max
          → IsEnded left attempt
              (after_attempt (delay_after attempt) (stream_loop left (suc attempt) t)))
      → IsEnded left attempt (stream_loop (suc left) attempt s)
  unfolding stream_loop
  step-IsEnded left attempt max s m b goes =
      elim (Ending-cases (turns dec r subscription (feed attempt) s [])) [
        | inl (after, tracker, g) ↦
            rw (g, stream_loop)
              (stopped-IsEnded left attempt (open_at attempt) after (λ h. cc) (λ e h. absurd (cc)))
        | inr (inl (after, done, g)) ↦
            rw (g, stream_loop)
              (stopped-IsEnded left attempt (returned (ok done)) after (λ h. cc)
                (λ e h. absurd (cc)))
        | inr (inr (after, e, g)) ↦ elim (Bool-cases (should_reconnect policy attempt e)) [
          | inr n ↦
              rw (g, stream_loop, n)
                (stopped-IsEnded left attempt (returned (err e)) after (λ h. cc)
                  (λ f h.
                    let same : e ≡ f = cc in
                    elim (reconnect_refused attempt max e m n) [
                      | inl t ↦ inl (subst (λ x. is_transient x.kind ≡ false) same t)
                      | inr over ↦ inr (omega (arith, b, over))
                    ]))
          | inl y ↦
              rw (g, stream_loop, y)
                (goes (before_attempt (suc attempt) after) (reconnect_room attempt max e m y))
        ]
      ]

  stream_loop-IsEnded :
      (left attempt max : ℕ) (s : SharedState D)
      → policy.max_reconnect_attempts ≡ some max
      → attempt + left ≡ max
      → IsEnded left attempt (stream_loop (suc left) attempt s)
  stream_loop-IsEnded zero attempt max s m b =
      step-IsEnded zero attempt max s m b (λ t room. absurd (omega (arith, b, room)))
  stream_loop-IsEnded (suc left) attempt max s m b =
      step-IsEnded (suc left) attempt max s m b (λ t room.
        after-IsEnded left attempt (delay_after attempt) (stream_loop (suc left) (suc attempt) t)
          (stream_loop-IsEnded left (suc attempt) max t m (omega (arith, b))))

  -- `run_public_stream` with a bound on its attempts: one stream more than there are attempts is
  -- fuel enough.
  unfoldable pub run_public_stream : ℕ → SharedState D → Streamed D
  unfolding stream_loop
  run_public_stream max s = stream_loop (suc max) 0 s

  -- With a bound on the attempts the loop returns or waits for an open stream: it has run at most
  -- one stream more than the bound, slept once between two of them, and it returns an error only if
  -- the error does not pass or all attempts are spent.
  pub run_public_stream-IsEnded :
      (max : ℕ) (s : SharedState D)
      → policy.max_reconnect_attempts ≡ some max
      → IsEnded max 0 (run_public_stream max s)
  unfolding run_public_stream
  run_public_stream-IsEnded max s m = stream_loop-IsEnded max 0 max s m (omega arith)
