-- ===== src/Facade/Retry/Budget.antt =====
-- crates/bat-markets/src/runtime.rs: the bounds of the backoff and of the retries.
use bat_markets.Prelude.{
  ℕ, zero, suc, ◌+◌, ◌*◌, ◌≤◌, ◌<◌, ◌≡◌, refl, Bool, true, false, [], arith, length, Bool-cases,
  inl, inr, ◌⊎◌, subst, sym, ap,
}
use bat_markets.Prelude.Text.{Str}
use bat_markets.Core.Failure.{Result, ok, err, with_operation, Result-cases}
use bat_markets.Facade.Retry.{
  RetryPolicy, u64_max, min_ℕ, max_ℕ, pow_two, saturating_pow_two, saturating_mul, backoff,
  rest_backoff, is_retried, Retried, after_call, retry_loop, with_rest_retries,
}

ℕ-cases : (m n : ℕ) → m ≤ n → (m ≡ n) ⊎ (suc m ≤ n)
ℕ-cases m n h = ground (arith, h)

pow_two_mono : (m n : ℕ) → m ≤ n → pow_two m ≤ pow_two n
unfolding pow_two
pow_two_mono zero zero h = omega arith
pow_two_mono zero (suc n) h = omega (arith, pow_two_mono zero n (omega arith))
pow_two_mono (suc m) zero h = absurd (omega (arith, h))
pow_two_mono (suc m) (suc n) h = omega (arith, pow_two_mono m n (omega (arith, h)))

mul_mono : (a b c : ℕ) → b ≤ c → a * b ≤ a * c
mul_mono a b c h = grind (arith)

min_mono : (a b c : ℕ) → a ≤ b → min_ℕ a c ≤ min_ℕ b c
min_mono a b c h = ground (arith, h)

min-least : (a b c : ℕ) → c ≤ a → c ≤ b → c ≤ min_ℕ a b
min-least a b c h k = ground (arith, h, k)

min-le : (a b : ℕ) → min_ℕ a b ≤ b
min-le a b = ground arith

max-ge_right : (a b : ℕ) → b ≤ max_ℕ a b
max-ge_right a b = ground arith

-- The factor of an attempt.
abbrev factor : ℕ → ℕ
factor n = saturating_pow_two (min_ℕ n 8)

factor_mono : (m n : ℕ) → m ≤ n → factor m ≤ factor n
factor_mono m n h =
    min_mono (pow_two (min_ℕ m 8)) (pow_two (min_ℕ n 8)) u64_max
      (pow_two_mono (min_ℕ m 8) (min_ℕ n 8) (min_mono m n 8 h))

factor-positive : (n : ℕ) → 1 ≤ factor n
unfolding pow_two
factor-positive n =
    min-least (pow_two (min_ℕ n 8)) u64_max 1 (pow_two_mono 0 (min_ℕ n 8) (omega arith))
      (omega arith)

scaled_mono : (i m n : ℕ) → m ≤ n → saturating_mul i (factor m) ≤ saturating_mul i (factor n)
scaled_mono i m n h =
    min_mono (i * factor m) (i * factor n) u64_max
      (mul_mono i (factor m) (factor n) (factor_mono m n h))

scaled-positive : (i n : ℕ) → 1 ≤ i → 1 ≤ saturating_mul i (factor n)
scaled-positive i n h =
    min-least (i * factor n) u64_max 1
      (omega (arith, h, mul_mono i 1 (factor n) (factor-positive n))) (omega arith)

-- A delay is at least a millisecond and at most the larger of the two configured bounds, and does
-- not shrink from one attempt to a later one.
pub backoff_lem :
    (initial_ms max_ms m n : ℕ)
    → m ≤ n
    → (1 ≤ backoff initial_ms max_ms m)
      × (backoff initial_ms max_ms n ≤ max_ℕ max_ms (max_ℕ initial_ms 1))
      × (backoff initial_ms max_ms m ≤ backoff initial_ms max_ms n)
unfolding backoff
backoff_lem initial_ms max_ms m n h =
    let i : ℕ = max_ℕ initial_ms 1 in
    let cap : ℕ = max_ℕ max_ms i in
    let one : 1 ≤ i = max-ge_right initial_ms 1 in
    (
      min-least (saturating_mul i (factor m)) cap 1 (scaled-positive i m one)
          (omega (arith, one, max-ge_right max_ms i)),
      min-le (saturating_mul i (factor n)) cap,
      min_mono (saturating_mul i (factor m)) (saturating_mul i (factor n)) cap
          (scaled_mono i m n h),
    )

abbrev pub was_retried : {A : Type 0} → Result A → Bool
was_retried (ok a) = false
was_retried (err e) = is_retried e.kind

-- The result that the caller sees: an error names the operation.
abbrev pub finish : {A : Type 0} → Str → Result A → Result A
finish operation (ok a) = ok a
finish operation (err e) = err (with_operation e operation)

-- How calls that began at an attempt end: the last one gives the result, and nothing was left to
-- try, or its outcome is not one that is retried.
pub record IsEnded {A : Type 0} (operation : Str) (f : ℕ → Result A) (left attempt : ℕ)
    (r : Retried A) : Type 0 where
  pub last : ℕ
  pub is_last : attempt + r.calls ≡ suc last
  pub in_budget : r.calls ≤ suc left
  pub given : r.result ≡ finish operation (f last)
  pub settled : (was_retried (f last) ≡ false) ⊎ (r.calls ≡ suc left)
  pub one_sleep_less : suc (length r.slept) ≡ r.calls

module _ {A : Type 0} (p : RetryPolicy) (operation : Str) (f : ℕ → Result A) where
  abbrev one_call : ℕ → Retried A
  one_call attempt = record { result = finish operation (f attempt); calls = 1; slept = [] }

  one_call-IsEnded :
      (left attempt : ℕ)
      → (was_retried (f attempt) ≡ false) ⊎ (left ≡ 0)
      → IsEnded operation f left attempt (one_call attempt)
  one_call-IsEnded left attempt why = record {
    last = attempt;
    is_last = omega arith;
    in_budget = omega arith;
    given = refl;
    settled = elim why [ inl y ↦ inl y | inr z ↦ inr (omega (arith, z)) ];
    one_sleep_less = refl;
  }

  ends_at :
      (left attempt : ℕ)
      → (was_retried (f attempt) ≡ false) ⊎ (left ≡ 0)
      → retry_loop p operation f left attempt ≡ one_call attempt
  unfolding retry_loop
  ends_at zero attempt why = elim (Result-cases (f attempt)) [
    | inl (e, h) ↦ rw (h, retry_loop) refl
    | inr (a, h) ↦ rw (h, retry_loop) refl
  ]
  ends_at (suc left) attempt (inr z) = absurd (omega (arith, z))
  ends_at (suc left) attempt (inl n) = elim (Result-cases (f attempt)) [
    | inl (e, h) ↦ rw (h, retry_loop) (rw (rw h at n) refl)
    | inr (a, h) ↦ rw (h, retry_loop) refl
  ]

  goes_on :
      (left attempt : ℕ)
      → was_retried (f attempt) ≡ true
      → retry_loop p operation f (suc left) attempt
        ≡ after_call (rest_backoff p (suc attempt)) (retry_loop p operation f left (suc attempt))
  unfolding retry_loop
  goes_on left attempt y = elim (Result-cases (f attempt)) [
    | inl (e, h) ↦ rw (h, retry_loop) (rw (rw h at y) refl)
    | inr (a, h) ↦ absurd (ground (arith, y, h))
  ]

  retry_loop-IsEnded :
      (left attempt : ℕ) → IsEnded operation f left attempt (retry_loop p operation f left attempt)
  unfolding retry_loop
  retry_loop-IsEnded zero attempt =
      subst (IsEnded operation f zero attempt) (sym (ends_at zero attempt (inr refl)))
        (one_call-IsEnded zero attempt (inr refl))
  retry_loop-IsEnded (suc left) attempt = elim (Bool-cases (was_retried (f attempt))) [
    | inr n ↦
        subst (IsEnded operation f (suc left) attempt) (sym (ends_at (suc left) attempt (inl n)))
          (one_call-IsEnded (suc left) attempt (inl n))
    | inl y ↦
        let rest = retry_loop-IsEnded left (suc attempt) in
        subst (IsEnded operation f (suc left) attempt) (sym (goes_on left attempt y)) (record {
          last = rest.last;
          is_last = omega (arith, rest.is_last);
          in_budget = omega (arith, rest.in_budget);
          given = rest.given;
          settled = elim rest.settled [ inl z ↦ inl z | inr z ↦ inr (omega (arith, z)) ];
          one_sleep_less = omega (arith, rest.one_sleep_less);
        })
  ]

  -- The earlier calls were all retried.
  retry_loop-retried :
      (left attempt k : ℕ)
      → attempt ≤ k
      → suc k < attempt + (retry_loop p operation f left attempt).calls
      → was_retried (f k) ≡ true
  retry_loop-retried zero attempt k lo hi =
      absurd (omega (arith, lo, hi, ap (λ r. r.calls) (ends_at zero attempt (inr refl))))
  retry_loop-retried (suc left) attempt k lo hi = elim (Bool-cases (was_retried (f attempt))) [
    | inr n ↦ absurd (omega (arith, lo, hi, ap (λ r. r.calls) (ends_at (suc left) attempt (inl n))))
    | inl y ↦ elim (ℕ-cases attempt k lo) [
      | inl e ↦ subst (λ j. was_retried (f j) ≡ true) e y
      | inr later ↦
          retry_loop-retried left (suc attempt) k later
            (omega (arith, hi, ap (λ r. r.calls) (goes_on left attempt y)))
    ]
  ]

  -- With the configured retries the loop ends: it gives the outcome of its last call, an error with
  -- the operation's name, and stops where that is not an error that is retried or no retry is left.
  pub with_rest_retries-IsEnded :
      IsEnded operation f p.rest_retries 0 (with_rest_retries p operation f)
  unfolding with_rest_retries
  with_rest_retries-IsEnded = retry_loop-IsEnded p.rest_retries 0

  -- Every call before the last one ended with an error that is retried.
  pub with_rest_retries-retried :
      (k : ℕ) → suc k < (with_rest_retries p operation f).calls → was_retried (f k) ≡ true
  unfolding with_rest_retries
  with_rest_retries-retried k h =
      retry_loop-retried p.rest_retries 0 k (omega arith) (omega (arith, h))
