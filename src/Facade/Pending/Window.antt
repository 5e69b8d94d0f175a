-- ===== src/Facade/Pending/Window.antt =====
-- crates/bat-markets/src/runtime.rs: the bounds of the history repair window.
use bat_markets.Prelude.{
  ◌≡◌, refl, true, Option, some, [], ◌∷◌, arith, ◌⊎◌, inl, inr, Option-cases, is_some, Bool-cases,
}
use bat_markets.Prelude.Int.{ℤ, IsI64, ◌≤ℤ◌, leb_ℤ, min_ℤ, max_ℤ, saturating_sub_i64, -ℤ_parts}
use bat_markets.Facade.Pending.{
  min_known, repair_window_start_ms, history_repair_rewind_ms, history_repair_max_lookback_ms,
}

-- One of the three times that date local evidence.
abbrev pub IsKnown : ℤ → Option ℤ → Option ℤ → Option ℤ → Type 0
IsKnown t a b c = (a ≡ some t) ⊎ (b ≡ some t) ⊎ (c ≡ some t)

min_known-le :
    (t m : ℤ) (a b c : Option ℤ) → IsKnown t a b c → min_known (a ∷ b ∷ c ∷ []) ≡ some m → m ≤ℤ t
unfolding min_known
min_known-le t m a b c h e = ground arith

min_known-some :
    (t : ℤ) (a b c : Option ℤ) → IsKnown t a b c → is_some (min_known (a ∷ b ∷ c ∷ [])) ≡ true
unfolding min_known
min_known-some t a b c h = ground arith

abbrev lower_bound : ℤ → ℤ
lower_bound now = saturating_sub_i64 now history_repair_max_lookback_ms

-- The start that an anchor gives.
abbrev start_from : ℤ → ℤ → ℤ
start_from now anchor =
    min_ℤ (max_ℤ (saturating_sub_i64 anchor history_repair_rewind_ms) (lower_bound now)) now

saturating_sub_mono : (a b c : ℤ) → a ≤ℤ b → saturating_sub_i64 a c ≤ℤ saturating_sub_i64 b c
unfolding saturating_sub_i64
saturating_sub_mono a b c h = ground (arith, -ℤ_parts a c, -ℤ_parts b c)

lower_bound-le : (now : ℤ) → IsI64 now → lower_bound now ≤ℤ now
unfolding saturating_sub_i64
lower_bound-le now h = ground (arith, -ℤ_parts now history_repair_max_lookback_ms)

start_from_lem :
    (now t anchor : ℤ)
    → IsI64 now
    → anchor ≤ℤ t
    → let s = start_from now anchor in
      (s ≤ℤ now)
      × (lower_bound now ≤ℤ s)
      × ((s ≤ℤ saturating_sub_i64 t history_repair_rewind_ms) ⊎ (s ≡ lower_bound now))
start_from_lem now t anchor h le =
    let a : ℤ = saturating_sub_i64 anchor history_repair_rewind_ms in
    let low = lower_bound-le now h in
    let mono = saturating_sub_mono anchor t history_repair_rewind_ms le in
    (
      ground arith,
      ground (arith, low),
      elim (Bool-cases (leb_ℤ a (lower_bound now))) [
        | inl y ↦ inr (rw y (ground (arith, low)))
        | inr n ↦ inl (rw n (ground (arith, mono)))
      ],
    )

window_from :
    (now : ℤ) (o e f p : Option ℤ) (m : ℤ)
    → min_known (o ∷ e ∷ p ∷ []) ≡ some m
    → repair_window_start_ms now o e f p ≡ some (start_from now m)
unfolding repair_window_start_ms
window_from now o e f p m n = rw (n, repair_window_start_ms) refl

-- With a known time there is a window. It begins no later than now and no earlier than the lookback
-- before now, and, unless that cuts it, at least the rewind before every known time; `i64` values
-- saturate.
pub repair_window_start_ms_lem :
    (now t : ℤ) (latest_order latest_execution fallback oldest_pending : Option ℤ)
    → IsI64 now
    → IsKnown t latest_order latest_execution oldest_pending
    → (s : ℤ) × (repair_window_start_ms now latest_order latest_execution fallback oldest_pending
        ≡ some s)
      × (s ≤ℤ now)
      × (saturating_sub_i64 now history_repair_max_lookback_ms ≤ℤ s)
      × ((s ≤ℤ saturating_sub_i64 t history_repair_rewind_ms)
          ⊎ (s ≡ saturating_sub_i64 now history_repair_max_lookback_ms))
repair_window_start_ms_lem now t o e f p h k = elim (Option-cases (min_known (o ∷ e ∷ p ∷ []))) [
  | inl n ↦ absurd (ground (arith, min_known-some t o e p k))
  | inr (m, n) ↦
      let facts = start_from_lem now t m h (min_known-le t m o e p k n) in
      (start_from now m, window_from now o e f p m n, facts.0, facts.1, facts.2)
]
