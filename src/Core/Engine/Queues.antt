-- ===== src/Core/Engine/Queues.antt =====
-- crates/bat-markets-core/src/state.rs: the bounded queues, and the list of fills without repeats.
use bat_markets.Prelude.{
  ℕ, suc, ◌-◌, ◌≤◌, ◌<◌, min, ◌≡◌, refl, Bool, false, some, List, [], ◌∷◌, ◌++◌, arith, ltb, length,
  any, any-append, Bool-cases, ltb→lt, inl, inr,
}
use bat_markets.Ord.{◌===◌, str_ord}
use bat_markets.Core.Types.{TradeId}
use bat_markets.Core.Trade.{Execution}
use bat_markets.Core.Engine.{trim_front, push_bounded, record_execution, back}

module _ {ℓ} {A : Type ℓ} where
  -- The last `n` elements, counted from the end.
  unfoldable pub drop_front : ℕ → List A → List A
  drop_front ℕ.zero xs = xs
  drop_front (suc n) [] = []
  drop_front (suc n) (x ∷ xs) = drop_front n xs

  pub length-trim_front : (cap : ℕ) (xs : List A) → length (trim_front cap xs) ≡ min cap (length xs)
  unfolding trim_front
  length-trim_front cap [] = omega arith
  length-trim_front cap (x ∷ xs) = ground (arith, length-trim_front cap xs)

  -- The loop drops exactly the oldest entries over the capacity.
  pub trim_front-drop :
      (cap : ℕ) (xs : List A) → trim_front cap xs ≡ drop_front (length xs - cap) xs
  unfolding trim_front drop_front
  trim_front-drop cap [] = let none_over : 0 - cap ≡ 0 = omega arith in rw none_over refl
  trim_front-drop cap (x ∷ xs) = elim (Bool-cases (ltb cap (suc (length xs)))) [
    | inl over ↦
        let step : suc (length xs) - cap ≡ suc (length xs - cap) =
          omega (arith, ltb→lt cap (suc (length xs)) over) in
        rw over (rw step (trim_front-drop cap xs))
    | inr fits ↦
        let none_over : suc (length xs) - cap ≡ 0 = ground arith in rw fits (rw none_over refl)
  ]

  pub length-push_bounded : (cap : ℕ) (x : A) (xs : List A) → length (push_bounded cap x xs) ≤ cap
  unfolding push_bounded
  length-push_bounded cap x xs = omega (arith, length-trim_front cap (xs ++ x ∷ []))

  pub back-append : (x : A) (xs : List A) → back (xs ++ x ∷ []) ≡ some x
  unfolding back
  back-append x [] = refl
  back-append x (y ∷ []) = refl
  back-append x (y ∷ z ∷ zs) = back-append x (z ∷ zs)

  pub back-trim_front : (cap : ℕ) (xs : List A) → 0 < cap → back (trim_front cap xs) ≡ back xs
  unfolding trim_front back
  back-trim_front cap [] h = refl
  back-trim_front cap (x ∷ []) h = ground arith
  back-trim_front cap (x ∷ y ∷ ys) h = ground (arith, back-trim_front cap (y ∷ ys) h)

  -- With room for one entry the newest entry is the one just pushed.
  pub back-push_bounded :
      (cap : ℕ) (x : A) (xs : List A) → 0 < cap → back (push_bounded cap x xs) ≡ some x
  unfolding push_bounded
  back-push_bounded cap x xs h = rw (back-trim_front cap (xs ++ x ∷ []) h) (back-append x xs)

module _ {D : Type 0} where
  abbrev pub has_id : TradeId → List (Execution D) → Bool
  has_id id es = any (λ x. x.execution_id === id) es

  -- No two fills carry one id.
  abbrev pub IsUnique : List (Execution D) → Type 0
  IsUnique [] = Unit
  IsUnique (e ∷ es) = (has_id e.execution_id es ≡ false) × IsUnique es

  trim_front-IsUnique :
      (cap : ℕ) (es : List (Execution D)) → IsUnique es → IsUnique (trim_front cap es)
  unfolding trim_front
  trim_front-IsUnique cap [] u = tt
  trim_front-IsUnique cap (e ∷ es) u = ground (arith, trim_front-IsUnique cap es u.1)

  append-IsUnique :
      (e : Execution D) (es : List (Execution D))
      → has_id e.execution_id es ≡ false
      → IsUnique es
      → IsUnique (es ++ e ∷ [])
  append-IsUnique e [] h u = (refl, tt)
  append-IsUnique e (x ∷ xs) h u = ground (
    arith,
    append-IsUnique e xs,
    any-append (λ (y : Execution D). y.execution_id === x.execution_id) xs (e ∷ []),
    str_ord.cmp_flip x.execution_id e.execution_id,
    str_ord.cmp_iff x.execution_id e.execution_id,
    str_ord.cmp_iff e.execution_id x.execution_id,
  )

  pub record_execution-IsUnique :
      (cap : ℕ) (e : Execution D) (es : List (Execution D))
      → IsUnique es
      → IsUnique (record_execution cap e es)
  unfolding record_execution
  record_execution-IsUnique cap e es u =
      ground (arith, append-IsUnique e es, trim_front-IsUnique cap (es ++ e ∷ []))

  pub length-record_execution :
      (cap : ℕ) (e : Execution D) (es : List (Execution D))
      → length es ≤ cap
      → length (record_execution cap e es) ≤ cap
  unfolding record_execution
  length-record_execution cap e es h = ground (arith, length-trim_front cap (es ++ e ∷ []))
