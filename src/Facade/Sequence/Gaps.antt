-- ===== src/Facade/Sequence/Gaps.antt =====
-- crates/bat-markets/src/runtime.rs: what `SequenceTracker` accepts, and that an accepted strict
-- stream has seen every number in between.
use bat_markets.Prelude.{
  ◌≡◌, refl, ◌⊎◌, inl, inr, true, false, Option, some, List, [], ◌∷◌, arith, All, any, map_option,
  ap, subst, sym, ◌∙◌,
}
use bat_markets.Prelude.Int.{
  ℤ, pos, pos_part, neg_part, ◌+ℤ◌, ◌≤ℤ◌, ◌<ℤ◌, IsI64, eqb_ℤ, wrap_i64, wrap_i64_id, int_laws,
  +ℤ_parts, eq_of_parts,
}
use bat_markets.Ord.{str_ord}
use bat_markets.OrdMap.{get}
use bat_markets.OrdMap.Laws.{get-insert_self}
use bat_markets.Facade.Sequence.{
  TopicKey, Watermark, SequenceTracker, SequenceObservation, Observed, in_order, gap, watermark_of,
  observe_after, observe, observe_all,
}

-- One more than a value that is below another `i64` does not wrap.
succ_in_range : (a b : ℤ) → IsI64 a → IsI64 b → a <ℤ b → wrap_i64 (a +ℤ pos 1) ≡ a +ℤ pos 1
succ_in_range a b ia ib h = wrap_i64_id (a +ℤ pos 1) (omega (int_laws))

-- What the tracker asks of a number that follows a watermark.
pub record Follows (w : Watermark) (v : ℤ) : Type 0 where
  pub not_below : w.value ≤ℤ v
  pub no_hole : (w.strict_gap ≡ false) ⊎ (v ≤ℤ w.value +ℤ pos 1)

-- The value of a topic's watermark.
abbrev pub mark_at : TopicKey → SequenceTracker → Option ℤ
mark_at topic m = map_option (λ w. w.value) (get topic m)

observe_after_parts :
    (w : Watermark) (o : SequenceObservation) (m : SequenceTracker)
    → get o.topic m ≡ some w
    → IsI64 o.value
    → IsI64 w.value
    → let (m', r) = observe_after (some w) o m in
      (r ≡ in_order → Follows w o.value × (mark_at o.topic m' ≡ some o.value))
      × (Follows w o.value → r ≡ in_order)
      × ((n : ℤ) → r ≡ gap n → m' ≡ m)
unfolding observe_after
observe_after_parts w o m g io iw = ground (
  arith,
  succ_in_range w.value o.value iw io,
  +ℤ_parts w.value (pos 1),
  get-insert_self o.topic (watermark_of o) m,
  eq_of_parts o.value w.value,
)

Observed-cases : (r : Observed) → (r ≡ in_order) ⊎ ((n : ℤ) × (r ≡ gap n))
Observed-cases in_order = inl refl
Observed-cases (gap n) = inr (n, refl)

gap_not_in_order : {n : ℤ} → gap n ≡ in_order → ⊥
gap_not_in_order e = cc

-- A number after a watermark is taken exactly when it is not below it and, on a strict topic, at
-- most one above it; the watermark is then that number. A refused one changes nothing.
pub observe_exact :
    (o : SequenceObservation) (m : SequenceTracker) (w : Watermark)
    → o.reset ≡ false
    → get o.topic m ≡ some w
    → IsI64 o.value
    → IsI64 w.value
    → let (m', r) = observe o m in
      ((r ≡ in_order) × Follows w o.value × (mark_at o.topic m' ≡ some o.value))
      ⊎ (((n : ℤ) × (r ≡ gap n)) × ¬ Follows w o.value × (m' ≡ m))
unfolding observe
observe_exact o m w r g io iw =
    let parts = observe_after_parts w o m g io iw in
    rw r (
      rw g (elim (Observed-cases (observe_after (some w) o m).1) [
        | inl e ↦ inl (e, (parts.0 e).0, (parts.0 e).1)
        | inr (n, e) ↦ inr ((n, e), λ f. gap_not_in_order (sym e ∙ parts.1 f), parts.2 n e)
      ]))

-- A strict observation of one topic that is no snapshot.
pub record IsStrictOn (topic : TopicKey) (o : SequenceObservation) : Type 0 where
  pub on_topic : o.topic ≡ topic
  pub strict : o.strict_gap ≡ true
  pub no_reset : o.reset ≡ false
  pub in_range : IsI64 o.value

abbrev strict_mark : ℤ → Watermark
strict_mark x = record { value = x; strict_gap = true }

observe_known :
    (o : SequenceObservation) (m : SequenceTracker) (w : Watermark)
    → o.reset ≡ false
    → get o.topic m ≡ some w
    → observe o m ≡ observe_after (some w) o m
unfolding observe
observe_known o m w r g = rw r (rw g refl)

strict_after :
    (o : SequenceObservation) (m : SequenceTracker) (x : ℤ)
    → o.strict_gap ≡ true
    → IsI64 o.value
    → get o.topic m ≡ some (strict_mark x)
    → IsI64 x
    → (observe_after (some (strict_mark x)) o m).1 ≡ in_order
    → (get o.topic (observe_after (some (strict_mark x)) o m).0 ≡ some (strict_mark o.value))
      × (x ≤ℤ o.value)
      × (o.value ≤ℤ x +ℤ pos 1)
unfolding observe_after
strict_after o m x strict io g ix e = ground (
  arith,
  succ_in_range x o.value ix io,
  +ℤ_parts x (pos 1),
  get-insert_self o.topic (watermark_of o) m,
  eq_of_parts o.value x,
)

-- A strict observation that is taken leaves a strict watermark at its number.
strict_step :
    (o : SequenceObservation) (m : SequenceTracker) (x : ℤ)
    → IsStrictOn o.topic o
    → get o.topic m ≡ some (strict_mark x)
    → IsI64 x
    → (observe o m).1 ≡ in_order
    → (get o.topic (observe o m).0 ≡ some (strict_mark o.value))
      × (x ≤ℤ o.value)
      × (o.value ≤ℤ x +ℤ pos 1)
strict_step o m x h g ix e =
    let same : observe o m ≡ observe_after (some (strict_mark x)) o m =
      observe_known o m (strict_mark x) h.no_reset g in
    rw same (strict_after o m x h.strict h.in_range g ix (rw same at e))

step_on :
    (topic : TopicKey) (o : SequenceObservation) (m : SequenceTracker) (x : ℤ)
    → IsStrictOn topic o
    → get topic m ≡ some (strict_mark x)
    → IsI64 x
    → (observe o m).1 ≡ in_order
    → (get topic (observe o m).0 ≡ some (strict_mark o.value))
      × (x ≤ℤ o.value)
      × (o.value ≤ℤ x +ℤ pos 1)
step_on topic o m x h g ix e =
    let own : get o.topic m ≡ some (strict_mark x) =
      subst (λ t. get t m ≡ some (strict_mark x)) (sym h.on_topic) g in
    let step =
      strict_step o m x
        (record {
          on_topic = refl;
          strict = h.strict;
          no_reset = h.no_reset;
          in_range = h.in_range;
        })
        own ix e in
    (
      subst (λ t. get t (observe o m).0 ≡ some (strict_mark o.value)) h.on_topic step.0,
      step.1,
      step.2,
    )

-- A strict stream of one topic that is accepted has seen every number above the watermark that it
-- began at, up to the one that it ends at, and ends at no smaller number.
pub observe_all_gapless :
    (topic : TopicKey) (os : List SequenceObservation) (m : SequenceTracker) (x f n : ℤ)
    → get topic m ≡ some (strict_mark x)
    → IsI64 x
    → All (IsStrictOn topic) os
    → (observe_all os m).1 ≡ in_order
    → mark_at topic (observe_all os m).0 ≡ some f
    → x <ℤ n
    → n ≤ℤ f
    → (x ≤ℤ f) × (any (λ o. eqb_ℤ o.value n) os ≡ true)
unfolding observe_all
observe_all_gapless topic [] m x f n g ix hs e ef lo hi =
    let same : x ≡ f = ground arith in absurd (omega (arith, ap pos_part same, ap neg_part same))
observe_all_gapless topic (o ∷ os) m x f n g ix hs e ef lo hi =
    elim (Observed-cases (observe o m).1) [
      | inr (k, h) ↦ absurd (gap_not_in_order (rw (h, observe_all) at e))
      | inl h ↦
          let step = step_on topic o m x hs.0 g ix h in
          let rest =
            observe_all_gapless topic os (observe o m).0 o.value f n step.0 hs.0.in_range hs.1
              (rw (h, observe_all) at e) (rw (h, observe_all) at ef) in
          ground (arith, step.1, step.2, +ℤ_parts x (pos 1), eq_of_parts o.value n, rest)
    ]
