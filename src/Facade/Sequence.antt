-- ===== src/Facade/Sequence.antt =====
-- crates/bat-markets/src/runtime.rs: `SequenceTracker`, which finds gaps in a stream's numbers.
pub mod Gaps
use bat_markets.Prelude.{Bool, true, false, ◌&&◌, Option, none, some, List, [], ◌∷◌, if◌then◌else◌}
use bat_markets.Prelude.Int.{ℤ, pos, ◌+ℤ◌, ltb_ℤ, eqb_ℤ, wrap_i64}
use bat_markets.Prelude.Text.{Str}
use bat_markets.Ord.{str_ord}
use bat_markets.OrdMap.{OrdMap, get, insert}

abbrev pub TopicKey : Type 0
TopicKey = Str

pub record Watermark : Type 0 where
  pub value : ℤ
  pub strict_gap : Bool

-- `SequenceTracker` is its map of watermarks.
abbrev pub SequenceTracker : Type 0
SequenceTracker = OrdMap TopicKey Watermark

pub record SequenceObservation : Type 0 where
  pub topic : TopicKey
  pub value : ℤ
  pub strict_gap : Bool
  pub reset : Bool

-- `Ok(())`, or `Err` with the number near which the gap is.
pub data Observed : Type 0 where
  in_order : Observed
  gap : ℤ → Observed

abbrev pub watermark_of : SequenceObservation → Watermark
watermark_of o = record { value = o.value; strict_gap = o.strict_gap }

-- The `match` on the watermark that the topic has.
unfoldable pub observe_after :
    Option Watermark → SequenceObservation → SequenceTracker → SequenceTracker × Observed
observe_after none o m = (insert o.topic (watermark_of o) m, in_order)
observe_after (some w) o m =
    if eqb_ℤ o.value w.value
    then (m, in_order)
    else if ltb_ℤ o.value w.value
    then (m, gap o.value)
    else if w.strict_gap && ltb_ℤ (wrap_i64 (w.value +ℤ pos 1)) o.value
    then (m, gap (wrap_i64 (w.value +ℤ pos 1)))
    else (insert o.topic (watermark_of o) m, in_order)

-- `SequenceTracker::observe`; the increment is that of `i64` and wraps.
unfoldable pub observe : SequenceObservation → SequenceTracker → SequenceTracker × Observed
unfolding observe_after
observe o m =
    if o.reset
    then (insert o.topic (watermark_of o) m, in_order)
    else observe_after (get o.topic m) o m

-- The observations of a stream, up to the first gap, at which the stream is torn down.
unfoldable pub observe_all : List SequenceObservation → SequenceTracker → SequenceTracker × Observed
unfolding observe
observe_all [] m = (m, in_order)
observe_all (o ∷ os) m =
    let rest = observe_all os (observe o m).0 in
    elim (observe o m).1 [ in_order ↦ rest | gap at ↦ ((observe o m).0, gap at) ]
