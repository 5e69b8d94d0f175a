-- ===== src/Facade/Shared/Batches.antt =====
-- crates/bat-markets/src/client.rs: a batch of public events is applied whole, or not at all.
use bat_markets.Prelude.{
  ◌≡◌, ◌⊎◌, ◌∙◌, refl, List, [], ◌∷◌, ◌++◌, All, arith, inl, inr, ap, sym, append_nil,
}
use bat_markets.Ord.{str_ord}
use bat_markets.Core.Numeric.{DecimalOps}
use bat_markets.Core.Failure.{MarketError, Result, ok, err, config_error, Result-cases}
use bat_markets.Core.Execution.{DivergenceEvent, PublicLaneEvent}
use bat_markets.Core.Engine.{EngineState}
use bat_markets.Core.Engine.Public.{
  apply_public_event, apply_fast_ticker, apply_fast_trade, apply_fast_book_top, apply_fast_kline,
  apply_fast_mark_price, apply_fast_liquidation, apply_public_divergence,
}
use bat_markets.Core.Engine.Read.{instrument_specs}
use bat_markets.Core.Engine.Filed.{IsFiled}
use bat_markets.Core.Engine.Ingest.{apply_public_event_listed, scaled_by, is_listed, IsRefused}
use bat_markets.Facade.Shared.{
  SharedState, check_events, fallible_public_event_instrument_id, unknown_public_event_error,
  apply_each, apply_checked, share_public_events, write,
}
use bat_markets.Facade.Shared.Listed.{IsListed, scaled_lem, listed_same, check_one_cases}
use bat_markets.Facade.Shared.Outcomes.{write_nothing, write_done, announce_done}

module _ {D : Type 0} (dec : DecimalOps D) where
  -- An event leaves the listed instruments as they were.
  instruments_after :
      (e : PublicLaneEvent D) (s : EngineState D)
      → (apply_public_event dec e s).0.instruments ≡ s.instruments
  unfolding apply_public_event apply_fast_ticker apply_fast_trade apply_fast_book_top
      apply_fast_kline apply_fast_mark_price apply_fast_liquidation apply_public_divergence
  instruments_after (PublicLaneEvent.ticker t) s = ground arith
  instruments_after (PublicLaneEvent.divergence DivergenceEvent.reconcile_required) s = refl
  instruments_after (PublicLaneEvent.divergence (DivergenceEvent.sequence_gap at)) s = refl
  instruments_after (PublicLaneEvent.divergence DivergenceEvent.state_divergence) s = refl
  instruments_after e s = ground arith

  All-IsListed :
      (es : List (PublicLaneEvent D)) (s t : EngineState D)
      → t.instruments ≡ s.instruments
      → All (IsListed s) es
      → All (IsListed t) es
  All-IsListed [] s t h a = tt
  All-IsListed (e ∷ es) s t h a =
      (sym (listed_same (scaled_by e) s t h) ∙ a.0, All-IsListed es s t h a.1)

  apply_each-listed :
      (es : List (PublicLaneEvent D)) (s : EngineState D)
      → All (IsListed s) es
      → (apply_each dec es s).1 ≡ ok tt
  unfolding apply_each
  apply_each-listed [] s h = refl
  apply_each-listed (e ∷ es) s h = elim (apply_public_event_listed dec e s) [
    | inl (listed, taken) ↦
        rw (taken, apply_each)
          (apply_each-listed es (apply_public_event dec e s).0
            (All-IsListed es s _ (instruments_after e s) h.1))
    | inr (missing, refused) ↦ absurd (ground (arith, h.0, missing))
  ]

  checked :
      (es : List (PublicLaneEvent D)) (s : EngineState D)
      → IsFiled s
      → ((check_events s es ≡ ok tt) × All (IsListed s) es)
        ⊎ ((e : MarketError) × (check_events s es ≡ err e)
            × (e.kind ≡ config_error)
            × ¬ All (IsListed s) es)
  unfolding check_events instrument_specs unknown_public_event_error
  checked [] s f = inl (refl, tt)
  checked (e ∷ es) s f =
      elim (check_one_cases (fallible_public_event_instrument_id e) s (check_events s es) f) [
        | inr (missing, (error, refused, kind)) ↦
            inr (error, refused, kind, λ h. ground (arith, h.0, missing, scaled_lem e))
        | inl (listed, goes_on) ↦ elim (checked es s f) [
          | inl (passed, all) ↦
              inl (goes_on ∙ passed, (ap (λ id. is_listed id s) (sym (scaled_lem e)) ∙ listed, all))
          | inr (error, refused, kind, none_listed) ↦
              inr (error, goes_on ∙ refused, kind, λ h. none_listed h.1)
        ]
      ]

  -- The state after a batch of which every event is taken, each on the state that the one before it
  -- leaves.
  abbrev pub taken : List (PublicLaneEvent D) → EngineState D → EngineState D
  taken [] s = s
  taken (e ∷ es) s = taken es (apply_public_event dec e s).0

  apply_each-taken :
      (es : List (PublicLaneEvent D)) (s : EngineState D)
      → (apply_each dec es s).1 ≡ ok tt
      → (apply_each dec es s).0 ≡ taken es s
  unfolding apply_each
  apply_each-taken [] s h = refl
  apply_each-taken (e ∷ es) s h = elim (Result-cases (apply_public_event dec e s).1) [
    | inl (f, failed) ↦ absurd (ground (arith, failed, h))
    | inr (done, passed) ↦
        rw (passed, apply_each)
          (apply_each-taken es (apply_public_event dec e s).0 (rw (passed, apply_each) at h))
  ]

  refused_shape :
      (s : EngineState D) (o : EngineState D × Result (Unit {0}))
      → IsRefused s o
      → (f : MarketError) × (o ≡ (s, err f)) × (f.kind ≡ config_error)
  refused_shape s (t, ok done) h = absurd h
  refused_shape s (t, err f) h = (f, ap (λ t. (t, err f)) h.0, h.1)

  one_refused :
      (e : PublicLaneEvent D) (s : EngineState D) (f : MarketError)
      → apply_public_event dec e s ≡ (s, err f)
      → apply_each dec (e ∷ []) s ≡ (s, err f)
  unfolding apply_each
  one_refused e s f h = rw (ap (λ x. x.1) h, apply_each, ap (λ x. x.0) h) refl

  each_applied :
      (es : List (PublicLaneEvent D)) (s : EngineState D)
      → All (IsListed s) es
      → apply_each dec es s ≡ (taken es s, ok tt)
  each_applied es s h =
      let passed = apply_each-listed es s h in
      ap (λ r. ((apply_each dec es s).0, r)) passed
      ∙ ap (λ t. (t, ok tt)) (apply_each-taken es s passed)

  -- The closure of a batch: all of it, or the state as it was.
  apply_checked_cases :
      (e : PublicLaneEvent D) (es : List (PublicLaneEvent D)) (s : EngineState D)
      → IsFiled s
      → (All (IsListed s) (e ∷ es) × (apply_checked dec (e ∷ es) s ≡ (taken (e ∷ es) s, ok tt)))
        ⊎ ((¬ All (IsListed s) (e ∷ es))
            × ((f : MarketError) × (apply_checked dec (e ∷ es) s ≡ (s, err f))
                × (f.kind ≡ config_error)))
  unfolding apply_checked apply_each
  apply_checked_cases e [] s f = elim (apply_public_event_listed dec e s) [
    | inl (listed, taken) ↦ inl ((listed, tt), each_applied (e ∷ []) s (listed, tt))
    | inr (missing, refused) ↦
        let (failure, shape, kind) = refused_shape s (apply_public_event dec e s) refused in
        inr (λ h. ground (arith, h.0, missing), (failure, one_refused e s failure shape, kind))
  ]
  apply_checked_cases d (e ∷ es) s f = elim (checked (d ∷ e ∷ es) s f) [
    | inl (passed, all) ↦ inl (all, rw (passed, apply_checked) (each_applied (d ∷ e ∷ es) s all))
    | inr (error, refused, kind, missing) ↦
        inr (missing, (error, rw (refused, apply_checked) refl, kind))
  ]

-- On a filed state, if each event of a batch needs no scales or is of a listed instrument, every one
-- is applied, in order, each to the state that the one before it leaves, and all are announced; else
-- the batch fails with a configuration error, and neither the state nor any channel has seen any
-- event of it.
pub share_public_events_lem :
    {D : Type 0} (dec : DecimalOps D) (es : List (PublicLaneEvent D)) (s : SharedState D)
    → IsFiled s.state
    → let (after, result) = share_public_events dec es s in
      (All (IsListed s.state) es
        × (result ≡ ok tt)
        × (after.state ≡ taken dec es s.state)
        × (after.public_events ≡ s.public_events ++ es))
      ⊎ ((¬ All (IsListed s.state) es)
          × ((e : MarketError) × (result ≡ err e) × (e.kind ≡ config_error))
          × (after ≡ s))
unfolding share_public_events
share_public_events_lem dec [] s f = inl (tt, refl, refl, sym (append_nil s.public_events))
share_public_events_lem dec (e ∷ es) s f = elim (apply_checked_cases dec e es s.state f) [
  | inl (all, applied) ↦
      let (done, state, sent) = write_done (apply_checked dec (e ∷ es)) s _ applied in
      let shape = announce_done (e ∷ es) (write (apply_checked dec (e ∷ es)) s) done in
      inl (
        all,
        ap (λ x. x.1) shape,
        ap (λ x. x.0.state) shape ∙ state,
        ap (λ x. x.0.public_events) shape ∙ ap (λ x. x ++ e ∷ es) sent,
      )
  | inr (missing, (error, refused, kind)) ↦
      let same = write_nothing (apply_checked dec (e ∷ es)) s error refused in
      inr (
        missing,
        (error, rw (same, share_public_events) refl, kind),
        rw (same, share_public_events) refl,
      )
]
