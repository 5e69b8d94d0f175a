-- ===== src/Core/Engine/Tape.antt =====
-- crates/bat-markets-core/src/state.rs: the queue of an instrument's trades against the whole tape
-- of its trades.
use bat_markets.Prelude.{
  ℕ, ◌-◌, ◌<◌, ◌≡◌, ◌∙◌, refl, true, false, some, List, [], ◌∷◌, ◌++◌, arith, ap, sym, length,
  length-append, unwrap_or, if◌then◌else◌, Bool-cases, Option-cases, inl, inr,
}
use bat_markets.Ord.{◌===◌, str_ord}
use bat_markets.OrdMap.{get}
use bat_markets.Core.Types.{InstrumentId}
use bat_markets.Core.Numeric.{DecimalOps}
use bat_markets.Core.Instrument.{InstrumentSpec}
use bat_markets.Core.Market.{FastTrade, TradeTick, unify_trade}
use bat_markets.Core.Execution.{PublicLaneEvent, DivergenceEvent}
use bat_markets.Core.Engine.{EngineState, trim_front, push_bounded, back, spec}
use bat_markets.Core.Engine.Public.{
  repeats, apply_public_event, apply_fast_ticker, apply_fast_trade, apply_fast_book_top,
  apply_fast_kline, apply_fast_mark_price, apply_fast_liquidation, apply_public_divergence,
}
use bat_markets.Core.Engine.Queues.{drop_front, trim_front-drop, back-trim_front}
use bat_markets.Core.Engine.Ingest.{trades_of, trade_retained}

module _ {ℓ} {A : Type ℓ} where
  -- Trimming twice is trimming once.
  trim_push :
      (cap : ℕ) (x : A) (xs : List A)
      → trim_front cap (trim_front cap xs ++ x ∷ []) ≡ trim_front cap (xs ++ x ∷ [])
  unfolding trim_front
  trim_push cap x [] = refl
  trim_push cap x (y ∷ ys) = ground (arith, trim_push cap x ys, length-append ys (x ∷ []))

module _ {D : Type 0} (dec : DecimalOps D) (id : InstrumentId) (sp : InstrumentSpec D) where
  -- The tape after an event: a trade of the instrument is written at its end, in the instrument's
  -- scales, unless the last trade written has its id.
  unfoldable pub tape_event : PublicLaneEvent D → List (TradeTick D) → List (TradeTick D)
  tape_event (PublicLaneEvent.trade t) tape =
      if t.instrument_id === id
      then (if repeats t.trade_id (back tape) then tape else tape ++ unify_trade dec sp t ∷ [])
      else tape
  tape_event _ tape = tape

  unfoldable pub tape_events : List (PublicLaneEvent D) → List (TradeTick D) → List (TradeTick D)
  tape_events [] tape = tape
  tape_events (e ∷ es) tape = tape_events es (tape_event e tape)

  unfoldable pub apply_events : List (PublicLaneEvent D) → EngineState D → EngineState D
  apply_events [] s = s
  apply_events (e ∷ es) s = apply_events es (apply_public_event dec e s).0

  -- The state shows the last trades of the tape, as many as its capacity, and has room for one.
  pub record Shows (s : EngineState D) (tape : List (TradeTick D)) : Type 0 where
    pub listed : get id s.instruments ≡ some sp
    pub room : 0 < s.state_policy.recent_trade_capacity
    pub shown :
        trades_of s id ≡ drop_front (length tape - s.state_policy.recent_trade_capacity) tape

  -- What an event other than a trade leaves alone.
  pub record IsFrame (s t : EngineState D) : Type 0 where
    pub instruments : t.instruments ≡ s.instruments
    pub state_policy : t.state_policy ≡ s.state_policy

  frame : (e : PublicLaneEvent D) (s : EngineState D) → IsFrame s (apply_public_event dec e s).0
  unfolding apply_public_event apply_fast_ticker apply_fast_trade apply_fast_book_top
      apply_fast_kline apply_fast_mark_price apply_fast_liquidation apply_public_divergence
  frame (PublicLaneEvent.divergence DivergenceEvent.reconcile_required) s = record {
    instruments = refl;
    state_policy = refl;
  }
  frame (PublicLaneEvent.divergence (DivergenceEvent.sequence_gap at)) s = record {
    instruments = refl;
    state_policy = refl;
  }
  frame (PublicLaneEvent.divergence DivergenceEvent.state_divergence) s = record {
    instruments = refl;
    state_policy = refl;
  }
  frame e s = record { instruments = ground arith; state_policy = ground arith }

  -- A trade at the queue and at the tape.
  queue_trade :
      (t : FastTrade) (cap : ℕ) (q tape : List (TradeTick D))
      → 0 < cap
      → q ≡ trim_front cap tape
      → (if repeats t.trade_id (back q) then q else push_bounded cap (unify_trade dec sp t) q)
        ≡ trim_front cap
            (if repeats t.trade_id (back tape) then tape else tape ++ unify_trade dec sp t ∷ [])
  unfolding push_bounded
  queue_trade t cap q tape room e =
      rw (e, back-trim_front cap tape room)
        (elim (Bool-cases (repeats t.trade_id (back tape))) [
          | inl y ↦ rw (y) refl
          | inr n ↦ rw (n) (trim_push cap (unify_trade dec sp t) tape)
        ])

  shown_trimmed :
      (s : EngineState D) (tape : List (TradeTick D))
      → Shows s tape
      → trades_of s id ≡ trim_front s.state_policy.recent_trade_capacity tape
  shown_trimmed s tape h = h.shown ∙ sym (trim_front-drop s.state_policy.recent_trade_capacity tape)

  own_trade :
      (t : FastTrade) (s : EngineState D) (tape : List (TradeTick D))
      → Shows s tape
      → t.instrument_id ≡ id
      → trades_of (apply_public_event dec (PublicLaneEvent.trade t) s).0 id
        ≡ trim_front s.state_policy.recent_trade_capacity
            (if repeats t.trade_id (back tape) then tape else tape ++ unify_trade dec sp t ∷ [])
  own_trade t s tape h same =
      let cap : ℕ = s.state_policy.recent_trade_capacity in
      let listed = ap (λ j. get j s.instruments) same ∙ h.listed in
      let here : (id === t.instrument_id) ≡ true =
        ground (arith, sym same, str_ord.cmp_iff id t.instrument_id) in
      let queue = ap (λ j. trades_of s j) same ∙ shown_trimmed s tape h in
      ap (λ q. unwrap_or q []) (trade_retained dec t s sp id listed h.room).1
      ∙ rw (here) (queue_trade t cap (trades_of s t.instrument_id) tape h.room queue)

  other_trade :
      (t : FastTrade) (s : EngineState D)
      → 0 < s.state_policy.recent_trade_capacity
      → (id === t.instrument_id) ≡ false
      → trades_of (apply_public_event dec (PublicLaneEvent.trade t) s).0 id ≡ trades_of s id
  unfolding apply_public_event apply_fast_trade spec
  other_trade t s room n = elim (Option-cases (get t.instrument_id s.instruments)) [
    | inl missing ↦ rw (missing, apply_fast_trade) refl
    | inr (other, found) ↦
        ap (λ q. unwrap_or q []) (trade_retained dec t s other id found room).1 ∙ rw (n) refl
  ]

  queue_step :
      (e : PublicLaneEvent D) (s : EngineState D) (tape : List (TradeTick D))
      → Shows s tape
      → trades_of (apply_public_event dec e s).0 id
        ≡ trim_front s.state_policy.recent_trade_capacity (tape_event e tape)
  unfolding apply_public_event apply_fast_ticker apply_fast_book_top apply_fast_kline
      apply_fast_mark_price apply_fast_liquidation apply_public_divergence tape_event
  queue_step (PublicLaneEvent.trade t) s tape h = elim (Bool-cases (t.instrument_id === id)) [
    | inl y ↦ rw (y) (own_trade t s tape h (ground (arith, str_ord.cmp_iff t.instrument_id id)))
    | inr n ↦ rw (n) (
        other_trade t s h.room
          (ground (arith, str_ord.cmp_iff t.instrument_id id, str_ord.cmp_iff id t.instrument_id))
        ∙ shown_trimmed s tape h)
  ]
  queue_step (PublicLaneEvent.divergence DivergenceEvent.reconcile_required) s tape h =
      shown_trimmed s tape h
  queue_step (PublicLaneEvent.divergence (DivergenceEvent.sequence_gap at)) s tape h =
      shown_trimmed s tape h
  queue_step (PublicLaneEvent.divergence DivergenceEvent.state_divergence) s tape h =
      shown_trimmed s tape h
  queue_step e s tape h = ground (arith, shown_trimmed s tape h)

  event-Shows :
      (e : PublicLaneEvent D) (s : EngineState D) (tape : List (TradeTick D))
      → Shows s tape
      → Shows (apply_public_event dec e s).0 (tape_event e tape)
  event-Shows e s tape h =
      let same = frame e s in
      record {
        listed = ap (get id) same.instruments ∙ h.listed;
        room = rw (same.state_policy) h.room;
        shown = rw (same.state_policy) (
            queue_step e s tape h
            ∙ trim_front-drop s.state_policy.recent_trade_capacity (tape_event e tape));
      }

  -- The trades that the engine retains refine the whole tape: through any public events, of any
  -- instruments, the queue of a listed instrument shows the last trades of its tape, as many as the
  -- capacity, if it did so before. The tape holds the trades of the instrument in its scales, a
  -- repeat of the last id left out.
  pub apply_events-Shows :
      (es : List (PublicLaneEvent D)) (s : EngineState D) (tape : List (TradeTick D))
      → Shows s tape
      → Shows (apply_events es s) (tape_events es tape)
  unfolding apply_events tape_events
  apply_events-Shows [] s tape h = h
  apply_events-Shows (e ∷ es) s tape h =
      apply_events-Shows es (apply_public_event dec e s).0 (tape_event e tape)
        (event-Shows e s tape h)
