-- ===== src/Facade/Session/Kinds.antt =====
-- crates/bat-markets/src/runtime.rs with client.rs: what the calls of a public stream announce.
use bat_markets.Prelude.{
  ◌≡◌, refl, true, not, In, List, [], ◌∷◌, ◌++◌, All, inl, inr, Bool-cases, sym, subst,
}
use bat_markets.Prelude.Text.{Str}
use bat_markets.Core.Numeric.{DecimalOps}
use bat_markets.Core.Failure.{MarketError, Result, ok, err}
use bat_markets.Core.Execution.{PublicLaneEvent}
use bat_markets.Core.Engine.{EngineState}
use bat_markets.Core.Engine.Public.{apply_public_event}
use bat_markets.Facade.Hub.{PublicSubscription}
use bat_markets.Facade.Sequence.{SequenceTracker}
use bat_markets.Facade.Shared.{
  SharedState, write, announce, share_public_event, share_public_events,
  should_publish_health_change, apply_checked,
}
use bat_markets.Facade.Session.{
  Reader, Progress, going, ended, is_empty, is_wanted, retain_public_events_for_subscription,
  after_gap, unless_failed,
}

-- The subscription asks for events of this kind; for candles, by naming some interval. A divergence
-- goes to every subscriber.
abbrev pub IsAsked : {D : Type 0} → PublicSubscription → PublicLaneEvent D → Type 0
IsAsked s (PublicLaneEvent.ticker t) = s.ticker ≡ true
IsAsked s (PublicLaneEvent.trade t) = s.trades ≡ true
IsAsked s (PublicLaneEvent.book_top b) = s.book_top ≡ true
IsAsked s (PublicLaneEvent.order_book_delta d) = s.order_book ≡ true
IsAsked s (PublicLaneEvent.mark_price m) = s.mark_price ≡ true
IsAsked s (PublicLaneEvent.funding_rate f) = s.funding_rate ≡ true
IsAsked s (PublicLaneEvent.open_interest o) = s.open_interest ≡ true
IsAsked s (PublicLaneEvent.liquidation l) = s.liquidations ≡ true
IsAsked s (PublicLaneEvent.kline k) = (interval : Str) × In interval s.kline_intervals
IsAsked s (PublicLaneEvent.divergence d) = Unit

some_interval : (xs : List Str) → not (is_empty xs) ≡ true → (x : Str) × In x xs
some_interval [] h = absurd (cc)
some_interval (x ∷ xs) h = (x, inl refl)

wanted-IsAsked :
    {D : Type 0} (s : PublicSubscription) (e : PublicLaneEvent D)
    → is_wanted s e ≡ true
    → IsAsked s e
unfolding is_wanted
wanted-IsAsked s (PublicLaneEvent.ticker t) h = h
wanted-IsAsked s (PublicLaneEvent.trade t) h = h
wanted-IsAsked s (PublicLaneEvent.book_top b) h = h
wanted-IsAsked s (PublicLaneEvent.order_book_delta d) h = h
wanted-IsAsked s (PublicLaneEvent.mark_price m) h = h
wanted-IsAsked s (PublicLaneEvent.funding_rate f) h = h
wanted-IsAsked s (PublicLaneEvent.open_interest o) h = h
wanted-IsAsked s (PublicLaneEvent.liquidation l) h = h
wanted-IsAsked s (PublicLaneEvent.kline k) h = some_interval s.kline_intervals h
wanted-IsAsked s (PublicLaneEvent.divergence d) h = tt

module _ {D : Type 0} where
  abbrev pub shared_of : Progress D → SharedState D
  shared_of (going s tracker) = s
  shared_of (ended s result) = s

  -- A write sends nothing on the event channels.
  write-public_events :
      {A : Type 0} (f : EngineState D → EngineState D × A) (s : SharedState D)
      → (write f s).0.public_events ≡ s.public_events
  unfolding write
  write-public_events f s =
      elim (Bool-cases (should_publish_health_change s.state.health (f s.state).0.health)) [
        | inl y ↦ rw (y, write) refl
        | inr n ↦ rw (n, write) refl
      ]

  module _ (subscription : PublicSubscription) where
    -- Only events that it asks for were announced.
    abbrev pub AllWanted : SharedState D → Type 0
    AllWanted s = All (λ e. IsAsked subscription e) s.public_events

    All-append :
        (es fs : List (PublicLaneEvent D))
        → All (λ e. IsAsked subscription e) es
        → All (λ e. IsAsked subscription e) fs
        → All (λ e. IsAsked subscription e) (es ++ fs)
    All-append [] fs h k = k
    All-append (e ∷ es) fs h k = (h.0, All-append es fs h.1 k)

    pub retained_wanted :
        (es : List (PublicLaneEvent D))
        → All (λ e. IsAsked subscription e) (retain_public_events_for_subscription subscription es)
    unfolding retain_public_events_for_subscription
    retained_wanted [] = tt
    retained_wanted (e ∷ es) = elim (Bool-cases (is_wanted subscription e)) [
      | inl y ↦ rw (y) (wanted-IsAsked subscription e y, retained_wanted es)
      | inr n ↦ rw (n) (retained_wanted es)
    ]

    pub write-AllWanted :
        {A : Type 0} (f : EngineState D → EngineState D × A) (s : SharedState D)
        → AllWanted s
        → AllWanted (write f s).0
    write-AllWanted f s h =
        subst (All (λ e. IsAsked subscription e)) (sym (write-public_events f s)) h

    announce-AllWanted :
        (es : List (PublicLaneEvent D)) (r : SharedState D × Result (Unit {0}))
        → All (λ e. IsAsked subscription e) es
        → AllWanted r.0
        → AllWanted (announce es r).0
    announce-AllWanted es (s, ok done) w h = All-append s.public_events es h w
    announce-AllWanted es (s, err e) w h = h

    module _ (dec : DecimalOps D) where
      pub share_public_events-AllWanted :
          (es : List (PublicLaneEvent D)) (s : SharedState D)
          → All (λ e. IsAsked subscription e) es
          → AllWanted s
          → AllWanted (share_public_events dec es s).0
      unfolding share_public_events
      share_public_events-AllWanted [] s w h = h
      share_public_events-AllWanted (e ∷ es) s w h =
          announce-AllWanted (e ∷ es) (write (apply_checked dec (e ∷ es)) s) w
            (write-AllWanted (apply_checked dec (e ∷ es)) s h)

      pub share_public_event-AllWanted :
          (e : PublicLaneEvent D) (s : SharedState D)
          → IsAsked subscription e
          → AllWanted s
          → AllWanted (share_public_event dec e s).0
      unfolding share_public_event
      share_public_event-AllWanted e s w h =
          announce-AllWanted (e ∷ []) (write (apply_public_event dec e) s) (w, tt)
            (write-AllWanted (apply_public_event dec e) s h)

      pub after_gap-shared :
          {P : Type 0} (r : Reader D P) (f : MarketError) (o : SharedState D × Result (Unit {0}))
          → shared_of (after_gap dec r subscription f o) ≡ o.0
      after_gap-shared r f (s, ok done) = refl
      after_gap-shared r f (s, err e) = refl

      pub unless_failed-shared :
          {P : Type 0} (r : Reader D P) (t : SequenceTracker)
          (o : SharedState D × Result (Unit {0}))
          → shared_of (unless_failed dec r subscription t o) ≡ o.0
      unless_failed-shared r t (s, ok done) = refl
      unless_failed-shared r t (s, err e) = refl
