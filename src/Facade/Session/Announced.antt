-- ===== src/Facade/Session/Announced.antt =====
-- crates/bat-markets/src/runtime.rs: what a public stream announces from turn to turn, and what a
-- gap in its numbers leaves.
use bat_markets.Prelude.{
  ℕ, ◌≡◌, ◌⊎◌, refl, Bool, true, false, Option, none, some, List, [], ◌∷◌, ◌++◌, inl, inr,
  Bool-cases, sym, subst, ltb, if◌then◌else◌,
}
use bat_markets.Prelude.Int.{ℤ, pos, max_ℤ, pos_part}
use bat_markets.Core.Numeric.{DecimalOps}
use bat_markets.Core.Instrument.{InstrumentSpec}
use bat_markets.Core.Market.{OpenInterest}
use bat_markets.Core.Failure.{MarketError, Result, ok, err, Result-cases}
use bat_markets.Core.Execution.{PublicLaneEvent, DivergenceEvent}
use bat_markets.Core.Health.{mark_public_gap}
use bat_markets.Core.Engine.Private
use bat_markets.Core.Engine.Public.{apply_public_event, apply_public_divergence}
use bat_markets.Facade.Hub.{PublicSubscription}
use bat_markets.Facade.Sequence.{
  SequenceObservation, SequenceTracker, Observed, in_order, gap, observe_all,
}
use bat_markets.Facade.Shared.{
  SharedState, write, share_public_event, share_public_events, should_publish_health_change,
}
use bat_markets.Facade.Session.{
  Turn, Reader, Progress, going, ended, is_wanted, retain_public_events_for_subscription,
  sequence_gap_error, take_events, take_text, poll_open_interest, turn, turns, after_gap,
  sync_server_time, refresh_metadata,
}
use bat_markets.Facade.Retry.{ReconnectPolicy, should_reconnect}
use bat_markets.Facade.Session.Kinds.{
  shared_of, AllWanted, write-AllWanted, share_public_events-AllWanted,
  share_public_event-AllWanted, after_gap-shared, unless_failed-shared, retained_wanted,
}

Observed-cases : (o : Observed) → (o ≡ in_order) ⊎ ((at : ℤ) × (o ≡ gap at))
Observed-cases in_order = inl refl
Observed-cases (gap at) = inr (at, refl)

Progress-cases :
    {D : Type 0} (p : Progress D)
    → ((s : SharedState D) × (t : SequenceTracker) × (p ≡ going s t))
      ⊎ ((s : SharedState D) × (result : Result (Unit {0})) × (p ≡ ended s result))
Progress-cases (going s t) = inl (s, t, refl)
Progress-cases (ended s result) = inr (s, result, refl)

module _ {D P : Type 0} (dec : DecimalOps D) (r : Reader D P)
    (subscription : PublicSubscription) where
  abbrev Wanted : SharedState D → Type 0
  Wanted s = AllWanted subscription s

  divergence-Wanted :
      (d : DivergenceEvent) (f : MarketError) (s : SharedState D)
      → Wanted s
      → Wanted (
          shared_of (
            after_gap dec r subscription f
              (share_public_event dec (PublicLaneEvent.divergence d) s)))
  unfolding is_wanted
  divergence-Wanted d f s h =
      subst Wanted (sym (after_gap-shared subscription dec r f _))
        (share_public_event-AllWanted subscription dec (PublicLaneEvent.divergence d) s tt h)

  take_events-Wanted :
      (payload : P) (s : SharedState D) (tracker : SequenceTracker)
      → Wanted s
      → Wanted (shared_of (take_events dec r subscription payload s tracker))
  unfolding take_events
  take_events-Wanted payload s tracker h = elim (Result-cases (r.parse_public payload)) [
    | inl (e, failed) ↦ rw (failed, take_events) h
    | inr (es, parsed) ↦
        let kept = retain_public_events_for_subscription subscription es in
        rw (parsed, take_events)
          (subst Wanted
            (sym (unless_failed-shared subscription dec r tracker (share_public_events dec kept s)))
            (share_public_events-AllWanted subscription dec kept s (retained_wanted subscription es)
              h))
  ]

  take_text-Wanted :
      (payload : P) (s : SharedState D) (tracker : SequenceTracker)
      → Wanted s
      → Wanted (shared_of (take_text dec r subscription payload s tracker))
  unfolding take_text
  take_text-Wanted payload s tracker h = elim (Bool-cases (r.is_control payload)) [
    | inl c ↦ rw (c, take_text) h
    | inr c ↦ elim (Result-cases (r.observations payload)) [
      | inl (e, failed) ↦ rw (c, take_text, failed) h
      | inr (os, numbered) ↦ elim (Observed-cases (observe_all os tracker).1) [
        | inl fits ↦
            rw (c, take_text, numbered, fits)
              (take_events-Wanted payload s (observe_all os tracker).0 h)
        | inr (at, missed) ↦ rw (c, take_text, numbered, missed) (divergence-Wanted _ _ s h)
      ]
    ]
  ]

  poll-Wanted :
      (answer : Result (OpenInterest D)) (s : SharedState D)
      → subscription.open_interest ≡ true
      → Wanted s
      → Wanted (poll_open_interest dec r subscription answer s)
  unfolding poll_open_interest is_wanted
  poll-Wanted (err e) s w h = h
  poll-Wanted (ok o) s w h =
      let event = PublicLaneEvent.open_interest o in
      let shared = share_public_event-AllWanted subscription dec event s w h in
      elim (Result-cases (share_public_event dec event s).1) [
        | inl (e, failed) ↦ rw (failed, poll_open_interest) shared
        | inr (done, taken) ↦
            rw (taken, poll_open_interest)
              (write-AllWanted subscription {A = Unit {0}}
                (λ state. (Private.mark_rest_success none state, tt))
                (share_public_event dec event s).0 shared)
      ]

  sync-Wanted : (skew : Result ℤ) (s : SharedState D) → Wanted s → Wanted (sync_server_time skew s)
  unfolding sync_server_time
  sync-Wanted (err e) s h = h
  sync-Wanted (ok skew) s h =
      write-AllWanted subscription {A = Unit {0}}
        (λ state. (Private.mark_rest_success (some skew) state, tt)) s h

  metadata-Wanted :
      (specs : Result (List (InstrumentSpec D))) (s : SharedState D)
      → Wanted s
      → Wanted (refresh_metadata specs s)
  unfolding refresh_metadata
  metadata-Wanted (err e) s h = h
  metadata-Wanted (ok specs) s h =
      write-AllWanted subscription {A = Unit {0}}
        (λ state. (Private.mark_rest_success none (Private.replace_instruments specs state), tt)) s
        h

  if-Wanted :
      (b : Bool) (polled s : SharedState D) (tracker : SequenceTracker)
      → (b ≡ true → Wanted polled)
      → Wanted s
      → Wanted (shared_of (if b then going polled tracker else going s tracker))
  if-Wanted true polled s tracker p h = p refl
  if-Wanted false polled s tracker p h = h

  turn-Wanted :
      (t : Turn D P) (s : SharedState D) (tracker : SequenceTracker)
      → Wanted s
      → Wanted (shared_of (turn dec r subscription t s tracker))
  unfolding turn
  turn-Wanted Turn.shutdown s tracker h = h
  turn-Wanted (Turn.pinged (ok sent)) s tracker h = h
  turn-Wanted (Turn.pinged (err e)) s tracker h = h
  turn-Wanted (Turn.polled answer) s tracker h =
      if-Wanted subscription.open_interest (poll_open_interest dec r subscription answer s) s
        tracker (λ w. poll-Wanted answer s w h) h
  turn-Wanted Turn.idle s tracker h = divergence-Wanted (DivergenceEvent.sequence_gap none) _ s h
  turn-Wanted (Turn.maintained none) s tracker h = h
  turn-Wanted (Turn.maintained (some m)) s tracker h =
      metadata-Wanted m.specs (sync_server_time m.skew s) (sync-Wanted m.skew s h)
  turn-Wanted Turn.closed s tracker h = h
  turn-Wanted (Turn.unreadable e) s tracker h = h
  turn-Wanted (Turn.text payload) s tracker h = take_text-Wanted payload s tracker h
  turn-Wanted Turn.other s tracker h = h

  -- Whatever a public stream reads, it announces only events of the kinds that its subscription
  -- asks for, of any instrument and any candle interval, and divergences.
  pub turns-AllWanted :
      (ts : List (Turn D P)) (s : SharedState D) (tracker : SequenceTracker)
      → AllWanted subscription s
      → AllWanted subscription (shared_of (turns dec r subscription ts s tracker))
  unfolding turns
  turns-AllWanted [] s tracker h = h
  turns-AllWanted (t ∷ ts) s tracker h =
      let after = turn-Wanted t s tracker h in
      elim (Progress-cases (turn dec r subscription t s tracker)) [
        | inl (next, marks, goes) ↦
            rw (goes, turns)
              (turns-AllWanted ts next marks (subst (λ p. Wanted (shared_of p)) goes after))
        | inr (last, result, ends) ↦ rw (ends, turns) (subst (λ p. Wanted (shared_of p)) ends after)
      ]

  -- A write that shares a divergence.
  shared_gap :
      (at : Option ℕ) (s : SharedState D)
      → let event = PublicLaneEvent.divergence (DivergenceEvent.sequence_gap at) in
        let (after, result) = share_public_event dec event s in
        (result ≡ ok tt)
        × (after.state ≡ record s.state { health = mark_public_gap s.state.health })
        × (after.public_events ≡ s.public_events ++ event ∷ [])
  unfolding share_public_event write apply_public_event apply_public_divergence
  shared_gap at s =
      elim (Bool-cases
        (should_publish_health_change s.state.health (mark_public_gap s.state.health))) [
          | inl y ↦ rw (y) (refl, refl, refl)
          | inr n ↦ rw (n) (refl, refl, refl)
        ]

  after_gap_done :
      (f : MarketError) (o : SharedState D × Result (Unit {0}))
      → o.1 ≡ ok tt
      → after_gap dec r subscription f o ≡ ended o.0 (err f)
  after_gap_done f (s, ok done) h = refl
  after_gap_done f (s, err e) h = absurd (cc)

  -- A frame whose numbers leave a gap ends the stream. None of its events is taken: the engine
  -- state is as before but for the gap in its health, what is announced is the divergence alone, and
  -- the error is one on which the stream reconnects while attempts are left.
  pub turn_gap :
      (payload : P) (os : List SequenceObservation) (at : ℤ) (s : SharedState D)
      (tracker : SequenceTracker) (policy : ReconnectPolicy) (attempt : ℕ)
      → r.is_control payload ≡ false
      → r.observations payload ≡ ok os
      → (observe_all os tracker).1 ≡ gap at
      → (after : SharedState D) × (e : MarketError) × (turn dec r subscription
            (Turn.text payload)
            s
            tracker
          ≡ ended after (err e))
        × (after.state ≡ record s.state { health = mark_public_gap s.state.health })
        × (after.public_events
            ≡ s.public_events
              ++ PublicLaneEvent.divergence
                  (DivergenceEvent.sequence_gap (some (pos_part (max_ℤ at (pos 0)))))
                ∷ [])
        × (should_reconnect policy attempt e
            ≡ elim policy.max_reconnect_attempts [ none ↦ true | some max ↦ ltb attempt max ])
  unfolding turn take_text should_reconnect sequence_gap_error
  turn_gap payload os at s tracker policy attempt c numbered missed =
      let number : ℕ = pos_part (max_ℤ at (pos 0)) in
      let event : PublicLaneEvent D =
        PublicLaneEvent.divergence (DivergenceEvent.sequence_gap (some number)) in
      let (done, state, sent) = shared_gap (some number) s in
      (
        (share_public_event dec event s).0,
        sequence_gap_error r.show_int r.venue r.sequence_operation (some at),
        rw (c, take_text, numbered, missed)
            (after_gap_done _ (share_public_event dec event s) done),
        state,
        sent,
        refl,
      )
