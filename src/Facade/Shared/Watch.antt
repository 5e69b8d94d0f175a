-- ===== src/Facade/Shared/Watch.antt =====
-- crates/bat-markets/src/client.rs: what the health channels say of the engine state.
use native.Mathlib.Decide.{ℕ_discrete}
use bat_markets.Prelude.{
  ℕ, zero, suc, Option, none, some, ◌≡◌, refl, true, false, subst, List, [], ◌∷◌, ◌++◌, arith,
  Bool-cases, inl, inr, decide-true, decide_no,
}
use bat_markets.Core.Health.{HealthReport}
use bat_markets.Core.Engine.{EngineState}
use bat_markets.Facade.Shared.{
  HealthNotification, SharedState, HealthStatus-discrete, DegradedReason-discrete, skew-discrete,
  bool-discrete, should_publish_health_change, new_shared, store, publish,
}

-- The two reports agree on all but the times of the last messages and the age of the snapshot.
pub record AreAlike (a b : HealthReport) : Type 0 where
  pub status : a.status ≡ b.status
  pub rest_ok : a.rest_ok ≡ b.rest_ok
  pub ws_public_ok : a.ws_public_ok ≡ b.ws_public_ok
  pub ws_private_ok : a.ws_private_ok ≡ b.ws_private_ok
  pub clock_skew_ms : a.clock_skew_ms ≡ b.clock_skew_ms
  pub reconnect_count : a.reconnect_count ≡ b.reconnect_count
  pub state_divergence : a.state_divergence ≡ b.state_divergence
  pub degraded_reason : a.degraded_reason ≡ b.degraded_reason

unpublished :
    (before after : HealthReport)
    → should_publish_health_change before after ≡ false
    → AreAlike before after
unfolding should_publish_health_change
unpublished before after h = record {
  status = decide-true (HealthStatus-discrete _ _) (ground arith);
  rest_ok = decide-true (bool-discrete _ _) (ground arith);
  ws_public_ok = decide-true (bool-discrete _ _) (ground arith);
  ws_private_ok = decide-true (bool-discrete _ _) (ground arith);
  clock_skew_ms = decide-true (skew-discrete _ _) (ground arith);
  reconnect_count = decide-true (ℕ_discrete _ _) (ground arith);
  state_divergence = decide-true (bool-discrete _ _) (ground arith);
  degraded_reason = decide-true (DegradedReason-discrete _ _) (ground arith);
}

-- A change of the status is published.
pub should_publish-status :
    (before after : HealthReport)
    → ¬ (before.status ≡ after.status)
    → should_publish_health_change before after ≡ true
unfolding should_publish_health_change
should_publish-status before after h =
    rw (decide_no (HealthStatus-discrete before.status after.status) h) refl

-- The newest notification, if there is one, tells of the report that the watch channel holds.
abbrev pub Newest : List HealthNotification → HealthReport → Type 0
Newest [] h = Unit
Newest (n ∷ []) h = n.current ≡ h
Newest (n ∷ m ∷ ns) h = Newest (m ∷ ns) h

Newest-append :
    (ns : List HealthNotification) (n : HealthNotification) → Newest (ns ++ n ∷ []) n.current
Newest-append [] n = refl
Newest-append (m ∷ []) n = refl
Newest-append (l ∷ m ∷ ns) n = Newest-append (m ∷ ns) n

alike_trans : (a b c : HealthReport) → AreAlike a b → AreAlike b c → AreAlike a c
alike_trans a b c h k = record {
  status = cc;
  rest_ok = cc;
  ws_public_ok = cc;
  ws_private_ok = cc;
  clock_skew_ms = cc;
  reconnect_count = cc;
  state_divergence = cc;
  degraded_reason = cc;
}

alike_refl : (a : HealthReport) → AreAlike a a
alike_refl a = record {
  status = refl;
  rest_ok = refl;
  ws_public_ok = refl;
  ws_private_ok = refl;
  clock_skew_ms = refl;
  reconnect_count = refl;
  state_divergence = refl;
  degraded_reason = refl;
}

-- The report that the watch channel holds once the changes are published in this order.
abbrev newest_report : HealthReport → List HealthNotification → HealthReport
newest_report h [] = h
newest_report h (n ∷ ns) = newest_report n.current ns

newest_report-append :
    (h : HealthReport) (ns : List HealthNotification) (n : HealthNotification)
    → newest_report h (ns ++ n ∷ []) ≡ n.current
newest_report-append h [] n = refl
newest_report-append h (m ∷ ns) n = newest_report-append m.current ns n

-- The change at the index, and the others.
abbrev take_out : ℕ → List HealthNotification → Option HealthNotification × List HealthNotification
take_out n [] = (none, [])
take_out zero (c ∷ cs) = (some c, cs)
take_out (suc n) (c ∷ cs) = let (taken, rest) = take_out n cs in (taken, c ∷ rest)

-- Several tasks write. A task takes the lock, runs its closure and releases it; later it publishes
-- the change, if there is one. `published n` is the task with the n-th of the changes that wait; it
-- sends to the watch channel and to the notifications in one act.
pub data Act (D : Type 0) : Type 0 where
  stored : (EngineState D → EngineState D) → Act D
  published : ℕ → Act D

-- The shared state with the changes that were stored and not yet published, oldest first.
pub record Racing (D : Type 0) : Type 0 where
  pub shared : SharedState D
  pub in_flight : List HealthNotification

abbrev waiting_with : List HealthNotification → Option HealthNotification → List HealthNotification
waiting_with cs none = cs
waiting_with cs (some c) = cs ++ c ∷ []

module _ {D : Type 0} where
  unfoldable pub act : Act D → Racing D → Racing D
  unfolding should_publish_health_change
  act (stored f) r =
      let (held, change, done) = store (λ s. (f s, tt)) r.shared in
      record { shared = held; in_flight = waiting_with r.in_flight change }
  act (published n) r =
      let (change, rest) = take_out n r.in_flight in
      record { shared = publish change r.shared; in_flight = rest }

  unfoldable pub acts : List (Act D) → Racing D → Racing D
  unfolding act
  acts [] r = r
  acts (a ∷ more) r = acts more (act a r)

  -- Each change that is published is the oldest one that waits.
  abbrev pub AreOrdered : List (Act D) → Type 0
  AreOrdered [] = Unit
  AreOrdered (stored f ∷ more) = AreOrdered more
  AreOrdered (published n ∷ more) = (n ≡ 0) × AreOrdered more

  abbrev pub started : EngineState D → Racing D
  started s = record { shared = new_shared s; in_flight = [] }

  -- The watch channel agrees with the state, and with the newest notification.
  pub record IsInStep (s : SharedState D) : Type 0 where
    pub watched : AreAlike s.health_watch s.state.health
    pub notified : Newest s.health_notifications s.health_watch

  record IsCatching (r : Racing D) : Type 0 where
    caught : AreAlike (newest_report r.shared.health_watch r.in_flight) r.shared.state.health
    notified : Newest r.shared.health_notifications r.shared.health_watch

  act-IsCatching :
      (a : Act D) (more : List (Act D)) (r : Racing D)
      → AreOrdered (a ∷ more)
      → IsCatching r
      → IsCatching (act a r) × AreOrdered more
  unfolding act
  act-IsCatching (stored f) more r o h = (
    elim (Bool-cases
        (should_publish_health_change r.shared.state.health (f r.shared.state).health)) [
          | inl y ↦
              rw (y, act)
                (record {
                  caught =
                      rw (newest_report-append r.shared.health_watch r.in_flight _)
                        (alike_refl (f r.shared.state).health);
                  notified = h.notified;
                })
          | inr n ↦
              rw (n, act)
                (record {
                  caught =
                      alike_trans _ r.shared.state.health _ h.caught
                        (unpublished r.shared.state.health (f r.shared.state).health n);
                  notified = h.notified;
                })
        ],
    o,
  )
  act-IsCatching (published n) more r o h =
      (rw (o.0) (oldest r.in_flight (record { caught = h.caught; notified = h.notified })), o.1)
    where
      oldest :
          (cs : List HealthNotification)
          → IsCatching (record r { in_flight = cs })
          → IsCatching (act (published 0) (record r { in_flight = cs }))
      oldest [] k = record { caught = k.caught; notified = k.notified }
      oldest (c ∷ cs) k = record {
        caught = k.caught;
        notified = Newest-append r.shared.health_notifications c;
      }

  acts-IsCatching :
      (more : List (Act D)) (r : Racing D)
      → AreOrdered more
      → IsCatching r
      → IsCatching (acts more r)
  unfolding acts
  acts-IsCatching [] r o h = h
  acts-IsCatching (a ∷ more) r o h =
      let (next, ordered) = act-IsCatching a more r o h in
      acts-IsCatching more (act a r) ordered next

  -- Several tasks write, in any interleaving in which their changes of the health are published in
  -- the order in which they were stored. Once none waits to be published, the watch channel agrees
  -- with the health of the engine on all but the times of the last messages and the age of the
  -- snapshot, and the newest notification, if any was sent, carries what the channel holds.
  pub acts-IsInStep :
      (more : List (Act D)) (s : EngineState D)
      → AreOrdered more
      → (acts more (started s)).in_flight ≡ []
      → IsInStep (acts more (started s)).shared
  unfolding new_shared
  acts-IsInStep more s o e =
      let h =
        acts-IsCatching more (started s) o
          (record { caught = alike_refl s.health; notified = tt }) in
      record {
        watched =
            subst
              (λ cs.
                AreAlike (newest_report (acts more (started s)).shared.health_watch cs)
                  (acts more (started s)).shared.state.health)
              e h.caught;
        notified = h.notified;
      }

  -- Nothing keeps the order. Of two writes that each change the health, if the second is published
  -- before the first, nothing waits any more, and the watch channel holds the report that the first
  -- write left, not that of the engine.
  pub late_publish_stays :
      (f g : EngineState D → EngineState D) (s : EngineState D)
      → should_publish_health_change s.health (f s).health ≡ true
      → should_publish_health_change (f s).health (g (f s)).health ≡ true
      → let last = acts (stored f ∷ stored g ∷ published 1 ∷ published 0 ∷ []) (started s) in
        (last.in_flight ≡ [])
        × (last.shared.health_watch ≡ (f s).health)
        × (last.shared.state.health ≡ (g (f s)).health)
  unfolding acts new_shared
  late_publish_stays f g s first second = rw (first, second) (refl, refl, refl)
