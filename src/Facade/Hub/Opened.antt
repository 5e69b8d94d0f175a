-- ===== src/Facade/Hub/Opened.antt =====
-- crates/bat-markets/src/subscriptions.rs: the subscriptions that the current streams of the public
-- hub were spawned with.
use mathlib.Core.Bool.{decide}
use bat_markets.Prelude.{
  ℕ, ◌≡◌, refl, true, Option, none, some, List, [], ◌∷◌, arith, inl, inr, Bool-cases, ◌∙◌, sym, ap,
  decide_yes,
}
use bat_markets.Ord.{nat_ord, str_ord}
use bat_markets.OrdMap.{insert, remove, contains_key, values}
use bat_markets.Core.Types.{Venue}
use bat_markets.Core.Failure.{MarketError, Result, ok, err, Result-cases}
use bat_markets.Facade.Hub.{
  PublicSubscription, PublicSubscription-discrete, Routes, Routes-discrete,
  route_public_subscriptions,
}
use bat_markets.Facade.Hub.Streams.{
  Handle, Spawns, is_stale, settle_stream, PublicHub, PublicHubCommand, spawn, spawn_route,
  spawn_replacements, switch_public_stream, hub_step, run_public_hub,
}

-- What `runtime::spawn_public_stream` returns: no error.
abbrev pub never : ℕ → Option MarketError
never n = none

pub decide-sound : {P : Type 0} (d : Dec P) → decide d ≡ true → P
unfolding decide
decide-sound (yes p) e = p
decide-sound (no f) e = absurd (ground (arith, e))

IsOk-of : {A : Type 0} (r : Result A) → ((x : MarketError) → r ≡ err x → ⊥) → (a : A) × (r ≡ ok a)
IsOk-of (ok a) f = (a, refl)
IsOk-of (err x) f = absurd (f x refl)

spawn_route-never :
    (want have : Option PublicSubscription) (w : Spawns) (x : MarketError)
    → (spawn_route never want have w).0 ≡ err x
    → ⊥
unfolding spawn_route spawn
spawn_route-never none have w x e = cc
spawn_route-never (some s) have w x e = ground (arith, e)

-- The replacement of a route is what some round of the loop came to.
abbrev IsRound : Option PublicSubscription → Option PublicSubscription → Option Handle → Type 0
IsRound want have h = (w : Spawns) × ((spawn_route never want have w).0 ≡ ok h)

pub spawn_replacements-never :
    (want have : Routes PublicSubscription) (w : Spawns)
    → (r : Routes Handle) × ((spawn_replacements never want have w).0 ≡ ok r)
      × IsRound want.at_default have.at_default r.at_default
      × IsRound want.at_market have.at_market r.at_market
      × IsRound want.at_public have.at_public r.at_public
unfolding spawn_replacements
spawn_replacements-never want have w =
    let a = spawn_route never want.at_default have.at_default w in
    let oa = IsOk-of a.0 (spawn_route-never want.at_default have.at_default w) in
    let b = spawn_route never want.at_market have.at_market a.1 in
    let ob = IsOk-of b.0 (spawn_route-never want.at_market have.at_market a.1) in
    let c = spawn_route never want.at_public have.at_public b.1 in
    let oc = IsOk-of c.0 (spawn_route-never want.at_public have.at_public b.1) in
    (
      record { at_default = oa.0; at_market = ob.0; at_public = oc.0 },
      rw (oa.1, ob.1, oc.1, spawn_replacements) refl,
      (w, oa.1),
      (a.1, ob.1),
      (b.1, oc.1),
    )

-- The subscription that the stream of a route was spawned with.
abbrev pub opened : Option Handle → Option PublicSubscription
opened none = none
opened (some h) = h.opened_for

abbrev pub opened_routes : Routes Handle → Routes PublicSubscription
opened_routes r = record {
  at_default = opened r.at_default;
  at_market = opened r.at_market;
  at_public = opened r.at_public;
}

-- The stream that a route is left with was spawned with what is wanted of the route.
spawned_for :
    (s : PublicSubscription) (n : ℕ) (h : Option Handle)
    → ok (some (record { number = n; opened_for = some s })) ≡ ok h
    → (x : Handle) × (h ≡ some x) × (x.opened_for ≡ some s)
spawned_for s n none r = absurd (cc)
spawned_for s n (some x) r =
    let same : some (record { number = n; opened_for = some s }) ≡ some x = cc in
    (x, refl, ap opened (sym same))

settle_stream-opened :
    (want have : Option PublicSubscription) (h old : Option Handle)
    → IsRound want have h
    → opened old ≡ have
    → opened (settle_stream (is_stale want have) h old) ≡ want
unfolding settle_stream spawn_route spawn
settle_stream-opened none none none old (w, r) o = o
settle_stream-opened none none (some x) old (w, r) o = absurd (cc)
settle_stream-opened none (some t) none old (w, r) o = refl
settle_stream-opened none (some t) (some x) old (w, r) o = absurd (cc)
settle_stream-opened (some s) none h old (w, r) o =
    let (x, shape, opens) = spawned_for s w.started h r in rw (shape) opens
settle_stream-opened (some s) (some t) h old (w, r) o =
    elim (Bool-cases (decide (PublicSubscription-discrete t s))) [
      | inr other ↦
          let (x, shape, opens) = spawned_for s w.started h (rw (other, spawn_route) at r) in
          rw (shape) opens
      | inl same ↦
          let equal : t ≡ s = decide-sound (PublicSubscription-discrete t s) same in
          let kept : h ≡ none = none_made h (rw (same, spawn_route) at r) in
          rw (kept, decide_yes (PublicSubscription-discrete s t) (sym equal)) (o ∙ ap some equal)
    ]
  where
    none_made : (h : Option Handle) → ok none ≡ ok h → h ≡ none
    none_made none e = refl
    none_made (some x) e = absurd (cc)

-- The stream of each route was spawned with the current subscription of the route.
abbrev pub IsOpened : PublicHub → Type 0
IsOpened hub =
    (opened hub.current_streams.at_default ≡ hub.current_subscriptions.at_default)
    × (opened hub.current_streams.at_market ≡ hub.current_subscriptions.at_market)
    × (opened hub.current_streams.at_public ≡ hub.current_subscriptions.at_public)

switch-IsOpened :
    (want : Routes PublicSubscription) (hub : PublicHub)
    → IsOpened hub
    → IsOpened (switch_public_stream never want hub).1
unfolding switch_public_stream
switch-IsOpened want hub h =
    let have : Routes PublicSubscription = hub.current_subscriptions in
    let (r, spawned, on_default, on_market, on_public) =
      spawn_replacements-never want have hub.spawns in
    elim (Bool-cases (decide (Routes-discrete have want))) [
      | inl y ↦ rw (y, switch_public_stream) h
      | inr n ↦
          rw (n, spawned, switch_public_stream)
            (
              settle_stream-opened want.at_default have.at_default r.at_default
                  hub.current_streams.at_default on_default h.0,
              settle_stream-opened want.at_market have.at_market r.at_market
                  hub.current_streams.at_market on_market h.1,
              settle_stream-opened want.at_public have.at_public r.at_public
                  hub.current_streams.at_public on_public h.2,
            )
    ]

hub_step-IsOpened :
    (venue : Venue) (c : PublicHubCommand) (hub : PublicHub)
    → IsOpened hub
    → IsOpened (hub_step never venue c hub).1
unfolding hub_step
hub_step-IsOpened venue (PublicHubCommand.acquire lease s) hub h =
    let want = route_public_subscriptions venue (values (insert lease s hub.active)) in
    elim (Result-cases (switch_public_stream never want hub).0) [
      | inl (x, failed) ↦ rw (failed, hub_step) (switch-IsOpened want hub h)
      | inr (done, switched) ↦ rw (switched, hub_step) (switch-IsOpened want hub h)
    ]
hub_step-IsOpened venue (PublicHubCommand.release lease) hub h =
    let rest = remove lease hub.active in
    let want = route_public_subscriptions venue (values rest) in
    elim (Bool-cases (contains_key lease hub.active)) [
      | inl y ↦ rw (y, hub_step) (switch-IsOpened want (record hub { active = rest }) h)
      | inr n ↦ rw (n, hub_step) h
    ]

pub run-IsOpened :
    (venue : Venue) (cs : List PublicHubCommand) (hub : PublicHub)
    → IsOpened hub
    → IsOpened (run_public_hub never venue cs hub)
unfolding run_public_hub
run-IsOpened venue [] hub h = h
run-IsOpened venue (c ∷ cs) hub h =
    run-IsOpened venue cs (hub_step never venue c hub).1 (hub_step-IsOpened venue c hub h)
