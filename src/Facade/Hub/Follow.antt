-- ===== src/Facade/Hub/Follow.antt =====
-- crates/bat-markets/src/subscriptions.rs: while every spawn succeeds, the streams are those of the
-- leases that are held, so each lease gets what it asks for.
use mathlib.Core.Bool.{decide}
use bat_markets.Prelude.{
  ℕ, ◌≡◌, refl, Bool, true, some, List, [], ◌∷◌, arith, any, inl, inr, Bool-cases, ◌∙◌, sym, ap,
}
use bat_markets.Ord.{◌===◌, nat_ord, str_ord}
use bat_markets.OrdMap.{OrdMap, get, insert, remove, contains_key, values}
use bat_markets.Core.Types.{Venue, InstrumentId}
use bat_markets.Core.Failure.{ok}
use bat_markets.Facade.Hub.{
  PublicSubscription, Routes, Routes-discrete, merge_public_subscriptions, merge_all,
  route_public_subscriptions,
}
use bat_markets.Facade.Hub.Streams.{
  PublicHub, PublicHubCommand, switch_public_stream, hub_step, run_public_hub, new_hub,
}
use bat_markets.Facade.Hub.Cover.{Topic, carries, wants, is_routed, route_public_subscriptions_lem}
use bat_markets.Facade.Hub.Opened.{
  never, decide-sound, spawn_replacements-never, opened_routes, IsOpened, run-IsOpened,
}

abbrev IsFollowing : Venue → PublicHub → Type 0
IsFollowing venue hub =
    hub.current_subscriptions ≡ route_public_subscriptions venue (values hub.active)

-- A switch with no failing spawn ends at the desired subscriptions and succeeds.
switch-never :
    (want : Routes PublicSubscription) (hub : PublicHub)
    → ((switch_public_stream never want hub).0 ≡ ok tt)
      × ((switch_public_stream never want hub).1.current_subscriptions ≡ want)
      × ((switch_public_stream never want hub).1.active ≡ hub.active)
unfolding switch_public_stream
switch-never want hub =
    let have : Routes PublicSubscription = hub.current_subscriptions in
    let o = spawn_replacements-never want have hub.spawns in
    elim (Bool-cases (decide (Routes-discrete have want))) [
      | inl y ↦
          rw (y, switch_public_stream) (refl, decide-sound (Routes-discrete have want) y, refl)
      | inr n ↦ rw (n, o.1, switch_public_stream) (refl, refl, refl)
    ]

-- An acquire then holds the lease.
pub acquire-active :
    (venue : Venue) (lease : ℕ) (s : PublicSubscription) (hub : PublicHub)
    → (hub_step never venue (PublicHubCommand.acquire lease s) hub).1.active
      ≡ insert lease s hub.active
unfolding hub_step
acquire-active venue lease s hub =
    let want = route_public_subscriptions venue (values (insert lease s hub.active)) in
    rw ((switch-never want hub).0, hub_step) refl

hub_step-IsFollowing :
    (venue : Venue) (c : PublicHubCommand) (hub : PublicHub)
    → IsFollowing venue hub
    → IsFollowing venue (hub_step never venue c hub).1
unfolding hub_step
hub_step-IsFollowing venue (PublicHubCommand.acquire lease s) hub f =
    let want = route_public_subscriptions venue (values (insert lease s hub.active)) in
    let o = switch-never want hub in rw (o.0, hub_step) o.1
hub_step-IsFollowing venue (PublicHubCommand.release lease) hub f =
    let rest = remove lease hub.active in
    let want = route_public_subscriptions venue (values rest) in
    let o = switch-never want (record hub { active = rest }) in
    elim (Bool-cases (contains_key lease hub.active)) [
      | inl y ↦
          rw (y, hub_step) (o.1 ∙ ap (λ m. route_public_subscriptions venue (values m)) (sym o.2))
      | inr n ↦ rw (n, hub_step) f
    ]

run-IsFollowing :
    (venue : Venue) (cs : List PublicHubCommand) (hub : PublicHub)
    → IsFollowing venue hub
    → IsFollowing venue (run_public_hub never venue cs hub)
unfolding run_public_hub
run-IsFollowing venue [] hub f = f
run-IsFollowing venue (c ∷ cs) hub f =
    run-IsFollowing venue cs (hub_step never venue c hub).1 (hub_step-IsFollowing venue c hub f)

new_hub-IsFollowing : (venue : Venue) → IsFollowing venue new_hub
unfolding route_public_subscriptions merge_public_subscriptions merge_all
new_hub-IsFollowing venue = refl

any_value :
    (p : PublicSubscription → Bool) (lease : ℕ) (s : PublicSubscription)
    (m : OrdMap ℕ PublicSubscription)
    → get lease m ≡ some s
    → p s ≡ true
    → any p (values m) ≡ true
unfolding get
any_value p lease s [] g h = cc
any_value p lease s ((k, v) ∷ m) g h = ground (arith, any_value p lease s m)

is_routed-opened :
    (topic : Topic) (id : InstrumentId) (hub : PublicHub)
    → IsOpened hub
    → is_routed topic id (opened_routes hub.current_streams)
      ≡ is_routed topic id hub.current_subscriptions
is_routed-opened topic id hub h = rw (h.0, h.1, h.2) refl

-- While no spawn fails, whatever leases come and go, each topic that a held lease asks for, of every
-- instrument it names, is asked for by the subscription that some route's current stream was spawned
-- with.
pub leases_served :
    (venue : Venue) (cs : List PublicHubCommand) (lease : ℕ) (s : PublicSubscription)
    (topic : Topic) (id : InstrumentId)
    → get lease (run_public_hub never venue cs new_hub).active ≡ some s
    → carries topic id s ≡ true
    → is_routed topic id (opened_routes (run_public_hub never venue cs new_hub).current_streams)
      ≡ true
leases_served venue cs lease s topic id g h =
    let hub = run_public_hub never venue cs new_hub in
    is_routed-opened topic id hub (run-IsOpened venue cs new_hub (refl, refl, refl))
    ∙ rw (run-IsFollowing venue cs new_hub (new_hub-IsFollowing venue)) (
        rw (route_public_subscriptions_lem venue topic id (values hub.active)) (
          ground (
            arith,
            h,
            any_value (λ v. any (λ i. id === i) v.instrument_ids) lease s hub.active g,
            any_value (λ v. wants topic v) lease s hub.active g,
          )))
