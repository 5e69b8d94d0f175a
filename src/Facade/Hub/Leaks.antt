-- ===== src/Facade/Hub/Leaks.antt =====
-- crates/bat-markets/src/subscriptions.rs: the public hub keeps one stream per subscribed route and
-- leaks none, whatever spawns fail.
use mathlib.Core.Bool.{decide}
use bat_markets.Prelude.{
  ℕ, ◌+◌, ◌≡◌, refl, is_some, Option, List, [], ◌∷◌, ◌++◌, length, length-append, arith, inl, inr,
  ap, Bool-cases,
}
use bat_markets.Ord.{nat_ord, str_ord}
use bat_markets.OrdMap.{OrdMap, insert, remove, contains_key, values}
use bat_markets.Core.Types.{Venue}
use bat_markets.Core.Failure.{MarketError, Result-cases}
use bat_markets.Facade.Hub.{PublicSubscription, Routes, Routes-discrete, route_public_subscriptions}
use bat_markets.Facade.Hub.Streams.{
  Handle, PublicHub, PublicHubCommand, is_stale, spawn_replacements, switch_public_stream, hub_step,
  run_public_hub, new_hub,
}
use bat_markets.Facade.Hub.Replacements.{
  count_all, removed, settle_stream_lem, replacements-err, replacements-ok,
}

-- A route has a stream exactly when it has a subscription, and as many streams were started as serve
-- a route or were aborted.
pub record IsTidy (hub : PublicHub) : Type 0 where
  pub default_served :
      is_some hub.current_streams.at_default ≡ is_some hub.current_subscriptions.at_default
  pub market_served :
      is_some hub.current_streams.at_market ≡ is_some hub.current_subscriptions.at_market
  pub public_served :
      is_some hub.current_streams.at_public ≡ is_some hub.current_subscriptions.at_public
  pub none_leaks : hub.spawns.started ≡ count_all hub.current_streams + length hub.spawns.aborted

length_three :
    (a b c d : List Handle)
    → length ((a ++ b ++ c) ++ d) ≡ length a + length b + length c + length d
length_three a b c d =
    omega (arith, length-append (a ++ b ++ c) d, length-append (a ++ b) c, length-append a b)

-- The leases play no part in it.
with_active :
    {hub : PublicHub} (active : OrdMap ℕ PublicSubscription)
    → IsTidy hub
    → IsTidy (record hub { active = active })
with_active active t = record {
  default_served = t.default_served;
  market_served = t.market_served;
  public_served = t.public_served;
  none_leaks = t.none_leaks;
}

module _ (failure : ℕ → Option MarketError) where
  switch-IsTidy :
      (want : Routes PublicSubscription) (hub : PublicHub)
      → IsTidy hub
      → IsTidy (switch_public_stream failure want hub).1
  unfolding switch_public_stream
  switch-IsTidy want hub t =
      let have : Routes PublicSubscription = hub.current_subscriptions in
      elim (Bool-cases (decide (Routes-discrete have want))) [
        | inl y ↦ rw (y, switch_public_stream) t
        | inr n ↦ elim (Result-cases (spawn_replacements failure want have hub.spawns).0) [
          | inl (x, h) ↦
              rw (n, h, switch_public_stream)
                (record {
                  default_served = t.default_served;
                  market_served = t.market_served;
                  public_served = t.public_served;
                  none_leaks =
                      omega
                        (arith, t.none_leaks, replacements-err failure want have hub.spawns x h);
                })
          | inr (r, h) ↦
              let f = replacements-ok failure want have hub.spawns r h in
              let old : Routes Handle = hub.current_streams in
              let a =
                settle_stream_lem want.at_default have.at_default r.at_default old.at_default
                  t.default_served f.on_default in
              let b =
                settle_stream_lem want.at_market have.at_market r.at_market old.at_market
                  t.market_served f.on_market in
              let c =
                settle_stream_lem want.at_public have.at_public r.at_public old.at_public
                  t.public_served f.on_public in
              rw (n, h, switch_public_stream)
                (record {
                  default_served = a.0;
                  market_served = b.0;
                  public_served = c.0;
                  none_leaks = omega (
                    arith,
                    t.none_leaks,
                    f.started,
                    ap length f.aborted,
                    a.1,
                    b.1,
                    c.1,
                    length_three
                        (removed (is_stale want.at_default have.at_default) r.at_default
                          old.at_default)
                        (removed (is_stale want.at_market have.at_market) r.at_market old.at_market)
                        (removed (is_stale want.at_public have.at_public) r.at_public old.at_public)
                        (spawn_replacements failure want have hub.spawns).1.aborted,
                  );
                })
        ]
      ]

  hub_step-IsTidy :
      (venue : Venue) (c : PublicHubCommand) (hub : PublicHub)
      → IsTidy hub
      → IsTidy (hub_step failure venue c hub).1
  unfolding hub_step
  hub_step-IsTidy venue (PublicHubCommand.acquire lease s) hub t =
      let want = route_public_subscriptions venue (values (insert lease s hub.active)) in
      elim (Result-cases (switch_public_stream failure want hub).0) [
        | inl (x, h) ↦ rw (h, hub_step) (switch-IsTidy want hub t)
        | inr (r, h) ↦ rw (h, hub_step) (with_active _ (switch-IsTidy want hub t))
      ]
  hub_step-IsTidy venue (PublicHubCommand.release lease) hub t =
      let rest = remove lease hub.active in
      let want = route_public_subscriptions venue (values rest) in
      elim (Bool-cases (contains_key lease hub.active)) [
        | inl y ↦
            rw (y, hub_step)
              (switch-IsTidy want (record hub { active = rest }) (with_active rest t))
        | inr n ↦ rw (n, hub_step) t
      ]

  run-IsTidy :
      (venue : Venue) (cs : List PublicHubCommand) (hub : PublicHub)
      → IsTidy hub
      → IsTidy (run_public_hub failure venue cs hub)
  unfolding run_public_hub
  run-IsTidy venue [] hub t = t
  run-IsTidy venue (c ∷ cs) hub t =
      run-IsTidy venue cs (hub_step failure venue c hub).1 (hub_step-IsTidy venue c hub t)

  -- Whatever leases come and go and whichever spawns fail, a route has a stream exactly when it has a
  -- subscription, and as many streams were started as serve a route or were aborted.
  pub run_public_hub-IsTidy :
      (venue : Venue) (cs : List PublicHubCommand)
      → IsTidy (run_public_hub failure venue cs new_hub)
  run_public_hub-IsTidy venue cs = run-IsTidy venue cs new_hub (record {
    default_served = refl;
    market_served = refl;
    public_served = refl;
    none_leaks = refl;
  })
