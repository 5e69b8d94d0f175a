-- ===== src/Facade/Hub/Streams.antt =====
-- crates/bat-markets/src/subscriptions.rs: `switch_public_stream` and `run_public_hub`. What a spawn
-- returns is an argument, the error of each attempt that fails (`runtime::spawn_public_stream` as it
-- stands never fails).
use mathlib.Core.Bool.{decide}
use bat_markets.Prelude.{
  ℕ, suc, Bool, true, false, not, ◌||◌, is_some, Option, none, some, List, [], ◌∷◌, ◌++◌,
  if◌then◌else◌,
}
use bat_markets.Ord.{str_ord, nat_ord}
use bat_markets.OrdMap.{OrdMap, insert, remove, contains_key, values}
use bat_markets.Core.Types.{Venue}
use bat_markets.Core.Failure.{MarketError, Result, ok, err}
use bat_markets.Facade.Hub.{
  PublicSubscription, PublicSubscription-discrete, Routes, Routes-discrete, no_routes,
  route_public_subscriptions,
}

-- Of the stream behind a handle, the number of its spawn and the public subscription it was spawned
-- with, which the private stream has not.
pub record Handle : Type 0 where
  pub number : ℕ
  pub opened_for : Option PublicSubscription

-- The attempts to start a stream so far, the streams started and the ones aborted.
pub record Spawns : Type 0 where
  pub attempts : ℕ
  pub started : ℕ
  pub aborted : List Handle

pub record PublicHub : Type 0 where
  pub active : OrdMap ℕ PublicSubscription
  pub current_subscriptions : Routes PublicSubscription
  pub current_streams : Routes Handle
  pub spawns : Spawns

pub data PublicHubCommand : Type 0 where
  acquire : ℕ → PublicSubscription → PublicHubCommand
  release : ℕ → PublicHubCommand

abbrev pub same_subscription : Option PublicSubscription → Option PublicSubscription → Bool
same_subscription none none = true
same_subscription none (some b) = false
same_subscription (some a) none = false
same_subscription (some a) (some b) = decide (PublicSubscription-discrete a b)

abbrev pub handles : Option Handle → List Handle
handles none = []
handles (some h) = h ∷ []

abbrev pub abort : List Handle → Spawns → Spawns
abort hs w = record w { aborted = hs ++ w.aborted }

-- A route whose current subscription is not the desired one is stale: its stream is removed.
abbrev pub is_stale : Option PublicSubscription → Option PublicSubscription → Bool
is_stale desired none = false
is_stale desired (some s) = not (same_subscription desired (some s))

-- The stream that stays on a route after the stale ones are removed and a replacement is inserted.
unfoldable pub settle_stream : Bool → Option Handle → Option Handle → Option Handle
settle_stream stale none stream = if stale then none else stream
settle_stream stale (some h) stream = some h

module _ (failure : ℕ → Option MarketError) where
  -- `spawn_public_stream`: the next handle, or the error of this attempt.
  unfoldable pub spawn : Option PublicSubscription → Spawns → Result Handle × Spawns
  spawn s w = elim (failure w.attempts) [
    | none ↦ (
      ok (record { number = w.started; opened_for = s }),
      record w { attempts = suc w.attempts; started = suc w.started },
    )
    | some e ↦ (err e, record w { attempts = suc w.attempts })
  ]

  -- One round of the loop over `desired`: a replacement, where one is needed.
  unfoldable pub spawn_route :
      Option PublicSubscription
      → Option PublicSubscription
      → Spawns
      → Result (Option Handle) × Spawns
  unfolding spawn
  spawn_route none current w = (ok none, w)
  spawn_route (some s) current w =
      if same_subscription current (some s) then (ok none, w) else elim (spawn (some s) w).0 [
        | err e ↦ (err e, (spawn (some s) w).1)
        | ok h ↦ (ok (some h), (spawn (some s) w).1)
      ]

  -- The loop over `desired`; an error aborts the replacements made before it.
  unfoldable pub spawn_replacements :
      Routes PublicSubscription
      → Routes PublicSubscription
      → Spawns
      → Result (Routes Handle) × Spawns
  unfolding spawn_route
  spawn_replacements desired current w =
      let a = spawn_route desired.at_default current.at_default w in
      elim a.0 [
        | err e ↦ (err e, a.1)
        | ok h ↦
            let b = spawn_route desired.at_market current.at_market a.1 in
            elim b.0 [
              | err e ↦ (err e, abort (handles h) b.1)
              | ok i ↦
                  let c = spawn_route desired.at_public current.at_public b.1 in
                  elim c.0 [
                    | err e ↦ (err e, abort (handles h ++ handles i) c.1)
                    | ok j ↦ (ok (record { at_default = h; at_market = i; at_public = j }), c.1)
                  ]
            ]
      ]

  -- `switch_public_stream`. Of a route's old stream, if it is removed or replaced, the abort is
  -- recorded.
  unfoldable pub switch_public_stream :
      Routes PublicSubscription → PublicHub → Result (Unit {0}) × PublicHub
  unfolding spawn_replacements settle_stream
  switch_public_stream desired hub =
      let current = hub.current_subscriptions in
      let streams = hub.current_streams in
      let spawned = spawn_replacements desired current hub.spawns in
      if decide (Routes-discrete current desired) then (ok tt, hub) else elim spawned.0 [
        | err e ↦ (err e, record hub { spawns = spawned.1 })
        | ok fresh ↦
            let route : Option PublicSubscription
                → Option PublicSubscription
                → Option Handle
                → Option Handle
                → Option Handle × List Handle =
              λ want have new old. (
                settle_stream (is_stale want have) new old,
                if is_stale want have || is_some new then handles old else [],
              ) in
            let a =
              route desired.at_default current.at_default fresh.at_default streams.at_default in
            let b = route desired.at_market current.at_market fresh.at_market streams.at_market in
            let c = route desired.at_public current.at_public fresh.at_public streams.at_public in
            (
              ok tt,
              record hub {
                current_subscriptions = desired;
                current_streams = record { at_default = a.0; at_market = b.0; at_public = c.0 };
                spawns = abort (a.1 ++ b.1 ++ c.1) spawned.1;
              },
            )
      ]

  -- One command of `run_public_hub`, with the response to an acquire.
  unfoldable pub hub_step :
      Venue → PublicHubCommand → PublicHub → Option (Result (Unit {0})) × PublicHub
  unfolding switch_public_stream
  hub_step venue (PublicHubCommand.acquire lease subscription) hub =
      let candidate = insert lease subscription hub.active in
      let switched =
        switch_public_stream (route_public_subscriptions venue (values candidate)) hub in
      elim switched.0 [
        | ok t ↦ (some (ok tt), record switched.1 { active = candidate })
        | err e ↦ (some (err e), switched.1)
      ]
  hub_step venue (PublicHubCommand.release lease) hub =
      let rest = remove lease hub.active in
      let switched =
        switch_public_stream (route_public_subscriptions venue (values rest))
          (record hub { active = rest }) in
      if contains_key lease hub.active then (none, switched.1) else (none, hub)

  unfoldable pub run_public_hub : Venue → List PublicHubCommand → PublicHub → PublicHub
  unfolding hub_step
  run_public_hub venue [] hub = hub
  run_public_hub venue (c ∷ cs) hub = run_public_hub venue cs (hub_step venue c hub).1

abbrev pub new_hub : PublicHub
new_hub = record {
  active = [];
  current_subscriptions = no_routes;
  current_streams = no_routes;
  spawns = record { attempts = 0; started = 0; aborted = [] };
}
