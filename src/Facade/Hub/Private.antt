-- ===== src/Facade/Hub/Private.antt =====
-- crates/bat-markets/src/subscriptions.rs: `run_private_hub`, which shares the private stream. A
-- handle is the number of its spawn; the error of each attempt that fails is an argument.
use bat_markets.Prelude.{
  ℕ, ◌+◌, ◌≡◌, refl, Bool, true, false, not, is_some, Option, none, some, List, [], ◌∷◌,
  if◌then◌else◌, length, arith,
}
use bat_markets.Ord.{nat_ord}
use bat_markets.OrdMap.{OrdMap, get, insert, remove, contains_key}
use bat_markets.Core.Failure.{MarketError, Result, ok, err}
use bat_markets.Facade.Hub.Streams.{Handle, Spawns, handles, abort, spawn}
use bat_markets.Facade.Hub.Replacements.{count}

pub record PrivateHub : Type 0 where
  pub active : OrdMap ℕ (Unit {0})
  pub current_stream : Option Handle
  pub spawns : Spawns

pub data PrivateHubCommand : Type 0 where
  acquire release : ℕ → PrivateHubCommand

abbrev pub new_private_hub : PrivateHub
new_private_hub = record {
  active = [];
  current_stream = none;
  spawns = record { attempts = 0; started = 0; aborted = [] };
}

abbrev pub is_empty : OrdMap ℕ (Unit {0}) → Bool
is_empty [] = true
is_empty (x ∷ xs) = false

module _ (failure : ℕ → Option MarketError) where
  -- One command of the loop, with the response to an acquire.
  unfoldable pub private_hub_step :
      PrivateHubCommand → PrivateHub → Option (Result (Unit {0})) × PrivateHub
  private_hub_step (PrivateHubCommand.acquire lease) hub = elim hub.current_stream [
    | some h ↦ (some (ok tt), record hub { active = insert lease tt hub.active })
    | none ↦ elim (spawn failure none hub.spawns).0 [
      | err e ↦ (some (err e), record hub { spawns = (spawn failure none hub.spawns).1 })
      | ok h ↦ (
        some (ok tt),
        record {
          active = insert lease tt hub.active;
          current_stream = some h;
          spawns = (spawn failure none hub.spawns).1;
        },
      )
    ]
  ]
  private_hub_step (PrivateHubCommand.release lease) hub =
      let rest = remove lease hub.active in
      if contains_key lease hub.active
      then (if is_empty rest
          then (
            none,
            record {
              active = rest;
              current_stream = none;
              spawns = abort (handles hub.current_stream) hub.spawns;
            },
          )
          else (none, record hub { active = rest }))
      else (none, hub)

  unfoldable pub run_private_hub : List PrivateHubCommand → PrivateHub → PrivateHub
  unfolding private_hub_step
  run_private_hub [] hub = hub
  run_private_hub (c ∷ cs) hub = run_private_hub cs (private_hub_step c hub).1

-- The stream is up exactly while a lease is held, and as many streams were started as are up or were
-- aborted.
pub record IsShared (hub : PrivateHub) : Type 0 where
  pub up_while_held : is_some hub.current_stream ≡ not (is_empty hub.active)
  pub none_leaks : hub.spawns.started ≡ count hub.current_stream + length hub.spawns.aborted

insert-not_empty : (lease : ℕ) (m : OrdMap ℕ (Unit {0})) → is_empty (insert lease tt m) ≡ false
unfolding insert
insert-not_empty lease [] = refl
insert-not_empty lease ((k, u) ∷ m) = ground arith

held-not_empty :
    (lease : ℕ) (m : OrdMap ℕ (Unit {0})) → contains_key lease m ≡ true → is_empty m ≡ false
unfolding contains_key get
held-not_empty lease [] h = cc
held-not_empty lease (x ∷ m) h = refl

module _ (failure : ℕ → Option MarketError) where
  step-up :
      (c : PrivateHubCommand) (hub : PrivateHub)
      → is_some hub.current_stream ≡ not (is_empty hub.active)
      → let hub' = (private_hub_step failure c hub).1 in
        is_some hub'.current_stream ≡ not (is_empty hub'.active)
  unfolding private_hub_step spawn
  step-up (PrivateHubCommand.acquire lease) hub up =
      ground (arith, insert-not_empty lease hub.active)
  step-up (PrivateHubCommand.release lease) hub up = ground (arith, held-not_empty lease hub.active)

  step-leaks :
      (c : PrivateHubCommand) (hub : PrivateHub)
      → hub.spawns.started ≡ count hub.current_stream + length hub.spawns.aborted
      → let hub' = (private_hub_step failure c hub).1 in
        hub'.spawns.started ≡ count hub'.current_stream + length hub'.spawns.aborted
  unfolding private_hub_step spawn
  step-leaks (PrivateHubCommand.acquire lease) hub e = ground (arith, e)
  step-leaks (PrivateHubCommand.release lease) hub e = ground (arith, e)

  run-IsShared :
      (cs : List PrivateHubCommand) (hub : PrivateHub)
      → IsShared hub
      → IsShared (run_private_hub failure cs hub)
  unfolding run_private_hub
  run-IsShared [] hub s = s
  run-IsShared (c ∷ cs) hub s = run-IsShared cs (private_hub_step failure c hub).1 (record {
    up_while_held = step-up c hub s.up_while_held;
    none_leaks = step-leaks c hub s.none_leaks;
  })

  -- Whatever leases come and go and whichever spawns fail, the private stream is up exactly while a
  -- lease is held, and as many streams were started as are up or were aborted.
  pub run_private_hub-IsShared :
      (cs : List PrivateHubCommand) → IsShared (run_private_hub failure cs new_private_hub)
  run_private_hub-IsShared cs =
      run-IsShared cs new_private_hub (record { up_while_held = refl; none_leaks = refl })
