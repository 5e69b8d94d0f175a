-- ===== src/Facade/Hub/Replacements.antt =====
-- crates/bat-markets/src/subscriptions.rs: what the replacements of a switch start and abort.
use mathlib.Core.Bool.{decide}
use bat_markets.Prelude.{
  ℕ, ◌+◌, ◌≡◌, refl, Bool, not, ◌||◌, is_some, Option, none, some, List, [], if◌then◌else◌, length,
  arith, ◌&&◌, inl, inr, sym, subst, ◌∙◌,
}
use bat_markets.Ord.{nat_ord, str_ord}
use bat_markets.Core.Failure.{MarketError, ok, err, Result-cases}
use bat_markets.Facade.Hub.{PublicSubscription, PublicSubscription-discrete, Routes}
use bat_markets.Facade.Hub.Streams.{
  Handle, Spawns, same_subscription, handles, is_stale, settle_stream, spawn, spawn_route,
  spawn_replacements,
}

abbrev pub count : Option Handle → ℕ
count none = 0
count (some h) = 1

abbrev pub count_all : Routes Handle → ℕ
count_all r = count r.at_default + count r.at_market + count r.at_public

decide_sym : {A : Type 0} {a b : A} (d : Dec (a ≡ b)) (e : Dec (b ≡ a)) → decide d ≡ decide e
unfolding decide
decide_sym (yes p) (yes q) = refl
decide_sym (yes p) (no f) = absurd (f (sym p))
decide_sym (no f) (yes q) = absurd (f (sym q))
decide_sym (no f) (no g) = refl

same_sym : (a b : Option PublicSubscription) → same_subscription a b ≡ same_subscription b a
same_sym none none = refl
same_sym none (some b) = refl
same_sym (some a) none = refl
same_sym (some a) (some b) =
    decide_sym (PublicSubscription-discrete a b) (PublicSubscription-discrete b a)

-- A replacement is started where a subscription is desired that is not the current one.
abbrev pub is_replaced : Option PublicSubscription → Option PublicSubscription → Bool
is_replaced want have = is_some want && not (same_subscription have want)

-- The stream that a route loses.
abbrev pub removed : Bool → Option Handle → Option Handle → List Handle
removed stale fresh old = if stale || is_some fresh then handles old else []

pub settle_stream_lem :
    (want have : Option PublicSubscription) (fresh old : Option Handle)
    → is_some old ≡ is_some have
    → is_some fresh ≡ is_replaced want have
    → let stale = is_stale want have in
      (is_some (settle_stream stale fresh old) ≡ is_some want)
      × (count (settle_stream stale fresh old) + length (removed stale fresh old)
          ≡ count fresh + count old)
unfolding settle_stream
settle_stream_lem want have fresh old served replaced = ground (arith, same_sym want have)

ok_injective : {A : Type 0} {a b : A} → ok a ≡ ok b → a ≡ b
ok_injective e = cc

-- What one route's replacement does to the streams started and aborted.
abbrev Replaced :
    Option PublicSubscription → Option PublicSubscription → Spawns → Spawns → Option Handle → Type 0
Replaced want have w w' h =
    (w'.started ≡ count h + w.started)
    × (w'.aborted ≡ w.aborted)
    × (is_some h ≡ is_replaced want have)

ok_not_err : {A : Type 0} {a : A} {x : MarketError} → ok a ≡ err x → ⊥
ok_not_err e = cc

module _ (failure : ℕ → Option MarketError) where
  spawn_route-ok :
      (want have : Option PublicSubscription) (w : Spawns) (h : Option Handle)
      → (spawn_route failure want have w).0 ≡ ok h
      → Replaced want have w (spawn_route failure want have w).1 h
  unfolding spawn_route spawn
  spawn_route-ok none have w h e = ground arith
  spawn_route-ok (some s) have w h e = ground arith

  spawn_route-err :
      (want have : Option PublicSubscription) (w : Spawns) (x : MarketError)
      → (spawn_route failure want have w).0 ≡ err x
      → let w' = (spawn_route failure want have w).1 in
        (w'.started ≡ w.started) × (w'.aborted ≡ w.aborted)
  unfolding spawn_route spawn
  spawn_route-err none have w x e = ground arith
  spawn_route-err (some s) have w x e = ground arith

  pub replacements-err :
      (want have : Routes PublicSubscription) (w : Spawns) (x : MarketError)
      → (spawn_replacements failure want have w).0 ≡ err x
      → let w' = (spawn_replacements failure want have w).1 in
        w'.started + length w.aborted ≡ w.started + length w'.aborted
  unfolding spawn_replacements
  replacements-err want have w x e =
      let a = spawn_route failure want.at_default have.at_default w in
      elim (Result-cases a.0) [
        | inl (y, ha) ↦
            rw (ha, spawn_replacements)
              (ground (arith, spawn_route-err want.at_default have.at_default w y ha))
        | inr (h, ha) ↦
            let fa = spawn_route-ok want.at_default have.at_default w h ha in
            let b = spawn_route failure want.at_market have.at_market a.1 in
            elim (Result-cases b.0) [
              | inl (y, hb) ↦
                  rw (ha, hb, spawn_replacements)
                    (ground (arith, fa, spawn_route-err want.at_market have.at_market a.1 y hb))
              | inr (i, hb) ↦
                  let fb = spawn_route-ok want.at_market have.at_market a.1 i hb in
                  let c = spawn_route failure want.at_public have.at_public b.1 in
                  elim (Result-cases c.0) [
                    | inl (y, hc) ↦
                        rw (ha, hb, hc, spawn_replacements)
                          (ground
                            (arith, fa, fb, spawn_route-err want.at_public have.at_public b.1 y hc))
                    | inr (j, hc) ↦ absurd (ok_not_err (rw (ha, hb, hc, spawn_replacements) at e))
                  ]
            ]
      ]

  -- What the replacements are when every spawn succeeds.
  pub record AreReplaced (want have : Routes PublicSubscription) (w w' : Spawns) (r : Routes Handle)
      : Type 0 where
    pub started : w'.started ≡ count_all r + w.started
    pub aborted : w'.aborted ≡ w.aborted
    pub on_default : is_some r.at_default ≡ is_replaced want.at_default have.at_default
    pub on_market : is_some r.at_market ≡ is_replaced want.at_market have.at_market
    pub on_public : is_some r.at_public ≡ is_replaced want.at_public have.at_public

  all-Replaced :
      (want have : Routes PublicSubscription) (w a b c : Spawns) (h i j : Option Handle)
      (r : Routes Handle)
      → Replaced want.at_default have.at_default w a h
      → Replaced want.at_market have.at_market a b i
      → Replaced want.at_public have.at_public b c j
      → record { at_default = h; at_market = i; at_public = j } ≡ r
      → AreReplaced want have w c r
  all-Replaced want have w a b c h i j r fa fb fc e = subst (AreReplaced want have w c) e (record {
    started = omega (arith, fa.0, fb.0, fc.0);
    aborted = fc.1 ∙ fb.1 ∙ fa.1;
    on_default = fa.2;
    on_market = fb.2;
    on_public = fc.2;
  })

  pub replacements-ok :
      (want have : Routes PublicSubscription) (w : Spawns) (r : Routes Handle)
      → (spawn_replacements failure want have w).0 ≡ ok r
      → AreReplaced want have w (spawn_replacements failure want have w).1 r
  unfolding spawn_replacements
  replacements-ok want have w r e =
      let a = spawn_route failure want.at_default have.at_default w in
      elim (Result-cases a.0) [
        | inl (y, ha) ↦ absurd (ok_not_err (sym (rw (ha, spawn_replacements) at e)))
        | inr (h, ha) ↦
            let fa = spawn_route-ok want.at_default have.at_default w h ha in
            let b = spawn_route failure want.at_market have.at_market a.1 in
            elim (Result-cases b.0) [
              | inl (y, hb) ↦ absurd (ok_not_err (sym (rw (ha, hb, spawn_replacements) at e)))
              | inr (i, hb) ↦
                  let fb = spawn_route-ok want.at_market have.at_market a.1 i hb in
                  let c = spawn_route failure want.at_public have.at_public b.1 in
                  elim (Result-cases c.0) [
                    | inl (y, hc) ↦
                        absurd (ok_not_err (sym (rw (ha, hb, hc, spawn_replacements) at e)))
                    | inr (j, hc) ↦
                        rw (ha, hb, hc, spawn_replacements)
                          (all-Replaced want have w a.1 b.1 c.1 h i j r fa fb
                            (spawn_route-ok want.at_public have.at_public b.1 j hc)
                            (ok_injective (rw (ha, hb, hc, spawn_replacements) at e)))
                  ]
            ]
      ]
