-- ===== src/Facade/Shared/Listed.antt =====
-- crates/bat-markets/src/client.rs: the check of a public event of a batch.
use bat_markets.Prelude.{
  ◌≡◌, ◌⊎◌, ◌∙◌, refl, true, false, Option, none, some, [], ◌∷◌, any, arith, inl, inr, Bool-cases,
  ap, sym,
}
use bat_markets.Ord.{◌===◌, str_ord}
use bat_markets.OrdMap.{OrdMap, get, contains_key, values}
use bat_markets.OrdMap.Entries.{AllEntries}
use bat_markets.Core.Types.{InstrumentId}
use bat_markets.Core.Instrument.{InstrumentSpec}
use bat_markets.Core.Failure.{MarketError, Result, err, config_error}
use bat_markets.Core.Execution.{PublicLaneEvent}
use bat_markets.Core.Engine.{EngineState}
use bat_markets.Core.Engine.Read.{instrument_specs}
use bat_markets.Core.Engine.Filed.{IsFiled}
use bat_markets.Core.Engine.Ingest.{scaled_by, is_listed}
use bat_markets.Facade.Shared.{
  check_one, fallible_public_event_instrument_id, unknown_public_event_error,
}

module _ {D : Type 0} where
  -- The event is converted through no instrument, or through a listed one.
  abbrev pub IsListed : EngineState D → PublicLaneEvent D → Type 0
  IsListed s e = is_listed (scaled_by e) s ≡ true

  pub scaled_lem : (e : PublicLaneEvent D) → fallible_public_event_instrument_id e ≡ scaled_by e
  unfolding fallible_public_event_instrument_id
  scaled_lem (PublicLaneEvent.ticker t) = refl
  scaled_lem e = ground arith

  -- In a filed store the ids of the values are the keys.
  any_named :
      (id : InstrumentId) (m : OrdMap InstrumentId (InstrumentSpec D))
      → AllEntries (λ k v. v.instrument_id ≡ k) m
      → any (λ spec. spec.instrument_id === id) (values m) ≡ contains_key id m
  unfolding contains_key get
  any_named id [] h = refl
  any_named id ((k, v) ∷ m) h =
      ground (arith, any_named id m h.1, str_ord.cmp_iff id k, str_ord.cmp_iff k id)

  pub listed_same :
      (id : Option InstrumentId) (s t : EngineState D)
      → t.instruments ≡ s.instruments
      → is_listed id s ≡ is_listed id t
  listed_same none s t h = refl
  listed_same (some id) s t h = ap (λ m. contains_key id m) (sym h)

  pub check_one_cases :
      (id : Option InstrumentId) (s : EngineState D) (rest : Result (Unit {0}))
      → IsFiled s
      → ((is_listed id s ≡ true) × (check_one s id rest ≡ rest))
        ⊎ ((is_listed id s ≡ false)
            × ((e : MarketError) × (check_one s id rest ≡ err e) × (e.kind ≡ config_error)))
  unfolding instrument_specs unknown_public_event_error
  check_one_cases none s rest f = inl (refl, refl)
  check_one_cases (some id) s rest f =
      let named = any_named id s.instruments f.instruments.named in
      elim (Bool-cases (contains_key id s.instruments)) [
        | inl y ↦ inl (y, rw (named ∙ y) refl)
        | inr n ↦ inr (n, (unknown_public_event_error s id, rw (named ∙ n) refl, refl))
      ]
