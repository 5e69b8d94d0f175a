-- ===== src/OrdMap/Sorted.antt =====
-- The order of the entries: keys rise strictly along the list, so no key stands twice.
use Prim.Native.Nat.Ordering.{lt}
use bat_markets.Prelude.{◌≡◌, refl, Bool, Option, none, some, List, [], ◌∷◌, arith, if◌then◌else◌}
use bat_markets.Ord.{Ord}
use bat_markets.OrdMap.{OrdMap, get, insert, collect, collect_from, retain}

-- `Option::filter`: what `retain` leaves under a key.
abbrev pub kept {κ} : {V : Type κ} → (V → Bool) → Option V → Option V
kept p none = none
kept p (some v) = if p v then some v else none

module _ {ℓ κ} {K : Type ℓ} {V : Type κ} ⦃o : Ord K⦄ where
  -- `k` is below every key.
  abbrev pub Below : K → OrdMap K V → Type 0
  Below k [] = Unit
  Below k ((j, w) ∷ m) = (o.cmp k j ≡ lt) × Below k m

  abbrev pub IsSorted : OrdMap K V → Type 0
  IsSorted [] = Unit
  IsSorted ((k, v) ∷ m) = Below k m × IsSorted m

  Below-trans : (j k : K) (m : OrdMap K V) → o.cmp j k ≡ lt → Below k m → Below j m
  Below-trans j k [] h b = tt
  Below-trans j k ((i, w) ∷ m) h b = (o.cmp_trans j k i h b.0, Below-trans j k m h b.1)

  Below-insert :
      (j k : K) (v : V) (m : OrdMap K V) → o.cmp j k ≡ lt → Below j m → Below j (insert k v m)
  unfolding insert
  Below-insert j k v [] h b = (h, tt)
  Below-insert j k v ((i, w) ∷ m) h b = ground (arith, Below-insert j k v m h b.1)

  pub insert-IsSorted : (k : K) (v : V) (m : OrdMap K V) → IsSorted m → IsSorted (insert k v m)
  unfolding insert
  insert-IsSorted k v [] s = (tt, tt)
  insert-IsSorted k v ((j, w) ∷ m) s = ground (
    arith,
    insert-IsSorted k v m s.1,
    Below-trans k j m,
    Below-insert j k v m,
    o.cmp_flip k j,
    o.cmp_iff k j,
  )

  Below-retain : (j : K) (p : K → V → Bool) (m : OrdMap K V) → Below j m → Below j (retain p m)
  Below-retain j p [] b = tt
  Below-retain j p ((i, w) ∷ m) b = ground (arith, Below-retain j p m b.1)

  pub retain-IsSorted : (p : K → V → Bool) (m : OrdMap K V) → IsSorted m → IsSorted (retain p m)
  retain-IsSorted p [] s = tt
  retain-IsSorted p ((k, v) ∷ m) s = ground (arith, retain-IsSorted p m s.1, Below-retain k p m s.0)

  collect_from-IsSorted :
      (es : List (K × V)) (m : OrdMap K V) → IsSorted m → IsSorted (collect_from es m)
  unfolding collect_from
  collect_from-IsSorted [] m s = s
  collect_from-IsSorted ((k, v) ∷ es) m s =
      collect_from-IsSorted es (insert k v m) (insert-IsSorted k v m s)

  pub collect-IsSorted : (es : List (K × V)) → IsSorted (collect es)
  unfolding collect
  collect-IsSorted es = collect_from-IsSorted es [] tt

  get-Below : (k : K) (m : OrdMap K V) → Below k m → get k m ≡ none
  unfolding get
  get-Below k [] b = refl
  get-Below k ((j, w) ∷ m) b = ground (arith, get-Below k m b.1)

  pub get-retain :
      (k : K) (p : K → V → Bool) (m : OrdMap K V)
      → IsSorted m
      → get k (retain p m) ≡ kept (p k) (get k m)
  unfolding get
  get-retain k p [] s = refl
  get-retain k p ((j, w) ∷ m) s =
      ground (arith, get-retain k p m s.1, get-Below j m s.0, o.cmp_iff k j)
