-- ===== src/OrdMap/Laws.antt =====
-- Lookup after each operation of the map. No law here needs the order of the entries.
use bat_markets.Prelude.{◌≡◌, refl, none, some, [], ◌∷◌, arith, if◌then◌else◌}
use bat_markets.Ord.{Ord, ◌===◌}
use bat_markets.OrdMap.{OrdMap, get, insert, remove}

module _ {ℓ κ} {K : Type ℓ} {V : Type κ} ⦃o : Ord K⦄ where
  pub get-insert :
      (j k : K) (v : V) (m : OrdMap K V)
      → get j (insert k v m) ≡ (if j === k then some v else get j m)
  unfolding get insert
  get-insert j k v [] = refl
  get-insert j k v ((i, w) ∷ m) =
      ground (arith, get-insert j k v m, o.cmp_iff j k, o.cmp_iff k i, o.cmp_iff j i)

  pub get-insert_self : (k : K) (v : V) (m : OrdMap K V) → get k (insert k v m) ≡ some v
  get-insert_self k v m = rw get-insert (ground (arith, o.cmp_iff k k))

  pub get-remove :
      (j k : K) (m : OrdMap K V) → get j (remove k m) ≡ (if j === k then none else get j m)
  unfolding get remove
  get-remove j k [] = ground arith
  get-remove j k ((i, w) ∷ m) =
      ground (arith, get-remove j k m, o.cmp_iff j k, o.cmp_iff k i, o.cmp_iff j i)
