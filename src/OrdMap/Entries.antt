-- ===== src/OrdMap/Entries.antt =====
-- Predicates on every entry of a map, and that the operations keep them.
use bat_markets.Prelude.{◌≡◌, Bool, some, List, [], ◌∷◌, arith, unwrap_or}
use bat_markets.Ord.{Ord}
use bat_markets.OrdMap.{OrdMap, get, insert, collect, collect_from, retain}

-- Every value satisfies `P` together with its key.
abbrev pub AllEntries {ℓ κ μ} : {K : Type ℓ} {V : Type κ} → (K → V → Type μ) → OrdMap K V → Type μ
AllEntries P [] = Unit
AllEntries P ((k, v) ∷ m) = P k v × AllEntries P m

module _ {ℓ κ μ} {K : Type ℓ} {V : Type κ} ⦃o : Ord K⦄ (P : K → V → Type μ) where
  pub AllEntries-insert :
      (k : K) (v : V) (m : OrdMap K V) → P k v → AllEntries P m → AllEntries P (insert k v m)
  unfolding insert
  AllEntries-insert k v [] p h = (p, tt)
  AllEntries-insert k v ((j, w) ∷ m) p h = ground (arith, AllEntries-insert k v m p h.1)

  pub AllEntries-get : (k : K) (v : V) (m : OrdMap K V) → AllEntries P m → get k m ≡ some v → P k v
  unfolding get
  AllEntries-get k v [] h e = cc
  AllEntries-get k v ((j, w) ∷ m) h e = ground (arith, o.cmp_iff k j, AllEntries-get k v m h.1)

module _ {ℓ κ μ} {K : Type ℓ} {V : Type κ} (P : K → V → Type μ) where
  pub AllEntries-retain :
      (p : K → V → Bool) (m : OrdMap K V) → AllEntries P m → AllEntries P (retain p m)
  AllEntries-retain p [] h = tt
  AllEntries-retain p ((k, v) ∷ m) h = ground (arith, AllEntries-retain p m h.1)

module _ {ℓ κ μ} {K : Type ℓ} {V : Type κ} ⦃o : Ord K⦄ (P : K → V → Type μ) where
  -- `P` of the value read, or of the default where there is none.
  pub AllEntries-unwrap_or :
      (k : K) (d : V) (m : OrdMap K V) → P k d → AllEntries P m → P k (unwrap_or (get k m) d)
  unfolding get
  AllEntries-unwrap_or k d [] p h = p
  AllEntries-unwrap_or k d ((j, w) ∷ m) p h =
      ground (arith, o.cmp_iff k j, AllEntries-unwrap_or k d m p h.1)

  pub AllEntries-collect_from :
      (es : List (K × V)) (m : OrdMap K V)
      → AllEntries P es
      → AllEntries P m
      → AllEntries P (collect_from es m)
  unfolding collect_from
  AllEntries-collect_from [] m hs h = h
  AllEntries-collect_from ((k, v) ∷ es) m hs h =
      AllEntries-collect_from es (insert k v m) hs.1 (AllEntries-insert P k v m hs.0 h)

  pub AllEntries-collect : (es : List (K × V)) → AllEntries P es → AllEntries P (collect es)
  unfolding collect
  AllEntries-collect es h = AllEntries-collect_from es [] h tt
