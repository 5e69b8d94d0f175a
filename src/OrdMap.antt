-- ===== src/OrdMap.antt =====
-- `std::collections::BTreeMap`, as the list of its entries in the order of their keys.
pub mod Laws
pub mod Entries
pub mod Sorted
use Prim.Native.Nat.Ordering.{lt, eq, gt}
use bat_markets.Prelude.{
  Bool, not, Option, none, some, List, [], ◌∷◌, map, is_some, keep, if◌then◌else◌,
}
use bat_markets.Ord.{Ord, ◌===◌}

abbrev pub OrdMap {ℓ κ} : Type ℓ → Type κ → Type (ℓ ⊔ κ)
OrdMap K V = List (K × V)

module _ {ℓ κ} {K : Type ℓ} {V : Type κ} ⦃o : Ord K⦄ where
  unfoldable pub get : K → OrdMap K V → Option V
  get k [] = none
  get k ((j, w) ∷ m) = if k === j then some w else get k m

  unfoldable pub contains_key : K → OrdMap K V → Bool
  unfolding get
  contains_key k m = is_some (get k m)

  unfoldable pub insert : K → V → OrdMap K V → OrdMap K V
  insert k v [] = (k, v) ∷ []
  insert k v ((j, w) ∷ m) = elim (o.cmp k j) [
    | lt ↦ (k, v) ∷ (j, w) ∷ m
    | eq ↦ (k, v) ∷ m
    | gt ↦ (j, w) ∷ insert k v m
  ]

  unfoldable pub remove : K → OrdMap K V → OrdMap K V
  remove k m = keep (λ e. not (k === e.0)) m

  -- `into_iter().collect()`: of two entries with one key the later one stays.
  unfoldable pub collect_from : List (K × V) → OrdMap K V → OrdMap K V
  unfolding insert
  collect_from [] m = m
  collect_from ((k, v) ∷ es) m = collect_from es (insert k v m)

  unfoldable pub collect : List (K × V) → OrdMap K V
  unfolding collect_from
  collect es = collect_from es []

module _ {ℓ κ} {K : Type ℓ} {V : Type κ} where
  abbrev pub values : OrdMap K V → List V
  values m = map (λ e. e.1) m

  abbrev pub keys : OrdMap K V → List K
  keys m = map (λ e. e.0) m

  -- `retain`.
  abbrev pub retain : (K → V → Bool) → OrdMap K V → OrdMap K V
  retain p m = keep (λ e. p e.0 e.1) m
