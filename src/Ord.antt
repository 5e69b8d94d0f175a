-- ===== src/Ord.antt =====
-- The `Ord` bound of the keys of a `BTreeMap`, with the laws that the trait asks of `cmp`, and its
-- instances: numbers, and text in the byte order of `str`.
use Prim.Native.Nat.{compare, Ordering}
use Prim.Native.Nat.Ordering.{lt, eq, gt}
use bat_markets.Prelude.{ℕ, ◌≡◌, refl, ◌↔◌, Bool, true, false, [], ◌∷◌, arith}
use bat_markets.Prelude.Text.{Str}

pub record IsLawful {ℓ} {K : Type ℓ} (cmp : K → K → Ordering) : Type ℓ where
  pub cmp_trans : (x y z : K) → cmp x y ≡ lt → cmp y z ≡ lt → cmp x z ≡ lt
  pub cmp_iff : (a b : K) → (cmp a b ≡ eq) ↔ (a ≡ b)
  pub cmp_flip : (a b : K) → (cmp a b ≡ gt) ↔ (cmp b a ≡ lt)

pub record Ord {ℓ} (K : Type ℓ) : Type ℓ where
  pub cmp : K → K → Ordering
  pub lawful : IsLawful cmp
  pub open lawful use *

-- `PartialEq::eq`, which agrees with `cmp`.
infix 50 ◌===◌
abbrev pub ◌===◌ {ℓ} : {K : Type ℓ} ⦃o : Ord K⦄ → K → K → Bool
◌===◌ ⦃o⦄ a b = elim (o.cmp a b) [ eq ↦ true | _ ↦ false ]

pub compare-IsLawful : IsLawful compare
compare-IsLawful = ground arith

instance abbrev pub nat_ord : Ord ℕ
nat_ord = record { cmp = compare; lawful = compare-IsLawful }

abbrev pub then_cmp : Ordering → Ordering → Ordering
then_cmp eq second = second
then_cmp lt second = lt
then_cmp gt second = gt

abbrev pub cmp_str : Str → Str → Ordering
cmp_str [] [] = eq
cmp_str [] (y ∷ ys) = lt
cmp_str (x ∷ xs) [] = gt
cmp_str (x ∷ xs) (y ∷ ys) = then_cmp (compare x y) (cmp_str xs ys)

cmp_str_refl : (a : Str) → cmp_str a a ≡ eq
cmp_str_refl [] = refl
cmp_str_refl (x ∷ xs) = ground (arith, cmp_str_refl xs)

cmp_str-eq : (a b : Str) → cmp_str a b ≡ eq → a ≡ b
cmp_str-eq [] [] h = refl
cmp_str-eq [] (y ∷ ys) h = cc
cmp_str-eq (x ∷ xs) [] h = cc
cmp_str-eq (x ∷ xs) (y ∷ ys) h = ground (arith, cmp_str-eq xs ys)

cmp_str_iff : (a b : Str) → (cmp_str a b ≡ eq) ↔ (a ≡ b)
cmp_str_iff a b = (cmp_str-eq a b, λ e. rw e (cmp_str_refl b))

cmp_str_flip : (a b : Str) → (cmp_str a b ≡ gt) ↔ (cmp_str b a ≡ lt)
cmp_str_flip [] [] = ground arith
cmp_str_flip [] (y ∷ ys) = ground arith
cmp_str_flip (x ∷ xs) [] = ground arith
cmp_str_flip (x ∷ xs) (y ∷ ys) = ground (arith, cmp_str_flip xs ys)

cmp_str_trans : (a b c : Str) → cmp_str a b ≡ lt → cmp_str b c ≡ lt → cmp_str a c ≡ lt
cmp_str_trans [] [] c p q = cc
cmp_str_trans [] (y ∷ ys) [] p q = cc
cmp_str_trans [] (y ∷ ys) (z ∷ zs) p q = refl
cmp_str_trans (x ∷ xs) [] c p q = cc
cmp_str_trans (x ∷ xs) (y ∷ ys) [] p q = cc
cmp_str_trans (x ∷ xs) (y ∷ ys) (z ∷ zs) p q = ground (arith, cmp_str_trans xs ys zs)

pub cmp_str-IsLawful : IsLawful cmp_str
cmp_str-IsLawful = record {
  cmp_iff = cmp_str_iff;
  cmp_flip = cmp_str_flip;
  cmp_trans = cmp_str_trans;
}

instance abbrev pub str_ord : Ord Str
str_ord = record { cmp = cmp_str; lawful = cmp_str-IsLawful }
