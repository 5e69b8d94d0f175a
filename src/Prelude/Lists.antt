-- ===== src/Prelude/Lists.antt =====
-- Lists measured and searched with native numbers and Boolean tests.
use Prim.Native.Nat.{ℕ, suc, ◌+◌, ◌≤◌}
use mathlib.Core.Path.{◌≡◌, ◌∙◌, refl, ap, sym}
use mathlib.Core.Logic.{◌⊎◌, inl, inr}
use mathlib.Core.Bool.{Bool, true, false, ◌||◌}
use mathlib.Core.List.{List, [], ◌∷◌, ◌++◌}
use native.Mathlib.Omega.{arith}
use bat_markets.Prelude.Tests.{Bool-cases, if◌then◌else◌}

module _ {ℓ} {A : Type ℓ} where
  abbrev pub length : List A → ℕ
  length [] = 0
  length (x ∷ xs) = suc (length xs)

  -- `Iterator::any`.
  abbrev pub any : (A → Bool) → List A → Bool
  any p [] = false
  any p (x ∷ xs) = p x || any p xs

  -- `Iterator::filter` and `retain`, by a Boolean test.
  abbrev pub keep : (A → Bool) → List A → List A
  keep p [] = []
  keep p (x ∷ xs) = if p x then x ∷ keep p xs else keep p xs

  -- Each element satisfies the predicate.
  abbrev pub All {κ} : (A → Type κ) → List A → Type κ
  All P [] = Unit
  All P (x ∷ xs) = P x × All P xs

  pub length-append : (xs ys : List A) → length (xs ++ ys) ≡ length xs + length ys
  length-append [] ys = omega arith
  length-append (x ∷ xs) ys = omega (arith, length-append xs ys)

  pub length-keep-le : (p : A → Bool) (xs : List A) → length (keep p xs) ≤ length xs
  length-keep-le p [] = omega arith
  length-keep-le p (x ∷ xs) = ground (arith, length-keep-le p xs)

  pub append_assoc : (xs ys zs : List A) → (xs ++ ys) ++ zs ≡ xs ++ (ys ++ zs)
  append_assoc [] ys zs = refl
  append_assoc (x ∷ xs) ys zs = ap (λ r. x ∷ r) (append_assoc xs ys zs)

  pub append_nil : (xs : List A) → xs ++ [] ≡ xs
  append_nil [] = refl
  append_nil (x ∷ xs) = ap (λ r. x ∷ r) (append_nil xs)

  pub any-append : (p : A → Bool) (xs ys : List A) → any p (xs ++ ys) ≡ (any p xs || any p ys)
  any-append p [] ys = refl
  any-append p (x ∷ xs) ys = ground (arith, any-append p xs ys)

  pub All-imp {κ μ} :
      {P : A → Type κ} {Q : A → Type μ}
      → ((x : A) → P x → Q x)
      → (xs : List A) → All P xs
      → All Q xs
  All-imp f [] h = tt
  All-imp f (x ∷ xs) h = (f x h.0, All-imp f xs h.1)

  pub All-keep {κ} : (P : A → Type κ) (p : A → Bool) (xs : List A) → All P xs → All P (keep p xs)
  All-keep P p [] h = tt
  All-keep P p (x ∷ xs) h = ground (arith, All-keep P p xs h.1)

module _ {A : Type 0} where
  -- The element stands in the list.
  abbrev pub In : A → List A → Type 0
  In a [] = ⊥
  In a (x ∷ xs) = (a ≡ x) ⊎ In a xs

  pub In-append-left : (a : A) (xs ys : List A) → In a xs → In a (xs ++ ys)
  In-append-left a [] ys h = absurd h
  In-append-left a (x ∷ xs) ys h = ground (arith, In-append-left a xs ys)

  pub In-append-right : (a : A) (xs ys : List A) → In a ys → In a (xs ++ ys)
  In-append-right a [] ys h = h
  In-append-right a (x ∷ xs) ys h = inr (In-append-right a xs ys h)

  pub In-append-cases : (a : A) (xs ys : List A) → In a (xs ++ ys) → In a xs ⊎ In a ys
  In-append-cases a [] ys h = inr h
  In-append-cases a (x ∷ xs) ys h = ground (arith, In-append-cases a xs ys)

  pub In-keep : (a : A) (p : A → Bool) (xs : List A) → In a xs → p a ≡ true → In a (keep p xs)
  In-keep a p [] h e = absurd h
  In-keep a p (x ∷ xs) h e = ground (arith, In-keep a p xs)

  pub keep-In : (a : A) (p : A → Bool) (xs : List A) → In a (keep p xs) → In a xs × (p a ≡ true)
  keep-In a p [] h = absurd h
  keep-In a p (x ∷ xs) h = ground (arith, keep-In a p xs)

  -- What no element passes, no element that is kept passes.
  pub any-keep : (p q : A → Bool) (xs : List A) → any p xs ≡ false → any p (keep q xs) ≡ false
  any-keep p q [] h = refl
  any-keep p q (x ∷ xs) h = ground (arith, any-keep p q xs)

  pub any-In : (p : A → Bool) (xs : List A) → any p xs ≡ true → (x : A) × In x xs × (p x ≡ true)
  any-In p [] h = absurd (cc)
  any-In p (x ∷ xs) h = elim (Bool-cases (p x)) [
    | inl y ↦ (x, inl refl, y)
    | inr n ↦ let (a, found, passed) = any-In p xs (rw (n) at h) in (a, inr found, passed)
  ]

  pub In-any : (p : A → Bool) (x : A) (xs : List A) → In x xs → p x ≡ true → any p xs ≡ true
  In-any p x [] h e = absurd h
  In-any p x (y ∷ xs) (inl same) e = rw (ap p (sym same) ∙ e) refl
  In-any p x (y ∷ xs) (inr later) e = ground (arith, In-any p x xs later e)
