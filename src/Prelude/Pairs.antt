-- ===== src/Prelude/Pairs.antt =====
-- Relations between each element of a list and those behind it.
use mathlib.Core.Path.{◌≡◌}
use mathlib.Core.List.{List, [], ◌∷◌, ◌++◌, map}
use mathlib.Core.Bool.{Bool, false}
use mathlib.Core.Logic.{inl, inr}
use native.Mathlib.Omega.{arith}
use aircraft_malt.Prelude.Logic.{Bool-cases}
use aircraft_malt.Prelude.Lists.{All, All-map, All-append, All-keep_if, keep_if, any_of}

module _ {ℓ κ} {A : Type ℓ} where
  abbrev pub Pairwise : (A → A → Type κ) → List A → Type κ
  Pairwise R [] = Unit
  Pairwise R (x ∷ xs) = All (R x) xs × Pairwise R xs

module _ {ℓ κ} {A : Type ℓ} (R : A → A → Type κ) where
  pub Pairwise-snoc :
      (xs : List A) (x : A) → Pairwise R xs → All (λ y. R y x) xs → Pairwise R (xs ++ x ∷ [])
  Pairwise-snoc [] x h k = (tt, tt)
  Pairwise-snoc (y ∷ ys) x h k =
      (All-append (R y) ys (x ∷ []) h.0 (k.0, tt), Pairwise-snoc ys x h.1 k.1)

  pub Pairwise-keep_if : (p : A → Bool) (xs : List A) → Pairwise R xs → Pairwise R (keep_if p xs)
  Pairwise-keep_if p [] h = tt
  Pairwise-keep_if p (x ∷ xs) h = elim (Bool-cases (p x)) [
    | inl e ↦ rw e (All-keep_if (R x) p xs h.0, Pairwise-keep_if p xs h.1)
    | inr e ↦ rw e (Pairwise-keep_if p xs h.1)
  ]

  All-related :
      (f : A → A)
      → ((a b : A) → R a b → R (f a) (f b))
      → (x : A) (xs : List A) → All (R x) xs
      → All (R (f x)) (map f xs)
  All-related f keep x [] h = tt
  All-related f keep x (y ∷ ys) h = (keep x y h.0, All-related f keep x ys h.1)

  pub Pairwise-map :
      (f : A → A)
      → ((a b : A) → R a b → R (f a) (f b))
      → (xs : List A) → Pairwise R xs
      → Pairwise R (map f xs)
  Pairwise-map f keep [] h = tt
  Pairwise-map f keep (x ∷ xs) h = (All-related f keep x xs h.0, Pairwise-map f keep xs h.1)

module _ {ℓ κ} {A : Type ℓ} (R S : A → A → Type κ) where
  pub Pairwise-weaken : ((a b : A) → R a b → S a b) → (xs : List A) → Pairwise R xs → Pairwise S xs
  Pairwise-weaken f [] h = tt
  Pairwise-weaken f (x ∷ xs) h = (All-map (R x) (S x) (f x) xs h.0, Pairwise-weaken f xs h.1)

module _ {ℓ κ} {A : Type ℓ} where
  pub All-mapped :
      (P : A → Type κ) (f : A → A)
      → ((a : A) → P a → P (f a))
      → (xs : List A) → All P xs
      → All P (map f xs)
  All-mapped P f keep [] h = tt
  All-mapped P f keep (x ∷ xs) h = (keep x h.0, All-mapped P f keep xs h.1)

module _ {ℓ} {A : Type ℓ} where
  -- No element passes a test that `any_of` refuses.
  pub any_of-none : (p : A → Bool) (xs : List A) → any_of p xs ≡ false → All (λ x. p x ≡ false) xs
  any_of-none p [] h = tt
  any_of-none p (x ∷ xs) h = (ground arith, any_of-none p xs (ground arith))
