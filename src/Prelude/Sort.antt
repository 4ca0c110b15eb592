-- ===== src/Prelude/Sort.antt =====
-- Python's stable `list.sort` by a strict order, and how many elements of a list pass a test.
use Prim.Native.Nat.{ℕ, ◌+◌, ◌≤◌}
use mathlib.Core.Path.{◌≡◌, refl}
use mathlib.Core.Logic.{inl, inr}
use mathlib.Core.Bool.{Bool, true, false}
use mathlib.Core.List.{List, [], ◌∷◌, ◌++◌}
use native.Mathlib.Omega.{arith}
use aircraft_malt.Prelude.Logic.{if◌then◌else◌, Bool-cases}
use aircraft_malt.Prelude.Lists.{All, length}

module _ {A : Type 0} (before : A → A → Bool) where
  -- An element stands behind those that come before it, and in front of its equals.
  unfoldable pub insert_with : A → List A → List A
  insert_with a [] = a ∷ []
  insert_with a (b ∷ bs) = if before b a then b ∷ insert_with a bs else a ∷ b ∷ bs

  -- `xs.sort(...)`; on an order that is total up to equals this is the only stable result.
  unfoldable pub sort_with : List A → List A
  unfolding insert_with
  sort_with [] = []
  sort_with (a ∷ bs) = insert_with a (sort_with bs)

module _ {ℓ} {A : Type 0} (before : A → A → Bool) (P : A → Type ℓ) where
  All-insert_with : (a : A) (bs : List A) → P a → All P bs → All P (insert_with before a bs)
  unfolding insert_with
  All-insert_with a [] p h = (p, tt)
  All-insert_with a (b ∷ bs) p h = elim (Bool-cases (before b a)) [
    | inl e ↦ rw e (h.0, All-insert_with a bs p h.1)
    | inr e ↦ rw e (p, h)
  ]

  pub All-sort_with : (bs : List A) → All P bs → All P (sort_with before bs)
  unfolding sort_with
  All-sort_with [] h = tt
  All-sort_with (b ∷ bs) h = All-insert_with b (sort_with before bs) h.0 (All-sort_with bs h.1)

module _ {A : Type 0} where
  -- How many elements pass the test.
  abbrev pub tally : (A → Bool) → List A → ℕ
  tally p [] = 0
  tally p (x ∷ xs) = (if p x then 1 else 0) + tally p xs

  pub tally-append : (p : A → Bool) (xs ys : List A) → tally p (xs ++ ys) ≡ tally p xs + tally p ys
  tally-append p [] ys = omega arith
  tally-append p (x ∷ xs) ys = omega (arith, tally-append p xs ys)

  pub tally-le-length : (p : A → Bool) (xs : List A) → tally p xs ≤ length xs
  tally-le-length p [] = omega arith
  tally-le-length p (x ∷ xs) = ground (arith, tally-le-length p xs)

module _ {A : Type 0} (before : A → A → Bool) where
  tally-insert_with :
      (p : A → Bool) (a : A) (bs : List A) → tally p (insert_with before a bs) ≡ tally p (a ∷ bs)
  unfolding insert_with
  tally-insert_with p a [] = refl
  tally-insert_with p a (b ∷ bs) = elim (Bool-cases (before b a)) [
    | inl e ↦ rw e (omega (arith, tally-insert_with p a bs))
    | inr e ↦ rw e
  ]

  length-insert_with : (a : A) (bs : List A) → length (insert_with before a bs) ≡ length (a ∷ bs)
  unfolding insert_with
  length-insert_with a [] = refl
  length-insert_with a (b ∷ bs) = ground (arith, length-insert_with a bs)

  pub length-sort_with : (bs : List A) → length (sort_with before bs) ≡ length bs
  unfolding sort_with
  length-sort_with [] = refl
  length-sort_with (b ∷ bs) =
      omega (arith, length-insert_with b (sort_with before bs), length-sort_with bs)

  -- Sorting keeps every element as often as it was there.
  pub tally-sort_with : (p : A → Bool) (bs : List A) → tally p (sort_with before bs) ≡ tally p bs
  unfolding sort_with
  tally-sort_with p [] = refl
  tally-sort_with p (b ∷ bs) =
      omega (arith, tally-insert_with p b (sort_with before bs), tally-sort_with p bs)

  -- No element comes before an earlier one.
  abbrev pub IsSorted : List A → Type 0
  IsSorted [] = Unit
  IsSorted (a ∷ bs) = All (λ b. before b a ≡ false) bs × IsSorted bs

  -- Sorting again changes nothing.
  pub sort_with-id : (bs : List A) → IsSorted bs → sort_with before bs ≡ bs
  unfolding sort_with insert_with
  sort_with-id [] h = refl
  sort_with-id (b ∷ []) h = refl
  sort_with-id (b ∷ c ∷ bs) h = rw (sort_with-id (c ∷ bs) h.1, h.0.0)

  -- What sorting needs of the order on the elements in question: it is asymmetric, and its negation
  -- is transitive.
  pub record IsOrder (P : A → Type 0) : Type 0 where
    pub asym : (a b : A) → P a → P b → before a b ≡ true → before b a ≡ false
    pub negatively_trans :
        (a b c : A) → P a → P b → P c → before b a ≡ false → before c b ≡ false → before c a ≡ false

  module _ (P : A → Type 0) (o : IsOrder P) where
    behind :
        (a b : A) (bs : List A)
        → P a
        → P b
        → before b a ≡ false
        → All P bs
        → All (λ c. before c b ≡ false) bs
        → All (λ c. before c a ≡ false) bs
    behind a b [] pa pb e h k = tt
    behind a b (c ∷ bs) pa pb e h k =
        (o.negatively_trans a b c pa pb h.0 e k.0, behind a b bs pa pb e h.1 k.1)

    insert_with-IsSorted :
        (a : A) (bs : List A) → P a → All P bs → IsSorted bs → IsSorted (insert_with before a bs)
    unfolding insert_with
    insert_with-IsSorted a [] pa ps h = (tt, tt)
    insert_with-IsSorted a (b ∷ bs) pa ps h = elim (Bool-cases (before b a)) [
      | inl e ↦ rw e (
        All-insert_with before (λ c. before c b ≡ false) a bs (o.asym b a ps.0 pa e) h.0,
        insert_with-IsSorted a bs pa ps.1 h.1,
      )
      | inr e ↦ rw e ((e, behind a b bs pa ps.0 e ps.1 h.0), h)
    ]

    pub sort_with-IsSorted : (bs : List A) → All P bs → IsSorted (sort_with before bs)
    unfolding sort_with
    sort_with-IsSorted [] ps = tt
    sort_with-IsSorted (b ∷ bs) ps =
        insert_with-IsSorted b (sort_with before bs) ps.0 (All-sort_with before P bs ps.1)
          (sort_with-IsSorted bs ps.1)
