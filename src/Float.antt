-- ===== src/Float.antt =====
-- Python's `float`, as an interface: the operations that the modelled code applies to floats, and
-- the laws of IEEE 754 that some theorems take as a hypothesis. `Float.Fixed` is an instance.
use aircraft_malt.Prelude.{ℕ, ◌^◌, ◌<◌, ◌≡◌, Bool, true, false, Option, List, Str, ℤ, ◌≤ℤ◌}
pub mod Fixed

pub record Floats : Type 1 where
  pub F : Type 0
  pub is_finite : F → Bool
  pub le : F → F → Bool
  pub lt : F → F → Bool
  -- `m / 10 ** k`, for the literals of the source
  pub literal : ℤ → ℕ → F
  pub neg_zero : F
  -- `float(n)`; none is an OverflowError
  pub of_int : ℤ → Option F
  -- `float(n)` for n below 2 ** 64, which never overflows
  pub of_u64 : ℕ → F
  pub add : F → F → F
  pub sub : F → F → F
  pub mul : F → F → F
  -- a quotient whose divisor is not 0
  pub div : F → F → F
  -- `sum(xs)`, whose rounding is the interpreter's
  pub sum : List F → F
  -- `f"{x:.6f}"`
  pub format_6f : F → Str
  -- `n / 1_000_000_000.0`
  pub ns_to_seconds : ℤ → F
  -- `math.ceil(x)`
  pub ceil : F → ℤ

-- Comparisons with a NaN are false, so `le` is reflexive and total only on finite floats. Rounding is
-- monotone, so a difference with a fixed finite subtrahend, the quotient by 10⁹ and the value of an
-- integer literal are monotone; the last two round to an infinity where the integer is too large for
-- a float. An integer below 2 ** 64 is a finite float.
pub record IsIeee (fl : Floats) : Type 0 where
  pub le_refl : (x : fl.F) → fl.is_finite x ≡ true → fl.le x x ≡ true
  pub le_trans : (x y z : fl.F) → fl.le x y ≡ true → fl.le y z ≡ true → fl.le x z ≡ true
  pub le_total :
      (x y : fl.F)
      → fl.is_finite x ≡ true
      → fl.is_finite y ≡ true
      → fl.le x y ≡ false
      → fl.le y x ≡ true
  pub lt_flip :
      (x y : fl.F)
      → fl.is_finite x ≡ true
      → fl.is_finite y ≡ true
      → fl.lt x y ≡ false
      → fl.le y x ≡ true
  pub le_of_lt : (x y : fl.F) → fl.lt x y ≡ true → fl.le x y ≡ true
  pub not_le_of_lt : (x y : fl.F) → fl.lt x y ≡ true → fl.le y x ≡ false
  pub sub_mono :
      (x y c : fl.F)
      → fl.is_finite c ≡ true
      → fl.le x y ≡ true
      → fl.le (fl.sub x c) (fl.sub y c) ≡ true
  pub of_u64_finite : (n : ℕ) → n < 2 ^ 64 → fl.is_finite (fl.of_u64 n) ≡ true
  pub ns_mono : (m n : ℤ) → m ≤ℤ n → fl.le (fl.ns_to_seconds m) (fl.ns_to_seconds n) ≡ true
  pub literal_mono : (m n : ℤ) → m ≤ℤ n → fl.le (fl.literal m 0) (fl.literal n 0) ≡ true
