-- ===== src/Float/Fixed.antt =====
-- Numbers in steps of 10⁻⁹, a concrete instance of the interface of floats.
use aircraft_malt.Prelude.{
  refl, ℕ, ◌+◌, ◌*◌, ◌/◌, ◌^◌, true, some, ℤ, pos, negsuc, ltb_ℤ, leb_ℤ, Bool, not, List, [], ◌∷◌,
  if◌then◌else◌, pos_part, neg_part, show_int, ◌+ℤ◌, ◌-ℤ◌, -ℤ_parts, arith, ◌≤ℤ◌, ◌≡◌, le→leb,
}
use aircraft_malt.Float.{Floats, IsIeee}

abbrev pub scale : ℤ → ℕ → ℤ
scale (pos n) k = pos (n * 10 ^ 9 / 10 ^ k)
scale (negsuc n) k = pos 0 -ℤ pos ((n + 1) * 10 ^ 9 / 10 ^ k)

abbrev pub ceil_div : ℤ → ℤ
ceil_div (pos n) = pos ((n + 999999999) / 1000000000)
ceil_div (negsuc n) = pos 0 -ℤ pos ((n + 1) / 1000000000)

-- The product and the quotient of two signs and magnitudes.
abbrev pub signed_size : Bool → ℕ → ℤ
signed_size same n = if same then pos n else pos 0 -ℤ pos n

abbrev pub size : ℤ → ℕ
size x = pos_part x + neg_part x

abbrev pub same_sign : ℤ → ℤ → Bool
same_sign x y = if ltb_ℤ x (pos 0) then ltb_ℤ y (pos 0) else not (ltb_ℤ y (pos 0))

abbrev pub mul_fixed : ℤ → ℤ → ℤ
mul_fixed x y = signed_size (same_sign x y) (size x * size y / 1000000000)

abbrev pub div_fixed : ℤ → ℤ → ℤ
div_fixed x y = signed_size (same_sign x y) (size x * 1000000000 / size y)

abbrev pub sum_fixed : List ℤ → ℤ
sum_fixed [] = pos 0
sum_fixed (x ∷ xs) = x +ℤ sum_fixed xs

abbrev pub fixed : Floats
fixed = record {
  F = ℤ;
  is_finite = λ x. true;
  le = leb_ℤ;
  lt = ltb_ℤ;
  literal = scale;
  neg_zero = pos 0;
  of_int = λ n. some (scale n 0);
  of_u64 = λ n. scale (pos n) 0;
  add = ◌+ℤ◌;
  sub = ◌-ℤ◌;
  mul = mul_fixed;
  div = div_fixed;
  sum = sum_fixed;
  format_6f = show_int;
  ns_to_seconds = λ n. n;
  ceil = ceil_div;
}

sub_mono_parts : (x y c : ℤ) → x ≤ℤ y → x -ℤ c ≤ℤ y -ℤ c
sub_mono_parts x y c h = omega (arith, -ℤ_parts x c, -ℤ_parts y c)

scale_mono_parts : (x y : ℤ) → x ≤ℤ y → scale x 0 ≤ℤ scale y 0
scale_mono_parts (pos a) (pos b) h = omega arith
scale_mono_parts (pos a) (negsuc b) h = absurd (omega arith)
scale_mono_parts (negsuc a) (pos b) h =
    omega (arith, -ℤ_parts (pos 0) (pos ((a + 1) * 10 ^ 9 / 10 ^ 0)))
scale_mono_parts (negsuc a) (negsuc b) h = omega (
  arith,
  -ℤ_parts (pos 0) (pos ((a + 1) * 10 ^ 9 / 10 ^ 0)),
  -ℤ_parts (pos 0) (pos ((b + 1) * 10 ^ 9 / 10 ^ 0)),
)

literal_mono_parts : (m n : ℤ) → m ≤ℤ n → leb_ℤ (scale m 0) (scale n 0) ≡ true
literal_mono_parts m n h = le→leb _ _ (scale_mono_parts m n h)

pub fixed-IsIeee : IsIeee fixed
fixed-IsIeee = record {
  le_refl = λ x h. ground arith;
  le_trans = λ x y z h k. ground arith;
  le_total = λ x y h k l. ground arith;
  lt_flip = λ x y h k l. ground arith;
  le_of_lt = λ x y h. ground arith;
  not_le_of_lt = λ x y h. ground arith;
  sub_mono = λ x y c k h. ground (arith, sub_mono_parts x y c);
  of_u64_finite = λ n h. refl;
  ns_mono = λ m n h. ground arith;
  literal_mono = literal_mono_parts;
}
