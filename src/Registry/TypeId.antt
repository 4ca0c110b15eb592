-- ===== src/Registry/TypeId.antt =====
-- src/ckb_registry/record.py: `calculate_type_id`. The hash function is hashlib's, an argument here.
use aircraft_malt.Prelude.{
  ℕ, zero, suc, ◌+◌, ◌-◌, ◌*◌, ◌/◌, ◌%◌, ◌^◌, ◌<◌, ◌≤◌, ◌≡◌, refl, ap, sym, ◌∙◌, Bool, true, false,
  not, ◌&&◌, ◌||◌, List, [], ◌∷◌, ◌++◌, Str, codes, leb, ◌==◌, if◌then◌else◌, length, all_of, arith,
}
use native.Mathlib.Nat.{pow-suc}
use aircraft_malt.Value.{
  Value, int, Result, ok, ◌>>=◌, ◌>>◌, require, bad_index, bad_since, bad_output,
}
use aircraft_malt.Registry.Identity.{
  normalize_receiver_identity, is_between, is_canonical_char, IsCanonical,
}
use aircraft_malt.Registry.Validate.{magnitude}
use aircraft_malt.Registry.Record.{u64_max}

abbrev pub u32_max : ℕ
u32_max = 0xffff_ffff

-- An integer, no bool, from 0 to the bound; `-0` is 0.
unfoldable pub fits : {F : Type 0} → ℕ → Value F → Bool
fits bound (int minus n) = (not minus || n == 0) && leb n bound
fits bound _ = false

-- `n.to_bytes(k, "little")`
unfoldable pub to_bytes : ℕ → ℕ → List ℕ
to_bytes zero n = []
to_bytes (suc k) n = n % 256 ∷ to_bytes k (n / 256)

unfoldable pub nibble : ℕ → ℕ
nibble c =
    if is_between b'0' b'9' c then c - 48 else if is_between b'a' b'f' c then c - 87 else c - 55

-- `bytes.fromhex` on an even number of digits
unfoldable pub from_hex : Str → List ℕ
unfolding nibble
from_hex (a ∷ b ∷ s) = (nibble a * 16 + nibble b) ∷ from_hex s
from_hex _ = []

unfoldable pub hex_digit : ℕ → ℕ
hex_digit n = if leb n 9 then n + 48 else n + 87

-- `hexdigest`
unfoldable pub to_hex : List ℕ → Str
unfolding hex_digit
to_hex [] = []
to_hex (b ∷ bytes) = hex_digit (b / 16) ∷ hex_digit (b % 16) ∷ to_hex bytes

-- `tx_hash[2:]`
abbrev pub without_prefix : Str → Str
without_prefix (a ∷ b ∷ s) = s
without_prefix _ = []

-- What the hasher is fed: since, transaction hash, index and output index.
unfoldable pub type_id_preimage : ℕ → Str → ℕ → ℕ → List ℕ
unfolding to_bytes from_hex
type_id_preimage since tx_hash index output_index =
    to_bytes 8 since
    ++ (from_hex (without_prefix tx_hash) ++ (to_bytes 4 index ++ to_bytes 8 output_index))

module _ {F : Type 0} (blake2b : List ℕ → List ℕ) where
  unfoldable pub calculate_type_id : Value F → Value F → Value F → Value F → Result Str
  unfolding type_id_preimage to_hex fits normalize_receiver_identity
  calculate_type_id first_input_tx_hash first_input_index first_input_since output_index = do
    tx_hash ← normalize_receiver_identity first_input_tx_hash
    require (fits u32_max first_input_index) bad_index
    require (fits u64_max first_input_since) bad_since
    require (fits u64_max output_index) bad_output
    ok (
        codes "0x"
        ++ to_hex (
            blake2b (
              type_id_preimage (magnitude first_input_since) tx_hash (magnitude first_input_index)
                (magnitude output_index))))

append-injective :
    {A : Type 0} (xs xs' ys ys' : List A)
    → length xs ≡ length xs'
    → xs ++ ys ≡ xs' ++ ys'
    → (xs ≡ xs') × (ys ≡ ys')
append-injective [] [] ys ys' h e = (refl, e)
append-injective [] (x ∷ xs') ys ys' h e = absurd (omega arith)
append-injective (x ∷ xs) [] ys ys' h e = absurd (omega arith)
append-injective (x ∷ xs) (x' ∷ xs') ys ys' h e =
    ground (arith, append-injective xs xs' ys ys' (omega arith) (cc))

length-to_bytes : (k n : ℕ) → length (to_bytes k n) ≡ k
unfolding to_bytes
length-to_bytes zero n = refl
length-to_bytes (suc k) n = ap suc (length-to_bytes k (n / 256))

-- Little-endian bytes determine a number that fits.
to_bytes-injective : (k n m : ℕ) → n < 256 ^ k → m < 256 ^ k → to_bytes k n ≡ to_bytes k m → n ≡ m
unfolding to_bytes
to_bytes-injective zero n m h h' e = omega arith
to_bytes-injective (suc k) n m h h' e =
    let low : n % 256 ≡ m % 256 = cc in
    let high : n / 256 ≡ m / 256 =
      to_bytes-injective k (n / 256) (m / 256) (omega (arith, pow-suc 256 k))
        (omega (arith, pow-suc 256 k)) (cc) in
    omega arith

nibble-injective :
    (a b : ℕ)
    → is_canonical_char a ≡ true
    → is_canonical_char b ≡ true
    → nibble a ≡ nibble b
    → a ≡ b
unfolding nibble is_canonical_char
nibble-injective a b h k e = ground arith

nibble-lt : (a : ℕ) → is_canonical_char a ≡ true → nibble a < 16
unfolding nibble is_canonical_char
nibble-lt a h = ground arith

-- Hexadecimal texts of one length in canonical spelling are determined by their bytes. The length
-- 64 is even, so no digit is left over.
from_hex-injective :
    (n : ℕ) (s t : Str)
    → length s ≡ n + n
    → length t ≡ n + n
    → all_of is_canonical_char s ≡ true
    → all_of is_canonical_char t ≡ true
    → from_hex s ≡ from_hex t
    → s ≡ t
unfolding from_hex
from_hex-injective zero [] [] hs ht cs ct e = refl
from_hex-injective zero (a ∷ s) t hs ht cs ct e = absurd (omega arith)
from_hex-injective zero [] (b ∷ t) hs ht cs ct e = absurd (omega arith)
from_hex-injective (suc n) (a ∷ b ∷ s) (c ∷ d ∷ t) hs ht cs ct e =
    let heads : nibble a * 16 + nibble b ≡ nibble c * 16 + nibble d = cc in
    let high : nibble a ≡ nibble c =
      ground (arith, nibble-lt a, nibble-lt b, nibble-lt c, nibble-lt d) in
    let low : nibble b ≡ nibble d = omega arith in
    ground (
      arith,
      nibble-injective a c,
      nibble-injective b d,
      from_hex-injective n s t (omega arith) (omega arith) (ground arith) (ground arith) (cc),
    )
from_hex-injective (suc n) [] t hs ht cs ct e = absurd (omega arith)
from_hex-injective (suc n) (a ∷ []) t hs ht cs ct e = absurd (omega arith)
from_hex-injective (suc n) (a ∷ b ∷ s) [] hs ht cs ct e = absurd (omega arith)
from_hex-injective (suc n) (a ∷ b ∷ s) (c ∷ []) hs ht cs ct e = absurd (omega arith)

length-from_hex : (n : ℕ) (s : Str) → length s ≡ n + n → length (from_hex s) ≡ n
unfolding from_hex
length-from_hex zero [] h = refl
length-from_hex zero (a ∷ s) h = absurd (omega arith)
length-from_hex (suc n) [] h = absurd (omega arith)
length-from_hex (suc n) (a ∷ []) h = absurd (omega arith)
length-from_hex (suc n) (a ∷ b ∷ s) h = ap suc (length-from_hex n s (omega arith))

-- A canonical identity is `0x` and its digits.
IsCanonical-split :
    (t : Str)
    → IsCanonical t
    → (t ≡ codes "0x" ++ without_prefix t)
      × (length (without_prefix t) ≡ 64)
      × (all_of is_canonical_char (without_prefix t) ≡ true)
IsCanonical-split [] h = absurd h
IsCanonical-split (a ∷ []) h = absurd h
IsCanonical-split (a ∷ b ∷ s) (p, q, size, good) = (ground arith, size, good)

-- Two creations with the same hasher input have the same since, transaction hash, index and output
-- index: for in-range numbers and canonical hashes the serialization loses nothing.
pub type_id_preimage-injective :
    (since since' index index' output output' : ℕ) (hash hash' : Str)
    → since ≤ u64_max
    → since' ≤ u64_max
    → index ≤ u32_max
    → index' ≤ u32_max
    → output ≤ u64_max
    → output' ≤ u64_max
    → IsCanonical hash
    → IsCanonical hash'
    → type_id_preimage since hash index output ≡ type_id_preimage since' hash' index' output'
    → (since ≡ since') × (hash ≡ hash') × (index ≡ index') × (output ≡ output')
unfolding type_id_preimage
type_id_preimage-injective since since' index index' output output' hash hash' s s' i i' o o' c c'
      e =
    let (p, size, good) = IsCanonical-split hash c in
    let (p', size', good') = IsCanonical-split hash' c' in
    let (e₁, rest₁) =
      append-injective (to_bytes 8 since) (to_bytes 8 since') _ _
        (length-to_bytes 8 since ∙ sym (length-to_bytes 8 since')) e in
    let (e₂, rest₂) =
      append-injective (from_hex (without_prefix hash)) (from_hex (without_prefix hash')) _ _
        (length-from_hex 32 _ size ∙ sym (length-from_hex 32 _ size')) rest₁ in
    let (e₃, e₄) =
      append-injective (to_bytes 4 index) (to_bytes 4 index') _ _
        (length-to_bytes 4 index ∙ sym (length-to_bytes 4 index')) rest₂ in
    (
      to_bytes-injective 8 since since' (omega arith) (omega arith) e₁,
      p
          ∙ ap (λ (d : Str). codes "0x" ++ d) (from_hex-injective 32 _ _ size size' good good' e₂)
          ∙ sym p',
      to_bytes-injective 4 index index' (omega arith) (omega arith) e₃,
      to_bytes-injective 8 output output' (omega arith) (omega arith) e₄,
    )
