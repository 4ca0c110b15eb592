-- ===== src/Registry/Identity.antt =====
-- src/ckb_registry/record.py: receiver identities, and the patterns of `_RECEIVER_ID_RE` and
-- `_CAPABILITY_RE`, each as a test on the characters of a text.
use aircraft_malt.Prelude.{
  sym, ℕ, suc, ◌+◌, ◌≡◌, refl, ap, inl, inr, Bool, true, false, ◌&&◌, ◌||◌, [], ◌∷◌, map, Str, leb,
  ◌==◌, length, all_of, if◌then◌else◌, arith, Bool-cases,
}
use mathlib.Core.Path.{subst}
use aircraft_malt.Value.{Value, str, Result, ok, err, value_error, bad_identity}

abbrev pub is_between : ℕ → ℕ → ℕ → Bool
is_between lo hi c = leb lo c && leb c hi

unfoldable pub is_hex : ℕ → Bool
is_hex c = is_between b'0' b'9' c || is_between b'a' b'f' c || is_between b'A' b'F' c

-- `str.lower` on one ASCII character.
unfoldable pub lower_char : ℕ → ℕ
lower_char c = if is_between b'A' b'Z' c then c + 32 else c

abbrev pub lower : Str → Str
lower s = map lower_char s

-- `^0x[0-9a-fA-F]{64}$`
unfoldable pub is_identity : Str → Bool
is_identity (a ∷ b ∷ digits) = a == b'0' && b == b'x' && length digits == 64 && all_of is_hex digits
is_identity _ = false

unfoldable pub normalize_text : Str → Result Str
normalize_text s = if is_identity s then ok (lower s) else err (value_error bad_identity)

-- `^[A-Z0-9][A-Z0-9_-]{0,63}$`
unfoldable pub is_upper_or_digit : ℕ → Bool
is_upper_or_digit c = is_between b'A' b'Z' c || is_between b'0' b'9' c

unfoldable pub is_id_char : ℕ → Bool
is_id_char c = is_upper_or_digit c || c == b'_' || c == b'-'

unfoldable pub is_receiver_id : Str → Bool
unfolding is_upper_or_digit is_id_char
is_receiver_id [] = false
is_receiver_id (c ∷ s) = is_upper_or_digit c && all_of is_id_char s && leb (length s) 63

-- `^[a-z0-9][a-z0-9_-]{0,31}$`
unfoldable pub is_lower_or_digit : ℕ → Bool
is_lower_or_digit c = is_between b'a' b'z' c || is_between b'0' b'9' c

unfoldable pub is_capability_char : ℕ → Bool
is_capability_char c = is_lower_or_digit c || c == b'_' || c == b'-'

unfoldable pub is_capability : Str → Bool
unfolding is_lower_or_digit is_capability_char
is_capability [] = false
is_capability (c ∷ s) = is_lower_or_digit c && all_of is_capability_char s && leb (length s) 31

module _ {F : Type 0} where
  -- `normalize_receiver_identity`
  unfoldable pub normalize_receiver_identity : Value F → Result Str
  normalize_receiver_identity (str s) = normalize_text s
  normalize_receiver_identity _ = err (value_error bad_identity)

ok-injective : {s t : Str} → ok s ≡ ok t → s ≡ t
ok-injective h = cc

err-ne-ok : {s : Str} → err (value_error bad_identity) ≡ ok s → ⊥
err-ne-ok h = cc

-- The canonical spelling of an identity.
unfoldable pub is_canonical_char : ℕ → Bool
is_canonical_char c = is_between b'0' b'9' c || is_between b'a' b'f' c

lower_char-canonical : (c : ℕ) → is_hex c ≡ true → is_canonical_char (lower_char c) ≡ true
unfolding is_hex lower_char is_canonical_char
lower_char-canonical c h = ground arith

canonical-is_hex : (c : ℕ) → is_canonical_char c ≡ true → is_hex c ≡ true
unfolding is_hex is_canonical_char
canonical-is_hex c h = ground arith

lower_char_idem : (c : ℕ) → lower_char (lower_char c) ≡ lower_char c
unfolding lower_char
lower_char_idem c = ground arith

lower_idem : (s : Str) → lower (lower s) ≡ lower s
lower_idem [] = refl
lower_idem (c ∷ s) = ground (arith, lower_char_idem c, lower_idem s)

pub length-lower : (s : Str) → length (lower s) ≡ length s
length-lower [] = refl
length-lower (c ∷ s) = ap suc (length-lower s)

all_of-lower : (s : Str) → all_of is_hex s ≡ true → all_of is_canonical_char (lower s) ≡ true
all_of-lower [] h = refl
all_of-lower (c ∷ s) h = ground (arith, lower_char-canonical c, all_of-lower s)

all_of-is_hex : (s : Str) → all_of is_canonical_char s ≡ true → all_of is_hex s ≡ true
all_of-is_hex [] h = refl
all_of-is_hex (c ∷ s) h = ground (arith, canonical-is_hex c, all_of-is_hex s)

-- `0x` and 64 digits, none of them a capital.
abbrev pub IsCanonical : Str → Type 0
IsCanonical (a ∷ b ∷ digits) =
    (a ≡ b'0') × (b ≡ b'x') × (length digits ≡ 64) × (all_of is_canonical_char digits ≡ true)
IsCanonical _ = ⊥

is_identity-lower : (s : Str) → is_identity s ≡ true → IsCanonical (lower s)
unfolding is_identity lower_char
is_identity-lower [] h = cc
is_identity-lower (a ∷ []) h = cc
is_identity-lower (a ∷ b ∷ digits) h = ground (arith, all_of-lower digits, length-lower digits)

IsCanonical-is_identity : (t : Str) → IsCanonical t → is_identity t ≡ true
unfolding is_identity
IsCanonical-is_identity [] h = absurd h
IsCanonical-is_identity (a ∷ []) h = absurd h
IsCanonical-is_identity (a ∷ b ∷ digits) h = ground (arith, all_of-is_hex digits)

-- The normal form of an accepted text is canonical (`0x` and 64 digits, none of them a capital), is
-- the text in lower case, and normalises to itself.
pub normalize_text_lem :
    (s t : Str)
    → normalize_text s ≡ ok t
    → IsCanonical t × (t ≡ lower s) × (normalize_text t ≡ ok t)
unfolding normalize_text
normalize_text_lem s t h = elim (Bool-cases (is_identity s)) [
  | inl e ↦
      let same : lower s ≡ t = ok-injective (rw e at h) in
      let canonical : IsCanonical t = subst IsCanonical same (is_identity-lower s e) in
      (
        canonical,
        sym same,
        rw (IsCanonical-is_identity t canonical)
            (ap ok (subst (λ (u : Str). lower u ≡ u) same (lower_idem s))),
      )
  | inr e ↦ absurd (err-ne-ok (rw e at h))
]
