-- ===== src/Registry/Fields.antt =====
-- What each test of `validate` on one dynamic value says of the value.
use aircraft_malt.Prelude.{
  Option, none, false, ◌≢◌, str_eq, str_eq_comm, all_of, leb→le, Pairwise, ℕ, suc, ◌≤◌, ◌≡◌, refl,
  Bool, true, false, some, List, [], ◌∷◌, arith, Str, codes, length, All, leb, str_in, inl, inr, ap,
  ◌⊎◌, if◌then◌else◌, ◌∙◌, map,
}
use mathlib.Core.Path.{ap₂}
use aircraft_malt.Value.{Value, null, int, str, list, items, ok}
use aircraft_malt.Registry.Identity.{is_receiver_id, is_capability, is_identity}
use aircraft_malt.Registry.Record.{
  is_schema_version, is_receiver_id_value, is_status_value, is_null, is_u64, u64_max,
  is_optional_in, is_optional_hash, is_plain_char, utf8_length, within_utf8, is_optional_text,
  check_capabilities, capability_texts, all_distinct, statuses,
}

abbrev pub IsSomeText : {F : Type 0} → (Str → Type 0) → Value F → Type 0
IsSomeText P v = (s : Str) × (v ≡ str s) × P s

-- An integer in a range, not spelled with a minus sign.
abbrev pub IsNatural : {F : Type 0} → ℕ → ℕ → Value F → Type 0
IsNatural lo hi v = (n : ℕ) × (v ≡ int false n) × (lo ≤ n) × (n ≤ hi)

abbrev pub IsOptional : {F : Type 0} → (Str → Type 0) → Value F → Type 0
IsOptional P v = (v ≡ null) ⊎ IsSomeText P v

-- A list value that holds just these texts.
abbrev pub HoldsTexts : {F : Type 0} → Value F → List Str → Type 0
HoldsTexts (list vs) ts = items vs ≡ map str ts
HoldsTexts _ ts = ⊥

abbrev pub IsCapabilities : {F : Type 0} → Value F → Type 0
IsCapabilities v =
    (ts : List Str) × HoldsTexts v ts
    × (1 ≤ length ts)
    × (length ts ≤ 8)
    × All (λ t. is_capability t ≡ true) ts
    × Pairwise (λ s t. str_eq s t ≡ false) ts
    × (str_in (codes "mode-s") ts ≡ true)

pub length-map : {A B : Type 0} (ts : List A) (f : A → B) → length (map f ts) ≡ length ts
length-map [] f = refl
length-map (t ∷ ts) f = ap suc (length-map ts f)

-- A text without quotes, backslashes and control characters, not empty and of at most 256 bytes.
abbrev pub IsEndpoint : Str → Type 0
IsEndpoint s =
    (n : ℕ) × (utf8_length s ≡ some n)
    × (1 ≤ length s)
    × (n ≤ 256)
    × All (λ c. (32 ≤ c) × (c ≢ b'"') × (c ≢ 92)) s

str_in-All : (s : Str) (ts : List Str) → str_in s ts ≡ false → All (λ t. str_eq s t ≡ false) ts
unfolding str_in
str_in-All s [] h = tt
str_in-All s (t ∷ ts) h = (ground (arith, str_eq_comm s t), str_in-All s ts (ground arith))

pub all_distinct-Pairwise :
    (ts : List Str) → all_distinct ts ≡ true → Pairwise (λ s t. str_eq s t ≡ false) ts
unfolding all_distinct
all_distinct-Pairwise [] h = tt
all_distinct-Pairwise (t ∷ ts) h =
    (str_in-All t ts (ground arith), all_distinct-Pairwise ts (ground arith))

plain : (c : ℕ) → is_plain_char c ≡ true → (32 ≤ c) × (c ≢ b'"') × (c ≢ 92)
plain c h = (ground arith, λ e. absurd (ground (arith, e, h)), λ e. absurd (ground (arith, e, h)))

all_of-plain :
    (s : Str) → all_of is_plain_char s ≡ true → All (λ c. (32 ≤ c) × (c ≢ b'"') × (c ≢ 92)) s
all_of-plain [] h = tt
all_of-plain (c ∷ s) h = (plain c (ground arith), all_of-plain s (ground arith))

pub within_utf8-bound :
    (max_bytes : ℕ) (size : Option ℕ)
    → within_utf8 max_bytes size ≡ true
    → (n : ℕ) × (size ≡ some n) × (n ≤ max_bytes)
within_utf8-bound max_bytes none h = cc
within_utf8-bound max_bytes (some n) h = (n, refl, leb→le n max_bytes h)

module _ {F : Type 0} where
  pub endpoint_text_lem : (v : Value F) → is_optional_text v 256 ≡ true → IsOptional IsEndpoint v
  unfolding is_optional_text
  endpoint_text_lem null h = inl refl
  endpoint_text_lem (str []) h = cc
  endpoint_text_lem (str (c ∷ s)) h =
      let (n, e, k) = within_utf8-bound 256 (utf8_length (c ∷ s)) (ground arith) in
      inr (c ∷ s, refl, (n, e, omega arith, k, all_of-plain (c ∷ s) (ground arith)))
  endpoint_text_lem v h = cc

  pub version_lem : (v : Value F) → is_schema_version v ≡ true → v ≡ int false 2
  unfolding is_schema_version
  version_lem (int minus n) h = ground arith
  version_lem null h = cc
  version_lem v h = cc

  pub receiver_id_lem :
      (v : Value F) → is_receiver_id_value v ≡ true → IsSomeText (λ s. is_receiver_id s ≡ true) v
  unfolding is_receiver_id_value
  receiver_id_lem (str s) h = (s, refl, h)
  receiver_id_lem v h = cc

  pub status_lem :
      (v : Value F) → is_status_value v ≡ true → IsSomeText (λ s. str_in s statuses ≡ true) v
  unfolding is_status_value
  status_lem (str s) h = (s, refl, h)
  status_lem v h = cc

  pub u64_lem :
      (positive : Bool) (v : Value F)
      → is_u64 positive v ≡ true
      → IsNatural (if positive then 1 else 0) u64_max v
  unfolding is_u64
  u64_lem positive (int true n) h = cc
  u64_lem positive (int false n) h = (n, refl, ground arith, ground arith)
  u64_lem positive v h = cc

  pub optional_in_lem :
      (v : Value F) (texts : List Str)
      → is_optional_in v texts ≡ true
      → IsOptional (λ s. str_in s texts ≡ true) v
  unfolding is_optional_in
  optional_in_lem null texts h = inl refl
  optional_in_lem (str s) texts h = inr (s, refl, h)
  optional_in_lem v texts h = cc

  pub optional_hash_lem :
      (v : Value F) → is_optional_hash v ≡ true → IsOptional (λ s. is_identity s ≡ true) v
  unfolding is_optional_hash
  optional_hash_lem null h = inl refl
  optional_hash_lem (str s) h = inr (s, refl, h)
  optional_hash_lem v h = cc

  pub is_null_lem : (v : Value F) → is_null v ≡ true → v ≡ null
  unfolding is_null
  is_null_lem null h = refl
  is_null_lem v h = cc

  pub is_null-null : (v : Value F) → v ≡ null → is_null v ≡ true
  unfolding is_null
  is_null-null v h = rw h

  pub capability_texts_lem :
      (vs : List (Value F)) (ts : List Str)
      → capability_texts vs ≡ some ts
      → (vs ≡ map str ts) × All (λ t. is_capability t ≡ true) ts
  unfolding capability_texts
  capability_texts_lem [] [] h = (refl, tt)
  capability_texts_lem [] (t ∷ ts) h = cc
  capability_texts_lem (str s ∷ vs) [] h = absurd (ground arith)
  capability_texts_lem (str s ∷ vs) (t ∷ ts) h =
      let step : (◌≡◌ {A = Value F} (str s) (str t))
          × (capability_texts vs ≡ some ts)
          × (is_capability t ≡ true) =
        ground arith in
      let ih = capability_texts_lem vs ts step.1 in
      (ap₂ (λ (x : Value F) (xs : List (Value F)). x ∷ xs) step.0 ih.0, (step.2, ih.1))
  capability_texts_lem (v ∷ vs) ts h = cc

  pub check_capabilities_lem :
      (v : Value F) (ts : List Str) → check_capabilities v ≡ ok ts → IsCapabilities v
  unfolding check_capabilities
  check_capabilities_lem (list vs) ts h =
      let facts : (leb 1 (length (items vs)) ≡ true)
          × (leb (length (items vs)) 8 ≡ true)
          × (capability_texts (items vs) ≡ some ts)
          × (all_distinct ts ≡ true)
          × (str_in (codes "mode-s") ts ≡ true) =
        ground arith in
      let (same, well) = capability_texts_lem (items vs) ts facts.2 in
      let size : length (items vs) ≡ length ts = ap length same ∙ length-map ts str in
      (ts, same, ground arith, ground arith, well, all_distinct-Pairwise ts facts.3, facts.4)
  check_capabilities_lem null ts h = cc
  check_capabilities_lem v ts h = cc
