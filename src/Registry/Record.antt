-- ===== src/Registry/Record.antt =====
-- src/ckb_registry/record.py: `ReceiverRegistryRecord` and its validation. A field holds whatever
-- value the caller put there; `null` is Python's None.
use aircraft_malt.Prelude.{
  ℕ, ◌+◌, ◌-◌, ◌^◌, Bool, true, false, ◌&&◌, ◌||◌, not, List, [], ◌∷◌, Str, codes, str_eq, str_in,
  ltb, leb, ◌==◌, if◌then◌else◌, length, all_of, Option, none, some,
}
use aircraft_malt.Value.{
  Value, null, int, str, list, items, value_error, Reason, bad_capability_count, bad_capability,
  repeated_capability, no_mode_s, Result, Checked, ok, err, ◌>>=◌, ◌>>◌, require,
}
use aircraft_malt.Registry.Identity.{is_receiver_id, is_capability, is_identity}

pub record ReceiverRegistryRecord (F : Type 0) : Type 0 where
  pub receiver_id : Value F
  pub latitude : Value F
  pub longitude : Value F
  pub altitude : Value F
  pub status : Value F
  pub capabilities : Value F
  pub sequence : Value F
  pub updated_at : Value F
  pub stream_endpoint : Value F
  pub stream_protocol : Value F
  pub stream_format : Value F
  pub metadata_hash : Value F
  pub schema_version : Value F

abbrev pub registry_schema_version : ℕ
registry_schema_version = 2

abbrev pub u64_max : ℕ
u64_max = 2 ^ 64 - 1

-- `value.encode("utf-8")`; none is the UnicodeEncodeError of a surrogate.
unfoldable pub utf8_length : Str → Option ℕ
utf8_length [] = some 0
utf8_length (c ∷ s) = elim (utf8_length s) [
  | none ↦ none
  | some n ↦
      if leb 0xd800 c && leb c 0xdfff
      then none
      else if ltb c 0x80
      then some (n + 1)
      else if ltb c 0x800
      then some (n + 2)
      else if ltb c 0x10000
      then some (n + 3)
      else some (n + 4)
]

abbrev pub within_utf8 : ℕ → Option ℕ → Bool
within_utf8 max_bytes none = false
within_utf8 max_bytes (some n) = leb n max_bytes

abbrev pub statuses : List Str
statuses = codes "online" ∷ codes "offline" ∷ codes "degraded" ∷ codes "revoked" ∷ []

abbrev pub protocols : List Str
protocols = codes "websocket-json" ∷ codes "command-jsonl" ∷ []

abbrev pub formats : List Str
formats = codes "json" ∷ codes "jsonl" ∷ []

-- No quote, no backslash, no control character.
abbrev pub is_plain_char : ℕ → Bool
is_plain_char c = not (c == b'"' || c == 92 || ltb c 0x20)

-- `len(set(xs)) == len(xs)`
unfoldable pub all_distinct : List Str → Bool
all_distinct [] = true
all_distinct (x ∷ xs) = not (str_in x xs) && all_distinct xs

module _ {F : Type 0} where
  -- `isinstance(value, int)` with value 2, and no bool
  unfoldable pub is_schema_version : Value F → Bool
  is_schema_version (int minus n) = not minus && n == registry_schema_version
  is_schema_version _ = false

  unfoldable pub is_receiver_id_value : Value F → Bool
  is_receiver_id_value (str s) = is_receiver_id s
  is_receiver_id_value _ = false

  unfoldable pub is_status_value : Value F → Bool
  is_status_value (str s) = str_in s statuses
  is_status_value _ = false

  -- `value == text` for a text
  unfoldable pub is_text : Value F → Str → Bool
  is_text (str s) t = str_eq s t
  is_text _ t = false

  unfoldable pub is_null : Value F → Bool
  is_null null = true
  is_null _ = false

  -- `_validate_u64`
  unfoldable pub is_u64 : Bool → Value F → Bool
  is_u64 positive (int minus n) = not minus && leb (if positive then 1 else 0) n && leb n u64_max
  is_u64 positive _ = false

  unfoldable pub validate_u64 : Value F → Reason → Bool → Checked
  unfolding is_u64
  validate_u64 value field positive = require (is_u64 positive value) field

  -- `_validate_optional_text`
  unfoldable pub is_optional_text : Value F → ℕ → Bool
  is_optional_text null max_bytes = true
  is_optional_text (str []) max_bytes = false
  is_optional_text (str (c ∷ s)) max_bytes =
      all_of is_plain_char (c ∷ s) && within_utf8 max_bytes (utf8_length (c ∷ s))
  is_optional_text _ max_bytes = false

  unfoldable pub validate_optional_text : Value F → Reason → ℕ → Checked
  unfolding is_optional_text
  validate_optional_text value field max_bytes = require (is_optional_text value max_bytes) field

  -- `value is None or value in texts`
  unfoldable pub is_optional_in : Value F → List Str → Bool
  is_optional_in null texts = true
  is_optional_in (str s) texts = str_in s texts
  is_optional_in _ texts = false

  unfoldable pub is_optional_hash : Value F → Bool
  is_optional_hash null = true
  is_optional_hash (str s) = is_identity s
  is_optional_hash _ = false

  -- The texts of the list, if each is a well-formed capability.
  unfoldable pub capability_texts : List (Value F) → Option (List Str)
  capability_texts [] = some []
  capability_texts (str s ∷ vs) = elim (capability_texts vs) [
    | none ↦ none
    | some ts ↦ if is_capability s then some (s ∷ ts) else none
  ]
  capability_texts (_ ∷ vs) = none

  unfoldable pub check_capabilities : Value F → Result (List Str)
  check_capabilities (list vs) = do
    require (leb 1 (length (items vs)) && leb (length (items vs)) 8) bad_capability_count
    texts ← elim (capability_texts (items vs)) [
      | none ↦ err (value_error bad_capability)
      | some ts ↦ ok ts
    ]
    require (all_distinct texts) repeated_capability
    require (str_in (codes "mode-s") texts) no_mode_s
    ok texts
  check_capabilities _ = err (value_error bad_capability_count)
