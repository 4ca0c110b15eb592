-- ===== src/Registry/Decode.antt =====
-- src/ckb_registry/record.py: `decode_registry_v2_record`. The grammar of JSON and the decoding of
-- UTF-8 are the standard library's, and arguments here; the hooks are the source's.
use aircraft_malt.Prelude.{
  ℕ, Bool, not, Option, none, some, List, [], Str, leb, length, any_of, ◌==◌, ◌*◌,
}
use aircraft_malt.Float.{Floats}
use aircraft_malt.Value.{
  Value, null, bool, int, float, str, list, dict, Items, nil, cons, Fields, end, field, entries,
  Result, ok, err, value_error, Reason, ◌>>=◌, ◌>>◌, require, too_large, not_utf8, escape_sequence,
  non_finite, not_json,
}
use aircraft_malt.Registry.Record.{ReceiverRegistryRecord, utf8_length, within_utf8}
use aircraft_malt.Registry.Json.{reject_duplicates, from_dict}

-- What the grammar finds in a text: an object has its pairs in order, repeated names included.
mutual
  pub data Json (F : Type 0) : Type 0 where
    json_null : Json F
    json_bool : Bool → Json F
    json_int : Bool → ℕ → Json F
    json_float : F → Json F
    -- `NaN`, `Infinity` and `-Infinity`
    json_constant : Json F
    json_text : Str → Json F
    json_array : JsonItems F → Json F
    json_object : JsonFields F → Json F

  pub data JsonItems (F : Type 0) : Type 0 where
    json_nil : JsonItems F
    json_cons : Json F → JsonItems F → JsonItems F

  pub data JsonFields (F : Type 0) : Type 0 where
    json_end : JsonFields F
    json_field : Str → Json F → JsonFields F → JsonFields F

-- `json.loads` with the hooks of the source.
unfoldable mutual
  unfolding reject_duplicates

  pub load : {F : Type 0} → Json F → Result (Value F)
  load json_null = ok null
  load (json_bool b) = ok (bool b)
  load (json_int minus n) = ok (int minus n)
  load (json_float x) = ok (float x)
  load json_constant = err (value_error non_finite)
  load (json_text s) = ok (str s)
  load (json_array vs) = do items ← load_items vs; ok (list items)
  load (json_object fs) = do
    pairs ← load_fields fs
    reject_duplicates (entries pairs) []
    ok (dict pairs)

  pub load_items : {F : Type 0} → JsonItems F → Result (Items F)
  load_items json_nil = ok nil
  load_items (json_cons v vs) = do first ← load v; rest ← load_items vs; ok (cons first rest)

  pub load_fields : {F : Type 0} → JsonFields F → Result (Fields F)
  load_fields json_end = ok end
  load_fields (json_field k v fs) = do
    value ← load v
    rest ← load_fields fs
    ok (field k value rest)

abbrev pub or_raise : {A : Type 0} → Option A → Reason → Result A
or_raise none reason = err (value_error reason)
or_raise (some a) reason = ok a

pub data Payload : Type 0 where
  bytes : List ℕ → Payload
  text : Str → Payload

abbrev pub default_max_record_bytes : ℕ
default_max_record_bytes = 16 * 1024

module _ (fl : Floats) (utf8_decode : List ℕ → Option Str)
    (json_tree : Str → Option (Json fl.F)) where
  open fl use {F}

  unfoldable pub payload_text : ℕ → Payload → Result Str
  payload_text max_bytes (bytes b) = do
    require (leb (length b) max_bytes) too_large
    or_raise (utf8_decode b) not_utf8
  payload_text max_bytes (text s) = do
    require (within_utf8 max_bytes (utf8_length s)) too_large
    ok s

  unfoldable pub decode_registry_v2_record : ℕ → Payload → Result (ReceiverRegistryRecord F)
  unfolding payload_text load
  decode_registry_v2_record max_bytes payload = do
    s ← payload_text max_bytes payload
    require (not (any_of (λ c. c == 92) s)) escape_sequence
    tree ← or_raise (json_tree s) not_json
    decoded ← load tree
    from_dict fl decoded
