-- ===== src/Registry/Examples.antt =====
-- Tests of the registry records, and its theorems at concrete records.
use aircraft_malt.Prelude.{
  ℕ, ◌≡◌, ◌≤◌, refl, true, false, Option, none, some, List, Str, codes, str_eq, str_in, lookup,
  insert, arith, if◌then◌else◌, ◌-ℤ◌,
}
use aircraft_malt.Float.Fixed.{fixed}
use aircraft_malt.Value.{Value, null, int, str, list, dict, nil, cons, fields_of, ok}
use aircraft_malt.Registry.Identity.{
  normalize_text, is_identity, is_hex, lower, lower_char, IsCanonical, normalize_text_lem,
  is_receiver_id, is_capability,
}
use aircraft_malt.Registry.Record.{
  ReceiverRegistryRecord, u64_max, is_schema_version, is_receiver_id_value, is_status_value,
  is_text, is_null, is_u64, validate_u64, utf8_length, is_optional_text, validate_optional_text,
  is_optional_in, is_optional_hash, capability_texts, check_capabilities, all_distinct,
}
use aircraft_malt.Registry.Validate.{
  to_float, check_coordinate, check_range, check_schema, check_position, check_lifecycle,
  check_stream, validate, same_text, validate_creation, validate_successor,
}
use aircraft_malt.Registry.WellFormed.{IsRecord, validate-IsRecord}
use aircraft_malt.Registry.Lifecycle.{Chain, start, next, lifecycle_sequence}
use aircraft_malt.Registry.Json.{
  all_allowed, get_item, get, put_optional, json_coordinate, record_of, from_dict, payload_of,
  to_payload_dict, reject_duplicates,
}
use aircraft_malt.Registry.RoundTrip.{from_dict-to_payload_dict}
use aircraft_malt.Registry.Decode.{
  Json, JsonFields, json_int, json_text, json_array, json_object, json_nil, json_cons, json_end,
  json_field, load, load_items, load_fields, bytes, payload_text, decode_registry_v2_record,
}
use aircraft_malt.Registry.Strict.{IsStrict, decode-IsStrict}
use aircraft_malt.Registry.TypeId.{type_id_preimage-injective}

abbrev pub Val : Type 0
Val = Value fixed.F

abbrev natural : ℕ → Val
natural n = int false n

-- A creation record, and its successors.
abbrev pub created : ReceiverRegistryRecord fixed.F
created = record {
  receiver_id = str (codes "RECV_1");
  latitude = natural 40;
  longitude = int true 74;
  altitude = natural 10;
  status = str (codes "online");
  capabilities = list (cons (str (codes "mode-s")) (cons (str (codes "mlat")) nil));
  sequence = natural 0;
  updated_at = natural 1000;
  stream_endpoint = str (codes "ws://a");
  stream_protocol = str (codes "websocket-json");
  stream_format = null;
  metadata_hash = null;
  schema_version = natural 2;
}

abbrev updated : ReceiverRegistryRecord fixed.F
updated = record created { sequence = natural 1; updated_at = natural 1200 }

abbrev revoked : ReceiverRegistryRecord fixed.F
revoked = record updated {
  status = str (codes "revoked");
  sequence = natural 2;
  stream_endpoint = null;
  stream_protocol = null;
}

valid_records :
    (validate fixed created ≡ ok tt)
    × (validate fixed updated ≡ ok tt)
    × (validate fixed revoked ≡ ok tt)
unfolding validate check_schema check_position check_lifecycle check_stream is_schema_version
    is_receiver_id_value is_receiver_id check_coordinate check_range to_float ◌-ℤ◌ is_status_value
    str_in str_eq check_capabilities capability_texts is_capability all_distinct validate_u64 is_u64
    validate_optional_text is_optional_text utf8_length is_optional_in is_null is_optional_hash
    is_text
valid_records = (refl, refl, refl)

validate-IsRecord_example : IsRecord fixed created
validate-IsRecord_example = validate-IsRecord fixed created valid_records.0

created-validate_creation : validate_creation fixed created ≡ ok tt
unfolding validate_creation is_text str_eq
created-validate_creation = rw valid_records.0 refl

update_step : validate_successor fixed updated created ≡ ok tt
unfolding validate_successor is_text str_eq same_text
update_step = rw (valid_records.0, valid_records.1) refl

revoke_step : validate_successor fixed revoked updated ≡ ok tt
unfolding validate_successor is_text str_eq same_text
revoke_step = rw (valid_records.1, valid_records.2) refl

life : Chain fixed created revoked 2
life = next (next start updated update_step) revoked revoke_step

lifecycle_sequence_example :
    (revoked.sequence ≡ int false 2) × (2 ≤ u64_max) × (revoked.receiver_id ≡ created.receiver_id)
lifecycle_sequence_example = lifecycle_sequence fixed created-validate_creation life

-- The document of the creation record.
abbrev document : JsonFields fixed.F
document = json_field (codes "schema_version") (json_int false 2) (
    json_field (codes "receiver_id") (json_text (codes "RECV_1")) (
      json_field (codes "latitude") (json_int false 40) (
        json_field (codes "longitude") (json_int true 74) (
          json_field (codes "altitude") (json_int false 10) (
            json_field (codes "status") (json_text (codes "online")) (
              json_field (codes "capabilities")
                (json_array (
                  json_cons (json_text (codes "mode-s"))
                    (json_cons (json_text (codes "mlat")) json_nil)))
                (json_field (codes "sequence") (json_int false 0) (
                  json_field (codes "updated_at") (json_int false 1000) (
                    json_field (codes "stream_endpoint") (json_text (codes "ws://a")) (
                      json_field (codes "stream_protocol") (json_text (codes "websocket-json"))
                        json_end))))))))))

abbrev document_value : Val
document_value = dict (fields_of (payload_of fixed created))

document_value-from_dict : from_dict fixed document_value ≡ ok created
unfolding from_dict all_allowed str_in str_eq record_of get_item get lookup json_coordinate
    payload_of put_optional is_null insert
document_value-from_dict = rw valid_records.0 refl

from_dict-to_payload_dict_example :
    (p : Val) × (to_payload_dict fixed created ≡ ok p) × (from_dict fixed p ≡ ok created)
from_dict-to_payload_dict_example =
    from_dict-to_payload_dict fixed document_value created document_value-from_dict

-- A reader of one text, for the payload of the creation record.
abbrev pub some_text : Str
some_text = codes "the document"

abbrev pub ascii : List ℕ → Option Str
ascii b = some b

abbrev pub read_document : Str → Option (Json fixed.F)
read_document s = if str_eq s some_text then some (json_object document) else none

pub document-decodes :
    decode_registry_v2_record fixed ascii read_document 4096 (bytes some_text) ≡ ok created
unfolding decode_registry_v2_record payload_text load load_items load_fields reject_duplicates
    str_in str_eq payload_of put_optional is_null insert
document-decodes = rw document_value-from_dict refl

decode-IsStrict_example : IsStrict fixed ascii read_document 4096 (bytes some_text) created
decode-IsStrict_example =
    decode-IsStrict fixed ascii read_document 4096 (bytes some_text) created document-decodes

-- A hash with a capital digit, and its normal form.
abbrev spelled : Str
spelled = codes "0xAb00000000000000000000000000000000000000000000000000000000000001"

abbrev pub canonical : Str
canonical = codes "0xab00000000000000000000000000000000000000000000000000000000000001"

spelled-normalize : normalize_text spelled ≡ ok canonical
unfolding normalize_text is_identity is_hex lower_char
spelled-normalize = refl

spelled-IsCanonical :
    IsCanonical canonical × (canonical ≡ lower spelled) × (normalize_text canonical ≡ ok canonical)
spelled-IsCanonical = normalize_text_lem spelled canonical spelled-normalize

type_id_preimage-injective_example :
    (◌≡◌ {A = ℕ} 7 7) × (canonical ≡ canonical) × (◌≡◌ {A = ℕ} 1 1) × (◌≡◌ {A = ℕ} 2 2)
type_id_preimage-injective_example =
    type_id_preimage-injective 7 7 1 1 2 2 canonical canonical (omega arith) (omega arith)
      (omega arith) (omega arith) (omega arith) (omega arith) spelled-IsCanonical.0
      spelled-IsCanonical.0 refl
