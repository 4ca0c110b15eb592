-- ===== src/Registry/Json.antt =====
-- src/ckb_registry/record.py: `from_dict`, `to_payload_dict` and `decode_registry_v2_record`.
use aircraft_malt.Prelude.{
  Bool, true, ◌&&◌, none, some, List, [], ◌∷◌, ◌++◌, Str, codes, Dict, lookup, insert, str_in, ◌==◌,
  if◌then◌else◌,
}
use aircraft_malt.Float.{Floats}
use aircraft_malt.Value.{
  Value, null, int, float, dict, entries, fields_of, Result, Checked, ok, err, value_error,
  key_error, not_an_object, unknown_fields, duplicate_field, ◌>>=◌, ◌>>◌, require,
}
use aircraft_malt.Registry.Record.{ReceiverRegistryRecord, is_null}
use aircraft_malt.Registry.Validate.{validate}

abbrev pub required_fields : List Str
required_fields =
    codes "schema_version"
    ∷ codes "receiver_id"
    ∷ codes "latitude"
    ∷ codes "longitude"
    ∷ codes "altitude"
    ∷ codes "status"
    ∷ codes "capabilities"
    ∷ codes "sequence"
    ∷ codes "updated_at"
    ∷ []

abbrev pub optional_fields : List Str
optional_fields =
    codes "stream_endpoint"
    ∷ codes "stream_protocol"
    ∷ codes "stream_format"
    ∷ codes "metadata_hash"
    ∷ []

-- `_ALLOWED_FIELDS`
abbrev pub allowed_fields : List Str
allowed_fields = required_fields ++ optional_fields

module _ {V : Type 0} where
  -- `set(data) - _ALLOWED_FIELDS` is empty
  unfoldable pub all_allowed : Dict V → Bool
  all_allowed [] = true
  all_allowed ((k, v) ∷ d) = str_in k allowed_fields && all_allowed d

  -- `data[key]`
  unfoldable pub get_item : Str → Dict V → Result V
  get_item k d = elim (lookup k d) [ none ↦ err (key_error k) | some v ↦ ok v ]

  -- `_reject_duplicate_fields`, which sees each key after those before it
  unfoldable pub reject_duplicates : Dict V → List Str → Checked
  reject_duplicates [] seen = ok tt
  reject_duplicates ((k, v) ∷ pairs) seen =
      let rest = reject_duplicates pairs (k ∷ seen) in
      if str_in k seen then err (value_error duplicate_field) else rest

module _ {F : Type 0} where
  -- `data.get(key)`
  unfoldable pub get : Str → Dict (Value F) → Value F
  get k d = elim (lookup k d) [ none ↦ null | some v ↦ v ]

  -- `if value is not None: payload[field] = value`
  unfoldable pub put_optional : Str → Value F → Dict (Value F) → Dict (Value F)
  put_optional k v d = if is_null v then d else insert k v d

  abbrev pub required_of : ReceiverRegistryRecord F → Dict (Value F)
  required_of r =
      (codes "schema_version", r.schema_version)
      ∷ (codes "receiver_id", r.receiver_id)
      ∷ (codes "latitude", r.latitude)
      ∷ (codes "longitude", r.longitude)
      ∷ (codes "altitude", r.altitude)
      ∷ (codes "status", r.status)
      ∷ (codes "capabilities", r.capabilities)
      ∷ (codes "sequence", r.sequence)
      ∷ (codes "updated_at", r.updated_at)
      ∷ []

module _ (fl : Floats) where
  open fl use {F, neg_zero}

  -- `_json_coordinate`
  unfoldable pub json_coordinate : Value F → Value F
  json_coordinate (int minus n) = if minus && n == 0 then float neg_zero else int minus n
  json_coordinate v = v

  -- The call `cls(...)` of `from_dict`, whose arguments are evaluated in order.
  unfoldable pub record_of : Dict (Value F) → Result (ReceiverRegistryRecord F)
  record_of data' = do
    schema_version ← get_item (codes "schema_version") data'
    receiver_id ← get_item (codes "receiver_id") data'
    latitude ← get_item (codes "latitude") data'
    longitude ← get_item (codes "longitude") data'
    altitude ← get_item (codes "altitude") data'
    status ← get_item (codes "status") data'
    capabilities ← get_item (codes "capabilities") data'
    sequence ← get_item (codes "sequence") data'
    updated_at ← get_item (codes "updated_at") data'
    ok (record {
      receiver_id = receiver_id;
      latitude = json_coordinate latitude;
      longitude = json_coordinate longitude;
      altitude = json_coordinate altitude;
      status = status;
      capabilities = capabilities;
      sequence = sequence;
      updated_at = updated_at;
      stream_endpoint = get (codes "stream_endpoint") data';
      stream_protocol = get (codes "stream_protocol") data';
      stream_format = get (codes "stream_format") data';
      metadata_hash = get (codes "metadata_hash") data';
      schema_version = schema_version;
    })

  unfoldable pub from_dict : Value F → Result (ReceiverRegistryRecord F)
  from_dict (dict fs) = do
    require (all_allowed (entries fs)) unknown_fields
    r ← record_of (entries fs)
    validate fl r
    ok r
  from_dict _ = err (value_error not_an_object)

  -- The payload of a validated record; the keys are distinct, so each is put at the end.
  unfoldable pub payload_of : ReceiverRegistryRecord F → Dict (Value F)
  payload_of r = put_optional (codes "metadata_hash") r.metadata_hash (
      put_optional (codes "stream_format") r.stream_format (
        put_optional (codes "stream_protocol") r.stream_protocol
          (put_optional (codes "stream_endpoint") r.stream_endpoint (required_of r))))

  unfoldable pub to_payload_dict : ReceiverRegistryRecord F → Result (Value F)
  to_payload_dict r = do validate fl r; ok (dict (fields_of (payload_of r)))
