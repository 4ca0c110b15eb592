-- ===== src/Registry/Validate.antt =====
-- src/ckb_registry/record.py: `validate`, `validate_creation` and `validate_successor`. A check is ok,
-- or the exception that it raises.
use aircraft_malt.Prelude.{
  ℕ, ◌+◌, Bool, true, false, ◌&&◌, ◌||◌, not, codes, str_eq, ltb, ◌==◌, pos, negsuc, none, some,
}
use aircraft_malt.Float.{Floats}
use aircraft_malt.Value.{
  Value, int, float, str, signed, overflow_error, value_error, Reason, bad_schema_version,
  bad_receiver_id, bad_coordinates, bad_latitude, bad_longitude, bad_altitude, bad_status,
  bad_sequence, bad_updated_at, bad_stream_endpoint, bad_stream_protocol, bad_stream_format,
  unsupported_protocol, unsupported_format, endpoint_without_protocol, bad_metadata_hash,
  revoked_stream, creation_sequence, creation_revoked, terminal_identity, receiver_id_changed,
  sequence_step, updated_at_backwards, Result, Checked, ok, err, ◌>>=◌, ◌>>◌, require,
}
use aircraft_malt.Registry.Record.{
  ReceiverRegistryRecord, is_schema_version, is_receiver_id_value, is_status_value, is_text,
  is_null, validate_u64, validate_optional_text, is_optional_in, is_optional_hash,
  check_capabilities, protocols, formats,
}

module _ (fl : Floats) where
  open fl use {F, is_finite, le, literal, of_int}

  -- `float(value)`
  unfoldable pub to_float : Value F → Result F
  to_float (int minus n) = elim (of_int (signed minus n)) [
    | none ↦ err overflow_error
    | some x ↦ ok x
  ]
  to_float (float x) = ok x
  to_float _ = err (value_error bad_coordinates)

  -- One value of the `any(...)` over the coordinates; `math.isfinite` converts an integer.
  unfoldable pub check_coordinate : Value F → Checked
  unfolding to_float
  check_coordinate v = do x ← to_float v; require (is_finite x) bad_coordinates

  -- `-bound <= float(value) <= bound`
  unfoldable pub check_range : Value F → F → F → Reason → Checked
  unfolding to_float
  check_range v lo hi reason = do x ← to_float v; require (le lo x && le x hi) reason

  unfoldable pub check_schema : ReceiverRegistryRecord F → Checked
  check_schema r = do
    require (is_schema_version r.schema_version) bad_schema_version
    require (is_receiver_id_value r.receiver_id) bad_receiver_id

  unfoldable pub check_position : ReceiverRegistryRecord F → Checked
  check_position r = do
    check_coordinate r.latitude
    check_coordinate r.longitude
    check_coordinate r.altitude
    check_range r.latitude (literal (negsuc 89) 0) (literal (pos 90) 0) bad_latitude
    check_range r.longitude (literal (negsuc 179) 0) (literal (pos 180) 0) bad_longitude
    check_range r.altitude (literal (negsuc 499) 0) (literal (pos 20000) 0) bad_altitude

  unfoldable pub check_lifecycle : ReceiverRegistryRecord F → Checked
  check_lifecycle r = do
    require (is_status_value r.status) bad_status
    texts ← check_capabilities r.capabilities
    validate_u64 r.sequence bad_sequence false
    validate_u64 r.updated_at bad_updated_at true

  unfoldable pub check_stream : ReceiverRegistryRecord F → Checked
  check_stream r = do
    validate_optional_text r.stream_endpoint bad_stream_endpoint 256
    validate_optional_text r.stream_protocol bad_stream_protocol 32
    validate_optional_text r.stream_format bad_stream_format 16
    require (is_optional_in r.stream_protocol protocols) unsupported_protocol
    require (is_optional_in r.stream_format formats) unsupported_format
    require (is_null r.stream_endpoint || not (is_null r.stream_protocol)) endpoint_without_protocol
    require (is_optional_hash r.metadata_hash) bad_metadata_hash
    require
        (not (is_text r.status (codes "revoked"))
          || (is_null r.stream_endpoint && is_null r.stream_protocol && is_null r.stream_format))
        revoked_stream

  -- `validate`, whose checks run in this order and end at the first that fails.
  unfoldable pub validate : ReceiverRegistryRecord F → Checked
  validate r = do check_schema r; check_position r; check_lifecycle r; check_stream r

-- The magnitude of an integer; `validate` has shown that it is not negative.
abbrev pub magnitude : {F : Type 0} → Value F → ℕ
magnitude (int minus n) = n
magnitude _ = 0

-- `a != b` between two receiver ids
unfoldable pub same_text : {F : Type 0} → Value F → Value F → Bool
same_text (str s) (str t) = str_eq s t
same_text _ _ = false

module _ (fl : Floats) where
  open fl use {F}

  unfoldable pub validate_creation : ReceiverRegistryRecord F → Checked
  validate_creation r = do
    validate fl r
    require (magnitude r.sequence == 0) creation_sequence
    require (not (is_text r.status (codes "revoked"))) creation_revoked

  -- `self.validate_successor(previous)`
  unfoldable pub validate_successor : ReceiverRegistryRecord F → ReceiverRegistryRecord F → Checked
  validate_successor r previous = do
    validate fl previous
    validate fl r
    require (not (is_text previous.status (codes "revoked"))) terminal_identity
    require (same_text r.receiver_id previous.receiver_id) receiver_id_changed
    require (magnitude r.sequence == magnitude previous.sequence + 1) sequence_step
    require (not (ltb (magnitude r.updated_at) (magnitude previous.updated_at)))
        updated_at_backwards
