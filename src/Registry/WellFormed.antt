-- ===== src/Registry/WellFormed.antt =====
-- What a validated record is, without the code's tests on dynamic values.
use aircraft_malt.Prelude.{
  ◌≡◌, true, false, not, ◌&&◌, ◌||◌, List, arith, Str, codes, pos, negsuc, str_in, str_eq_refl,
}
use aircraft_malt.Float.{Floats}
use aircraft_malt.Value.{
  Value, null, int, str, bad_latitude, bad_longitude, bad_altitude, Reason, ok, >>=-eq-ok,
}
use aircraft_malt.Registry.Identity.{is_receiver_id, is_identity}
use aircraft_malt.Registry.Record.{
  ReceiverRegistryRecord, is_schema_version, is_receiver_id_value, is_status_value, is_text,
  is_null, is_optional_text, is_u64, validate_u64, u64_max, validate_optional_text, is_optional_in,
  is_optional_hash, check_capabilities, statuses, protocols, formats,
}
use aircraft_malt.Registry.Validate.{
  to_float, check_coordinate, check_range, check_schema, check_position, check_lifecycle,
  check_stream, validate,
}
use aircraft_malt.Registry.Fields.{
  IsSomeText, IsNatural, IsOptional, IsEndpoint, IsCapabilities, endpoint_text_lem, version_lem,
  receiver_id_lem, status_lem, u64_lem, optional_in_lem, optional_hash_lem, is_null_lem,
  is_null-null, check_capabilities_lem,
}

module _ (fl : Floats) where
  open fl use {F, is_finite, le, literal}

  -- A finite number between two bounds, both included.
  abbrev pub IsWithin : F → F → Value F → Type 0
  IsWithin lo hi v =
      (x : F) × (to_float fl v ≡ ok x) × (is_finite x ≡ true) × (le lo x ≡ true) × (le x hi ≡ true)

  pub record IsRecord (r : ReceiverRegistryRecord F) : Type 0 where
    pub version : r.schema_version ≡ int false 2
    pub id : IsSomeText (λ s. is_receiver_id s ≡ true) r.receiver_id
    pub latitude : IsWithin (literal (negsuc 89) 0) (literal (pos 90) 0) r.latitude
    pub longitude : IsWithin (literal (negsuc 179) 0) (literal (pos 180) 0) r.longitude
    pub altitude : IsWithin (literal (negsuc 499) 0) (literal (pos 20000) 0) r.altitude
    pub status : IsSomeText (λ s. str_in s statuses ≡ true) r.status
    pub capabilities : IsCapabilities r.capabilities
    pub sequence : IsNatural 0 u64_max r.sequence
    pub updated_at : IsNatural 1 u64_max r.updated_at
    pub endpoint : IsOptional IsEndpoint r.stream_endpoint
    pub protocol : IsOptional (λ s. str_in s protocols ≡ true) r.stream_protocol
    pub format : IsOptional (λ s. str_in s formats ≡ true) r.stream_format
    pub metadata : IsOptional (λ s. is_identity s ≡ true) r.metadata_hash
    pub endpoint_has_protocol : r.stream_protocol ≡ null → r.stream_endpoint ≡ null
    pub revoked_has_no_stream :
        r.status ≡ str (codes "revoked")
        → (r.stream_endpoint ≡ null) × (r.stream_protocol ≡ null) × (r.stream_format ≡ null)

  IsWithin-of_checks :
      (v : Value F) (lo hi : F) (reason : Reason)
      → check_coordinate fl v ≡ ok tt
      → check_range fl v lo hi reason ≡ ok tt
      → IsWithin lo hi v
  unfolding check_coordinate check_range
  IsWithin-of_checks v lo hi reason h k =
      let (x, e, p) = >>=-eq-ok (to_float fl v) _ h in
      (x, e, ground arith, ground arith, ground arith)

  -- The four groups of checks, apart.
  abbrev Parts : ReceiverRegistryRecord F → Type 0
  Parts r =
      (check_schema fl r ≡ ok tt)
      × (check_position fl r ≡ ok tt)
      × (check_lifecycle fl r ≡ ok tt)
      × (check_stream fl r ≡ ok tt)

  validate-Parts : (r : ReceiverRegistryRecord F) → validate fl r ≡ ok tt → Parts r
  unfolding validate
  validate-Parts r h = ground arith

  schema_lem :
      (r : ReceiverRegistryRecord F)
      → check_schema fl r ≡ ok tt
      → (is_schema_version r.schema_version ≡ true) × (is_receiver_id_value r.receiver_id ≡ true)
  unfolding check_schema
  schema_lem r h = ground arith

  position_lem :
      (r : ReceiverRegistryRecord F)
      → check_position fl r ≡ ok tt
      → IsWithin (literal (negsuc 89) 0) (literal (pos 90) 0) r.latitude
        × IsWithin (literal (negsuc 179) 0) (literal (pos 180) 0) r.longitude
        × IsWithin (literal (negsuc 499) 0) (literal (pos 20000) 0) r.altitude
  unfolding check_position
  position_lem r h = (
    IsWithin-of_checks r.latitude (literal (negsuc 89) 0) (literal (pos 90) 0) bad_latitude
        (ground arith) (ground arith),
    IsWithin-of_checks r.longitude (literal (negsuc 179) 0) (literal (pos 180) 0) bad_longitude
        (ground arith) (ground arith),
    IsWithin-of_checks r.altitude (literal (negsuc 499) 0) (literal (pos 20000) 0) bad_altitude
        (ground arith) (ground arith),
  )

  lifecycle_lem :
      (r : ReceiverRegistryRecord F)
      → check_lifecycle fl r ≡ ok tt
      → (is_status_value r.status ≡ true)
        × ((ts : List Str) × (check_capabilities r.capabilities ≡ ok ts))
        × (is_u64 false r.sequence ≡ true)
        × (is_u64 true r.updated_at ≡ true)
  unfolding check_lifecycle validate_u64
  lifecycle_lem r h = ground arith

  stream_lem :
      (r : ReceiverRegistryRecord F)
      → check_stream fl r ≡ ok tt
      → (is_optional_text r.stream_endpoint 256 ≡ true)
        × (is_optional_in r.stream_protocol protocols ≡ true)
        × (is_optional_in r.stream_format formats ≡ true)
        × ((is_null r.stream_endpoint || not (is_null r.stream_protocol)) ≡ true)
        × (is_optional_hash r.metadata_hash ≡ true)
        × ((not (is_text r.status (codes "revoked"))
              || (is_null r.stream_endpoint
                  && is_null r.stream_protocol
                  && is_null r.stream_format))
            ≡ true)
  unfolding check_stream validate_optional_text
  stream_lem r h = ground arith

  endpoint_lem :
      (r : ReceiverRegistryRecord F)
      → (is_null r.stream_endpoint || not (is_null r.stream_protocol)) ≡ true
      → r.stream_protocol ≡ null
      → r.stream_endpoint ≡ null
  endpoint_lem r h e =
      is_null_lem r.stream_endpoint (ground (arith, is_null-null r.stream_protocol e))

  revoked_lem :
      (r : ReceiverRegistryRecord F)
      → ((not (is_text r.status (codes "revoked"))
            || (is_null r.stream_endpoint && is_null r.stream_protocol && is_null r.stream_format))
          ≡ true)
      → r.status ≡ str (codes "revoked")
      → (r.stream_endpoint ≡ null) × (r.stream_protocol ≡ null) × (r.stream_format ≡ null)
  unfolding is_text
  revoked_lem r h e =
      let all_null : (is_null r.stream_endpoint
            && is_null r.stream_protocol
            && is_null r.stream_format)
          ≡ true =
        rw (e, str_eq_refl (codes "revoked")) at h in
      (
        is_null_lem r.stream_endpoint (ground arith),
        is_null_lem r.stream_protocol (ground arith),
        is_null_lem r.stream_format (ground arith),
      )

  -- Every record that `validate` accepts is well formed: schema version 2, a receiver id, finite
  -- coordinates in range, one of the four statuses, 1 to 8 distinct capabilities with mode-s among
  -- them, u64 counters, an endpoint of 1 to 256 bytes without quotes, backslashes and control
  -- characters, if any, known stream settings with a protocol for an endpoint, a 32-byte metadata
  -- hash if any, and no stream on a revoked record.
  pub validate-IsRecord : (r : ReceiverRegistryRecord F) → validate fl r ≡ ok tt → IsRecord r
  validate-IsRecord r h =
      let (schema, position, lifecycle, stream) = validate-Parts r h in
      let (version, id) = schema_lem r schema in
      let (latitude, longitude, altitude) = position_lem r position in
      let (status, (ts, capable), sequence, updated) = lifecycle_lem r lifecycle in
      let (address, protocol, format, endpoint, hash, revoked) = stream_lem r stream in
      record {
        version = version_lem r.schema_version version;
        id = receiver_id_lem r.receiver_id id;
        latitude = latitude;
        longitude = longitude;
        altitude = altitude;
        status = status_lem r.status status;
        capabilities = check_capabilities_lem r.capabilities ts capable;
        sequence = u64_lem false r.sequence sequence;
        updated_at = u64_lem true r.updated_at updated;
        endpoint = endpoint_text_lem r.stream_endpoint address;
        protocol = optional_in_lem r.stream_protocol protocols protocol;
        format = optional_in_lem r.stream_format formats format;
        metadata = optional_hash_lem r.metadata_hash hash;
        endpoint_has_protocol = endpoint_lem r endpoint;
        revoked_has_no_stream = revoked_lem r revoked;
      }
