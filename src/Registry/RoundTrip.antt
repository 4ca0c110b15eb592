-- ===== src/Registry/RoundTrip.antt =====
-- A record that was decoded, put into its payload and decoded again is the same record.
use aircraft_malt.Prelude.{
  ◌≡◌, refl, ◌∙◌, true, false, some, [], ◌∷◌, Str, codes, Dict, lookup, insert, lookup-insert,
  str_in, str_eq, str_eq_comm, arith, if◌then◌else◌,
}
use aircraft_malt.Float.{Floats}
use aircraft_malt.Value.{
  Value, null, int, dict, fields_of, entries, entries-fields_of, ok, require, unknown_fields,
  >>=-eq-ok,
}
use aircraft_malt.Registry.Record.{ReceiverRegistryRecord, is_null}
use aircraft_malt.Registry.Validate.{validate}
use aircraft_malt.Registry.Json.{
  allowed_fields, optional_fields, required_of, all_allowed, get_item, get, put_optional,
  json_coordinate, record_of, from_dict, payload_of, to_payload_dict,
}

module _ {F : Type 0} where
  lookup-put_optional :
      (k j : Str) (v : Value F) (d : Dict (Value F))
      → lookup j (put_optional k v d)
        ≡ (if str_eq k j then (if is_null v then lookup j d else some v) else lookup j d)
  unfolding put_optional
  lookup-put_optional k j v d = ground (arith, lookup-insert k j v d)

  get-put_optional :
      (k j : Str) (v : Value F) (d : Dict (Value F))
      → get j (put_optional k v d)
        ≡ (if str_eq k j then (if is_null v then get j d else v) else get j d)
  unfolding get
  get-put_optional k j v d = ground (arith, lookup-put_optional k j v d)

  null_or : (v : Value F) → (if is_null v then null else v) ≡ v
  unfolding is_null
  null_or null = refl
  null_or v = refl

  all_allowed-insert :
      (k : Str) (v : Value F) (d : Dict (Value F))
      → str_in k allowed_fields ≡ true
      → all_allowed d ≡ true
      → all_allowed (insert k v d) ≡ true
  unfolding all_allowed insert
  all_allowed-insert k v [] h a = ground arith
  all_allowed-insert k v ((j, w) ∷ d) h a = ground (arith, all_allowed-insert k v d h)

  all_allowed-put_optional :
      (k : Str) (v : Value F) (d : Dict (Value F))
      → str_in k allowed_fields ≡ true
      → all_allowed d ≡ true
      → all_allowed (put_optional k v d) ≡ true
  unfolding put_optional
  all_allowed-put_optional k v d h a = ground (arith, all_allowed-insert k v d h a)

module _ (fl : Floats) where
  open fl use {F}

  json_coordinate_idem :
      (v : Value F) → json_coordinate fl (json_coordinate fl v) ≡ json_coordinate fl v
  unfolding json_coordinate
  json_coordinate_idem (int minus n) = ground arith
  json_coordinate_idem null = refl
  json_coordinate_idem v = refl

  -- A required key is found behind the optional ones.
  get_item-payload_of :
      (k : Str) (r : ReceiverRegistryRecord F) (v : Value F)
      → str_in k optional_fields ≡ false
      → lookup k (required_of r) ≡ some v
      → get_item k (payload_of fl r) ≡ ok v
  unfolding payload_of str_in get_item
  get_item-payload_of k r v h e = ground (
    arith,
    lookup-put_optional (codes "metadata_hash") k r.metadata_hash (
        put_optional (codes "stream_format") r.stream_format (
          put_optional (codes "stream_protocol") r.stream_protocol
            (put_optional (codes "stream_endpoint") r.stream_endpoint (required_of r)))),
    lookup-put_optional (codes "stream_format") k r.stream_format (
        put_optional (codes "stream_protocol") r.stream_protocol
          (put_optional (codes "stream_endpoint") r.stream_endpoint (required_of r))),
    lookup-put_optional (codes "stream_protocol") k r.stream_protocol
        (put_optional (codes "stream_endpoint") r.stream_endpoint (required_of r)),
    lookup-put_optional (codes "stream_endpoint") k r.stream_endpoint (required_of r),
    str_eq_comm k (codes "metadata_hash"),
    str_eq_comm k (codes "stream_format"),
    str_eq_comm k (codes "stream_protocol"),
    str_eq_comm k (codes "stream_endpoint"),
  )

  module _ (r : ReceiverRegistryRecord F) where
    get-stream_endpoint : get (codes "stream_endpoint") (payload_of fl r) ≡ r.stream_endpoint
    unfolding payload_of str_eq get lookup
    get-stream_endpoint = simp get-put_optional (null_or r.stream_endpoint)

    get-stream_protocol : get (codes "stream_protocol") (payload_of fl r) ≡ r.stream_protocol
    unfolding payload_of str_eq get lookup
    get-stream_protocol = simp get-put_optional (null_or r.stream_protocol)

    get-stream_format : get (codes "stream_format") (payload_of fl r) ≡ r.stream_format
    unfolding payload_of str_eq get lookup
    get-stream_format = simp get-put_optional (null_or r.stream_format)

    get-metadata_hash : get (codes "metadata_hash") (payload_of fl r) ≡ r.metadata_hash
    unfolding payload_of str_eq get lookup
    get-metadata_hash = simp get-put_optional (null_or r.metadata_hash)

    abbrev RequiredHere : Str → Value F → Type 0
    RequiredHere k v = (str_in k optional_fields ≡ false) × (lookup k (required_of r) ≡ some v)

    read : (k : Str) (v : Value F) → RequiredHere k v → get_item k (payload_of fl r) ≡ ok v
    read k v h = get_item-payload_of k r v h.0 h.1

    record_of-payload_of :
        record_of fl (payload_of fl r)
        ≡ ok (record r {
          latitude = json_coordinate fl r.latitude;
          longitude = json_coordinate fl r.longitude;
          altitude = json_coordinate fl r.altitude;
        })
    unfolding record_of str_in str_eq lookup
    record_of-payload_of = simp (
      read (codes "schema_version") r.schema_version (refl, refl),
      read (codes "receiver_id") r.receiver_id (refl, refl),
      read (codes "latitude") r.latitude (refl, refl),
      read (codes "longitude") r.longitude (refl, refl),
      read (codes "altitude") r.altitude (refl, refl),
      read (codes "status") r.status (refl, refl),
      read (codes "capabilities") r.capabilities (refl, refl),
      read (codes "sequence") r.sequence (refl, refl),
      read (codes "updated_at") r.updated_at (refl, refl),
      get-stream_endpoint,
      get-stream_protocol,
      get-stream_format,
      get-metadata_hash,
    )

    all_allowed-payload_of : all_allowed (payload_of fl r) ≡ true
    unfolding payload_of all_allowed str_in str_eq
    all_allowed-payload_of =
        all_allowed-put_optional (codes "metadata_hash") r.metadata_hash _ refl (
          all_allowed-put_optional (codes "stream_format") r.stream_format _ refl (
            all_allowed-put_optional (codes "stream_protocol") r.stream_protocol _ refl (
              all_allowed-put_optional (codes "stream_endpoint") r.stream_endpoint (required_of r)
                refl refl)))

  -- The coordinates of a record that `cls(...)` built went through `_json_coordinate`.
  record_of-coordinates :
      (d : Dict (Value F)) (r : ReceiverRegistryRecord F)
      → record_of fl d ≡ ok r
      → (json_coordinate fl r.latitude ≡ r.latitude)
        × (json_coordinate fl r.longitude ≡ r.longitude)
        × (json_coordinate fl r.altitude ≡ r.altitude)
  unfolding record_of
  record_of-coordinates d r h =
      let (v₁, e₁, h₁) = >>=-eq-ok (get_item (codes "schema_version") d) _ h in
      let (v₂, e₂, h₂) = >>=-eq-ok (get_item (codes "receiver_id") d) _ h₁ in
      let (lat, e₃, h₃) = >>=-eq-ok (get_item (codes "latitude") d) _ h₂ in
      let (lon, e₄, h₄) = >>=-eq-ok (get_item (codes "longitude") d) _ h₃ in
      let (alt, e₅, h₅) = >>=-eq-ok (get_item (codes "altitude") d) _ h₄ in
      let (v₆, e₆, h₆) = >>=-eq-ok (get_item (codes "status") d) _ h₅ in
      let (v₇, e₇, h₇) = >>=-eq-ok (get_item (codes "capabilities") d) _ h₆ in
      let (v₈, e₈, h₈) = >>=-eq-ok (get_item (codes "sequence") d) _ h₇ in
      let (v₉, e₉, h₉) = >>=-eq-ok (get_item (codes "updated_at") d) _ h₈ in
      ground
        (arith, h₉, json_coordinate_idem lat, json_coordinate_idem lon, json_coordinate_idem alt)

  from_dict-parts :
      (v : Value F) (r : ReceiverRegistryRecord F)
      → from_dict fl v ≡ ok r
      → (d : Dict (Value F)) × (record_of fl d ≡ ok r) × (validate fl r ≡ ok tt)
  unfolding from_dict
  from_dict-parts (dict fs) r h =
      let (u, e, h₁) = >>=-eq-ok (require (all_allowed (entries fs)) unknown_fields) _ h in
      let (s, e₂, h₂) = >>=-eq-ok (record_of fl (entries fs)) _ h₁ in
      (entries fs, ground arith, ground arith)
  from_dict-parts null r h = cc
  from_dict-parts v r h = cc

  -- A record that `from_dict` accepts has a payload, and `from_dict` reads the same record from it.
  pub from_dict-to_payload_dict :
      (v : Value F) (r : ReceiverRegistryRecord F)
      → from_dict fl v ≡ ok r
      → (p : Value F) × (to_payload_dict fl r ≡ ok p) × (from_dict fl p ≡ ok r)
  unfolding to_payload_dict from_dict
  from_dict-to_payload_dict v r h =
      let (d, built, valid) = from_dict-parts v r h in
      let (lat, lon, alt) = record_of-coordinates d r built in
      let again : record_of fl (payload_of fl r) ≡ ok r =
        record_of-payload_of r
        ∙ (λ i. ok (record r { latitude = lat i; longitude = lon i; altitude = alt i })) in
      (
        dict (fields_of (payload_of fl r)),
        rw valid,
        rw (entries-fields_of (payload_of fl r), all_allowed-payload_of r, again, valid) refl,
      )
