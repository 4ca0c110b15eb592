-- ===== src/Discovery/Origin.antt =====
-- src/ckb_registry/discovery.py: the cell and the record that a parsed receiver comes from.
use aircraft_malt.Prelude.{
  ℕ, ◌≡◌, refl, sym, ◌∙◌, ap, Option, some, List, [], ◌∷◌, Str, codes, str_eq, Bool-cases, inl, inr,
}
use mathlib.Core.Path.{subst}
use aircraft_malt.Float.{Floats}
use aircraft_malt.Value.{
  Value, null, bool, int, float, str, list, dict, end, Result, ok, err, ok_injective, >>=-eq-ok,
}
use aircraft_malt.Registry.Identity.{normalize_text, IsCanonical}
use aircraft_malt.Registry.Record.{ReceiverRegistryRecord}
use aircraft_malt.Registry.Validate.{magnitude}
use aircraft_malt.Registry.WellFormed.{IsRecord, validate-IsRecord}
use aircraft_malt.Registry.Decode.{Json, bytes, decode_registry_v2_record}
use aircraft_malt.Registry.Strict.{IsStrict, decode-IsStrict}
use aircraft_malt.Discovery.Receiver.{ReceiverInfo, CkbConfig, post_init, ckb_registry}
use aircraft_malt.Discovery.Cells.{
  get_from, receiver_identity_from_cell, cell_bytes, flatten_result, read_cell_data,
  receiver_of_cell, parse_receiver_cell,
}
use aircraft_malt.Discovery.Quarantine.{sightings}
use aircraft_malt.Discovery.Sighted.{sightings-Sighted, receiver_identity_from_cell-canonical}

returned_injective : {A : Type 0} {a b : A} → ok (some a) ≡ ok (some b) → a ≡ b
returned_injective h = let k = ok_injective h in cc

module _ {F : Type 0} where
  -- What a receiver takes from the record that its cell holds, and from the cell's identity.
  pub record IsCarried (identity : Str) (source : ReceiverRegistryRecord F) (r : ReceiverInfo F)
      : Type 0 where
    pub receiver_identity : r.receiver_identity ≡ some identity
    pub data_source : r.data_source ≡ ckb_registry
    pub receiver_id : r.receiver_id ≡ source.receiver_id
    pub latitude : r.latitude ≡ source.latitude
    pub longitude : r.longitude ≡ source.longitude
    pub altitude : r.altitude ≡ source.altitude
    pub status : r.status ≡ source.status
    pub capabilities : r.capabilities ≡ source.capabilities
    pub stream_endpoint : r.stream_endpoint ≡ source.stream_endpoint
    pub stream_protocol : r.stream_protocol ≡ source.stream_protocol
    pub stream_format : r.stream_format ≡ source.stream_format
    pub registry_updated_at : r.registry_updated_at ≡ some (magnitude source.updated_at)

module _ (fl : Floats) (utf8_decode : List ℕ → Option Str)
    (json_tree : Str → Option (Json fl.F)) where
  open fl use {F}

  receiver_of_cell-IsCarried :
      (cell : Value F) (identity : Str) (source : ReceiverRegistryRecord F) {r : ReceiverInfo F}
      → normalize_text identity ≡ ok identity
      → receiver_of_cell fl utf8_decode json_tree cell identity source ≡ ok r
      → IsCarried identity source r
  unfolding receiver_of_cell post_init
  receiver_of_cell-IsCarried cell identity source normal h =
      let (output, _, h1) = >>=-eq-ok (get_from cell (codes "output") (dict end)) _ h in
      let (lock, _, h2) = >>=-eq-ok (get_from output (codes "lock") (dict end)) _ h1 in
      let (_, _, h3) = >>=-eq-ok (get_from cell (codes "out_point") null) _ h2 in
      let (_, _, h4) = >>=-eq-ok (get_from lock (codes "args") (str [])) _ h3 in
      let (_, _, h5) = >>=-eq-ok (get_from lock (codes "hash") null) _ h4 in
      let (_, _, h6) = >>=-eq-ok (get_from cell (codes "lock_hash") (str [])) _ h5 in
      let (_, _, h7) = >>=-eq-ok (get_from cell (codes "block_number") null) _ h6 in
      let (j, same, last) = >>=-eq-ok (normalize_text identity) _ h7 in
      let made = ok_injective last in
      let canonical : j ≡ identity = ok_injective (sym same ∙ normal) in
      subst (IsCarried identity source) made (record {
        receiver_identity = ap some canonical;
        data_source = refl;
        receiver_id = refl;
        latitude = refl;
        longitude = refl;
        altitude = refl;
        status = refl;
        capabilities = refl;
        stream_endpoint = refl;
        stream_protocol = refl;
        stream_format = refl;
        registry_updated_at = refl;
      })

  -- What stands behind a receiver that the cell is parsed to: the bytes in the cell, and the strict
  -- and well-formed record in them.
  pub record IsParsed (config : CkbConfig F) (cell : Value F) (identity : Str) (r : ReceiverInfo F)
      : Type 0 where
    pub digits : Str
    pub output_data : get_from cell (codes "output_data") (str (codes "0x")) ≡ ok (str digits)
    pub payload : List ℕ
    pub data_bytes : cell_bytes digits ≡ ok payload
    pub source : ReceiverRegistryRecord F
    pub strict : IsStrict fl utf8_decode json_tree config.max_record_bytes (bytes payload) source
    pub well_formed : IsRecord fl source
    pub carried : IsCarried identity source r

  flatten_result-some :
      {A : Type 0} (m : Result (Option A)) {a : A} → flatten_result m ≡ some a → m ≡ ok (some a)
  flatten_result-some (ok a) h = ap ok h
  flatten_result-some (err e) h = cc

  read_cell_data-IsParsed :
      (config : CkbConfig F) (cell : Value F) (identity : Str) (v : Value F) {r : ReceiverInfo F}
      → normalize_text identity ≡ ok identity
      → get_from cell (codes "output_data") (str (codes "0x")) ≡ ok v
      → read_cell_data fl utf8_decode json_tree config cell identity v ≡ ok (some r)
      → IsParsed config cell identity r
  read_cell_data-IsParsed config cell identity (str s) normal found h =
      elim (Bool-cases (str_eq s (codes "0x"))) [
        | inl e ↦ absurd (let k = (rw e at h) in cc)
        | inr e ↦
            let (payload, read, h1) = >>=-eq-ok (cell_bytes s) _ (rw e at h) in
            let (source, decoded, h2) =
              >>=-eq-ok
                (decode_registry_v2_record fl utf8_decode json_tree config.max_record_bytes
                  (bytes payload))
                _ h1 in
            let (receiver, made, h3) =
              >>=-eq-ok (receiver_of_cell fl utf8_decode json_tree cell identity source) _ h2 in
            let strict =
              decode-IsStrict fl utf8_decode json_tree config.max_record_bytes (bytes payload)
                source decoded in
            record {
              digits = s;
              output_data = found;
              payload = payload;
              data_bytes = read;
              source = source;
              strict = strict;
              well_formed = validate-IsRecord fl source strict.valid;
              carried =
                  subst (IsCarried identity source) (returned_injective h3)
                    (receiver_of_cell-IsCarried cell identity source normal made);
            }
      ]
  read_cell_data-IsParsed config cell identity null normal found h = cc
  read_cell_data-IsParsed config cell identity (bool b) normal found h = cc
  read_cell_data-IsParsed config cell identity (int minus n) normal found h = cc
  read_cell_data-IsParsed config cell identity (float x) normal found h = cc
  read_cell_data-IsParsed config cell identity (list vs) normal found h = cc
  read_cell_data-IsParsed config cell identity (dict fs) normal found h = cc

  parse_receiver_cell-IsParsed :
      (config : CkbConfig F) (cell : Value F) (identity : Str) {r : ReceiverInfo F}
      → normalize_text identity ≡ ok identity
      → parse_receiver_cell fl utf8_decode json_tree config cell identity ≡ some r
      → IsParsed config cell identity r
  unfolding parse_receiver_cell
  parse_receiver_cell-IsParsed config cell identity normal h =
      let (v, found, rest) =
        >>=-eq-ok (get_from cell (codes "output_data") (str (codes "0x"))) _
          (flatten_result-some _ h) in
      read_cell_data-IsParsed config cell identity v normal found rest

  module _ (render : Value F → Str) (config : CkbConfig F) where
    -- The parsed cells that have the identity, in order.
    abbrev pub sighted : Str → List (Value F) → List (Option (ReceiverInfo F))
    sighted =
        sightings (receiver_identity_from_cell fl render config)
          (parse_receiver_cell fl utf8_decode json_tree config)

    -- The one cell with the receiver's identity, and what is read from it.
    pub record IsOnChain (cells : List (Value F)) (r : ReceiverInfo F) : Type 0 where
      pub identity : Str
      pub canonical : IsCanonical identity
      pub alone : sighted identity cells ≡ some r ∷ []
      pub cell : Value F
      pub held : receiver_identity_from_cell fl render config cell ≡ ok identity
      pub parsed : IsParsed config cell identity r

    pub sighted-IsOnChain :
        (i : Str) (r : ReceiverInfo F) (cells : List (Value F))
        → sighted i cells ≡ some r ∷ []
        → IsOnChain cells r
    sighted-IsOnChain i r cells h =
        let (cell, held, parsed) = sightings-Sighted _ _ i r cells h in
        let (canonical, normal) =
          receiver_identity_from_cell-canonical fl render config cell held in
        record {
          identity = i;
          canonical = canonical;
          alone = h;
          cell = cell;
          held = held;
          parsed = parse_receiver_cell-IsParsed config cell i normal parsed;
        }
