-- ===== src/Discovery/Cells.antt =====
-- src/ckb_registry/discovery.py: `initialize`, `_receiver_identity_from_cell` and
-- `_parse_receiver_cell`. A cell is the value that the indexer returned.
use aircraft_malt.Prelude.{
  ℕ, ◌*◌, ◌+◌, leb, pos, Bool, true, false, not, ◌&&◌, ◌||◌, Option, none, some, List, [], ◌∷◌, Str,
  codes, lookup, str_eq, if◌then◌else◌, ◌==◌, length, ◌%◌,
}
use aircraft_malt.Float.{Floats}
use aircraft_malt.Value.{
  Value, null, bool, int, float, str, list, dict, nil, end, entries, Result, Checked, ok, err,
  Failure, value_error, attribute_error, runtime_error, ◌>>=◌, ◌>>◌, require, bad_hash_type,
  bad_code_hash, bad_cell_data, no_type_hash, bad_hash_type_setting, bad_type_hash, mutable_code,
}
use aircraft_malt.Registry.Identity.{normalize_receiver_identity, normalize_text, lower, is_hex}
use aircraft_malt.Registry.Record.{ReceiverRegistryRecord, is_text}
use aircraft_malt.Registry.Validate.{magnitude}
use aircraft_malt.Registry.Decode.{Json, bytes, decode_registry_v2_record, or_raise}
use aircraft_malt.Registry.TypeId.{nibble}
use aircraft_malt.Discovery.Receiver.{ReceiverInfo, post_init, CkbConfig, ckb_registry}

-- `if not test: raise RuntimeError(reason)`
abbrev pub demand : Bool → Failure → Checked
demand true reason = ok tt
demand false reason = err (runtime_error reason)

-- The checks of `initialize` before the first call of the node.
unfoldable pub check_config : {F : Type 0} → CkbConfig F → Checked
check_config config = do
  demand (not (str_eq config.receiver_registry_type_hash [])) no_type_hash
  demand
      (str_eq config.receiver_registry_hash_type (codes "data1")
        || str_eq config.receiver_registry_hash_type (codes "type"))
      bad_hash_type_setting
  (elim (normalize_text config.receiver_registry_type_hash) [
    | ok identity ↦ ok tt
    | err e ↦ err (runtime_error bad_type_hash)
  ])
  demand
      (not (str_eq config.receiver_registry_hash_type (codes "type"))
        || config.allow_mutable_registry_code)
      mutable_code

module _ {F : Type 0} where
  -- `value.get(key, default)`
  unfoldable pub get_from : Value F → Str → Value F → Result (Value F)
  get_from (dict fs) key default = elim (lookup key (entries fs)) [
    | none ↦ ok default
    | some v ↦ ok v
  ]
  get_from _ key default = err attribute_error

module _ (fl : Floats) where
  open fl use {F, le, literal}

  -- `value or {}`, `value or other`: the values that are false
  unfoldable pub or_else : Value F → Value F → Value F
  or_else null other = other
  or_else (bool false) other = other
  or_else (int minus n) other = if n == 0 then other else int minus n
  or_else (float x) other =
      if le x (literal (pos 0) 0) && le (literal (pos 0) 0) x then other else float x
  or_else (str []) other = other
  or_else (list nil) other = other
  or_else (dict end) other = other
  or_else v other = v

  -- `_receiver_identity_from_cell`; `render` is `str` on a value that is no text.
  unfoldable pub receiver_identity_from_cell : (Value F → Str) → CkbConfig F → Value F → Result Str
  unfolding get_from or_else
  receiver_identity_from_cell render config cell = do
    output ← get_from cell (codes "output") (dict end)
    script ← get_from output (codes "type") null
    let type_script = or_else script (dict end)
    hash_type ← get_from type_script (codes "hash_type") null
    require (is_text hash_type config.receiver_registry_hash_type) bad_hash_type
    code_hash ← get_from type_script (codes "code_hash") (str [])
    require
        (str_eq config.receiver_registry_type_hash []
          || str_eq (lower (render code_hash)) (lower config.receiver_registry_type_hash))
        bad_code_hash
    args ← get_from type_script (codes "args") (str [])
    normalize_receiver_identity args

abbrev pub is_space : ℕ → Bool
is_space c = c == 32 || (leb 9 c && leb c 13)

-- `bytes.fromhex`, which skips ASCII white space between bytes; none is its ValueError.
unfoldable pub bytes_fromhex : Str → Option (List ℕ)
bytes_fromhex [] = some []
bytes_fromhex (c ∷ []) = if is_space c then some [] else none
bytes_fromhex (c ∷ d ∷ s) =
    let skipped = bytes_fromhex (d ∷ s) in
    let pair : Option (List ℕ) = elim (bytes_fromhex s) [
      | none ↦ none
      | some r ↦ some ((nibble c * 16 + nibble d) ∷ r)
    ] in
    if is_space c then skipped else if is_hex c && is_hex d then pair else none

-- The bytes of the `output_data` text: it starts with `0x` and its length is even.
unfoldable pub cell_bytes : Str → Result (List ℕ)
cell_bytes (a ∷ b ∷ digits) = do
  require (a == b'0' && b == b'x' && length digits % 2 == 0) bad_cell_data
  or_raise (bytes_fromhex digits) bad_cell_data
cell_bytes _ = err (value_error bad_cell_data)

-- `except Exception: return None`
abbrev pub flatten_result : {A : Type 0} → Result (Option A) → Option A
flatten_result (ok a) = a
flatten_result (err e) = none

module _ (fl : Floats) (utf8_decode : List ℕ → Option Str)
    (json_tree : Str → Option (Json fl.F)) where
  open fl use {F, literal}

  -- The receiver that a decoded record and its cell make.
  unfoldable pub receiver_of_cell :
      Value F → Str → ReceiverRegistryRecord F → Result (ReceiverInfo F)
  unfolding get_from or_else post_init
  receiver_of_cell cell receiver_identity r = do
    output ← get_from cell (codes "output") (dict end)
    lock ← get_from output (codes "lock") (dict end)
    out_point ← get_from cell (codes "out_point") null
    lock_args ← get_from lock (codes "args") (str [])
    own_hash ← get_from lock (codes "hash") null
    cell_hash ← get_from cell (codes "lock_hash") (str [])
    block_number ← get_from cell (codes "block_number") null
    post_init (record {
      receiver_id = r.receiver_id;
      latitude = r.latitude;
      longitude = r.longitude;
      altitude = r.altitude;
      status = r.status;
      last_seen = literal (pos 0) 0;
      capabilities = r.capabilities;
      ckb_address = lock_args;
      lock_hash = or_else fl own_hash cell_hash;
      receiver_identity = some receiver_identity;
      data_source = ckb_registry;
      stream_endpoint = r.stream_endpoint;
      stream_protocol = r.stream_protocol;
      stream_format = r.stream_format;
      metadata = some (
          (codes "schema_version", r.schema_version)
          ∷ (codes "sequence", r.sequence)
          ∷ (codes "metadata_hash", r.metadata_hash)
          ∷ (codes "owner_lock", lock)
          ∷ (codes "out_point", or_else fl out_point (dict end))
          ∷ (codes "block_number", block_number)
          ∷ (codes "updated_at", r.updated_at)
          ∷ []);
      registry_updated_at = some (magnitude r.updated_at);
    })

  abbrev pub read_cell_data :
      CkbConfig F → Value F → Str → Value F → Result (Option (ReceiverInfo F))
  read_cell_data config cell receiver_identity (str s) =
      if str_eq s (codes "0x") then ok none else (do
        data_bytes ← cell_bytes s
        r ←
            decode_registry_v2_record fl utf8_decode json_tree config.max_record_bytes
              (bytes data_bytes)
        receiver ← receiver_of_cell cell receiver_identity r
        ok (some receiver))
  read_cell_data config cell receiver_identity v = ok none

  -- `_parse_receiver_cell`: every exception is logged, and the cell is passed over.
  unfoldable pub parse_receiver_cell : CkbConfig F → Value F → Str → Option (ReceiverInfo F)
  unfolding get_from cell_bytes bytes_fromhex receiver_of_cell
  parse_receiver_cell config cell receiver_identity = flatten_result (do
    output_data ← get_from cell (codes "output_data") (str (codes "0x"))
    read_cell_data config cell receiver_identity output_data)
