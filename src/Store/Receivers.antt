-- ===== src/Store/Receivers.antt =====
-- src/mlat_reference/database/database.py: the table `receivers`, and the whole database as what
-- the runtime calls. `now` is `datetime.now().isoformat()`, and `dumps` is `json.dumps`.
use aircraft_malt.Prelude.{
  ℕ, ◌^◌, Bool, true, false, not, ◌&&◌, Option, none, some, List, [], ◌∷◌, Str, Dict, lookup,
  insert, ℤ, pos, negsuc, ltb, str_eq, str_in, show_nat, keep_if, if◌then◌else◌,
}
use aircraft_malt.Float.{Floats}
use aircraft_malt.Value.{
  Value, null, int, float, list, dict, signed, Result, Checked, ok, err, integrity_error,
  interface_error, overflow_error, value_error, require, bad_sequence, ◌>>=◌, ◌>>◌,
}
use aircraft_malt.Discovery.Receiver.{ckb_registry}
use aircraft_malt.Runtime.State.{ReceiverRow, Database}
use aircraft_malt.Runtime.Base.{remove_all}
use aircraft_malt.Ingest.Transport.{text_or}
use aircraft_malt.Store.Positions.{Positions, is_number, store_position}

-- The columns but the key.
pub record StoredReceiver (F : Type 0) : Type 0 where
  pub receiver_identity : Str
  pub data_source : Str
  pub latitude : Value F
  pub longitude : Value F
  pub altitude : Value F
  pub status : Value F
  pub last_seen : F
  pub capabilities : Str
  pub receiver_label : Value F
  pub registry_sequence : ℕ
  pub registry_sequence_u64 : Str
  pub registry_updated_at_u64 : Str
  pub owner_lock_args : Value F
  pub owner_lock : Str
  pub registry_out_point : Str
  pub metadata_hash : Value F
  pub updated_at : Str

pub record Store (F : Type 0) : Type 0 where
  pub positions : Positions F
  pub receivers : Dict (StoredReceiver F)

-- `0 <= value < 1 << 64`
unfoldable pub u64_of : ℤ → Result ℕ
u64_of (pos n) = if ltb n (2 ^ 64) then ok n else err (value_error bad_sequence)
u64_of (negsuc n) = err (value_error bad_sequence)

-- An integer that sqlite3 can bind.
abbrev bind_int : ℤ → Checked
bind_int (pos n) = if ltb n (2 ^ 63) then ok tt else err overflow_error
bind_int (negsuc n) = if ltb n (2 ^ 63) then ok tt else err overflow_error

module _ {F : Type 0} where
  -- A parameter that sqlite3 cannot bind.
  abbrev bind : Value F → Checked
  bind (int minus n) = bind_int (signed minus n)
  bind (list vs) = err interface_error
  bind (dict fs) = err interface_error
  bind _ = ok tt

  unfoldable pub bind_all : List (Value F) → Checked
  bind_all [] = ok tt
  bind_all (v ∷ vs) = bind v >> bind_all vs

  -- `DELETE FROM receivers WHERE receiver_id IN (...)`
  unfoldable pub delete_receivers : List Str → Store F → Store F
  unfolding remove_all
  delete_receivers ids s = record s { receivers = remove_all ids s.receivers }

  -- `DELETE FROM receivers WHERE data_source = 'ckb_registry' AND receiver_id NOT IN (...)`
  unfoldable pub delete_registry_receivers_except : List Str → Store F → Store F
  unfolding str_in
  delete_registry_receivers_except ids s = record s {
    receivers =
        keep_if (λ e. not (str_eq e.1.data_source ckb_registry && not (str_in e.0 ids)))
          s.receivers;
  }

module _ (fl : Floats) (dumps : Value fl.F → Str) (now : Str) where
  open fl use {F}

  abbrev not_null : Value F → Bool
  not_null null = false
  not_null (float x) = is_number fl x
  not_null _ = true

  abbrev pub stored_receiver : ℕ → ReceiverRow F → StoredReceiver F
  stored_receiver sequence row = record {
    receiver_identity = text_or row.receiver_identity [];
    data_source = row.data_source;
    latitude = row.latitude;
    longitude = row.longitude;
    altitude = row.altitude;
    status = row.status;
    last_seen = row.last_seen;
    capabilities = dumps row.capabilities;
    receiver_label = row.receiver_label;
    registry_sequence = if ltb sequence (2 ^ 63) then sequence else 0;
    registry_sequence_u64 = show_nat sequence;
    registry_updated_at_u64 = show_nat row.registry_updated_at;
    owner_lock_args = row.owner_lock_args;
    owner_lock = row.owner_lock;
    registry_out_point = row.registry_out_point;
    metadata_hash = row.metadata_hash;
    updated_at = now;
  }

  abbrev pub no_null_column : ReceiverRow F → Bool
  no_null_column row =
      not_null row.latitude
      && not_null row.longitude
      && not_null row.altitude
      && not_null row.status
      && is_number fl row.last_seen
      && not_null row.receiver_label
      && not_null row.owner_lock_args
      && not_null row.metadata_hash

  -- The INSERT with its `ON CONFLICT(receiver_id) DO UPDATE`.
  abbrev pub upsert : ℕ → ReceiverRow F → Store F → Result (Store F)
  upsert sequence row s =
      if no_null_column row
      then ok (record s {
        receivers = insert row.receiver_id (stored_receiver sequence row) s.receivers;
      })
      else err integrity_error

  -- `store_receiver`
  unfoldable pub store_receiver : ReceiverRow F → Store F → Result (Store F)
  unfolding bind_all u64_of
  store_receiver row s = do
    sequence ← u64_of row.registry_sequence
    require (ltb row.registry_updated_at (2 ^ 64)) bad_sequence
    bind_all (
        row.latitude ∷ row.longitude ∷ row.altitude ∷ row.status ∷ row.receiver_label
        ∷ row.owner_lock_args ∷ row.metadata_hash ∷ [])
    upsert sequence row s

  abbrev touch : F → StoredReceiver F → StoredReceiver F
  touch last_seen r = record r { last_seen = last_seen; updated_at = now }

  -- `touch_receiver`
  unfoldable pub touch_receiver : Str → F → Store F → Result (Store F)
  touch_receiver id last_seen s = elim (lookup id s.receivers) [
    | none ↦ ok s
    | some r ↦
        if is_number fl last_seen
        then ok (record s { receivers = insert id (touch last_seen r) s.receivers })
        else err integrity_error
  ]

  abbrev with_table : Store F → Result (Option ℕ) × Positions F → Result (Store F)
  with_table s (ok id, positions) = ok (record s { positions = positions })
  with_table s (err e, positions) = err e

  -- `MLATDatabase`, as the runtime uses it
  unfoldable pub database : Database F (Store F)
  unfolding store_receiver touch_receiver store_position
  database = record {
    store_receiver = store_receiver;
    delete_receivers = λ ids s. ok (delete_receivers ids s);
    delete_registry_receivers_except = λ ids s. ok (delete_registry_receivers_except ids s);
    touch_receiver = touch_receiver;
    store_position = λ row s. with_table s (store_position fl row now s.positions);
  }
