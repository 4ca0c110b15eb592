-- ===== src/Runtime/Base.antt =====
-- src/mlat_reference/base.py: the receiver cache and the way of a signal to the correlator, with the
-- hooks of src/mlat_reference/runtime.py. The clock's readings are arguments of a step, and `int`
-- and `json.dumps` are parameters. A method returns its exception beside the state that it leaves.
use aircraft_malt.Prelude.{
  ◌+◌, Bool, true, false, not, ◌&&◌, ◌||◌, Option, none, some, List, [], ◌∷◌, Str, codes, Dict,
  lookup, insert, remove, str_eq, ℤ, pos, keep_if, map, if◌then◌else◌,
}
use aircraft_malt.Float.{Floats}
use aircraft_malt.Value.{Value, int, str, dict, end, Result, Checked, ok, err, ◌>>=◌}
use aircraft_malt.Registry.Identity.{lower}
use aircraft_malt.Discovery.Receiver.{ReceiverInfo, ckb_registry}
use aircraft_malt.Correlation.Signal.{RawSignal, max_of}
use aircraft_malt.Correlation.Correlator.{add_signal}
use aircraft_malt.Ingest.Transport.{strip, is_truthy}
use aircraft_malt.Ingest.Client.{NetworkClient, attempt}
use aircraft_malt.Runtime.State.{ReceiverPosition, ReceiverRow, Database, Runtime, push_latency}

abbrev pub is_some {ℓ} : {A : Type ℓ} → Option A → Bool
is_some none = false
is_some (some x) = true

abbrev pub or_default {ℓ} : {A : Type ℓ} → Option A → A → A
or_default none x = x
or_default (some y) x = y

-- `d.pop(key, None)` for each key
unfoldable pub remove_all {ℓ} : {V : Type ℓ} → List Str → Dict V → Dict V
remove_all [] d = d
remove_all (k ∷ ks) d = remove_all ks (remove k d)

-- `set(d) - set(e)`
unfoldable pub keys_without {ℓ κ} : {V : Type ℓ} {W : Type κ} → Dict V → Dict W → List Str
unfolding lookup
keys_without d e = map (λ entry. entry.0) (keep_if (λ entry. not (is_some (lookup entry.0 e))) d)

module _ {F : Type 0} where
  -- `build_receiver_position`
  unfoldable pub build_receiver_position : Str → ReceiverInfo F → ReceiverPosition F
  build_receiver_position receiver_id info = record {
    latitude = info.latitude;
    longitude = info.longitude;
    altitude = info.altitude;
    receiver_id = receiver_id;
  }

  -- The identifiers of `on_receiver_cache_synchronized`.
  abbrev pub active_registry_ids : Dict (ReceiverInfo F) → List Str
  active_registry_ids active =
      map (λ entry. entry.0) (keep_if (λ entry. str_eq entry.1.data_source ckb_registry) active)

  abbrev pub touched : F → Str → Option (ReceiverInfo F) → NetworkClient F → NetworkClient F
  touched now id none c = c
  touched now id (some info) c = record c {
    active_receivers = insert id (record info { last_seen = now }) c.active_receivers;
  }

module _ {F D : Type 0} where
  -- A step that leaves a new database, or raises and leaves the old one.
  abbrev pub on_database : (D → Result D) → Runtime F D → Checked × Runtime F D
  on_database call r =
      attempt (call r.database) (λ d. (ok tt, record r { database = d })) (λ e. (err e, r))

  -- The statements behind a call that returned nothing or raised.
  abbrev pub then_run :
      Checked × Runtime F D → (Runtime F D → Checked × Runtime F D) → Checked × Runtime F D
  then_run (err e, r) rest = (err e, r)
  then_run (ok _, r) rest = rest r

  abbrev pub with_positions : Runtime F D → Dict (ReceiverPosition F) → Runtime F D
  with_positions r positions = record r { receiver_positions = positions }

module _ (fl : Floats) where
  open fl use {F, le, lt, literal, sub, mul}

  -- `value or other`
  abbrev pub value_or : Value F → Value F → Value F
  value_or v other = if is_truthy fl v then v else other

  -- `info.metadata or {}` and its member, or `default`
  abbrev pub member : Option (Dict (Value F)) → Str → Value F → Value F
  member none key default = default
  member (some metadata) key default = or_default (lookup key metadata) default

  -- `_signal_clock_is_qualified`
  abbrev within_limit : Option F → F → Bool
  within_limit none limit = false
  within_limit (some x) limit = le x limit

  abbrev is_known_source : Str → Bool
  is_known_source source = not (
      str_eq source []
      || str_eq source (codes "unknown")
      || str_eq source (codes "network-arrival"))

  unfoldable pub signal_clock_is_qualified : F → RawSignal F → Bool
  unfolding strip
  signal_clock_is_qualified limit s =
      s.clock_synchronized
      && is_some s.timestamp_ns
      && is_known_source (lower (strip s.clock_source))
      && within_limit s.clock_uncertainty_ns limit

  -- The update of `instrumentation` and of the latencies.
  unfoldable pub instrument : {D : Type 0} → F → RawSignal F → Runtime F D → Runtime F D
  unfolding push_latency
  instrument now s r =
      let zero = literal (pos 0) 0 in
      record r {
        last_signal_at = now;
        last_signal_age_s = some (max_of fl zero (sub now s.timestamp));
        last_receiver_id = some s.receiver_id;
        last_message = some s.message;
        ingest_latencies_ms =
            push_latency (max_of fl zero (mul (sub now s.timestamp) (literal (pos 1000) 0)))
              r.ingest_latencies_ms;
      }

module _ (fl : Floats) {D : Type 0} (db : Database fl.F D) (int_of : Value fl.F → Result ℤ)
    (dumps : Value fl.F → Str) where
  open fl use {F, le, lt, literal, sub, mul}

  unfoldable pub receiver_row : Str → ReceiverInfo F → Result (ReceiverRow F)
  unfolding is_truthy
  receiver_row receiver_id info = do
    sequence ← int_of (member fl info.metadata (codes "sequence") (int false 0))
    ok (record {
      receiver_id = receiver_id;
      receiver_identity = info.receiver_identity;
      data_source = info.data_source;
      latitude = info.latitude;
      longitude = info.longitude;
      altitude = info.altitude;
      status = info.status;
      last_seen = info.last_seen;
      capabilities = info.capabilities;
      receiver_label = info.receiver_id;
      registry_sequence = sequence;
      registry_updated_at = or_default info.registry_updated_at 0;
      owner_lock_args = info.ckb_address;
      owner_lock =
          dumps (value_or fl (member fl info.metadata (codes "owner_lock") (dict end)) (dict end));
      registry_out_point =
          dumps (value_or fl (member fl info.metadata (codes "out_point") (dict end)) (dict end));
      metadata_hash =
          value_or fl (member fl info.metadata (codes "metadata_hash") (str [])) (str []);
    })

  -- `on_receiver_cached`
  unfoldable pub on_receiver_cached : Str → ReceiverInfo F → Runtime F D → Checked × Runtime F D
  unfolding receiver_row
  on_receiver_cached receiver_id info r =
      on_database (λ d. (do row ← receiver_row receiver_id info; db.store_receiver row d)) r

  -- `on_receivers_removed`
  unfoldable pub on_receivers_removed : List Str → Runtime F D → Checked × Runtime F D
  unfolding remove_all
  on_receivers_removed ids r =
      attempt (db.delete_receivers ids r.database)
        (λ d. (
          ok tt,
          record r {
            database = d;
            receiver_clock_status = remove_all ids r.receiver_clock_status;
            receiver_heartbeat_persisted_at = remove_all ids r.receiver_heartbeat_persisted_at;
          },
        ))
        (λ e. (err e, r))

  -- The loop of `_cache_receiver_positions`.
  unfoldable pub cache_receivers : Dict (ReceiverInfo F) → Runtime F D → Checked × Runtime F D
  unfolding build_receiver_position on_receiver_cached
  cache_receivers [] r = (ok tt, r)
  cache_receivers ((receiver_id, info) ∷ active) r =
      then_run
        (on_receiver_cached receiver_id info (
          with_positions r
            (insert receiver_id (build_receiver_position receiver_id info) r.receiver_positions)))
        (cache_receivers active)

  abbrev pub drop_receivers : List Str → Runtime F D → Checked × Runtime F D
  drop_receivers [] r = (ok tt, r)
  drop_receivers (id ∷ ids) r =
      on_receivers_removed (id ∷ ids)
        (with_positions r (remove_all (id ∷ ids) r.receiver_positions))

  -- `_cache_receiver_positions`
  unfoldable pub cache_receiver_positions : Runtime F D → Checked × Runtime F D
  unfolding keys_without on_receivers_removed cache_receivers remove_all
  cache_receiver_positions r =
      let active = r.network_client.active_receivers in
      then_run (drop_receivers (keys_without r.receiver_positions active) r) (λ dropped.
        then_run (cache_receivers active dropped)
          (on_database (db.delete_registry_receivers_except (active_registry_ids active))))

  -- The heartbeat that `on_signal_received` persists.
  abbrev pub persisted : F → Str → Runtime F D → Checked × Runtime F D
  persisted now id r =
      if le (literal (pos 5) 0)
        (sub now (or_default (lookup id r.receiver_heartbeat_persisted_at) (literal (pos 0) 0)))
      then attempt (db.touch_receiver id now r.database)
          (λ d. (
            ok tt,
            record r {
              database = d;
              receiver_heartbeat_persisted_at = insert id now r.receiver_heartbeat_persisted_at;
            },
          ))
          (λ e. (err e, r))
      else (ok tt, r)

  -- `on_signal_received`, at the time `now`
  unfoldable pub on_signal_received : F → RawSignal F → Runtime F D → Checked × Runtime F D
  unfolding signal_clock_is_qualified
  on_signal_received now s r =
      let active = r.network_client.active_receivers in
      persisted now s.receiver_id (record r {
        total_signals = r.total_signals + 1;
        receiver_clock_status =
            insert s.receiver_id (signal_clock_is_qualified fl r.max_clock_uncertainty_ns s)
              r.receiver_clock_status;
        network_client = touched now s.receiver_id (lookup s.receiver_id active) r.network_client;
      })

  abbrev pub accept_signal : F → F → RawSignal F → Runtime F D → Checked × Runtime F D
  accept_signal now later s r =
      then_run (on_signal_received later s (instrument fl now s r))
        (λ r'. (ok tt, record r' { correlator = add_signal fl s r'.correlator }))

  -- `handle_incoming_signal`, of the signal whose `signal_strength` is 0
  unfoldable pub handle_incoming_signal : F → F → RawSignal F → Runtime F D → Checked × Runtime F D
  unfolding on_signal_received instrument add_signal
  handle_incoming_signal now later s r =
      let zero = literal (pos 0) 0 in
      if is_some (lookup s.receiver_id r.receiver_positions)
      then accept_signal now later (record s { signal_strength = zero }) r
      else (ok tt, r)
