-- ===== src/Ingest/Client.antt =====
-- src/mlat_reference/ingest/client.py: `CKBReceiverNetworkClient`. The clock's readings and what the
-- discovery returned or raised are arguments of a step; a method returns its result or exception
-- beside the state that it leaves.
use aircraft_malt.Prelude.{
  ℕ, max, Bool, true, false, not, ◌&&◌, ◌||◌, Option, none, some, List, [], ◌∷◌, Str, codes, Dict,
  lookup, insert, str_eq, length, take, keep_if, pos, leb, if◌then◌else◌, all_of, ◌==◌,
}
use aircraft_malt.Float.{Floats}
use aircraft_malt.Value.{
  Value, null, Result, Checked, Error, ok, err, runtime_error, ◌>>=◌, strict_fallback,
  strict_synthetic,
}
use aircraft_malt.Registry.Record.{is_text}
use aircraft_malt.Registry.Json.{get}
use aircraft_malt.Discovery.Receiver.{ReceiverInfo, ckb_registry, contains_text, runtime_id}
use aircraft_malt.Discovery.Peers.{sort_by}
use aircraft_malt.Ingest.Transport.{
  NetworkConfig, text_or, is_set, simulation, websocket_json, command_jsonl, determine_transport,
  websocket_connections,
}

-- The running feed: the bridge command, the WebSocket connections, or simulated traffic.
pub data Feed : Type 0 where
  command_feed : Str → Feed
  websocket_feed : Dict Str → Feed
  simulated_feed : Feed

pub record NetworkClient (F : Type 0) : Type 0 where
  pub active_receivers : Dict (ReceiverInfo F)
  pub feed : Option Feed
  pub has_callback : Bool
  pub discovery_latency_ms : F
  pub registry_discovery_live : Bool
  pub last_registry_refresh_at : F
  pub registry_refresh_error : Option Error

-- `not self._stream_tasks`
abbrev pub is_idle : Option Feed → Bool
is_idle none = true
is_idle (some (websocket_feed [])) = true
is_idle (some (websocket_feed (c ∷ cs))) = false
is_idle (some (command_feed command)) = false
is_idle (some simulated_feed) = false

module _ {F : Type 0} where
  -- `receiver.receiver_identity or receiver.runtime_id`
  abbrev pub selection_key : ReceiverInfo F → Str
  selection_key r = text_or r.receiver_identity (runtime_id r)

  abbrev pub is_selectable : ReceiverInfo F → Bool
  is_selectable r = contains_text (codes "mlat") r.capabilities && is_text r.status (codes "online")

  -- `_select_receivers`
  unfoldable pub select_receivers : ℕ → List (ReceiverInfo F) → List (ReceiverInfo F)
  unfolding contains_text runtime_id sort_by
  select_receivers max_receivers receivers =
      take max_receivers (sort_by selection_key (keep_if is_selectable receivers))

  -- `active[receiver.runtime_id] = receiver` for each receiver
  unfoldable pub add_receivers :
      List (ReceiverInfo F) → Dict (ReceiverInfo F) → Dict (ReceiverInfo F)
  unfolding runtime_id
  add_receivers [] d = d
  add_receivers (r ∷ rs) d = add_receivers rs (insert (runtime_id r) r d)

  -- The entries that do not come from the Registry.
  unfoldable pub retained : Dict (ReceiverInfo F) → Dict (ReceiverInfo F)
  retained = keep_if (λ e. not (str_eq e.1.data_source ckb_registry))

  -- `if receiver.runtime_id in self.active_receivers: continue`
  abbrev pub unless_present :
      Option (ReceiverInfo F)
      → Dict (ReceiverInfo F)
      → Dict (ReceiverInfo F)
      → Dict (ReceiverInfo F)
  unless_present (some old) skip entered = skip
  unless_present none skip entered = entered

  -- The loop of `_augment_receivers_for_simulation`.
  unfoldable pub top_up : ℕ → List (ReceiverInfo F) → Dict (ReceiverInfo F) → Dict (ReceiverInfo F)
  unfolding runtime_id
  top_up minimum [] d = d
  top_up minimum (r ∷ rs) d =
      let added = insert (runtime_id r) r d in
      let skip = top_up minimum rs d in
      let more = top_up minimum rs added in
      let entered = if leb minimum (length added) then added else more in
      unless_present (lookup (runtime_id r) d) skip entered

  -- The fields of a receiver that `refresh_registry_receivers` compares.
  abbrev sequence_of : Option (Dict (Value F)) → Value F
  sequence_of none = null
  sequence_of (some metadata) = get (codes "sequence") metadata

  module _ (value_eq : Value F → Value F → Bool) where
    unfoldable pub same_snapshot : ReceiverInfo F → ReceiverInfo F → Bool
    same_snapshot r q =
        value_eq r.status q.status
        && value_eq r.latitude q.latitude
        && value_eq r.longitude q.longitude
        && value_eq r.altitude q.altitude
        && value_eq r.capabilities q.capabilities
        && value_eq (sequence_of r.metadata) (sequence_of q.metadata)
        && value_eq r.stream_endpoint q.stream_endpoint
        && value_eq r.stream_protocol q.stream_protocol
        && value_eq r.stream_format q.stream_format
        && value_eq r.ckb_address q.ckb_address
        && value_eq r.lock_hash q.lock_hash

    -- `current == previous`, on dictionaries
    unfoldable pub same_receivers : Dict (ReceiverInfo F) → Dict (ReceiverInfo F) → Bool
    unfolding same_snapshot
    same_receivers d e =
        length d == length e
        && all_of (λ r. elim (lookup r.0 e) [ none ↦ false | some q ↦ same_snapshot r.1 q ]) d

-- `try: ... else: ... except Exception: ...` around a call
abbrev pub attempt {ℓ κ} : {V : Type ℓ} {A : Type κ} → Result V → (V → A) → (Error → A) → A
attempt (ok v) succeeded failed = succeeded v
attempt (err e) succeeded failed = failed e

module _ (fl : Floats) (config : NetworkConfig) where
  open fl use {F, sub, mul, literal}

  -- The receivers that `_get_simulated_receivers` builds are the argument `demo`.
  -- `_augment_receivers_for_simulation`
  unfoldable pub augment_receivers :
      List (ReceiverInfo F) → Dict (ReceiverInfo F) → Result (Dict (ReceiverInfo F))
  unfolding determine_transport top_up
  augment_receivers demo active = do
    transport ← determine_transport fl config active
    let minimum = max 1 config.hybrid_simulation_min_receivers
    if config.strict_production_mode || not (str_eq transport simulation)
        then ok active
        else if leb minimum (length active)
        then ok active
        else ok (top_up minimum demo active)

  -- `(finished - started) * 1000`
  abbrev elapsed_ms : F → F → F
  elapsed_ms started finished = mul (sub finished started) (literal (pos 1000) 0)

  abbrev pub with_active : NetworkClient F → Dict (ReceiverInfo F) → NetworkClient F
  with_active c active = record c { active_receivers = active }

  -- The end of `initialize`, on the receivers that were discovered.
  unfoldable pub finish_initialize :
      List (ReceiverInfo F)
      → F
      → F
      → F
      → List (ReceiverInfo F)
      → NetworkClient F
      → Checked × NetworkClient F
  unfolding select_receivers add_receivers augment_receivers
  finish_initialize demo started finished now receivers c =
      let selected = select_receivers config.max_receivers receivers in
      let c' : NetworkClient F = record c {
        active_receivers = add_receivers selected c.active_receivers;
        discovery_latency_ms = elapsed_ms started finished;
        last_registry_refresh_at = now;
        registry_refresh_error = none;
      } in
      attempt (augment_receivers demo c'.active_receivers)
        (λ active. (ok tt, with_active c' active)) (λ e. (err e, c'))

  -- `initialize`
  unfoldable pub initialize :
      List (ReceiverInfo F)
      → F
      → F
      → F
      → Result (List (ReceiverInfo F))
      → NetworkClient F
      → Checked × NetworkClient F
  unfolding finish_initialize
  initialize demo started finished now discovered c =
      attempt discovered
        (λ receivers.
          finish_initialize demo started finished now receivers
            (record c { registry_discovery_live = true }))
        (λ e.
          if config.strict_production_mode || not config.simulate_if_unavailable
          then (err e, c)
          else finish_initialize demo started finished now [] c)

  -- The `except` block of `refresh_registry_receivers`.
  unfoldable pub refresh_failed :
      List (ReceiverInfo F) → F → F → Error → NetworkClient F → Result Bool × NetworkClient F
  unfolding retained augment_receivers
  refresh_failed demo started finished e c =
      let c' : NetworkClient F = record c {
        active_receivers = retained c.active_receivers;
        discovery_latency_ms = elapsed_ms started finished;
        registry_discovery_live = false;
        registry_refresh_error = some e;
      } in
      attempt (augment_receivers demo c'.active_receivers)
        (λ active. (err e, with_active c' active)) (λ raised. (err raised, c'))

  -- What follows the `except` block; `value_eq` is `==` on the fields of a receiver.
  unfoldable pub refresh_succeeded :
      (Value F → Value F → Bool)
      → List (ReceiverInfo F)
      → F
      → F
      → F
      → List (ReceiverInfo F)
      → NetworkClient F
      → Result Bool × NetworkClient F
  unfolding retained select_receivers add_receivers augment_receivers same_receivers
  refresh_succeeded value_eq demo started finished now discovered c =
      let selected = select_receivers config.max_receivers discovered in
      let c' : NetworkClient F =
        with_active c (add_receivers selected (retained c.active_receivers)) in
      attempt (augment_receivers demo c'.active_receivers)
        (λ active. (
          ok (not (same_receivers value_eq active c.active_receivers)),
          record c' {
            active_receivers = active;
            registry_discovery_live = true;
            registry_refresh_error = none;
            last_registry_refresh_at = now;
            discovery_latency_ms = elapsed_ms started finished;
          },
        ))
        (λ e. (err e, c'))

  -- `refresh_registry_receivers`
  unfoldable pub refresh_registry_receivers :
      (Value F → Value F → Bool)
      → List (ReceiverInfo F)
      → F
      → F
      → F
      → Result (List (ReceiverInfo F))
      → NetworkClient F
      → Result Bool × NetworkClient F
  unfolding refresh_failed refresh_succeeded
  refresh_registry_receivers value_eq demo started finished now discovered c =
      if str_eq config.receiver_registry_type_hash []
      then (ok false, c)
      else attempt discovered
          (λ receivers. refresh_succeeded value_eq demo started finished now receivers c)
          (λ e. refresh_failed demo started finished e c)

  -- The end of `start_streaming`: simulated traffic, unless the deployment is strict.
  abbrev pub start_simulation : Error → NetworkClient F → Checked × NetworkClient F
  start_simulation e c =
      if config.strict_production_mode
      then (err e, c)
      else (ok tt, record c { feed = some simulated_feed })

  abbrev pub start_connections : Result (Dict Str) → NetworkClient F → Checked × NetworkClient F
  start_connections (err e) c = (err e, record c { feed = some (websocket_feed []) })
  start_connections (ok []) c =
      start_simulation (runtime_error strict_fallback)
        (record c { feed = some (websocket_feed []) })
  start_connections (ok (b ∷ bs)) c = (ok tt, record c { feed = some (websocket_feed (b ∷ bs)) })

  abbrev pub start_transport : Str → NetworkClient F → Checked × NetworkClient F
  start_transport transport c =
      if str_eq transport command_jsonl && is_set config.fourdsky_bridge_command
      then (
        ok tt,
        record c { feed = some (command_feed (text_or config.fourdsky_bridge_command [])) },
      )
      else if str_eq transport websocket_json
      then start_connections (websocket_connections fl config.fourdskyendpoint c.active_receivers) c
      else start_simulation (runtime_error strict_synthetic) c

  -- `start_streaming`
  unfoldable pub start_streaming : NetworkClient F → Checked × NetworkClient F
  unfolding determine_transport websocket_connections
  start_streaming c =
      let c' : NetworkClient F = record c { has_callback = true } in
      if is_idle c.feed
      then attempt (determine_transport fl config c.active_receivers)
          (λ transport. start_transport transport c') (λ e. (err e, c'))
      else (ok tt, c')

  -- `restart_streaming`: `_stop_stream_tasks` clears the tasks and the transport.
  unfoldable pub restart_streaming : NetworkClient F → Checked × NetworkClient F
  unfolding start_streaming
  restart_streaming c =
      if c.has_callback then start_streaming (record c { feed = none }) else (ok tt, c)

  -- `shutdown`
  unfoldable pub shutdown : NetworkClient F → NetworkClient F
  shutdown c = record c {
    has_callback = false;
    feed = none;
    active_receivers = [];
    registry_discovery_live = false;
  }
