-- ===== src/Ingest/Examples.antt =====
-- The network client at concrete receivers.
use aircraft_malt.Prelude.{
  ◌≡◌, refl, ◌⊎◌, Bool, true, false, Option, none, some, List, [], ◌∷◌, Str, codes, lookup, insert,
  str_eq, str_lt, pos, ℤ, map,
}
use aircraft_malt.Float.Fixed.{fixed}
use aircraft_malt.Value.{
  Value, null, int, str, list, cons, nil, Items, ok, err, overflow_error, runtime_error,
  strict_simulation,
}
use aircraft_malt.Registry.Identity.{lower_char}
use aircraft_malt.Registry.Record.{is_text}
use aircraft_malt.Discovery.Receiver.{ReceiverInfo, ckb_registry}
use aircraft_malt.Ingest.Transport.{
  NetworkConfig, simulation, determine_transport, websocket_connections,
}
use aircraft_malt.Ingest.Client.{NetworkClient, refresh_registry_receivers}
use aircraft_malt.Ingest.Connections.{receivers_at, websocket_connections-IsBound}
use aircraft_malt.Ingest.Receivers.{is_registry}
use aircraft_malt.Ingest.Refresh.{IsEligible, refresh-IsEligible}
use aircraft_malt.Ingest.Strict.{refresh_on, start, restart, stop, IsLive, act_all, act_all-IsLive}

abbrev texts : List Str → Items ℤ
texts [] = nil
texts (t ∷ ts) = cons (str t) (texts ts)

abbrev receiver : Str → Option Str → Str → Str → ReceiverInfo ℤ
receiver name identity source endpoint = record {
  receiver_id = str name;
  latitude = int false 40;
  longitude = int true 74;
  altitude = int false 10;
  status = str (codes "online");
  last_seen = pos 0;
  capabilities = list (texts (codes "mode-s" ∷ codes "mlat" ∷ []));
  ckb_address = str (codes "addr");
  lock_hash = null;
  receiver_identity = identity;
  data_source = source;
  stream_endpoint = str endpoint;
  stream_protocol = str (codes "websocket-json");
  stream_format = str (codes "json");
  metadata = none;
  registry_updated_at = none;
}

abbrev pub north : ReceiverInfo ℤ
north = receiver (codes "NORTH") (some (codes "0x1")) ckb_registry (codes "ws://n")

abbrev pub south : ReceiverInfo ℤ
south = receiver (codes "SOUTH") (some (codes "0x2")) ckb_registry (codes "ws://s")

abbrev pub demo : List (ReceiverInfo ℤ)
demo =
    receiver (codes "DEMO-1") none simulation [] ∷ receiver (codes "DEMO-2") none simulation [] ∷ []

abbrev pub config_with : Bool → Str → NetworkConfig
config_with strict transport = record {
  receiver_registry_type_hash = codes "0xab";
  api_key = none;
  fourdskyendpoint = [];
  fourdsky_transport = transport;
  fourdsky_auth_header = [];
  fourdsky_auth_scheme = none;
  fourdsky_auth_token = none;
  fourdsky_bridge_command = none;
  max_receivers = 1;
  simulate_if_unavailable = true;
  strict_production_mode = strict;
  hybrid_simulation_min_receivers = 4;
}

abbrev pub new_client : NetworkClient ℤ
new_client = record {
  active_receivers = (codes "0x1", north) ∷ (codes "0x2", south) ∷ [];
  feed = none;
  has_callback = false;
  discovery_latency_ms = pos 0;
  registry_discovery_live = false;
  last_registry_refresh_at = pos 0;
  registry_refresh_error = none;
}

abbrev pub never_equal : Value ℤ → Value ℤ → Bool
never_equal a b = false

-- The setting is read without regard to letter case and surrounding white space.
strict_refuses_simulation :
    determine_transport fixed (config_with true (codes " Simulation ")) []
    ≡ err (runtime_error strict_simulation)
unfolding determine_transport str_eq lower_char
strict_refuses_simulation = refl

-- One receiver is within the limit, and two demonstration receivers join it.
refreshed_keys :
    map
      (λ e. e.0)
      (refresh_registry_receivers fixed
        (config_with false simulation)
        never_equal
        demo
        (pos 0)
        (pos 1)
        (pos 2)
        (ok (south ∷ north ∷ []))
        new_client).1.active_receivers
    ≡ codes "0x1" ∷ codes "simulation:DEMO-1" ∷ codes "simulation:DEMO-2" ∷ []
unfolding refresh_registry_receivers str_eq str_lt insert lookup lower_char is_text
refreshed_keys = refl

refresh-IsEligible_example :
    IsEligible
      (λ r. ⊥)
      0
      (refresh_registry_receivers fixed
        (config_with false simulation)
        never_equal
        demo
        (pos 0)
        (pos 1)
        (pos 2)
        (err overflow_error)
        new_client).1.active_receivers
unfolding str_eq
refresh-IsEligible_example =
    refresh-IsEligible fixed (config_with false simulation) demo (refl, (refl, tt)) (λ r. ⊥)
      new_client never_equal (pos 0) (pos 1) (pos 2) (err overflow_error) refl tt

abbrev IsOnlineHere : ReceiverInfo ℤ → Type 0
IsOnlineHere r = is_registry r ≡ true

act_all-IsLive_example :
    IsLive fixed (config_with true (codes "auto")) never_equal demo IsOnlineHere (
      act_all fixed
        (config_with true (codes "auto"))
        never_equal
        demo
        (start ∷ refresh_on (pos 0) (pos 1) (pos 2) (ok (south ∷ [])) ∷ restart ∷ stop ∷ [])
        new_client)
unfolding str_eq
act_all-IsLive_example =
    act_all-IsLive fixed (config_with true (codes "auto")) never_equal demo refl IsOnlineHere
      (start ∷ refresh_on (pos 0) (pos 1) (pos 2) (ok (south ∷ [])) ∷ restart ∷ stop ∷ [])
      new_client (tt, ((refl, tt), (tt, (tt, tt))))
      (record { real_feed = refl; real_receivers = (refl, (refl, tt)) })

connected :
    websocket_connections fixed [] new_client.active_receivers
    ≡ ok ((codes "ws://n", codes "0x1") ∷ (codes "ws://s", codes "0x2") ∷ [])
unfolding websocket_connections str_eq lookup insert is_text
connected = refl

websocket_connections-IsBound_example :
    ((receivers_at fixed [] (codes "ws://s") new_client.active_receivers ≡ [])
      × (lookup
            (codes "ws://s")
            ((codes "ws://n", codes "0x1") ∷ (codes "ws://s", codes "0x2") ∷ [])
          ≡ none))
    ⊎ ((id : Str) × (receivers_at fixed [] (codes "ws://s") new_client.active_receivers ≡ id ∷ [])
        × (lookup
              (codes "ws://s")
              ((codes "ws://n", codes "0x1") ∷ (codes "ws://s", codes "0x2") ∷ [])
            ≡ some id))
unfolding str_eq
websocket_connections-IsBound_example =
    websocket_connections-IsBound fixed [] new_client.active_receivers _ (codes "ws://s") connected
      refl
