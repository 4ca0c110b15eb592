-- ===== src/Ingest/Transport.antt =====
-- src/mlat_reference/ingest/client.py: `NetworkConfig` and the choice of a transport, and
-- src/mlat_reference/ingest/feed_transports.py: the connections of the WebSocket transport.
use aircraft_malt.Prelude.{
  ℕ, Bool, true, false, not, ◌&&◌, ◌||◌, Option, none, some, List, [], ◌∷◌, ◌++◌, Str, codes, Dict,
  lookup, insert, str_eq, ◌==◌, any_of, pos, if◌then◌else◌,
}
use aircraft_malt.Float.{Floats}
use aircraft_malt.Value.{
  Value, null, bool, int, float, str, list, dict, nil, cons, end, field, Result, ok, err,
  runtime_error, strict_simulation, strict_auto, shared_endpoint,
}
use aircraft_malt.Registry.Identity.{is_between, lower}
use aircraft_malt.Registry.Record.{is_text}
use aircraft_malt.Discovery.Receiver.{ReceiverInfo, text_of}
use aircraft_malt.Discovery.Peers.{values}

-- The settings that the modelled code reads.
pub record NetworkConfig : Type 0 where
  pub receiver_registry_type_hash : Str
  pub api_key : Option Str
  pub fourdskyendpoint : Str
  pub fourdsky_transport : Str
  pub fourdsky_auth_header : Str
  pub fourdsky_auth_scheme : Option Str
  pub fourdsky_auth_token : Option Str
  pub fourdsky_bridge_command : Option Str
  pub max_receivers : ℕ
  pub simulate_if_unavailable : Bool
  pub strict_production_mode : Bool
  pub hybrid_simulation_min_receivers : ℕ

-- `str.isspace` on one character
unfoldable pub is_text_space : ℕ → Bool
is_text_space c =
    is_between 9 13 c
    || is_between 28 32 c
    || c == 0x85
    || c == 0xa0
    || c == 0x1680
    || is_between 0x2000 0x200a c
    || is_between 0x2028 0x2029 c
    || c == 0x202f
    || c == 0x205f
    || c == 0x3000

-- `s.lstrip()` and `s.rstrip()`
unfoldable pub strip_left : Str → Str
strip_left [] = []
strip_left (c ∷ s) = let rest = strip_left s in if is_text_space c then rest else c ∷ s

abbrev pub before_stripped : ℕ → Str → Str
before_stripped c [] = if is_text_space c then [] else c ∷ []
before_stripped c (d ∷ r) = c ∷ d ∷ r

unfoldable pub strip_right : Str → Str
strip_right [] = []
strip_right (c ∷ s) = before_stripped c (strip_right s)

unfoldable pub strip : Str → Str
unfolding strip_left strip_right is_text_space
strip s = strip_left (strip_right s)

-- `text or other`, for a text or None
abbrev pub text_or : Option Str → Str → Str
text_or none other = other
text_or (some []) other = other
text_or (some (c ∷ s)) other = c ∷ s

abbrev pub is_set : Option Str → Bool
is_set none = false
is_set (some []) = false
is_set (some (c ∷ s)) = true

abbrev pub simulation : Str
simulation = codes "simulation"

abbrev pub websocket_json : Str
websocket_json = codes "websocket-json"

abbrev pub command_jsonl : Str
command_jsonl = codes "command-jsonl"

-- `_build_auth_headers`
unfoldable pub build_auth_headers : NetworkConfig → Dict Str
build_auth_headers config =
    let token = text_or config.fourdsky_auth_token (text_or config.api_key []) in
    let header_name = text_or (some config.fourdsky_auth_header) (codes "X-API-Key") in
    if str_eq token []
    then []
    else if is_set config.fourdsky_auth_scheme
    then (header_name, text_or config.fourdsky_auth_scheme [] ++ (codes " " ++ token)) ∷ []
    else (header_name, token) ∷ []

abbrev pub ids_of : Option (List Str) → List Str
ids_of none = []
ids_of (some ids) = ids

-- `endpoint_to_receivers.setdefault(endpoint, []).append(receiver_id)`
abbrev pub assign_endpoint : Str → Str → Dict (List Str) → Dict (List Str)
assign_endpoint endpoint receiver_id d =
    insert endpoint (ids_of (lookup endpoint d) ++ receiver_id ∷ []) d

module _ (fl : Floats) where
  open fl use {F, le, literal}

  -- `bool(value)`
  unfoldable pub is_truthy : Value F → Bool
  is_truthy null = false
  is_truthy (bool b) = b
  is_truthy (int minus n) = not (n == 0)
  is_truthy (float x) = not (le x (literal (pos 0) 0) && le (literal (pos 0) 0) x)
  is_truthy (str s) = not (str_eq s [])
  is_truthy (list nil) = false
  is_truthy (list (cons v vs)) = true
  is_truthy (dict end) = false
  is_truthy (dict (field k v fs)) = true

  -- `_determine_transport`, over the active receivers; letter case is that of ASCII.
  unfoldable pub determine_transport : NetworkConfig → Dict (ReceiverInfo F) → Result Str
  unfolding strip is_truthy
  determine_transport config active =
      let configured = lower (strip (text_or (some config.fourdsky_transport) (codes "auto"))) in
      if not (str_eq configured (codes "auto"))
      then (if config.strict_production_mode && str_eq configured simulation
          then err (runtime_error strict_simulation)
          else ok configured)
      else if is_set config.fourdsky_bridge_command
      then ok command_jsonl
      else if not (str_eq config.fourdskyendpoint [])
          || any_of (λ r. is_truthy r.stream_endpoint) (values active)
      then ok websocket_json
      else if config.strict_production_mode
      then err (runtime_error strict_auto)
      else ok simulation

  -- `receiver.stream_endpoint or self.endpoint`; a receiver's endpoint is a text or None.
  abbrev pub endpoint_of : Str → ReceiverInfo F → Str
  endpoint_of default r = if is_truthy r.stream_endpoint then text_of r.stream_endpoint else default

  -- `if receiver.stream_protocol and receiver.stream_protocol not in {...}: continue`
  abbrev pub is_other_protocol : ReceiverInfo F → Bool
  is_other_protocol r =
      is_truthy r.stream_protocol
      && not (is_text r.stream_protocol websocket_json || is_text r.stream_protocol simulation)

  -- The first loop of `create_tasks`.
  unfoldable pub assign_endpoints : Str → Dict (ReceiverInfo F) → Dict (List Str) → Dict (List Str)
  assign_endpoints default [] d = d
  assign_endpoints default ((receiver_id, r) ∷ active) d = assign_endpoints default active (
      if is_other_protocol r || str_eq (endpoint_of default r) []
      then d
      else assign_endpoint (endpoint_of default r) receiver_id d)

-- The second loop: a connection for each endpoint, bound to its one receiver.
unfoldable pub bind_connections : Dict (List Str) → Result (Dict Str)
bind_connections [] = ok []
bind_connections ((endpoint, []) ∷ d) = err (runtime_error shared_endpoint)
bind_connections ((endpoint, id ∷ []) ∷ d) = elim (bind_connections d) [
  | err e ↦ err e
  | ok connections ↦ ok ((endpoint, id) ∷ connections)
]
bind_connections ((endpoint, id ∷ id' ∷ ids) ∷ d) = err (runtime_error shared_endpoint)

-- `WebSocketJsonFeedTransport.create_tasks`: the endpoints that are connected to, each with the
-- receiver that its records are bound to.
unfoldable pub websocket_connections :
    (fl : Floats) → Str → Dict (ReceiverInfo fl.F) → Result (Dict Str)
unfolding assign_endpoints bind_connections is_truthy
websocket_connections fl endpoint active = bind_connections (assign_endpoints fl endpoint active [])
