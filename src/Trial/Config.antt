-- ===== src/Trial/Config.antt =====
-- tools/mlat/receiver_config.py: `load_receiver_config`, on the value that the file's JSON text has.
use aircraft_malt.Prelude.{
  ℕ, zero, suc, ◌+◌, ◌==◌, Bool, false, not, ◌&&◌, Option, List, [], ◌∷◌, ◌++◌, map, Str, codes,
  Dict, with_all, str_eq, str_in, ltb, leb, length, any_of, ℤ, pos, negsuc, if◌then◌else◌,
}
use aircraft_malt.Float.{Floats}
use aircraft_malt.Value.{
  Value, int, str, list, dict, items, entries, fields_of, Result, ok, err, value_error, require,
  config_not_object, too_few_receivers, receiver_not_object, bad_registry_identity,
  example_identity, duplicate_receiver, bad_sensor_id, duplicate_sensor, bad_host, bad_port,
  duplicate_endpoint, ◌>>=◌, ◌>>◌,
}
use aircraft_malt.Registry.Identity.{is_between, normalize_receiver_identity}
use aircraft_malt.Registry.Json.{get}
use aircraft_malt.Ingest.Transport.{is_text_space, strip}
use aircraft_malt.Ingest.Feed.{Readers}
use aircraft_malt.Numbers.{Numerals, text_or_empty, integer}
use aircraft_malt.Trial.Clock.{validate_clock}

-- A receiver that was accepted. The sets of identities, sensors and endpoints that the source keeps
-- are those of the receivers accepted so far.
pub record Accepted (F : Type 0) : Type 0 where
  pub raw : Dict (Value F)
  pub identity : Str
  pub sensor_id : Str
  pub host : Str
  pub port : ℕ
  pub clock : Dict (Value F)

abbrev pub repeat_char : ℕ → ℕ → Str
repeat_char zero c = []
repeat_char (suc n) c = c ∷ repeat_char n c

-- `EXAMPLE_IDENTITY_IDS`
abbrev pub example_identities : List Str
example_identities = map (λ c. codes "0x" ++ repeat_char 64 c) (b'1' ∷ b'2' ∷ b'3' ∷ b'4' ∷ [])

-- `len(text.encode("utf-8"))`, for a text without surrogates
abbrev pub utf8_size : Str → ℕ
utf8_size [] = 0
utf8_size (c ∷ s) =
    (if ltb c 0x80 then 1 else if ltb c 0x800 then 2 else if ltb c 0x10000 then 3 else 4)
    + utf8_size s

abbrev is_surrogate : ℕ → Bool
is_surrogate c = is_between 0xd800 0xdfff c

-- `1 <= port <= 65535`
unfoldable pub port_of : ℤ → Result ℕ
port_of (pos n) = if is_between 1 65535 n then ok n else err (value_error bad_port)
port_of (negsuc n) = err (value_error bad_port)

abbrev pub registry_identity : Result Str → Result Str
registry_identity (ok identity) = ok identity
registry_identity (err e) = err (value_error bad_registry_identity)

abbrev pub is_sensor : Str → Bool
is_sensor s = not (str_eq s []) && not (any_of is_surrogate s) && leb (utf8_size s) 64

abbrev pub is_host : Str → Bool
is_host s = not (str_eq s []) && not (any_of is_text_space s)

module _ {F : Type 0} where
  -- The entry of the list that is returned.
  abbrev pub as_dict : Accepted F → Dict (Value F)
  as_dict a =
      with_all
        ((codes "receiver_identity", str a.identity)
          ∷ (codes "sensor_id", str a.sensor_id)
          ∷ (codes "host", str a.host)
          ∷ (codes "port", int false a.port)
          ∷ (codes "clock", dict (fields_of a.clock))
          ∷ [])
        a.raw

  abbrev pub receivers_at_least : ℕ → Value F → Result (List (Value F))
  receivers_at_least minimum (list vs) =
      if leb minimum (length (items vs)) then ok (items vs) else err (value_error too_few_receivers)
  receivers_at_least minimum _ = err (value_error too_few_receivers)

  unfoldable pub receivers_in : ℕ → Value F → Result (List (Value F))
  receivers_in minimum (dict fs) = receivers_at_least minimum (get (codes "receivers") (entries fs))
  receivers_in minimum _ = err (value_error config_not_object)

module _ (fl : Floats) (readers : Readers fl.F) (numerals : Numerals fl.F)
    (digest_of : Str → Option Str) (max_uncertainty_ns : fl.F) (require_mlat_ready : Bool)
    (now_ns : ℤ) where
  open fl use {F}

  abbrev pub text_at : Str → Dict (Value F) → Str
  text_at key raw = strip (text_or_empty fl readers (get key raw))

  -- The checks of one receiver, behind the ones accepted so far.
  unfoldable pub check_fields : List (Accepted F) → Dict (Value F) → Result (Accepted F)
  unfolding strip text_or_empty integer port_of validate_clock
  check_fields seen raw = do
    identity ← registry_identity (normalize_receiver_identity (get (codes "receiver_identity") raw))
    require (not (require_mlat_ready && str_in identity example_identities)) example_identity
    require (not (any_of (λ a. str_eq a.identity identity) seen)) duplicate_receiver
    let sensor_id = text_at (codes "sensor_id") raw
    require (is_sensor sensor_id) bad_sensor_id
    require (not (any_of (λ a. str_eq a.sensor_id sensor_id) seen)) duplicate_sensor
    let host = text_at (codes "host") raw
    require (is_host host) bad_host
    number ← integer fl readers numerals bad_port (get (codes "port") raw)
    port ← port_of number
    require (not (any_of (λ a. str_eq a.host host && a.port == port) seen)) duplicate_endpoint
    clock ←
        validate_clock fl readers numerals digest_of max_uncertainty_ns require_mlat_ready now_ns
          (get (codes "clock") raw)
    ok (record {
      raw = raw;
      identity = identity;
      sensor_id = sensor_id;
      host = host;
      port = port;
      clock = clock;
    })

  abbrev pub check_receiver : List (Accepted F) → Value F → Result (Accepted F)
  check_receiver seen (dict fs) = check_fields seen (entries fs)
  check_receiver seen _ = err (value_error receiver_not_object)

  unfoldable pub accept_all : List (Value F) → List (Accepted F) → Result (List (Accepted F))
  unfolding check_fields
  accept_all [] seen = ok seen
  accept_all (v ∷ vs) seen = do
    accepted ← check_receiver seen v
    accept_all vs (seen ++ accepted ∷ [])

  -- `load_receiver_config`, from the JSON value on
  unfoldable pub load_receiver_config : Value F → Result (List (Dict (Value F)))
  unfolding receivers_in accept_all
  load_receiver_config payload = do
    receivers ← receivers_in (if require_mlat_ready then 4 else 1) payload
    accepted ← accept_all receivers []
    ok (map as_dict accepted)
