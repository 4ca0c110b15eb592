-- ===== src/Beast/Record.antt =====
-- tools/mlat/beast_tcp_adapter.py: `beast_frame_to_record`. `isoformat_utc`, which datetime computes,
-- is a parameter.
use aircraft_malt.Prelude.{
  ℕ, ◌+◌, ◌-◌, ◌==◌, Bool, false, Option, none, some, [], ◌∷◌, ◌++◌, Str, codes, Dict, lookup, map,
  length, take, drop, ℤ, if◌then◌else◌,
}
use aircraft_malt.Float.{Floats}
use aircraft_malt.Value.{Value, null, bool, int, float, str, of_integer, Result, ok, ◌>>=◌}
use aircraft_malt.Registry.Identity.{is_between}
use aircraft_malt.Registry.TypeId.{to_hex}
use aircraft_malt.Ingest.Transport.{text_or}
use aircraft_malt.Ingest.Feed.{Readers}
use aircraft_malt.Beast.{Bytes, Frame, type_to_message_len}
use aircraft_malt.Beast.Clock.{ticks_from}
use aircraft_malt.Beast.Timing.{Timing, normalize_beast_timestamp}
use aircraft_malt.Numbers.{Numerals}

-- `payload[6]`, of a payload that is long enough
abbrev pub first_byte : Bytes → ℕ
first_byte [] = 0
first_byte (b ∷ bytes) = b

-- `str.upper` on a hexadecimal digit
abbrev pub upper_digit : ℕ → ℕ
upper_digit c = if is_between b'a' b'f' c then c - 32 else c

abbrev pub upper_hex : Bytes → Str
upper_hex bytes = map upper_digit (to_hex bytes)

-- Whether a frame has a type of the table, and its length.
abbrev pub is_frame : Option ℕ → Bytes → Bool
is_frame none payload = false
is_frame (some n) payload = length payload == 7 + n

-- `receiver_id or receiver_map.get(sensor_id) or sensor_id`
abbrev pub canonical_receiver_id : Str → Option Str → Dict Str → Str
canonical_receiver_id sensor_id receiver_id receiver_map =
    text_or receiver_id (text_or (lookup sensor_id receiver_map) sensor_id)

-- The fields of `timing` as they are printed.
pub record Printed (F : Type 0) : Type 0 where
  pub timestamp_ns : Value F
  pub timestamp : F
  pub clock_synchronized : Bool
  pub clock_source : Str
  pub clock_uncertainty_ns : Value F
  pub clock_valid_from_ns : Value F
  pub clock_valid_until_ns : Value F
  pub clock_evidence_sha256 : Value F
  pub beast_timestamp_ticks : ℕ

module _ {F : Type 0} where
  abbrev pub from_of : Option (ℤ × ℤ) → Value F
  from_of none = null
  from_of (some (lo, hi)) = of_integer lo

  abbrev pub until_of : Option (ℤ × ℤ) → Value F
  until_of none = null
  until_of (some (lo, hi)) = of_integer hi

  -- `normalized_timing or {...}`
  abbrev pub printed : F → ℕ → Option (Timing F) → Printed F
  printed received_at ticks none = record {
    timestamp_ns = null;
    timestamp = received_at;
    clock_synchronized = false;
    clock_source = codes "network-arrival";
    clock_uncertainty_ns = null;
    clock_valid_from_ns = null;
    clock_valid_until_ns = null;
    clock_evidence_sha256 = null;
    beast_timestamp_ticks = ticks;
  }
  printed received_at ticks (some t) = record {
    timestamp_ns = of_integer t.timestamp_ns;
    timestamp = t.timestamp;
    clock_synchronized = t.clock_synchronized;
    clock_source = t.clock_source;
    clock_uncertainty_ns = float t.clock_uncertainty_ns;
    clock_valid_from_ns = from_of t.clock_validity;
    clock_valid_until_ns = until_of t.clock_validity;
    clock_evidence_sha256 = t.clock_evidence_sha256;
    beast_timestamp_ticks = t.beast_timestamp_ticks;
  }

  abbrev pub record_dict : Str → Str → Str → Str → ℕ → Str → ℕ → Printed F → Dict (Value F)
  record_dict receiver_id sensor_id time message frame_type raw_timestamp signal_level t =
      (codes "receiver_id", str receiver_id)
      ∷ (codes "sensor_id", str sensor_id)
      ∷ (codes "timestamp", float t.timestamp)
      ∷ (codes "timestamp_ns", t.timestamp_ns)
      ∷ (codes "time", str time)
      ∷ (codes "message", str message)
      ∷ (codes "hex", str message)
      ∷ (codes "source", str (codes "beast-tcp"))
      ∷ (codes "beast_frame_type", str (codes "0x" ++ to_hex (frame_type ∷ [])))
      ∷ (codes "beast_timestamp", str raw_timestamp)
      ∷ (codes "beast_timestamp_ticks", int false t.beast_timestamp_ticks)
      ∷ (codes "signal_level", int false signal_level)
      ∷ (codes "clock_synchronized", bool t.clock_synchronized)
      ∷ (codes "clock_source", str t.clock_source)
      ∷ (codes "clock_uncertainty_ns", t.clock_uncertainty_ns)
      ∷ (codes "clock_valid_from_ns", t.clock_valid_from_ns)
      ∷ (codes "clock_valid_until_ns", t.clock_valid_until_ns)
      ∷ (codes "clock_evidence_sha256", t.clock_evidence_sha256)
      ∷ []

module _ (fl : Floats) (readers : Readers fl.F) (numerals : Numerals fl.F)
    (isoformat_utc : fl.F → Result Str) (sensor_id : Str) (receiver_id : Option Str)
    (receiver_map : Dict Str) where
  open fl use {F}

  -- The record of a frame with its timing.
  unfoldable pub record_with : Frame → Printed F → Result (Option (Dict (Value F)))
  unfolding to_hex lookup
  record_with frame timing = do
    time ← isoformat_utc timing.timestamp
    ok (
        some (
          record_dict (canonical_receiver_id sensor_id receiver_id receiver_map) sensor_id time
            (upper_hex (drop 7 frame.payload)) frame.type_byte (upper_hex (take 6 frame.payload))
            (first_byte (drop 6 frame.payload)) timing))

  abbrev pub record_of_frame :
      Frame → F → Option (Dict (Value F)) → Result (Option (Dict (Value F)))
  record_of_frame frame received_at clock = do
    timing ← normalize_beast_timestamp fl readers numerals (take 6 frame.payload) clock
    record_with frame (printed received_at (ticks_from 0 (take 6 frame.payload)) timing)

  -- `beast_frame_to_record`
  unfoldable pub beast_frame_to_record :
      Frame → F → Option (Dict (Value F)) → Result (Option (Dict (Value F)))
  unfolding type_to_message_len normalize_beast_timestamp record_with ticks_from
  beast_frame_to_record frame received_at clock =
      if is_frame (type_to_message_len frame.type_byte) frame.payload
      then record_of_frame frame received_at clock
      else ok none
