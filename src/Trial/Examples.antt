-- ===== src/Trial/Examples.antt =====
-- A configuration of four receivers.
use aircraft_malt.Prelude.{
  ◌≡◌, with_all, insert, ◌+ℤ◌, ℕ, refl, true, false, Option, none, some, List, [], ◌∷◌, ◌++◌, Str,
  codes, Dict, lookup, str_eq, str_in, ℤ, pos,
}
use aircraft_malt.Float.Fixed.{fixed, fixed-IsIeee, div_fixed}
use aircraft_malt.Value.{Value, bool, int, str, list, dict, cons, nil, fields_of, Result, ok, err}
use aircraft_malt.Registry.Identity.{
  is_hex, is_identity, lower_char, normalize_text, normalize_receiver_identity,
}
use aircraft_malt.Registry.Record.{is_null}
use aircraft_malt.Registry.Json.{get}
use aircraft_malt.Registry.TypeId.{to_hex}
use aircraft_malt.Ingest.Feed.{Readers, bound_receiver_id, normalize_feed_records}
use aircraft_malt.Beast.{Frame}
use aircraft_malt.Beast.Timing.{Timing}
use aircraft_malt.Beast.Record.{beast_frame_to_record}
use aircraft_malt.Numbers.{Numerals}
use aircraft_malt.Trial.Clock.{validate_clock}
use aircraft_malt.Trial.Config.{repeat_char, load_receiver_config}
use aircraft_malt.Trial.Usable.{IsUsable, validate_clock-IsUsable}
use aircraft_malt.Trial.Signal.{heard}
use aircraft_malt.Trial.Heard.{normalize_feed_records-beast_frame_to_record}
use aircraft_malt.Trial.Ready.{IsTrial, load_receiver_config-IsTrial}

abbrev readers : Readers ℤ
readers = record {
  render = λ v. elim v as (λ _. Str) [ str s ↦ s | _ ↦ codes "1" ];
  int_of_text = λ s. none;
  truncate = λ x. ok none;
  float_of_text = λ s. none;
  iso_timestamp = λ s. none;
}

abbrev numerals : Numerals ℤ
numerals = record {
  int_base_0 = λ s. none;
  whole = λ x. none;
  round_quotient = λ n x. some (div_fixed n x);
}

abbrev digest : Str
digest = repeat_char 64 b'a'

abbrev digest_of : Str → Option Str
digest_of s = some digest

abbrev limit : ℤ
limit = pos 100000000000

abbrev clock : Value ℤ
clock = dict (
    fields_of (
      (codes "enabled", bool true)
      ∷ (codes "source", str (codes " GPSDO "))
      ∷ (codes "frequency_hz", int false 12000000)
      ∷ (codes "anchor_tick", int false 1000)
      ∷ (codes "anchor_time_ns", int false 5000)
      ∷ (codes "uncertainty_ns", int false 50)
      ∷ (codes "valid_from_ns", int false 4000)
      ∷ (codes "valid_until_ns", int false 9000)
      ∷ (
        codes "evidence",
        dict (
            fields_of (
              (codes "method", str (codes "loopback"))
              ∷ (codes "file", str (codes "a.json"))
              ∷ (codes "sha256", str digest)
              ∷ [])),
      )
      ∷ []))

abbrev receiver : ℕ → ℕ → Value ℤ
receiver digit port = dict (
    fields_of (
      (codes "receiver_identity", str (codes "0x" ++ repeat_char 64 digit))
      ∷ (codes "sensor_id", str (digit ∷ []))
      ∷ (codes "host", str (codes "localhost"))
      ∷ (codes "port", int false port)
      ∷ (codes "clock", clock)
      ∷ []))

abbrev config : Value ℤ
config = dict (
    fields_of (
      (
        codes "receivers",
        list (
            cons (receiver b'5' 30005) (
              cons (receiver b'6' 30006)
                (cons (receiver b'7' 30007) (cons (receiver b'8' 30008) nil)))),
      )
      ∷ []))

abbrev value_of : {A : Type 0} → Result (List A) → List A
value_of (ok xs) = xs
value_of (err e) = []

abbrev accepted_clock : Dict (Value ℤ)
accepted_clock =
    value_of (validate_clock fixed readers numerals digest_of limit true (pos 6000) clock)

validate_clock-IsUsable_example :
    IsUsable fixed readers numerals digest_of limit (pos 6000) accepted_clock
unfolding validate_clock str_eq lookup get str_in lower_char is_hex
validate_clock-IsUsable_example =
    validate_clock-IsUsable fixed readers numerals digest_of limit (pos 6000) clock accepted_clock
      refl

abbrev accepted_entries : List (Dict (Value ℤ))
accepted_entries =
    value_of (load_receiver_config fixed readers numerals digest_of limit true (pos 6000) config)

load_receiver_config-IsTrial_example :
    IsTrial fixed readers numerals digest_of limit (pos 6000) accepted_entries
unfolding load_receiver_config str_eq lookup get normalize_receiver_identity normalize_text
    is_identity is_hex str_in lower_char
load_receiver_config-IsTrial_example =
    load_receiver_config-IsTrial fixed readers numerals digest_of limit (pos 6000) config
      accepted_entries refl

-- Twelve ticks, which are a microsecond, after the anchor.
abbrev frame : Frame
frame = record {
  type_byte = 0x32;
  payload = 0 ∷ 0 ∷ 0 ∷ 0 ∷ 3 ∷ 244 ∷ 80 ∷ 0x5d ∷ 0x48 ∷ 0x40 ∷ 0xd6 ∷ 1 ∷ 2 ∷ 3 ∷ [];
}

abbrev timing : Timing ℤ
timing = record {
  timestamp_ns = pos 6000;
  timestamp = pos 6000;
  clock_synchronized = true;
  clock_source = codes "GPSDO";
  clock_uncertainty_ns = pos 50000000000;
  clock_validity = some (pos 4000, pos 9000);
  clock_evidence_sha256 = str digest;
  beast_timestamp_ticks = 1012;
}

abbrev entry_of : Result (Option (Dict (Value ℤ))) → Dict (Value ℤ)
entry_of (ok (some d)) = d
entry_of (ok none) = []
entry_of (err e) = []

abbrev printed_record : Dict (Value ℤ)
printed_record = entry_of (
    beast_frame_to_record fixed readers numerals (λ x. ok (codes "T")) (codes "s")
      (some (codes "R")) [] frame (pos 7000) (some accepted_clock))

normalize_feed_records-beast_frame_to_record_example :
    (normalize_feed_records fixed readers
        (pos 7000)
        none
        (some (codes "R" ∷ []))
        (dict (fields_of printed_record))
      ≡ ok (heard fixed readers (codes "R") (codes "5D4840D6010203") timing ∷ []))
    × (fixed.lt limit timing.clock_uncertainty_ns ≡ false)
unfolding validate_clock beast_frame_to_record str_eq lookup get str_in lower_char is_hex to_hex
    with_all insert is_null ◌+ℤ◌ bound_receiver_id
normalize_feed_records-beast_frame_to_record_example =
    normalize_feed_records-beast_frame_to_record fixed fixed-IsIeee readers numerals refl digest_of
      limit (pos 6000) (λ s. refl) (λ x. ok (codes "T")) (codes "s") (some (codes "R")) []
      (pos 7000) none (some (codes "R" ∷ [])) clock accepted_clock printed_record frame (pos 7000)
      timing b'R' [] b'R' [] refl refl refl refl refl
