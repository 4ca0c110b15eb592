-- ===== src/Trial/Signal.antt =====
-- What a feed transport reads from the records of a receiver whose clock `validate_clock` accepted.
use aircraft_malt.Prelude.{
  ℕ, zero, suc, ◌+◌, ◌/◌, ◌%◌, ◌<◌, ◌≤◌, ==_iff, some_eq, ◌≡◌, refl, sym, ap, inl, inr, true, false,
  Option, none, some, List, [], ◌∷◌, Str, Dict, lookup, str_eq, length, take, drop, ltb_ℤ, ℤ, pos,
  negsuc, Bool-cases, arith, ltb→lt,
}
use aircraft_malt.Float.{Floats}
use aircraft_malt.Value.{
  Value, str, dict, fields_of, of_integer, Result, ok, ok_injective, >>=-eq-ok,
}
use aircraft_malt.Registry.Json.{get}
use aircraft_malt.Registry.TypeId.{to_hex, hex_digit}
use aircraft_malt.Ingest.Transport.{is_truthy}
use aircraft_malt.Ingest.Feed.{
  Readers, FeedRecord, bound_receiver_id, parse_timestamp_ns, parse_optional_float, seconds_of,
  normalize_feed_records,
}
use aircraft_malt.Beast.{Bytes, Frame, type_to_message_len}
use aircraft_malt.Beast.Clock.{ticks_from}
use aircraft_malt.Beast.Timing.{Timing, normalize_beast_timestamp}
use aircraft_malt.Beast.Record.{
  printed, record_dict, upper_digit, upper_hex, first_byte, is_frame, canonical_receiver_id,
  record_with, beast_frame_to_record,
}
use aircraft_malt.Numbers.{Numerals}

negative : (n : ℕ) → ltb_ℤ (pos 0) (negsuc n) ≡ true → ⊥
negative n h = let k = ltb→lt (0 + suc n) (0 + 0) h in omega (arith, k)

module _ (fl : Floats) (readers : Readers fl.F) where
  open fl use {F, is_finite, le, literal}

  -- A time that the feed keeps as it is.
  pub record IsKept (t : Timing F) : Type 0 where
    pub synchronized : t.clock_synchronized ≡ true
    pub positive : ltb_ℤ (pos 0) t.timestamp_ns ≡ true
    pub seconds : seconds_of fl readers t.timestamp_ns ≡ ok t.timestamp
    pub uncertainty_finite : is_finite t.clock_uncertainty_ns ≡ true
    pub not_negative : le (literal (pos 0) 0) t.clock_uncertainty_ns ≡ true
    pub named : str_eq t.clock_source [] ≡ false

  -- The record that the feed reads.
  abbrev pub heard : Str → Str → Timing F → FeedRecord F
  heard receiver_id message t = record {
    receiver_id = receiver_id;
    timestamp = t.timestamp;
    timestamp_ns = some t.timestamp_ns;
    clock_synchronized = true;
    clock_source = t.clock_source;
    clock_uncertainty_ns = some t.clock_uncertainty_ns;
    message = message;
  }

  parse-of_integer :
      (n : ℤ) → ltb_ℤ (pos 0) n ≡ true → parse_timestamp_ns fl readers (of_integer n) ≡ ok (some n)
  unfolding parse_timestamp_ns
  parse-of_integer (pos n) h = rw h refl
  parse-of_integer (negsuc n) h = absurd (negative n h)

  module _ (rendered : (s : Str) → readers.render (str s) ≡ s) (now : F) (default : Option Str)
      (allowed : Option (List Str)) (a : ℕ) (id : Str) (c : ℕ) (message : Str) (b : ℕ) (bound : Str)
      (agreed : bound_receiver_id (some (a ∷ id)) default allowed ≡ some (b ∷ bound)) where
    pub record_dict-read :
        (sensor time raw : Str) (frame_type level ticks : ℕ) (received : F) (t : Timing F)
        → IsKept t
        → normalize_feed_records fl readers now default allowed (
            dict (
              fields_of (
                record_dict
                  (a ∷ id)
                  sensor
                  time
                  (c ∷ message)
                  frame_type
                  raw
                  level
                  (printed received ticks (some t)))))
          ≡ ok (heard (b ∷ bound) (c ∷ message) t ∷ [])
    unfolding normalize_feed_records get lookup str_eq is_truthy parse_optional_float
    record_dict-read sensor time raw frame_type level ticks received t k =
        rw
          (
            rendered (a ∷ id),
            agreed,
            parse-of_integer t.timestamp_ns k.positive,
            k.seconds,
            k.uncertainty_finite,
            k.not_negative,
            k.synchronized,
            k.named,
            rendered t.clock_source,
            rendered (c ∷ message),
          )
          refl

drop-nonempty :
    (n : ℕ) (bytes : Bytes)
    → n < length bytes
    → (b : ℕ) × (rest : Bytes) × (drop n bytes ≡ b ∷ rest)
drop-nonempty zero [] h = absurd (omega (arith, h))
drop-nonempty zero (b ∷ bytes) h = (b, bytes, refl)
drop-nonempty (suc n) [] h = absurd (omega (arith, h))
drop-nonempty (suc n) (b ∷ bytes) h = drop-nonempty n bytes (omega (arith, h))

type_to_message_len-bound : (t : ℕ) {n : ℕ} → type_to_message_len t ≡ some n → 2 ≤ n
unfolding type_to_message_len
type_to_message_len-bound t h = ground arith

is_frame-bound :
    (found : Option ℕ) (payload : Bytes)
    → ((n : ℕ) → found ≡ some n → 2 ≤ n)
    → is_frame found payload ≡ true
    → 7 < length payload
is_frame-bound none payload k h = cc
is_frame-bound (some n) payload k h = omega (arith, k n refl, (==_iff (length payload) (7 + n)).0 h)

-- The message of a frame is not empty.
pub message-nonempty :
    (frame : Frame)
    → is_frame (type_to_message_len frame.type_byte) frame.payload ≡ true
    → (c : ℕ) × (message : Str) × (upper_hex (drop 7 frame.payload) ≡ c ∷ message)
unfolding to_hex
message-nonempty frame h =
    let (b, rest, e) = drop-nonempty 7 frame.payload (
      is_frame-bound (type_to_message_len frame.type_byte) frame.payload
        (λ n. type_to_message_len-bound frame.type_byte) h) in
    (
      upper_digit (hex_digit (b / 16)),
      upper_digit (hex_digit (b % 16)) ∷ upper_hex rest,
      ap upper_hex e,
    )

module _ (fl : Floats) (readers : Readers fl.F) (numerals : Numerals fl.F)
    (isoformat_utc : fl.F → Result Str) (sensor_id : Str) (receiver_id : Option Str)
    (receiver_map : Dict Str) where
  open fl use {F}

  pub beast_frame_to_record-shape :
      (frame : Frame) (received_at : F) (c d : Dict (Value F)) (t : Timing F)
      → normalize_beast_timestamp fl readers numerals (take 6 frame.payload) (some c) ≡ ok (some t)
      → beast_frame_to_record fl readers numerals isoformat_utc sensor_id receiver_id receiver_map
          frame received_at
          (some c)
        ≡ ok (some d)
      → (is_frame (type_to_message_len frame.type_byte) frame.payload ≡ true)
        × ((time : Str) × (d
              ≡ record_dict
                  (canonical_receiver_id sensor_id receiver_id receiver_map)
                  sensor_id
                  time
                  (upper_hex (drop 7 frame.payload))
                  frame.type_byte
                  (upper_hex (take 6 frame.payload))
                  (first_byte (drop 6 frame.payload))
                  (printed received_at (ticks_from 0 (take 6 frame.payload)) (some t))))
  unfolding beast_frame_to_record record_with
  beast_frame_to_record-shape frame received_at c d t timed h =
      elim (Bool-cases (is_frame (type_to_message_len frame.type_byte) frame.payload)) [
        | inl e ↦
            (let k = (rw (e, timed) at h) in
              let (time, _, made) = >>=-eq-ok (isoformat_utc t.timestamp) _ k in
              (e, (time, sym (some_eq (ok_injective made)))))
        | inr e ↦ absurd (let k = (rw e at h) in cc)
      ]
