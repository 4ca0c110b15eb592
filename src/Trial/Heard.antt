-- ===== src/Trial/Heard.antt =====
-- The way of a frame from a receiver with an accepted clock through the adapter to a feed transport.
use aircraft_malt.Prelude.{
  ℕ, ◌≡◌, refl, sym, ◌∙◌, Bool, true, false, Option, none, some, some_eq, List, [], ◌∷◌, Str, Dict,
  take, drop, leb_ℤ, ℤ, pos, ◌+ℤ◌, and_left, tests,
}
use mathlib.Core.Path.{subst}
use aircraft_malt.Float.{Floats, IsIeee}
use aircraft_malt.Value.{Value, str, dict, fields_of, Result, ok, ok_injective, >>=-eq-ok}
use aircraft_malt.Ingest.Feed.{Readers, bound_receiver_id, seconds_of, normalize_feed_records}
use aircraft_malt.Beast.{Frame}
use aircraft_malt.Beast.Clock.{ticks_from, delta_ticks}
use aircraft_malt.Beast.Timing.{Timing, in_billionths, valid_timing, normalize_beast_timestamp}
use aircraft_malt.Beast.Record.{upper_hex, canonical_receiver_id, beast_frame_to_record}
use aircraft_malt.Numbers.{Numerals}
use aircraft_malt.Trial.Clock.{is_positive, lies_within, validate_clock}
use aircraft_malt.Trial.Calibration.{Calibration, IsQualified}
use aircraft_malt.Trial.Usable.{named-nonempty, read_drift, validate_clock-IsUsable}
use aircraft_malt.Trial.Signal.{
  IsKept, heard, record_dict-read, message-nonempty, beast_frame_to_record-shape,
}

positive_within :
    (lo hi n : ℤ) → is_positive lo ≡ true → lies_within lo hi n ≡ true → is_positive n ≡ true
positive_within lo hi n h k = grind (tests, h, and_left (leb_ℤ lo n) (leb_ℤ n hi) k)

module _ (fl : Floats) (laws : IsIeee fl) (readers : Readers fl.F) (numerals : Numerals fl.F)
    (zero_finite : fl.is_finite (fl.literal (pos 0) 0) ≡ true) (digest_of : Str → Option Str)
    (max_uncertainty_ns : fl.F) (now_ns : ℤ) where
  open fl use {F, lt, le, literal}

  valid_timing-some :
      (valid : Bool) (ns : ℤ) (timing : F → Timing F) {t : Timing F}
      → valid_timing fl readers numerals valid ns timing ≡ ok (some t)
      → (valid ≡ true)
        × ((seconds : F) × (seconds_of fl readers ns ≡ ok seconds) × (timing seconds ≡ t))
  valid_timing-some false ns timing h = cc
  valid_timing-some true ns timing h =
      let (seconds, e, made) = >>=-eq-ok (seconds_of fl readers ns) _ h in
      (refl, (seconds, e, some_eq (ok_injective made)))

  read_drift-IsKept :
      (cal : Calibration F) (tick : ℕ) (found : Option ℤ) (t : Timing F)
      → IsQualified fl digest_of max_uncertainty_ns now_ns cal
      → read_drift fl readers numerals cal tick found ≡ ok (some t)
      → IsKept fl readers t × (lt max_uncertainty_ns t.clock_uncertainty_ns ≡ false)
  read_drift-IsKept cal tick none t good h = cc
  read_drift-IsKept cal tick (some drift) t good h =
      let ns = cal.anchor_time +ℤ drift in
      let (inside, (seconds, e, made)) =
        valid_timing-some (lies_within cal.valid_from cal.valid_until ns) ns _ h in
      subst (λ u. IsKept fl readers u × (lt max_uncertainty_ns u.clock_uncertainty_ns ≡ false)) made
        (
          record {
            synchronized = refl;
            positive = positive_within cal.valid_from cal.valid_until ns good.started inside;
            seconds = e;
            uncertainty_finite = good.uncertainty_finite;
            not_negative =
                laws.lt_flip cal.uncertainty (literal (pos 0) 0) good.uncertainty_finite zero_finite
                  good.uncertainty_positive;
            named = named-nonempty cal.source good.named;
          },
          good.uncertainty_bound,
        )

  module _ (rendered : (s : Str) → readers.render (str s) ≡ s) (isoformat_utc : F → Result Str)
      (sensor_id : Str) (receiver_id : Option Str) (receiver_map : Dict Str) (now : F)
      (default : Option Str) (allowed : Option (List Str)) where
    -- If `validate_clock` accepts the clock of a receiver for a trial and gives a frame a time, the
    -- record that the adapter prints for the frame is read by a feed transport, which agrees on the
    -- receiver, as one synchronized signal with this time, source and uncertainty, and the uncertainty
    -- is at most the limit. The adapter's receiver has a name, `str` leaves a text as it is, 0 is a
    -- finite float, and floats are those of IEEE 754.
    pub normalize_feed_records-beast_frame_to_record :
        (v : Value F) (c d : Dict (Value F)) (frame : Frame) (received_at : F) (t : Timing F)
        (a : ℕ) (id : Str) (b : ℕ) (bound : Str)
        → validate_clock fl readers numerals digest_of max_uncertainty_ns true now_ns v ≡ ok c
        → normalize_beast_timestamp fl readers numerals (take 6 frame.payload) (some c)
          ≡ ok (some t)
        → beast_frame_to_record fl readers numerals isoformat_utc sensor_id receiver_id receiver_map
            frame received_at
            (some c)
          ≡ ok (some d)
        → canonical_receiver_id sensor_id receiver_id receiver_map ≡ a ∷ id
        → bound_receiver_id (some (a ∷ id)) default allowed ≡ some (b ∷ bound)
        → (normalize_feed_records fl readers now default allowed (dict (fields_of d))
            ≡ ok (heard fl readers (b ∷ bound) (upper_hex (drop 7 frame.payload)) t ∷ []))
          × (lt max_uncertainty_ns t.clock_uncertainty_ns ≡ false)
    normalize_feed_records-beast_frame_to_record v c d frame received_at t a id b bound accepted
          timed printed_as named agreed =
        let (cal, _, good, read) =
          validate_clock-IsUsable fl readers numerals digest_of max_uncertainty_ns now_ns v c
            accepted in
        let raw = take 6 frame.payload in
        let drift =
          numerals.round_quotient (in_billionths (delta_ticks (ticks_from 0 raw) cal.anchor_tick))
            cal.frequency in
        let (kept, bounded) =
          read_drift-IsKept cal (ticks_from 0 raw) drift t good (sym (read raw) ∙ timed) in
        let (framed, (time, shape)) =
          beast_frame_to_record-shape fl readers numerals isoformat_utc sensor_id receiver_id
            receiver_map frame received_at c d t timed printed_as in
        let (x, message, e) = message-nonempty frame framed in
        (
          rw (shape, named, e)
              (record_dict-read fl readers rendered now default allowed a id x message b bound
                agreed sensor_id time _ frame.type_byte _ (ticks_from 0 raw) received_at t kept),
          bounded,
        )
