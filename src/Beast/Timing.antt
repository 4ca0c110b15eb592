-- ===== src/Beast/Timing.antt =====
-- tools/mlat/beast_tcp_adapter.py: `normalize_beast_timestamp` and `beast_frame_to_record`.
use aircraft_malt.Prelude.{
  ℕ, ◌*◌, ◌+◌, Bool, true, false, not, ◌&&◌, Option, none, some, [], ◌∷◌, Str, codes, Dict, lookup,
  str_eq, ltb, leb_ℤ, ltb_ℤ, ℤ, pos, negsuc, ◌+ℤ◌, if◌then◌else◌,
}
use aircraft_malt.Float.{Floats}
use aircraft_malt.Value.{
  Value, null, bool, dict, entries, Reason, Result, ok, err, value_error, overflow_error, require,
  bad_clock_source, bad_frequency, bad_anchor_tick, bad_anchor_time, bad_uncertainty, bad_validity,
  ◌>>=◌, ◌>>◌,
}
use aircraft_malt.Registry.Record.{is_null}
use aircraft_malt.Registry.Json.{get}
use aircraft_malt.Registry.Decode.{or_raise}
use aircraft_malt.Ingest.Transport.{strip}
use aircraft_malt.Ingest.Feed.{Readers, float_of, seconds_of}
use aircraft_malt.Beast.{Bytes}
use aircraft_malt.Beast.Clock.{tick_modulus, ticks_from, delta_ticks}
use aircraft_malt.Numbers.{Numerals, text_or_empty, integer}

-- What `normalize_beast_timestamp` returns.
pub record Timing (F : Type 0) : Type 0 where
  pub timestamp_ns : ℤ
  pub timestamp : F
  pub clock_synchronized : Bool
  pub clock_source : Str
  pub clock_uncertainty_ns : F
  pub clock_validity : Option (ℤ × ℤ)
  pub clock_evidence_sha256 : Value F
  pub beast_timestamp_ticks : ℕ

-- `n * 1_000_000_000`
abbrev pub in_billionths : ℤ → ℤ
in_billionths (pos n) = pos (n * 1000000000)
in_billionths (negsuc n) = negsuc (n * 1000000000 + 999999999)

-- `0 <= anchor_tick < tick_modulus`
abbrev pub anchor_of : ℤ → Result ℕ
anchor_of (pos n) = if ltb n tick_modulus then ok n else err (value_error bad_anchor_tick)
anchor_of (negsuc n) = err (value_error bad_anchor_tick)

abbrev pub or_overflow : {A : Type 0} → Option A → Result A
or_overflow none = err overflow_error
or_overflow (some a) = ok a

-- `valid_from_ns <= timestamp_ns <= valid_until_ns`, if there is a window
abbrev pub is_valid_at : Option (ℤ × ℤ) → ℤ → Bool
is_valid_at none n = true
is_valid_at (some (lo, hi)) n = leb_ℤ lo n && leb_ℤ n hi

module _ {F : Type 0} where
  -- `clock.get("enabled", True) is True`
  abbrev pub is_enabled : Option (Value F) → Bool
  is_enabled none = true
  is_enabled (some (bool b)) = b
  is_enabled (some _) = false

  -- `evidence.get("sha256")`
  abbrev pub sha256_in : Value F → Value F
  sha256_in (dict fs) = get (codes "sha256") (entries fs)
  sha256_in _ = null

module _ (fl : Floats) (readers : Readers fl.F) (numerals : Numerals fl.F) where
  open fl use {F, is_finite, le, lt, literal}

  -- `float(value)`
  abbrev pub float_value : Reason → Value F → Result F
  float_value reason (bool b) = ok (literal (pos (if b then 1 else 0)) 0)
  float_value reason v = do x ← float_of fl readers v; or_raise x reason

  -- `float(clock[key])`
  abbrev pub float_item : Reason → Option (Value F) → Result F
  float_item reason none = err (value_error reason)
  float_item reason (some v) = float_value reason v

  abbrev pub window_of : Value F → Value F → Result (Option (ℤ × ℤ))
  window_of valid_from valid_until =
      if is_null valid_from && is_null valid_until then ok none else do
        lo ← integer fl readers numerals bad_validity valid_from
        hi ← integer fl readers numerals bad_validity valid_until
        ok (some (lo, hi))

  -- What is returned for a time inside or outside the validity window.
  abbrev pub valid_timing : Bool → ℤ → (F → Timing F) → Result (Option (Timing F))
  valid_timing true ns timing = do seconds ← seconds_of fl readers ns; ok (some (timing seconds))
  valid_timing false ns timing = ok none

  abbrev pub timing_of : Str → F → Value F → ℕ → Option (ℤ × ℤ) → ℤ → Result (Option (Timing F))
  timing_of source uncertainty evidence frame_tick window ns =
      valid_timing (is_valid_at window ns) ns (λ seconds. record {
        timestamp_ns = ns;
        timestamp = seconds;
        clock_synchronized = true;
        clock_source = source;
        clock_uncertainty_ns = uncertainty;
        clock_validity = window;
        clock_evidence_sha256 = sha256_in evidence;
        beast_timestamp_ticks = frame_tick;
      })

  -- The reading of a clock that is enabled.
  unfoldable pub read_clock : Bytes → Dict (Value F) → Result (Option (Timing F))
  unfolding text_or_empty strip integer ticks_from delta_ticks
  read_clock raw_timestamp clock = do
    let source = strip (text_or_empty fl readers (get (codes "source") clock))
    require (not (str_eq source [])) bad_clock_source
    frequency ← float_item bad_frequency (lookup (codes "frequency_hz") clock)
    uncertainty ← float_item bad_frequency (lookup (codes "uncertainty_ns") clock)
    require (is_finite frequency && not (le frequency (literal (pos 0) 0))) bad_frequency
    require (is_finite uncertainty && not (lt uncertainty (literal (pos 0) 0))) bad_uncertainty
    tick ← integer fl readers numerals bad_anchor_tick (get (codes "anchor_tick") clock)
    time ← integer fl readers numerals bad_anchor_time (get (codes "anchor_time_ns") clock)
    anchor ← anchor_of tick
    require (ltb_ℤ (pos 0) time) bad_anchor_time
    let frame_tick = ticks_from 0 raw_timestamp
    drift ←
        or_overflow
          (numerals.round_quotient (in_billionths (delta_ticks frame_tick anchor)) frequency)
    window ← window_of (get (codes "valid_from_ns") clock) (get (codes "valid_until_ns") clock)
    timing_of source uncertainty (get (codes "evidence") clock) frame_tick window (time +ℤ drift)

  abbrev read_if : Bool → Result (Option (Timing F)) → Result (Option (Timing F))
  read_if enabled reading = if enabled then reading else ok none

  -- `normalize_beast_timestamp`
  unfoldable pub normalize_beast_timestamp :
      Bytes → Option (Dict (Value F)) → Result (Option (Timing F))
  unfolding read_clock
  normalize_beast_timestamp raw_timestamp none = ok none
  normalize_beast_timestamp raw_timestamp (some []) = ok none
  normalize_beast_timestamp raw_timestamp (some (f ∷ fs)) =
      read_if (is_enabled (lookup (codes "enabled") (f ∷ fs))) (read_clock raw_timestamp (f ∷ fs))
