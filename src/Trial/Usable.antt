-- ===== src/Trial/Usable.antt =====
-- The times of Beast frames by a clock that `validate_clock` accepted for a trial.
use aircraft_malt.Prelude.{
  ℕ, ◌<◌, ◌≡◌, refl, ap, ◌∙◌, true, false, Option, none, some, [], ◌∷◌, Str, codes, Dict, lookup,
  str_eq, lt→ltb, ℤ, pos, negsuc, ◌+ℤ◌, arith,
}
use aircraft_malt.Float.{Floats}
use aircraft_malt.Value.{
  Value, null, bool, str, dict, fields_of, of_integer, Reason, Result, ok, err, overflow_error,
  bad_anchor_time, ◌>>=◌,
}
use aircraft_malt.Registry.Record.{is_null}
use aircraft_malt.Registry.Json.{get}
use aircraft_malt.Ingest.Transport.{strip}
use aircraft_malt.Ingest.Feed.{Readers}
use aircraft_malt.Beast.{Bytes}
use aircraft_malt.Beast.Clock.{tick_modulus, ticks_from, delta_ticks}
use aircraft_malt.Beast.Timing.{
  Timing, window_of, in_billionths, anchor_of, or_overflow, timing_of, valid_timing, read_clock,
  normalize_beast_timestamp,
}
use aircraft_malt.Numbers.{Numerals, text_or_empty, integer}
use aircraft_malt.Trial.Clock.{is_named, lies_within, validate_clock}
use aircraft_malt.Trial.Calibration.{Calibration, IsCalibrated, IsQualified}
use aircraft_malt.Trial.Qualified.{validate_clock-IsQualified}

get-some :
    {F : Type 0} → (k : Str) (d : Dict (Value F)) {v : Value F} → lookup k d ≡ some v → get k d ≡ v
unfolding get
get-some k d e = ap (λ found. elim found [ none ↦ null | some v ↦ v ]) e

pub named-nonempty : (s : Str) → is_named s ≡ true → str_eq s [] ≡ false
named-nonempty s h = ground (arith, h)

module _ (fl : Floats) (readers : Readers fl.F) (numerals : Numerals fl.F) where
  open fl use {F}

  integer-of_integer :
      (reason : Reason) (n : ℤ) → integer fl readers numerals reason (of_integer n) ≡ ok n
  unfolding integer
  integer-of_integer reason (pos n) = refl
  integer-of_integer reason (negsuc n) = refl

  anchor_of-fits : (tick : ℕ) → tick < tick_modulus → anchor_of (pos tick) ≡ ok tick
  anchor_of-fits tick h = rw (lt→ltb tick tick_modulus h) refl

  abbrev pub read_drift : Calibration F → ℕ → Option ℤ → Result (Option (Timing F))
  read_drift cal tick none = err overflow_error
  read_drift cal tick (some drift) =
      valid_timing fl readers numerals
        (lies_within cal.valid_from cal.valid_until (cal.anchor_time +ℤ drift))
        (cal.anchor_time +ℤ drift)
        (λ seconds. record {
          timestamp_ns = cal.anchor_time +ℤ drift;
          timestamp = seconds;
          clock_synchronized = true;
          clock_source = cal.source;
          clock_uncertainty_ns = cal.uncertainty;
          clock_validity = some (cal.valid_from, cal.valid_until);
          clock_evidence_sha256 = str cal.sha256;
          beast_timestamp_ticks = tick;
        })

  -- The anchor's time and the ticks since then, if that time lies in the validity window.
  abbrev pub reading : Calibration F → ℕ → Result (Option (Timing F))
  reading cal tick =
      read_drift cal tick
        (numerals.round_quotient (in_billionths (delta_ticks tick cal.anchor_tick)) cal.frequency)

  then-drift :
      (cal : Calibration F) (tick : ℕ) (found : Option ℤ)
      → (or_overflow found >>= λ drift.
          timing_of fl readers numerals cal.source cal.uncertainty
            (dict (
              fields_of (
                (codes "method", str cal.method)
                ∷ (codes "file", str cal.file)
                ∷ (codes "sha256", str cal.sha256)
                ∷ [])))
            tick
            (some (cal.valid_from, cal.valid_until))
            (cal.anchor_time +ℤ drift))
        ≡ read_drift cal tick found
  unfolding get lookup str_eq
  then-drift cal tick none = refl
  then-drift cal tick (some drift) = refl

  window_of-integers :
      (lo hi : ℤ)
      → window_of fl readers numerals (of_integer lo) (of_integer hi) ≡ ok (some (lo, hi))
  unfolding is_null integer
  window_of-integers (pos m) (pos n) = refl
  window_of-integers (pos m) (negsuc n) = refl
  window_of-integers (negsuc m) (pos n) = refl
  window_of-integers (negsuc m) (negsuc n) = refl

  enabled-reading :
      (raw : Bytes) (c : Dict (Value F))
      → lookup (codes "enabled") c ≡ some (bool true)
      → normalize_beast_timestamp fl readers numerals raw (some c)
        ≡ read_clock fl readers numerals raw c
  unfolding normalize_beast_timestamp lookup
  enabled-reading raw [] h = cc
  enabled-reading raw (f ∷ fs) h = rw h refl

  module _ (digest_of : Str → Option Str) (max_uncertainty_ns : F) (now_ns : ℤ)
      (cal : Calibration F) (c : Dict (Value F)) (raw : Bytes) where
    read_clock-reading :
        IsCalibrated cal c
        → IsQualified fl digest_of max_uncertainty_ns now_ns cal
        → read_clock fl readers numerals raw c ≡ reading cal (ticks_from 0 raw)
    unfolding read_clock text_or_empty strip integer
    read_clock-reading has good =
        let drift =
          numerals.round_quotient (in_billionths (delta_ticks (ticks_from 0 raw) cal.anchor_tick))
            cal.frequency in
        rw
          (
            get-some (codes "source") c has.source,
            good.trimmed,
            named-nonempty cal.source good.named,
            has.frequency,
            has.uncertainty,
            good.frequency_finite,
            good.frequency_positive,
            good.uncertainty_finite,
            good.uncertainty_positive,
            get-some (codes "anchor_tick") c has.anchor_tick,
            get-some (codes "anchor_time_ns") c has.anchor_time,
            integer-of_integer bad_anchor_time cal.anchor_time,
            anchor_of-fits cal.anchor_tick good.tick,
            good.time,
            get-some (codes "valid_from_ns") c has.valid_from,
            get-some (codes "valid_until_ns") c has.valid_until,
            window_of-integers cal.valid_from cal.valid_until,
            get-some (codes "evidence") c has.evidence,
          )
          (then-drift cal (ticks_from 0 raw) drift)

    normalize-reading :
        IsCalibrated cal c
        → IsQualified fl digest_of max_uncertainty_ns now_ns cal
        → normalize_beast_timestamp fl readers numerals raw (some c)
          ≡ reading cal (ticks_from 0 raw)
    normalize-reading has good = enabled-reading raw c has.enabled ∙ read_clock-reading has good

  -- The clock states a calibration that is good for a trial that starts now, and every frame is
  -- read by it.
  abbrev pub IsUsable : (Str → Option Str) → F → ℤ → Dict (Value F) → Type 0
  IsUsable digest_of max_uncertainty_ns now_ns c =
      (cal : Calibration F) × IsCalibrated cal c
      × IsQualified fl digest_of max_uncertainty_ns now_ns cal
      × ((raw : Bytes)
          → normalize_beast_timestamp fl readers numerals raw (some c)
            ≡ reading cal (ticks_from 0 raw))

  -- If `validate_clock` accepts a clock for a trial, it states a calibration that is good for it, and
  -- `normalize_beast_timestamp` by this clock gives every frame the anchor's time and the ticks since
  -- then if that lies in the validity window, and no time otherwise; it raises nothing but an
  -- OverflowError, when the ticks or the time are too large for a float.
  pub validate_clock-IsUsable :
      (digest_of : Str → Option Str) (max_uncertainty_ns : F) (now_ns : ℤ) (v : Value F)
      (c : Dict (Value F))
      → validate_clock fl readers numerals digest_of max_uncertainty_ns true now_ns v ≡ ok c
      → IsUsable digest_of max_uncertainty_ns now_ns c
  validate_clock-IsUsable digest_of max_uncertainty_ns now_ns v c h =
      let (cal, has, good) =
        validate_clock-IsQualified fl readers numerals digest_of max_uncertainty_ns now_ns v c h in
      (
        cal,
        has,
        good,
        λ raw. normalize-reading digest_of max_uncertainty_ns now_ns cal c raw has good,
      )
