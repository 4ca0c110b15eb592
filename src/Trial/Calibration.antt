-- ===== src/Trial/Calibration.antt =====
-- The calibration of a clock in the configuration of a field trial.
use aircraft_malt.Prelude.{
  ltb_ℤ, ℕ, ◌<◌, ◌≡◌, true, false, Option, some, [], ◌∷◌, Str, codes, Dict, lookup, ℤ, pos,
}
use aircraft_malt.Float.{Floats}
use aircraft_malt.Value.{Value, bool, int, float, str, dict, fields_of, of_integer}
use aircraft_malt.Ingest.Transport.{strip}
use aircraft_malt.Beast.Clock.{tick_modulus}
use aircraft_malt.Trial.Clock.{is_named, is_sha256, is_positive, lies_within}

-- What a calibration says.
pub record Calibration (F : Type 0) : Type 0 where
  pub source : Str
  pub frequency : F
  pub anchor_tick : ℕ
  pub anchor_time : ℤ
  pub uncertainty : F
  pub valid_from : ℤ
  pub valid_until : ℤ
  pub file : Str
  pub sha256 : Str
  pub method : Str

module _ {F : Type 0} where
  -- The fields of a clock, each of its type.
  pub record IsCalibrated (cal : Calibration F) (clock : Dict (Value F)) : Type 0 where
    pub enabled : lookup (codes "enabled") clock ≡ some (bool true)
    pub source : lookup (codes "source") clock ≡ some (str cal.source)
    pub frequency : lookup (codes "frequency_hz") clock ≡ some (float cal.frequency)
    pub anchor_tick : lookup (codes "anchor_tick") clock ≡ some (int false cal.anchor_tick)
    pub anchor_time : lookup (codes "anchor_time_ns") clock ≡ some (of_integer cal.anchor_time)
    pub uncertainty : lookup (codes "uncertainty_ns") clock ≡ some (float cal.uncertainty)
    pub valid_from : lookup (codes "valid_from_ns") clock ≡ some (of_integer cal.valid_from)
    pub valid_until : lookup (codes "valid_until_ns") clock ≡ some (of_integer cal.valid_until)
    pub evidence :
        lookup (codes "evidence") clock
        ≡ some (
            dict (
              fields_of (
                (codes "method", str cal.method)
                ∷ (codes "file", str cal.file)
                ∷ (codes "sha256", str cal.sha256)
                ∷ [])))

module _ (fl : Floats) (digest_of : Str → Option Str) (max_uncertainty_ns : fl.F) (now_ns : ℤ) where
  open fl use {F, is_finite, le, lt, literal}

  -- What makes a calibration good for a trial that starts now.
  pub record IsQualified (cal : Calibration F) : Type 0 where
    pub named : is_named cal.source ≡ true
    pub trimmed : strip cal.source ≡ cal.source
    pub frequency_finite : is_finite cal.frequency ≡ true
    pub frequency_positive : le cal.frequency (literal (pos 0) 0) ≡ false
    pub tick : cal.anchor_tick < tick_modulus
    pub time : is_positive cal.anchor_time ≡ true
    pub uncertainty_finite : is_finite cal.uncertainty ≡ true
    pub uncertainty_positive : lt cal.uncertainty (literal (pos 0) 0) ≡ false
    pub uncertainty_bound : lt max_uncertainty_ns cal.uncertainty ≡ false
    pub method_named : is_named cal.method ≡ true
    pub opens_first : ltb_ℤ cal.valid_from cal.valid_until ≡ true
    pub started : is_positive cal.valid_from ≡ true
    pub anchored : lies_within cal.valid_from cal.valid_until cal.anchor_time ≡ true
    pub current : lies_within cal.valid_from cal.valid_until now_ns ≡ true
    pub evidence : digest_of cal.file ≡ some cal.sha256
    pub digest : is_sha256 cal.sha256 ≡ true
