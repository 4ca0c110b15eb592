-- ===== src/Trial/Clock.antt =====
-- tools/mlat/receiver_config.py: `validate_clock`. Letter case is that of ASCII, and `digest_of` is
-- `_file_sha256` of the file that a text names from the configuration's folder, none if there is no
-- such file or it is empty.
use aircraft_malt.Prelude.{
  ℕ, ◌==◌, Bool, false, not, ◌&&◌, Option, List, [], ◌∷◌, Str, codes, Dict, with_all, str_eq,
  str_in, ltb, length, all_of, ℤ, pos, negsuc, ltb_ℤ, leb_ℤ, if◌then◌else◌,
}
use aircraft_malt.Float.{Floats}
use aircraft_malt.Value.{
  Value, null, int, float, str, dict, entries, fields_of, of_integer, Result, ok, err, value_error,
  require, clock_not_object, clock_not_enabled, bad_clock_source, bad_frequency, bad_anchor_tick,
  bad_anchor_time, bad_uncertainty, uncertain_clock, bad_validity, bad_evidence, ◌>>=◌, ◌>>◌,
}
use aircraft_malt.Registry.Identity.{is_hex, lower}
use aircraft_malt.Registry.Json.{get}
use aircraft_malt.Registry.Decode.{or_raise}
use aircraft_malt.Ingest.Transport.{strip}
use aircraft_malt.Ingest.Feed.{Readers, is_true}
use aircraft_malt.Beast.Clock.{tick_modulus}
use aircraft_malt.Numbers.{Numerals, text_or_empty, integer, number}

-- `PLACEHOLDER_CLOCK_SOURCES`
abbrev pub placeholder_clock_sources : List Str
placeholder_clock_sources =
    codes "replace-with-qualified-clock-source" ∷ codes "unknown" ∷ codes "placeholder" ∷ []

abbrev pub is_named : Str → Bool
is_named s = not (str_eq s []) && not (str_in (lower s) placeholder_clock_sources)

-- `_SHA256_RE`
abbrev pub is_sha256 : Str → Bool
is_sha256 s = length s == 64 && all_of is_hex s

-- `0 <= tick < BEAST_TICK_MODULUS`
unfoldable pub tick_of : ℤ → Result ℕ
tick_of (pos n) = if ltb n tick_modulus then ok n else err (value_error bad_anchor_tick)
tick_of (negsuc n) = err (value_error bad_anchor_tick)

abbrev pub is_positive : ℤ → Bool
is_positive n = ltb_ℤ (pos 0) n

abbrev pub lies_within : ℤ → ℤ → ℤ → Bool
lies_within lo hi n = leb_ℤ lo n && leb_ℤ n hi

module _ {F : Type 0} where
  -- `isinstance(evidence, dict)`
  abbrev pub evidence_of : Value F → Result (Dict (Value F))
  evidence_of (dict fs) = ok (entries fs)
  evidence_of _ = err (value_error bad_evidence)

module _ (fl : Floats) (readers : Readers fl.F) (numerals : Numerals fl.F)
    (digest_of : Str → Option Str) (max_uncertainty_ns : fl.F) (require_current : Bool)
    (now_ns : ℤ) where
  open fl use {F, le, lt, literal}

  abbrev zero : F
  zero = literal (pos 0) 0

  abbrev pub stripped : Str → Dict (Value F) → Str
  stripped key d = strip (text_or_empty fl readers (get key d))

  -- The evidence as it is kept.
  unfoldable pub check_evidence : Dict (Value F) → Result (Dict (Value F))
  unfolding text_or_empty strip
  check_evidence evidence = do
    let method = stripped (codes "method") evidence
    require (is_named method) bad_evidence
    let file = stripped (codes "file") evidence
    require (not (str_eq file [])) bad_evidence
    digest ← or_raise (digest_of file) bad_evidence
    let expected = lower (stripped (codes "sha256") evidence)
    require (is_sha256 expected) bad_evidence
    require (str_eq digest expected) bad_evidence
    ok (
        (codes "method", str method)
        ∷ (codes "file", str file)
        ∷ (codes "sha256", str expected)
        ∷ [])

  -- What is checked of a clock that must be current.
  unfoldable pub check_current : Dict (Value F) → ℤ → Dict (Value F) → Result (Dict (Value F))
  unfolding integer check_evidence
  check_current clock anchor_time validated = do
    valid_from ← integer fl readers numerals bad_validity (get (codes "valid_from_ns") clock)
    valid_until ← integer fl readers numerals bad_validity (get (codes "valid_until_ns") clock)
    require (is_positive valid_from && ltb_ℤ valid_from valid_until) bad_validity
    require (lies_within valid_from valid_until anchor_time) bad_validity
    require (lies_within valid_from valid_until now_ns) bad_validity
    given ← evidence_of (get (codes "evidence") clock)
    evidence ← check_evidence given
    ok (
        with_all
          ((codes "valid_from_ns", of_integer valid_from)
            ∷ (codes "valid_until_ns", of_integer valid_until)
            ∷ (codes "evidence", dict (fields_of evidence))
            ∷ [])
          validated)

  abbrev pub validated_clock : Str → F → ℕ → ℤ → F → Dict (Value F) → Dict (Value F)
  validated_clock source frequency tick time uncertainty clock =
      with_all
        ((codes "source", str source)
          ∷ (codes "frequency_hz", float frequency)
          ∷ (codes "anchor_tick", int false tick)
          ∷ (codes "anchor_time_ns", of_integer time)
          ∷ (codes "uncertainty_ns", float uncertainty)
          ∷ [])
        clock

  -- A clock that is enabled.
  unfoldable pub check_clock : Dict (Value F) → Result (Dict (Value F))
  unfolding number integer tick_of check_current
  check_clock clock = do
    let source = stripped (codes "source") clock
    require (is_named source) bad_clock_source
    frequency ← number fl readers bad_frequency (get (codes "frequency_hz") clock)
    require (not (le frequency zero)) bad_frequency
    anchor ← integer fl readers numerals bad_anchor_tick (get (codes "anchor_tick") clock)
    tick ← tick_of anchor
    time ← integer fl readers numerals bad_anchor_time (get (codes "anchor_time_ns") clock)
    require (is_positive time) bad_anchor_time
    uncertainty ← number fl readers bad_uncertainty (get (codes "uncertainty_ns") clock)
    require (not (lt uncertainty zero)) bad_uncertainty
    require (not (lt max_uncertainty_ns uncertainty)) uncertain_clock
    let validated = validated_clock source frequency tick time uncertainty clock
    if require_current then check_current clock time validated else ok validated

  -- `validate_clock`
  unfoldable pub validate_clock : Value F → Result (Dict (Value F))
  unfolding check_clock
  validate_clock (dict fs) =
      if is_true fl readers (get (codes "enabled") (entries fs))
      then check_clock (entries fs)
      else if require_current
      then err (value_error clock_not_enabled)
      else ok (entries fs)
  validate_clock null = if require_current then err (value_error clock_not_object) else ok []
  validate_clock _ = err (value_error clock_not_object)
