-- ===== src/Trial/Qualified.antt =====
-- What a clock that `validate_clock` accepted for a trial holds.
use aircraft_malt.Prelude.{
  ℕ, ◌<◌, ◌≡◌, ap, ◌∙◌, inl, inr, true, false, not, Option, none, some, [], ◌∷◌, Str, codes, Dict,
  lookup, lookup-with_all, updated, str_eq, ltb, ltb→lt, ℤ, pos, negsuc, Bool-cases,
}
use mathlib.Core.Path.{subst}
use aircraft_malt.Float.{Floats}
use aircraft_malt.Value.{
  Value, null, bool, int, float, str, list, dict, entries, fields_of, of_integer, ok, ok_injective,
  require, require-eq-ok, >>=-eq-ok, >>-eq-ok, bad_clock_source, bad_frequency, bad_anchor_tick,
  bad_anchor_time, bad_uncertainty, uncertain_clock,
}
use aircraft_malt.Registry.Json.{get}
use aircraft_malt.Ingest.Strip.{strip_idem}
use aircraft_malt.Ingest.Feed.{Readers, is_true}
use aircraft_malt.Beast.Clock.{tick_modulus}
use aircraft_malt.Numbers.{Numerals, text_or_empty, integer, number, number-finite}
use aircraft_malt.Trial.Clock.{
  is_named, tick_of, is_positive, stripped, validated_clock, check_clock, validate_clock,
}
use aircraft_malt.Trial.Calibration.{Calibration, IsCalibrated, IsQualified}
use aircraft_malt.Trial.Evidence.{not-true, check_current-kept}

tick_of-bound : (n : ℤ) {tick : ℕ} → tick_of n ≡ ok tick → tick < tick_modulus
unfolding tick_of
tick_of-bound (negsuc n) h = cc
tick_of-bound (pos n) h = elim (Bool-cases (ltb n tick_modulus)) [
  | inl e ↦ subst (λ t. t < tick_modulus) (ok_injective (rw e at h)) (ltb→lt n tick_modulus e)
  | inr e ↦ absurd (let k = (rw e at h) in cc)
]

module _ (fl : Floats) (readers : Readers fl.F) (numerals : Numerals fl.F)
    (digest_of : Str → Option Str) (max_uncertainty_ns : fl.F) (now_ns : ℤ) where
  open fl use {F, is_finite, le, lt, literal}

  is_true-bool : (v : Value F) → is_true fl readers v ≡ true → v ≡ bool true
  is_true-bool (bool b) h = ap bool h
  is_true-bool null h = cc
  is_true-bool (int minus n) h = cc
  is_true-bool (float x) h = cc
  is_true-bool (str s) h = cc
  is_true-bool (list vs) h = cc
  is_true-bool (dict fs) h = cc

  found-true :
      (found : Option (Value F))
      → is_true fl readers (elim found [ none ↦ null | some v ↦ v ]) ≡ true
      → found ≡ some (bool true)
  found-true none h = cc
  found-true (some v) h = ap some (is_true-bool v h)

  enabled-there :
      (clock : Dict (Value F))
      → is_true fl readers (get (codes "enabled") clock) ≡ true
      → lookup (codes "enabled") clock ≡ some (bool true)
  unfolding get
  enabled-there clock on = found-true (lookup (codes "enabled") clock) on

  -- A clock that the check accepts for a trial holds a calibration that is good for it: its source is
  -- named, its frequency is above 0 and its uncertainty at most the limit, its anchor fits the
  -- counter, the anchor and the launch lie in its validity window, and its evidence names its
  -- method and a file with the digest that it states.
  pub check_clock-IsQualified :
      (clock c : Dict (Value F))
      → is_true fl readers (get (codes "enabled") clock) ≡ true
      → check_clock fl readers numerals digest_of max_uncertainty_ns true now_ns clock ≡ ok c
      → (cal : Calibration F) × IsCalibrated cal c
        × IsQualified fl digest_of max_uncertainty_ns now_ns cal
  unfolding check_clock str_eq
  check_clock-IsQualified clock c on h =
      let zero = literal (pos 0) 0 in
      let source =
        stripped fl readers numerals digest_of max_uncertainty_ns true now_ns (codes "source")
          clock in
      let (named, h1) = >>-eq-ok (require (is_named source) bad_clock_source) _ h in
      let (f, read_f, h2) =
        >>=-eq-ok (number fl readers bad_frequency (get (codes "frequency_hz") clock)) _ h1 in
      let (f_positive, h3) = >>-eq-ok (require (not (le f zero)) bad_frequency) _ h2 in
      let (anchor, _, h4) =
        >>=-eq-ok (integer fl readers numerals bad_anchor_tick (get (codes "anchor_tick") clock)) _
          h3 in
      let (tick, fits, h5) = >>=-eq-ok (tick_of anchor) _ h4 in
      let (time, _, h6) =
        >>=-eq-ok (integer fl readers numerals bad_anchor_time (get (codes "anchor_time_ns") clock))
          _ h5 in
      let (t_positive, h7) = >>-eq-ok (require (is_positive time) bad_anchor_time) _ h6 in
      let (u, read_u, h8) =
        >>=-eq-ok (number fl readers bad_uncertainty (get (codes "uncertainty_ns") clock)) _ h7 in
      let (u_positive, h9) = >>-eq-ok (require (not (lt u zero)) bad_uncertainty) _ h8 in
      let (u_bound, h10) =
        >>-eq-ok (require (not (lt max_uncertainty_ns u)) uncertain_clock) _ h9 in
      let base =
        validated_clock fl readers numerals digest_of max_uncertainty_ns true now_ns source f tick
          time u clock in
      let (
        lo, hi, method, file, sha256, shape, opens_first, started, anchored, current, method_named,
        found, hex,
      ) =
        check_current-kept fl readers numerals digest_of max_uncertainty_ns now_ns clock base time c
          h10 in
      let last : Dict (Value F) =
        (codes "valid_from_ns", of_integer lo)
        ∷ (codes "valid_until_ns", of_integer hi)
        ∷ (
          codes "evidence",
          dict (
              fields_of (
                (codes "method", str method)
                ∷ (codes "file", str file)
                ∷ (codes "sha256", str sha256)
                ∷ [])),
        )
        ∷ [] in
      let first : Dict (Value F) =
        (codes "source", str source)
        ∷ (codes "frequency_hz", float f)
        ∷ (codes "anchor_tick", int false tick)
        ∷ (codes "anchor_time_ns", of_integer time)
        ∷ (codes "uncertainty_ns", float u)
        ∷ [] in
      let at : (j : Str) → lookup j c ≡ updated j last (updated j first (lookup j clock)) = λ j.
        ap (lookup j) shape
        ∙ lookup-with_all j last base
        ∙ ap (updated j last) (lookup-with_all j first clock) in
      (
        record {
          source = source;
          frequency = f;
          anchor_tick = tick;
          anchor_time = time;
          uncertainty = u;
          valid_from = lo;
          valid_until = hi;
          file = file;
          sha256 = sha256;
          method = method;
        },
        record {
          enabled = at (codes "enabled") ∙ enabled-there clock on;
          source = at (codes "source");
          frequency = at (codes "frequency_hz");
          anchor_tick = at (codes "anchor_tick");
          anchor_time = at (codes "anchor_time_ns");
          uncertainty = at (codes "uncertainty_ns");
          valid_from = at (codes "valid_from_ns");
          valid_until = at (codes "valid_until_ns");
          evidence = at (codes "evidence");
        },
        record {
          named = require-eq-ok (is_named source) bad_clock_source named;
          trimmed = strip_idem (text_or_empty fl readers (get (codes "source") clock));
          frequency_finite = number-finite fl readers bad_frequency _ read_f;
          frequency_positive =
              not-true _ (require-eq-ok (not (le f zero)) bad_frequency f_positive);
          tick = tick_of-bound anchor fits;
          time = require-eq-ok (is_positive time) bad_anchor_time t_positive;
          uncertainty_finite = number-finite fl readers bad_uncertainty _ read_u;
          uncertainty_positive =
              not-true _ (require-eq-ok (not (lt u zero)) bad_uncertainty u_positive);
          uncertainty_bound =
              not-true _ (require-eq-ok (not (lt max_uncertainty_ns u)) uncertain_clock u_bound);
          opens_first = opens_first;
          started = started;
          anchored = anchored;
          current = current;
          method_named = method_named;
          evidence = found;
          digest = hex;
        },
      )

  pub validate_clock-IsQualified :
      (v : Value F) (c : Dict (Value F))
      → validate_clock fl readers numerals digest_of max_uncertainty_ns true now_ns v ≡ ok c
      → (cal : Calibration F) × IsCalibrated cal c
        × IsQualified fl digest_of max_uncertainty_ns now_ns cal
  unfolding validate_clock
  validate_clock-IsQualified (dict fs) c h =
      elim (Bool-cases (is_true fl readers (get (codes "enabled") (entries fs)))) [
        | inl e ↦ check_clock-IsQualified (entries fs) c e (rw e at h)
        | inr e ↦ absurd (let k = (rw e at h) in cc)
      ]
  validate_clock-IsQualified null c h = cc
  validate_clock-IsQualified (bool b) c h = cc
  validate_clock-IsQualified (int minus n) c h = cc
  validate_clock-IsQualified (float x) c h = cc
  validate_clock-IsQualified (str s) c h = cc
  validate_clock-IsQualified (list vs) c h = cc
