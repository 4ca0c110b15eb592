-- ===== src/Trial/Evidence.antt =====
-- What the evidence and the validity window of an accepted clock hold.
use aircraft_malt.Prelude.{
  and_left, and_right, ◌≡◌, sym, ap, ◌∙◌, Bool, true, false, not, ◌&&◌, Option, none, some, [], ◌∷◌,
  Str, codes, Dict, with_all, str_eq, str_eq_iff, ℤ, ltb_ℤ, arith,
}
use mathlib.Core.Path.{subst}
use aircraft_malt.Float.{Floats}
use aircraft_malt.Value.{
  Value, str, dict, fields_of, of_integer, ok, ok_injective, require, require-eq-ok, >>=-eq-ok,
  >>-eq-ok, bad_validity, bad_evidence,
}
use aircraft_malt.Registry.Identity.{lower}
use aircraft_malt.Registry.Json.{get}
use aircraft_malt.Registry.Decode.{or_raise}
use aircraft_malt.Ingest.Feed.{Readers}
use aircraft_malt.Numbers.{Numerals, integer}
use aircraft_malt.Trial.Clock.{
  evidence_of, is_named, is_sha256, is_positive, lies_within, stripped, check_evidence,
  check_current,
}

pub not-true : (b : Bool) → not b ≡ true → b ≡ false
not-true b h = ground arith

or_raise-some :
    {A : Type 0} (found : Option A) {a : A} → or_raise found bad_evidence ≡ ok a → found ≡ some a
or_raise-some none h = cc
or_raise-some (some b) h = ap some (ok_injective h)

module _ (fl : Floats) (readers : Readers fl.F) (numerals : Numerals fl.F)
    (digest_of : Str → Option Str) (max_uncertainty_ns : fl.F) (now_ns : ℤ) where
  open fl use {F, is_finite, le, lt, literal}

  check_evidence-kept :
      (given : Dict (Value F)) {evidence : Dict (Value F)}
      → check_evidence fl readers numerals digest_of max_uncertainty_ns true now_ns given
        ≡ ok evidence
      → (method : Str) × (file : Str) × (sha256 : Str) × (evidence
          ≡ (codes "method", str method)
            ∷ (codes "file", str file)
            ∷ (codes "sha256", str sha256)
            ∷ [])
        × (is_named method ≡ true)
        × (digest_of file ≡ some sha256)
        × (is_sha256 sha256 ≡ true)
  unfolding check_evidence
  check_evidence-kept given h =
      let text = λ (key : Str).
        stripped fl readers numerals digest_of max_uncertainty_ns true now_ns key given in
      let (named, h1) = >>-eq-ok (require (is_named (text (codes "method"))) bad_evidence) _ h in
      let (_, h2) = >>-eq-ok (require (not (str_eq (text (codes "file")) [])) bad_evidence) _ h1 in
      let (digest, found, h3) =
        >>=-eq-ok (or_raise (digest_of (text (codes "file"))) bad_evidence) _ h2 in
      let expected = lower (text (codes "sha256")) in
      let (hex, h4) = >>-eq-ok (require (is_sha256 expected) bad_evidence) _ h3 in
      let (same, h5) = >>-eq-ok (require (str_eq digest expected) bad_evidence) _ h4 in
      let matches =
        (str_eq_iff digest expected).0 (require-eq-ok (str_eq digest expected) bad_evidence same) in
      (
        text (codes "method"),
        text (codes "file"),
        expected,
        sym (ok_injective h5),
        require-eq-ok (is_named (text (codes "method"))) bad_evidence named,
        or_raise-some (digest_of (text (codes "file"))) found ∙ ap some matches,
        require-eq-ok (is_sha256 expected) bad_evidence hex,
      )

  -- What the last part of the check leaves.
  pub check_current-kept :
      (clock validated : Dict (Value F)) (time : ℤ) (c : Dict (Value F))
      → check_current fl readers numerals digest_of max_uncertainty_ns true now_ns clock time
          validated
        ≡ ok c
      → (valid_from : ℤ) × (valid_until : ℤ) × (method : Str) × (file : Str) × (sha256 : Str) × (c
          ≡ with_all
              ((codes "valid_from_ns", of_integer valid_from)
                ∷ (codes "valid_until_ns", of_integer valid_until)
                ∷ (
                  codes "evidence",
                  dict (
                      fields_of (
                        (codes "method", str method)
                        ∷ (codes "file", str file)
                        ∷ (codes "sha256", str sha256)
                        ∷ [])),
                )
                ∷ [])
              validated)
        × (ltb_ℤ valid_from valid_until ≡ true)
        × (is_positive valid_from ≡ true)
        × (lies_within valid_from valid_until time ≡ true)
        × (lies_within valid_from valid_until now_ns ≡ true)
        × (is_named method ≡ true)
        × (digest_of file ≡ some sha256)
        × (is_sha256 sha256 ≡ true)
  unfolding check_current
  check_current-kept clock validated time c h =
      let read = λ (key : Str). integer fl readers numerals bad_validity (get key clock) in
      let (lo, _, h1) = >>=-eq-ok (read (codes "valid_from_ns")) _ h in
      let (hi, _, h2) = >>=-eq-ok (read (codes "valid_until_ns")) _ h1 in
      let (window, h3) = >>-eq-ok (require (is_positive lo && ltb_ℤ lo hi) bad_validity) _ h2 in
      let (anchored, h4) = >>-eq-ok (require (lies_within lo hi time) bad_validity) _ h3 in
      let (current, h5) = >>-eq-ok (require (lies_within lo hi now_ns) bad_validity) _ h4 in
      let (given, _, h6) = >>=-eq-ok (evidence_of (get (codes "evidence") clock)) _ h5 in
      let (evidence, checked, h7) =
        >>=-eq-ok
          (check_evidence fl readers numerals digest_of max_uncertainty_ns true now_ns given) _
          h6 in
      let (method, file, sha256, shape, method_named, found, hex) =
        check_evidence-kept given checked in
      (
        lo,
        hi,
        method,
        file,
        sha256,
        subst
            (λ e.
              c
              ≡ with_all
                  ((codes "valid_from_ns", of_integer lo)
                    ∷ (codes "valid_until_ns", of_integer hi)
                    ∷ (codes "evidence", dict (fields_of e))
                    ∷ [])
                  validated)
            shape (sym (ok_injective h7)),
        and_right (is_positive lo) (ltb_ℤ lo hi)
            (require-eq-ok (is_positive lo && ltb_ℤ lo hi) bad_validity window),
        and_left (is_positive lo) (ltb_ℤ lo hi)
            (require-eq-ok (is_positive lo && ltb_ℤ lo hi) bad_validity window),
        require-eq-ok (lies_within lo hi time) bad_validity anchored,
        require-eq-ok (lies_within lo hi now_ns) bad_validity current,
        method_named,
        found,
        hex,
      )
