-- ===== src/Numbers.antt =====
-- tools/mlat/receiver_config.py: `_integer` and `_number`, which tools/mlat/beast_tcp_adapter.py
-- has as `_config_int`, and `str(value or "")`.
use mathlib.Core.Path.{subst}
use aircraft_malt.Prelude.{◌≡◌, true, Option, Str, [], ℤ, if◌then◌else◌}
use aircraft_malt.Float.{Floats}
use aircraft_malt.Value.{
  Value, null, bool, int, float, str, list, dict, signed, Reason, Result, ok, err, value_error,
  require, require-eq-ok, ok_injective, >>=-eq-ok, >>-eq-ok, ◌>>=◌, ◌>>◌,
}
use aircraft_malt.Registry.Decode.{or_raise}
use aircraft_malt.Ingest.Transport.{is_truthy}
use aircraft_malt.Ingest.Feed.{Readers, float_of}

-- What the interpreter does with numbers, beside `Readers`.
pub record Numerals (F : Type 0) : Type 0 where
  -- `int(text, 0)`; none is its ValueError
  pub int_base_0 : Str → Option ℤ
  -- `int(x)` if `x.is_integer()`
  pub whole : F → Option ℤ
  -- `round(n / x)` for a finite x above 0; none is an OverflowError
  pub round_quotient : ℤ → F → Option ℤ

module _ (fl : Floats) (readers : Readers fl.F) where
  open fl use {F, is_finite}

  -- `str(value or "")`
  unfoldable pub text_or_empty : Value F → Str
  unfolding is_truthy
  text_or_empty (str s) = s
  text_or_empty v = if is_truthy fl v then readers.render v else []

  -- `_integer`, with the check that it is read for
  unfoldable pub integer : Numerals F → Reason → Value F → Result ℤ
  integer numerals reason (int minus n) = ok (signed minus n)
  integer numerals reason (float x) = or_raise (numerals.whole x) reason
  integer numerals reason (str s) = or_raise (numerals.int_base_0 s) reason
  integer numerals reason _ = err (value_error reason)

  abbrev finite : Reason → Option F → Result F
  finite reason parsed = do x ← or_raise parsed reason; require (is_finite x) reason; ok x

  -- `_number`
  unfoldable pub number : Reason → Value F → Result F
  number reason (bool b) = err (value_error reason)
  number reason v = do parsed ← float_of fl readers v; finite reason parsed

  finite-keeps :
      (reason : Reason) (parsed : Option F) {x : F}
      → finite reason parsed ≡ ok x
      → is_finite x ≡ true
  finite-keeps reason parsed h =
      let (y, _, h1) = >>=-eq-ok (or_raise parsed reason) _ h in
      let (kept, h2) = >>-eq-ok (require (is_finite y) reason) (ok y) h1 in
      subst (λ z. is_finite z ≡ true) (ok_injective h2) (require-eq-ok (is_finite y) reason kept)

  parsed-finite :
      (reason : Reason) (parsed : Result (Option F)) {x : F}
      → (parsed >>= finite reason) ≡ ok x
      → is_finite x ≡ true
  parsed-finite reason parsed h =
      let (read, _, k) = >>=-eq-ok parsed (finite reason) h in finite-keeps reason read k

  -- A number that was read is finite.
  pub number-finite :
      (reason : Reason) (v : Value F) {x : F} → number reason v ≡ ok x → is_finite x ≡ true
  unfolding number
  number-finite reason (bool b) h = cc
  number-finite reason null h = parsed-finite reason (float_of fl readers null) h
  number-finite reason (int minus n) h = parsed-finite reason (float_of fl readers (int minus n)) h
  number-finite reason (float y) h = parsed-finite reason (float_of fl readers (float y)) h
  number-finite reason (str s) h = parsed-finite reason (float_of fl readers (str s)) h
  number-finite reason (list vs) h = parsed-finite reason (float_of fl readers (list vs)) h
  number-finite reason (dict fs) h = parsed-finite reason (float_of fl readers (dict fs)) h
