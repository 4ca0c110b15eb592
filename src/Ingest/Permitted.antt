-- ===== src/Ingest/Permitted.antt =====
-- What the identifier, the time and the uncertainty of a record are checked for.
use aircraft_malt.Prelude.{
  some_eq, ◌≡◌, refl, sym, ap, inl, inr, Bool, true, false, ◌&&◌, Option, none, some, List, [], ◌∷◌,
  Str, Dict, lookup, str_eq, str_in, pos, ltb_ℤ, ℤ, All, Bool-cases, if◌then◌else◌,
}
use mathlib.Core.Path.{subst}
use aircraft_malt.Float.{Floats}
use aircraft_malt.Value.{
  Value, null, bool, int, float, str, list, dict, signed, Result, ok, err, ◌>>=◌, ok_injective,
}
use aircraft_malt.Ingest.Feed.{
  Readers, agreed_id, check_allowed, bound_id, keep_positive, keep_uncertainty, parse_timestamp_ns,
  parse_optional_float, float_of, has_time,
}

abbrev pub IsPermitted : Option (List Str) → Str → Type 0
IsPermitted none id = Unit
IsPermitted (some ids) id = str_in id ids ≡ true

abbrev pub IsBoundTo : Option (Option Str) → Str → Type 0
IsBoundTo none id = ⊥
IsBoundTo (some none) id = Unit
IsBoundTo (some (some bound)) id = id ≡ bound

-- A test that keeps its value passed if there is a value.
kept {ℓ} :
    {A : Type ℓ} (b : Bool) (x : A) {y : A}
    → (if b then some x else none) ≡ some y
    → (b ≡ true) × (x ≡ y)
kept true x h = (refl, cc)
kept false x h = cc

agreed_id_lem :
    (bound claimed : Option Str) {id : Str}
    → agreed_id bound claimed ≡ some id
    → IsBoundTo (some bound) id
unfolding agreed_id
agreed_id_lem none claimed h = tt
agreed_id_lem (some bound) (some claimed) h = sym ((kept (str_eq claimed bound) bound h).1)
agreed_id_lem (some []) none h = cc
agreed_id_lem (some (c ∷ s)) none h = cc

check_allowed_lem :
    (allowed : Option (List Str)) (agreed : Option Str) {id : Str}
    → check_allowed allowed agreed ≡ some id
    → (agreed ≡ some id) × IsPermitted allowed id
unfolding check_allowed
check_allowed_lem allowed none h = cc
check_allowed_lem none (some s) h = (h, tt)
check_allowed_lem (some ids) (some s) {id} h =
    let (found, same) = kept (str_in s ids) s h in
    (ap some same, subst (λ t. str_in t ids ≡ true) same found)

pub bound_id_lem :
    (allowed : Option (List Str)) (claimed bound : Option (Option Str)) {id : Str}
    → bound_id allowed claimed bound ≡ some id
    → IsPermitted allowed id × IsBoundTo bound id
bound_id_lem allowed none bound h = cc
bound_id_lem allowed (some claimed) none h = cc
bound_id_lem allowed (some claimed) (some bound) h =
    let (agreed, permitted) = check_allowed_lem allowed (agreed_id bound claimed) h in
    (permitted, agreed_id_lem bound claimed agreed)

-- The time that a synchronised clock gave.
abbrev pub IsTimed : Bool → Option ℤ → Type 0
IsTimed synchronized none = synchronized ≡ false
IsTimed synchronized (some ns) = ltb_ℤ (pos 0) ns ≡ true

pub lookup-All {ℓ κ} :
    {V : Type ℓ} (P : V → Type κ) (k : Str) (d : Dict V)
    → All (λ e. P e.1) d
    → {v : V} → lookup k d ≡ some v
    → P v
unfolding lookup
lookup-All P k [] h e = cc
lookup-All P k ((j, w) ∷ d) h e = elim (Bool-cases (str_eq j k)) [
  | inl t ↦ subst P (some_eq (rw t at e)) h.0
  | inr t ↦ lookup-All P k d h.1 (rw t at e)
]

module _ (fl : Floats) (readers : Readers fl.F) where
  open fl use {F, is_finite, le, literal}

  keep_positive-IsTimed :
      (b : Bool) (t : Option ℤ)
      → IsTimed (has_time fl readers (keep_positive fl readers t) && b) (keep_positive fl readers t)
  keep_positive-IsTimed b none = refl
  keep_positive-IsTimed b (some n) = elim (Bool-cases (ltb_ℤ (pos 0) n)) [
    | inl e ↦ rw e e
    | inr e ↦ rw e refl
  ]

  abbrev pub IsUncertainty : Option F → Type 0
  IsUncertainty none = Unit
  IsUncertainty (some x) = (is_finite x && le (literal (pos 0) 0) x) ≡ true

  keep_uncertainty-IsUncertainty : (x : Option F) → IsUncertainty (keep_uncertainty fl readers x)
  keep_uncertainty-IsUncertainty none = tt
  keep_uncertainty-IsUncertainty (some x) =
      elim (Bool-cases (is_finite x && le (literal (pos 0) 0) x)) [
        | inl e ↦ rw e e
        | inr e ↦ rw e tt
      ]

  positive_call :
      (b : Bool) (call : Result (Option ℤ)) {t : Option ℤ}
      → (call >>= λ parsed. ok (keep_positive fl readers parsed)) ≡ ok t
      → IsTimed (has_time fl readers t && b) t
  positive_call b (err e) h = cc
  positive_call b (ok parsed) h =
      subst (λ t. IsTimed (has_time fl readers t && b) t) (ok_injective h)
        (keep_positive-IsTimed b parsed)

  uncertain_call :
      (call : Result (Option F)) {x : Option F}
      → (call >>= λ parsed. ok (keep_uncertainty fl readers parsed)) ≡ ok x
      → IsUncertainty x
  uncertain_call (err e) h = cc
  uncertain_call (ok parsed) h =
      subst IsUncertainty (ok_injective h) (keep_uncertainty-IsUncertainty parsed)

  pub parse_timestamp_ns_lem :
      (v : Value F) (b : Bool) {t : Option ℤ}
      → parse_timestamp_ns fl readers v ≡ ok t
      → IsTimed (has_time fl readers t && b) t
  unfolding parse_timestamp_ns
  parse_timestamp_ns_lem (int minus n) b h = positive_call b (ok (some (signed minus n))) h
  parse_timestamp_ns_lem (float x) b h = positive_call b (readers.truncate x) h
  parse_timestamp_ns_lem (str s) b h = positive_call b (ok (readers.int_of_text s)) h
  parse_timestamp_ns_lem null b h = positive_call b (ok none) h
  parse_timestamp_ns_lem (bool c) b h = positive_call b (ok none) h
  parse_timestamp_ns_lem (list vs) b h = positive_call b (ok none) h
  parse_timestamp_ns_lem (dict fs) b h = positive_call b (ok none) h

  pub parse_optional_float_lem :
      (v : Value F) {x : Option F} → parse_optional_float fl readers v ≡ ok x → IsUncertainty x
  unfolding parse_optional_float
  parse_optional_float_lem (int minus n) h = uncertain_call (float_of fl readers (int minus n)) h
  parse_optional_float_lem (float x) h = uncertain_call (ok (some x)) h
  parse_optional_float_lem (str s) h = uncertain_call (ok (readers.float_of_text s)) h
  parse_optional_float_lem null h = uncertain_call (ok none) h
  parse_optional_float_lem (bool c) h = uncertain_call (ok none) h
  parse_optional_float_lem (list vs) h = uncertain_call (ok none) h
  parse_optional_float_lem (dict fs) h = uncertain_call (ok none) h
