-- ===== src/Discovery/Receiver.antt =====
-- src/ckb_registry/discovery.py: `ReceiverInfo`, `CKBConfig` and `_is_receiver_valid`.
use aircraft_malt.Prelude.{
  ℕ, Bool, true, false, not, ◌&&◌, ◌||◌, Option, none, some, [], ◌++◌, Str, codes, Dict, str_eq,
  leb_ℤ, ℤ, pos, negsuc, if◌then◌else◌, ◌==◌, any_of, ◌-◌,
}
use aircraft_malt.Float.{Floats}
use aircraft_malt.Value.{
  Value, int, float, str, list, items, signed, Result, ok, err, value_error, missing_identity,
  ◌>>=◌,
}
use aircraft_malt.Registry.Identity.{normalize_text}
use aircraft_malt.Registry.Record.{is_text}

-- Fields that hold what a record or a JSON document held are values.
pub record ReceiverInfo (F : Type 0) : Type 0 where
  pub receiver_id : Value F
  pub latitude : Value F
  pub longitude : Value F
  pub altitude : Value F
  pub status : Value F
  pub last_seen : F
  pub capabilities : Value F
  pub ckb_address : Value F
  pub lock_hash : Value F
  pub receiver_identity : Option Str
  pub data_source : Str
  pub stream_endpoint : Value F
  pub stream_protocol : Value F
  pub stream_format : Value F
  pub metadata : Option (Dict (Value F))
  pub registry_updated_at : Option ℕ

abbrev pub ckb_registry : Str
ckb_registry = codes "ckb_registry"

-- `__post_init__`
unfoldable pub post_init : {F : Type 0} → ReceiverInfo F → Result (ReceiverInfo F)
post_init r = elim r.receiver_identity [
  | none ↦ if str_eq r.data_source ckb_registry then err (value_error missing_identity) else ok r
  | some i ↦ (do identity ← normalize_text i; ok (record r { receiver_identity = some identity }))
]

-- The text of a field that is used in an f-string; only a text is one.
abbrev pub text_of : {F : Type 0} → Value F → Str
text_of (str s) = s
text_of _ = []

-- `runtime_id`
unfoldable pub runtime_id : {F : Type 0} → ReceiverInfo F → Str
runtime_id r = elim r.receiver_identity [
  | none ↦ r.data_source ++ (codes ":" ++ text_of r.receiver_id)
  | some identity ↦ identity
]

pub record CkbConfig (F : Type 0) : Type 0 where
  pub receiver_registry_type_hash : Str
  pub receiver_registry_hash_type : Str
  pub allow_mutable_registry_code : Bool
  pub max_record_age_seconds : Option ℕ
  pub max_future_record_skew_seconds : ℕ
  pub registry_page_size : ℕ
  pub registry_max_pages : ℕ
  pub registry_max_cells : ℕ
  pub max_record_bytes : ℕ

-- `text in values` for a list of values
unfoldable pub contains_text : {F : Type 0} → Str → Value F → Bool
contains_text t (list vs) = any_of (λ v. is_text v t) (items vs)
contains_text t _ = false

module _ (fl : Floats) where
  open fl use {F, le, lt, literal, sub, of_u64}

  -- `lo <= value <= hi` for integer bounds: integers are compared exactly.
  unfoldable pub is_within_degrees : ℤ → ℤ → Value F → Bool
  is_within_degrees lo hi (int minus n) = leb_ℤ lo (signed minus n) && leb_ℤ (signed minus n) hi
  is_within_degrees lo hi (float x) = le (literal lo 0) x && le x (literal hi 0)
  is_within_degrees lo hi _ = false

  -- `0 - n`
  abbrev pub minus_seconds : ℕ → ℤ
  minus_seconds n = if n == 0 then pos 0 else negsuc (n - 1)

  -- The policy on `updated_at`, at the time `now`.
  unfoldable pub is_timely : CkbConfig F → F → Option ℕ → Bool
  is_timely config now none = false
  is_timely config now (some updated_at) =
      let age_seconds = sub now (of_u64 updated_at) in
      not (lt age_seconds (literal (minus_seconds config.max_future_record_skew_seconds) 0))
      && (elim config.max_record_age_seconds [
        | none ↦ true
        | some age ↦ not (lt (literal (pos age) 0) age_seconds)
      ])

  -- `_is_receiver_valid`
  unfoldable pub is_receiver_valid : CkbConfig F → F → Bool → Bool → ReceiverInfo F → Bool
  is_receiver_valid config now include_inactive include_revoked r =
      not (is_text r.status (codes "revoked") && not include_revoked)
      && not (
          not (is_text r.status (codes "online") || is_text r.status (codes "revoked"))
          && not include_inactive)
      && contains_text (codes "mode-s") r.capabilities
      && is_timely config now r.registry_updated_at
      && is_within_degrees (negsuc 89) (pos 90) r.latitude
      && is_within_degrees (negsuc 179) (pos 180) r.longitude
