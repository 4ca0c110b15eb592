-- ===== src/Api/Access.antt =====
-- src/mlat_reference/api/rest_api.py: the authentication of a request, its plan, the usage that is
-- recorded for it, and the numbers in its query. What the database knows of a key is an argument.
use aircraft_malt.Prelude.{
  ℕ, suc, Bool, not, ◌||◌, Option, none, some, List, [], ◌∷◌, ◌++◌, Str, codes, Dict, ℤ, pos,
  negsuc, zero, str_eq, if◌then◌else◌,
}
use aircraft_malt.Value.{Result, ok, err, value_error, runtime_error, no_public_plan, bad_query}

pub record Plan : Type 0 where
  pub max_history_seconds : ℕ
  pub can_access_premium : Bool

-- What `authenticate_api_key` returns.
pub record Auth : Type 0 where
  pub api_key_id : ℕ
  pub account_id : ℕ
  pub api_key_status : Str
  pub account_status : Str
  pub plan : Plan

pub record UsageEvent : Type 0 where
  pub account_id : ℕ
  pub api_key_id : ℕ
  pub event_type : Str
  pub resource : Str
  pub quantity : ℕ
  pub metadata : Dict ℕ

-- `g.auth`, and what the request wrote to the database: the keys touched and the usage events.
pub record Session : Type 0 where
  pub auth : Option Auth
  pub touched_keys : List ℕ
  pub events : List UsageEvent

abbrev pub is_active : Str → Bool
is_active status = str_eq status (codes "active")

-- `_resolve_request_auth`, on what the database has for the key
abbrev pub admit : Option Auth → Session → Option Auth × Session
admit none s = (none, s)
admit (some a) s =
    if not (is_active a.api_key_status) || not (is_active a.account_status)
    then (none, s)
    else (some a, record s { auth = some a; touched_keys = s.touched_keys ++ a.api_key_id ∷ [] })

module _ (authenticate_api_key : Str → Option Auth) (raw_key : Option Str) where
  abbrev pub resolve_request_auth : Option Str → Session → Option Auth × Session
  resolve_request_auth none s = (none, s)
  resolve_request_auth (some []) s = (none, s)
  resolve_request_auth (some (c ∷ key)) s = admit (authenticate_api_key (c ∷ key)) s

  abbrev pub auth_or : Option Auth → Session → Option Auth × Session
  auth_or (some a) s = (some a, s)
  auth_or none s = resolve_request_auth raw_key s

  -- `get_request_auth`
  unfoldable pub get_request_auth : Session → Option Auth × Session
  unfolding str_eq
  get_request_auth s = auth_or s.auth s

  abbrev pub recorded : Str → Str → ℕ → Dict ℕ → Option Auth × Session → Session
  recorded event_type resource quantity metadata (none, s) = s
  recorded event_type resource quantity metadata (some a, s) = record s {
    events =
        s.events
        ++ record {
          account_id = a.account_id;
          api_key_id = a.api_key_id;
          event_type = event_type;
          resource = resource;
          quantity = quantity;
          metadata = metadata;
        }
          ∷ [];
  }

  -- `record_usage`
  unfoldable pub record_usage : Str → Str → ℕ → Dict ℕ → Session → Session
  unfolding get_request_auth
  record_usage event_type resource quantity metadata s =
      recorded event_type resource quantity metadata (get_request_auth s)

-- `_request_access_policy`, with the public plan of the database
abbrev pub request_access_policy : Option Plan → Option Auth → Result Plan
request_access_policy public_plan (some a) = ok a.plan
request_access_policy (some plan) none = ok plan
request_access_policy none none = err (runtime_error no_public_plan)

abbrev above_zero : Option ℤ → Result ℕ
above_zero (some (pos (suc n))) = ok (suc n)
above_zero (some (pos zero)) = err (value_error bad_query)
above_zero (some (negsuc n)) = err (value_error bad_query)
above_zero none = err (value_error bad_query)

-- `_positive_int_query`; `int_of_text` is `int` on a text, none its ValueError
unfoldable pub positive_int_query : (Str → Option ℤ) → Option Str → ℕ → Result ℕ
positive_int_query int_of_text none default = ok default
positive_int_query int_of_text (some raw_value) default = above_zero (int_of_text raw_value)
