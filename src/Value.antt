-- ===== src/Value.antt =====
-- The values of a dynamically typed Python field, the exceptions that the modelled code raises,
-- and their propagation.
use aircraft_malt.Prelude.{
  ℕ, ◌≡◌, refl, ap, Bool, true, false, List, [], ◌∷◌, Str, Dict, ℤ, pos, negsuc, zero, suc,
}

-- `int minus n` is an integer by its sign and magnitude: `int true 0` is the spelling `-0`, which
-- `_JsonInteger` keeps apart from `0`. A plain integer below 0 has its sign set as well.
mutual
  pub data Value (F : Type 0) : Type 0 where
    null : Value F
    bool : Bool → Value F
    int : Bool → ℕ → Value F
    float : F → Value F
    str : Str → Value F
    list : Items F → Value F
    dict : Fields F → Value F

  pub data Items (F : Type 0) : Type 0 where
    nil : Items F
    cons : Value F → Items F → Items F

  pub data Fields (F : Type 0) : Type 0 where
    end : Fields F
    field : Str → Value F → Fields F → Fields F

module _ {F : Type 0} where
  abbrev pub items : Items F → List (Value F)
  items nil = []
  items (cons v vs) = v ∷ items vs

  abbrev pub entries : Fields F → Dict (Value F)
  entries end = []
  entries (field k v fs) = (k, v) ∷ entries fs

  abbrev pub fields_of : Dict (Value F) → Fields F
  fields_of [] = end
  fields_of ((k, v) ∷ d) = field k v (fields_of d)

  pub entries-fields_of : (d : Dict (Value F)) → entries (fields_of d) ≡ d
  entries-fields_of [] = refl
  entries-fields_of ((k, v) ∷ d) = ap (λ (e : Dict (Value F)). (k, v) ∷ e) (entries-fields_of d)

-- The number that a sign and a magnitude stand for.
abbrev pub signed : Bool → ℕ → ℤ
signed false n = pos n
signed true zero = pos 0
signed true (suc n) = negsuc n

-- The value of an integer.
abbrev pub of_integer : {F : Type 0} → ℤ → Value F
of_integer (pos n) = int false n
of_integer (negsuc n) = int true (suc n)

-- Which check raised a `ValueError`.
pub data Reason : Type 0 where
  bad_identity bad_schema_version bad_receiver_id bad_coordinates bad_latitude : Reason
  bad_longitude bad_altitude bad_status bad_capability_count bad_capability : Reason
  repeated_capability no_mode_s bad_sequence bad_updated_at bad_stream_endpoint : Reason
  bad_stream_protocol bad_stream_format unsupported_protocol unsupported_format : Reason
  endpoint_without_protocol bad_metadata_hash revoked_stream : Reason
  creation_sequence creation_revoked terminal_identity receiver_id_changed : Reason
  sequence_step updated_at_backwards not_an_object unknown_fields duplicate_field : Reason
  too_large not_utf8 escape_sequence non_finite not_json bad_index bad_since bad_output : Reason
  bad_hash_type bad_code_hash bad_cell_data missing_identity bad_limit : Reason
  clock_not_object clock_not_enabled bad_clock_source bad_frequency bad_anchor_tick : Reason
  bad_anchor_time bad_uncertainty uncertain_clock bad_validity bad_evidence : Reason
  config_not_object too_few_receivers receiver_not_object bad_registry_identity : Reason
  example_identity duplicate_receiver bad_sensor_id duplicate_sensor bad_host bad_port : Reason
  duplicate_endpoint bad_query : Reason

-- Which check raised a `RuntimeError`.
pub data Failure : Type 0 where
  no_type_hash bad_hash_type_setting bad_type_hash mutable_code : Failure
  not_a_response not_a_page too_many_cells no_cursor repeated_cursor too_many_pages : Failure
  strict_simulation strict_auto strict_fallback strict_synthetic shared_endpoint : Failure
  rpc_failed no_public_plan : Failure

-- Only `value_error` is a `ValueError`.
pub data Error : Type 0 where
  value_error : Reason → Error
  key_error : Str → Error
  overflow_error : Error
  -- a method called on a value that has none of that name
  attribute_error : Error
  runtime_error : Failure → Error
  -- SQLite: a constraint is violated, or a parameter has no type that a column can hold
  integrity_error : Error
  interface_error : Error

-- What a call returns, or the exception that it raised.
pub data Result {ℓ} (V : Type ℓ) : Type ℓ where
  ok : V → Result V
  err : Error → Result V

-- The result of a check that returns nothing.
abbrev pub Checked : Type 0
Checked = Result (Unit {0})

module _ {ℓ κ} {V : Type ℓ} {W : Type κ} where
  infixl 5 ◌>>=◌
  -- The rest of a body on the value of a call; an exception ends the body.
  abbrev pub ◌>>=◌ : Result V → (V → Result W) → Result W
  err raised >>= rest = err raised
  ok v >>= rest = rest v

infixl 5 ◌>>◌
-- The statement behind a check runs if the check passed.
abbrev pub ◌>>◌ {ℓ} : {W : Type ℓ} → Checked → Result W → Result W
check >> next = check >>= λ _. next

-- `if not test: raise ValueError(reason)`
abbrev pub require : Bool → Reason → Checked
require true reason = ok tt
require false reason = err (value_error reason)

pub ok_injective {ℓ} : {V : Type ℓ} {v w : V} → ok v ≡ ok w → v ≡ w
ok_injective h = cc

pub >>-eq-ok {ℓ} :
    {W : Type ℓ} (check : Checked) (next : Result W) {w : W}
    → (check >> next) ≡ ok w
    → (check ≡ ok tt) × (next ≡ ok w)
>>-eq-ok (err raised) next h = cc
>>-eq-ok (ok tt) next h = (refl, h)

module _ {ℓ κ} {V : Type ℓ} {W : Type κ} where
  -- A body that returned got a value from its first call.
  pub >>=-eq-ok :
      (call : Result V) (rest : V → Result W) {w : W}
      → (call >>= rest) ≡ ok w
      → (v : V) × (call ≡ ok v) × (rest v ≡ ok w)
  >>=-eq-ok (err raised) rest h = cc
  >>=-eq-ok (ok v) rest h = (v, refl, h)

pub require-eq-ok : (b : Bool) (reason : Reason) → require b reason ≡ ok tt → b ≡ true
require-eq-ok true reason h = refl
require-eq-ok false reason h = cc
