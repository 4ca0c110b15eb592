-- ===== src/Registry/Strict.antt =====
-- What `decode_registry_v2_record` guarantees of an accepted payload.
use aircraft_malt.Prelude.{
  ◌≤◌, leb, leb→le, length, str_eq, Pairwise, ℕ, ◌≡◌, refl, true, false, not, Option, none, some,
  List, [], ◌∷◌, Str, Dict, arith, str_in, str_eq_comm, All, any_of, ◌==◌,
}
use aircraft_malt.Float.{Floats}
use aircraft_malt.Value.{
  Value, dict, Fields, entries, Result, ok, Reason, ◌>>=◌, require, require-eq-ok, ok_injective,
  too_large, not_utf8, >>=-eq-ok, escape_sequence, not_json,
}
use aircraft_malt.Registry.Record.{ReceiverRegistryRecord, all_distinct, utf8_length, within_utf8}
use aircraft_malt.Registry.Fields.{all_distinct-Pairwise, within_utf8-bound}
use aircraft_malt.Registry.Validate.{validate}
use aircraft_malt.Registry.Json.{allowed_fields, all_allowed, reject_duplicates, from_dict}
use aircraft_malt.Registry.Json.{record_of}
use aircraft_malt.Value.{unknown_fields}
use aircraft_malt.Prelude.{ap, ◌∙◌}
use aircraft_malt.Registry.Decode.{
  Json, JsonFields, json_object, json_array, load, load_items, load_fields, Payload, bytes, text,
  or_raise, payload_text, decode_registry_v2_record,
}

-- No key of the list is among the texts.
abbrev AllNew : List Str → List Str → Type 0
AllNew seen ks = All (λ k. str_in k seen ≡ false) ks

AllNew-head : (k : Str) (seen ks : List Str) → AllNew (k ∷ seen) ks → str_in k ks ≡ false
unfolding str_in
AllNew-head k seen [] h = refl
AllNew-head k seen (j ∷ ks) h = ground (arith, AllNew-head k seen ks h.1, str_eq_comm j k)

AllNew-tail : (k : Str) (seen ks : List Str) → AllNew (k ∷ seen) ks → AllNew seen ks
unfolding str_in
AllNew-tail k seen [] h = tt
AllNew-tail k seen (j ∷ ks) h = (ground arith, AllNew-tail k seen ks h.1)

module _ {F : Type 0} where
  abbrev pub keys : Dict (Value F) → List Str
  keys [] = []
  keys ((k, v) ∷ d) = k ∷ keys d

  reject_duplicates_lem :
      (d : Dict (Value F)) (seen : List Str)
      → reject_duplicates d seen ≡ ok tt
      → AllNew seen (keys d) × (all_distinct (keys d) ≡ true)
  unfolding reject_duplicates all_distinct
  reject_duplicates_lem [] seen h = (tt, refl)
  reject_duplicates_lem ((k, v) ∷ d) seen h =
      let new : str_in k seen ≡ false = ground arith in
      let (fresh, distinct) = reject_duplicates_lem d (k ∷ seen) (ground arith) in
      ((new, AllNew-tail k seen (keys d) fresh), rw (AllNew-head k seen (keys d) fresh) distinct)

  all_allowed-All :
      (d : Dict (Value F))
      → all_allowed d ≡ true
      → All (λ k. str_in k allowed_fields ≡ true) (keys d)
  unfolding all_allowed
  all_allowed-All [] h = tt
  all_allowed-All ((k, v) ∷ d) h = (ground arith, all_allowed-All d (ground arith))

module _ (fl : Floats) (utf8_decode : List ℕ → Option Str)
    (json_tree : Str → Option (Json fl.F)) where
  open fl use {F}

  -- The payload is the text, as it stands or in UTF-8, in at most the number of bytes.
  abbrev pub Fits : ℕ → Payload → Str → Type 0
  Fits max_bytes (bytes b) source = (length b ≤ max_bytes) × (utf8_decode b ≡ some source)
  Fits max_bytes (text s) source =
      (s ≡ source) × ((n : ℕ) × (utf8_length s ≡ some n) × (n ≤ max_bytes))

  -- What stands behind an accepted payload.
  pub record IsStrict (max_bytes : ℕ) (payload : Payload) (r : ReceiverRegistryRecord F)
      : Type 0 where
    pub source : Str
    pub fits : Fits max_bytes payload source
    pub no_escape : any_of (λ c. c == 92) source ≡ false
    pub object : JsonFields F
    pub parsed : json_tree source ≡ some (json_object object)
    pub pairs : Fields F
    pub loaded : load_fields object ≡ ok pairs
    pub distinct : Pairwise (λ j k. str_eq j k ≡ false) (keys (entries pairs))
    pub allowed : All (λ k. str_in k allowed_fields ≡ true) (keys (entries pairs))
    pub valid : validate fl r ≡ ok tt

  from_dict-facts :
      (pairs : Fields F) (r : ReceiverRegistryRecord F)
      → from_dict fl (dict pairs) ≡ ok r
      → (all_allowed (entries pairs) ≡ true) × (validate fl r ≡ ok tt)
  unfolding from_dict
  from_dict-facts pairs r h =
      let (u, e, h₁) = >>=-eq-ok (require (all_allowed (entries pairs)) unknown_fields) _ h in
      let (s, e₂, h₂) = >>=-eq-ok (record_of fl (entries pairs)) _ h₁ in
      (ground arith, ground arith)

  load-dict :
      (tree : Json F) (v : Value F) (r : ReceiverRegistryRecord F)
      → load tree ≡ ok v
      → from_dict fl v ≡ ok r
      → (fs : JsonFields F) × (pairs : Fields F) × (tree ≡ json_object fs)
        × (load_fields fs ≡ ok pairs)
        × (reject_duplicates (entries pairs) [] ≡ ok tt)
        × (all_allowed (entries pairs) ≡ true)
        × (validate fl r ≡ ok tt)
  unfolding load from_dict
  load-dict (json_object fs) v r h k =
      let (pairs, e, h₁) = >>=-eq-ok (load_fields fs) _ h in
      let (u, e₂, h₂) = >>=-eq-ok (reject_duplicates (entries pairs) []) _ h₁ in
      let (allowed, valid) =
        from_dict-facts pairs r (ap (λ (m : Result (Value F)). m >>= λ w. from_dict fl w) h₂ ∙ k) in
      (fs, pairs, refl, e, e₂, allowed, valid)
  load-dict (json_array vs) v r h k =
      let (us, e, h₁) = >>=-eq-ok (load_items vs) _ h in absurd (ground (arith, h₁))
  load-dict tree v r h k = absurd (ground arith)

  or_raise-eq-ok :
      {A : Type 0} (o : Option A) (reason : Reason) {a : A} → or_raise o reason ≡ ok a → o ≡ some a
  or_raise-eq-ok none reason h = cc
  or_raise-eq-ok (some a) reason h = cc

  payload_text-Fits :
      (max_bytes : ℕ) (payload : Payload) {source : Str}
      → payload_text fl utf8_decode json_tree max_bytes payload ≡ ok source
      → Fits max_bytes payload source
  unfolding payload_text
  payload_text-Fits max_bytes (bytes b) h =
      let (_, small, read) = >>=-eq-ok (require (leb (length b) max_bytes) too_large) _ h in
      (
        leb→le (length b) max_bytes (require-eq-ok (leb (length b) max_bytes) too_large small),
        or_raise-eq-ok (utf8_decode b) not_utf8 read,
      )
  payload_text-Fits max_bytes (text s) h =
      let (_, small, read) =
        >>=-eq-ok (require (within_utf8 max_bytes (utf8_length s)) too_large) _ h in
      (
        ok_injective read,
        within_utf8-bound max_bytes (utf8_length s)
            (require-eq-ok (within_utf8 max_bytes (utf8_length s)) too_large small),
      )

  -- An accepted payload fits the byte limit, holds no backslash, and is a JSON object whose names
  -- are distinct and all known; the record that is returned is valid.
  pub decode-IsStrict :
      (max_bytes : ℕ) (payload : Payload) (r : ReceiverRegistryRecord F)
      → decode_registry_v2_record fl utf8_decode json_tree max_bytes payload ≡ ok r
      → IsStrict max_bytes payload r
  unfolding decode_registry_v2_record
  decode-IsStrict max_bytes payload r h =
      let (s, read, h₁) = >>=-eq-ok (payload_text fl utf8_decode json_tree max_bytes payload) _ h in
      let (u, plain, h₂) =
        >>=-eq-ok (require (not (any_of (λ c. c == 92) s)) escape_sequence) _ h₁ in
      let (tree, found, h₃) = >>=-eq-ok (or_raise (json_tree s) not_json) _ h₂ in
      let (v, loaded, h₄) = >>=-eq-ok (load tree) _ h₃ in
      let (fs, pairs, shape, e, once, allowed, valid) = load-dict tree v r loaded h₄ in
      record {
        source = s;
        fits = payload_text-Fits max_bytes payload read;
        no_escape = ground arith;
        object = fs;
        parsed = or_raise-eq-ok (json_tree s) not_json found ∙ ap some shape;
        pairs = pairs;
        loaded = e;
        distinct =
            all_distinct-Pairwise (keys (entries pairs))
              (reject_duplicates_lem (entries pairs) [] once).1;
        allowed = all_allowed-All (entries pairs) allowed;
        valid = valid;
      }
