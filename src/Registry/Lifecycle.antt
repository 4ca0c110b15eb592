-- ===== src/Registry/Lifecycle.antt =====
-- The life of one receiver identity: a creation record and its successors.
use aircraft_malt.Prelude.{
  ℕ, zero, suc, ◌+◌, ◌≤◌, ◌≡◌, refl, ◌∙◌, true, false, arith, codes, str_eq_sound, ap,
}
use aircraft_malt.Float.{Floats}
use aircraft_malt.Value.{Value, int, str, ok}
use aircraft_malt.Registry.Record.{ReceiverRegistryRecord, is_text, is_u64, validate_u64, u64_max}
use aircraft_malt.Registry.Validate.{
  validate, check_lifecycle, magnitude, same_text, validate_creation, validate_successor,
}

same_text_sound : {F : Type 0} (v w : Value F) → same_text v w ≡ true → v ≡ w
unfolding same_text
same_text_sound (str s) (str t) h = ap str (str_eq_sound s t h)
same_text_sound (str s) (int a n) h = cc
same_text_sound v w h = ground arith

module _ (fl : Floats) where
  open fl use {F}

  -- What an accepted step says of the two records.
  pub record IsStep (previous r : ReceiverRegistryRecord F) : Type 0 where
    pub before_valid : validate fl previous ≡ ok tt
    pub after_valid : validate fl r ≡ ok tt
    pub not_revoked : is_text previous.status (codes "revoked") ≡ false
    pub same_receiver : r.receiver_id ≡ previous.receiver_id
    pub next_sequence : magnitude r.sequence ≡ magnitude previous.sequence + 1
    pub not_earlier : magnitude previous.updated_at ≤ magnitude r.updated_at

  pub validate_successor-IsStep :
      (r previous : ReceiverRegistryRecord F)
      → validate_successor fl r previous ≡ ok tt
      → IsStep previous r
  unfolding validate_successor
  validate_successor-IsStep r previous h =
      ground (arith, same_text_sound r.receiver_id previous.receiver_id)

-- `Chain fl first r n`: `r` is reached from `first` by n accepted successors.
pub data Chain (fl : Floats) (first : ReceiverRegistryRecord fl.F)
    : ReceiverRegistryRecord fl.F → ℕ → Type 0 where
  start : Chain fl first first zero
  next :
      {previous : ReceiverRegistryRecord fl.F} {n : ℕ}
      → Chain fl first previous n
      → (r : ReceiverRegistryRecord fl.F) → validate_successor fl r previous ≡ ok tt
      → Chain fl first r (suc n)

module _ (fl : Floats) where
  open fl use {F}

  -- Along a chain the receiver id stays, each step adds one to the sequence, and `updated_at` does
  -- not go backwards.
  pub Chain_keeps :
      {first r : ReceiverRegistryRecord F} {n : ℕ}
      → Chain fl first r n
      → (r.receiver_id ≡ first.receiver_id)
        × (magnitude r.sequence ≡ magnitude first.sequence + n)
        × (magnitude first.updated_at ≤ magnitude r.updated_at)
  Chain_keeps start = (refl, omega arith, omega arith)
  Chain_keeps (next {previous = p} c r e) =
      let ih = Chain_keeps c in
      let step = validate_successor-IsStep fl r p e in
      (step.same_receiver ∙ ih.0, omega arith, omega arith)

  validate-sequence :
      (r : ReceiverRegistryRecord F) → validate fl r ≡ ok tt → is_u64 false r.sequence ≡ true
  unfolding validate check_lifecycle validate_u64
  validate-sequence r h = ground arith

  validate_creation-facts :
      (r : ReceiverRegistryRecord F)
      → validate_creation fl r ≡ ok tt
      → (validate fl r ≡ ok tt)
        × (magnitude r.sequence ≡ 0)
        × (is_text r.status (codes "revoked") ≡ false)
  unfolding validate_creation
  validate_creation-facts r h = ground arith

  Chain-valid :
      {first r : ReceiverRegistryRecord F} {n : ℕ}
      → validate fl first ≡ ok tt
      → Chain fl first r n
      → validate fl r ≡ ok tt
  Chain-valid h start = h
  Chain-valid h (next {previous = p} c r e) = (validate_successor-IsStep fl r p e).after_valid

  is_u64-int :
      (v : Value F)
      → is_u64 false v ≡ true
      → (v ≡ int false (magnitude v)) × (magnitude v ≤ u64_max)
  unfolding is_u64
  is_u64-int (int true n) h = cc
  is_u64-int (int false n) h = ground arith
  is_u64-int v h = cc

  -- A record that n accepted successors separate from a creation has exactly the sequence n, as a
  -- JSON integer in the range of a u64, and the receiver id of the creation.
  pub lifecycle_sequence :
      {first r : ReceiverRegistryRecord F} {n : ℕ}
      → validate_creation fl first ≡ ok tt
      → Chain fl first r n
      → (r.sequence ≡ int false n) × (n ≤ u64_max) × (r.receiver_id ≡ first.receiver_id)
  lifecycle_sequence {first} {r} {n} h c =
      let created = validate_creation-facts first h in
      let kept = Chain_keeps c in
      let size : magnitude r.sequence ≡ n = omega arith in
      let whole = is_u64-int r.sequence (validate-sequence r (Chain-valid created.0 c)) in
      (whole.0 ∙ ap (int false) size, omega arith, kept.0)
