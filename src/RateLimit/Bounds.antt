-- ===== src/RateLimit/Bounds.antt =====
-- The memory that the limiter uses, and what one client's request does to the others.
use aircraft_malt.Prelude.{
  ℕ, suc, ◌≤◌, ◌≡◌, inl, inr, true, false, some, List, [], ◌∷◌, ◌++◌, Str, Dict, lookup, remove,
  str_eq, ltb, leb, length, length-append, All, All-append, arith, Bool-cases, Option-cases,
}
use mathlib.Core.Path.{subst}
use aircraft_malt.Float.{Floats}
use aircraft_malt.RateLimit.{Limiter, evict, bucket_of, drop_expired, consume_bucket, consume}

some-injective : {A : Type 0} {a b : A} → some a ≡ some b → a ≡ b
some-injective h = cc

true-ne-false : true ≡ false → ⊥
true-ne-false h = cc

module _ {V : Type 0} where
  length-remove : (k : Str) (d : Dict V) → length (remove k d) ≤ length d
  unfolding remove
  length-remove k [] = omega arith
  length-remove k ((j, v) ∷ d) = ground (arith, length-remove k d)

  length-remove_present :
      (k : Str) (v : V) (d : Dict V) → lookup k d ≡ some v → suc (length (remove k d)) ≤ length d
  unfolding remove lookup
  length-remove_present k v [] h = absurd (ground arith)
  length-remove_present k v ((j, w) ∷ d) h =
      ground (arith, length-remove k d, length-remove_present k v d)

  length-evict : (m : ℕ) (d : Dict V) → length (evict m d) ≤ m
  unfolding evict
  length-evict m [] = omega arith
  length-evict m (e ∷ d) = ground (arith, length-evict m d)

  All-evict : (P : Str × V → Type 0) (m : ℕ) (d : Dict V) → All P d → All P (evict m d)
  unfolding evict
  All-evict P m [] h = tt
  All-evict P m (e ∷ d) h = elim (Bool-cases (ltb m (length (e ∷ d)))) [
    | inl t ↦ rw t (All-evict P m d h.1)
    | inr t ↦ rw t h
  ]

  All-remove : (P : Str × V → Type 0) (k : Str) (d : Dict V) → All P d → All P (remove k d)
  unfolding remove
  All-remove P k [] h = tt
  All-remove P k ((j, v) ∷ d) h = elim (Bool-cases (str_eq j k)) [
    | inl t ↦ rw t (All-remove P k d h.1)
    | inr t ↦ rw t (h.0, All-remove P k d h.1)
  ]

  All-lookup :
      (P : Str × V → Type 0) (k : Str) (v : V) (d : Dict V)
      → ((j : Str) → P (j, v) → P (k, v))
      → All P d
      → lookup k d ≡ some v
      → P (k, v)
  unfolding lookup
  All-lookup P k v [] move h e = absurd (ground arith)
  All-lookup P k v ((j, w) ∷ d) move h e = elim (Bool-cases (str_eq j k)) [
    | inl t ↦
        let same : w ≡ v = some-injective (rw t at e) in
        move j (subst (λ (x : V). P (j, x)) same h.0)
    | inr t ↦ All-lookup P k v d move h.1 (rw t at e)
  ]

module _ (fl : Floats) where
  open fl use {F}

  -- No bucket is larger than the limit, and there are at most `max_clients` of them.
  pub record IsBounded (s : Limiter F) : Type 0 where
    pub positive : 1 ≤ s.limit
    pub buckets_fit : All (λ e. length e.1 ≤ s.limit) s.buckets
    pub clients_fit : length s.buckets ≤ s.max_clients

  length-drop_expired :
      (cutoff : F) (bucket : List F) → length (drop_expired fl cutoff bucket) ≤ length bucket
  unfolding drop_expired
  length-drop_expired cutoff [] = omega arith
  length-drop_expired cutoff (t ∷ bucket) = ground (arith, length-drop_expired cutoff bucket)

  -- A bucket stays within the limit, and one that is denied is full of live requests.
  consume_bucket-length :
      (limit window : ℕ) (now : F) (bucket : List F)
      → length bucket ≤ limit
      → (length (consume_bucket fl limit window now bucket).0 ≤ limit)
        × ((consume_bucket fl limit window now bucket).1 ≡ false → limit ≤ length bucket)
  unfolding consume_bucket
  consume_bucket-length limit window now bucket h =
      let cutoff = fl.sub now (fl.of_u64 window) in
      elim (Bool-cases (leb limit (length (drop_expired fl cutoff bucket)))) [
        | inl e ↦ rw e (
          omega (arith, length-drop_expired cutoff bucket),
          λ _. ground (arith, length-drop_expired cutoff bucket),
        )
        | inr e ↦ rw e (
          ground (arith, length-append (drop_expired fl cutoff bucket) (now ∷ [])),
          λ impossible. absurd (true-ne-false impossible),
        )
      ]

  bucket_of-length :
      (k : Str) (s : Limiter F) → IsBounded s → length (bucket_of (lookup k s.buckets)) ≤ s.limit
  bucket_of-length k s h = elim (Option-cases (lookup k s.buckets)) [
    | inl e ↦ rw e (omega arith)
    | inr (b, e) ↦
        rw e (All-lookup (λ x. length x.1 ≤ s.limit) k b s.buckets (λ j p. p) h.buckets_fit e)
  ]

  -- A denied client has a bucket already.
  denied-present :
      (k : Str) (s : Limiter F)
      → 1 ≤ length (bucket_of (lookup k s.buckets))
      → suc (length (remove k s.buckets)) ≤ length s.buckets
  denied-present k s h = elim (Option-cases (lookup k s.buckets)) [
    | inl e ↦ absurd (ground arith)
    | inr (b, e) ↦ length-remove_present k b s.buckets e
  ]

  -- Whatever the clock reads, a request keeps the number of remembered times of each client within
  -- the limit and the number of clients within `max_clients`.
  pub consume-IsBounded :
      (k : Str) (now : F) (s : Limiter F) → IsBounded s → IsBounded (consume fl k now s).1
  unfolding consume
  consume-IsBounded k now s h =
      let old = bucket_of (lookup k s.buckets) in
      let (fits, full) =
        consume_bucket-length s.limit s.window_seconds now old (bucket_of-length k s h) in
      let new = (consume_bucket fl s.limit s.window_seconds now old).0 in
      let all : All (λ e. length e.1 ≤ s.limit) (remove k s.buckets ++ (k, new) ∷ []) =
        All-append _ (remove k s.buckets) ((k, new) ∷ [])
          (All-remove (λ e. length e.1 ≤ s.limit) k s.buckets h.buckets_fit) (fits, tt) in
      elim (Bool-cases (consume_bucket fl s.limit s.window_seconds now old).1) [
        | inl e ↦ rw e (record {
          positive = h.positive;
          buckets_fit = All-evict (λ e'. length e'.1 ≤ s.limit) s.max_clients _ all;
          clients_fit = length-evict s.max_clients _;
        })
        | inr e ↦ rw e (record {
          positive = h.positive;
          buckets_fit = all;
          clients_fit = omega (
            arith,
            length-append (remove k s.buckets) ((k, new) ∷ []),
            denied-present k s (omega (arith, full e, h.positive)),
            h.clients_fit,
          );
        })
      ]
