-- ===== src/RateLimit.antt =====
-- src/mlat_reference/api/rate_limit.py: `SlidingWindowRateLimiter`. The lock makes each call one
-- step; the clock's reading is an argument of the step.
pub mod Window
pub mod Bounds
mod Examples
use aircraft_malt.Prelude.{
  ℕ, ◌-◌, ◌*◌, ◌≡◌, refl, Bool, true, false, ◌||◌, Option, none, some, List, [], ◌∷◌, ◌++◌, Str,
  codes, Dict, lookup, remove, str_eq, ◌+ℤ◌, ◌-ℤ◌, ltb, leb, ltb_ℤ, length, if◌then◌else◌, ℤ, pos,
}
use aircraft_malt.Float.{Floats}
use aircraft_malt.Float.Fixed.{fixed}
use aircraft_malt.Value.{Result, ok, err, value_error, bad_limit}

pub record RateLimitDecision : Type 0 where
  pub allowed : Bool
  pub limit : ℕ
  pub remaining : ℕ
  pub reset_after_seconds : ℤ

-- The clients in the order of their last request, each with its accepted request times.
pub record Limiter (F : Type 0) : Type 0 where
  pub limit : ℕ
  pub window_seconds : ℕ
  pub max_clients : ℕ
  pub buckets : Dict (List F)

-- `__init__`, on integers that are not negative
unfoldable pub new_limiter : {F : Type 0} → ℕ → ℕ → ℕ → Result (Limiter F)
new_limiter limit window_seconds max_clients =
    if ltb limit 1 || ltb window_seconds 1 || ltb max_clients 1
    then err (value_error bad_limit)
    else ok (record {
      limit = limit;
      window_seconds = window_seconds;
      max_clients = max_clients;
      buckets = [];
    })

-- `while len(self._buckets) > self.max_clients: self._buckets.popitem(last=False)`
unfoldable pub evict : {V : Type 0} → ℕ → Dict V → Dict V
evict max_clients [] = []
evict max_clients (e ∷ d) =
    let rest = evict max_clients d in if ltb max_clients (length (e ∷ d)) then rest else e ∷ d

-- `self._buckets.pop(client_key, deque())`
abbrev pub bucket_of : {F : Type 0} → Option (List F) → List F
bucket_of none = []
bucket_of (some bucket) = bucket

abbrev pub max_ℤ : ℤ → ℤ → ℤ
max_ℤ a b = if ltb_ℤ a b then b else a

module _ (fl : Floats) where
  open fl use {F, le, of_u64, add, sub, ceil}

  -- `while bucket and bucket[0] <= cutoff: bucket.popleft()`
  unfoldable pub drop_expired : F → List F → List F
  drop_expired cutoff [] = []
  drop_expired cutoff (t ∷ bucket) =
      let rest = drop_expired cutoff bucket in if le t cutoff then rest else t ∷ bucket

  -- `max(1, math.ceil(bucket[0] + self.window_seconds - now))`
  abbrev pub reset_after : ℕ → F → List F → ℤ
  reset_after window now [] = pos 1
  reset_after window now (first ∷ _) = max_ℤ (pos 1) (ceil (sub (add first (of_u64 window)) now))

  -- The part of `consume` that concerns the client's bucket: the new bucket and the decision.
  unfoldable pub consume_bucket : ℕ → ℕ → F → List F → List F × Bool
  unfolding drop_expired
  consume_bucket limit window now bucket =
      let live = drop_expired (sub now (of_u64 window)) bucket in
      if leb limit (length live) then (live, false) else (live ++ now ∷ [], true)

  unfoldable pub consume : Str → F → Limiter F → RateLimitDecision × Limiter F
  unfolding consume_bucket evict
  consume client_key now s =
      let others = remove client_key s.buckets in
      let (bucket, allowed) =
        consume_bucket s.limit s.window_seconds now (bucket_of (lookup client_key s.buckets)) in
      let buckets = others ++ (client_key, bucket) ∷ [] in
      (
        record {
          allowed = allowed;
          limit = s.limit;
          remaining = if allowed then s.limit - length bucket else 0;
          reset_after_seconds = reset_after s.window_seconds now bucket;
        },
        record s { buckets = if allowed then evict s.max_clients buckets else buckets },
      )

-- Two requests fill a window of ten seconds; the third is denied, and a later one is allowed.
abbrev start : Limiter ℤ
start = record { limit = 2; window_seconds = 10; max_clients = 3; buckets = [] }

abbrev at : ℕ → Limiter ℤ → RateLimitDecision × Limiter ℤ
at seconds s = consume fixed (codes "a") (pos (seconds * 1000000000)) s

consume_runs :
    ((at 5 (at 4 (at 3 start).1).1).0.allowed ≡ false)
    × ((at 5 (at 4 (at 3 start).1).1).0.reset_after_seconds ≡ pos 8)
    × ((at 13 (at 4 (at 3 start).1).1).0.remaining ≡ 0)
    × ((at 13 (at 4 (at 3 start).1).1).0.allowed ≡ true)
unfolding consume lookup remove str_eq ◌+ℤ◌ ◌-ℤ◌
consume_runs = (refl, refl, refl, refl)
