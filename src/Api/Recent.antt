-- ===== src/Api/Recent.antt =====
-- src/mlat_reference/api/rest_api.py: the route `/api/positions/recent`, on the table of positions.
use aircraft_malt.Prelude.{
  ℕ, ◌≤◌, ◌≡◌, refl, inl, inr, Bool, true, false, not, ◌&&◌, Option, none, some, List, [], ◌∷◌,
  ◌++◌, Str, codes, Dict, ℤ, ltb, min, length, length-take, keep_if, keep_if-passes, sort_with, All,
  All-sort_with, Bool-cases, Option-cases, ◌||◌, arith, tests, if◌then◌else◌,
}
use aircraft_malt.Float.{Floats}
use aircraft_malt.Value.{Result, ok, err}
use aircraft_malt.Ingest.Receivers.{All-take}
use aircraft_malt.Store.Positions.{StoredPosition, Positions, get_recent_positions}
use aircraft_malt.Api.Access.{
  Plan, Auth, UsageEvent, Session, is_active, auth_or, get_request_auth, record_usage, recorded,
  request_access_policy, positive_int_query,
}

-- The status codes 400, 403 and 500, or the positions with the time window.
pub data Response (F : Type 0) : Type 0 where
  bad_request forbidden failed : Response F
  positions : List (StoredPosition F) → ℕ → Response F

module _ (fl : Floats) (int_of_text : Str → Option ℤ) (authenticate_api_key : Str → Option Auth)
    (public_plan : Option Plan) (raw_key : Option Str) (now : fl.F) (table : Positions fl.F) where
  open fl use {F, le, sub, of_u64}

  twice :
      (s : Session) (auth : Option Auth)
      → s.auth ≡ auth
      → (key : Option Str)
      → auth_or authenticate_api_key key
          (auth_or authenticate_api_key key s.auth s).1.auth
          (auth_or authenticate_api_key key s.auth s).1
        ≡ auth_or authenticate_api_key key s.auth s
  twice s (some a) e key = rw e refl
  twice s none e none = rw e refl
  twice s none e (some []) = rw e refl
  twice s none e (some (c ∷ key)) = elim (Option-cases (authenticate_api_key (c ∷ key))) [
    | inl f ↦ rw (e, f, f) refl
    | inr (a, f) ↦
        elim (Bool-cases (not (is_active a.api_key_status) || not (is_active a.account_status))) [
          | inl g ↦ rw (e, f, g, f, g) refl
          | inr g ↦ rw (e, f, g) refl
        ]
  ]

  -- The rows that are sent, and the usage that is recorded for them.
  abbrev pub send : List (StoredPosition F) → ℕ → ℕ → Session → Response F × Session
  send rows seconds limit s = (
    positions rows seconds,
    record_usage authenticate_api_key raw_key (codes "rest_request") (codes "recent_positions")
        (length rows) ((codes "seconds", seconds) ∷ (codes "limit", limit) ∷ []) s,
  )

  unfoldable pub answer_within : Plan → ℕ → ℕ → Session → Response F × Session
  unfolding get_recent_positions record_usage
  answer_within access seconds limit s =
      let window = min seconds access.max_history_seconds in
      if ltb 100 limit && not access.can_access_premium
      then (forbidden, s)
      else if ltb 1000 limit
      then (bad_request, s)
      else send (get_recent_positions fl now (of_u64 window) limit table) window limit s

  abbrev pub answer_query : Plan → Result ℕ → Result ℕ → Session → Response F × Session
  answer_query access (err e) limit s = (bad_request, s)
  answer_query access (ok seconds) (err e) s = (bad_request, s)
  answer_query access (ok seconds) (ok limit) s = answer_within access seconds limit s

  abbrev pub answer_policy : Result Plan → Result ℕ → Result ℕ → Session → Response F × Session
  answer_policy (err e) seconds limit s = (failed, s)
  answer_policy (ok access) seconds limit s = answer_query access seconds limit s

  -- `get_recent_positions`, for the texts of the two numbers in the query
  unfoldable pub recent_positions : Option Str → Option Str → Session → Response F × Session
  unfolding get_request_auth positive_int_query answer_within
  recent_positions seconds limit s =
      let (auth, s') = get_request_auth authenticate_api_key raw_key s in
      answer_policy (request_access_policy public_plan auth)
        (positive_int_query int_of_text seconds 60) (positive_int_query int_of_text limit 100) s'

  get_request_auth-twice :
      (s : Session)
      → get_request_auth authenticate_api_key raw_key
          (get_request_auth authenticate_api_key raw_key s).1
        ≡ get_request_auth authenticate_api_key raw_key s
  unfolding get_request_auth
  get_request_auth-twice s = twice s s.auth refl raw_key

  -- A caller with a key is charged for the rows that were sent; without one nothing is recorded.
  abbrev pub IsMetered : Option Auth → ℕ → Session → Session → Type 0
  IsMetered none n s s' = s' ≡ s
  IsMetered (some a) n s s' =
      (event : UsageEvent) × (event.account_id ≡ a.account_id)
      × (event.api_key_id ≡ a.api_key_id)
      × (event.quantity ≡ n)
      × (s'.events ≡ s.events ++ event ∷ [])

  abbrev pub most : Plan → ℕ
  most access = if access.can_access_premium then 1000 else 100

  -- What a response may hold for a caller.
  abbrev pub IsServed : Option Auth × Session → Response F × Session → Type 0
  IsServed (auth, s) (positions rows window, s') =
      (access : Plan) × (request_access_policy public_plan auth ≡ ok access)
      × (window ≤ access.max_history_seconds)
      × (length rows ≤ most access)
      × All (λ p. le (sub now (of_u64 window)) p.row.timestamp ≡ true) rows
      × IsMetered auth (length rows) s s'
  IsServed (auth, s) (bad_request, s') = s' ≡ s
  IsServed (auth, s) (forbidden, s') = s' ≡ s
  IsServed (auth, s) (failed, s') = s' ≡ s

  recorded-IsMetered :
      (event_type resource : Str) (n : ℕ) (metadata : Dict ℕ) (auth : Option Auth) (s : Session)
      → IsMetered auth n s
          (recorded authenticate_api_key raw_key event_type resource n metadata (auth, s))
  recorded-IsMetered event_type resource n metadata none s = refl
  recorded-IsMetered event_type resource n metadata (some a) s = (_, refl, refl, refl, refl)

  recent-IsServed :
      (seconds : F) (limit : ℕ)
      → (length (get_recent_positions fl now seconds limit table) ≤ limit)
        × All
            (λ p. le (sub now seconds) p.row.timestamp ≡ true)
            (get_recent_positions fl now seconds limit table)
  unfolding get_recent_positions
  recent-IsServed seconds limit =
      let new : StoredPosition F → Bool = λ p. le (sub now seconds) p.row.timestamp in
      (
        omega (arith, length-take limit (sort_with _ (keep_if new table.rows))),
        All-take (λ p. new p ≡ true) limit _
            (All-sort_with _ (λ p. new p ≡ true) (keep_if new table.rows)
              (keep_if-passes new table.rows)),
      )

  at_most :
      (access : Plan) (limit n : ℕ)
      → n ≤ limit
      → (ltb 100 limit && not access.can_access_premium) ≡ false
      → ltb 1000 limit ≡ false
      → n ≤ most access
  at_most access limit n h e f = elim (Bool-cases access.can_access_premium) [
    | inl p ↦ rw p (grind (tests, h, f))
    | inr p ↦ rw p (let k = (rw p at e) in grind (tests, h, k))
  ]

  answer_within-IsServed :
      (auth : Option Auth) (access : Plan) (seconds limit : ℕ) (s : Session)
      → request_access_policy public_plan auth ≡ ok access
      → get_request_auth authenticate_api_key raw_key s ≡ (auth, s)
      → IsServed (auth, s) (answer_within access seconds limit s)
  unfolding answer_within record_usage
  answer_within-IsServed auth access seconds limit s policy again =
      let window = min seconds access.max_history_seconds in
      let (count, recent) = recent-IsServed (of_u64 window) limit in
      elim (Bool-cases (ltb 100 limit && not access.can_access_premium)) [
        | inl e ↦ rw e refl
        | inr e ↦ elim (Bool-cases (ltb 1000 limit)) [
          | inl f ↦ rw (e, f) refl
          | inr f ↦
              rw (e, f, again)
                (
                  access,
                  policy,
                  omega arith,
                  at_most access limit _ count e f,
                  recent,
                  recorded-IsMetered (codes "rest_request") (codes "recent_positions") _ _ auth s,
                )
        ]
      ]

  queried-IsServed :
      (auth : Option Auth) (policy : Result Plan) (seconds limit : Result ℕ) (s : Session)
      → request_access_policy public_plan auth ≡ policy
      → get_request_auth authenticate_api_key raw_key s ≡ (auth, s)
      → IsServed (auth, s) (answer_policy policy seconds limit s)
  queried-IsServed auth (err e) seconds limit s h again = refl
  queried-IsServed auth (ok access) (err e) limit s h again = refl
  queried-IsServed auth (ok access) (ok seconds) (err e) s h again = refl
  queried-IsServed auth (ok access) (ok seconds) (ok limit) s h again =
      answer_within-IsServed auth access seconds limit s h again

  -- Whatever a request asks for, it gets no position from before the history that its plan allows, at
  -- most 1000 positions with a premium plan and 100 without, and a caller with a key is charged for
  -- exactly the positions that were sent; without a key, and with any other answer, no usage is
  -- recorded.
  pub recent_positions-IsServed :
      (seconds limit : Option Str) (s : Session)
      → IsServed
          (get_request_auth authenticate_api_key raw_key s)
          (recent_positions seconds limit s)
  unfolding recent_positions
  recent_positions-IsServed seconds limit s =
      let found = get_request_auth authenticate_api_key raw_key s in
      queried-IsServed found.0 (request_access_policy public_plan found.0)
        (positive_int_query int_of_text seconds 60) (positive_int_query int_of_text limit 100)
        found.1 refl (get_request_auth-twice s)
