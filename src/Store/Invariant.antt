-- ===== src/Store/Invariant.antt =====
-- What every operation on the table of positions keeps.
use aircraft_malt.Prelude.{
  ℕ, ◌+◌, ◌≤◌, ◌<◌, ◌≡◌, refl, inl, inr, Bool, false, not, ◌&&◌, Option, none, some, List, [], ◌∷◌,
  ◌++◌, Str, map, any_of, any_of-none, All, All-map, All-both, All-append, All-keep_if, All-mapped,
  Pairwise, Pairwise-snoc, Pairwise-keep_if, Pairwise-map, some_eq, Bool-cases, arith,
}
use mathlib.Core.Path.{subst}
use aircraft_malt.Float.{Floats}
use aircraft_malt.Runtime.State.{PositionRow}
use aircraft_malt.Store.Positions.{
  StoredPosition, Positions, publish_position_event, no_null, has_key, update_row, update_existing,
  insert_new, first_of, store_position, delete_before,
}

module _ (fl : Floats) where
  open fl use {F, lt}

  -- An earlier row has a smaller id and another key.
  abbrev pub IsBefore : StoredPosition F → StoredPosition F → Type 0
  IsBefore p q = (p.id < q.id) × (has_key fl q.row.aircraft_id q.row.timestamp p ≡ false)

  -- Ids ascend and are at most the last one given, keys are unique, and no event is of an id that
  -- was never given.
  pub record IsTable (s : Positions F) : Type 0 where
    pub ordered : Pairwise IsBefore s.rows
    pub bounded : All (λ p. p.id ≤ s.last_id) s.rows
    pub known : All (λ id. id ≤ s.last_id) s.events

  -- An update leaves the id and the key of each row.
  update_row-same :
      (r : PositionRow F) (created_at : Str) (p : StoredPosition F)
      → ((update_row fl r created_at p).id ≡ p.id)
        × ((update_row fl r created_at p).row.aircraft_id ≡ p.row.aircraft_id)
        × ((update_row fl r created_at p).row.timestamp ≡ p.row.timestamp)
  update_row-same r created_at p = elim (Bool-cases (has_key fl r.aircraft_id r.timestamp p)) [
    | inl e ↦ rw e (refl, refl, refl)
    | inr e ↦ rw e (refl, refl, refl)
  ]

  update_row-IsBefore :
      (r : PositionRow F) (created_at : Str) (p q : StoredPosition F)
      → IsBefore p q
      → IsBefore (update_row fl r created_at p) (update_row fl r created_at q)
  update_row-IsBefore r created_at p q h =
      let (id_p, name_p, time_p) = update_row-same r created_at p in
      let (id_q, name_q, time_q) = update_row-same r created_at q in
      (omega (arith, h.0, id_p, id_q), rw (name_p, name_q, time_p, time_q) h.1)

  publish-IsTable :
      (id : ℕ) (s : Positions F)
      → id ≤ s.last_id
      → IsTable s
      → IsTable (publish_position_event id s)
  unfolding publish_position_event
  publish-IsTable id s h t = record {
    ordered = t.ordered;
    bounded = t.bounded;
    known = All-append (λ i. i ≤ s.last_id) s.events (id ∷ []) t.known (h, tt);
  }

  insert_new-IsTable :
      (r : PositionRow F) (created_at : Str) (s : Positions F)
      → any_of (has_key fl r.aircraft_id r.timestamp) s.rows ≡ false
      → IsTable s
      → IsTable (insert_new fl r created_at s)
  unfolding publish_position_event
  insert_new-IsTable r created_at s fresh t =
      let entry : StoredPosition F = record {
        id = s.last_id + 1;
        row = r;
        created_at = created_at;
      } in
      let behind =
        All-map (λ p. (p.id ≤ s.last_id) × (has_key fl r.aircraft_id r.timestamp p ≡ false))
          (λ p. IsBefore p entry) (λ p h. (omega (arith, h.0), h.1)) s.rows
          (All-both (λ p. p.id ≤ s.last_id) (λ p. has_key fl r.aircraft_id r.timestamp p ≡ false)
            s.rows t.bounded (any_of-none (has_key fl r.aircraft_id r.timestamp) s.rows fresh)) in
      publish-IsTable (s.last_id + 1)
        (record s { rows = s.rows ++ entry ∷ []; last_id = s.last_id + 1 }) (omega arith)
        (record {
          ordered = Pairwise-snoc IsBefore s.rows entry t.ordered behind;
          bounded =
              All-append (λ p. p.id ≤ s.last_id + 1) s.rows (entry ∷ [])
                (All-map (λ p. p.id ≤ s.last_id) (λ p. p.id ≤ s.last_id + 1)
                  (λ p h. omega (arith, h)) s.rows t.bounded)
                (omega arith, tt);
          known =
              All-map (λ i. i ≤ s.last_id) (λ i. i ≤ s.last_id + 1) (λ i h. omega (arith, h))
                s.events t.known;
        })

  first_of-All {ℓ κ} :
      {A : Type ℓ} (P : A → Type κ) (test : A → Bool) (xs : List A) {x : A}
      → All P xs
      → first_of test xs ≡ some x
      → P x
  first_of-All P test [] h e = cc
  first_of-All P test (y ∷ ys) h e = elim (Bool-cases (test y)) [
    | inl t ↦ subst P (some_eq (rw t at e)) h.0
    | inr t ↦ first_of-All P test ys h.1 (rw t at e)
  ]

  update_existing-IsTable :
      (r : PositionRow F) (created_at : Str) (found : Option (StoredPosition F)) (s : Positions F)
      → ((p : StoredPosition F) → found ≡ some p → p.id ≤ s.last_id)
      → IsTable s
      → IsTable (update_existing fl r created_at found s).1
  update_existing-IsTable r created_at none s h t = t
  update_existing-IsTable r created_at (some p) s h t = elim (Bool-cases (no_null fl r)) [
    | inl e ↦ rw e (
        publish-IsTable p.id (record s { rows = map (update_row fl r created_at) s.rows })
          (h p refl)
          (record {
            ordered =
                Pairwise-map IsBefore (update_row fl r created_at)
                  (update_row-IsBefore r created_at) s.rows t.ordered;
            bounded =
                All-mapped (λ q. q.id ≤ s.last_id) (update_row fl r created_at)
                  (λ q k. omega (arith, k, (update_row-same r created_at q).0)) s.rows t.bounded;
            known = t.known;
          }))
    | inr e ↦ rw e t
  ]

  pub store_position-IsTable :
      (r : PositionRow F) (created_at : Str) (s : Positions F)
      → IsTable s
      → IsTable (store_position fl r created_at s).1
  unfolding store_position
  store_position-IsTable r created_at s t =
      let key = has_key fl r.aircraft_id r.timestamp in
      elim (Bool-cases (no_null fl r && not (any_of key s.rows))) [
        | inl e ↦ rw e (insert_new-IsTable r created_at s (ground (arith, e)) t)
        | inr e ↦ rw e (
            update_existing-IsTable r created_at (first_of key s.rows) s
              (λ p found. first_of-All (λ q. q.id ≤ s.last_id) key s.rows t.bounded found) t)
      ]

  pub delete_before-IsTable :
      (cutoff : F) (s : Positions F) → IsTable s → IsTable (delete_before fl cutoff s)
  unfolding delete_before
  delete_before-IsTable cutoff s t =
      let kept : StoredPosition F → Bool = λ p. not (lt p.row.timestamp cutoff) in
      record {
        ordered = Pairwise-keep_if IsBefore kept s.rows t.ordered;
        bounded = All-keep_if (λ p. p.id ≤ s.last_id) kept s.rows t.bounded;
        known = t.known;
      }

  -- What changes the table: a call of `store_position`, one of the cleanups, and a consumer that takes
  -- the first event.
  pub data Operation : Type 0 where
    stored : PositionRow F → Str → Operation
    cleaned : F → Operation
    consumed : Operation

  abbrev rest_of : List ℕ → List ℕ
  rest_of [] = []
  rest_of (id ∷ ids) = ids

  unfoldable pub apply : Operation → Positions F → Positions F
  unfolding store_position delete_before
  apply (stored r created_at) s = (store_position fl r created_at s).1
  apply (cleaned cutoff) s = delete_before fl cutoff s
  apply consumed s = record s { events = rest_of s.events }

  unfoldable pub apply_all : List Operation → Positions F → Positions F
  unfolding apply
  apply_all [] s = s
  apply_all (o ∷ os) s = apply_all os (apply o s)

  rest-All {ℓ} : (P : ℕ → Type ℓ) (ids : List ℕ) → All P ids → All P (rest_of ids)
  rest-All P [] h = h
  rest-All P (id ∷ ids) h = h.1

  apply-IsTable : (o : Operation) (s : Positions F) → IsTable s → IsTable (apply o s)
  unfolding apply
  apply-IsTable (stored r created_at) s t = store_position-IsTable r created_at s t
  apply-IsTable (cleaned cutoff) s t = delete_before-IsTable cutoff s t
  apply-IsTable consumed s t = record {
    ordered = t.ordered;
    bounded = t.bounded;
    known = rest-All (λ i. i ≤ s.last_id) s.events t.known;
  }

  -- However writers, cleanups and a consumer interleave, the ids of the stored positions ascend and
  -- are at most the last one given, no two positions are of one aircraft and time, and no event is of
  -- an id that was never given. The table had all this before.
  pub apply_all-IsTable :
      (os : List Operation) (s : Positions F) → IsTable s → IsTable (apply_all os s)
  unfolding apply_all
  apply_all-IsTable [] s t = t
  apply_all-IsTable (o ∷ os) s t = apply_all-IsTable os (apply o s) (apply-IsTable o s t)
