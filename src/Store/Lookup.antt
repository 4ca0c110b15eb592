-- ===== src/Store/Lookup.antt =====
-- The table of positions as a map from an aircraft and a time to a row.
use aircraft_malt.Prelude.{
  ℕ, ◌+◌, ◌≡◌, refl, inl, inr, Bool, true, false, not, ◌&&◌, Option, none, some, List, [], ◌∷◌,
  ◌++◌, Str, str_eq, str_eq_iff, map, any_of, Bool-cases, arith, if◌then◌else◌,
}
use aircraft_malt.Float.{Floats, IsIeee}
use aircraft_malt.Value.{Result, ok}
use aircraft_malt.Runtime.State.{PositionRow}
use aircraft_malt.Store.Positions.{
  StoredPosition, Positions, publish_position_event, no_null, has_key, same_time, update_row,
  update_existing, first_of, store_position,
}

module _ (fl : Floats) (laws : IsIeee fl) where
  open fl use {F, le}
  open laws use {le_trans}

  -- The row of an aircraft and a time, which are written as they were asked for.
  abbrev at_key : Str → F → Option (StoredPosition F) → Option (PositionRow F)
  at_key a t none = none
  at_key a t (some p) = some (record p.row { aircraft_id = a; timestamp = t })

  abbrev pub value_at : Str → F → List (StoredPosition F) → Option (PositionRow F)
  value_at a t rows = at_key a t (first_of (has_key fl a t) rows)

  abbrev pub is_key_of : Str → F → PositionRow F → Bool
  is_key_of a t r = str_eq r.aircraft_id a && same_time fl r.timestamp t

  same_time_trans :
      (x y z : F) → same_time fl x y ≡ true → same_time fl y z ≡ true → same_time fl x z ≡ true
  same_time_trans x y z h k = ground (arith, h, k, le_trans x y z, le_trans z y x)

  same_time_sym : (x y : F) → same_time fl x y ≡ true → same_time fl y x ≡ true
  same_time_sym x y h = ground arith

  key-forth :
      (a : Str) (t : F) (r : PositionRow F) (p : StoredPosition F)
      → has_key fl r.aircraft_id r.timestamp p ≡ true
      → is_key_of a t r ≡ true
      → has_key fl a t p ≡ true
  key-forth a t r p h k = ground (
    arith,
    same_time_trans p.row.timestamp r.timestamp t,
    str_eq_iff p.row.aircraft_id r.aircraft_id,
    str_eq_iff r.aircraft_id a,
    str_eq_iff p.row.aircraft_id a,
  )

  key-back :
      (a : Str) (t : F) (r : PositionRow F) (p : StoredPosition F)
      → has_key fl a t p ≡ true
      → is_key_of a t r ≡ true
      → has_key fl r.aircraft_id r.timestamp p ≡ true
  key-back a t r p h k = ground (
    arith,
    same_time_trans p.row.timestamp t r.timestamp,
    same_time_sym r.timestamp t,
    str_eq_iff p.row.aircraft_id r.aircraft_id,
    str_eq_iff r.aircraft_id a,
    str_eq_iff p.row.aircraft_id a,
  )

  key-same :
      (a : Str) (t : F) (r : PositionRow F) (p : StoredPosition F)
      → has_key fl a t p ≡ true
      → has_key fl r.aircraft_id r.timestamp p ≡ true
      → is_key_of a t r ≡ true
  key-same a t r p h k = ground (
    arith,
    same_time_trans r.timestamp p.row.timestamp t,
    same_time_sym p.row.timestamp r.timestamp,
    str_eq_iff p.row.aircraft_id r.aircraft_id,
    str_eq_iff r.aircraft_id a,
    str_eq_iff p.row.aircraft_id a,
  )

  module _ (a : Str) (t : F) (r : PositionRow F) (created_at : Str) where
    abbrev written : Option (PositionRow F)
    written = some (record r { aircraft_id = a; timestamp = t })

    inserted-value :
        (id : ℕ) (rows : List (StoredPosition F))
        → any_of (has_key fl r.aircraft_id r.timestamp) rows ≡ false
        → value_at a t (rows ++ record { id = id; row = r; created_at = created_at } ∷ [])
          ≡ (if is_key_of a t r then written else value_at a t rows)
    inserted-value id [] h = elim (Bool-cases (is_key_of a t r)) [
      | inl e ↦ rw e refl
      | inr e ↦ rw e refl
    ]
    inserted-value id (p ∷ ps) h = elim (Bool-cases (has_key fl a t p)) [
      | inl e ↦
          (let other : is_key_of a t r ≡ false = ground (arith, h, e, key-back a t r p) in
            rw (e, other) refl)
      | inr e ↦ rw e (inserted-value id ps (ground (arith, h)))
    ]

    updated-value :
        (rows : List (StoredPosition F))
        → is_key_of a t r ≡ true
        → any_of (has_key fl r.aircraft_id r.timestamp) rows ≡ true
        → value_at a t (map (update_row fl r created_at) rows) ≡ written
    updated-value [] k h = cc
    updated-value (p ∷ ps) k h = elim (Bool-cases (has_key fl r.aircraft_id r.timestamp p)) [
      | inl e ↦ rw (e, key-forth a t r p e k) refl
      | inr e ↦
          (let other : has_key fl a t p ≡ false = ground (arith, e, k, key-back a t r p) in
            rw (e, other) (updated-value ps k (ground (arith, h, e))))
    ]

    kept-value :
        (rows : List (StoredPosition F))
        → is_key_of a t r ≡ false
        → value_at a t (map (update_row fl r created_at) rows) ≡ value_at a t rows
    kept-value [] k = refl
    kept-value (p ∷ ps) k = elim (Bool-cases (has_key fl a t p)) [
      | inl e ↦
          (let other : has_key fl r.aircraft_id r.timestamp p ≡ false =
              ground (arith, e, k, key-same a t r p) in
            rw (other, e) refl)
      | inr e ↦ elim (Bool-cases (has_key fl r.aircraft_id r.timestamp p)) [
        | inl u ↦ rw (u, e) (kept-value ps k)
        | inr u ↦ rw (u, e) (kept-value ps k)
      ]
    ]

  first_of-any :
      (p : StoredPosition F → Bool) (rows : List (StoredPosition F))
      → any_of p rows ≡ true
      → (q : StoredPosition F) × (first_of p rows ≡ some q)
  first_of-any p [] h = cc
  first_of-any p (q ∷ qs) h = elim (Bool-cases (p q)) [
    | inl e ↦ (q, rw e refl)
    | inr e ↦ rw e (first_of-any p qs (ground (arith, h, e)))
  ]

  -- What a call leaves beside the rows: a row that can be stored has an id, which is returned and
  -- published; otherwise nothing changes.
  abbrev pub IsPublished : Bool → Positions F → Result (Option ℕ) × Positions F → Type 0
  IsPublished true s (result, s') =
      (id : ℕ) × (result ≡ ok (some id)) × (s'.events ≡ s.events ++ id ∷ [])
  IsPublished false s (result, s') = s' ≡ s

  module _ (a : Str) (t : F) (r : PositionRow F) (created_at : Str) (s : Positions F) where
    abbrev pub IsWritten : Bool → Result (Option ℕ) × Positions F → Type 0
    IsWritten storable outcome =
        (value_at a t outcome.1.rows
          ≡ (if storable && is_key_of a t r then written a t r created_at else value_at a t s.rows))
        × IsPublished storable s outcome

    update-IsWritten :
        (found : Option (StoredPosition F))
        → (no_null fl r ≡ true
            → (any_of (has_key fl r.aircraft_id r.timestamp) s.rows ≡ true)
              × ((q : StoredPosition F) × (found ≡ some q)))
        → IsWritten (no_null fl r) (update_existing fl r created_at found s)
    unfolding publish_position_event
    update-IsWritten none h = elim (Bool-cases (no_null fl r)) [
      | inl e ↦ absurd (let (q, k) = (h e).1 in cc)
      | inr e ↦ rw e (refl, refl)
    ]
    update-IsWritten (some p) h = elim (Bool-cases (no_null fl r)) [
      | inr e ↦ rw e (refl, refl)
      | inl e ↦ rw e (elim (Bool-cases (is_key_of a t r)) [
        | inl k ↦ rw k (updated-value a t r created_at s.rows k (h e).0, (p.id, refl, refl))
        | inr k ↦ rw k (kept-value a t r created_at s.rows k, (p.id, refl, refl))
      ])
    ]

    -- A call of `store_position` writes its row at its aircraft and time, whether or not there was
    -- one, leaves the rows of other aircraft or times as they were, and publishes the id that it
    -- returns; a row with a value that SQLite has no number for changes nothing.
    pub store_position-IsWritten : IsWritten (no_null fl r) (store_position fl r created_at s)
    unfolding store_position publish_position_event
    store_position-IsWritten =
        let key = has_key fl r.aircraft_id r.timestamp in
        elim (Bool-cases (no_null fl r && not (any_of key s.rows))) [
          | inl e ↦
              (let storable : no_null fl r ≡ true = ground (arith, e) in
                let fresh : any_of key s.rows ≡ false = ground (arith, e) in
                rw (storable, fresh)
                  (
                    inserted-value a t r created_at (s.last_id + 1) s.rows fresh,
                    (s.last_id + 1, refl, refl),
                  ))
          | inr e ↦ rw e (
              update-IsWritten (first_of key s.rows) (λ storable.
                (let taken : any_of key s.rows ≡ true = ground (arith, e, storable) in
                  (taken, first_of-any key s.rows taken))))
        ]
