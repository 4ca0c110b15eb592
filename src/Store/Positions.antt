-- ===== src/Store/Positions.antt =====
-- src/mlat_reference/database/database.py: the table `positions` with the queue of its events. A
-- table is the list of its rows in the order of their insertion. A NaN is NULL to SQLite, which no
-- column takes.
use aircraft_malt.Prelude.{
  ℕ, ◌+◌, Bool, not, ◌&&◌, Option, none, some, List, [], ◌∷◌, ◌++◌, Str, ltb, ◌==◌, str_eq, take,
  keep_if, map, any_of, all_of, sort_with, if◌then◌else◌,
}
use aircraft_malt.Float.{Floats}
use aircraft_malt.Value.{Result, ok, err, integrity_error}
use aircraft_malt.Runtime.State.{PositionRow}

-- The list of receivers in the row stands for its JSON text.
pub record StoredPosition (F : Type 0) : Type 0 where
  pub id : ℕ
  pub row : PositionRow F
  pub created_at : Str

-- `last_id` is the largest id that AUTOINCREMENT has given.
pub record Positions (F : Type 0) : Type 0 where
  pub rows : List (StoredPosition F)
  pub last_id : ℕ
  pub events : List ℕ

-- `cursor.fetchone()`, of the rows that pass a test
abbrev pub first_of {ℓ} : {A : Type ℓ} → (A → Bool) → List A → Option A
first_of p [] = none
first_of p (x ∷ xs) = let rest = first_of p xs in if p x then some x else rest

module _ {F : Type 0} where
  abbrev pub by_id : StoredPosition F → StoredPosition F → Bool
  by_id p q = ltb p.id q.id

  -- `publish_position_event`
  unfoldable pub publish_position_event : ℕ → Positions F → Positions F
  publish_position_event id s = record s { events = s.events ++ id ∷ [] }

  -- `get_positions_after_id`
  unfoldable pub get_positions_after_id : ℕ → ℕ → Positions F → List (StoredPosition F)
  unfolding sort_with
  get_positions_after_id last_id limit s =
      take limit (sort_with by_id (keep_if (λ p. ltb last_id p.id) s.rows))

  -- `get_position_by_id`
  unfoldable pub get_position_by_id : ℕ → Positions F → Option (StoredPosition F)
  get_position_by_id id s = first_of (λ p. p.id == id) s.rows

module _ (fl : Floats) where
  open fl use {F, le, lt, sub}

  abbrev pub is_number : F → Bool
  is_number x = le x x

  -- SQLite's `=` on REAL
  abbrev pub same_time : F → F → Bool
  same_time x y = le x y && le y x

  -- `WHERE aircraft_id = ? AND timestamp = ?`
  abbrev pub has_key : Str → F → StoredPosition F → Bool
  has_key aircraft_id timestamp p =
      str_eq p.row.aircraft_id aircraft_id && same_time p.row.timestamp timestamp

  -- No value that is bound to a column is NULL.
  unfoldable pub no_null : PositionRow F → Bool
  no_null r = all_of is_number (
      r.timestamp ∷ r.latitude ∷ r.longitude ∷ r.altitude ∷ r.uncertainty ∷ r.residual
      ∷ r.quality_score ∷ r.solver_residual_m ∷ r.correlation_time_span_s ∷ [])

  -- The `SET` clause leaves the key.
  abbrev pub overwritten : PositionRow F → Str → StoredPosition F → StoredPosition F
  overwritten r created_at p = record p {
    row = record r { aircraft_id = p.row.aircraft_id; timestamp = p.row.timestamp };
    created_at = created_at;
  }

  abbrev pub update_row : PositionRow F → Str → StoredPosition F → StoredPosition F
  update_row r created_at p =
      if has_key r.aircraft_id r.timestamp p then overwritten r created_at p else p

  -- The `except sqlite3.IntegrityError` block, with the row that the SELECT found.
  abbrev pub update_existing :
      PositionRow F
      → Str
      → Option (StoredPosition F)
      → Positions F
      → Result (Option ℕ) × Positions F
  update_existing r created_at none s = (ok none, s)
  update_existing r created_at (some p) s =
      if no_null r
      then (
        ok (some p.id),
        publish_position_event p.id (record s { rows = map (update_row r created_at) s.rows }),
      )
      else (err integrity_error, s)

  -- What the `try` block does if no constraint is violated.
  abbrev pub insert_new : PositionRow F → Str → Positions F → Positions F
  insert_new r created_at s = publish_position_event (s.last_id + 1) (record s {
    rows = s.rows ++ record { id = s.last_id + 1; row = r; created_at = created_at } ∷ [];
    last_id = s.last_id + 1;
  })

  -- `store_position`
  unfoldable pub store_position :
      PositionRow F → Str → Positions F → Result (Option ℕ) × Positions F
  unfolding no_null publish_position_event
  store_position r created_at s =
      if no_null r && not (any_of (has_key r.aircraft_id r.timestamp) s.rows)
      then (ok (some (s.last_id + 1)), insert_new r created_at s)
      else update_existing r created_at (first_of (has_key r.aircraft_id r.timestamp) s.rows) s

  -- `DELETE FROM positions WHERE timestamp < ?`
  unfoldable pub delete_before : F → Positions F → Positions F
  delete_before cutoff s = record s { rows = keep_if (λ p. not (lt p.row.timestamp cutoff)) s.rows }

  -- `get_recent_positions`, at the time `now`
  unfoldable pub get_recent_positions : F → F → ℕ → Positions F → List (StoredPosition F)
  unfolding sort_with
  get_recent_positions now seconds limit s = take limit (
      sort_with (λ p q. lt q.row.timestamp p.row.timestamp)
        (keep_if (λ p. le (sub now seconds) p.row.timestamp) s.rows))
