-- ===== src/Store/Broadcast.antt =====
-- src/mlat_reference/api/rest_api.py: the loop of `_start_background_broadcaster`, round by round.
use aircraft_malt.Prelude.{ℕ, zero, suc, max, Option, none, some, List, [], ◌∷◌, ◌++◌}
use aircraft_malt.Float.{Floats}
use aircraft_malt.Store.Positions.{
  StoredPosition, Positions, get_positions_after_id, get_position_by_id, get_recent_positions,
}

-- `last_position_id`, and the positions that were broadcast.
pub record Broadcaster (F : Type 0) : Type 0 where
  pub last_position_id : ℕ
  pub sent : List (StoredPosition F)

-- The state that the loop shares with the writers, and its own.
pub record Board (F : Type 0) : Type 0 where
  pub table : Positions F
  pub broadcaster : Broadcaster F

module _ {F : Type 0} where
  -- `last_position_id = max(...)` and `broadcast_position_update`
  unfoldable pub broadcast : StoredPosition F → Broadcaster F → Broadcaster F
  broadcast p b = record { last_position_id = max b.last_position_id p.id; sent = b.sent ++ p ∷ [] }

  unfoldable pub broadcast_all : List (StoredPosition F) → Broadcaster F → Broadcaster F
  unfolding broadcast
  broadcast_all [] b = b
  broadcast_all (p ∷ ps) b = broadcast_all ps (broadcast p b)

  abbrev pub broadcast_found : Option (StoredPosition F) → Broadcaster F → Broadcaster F
  broadcast_found none b = b
  broadcast_found (some p) b = broadcast p b

  -- The state before the loop, from the newest position of the last day.
  abbrev pub newest_id : List (StoredPosition F) → ℕ
  newest_id [] = 0
  newest_id (p ∷ ps) = p.id

  -- `position_queue.get(timeout=1.0)` takes the next event, or finds none in time.
  unfoldable pub take_event : List ℕ → Board F → Board F
  unfolding broadcast_all get_positions_after_id get_position_by_id
  take_event [] s = record s {
    broadcaster =
        broadcast_all (get_positions_after_id s.broadcaster.last_position_id 200 s.table)
          s.broadcaster;
  }
  take_event (id ∷ events) s = record {
    table = record s.table { events = events };
    broadcaster = broadcast_found (get_position_by_id id s.table) s.broadcaster;
  }

  unfoldable pub rounds : ℕ → Board F → Board F
  unfolding take_event
  rounds zero s = s
  rounds (suc n) s = rounds n (take_event s.table.events s)

-- The state in which the loop starts, at the time `now`; `day` is 86400.
unfoldable pub start_broadcaster : (fl : Floats) → fl.F → fl.F → Positions fl.F → Board fl.F
unfolding get_recent_positions
start_broadcaster fl now day s = record {
  table = s;
  broadcaster = record {
    last_position_id = newest_id (get_recent_positions fl now day 1 s);
    sent = [];
  };
}
