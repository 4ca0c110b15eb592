-- ===== src/Store/Examples.antt =====
-- The database and the broadcaster at concrete rows.
use aircraft_malt.Prelude.{
  ℕ, ◌≡◌, refl, arith, true, false, none, map, lookup, insert, str_in, List, [], ◌∷◌, Str, codes,
  str_eq, pos, ℤ,
}
use aircraft_malt.Float.Fixed.{fixed, fixed-IsIeee}
use aircraft_malt.Value.{int, ok}
use aircraft_malt.Discovery.Receiver.{ckb_registry}
use aircraft_malt.Correlation.Examples.{correlator}
use aircraft_malt.Ingest.Examples.{new_client}
use aircraft_malt.Runtime.State.{PositionRow, Runtime}
use aircraft_malt.Runtime.Base.{cache_receiver_positions}
use aircraft_malt.Store.Positions.{StoredPosition, Positions, no_null, store_position}
use aircraft_malt.Store.Invariant.{
  IsTable, Operation, stored, cleaned, consumed, apply_all, apply_all-IsTable,
}
use aircraft_malt.Store.Broadcast.{Broadcaster, rounds}
use aircraft_malt.Store.Delivery.{rounds-sends}
use aircraft_malt.Store.Lookup.{IsWritten, store_position-IsWritten}
use aircraft_malt.Store.Receivers.{
  StoredReceiver, Store, delete_registry_receivers_except, database,
}
use aircraft_malt.Store.Inventory.{IsInventory, cache_receiver_positions-IsInventory}

abbrev row_at : Str → ℕ → PositionRow ℤ
row_at aircraft n = record {
  aircraft_id = aircraft;
  timestamp = pos n;
  latitude = pos 1;
  longitude = pos 2;
  altitude = pos 3;
  uncertainty = pos 4;
  num_receivers = 4;
  receiver_ids = [];
  residual = pos 5;
  quality_score = pos 6;
  quality_bucket = codes "good";
  solver_method = codes "m";
  solver_residual_m = pos 7;
  solver_iterations = 8;
  correlation_time_span_s = pos 9;
  receiver_count = 4;
}

abbrev created : Str
created = codes "2026-01-01T00:00:00"

abbrev empty : Positions ℤ
empty = record { rows = []; last_id = 0; events = [] }

empty-IsTable : IsTable fixed empty
empty-IsTable = record { ordered = tt; bounded = tt; known = tt }

abbrev history : List (Operation fixed)
history =
    stored (row_at (codes "a") 20) created
    ∷ stored (row_at (codes "b") 10) created
    ∷ stored (row_at (codes "a") 20) created
    ∷ consumed
    ∷ cleaned (pos 15)
    ∷ []

apply_all-IsTable_example : IsTable fixed (apply_all fixed history empty)
apply_all-IsTable_example = apply_all-IsTable fixed history empty empty-IsTable

abbrev stored_at : ℕ → Str → ℕ → StoredPosition ℤ
stored_at id aircraft n = record { id = id; row = row_at aircraft n; created_at = created }

abbrev pub table : Positions ℤ
table = record {
  rows = stored_at 1 (codes "a") 20 ∷ stored_at 3 (codes "b") 10 ∷ stored_at 5 (codes "a") 30 ∷ [];
  last_id = 5;
  events = 1 ∷ 2 ∷ 1 ∷ [];
}

table-IsTable : IsTable fixed table
unfolding str_eq
table-IsTable = record {
  ordered =
      (((omega arith, refl), ((omega arith, refl), tt)), (((omega arith, refl), tt), (tt, tt)));
  bounded = (omega arith, (omega arith, (omega arith, tt)));
  known = (omega arith, (omega arith, (omega arith, tt)));
}

abbrev broadcaster : Broadcaster ℤ
broadcaster = record { last_position_id = 1; sent = [] }

rounds-sends_example :
    (rounds 6 (record { table = table; broadcaster = broadcaster })).broadcaster.sent
    ≡ stored_at 1 (codes "a") 20
      ∷ stored_at 1 (codes "a") 20
      ∷ stored_at 3 (codes "b") 10
      ∷ stored_at 5 (codes "a") 30
      ∷ []
rounds-sends_example = rounds-sends fixed 6 table broadcaster table-IsTable (omega arith)

store_position-IsWritten_example :
    IsWritten fixed fixed-IsIeee
      (codes "b")
      (pos 10)
      (row_at (codes "b") 10)
      created
      table
      true
      (store_position fixed (row_at (codes "b") 10) created table)
unfolding no_null
store_position-IsWritten_example =
    store_position-IsWritten fixed fixed-IsIeee (codes "b") (pos 10) (row_at (codes "b") 10) created
      table

-- A receiver of an earlier run, which is not active any more.
abbrev gone : StoredReceiver ℤ
gone = record {
  receiver_identity = codes "0x9";
  data_source = ckb_registry;
  latitude = int false 1;
  longitude = int false 2;
  altitude = int false 3;
  status = int false 0;
  last_seen = pos 4;
  capabilities = codes "[]";
  receiver_label = int false 0;
  registry_sequence = 1;
  registry_sequence_u64 = codes "1";
  registry_updated_at_u64 = codes "0";
  owner_lock_args = int false 0;
  owner_lock = [];
  registry_out_point = [];
  metadata_hash = int false 0;
  updated_at = created;
}

abbrev runtime : Runtime ℤ (Store ℤ)
runtime = record {
  network_client = new_client;
  correlator = correlator;
  receiver_positions = [];
  last_signal_at = pos 0;
  last_signal_age_s = none;
  last_receiver_id = none;
  last_message = none;
  ingest_latencies_ms = [];
  solve_latencies_ms = [];
  store_latencies_ms = [];
  rejected_groups = 0;
  clock_rejected_groups = 0;
  receiver_clock_status = [];
  max_clock_uncertainty_ns = pos 100;
  last_successful_solve_at = pos 0;
  last_store_at = pos 0;
  receiver_heartbeat_persisted_at = [];
  total_signals = 0;
  total_positions = 0;
  successful_solves = 0;
  failed_solves = 0;
  last_position_time = pos 0;
  database = record { positions = empty; receivers = (codes "0x9", gone) ∷ [] };
}

-- The table of receivers after the runtime has cached the two active ones.
stored_keys :
    map
      (λ e. e.0)
      (cache_receiver_positions fixed
        (database fixed (λ v. codes "{}") created)
        (λ v. ok (pos 1))
        (λ v. codes "{}")
        runtime).1.database.receivers
    ≡ codes "0x1" ∷ codes "0x2" ∷ []
unfolding cache_receiver_positions database str_eq lookup insert str_in
    delete_registry_receivers_except
stored_keys = refl

cache_receiver_positions-IsInventory_example : IsInventory new_client.active_receivers (
    cache_receiver_positions fixed
      (database fixed (λ v. codes "{}") created)
      (λ v. ok (pos 1))
      (λ v. codes "{}")
      runtime)
unfolding lookup str_eq
cache_receiver_positions-IsInventory_example =
    cache_receiver_positions-IsInventory fixed (λ v. codes "{}") created (λ v. ok (pos 1)) runtime
      (refl, (refl, tt))
