-- ===== src/Runtime/State.antt =====
-- src/mlat_reference/base.py and src/mlat_reference/runtime.py: the state of a
-- `ProductionMLATSystem` and what it hands to its database and its solver, src/mlat_reference/
-- solver/robust.py: the records of the solver.
use aircraft_malt.Prelude.{
  ℕ, ◌+◌, ◌-◌, Bool, Option, List, [], ◌∷◌, ◌++◌, Str, Dict, ℤ, length, drop,
}
use aircraft_malt.Value.{Value, Result}
use aircraft_malt.Correlation.Correlator.{SignalCorrelator}
use aircraft_malt.Ingest.Client.{NetworkClient}

pub record ReceiverPosition (F : Type 0) : Type 0 where
  pub latitude : Value F
  pub longitude : Value F
  pub altitude : Value F
  pub receiver_id : Str

pub record SignalObservation (F : Type 0) : Type 0 where
  pub receiver_id : Str
  pub timestamp : F
  pub signal_data : Str
  pub receiver_position : ReceiverPosition F
  pub timestamp_ns : Option ℤ

pub record AircraftPosition (F : Type 0) : Type 0 where
  pub latitude : F
  pub longitude : F
  pub altitude : F
  pub timestamp : F
  pub uncertainty : F
  pub num_receivers : ℕ
  pub receiver_ids : List Str
  pub residual : F
  pub iterations : ℕ
  pub method : Str
  pub quality_score : F
  pub quality_bucket : Str
  pub solver_method : Str
  pub solver_residual_m : F
  pub solver_iterations : ℕ
  pub correlation_time_span_s : F
  pub receiver_count : ℕ
  pub timestamp_ns : Option ℤ

-- The arguments of `database.store_position`.
pub record PositionRow (F : Type 0) : Type 0 where
  pub aircraft_id : Str
  pub timestamp : F
  pub latitude : F
  pub longitude : F
  pub altitude : F
  pub uncertainty : F
  pub num_receivers : ℕ
  pub receiver_ids : List Str
  pub residual : F
  pub quality_score : F
  pub quality_bucket : Str
  pub solver_method : Str
  pub solver_residual_m : F
  pub solver_iterations : ℕ
  pub correlation_time_span_s : F
  pub receiver_count : ℕ

-- The arguments of `database.store_receiver`.
pub record ReceiverRow (F : Type 0) : Type 0 where
  pub receiver_id : Str
  pub receiver_identity : Option Str
  pub data_source : Str
  pub latitude : Value F
  pub longitude : Value F
  pub altitude : Value F
  pub status : Value F
  pub last_seen : F
  pub capabilities : Value F
  pub receiver_label : Value F
  pub registry_sequence : ℤ
  pub registry_updated_at : ℕ
  pub owner_lock_args : Value F
  pub owner_lock : Str
  pub registry_out_point : Str
  pub metadata_hash : Value F

-- What the runtime calls of its database, whose contents are a `D`.
pub record Database (F D : Type 0) : Type 0 where
  pub store_receiver : ReceiverRow F → D → Result D
  pub delete_receivers : List Str → D → Result D
  pub delete_registry_receivers_except : List Str → D → Result D
  pub touch_receiver : Str → F → D → Result D
  pub store_position : PositionRow F → D → Result D

pub record Runtime (F D : Type 0) : Type 0 where
  pub network_client : NetworkClient F
  pub correlator : SignalCorrelator F
  pub receiver_positions : Dict (ReceiverPosition F)
  pub last_signal_at : F
  pub last_signal_age_s : Option F
  pub last_receiver_id : Option Str
  pub last_message : Option Str
  pub ingest_latencies_ms : List F
  pub solve_latencies_ms : List F
  pub store_latencies_ms : List F
  pub rejected_groups : ℕ
  pub clock_rejected_groups : ℕ
  pub receiver_clock_status : Dict Bool
  pub max_clock_uncertainty_ns : F
  pub last_successful_solve_at : F
  pub last_store_at : F
  pub receiver_heartbeat_persisted_at : Dict F
  pub total_signals : ℕ
  pub total_positions : ℕ
  pub successful_solves : ℕ
  pub failed_solves : ℕ
  pub last_position_time : F
  pub database : D

-- `append` on a `deque(maxlen=1000)`
unfoldable pub push_latency {ℓ} : {A : Type ℓ} → A → List A → List A
push_latency x xs = drop (length xs + 1 - 1000) (xs ++ x ∷ [])
