-- ===== src/Runtime/Solve.antt =====
-- src/mlat_reference/runtime.py: from a correlated group to a stored position. The solver is an
-- argument, which may raise.
use aircraft_malt.Prelude.{
  ℕ, ◌+◌, Option, none, some, List, [], ◌∷◌, Str, Dict, lookup, length, take, drop, ltb, leb,
  all_of, suc, pos, if◌then◌else◌,
}
use aircraft_malt.Float.{Floats}
use aircraft_malt.Value.{Result, Checked, ok, err}
use aircraft_malt.Correlation.Signal.{RawSignal}
use aircraft_malt.Correlation.Correlator.{CorrelatedSignalGroup, correlate}
use aircraft_malt.Ingest.Client.{attempt}
use aircraft_malt.Runtime.State.{
  ReceiverPosition, SignalObservation, AircraftPosition, PositionRow, Database, Runtime,
  push_latency,
}
use aircraft_malt.Runtime.Base.{signal_clock_is_qualified, then_run}

module _ {F : Type 0} where
  -- `build_observation`
  unfoldable pub build_observation : RawSignal F → ReceiverPosition F → SignalObservation F
  build_observation s position = record {
    receiver_id = s.receiver_id;
    timestamp = s.timestamp;
    signal_data = s.message;
    receiver_position = position;
    timestamp_ns = s.timestamp_ns;
  }

  abbrev pub observed :
      RawSignal F
      → Option (ReceiverPosition F)
      → List (SignalObservation F)
      → List (SignalObservation F)
  observed s none rest = rest
  observed s (some position) rest = build_observation s position ∷ rest

  -- `build_observations_from_group`
  unfoldable pub build_observations :
      Dict (ReceiverPosition F) → List (RawSignal F) → List (SignalObservation F)
  unfolding build_observation
  build_observations positions [] = []
  build_observations positions (s ∷ ss) =
      observed s (lookup s.receiver_id positions) (build_observations positions ss)

-- `message[2:8] if len(message) >= 8 else message`
unfoldable pub aircraft_id_of : Str → Str
aircraft_id_of message = if leb 8 (length message) then take 6 (drop 2 message) else message

-- The readings of the clock while one group is processed.
pub record Times (F : Type 0) : Type 0 where
  pub solve_started : F
  pub solve_finished : F
  pub solved_at : F
  pub store_started : F
  pub store_finished : F
  pub stored_at : F

module _ (fl : Floats) {D : Type 0} (db : Database fl.F D)
    (solve_position : List (SignalObservation fl.F) → Result (Option (AircraftPosition fl.F))) where
  open fl use {F, literal, sub, mul}

  abbrev milliseconds : F → F → F
  milliseconds started finished = mul (sub finished started) (literal (pos 1000) 0)

  unfoldable pub position_row : CorrelatedSignalGroup F → AircraftPosition F → PositionRow F
  unfolding aircraft_id_of
  position_row group position = record {
    aircraft_id = aircraft_id_of group.message;
    timestamp = position.timestamp;
    latitude = position.latitude;
    longitude = position.longitude;
    altitude = position.altitude;
    uncertainty = position.uncertainty;
    num_receivers = position.num_receivers;
    receiver_ids = position.receiver_ids;
    residual = position.residual;
    quality_score = position.quality_score;
    quality_bucket = position.quality_bucket;
    solver_method = position.solver_method;
    solver_residual_m = position.solver_residual_m;
    solver_iterations = position.solver_iterations;
    correlation_time_span_s = group.time_span;
    receiver_count = position.receiver_count;
  }

  -- `_store_position`, which catches what the database raises.
  unfoldable pub store_position :
      Times F → CorrelatedSignalGroup F → AircraftPosition F → Runtime F D → Runtime F D
  unfolding position_row push_latency
  store_position t group position r =
      attempt (db.store_position (position_row group position) r.database)
        (λ d. record r {
          database = d;
          store_latencies_ms =
              push_latency (milliseconds t.store_started t.store_finished) r.store_latencies_ms;
          last_store_at = t.stored_at;
        })
        (λ e. r)

  abbrev pub timed : Times F → Runtime F D → Runtime F D
  timed t r = record r {
    solve_latencies_ms =
        push_latency (milliseconds t.solve_started t.solve_finished) r.solve_latencies_ms;
  }

  abbrev pub with_success : Times F → Runtime F D → Runtime F D
  with_success t r = record r {
    successful_solves = r.successful_solves + 1;
    last_position_time = t.solved_at;
    last_successful_solve_at = t.solved_at;
  }

  -- What follows the call of the solver.
  abbrev pub solved :
      Times F
      → CorrelatedSignalGroup F
      → Result (Option (AircraftPosition F))
      → Runtime F D
      → Checked × Runtime F D
  solved t group (err e) r = (err e, r)
  solved t group (ok none) r = (ok tt, record (timed t r) { failed_solves = r.failed_solves + 1 })
  solved t group (ok (some position)) r =
      (ok tt, store_position t group position (with_success t (timed t r)))

  -- The body of `_process_signal_group`, with the receiver cache and the limit on clocks.
  abbrev pub process_with :
      Dict (ReceiverPosition F)
      → F
      → Times F
      → CorrelatedSignalGroup F
      → Runtime F D
      → Checked × Runtime F D
  process_with positions limit t group r =
      let observations = build_observations positions group.signals in
      if ltb (length observations) 4
      then (ok tt, record r { rejected_groups = r.rejected_groups + 1 })
      else if all_of (signal_clock_is_qualified fl limit) group.signals
      then solved t group (solve_position observations)
          (record r { total_positions = r.total_positions + 1 })
      else (ok tt, record r { clock_rejected_groups = r.clock_rejected_groups + 1 })

  -- `_process_signal_group`
  unfoldable pub process_signal_group :
      Times F → CorrelatedSignalGroup F → Runtime F D → Checked × Runtime F D
  unfolding build_observations store_position signal_clock_is_qualified push_latency
  process_signal_group t group r =
      process_with r.receiver_positions r.max_clock_uncertainty_ns t group r

  -- The groups of one round; group number n is processed at the times `at n`.
  unfoldable pub process_groups :
      (ℕ → Times F) → List (CorrelatedSignalGroup F) → Runtime F D → Checked × Runtime F D
  unfolding process_signal_group
  process_groups at [] r = (ok tt, r)
  process_groups at (group ∷ groups) r =
      then_run (process_signal_group (at 0) group r) (process_groups (λ n. at (suc n)) groups)

  -- One round of `_processing_loop`; an exception ends the round, and is logged.
  unfoldable pub processing_round : (ℕ → Times F) → Runtime F D → Runtime F D
  unfolding process_groups correlate
  processing_round at r =
      let (groups, correlator) = correlate fl r.correlator in
      (process_groups at groups (record r { correlator = correlator })).1
