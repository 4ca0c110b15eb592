-- ===== src/Runtime/Examples.antt =====
-- The runtime at concrete groups and receivers.
use aircraft_malt.Prelude.{
  ℕ, arith, ◌||◌, remove, ◌≤◌, ◌≡◌, refl, ap, true, false, Option, none, some, List, [], ◌∷◌, Str,
  codes, lookup, insert, str_eq, str_in, pos, ℤ, All, length, map, tests,
}
use mathlib.Core.Path.{subst}
use aircraft_malt.Float.Fixed.{fixed, fixed-IsIeee}
use aircraft_malt.Value.{int, Result, ok, err, overflow_error}
use aircraft_malt.Correlation.Signal.{RawSignal}
use aircraft_malt.Correlation.Correlator.{CorrelatedSignalGroup, correlate}
use aircraft_malt.Correlation.Examples.{correlator, All-HasTime}
use aircraft_malt.Registry.Identity.{lower_char}
use aircraft_malt.Ingest.Examples.{demo, config_with, new_client, never_equal}
use aircraft_malt.Ingest.Refresh.{IsEligible}
use aircraft_malt.Runtime.State.{
  ReceiverPosition, SignalObservation, AircraftPosition, Database, Runtime,
}
use aircraft_malt.Runtime.Base.{cache_receiver_positions}
use aircraft_malt.Runtime.Refresh.{registry_refresh_round}
use aircraft_malt.Runtime.Solve.{Times, position_row, process_groups, processing_round}
use aircraft_malt.Runtime.Counts.{IsCounted, process_groups-IsCounted}
use aircraft_malt.Runtime.Stored.{IsSolved, processing_round-kept}
use aircraft_malt.Runtime.Keys.{has}
use aircraft_malt.Runtime.Cached.{IsSynchronized, cache_receiver_positions-IsSynchronized}
use aircraft_malt.Runtime.Heard.{
  Event, heard, processed, renewed, act_all, IsHeard, act_all-IsHeard,
}
use aircraft_malt.Runtime.Current.{IsCurrent, registry_refresh_round-IsCurrent}

-- A database that keeps how many receivers each stored position has, and a solver that counts them.
abbrev counting : Database ℤ (List ℕ)
counting = record {
  store_receiver = λ row d. ok d;
  delete_receivers = λ ids d. ok d;
  delete_registry_receivers_except = λ ids d. err overflow_error;
  touch_receiver = λ id now d. ok d;
  store_position = λ row d. ok (row.num_receivers ∷ d);
}

abbrev position : ℕ → AircraftPosition ℤ
position n = record {
  latitude = pos 1;
  longitude = pos 2;
  altitude = pos 3;
  timestamp = pos 4;
  uncertainty = pos 5;
  num_receivers = n;
  receiver_ids = [];
  residual = pos 0;
  iterations = 1;
  method = codes "m";
  quality_score = pos 0;
  quality_bucket = codes "poor";
  solver_method = codes "m";
  solver_residual_m = pos 0;
  solver_iterations = 1;
  correlation_time_span_s = pos 0;
  receiver_count = n;
  timestamp_ns = none;
}

abbrev solver : List (SignalObservation ℤ) → Result (Option (AircraftPosition ℤ))
solver observations = ok (some (position (length observations)))

abbrev at : ℕ → Times ℤ
at n = record {
  solve_started = pos n;
  solve_finished = pos n;
  solved_at = pos n;
  store_started = pos n;
  store_finished = pos n;
  stored_at = pos n;
}

abbrev place : Str → Str × ReceiverPosition ℤ
place id = (
  id,
  record {
    latitude = int false 1;
    longitude = int false 2;
    altitude = int false 3;
    receiver_id = id;
  },
)

abbrev disciplined : RawSignal ℤ → RawSignal ℤ
disciplined s = record s { clock_uncertainty_ns = some (pos 50) }

abbrev runtime : Runtime ℤ (List ℕ)
runtime = record {
  network_client = new_client;
  correlator = record correlator { signal_buffer = map disciplined correlator.signal_buffer };
  receiver_positions =
      place (codes "a") ∷ place (codes "b") ∷ place (codes "c") ∷ place (codes "d") ∷ [];
  last_signal_at = pos 0;
  last_signal_age_s = none;
  last_receiver_id = none;
  last_message = none;
  ingest_latencies_ms = [];
  solve_latencies_ms = [];
  store_latencies_ms = [];
  rejected_groups = 0;
  clock_rejected_groups = 0;
  receiver_clock_status = [];
  max_clock_uncertainty_ns = pos 100;
  last_successful_solve_at = pos 0;
  last_store_at = pos 0;
  receiver_heartbeat_persisted_at = [];
  total_signals = 0;
  total_positions = 0;
  successful_solves = 0;
  failed_solves = 0;
  last_position_time = pos 0;
  database = [];
}

abbrev FromFour : List ℕ → Type 0
FromFour d = All (λ n. 4 ≤ n) d

abbrev receivers_of : Result (Option (AircraftPosition ℤ)) → ℕ
receivers_of (ok (some p)) = p.num_receivers
receivers_of (ok none) = 0
receivers_of (err e) = 0

abbrev stored_in : Result (List ℕ) → List ℕ
stored_in (ok d) = d
stored_in (err e) = []

keeps_four :
    (group : CorrelatedSignalGroup ℤ) (p : AircraftPosition ℤ) (d d' : List ℕ)
    → IsSolved fixed counting solver runtime.receiver_positions (pos 100) group p
    → counting.store_position (position_row fixed counting solver group p) d ≡ ok d'
    → FromFour d
    → FromFour d'
unfolding position_row
keeps_four group p d d' solved stored h =
    let found = ap receivers_of solved.answer in
    let many : 4 ≤ p.num_receivers = grind (tests, solved.enough, found) in
    subst FromFour (ap stored_in stored) (many, h)

stored_once : (processing_round fixed counting solver at runtime).database ≡ 4 ∷ []
unfolding processing_round str_eq lookup str_in insert lower_char
stored_once = refl

process_groups-IsCounted_example :
    IsCounted 1 runtime
      (process_groups fixed counting solver at (correlate fixed runtime.correlator).0 runtime)
unfolding correlate str_eq lookup insert str_in
process_groups-IsCounted_example =
    process_groups-IsCounted fixed counting solver at (correlate fixed runtime.correlator).0 runtime

cache_receiver_positions-IsSynchronized_example :
    IsSynchronized
      (cache_receiver_positions fixed counting (λ v. ok (pos 1)) (λ v. codes "{}") runtime)
cache_receiver_positions-IsSynchronized_example =
    cache_receiver_positions-IsSynchronized fixed counting (λ v. ok (pos 1)) (λ v. codes "{}")
      runtime

registry_refresh_round-IsCurrent_example : IsCurrent (IsEligible (λ r. ⊥) 0) (
    registry_refresh_round fixed
      (config_with true (codes "auto"))
      never_equal
      demo
      counting
      (λ v. ok (pos 1))
      (λ v. codes "{}")
      (pos 0)
      (pos 1)
      (pos 2)
      (err overflow_error)
      runtime)
unfolding str_eq
registry_refresh_round-IsCurrent_example =
    registry_refresh_round-IsCurrent fixed (config_with true (codes "auto")) never_equal demo
      (refl, (refl, tt)) counting (λ v. ok (pos 1)) (λ v. codes "{}") (λ r. ⊥) (pos 0) (pos 1)
      (pos 2) (err overflow_error) runtime refl tt

processing_round-kept_example :
    FromFour (processing_round fixed counting solver at runtime).database
processing_round-kept_example =
    processing_round-kept fixed fixed-IsIeee counting solver runtime FromFour
      (λ group p d d' from solved stored h. keeps_four group p d d' solved stored h) at
      (All-HasTime runtime.correlator.signal_buffer) tt

abbrev signal : Str → RawSignal ℤ
signal id = record {
  receiver_id = id;
  timestamp = pos 9000;
  message = codes "8D";
  signal_strength = pos 0;
  timestamp_ns = some (pos 9000);
  clock_synchronized = true;
  clock_source = codes "gps";
  clock_uncertainty_ns = none;
}

abbrev IsKnown : Str → Type 0
IsKnown j = (has j runtime.receiver_positions || has j new_client.active_receivers) ≡ true

abbrev events : List (Event fixed counting solver)
events =
    heard (pos 9) (pos 9) (disciplined (signal (codes "a")))
    ∷ heard (pos 9) (pos 9) (signal (codes "z"))
    ∷ renewed new_client
    ∷ processed at
    ∷ []

-- The first signal is kept, and the second, of an unknown receiver, is not.
kept_signals :
    length
      (act_all fixed counting solver
        (λ v. ok (pos 1))
        (λ v. codes "{}")
        events
        runtime).correlator.signal_buffer
    ≡ 6
unfolding act_all str_eq lookup str_in insert lower_char remove
kept_signals = refl

act_all-IsHeard_example :
    IsHeard fixed counting solver
      (λ v. ok (pos 1))
      (λ v. codes "{}")
      IsKnown
      (act_all fixed counting solver (λ v. ok (pos 1)) (λ v. codes "{}") events runtime)
unfolding lookup str_eq
act_all-IsHeard_example =
    act_all-IsHeard fixed counting solver (λ v. ok (pos 1)) (λ v. codes "{}") IsKnown events runtime
      (tt, (tt, ((λ j k. ground (arith, k)), (tt, tt))))
      (record {
        cached = λ j k. ground (arith, k);
        buffered = (refl, (refl, (refl, (refl, (refl, tt)))));
      })
