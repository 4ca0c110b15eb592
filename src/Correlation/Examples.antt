-- ===== src/Correlation/Examples.antt =====
-- The correlator at concrete signals: four receivers hear one transmission, one hears another.
use aircraft_malt.Prelude.{
  ℕ, ◌*◌, ◌≤◌, ◌≡◌, refl, true, none, some, List, [], ◌∷◌, ◌++◌, Str, codes, ℤ, pos, All, leb_ℤ,
  keep_if, str_eq, str_in, tally, ◌-ℤ◌, arith,
}
use aircraft_malt.Float.Fixed.{fixed, fixed-IsIeee}
use aircraft_malt.Correlation.Signal.{RawSignal, sort_signals, signal_time_difference_seconds}
use aircraft_malt.Correlation.Quality.{Cluster, signals_of, receiver_count, build_quality_metadata}
use aircraft_malt.Correlation.Correlator.{
  SignalCorrelator, group_id, group_of, add_signal, cluster_by_time, correlate,
}
use aircraft_malt.Correlation.Runs.{all_signals, is_long, IsGreedy, cluster_by_time-runs}
use aircraft_malt.Correlation.Once.{add, find, IsFresh, returned, returned-IsFresh, correlate-twice}
use aircraft_malt.Correlation.Candidates.{new_groups, noted, candidates_now, correlate-new_groups}
use aircraft_malt.Correlation.Order.{HasTime}
use aircraft_malt.Correlation.Disjoint.{signals_in, correlate-disjoint}
use aircraft_malt.Correlation.Buffer.{IsNewest, add_signal-recent}
use aircraft_malt.Correlation.Score.{InUnit, build_quality_metadata-InUnit}
use aircraft_malt.Correlation.Finds.{with_message, HasId, IsTransmission, correlate-finds}

-- A signal at a number of microseconds.
abbrev pub heard : Str → Str → ℕ → RawSignal ℤ
heard receiver message micros = record {
  receiver_id = receiver;
  timestamp = pos (micros * 1000);
  message = message;
  signal_strength = pos 0;
  timestamp_ns = some (pos (micros * 1000));
  clock_synchronized = true;
  clock_source = codes "gps";
  clock_uncertainty_ns = none;
}

abbrev transmission : Cluster ℤ
transmission = record {
  first = heard (codes "b") (codes "8D") 10;
  later =
      heard (codes "a") (codes "8D") 12
      ∷ heard (codes "d") (codes "8D") 13
      ∷ heard (codes "c") (codes "8D") 40
      ∷ [];
}

abbrev pub correlator : SignalCorrelator ℤ
correlator = record {
  time_window = pos 5000000;
  min_receivers = 4;
  buffer_duration = pos 2000000000;
  signal_buffer =
      heard (codes "a") (codes "8D") 12
      ∷ heard (codes "b") (codes "8D") 10
      ∷ heard (codes "a") (codes "8E") 11
      ∷ heard (codes "c") (codes "8D") 40
      ∷ heard (codes "d") (codes "8D") 13
      ∷ [];
  processed_groups = [];
}

transmission-sorted :
    sort_signals fixed (with_message (codes "8D") correlator.signal_buffer)
    ≡ signals_of transmission
unfolding sort_signals str_eq
transmission-sorted = refl

transmission-IsTransmission : IsTransmission fixed 4 (pos 5000000) transmission
unfolding signal_time_difference_seconds receiver_count ◌-ℤ◌ str_eq
transmission-IsTransmission = record {
  within = (refl, (refl, (refl, tt)));
  heard = omega arith;
  short = refl;
}

-- A precise signal at its wall-clock time and a signal without a precise time that is a second
-- older, and yet a single cluster: the difference of wall-clock times is negative.
abbrev undated : RawSignal ℤ
undated = record (heard (codes "b") (codes "8D") 1000000) { timestamp_ns = none }

mixed_cluster :
    cluster_by_time fixed 2
      (pos 5000000)
      (sort_signals fixed (undated ∷ heard (codes "a") (codes "8D") 2000000 ∷ []))
    ≡ record { first = heard (codes "a") (codes "8D") 2000000; later = undated ∷ [] } ∷ []
unfolding cluster_by_time sort_signals ◌-ℤ◌
mixed_cluster = refl

pub All-HasTime : (ss : List (RawSignal ℤ)) → All (HasTime fixed) ss
All-HasTime [] = tt
All-HasTime (s ∷ ss) = (refl, All-HasTime ss)

correlate-finds_example :
    HasId fixed
      (group_id fixed (group_of fixed 4 (pos 5000000) (codes "8D") transmission))
      (correlate fixed correlator).0
unfolding str_in
correlate-finds_example =
    correlate-finds fixed correlator (codes "8D") transmission transmission-sorted
      transmission-IsTransmission refl

correlate-disjoint_example :
    tally (λ s. str_eq s.receiver_id (codes "a")) (signals_in fixed (correlate fixed correlator).0)
    ≤ tally (λ s. str_eq s.receiver_id (codes "a")) correlator.signal_buffer
correlate-disjoint_example =
    correlate-disjoint fixed (λ s. str_eq s.receiver_id (codes "a")) correlator

correlate-twice_example : (correlate fixed (correlate fixed correlator).1).0 ≡ []
correlate-twice_example = correlate-twice fixed correlator

correlate-new_groups_example :
    ((correlate fixed correlator).0
      ≡ new_groups fixed correlator.processed_groups (candidates_now fixed correlator))
    × ((correlate fixed correlator).1 ≡ record correlator {
      processed_groups = noted fixed correlator.processed_groups (correlate fixed correlator).0;
    })
correlate-new_groups_example = correlate-new_groups fixed correlator

returned-IsFresh_example :
    IsFresh fixed [] (returned fixed (find ∷ add undated ∷ find ∷ find ∷ []) correlator)
returned-IsFresh_example = returned-IsFresh fixed (find ∷ add undated ∷ find ∷ find ∷ []) correlator

cluster_by_time-runs_example :
    (runs : List (Cluster ℤ)) × (all_signals runs ≡ signals_of transmission)
    × IsGreedy fixed (pos 5000000) runs
    × (cluster_by_time fixed 4 (pos 5000000) (signals_of transmission) ≡ keep_if (is_long 4) runs)
cluster_by_time-runs_example = cluster_by_time-runs fixed (pos 5000000) 4 (signals_of transmission)

add_signal-recent_example :
    (t : ℤ) × IsNewest fixed t (correlator.signal_buffer ++ undated ∷ [])
    × ((add_signal fixed undated correlator).signal_buffer
        ≡ keep_if
            (λ r. leb_ℤ (t -ℤ pos 2000000000) r.timestamp)
            (correlator.signal_buffer ++ undated ∷ []))
add_signal-recent_example =
    add_signal-recent fixed fixed-IsIeee undated correlator
      (All-HasTime (correlator.signal_buffer ++ undated ∷ []))

build_quality_metadata-InUnit_example :
    InUnit fixed (build_quality_metadata fixed 4 (pos 5000000) transmission).quality_score
build_quality_metadata-InUnit_example =
    build_quality_metadata-InUnit fixed fixed-IsIeee 4 (pos 5000000) transmission
