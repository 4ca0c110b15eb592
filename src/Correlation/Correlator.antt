-- ===== src/Correlation/Correlator.antt =====
-- src/mlat_reference/correlation/correlator.py: `SignalCorrelator`.
use aircraft_malt.Prelude.{
  ℕ, Bool, not, ◌&&◌, Option, none, some, List, [], ◌∷◌, ◌++◌, Str, codes, Dict, lookup, insert,
  str_in, pos, show_int, length, ltb, leb, keep_if, map, if◌then◌else◌,
}
use aircraft_malt.Float.{Floats}
use aircraft_malt.Correlation.Signal.{
  RawSignal, signal_time_difference_seconds, sort_signals, max_all,
}
use aircraft_malt.Correlation.Quality.{
  Cluster, CorrelationQuality, signals_of, last_from, receiver_count, build_quality_metadata,
}

pub record CorrelatedSignalGroup (F : Type 0) : Type 0 where
  pub message : Str
  pub signals : List (RawSignal F)
  pub first_timestamp : F
  pub time_span : F
  pub quality : CorrelationQuality F

-- The settings and the state of a `SignalCorrelator`.
pub record SignalCorrelator (F : Type 0) : Type 0 where
  pub time_window : F
  pub min_receivers : ℕ
  pub buffer_duration : F
  pub signal_buffer : List (RawSignal F)
  pub processed_groups : List Str

-- The list that `correlate` builds, and the identifiers that it has seen.
pub record Collected (F : Type 0) : Type 0 where
  pub groups : List (CorrelatedSignalGroup F)
  pub processed : List Str

module _ {F : Type 0} where
  abbrev pub list_of : Option (List (RawSignal F)) → List (RawSignal F)
  list_of none = []
  list_of (some signals) = signals

  -- `message_groups[signal.message].append(signal)` for each signal
  unfoldable pub group_by_message :
      List (RawSignal F) → Dict (List (RawSignal F)) → Dict (List (RawSignal F))
  group_by_message [] d = d
  group_by_message (s ∷ ss) d =
      group_by_message ss (insert s.message (list_of (lookup s.message d) ++ s ∷ []) d)

module _ (fl : Floats) where
  open fl use {F, le, lt, literal, sub, format_6f}

  -- `_cleanup_old_signals`
  unfoldable pub drop_old : F → List (RawSignal F) → List (RawSignal F)
  drop_old buffer_duration [] = []
  drop_old buffer_duration (s ∷ ss) =
      let newest = max_all fl s.timestamp (map (λ t. t.timestamp) ss) in
      keep_if (λ t. le (sub newest buffer_duration) t.timestamp) (s ∷ ss)

  unfoldable pub cleanup_old_signals : SignalCorrelator F → SignalCorrelator F
  unfolding drop_old
  cleanup_old_signals c = record c { signal_buffer = drop_old c.buffer_duration c.signal_buffer }

  unfoldable pub add_signal : RawSignal F → SignalCorrelator F → SignalCorrelator F
  unfolding cleanup_old_signals
  add_signal s c = cleanup_old_signals (record c { signal_buffer = c.signal_buffer ++ s ∷ [] })

  unfoldable pub add_signals : List (RawSignal F) → SignalCorrelator F → SignalCorrelator F
  unfolding cleanup_old_signals
  add_signals ss c = cleanup_old_signals (record c { signal_buffer = c.signal_buffer ++ ss })

  -- `__post_init__` sorts the signals again, and measures them.
  abbrev pub measured :
      Str → List (RawSignal F) → F → CorrelationQuality F → CorrelatedSignalGroup F
  measured message [] first_timestamp quality = record {
    message = message;
    signals = [];
    first_timestamp = first_timestamp;
    time_span = literal (pos 0) 0;
    quality = quality;
  }
  measured message (s ∷ ss) first_timestamp quality = record {
    message = message;
    signals = s ∷ ss;
    first_timestamp = s.timestamp;
    time_span = signal_time_difference_seconds fl s (last_from s ss);
    quality = quality;
  }

  abbrev timing_id : RawSignal F → F → Str
  timing_id s first_timestamp = elim s.timestamp_ns [
    | some ns ↦ show_int ns
    | none ↦ format_6f first_timestamp
  ]

  -- The identifier of a group; a group that is made of a cluster has a first signal.
  abbrev id_of_signals : Str → List (RawSignal F) → F → Str
  id_of_signals message [] first_timestamp = message ++ codes "_"
  id_of_signals message (s ∷ ss) first_timestamp =
      message ++ (codes "_" ++ timing_id s first_timestamp)

  unfoldable pub group_id : CorrelatedSignalGroup F → Str
  group_id g = id_of_signals g.message g.signals g.first_timestamp

  -- `_is_valid_cluster`
  unfoldable pub is_valid_cluster : ℕ → Cluster F → Bool
  unfolding receiver_count signal_time_difference_seconds
  is_valid_cluster min_receivers c =
      not (ltb (length (signals_of c)) min_receivers)
      && not (ltb (receiver_count (signals_of c)) min_receivers)
      && not (
          lt (literal (pos 10) 3)
            (signal_time_difference_seconds fl c.first (last_from c.first c.later)))

  -- `if group_id not in self.processed_groups: ...`
  unfoldable pub collect_group : CorrelatedSignalGroup F → Collected F → Collected F
  unfolding group_id str_in
  collect_group g found =
      if str_in (group_id g) found.processed
      then found
      else record { groups = found.groups ++ g ∷ []; processed = group_id g ∷ found.processed }

  module _ (min_receivers : ℕ) (time_window : F) where
    -- `if len(current_cluster) >= self.min_receivers: clusters.append(current_cluster)`
    abbrev pub close_cluster :
        RawSignal F → List (RawSignal F) → List (Cluster F) → List (Cluster F)
    close_cluster first later clusters =
        if leb min_receivers (length (first ∷ later))
        then record { first = first; later = later } ∷ clusters
        else clusters

    -- The loop of `_cluster_by_time` on the current cluster, `first` and `later`.
    unfoldable pub cluster_loop :
        RawSignal F → List (RawSignal F) → List (RawSignal F) → List (Cluster F)
    cluster_loop first later [] = close_cluster first later []
    cluster_loop first later (s ∷ ss) =
        let joined = cluster_loop first (later ++ s ∷ []) ss in
        let parted = close_cluster first later (cluster_loop s [] ss) in
        if le (signal_time_difference_seconds fl first s) time_window then joined else parted

    unfoldable pub cluster_by_time : List (RawSignal F) → List (Cluster F)
    unfolding cluster_loop signal_time_difference_seconds
    cluster_by_time [] = []
    cluster_by_time (s ∷ ss) = cluster_loop s [] ss

    -- The group of a valid cluster.
    unfoldable pub group_of : Str → Cluster F → CorrelatedSignalGroup F
    unfolding sort_signals signal_time_difference_seconds build_quality_metadata
    group_of message c =
        measured message (sort_signals fl (signals_of c)) c.first.timestamp
          (build_quality_metadata fl min_receivers time_window c)

    -- The loop over the clusters of a message.
    unfoldable pub collect_clusters : Str → List (Cluster F) → Collected F → Collected F
    unfolding is_valid_cluster group_of collect_group
    collect_clusters message [] found = found
    collect_clusters message (c ∷ cs) found = collect_clusters message cs (
        if is_valid_cluster min_receivers c
        then collect_group (group_of message c) found
        else found)

    -- The body of the loop over `message_groups`.
    unfoldable pub collect_message : Str → List (RawSignal F) → Collected F → Collected F
    unfolding sort_signals cluster_by_time collect_clusters
    collect_message message signals found =
        if ltb (length signals) min_receivers
        then found
        else collect_clusters message (cluster_by_time (sort_signals fl signals)) found

    unfoldable pub collect_messages : Dict (List (RawSignal F)) → Collected F → Collected F
    unfolding collect_message
    collect_messages [] found = found
    collect_messages ((message, signals) ∷ d) found =
        collect_messages d (collect_message message signals found)

  -- `correlate`
  unfoldable pub correlate :
      SignalCorrelator F → List (CorrelatedSignalGroup F) × SignalCorrelator F
  unfolding group_by_message collect_messages
  correlate c =
      if ltb (length c.signal_buffer) c.min_receivers
      then ([], c)
      else (let found =
            collect_messages c.min_receivers c.time_window (group_by_message c.signal_buffer [])
              (record { groups = []; processed = c.processed_groups }) in
          (found.groups, record c { processed_groups = found.processed }))
