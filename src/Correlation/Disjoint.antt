-- ===== src/Correlation/Disjoint.antt =====
-- The returned groups share no signal of the buffer.
use aircraft_malt.Prelude.{
  ℕ, ◌+◌, ◌≤◌, ◌≡◌, refl, ap, inl, inr, Bool, List, [], ◌∷◌, ◌++◌, Str, Dict, lookup, insert,
  str_in, ltb, length, keep_if, map, tally, tally-append, tally-sort_with, arith, Bool-cases,
}
use mathlib.Core.List.{append_assoc}
use aircraft_malt.Float.{Floats}
use aircraft_malt.Correlation.Signal.{RawSignal, signal_before, sort_signals}
use aircraft_malt.Correlation.Quality.{Cluster, CorrelationQuality, signals_of}
use aircraft_malt.Correlation.Correlator.{
  SignalCorrelator, list_of, group_by_message, group_id, measured, group_of, is_valid_cluster,
  cluster_by_time, correlate,
}
use aircraft_malt.Correlation.Runs.{all_signals, tally-keep_if, tally-cluster_by_time}
use aircraft_malt.Correlation.Candidates.{
  Group, new_groups, candidates_in, candidates, correlate-new_groups,
}

module _ (fl : Floats) where
  open fl use {F}

  -- The signals of some groups, one after the other.
  abbrev pub signals_in : List (Group fl) → List (RawSignal F)
  signals_in [] = []
  signals_in (g ∷ gs) = g.signals ++ signals_in gs

  signals_in-append :
      (gs hs : List (Group fl)) → signals_in (gs ++ hs) ≡ signals_in gs ++ signals_in hs
  signals_in-append [] hs = refl
  signals_in-append (g ∷ gs) hs = simp (signals_in-append gs hs, append_assoc)

  measured-signals :
      (message : Str) (ss : List (RawSignal F)) (t : F) (q : CorrelationQuality F)
      → (measured fl message ss t q).signals ≡ ss
  measured-signals message [] t q = refl
  measured-signals message (s ∷ ss) t q = refl

  pub group_of-signals :
      (min_receivers : ℕ) (time_window : F) (message : Str) (c : Cluster F)
      → (group_of fl min_receivers time_window message c).signals ≡ sort_signals fl (signals_of c)
  unfolding group_of
  group_of-signals n w message c = measured-signals message (sort_signals fl (signals_of c)) _ _

  module _ (p : RawSignal F → Bool) where
    tally-sort_signals : (ss : List (RawSignal F)) → tally p (sort_signals fl ss) ≡ tally p ss
    unfolding sort_signals
    tally-sort_signals ss = tally-sort_with (signal_before fl) p ss

    new_groups-le :
        (processed : List Str) (gs : List (Group fl))
        → tally p (signals_in (new_groups fl processed gs)) ≤ tally p (signals_in gs)
    new_groups-le processed [] = omega arith
    new_groups-le processed (g ∷ gs) = elim (Bool-cases (str_in (group_id fl g) processed)) [
      | inl e ↦
          rw e (omega (arith, new_groups-le processed gs, tally-append p g.signals (signals_in gs)))
      | inr e ↦ rw e (
          omega (
            arith,
            new_groups-le (group_id fl g ∷ processed) gs,
            tally-append p g.signals (signals_in gs),
            tally-append p g.signals (signals_in (new_groups fl (group_id fl g ∷ processed) gs)),
          ))
    ]

    module _ (min_receivers : ℕ) (time_window : F) where
      groups_of-tally :
          (message : Str) (cs : List (Cluster F))
          → tally p (signals_in (map (group_of fl min_receivers time_window message) cs))
            ≡ tally p (all_signals cs)
      groups_of-tally message [] = refl
      groups_of-tally message (c ∷ cs) =
          let g = group_of fl min_receivers time_window message c in
          let rest = map (group_of fl min_receivers time_window message) cs in
          omega (
            arith,
            tally-append p g.signals (signals_in rest),
            tally-append p (signals_of c) (all_signals cs),
            groups_of-tally message cs,
            ap (tally p) (group_of-signals min_receivers time_window message c),
            tally-sort_signals (signals_of c),
          )

      candidates_in-le :
          (message : Str) (signals : List (RawSignal F))
          → tally p (signals_in (candidates_in fl min_receivers time_window message signals))
            ≤ tally p signals
      candidates_in-le message signals = elim (Bool-cases (ltb (length signals) min_receivers)) [
        | inl e ↦ rw e (omega arith)
        | inr e ↦
            let cs = cluster_by_time fl min_receivers time_window (sort_signals fl signals) in
            rw e (
              omega (
                arith,
                groups_of-tally message (keep_if (is_valid_cluster fl min_receivers) cs),
                tally-keep_if p (is_valid_cluster fl min_receivers) cs,
                tally-cluster_by_time fl time_window p min_receivers (sort_signals fl signals),
                tally-sort_signals signals,
              ))
      ]

    -- How many of the signals that a dictionary holds pass the test.
    abbrev total : Dict (List (RawSignal F)) → ℕ
    total [] = 0
    total ((message, signals) ∷ d) = tally p signals + total d

    candidates-le :
        (min_receivers : ℕ) (time_window : F) (d : Dict (List (RawSignal F)))
        → tally p (signals_in (candidates fl min_receivers time_window d)) ≤ total d
    candidates-le n w [] = omega arith
    candidates-le n w ((message, signals) ∷ d) =
        let here = candidates_in fl n w message signals in
        omega (
          arith,
          candidates-le n w d,
          candidates_in-le n w message signals,
          ap (tally p) (signals_in-append here (candidates fl n w d)),
          tally-append p (signals_in here) (signals_in (candidates fl n w d)),
        )

    total-insert :
        (k : Str) (new : List (RawSignal F)) (d : Dict (List (RawSignal F)))
        → total (insert k new d) + tally p (list_of (lookup k d)) ≡ total d + tally p new
    unfolding insert lookup
    total-insert k new [] = omega arith
    total-insert k new ((message, signals) ∷ d) = ground (arith, total-insert k new d)

    total-group_by_message :
        (ss : List (RawSignal F)) (d : Dict (List (RawSignal F)))
        → total (group_by_message ss d) ≡ total d + tally p ss
    unfolding group_by_message
    total-group_by_message [] d = omega arith
    total-group_by_message (s ∷ ss) d = omega (
      arith,
      total-group_by_message ss (insert s.message (list_of (lookup s.message d) ++ s ∷ []) d),
      total-insert s.message (list_of (lookup s.message d) ++ s ∷ []) d,
      tally-append p (list_of (lookup s.message d)) (s ∷ []),
    )

    -- Whatever a test asks of a signal, the groups that one call returns have no more signals that
    -- pass it than the buffer has: each buffered signal is in at most one place of one group.
    pub correlate-disjoint :
        (c : SignalCorrelator F) → tally p (signals_in (correlate fl c).0) ≤ tally p c.signal_buffer
    correlate-disjoint c =
        rw ((correlate-new_groups fl c).0)
          (elim (Bool-cases (ltb (length c.signal_buffer) c.min_receivers)) [
            | inl e ↦ rw e (omega arith)
            | inr e ↦
                let d = group_by_message c.signal_buffer [] in
                rw e (
                  omega (
                    arith,
                    new_groups-le c.processed_groups
                        (candidates fl c.min_receivers c.time_window d),
                    candidates-le c.min_receivers c.time_window d,
                    total-group_by_message c.signal_buffer [],
                  ))
          ])
