-- ===== src/Correlation/Runs.antt =====
-- The clusters of `_cluster_by_time` are the long ones among the runs that a greedy split makes.
use aircraft_malt.Prelude.{
  ℕ, ◌≤◌, ◌≡◌, refl, inl, inr, Bool, true, false, List, [], ◌∷◌, ◌++◌, leb, length, All, All-append,
  keep_if, tally, tally-append, arith, Bool-cases, if◌then◌else◌,
}
use mathlib.Core.List.{append_assoc}
use aircraft_malt.Float.{Floats}
use aircraft_malt.Correlation.Signal.{RawSignal, signal_time_difference_seconds}
use aircraft_malt.Correlation.Quality.{Cluster, signals_of}
use aircraft_malt.Correlation.Correlator.{cluster_loop, cluster_by_time}

module _ {F : Type 0} where
  -- The signals of some clusters, one after the other.
  abbrev pub all_signals : List (Cluster F) → List (RawSignal F)
  all_signals [] = []
  all_signals (c ∷ cs) = signals_of c ++ all_signals cs

  abbrev pub is_long : ℕ → Cluster F → Bool
  is_long min_receivers c = leb min_receivers (length (signals_of c))

  -- A part of some clusters has no signal more often than all of them.
  pub tally-keep_if :
      (p : RawSignal F → Bool) (keep : Cluster F → Bool) (cs : List (Cluster F))
      → tally p (all_signals (keep_if keep cs)) ≤ tally p (all_signals cs)
  tally-keep_if p keep [] = omega arith
  tally-keep_if p keep (c ∷ cs) = elim (Bool-cases (keep c)) [
    | inl e ↦ rw e (
        omega (
          arith,
          tally-keep_if p keep cs,
          tally-append p c.later (all_signals (keep_if keep cs)),
          tally-append p c.later (all_signals cs),
        ))
    | inr e ↦ rw e (omega (arith, tally-keep_if p keep cs, tally-append p c.later (all_signals cs)))
  ]

module _ (fl : Floats) (time_window : fl.F) where
  open fl use {F, le}

  -- A run has the signal, if it begins with `first`.
  abbrev pub is_within : RawSignal F → RawSignal F → Bool
  is_within first s = le (signal_time_difference_seconds fl first s) time_window

  -- The next run begins with a signal outside the window.
  abbrev Parted : RawSignal F → List (Cluster F) → Type 0
  Parted first [] = Unit
  Parted first (c ∷ cs) = is_within first c.first ≡ false

  -- Each run has the signals within the window of its first, and as many as it can.
  abbrev pub IsGreedy : List (Cluster F) → Type 0
  IsGreedy [] = Unit
  IsGreedy (c ∷ cs) =
      All (λ s. is_within c.first s ≡ true) c.later × Parted c.first cs × IsGreedy cs

  runs_loop : RawSignal F → List (RawSignal F) → List (RawSignal F) → List (Cluster F)
  runs_loop first later [] = record { first = first; later = later } ∷ []
  runs_loop first later (s ∷ ss) =
      let joined = runs_loop first (later ++ s ∷ []) ss in
      let parted = record { first = first; later = later } ∷ runs_loop s [] ss in
      if is_within first s then joined else parted

  Parted-runs_loop :
      (first s : RawSignal F) (later ss : List (RawSignal F))
      → is_within first s ≡ false
      → Parted first (runs_loop s later ss)
  unfolding runs_loop
  Parted-runs_loop first s later [] h = h
  Parted-runs_loop first s later (t ∷ ss) h = elim (Bool-cases (is_within s t)) [
    | inl e ↦ rw e (Parted-runs_loop first s (later ++ t ∷ []) ss h)
    | inr e ↦ rw e h
  ]

  runs_loop-IsGreedy :
      (first : RawSignal F) (later ss : List (RawSignal F))
      → All (λ s. is_within first s ≡ true) later
      → IsGreedy (runs_loop first later ss)
  unfolding runs_loop
  runs_loop-IsGreedy first later [] h = (h, tt, tt)
  runs_loop-IsGreedy first later (s ∷ ss) h = elim (Bool-cases (is_within first s)) [
    | inl e ↦
        rw e (runs_loop-IsGreedy first (later ++ s ∷ []) ss (All-append _ later (s ∷ []) h (e, tt)))
    | inr e ↦ rw e (h, Parted-runs_loop first s [] ss e, runs_loop-IsGreedy s [] ss tt)
  ]

  runs_loop-all :
      (first : RawSignal F) (later ss : List (RawSignal F))
      → all_signals (runs_loop first later ss) ≡ first ∷ (later ++ ss)
  unfolding runs_loop
  runs_loop-all first later [] = refl
  runs_loop-all first later (s ∷ ss) = elim (Bool-cases (is_within first s)) [
    | inl e ↦ rw (e, runs_loop-all first (later ++ s ∷ []) ss, append_assoc)
    | inr e ↦ rw (e, runs_loop-all s [] ss)
  ]

  cluster_loop-runs :
      (min_receivers : ℕ) (first : RawSignal F) (later ss : List (RawSignal F))
      → cluster_loop fl min_receivers time_window first later ss
        ≡ keep_if (is_long min_receivers) (runs_loop first later ss)
  unfolding cluster_loop runs_loop
  cluster_loop-runs n first later [] = refl
  cluster_loop-runs n first later (s ∷ ss) = elim (Bool-cases (is_within first s)) [
    | inl e ↦ rw e (cluster_loop-runs n first (later ++ s ∷ []) ss)
    | inr e ↦ rw (e, cluster_loop-runs n s [] ss)
  ]

  -- The signals, in their order, fall into runs; each run goes from its first signal to the last
  -- that is still within the time window of that first one. The clusters are the runs with at least
  -- `min_receivers` signals, in order.
  pub cluster_by_time-runs :
      (min_receivers : ℕ) (signals : List (RawSignal F))
      → (runs : List (Cluster F)) × (all_signals runs ≡ signals)
        × IsGreedy runs
        × (cluster_by_time fl min_receivers time_window signals
            ≡ keep_if (is_long min_receivers) runs)
  unfolding cluster_by_time
  cluster_by_time-runs n [] = ([], refl, tt, refl)
  cluster_by_time-runs n (s ∷ ss) = (
    runs_loop s [] ss,
    runs_loop-all s [] ss,
    runs_loop-IsGreedy s [] ss tt,
    cluster_loop-runs n s [] ss,
  )

  -- No signal is in the clusters more often than it was given.
  pub tally-cluster_by_time :
      (p : RawSignal F → Bool) (min_receivers : ℕ) (signals : List (RawSignal F))
      → tally p (all_signals (cluster_by_time fl min_receivers time_window signals))
        ≤ tally p signals
  tally-cluster_by_time p n signals =
      let (runs, all, _, same) = cluster_by_time-runs n signals in
      rw same (rw all at (tally-keep_if p (is_long n) runs))
