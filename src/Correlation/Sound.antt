-- ===== src/Correlation/Sound.antt =====
-- What every group that `correlate` returns satisfies.
use aircraft_malt.Prelude.{
  ℕ, ◌≤◌, ◌≡◌, refl, sym, inl, inr, Bool, true, false, List, [], ◌∷◌, ◌++◌, Str, Dict, lookup,
  insert, str_in, str_eq, str_eq_sound, ltb, length, keep_if, keep_if-passes, All, All-append,
  All-append_left, All-append_right, All-keep_if, All-both, All-sort_with, IsSorted,
  sort_with-IsSorted, sort_with-id, map, pos, arith, Bool-cases,
}
use mathlib.Core.Path.{subst}
use aircraft_malt.Float.{Floats, IsIeee}
use aircraft_malt.Correlation.Signal.{
  RawSignal, signal_before, sort_signals, signal_time_difference_seconds,
}
use aircraft_malt.Correlation.Quality.{
  Cluster, CorrelationQuality, signals_of, last_from, receiver_count,
}
use aircraft_malt.Correlation.Correlator.{
  SignalCorrelator, list_of, group_by_message, group_id, measured, group_of, is_valid_cluster,
  cluster_by_time, correlate,
}
use aircraft_malt.Correlation.Runs.{all_signals, is_long, is_within, IsGreedy, cluster_by_time-runs}
use aircraft_malt.Correlation.Candidates.{
  Group, new_groups, candidates_of, candidates_in, candidates, candidates_now, correlate-new_groups,
}
use aircraft_malt.Correlation.Order.{HasTime, signal_before-IsOrder}

module _ {A : Type 0} (before : A → A → Bool) where
  IsSorted-append_left : (xs ys : List A) → IsSorted before (xs ++ ys) → IsSorted before xs
  IsSorted-append_left [] ys h = tt
  IsSorted-append_left (x ∷ xs) ys h = (All-append_left _ xs ys h.0, IsSorted-append_left xs ys h.1)

  IsSorted-append_right : (xs ys : List A) → IsSorted before (xs ++ ys) → IsSorted before ys
  IsSorted-append_right [] ys h = h
  IsSorted-append_right (x ∷ xs) ys h = IsSorted-append_right xs ys h.1

All-map_list :
    {A B : Type 0} (f : A → B) (P : A → Type 0) (Q : B → Type 0)
    → ((a : A) → P a → Q (f a))
    → (xs : List A) → All P xs
    → All Q (map f xs)
All-map_list f P Q move [] h = tt
All-map_list f P Q move (x ∷ xs) h = (move x h.0, All-map_list f P Q move xs h.1)

module _ (fl : Floats) where
  open fl use {F, le, lt, literal}

  -- Every signal is within the window of the first one.
  abbrev pub InWindow : F → List (RawSignal F) → Type 0
  InWindow time_window [] = Unit
  InWindow time_window (s ∷ ss) = All (λ t. is_within fl time_window s t ≡ true) ss

  -- The start and the span are those of the first and the last signal.
  abbrev pub IsMeasured : List (RawSignal F) → F → F → Type 0
  IsMeasured [] start span = ⊥
  IsMeasured (s ∷ ss) start span =
      (start ≡ s.timestamp) × (span ≡ signal_time_difference_seconds fl s (last_from s ss))

  pub record IsGroup (min_receivers : ℕ) (time_window : F) (g : Group fl) : Type 0 where
    pub same_message : All (λ s. s.message ≡ g.message) g.signals
    pub enough_receivers : min_receivers ≤ receiver_count g.signals
    pub in_window : InWindow time_window g.signals
    pub in_order : IsSorted (signal_before fl) g.signals
    pub measured_span : IsMeasured g.signals g.first_timestamp g.time_span
    pub short_span : lt (literal (pos 10) 3) g.time_span ≡ false

  module _ (min_receivers : ℕ) (time_window : F) where
    -- What a cluster of the sorted signals of a message satisfies.
    record IsCluster (message : Str) (c : Cluster F) : Type 0 where
      within : All (λ s. is_within fl time_window c.first s ≡ true) c.later
      sorted : IsSorted (signal_before fl) (signals_of c)
      same : All (λ s. s.message ≡ message) (signals_of c)

    runs-IsCluster :
        (message : Str) (runs : List (Cluster F))
        → IsGreedy fl time_window runs
        → IsSorted (signal_before fl) (all_signals runs)
        → All (λ s. s.message ≡ message) (all_signals runs)
        → All (IsCluster message) runs
    runs-IsCluster message [] h k l = tt
    runs-IsCluster message (c ∷ cs) h k l = (
      record {
        within = h.0;
        sorted = IsSorted-append_left (signal_before fl) (signals_of c) (all_signals cs) k;
        same = All-append_left _ (signals_of c) (all_signals cs) l;
      },
      runs-IsCluster message cs h.2
          (IsSorted-append_right (signal_before fl) (signals_of c) (all_signals cs) k)
          (All-append_right _ (signals_of c) (all_signals cs) l),
    )

    cluster_by_time-IsCluster :
        (message : Str) (signals : List (RawSignal F))
        → IsSorted (signal_before fl) signals
        → All (λ s. s.message ≡ message) signals
        → All (IsCluster message) (cluster_by_time fl min_receivers time_window signals)
    cluster_by_time-IsCluster message signals h k =
        let (runs, all, greedy, same) = cluster_by_time-runs fl time_window min_receivers signals in
        rw same (
          All-keep_if (IsCluster message) (is_long min_receivers) runs (
            runs-IsCluster message runs greedy (subst (IsSorted (signal_before fl)) (sym all) h)
              (subst (All (λ s. s.message ≡ message)) (sym all) k)))

    measured-IsGroup :
        (message : Str) (c : Cluster F) (q : CorrelationQuality F)
        → IsCluster message c
        → is_valid_cluster fl min_receivers c ≡ true
        → IsGroup min_receivers time_window (measured fl message (signals_of c) c.first.timestamp q)
    unfolding is_valid_cluster
    measured-IsGroup message c q h valid = record {
      same_message = h.same;
      enough_receivers = ground arith;
      in_window = h.within;
      in_order = h.sorted;
      measured_span = (refl, refl);
      short_span = ground arith;
    }

    group_of-IsGroup :
        (message : Str) (c : Cluster F)
        → IsCluster message c
        → is_valid_cluster fl min_receivers c ≡ true
        → IsGroup min_receivers time_window (group_of fl min_receivers time_window message c)
    unfolding group_of sort_signals
    group_of-IsGroup message c h valid =
        rw (sort_with-id (signal_before fl) (signals_of c) h.sorted)
          (measured-IsGroup message c _ h valid)

    candidates_of-IsGroup :
        (message : Str) (cs : List (Cluster F))
        → All (IsCluster message) cs
        → All
            (IsGroup min_receivers time_window)
            (candidates_of fl min_receivers time_window message cs)
    candidates_of-IsGroup message cs h =
        let valid = is_valid_cluster fl min_receivers in
        All-map_list (group_of fl min_receivers time_window message)
          (λ c. IsCluster message c × (valid c ≡ true)) (IsGroup min_receivers time_window)
          (λ c k. group_of-IsGroup message c k.0 k.1) (keep_if valid cs)
          (All-both (IsCluster message) (λ c. valid c ≡ true) (keep_if valid cs)
            (All-keep_if (IsCluster message) valid cs h) (keep_if-passes valid cs))

  -- An entry of the dictionary of messages.
  abbrev IsEntry : Str × List (RawSignal F) → Type 0
  IsEntry e = All (λ s. s.message ≡ e.0) e.1 × All (HasTime fl) e.1

  insert-IsEntry :
      (k : Str) (ss : List (RawSignal F)) (d : Dict (List (RawSignal F)))
      → IsEntry (k, ss)
      → All IsEntry d
      → All IsEntry (insert k ss d)
  unfolding insert
  insert-IsEntry k ss [] h all = (h, tt)
  insert-IsEntry k ss ((j, v) ∷ d) h all = elim (Bool-cases (str_eq j k)) [
    | inl e ↦ rw e (subst (λ x. IsEntry (x, ss)) (sym (str_eq_sound j k e)) h, all.1)
    | inr e ↦ rw e (all.0, insert-IsEntry k ss d h all.1)
  ]

  lookup-IsEntry :
      (k : Str) (d : Dict (List (RawSignal F))) → All IsEntry d → IsEntry (k, list_of (lookup k d))
  unfolding lookup
  lookup-IsEntry k [] all = (tt, tt)
  lookup-IsEntry k ((j, v) ∷ d) all = elim (Bool-cases (str_eq j k)) [
    | inl e ↦ rw e (subst (λ x. IsEntry (x, v)) (str_eq_sound j k e) all.0)
    | inr e ↦ rw e (lookup-IsEntry k d all.1)
  ]

  group_by_message-IsEntry :
      (ss : List (RawSignal F)) (d : Dict (List (RawSignal F)))
      → All (HasTime fl) ss
      → All IsEntry d
      → All IsEntry (group_by_message ss d)
  unfolding group_by_message
  group_by_message-IsEntry [] d times all = all
  group_by_message-IsEntry (s ∷ ss) d times all =
      let old = list_of (lookup s.message d) in
      let (same, timed) = lookup-IsEntry s.message d all in
      group_by_message-IsEntry ss (insert s.message (old ++ s ∷ []) d) times.1 (
        insert-IsEntry s.message (old ++ s ∷ []) d
          (
            All-append (λ t. t.message ≡ s.message) old (s ∷ []) same (refl, tt),
            All-append (HasTime fl) old (s ∷ []) timed (times.0, tt),
          )
          all)

  All-new_groups :
      (P : Group fl → Type 0) (processed : List Str) (gs : List (Group fl))
      → All P gs
      → All P (new_groups fl processed gs)
  All-new_groups P processed [] h = tt
  All-new_groups P processed (g ∷ gs) h = elim (Bool-cases (str_in (group_id fl g) processed)) [
    | inl e ↦ rw e (All-new_groups P processed gs h.1)
    | inr e ↦ rw e (h.0, All-new_groups P (group_id fl g ∷ processed) gs h.1)
  ]

  module _ (laws : IsIeee fl) where
    candidates_in-IsGroup :
        (n : ℕ) (w : F) (message : Str) (signals : List (RawSignal F))
        → IsEntry (message, signals)
        → All (IsGroup n w) (candidates_in fl n w message signals)
    unfolding sort_signals
    candidates_in-IsGroup n w message signals h = elim (Bool-cases (ltb (length signals) n)) [
      | inl e ↦ rw e tt
      | inr e ↦ rw e (
          candidates_of-IsGroup n w message _ (
            cluster_by_time-IsCluster n w message (sort_signals fl signals)
              (sort_with-IsSorted (signal_before fl) (HasTime fl) (signal_before-IsOrder fl laws)
                signals h.1)
              (All-sort_with (signal_before fl) (λ s. s.message ≡ message) signals h.0)))
    ]

    candidates-IsGroup :
        (n : ℕ) (w : F) (d : Dict (List (RawSignal F)))
        → All IsEntry d
        → All (IsGroup n w) (candidates fl n w d)
    candidates-IsGroup n w [] h = tt
    candidates-IsGroup n w ((message, signals) ∷ d) h =
        All-append (IsGroup n w) (candidates_in fl n w message signals) (candidates fl n w d)
          (candidates_in-IsGroup n w message signals h.0) (candidates-IsGroup n w d h.1)

    pub correlate-IsGroup :
        (c : SignalCorrelator F)
        → All (HasTime fl) c.signal_buffer
        → All (IsGroup c.min_receivers c.time_window) (correlate fl c).0
    correlate-IsGroup c times = rw ((correlate-new_groups fl c).0) (
        All-new_groups (IsGroup c.min_receivers c.time_window) c.processed_groups
          (candidates_now fl c)
          (elim (Bool-cases (ltb (length c.signal_buffer) c.min_receivers)) [
            | inl e ↦ rw e tt
            | inr e ↦ rw e (
                candidates-IsGroup c.min_receivers c.time_window
                  (group_by_message c.signal_buffer [])
                  (group_by_message-IsEntry c.signal_buffer [] times tt))
          ]))
