-- ===== src/Correlation/Finds.antt =====
-- A transmission that enough receivers heard is reported.
use aircraft_malt.Prelude.{
  ℕ, suc, ◌≤◌, ◌≡◌, refl, sym, ◌∙◌, ap, inl, inr, ◌⊎◌, Bool, true, false, some, List, [], ◌∷◌, ◌++◌,
  Str, Dict, lookup, insert, lookup-insert, str_in, str_eq, str_eq_sound, ltb, length, keep_if, All,
  map, pos, arith, le→leb, length-sort_with, length-keep_if, Option-cases, All-append_left,
  All-append_right, Bool-cases,
}
use mathlib.Core.Path.{subst}
use mathlib.Core.List.{append-nil, append_assoc}
use aircraft_malt.Float.{Floats}
use aircraft_malt.Correlation.Signal.{
  RawSignal, signal_before, sort_signals, signal_time_difference_seconds,
}
use aircraft_malt.Correlation.Quality.{Cluster, signals_of, last_from, distinct, receiver_count}
use aircraft_malt.Correlation.Correlator.{
  SignalCorrelator, list_of, group_by_message, group_id, group_of, is_valid_cluster, cluster_loop,
  cluster_by_time, correlate,
}
use aircraft_malt.Correlation.Runs.{is_within}
use aircraft_malt.Correlation.Candidates.{
  Group, noted, candidates_in, candidates, candidates_now, correlate-new_groups,
}
use aircraft_malt.Correlation.Once.{IsNoted, new_groups-noted}

length-distinct : (ts : List Str) → length (distinct ts) ≤ length ts
unfolding distinct
length-distinct [] = omega arith
length-distinct (t ∷ ts) = ground (arith, length-distinct ts)

module _ {F : Type 0} where
  length-receivers : (ss : List (RawSignal F)) → length (map (λ s. s.receiver_id) ss) ≡ length ss
  length-receivers [] = refl
  length-receivers (s ∷ ss) = omega (arith, length-receivers ss)

  receiver_count-le : (ss : List (RawSignal F)) → receiver_count ss ≤ length ss
  unfolding receiver_count
  receiver_count-le ss =
      omega (arith, length-distinct (map (λ s. s.receiver_id) ss), length-receivers ss)

  -- The signals with the message, in order.
  abbrev pub with_message : Str → List (RawSignal F) → List (RawSignal F)
  with_message m = keep_if (λ s. str_eq s.message m)

  lookup-group_by_message :
      (m : Str) (ss : List (RawSignal F)) (d : Dict (List (RawSignal F)))
      → list_of (lookup m (group_by_message ss d)) ≡ list_of (lookup m d) ++ with_message m ss
  unfolding group_by_message
  lookup-group_by_message m [] d = sym (append-nil _)
  lookup-group_by_message m (s ∷ ss) d =
      let old = list_of (lookup s.message d) in
      lookup-group_by_message m ss (insert s.message (old ++ s ∷ []) d)
      ∙ rw (lookup-insert s.message m (old ++ s ∷ []) d) (elim (Bool-cases (str_eq s.message m)) [
        | inl e ↦ rw e (
            append_assoc old (s ∷ []) (with_message m ss)
            ∙ ap (λ (k : Str). list_of (lookup k d) ++ s ∷ with_message m ss)
                (str_eq_sound s.message m e))
        | inr e ↦ rw e
      ])

  lookup_of_list :
      (m : Str) (d : Dict (List (RawSignal F))) (ss : List (RawSignal F))
      → list_of (lookup m d) ≡ ss
      → 1 ≤ length ss
      → lookup m d ≡ some ss
  lookup_of_list m d ss h k = elim (Option-cases (lookup m d)) [
    | inl e ↦ absurd (no_signals ss (sym h ∙ ap list_of e) k)
    | inr (b, e) ↦ e ∙ ap some (sym (ap list_of e) ∙ h)
  ]
    where
      no_signals : (ss : List (RawSignal F)) → ss ≡ [] → 1 ≤ length ss → ⊥
      no_signals ss h k = ground arith

module _ (fl : Floats) where
  open fl use {F, lt, literal}

  length-sort_signals : (ss : List (RawSignal F)) → length (sort_signals fl ss) ≡ length ss
  unfolding sort_signals
  length-sort_signals ss = length-sort_with (signal_before fl) ss

  lookup-candidates :
      (P : Group fl → Type 0) (n : ℕ) (w : F) (m : Str) (ss : List (RawSignal F))
      (d : Dict (List (RawSignal F)))
      → lookup m d ≡ some ss
      → All P (candidates fl n w d)
      → All P (candidates_in fl n w m ss)
  unfolding lookup
  lookup-candidates P n w m ss [] h all = absurd (ground arith)
  lookup-candidates P n w m ss ((j, v) ∷ d) h all = elim (Bool-cases (str_eq j m)) [
    | inl e ↦
        let here = All-append_left P (candidates_in fl n w j v) (candidates fl n w d) all in
        subst (λ k. All P (candidates_in fl n w k ss)) (str_eq_sound j m e)
          (subst (λ u. All P (candidates_in fl n w j u)) (same_value v ss (rw e at h)) here)
    | inr e ↦
        lookup-candidates P n w m ss d (rw e at h)
          (All-append_right P (candidates_in fl n w j v) (candidates fl n w d) all)
  ]
    where
      same_value : (u v : List (RawSignal F)) → some u ≡ some v → u ≡ v
      same_value u v h = cc

  -- Signals that are all within the window of the first make one cluster.
  cluster_loop-one :
      (n : ℕ) (w : F) (s : RawSignal F) (later ss : List (RawSignal F))
      → All (λ t. is_within fl w s t ≡ true) ss
      → n ≤ length (s ∷ (later ++ ss))
      → cluster_loop fl n w s later ss ≡ record { first = s; later = later ++ ss } ∷ []
  unfolding cluster_loop
  cluster_loop-one n w s later [] h k =
      rw (append-nil, le→leb n (suc (length later)) (omega (arith, ap length (append-nil later))))
  cluster_loop-one n w s later (t ∷ ss) h k =
      let moved : (later ++ t ∷ []) ++ ss ≡ later ++ t ∷ ss = append_assoc later (t ∷ []) ss in
      rw h.0 (
        subst
          (λ ts. cluster_loop fl n w s (later ++ t ∷ []) ss ≡ record { first = s; later = ts } ∷ [])
          moved
          (cluster_loop-one n w s (later ++ t ∷ []) ss h.1
            (subst (λ ts. n ≤ length (s ∷ ts)) (sym moved) k)))

  -- One transmission: signals within the window of the first, heard by enough receivers, with a
  -- span of at most ten milliseconds.
  pub record IsTransmission (n : ℕ) (w : F) (c : Cluster F) : Type 0 where
    pub within : All (λ t. is_within fl w c.first t ≡ true) c.later
    pub heard : n ≤ receiver_count (signals_of c)
    pub short :
        lt
          (literal (pos 10) 3)
          (signal_time_difference_seconds fl c.first (last_from c.first c.later))
        ≡ false

  IsTransmission-valid :
      (n : ℕ) (w : F) (c : Cluster F) → IsTransmission n w c → is_valid_cluster fl n c ≡ true
  unfolding is_valid_cluster
  IsTransmission-valid n w c h = ground (arith, h.heard, h.short, receiver_count-le (signals_of c))

  candidates_in-one :
      (n : ℕ) (w : F) (m : Str) (ss : List (RawSignal F)) (c : Cluster F)
      → sort_signals fl ss ≡ signals_of c
      → n ≤ length ss
      → IsTransmission n w c
      → candidates_in fl n w m ss ≡ group_of fl n w m c ∷ []
  unfolding cluster_by_time
  candidates_in-one n w m ss c sorted enough h = rw (
    not_short n (length ss) enough,
    sorted,
    cluster_loop-one n w c.first [] c.later h.within
        (omega (arith, receiver_count-le (signals_of c), h.heard)),
    IsTransmission-valid n w c h,
  )
    where
      not_short : (n k : ℕ) → n ≤ k → ltb k n ≡ false
      not_short n k h = ground arith

  -- One of the groups has the identifier.
  abbrev pub HasId : Str → List (Group fl) → Type 0
  HasId i [] = ⊥
  HasId i (g ∷ gs) = (i ≡ group_id fl g) ⊎ HasId i gs

  noted-HasId :
      (i : Str) (processed : List Str) (gs : List (Group fl))
      → str_in i (noted fl processed gs) ≡ true
      → (str_in i processed ≡ true) ⊎ HasId i gs
  unfolding str_in
  noted-HasId i processed [] h = inl h
  noted-HasId i processed (g ∷ gs) h = elim (noted-HasId i (group_id fl g ∷ processed) gs h) [
    | inr k ↦ inr (inr k)
    | inl k ↦ elim (Bool-cases (str_eq i (group_id fl g))) [
      | inl e ↦ inr (inl (str_eq_sound i (group_id fl g) e))
      | inr e ↦ inl (rw e at k)
    ]
  ]

  -- If the buffered signals of a message are, in the order of their times, one transmission, then
  -- the call returns a group with the identifier of their group, unless it was processed before.
  pub correlate-finds :
      (c : SignalCorrelator F) (m : Str) (t : Cluster F)
      → sort_signals fl (with_message m c.signal_buffer) ≡ signals_of t
      → IsTransmission c.min_receivers c.time_window t
      → str_in (group_id fl (group_of fl c.min_receivers c.time_window m t)) c.processed_groups
        ≡ false
      → HasId (group_id fl (group_of fl c.min_receivers c.time_window m t)) (correlate fl c).0
  unfolding lookup
  correlate-finds c m t sorted h fresh =
      let n = c.min_receivers in
      let w = c.time_window in
      let ss = with_message m c.signal_buffer in
      let d = group_by_message c.signal_buffer [] in
      let (found, _) = correlate-new_groups fl c in
      let size : length ss ≡ length (signals_of t) =
        sym (length-sort_signals ss) ∙ ap length sorted in
      let enough : n ≤ length ss = omega (arith, h.heard, receiver_count-le (signals_of t)) in
      let full : ltb (length c.signal_buffer) n ≡ false =
        not_below n (length c.signal_buffer)
          (omega (arith, length-keep_if (λ s. str_eq s.message m) c.signal_buffer)) in
      let at_message : lookup m d ≡ some ss =
        lookup_of_list m d ss (lookup-group_by_message m c.signal_buffer []) (omega arith) in
      let set = noted fl c.processed_groups (correlate fl c).0 in
      let all : All (IsNoted fl set) (candidates_now fl c) =
        rw found (new_groups-noted fl c.processed_groups (candidates_now fl c)) in
      let one : All (IsNoted fl set) (group_of fl n w m t ∷ []) =
        subst (All (IsNoted fl set)) (candidates_in-one n w m ss t sorted enough h)
          (lookup-candidates (IsNoted fl set) n w m ss d at_message (rw full at all)) in
      elim (noted-HasId _ c.processed_groups (correlate fl c).0 one.0) [
        | inl old ↦ absurd (true-ne-false old fresh)
        | inr new ↦ new
      ]
    where
      not_below : (n k : ℕ) → n ≤ k → ltb k n ≡ false
      not_below n k h = ground arith

      true-ne-false : {b : Bool} → b ≡ true → b ≡ false → ⊥
      true-ne-false h k = cc
