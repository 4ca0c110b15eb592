-- ===== src/Correlation/Candidates.antt =====
-- `correlate` as a selection among the groups of the valid clusters of the buffer.
use aircraft_malt.Prelude.{
  ℕ, ◌≡◌, refl, ◌∙◌, ap, inl, inr, true, false, List, [], ◌∷◌, ◌++◌, Str, Dict, str_in, ltb, length,
  keep_if, map, Bool-cases, if◌then◌else◌,
}
use mathlib.Core.List.{append-nil, append_assoc}
use aircraft_malt.Float.{Floats}
use aircraft_malt.Correlation.Signal.{RawSignal, sort_signals}
use aircraft_malt.Correlation.Quality.{Cluster}
use aircraft_malt.Correlation.Correlator.{
  CorrelatedSignalGroup, SignalCorrelator, Collected, group_by_message, group_id, cluster_by_time,
  is_valid_cluster, group_of, collect_group, collect_clusters, collect_message, collect_messages,
  correlate,
}

module _ (fl : Floats) where
  open fl use {F}

  abbrev pub Group : Type 0
  Group = CorrelatedSignalGroup F

  -- The groups whose identifier is neither in the set nor that of an earlier group.
  abbrev pub new_groups : List Str → List Group → List Group
  new_groups processed [] = []
  new_groups processed (g ∷ gs) =
      let old = new_groups processed gs in
      let new = g ∷ new_groups (group_id fl g ∷ processed) gs in
      if str_in (group_id fl g) processed then old else new

  -- The set when these groups have been added to it.
  abbrev pub noted : List Str → List Group → List Str
  noted processed [] = processed
  noted processed (g ∷ gs) = noted (group_id fl g ∷ processed) gs

  collect_all : List Group → Collected F → Collected F
  collect_all [] found = found
  collect_all (g ∷ gs) found = collect_all gs (collect_group fl g found)

  collect_all-append :
      (gs hs : List Group) (found : Collected F)
      → collect_all (gs ++ hs) found ≡ collect_all hs (collect_all gs found)
  unfolding collect_all
  collect_all-append [] hs found = refl
  collect_all-append (g ∷ gs) hs found = collect_all-append gs hs (collect_group fl g found)

  -- The collection when a group is added to it.
  abbrev with_group : Group → Collected F → Collected F
  with_group g found = record {
    groups = found.groups ++ g ∷ [];
    processed = group_id fl g ∷ found.processed;
  }

  collect_group-old :
      (g : Group) (found : Collected F)
      → str_in (group_id fl g) found.processed ≡ true
      → collect_group fl g found ≡ found
  unfolding collect_group
  collect_group-old g found e = rw e

  collect_group-new :
      (g : Group) (found : Collected F)
      → str_in (group_id fl g) found.processed ≡ false
      → collect_group fl g found ≡ with_group g found
  unfolding collect_group
  collect_group-new g found e = rw e

  collect_all-new :
      (gs : List Group) (found : Collected F)
      → ((collect_all gs found).groups ≡ found.groups ++ new_groups found.processed gs)
        × ((collect_all gs found).processed ≡ noted found.processed (new_groups found.processed gs))
  unfolding collect_all
  collect_all-new [] found = (rw append-nil, refl)
  collect_all-new (g ∷ gs) found = elim (Bool-cases (str_in (group_id fl g) found.processed)) [
    | inl e ↦
        let same = ap (collect_all gs) (collect_group-old g found e) in
        let (h, k) = collect_all-new gs found in
        rw e (ap (λ c. c.groups) same ∙ h, ap (λ c. c.processed) same ∙ k)
    | inr e ↦
        let same = ap (collect_all gs) (collect_group-new g found e) in
        let (h, k) = collect_all-new gs (with_group g found) in
        rw e (
          ap (λ c. c.groups) same ∙ (h ∙ append_assoc found.groups (g ∷ []) _),
          ap (λ c. c.processed) same ∙ k,
        )
  ]

  module _ (min_receivers : ℕ) (time_window : F) where
    abbrev pub candidates_of : Str → List (Cluster F) → List Group
    candidates_of message cs =
        map (group_of fl min_receivers time_window message)
          (keep_if (is_valid_cluster fl min_receivers) cs)

    abbrev pub candidates_in : Str → List (RawSignal F) → List Group
    candidates_in message signals =
        if ltb (length signals) min_receivers
        then []
        else candidates_of message
            (cluster_by_time fl min_receivers time_window (sort_signals fl signals))

    -- The groups of the valid clusters of each message.
    abbrev pub candidates : Dict (List (RawSignal F)) → List Group
    candidates [] = []
    candidates ((message, signals) ∷ d) = candidates_in message signals ++ candidates d

    collect_clusters-candidates :
        (message : Str) (cs : List (Cluster F)) (found : Collected F)
        → collect_clusters fl min_receivers time_window message cs found
          ≡ collect_all (candidates_of message cs) found
    unfolding collect_clusters collect_all
    collect_clusters-candidates message [] found = refl
    collect_clusters-candidates message (c ∷ cs) found =
        elim (Bool-cases (is_valid_cluster fl min_receivers c)) [
          | inl e ↦ rw e (collect_clusters-candidates message cs _)
          | inr e ↦ rw e (collect_clusters-candidates message cs found)
        ]

    collect_message-candidates :
        (message : Str) (signals : List (RawSignal F)) (found : Collected F)
        → collect_message fl min_receivers time_window message signals found
          ≡ collect_all (candidates_in message signals) found
    unfolding collect_message
    collect_message-candidates message signals found =
        elim (Bool-cases (ltb (length signals) min_receivers)) [
          | inl e ↦ rw e (unfold collect_all in refl)
          | inr e ↦ rw e (collect_clusters-candidates message _ found)
        ]

    collect_messages-candidates :
        (d : Dict (List (RawSignal F))) (found : Collected F)
        → collect_messages fl min_receivers time_window d found ≡ collect_all (candidates d) found
    unfolding collect_messages
    collect_messages-candidates [] found = unfold collect_all in refl
    collect_messages-candidates ((message, signals) ∷ d) found =
        collect_messages-candidates d
          (collect_message fl min_receivers time_window message signals found)
        ∙ ap (collect_all (candidates d)) (collect_message-candidates message signals found)
        ∙ sym_append message signals d found
      where
        sym_append :
            (message : Str) (signals : List (RawSignal F)) (d : Dict (List (RawSignal F)))
            (found : Collected F)
            → collect_all (candidates d) (collect_all (candidates_in message signals) found)
              ≡ collect_all (candidates_in message signals ++ candidates d) found
        sym_append message signals d found =
            rw (collect_all-append (candidates_in message signals) (candidates d) found)

  -- The groups that a call tries: none while the buffer is too short.
  abbrev pub candidates_now : SignalCorrelator F → List Group
  candidates_now c =
      if ltb (length c.signal_buffer) c.min_receivers
      then []
      else candidates c.min_receivers c.time_window (group_by_message c.signal_buffer [])

  -- A call returns the groups of the valid clusters in the buffer whose identifier was not processed
  -- before, each identifier once; it notes the identifiers of these groups and changes nothing else.
  pub correlate-new_groups :
      (c : SignalCorrelator F)
      → ((correlate fl c).0 ≡ new_groups c.processed_groups (candidates_now c))
        × ((correlate fl c).1
            ≡ record c { processed_groups = noted c.processed_groups (correlate fl c).0 })
  unfolding correlate
  correlate-new_groups c = elim (Bool-cases (ltb (length c.signal_buffer) c.min_receivers)) [
    | inl e ↦ rw e (refl, refl)
    | inr e ↦
        let start : Collected F = record { groups = []; processed = c.processed_groups } in
        let d = group_by_message c.signal_buffer [] in
        let tried = candidates c.min_receivers c.time_window d in
        let (h, k) = collect_all-new tried start in
        rw (e, collect_messages-candidates c.min_receivers c.time_window d start, h, k) (refl, refl)
  ]
