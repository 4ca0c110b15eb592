-- ===== src/Runtime/Counts.antt =====
-- What the counters of a runtime say of the groups that it processed.
use aircraft_malt.Prelude.{
  ℕ, ◌+◌, ◌<◌, ◌≡◌, refl, inl, inr, Option, none, some, List, [], ◌∷◌, length, ltb, all_of,
  Bool-cases, arith, suc,
}
use aircraft_malt.Float.{Floats}
use aircraft_malt.Value.{Result, Checked, ok, err}
use aircraft_malt.Correlation.Correlator.{CorrelatedSignalGroup}
use aircraft_malt.Ingest.Receivers.{Result-cases}
use aircraft_malt.Runtime.State.{SignalObservation, AircraftPosition, Database, Runtime}
use aircraft_malt.Runtime.Base.{signal_clock_is_qualified, then_run}
use aircraft_malt.Runtime.Solve.{
  Times, build_observations, position_row, store_position, timed, with_success, solved,
  process_signal_group, process_groups,
}

-- The solver's answers, and all groups that were dealt with.
abbrev pub answered : {F D : Type 0} → Runtime F D → ℕ
answered r = r.successful_solves + r.failed_solves

abbrev pub dealt_with : {F D : Type 0} → Runtime F D → ℕ
dealt_with r = r.rejected_groups + r.clock_rejected_groups + answered r

-- Of `n` groups all are counted, or those before the one whose solver raised an exception: that one
-- counts as a position only.
abbrev pub IsCounted : {F D : Type 0} → ℕ → Runtime F D → Checked × Runtime F D → Type 0
IsCounted n r (ok _, r') =
    (dealt_with r' ≡ dealt_with r + n)
    × (r'.total_positions + answered r ≡ r.total_positions + answered r')
IsCounted n r (err e, r') =
    (dealt_with r' < dealt_with r + n)
    × (r'.total_positions + answered r ≡ suc (r.total_positions + answered r'))

join_counts :
    {F D : Type 0} (n : ℕ) (r r' : Runtime F D) (step : Checked × Runtime F D)
    → IsCounted 1 r (ok tt, r')
    → IsCounted n r' step
    → IsCounted (suc n) r step
join_counts n r r' (ok _, s) h k = (omega (arith, h.0, k.0), omega (arith, h.1, k.1))
join_counts n r r' (err e, s) h k = (omega (arith, h.0, k.0), omega (arith, h.1, k.1))

module _ (fl : Floats) {D : Type 0} (db : Database fl.F D)
    (solve_position : List (SignalObservation fl.F) → Result (Option (AircraftPosition fl.F))) where
  open fl use {F}

  store_position-counts :
      (t : Times F) (group : CorrelatedSignalGroup F) (position : AircraftPosition F)
      (r : Runtime F D)
      → (answered (store_position fl db solve_position t group position r) ≡ answered r)
        × (dealt_with (store_position fl db solve_position t group position r) ≡ dealt_with r)
        × ((store_position fl db solve_position t group position r).total_positions
            ≡ r.total_positions)
  unfolding store_position
  store_position-counts t group position r =
      elim (Result-cases
        (db.store_position (position_row fl db solve_position group position) r.database)) [
          | inl (d, e) ↦ rw e (refl, refl, refl)
          | inr (raised, e) ↦ rw e (refl, refl, refl)
        ]

  solved-IsCounted :
      (t : Times F) (group : CorrelatedSignalGroup F)
      (answer : Result (Option (AircraftPosition F))) (r : Runtime F D)
      → IsCounted 1 r (
          solved fl db solve_position t group answer
            (record r { total_positions = r.total_positions + 1 }))
  solved-IsCounted t group (err e) r = (omega arith, omega arith)
  solved-IsCounted t group (ok none) r = (omega arith, omega arith)
  solved-IsCounted t group (ok (some position)) r =
      let attempted : Runtime F D = record r { total_positions = r.total_positions + 1 } in
      let (answers, dealt, positions) =
        store_position-counts t group position
          (with_success fl db solve_position t (timed fl db solve_position t attempted)) in
      (omega (arith, dealt), omega (arith, answers, positions))

  group-IsCounted :
      (t : Times F) (group : CorrelatedSignalGroup F) (r : Runtime F D)
      → IsCounted 1 r (process_signal_group fl db solve_position t group r)
  unfolding process_signal_group
  group-IsCounted t group r =
      let observations = build_observations r.receiver_positions group.signals in
      elim (Bool-cases (ltb (length observations) 4)) [
        | inl few ↦ rw few (omega arith, omega arith)
        | inr enough ↦
            rw enough
              (elim (Bool-cases
                (all_of (signal_clock_is_qualified fl r.max_clock_uncertainty_ns) group.signals)) [
                  | inl good ↦ rw good (solved-IsCounted t group (solve_position observations) r)
                  | inr bad ↦ rw bad (omega arith, omega arith)
                ])
      ]

  then-IsCounted :
      (n : ℕ) (r : Runtime F D) (step : Checked × Runtime F D)
      (rest : Runtime F D → Checked × Runtime F D)
      → IsCounted 1 r step
      → ((r' : Runtime F D) → IsCounted n r' (rest r'))
      → IsCounted (suc n) r (then_run step rest)
  then-IsCounted n r (err e, r') rest h k = (omega (arith, h.0), h.1)
  then-IsCounted n r (ok _, r') rest h k = join_counts n r r' (rest r') h (k r')

  -- After the groups of a round that returned, every group is counted once, as rejected, rejected
  -- for its clocks, solved or not solved, and as many positions are counted as answers of the
  -- solver. If the solver raised an exception, the round ended at that group, which counts as a
  -- position without an answer, and fewer groups are counted than were given.
  pub process_groups-IsCounted :
      (at : ℕ → Times F) (groups : List (CorrelatedSignalGroup F)) (r : Runtime F D)
      → IsCounted (length groups) r (process_groups fl db solve_position at groups r)
  unfolding process_groups
  process_groups-IsCounted at [] r = (omega arith, omega arith)
  process_groups-IsCounted at (group ∷ groups) r =
      then-IsCounted (length groups) r (process_signal_group fl db solve_position (at 0) group r)
        (process_groups fl db solve_position (λ n. at (suc n)) groups)
        (group-IsCounted (at 0) group r)
        (λ r'. process_groups-IsCounted (λ n. at (suc n)) groups r')
