-- ===== src/Runtime/Stored.antt =====
-- What reaches the database of positions.
use aircraft_malt.Prelude.{
  ℕ, ◌+◌, ◌≡◌, refl, sym, ◌∙◌, inl, inr, true, false, Option, none, some, List, [], ◌∷◌, Dict, All,
  length, ltb, all_of, suc, Bool-cases,
}
use mathlib.Core.Path.{subst}
use aircraft_malt.Float.{Floats, IsIeee}
use aircraft_malt.Value.{Result, Checked, ok, err}
use aircraft_malt.Correlation.Correlator.{CorrelatedSignalGroup, correlate}
use aircraft_malt.Correlation.Order.{HasTime}
use aircraft_malt.Correlation.Sound.{IsGroup, correlate-IsGroup}
use aircraft_malt.Ingest.Receivers.{Result-cases}
use aircraft_malt.Runtime.State.{
  ReceiverPosition, SignalObservation, AircraftPosition, Database, Runtime,
}
use aircraft_malt.Runtime.Base.{signal_clock_is_qualified, then_run}
use aircraft_malt.Runtime.Solve.{
  Times, build_observations, position_row, store_position, timed, with_success, solved,
  process_with, process_signal_group, process_groups, processing_round,
}

module _ (fl : Floats) {D : Type 0} (db : Database fl.F D)
    (solve_position : List (SignalObservation fl.F) → Result (Option (AircraftPosition fl.F)))
    (positions : Dict (ReceiverPosition fl.F)) (limit : fl.F) where
  open fl use {F}

  -- The solver found the position from four or more observations, each of a signal of the group
  -- whose receiver is cached, and all clocks of the group are qualified.
  pub record IsSolved (group : CorrelatedSignalGroup F) (position : AircraftPosition F)
      : Type 0 where
    pub enough : ltb (length (build_observations positions group.signals)) 4 ≡ false
    pub qualified : all_of (signal_clock_is_qualified fl limit) group.signals ≡ true
    pub answer : solve_position (build_observations positions group.signals) ≡ ok (some position)

  module _ (Inv : D → Type 0) where
    -- What processing keeps.
    record IsKept (r : Runtime F D) : Type 0 where
      same_positions : r.receiver_positions ≡ positions
      same_limit : r.max_clock_uncertainty_ns ≡ limit
      kept : Inv r.database

    module _ (P : CorrelatedSignalGroup F → Type 0)
        (keeps : (group : CorrelatedSignalGroup F) (position : AircraftPosition F) (d d' : D)
          → P group
          → IsSolved group position
          → db.store_position (position_row fl db solve_position group position) d ≡ ok d'
          → Inv d
          → Inv d') where
      store_position-IsKept :
          (t : Times F) (group : CorrelatedSignalGroup F) (position : AircraftPosition F)
          (r : Runtime F D)
          → P group
          → IsSolved group position
          → IsKept r
          → IsKept (store_position fl db solve_position t group position r)
      unfolding store_position
      store_position-IsKept t group position r h solved_here k =
          let row = position_row fl db solve_position group position in
          elim (Result-cases (db.store_position row r.database)) [
            | inl (d, e) ↦ rw e (record {
              same_positions = k.same_positions;
              same_limit = k.same_limit;
              kept = keeps group position r.database d h solved_here e k.kept;
            })
            | inr (raised, e) ↦ rw e k
          ]

      solved-IsKept :
          (t : Times F) (group : CorrelatedSignalGroup F)
          (answer : Result (Option (AircraftPosition F))) (r : Runtime F D)
          → ((position : AircraftPosition F)
              → answer ≡ ok (some position)
              → IsSolved group position)
          → P group
          → IsKept r
          → IsKept (solved fl db solve_position t group answer r).1
      solved-IsKept t group (err e) r s h k = k
      solved-IsKept t group (ok none) r s h k = record {
        same_positions = k.same_positions;
        same_limit = k.same_limit;
        kept = k.kept;
      }
      solved-IsKept t group (ok (some position)) r s h k =
          store_position-IsKept t group position
            (with_success fl db solve_position t (timed fl db solve_position t r)) h
            (s position refl)
            (record { same_positions = k.same_positions; same_limit = k.same_limit; kept = k.kept })

      unchanged :
          (r q : Runtime F D)
          → IsKept r
          → q.receiver_positions ≡ r.receiver_positions
          → q.max_clock_uncertainty_ns ≡ r.max_clock_uncertainty_ns
          → q.database ≡ r.database
          → IsKept q
      unchanged r q k p l d = record {
        same_positions = p ∙ k.same_positions;
        same_limit = l ∙ k.same_limit;
        kept = subst Inv (sym d) k.kept;
      }

      judged-IsKept :
          (t : Times F) (group : CorrelatedSignalGroup F) (r : Runtime F D)
          → P group
          → IsKept r
          → IsKept (process_with fl db solve_position positions limit t group r).1
      judged-IsKept t group r h k =
          let observations = build_observations positions group.signals in
          elim (Bool-cases (ltb (length observations) 4)) [
            | inl few ↦ rw few (unchanged r _ k refl refl refl)
            | inr enough ↦
                rw enough
                  (elim (Bool-cases (all_of (signal_clock_is_qualified fl limit) group.signals)) [
                    | inl good ↦ rw good (
                        solved-IsKept t group (solve_position observations)
                          (record r { total_positions = r.total_positions + 1 })
                          (λ position answer. record {
                            enough = enough;
                            qualified = good;
                            answer = answer;
                          })
                          h (unchanged r _ k refl refl refl))
                    | inr bad ↦ rw bad (unchanged r _ k refl refl refl)
                  ])
          ]

      group-IsKept :
          (t : Times F) (group : CorrelatedSignalGroup F) (r : Runtime F D)
          → P group
          → IsKept r
          → IsKept (process_signal_group fl db solve_position t group r).1
      unfolding process_signal_group
      group-IsKept t group r h k =
          let limited =
            subst (λ l. IsKept (process_with fl db solve_position positions l t group r).1)
              (sym k.same_limit) (judged-IsKept t group r h k) in
          subst
            (λ p.
              IsKept (process_with fl db solve_position p r.max_clock_uncertainty_ns t group r).1)
            (sym k.same_positions) limited

      then-IsKept :
          (step : Checked × Runtime F D) (rest : Runtime F D → Checked × Runtime F D)
          → IsKept step.1
          → ((r : Runtime F D) → IsKept r → IsKept (rest r).1)
          → IsKept (then_run step rest).1
      then-IsKept (err e, r) rest k next = k
      then-IsKept (ok _, r) rest k next = next r k

      groups-IsKept :
          (at : ℕ → Times F) (groups : List (CorrelatedSignalGroup F)) (r : Runtime F D)
          → All P groups
          → IsKept r
          → IsKept (process_groups fl db solve_position at groups r).1
      unfolding process_groups
      groups-IsKept at [] r h k = k
      groups-IsKept at (group ∷ groups) r h k =
          then-IsKept (process_signal_group fl db solve_position (at 0) group r) _
            (group-IsKept (at 0) group r h.0 k)
            (λ q kq. groups-IsKept (λ n. at (suc n)) groups q h.1 kq)

module _ (fl : Floats) (laws : IsIeee fl) {D : Type 0} (db : Database fl.F D)
    (solve_position : List (SignalObservation fl.F) → Result (Option (AircraftPosition fl.F)))
    (r : Runtime fl.F D) (Inv : D → Type 0)
    (keeps : (group : CorrelatedSignalGroup fl.F) (position : AircraftPosition fl.F) (d d' : D)
      → IsGroup fl r.correlator.min_receivers r.correlator.time_window group
      → IsSolved fl db solve_position r.receiver_positions r.max_clock_uncertainty_ns group position
      → db.store_position (position_row fl db solve_position group position) d ≡ ok d'
      → Inv d
      → Inv d') where
  open fl use {F}

  -- If the wall-clock times of the buffered signals are finite, a round of the processing loop keeps
  -- of the database whatever is kept by storing a position of this kind: its group is of one
  -- message, from enough receivers and within the correlator's bounds, all clocks of the group are
  -- qualified, and the solver found the position from four or more observations, each by a receiver
  -- that is cached.
  pub processing_round-kept :
      (at : ℕ → Times F)
      → All (HasTime fl) r.correlator.signal_buffer
      → Inv r.database
      → Inv (processing_round fl db solve_position at r).database
  unfolding processing_round
  processing_round-kept at times k =
      (groups-IsKept fl db solve_position r.receiver_positions r.max_clock_uncertainty_ns Inv
        (IsGroup fl r.correlator.min_receivers r.correlator.time_window) keeps at
        (correlate fl r.correlator).0 (record r { correlator = (correlate fl r.correlator).1 })
        (correlate-IsGroup fl laws r.correlator times)
        (record { same_positions = refl; same_limit = refl; kept = k })).kept
