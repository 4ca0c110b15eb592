-- ===== src/Runtime/SameSignals.antt =====
-- Processing groups leaves the receiver cache and the correlator as they are.
use aircraft_malt.Prelude.{
  ℕ, ◌+◌, ◌≡◌, refl, ◌∙◌, inl, inr, Option, none, some, List, [], ◌∷◌, length, ltb, all_of, suc,
  Bool-cases,
}
use aircraft_malt.Float.{Floats}
use aircraft_malt.Value.{Result, Checked, ok, err}
use aircraft_malt.Correlation.Correlator.{CorrelatedSignalGroup}
use aircraft_malt.Ingest.Receivers.{Result-cases}
use aircraft_malt.Runtime.State.{SignalObservation, AircraftPosition, Database, Runtime}
use aircraft_malt.Runtime.Base.{then_run, signal_clock_is_qualified}
use aircraft_malt.Runtime.Solve.{
  Times, build_observations, position_row, store_position, timed, with_success, solved,
  process_signal_group, process_groups,
}

module _ {F D : Type 0} where
  -- A step that leaves the cache and the correlator as they are.
  abbrev pub SameSignals : Runtime F D → Runtime F D → Type 0
  SameSignals r q = (q.receiver_positions ≡ r.receiver_positions) × (q.correlator ≡ r.correlator)

  then-SameSignals :
      (r : Runtime F D) (step : Checked × Runtime F D) (rest : Runtime F D → Checked × Runtime F D)
      → SameSignals r step.1
      → ((q : Runtime F D) → SameSignals q (rest q).1)
      → SameSignals r (then_run step rest).1
  then-SameSignals r (err e, q) rest h k = h
  then-SameSignals r (ok u, q) rest h k = ((k q).0 ∙ h.0, (k q).1 ∙ h.1)

module _ (fl : Floats) {D : Type 0} (db : Database fl.F D)
    (solve_position : List (SignalObservation fl.F) → Result (Option (AircraftPosition fl.F))) where
  open fl use {F, le, literal, sub}

  store_position-SameSignals :
      (t : Times F) (group : CorrelatedSignalGroup F) (position : AircraftPosition F)
      (r : Runtime F D)
      → SameSignals r (store_position fl db solve_position t group position r)
  unfolding store_position
  store_position-SameSignals t group position r =
      elim (Result-cases
        (db.store_position (position_row fl db solve_position group position) r.database)) [
          | inl (d, e) ↦ rw e (refl, refl)
          | inr (raised, e) ↦ rw e (refl, refl)
        ]

  solved-SameSignals :
      (t : Times F) (group : CorrelatedSignalGroup F)
      (answer : Result (Option (AircraftPosition F))) (r : Runtime F D)
      → SameSignals r (solved fl db solve_position t group answer r).1
  solved-SameSignals t group (err e) r = (refl, refl)
  solved-SameSignals t group (ok none) r = (refl, refl)
  solved-SameSignals t group (ok (some position)) r =
      store_position-SameSignals t group position
        (with_success fl db solve_position t (timed fl db solve_position t r))

  group-SameSignals :
      (t : Times F) (group : CorrelatedSignalGroup F) (r : Runtime F D)
      → SameSignals r (process_signal_group fl db solve_position t group r).1
  unfolding process_signal_group
  group-SameSignals t group r =
      let observations = build_observations r.receiver_positions group.signals in
      elim (Bool-cases (ltb (length observations) 4)) [
        | inl few ↦ rw few (refl, refl)
        | inr enough ↦
            rw enough
              (elim (Bool-cases
                (all_of (signal_clock_is_qualified fl r.max_clock_uncertainty_ns) group.signals)) [
                  | inl good ↦ rw good (
                      solved-SameSignals t group (solve_position observations)
                        (record r { total_positions = r.total_positions + 1 }))
                  | inr bad ↦ rw bad (refl, refl)
                ])
      ]

  pub groups-SameSignals :
      (at : ℕ → Times F) (groups : List (CorrelatedSignalGroup F)) (r : Runtime F D)
      → SameSignals r (process_groups fl db solve_position at groups r).1
  unfolding process_groups
  groups-SameSignals at [] r = (refl, refl)
  groups-SameSignals at (group ∷ groups) r =
      then-SameSignals r (process_signal_group fl db solve_position (at 0) group r) _
        (group-SameSignals (at 0) group r) (λ q. groups-SameSignals (λ n. at (suc n)) groups q)
