-- ===== src/Runtime/Heard.antt =====
-- Whose signals the correlator's buffer holds, over any sequence of signals, rounds and refreshes.
use aircraft_malt.Prelude.{
  ℕ, ◌≡◌, refl, sym, ap, inl, inr, true, Option, List, [], ◌∷◌, ◌++◌, Str, ℤ, pos, lookup, All,
  All-append, All-keep_if, length, ltb, map, Bool-cases, arith,
}
use mathlib.Core.Path.{subst}
use aircraft_malt.Float.{Floats}
use aircraft_malt.Value.{Value, Result, Checked, ok, err}
use aircraft_malt.Correlation.Signal.{RawSignal, max_all}
use aircraft_malt.Correlation.Correlator.{
  SignalCorrelator, drop_old, cleanup_old_signals, add_signal, correlate,
}
use aircraft_malt.Ingest.Client.{NetworkClient}
use aircraft_malt.Ingest.Receivers.{Result-cases}
use aircraft_malt.Runtime.State.{SignalObservation, AircraftPosition, Database, Runtime}
use aircraft_malt.Runtime.Base.{
  or_default, then_run, cache_receiver_positions, persisted, on_signal_received, instrument,
  handle_incoming_signal,
}
use aircraft_malt.Runtime.Solve.{Times, processing_round}
use aircraft_malt.Runtime.Keys.{has}
use aircraft_malt.Runtime.Cached.{
  IsSynchronized, cache_receiver_positions-client, cache_receiver_positions-IsSynchronized,
}
use aircraft_malt.Runtime.SameSignals.{SameSignals, groups-SameSignals}
use aircraft_malt.Runtime.Buffered.{cache_receiver_positions-SameCorrelator}

module _ (fl : Floats) (P : Str → Type 0) where
  open fl use {F, le, literal, sub}

  abbrev IsOf : RawSignal F → Type 0
  IsOf s = P s.receiver_id

  drop_old-All : (d : F) (ss : List (RawSignal F)) → All IsOf ss → All IsOf (drop_old fl d ss)
  unfolding drop_old
  drop_old-All d [] h = tt
  drop_old-All d (s ∷ ss) h =
      let newest = max_all fl s.timestamp (map (λ t. t.timestamp) ss) in
      All-keep_if IsOf (λ t. le (sub newest d) t.timestamp) (s ∷ ss) h

  add_signal-All :
      (s : RawSignal F) (c : SignalCorrelator F)
      → P s.receiver_id
      → All IsOf c.signal_buffer
      → All IsOf (add_signal fl s c).signal_buffer
  unfolding add_signal cleanup_old_signals
  add_signal-All s c p h =
      drop_old-All c.buffer_duration (c.signal_buffer ++ s ∷ [])
        (All-append IsOf c.signal_buffer (s ∷ []) h (p, tt))

  correlate-buffer : (c : SignalCorrelator F) → (correlate fl c).1.signal_buffer ≡ c.signal_buffer
  unfolding correlate
  correlate-buffer c = elim (Bool-cases (ltb (length c.signal_buffer) c.min_receivers)) [
    | inl e ↦ rw e refl
    | inr e ↦ rw e refl
  ]

module _ (fl : Floats) {D : Type 0} (db : Database fl.F D)
    (solve_position : List (SignalObservation fl.F) → Result (Option (AircraftPosition fl.F))) where
  open fl use {F, le, literal, sub}

  -- What happens to a runtime. A refresh replaces its client, and the cache follows.
  pub data Event : Type 0 where
    heard : F → F → RawSignal F → Event
    processed : (ℕ → Times F) → Event
    renewed : NetworkClient F → Event

  module _ (int_of : Value F → Result ℤ) (dumps : Value F → Str) where
    persisted-SameSignals :
        (now : F) (id : Str) (r : Runtime F D)
        → SameSignals r (persisted fl db int_of dumps now id r).1
    persisted-SameSignals now id r =
        elim (Bool-cases (
          le (literal (pos 5) 0) (
            sub now
              (or_default (lookup id r.receiver_heartbeat_persisted_at) (literal (pos 0) 0))))) [
                | inl due ↦ rw due (elim (Result-cases (db.touch_receiver id now r.database)) [
                  | inl (d, e) ↦ rw e (refl, refl)
                  | inr (raised, e) ↦ rw e (refl, refl)
                ])
                | inr early ↦ rw early (refl, refl)
              ]

    received-SameSignals :
        (now later : F) (s : RawSignal F) (r : Runtime F D)
        → SameSignals r (on_signal_received fl db int_of dumps later s (instrument fl now s r)).1
    unfolding on_signal_received instrument
    received-SameSignals now later s r = persisted-SameSignals later s.receiver_id _

    unfoldable pub act : Event → Runtime F D → Runtime F D
    unfolding handle_incoming_signal processing_round cache_receiver_positions
    act (heard now later s) r = (handle_incoming_signal fl db int_of dumps now later s r).1
    act (processed at) r = processing_round fl db solve_position at r
    act (renewed c) r =
        (cache_receiver_positions fl db int_of dumps (record r { network_client = c })).1

    unfoldable pub act_all : List Event → Runtime F D → Runtime F D
    unfolding act
    act_all [] r = r
    act_all (e ∷ es) r = act_all es (act e r)

    module _ (P : Str → Type 0) where
      abbrev pub IsAdmitted : Event → Type 0
      IsAdmitted (heard now later s) = Unit
      IsAdmitted (processed at) = Unit
      IsAdmitted (renewed c) = (j : Str) → has j c.active_receivers ≡ true → P j

      -- `P` holds of the receivers that are cached and of those whose signals are buffered.
      pub record IsHeard (r : Runtime F D) : Type 0 where
        pub cached : (j : Str) → has j r.receiver_positions ≡ true → P j
        pub buffered : All (λ s. P s.receiver_id) r.correlator.signal_buffer

      same-IsHeard : (r q : Runtime F D) → SameSignals r q → IsHeard r → IsHeard q
      same-IsHeard r q same h = record {
        cached = λ j k. h.cached j (subst (λ d. has j d ≡ true) same.0 k);
        buffered =
            subst (λ (c : SignalCorrelator F). All (λ s. P s.receiver_id) c.signal_buffer)
              (sym same.1) h.buffered;
      }

      added-IsHeard :
          (s : RawSignal F) (r : Runtime F D) (step : Checked × Runtime F D)
          → P s.receiver_id
          → SameSignals r step.1
          → IsHeard r
          → IsHeard
              (then_run step
                (λ q. (ok tt, record q { correlator = add_signal fl s q.correlator }))).1
      added-IsHeard s r (err e, q) p same h = same-IsHeard r q same h
      added-IsHeard s r (ok u, q) p same h =
          let k = same-IsHeard r q same h in
          record { cached = k.cached; buffered = add_signal-All fl P s q.correlator p k.buffered }

      handle_incoming_signal-IsHeard :
          (now later : F) (s : RawSignal F) (r : Runtime F D)
          → IsHeard r
          → IsHeard (handle_incoming_signal fl db int_of dumps now later s r).1
      unfolding handle_incoming_signal
      handle_incoming_signal-IsHeard now later s r h =
          elim (Bool-cases (has s.receiver_id r.receiver_positions)) [
            | inl known ↦ rw known (
                let quiet : RawSignal F = record s { signal_strength = literal (pos 0) 0 } in
                added-IsHeard quiet r
                  (on_signal_received fl db int_of dumps later quiet (instrument fl now quiet r))
                  (h.cached s.receiver_id known) (received-SameSignals now later quiet r) h)
            | inr unknown ↦ rw unknown h
          ]

      round-IsHeard :
          (at : ℕ → Times F) (r : Runtime F D)
          → IsHeard r
          → IsHeard (processing_round fl db solve_position at r)
      unfolding processing_round
      round-IsHeard at r h =
          let started : Runtime F D = record r { correlator = (correlate fl r.correlator).1 } in
          same-IsHeard started _
            (groups-SameSignals fl db solve_position at (correlate fl r.correlator).0 started)
            (record {
              cached = h.cached;
              buffered =
                  subst (All (λ s. P s.receiver_id)) (sym (correlate-buffer fl P r.correlator))
                    h.buffered;
            })

      cached_ids :
          (outcome : Checked × Runtime F D) (c : NetworkClient F) (j : Str)
          → IsSynchronized outcome
          → outcome.1.network_client ≡ c
          → has j outcome.1.receiver_positions ≡ true
          → has j c.active_receivers ≡ true
      cached_ids (ok u, q) c j h same k =
          let client = ap (λ (n : NetworkClient F). has j n.active_receivers) same in
          ground (arith, h j, client, k)
      cached_ids (err e, q) c j h same k =
          let client = ap (λ (n : NetworkClient F). has j n.active_receivers) same in
          ground (arith, h j, client, k)

      renewed-IsHeard :
          (c : NetworkClient F) (r : Runtime F D)
          → ((j : Str) → has j c.active_receivers ≡ true → P j)
          → IsHeard r
          → IsHeard
              (cache_receiver_positions fl db int_of dumps (record r { network_client = c })).1
      renewed-IsHeard c r p h =
          let renewed_now : Runtime F D = record r { network_client = c } in
          let outcome = cache_receiver_positions fl db int_of dumps renewed_now in
          record {
            cached = λ j k. p j (
                cached_ids outcome c j
                  (cache_receiver_positions-IsSynchronized fl db int_of dumps renewed_now)
                  (cache_receiver_positions-client fl db int_of dumps renewed_now) k);
            buffered =
                subst (λ (s : SignalCorrelator F). All (λ s. P s.receiver_id) s.signal_buffer)
                  (sym (cache_receiver_positions-SameCorrelator fl db int_of dumps renewed_now))
                  h.buffered;
          }

      act-IsHeard : (e : Event) (r : Runtime F D) → IsAdmitted e → IsHeard r → IsHeard (act e r)
      unfolding act
      act-IsHeard (heard now later s) r p h = handle_incoming_signal-IsHeard now later s r h
      act-IsHeard (processed at) r p h = round-IsHeard at r h
      act-IsHeard (renewed c) r p h = renewed-IsHeard c r p h

      -- Over any sequence of received signals, processing rounds and refreshes, whatever database and
      -- solver return or raise, the correlator's buffer holds only signals of receivers that have
      -- what all receivers have that were cached at the start or were active at a refresh.
      pub act_all-IsHeard :
          (es : List Event) (r : Runtime F D)
          → All IsAdmitted es
          → IsHeard r
          → IsHeard (act_all es r)
      unfolding act_all
      act_all-IsHeard [] r p h = h
      act_all-IsHeard (e ∷ es) r p h = act_all-IsHeard es (act e r) p.1 (act-IsHeard e r p.0 h)
