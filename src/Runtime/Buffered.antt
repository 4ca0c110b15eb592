-- ===== src/Runtime/Buffered.antt =====
-- Caching receivers leaves the correlator as it is.
use aircraft_malt.Prelude.{◌≡◌, refl, ◌∙◌, inl, inr, List, [], ◌∷◌, Str, Dict, ℤ, insert}
use aircraft_malt.Float.{Floats}
use aircraft_malt.Value.{Value, Result, Checked, ok, err, ◌>>=◌}
use aircraft_malt.Discovery.Receiver.{ReceiverInfo}
use aircraft_malt.Ingest.Receivers.{Result-cases}
use aircraft_malt.Runtime.State.{Database, Runtime}
use aircraft_malt.Runtime.Base.{
  keys_without, build_receiver_position, active_registry_ids, receiver_row, on_database, then_run,
  with_positions, on_receiver_cached, on_receivers_removed, cache_receivers, drop_receivers,
  cache_receiver_positions,
}

module _ {F D : Type 0} where
  abbrev SameCorrelator : Runtime F D → Checked × Runtime F D → Type 0
  SameCorrelator r outcome = outcome.1.correlator ≡ r.correlator

  on_database-SameCorrelator :
      (call : D → Result D) (r : Runtime F D) → SameCorrelator r (on_database call r)
  on_database-SameCorrelator call r = elim (Result-cases (call r.database)) [
    | inl (d, e) ↦ rw e refl
    | inr (raised, e) ↦ rw e refl
  ]

  then-SameCorrelator :
      (r : Runtime F D) (step : Checked × Runtime F D) (rest : Runtime F D → Checked × Runtime F D)
      → SameCorrelator r step
      → ((q : Runtime F D) → SameCorrelator q (rest q))
      → SameCorrelator r (then_run step rest)
  then-SameCorrelator r (err e, q) rest h k = h
  then-SameCorrelator r (ok u, q) rest h k = k q ∙ h

module _ (fl : Floats) {D : Type 0} (db : Database fl.F D) (int_of : Value fl.F → Result ℤ)
    (dumps : Value fl.F → Str) where
  open fl use {F}

  cache_receivers-SameCorrelator :
      (found : Dict (ReceiverInfo F)) (r : Runtime F D)
      → SameCorrelator r (cache_receivers fl db int_of dumps found r)
  unfolding cache_receivers on_receiver_cached
  cache_receivers-SameCorrelator [] r = refl
  cache_receivers-SameCorrelator ((id, info) ∷ found) r =
      let entered =
        with_positions r (insert id (build_receiver_position id info) r.receiver_positions) in
      then-SameCorrelator r (on_receiver_cached fl db int_of dumps id info entered)
        (cache_receivers fl db int_of dumps found)
        (on_database-SameCorrelator
          (λ d. receiver_row fl db int_of dumps id info >>= λ row. db.store_receiver row d) entered)
        (cache_receivers-SameCorrelator found)

  drop_receivers-SameCorrelator :
      (ids : List Str) (r : Runtime F D)
      → SameCorrelator r (drop_receivers fl db int_of dumps ids r)
  unfolding on_receivers_removed
  drop_receivers-SameCorrelator [] r = refl
  drop_receivers-SameCorrelator (id ∷ ids) r =
      elim (Result-cases (db.delete_receivers (id ∷ ids) r.database)) [
        | inl (d, e) ↦ rw e refl
        | inr (raised, e) ↦ rw e refl
      ]

  pub cache_receiver_positions-SameCorrelator :
      (r : Runtime F D)
      → (cache_receiver_positions fl db int_of dumps r).1.correlator ≡ r.correlator
  unfolding cache_receiver_positions
  cache_receiver_positions-SameCorrelator r =
      let active = r.network_client.active_receivers in
      let call = db.delete_registry_receivers_except (active_registry_ids active) in
      let ids = keys_without r.receiver_positions active in
      then-SameCorrelator r (drop_receivers fl db int_of dumps ids r)
        (λ q. then_run (cache_receivers fl db int_of dumps active q) (on_database call))
        (drop_receivers-SameCorrelator ids r)
        (λ q.
          then-SameCorrelator q (cache_receivers fl db int_of dumps active q) (on_database call)
            (cache_receivers-SameCorrelator active q) (on_database-SameCorrelator call))
