-- ===== src/Runtime/Cached.antt =====
-- Which receivers the runtime has a position of.
use aircraft_malt.Prelude.{
  ◌≡◌, refl, ap, sym, ◌∙◌, inl, inr, false, not, ◌&&◌, ◌||◌, List, [], ◌∷◌, Str, Dict, ℤ, lookup,
  insert, arith,
}
use mathlib.Core.Path.{subst}
use aircraft_malt.Float.{Floats}
use aircraft_malt.Value.{Value, Result, Checked, ok, err, ◌>>=◌}
use aircraft_malt.Discovery.Receiver.{ReceiverInfo}
use aircraft_malt.Ingest.Client.{NetworkClient}
use aircraft_malt.Ingest.Receivers.{Result-cases}
use aircraft_malt.Runtime.State.{ReceiverPosition, Database, Runtime}
use aircraft_malt.Runtime.Base.{
  remove_all, keys_without, build_receiver_position, active_registry_ids, receiver_row, on_database,
  then_run, with_positions, on_receiver_cached, on_receivers_removed, cache_receivers,
  drop_receivers, cache_receiver_positions,
}
use aircraft_malt.Runtime.Keys.{has, has-insert, has-cons, has-common}

module _ {F D : Type 0} where
  -- The cache has the keys of `found` besides those it had, or at most these if an exception ended
  -- the step; the client is as it was.
  abbrev IsExtended : Dict (ReceiverInfo F) → Runtime F D → Checked × Runtime F D → Type 0
  IsExtended found r (ok _, q) =
      (q.network_client ≡ r.network_client)
      × ((j : Str) → has j q.receiver_positions ≡ (has j found || has j r.receiver_positions))
  IsExtended found r (err e, q) =
      (q.network_client ≡ r.network_client)
      × ((j : Str)
          → (has j q.receiver_positions && not (has j found || has j r.receiver_positions)) ≡ false)

  -- The cached receivers are exactly the active ones, or, if an exception ended the step, some of
  -- the active ones.
  abbrev pub IsSynchronized : Checked × Runtime F D → Type 0
  IsSynchronized (ok _, q) =
      (j : Str) → has j q.receiver_positions ≡ has j q.network_client.active_receivers
  IsSynchronized (err e, q) =
      (j : Str)
      → (has j q.receiver_positions && not (has j q.network_client.active_receivers)) ≡ false

  -- What a database call leaves.
  abbrev pub SameCache : Runtime F D → Runtime F D → Type 0
  SameCache r q =
      (q.network_client ≡ r.network_client) × (q.receiver_positions ≡ r.receiver_positions)

  on_database-SameCache :
      (call : D → Result D) (r : Runtime F D) → SameCache r (on_database call r).1
  on_database-SameCache call r = elim (Result-cases (call r.database)) [
    | inl (d, e) ↦ rw e (refl, refl)
    | inr (raised, e) ↦ rw e (refl, refl)
  ]

  -- The first entry of the loop, and then the others.
  join-IsExtended :
      (id : Str) (info : ReceiverInfo F) (position : ReceiverPosition F)
      (found : Dict (ReceiverInfo F)) (r q : Runtime F D) (outcome : Checked × Runtime F D)
      → SameCache (with_positions r (insert id position r.receiver_positions)) q
      → IsExtended found q outcome
      → IsExtended ((id, info) ∷ found) r outcome
  join-IsExtended id info position found r q (ok _, s) h k = (
    k.0 ∙ h.0,
    λ j.
        (let first = ap (has j) h.1 in
          ground (
            arith,
            k.1 j,
            first,
            has-insert id j position r.receiver_positions,
            has-cons id j info found,
          )),
  )
  join-IsExtended id info position found r q (err e, s) h k = (
    k.0 ∙ h.0,
    λ j.
        (let first = ap (has j) h.1 in
          ground (
            arith,
            k.1 j,
            first,
            has-insert id j position r.receiver_positions,
            has-cons id j info found,
          )),
  )

  then-IsExtended :
      (id : Str) (info : ReceiverInfo F) (position : ReceiverPosition F)
      (found : Dict (ReceiverInfo F)) (r : Runtime F D) (step : Checked × Runtime F D)
      (rest : Runtime F D → Checked × Runtime F D)
      → SameCache (with_positions r (insert id position r.receiver_positions)) step.1
      → ((q : Runtime F D) → IsExtended found q (rest q))
      → IsExtended ((id, info) ∷ found) r (then_run step rest)
  then-IsExtended id info position found r (ok _, q) rest h k =
      join-IsExtended id info position found r q (rest q) h (k q)
  then-IsExtended id info position found r (err e, q) rest h k = (
    h.0,
    λ j.
        (let first = ap (has j) h.1 in
          ground (
            arith,
            first,
            has-insert id j position r.receiver_positions,
            has-cons id j info found,
          )),
  )

module _ (fl : Floats) {D : Type 0} (db : Database fl.F D) (int_of : Value fl.F → Result ℤ)
    (dumps : Value fl.F → Str) where
  open fl use {F}

  on_receiver_cached-SameCache :
      (id : Str) (info : ReceiverInfo F) (r : Runtime F D)
      → SameCache r (on_receiver_cached fl db int_of dumps id info r).1
  unfolding on_receiver_cached
  on_receiver_cached-SameCache id info r =
      on_database-SameCache
        (λ d. receiver_row fl db int_of dumps id info >>= λ row. db.store_receiver row d) r

  cache_receivers-IsExtended :
      (found : Dict (ReceiverInfo F)) (r : Runtime F D)
      → IsExtended found r (cache_receivers fl db int_of dumps found r)
  unfolding cache_receivers lookup
  cache_receivers-IsExtended [] r = (refl, λ j. refl)
  cache_receivers-IsExtended ((id, info) ∷ found) r =
      let position = build_receiver_position id info in
      let entered = with_positions r (insert id position r.receiver_positions) in
      then-IsExtended id info position found r
        (on_receiver_cached fl db int_of dumps id info entered)
        (cache_receivers fl db int_of dumps found) (on_receiver_cached-SameCache id info entered)
        (cache_receivers-IsExtended found)

  drop_receivers-SameCache :
      (ids : List Str) (r : Runtime F D)
      → SameCache
          (with_positions r (remove_all ids r.receiver_positions))
          (drop_receivers fl db int_of dumps ids r).1
  unfolding remove_all on_receivers_removed
  drop_receivers-SameCache [] r = (refl, refl)
  drop_receivers-SameCache (id ∷ ids) r =
      elim (Result-cases (db.delete_receivers (id ∷ ids) r.database)) [
        | inl (d, e) ↦ rw e (refl, refl)
        | inr (raised, e) ↦ rw e (refl, refl)
      ]

  synchronized :
      (call : D → Result D) (s : Runtime F D)
      → ((j : Str) → has j s.receiver_positions ≡ has j s.network_client.active_receivers)
      → IsSynchronized (on_database call s)
  synchronized call s h = elim (Result-cases (call s.database)) [
    | inl (d, e) ↦ rw e h
    | inr (raised, e) ↦ rw e (λ j. ground (arith, h j))
  ]

  -- The end of a step that cached the active receivers over a cache of some of them.
  finished :
      (call : D → Result D) (q : Runtime F D) (outcome : Checked × Runtime F D)
      → ((j : Str)
          → (has j q.receiver_positions && not (has j q.network_client.active_receivers)) ≡ false)
      → IsExtended q.network_client.active_receivers q outcome
      → IsSynchronized (then_run outcome (on_database call))
  finished call q (ok _, s) h k = synchronized call s (λ j.
      (let client = ap (λ (c : NetworkClient F). has j c.active_receivers) k.0 in
        ground (arith, h j, k.1 j, client)))
  finished call q (err e, s) h k = λ j.
      (let client = ap (λ (c : NetworkClient F). has j c.active_receivers) k.0 in
        ground (arith, h j, k.1 j, client))

  dropped :
      (r q : Runtime F D) (active : Dict (ReceiverInfo F))
      → r.network_client.active_receivers ≡ active
      → SameCache
          (with_positions r
            (remove_all (keys_without r.receiver_positions active) r.receiver_positions))
          q
      → (j : Str)
      → (has j q.receiver_positions && not (has j q.network_client.active_receivers)) ≡ false
  dropped r q active same h j =
      let client = ap (λ (c : NetworkClient F). has j c.active_receivers) h.0 in
      let found = ap (λ (d : Dict (ReceiverInfo F)). has j d) same in
      let positions = ap (λ (d : Dict (ReceiverPosition F)). has j d) h.1 in
      ground (arith, client, found, positions, has-common r.receiver_positions active j)

  then-IsSynchronized :
      (step : Checked × Runtime F D) (rest : Runtime F D → Checked × Runtime F D)
      → ((j : Str)
          → (has j step.1.receiver_positions && not (has j step.1.network_client.active_receivers))
            ≡ false)
      → IsSynchronized (rest step.1)
      → IsSynchronized (then_run step rest)
  then-IsSynchronized (ok _, q) rest h k = k
  then-IsSynchronized (err e, q) rest h k = h

  then-client :
      (client : NetworkClient F) (step : Checked × Runtime F D)
      (rest : Runtime F D → Checked × Runtime F D)
      → step.1.network_client ≡ client
      → (rest step.1).1.network_client ≡ client
      → (then_run step rest).1.network_client ≡ client
  then-client client (ok _, q) rest h k = k
  then-client client (err e, q) rest h k = h

  extended-client :
      (found : Dict (ReceiverInfo F)) (r : Runtime F D) (outcome : Checked × Runtime F D)
      → IsExtended found r outcome
      → outcome.1.network_client ≡ r.network_client
  extended-client found r (ok _, q) h = h.0
  extended-client found r (err e, q) h = h.0

  -- Caching leaves the network client as it is.
  pub cache_receiver_positions-client :
      (r : Runtime F D)
      → (cache_receiver_positions fl db int_of dumps r).1.network_client ≡ r.network_client
  unfolding cache_receiver_positions
  cache_receiver_positions-client r =
      let active = r.network_client.active_receivers in
      let ids = keys_without r.receiver_positions active in
      let first = drop_receivers fl db int_of dumps ids r in
      let second = cache_receivers fl db int_of dumps active first.1 in
      let call = db.delete_registry_receivers_except (active_registry_ids active) in
      let same = (drop_receivers-SameCache ids r).0 in
      let same' =
        extended-client active first.1 second (cache_receivers-IsExtended active first.1) ∙ same in
      then-client r.network_client first _ same (
        then-client r.network_client second (on_database call) same'
          ((on_database-SameCache call second.1).0 ∙ same'))

  -- After the runtime cached the receivers, its cache has exactly the active receivers; if a call of
  -- the database raised an exception on the way, it has some of the active receivers and no other.
  pub cache_receiver_positions-IsSynchronized :
      (r : Runtime F D) → IsSynchronized (cache_receiver_positions fl db int_of dumps r)
  unfolding cache_receiver_positions
  cache_receiver_positions-IsSynchronized r =
      let active = r.network_client.active_receivers in
      let ids = keys_without r.receiver_positions active in
      let first = drop_receivers fl db int_of dumps ids r in
      let call = db.delete_registry_receivers_except (active_registry_ids active) in
      let same = drop_receivers-SameCache ids r in
      let subset = dropped r first.1 active refl same in
      then-IsSynchronized first
        (λ q. then_run (cache_receivers fl db int_of dumps active q) (on_database call)) subset
        (finished call first.1 (cache_receivers fl db int_of dumps active first.1) subset (
          subst
            (λ (c : NetworkClient F).
              IsExtended c.active_receivers first.1
                (cache_receivers fl db int_of dumps active first.1))
            (sym same.0) (cache_receivers-IsExtended active first.1)))
