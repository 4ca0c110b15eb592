-- ===== src/Runtime/Current.antt =====
-- What a round of the Registry refresh leaves in the runtime.
use aircraft_malt.Prelude.{
  ◌≡◌, refl, ap, sym, ◌∙◌, inl, inr, Bool, true, false, not, ◌&&◌, none, List, [], ◌∷◌, Str, Dict,
  ℤ, str_eq, All, Bool-cases, arith,
}
use mathlib.Core.Path.{subst}
use aircraft_malt.Float.{Floats}
use aircraft_malt.Value.{
  Value, Result, Checked, Error, ok, err, runtime_error, strict_fallback, strict_synthetic,
}
use aircraft_malt.Discovery.Receiver.{ReceiverInfo}
use aircraft_malt.Ingest.Transport.{
  NetworkConfig, is_set, websocket_json, command_jsonl, determine_transport,
}
use aircraft_malt.Ingest.Client.{
  NetworkClient, is_idle, start_simulation, start_connections, start_transport, start_streaming,
  restart_streaming, refresh_registry_receivers,
}
use aircraft_malt.Ingest.Receivers.{Result-cases, is_registry}
use aircraft_malt.Ingest.Refresh.{IsEligible, received, refresh-IsEligible}
use aircraft_malt.Runtime.State.{Database, Runtime}
use aircraft_malt.Runtime.Base.{then_run, cache_receiver_positions}
use aircraft_malt.Runtime.Refresh.{
  same_keys, with_client, restart_if, refreshed, raise_if, recovered, registry_refresh_round,
}
use aircraft_malt.Runtime.Keys.{has}
use aircraft_malt.Runtime.Cached.{
  IsSynchronized, cache_receiver_positions-client, cache_receiver_positions-IsSynchronized,
}

module _ (fl : Floats) (config : NetworkConfig) where
  open fl use {F}

  -- Starting a feed leaves the active receivers as they are.
  simulation-active :
      (e : Error) (c : NetworkClient F)
      → (start_simulation fl config e c).1.active_receivers ≡ c.active_receivers
  simulation-active e c = elim (Bool-cases config.strict_production_mode) [
    | inl s ↦ rw s refl
    | inr s ↦ rw s refl
  ]

  connections-active :
      (made : Result (Dict Str)) (c : NetworkClient F)
      → (start_connections fl config made c).1.active_receivers ≡ c.active_receivers
  connections-active (err e) c = refl
  connections-active (ok []) c = simulation-active (runtime_error strict_fallback) _
  connections-active (ok (b ∷ bs)) c = refl

  transport-active :
      (transport : Str) (c : NetworkClient F)
      → (start_transport fl config transport c).1.active_receivers ≡ c.active_receivers
  transport-active transport c =
      elim (Bool-cases (str_eq transport command_jsonl && is_set config.fourdsky_bridge_command)) [
        | inl e ↦ rw e refl
        | inr e ↦ rw e (elim (Bool-cases (str_eq transport websocket_json)) [
          | inl k ↦ rw k (connections-active _ c)
          | inr k ↦ rw k (simulation-active (runtime_error strict_synthetic) c)
        ])
      ]

  streaming-active :
      (c : NetworkClient F) → (start_streaming fl config c).1.active_receivers ≡ c.active_receivers
  unfolding start_streaming
  streaming-active c = elim (Bool-cases (is_idle c.feed)) [
    | inr busy ↦ rw busy refl
    | inl idle ↦ rw idle (elim (Result-cases (determine_transport fl config c.active_receivers)) [
      | inl (t, e) ↦ rw e (transport-active t (record c { has_callback = true }))
      | inr (raised, e) ↦ rw e refl
    ])
  ]

  restart_streaming-active :
      (c : NetworkClient F)
      → (restart_streaming fl config c).1.active_receivers ≡ c.active_receivers
  unfolding restart_streaming
  restart_streaming-active c = elim (Bool-cases c.has_callback) [
    | inl e ↦ rw e (streaming-active (record c { feed = none }))
    | inr e ↦ simp e refl
  ]

module _ {F D : Type 0} (Q : Dict (ReceiverInfo F) → Type 0) where
  abbrev IsExact : Runtime F D → Type 0
  IsExact q = (j : Str) → has j q.receiver_positions ≡ has j q.network_client.active_receivers

  -- The cache is of active receivers, and `Q` holds of the active receivers.
  abbrev pub IsCurrent : Checked × Runtime F D → Type 0
  IsCurrent outcome = IsSynchronized outcome × Q outcome.1.network_client.active_receivers

  -- What the `try` block of a round leaves for its `except` block.
  abbrev IsPrepared : Checked × Runtime F D → Type 0
  IsPrepared (ok u, q) = IsExact q × Q q.network_client.active_receivers
  IsPrepared (err e, q) = Q q.network_client.active_receivers

  prepared : (outcome : Checked × Runtime F D) → IsCurrent outcome → IsPrepared outcome
  prepared (ok u, q) h = h
  prepared (err e, q) h = h.1

  then-IsCurrent :
      (step : Checked × Runtime F D) (rest : Runtime F D → Checked × Runtime F D)
      → IsCurrent step
      → ((q : Runtime F D) → IsExact q → Q q.network_client.active_receivers → IsCurrent (rest q))
      → IsCurrent (then_run step rest)
  then-IsCurrent (ok u, q) rest h k = k q h.0 h.1
  then-IsCurrent (err e, q) rest h k = h

module _ (fl : Floats) (config : NetworkConfig) (value_eq : Value fl.F → Value fl.F → Bool)
    (demo : List (ReceiverInfo fl.F)) {D : Type 0} (db : Database fl.F D)
    (int_of : Value fl.F → Result ℤ) (dumps : Value fl.F → Str)
    (Q : Dict (ReceiverInfo fl.F) → Type 0) where
  open fl use {F}

  cached-IsCurrent :
      (r : Runtime F D)
      → Q r.network_client.active_receivers
      → IsCurrent Q (cache_receiver_positions fl db int_of dumps r)
  cached-IsCurrent r h = (
    cache_receiver_positions-IsSynchronized fl db int_of dumps r,
    subst (λ (c : NetworkClient F). Q c.active_receivers)
        (sym (cache_receiver_positions-client fl db int_of dumps r)) h,
  )

  with_client-IsCurrent :
      (q : Runtime F D) (outcome : Checked × NetworkClient F)
      → outcome.1.active_receivers ≡ q.network_client.active_receivers
      → IsExact Q q
      → Q q.network_client.active_receivers
      → IsCurrent Q (with_client fl config value_eq demo db int_of dumps q outcome)
  with_client-IsCurrent q (ok u, c) same h k =
      ((λ j. h j ∙ sym (ap (λ (d : Dict (ReceiverInfo F)). has j d) same)), subst Q (sym same) k)
  with_client-IsCurrent q (err e, c) same h k = (
    (λ j.
        (let found = ap (λ (d : Dict (ReceiverInfo F)). has j d) same in
          ground (arith, h j, found))),
    subst Q (sym same) k,
  )

  restart_if-IsCurrent :
      (changed : Bool) (q : Runtime F D)
      → IsExact Q q
      → Q q.network_client.active_receivers
      → IsCurrent Q (restart_if fl config value_eq demo db int_of dumps changed q)
  restart_if-IsCurrent true q h k =
      with_client-IsCurrent q (restart_streaming fl config q.network_client)
        (restart_streaming-active fl config q.network_client) h k
  restart_if-IsCurrent false q h k = (h, k)

  raise_if-IsCurrent :
      (strict : Bool) (e : Error) (q : Runtime F D)
      → IsExact Q q
      → Q q.network_client.active_receivers
      → IsCurrent Q (raise_if fl config value_eq demo db int_of dumps strict e q)
  raise_if-IsCurrent true e q h k = ((λ j. ground (arith, h j)), k)
  raise_if-IsCurrent false e q h k = (h, k)

  refreshed-IsPrepared :
      (outcome : Result Bool × Runtime F D)
      → Q outcome.1.network_client.active_receivers
      → IsPrepared Q (refreshed fl config value_eq demo db int_of dumps outcome)
  refreshed-IsPrepared (err e, r) h = h
  refreshed-IsPrepared (ok changed, r) h = prepared Q _ (
      then-IsCurrent Q (cache_receiver_positions fl db int_of dumps r)
        (restart_if fl config value_eq demo db int_of dumps changed) (cached-IsCurrent r h)
        (λ q exact k. restart_if-IsCurrent changed q exact k))

  recovered-IsCurrent :
      (previous : Dict (ReceiverInfo F)) (outcome : Checked × Runtime F D)
      → IsPrepared Q outcome
      → IsCurrent Q (recovered fl config value_eq demo db int_of dumps previous outcome)
  recovered-IsCurrent previous (ok u, r) h = h
  recovered-IsCurrent previous (err e, r) h =
      then-IsCurrent Q (cache_receiver_positions fl db int_of dumps r) _ (cached-IsCurrent r h)
        (λ q exact k.
          then-IsCurrent Q
            (restart_if fl config value_eq demo db int_of dumps
              (not (same_keys q.network_client.active_receivers previous)) q)
            _
            (restart_if-IsCurrent (not (same_keys q.network_client.active_receivers previous)) q
              exact k)
            (λ s exact' k'. raise_if-IsCurrent config.strict_production_mode e s exact' k'))

module _ (fl : Floats) (config : NetworkConfig) (value_eq : Value fl.F → Value fl.F → Bool)
    (demo : List (ReceiverInfo fl.F)) (others : All (λ r. is_registry r ≡ false) demo) {D : Type 0}
    (db : Database fl.F D) (int_of : Value fl.F → Result ℤ) (dumps : Value fl.F → Str)
    (P : ReceiverInfo fl.F → Type 0) where
  open fl use {F}

  -- After a round of the refresh loop with a Registry configured, whether it returned or an
  -- exception left it, every active receiver from the Registry has whatever all receivers of this
  -- round's discovery have, is online and offers mlat, at most `max_receivers` are from the Registry
  -- and none if the discovery failed; the runtime's cache has no receiver that is not active, and if
  -- the round returned it has all that are.
  pub registry_refresh_round-IsCurrent :
      (started finished now : F) (discovered : Result (List (ReceiverInfo F))) (r : Runtime F D)
      → str_eq config.receiver_registry_type_hash [] ≡ false
      → All P (received discovered)
      → IsCurrent (IsEligible P (elim discovered [ ok rs ↦ config.max_receivers | err e ↦ 0 ])) (
          registry_refresh_round fl config value_eq demo db int_of dumps started finished now
            discovered r)
  unfolding registry_refresh_round
  registry_refresh_round-IsCurrent started finished now discovered r configured h =
      let Q = IsEligible P (elim discovered [ ok rs ↦ config.max_receivers | err e ↦ 0 ]) in
      let outcome = with_client fl config value_eq demo db int_of dumps r (
        refresh_registry_receivers fl config value_eq demo started finished now discovered
          r.network_client) in
      recovered-IsCurrent fl config value_eq demo db int_of dumps Q
        r.network_client.active_receivers
        (refreshed fl config value_eq demo db int_of dumps outcome)
        (refreshed-IsPrepared fl config value_eq demo db int_of dumps Q outcome (
          refresh-IsEligible fl config demo others P r.network_client value_eq started finished now
            discovered configured h))
