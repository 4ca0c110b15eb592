-- ===== src/Ingest/Strict.antt =====
-- A strict deployment runs no simulation.
use aircraft_malt.Prelude.{
  ◌≡◌, refl, inl, inr, Bool, true, false, ◌&&◌, Option, none, some, List, [], ◌∷◌, Str, Dict,
  str_eq, All, All-map, All-keep_if, Bool-cases,
}
use mathlib.Core.Path.{subst}
use aircraft_malt.Float.{Floats}
use aircraft_malt.Value.{
  Value, Result, Error, ok, err, runtime_error, strict_fallback, strict_synthetic,
}
use aircraft_malt.Discovery.Receiver.{ReceiverInfo}
use aircraft_malt.Ingest.Transport.{
  NetworkConfig, is_set, command_jsonl, websocket_json, determine_transport,
}
use aircraft_malt.Ingest.Client.{
  Feed, command_feed, websocket_feed, simulated_feed, NetworkClient, attempt, is_idle,
  is_selectable, select_receivers, add_receivers, retained, augment_receivers, finish_initialize,
  initialize, refresh_failed, refresh_succeeded, refresh_registry_receivers, start_simulation,
  start_connections, start_transport, start_streaming, restart_streaming, shutdown,
}
use aircraft_malt.Ingest.Receivers.{Result-cases, select-All, add_receivers-All, augment-cases}
use aircraft_malt.Ingest.Refresh.{received}

abbrev pub is_simulated : Option Feed → Bool
is_simulated none = false
is_simulated (some (command_feed command)) = false
is_simulated (some (websocket_feed connections)) = false
is_simulated (some simulated_feed) = true

true-ne-false : {b : Bool} → b ≡ true → b ≡ false → ⊥
true-ne-false h k = cc

module _ (fl : Floats) where
  open fl use {F}

  -- The calls on a client, with the clock's readings and the outcome of the discovery.
  pub data Action : Type 0 where
    initialize_on : F → F → F → Result (List (ReceiverInfo F)) → Action
    refresh_on : F → F → F → Result (List (ReceiverInfo F)) → Action
    start : Action
    restart : Action
    stop : Action

  abbrev discovered_by : Action → List (ReceiverInfo F)
  discovered_by (initialize_on started finished now discovered) = received discovered
  discovered_by (refresh_on started finished now discovered) = received discovered
  discovered_by start = []
  discovered_by restart = []
  discovered_by stop = []

  module _ (config : NetworkConfig) (value_eq : Value F → Value F → Bool)
      (demo : List (ReceiverInfo F)) where
    -- The client that an action leaves, whether it returned or raised.
    abbrev pub act : Action → NetworkClient F → NetworkClient F
    act (initialize_on started finished now discovered) c =
        (initialize fl config demo started finished now discovered c).1
    act (refresh_on started finished now discovered) c =
        (refresh_registry_receivers fl config value_eq demo started finished now discovered c).1
    act start c = (start_streaming fl config c).1
    act restart c = (restart_streaming fl config c).1
    act stop c = shutdown fl config c

    abbrev pub act_all : List Action → NetworkClient F → NetworkClient F
    act_all [] c = c
    act_all (a ∷ actions) c = act_all actions (act a c)

    -- No simulated traffic, and every active receiver has what the discovered ones have.
    pub record IsLive (P : ReceiverInfo F → Type 0) (c : NetworkClient F) : Type 0 where
      pub real_feed : is_simulated c.feed ≡ false
      pub real_receivers : All (λ e. P e.1) c.active_receivers

    module _ (strict : config.strict_production_mode ≡ true) (P : ReceiverInfo F → Type 0) where
      augment-same :
          (d : Dict (ReceiverInfo F)) {a : Dict (ReceiverInfo F)}
          → augment_receivers fl config demo d ≡ ok a
          → d ≡ a
      augment-same d h = elim (augment-cases fl config demo d h) [
        | inl same ↦ same
        | inr (lax, _) ↦ absurd (true-ne-false strict lax)
      ]

      selected-All :
          (rs : List (ReceiverInfo F)) (d : Dict (ReceiverInfo F))
          → All P rs
          → All (λ e. P e.1) d
          → All (λ e. P e.1) (add_receivers (select_receivers config.max_receivers rs) d)
      selected-All rs d h k =
          let selected = select_receivers config.max_receivers rs in
          add_receivers-All P selected d
            (All-map (λ r. P r × (is_selectable r ≡ true)) P (λ r q. q.0) selected
              (select-All P config.max_receivers rs h))
            k

      finish_initialize-IsLive :
          (started finished now : F) (rs : List (ReceiverInfo F)) (c : NetworkClient F)
          → All P rs
          → IsLive P c
          → IsLive P (finish_initialize fl config demo started finished now rs c).1
      unfolding finish_initialize
      finish_initialize-IsLive started finished now rs c h live =
          let d = add_receivers (select_receivers config.max_receivers rs) c.active_receivers in
          let all = selected-All rs c.active_receivers h live.real_receivers in
          elim (Result-cases (augment_receivers fl config demo d)) [
            | inl (a, e) ↦ rw e (record {
              real_feed = live.real_feed;
              real_receivers = subst (All (λ x. P x.1)) (augment-same d e) all;
            })
            | inr (raised, e) ↦ rw e (record { real_feed = live.real_feed; real_receivers = all })
          ]

      initialize-IsLive :
          (started finished now : F) (discovered : Result (List (ReceiverInfo F)))
          (c : NetworkClient F)
          → All P (received discovered)
          → IsLive P c
          → IsLive P (initialize fl config demo started finished now discovered c).1
      unfolding initialize
      initialize-IsLive started finished now (ok rs) c h live =
          finish_initialize-IsLive started finished now rs
            (record c { registry_discovery_live = true }) h
            (record { real_feed = live.real_feed; real_receivers = live.real_receivers })
      initialize-IsLive started finished now (err raised) c h live = simp strict live

      refresh-IsLive :
          (started finished now : F) (discovered : Result (List (ReceiverInfo F)))
          (c : NetworkClient F)
          → All P (received discovered)
          → IsLive P c
          → IsLive P
              (refresh_registry_receivers fl config value_eq demo started finished now discovered
                c).1
      unfolding refresh_registry_receivers refresh_succeeded refresh_failed
      refresh-IsLive started finished now discovered c h live =
          elim (Bool-cases (str_eq config.receiver_registry_type_hash [])) [
            | inl unset ↦ rw unset live
            | inr set ↦ rw set (after discovered h)
          ]
        where
          kept : All (λ e. P e.1) (retained c.active_receivers)
          kept = unfold retained in All-keep_if _ _ c.active_receivers live.real_receivers

          after :
              (r : Result (List (ReceiverInfo F)))
              → All P (received r)
              → IsLive P
                  (attempt r
                    (λ rs. refresh_succeeded fl config value_eq demo started finished now rs c)
                    (λ e. refresh_failed fl config demo started finished e c)).1
          after (ok rs) h =
              let d =
                add_receivers (select_receivers config.max_receivers rs)
                  (retained c.active_receivers) in
              let all = selected-All rs (retained c.active_receivers) h kept in
              elim (Result-cases (augment_receivers fl config demo d)) [
                | inl (a, e) ↦ rw e (record {
                  real_feed = live.real_feed;
                  real_receivers = subst (All (λ x. P x.1)) (augment-same d e) all;
                })
                | inr (raised, e) ↦
                    rw e (record { real_feed = live.real_feed; real_receivers = all })
              ]
          after (err raised) h =
              let d = retained c.active_receivers in
              elim (Result-cases (augment_receivers fl config demo d)) [
                | inl (a, e) ↦ rw e (record {
                  real_feed = live.real_feed;
                  real_receivers = subst (All (λ x. P x.1)) (augment-same d e) kept;
                })
                | inr (again, e) ↦
                    rw e (record { real_feed = live.real_feed; real_receivers = kept })
              ]

      start_simulation-IsLive :
          (e : Error) (c : NetworkClient F)
          → IsLive P c
          → IsLive P (start_simulation fl config e c).1
      start_simulation-IsLive e c live = simp strict live

      start_connections-IsLive :
          (r : Result (Dict Str)) (c : NetworkClient F)
          → IsLive P c
          → IsLive P (start_connections fl config r c).1
      start_connections-IsLive (err e) c live = record {
        real_feed = refl;
        real_receivers = live.real_receivers;
      }
      start_connections-IsLive (ok []) c live =
          start_simulation-IsLive (runtime_error strict_fallback)
            (record c { feed = some (websocket_feed []) })
            (record { real_feed = refl; real_receivers = live.real_receivers })
      start_connections-IsLive (ok (b ∷ bs)) c live = record {
        real_feed = refl;
        real_receivers = live.real_receivers;
      }

      start_transport-IsLive :
          (transport : Str) (c : NetworkClient F)
          → IsLive P c
          → IsLive P (start_transport fl config transport c).1
      start_transport-IsLive transport c live =
          elim (Bool-cases
            (str_eq transport command_jsonl && is_set config.fourdsky_bridge_command)) [
              | inl e ↦ rw e (record { real_feed = refl; real_receivers = live.real_receivers })
              | inr e ↦ rw e (elim (Bool-cases (str_eq transport websocket_json)) [
                | inl k ↦ rw k (start_connections-IsLive _ c live)
                | inr k ↦ rw k (start_simulation-IsLive (runtime_error strict_synthetic) c live)
              ])
            ]

      start_streaming-IsLive :
          (c : NetworkClient F) → IsLive P c → IsLive P (start_streaming fl config c).1
      unfolding start_streaming
      start_streaming-IsLive c live =
          let called : IsLive P (record c { has_callback = true }) = record {
            real_feed = live.real_feed;
            real_receivers = live.real_receivers;
          } in
          elim (Bool-cases (is_idle c.feed)) [
            | inr busy ↦ rw busy called
            | inl idle ↦
                rw idle (elim (Result-cases (determine_transport fl config c.active_receivers)) [
                  | inl (t, e) ↦ rw e (start_transport-IsLive t _ called)
                  | inr (raised, e) ↦ rw e called
                ])
          ]

      restart_streaming-IsLive :
          (c : NetworkClient F) → IsLive P c → IsLive P (restart_streaming fl config c).1
      unfolding restart_streaming
      restart_streaming-IsLive c live = elim (Bool-cases c.has_callback) [
        | inl e ↦ rw e (
            start_streaming-IsLive (record c { feed = none })
              (record { real_feed = refl; real_receivers = live.real_receivers }))
        | inr e ↦ simp e live
      ]

      act-IsLive :
          (a : Action) (c : NetworkClient F)
          → All P (discovered_by a)
          → IsLive P c
          → IsLive P (act a c)
      act-IsLive (initialize_on started finished now discovered) c h live =
          initialize-IsLive started finished now discovered c h live
      act-IsLive (refresh_on started finished now discovered) c h live =
          refresh-IsLive started finished now discovered c h live
      act-IsLive start c h live = start_streaming-IsLive c live
      act-IsLive restart c h live = restart_streaming-IsLive c live
      act-IsLive stop c h live = unfold shutdown in record { real_feed = refl; real_receivers = tt }

      -- In strict production mode no sequence of calls, whatever they return or raise, starts
      -- simulated traffic or makes a receiver active that no discovery returned: what holds of all
      -- discovered receivers holds of the active ones.
      pub act_all-IsLive :
          (actions : List Action) (c : NetworkClient F)
          → All (λ a. All P (discovered_by a)) actions
          → IsLive P c
          → IsLive P (act_all actions c)
      act_all-IsLive [] c h live = live
      act_all-IsLive (a ∷ actions) c h live =
          act_all-IsLive actions (act a c) h.1 (act-IsLive a c h.0 live)
