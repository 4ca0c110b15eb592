-- ===== src/Runtime/Refresh.antt =====
-- src/mlat_reference/runtime.py: one round of `_registry_refresh_loop`, after its sleep. What the
-- discovery returned or raised and the readings of the clock are arguments; an exception that
-- leaves the round ends the loop.
use aircraft_malt.Prelude.{Bool, true, false, not, ◌&&◌, List, Str, Dict, ℤ, lookup, all_of}
use aircraft_malt.Float.{Floats}
use aircraft_malt.Value.{Value, Result, Checked, Error, ok, err}
use aircraft_malt.Discovery.Receiver.{ReceiverInfo}
use aircraft_malt.Ingest.Transport.{NetworkConfig}
use aircraft_malt.Ingest.Client.{NetworkClient, refresh_registry_receivers, restart_streaming}
use aircraft_malt.Runtime.State.{Database, Runtime}
use aircraft_malt.Runtime.Base.{is_some, then_run, cache_receiver_positions}

-- `set(d) == set(e)`
unfoldable pub same_keys {ℓ κ} : {V : Type ℓ} {W : Type κ} → Dict V → Dict W → Bool
unfolding lookup
same_keys d e =
    all_of (λ entry. is_some (lookup entry.0 e)) d && all_of (λ entry. is_some (lookup entry.0 d)) e

module _ (fl : Floats) (config : NetworkConfig) (value_eq : Value fl.F → Value fl.F → Bool)
    (demo : List (ReceiverInfo fl.F)) {D : Type 0} (db : Database fl.F D)
    (int_of : Value fl.F → Result ℤ) (dumps : Value fl.F → Str) where
  open fl use {F}

  abbrev pub with_client {ℓ} : {A : Type ℓ} → Runtime F D → A × NetworkClient F → A × Runtime F D
  with_client r (result, c) = (result, record r { network_client = c })

  abbrev pub restart : Runtime F D → Checked × Runtime F D
  restart r = with_client r (restart_streaming fl config r.network_client)

  abbrev pub restart_if : Bool → Runtime F D → Checked × Runtime F D
  restart_if true r = restart r
  restart_if false r = (ok tt, r)

  -- The `try` block behind its first call.
  abbrev pub refreshed : Result Bool × Runtime F D → Checked × Runtime F D
  refreshed (err e, r) = (err e, r)
  refreshed (ok changed, r) =
      then_run (cache_receiver_positions fl db int_of dumps r) (restart_if changed)

  abbrev pub raise_if : Bool → Error → Runtime F D → Checked × Runtime F D
  raise_if true e r = (err e, r)
  raise_if false e r = (ok tt, r)

  -- The `except Exception` block, with the receivers that were active before.
  abbrev pub recovered : Dict (ReceiverInfo F) → Checked × Runtime F D → Checked × Runtime F D
  recovered previous (ok u, r) = (ok u, r)
  recovered previous (err e, r) = then_run (cache_receiver_positions fl db int_of dumps r) (λ q.
      then_run (restart_if (not (same_keys q.network_client.active_receivers previous)) q)
        (raise_if config.strict_production_mode e))

  unfoldable pub registry_refresh_round :
      F → F → F → Result (List (ReceiverInfo F)) → Runtime F D → Checked × Runtime F D
  unfolding refresh_registry_receivers restart_streaming cache_receiver_positions same_keys
  registry_refresh_round started finished now discovered r =
      recovered r.network_client.active_receivers (
        refreshed (
          with_client r (
            refresh_registry_receivers fl config value_eq demo started finished now discovered
              r.network_client)))
