-- ===== src/Discovery/Discover.antt =====
-- src/ckb_registry/discovery.py: `discover_peers` behind the search, and `get_receiver_details`.
use aircraft_malt.Prelude.{
  ℕ, Bool, Option, none, some, List, [], ◌∷◌, Str, Dict, lookup, insert, keep_if,
}
use aircraft_malt.Float.{Floats}
use aircraft_malt.Value.{Value, Result, ok, err, ◌>>=◌}
use aircraft_malt.Registry.Identity.{normalize_text}
use aircraft_malt.Registry.Decode.{Json}
use aircraft_malt.Discovery.Receiver.{ReceiverInfo, CkbConfig, is_receiver_valid}
use aircraft_malt.Discovery.Cells.{receiver_identity_from_cell, parse_receiver_cell}
use aircraft_malt.Discovery.Peers.{Scan, empty_scan, scan_cells, sort_by, values}

-- The result, with the two attributes that the call sets.
pub record Discovered (F : Type 0) : Type 0 where
  pub receivers : List (ReceiverInfo F)
  pub cached_peers : Dict (ReceiverInfo F)
  pub quarantined_identities : List Str

module _ {F : Type 0} where
  abbrev pub nothing_found : Discovered F
  nothing_found = record { receivers = []; cached_peers = []; quarantined_identities = [] }

  -- `receiver.receiver_identity or ""`
  abbrev pub identity_key : ReceiverInfo F → Str
  identity_key r = elim r.receiver_identity [ none ↦ [] | some i ↦ i ]

  abbrev cache_one : ReceiverInfo F → Option Str → Dict (ReceiverInfo F) → Dict (ReceiverInfo F)
  cache_one r none d = d
  cache_one r (some i) d = insert i r d

  unfoldable pub cache_all : List (ReceiverInfo F) → Dict (ReceiverInfo F) → Dict (ReceiverInfo F)
  cache_all [] d = d
  cache_all (r ∷ rs) d = cache_all rs (cache_one r r.receiver_identity d)

module _ (fl : Floats) (utf8_decode : List ℕ → Option Str) (json_tree : Str → Option (Json fl.F))
    (render : Value fl.F → Str) (config : CkbConfig fl.F) where
  open fl use {F}

  -- The loop over the cells.
  unfoldable pub scan : List (Value F) → Scan (ReceiverInfo F)
  unfolding scan_cells parse_receiver_cell receiver_identity_from_cell
  scan cells =
      scan_cells (receiver_identity_from_cell fl render config)
        (parse_receiver_cell fl utf8_decode json_tree config) cells empty_scan

  unfoldable pub discover_cells : F → Bool → Bool → List (Value F) → Discovered F
  unfolding scan sort_by is_receiver_valid cache_all
  discover_cells now include_inactive include_revoked cells =
      let s = scan cells in
      let active =
        keep_if (is_receiver_valid fl config now include_inactive include_revoked)
          (values s.receivers_by_identity) in
      record {
        receivers = sort_by identity_key active;
        cached_peers = cache_all active [];
        quarantined_identities = sort_by (λ i. i) s.duplicate_identities;
      }

  -- `discover_peers`, from the cells that the search returned or the error that it raised, which
  -- leaves nothing cached.
  unfoldable pub discover_peers :
      F → Bool → Bool → Result (List (Value F)) → Result (List (ReceiverInfo F)) × Discovered F
  unfolding discover_cells
  discover_peers now include_inactive include_revoked searched = elim searched [
    | ok cells ↦
        let found = discover_cells now include_inactive include_revoked cells in
        (ok found.receivers, found)
    | err e ↦ (err e, nothing_found)
  ]

  -- `get_receiver_details`
  unfoldable pub get_receiver_details : Discovered F → Str → Result (Option (ReceiverInfo F))
  get_receiver_details found receiver_identity = do
    identity ← normalize_text receiver_identity
    ok (lookup identity found.cached_peers)
