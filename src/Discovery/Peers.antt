-- ===== src/Discovery/Peers.antt =====
-- src/ckb_registry/discovery.py: the loop of `discover_peers` over the cells, and its result.
use aircraft_malt.Prelude.{
  Option, none, some, List, [], ◌∷◌, Str, Dict, insert, remove, str_in, str_lt, if◌then◌else◌,
}
use aircraft_malt.Value.{Result, ok, err}

-- The three collections that the loop keeps, over what a cell is parsed to.
pub record Scan (R : Type 0) : Type 0 where
  pub receivers_by_identity : Dict R
  pub seen_identities : List Str
  pub duplicate_identities : List Str

abbrev pub empty_scan : {R : Type 0} → Scan R
empty_scan = record { receivers_by_identity = []; seen_identities = []; duplicate_identities = [] }

module _ {R : Type 0} where
  abbrev pub store : Str → Option R → Dict R → Dict R
  store i none d = d
  store i (some r) d = insert i r d

  -- One cell with a readable identity, and what `_parse_receiver_cell` makes of it.
  unfoldable pub scan_identity : Str → Option R → Scan R → Scan R
  scan_identity i parsed s =
      if str_in i s.duplicate_identities
      then s
      else if str_in i s.seen_identities
      then record s {
        duplicate_identities = i ∷ s.duplicate_identities;
        receivers_by_identity = remove i s.receivers_by_identity;
      }
      else record s {
        seen_identities = i ∷ s.seen_identities;
        receivers_by_identity = store i parsed s.receivers_by_identity;
      }

module _ {C R : Type 0} (identity_of : C → Result Str) (parse : C → Str → Option R) where
  abbrev pub scan_result : C → Result Str → Scan R → Scan R
  scan_result cell (ok i) s = scan_identity i (parse cell i) s
  scan_result cell (err e) s = s

  -- `for cell in cells`, whose body catches every exception
  unfoldable pub scan_cells : List C → Scan R → Scan R
  unfolding scan_identity
  scan_cells [] s = s
  scan_cells (cell ∷ cells) s = scan_cells cells (scan_result cell (identity_of cell) s)

-- `sorted(texts)` and `sorted(values, key=...)`: a stable insertion sort.
module _ {A : Type 0} (key : A → Str) where
  unfoldable pub insert_by : A → List A → List A
  insert_by a [] = a ∷ []
  insert_by a (b ∷ bs) = if str_lt (key b) (key a) then b ∷ insert_by a bs else a ∷ b ∷ bs

  unfoldable pub sort_by : List A → List A
  unfolding insert_by
  sort_by [] = []
  sort_by (a ∷ as') = insert_by a (sort_by as')

module _ {R : Type 0} where
  abbrev pub values : Dict R → List R
  values [] = []
  values ((k, r) ∷ d) = r ∷ values d
