-- ===== src/Discovery/Examples.antt =====
-- The theorems on discovery at concrete cells.
use aircraft_malt.Prelude.{
  true, str_eq_refl, ◌-ℤ◌, ℕ, zero, suc, ◌≡◌, ◌≤◌, refl, false, Option, none, some, List, [], ◌∷◌,
  ◌++◌, pos, Str, codes, str_eq, str_in, lookup, leb, length, max,
}
use aircraft_malt.Float.Fixed.{fixed}
use aircraft_malt.Value.{
  null, int, str, list, dict, nil, cons, end, field, Items, Result, ok, err, value_error,
  bad_identity,
}
use aircraft_malt.Registry.Examples.{
  created, document-decodes, Val, ascii, read_document, some_text, canonical,
}
use aircraft_malt.Registry.TypeId.{to_hex, hex_digit, nibble}
use aircraft_malt.Discovery.Receiver.{
  ReceiverInfo, CkbConfig, ckb_registry, post_init, contains_text, is_timely, is_within_degrees,
  is_receiver_valid,
}
use aircraft_malt.Discovery.Cells.{
  get_from, or_else, receiver_identity_from_cell, cell_bytes, bytes_fromhex, receiver_of_cell,
  parse_receiver_cell,
}
use aircraft_malt.Discovery.Complete.{Has, discover_cells-Has}
use aircraft_malt.Registry.Record.{is_text}
use aircraft_malt.Registry.Identity.{
  lower_char, normalize_receiver_identity, normalize_text, is_identity, is_hex,
}
use aircraft_malt.Discovery.Peers.{empty_scan, scan_cells}
use aircraft_malt.Discovery.Quarantine.{sightings, only, scan_cells-exact}
use aircraft_malt.Discovery.Pages.{
  read_page, cursor_text, fetch_pages, search_receiver_cells, Fetched, concat,
  search_receiver_cells-IsRun,
}
use aircraft_malt.Discovery.Discover.{discover_cells}
use aircraft_malt.Discovery.Origin.{sighted}

abbrev items_of : List Val → Items fixed.F
items_of [] = nil
items_of (v ∷ vs) = cons v (items_of vs)

-- Two pages and the empty one behind them.
abbrev page_of : List Val → Str → Val
page_of vs cursor =
    dict
      (field (codes "objects") (list (items_of vs)) (field (codes "last_cursor") (str cursor) end))

abbrev cell_of : ℕ → Val
cell_of n = int false n

abbrev pages : ℕ → Option Str → Result Val
pages zero cursor = ok (page_of (cell_of 1 ∷ cell_of 2 ∷ []) (codes "a"))
pages (suc zero) cursor = ok (page_of (cell_of 3 ∷ []) (codes "b"))
pages n cursor = ok (page_of [] (codes "b"))

pages-found : search_receiver_cells pages 10 5 ≡ ok (cell_of 1 ∷ cell_of 2 ∷ cell_of 3 ∷ [])
unfolding search_receiver_cells fetch_pages read_page cursor_text get_from lookup str_eq
pages-found = refl

search_receiver_cells-IsRun_example :
    (runs : List (List Val)) × Fetched pages 10 0 none runs
    × ((cell_of 1 ∷ cell_of 2 ∷ cell_of 3 ∷ []) ≡ concat pages 10 runs)
    × (length runs ≤ max 1 5)
    × (length (cell_of 1 ∷ cell_of 2 ∷ cell_of 3 ∷ []) ≤ 10)
search_receiver_cells-IsRun_example = search_receiver_cells-IsRun pages 10 5 _ pages-found

-- Cells that are their own identity; one is unreadable, and two have one identity.
abbrev identity_of : Str → Result Str
identity_of [] = err (value_error bad_identity)
identity_of (c ∷ s) = ok (c ∷ s)

abbrev parse : Str → Str → Option ℕ
parse cell i = some (length cell)

abbrev texts : List Str
texts = codes "ab" ∷ codes "c" ∷ [] ∷ codes "ab" ∷ []

scan_cells-exact_example :
    (lookup (codes "c") (scan_cells identity_of parse texts empty_scan).receivers_by_identity
      ≡ only (sightings identity_of parse (codes "c") texts))
    × (str_in (codes "c") (scan_cells identity_of parse texts empty_scan).duplicate_identities
        ≡ leb 2 (length (sightings identity_of parse (codes "c") texts)))
scan_cells-exact_example = scan_cells-exact identity_of parse texts (codes "c")

-- A registry whose only cell holds the creation record.
abbrev config : CkbConfig fixed.F
config = record {
  receiver_registry_type_hash = canonical;
  receiver_registry_hash_type = codes "data1";
  allow_mutable_registry_code = false;
  max_record_age_seconds = some 1200;
  max_future_record_skew_seconds = 60;
  registry_page_size = 100;
  registry_max_pages = 3;
  registry_max_cells = 10;
  max_record_bytes = 4096;
}

abbrev cell : Val
cell = dict (
    field (codes "output")
      (dict (
        field (codes "type")
          (dict (
            field (codes "hash_type") (str (codes "data1")) (
              field (codes "code_hash") (str canonical)
                (field (codes "args") (str canonical) end))))
          end))
      (field (codes "output_data") (str (codes "0x" ++ to_hex some_text)) end))

abbrev no_text : Val → Str
no_text (str s) = s
no_text v = []

-- The receiver of the cell.
abbrev registered : ReceiverInfo fixed.F
registered = record {
  receiver_id = created.receiver_id;
  latitude = created.latitude;
  longitude = created.longitude;
  altitude = created.altitude;
  status = created.status;
  last_seen = pos 0;
  capabilities = created.capabilities;
  ckb_address = str [];
  lock_hash = str [];
  receiver_identity = some canonical;
  data_source = ckb_registry;
  stream_endpoint = created.stream_endpoint;
  stream_protocol = created.stream_protocol;
  stream_format = created.stream_format;
  metadata = some (
      (codes "schema_version", created.schema_version)
      ∷ (codes "sequence", created.sequence)
      ∷ (codes "metadata_hash", created.metadata_hash)
      ∷ (codes "owner_lock", dict end)
      ∷ (codes "out_point", dict end)
      ∷ (codes "block_number", null)
      ∷ (codes "updated_at", created.updated_at)
      ∷ []);
  registry_updated_at = some 1000;
}

cell-identity : receiver_identity_from_cell fixed no_text config cell ≡ ok canonical
unfolding receiver_identity_from_cell get_from or_else lookup str_eq is_text lower_char
    normalize_receiver_identity normalize_text is_identity is_hex
cell-identity = refl

cell-data : cell_bytes (codes "0x" ++ to_hex some_text) ≡ ok some_text
unfolding cell_bytes bytes_fromhex to_hex hex_digit nibble is_hex
cell-data = refl

cell-receiver : receiver_of_cell fixed ascii read_document cell canonical created ≡ ok registered
unfolding receiver_of_cell get_from or_else lookup str_eq post_init normalize_text is_identity
    is_hex lower_char
cell-receiver = refl

cell-parsed : parse_receiver_cell fixed ascii read_document config cell canonical ≡ some registered
unfolding parse_receiver_cell get_from lookup str_eq to_hex
cell-parsed = rw cell-data (rw document-decodes (rw cell-receiver refl))

cell-alone :
    sighted fixed ascii read_document no_text config canonical (cell ∷ []) ≡ some registered ∷ []
cell-alone = rw cell-identity (rw (str_eq_refl canonical) (rw cell-parsed refl))

registered-valid : is_receiver_valid fixed config (pos 1001000000000) false false registered ≡ true
unfolding is_receiver_valid is_text str_eq contains_text is_timely is_within_degrees ◌-ℤ◌
registered-valid = refl

discover_cells-Has_example :
    Has registered
      (discover_cells fixed ascii read_document no_text config
        (pos 1001000000000)
        false
        false
        (cell ∷ [])).receivers
discover_cells-Has_example =
    discover_cells-Has fixed ascii read_document no_text config (pos 1001000000000) false false
      (cell ∷ []) canonical registered cell-alone registered-valid
