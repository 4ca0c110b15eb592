-- ===== src/Lib.antt =====
-- A network of receivers locates aircraft by multilateration: each receiver sends the Mode-S frames
-- that it hears, the registry on a chain says which receivers exist, and the runtime groups the
-- frames that several receivers heard of one transmission and solves for a position.
--
-- Paths are from the repository's root. The modelled code is Python: a field that may hold any
-- value is a `Value` (Value.antt), an exception is an `Error` that `Result` passes on, a text is the
-- list of its code points and a dictionary a list of pairs in insertion order (Prelude.antt).
-- Floating-point numbers are the interface `Floats` (Float.antt), whose laws in `IsIeee` are those
-- of IEEE 754 that a proof needs; Float/Fixed.antt is an instance for tests.
--
-- - tools/mlat/beast_tcp_adapter.py: Beast.antt has the framing of `parse_beast_frames`, its three
--   loops as recursion over the bytes, and the read loop of `stream_records` over the chunks of a
--   connection, up to the parsed frames: an empty chunk, which ends the connection, is the end of
--   the list of chunks, and what the loop does with a frame by its type is left out. The outer loop runs on the length of the buffer plus one as fuel; each round leaves
--   a shorter buffer, and Beast/Framing.antt shows that more fuel changes nothing. Beast/Timing.antt
--   has `normalize_beast_timestamp`, Beast/Clock.antt its tick arithmetic and Beast/Record.antt
--   `beast_frame_to_record`; the interpreter's conversions between numbers and texts are the
--   parameters `Readers` and `Numerals`.
-- - tools/mlat/receiver_config.py: Trial/Clock.antt has `validate_clock` and Trial/Config.antt
--   `load_receiver_config`, from the JSON value of the file on; Numbers.antt has `_integer` and
--   `_number`. The digest of an evidence file is a parameter.
-- - src/ckb_registry/record.py: Registry.antt and its children have the identities, the record, its
--   validation, the lifecycle, the JSON form, the strict decoder and the Type ID. The UTF-8
--   decoder, the JSON grammar and the hash function are parameters; the hooks that the source gives
--   to `json.loads` are applied to the tree that the grammar finds.
-- - src/ckb_registry/discovery.py: Discovery.antt and its children have the configuration checks,
--   the pagination of the search (the indexer is a function of the call and the cursor), the reading
--   of a cell, the quarantine of repeated identities, the validity policy and the cache. It decodes
--   the data of a cell by the registry's decoder.
-- - src/mlat_reference/api/rate_limit.py: RateLimit.antt has the sliding window; the clock's reading
--   is an argument of a step, and the lock makes a call one step.
-- - src/mlat_reference/correlation/correlator.py: Correlation.antt and its children have the buffer,
--   the clustering by time, the validity and the quality of a cluster, and `correlate` with its set
--   of processed identifiers. `sort` is an insertion sort, the same stable sort on an order.
-- - src/mlat_reference/ingest/client.py: Ingest/Client.antt has `CKBReceiverNetworkClient`, with what
--   a discovery returned or raised as the argument of a step; Ingest/Transport.antt the choice of a
--   transport. src/mlat_reference/ingest/feed_transports.py: Ingest/Transport.antt has the
--   connections of the WebSocket transport and Ingest/Feed.antt the reading of a payload; the
--   grammars of numbers and dates in texts are the parameter `Readers`.
-- - src/mlat_reference/base.py and src/mlat_reference/runtime.py: Runtime/State.antt has the state,
--   Runtime/Base.antt the receiver cache and the way of a signal to the correlator,
--   Runtime/Solve.antt a round of the processing loop and Runtime/Refresh.antt a round of the
--   Registry refresh, which use the client and the correlator. The solver is a function that may
--   raise and the database an interface, `Database`, of calls that may raise; a call that raised
--   leaves the contents as they were.
-- - src/mlat_reference/database/database.py: Store/Positions.antt has the table of positions with the
--   queue of its events, a table being the list of its rows in the order of insertion, with the
--   constraints of the schema as tests; Store/Receivers.antt has the table of receivers and the whole
--   as an implementation of the interface `Database` that the runtime calls.
--   src/mlat_reference/api/rest_api.py: Store/Broadcast.antt has the rounds of the loop in
--   `_start_background_broadcaster`, which reads that table and its queue; Api/Access.antt has the
--   authentication, the access policy and the recording of usage, and Api/Recent.antt the route of
--   the recent positions on that table.
--
-- Not modelled: sockets, HTTP, processes, the event loop and logging, which are I/O; the tracks,
-- the statistics, the accounts and the migrations of the database, and the other web routes, which
-- are mostly the text of queries and the framework's; the numeric solver;
-- the start, the stop and the statistics report of the runtime; simulated traffic;
-- `to_cell_data_hex`; the contract in Rust and the SDK.
pub mod Prelude
pub mod Float
pub mod Value
pub mod Beast
pub mod Registry
pub mod Discovery
pub mod RateLimit
pub mod Correlation
pub mod Ingest
pub mod Runtime
pub mod Store
pub mod Numbers
pub mod Trial
pub mod Api
