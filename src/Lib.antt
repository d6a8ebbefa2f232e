-- ===== src/Lib.antt =====
-- ShardNet is a file sharing system: a tracker that knows which peer has which chunks of which
-- file, and peers that split files into chunks, serve chunks to each other and put downloads
-- together. This library models the parts that keep state and decide.
--
-- The parts and their modules:
--
-- - Tracker: the tracker's store, src/shardnet/tracker/store.py with the errors of
--   src/shardnet/tracker/errors.py. Tables has the rows of the three tables; Chunks has
--   _normalize_chunks, _parse_chunks and _parse_chunk_hashes; Store has the methods that write
--   (register_peer, heartbeat_peer, announce_file, cleanup_stale_peers); Swarm has get_swarm with
--   its join and its order. The child modules are named for what they prove.
-- - Manifest: FileManifest and DownloadProgress of src/shardnet/client/core/models.py, and in
--   Manifest/Build build_file_manifest, iter_file_chunks and _compute_info_hash of
--   src/shardnet/client/core/manifest.py.
-- - Disk: the files of a peer as an association list of paths and bytes, with the operations that
--   the stores use on them.
-- - Download: DownloadStore of src/shardnet/client/core/download_store.py, its two tables and the
--   partial files.
-- - Share: ShareStore of src/shardnet/client/core/share_store.py, its table and the reading of
--   chunks from the shared files.
-- - Api: the tracker's HTTP interface. Schemas has the requests and answers of
--   src/shardnet/tracker/schemas.py with their validation, Routes the endpoints of
--   src/shardnet/tracker/api.py over the store (register_peer, heartbeat_peer, announce_file,
--   get_swarm of create_app), Client has src/shardnet/client/core/tracker_client.py
--   (_parse_response is parse_response). FastAPI, pydantic's JSON of the answers, and the HTTP
--   transport are parameters. Relayed and Shared join client, routes and store; Reached and
--   Statuses follow the tracker through any requests.
-- - Node: download_file, share_file and _select_peer_for_chunk of
--   src/shardnet/client/core/node.py over the stores; Node/Lifecycle has start, stop and
--   _heartbeat_loop, and Node/Alive what they come to. Node/Shared joins share_file with
--   download_file. What the node reaches over the network is a parameter, Remote: the answers of
--   the tracker client and of the peer client, which may be any, and may differ from one request
--   to the next. Node/Resumable and Node/Delivered prove what holds whoever answers,
--   Node/Completed what holds when the peers are honest. share_file takes the tracker client of
--   Api, and Node/Found joins it with the tracker.
-- - Wire: the messages and frames of src/shardnet/client/core/protocol.py. What arrives on a
--   connection is a list of bytes and what comes behind them; pydantic's reading and writing of a
--   message, Codec, is a parameter.
-- - Serve: the handling of a connection by src/shardnet/client/core/peer_server.py over the share
--   store, from what has arrived to what has been sent.
-- - Fetch: request_chunk and _request_chunk_once of src/shardnet/client/core/peer_client.py, over
--   connections that are given as what arrives on them. Exchange joins it with Serve.
-- - Agent: AgentRuntime of src/shardnet/client/agent/service.py. Runtime has its fields and the
--   methods that run under the lock, Jobs the coroutine _run_download_job cut at its waits, with
--   Step for what may happen between two of them; Endpoints is src/shardnet/client/agent/main.py.
--   A coroutine is kept with its job, as the place where it stands.
-- - Cli: the commands run, share, download and status of src/shardnet/cli/main.py. A command that
--   serves is interrupted while it waits.
-- - Exec: code that keeps a state and may raise, for the stores, the node and the clients.
-- - Tests: runs of the operations at concrete inputs, with a digest that can be computed by hand.
-- - Json, Errors, Platform, Base: JSON values, the exceptions as values
--   (src/shardnet/common/errors.py), what the code uses of Python, and the shared tests, list
--   lemmas and table operations.
--
-- How the code is modelled. A method of a store is a function from the tables (and the files) to
-- a result and the new tables; an exception is a value, raise e. A transaction that raises before
-- its commit is rolled back, so the tables it leaves are the old ones; where the code touches
-- files before it raises, they stay touched. The clock is a parameter now of each operation,
-- taken once: two readings within one call are the same. A path is a text that the caller has
-- resolved already.
--
-- Text columns that hold JSON (available_chunks, chunk_sha256) hold a JSON value or a text that
-- is no JSON; json.dumps and json.loads are then the two directions of one case. The column
-- manifest_json holds the fields that model_dump_json prints, and model_validate_json runs the
-- same validation as the constructor.
--
-- Parameters. Platform is what the code calls of Python: SHA-256, str.lower, the name of a path
-- and the bytes of a JSON document, with the facts the code rests on: a digest has 64 hexadecimal
-- digits in lower case, lower is idempotent and keeps the form of a hash. Nothing is assumed
-- about collisions.
--
-- Fuel. iter_file_chunks reads until nothing is left; register_file and build_file_manifest give
-- it one round more than the file has bytes, which is enough since every round reads a byte.
-- serve and handle_client read a frame in each round; one round more than bytes have arrived is
-- enough, since a frame has at least five bytes. await_chunk reads a message in each round in the
-- same way, and request_chunk gives it as many rounds. Every other loop is over a list.
--
-- Order of rows. SQLite gives rows without ORDER BY in an order of its own; the model keeps the
-- order of insertion, and every answer of the modelled code is ordered or a set. ORDER BY of
-- get_swarm leaves open how rows with equal keys stand; the model puts them by insertion.
--
-- Integers. A number of an announcement above 2 ^ 63 - 1 makes sqlite3 raise an OverflowError
-- when a new row of files is written, which is has_overflow. Times, ports and chunk indexes, the
-- other numbers that are written, are taken to fit into 64 bits.
--
-- Not modelled: the reading of command line arguments, the commands version, info, manifest and
-- tracker run, the progress callback of download_file, and the waits between attempts and
-- heartbeats. Requests to other paths than those of the four endpoints over the store, failing
-- disks, connections that break while something is sent, and concurrent processes are outside the
-- model. Configuration, logging and the desktop application have no logic of this kind.
pub mod Base
pub mod Json
pub mod Errors
pub mod Platform
pub mod Manifest
pub mod Exec
pub mod Api
pub mod Disk
pub mod Download
pub mod Share
pub mod Node
pub mod Wire
pub mod Serve
pub mod Fetch
pub mod Tracker
pub mod Agent
pub mod Cli
pub mod Tests
