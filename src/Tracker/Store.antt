-- ===== src/Tracker/Store.antt =====
-- `TrackerStore` of src/shardnet/tracker/store.py. A method runs at the time `now` and returns the
-- tables with its result. What is written before a raise and not committed is rolled back when the
-- connection closes.
pub mod Conflict
pub mod Invariant
pub mod Announced
pub mod Outcomes
pub mod Repeated
use shard_net.Base.{
  ℕ, ℤ, String, Bool, not, none, some, List, [], ◌∷◌, ◌++◌, ◌-◌, ◌==◌, nat_eq, text_eq, list_eq,
  ltb, leb, ◌||◌, if◌then◌else◌, length, any, count,
}
use shard_net.Base.Rows.{find_row, select_where, update_where, delete_where, upsert}
use shard_net.Json.{arr, strs, ints, dumps}
use shard_net.Errors.{
  Result, ok, raise, overflow_error, ◌>>=◌, peer_not_found_error, file_metadata_conflict_error,
}
use shard_net.Tracker.Tables.{PeerRow, FileRow, PeerFileState, Database, is_peer, is_file, is_state}
use shard_net.Tracker.Chunks.{normalize_chunks, parse_chunk_hashes}

-- The arguments of `announce_file`.
pub record Announcement : Type 0 where
  pub peer_id : String
  pub info_hash : String
  pub file_name : String
  pub file_size_bytes : ℕ
  pub chunk_size_bytes : ℕ
  pub total_chunks : ℕ
  pub file_sha256 : String
  pub chunk_sha256 : List String
  pub available_chunks : List ℤ

-- A block whose writes are committed at its end: a raise inside it leaves the tables as they were.
abbrev pub transaction {ℓ} : {A : Type ℓ} → Database → Result (A × Database) → Result A × Database
transaction db (ok (a, db')) = (ok a, db')
transaction db (raise e) = (raise e, db)

abbrev pub is_stale : ℕ → PeerRow → Bool
is_stale cutoff p = ltb p.last_seen_at cutoff

-- `DELETE FROM peers WHERE last_seen_at < ?`; the foreign key takes the peers' file states along.
unfoldable pub delete_stale : ℕ → Database → Database
delete_stale cutoff db = record db {
  peers = delete_where (is_stale cutoff) db.peers;
  peer_file_state =
      delete_where (λ s. any (is_peer s.peer_id) (select_where (is_stale cutoff) db.peers))
        db.peer_file_state;
}

-- `now - ttl_seconds` is below every time when it is negative, and so is the number 0.
unfoldable pub cleanup_stale_peers : ℕ → ℕ → Database → ℕ × Database
unfolding delete_stale
cleanup_stale_peers now ttl_seconds db =
    (count (is_stale (now - ttl_seconds)) db.peers, delete_stale (now - ttl_seconds) db)

abbrev pub refresh_peer : PeerRow → PeerRow → PeerRow
refresh_peer new old = record old {
  host = new.host;
  port = new.port;
  client_version = new.client_version;
  last_seen_at = new.last_seen_at;
}

unfoldable pub register_peer : ℕ → String → String → ℕ → String → Database → ℕ × Database
register_peer now peer_id host port client_version db =
    let new : PeerRow = record {
      peer_id = peer_id;
      host = host;
      port = port;
      client_version = client_version;
      registered_at = now;
      last_seen_at = now;
    } in
    (now, record db { peers = upsert (is_peer peer_id) (refresh_peer new) new db.peers })

abbrev pub see_peer : ℕ → PeerRow → PeerRow
see_peer now p = record p { last_seen_at = now }

-- The update is committed before its row count is looked at.
unfoldable pub heartbeat_peer : ℕ → String → Database → Result ℕ × Database
heartbeat_peer now peer_id db =
    let rowcount = count (is_peer peer_id) db.peers in
    (
      if leb rowcount 0 then raise (peer_not_found_error peer_id) else ok now,
      record db { peers = update_where (is_peer peer_id) (see_peer now) db.peers },
    )

unfoldable pub has_metadata_conflict : FileRow → Announcement → Bool
has_metadata_conflict row a =
    any (λ differs. differs)
      (not (row.file_name == a.file_name)
        ∷ not (row.file_size_bytes == a.file_size_bytes)
        ∷ not (row.chunk_size_bytes == a.chunk_size_bytes)
        ∷ not (row.total_chunks == a.total_chunks)
        ∷ not (row.file_sha256 == a.file_sha256)
        ∷ not (parse_chunk_hashes row.chunk_sha256 == a.chunk_sha256)
        ∷ [])

abbrev pub new_file : ℕ → Announcement → FileRow
new_file now a = record {
  info_hash = a.info_hash;
  file_name = a.file_name;
  file_size_bytes = a.file_size_bytes;
  chunk_size_bytes = a.chunk_size_bytes;
  total_chunks = a.total_chunks;
  file_sha256 = a.file_sha256;
  chunk_sha256 = dumps (arr (strs a.chunk_sha256));
  created_at = now;
  updated_at = now;
}

abbrev pub touch_file : ℕ → FileRow → FileRow
touch_file now f = record f { updated_at = now }

-- The largest integer that SQLite stores; Python's sqlite3 raises an `OverflowError` on a larger one.
abbrev pub max_sqlite_int : ℕ
max_sqlite_int = 9223372036854775807

-- Whether one of the integers of a new row is too large.
unfoldable pub has_overflow : Announcement → Bool
has_overflow a =
    ltb max_sqlite_int a.file_size_bytes
    || ltb max_sqlite_int a.chunk_size_bytes
    || ltb max_sqlite_int a.total_chunks

-- The `files` table after the announcement: a new row, a conflict, or a touched row.
unfoldable pub announce_metadata : ℕ → Announcement → List FileRow → Result (List FileRow)
announce_metadata now a files = elim (find_row (is_file a.info_hash) files) [
  | none ↦ if has_overflow a then raise overflow_error else ok (files ++ new_file now a ∷ [])
  | some row ↦
      if has_metadata_conflict row a
      then raise (file_metadata_conflict_error a.info_hash)
      else ok (update_where (is_file a.info_hash) (touch_file now) files)
]

abbrev pub new_state : ℕ → Announcement → PeerFileState
new_state now a =
    let normalized_chunks = normalize_chunks a.available_chunks a.total_chunks in
    record {
      peer_id = a.peer_id;
      info_hash = a.info_hash;
      available_chunks = dumps (arr (ints normalized_chunks));
      completed = if length normalized_chunks == a.total_chunks then 1 else 0;
      updated_at = now;
    }

abbrev pub refresh_state : PeerFileState → PeerFileState → PeerFileState
refresh_state new old = record old {
  available_chunks = new.available_chunks;
  completed = new.completed;
  updated_at = new.updated_at;
}

abbrev pub announced_states : ℕ → Announcement → List PeerFileState → List PeerFileState
announced_states now a states =
    upsert (is_state a.peer_id a.info_hash) (refresh_state (new_state now a)) (new_state now a)
      states

-- `SELECT COUNT(*) … WHERE info_hash = ?` always has a row, so the test for none is left out.
abbrev pub advertising : String → List PeerFileState → ℕ
advertising info_hash = count (λ s. s.info_hash == info_hash)

unfoldable pub announce_file : ℕ → Announcement → Database → Result ℕ × Database
unfolding announce_metadata
announce_file now a db = transaction db (elim (find_row (is_peer a.peer_id) db.peers) [
  | none ↦ raise (peer_not_found_error a.peer_id)
  | some _ ↦ do
    files ← announce_metadata now a db.files
    let states = announced_states now a db.peer_file_state
    ok (advertising a.info_hash states, record db { files = files; peer_file_state = states })
])
