-- ===== src/Tracker/Swarm.antt =====
-- `TrackerStore.get_swarm` of src/shardnet/tracker/store.py: the stale peers go, and the file's peers
-- come out in the order of the query.
pub mod Order
pub mod Rows
pub mod Answer
pub mod Announced
use shard_net.Base.{
  ℕ, String, Bool, true, false, not, none, some, List, [], ◌∷◌, ◌++◌, map, ◌-◌, ◌==◌, text_eq,
  nat_eq, ltb, if◌then◌else◌, text_leb,
}
use shard_net.Base.Rows.{find_row, select_where}
use shard_net.Errors.{Result, ok, raise, info_hash_not_found_error}
use shard_net.Tracker.Tables.{
  PeerRow, FileRow, PeerFileState, Database, is_peer, is_file, FileRecord, SwarmPeerRecord,
  SwarmSnapshot,
}
use shard_net.Tracker.Chunks.{parse_chunks, parse_chunk_hashes}
use shard_net.Tracker.Store.{transaction, delete_stale}

-- A row of the join of `peers` with `peer_file_state`.
abbrev pub Joined : Type 0
Joined = PeerRow × PeerFileState

abbrev pub of_file : String → PeerFileState → Bool
of_file info_hash s = s.info_hash == info_hash

-- `FROM peer_file_state AS s INNER JOIN peers AS p ON p.peer_id = s.peer_id WHERE s.info_hash = ?`.
unfoldable pub join_peers : List PeerRow → List PeerFileState → List Joined
join_peers peers [] = []
join_peers peers (s ∷ states) =
    map (λ p. (p, s)) (select_where (is_peer s.peer_id) peers) ++ join_peers peers states

-- `ORDER BY s.completed DESC, p.last_seen_at DESC, p.peer_id ASC`: may the first row stand before
-- the second?
unfoldable pub in_order : Joined → Joined → Bool
in_order (p, s) (q, t) =
    if ltb t.completed s.completed
    then true
    else (if ltb s.completed t.completed
        then false
        else (if ltb q.last_seen_at p.last_seen_at
            then true
            else (if ltb p.last_seen_at q.last_seen_at
                then false
                else text_leb p.peer_id q.peer_id)))

unfoldable pub insert_row : Joined → List Joined → List Joined
insert_row x [] = x ∷ []
insert_row x (y ∷ ys) = if in_order x y then x ∷ y ∷ ys else y ∷ insert_row x ys

unfoldable pub order_rows : List Joined → List Joined
unfolding insert_row
order_rows [] = []
order_rows (x ∷ xs) = insert_row x (order_rows xs)

unfoldable pub peer_rows : String → Database → List Joined
unfolding join_peers order_rows
peer_rows info_hash db =
    order_rows (join_peers db.peers (select_where (of_file info_hash) db.peer_file_state))

abbrev pub file_record : FileRow → FileRecord
file_record f = record {
  info_hash = f.info_hash;
  file_name = f.file_name;
  file_size_bytes = f.file_size_bytes;
  chunk_size_bytes = f.chunk_size_bytes;
  total_chunks = f.total_chunks;
  file_sha256 = f.file_sha256;
  chunk_sha256 = parse_chunk_hashes f.chunk_sha256;
}

abbrev pub swarm_peer : ℕ → Joined → SwarmPeerRecord
swarm_peer total_chunks (p, s) = record {
  peer_id = p.peer_id;
  host = p.host;
  port = p.port;
  available_chunks = parse_chunks s.available_chunks total_chunks;
  completed = not (s.completed == 0);
  last_seen_at = p.last_seen_at;
}

abbrev pub snapshot : FileRow → List Joined → SwarmSnapshot
snapshot f rows = record { file = file_record f; peers = map (swarm_peer f.total_chunks) rows }

unfoldable pub get_swarm : ℕ → String → ℕ → Database → Result SwarmSnapshot × Database
unfolding delete_stale peer_rows
get_swarm now info_hash ttl_seconds db =
    let live = delete_stale (now - ttl_seconds) db in
    transaction db (elim (find_row (is_file info_hash) live.files) [
      | none ↦ raise (info_hash_not_found_error info_hash)
      | some f ↦ ok (snapshot f (peer_rows info_hash live), live)
    ])
