-- ===== src/Tracker/Store/Invariant.antt =====
-- The invariant of the tracker's tables: keys are unique, every peer file state belongs to a known peer
-- and a known file, and its chunk list and its flag agree with the file's number of chunks.
use shard_net.Base.{
  ℕ, String, Bool, true, not, some, List, [], ◌∷◌, ◌≡◌, refl, ◌∙◌, ◌-◌, ◌==◌, nat_eq, text_eq,
  if◌then◌else◌, length, any, All, arith, eq_iff, text_eq_comm,
}
use shard_net.Base.Rows.{find_row, select_where, update_where, delete_where, upsert}
use shard_net.Base.Rows.Laws.{
  UniqueBy, select_where-All, any-upsert, any-update_where, All-imp, All-select_where,
  select_where-UniqueBy, update_where-UniqueBy, upsert-UniqueBy,
}
use shard_net.Json.{Text, arr, strs, ints, dumps}
use shard_net.Tracker.Tables.{PeerRow, FileRow, PeerFileState, Database, is_peer, is_file, is_state}
use shard_net.Tracker.Chunks.{IsChunkSet}
use shard_net.Tracker.Store.{
  is_stale, delete_stale, cleanup_stale_peers, refresh_peer, register_peer, see_peer,
  heartbeat_peer,
}

abbrev pub same_peer : PeerRow → PeerRow → Bool
same_peer p = is_peer p.peer_id

abbrev pub same_file : FileRow → FileRow → Bool
same_file f = is_file f.info_hash

abbrev pub same_state : PeerFileState → PeerFileState → Bool
same_state s = is_state s.peer_id s.info_hash

-- The text of a chunk list of a file, and the flag for a full one.
pub record Records (total : ℕ) (raw : Text) (completed : ℕ) : Type 0 where
  pub chunks : List ℕ
  pub stored : raw ≡ dumps (arr (ints chunks))
  pub chunk_set : IsChunkSet total chunks
  pub flag : completed ≡ (if length chunks == total then 1 else 0)

abbrev pub IsStateOf : List FileRow → PeerFileState → Type 0
IsStateOf files s =
    (f : FileRow) × (find_row (is_file s.info_hash) files ≡ some f)
    × Records f.total_chunks s.available_chunks s.completed

abbrev pub HasHashes : FileRow → Type 0
HasHashes f = (hashes : List String) × (f.chunk_sha256 ≡ dumps (arr (strs hashes)))

pub record IsValid (db : Database) : Type 0 where
  pub peers_unique : UniqueBy same_peer db.peers
  pub files_unique : UniqueBy same_file db.files
  pub states_unique : UniqueBy same_state db.peer_file_state
  pub hashes : All HasHashes db.files
  pub owners : All (λ s. any (is_peer s.peer_id) db.peers ≡ true) db.peer_file_state
  pub states : All (IsStateOf db.files) db.peer_file_state

-- `peers` under a registration.
pub register_peer-IsValid :
    (now : ℕ) (peer_id host : String) (port : ℕ) (client_version : String) (db : Database)
    → IsValid db
    → IsValid (register_peer now peer_id host port client_version db).1
unfolding register_peer
register_peer-IsValid now peer_id host port client_version db v = record {
  peers_unique =
      upsert-UniqueBy same_peer (is_peer peer_id) (refresh_peer new) new db.peers (λ r q. refl)
        (λ r q. refl) (λ r. text_eq_comm peer_id r.peer_id) v.peers_unique;
  files_unique = v.files_unique;
  states_unique = v.states_unique;
  hashes = v.hashes;
  owners =
      All-imp (λ s. any (is_peer s.peer_id) db.peers ≡ true)
        (λ s.
          any (is_peer s.peer_id) (upsert (is_peer peer_id) (refresh_peer new) new db.peers) ≡ true)
        db.peer_file_state (λ s e. kept s.peer_id e) v.owners;
  states = v.states;
}
  where
    new : PeerRow
    new = record {
      peer_id = peer_id;
      host = host;
      port = port;
      client_version = client_version;
      registered_at = now;
      last_seen_at = now;
    }

    kept :
        (id : String)
        → any (is_peer id) db.peers ≡ true
        → any (is_peer id) (upsert (is_peer peer_id) (refresh_peer new) new db.peers) ≡ true
    kept id e =
        any-upsert (is_peer id) (is_peer peer_id) (refresh_peer new) new db.peers (λ r. refl)
          (λ r h. ground (arith, eq_iff r.peer_id peer_id))
        ∙ ground arith

pub heartbeat_peer-IsValid :
    (now : ℕ) (peer_id : String) (db : Database)
    → IsValid db
    → IsValid (heartbeat_peer now peer_id db).1
unfolding heartbeat_peer
heartbeat_peer-IsValid now peer_id db v = record {
  peers_unique =
      update_where-UniqueBy same_peer (is_peer peer_id) (see_peer now) db.peers (λ r q. refl)
        (λ r q. refl) v.peers_unique;
  files_unique = v.files_unique;
  states_unique = v.states_unique;
  hashes = v.hashes;
  owners =
      All-imp (λ s. any (is_peer s.peer_id) db.peers ≡ true)
        (λ s.
          any (is_peer s.peer_id) (update_where (is_peer peer_id) (see_peer now) db.peers) ≡ true)
        db.peer_file_state
        (λ s e.
          any-update_where (is_peer s.peer_id) (is_peer peer_id) (see_peer now) db.peers (λ r. refl)
          ∙ e)
        v.owners;
  states = v.states;
}

-- A row that passes the test, and is not among those that pass a second one, is among those that
-- fail it.
any-delete_where :
    (test at : PeerRow → Bool) (rs : List PeerRow)
    → any test rs ≡ true
    → not (any test (select_where at rs)) ≡ true
    → any test (delete_where at rs) ≡ true
any-delete_where test at [] h no_at = h
any-delete_where test at (r ∷ rs) h no_at = ground (arith, any-delete_where test at rs)

pub delete_stale-IsValid :
    (cutoff : ℕ) (db : Database) → IsValid db → IsValid (delete_stale cutoff db)
unfolding delete_stale
delete_stale-IsValid cutoff db v = record {
  peers_unique =
      select_where-UniqueBy same_peer (λ p. not (is_stale cutoff p)) db.peers v.peers_unique;
  files_unique = v.files_unique;
  states_unique = select_where-UniqueBy same_state kept db.peer_file_state v.states_unique;
  hashes = v.hashes;
  owners =
      select_where-All (λ s. any (is_peer s.peer_id) db.peers ≡ true)
        (λ s. any (is_peer s.peer_id) (delete_where (is_stale cutoff) db.peers) ≡ true) kept
        db.peer_file_state
        (λ s fresh owned.
          any-delete_where (is_peer s.peer_id) (is_stale cutoff) db.peers owned fresh)
        v.owners;
  states = All-select_where (IsStateOf db.files) kept db.peer_file_state v.states;
}
  where
    kept : PeerFileState → Bool
    kept s = not (any (is_peer s.peer_id) (select_where (is_stale cutoff) db.peers))

pub cleanup_stale_peers-IsValid :
    (now ttl_seconds : ℕ) (db : Database)
    → IsValid db
    → IsValid (cleanup_stale_peers now ttl_seconds db).1
unfolding cleanup_stale_peers
cleanup_stale_peers-IsValid now ttl_seconds db v = delete_stale-IsValid (now - ttl_seconds) db v
