-- ===== src/Tracker/Tables.antt =====
-- The tables of src/shardnet/tracker/store.py (the schema in `initialize`), and the records it
-- returns. Times are seconds since the epoch.
use shard_net.Base.{ℕ, String, Bool, List, [], ◌==◌, text_eq, ◌&&◌, count}
use shard_net.Json.{Text}

pub record PeerRow : Type 0 where
  pub peer_id : String
  pub host : String
  pub port : ℕ
  pub client_version : String
  pub registered_at : ℕ
  pub last_seen_at : ℕ

-- The columns of `files` that describe the file.
pub record FileRow : Type 0 where
  pub info_hash : String
  pub file_name : String
  pub file_size_bytes : ℕ
  pub chunk_size_bytes : ℕ
  pub total_chunks : ℕ
  pub file_sha256 : String
  pub chunk_sha256 : Text
  pub created_at : ℕ
  pub updated_at : ℕ

pub record PeerFileState : Type 0 where
  pub peer_id : String
  pub info_hash : String
  pub available_chunks : Text
  pub completed : ℕ
  pub updated_at : ℕ

pub record Database : Type 0 where
  pub peers : List PeerRow
  pub files : List FileRow
  pub peer_file_state : List PeerFileState

abbrev pub empty_database : Database
empty_database = record { peers = []; files = []; peer_file_state = [] }

-- `WHERE peer_id = ?` and `WHERE info_hash = ?`, and the key of `peer_file_state`.
abbrev pub is_peer : String → PeerRow → Bool
is_peer peer_id p = p.peer_id == peer_id

abbrev pub is_file : String → FileRow → Bool
is_file info_hash f = f.info_hash == info_hash

abbrev pub is_state : String → String → PeerFileState → Bool
is_state peer_id info_hash s = s.peer_id == peer_id && s.info_hash == info_hash

pub record FileRecord : Type 0 where
  pub info_hash : String
  pub file_name : String
  pub file_size_bytes : ℕ
  pub chunk_size_bytes : ℕ
  pub total_chunks : ℕ
  pub file_sha256 : String
  pub chunk_sha256 : List String

pub record SwarmPeerRecord : Type 0 where
  pub peer_id : String
  pub host : String
  pub port : ℕ
  pub available_chunks : List ℕ
  pub completed : Bool
  pub last_seen_at : ℕ

pub record SwarmSnapshot : Type 0 where
  pub file : FileRecord
  pub peers : List SwarmPeerRecord

unfoldable pub seed_count : SwarmSnapshot → ℕ
seed_count s = count (λ peer. peer.completed) s.peers
