-- ===== src/Api/Schemas.antt =====
-- The requests and the answers of the tracker: src/shardnet/tracker/schemas.py. A request is what pydantic
-- leaves of its fields, which may hold any number.
use Prim.Native.String.{count as text_length}
use shard_net.Base.{
  ℕ, ℤ, pos, negsuc, String, Bool, not, List, map, ◌==◌, nat_eq, leb, ltb_ℤ, ◌&&◌, if◌then◌else◌,
  length, all,
}
use shard_net.Base.SortedSet.{sorted_set}
use shard_net.Errors.{Result, ok, raise, validation_error, ◌>>=◌}
use shard_net.Platform.{Platform, is_hash}
use shard_net.Manifest.{positive, accept_if, text_within, is_outside}

pub record RegisterFields : Type 0 where
  pub peer_id : String
  pub host : String
  pub port : ℤ
  pub client_version : String

pub record RegisterPeerRequest : Type 0 where
  pub peer_id : String
  pub host : String
  pub port : ℕ
  pub client_version : String

pub record RegisterPeerResponse : Type 0 where
  pub peer_id : String
  pub last_seen_at : ℤ
  pub heartbeat_ttl_seconds : ℤ

pub record HeartbeatRequest : Type 0 where
  pub peer_id : String

pub record HeartbeatResponse : Type 0 where
  pub peer_id : String
  pub last_seen_at : ℤ
  pub heartbeat_ttl_seconds : ℤ

pub record AnnounceFields : Type 0 where
  pub peer_id : String
  pub info_hash : String
  pub file_name : String
  pub file_size_bytes : ℤ
  pub chunk_size_bytes : ℤ
  pub total_chunks : ℤ
  pub file_sha256 : String
  pub chunk_sha256 : List String
  pub available_chunks : List ℤ

pub record AnnounceFileRequest : Type 0 where
  pub peer_id : String
  pub info_hash : String
  pub file_name : String
  pub file_size_bytes : ℕ
  pub chunk_size_bytes : ℕ
  pub total_chunks : ℕ
  pub file_sha256 : String
  pub chunk_sha256 : List String
  pub available_chunks : List ℤ

pub record AnnounceFileResponse : Type 0 where
  pub info_hash : String
  pub peers_advertising : ℤ

pub record SwarmPeerResponse : Type 0 where
  pub peer_id : String
  pub host : String
  pub port : ℤ
  pub available_chunks : List ℤ
  pub completed : Bool
  pub last_seen_at : ℤ

pub record SwarmResponse : Type 0 where
  pub info_hash : String
  pub file_name : String
  pub file_size_bytes : ℤ
  pub chunk_size_bytes : ℤ
  pub total_chunks : ℤ
  pub file_sha256 : String
  pub chunk_sha256 : List String
  pub swarm_size : ℤ
  pub seed_count : ℤ
  pub peers : List SwarmPeerResponse

-- `Field(ge=1, le=65535)`.
abbrev pub port_number : ℤ → Result ℕ
port_number (pos i) = accept_if (leb 1 i && leb i 65535) i
port_number (negsuc i) = raise validation_error

abbrev pub peer_name : String → Result String
peer_name peer_id = accept_if (text_within 3 128 peer_id) peer_id

unfoldable pub validate_register : RegisterFields → Result RegisterPeerRequest
validate_register r = do
  peer_id ← peer_name r.peer_id
  host ← accept_if (text_within 1 255 r.host) r.host
  port ← port_number r.port
  client_version ← accept_if (text_within 1 64 r.client_version) r.client_version
  ok (record { peer_id = peer_id; host = host; port = port; client_version = client_version })

unfoldable pub validate_heartbeat : String → Result HeartbeatRequest
validate_heartbeat peer_id = do peer_id ← peer_name peer_id; ok (record { peer_id = peer_id })

abbrev pub is_digest : String → Bool
is_digest value = text_length value == 64

-- `normalize_chunk_hashes`, behind `Field(min_length=1)`.
unfoldable pub normalize_chunk_hashes : Platform → List String → Result (List String)
normalize_chunk_hashes platform values =
    let normalized = map platform.lower values in
    if leb 1 (length values)
    then accept_if (all is_digest normalized) normalized
    else raise validation_error

-- `validate_chunk_bounds`.
unfoldable pub validate_chunk_bounds : AnnounceFileRequest → Result AnnounceFileRequest
validate_chunk_bounds r =
    if length r.chunk_sha256 == r.total_chunks
    then accept_if (all (λ chunk. not (is_outside r.total_chunks chunk)) r.available_chunks) r
    else raise validation_error

unfoldable pub validate_announce : Platform → AnnounceFields → Result AnnounceFileRequest
unfolding normalize_chunk_hashes validate_chunk_bounds
validate_announce platform r = do
  peer_id ← peer_name r.peer_id
  info_hash ← accept_if (is_hash r.info_hash) (platform.lower r.info_hash)
  file_name ← accept_if (text_within 1 256 r.file_name) r.file_name
  file_size_bytes ← positive r.file_size_bytes
  chunk_size_bytes ← positive r.chunk_size_bytes
  total_chunks ← positive r.total_chunks
  file_sha256 ← accept_if (is_hash r.file_sha256) (platform.lower r.file_sha256)
  chunk_sha256 ← normalize_chunk_hashes platform r.chunk_sha256
  validate_chunk_bounds (record {
    peer_id = peer_id;
    info_hash = info_hash;
    file_name = file_name;
    file_size_bytes = file_size_bytes;
    chunk_size_bytes = chunk_size_bytes;
    total_chunks = total_chunks;
    file_sha256 = file_sha256;
    chunk_sha256 = chunk_sha256;
    available_chunks = sorted_set ltb_ℤ r.available_chunks;
  })

-- `model_dump(mode="json")`.
abbrev pub dump_register : RegisterPeerRequest → RegisterFields
dump_register r = record {
  peer_id = r.peer_id;
  host = r.host;
  port = pos r.port;
  client_version = r.client_version;
}

abbrev pub dump_announce : AnnounceFileRequest → AnnounceFields
dump_announce r = record {
  peer_id = r.peer_id;
  info_hash = r.info_hash;
  file_name = r.file_name;
  file_size_bytes = pos r.file_size_bytes;
  chunk_size_bytes = pos r.chunk_size_bytes;
  total_chunks = pos r.total_chunks;
  file_sha256 = r.file_sha256;
  chunk_sha256 = r.chunk_sha256;
  available_chunks = r.available_chunks;
}
