-- ===== src/Api/Routes.antt =====
-- The endpoints of src/shardnet/tracker/api.py over the store, and the parts of FastAPI around them: an
-- endpoint gets a request that was accepted, and what it returns or raises becomes a response.
use shard_net.Base.{ℕ, pos, String, Option, none, some, ◌≡◌, map, length}
use shard_net.Json.{Json, obj, Fields, field, end}
use shard_net.Errors.{
  Result, ok, raise, Exception, peer_not_found, file_metadata_conflict, info_hash_not_found,
  to_dict,
}
use shard_net.Platform.{Platform}
use shard_net.Exec.{Exec}
use shard_net.Tracker.Tables.{Database, SwarmPeerRecord, SwarmSnapshot, seed_count}
use shard_net.Tracker.Store.{
  Announcement, register_peer as store_register_peer, heartbeat_peer as store_heartbeat_peer,
  announce_file as store_announce_file,
}
use shard_net.Tracker.Swarm.{get_swarm as store_get_swarm}
use shard_net.Api.Schemas.{
  RegisterFields, RegisterPeerRequest, RegisterPeerResponse, HeartbeatRequest, HeartbeatResponse,
  AnnounceFields, AnnounceFileRequest, AnnounceFileResponse, SwarmPeerResponse, SwarmResponse,
  validate_register, validate_heartbeat, validate_announce,
}

-- How an endpoint ends: it returns, raises an `HTTPException`, or lets another exception through.
pub data Handled (A : Type 0) : Type 0 where
  returned : A → Handled A
  http_exception : (status_code : ℕ) → (detail : Json) → Handled A
  escaped : Exception → Handled A

-- `resolved_settings.heartbeat_ttl_seconds`, and the time of a request.
pub record Tracker : Type 0 where
  pub platform : Platform
  pub heartbeat_ttl_seconds : ℕ
  pub now : ℕ

abbrev pub Endpoint : Type 0 → Type 0
Endpoint A = Database → Handled A × Database

unfoldable pub register_peer : Tracker → RegisterPeerRequest → Endpoint RegisterPeerResponse
register_peer tracker payload db =
    let (last_seen_at, db') =
      store_register_peer tracker.now payload.peer_id payload.host payload.port
        payload.client_version db in
    (
      returned (record {
        peer_id = payload.peer_id;
        last_seen_at = pos last_seen_at;
        heartbeat_ttl_seconds = pos tracker.heartbeat_ttl_seconds;
      }),
      db',
    )

abbrev pub heartbeat_answer : Tracker → HeartbeatRequest → Result ℕ → Handled HeartbeatResponse
heartbeat_answer tracker payload (ok last_seen_at) = returned (record {
  peer_id = payload.peer_id;
  last_seen_at = pos last_seen_at;
  heartbeat_ttl_seconds = pos tracker.heartbeat_ttl_seconds;
})
heartbeat_answer tracker payload (raise (peer_not_found e)) = http_exception 404 (to_dict e)
heartbeat_answer tracker payload (raise e) = escaped e

unfoldable pub heartbeat_peer : Tracker → HeartbeatRequest → Endpoint HeartbeatResponse
heartbeat_peer tracker payload db =
    let (r, db') = store_heartbeat_peer tracker.now payload.peer_id db in
    (heartbeat_answer tracker payload r, db')

-- The arguments of the store's `announce_file`.
abbrev pub announcement : AnnounceFileRequest → Announcement
announcement payload = record {
  peer_id = payload.peer_id;
  info_hash = payload.info_hash;
  file_name = payload.file_name;
  file_size_bytes = payload.file_size_bytes;
  chunk_size_bytes = payload.chunk_size_bytes;
  total_chunks = payload.total_chunks;
  file_sha256 = payload.file_sha256;
  chunk_sha256 = payload.chunk_sha256;
  available_chunks = payload.available_chunks;
}

abbrev pub announce_answer : AnnounceFileRequest → Result ℕ → Handled AnnounceFileResponse
announce_answer payload (ok peers_advertising) =
    returned (record { info_hash = payload.info_hash; peers_advertising = pos peers_advertising })
announce_answer payload (raise (peer_not_found e)) = http_exception 404 (to_dict e)
announce_answer payload (raise (file_metadata_conflict e)) = http_exception 409 (to_dict e)
announce_answer payload (raise e) = escaped e

unfoldable pub announce_file : Tracker → AnnounceFileRequest → Endpoint AnnounceFileResponse
announce_file tracker payload db =
    let (r, db') = store_announce_file tracker.now (announcement payload) db in
    (announce_answer payload r, db')

abbrev pub swarm_peer_response : SwarmPeerRecord → SwarmPeerResponse
swarm_peer_response peer = record {
  peer_id = peer.peer_id;
  host = peer.host;
  port = pos peer.port;
  available_chunks = map pos peer.available_chunks;
  completed = peer.completed;
  last_seen_at = pos peer.last_seen_at;
}

abbrev pub swarm_response : SwarmSnapshot → SwarmResponse
swarm_response snapshot = record {
  info_hash = snapshot.file.info_hash;
  file_name = snapshot.file.file_name;
  file_size_bytes = pos snapshot.file.file_size_bytes;
  chunk_size_bytes = pos snapshot.file.chunk_size_bytes;
  total_chunks = pos snapshot.file.total_chunks;
  file_sha256 = snapshot.file.file_sha256;
  chunk_sha256 = snapshot.file.chunk_sha256;
  swarm_size = pos (length snapshot.peers);
  seed_count = pos (seed_count snapshot);
  peers = map swarm_peer_response snapshot.peers;
}

abbrev pub swarm_answer : Result SwarmSnapshot → Handled SwarmResponse
swarm_answer (ok snapshot) = returned (swarm_response snapshot)
swarm_answer (raise (info_hash_not_found e)) = http_exception 404 (to_dict e)
swarm_answer (raise e) = escaped e

unfoldable pub get_swarm : Tracker → String → Endpoint SwarmResponse
get_swarm tracker info_hash db =
    let (r, db') = store_get_swarm tracker.now info_hash tracker.heartbeat_ttl_seconds db in
    (swarm_answer r, db')

-- A request, by its method and path, with the fields of its body.
pub data Request : Type 0 where
  post_register : RegisterFields → Request
  post_heartbeat : (peer_id : String) → Request
  post_announce : AnnounceFields → Request
  get_file_swarm : (info_hash : String) → Request

-- A response; `none` where `response.json()` raises a `ValueError`.
pub record Response : Type 0 where
  pub status_code : ℕ
  pub json : Option Json

-- What pydantic makes of a model: `model_dump`, and `model_validate` of what was dumped.
pub record Schema (A : Type 0) : Type 0 where
  pub dump : A → Fields
  pub load : Fields → Result A
  pub load-dump : (a : A) → load (dump a) ≡ ok a

-- What FastAPI sends for a value that is returned, for an `HTTPException`, for a request that pydantic
-- refuses, and for any other exception (a plain text).
pub record Web : Type 0 where
  pub success : Fields → Response
  pub failure : ℕ → Json → Response
  pub unprocessable : Response
  pub server_error : Response
  pub success_status : (f : Fields) → (success f).status_code ≡ 200
  pub success_json : (f : Fields) → (success f).json ≡ some (obj f)
  pub failure_status : (n : ℕ) (d : Json) → (failure n d).status_code ≡ n
  pub failure_json : (n : ℕ) (d : Json) → (failure n d).json ≡ some (obj (field "detail" d end))
  pub unprocessable_status : unprocessable.status_code ≡ 422
  pub server_error_status : server_error.status_code ≡ 500
  pub server_error_json : server_error.json ≡ none
  pub registered : Schema RegisterPeerResponse
  pub seen : Schema HeartbeatResponse
  pub announced : Schema AnnounceFileResponse
  pub swarm : Schema SwarmResponse

abbrev pub respond : {A : Type 0} → Web → Schema A → Handled A → Response
respond web schema (returned a) = web.success (schema.dump a)
respond web schema (http_exception status_code detail) = web.failure status_code detail
respond web schema (escaped e) = web.server_error

-- The endpoint, if the request is accepted.
abbrev pub endpoint :
    {R A : Type 0} → Web → Schema A → Result R → (R → Endpoint A) → Exec Database Response
endpoint web schema (raise e) route db = (ok web.unprocessable, db)
endpoint web schema (ok payload) route db =
    let (handled, db') = route payload db in (ok (respond web schema handled), db')

-- The application of `create_app`.
unfoldable pub app : Web → Tracker → Request → Exec Database Response
unfolding register_peer heartbeat_peer announce_file get_swarm
app web tracker (post_register fields) =
    endpoint web web.registered (validate_register fields) (register_peer tracker)
app web tracker (post_heartbeat peer_id) =
    endpoint web web.seen (validate_heartbeat peer_id) (heartbeat_peer tracker)
app web tracker (post_announce fields) =
    endpoint web web.announced (validate_announce tracker.platform fields) (announce_file tracker)
app web tracker (get_file_swarm info_hash) =
    endpoint web web.swarm (ok info_hash) (get_swarm tracker)
