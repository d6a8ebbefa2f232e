-- ===== src/Api/Client.antt =====
-- `TrackerClient` of src/shardnet/client/core/tracker_client.py. What sends a request and receives its
-- response is a parameter: it may raise, and keeps a state of its own.
use shard_net.Base.{ℕ, ℤ, pos, String, Option, none, some, List, leb, if◌then◌else◌}
use shard_net.Json.{Json, str, int, obj, Fields, field, end, get_field, set_field}
use shard_net.Errors.{Result, ok, raise, Exception, transfer}
use shard_net.Platform.{Platform}
use shard_net.Exec.{Exec, ◌>>=◌, lift}
use shard_net.Manifest.{FileManifest}
use shard_net.Api.Schemas.{
  RegisterPeerResponse, HeartbeatResponse, AnnounceFields, AnnounceFileResponse, SwarmResponse,
  validate_register, validate_heartbeat, validate_announce, dump_register, dump_announce,
}
use shard_net.Api.Routes.{
  Request, post_register, post_heartbeat, post_announce, get_file_swarm, Response, Schema, Web,
}

abbrev pub transfer_failed : String → String → Fields → Exception
transfer_failed code message context =
    transfer (record { code = code; message = message; context = context })

abbrev pub status_context : ℕ → Fields
status_context status_code = field "status_code" (int (pos status_code)) end

-- `str(detail.get(key, default))`, where `to_text` is Python's `str` on a value that is no text.
abbrev pub detail_text : (Json → String) → String → String → Fields → String
detail_text to_text key default detail = elim (get_field key detail) [
  | none ↦ default
  | some (str s) ↦ s
  | some value ↦ to_text value
]

abbrev pub detail_context : Fields → Fields
detail_context detail = elim (get_field "context" detail) [ some (obj f) ↦ f | _ ↦ end ]

abbrev pub non_json : ℕ → Exception
non_json status_code =
    transfer_failed "tracker_invalid_response" "Tracker returned a non-JSON response."
      (status_context status_code)

abbrev pub unexpected_shape : ℕ → Exception
unexpected_shape status_code =
    transfer_failed "tracker_invalid_response" "Tracker returned an unexpected response shape."
      (status_context status_code)

abbrev pub request_failed : ℕ → Exception
request_failed status_code =
    transfer_failed "tracker_request_failed" "Tracker request failed." (status_context status_code)

abbrev pub reported : (Json → String) → ℕ → Fields → Exception
reported to_text status_code detail =
    transfer_failed (detail_text to_text "code" "tracker_request_failed" detail)
      (detail_text to_text "message" "Tracker request failed." detail)
      (set_field "status_code" (int (pos status_code)) (detail_context detail))

-- `payload.get("detail") if isinstance(payload, dict) else None`.
abbrev pub detail_of : Json → Option Json
detail_of (obj payload) = get_field "detail" payload
detail_of _ = none

abbrev pub failed_with : (Json → String) → ℕ → Option Json → Exception
failed_with to_text status_code (some (obj detail)) = reported to_text status_code detail
failed_with to_text status_code _ = request_failed status_code

abbrev pub parse_payload : (Json → String) → ℕ → Json → Result Fields
parse_payload to_text status_code payload =
    if leb 400 status_code
    then raise (failed_with to_text status_code (detail_of payload))
    else elim payload [ obj f ↦ ok f | _ ↦ raise (unexpected_shape status_code) ]

unfoldable pub parse_response : (Json → String) → Response → Result Fields
parse_response to_text response = elim response.json [
  | none ↦ raise (non_json response.status_code)
  | some payload ↦ parse_payload to_text response.status_code payload
]

pub record TrackerClient (S : Type 0) : Type 0 where
  pub platform : Platform
  pub to_text : Json → String
  pub web : Web
  pub send : Request → Exec S Response

abbrev pub announce_fields : String → FileManifest → List ℤ → AnnounceFields
announce_fields peer_id manifest available_chunks = record {
  peer_id = peer_id;
  info_hash = manifest.info_hash;
  file_name = manifest.file_name;
  file_size_bytes = pos manifest.file_size_bytes;
  chunk_size_bytes = pos manifest.chunk_size_bytes;
  total_chunks = pos manifest.total_chunks;
  file_sha256 = manifest.file_sha256;
  chunk_sha256 = manifest.chunk_sha256;
  available_chunks = available_chunks;
}

module _ {S : Type 0} where
  -- `_parse_response` and `model_validate`.
  abbrev pub received : {A : Type 0} → TrackerClient S → Schema A → Response → Exec S A
  received client schema response = do
    data_fields ← lift (parse_response client.to_text response)
    lift (schema.load data_fields)

  unfoldable pub register_peer :
      TrackerClient S → String → String → ℤ → String → Exec S RegisterPeerResponse
  unfolding parse_response
  register_peer client peer_id host port client_version = do
    request ← lift (
        validate_register
          (record { peer_id = peer_id; host = host; port = port; client_version = client_version }))
    response ← client.send (post_register (dump_register request))
    received client client.web.registered response

  unfoldable pub heartbeat : TrackerClient S → String → Exec S HeartbeatResponse
  unfolding parse_response
  heartbeat client peer_id = do
    request ← lift (validate_heartbeat peer_id)
    response ← client.send (post_heartbeat request.peer_id)
    received client client.web.seen response

  unfoldable pub announce_file :
      TrackerClient S → String → FileManifest → List ℤ → Exec S AnnounceFileResponse
  unfolding parse_response
  announce_file client peer_id manifest available_chunks = do
    request ←
        lift (validate_announce client.platform (announce_fields peer_id manifest available_chunks))
    response ← client.send (post_announce (dump_announce request))
    received client client.web.announced response

  unfoldable pub get_swarm : TrackerClient S → String → Exec S SwarmResponse
  unfolding parse_response
  get_swarm client info_hash = do
    response ← client.send (get_file_swarm info_hash)
    received client client.web.swarm response
