-- ===== src/Serve/Connection.antt =====
-- `_handle_client`, `_handle_piece_request` and `_send_error` of
-- src/shardnet/client/core/peer_server.py. A connection is what has arrived and what has been sent. The
-- catalog of shares and the files stay as they are while a connection is served.
use Prim.Native.String.{◌++◌ as join_text}
use shard_net.Base.{
  ℕ, zero, suc, ℤ, pos, String, Bool, true, false, not, Option, none, some, ◌==◌, negsuc, [],
  nat_eq, text_eq, if◌then◌else◌, get_elem?,
}
use shard_net.Json.{str, field, end}
use shard_net.Errors.{Result, ok, raise, Exception, protocol, transfer, index_error}
use shard_net.Platform.{Platform, Bytes}
use shard_net.Manifest.{FileManifest}
use shard_net.Share.Store.{Shares, get_manifest, read_chunk}
use shard_net.Wire.Frames.{
  MessageType, hello, hello_ack, piece_request, piece_data, error, keepalive, ProtocolMessage,
  Codec, Stream, send_message, read_message,
}

-- What a server works with; `b64encode` is `base64.b64encode(data).decode("ascii")`.
pub record Server : Type 0 where
  pub platform : Platform
  pub codec : Codec
  pub b64encode : Bytes → String
  pub peer_id : String
  pub shares : Shares

-- `PROTOCOL_VERSION`.
abbrev pub protocol_version : ℤ
protocol_version = pos 1

-- What has been sent, and how the sender went on.
abbrev pub Sending : Type 0
Sending = Bytes → Result (Unit {0}) × Bytes

-- A reply without a payload.
abbrev pub reply : Server → MessageType → Option String → ProtocolMessage
reply server message_type request_id = record {
  protocol_version = protocol_version;
  message_type = message_type;
  request_id = request_id;
  peer_id = some server.peer_id;
  info_hash = none;
  piece_index = none;
  payload = end;
}

unfoldable pub send_error : Server → Option String → String → String → Sending
send_error server request_id code message =
    send_message server.codec (record (reply server error request_id) {
      payload = field "code" (str code) (field "message" (str message) end);
    })

-- The message that carries a chunk.
abbrev pub piece_message : Server → Option String → String → ℕ → String → Bytes → ProtocolMessage
piece_message server request_id info_hash piece_index chunk_sha256 chunk_data =
    record (reply server piece_data request_id) {
      info_hash = some info_hash;
      piece_index = some piece_index;
      payload =
          field "chunk_sha256" (str chunk_sha256)
            (field "data_b64" (str (server.b64encode chunk_data)) end);
    }

-- What `read_chunk` gave, as an answer.
abbrev pub answer_chunk :
    Server → Option String → String → ℕ → FileManifest → Result (Option Bytes) → Sending
answer_chunk server request_id info_hash i manifest (raise (transfer e)) sent =
    send_error server request_id e.code e.message sent
answer_chunk server request_id info_hash i manifest (raise e) sent = (raise e, sent)
answer_chunk server request_id info_hash i manifest (ok none) sent =
    send_error server request_id "piece_not_available"
      "Requested piece is not available on this peer." sent
answer_chunk server request_id info_hash i manifest (ok (some chunk_data)) sent =
    elim (get_elem? manifest.chunk_sha256 i) [
      | none ↦ (raise index_error, sent)
      | some chunk_sha256 ↦
          send_message server.codec
            (piece_message server request_id info_hash i chunk_sha256 chunk_data) sent
    ]

-- What `get_manifest` gave, as an answer.
abbrev pub answer_piece :
    Server → Option String → String → ℕ → Result (Option FileManifest) → Sending
answer_piece server request_id info_hash i (raise e) sent = (raise e, sent)
answer_piece server request_id info_hash i (ok none) sent =
    send_error server request_id "info_hash_not_shared"
      "Requested info_hash is not available on this peer." sent
answer_piece server request_id info_hash i (ok (some manifest)) sent =
    answer_chunk server request_id info_hash i manifest
      (read_chunk server.platform info_hash (pos i) server.shares) sent

abbrev pub requested_piece : Server → Option String → Option String → Option ℕ → Sending
requested_piece server request_id (some info_hash) (some i) sent =
    answer_piece server request_id info_hash i
      (get_manifest server.platform info_hash server.shares) sent
requested_piece server request_id _ _ sent =
    send_error server request_id "invalid_piece_request"
      "piece_request must include info_hash and piece_index." sent

unfoldable pub handle_piece_request : Server → ProtocolMessage → Sending
unfolding send_error
handle_piece_request server message =
    requested_piece server message.request_id message.info_hash message.piece_index

abbrev pub type_name : MessageType → String
type_name hello = "hello"
type_name hello_ack = "hello_ack"
type_name piece_request = "piece_request"
type_name piece_data = "piece_data"
type_name error = "error"
type_name keepalive = "keepalive"

-- How a round of the loop ends: it goes on, or the connection is done.
pub data Round : Type 0 where
  again : Round
  done : Round

abbrev pub ending {ℓ} : {A : Type ℓ} → A → Result (Unit {0}) × Bytes → Result A × Bytes
ending a (ok tt, sent) = (ok a, sent)
ending a (raise e, sent) = (raise e, sent)

-- `except ProtocolError` in the loop.
abbrev pub broken : Server → Exception → Bytes → Result Round × Bytes
broken server (protocol e) sent =
    if e.code == "connection_closed"
    then (ok done, sent)
    else ending done (send_error server none e.code e.message sent)
broken server e sent = (raise e, sent)

abbrev pub unsupported : Server → ProtocolMessage → Bytes → Result Round × Bytes
unsupported server message sent = ending done (
    send_error server message.request_id "unsupported_message_type"
      (join_text "Unsupported message_type: " (type_name message.message_type)) sent)

unfoldable pub handle_message : Server → ProtocolMessage → Bytes → Result Round × Bytes
unfolding handle_piece_request
handle_message server message sent = elim message.message_type [
  | piece_request ↦ ending again (handle_piece_request server message sent)
  | keepalive ↦
      ending again (send_message server.codec (reply server keepalive message.request_id) sent)
  | hello ↦ unsupported server message sent
  | hello_ack ↦ unsupported server message sent
  | piece_data ↦ unsupported server message sent
  | error ↦ unsupported server message sent
]

-- The body of the loop, on what `read_message` gave.
abbrev pub served : Server → Result ProtocolMessage → Bytes → Result Round × Bytes
served server (ok message) sent = handle_message server message sent
served server (raise e) sent = broken server e sent

-- The end of a round: `return`, `break`, or the rest of the loop.
abbrev pub settle :
    Result Round × Bytes → Option (Result (Unit {0}) × Bytes) → Option (Result (Unit {0}) × Bytes)
settle (raise e, sent) rest = some (raise e, sent)
settle (ok done, sent) rest = some (ok tt, sent)
settle (ok again, sent) rest = rest

-- `while True`; `none` means that the rounds did not suffice.
unfoldable pub serve : ℕ → Server → Stream → Bytes → Option (Result (Unit {0}) × Bytes)
unfolding handle_message
serve zero server st sent = none
serve (suc rounds) server st sent =
    let got = read_message server.codec st in
    let step = served server got.0 sent in
    let rest = serve rounds server got.1 step.1 in settle step rest

abbrev pub is_hello : MessageType → Bool
is_hello hello = true
is_hello _ = false

abbrev pub is_supported : ℤ → Bool
is_supported (pos n) = n == 1
is_supported (negsuc n) = false

-- The loop behind the acknowledgement, if that was sent.
abbrev pub then_serve :
    ℕ → Server → Stream → Result (Unit {0}) × Bytes → Option (Result (Unit {0}) × Bytes)
then_serve rounds server st (raise e, sent) = some (raise e, sent)
then_serve rounds server st (ok tt, sent) = serve rounds server st sent

-- What follows the first message.
abbrev pub greeted :
    ℕ → Server → Result ProtocolMessage → Stream → Option (Result (Unit {0}) × Bytes)
greeted rounds server (raise e) st = some (raise e, [])
greeted rounds server (ok first) st =
    if not (is_hello first.message_type)
    then some (
        send_error server first.request_id "invalid_handshake"
          "First protocol message must be hello." [])
    else if not (is_supported first.protocol_version)
    then some (
        send_error server first.request_id "protocol_version_mismatch"
          "Peer protocol version is not supported." [])
    else then_serve rounds server st
        (send_message server.codec (reply server hello_ack first.request_id) [])

-- How the handling of a connection ends, and what it has sent.
unfoldable pub handle_client : ℕ → Server → Stream → Option (Result (Unit {0}) × Bytes)
unfolding serve
handle_client rounds server st =
    let got = read_message server.codec st in greeted rounds server got.0 got.1
