-- ===== src/Fetch/Request.antt =====
-- `_request_chunk_once` of src/shardnet/client/core/peer_client.py, for a chunk index that is not
-- negative, as the node gives it.
use Prim.Native.String.{◌++◌ as join_text}
use shard_net.Base.{
  ℕ, zero, suc, String, Bool, true, false, not, Option, none, some, [], ◌==◌, text_eq,
  if◌then◌else◌,
}
use shard_net.Json.{Json, str, Fields, field, end, get_field}
use shard_net.Errors.{Result, ok, raise, Exception, value_error}
use shard_net.Exec.{Exec, ◌>>=◌, ◌>>◌, throw_if}
use shard_net.Platform.{Platform, Bytes}
use shard_net.Wire.Frames.{
  MessageType, hello, hello_ack, piece_request, piece_data, error, keepalive, ProtocolMessage,
  Codec, Stream, protocol_error, send_message, read_message,
}
use shard_net.Serve.Connection.{protocol_version, type_name}

-- What a client works with. `to_text` is Python's `str` on a value that is no text, and `b64decode` is
-- `base64.b64decode(data.encode("ascii"))`, where `none` is its `ValueError`.
pub record Client : Type 0 where
  pub platform : Platform
  pub codec : Codec
  pub b64decode : String → Option Bytes
  pub to_text : Json → String
  pub peer_id : String

-- A connection: what arrives, and what has been sent.
pub record Connection : Type 0 where
  pub stream : Stream
  pub sent : Bytes

-- `open_connection`, with its timeout: it fails, or there is a connection and what arrives on it.
pub data Opened : Type 0 where
  failed : Exception → Opened
  opened : Stream → Opened

abbrev pub Talk : Type 0 → Type 0
Talk A = Exec Connection A

unfoldable pub say : Client → ProtocolMessage → Talk (Unit {0})
say client message c =
    let written = send_message client.codec message c.sent in
    (written.0, record c { sent = written.1 })

unfoldable pub hear : Client → Talk ProtocolMessage
hear client c = let got = read_message client.codec c.stream in (got.0, record c { stream = got.1 })

abbrev pub hello_message : Client → String → ProtocolMessage
hello_message client request_id = record {
  protocol_version = protocol_version;
  message_type = hello;
  request_id = some request_id;
  peer_id = some client.peer_id;
  info_hash = none;
  piece_index = none;
  payload = end;
}

abbrev pub request_message : Client → String → String → ℕ → ProtocolMessage
request_message client request_id info_hash chunk_index = record (hello_message client request_id) {
  message_type = piece_request;
  info_hash = some info_hash;
  piece_index = some chunk_index;
}

abbrev pub is_hello_ack : MessageType → Bool
is_hello_ack hello_ack = true
is_hello_ack _ = false

-- `response.message_type == "keepalive"` or `response.request_id != request_id`: the loop goes on.
abbrev pub is_passed_over : String → ProtocolMessage → Bool
is_passed_over request_id response = elim response.message_type [
  | keepalive ↦ true
  | _ ↦ elim response.request_id [ none ↦ true | some r ↦ not (r == request_id) ]
]

abbrev pub handshake_failed : Exception
handshake_failed = protocol_error "handshake_failed" "Peer did not acknowledge hello handshake." end

abbrev pub unexpected_response : MessageType → Exception
unexpected_response message_type =
    protocol_error "unexpected_response"
      (join_text "Unexpected message_type: " (type_name message_type)) end

abbrev pub invalid_piece_payload : Exception
invalid_piece_payload =
    protocol_error "invalid_piece_payload" "piece_data message missing base64 payload." end

abbrev pub payload_hash_mismatch : String → String → Exception
payload_hash_mismatch expected_hash actual_hash =
    protocol_error "chunk_hash_mismatch" "Peer chunk payload failed hash verification."
      (field "expected_hash" (str expected_hash) (field "actual_hash" (str actual_hash) end))

-- `str(payload.get(key, default))`.
abbrev pub text_of : Client → String → String → Fields → String
text_of client key default payload = elim (get_field key payload) [
  | none ↦ default
  | some (str s) ↦ s
  | some value ↦ client.to_text value
]

-- `payload.get(key)` and the test for a text.
abbrev pub text_at : String → Fields → Option String
text_at key payload = elim (get_field key payload) [
  | none ↦ none
  | some (str s) ↦ some s
  | some _ ↦ none
]

-- `error` answers: a `ProtocolError` of the peer's words.
abbrev pub peer_error : Client → Fields → Exception
peer_error client payload =
    protocol_error (text_of client "code" "peer_error" payload)
      (text_of client "message" "Peer returned an error." payload) end

-- The comparison with the digest that the answer names, if it names one.
abbrev pub verified : Client → Option String → Bytes → Result Bytes
verified client none chunk_data = ok chunk_data
verified client (some expected_hash) chunk_data =
    let actual_hash = client.platform.sha256 chunk_data in
    if actual_hash == expected_hash
    then ok chunk_data
    else raise (payload_hash_mismatch expected_hash actual_hash)

abbrev pub decoded_chunk : Client → Fields → Option String → Result Bytes
decoded_chunk client payload none = raise invalid_piece_payload
decoded_chunk client payload (some data_b64) = elim (client.b64decode data_b64) [
  | none ↦ raise value_error
  | some chunk_data ↦ verified client (text_at "chunk_sha256" payload) chunk_data
]

-- What a response with the request's identifier comes to.
unfoldable pub chunk_of : Client → ProtocolMessage → Result Bytes
chunk_of client response = elim response.message_type [
  | error ↦ raise (peer_error client response.payload)
  | piece_data ↦ decoded_chunk client response.payload (text_at "data_b64" response.payload)
  | other ↦ raise (unexpected_response other)
]

-- Up to the request: `hello`, its acknowledgement, and `piece_request`.
unfoldable pub ask_for : Client → String → String → ℕ → Talk (Unit {0})
unfolding say hear
ask_for client request_id info_hash chunk_index = do
  say client (hello_message client request_id)
  ack ← hear client
  throw_if (not (is_hello_ack ack.message_type)) handshake_failed
  say client (request_message client request_id info_hash chunk_index)

-- What becomes of a message in the loop: it is passed over, or ends the loop.
abbrev pub answered :
    Client
    → String
    → Result ProtocolMessage × Connection
    → Option (Result Bytes × Connection)
    → Option (Result Bytes × Connection)
answered client request_id (raise e, c) rest = some (raise e, c)
answered client request_id (ok response, c) rest =
    if is_passed_over request_id response then rest else some (chunk_of client response, c)

-- `while True`; `none` means that the rounds did not suffice.
unfoldable pub await_chunk : ℕ → Client → String → Connection → Option (Result Bytes × Connection)
unfolding hear chunk_of
await_chunk zero client request_id c = none
await_chunk (suc rounds) client request_id c =
    let got = hear client c in
    let rest = await_chunk rounds client request_id got.1 in answered client request_id got rest

abbrev pub then_await :
    ℕ → Client → String → Result (Unit {0}) × Connection → Option (Result Bytes × Connection)
then_await rounds client request_id (raise e, c) = some (raise e, c)
then_await rounds client request_id (ok tt, c) = await_chunk rounds client request_id c

abbrev pub connect : Stream → Connection
connect stream = record { stream = stream; sent = [] }

-- The result, and the connection at its end, if there was one.
unfoldable pub request_chunk_once :
    ℕ → Client → String → String → ℕ → Stream → Option (Result Bytes × Connection)
unfolding ask_for await_chunk
request_chunk_once rounds client request_id info_hash chunk_index stream =
    then_await rounds client request_id
      (ask_for client request_id info_hash chunk_index (connect stream))
