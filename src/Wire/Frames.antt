-- ===== src/Wire/Frames.antt =====
-- Messages and frames of src/shardnet/client/core/protocol.py. What a peer has sent is a list of bytes,
-- and what comes behind them: the end of the connection, or nothing within the timeout, which every
-- caller gives.
use Prim.Native.Nat.{◌/◌, ◌%◌}
use shard_net.Base.{
  ℕ, ℤ, pos, String, Bool, true, false, Option, none, some, [], ◌∷◌, ◌++◌, ◌+◌, ◌*◌, ◌||◌, ltb, leb,
  if◌then◌else◌, length, take, drop,
}
use shard_net.Json.{Fields, int, field, end}
use shard_net.Errors.{Result, ok, raise, Exception, protocol, incomplete_read_error, timeout_error}
use shard_net.Platform.{Bytes}

abbrev pub max_frame_size_bytes : ℕ
max_frame_size_bytes = 16777216

pub data MessageType : Type 0 where
  hello hello_ack piece_request piece_data error keepalive : MessageType

pub record ProtocolMessage : Type 0 where
  pub protocol_version : ℤ
  pub message_type : MessageType
  pub request_id : Option String
  pub peer_id : Option String
  pub info_hash : Option String
  pub piece_index : Option ℕ
  pub payload : Fields

abbrev pub is_piece : MessageType → Bool
is_piece piece_request = true
is_piece piece_data = true
is_piece _ = false

-- `validate_shape`.
unfoldable pub has_message_shape : ProtocolMessage → Bool
has_message_shape m =
    if is_piece m.message_type
    then elim m.info_hash [
      | none ↦ false
      | some _ ↦ elim m.piece_index [ none ↦ false | some _ ↦ true ]
    ]
    else true

-- What pydantic and `json` do with a message: `json.dumps(message.model_dump(mode="json"))` in UTF-8,
-- and `ProtocolMessage.model_validate_json`, where `none` is a `ValidationError`.
pub record Codec : Type 0 where
  pub encode : ProtocolMessage → Bytes
  pub decode : Bytes → Option ProtocolMessage

abbrev pub protocol_error : String → String → Fields → Exception
protocol_error code message context =
    protocol (record { code = code; message = message; context = context })

abbrev pub frame_too_large : ℕ → Exception
frame_too_large frame_size =
    protocol_error "frame_too_large" "Protocol frame exceeds maximum size." (
      field "frame_size" (int (pos frame_size))
        (field "max_frame_size" (int (pos max_frame_size_bytes)) end))

abbrev pub invalid_frame_size : ℕ → Exception
invalid_frame_size frame_size =
    protocol_error "invalid_frame_size" "Frame size is invalid."
      (field "frame_size" (int (pos frame_size)) end)

abbrev pub connection_closed : Exception
connection_closed =
    protocol_error "connection_closed" "Peer closed the connection while reading a frame." end

abbrev pub read_timeout : Exception
read_timeout = protocol_error "read_timeout" "Timed out while waiting for peer message." end

abbrev pub invalid_message : Exception
invalid_message = protocol_error "invalid_message" "Peer message failed schema validation." end

-- `struct.pack(">I", n)` for a number below 2 ^ 32.
unfoldable pub pack : ℕ → Bytes
pack n = n / 16777216 % 256 ∷ n / 65536 % 256 ∷ n / 256 % 256 ∷ n % 256 ∷ []

-- `struct.unpack(">I", header)[0]` on four bytes.
unfoldable pub unpack : Bytes → ℕ
unpack (a ∷ b ∷ c ∷ d ∷ []) = a * 16777216 + b * 65536 + c * 256 + d
unpack _ = 0

-- `sent` is what has been written to the connection.
unfoldable pub send_message : Codec → ProtocolMessage → Bytes → Result (Unit {0}) × Bytes
unfolding pack
send_message codec message sent =
    let payload = codec.encode message in
    if ltb max_frame_size_bytes (length payload)
    then (raise (frame_too_large (length payload)), sent)
    else (ok tt, sent ++ (pack (length payload) ++ payload))

-- What comes behind the bytes that have arrived.
pub data Ending : Type 0 where
  closed silent : Ending

pub record Stream : Type 0 where
  pub buffer : Bytes
  pub ending : Ending

-- `_read_exactly`: `readexactly` empties the buffer when the connection ends too early.
unfoldable pub read_exactly : ℕ → Stream → Result Bytes × Stream
read_exactly size st =
    if leb size (length st.buffer)
    then (ok (take size st.buffer), record st { buffer = drop size st.buffer })
    else elim st.ending [
      | closed ↦ (raise incomplete_read_error, record st { buffer = [] })
      | silent ↦ (raise timeout_error, st)
    ]

-- `except asyncio.IncompleteReadError` and `except TimeoutError`.
abbrev pub translated : Exception → Exception
translated incomplete_read_error = connection_closed
translated timeout_error = read_timeout
translated e = e

-- `ProtocolMessage.model_validate_json(payload)`.
abbrev pub decoded : Codec → Bytes → Result ProtocolMessage
decoded codec payload = elim (codec.decode payload) [
  | none ↦ raise invalid_message
  | some message ↦ ok message
]

abbrev pub read_payload : Codec → Result Bytes × Stream → Result ProtocolMessage × Stream
read_payload codec (ok payload, st) = (decoded codec payload, st)
read_payload codec (raise e, st) = (raise (translated e), st)

abbrev pub read_frame : Codec → Result Bytes × Stream → Result ProtocolMessage × Stream
read_frame codec (raise e, st) = (raise (translated e), st)
read_frame codec (ok header, st) =
    let frame_size = unpack header in
    if leb frame_size 0 || ltb max_frame_size_bytes frame_size
    then (raise (invalid_frame_size frame_size), st)
    else read_payload codec (read_exactly frame_size st)

unfoldable pub read_message : Codec → Stream → Result ProtocolMessage × Stream
unfolding unpack read_exactly
read_message codec st = read_frame codec (read_exactly 4 st)
