-- ===== src/Tests/Wire.antt =====
-- Frames, and a connection to a server that shares a small file.
use shard_net.Base.{◌≤◌, ◌<◌, ℕ, pos, none, some, [], ◌∷◌, ◌++◌, ◌≡◌, refl, arith, suc, zero}
use shard_net.Json.{end}
use shard_net.Errors.{Result, ok, raise}
use shard_net.Platform.{Bytes, is_hash}
use shard_net.Disk.{read_file}
use shard_net.Manifest.{validate, has_chunk_shape, size_of_chunk, chunk_size_for_index}
use shard_net.Manifest.Build.{
  iter_file_chunks, compute_info_hash, manifest_fields, build_file_manifest,
}
use shard_net.Share.Store.{
  add_share, register_file, get_manifest, read_verified, read_shared, read_chunk,
}
use shard_net.Wire.Frames.{
  max_frame_size_bytes, frame_too_large, MessageType, hello, hello_ack, piece_request, piece_data,
  error, keepalive, ProtocolMessage, Codec, Stream, Ending, closed, silent, connection_closed,
  invalid_frame_size, pack, unpack, send_message, read_exactly, read_message,
}
use shard_net.Wire.RoundTrip.{IsFramed, read_message-send_message, read_message-IsFramed}
use shard_net.Serve.Connection.{
  Server, protocol_version, send_error, handle_piece_request, handle_message, serve, handle_client,
}
use shard_net.Serve.Pieces.{handle_piece_request-read_chunk}
use shard_net.Serve.Rounds.{handle_client_ends}
use shard_net.Tests.Toy.{toy, tune_bytes, even_hash}

program : Unit {0}
unfolding validate has_chunk_shape is_hash chunk_size_for_index size_of_chunk iter_file_chunks
    compute_info_hash manifest_fields build_file_manifest add_share register_file get_manifest
    read_verified read_shared read_chunk read_file pack unpack send_message read_exactly
    read_message send_error handle_piece_request handle_message serve handle_client
program = tt

abbrev pub greeting : ProtocolMessage
greeting = record {
  protocol_version = protocol_version;
  message_type = hello;
  request_id = some "r1";
  peer_id = some "bob";
  info_hash = none;
  piece_index = none;
  payload = end;
}

abbrev pub request : ProtocolMessage
request = record greeting {
  message_type = piece_request;
  info_hash = some even_hash;
  piece_index = some 2;
}

-- One byte for each type of message.
abbrev tag : MessageType → ℕ
tag hello = 1
tag hello_ack = 2
tag piece_request = 3
tag piece_data = 4
tag error = 5
tag keepalive = 6

abbrev toy_codec : Codec
toy_codec = record {
  encode = λ m. tag m.message_type ∷ [];
  decode = λ payload. elim payload [
    | (suc zero) ∷ [] ↦ some greeting
    | (suc (suc (suc zero))) ∷ [] ↦ some request
    | _ ↦ none
  ];
}

abbrev pub server : Server
server = record {
  platform = toy;
  codec = toy_codec;
  b64encode = λ data_bytes. "";
  peer_id = "alice";
  shares =
      (register_file toy 10 "in/tune.bin" (pos 2)
        (record { shared_files = []; disk = ("in/tune.bin", tune_bytes) ∷ [] })).1;
}

abbrev greeting_frame : Bytes
greeting_frame = 0 ∷ 0 ∷ 0 ∷ 1 ∷ 1 ∷ []

abbrev request_frame : Bytes
request_frame = 0 ∷ 0 ∷ 0 ∷ 1 ∷ 3 ∷ []

abbrev conversation : Stream
conversation = record { buffer = greeting_frame ++ request_frame; ending = closed }

-- The acknowledgement and the chunk.
answered :
    handle_client 11 server conversation ≡ some (ok tt, 0 ∷ 0 ∷ 0 ∷ 1 ∷ 2 ∷ 0 ∷ 0 ∷ 0 ∷ 1 ∷ 4 ∷ [])
unfolding program
answered = refl

too_short :
    (read_message toy_codec (record { buffer = 0 ∷ 0 ∷ []; ending = closed })).0
    ≡ raise connection_closed
unfolding program
too_short = refl

too_late :
    (read_message toy_codec (record { buffer = greeting_frame; ending = silent })).0 ≡ ok greeting
unfolding program
too_late = refl

empty_frame :
    (read_message toy_codec (record { buffer = 0 ∷ 0 ∷ 0 ∷ 0 ∷ []; ending = closed })).0
    ≡ raise (invalid_frame_size 0)
unfolding program
empty_frame = refl

read_message-send_message_example :
    (frame : Bytes) × ((sent : Bytes)
      → send_message toy_codec greeting sent ≡ (ok tt, sent ++ frame))
    × ((rest : Bytes) (ending : Ending)
        → read_message toy_codec (record { buffer = frame ++ rest; ending = ending })
          ≡ (ok greeting, record { buffer = rest; ending = ending }))
read_message-send_message_example =
    read_message-send_message toy_codec greeting refl (omega arith) (omega arith)

read_message-IsFramed_example :
    IsFramed toy_codec greeting conversation (record { buffer = request_frame; ending = closed })
unfolding program
read_message-IsFramed_example =
    read_message-IsFramed toy_codec conversation {m = greeting}
      {st' = record { buffer = request_frame; ending = closed }} refl

handle_client_ends_example :
    (r : Result (Unit {0}) × Bytes) × (handle_client 11 server conversation ≡ some r)
handle_client_ends_example = handle_client_ends server conversation

handle_piece_request-read_chunk_example :
    (1 ≤ max_frame_size_bytes
      → handle_piece_request server request [] ≡ (ok tt, 0 ∷ 0 ∷ 0 ∷ 1 ∷ 4 ∷ []))
    × (max_frame_size_bytes < 1
        → handle_piece_request server request [] ≡ (raise (frame_too_large 1), []))
unfolding program
handle_piece_request-read_chunk_example =
    handle_piece_request-read_chunk server request even_hash 2 (5 ∷ []) [] refl refl refl
