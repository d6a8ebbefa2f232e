-- ===== src/Tests/Fetch.antt =====
-- A client that asks the server of Tests/Wire for the last chunk of its file.
use shard_net.Base.{
  ℕ, zero, suc, pos, true, none, some, [], ◌∷◌, ◌≡◌, refl, ◌↔◌, ◌<◌, ◌≤◌, ◌++◌, arith,
}
use shard_net.Errors.{Result, ok, raise, Exception, timeout_error}
use shard_net.Platform.{Bytes, is_hash}
use shard_net.Disk.{read_file}
use shard_net.Manifest.{validate, has_chunk_shape, size_of_chunk, chunk_size_for_index}
use shard_net.Manifest.Build.{
  iter_file_chunks, compute_info_hash, manifest_fields, build_file_manifest,
}
use shard_net.Share.Store.{
  add_share, register_file, get_manifest, read_verified, read_shared, read_chunk,
}
use shard_net.Wire.Frames.{
  hello, hello_ack, piece_request, piece_data, keepalive, ProtocolMessage, Codec, closed, silent,
  pack, unpack, send_message, read_exactly, read_message,
}
use shard_net.Serve.Connection.{Server, reply, piece_message, handle_client}
use shard_net.Fetch.Request.{
  Client, Connection, failed, opened, say, hear, ask_for, chunk_of, await_chunk, handshake_failed,
  request_chunk_once,
}
use shard_net.Fetch.Retry.{Target, is_caught, attempt, attempts_from, request_chunk}
use shard_net.Fetch.Answers.{IsExchange, request_chunk_once-IsExchange}
use shard_net.Fetch.Attempts.{request_chunk_lem}
use shard_net.Fetch.Exchange.{request_chunk_once-handle_client}
use shard_net.Tests.Toy.{toy, even_hash, odd_hash}
use shard_net.Tests.Wire.{server, greeting, request}

program : Unit {0}
unfolding validate has_chunk_shape is_hash chunk_size_for_index size_of_chunk iter_file_chunks
    compute_info_hash manifest_fields build_file_manifest add_share register_file get_manifest
    read_verified read_shared read_chunk read_file pack unpack send_message read_exactly
    read_message say hear ask_for chunk_of await_chunk request_chunk_once attempt attempts_from
    request_chunk
program = tt

abbrev last_chunk : Bytes
last_chunk = 5 ∷ []

-- The server without a codec of its own, for what its messages are.
abbrev spelling : Server
spelling = record server { b64encode = λ data_bytes. "BQ==" }

abbrev ack : ProtocolMessage
ack = reply spelling hello_ack (some "r1")

abbrev piece : ProtocolMessage
piece = piece_message spelling (some "r1") even_hash 2 odd_hash last_chunk

-- One byte for each message of the exchange.
abbrev chatting : Codec
chatting = record {
  encode = λ m. elim m.message_type [
    | hello ↦ 1 ∷ []
    | hello_ack ↦ 2 ∷ []
    | piece_request ↦ 3 ∷ []
    | piece_data ↦ 4 ∷ []
    | _ ↦ 5 ∷ []
  ];
  decode = λ payload. elim payload [
    | (suc zero) ∷ [] ↦ some greeting
    | (suc (suc zero)) ∷ [] ↦ some ack
    | (suc (suc (suc zero))) ∷ [] ↦ some request
    | (suc (suc (suc (suc zero)))) ∷ [] ↦ some piece
    | (suc (suc (suc (suc (suc zero))))) ∷ [] ↦ some (record ack { message_type = keepalive })
    | _ ↦ none
  ];
}

abbrev alice : Server
alice = record spelling { codec = chatting }

abbrev bob : Client
bob = record {
  platform = toy;
  codec = chatting;
  b64decode = λ data_b64. some last_chunk;
  to_text = λ value. "";
  peer_id = "bob";
}

abbrev ack_frame : Bytes
ack_frame = 0 ∷ 0 ∷ 0 ∷ 1 ∷ 2 ∷ []

abbrev piece_frame : Bytes
piece_frame = 0 ∷ 0 ∷ 0 ∷ 1 ∷ 4 ∷ []

abbrev pause_frame : Bytes
pause_frame = 0 ∷ 0 ∷ 0 ∷ 1 ∷ 5 ∷ []

-- A first attempt that runs into its timeout, and a second one that is answered after a pause.
abbrev target : Target
target = record {
  client = bob;
  retry_attempts = 2;
  host = "10.0.0.1";
  port = pos 9000;
  request_id = λ k. "r1";
  open_connection = λ k. elim k [
    | zero ↦ failed timeout_error
    | suc j ↦
        opened (record { buffer = ack_frame ++ (pause_frame ++ piece_frame); ending = silent })
  ];
  describe = λ e. "";
}

second_attempt : request_chunk target even_hash 2 ≡ some (ok last_chunk)
unfolding program
second_attempt = refl

-- The server's end of the connection before its acknowledgement.
no_handshake :
    (connection : Connection) × (request_chunk_once 6 bob "r1" even_hash 2
        (record { buffer = piece_frame; ending = closed })
      ≡ some (raise handshake_failed, connection))
unfolding program
no_handshake = (_, refl)

request_chunk_once-IsExchange_example :
    IsExchange bob "r1" last_chunk
      (record {
        buffer = ack_frame ++ (pause_frame ++ (piece_frame ++ ack_frame));
        ending = silent;
      })
      (record { buffer = ack_frame; ending = silent })
unfolding program
request_chunk_once-IsExchange_example =
    request_chunk_once-IsExchange bob "r1" last_chunk 16 even_hash 2
      (record {
        buffer = ack_frame ++ (pause_frame ++ (piece_frame ++ ack_frame));
        ending = silent;
      })
      _ refl

request_chunk_lem_example :
    ((r : Result Bytes) × (request_chunk target even_hash 2 ≡ some r))
    × ((chunk_data : Bytes)
        → (request_chunk target even_hash 2 ≡ some (ok chunk_data)) ↔ (
            (m : ℕ) × (m ≤ 2)
            × (attempt target even_hash 2 m ≡ some (ok chunk_data))
            × ((j : ℕ)
                → j < m
                → (e : Exception) × (attempt target even_hash 2 j ≡ some (raise e))
                  × (is_caught e ≡ true))))
request_chunk_lem_example = request_chunk_lem target even_hash 2

request_chunk_once-handle_client_example :
    (asked : Bytes) × (replied : Bytes) × (handle_client 3 alice
        (record { buffer = asked; ending = closed })
      ≡ some (ok tt, replied))
    × (request_chunk_once 1 bob "r1" even_hash 2 (record { buffer = replied; ending = silent })
        ≡ some (
          ok last_chunk,
          record { stream = record { buffer = []; ending = silent }; sent = asked },
        ))
unfolding program
request_chunk_once-handle_client_example =
    request_chunk_once-handle_client bob alice "r1" even_hash 2 last_chunk refl refl refl refl
      (record { known = refl; nonempty = omega arith; small = omega arith })
      (record { known = refl; nonempty = omega arith; small = omega arith })
      (record { known = refl; nonempty = omega arith; small = omega arith })
      (record { known = refl; nonempty = omega arith; small = omega arith }) 1 0 silent
