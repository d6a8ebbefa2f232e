-- ===== src/Fetch/Exchange.antt =====
-- A peer client and a peer server on one connection (src/shardnet/client/core/peer_client.py and
-- peer_server.py): the chunk that the share store of the one hands out arrives at the other.
use mathlib.Core.List.{append-nil}
use shard_net.Base.{
  ℕ, suc, pos, String, some, [], ◌++◌, ◌≡◌, refl, ◌<◌, ◌≤◌, text_eq, length, arith, eq_iff,
}
use shard_net.Errors.{ok, raise}
use shard_net.Platform.{Bytes}
use shard_net.Share.Store.{read_chunk}
use shard_net.Wire.Frames.{
  hello_ack, ProtocolMessage, Codec, Ending, closed, max_frame_size_bytes, connection_closed,
  send_message, read_message,
}
use shard_net.Wire.RoundTrip.{read_message-send_message}
use shard_net.Serve.Connection.{Server, reply, piece_message, handle_message, serve, handle_client}
use shard_net.Serve.Pieces.{handle_piece_request-send_message}
use shard_net.Fetch.Request.{
  Client, say, hear, hello_message, request_message, chunk_of, ask_for, await_chunk, connect,
  request_chunk_once,
}

-- A message that pydantic reads back from its own JSON, which has a byte at least and fits a frame.
pub record Travels (codec : Codec) (m : ProtocolMessage) : Type 0 where
  pub known : codec.decode (codec.encode m) ≡ some m
  pub nonempty : 0 < length (codec.encode m)
  pub small : length (codec.encode m) ≤ max_frame_size_bytes

-- The frame of a message, by what sending and reading do with it.
record Frame (codec : Codec) (m : ProtocolMessage) : Type 0 where
  bytes : Bytes
  sends : (sent : Bytes) → send_message codec m sent ≡ (ok tt, sent ++ bytes)
  reads :
      (rest : Bytes) (ending : Ending)
      → read_message codec (record { buffer = bytes ++ rest; ending = ending })
        ≡ (ok m, record { buffer = rest; ending = ending })

framed : (codec : Codec) (m : ProtocolMessage) → Travels codec m → Frame codec m
framed codec m t =
    let (bytes, sends, reads) = read_message-send_message codec m t.known t.nonempty t.small in
    record { bytes = bytes; sends = sends; reads = reads }

nothing_left :
    (codec : Codec)
    → read_message codec (record { buffer = []; ending = closed })
      ≡ (raise connection_closed, record { buffer = []; ending = closed })
unfolding read_message
nothing_left codec = refl

module _ (client : Client) (server : Server) (request_id info_hash : String) (i : ℕ)
    (chunk_data : Bytes) (codec : Codec) (ours : client.codec ≡ codec)
    (theirs : server.codec ≡ codec) (greeting : Frame codec (hello_message client request_id))
    (ack : Frame codec (reply server hello_ack (some request_id)))
    (request : Frame codec (request_message client request_id info_hash i))
    (piece : Frame codec (
      piece_message server
        (some request_id)
        info_hash
        i
        (server.platform.sha256 chunk_data)
        chunk_data)) where
  server_side :
      (n : ℕ)
      → read_chunk server.platform info_hash (pos i) server.shares ≡ ok (some chunk_data)
      → handle_client
          (suc (suc n))
          server
          (record { buffer = greeting.bytes ++ request.bytes; ending = closed })
        ≡ some (ok tt, ack.bytes ++ piece.bytes)
  unfolding handle_client serve handle_message
  server_side n e =
      let answer =
        handle_piece_request-send_message server (request_message client request_id info_hash i)
          info_hash i chunk_data ack.bytes refl refl e in
      ground (
        arith,
        theirs,
        greeting.reads request.bytes closed,
        ack.sends [],
        request.reads [] closed,
        append-nil request.bytes,
        answer,
        piece.sends ack.bytes,
        nothing_left codec,
      )

  asks :
      (ending : Ending)
      → ask_for client request_id info_hash i
          (connect (record { buffer = ack.bytes ++ piece.bytes; ending = ending }))
        ≡ (
          ok tt,
          record {
            stream = record { buffer = piece.bytes; ending = ending };
            sent = greeting.bytes ++ request.bytes;
          },
        )
  unfolding ask_for say hear
  asks ending =
      ground
        (arith, ours, greeting.sends [], ack.reads piece.bytes ending, request.sends greeting.bytes)

  chunk_of-piece_message :
      client.b64decode (server.b64encode chunk_data) ≡ some chunk_data
      → client.platform.sha256 chunk_data ≡ server.platform.sha256 chunk_data
      → chunk_of client (
          piece_message server
            (some request_id)
            info_hash
            i
            (server.platform.sha256 chunk_data)
            chunk_data)
        ≡ ok chunk_data
  unfolding chunk_of
  chunk_of-piece_message b64 same = ground (
    arith,
    b64,
    same,
    eq_iff (client.platform.sha256 chunk_data) (server.platform.sha256 chunk_data),
  )

  client_side :
      (n : ℕ) (ending : Ending)
      → client.b64decode (server.b64encode chunk_data) ≡ some chunk_data
      → client.platform.sha256 chunk_data ≡ server.platform.sha256 chunk_data
      → request_chunk_once
          (suc n)
          client
          request_id
          info_hash
          i
          (record { buffer = ack.bytes ++ piece.bytes; ending = ending })
        ≡ some (
          ok chunk_data,
          record {
            stream = record { buffer = []; ending = ending };
            sent = greeting.bytes ++ request.bytes;
          },
        )
  unfolding request_chunk_once await_chunk hear
  client_side n ending b64 same = ground (
    arith,
    ours,
    asks ending,
    append-nil piece.bytes,
    piece.reads [] ending,
    eq_iff request_id request_id,
    chunk_of-piece_message b64 same,
  )

-- If a server and a client have the same codec and the same digest of a chunk, the share store of the server reads that chunk, the text of its bytes decodes to them, and the four messages between the two survive encoding and fit into a frame, then there are bytes `asked` and `replied` such that a server that receives `asked` and then the end of the connection ends without an error, having sent `replied`, and a client that receives `replied` returns the chunk, having sent `asked`.
pub request_chunk_once-handle_client :
    (client : Client) (server : Server) (request_id info_hash : String) (i : ℕ) (chunk_data : Bytes)
    → client.codec ≡ server.codec
    → client.platform.sha256 chunk_data ≡ server.platform.sha256 chunk_data
    → client.b64decode (server.b64encode chunk_data) ≡ some chunk_data
    → read_chunk server.platform info_hash (pos i) server.shares ≡ ok (some chunk_data)
    → Travels server.codec (hello_message client request_id)
    → Travels server.codec (reply server hello_ack (some request_id))
    → Travels server.codec (request_message client request_id info_hash i)
    → Travels server.codec (
        piece_message server
          (some request_id)
          info_hash
          i
          (server.platform.sha256 chunk_data)
          chunk_data)
    → (n k : ℕ) (ending : Ending)
    → (asked : Bytes) × (replied : Bytes) × (handle_client
          (suc (suc n))
          server
          (record { buffer = asked; ending = closed })
        ≡ some (ok tt, replied))
      × (request_chunk_once
            (suc k)
            client
            request_id
            info_hash
            i
            (record { buffer = replied; ending = ending })
          ≡ some (
            ok chunk_data,
            record { stream = record { buffer = []; ending = ending }; sent = asked },
          ))
request_chunk_once-handle_client client server request_id info_hash i chunk_data codecs same b64 e
      t1 t2 t3 t4 n k ending =
    let greeting = framed server.codec _ t1 in
    let ack = framed server.codec _ t2 in
    let request = framed server.codec _ t3 in
    let piece = framed server.codec _ t4 in
    (
      greeting.bytes ++ request.bytes,
      ack.bytes ++ piece.bytes,
      server_side client server request_id info_hash i chunk_data server.codec codecs refl greeting
          ack request piece n e,
      client_side client server request_id info_hash i chunk_data server.codec codecs refl greeting
          ack request piece k ending b64 same,
    )
