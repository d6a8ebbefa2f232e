-- ===== src/Serve/Pieces.antt =====
-- The answer of `_handle_piece_request` (src/shardnet/client/core/peer_server.py) to a request for a
-- chunk that can be read.
use shard_net.Base.{length, ◌≤◌, ◌<◌, ◌++◌, ℕ, pos, String, some, ◌≡◌, sym, subst, get_elem?, arith}
use shard_net.Errors.{ok, raise}
use shard_net.Platform.{Bytes}
use shard_net.Share.Store.{get_manifest, read_chunk}
use shard_net.Share.Served.{read_chunk-IsServed}
use shard_net.Wire.Frames.{
  ProtocolMessage, send_message, pack, max_frame_size_bytes, frame_too_large,
}
use shard_net.Serve.Connection.{Server, piece_message, handle_piece_request}

-- What a request for a chunk that the share store hands out is answered with.
pub handle_piece_request-send_message :
    (server : Server) (message : ProtocolMessage) (info_hash : String) (i : ℕ)
    (chunk_data sent : Bytes)
    → message.info_hash ≡ some info_hash
    → message.piece_index ≡ some i
    → read_chunk server.platform info_hash (pos i) server.shares ≡ ok (some chunk_data)
    → handle_piece_request server message sent
      ≡ send_message server.codec
          (piece_message server message.request_id info_hash i
            (server.platform.sha256 chunk_data)
            chunk_data)
          sent
unfolding handle_piece_request get_manifest
handle_piece_request-send_message server message info_hash i chunk_data sent asked at e =
    let served = read_chunk-IsServed server.platform info_hash chunk_data server.shares (pos i) e in
    let same : i ≡ served.i = ground (arith, served.index) in
    let digest : get_elem? served.m.chunk_sha256 i ≡ some (server.platform.sha256 chunk_data) =
      subst (λ j. get_elem? served.m.chunk_sha256 j ≡ some (server.platform.sha256 chunk_data))
        (sym same) served.digest in
    let manifest : get_manifest server.platform info_hash server.shares ≡ ok (some served.m) =
      ground (arith, served.found, served.manifest) in
    ground (arith, asked, at, e, manifest, digest)

-- If the share store hands out the chunk that is asked for, then let the answer be a `piece_data` message with
-- these bytes, their own SHA-256 digest, and the identifiers of the request: if it is encoded in at most
-- 16 MiB, it is sent as one frame behind what has been sent, and if it takes more, `frame_too_large` is
-- raised and nothing is sent.
pub handle_piece_request-read_chunk :
    (server : Server) (message : ProtocolMessage) (info_hash : String) (i : ℕ)
    (chunk_data sent : Bytes)
    → message.info_hash ≡ some info_hash
    → message.piece_index ≡ some i
    → read_chunk server.platform info_hash (pos i) server.shares ≡ ok (some chunk_data)
    → let payload = server.codec.encode (
        piece_message server message.request_id info_hash i
          (server.platform.sha256 chunk_data)
          chunk_data) in
      (length payload ≤ max_frame_size_bytes
        → handle_piece_request server message sent
          ≡ (ok tt, sent ++ (pack (length payload) ++ payload)))
      × (max_frame_size_bytes < length payload
          → handle_piece_request server message sent
            ≡ (raise (frame_too_large (length payload)), sent))
unfolding send_message
handle_piece_request-read_chunk server message info_hash i chunk_data sent asked at e =
    let answer =
      handle_piece_request-send_message server message info_hash i chunk_data sent asked at e in
    (λ fits. ground (arith, answer, fits), λ larger. ground (arith, answer, larger))
