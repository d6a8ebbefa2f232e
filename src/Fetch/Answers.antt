-- ===== src/Fetch/Answers.antt =====
-- What `_request_chunk_once` of src/shardnet/client/core/peer_client.py accepts as the chunk, and that it
-- ends.
use shard_net.Base.{
  ℕ, zero, suc, String, true, false, not, Option, none, some, ◌≡◌, ◌≢◌, ◌⊎◌, refl, ◌==◌, text_eq,
  arith, eq_iff, Bool-cases, Option-cases, inl, inr,
}
use shard_net.Errors.{Result, ok, raise}
use shard_net.Exec.{throw_if, after_ok}
use shard_net.Platform.{Bytes}
use shard_net.Wire.Frames.{
  MessageType, hello, hello_ack, piece_request, piece_data, error, keepalive, ProtocolMessage,
  Codec, Stream, read_message,
}
use shard_net.Fetch.Request.{
  Client, Connection, say, hear, hello_message, request_message, is_hello_ack, handshake_failed,
  is_passed_over, text_at, verified, chunk_of, ask_for, answered, await_chunk, then_await, connect,
  request_chunk_once,
}

-- Between two states of what arrives on a connection: messages that a request does not wait for, keepalives
-- or those without its identifier, and then the response.
pub data Awaited (codec : Codec) (request_id : String) (response : ProtocolMessage)
    : Stream → Stream → Type 0 where
  next :
      {st st' : Stream}
      → read_message codec st ≡ (ok response, st')
      → Awaited codec request_id response st st'
  over :
      {st st1 st' : Stream} (message : ProtocolMessage)
      → read_message codec st ≡ (ok message, st1)
      → (message.message_type ≡ keepalive) ⊎ (message.request_id ≢ some request_id)
      → Awaited codec request_id response st1 st'
      → Awaited codec request_id response st st'

-- The message that a chunk came in: what it holds, and that it is the one that is waited for.
pub record IsAnswer (client : Client) (request_id : String) (chunk_data : Bytes) (st st' : Stream)
    : Type 0 where
  pub response : ProtocolMessage
  pub arrived : Awaited client.codec request_id response st st'
  pub kind : response.message_type ≡ piece_data
  pub own : response.request_id ≡ some request_id
  pub data_b64 : String
  pub carried : text_at "data_b64" response.payload ≡ some data_b64
  pub meaning : client.b64decode data_b64 ≡ some chunk_data
  pub digest :
      (h : String)
      → text_at "chunk_sha256" response.payload ≡ some h
      → client.platform.sha256 chunk_data ≡ h

-- A whole exchange: the first message is the acknowledgement, and the answer comes behind it.
pub record IsExchange (client : Client) (request_id : String) (chunk_data : Bytes) (st st' : Stream)
    : Type 0 where
  pub ack : ProtocolMessage
  pub behind : Stream
  pub first : read_message client.codec st ≡ (ok ack, behind)
  pub acknowledged : ack.message_type ≡ hello_ack
  pub answer : IsAnswer client request_id chunk_data behind st'

module _ (client : Client) (request_id : String) (chunk_data : Bytes) where
  verified_digest :
      (expected : Option String) {d : Bytes}
      → verified client expected d ≡ ok chunk_data
      → (d ≡ chunk_data)
        × ((h : String) → expected ≡ some h → client.platform.sha256 chunk_data ≡ h)
  verified_digest none e = (ground (arith, e), λ h p. absurd (ground (arith, p)))
  verified_digest (some expected) {d} e =
      (ground (arith, e), λ h p. ground (arith, e, p, eq_iff (client.platform.sha256 d) expected))

  chunk_of-IsAnswer :
      (response : ProtocolMessage) {st st' : Stream}
      → read_message client.codec st ≡ (ok response, st')
      → response.request_id ≡ some request_id
      → chunk_of client response ≡ ok chunk_data
      → IsAnswer client request_id chunk_data st st'
  unfolding chunk_of
  chunk_of-IsAnswer response read own e =
      elim (Option-cases (text_at "data_b64" response.payload)) [
        | inl missing ↦ absurd (ground (arith, e, missing))
        | inr (data_b64, carried) ↦ elim (Option-cases (client.b64decode data_b64)) [
          | inl bad ↦ absurd (ground (arith, e, carried, bad))
          | inr (d, meaning) ↦
              let v =
                verified_digest (text_at "chunk_sha256" response.payload) {d = d}
                  (ground (arith, e, carried, meaning)) in
              record {
                response = response;
                arrived = next read;
                kind = ground (arith, e);
                own = own;
                data_b64 = data_b64;
                carried = carried;
                meaning = ground (arith, meaning, v.0);
                digest = v.1;
              }
        ]
      ]

  own_of :
      (response : ProtocolMessage)
      → is_passed_over request_id response ≡ false
      → response.request_id ≡ some request_id
  own_of response mine = elim (Option-cases response.request_id) [
    | inl nobody ↦ absurd (ground (arith, mine, nobody))
    | inr (r, named) ↦ ground (arith, mine, named, eq_iff r request_id)
  ]

  unnamed :
      (named : Option String)
      → (elim named [ none ↦ true | some r ↦ not (r == request_id) ]) ≡ true
      → named ≢ some request_id
  unnamed named e h = ground (arith, e, h, eq_iff request_id request_id)

  other_of :
      (message : ProtocolMessage)
      → is_passed_over request_id message ≡ true
      → (message.message_type ≡ keepalive) ⊎ (message.request_id ≢ some request_id)
  other_of message passed = by_type message.message_type refl
    where
      by_type :
          (kind : MessageType)
          → message.message_type ≡ kind
          → (message.message_type ≡ keepalive) ⊎ (message.request_id ≢ some request_id)
      by_type keepalive k = inl k
      by_type hello k = inr (unnamed message.request_id (ground (arith, k, passed)))
      by_type hello_ack k = inr (unnamed message.request_id (ground (arith, k, passed)))
      by_type piece_request k = inr (unnamed message.request_id (ground (arith, k, passed)))
      by_type piece_data k = inr (unnamed message.request_id (ground (arith, k, passed)))
      by_type error k = inr (unnamed message.request_id (ground (arith, k, passed)))

  behind :
      {st st1 st' : Stream} (message : ProtocolMessage)
      → read_message client.codec st ≡ (ok message, st1)
      → is_passed_over request_id message ≡ true
      → IsAnswer client request_id chunk_data st1 st'
      → IsAnswer client request_id chunk_data st st'
  behind message read passed a = record {
    response = a.response;
    arrived = over message read (other_of message passed) a.arrived;
    kind = a.kind;
    own = a.own;
    data_b64 = a.data_b64;
    carried = a.carried;
    meaning = a.meaning;
    digest = a.digest;
  }

  answered-IsAnswer :
      (c c' : Connection) (rest : Option (Result Bytes × Connection))
      (got : Result ProtocolMessage × Stream)
      → read_message client.codec c.stream ≡ got
      → (rest ≡ some (ok chunk_data, c') → IsAnswer client request_id chunk_data got.1 c'.stream)
      → answered client request_id (got.0, record c { stream = got.1 }) rest
        ≡ some (ok chunk_data, c')
      → IsAnswer client request_id chunk_data c.stream c'.stream
  answered-IsAnswer c c' rest (raise x, st1) read later e = absurd (ground (arith, e))
  answered-IsAnswer c c' rest (ok response, st1) read later e =
      elim (Bool-cases (is_passed_over request_id response)) [
        | inl passed ↦ behind response read passed (later (ground (arith, passed, e)))
        | inr mine ↦
            chunk_of-IsAnswer response (ground (arith, read, mine, e)) (own_of response mine)
              (ground (arith, mine, e))
      ]

  await_chunk-IsAnswer :
      (rounds : ℕ) (c c' : Connection)
      → await_chunk rounds client request_id c ≡ some (ok chunk_data, c')
      → IsAnswer client request_id chunk_data c.stream c'.stream
  unfolding await_chunk hear
  await_chunk-IsAnswer zero c c' e = absurd (ground (arith, e))
  await_chunk-IsAnswer (suc rounds) c c' e =
      answered-IsAnswer c c' _ (read_message client.codec c.stream) refl
        (await_chunk-IsAnswer rounds _ c') e

  -- What has arrived when the request has been sent.
  asked :
      (info_hash : String) (chunk_index : ℕ) (c c1 : Connection)
      → ask_for client request_id info_hash chunk_index c ≡ (ok tt, c1)
      → (ack : ProtocolMessage) × (read_message client.codec c.stream ≡ (ok ack, c1.stream))
        × (ack.message_type ≡ hello_ack)
  unfolding ask_for say hear
  asked info_hash chunk_index c c1 e =
      let hi = hello_message client request_id in
      let want = request_message client request_id info_hash chunk_index in
      let (_, a, said, e1) = after_ok (say client hi c) _ e in
      let (ack, b, heard, e2) = after_ok (hear client a) _ e1 in
      let (_, d, tested, e3) =
        after_ok (throw_if (not (is_hello_ack ack.message_type)) handshake_failed b) _ e2 in
      let is_ack : is_hello_ack ack.message_type ≡ true =
        elim (Bool-cases (is_hello_ack ack.message_type)) [
          | inl is_one ↦ is_one
          | inr other ↦ absurd (ground (arith, other, tested))
        ] in
      (ack, ground (arith, said, heard, tested, e3, is_ack), acknowledges ack.message_type is_ack)
    where
      acknowledges : (t : MessageType) → is_hello_ack t ≡ true → t ≡ hello_ack
      acknowledges t e = ground (arith, e)

  -- Whatever arrives, if a chunk is returned, then the first message is an acknowledgement, and the chunk
  -- came in the first message behind it that is no keepalive and has the request's identifier: this is a
  -- `piece_data` message with the bytes as its base64 data, and if it names a digest, it is the SHA-256
  -- digest of these bytes. Nothing behind that message has been taken from the connection.
  pub request_chunk_once-IsExchange :
      (rounds : ℕ) (info_hash : String) (chunk_index : ℕ) (stream : Stream) (c : Connection)
      → request_chunk_once rounds client request_id info_hash chunk_index stream
        ≡ some (ok chunk_data, c)
      → IsExchange client request_id chunk_data stream c.stream
  unfolding request_chunk_once
  request_chunk_once-IsExchange rounds info_hash chunk_index stream c e =
      go (ask_for client request_id info_hash chunk_index (connect stream)) refl e
    where
      go :
          (r : Result (Unit {0}) × Connection)
          → ask_for client request_id info_hash chunk_index (connect stream) ≡ r
          → then_await rounds client request_id r ≡ some (ok chunk_data, c)
          → IsExchange client request_id chunk_data stream c.stream
      go (raise x, c1) at e = absurd (ground (arith, e))
      go (ok tt, c1) at e =
          let (ack, first, acknowledged) = asked info_hash chunk_index (connect stream) c1 at in
          record {
            ack = ack;
            behind = c1.stream;
            first = first;
            acknowledged = acknowledged;
            answer = await_chunk-IsAnswer rounds c1 c e;
          }
