-- ===== src/Fetch/Rounds.antt =====
-- The messages of one attempt (src/shardnet/client/core/peer_client.py): with a round for each byte that has
-- arrived and one more, it ends.
use shard_net.Base.{
  ℕ, zero, suc, String, Bool, true, false, not, Option, some, ◌≡◌, refl, ap, ◌<◌, nat_eq, length,
  arith, Bool-cases, inl, inr,
}
use shard_net.Errors.{Result, ok, raise, Exception}
use shard_net.Exec.{after_ok, ◌>>◌, throw_if}
use shard_net.Platform.{Bytes}
use shard_net.Wire.Frames.{ProtocolMessage, Stream}
use shard_net.Wire.RoundTrip.{read_message_shorter}
use shard_net.Fetch.Request.{
  Client, Connection, say, hear, hello_message, is_passed_over, is_hello_ack, handshake_failed,
  request_message, ask_for, answered, await_chunk, then_await, connect, request_chunk_once,
}

abbrev pub Ends : Option (Result Bytes × Connection) → Type 0
Ends o = (r : Result Bytes × Connection) × (o ≡ some r)

module _ (client : Client) (request_id : String) where
  hear_shorter :
      (c : Connection) {m : ProtocolMessage} {c' : Connection}
      → hear client c ≡ (ok m, c')
      → length c'.stream.buffer < length c.stream.buffer
  unfolding hear
  hear_shorter c {m} {c'} e =
      read_message_shorter client.codec c.stream {m = m} {st' = c'.stream} (ground (arith, e))

  answered-Ends :
      (got : Result ProtocolMessage × Connection) (rest : Option (Result Bytes × Connection))
      → ((m : ProtocolMessage) → got.0 ≡ ok m → Ends rest)
      → Ends (answered client request_id got rest)
  answered-Ends (raise e, c) rest h = ((raise e, c), refl)
  answered-Ends (ok m, c) rest h = elim (Bool-cases (is_passed_over request_id m)) [
    | inl over ↦ rw over (h m refl)
    | inr mine ↦ rw mine (_, refl)
  ]

  await_chunk-Ends :
      (rounds : ℕ) (c : Connection)
      → length c.stream.buffer < rounds
      → Ends (await_chunk rounds client request_id c)
  unfolding await_chunk
  await_chunk-Ends zero c p = absurd (omega arith)
  await_chunk-Ends (suc rounds) c p = answered-Ends (hear client c) _ (λ m got.
      await_chunk-Ends rounds (hear client c).1 (
        omega (
          arith,
          hear_shorter c {m = m} {c' = (hear client c).1} (ap (λ r. (r, (hear client c).1)) got),
        )))

  say_stream :
      (m : ProtocolMessage) (c : Connection) {r : Result (Unit {0})} {c' : Connection}
      → say client m c ≡ (r, c')
      → c'.stream ≡ c.stream
  unfolding say
  say_stream m c e = ground (arith, e)

  said_if :
      (refused : Bool) (x : Exception) (m : ProtocolMessage) (c c' : Connection)
      → (throw_if refused x >> say client m) c ≡ (ok tt, c')
      → c'.stream ≡ c.stream
  said_if true x m c c' e = absurd (ground (arith, e))
  said_if false x m c c' e = say_stream m c {r = ok tt} {c' = c'} e

  -- The request leaves fewer bytes to be read than have arrived.
  ask_for_shorter :
      (info_hash : String) (chunk_index : ℕ) (c c' : Connection)
      → ask_for client request_id info_hash chunk_index c ≡ (ok tt, c')
      → length c'.stream.buffer < length c.stream.buffer
  unfolding ask_for
  ask_for_shorter info_hash i c c' e =
      let (t, c1, said, e1) =
        after_ok (say client (hello_message client request_id) c) _ {b = tt} {s' = c'} e in
      let (ack, c2, heard, e2) = after_ok (hear client c1) _ {b = tt} {s' = c'} e1 in
      let less = hear_shorter c1 {m = ack} {c' = c2} heard in
      let first : c1.stream ≡ c.stream =
        say_stream (hello_message client request_id) c {r = ok t} {c' = c1} said in
      let last : c'.stream ≡ c2.stream =
        said_if (not (is_hello_ack ack.message_type)) handshake_failed
          (request_message client request_id info_hash i) c2 c' e2 in
      omega (
        arith,
        less,
        ap (λ (st : Stream). length st.buffer) first,
        ap (λ (st : Stream). length st.buffer) last,
      )

  pub once-Ends :
      (rounds : ℕ) (info_hash : String) (chunk_index : ℕ) (stream : Stream)
      → length stream.buffer < rounds
      → Ends (request_chunk_once rounds client request_id info_hash chunk_index stream)
  unfolding request_chunk_once
  once-Ends rounds info_hash i stream p =
      go (ask_for client request_id info_hash i (connect stream)) refl
    where
      go :
          (r : Result (Unit {0}) × Connection)
          → ask_for client request_id info_hash i (connect stream) ≡ r
          → Ends (then_await rounds client request_id r)
      go (raise e, c) h = ((raise e, c), refl)
      go (ok tt, c) h =
          await_chunk-Ends rounds c
            (omega (arith, p, ask_for_shorter info_hash i (connect stream) c h))
