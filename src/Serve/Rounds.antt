-- ===== src/Serve/Rounds.antt =====
-- The loop of `_handle_client` (src/shardnet/client/core/peer_server.py) ends: every round takes a frame
-- from what has arrived.
use shard_net.Base.{
  ℕ, zero, suc, Bool, true, false, not, Option, none, some, [], ◌==◌, text_eq, ◌≡◌, ◌≢◌, refl, ap,
  ◌∙◌, sym, ◌<◌, length, if◌then◌else◌, arith, Bool-cases, inl, inr,
}
use shard_net.Errors.{Result, ok, raise, Exception, protocol, Result-cases}
use shard_net.Platform.{Bytes}
use shard_net.Wire.Frames.{ProtocolMessage, hello_ack, Stream, read_message, send_message}
use shard_net.Wire.RoundTrip.{read_message_shorter}
use shard_net.Serve.Connection.{
  Server, Round, again, done, ending, settle, send_error, reply, is_hello, is_supported, served,
  broken, serve, then_serve, greeted, handle_client,
}

abbrev Ends : Option (Result (Unit {0}) × Bytes) → Type 0
Ends o = (r : Result (Unit {0}) × Bytes) × (o ≡ some r)

settle-Ends :
    (step : Result Round × Bytes) (rest : Option (Result (Unit {0}) × Bytes))
    → (step.0 ≡ ok again → Ends rest)
    → Ends (settle step rest)
settle-Ends (raise e, sent) rest h = ((raise e, sent), refl)
settle-Ends (ok done, sent) rest h = ((ok tt, sent), refl)
settle-Ends (ok again, sent) rest h = h refl

ending_done : (r : Result (Unit {0}) × Bytes) → (ending done r).0 ≢ ok again
ending_done (ok tt, sent) e = ground arith
ending_done (raise x, sent) e = ground arith

broken_stops :
    (server : Server) (e : Exception) (sent : Bytes) → (broken server e sent).0 ≢ ok again
broken_stops server (protocol e) sent h = elim (Bool-cases (e.code == "connection_closed")) [
  | inl gone ↦ ground (arith, gone, h)
  | inr other ↦
      ending_done (send_error server none e.code e.message sent) (ground (arith, other, h))
]
broken_stops server e sent h = ground (arith, h)

-- With a round for each byte that has arrived and one more, the loop ends.
serve-Ends :
    (rounds : ℕ) (server : Server) (st : Stream) (sent : Bytes)
    → length st.buffer < rounds
    → Ends (serve rounds server st sent)
unfolding serve
serve-Ends zero server st sent p = absurd (omega arith)
serve-Ends (suc rounds) server st sent p =
    settle-Ends (served server (read_message server.codec st).0 sent) _ (λ e.
      elim (Result-cases (read_message server.codec st).0) [
        | inl (m, got) ↦ serve-Ends rounds server (read_message server.codec st).1 _ (
            omega (
              arith,
              read_message_shorter server.codec st {m = m} {st' = (read_message server.codec st).1}
                  (ap (λ r. (r, (read_message server.codec st).1)) got),
            ))
        | inr (x, got) ↦
            absurd (broken_stops server x sent (ap (λ r. (served server r sent).0) (sym got) ∙ e))
      ])

if-Ends :
    (test : Bool) (o k : Option (Result (Unit {0}) × Bytes))
    → Ends o
    → Ends k
    → Ends (if test then o else k)
if-Ends true o k h h' = h
if-Ends false o k h h' = h'

then_serve-Ends :
    (rounds : ℕ) (server : Server) (st : Stream) (r : Result (Unit {0}) × Bytes)
    → length st.buffer < rounds
    → Ends (then_serve rounds server st r)
then_serve-Ends rounds server st (raise e, sent) p = ((raise e, sent), refl)
then_serve-Ends rounds server st (ok tt, sent) p = serve-Ends rounds server st sent p

greeted-Ends :
    (rounds : ℕ) (server : Server) (r : Result ProtocolMessage) (st : Stream)
    → ((m : ProtocolMessage) → r ≡ ok m → length st.buffer < rounds)
    → Ends (greeted rounds server r st)
greeted-Ends rounds server (raise e) st p = ((raise e, []), refl)
greeted-Ends rounds server (ok first) st p =
    if-Ends (not (is_hello first.message_type)) _ _ (_, refl)
      (if-Ends (not (is_supported first.protocol_version)) _ _ (_, refl)
        (then_serve-Ends rounds server st
          (send_message server.codec (reply server hello_ack first.request_id) []) (p first refl)))

-- With a round for each byte that has arrived and one more, the handling of a connection ends: it returns
-- or raises, and has sent its answers.
pub handle_client_ends :
    (server : Server) (st : Stream)
    → (r : Result (Unit {0}) × Bytes) × (handle_client (suc (length st.buffer)) server st ≡ some r)
unfolding handle_client
handle_client_ends server st =
    greeted-Ends (suc (length st.buffer)) server (read_message server.codec st).0
      (read_message server.codec st).1
      (λ m got. omega (
        arith,
        read_message_shorter server.codec st {m = m} {st' = (read_message server.codec st).1}
            (ap (λ r. (r, (read_message server.codec st).1)) got),
      ))
