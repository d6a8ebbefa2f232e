-- ===== src/Wire/RoundTrip.antt =====
-- Frames of src/shardnet/client/core/protocol.py: what is sent is read back, and what is read was framed.
use shard_net.Base.{
  ℕ, some, List, [], ◌∷◌, ◌++◌, ◌≡◌, refl, ap, ◌∙◌, sym, ◌+◌, ◌≤◌, ◌<◌, ◌||◌, ltb, leb, length,
  take, drop, take-append-drop, length-take, arith, Bool-cases, Option-cases, inl, inr,
}
use shard_net.Errors.{Result, ok, raise}
use shard_net.Platform.{Bytes}
use shard_net.Wire.Frames.{
  max_frame_size_bytes, ProtocolMessage, Codec, Stream, Ending, pack, unpack, send_message,
  read_exactly, read_frame, read_payload, read_message,
}

unpack-pack : (n : ℕ) → n < 4294967296 → unpack (pack n) ≡ n
unfolding unpack pack
unpack-pack n p = omega arith

take_front {ℓ} : {A : Type ℓ} (xs ys : List A) → take (length xs) (xs ++ ys) ≡ xs
take_front [] ys = refl
take_front (x ∷ xs) ys = rw (take_front xs ys)

drop_front {ℓ} : {A : Type ℓ} (xs ys : List A) → drop (length xs) (xs ++ ys) ≡ ys
drop_front [] ys = refl
drop_front (x ∷ xs) ys = drop_front xs ys

pub length-append {ℓ} : {A : Type ℓ} (xs ys : List A) → length (xs ++ ys) ≡ length xs + length ys
length-append [] ys = omega arith
length-append (x ∷ xs) ys = omega (arith, length-append xs ys)

read_exactly-append :
    (front rest : Bytes) (ending : Ending)
    → read_exactly (length front) (record { buffer = front ++ rest; ending = ending })
      ≡ (ok front, record { buffer = rest; ending = ending })
unfolding read_exactly
read_exactly-append front rest ending =
    ground (arith, length-append front rest, take_front front rest, drop_front front rest)

-- A message that pydantic reads back from its own JSON, in at most 16 MiB, is sent as a frame that is
-- read as that message, whatever follows it on the connection.
pub read_message-send_message :
    (codec : Codec) (m : ProtocolMessage)
    → codec.decode (codec.encode m) ≡ some m
    → 0 < length (codec.encode m)
    → length (codec.encode m) ≤ max_frame_size_bytes
    → (frame : Bytes) × ((sent : Bytes) → send_message codec m sent ≡ (ok tt, sent ++ frame))
      × ((rest : Bytes) (ending : Ending)
          → read_message codec (record { buffer = frame ++ rest; ending = ending })
            ≡ (ok m, record { buffer = rest; ending = ending }))
unfolding send_message read_message pack
read_message-send_message codec m known nonempty small =
    let payload = codec.encode m in
    (
      pack (length payload) ++ payload,
      λ sent. ground arith,
      λ rest ending. ground (
        arith,
        read_exactly-append (pack (length payload)) (payload ++ rest) ending,
        unpack-pack (length payload) (omega (arith, small)),
        read_exactly-append payload rest ending,
        known,
      ),
    )

-- What `read_exactly` has taken.
record IsPrefix (size : ℕ) (st : Stream) (front : Bytes) (st' : Stream) : Type 0 where
  size_of : length front ≡ size
  buffer : st.buffer ≡ front ++ st'.buffer

read_exactly-IsPrefix :
    (size : ℕ) (st : Stream) {front : Bytes} {st' : Stream}
    → read_exactly size st ≡ (ok front, st')
    → IsPrefix size st front st'
unfolding read_exactly
read_exactly-IsPrefix size st {front} {st'} e = record {
  size_of = ground (arith, e, length-take size st.buffer);
  buffer = ground (arith, e, take-append-drop size st.buffer);
}

-- A message that was read stood in the buffer as a frame: four bytes of length, and a payload of 1 byte
-- to 16 MiB that pydantic reads as the message.
pub record IsFramed (codec : Codec) (m : ProtocolMessage) (st st' : Stream) : Type 0 where
  pub header : Bytes
  pub payload : Bytes
  pub buffer : st.buffer ≡ header ++ (payload ++ st'.buffer)
  pub header_size : length header ≡ 4
  pub payload_size : unpack header ≡ length payload
  pub nonempty : 0 < length payload
  pub small : length payload ≤ max_frame_size_bytes
  pub meaning : codec.decode payload ≡ some m

payload_read :
    (codec : Codec) (r : Result Bytes × Stream) {m : ProtocolMessage} {st' : Stream}
    → read_payload codec r ≡ (ok m, st')
    → (payload : Bytes) × (r ≡ (ok payload, st')) × (codec.decode payload ≡ some m)
payload_read codec (raise x, st1) e = absurd (ground arith)
payload_read codec (ok payload, st1) {m} {st'} e = elim (Option-cases (codec.decode payload)) [
  | inl unread ↦ absurd (ground arith)
  | inr (m1, meaning) ↦ (payload, ground (arith, e, meaning), ground (arith, e, meaning))
]

frame_read :
    (codec : Codec) (st : Stream) (r : Result Bytes × Stream) {m : ProtocolMessage} {st' : Stream}
    → read_exactly 4 st ≡ r
    → read_frame codec r ≡ (ok m, st')
    → IsFramed codec m st st'
frame_read codec st (raise x, st1) h e = absurd (ground arith)
frame_read codec st (ok header, st1) {m} {st'} h e =
    elim (Bool-cases (leb (unpack header) 0 || ltb max_frame_size_bytes (unpack header))) [
      | inl refused ↦ absurd (ground arith)
      | inr sized ↦
          let (payload, taken, meaning) =
            payload_read codec (read_exactly (unpack header) st1) {m = m} {st' = st'}
              (ground (arith, sized, e)) in
          let first = read_exactly-IsPrefix 4 st {front = header} {st' = st1} h in
          let second =
            read_exactly-IsPrefix (unpack header) st1 {front = payload} {st' = st'} taken in
          record {
            header = header;
            payload = payload;
            buffer = first.buffer ∙ ap (λ b. header ++ b) second.buffer;
            header_size = first.size_of;
            payload_size = sym second.size_of;
            nonempty = ground (arith, sized, second.size_of);
            small = ground (arith, sized, second.size_of);
            meaning = meaning;
          }
    ]

-- Whatever has arrived, a message that is read came in a frame of its own, and reading it takes that
-- frame from the buffer and nothing else.
pub read_message-IsFramed :
    (codec : Codec) (st : Stream) {m : ProtocolMessage} {st' : Stream}
    → read_message codec st ≡ (ok m, st')
    → IsFramed codec m st st'
unfolding read_message
read_message-IsFramed codec st {m} {st'} e =
    frame_read codec st (read_exactly 4 st) {m = m} {st' = st'} refl e

-- Reading a message makes the buffer shorter.
pub read_message_shorter :
    (codec : Codec) (st : Stream) {m : ProtocolMessage} {st' : Stream}
    → read_message codec st ≡ (ok m, st')
    → length st'.buffer < length st.buffer
read_message_shorter codec st {m} {st'} e =
    let f = read_message-IsFramed codec st {m = m} {st' = st'} e in
    omega (
      arith,
      ap length f.buffer,
      length-append f.header (f.payload ++ st'.buffer),
      length-append f.payload st'.buffer,
      f.header_size,
    )
