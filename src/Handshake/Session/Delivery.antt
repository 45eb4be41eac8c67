-- ===== src/Handshake/Session/Delivery.antt =====
-- Two sessions that belong together deliver each other's messages, and refuse them a second time.
use libzmq_ru.Base.{
  take_prefix, drop_prefix, some, ℕ, ◌+◌, ◌^◌, ◌<◌, ◌≤◌, ◌≡◌, refl, Bool, List, ◌∷◌, ◌++◌, some,
  length, arith, length-append, if◌then◌else◌, bytes_eq,
}
use libzmq_ru.Base.Wire.{to_be_bytes, length-to_be_bytes, from_be_bytes-to_be_bytes}
use libzmq_ru.Error.{ok, err, invalid_argument, ◌>>=◌}
use libzmq_ru.Handshake.Crypto.{Crypto, IsCrypto, curve_nonce}
use libzmq_ru.Handshake.Session.{
  CurveSession, curve_message_frame, curve_message_from_body, curve_message_tail, frame_header,
  message_body, next_send_nonce, open_message, plain_message,
}
use libzmq_ru.Handshake.Stream.{read_zmtp_frame_body}
use libzmq_ru.Handshake.Stream.Frames.{stream_of, read_frame_body-encode}
use libzmq_ru.Message.{Message, from_vec, set_more}
use libzmq_ru.Zmtp.Frame.{message_frame, encode_v3, encode_with_command_bit}

-- What `a` seals, `b` opens, and `b` has seen none of the nonces that `a` has yet to use.
pub record Linked (a b : CurveSession) : Type 0 where
  pub same_key : a.send_box ≡ b.recv_box
  pub same_prefix : a.send_prefix ≡ b.recv_prefix
  pub prefix_16 : length a.send_prefix ≡ 16
  pub ahead : b.recv_nonce < a.send_nonce

abbrev pub message_of : List ℕ → Bool → Message
message_of bytes more = set_more (from_vec bytes) more

length-curve_nonce :
    (prefix : List ℕ) (n : ℕ) → length prefix ≡ 16 → length (curve_nonce prefix n) ≡ 24
unfolding curve_nonce
length-curve_nonce prefix n h =
    omega (arith, length-append prefix (to_be_bytes 8 n), length-to_be_bytes 8 n)

header_layout :
    (body : List ℕ) → frame_header (length body) ++ body ≡ encode_v3 (message_frame body)
unfolding frame_header encode_v3 encode_with_command_bit message_frame
header_layout body = refl

length-message_body :
    (n : ℕ) (sealed : List ℕ) → length (message_body n sealed) ≡ 16 + length sealed
unfolding message_body
length-message_body n sealed =
    omega (arith, length-append (to_be_bytes 8 n) sealed, length-to_be_bytes 8 n)

frame_layout :
    (n : ℕ) (sealed : List ℕ)
    → frame_header (16 + length sealed) ++ message_body n sealed
      ≡ encode_v3 (message_frame (message_body n sealed))
frame_layout n sealed = rw (← length-message_body n sealed) (header_layout (message_body n sealed))

open_sealed :
    (c : Crypto) (b : CurveSession) (n : ℕ) (bytes sealed : List ℕ) (more : Bool)
    → b.recv_nonce < n
    → n < 2 ^ 64
    → length sealed ≡ length bytes + 17
    → c.box_open b.recv_box (curve_nonce b.recv_prefix n) sealed
      ≡ some ((if more then 1 else 0) ∷ bytes)
    → curve_message_from_body c b (message_body n sealed)
      ≡ (record b { recv_nonce = n }, ok (message_of bytes more))
unfolding curve_message_from_body curve_message_tail message_body open_message plain_message
    bytes_eq
open_sealed c b n bytes sealed more ahead fits len opens =
    let len_8 = length-to_be_bytes 8 n in
    let h = length-append (to_be_bytes 8 n) sealed in
    ground (
      arith,
      len_8,
      h,
      take_prefix 8 (to_be_bytes 8 n) sealed len_8,
      drop_prefix 8 (to_be_bytes 8 n) sealed len_8,
      from_be_bytes-to_be_bytes 8 n fits,
      opens,
    )

replayed :
    (c : Crypto) (b : CurveSession) (n : ℕ) (sealed : List ℕ)
    → n ≤ b.recv_nonce
    → n < 2 ^ 64
    → curve_message_from_body c b (message_body n sealed) ≡ (b, err invalid_argument)
unfolding curve_message_from_body curve_message_tail message_body open_message bytes_eq
replayed c b n sealed old fits =
    let len_8 = length-to_be_bytes 8 n in
    ground (
      arith,
      len_8,
      length-append (to_be_bytes 8 n) sealed,
      take_prefix 8 (to_be_bytes 8 n) sealed len_8,
      from_be_bytes-to_be_bytes 8 n fits,
    )

frame_sealed :
    (c : Crypto) (a : CurveSession) (bytes sealed : List ℕ) (more : Bool)
    → c.box_seal a.send_box
        (curve_nonce a.send_prefix a.send_nonce)
        ((if more then 1 else 0) ∷ bytes)
      ≡ some sealed
    → curve_message_frame c a bytes more ≡ (
      (next_send_nonce a).0,
      ok (frame_header (16 + length sealed) ++ message_body a.send_nonce sealed),
    )
unfolding curve_message_frame next_send_nonce
frame_sealed c a bytes sealed more seals = rw (seals, ◌>>=◌) refl

read_message :
    (n : ℕ) (sealed rest out : List ℕ)
    → length sealed + 25 < 2 ^ 64
    → read_zmtp_frame_body
        (stream_of ((frame_header (16 + length sealed) ++ message_body n sealed) ++ rest) out)
      ≡ (ok (message_body n sealed), stream_of rest out)
unfolding message_frame
read_message n sealed rest out fits =
    let body = message_body n sealed in
    rw (frame_layout n sealed) (
      read_frame_body-encode (message_frame body) rest out
        (omega (arith, length-message_body n sealed)))

-- What becomes of a message that `a` seals and `b` opens.
pub record Delivered (c : Crypto) (a b : CurveSession) (bytes : List ℕ) (more : Bool) : Type 0 where
  pub frame : List ℕ
  pub body : List ℕ
  pub a' : CurveSession
  pub b' : CurveSession
  pub sealed : curve_message_frame c a bytes more ≡ (a', ok frame)
  pub read :
      (rest out : List ℕ)
      → read_zmtp_frame_body (stream_of (frame ++ rest) out) ≡ (ok body, stream_of rest out)
  pub opened : curve_message_from_body c b body ≡ (b', ok (message_of bytes more))
  pub refused_again : curve_message_from_body c b' body ≡ (b', err invalid_argument)
  pub still_linked : Linked a' b'
  pub advanced : a'.send_nonce ≡ a.send_nonce + 1

-- A message that one session seals goes through to the other: its frame is read off the stream
-- whatever follows it, its body opens to the data and the flag that were sealed, the same body is
-- refused a second time, and the sessions still belong together. The counter of nonces must not
-- have come to its end, and the frame must fit in a 64-bit length.
pub message-Delivered :
    (c : Crypto) (a b : CurveSession) (bytes : List ℕ) (more : Bool)
    → IsCrypto c
    → Linked a b
    → a.send_nonce + 1 < 2 ^ 64
    → length bytes + 64 < 2 ^ 64
    → Delivered c a b bytes more
unfolding next_send_nonce
message-Delivered c a b bytes more laws linked nonce_fits fits =
    let n = a.send_nonce in
    let flags : ℕ = if more then 1 else 0 in
    let (sealed, seals, len, opens) =
      laws.box_opens a.send_box (curve_nonce a.send_prefix n) (flags ∷ bytes)
        (length-curve_nonce a.send_prefix n linked.prefix_16) (omega arith) in
    let body = message_body n sealed in
    record {
      frame = frame_header (16 + length sealed) ++ body;
      body = body;
      a' = (next_send_nonce a).0;
      b' = record b { recv_nonce = n };
      sealed = frame_sealed c a bytes sealed more seals;
      read = λ rest out. read_message n sealed rest out (omega (arith, len));
      opened =
          open_sealed c b n bytes sealed more linked.ahead (omega arith) (omega (arith, len))
            (rw (← linked.same_key, ← linked.same_prefix) opens);
      refused_again = replayed c (record b { recv_nonce = n }) n sealed (omega arith) (omega arith);
      still_linked = record {
        same_key = linked.same_key;
        same_prefix = linked.same_prefix;
        prefix_16 = linked.prefix_16;
        ahead = omega arith;
      };
      advanced = omega arith;
    }
