-- ===== src/Handshake/Session/Conversation.antt =====
-- A run of messages between two sessions that belong together.
use libzmq_ru.Base.{
  ℕ, zero, suc, ◌+◌, ◌^◌, ◌<◌, ◌≡◌, refl, Bool, List, [], ◌∷◌, ◌++◌, length, arith, All,
}
use libzmq_ru.Error.{Result, ok, err, ◌>>=◌}
use libzmq_ru.Handshake.Crypto.{Crypto, IsCrypto}
use libzmq_ru.Handshake.Session.{CurveSession, curve_message_frame, curve_message_from_body}
use libzmq_ru.Handshake.Session.Delivery.{Linked, Delivered, message-Delivered, message_of}
use libzmq_ru.Handshake.Stream.{Stream, read_zmtp_frame_body}
use libzmq_ru.Handshake.Stream.Frames.{stream_of}
use libzmq_ru.Message.{Message}

abbrev pub Sent : Type 0
Sent = List ℕ × Bool

abbrev prepended {ℓ} :
    {A : Type ℓ}
    → (List A → List A)
    → CurveSession × Result (List A)
    → CurveSession × Result (List A)
prepended f (s, r) = (s, r >>= λ xs. ok (f xs))

-- The bytes that a session writes for messages in turn, up to the first error.
pub send_each : Crypto → CurveSession → List Sent → CurveSession × Result (List ℕ)
send_each c a [] = (a, ok [])
send_each c a ((bytes, more) ∷ rest) =
    let (a', framed) = curve_message_frame c a bytes more in
    elim framed [
      | err e ↦ (a', err e)
      | ok frame ↦ prepended (λ frames. frame ++ frames) (send_each c a' rest)
    ]

open_next : Crypto → CurveSession → Result (List ℕ) → CurveSession × Result Message
open_next c b (err e) = (b, err e)
open_next c b (ok body) = curve_message_from_body c b body

-- The messages that a session reads from a stream: as many as are asked for.
pub recv_each : Crypto → CurveSession → ℕ → Stream → CurveSession × Result (List Message)
unfolding open_next
recv_each c b zero s = (b, ok [])
recv_each c b (suc n) s =
    let (body, s') = read_zmtp_frame_body s in
    let (b', opened) = open_next c b body in
    elim opened [ err e ↦ (b', err e) | ok m ↦ prepended (λ ms. m ∷ ms) (recv_each c b' n s') ]

abbrev pub messages_of : List Sent → List Message
messages_of [] = []
messages_of ((bytes, more) ∷ rest) = message_of bytes more ∷ messages_of rest

abbrev pub Fits : Sent → Type 0
Fits (bytes, more) = length bytes + 64 < 2 ^ 64

-- The run from both ends.
pub record Conversed (c : Crypto) (a b : CurveSession) (sent : List Sent) : Type 0 where
  pub written : List ℕ
  pub a' : CurveSession
  pub b' : CurveSession
  pub all_sent : send_each c a sent ≡ (a', ok written)
  pub all_received :
      (out : List ℕ)
      → recv_each c b (length sent) (stream_of written out) ≡ (b', ok (messages_of sent))
  pub still_linked : Linked a' b'

conversation_step :
    (c : Crypto) (a b : CurveSession) (bytes : List ℕ) (more : Bool) (rest : List Sent)
    (d : Delivered c a b bytes more)
    → Conversed c d.a' d.b' rest
    → Conversed c a b ((bytes, more) ∷ rest)
unfolding send_each recv_each open_next
conversation_step c a b bytes more rest d r = record {
  written = d.frame ++ r.written;
  a' = r.a';
  b' = r.b';
  all_sent = rw (d.sealed, d.sealed, r.all_sent, send_each) refl;
  all_received = λ out.
      rw
        (
          d.read r.written out,
          d.opened,
          d.read r.written out,
          d.opened,
          r.all_received out,
          recv_each,
          open_next,
        )
        refl;
  still_linked = r.still_linked;
}

-- Whatever messages one session seals, the other reads exactly those off the stream, each with its
-- data and its flag, in the order in which they were sealed, and the sessions still belong together.
-- The counter of nonces must not come to its end, and each frame must fit in a 64-bit length.
pub messages-Conversed :
    (c : Crypto) (sent : List Sent) (a b : CurveSession)
    → IsCrypto c
    → Linked a b
    → a.send_nonce + length sent < 2 ^ 64
    → All Fits sent
    → Conversed c a b sent
unfolding send_each recv_each open_next
messages-Conversed c [] a b laws linked room fits = record {
  written = [];
  a' = a;
  b' = b;
  all_sent = refl;
  all_received = λ out. refl;
  still_linked = linked;
}
messages-Conversed c ((bytes, more) ∷ rest) a b laws linked room fits =
    let d = message-Delivered c a b bytes more laws linked (omega arith) fits.0 in
    conversation_step c a b bytes more rest d
      (messages-Conversed c rest d.a' d.b' laws d.still_linked (omega (arith, d.advanced)) fits.1)
