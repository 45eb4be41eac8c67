-- ===== src/Handshake/Session.antt =====
-- `CurveSession` and the messages that it protects, crates/libzmq-core/src/socket.rs, without the
-- feature sodium. That keys are overwritten when they are dropped has no effect on any result.
pub mod Delivery
pub mod Conversation
use libzmq_ru.Base.{
  ℕ, ◌+◌, ◌-◌, ◌%◌, ◌^◌, Bool, not, ◌||◌, List, [], ◌∷◌, ◌++◌, length, take, drop, get_or, min, ltb,
  leb, ◌==◌, bytes_eq, if◌then◌else◌,
}
use libzmq_ru.Base.Wire.{to_be_bytes, from_be_bytes}
use libzmq_ru.Error.{Result, ok, err, invalid_argument, ◌>>=◌}
use libzmq_ru.Handshake.Crypto.{
  Crypto, curve_box_for, curve_box_encrypt_in_place, curve_box_decrypt_in_place, curve_nonce,
}
use libzmq_ru.Message.{Message, from_vec, set_more}
use Prim.Native.Nat.{bit_and}

pub record CurveSession : Type 0 where
  pub local_transient_secret : List ℕ
  pub peer_transient_public : List ℕ
  pub send_box : List ℕ
  pub recv_box : List ℕ
  pub send_nonce : ℕ
  pub recv_nonce : ℕ
  pub send_prefix : List ℕ
  pub recv_prefix : List ℕ

unfoldable pub curve_session :
    Crypto
    → (local_transient_secret peer_transient_public : List ℕ) (send_nonce recv_nonce : ℕ)
    → (send_prefix recv_prefix : List ℕ) → CurveSession
curve_session c secret public send_nonce recv_nonce send_prefix recv_prefix = record {
  local_transient_secret = secret;
  peer_transient_public = public;
  send_box = curve_box_for c public secret;
  recv_box = curve_box_for c public secret;
  send_nonce = send_nonce;
  recv_nonce = recv_nonce;
  send_prefix = send_prefix;
  recv_prefix = recv_prefix;
}

-- `u64::saturating_add(1)`
abbrev pub saturating_suc : ℕ → ℕ
saturating_suc n = min (n + 1) (2 ^ 64 - 1)

-- The session with its counter advanced; the nonce handed out is the old counter.
unfoldable pub next_send_nonce : CurveSession → CurveSession × ℕ
next_send_nonce s = (record s { send_nonce = saturating_suc s.send_nonce }, s.send_nonce)

-- "MESSAGE"
abbrev pub message_name : List ℕ
message_name = b'M' ∷ b'E' ∷ b'S' ∷ b'S' ∷ b'A' ∷ b'G' ∷ b'E' ∷ []

unfoldable pub frame_header : ℕ → List ℕ
frame_header body_len =
    if leb body_len 255 then 0 ∷ body_len % 2 ^ 8 ∷ [] else 2 ∷ to_be_bytes 8 (body_len % 2 ^ 64)

unfoldable pub message_body : (nonce_number : ℕ) (ciphertext : List ℕ) → List ℕ
message_body nonce_number ciphertext =
    7 ∷ (message_name ++ (to_be_bytes 8 nonce_number ++ ciphertext))

unfoldable pub curve_message_frame :
    Crypto → CurveSession → (bytes : List ℕ) (more : Bool) → CurveSession × Result (List ℕ)
unfolding next_send_nonce
curve_message_frame c session bytes more =
    let (session', nonce_number) = next_send_nonce session in
    let nonce = curve_nonce session.send_prefix nonce_number in
    let payload = (if more then 1 else 0) ∷ bytes in
    (
      session',
      curve_box_encrypt_in_place c session.send_box payload nonce >>= λ ciphertext.
          ok (frame_header (1 + 7 + 8 + length ciphertext) ++ message_body nonce_number ciphertext),
    )

unfoldable pub curve_message_tail : List ℕ → Result (List ℕ)
curve_message_tail body =
    if ltb (length body) 8
      || not (get_or body 0 0 == 7)
      || not (bytes_eq (take 7 (drop 1 body)) message_name)
    then err invalid_argument
    else ok (drop 8 body)

-- The message of a decrypted text: a byte of flags and the data.
unfoldable pub plain_message : List ℕ → Result Message
plain_message [] = err invalid_argument
plain_message (flags ∷ bytes) =
    if not (bit_and flags 254 == 0)
    then err invalid_argument
    else ok (set_more (from_vec bytes) (not (bit_and flags 1 == 0)))

-- The nonce is noted before the text is decrypted.
unfoldable pub open_message : Crypto → CurveSession → List ℕ → CurveSession × Result Message
unfolding plain_message
open_message c session tail =
    let nonce_number = from_be_bytes (take 8 tail) in
    let nonce = curve_nonce session.recv_prefix nonce_number in
    if ltb (length tail) 25
    then (session, err invalid_argument)
    else if leb nonce_number session.recv_nonce
    then (session, err invalid_argument)
    else (
      record session { recv_nonce = nonce_number },
      curve_box_decrypt_in_place c session.recv_box (drop 8 tail) nonce >>= plain_message,
    )

unfoldable pub curve_message_from_body :
    Crypto → CurveSession → List ℕ → CurveSession × Result Message
unfolding open_message
curve_message_from_body c session body = elim (curve_message_tail body) [
  | err e ↦ (session, err e)
  | ok tail ↦ open_message c session tail
]
