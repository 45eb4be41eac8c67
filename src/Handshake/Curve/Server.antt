-- ===== src/Handshake/Curve/Server.antt =====
-- The server's part of the CURVE handshake (`CurveServerHandshake`).
use libzmq_ru.Base.{
  ℕ, List, [], ◌∷◌, ◌++◌, length, take, drop, replicate, ltb, leb, ◌==◌, bytes_eq, not, ◌||◌,
}
use libzmq_ru.Base.Wire.{to_be_bytes, from_be_bytes}
use libzmq_ru.Error.{Result, ok, ◌>>=◌, ◌>>◌}
use libzmq_ru.Handshake.Command.{
  command_body, command_tail, decoded_metadata, socket_type_metadata_with_identity, hello, welcome,
  initiate, ready,
}
use libzmq_ru.Handshake.Crypto.{
  Crypto, curve_public_from_secret, curve_box_encrypt, curve_box_decrypt, curve_secretbox_encrypt,
  curve_secretbox_decrypt, curve_nonce, curve_long_nonce,
}
use libzmq_ru.Handshake.Curve.{
  hello_nonce, initiate_nonce, ready_nonce, client_message_nonce, server_message_nonce,
  welcome_nonce, cookie_nonce, vouch_nonce, refuse_if,
}
use libzmq_ru.Handshake.Session.{CurveSession, curve_session, saturating_suc}
use libzmq_ru.Security.{SecurityOptions, curve_option_key}
use libzmq_ru.SocketType.{SocketType}
use libzmq_ru.Zmtp.Frame.{ZmtpFrame}
use libzmq_ru.Zmtp.Metadata.{ZmtpMetadata}

pub record CurveServerHandshake : Type 0 where
  pub server_public_key : List ℕ
  pub server_secret_key : List ℕ
  pub transient_secret : List ℕ
  pub transient_public : List ℕ
  pub client_transient_public : List ℕ
  pub cookie_key : List ℕ
  pub peer_nonce : ℕ

pub record CurveInitiate : Type 0 where
  pub client_public_key : List ℕ
  pub metadata : ZmtpMetadata

unfoldable pub server_session : Crypto → CurveServerHandshake → CurveSession
server_session c h =
    curve_session c h.transient_secret h.client_transient_public 1 h.peer_nonce server_message_nonce
      client_message_nonce

unfoldable pub parse_curve_hello :
    Crypto
    → ZmtpFrame
    → SecurityOptions
    → (transient_secret cookie_key : List ℕ) → Result CurveServerHandshake
parse_curve_hello c frame security transient_secret cookie_key = do
  tail ← command_tail frame hello
  refuse_if (not (length tail == 194) || not (bytes_eq (take 2 tail) (1 ∷ 0 ∷ [])))
  server_secret_key ← curve_option_key security.curve_secretkey
  let client_transient_public = take 32 (drop 74 tail)
  let nonce_number = from_be_bytes (take 8 (drop 106 tail))
  plaintext ←
      curve_box_decrypt c (take 80 (drop 114 tail)) (curve_nonce hello_nonce nonce_number)
        client_transient_public server_secret_key
  refuse_if (not (bytes_eq plaintext (replicate 64 0)))
  ok (record {
    server_public_key = curve_public_from_secret c server_secret_key;
    server_secret_key = server_secret_key;
    transient_secret = transient_secret;
    transient_public = curve_public_from_secret c transient_secret;
    client_transient_public = client_transient_public;
    cookie_key = cookie_key;
    peer_nonce = nonce_number;
  })

unfoldable pub curve_welcome_body :
    Crypto
    → SecurityOptions
    → CurveServerHandshake
    → (cookie_tail welcome_tail : List ℕ) → Result (List ℕ)
curve_welcome_body c security h cookie_tail welcome_tail = do
  cookie_box ←
      curve_secretbox_encrypt c (h.client_transient_public ++ h.transient_secret)
        (curve_long_nonce cookie_nonce cookie_tail) h.cookie_key
  refuse_if (not (length cookie_box == 80))
  server_secret_key ← curve_option_key security.curve_secretkey
  welcome_box ←
      curve_box_encrypt c (h.transient_public ++ (cookie_tail ++ cookie_box))
        (curve_long_nonce welcome_nonce welcome_tail) h.client_transient_public server_secret_key
  refuse_if (not (length welcome_box == 144))
  ok (command_body welcome (welcome_tail ++ welcome_box))

-- The cookie must be the one that this server made for this client.
unfoldable pub check_cookie : Crypto → CurveServerHandshake → (tail : List ℕ) → Result (Unit {0})
check_cookie c h tail = do
  cookie_plaintext ←
      curve_secretbox_decrypt c (take 80 (drop 16 tail))
        (curve_long_nonce cookie_nonce (take 16 tail)) h.cookie_key
  refuse_if (
      not (length cookie_plaintext == 64)
      || not (bytes_eq (take 32 cookie_plaintext) h.client_transient_public)
      || not (bytes_eq (take 32 (drop 32 cookie_plaintext)) h.transient_secret))

-- The client must vouch, with its long-term key, for its transient key and this server.
unfoldable pub check_vouch :
    Crypto → CurveServerHandshake → (plaintext : List ℕ) → Result (Unit {0})
check_vouch c h plaintext = do
  vouch_plaintext ←
      curve_box_decrypt c (take 80 (drop 48 plaintext))
        (curve_long_nonce vouch_nonce (take 16 (drop 32 plaintext))) (take 32 plaintext)
        h.transient_secret
  refuse_if (
      not (length vouch_plaintext == 64)
      || not (bytes_eq (take 32 vouch_plaintext) h.client_transient_public)
      || not (bytes_eq (take 32 (drop 32 vouch_plaintext)) h.server_public_key))

unfoldable pub parse_curve_initiate :
    Crypto → ZmtpFrame → CurveServerHandshake → Result (CurveServerHandshake × CurveInitiate)
unfolding check_cookie check_vouch
parse_curve_initiate c frame h = do
  tail ← command_tail frame initiate
  refuse_if (ltb (length tail) 248)
  check_cookie c h tail
  let nonce_number = from_be_bytes (take 8 (drop 96 tail))
  refuse_if (leb nonce_number h.peer_nonce)
  plaintext ←
      curve_box_decrypt c (drop 104 tail) (curve_nonce initiate_nonce nonce_number)
        h.client_transient_public h.transient_secret
  refuse_if (ltb (length plaintext) 128)
  check_vouch c h plaintext
  metadata ← decoded_metadata (drop 128 plaintext)
  ok (
    record h { peer_nonce = nonce_number },
    record { client_public_key = take 32 plaintext; metadata = metadata },
  )

-- The session with its counter advanced, and the body.
unfoldable pub curve_ready_body :
    Crypto → SocketType → (identity : List ℕ) → CurveSession → Result (CurveSession × List ℕ)
curve_ready_body c socket_type identity session = do
  ciphertext ←
      curve_box_encrypt c (socket_type_metadata_with_identity socket_type identity)
        (curve_nonce ready_nonce session.send_nonce) session.peer_transient_public
        session.local_transient_secret
  ok (
    record session { send_nonce = saturating_suc session.send_nonce },
    command_body ready (to_be_bytes 8 session.send_nonce ++ ciphertext),
  )
