-- ===== src/Handshake/Curve/Client.antt =====
-- The client's part of the CURVE handshake (`CurveClientHandshake`).
use libzmq_ru.Base.{
  ℕ, Option, none, some, List, ◌∷◌, ◌++◌, length, take, drop, replicate, ltb, leb, ◌==◌, is_empty,
  not, if◌then◌else◌,
}
use libzmq_ru.Base.Wire.{to_be_bytes, from_be_bytes}
use libzmq_ru.Error.{Result, ok, err, invalid_argument, ◌>>=◌, ◌>>◌}
use libzmq_ru.Handshake.Command.{
  command_body, command_tail, decoded_metadata, socket_type_metadata_with_identity, hello, welcome,
  initiate, ready,
}
use libzmq_ru.Handshake.Crypto.{
  Crypto, curve_public_from_secret, curve_box_encrypt, curve_box_decrypt, curve_nonce,
  curve_long_nonce,
}
use libzmq_ru.Handshake.Curve.{
  hello_nonce, initiate_nonce, ready_nonce, client_message_nonce, server_message_nonce,
  welcome_nonce, vouch_nonce, refuse_if,
}
use libzmq_ru.Handshake.Session.{CurveSession, curve_session, saturating_suc}
use libzmq_ru.Security.{SecurityOptions, curve_option_key}
use libzmq_ru.SocketType.{SocketType}
use libzmq_ru.Zmtp.Frame.{ZmtpFrame}
use libzmq_ru.Zmtp.Metadata.{ZmtpMetadata}

pub record CurveClientHandshake : Type 0 where
  pub public_key : List ℕ
  pub secret_key : List ℕ
  pub server_key : List ℕ
  pub transient_secret : List ℕ
  pub transient_public : List ℕ
  pub server_transient_public : Option (List ℕ)
  pub cookie : Option (List ℕ)
  pub send_nonce : ℕ
  pub recv_nonce : ℕ

unfoldable pub client_public_key :
    Crypto → SecurityOptions → (secret_key : List ℕ) → Result (List ℕ)
client_public_key c security secret_key =
    if is_empty security.curve_publickey
    then ok (curve_public_from_secret c secret_key)
    else curve_option_key security.curve_publickey

unfoldable pub new_client :
    Crypto → SecurityOptions → (transient_secret : List ℕ) → Result CurveClientHandshake
new_client c security transient_secret = do
  secret_key ← curve_option_key security.curve_secretkey
  public_key ← client_public_key c security secret_key
  server_key ← curve_option_key security.curve_serverkey
  ok (record {
    public_key = public_key;
    secret_key = secret_key;
    server_key = server_key;
    transient_secret = transient_secret;
    transient_public = curve_public_from_secret c transient_secret;
    server_transient_public = none;
    cookie = none;
    send_nonce = 1;
    recv_nonce = 0;
  })

-- `CurveClientHandshake::next_send_nonce`
abbrev pub advance : CurveClientHandshake → CurveClientHandshake
advance h = record h { send_nonce = saturating_suc h.send_nonce }

unfoldable pub hello_body : Crypto → CurveClientHandshake → Result (CurveClientHandshake × List ℕ)
hello_body c h = do
  signature ←
      curve_box_encrypt c (replicate 64 0) (curve_nonce hello_nonce h.send_nonce) h.server_key
        h.transient_secret
  refuse_if (not (length signature == 80))
  ok (
    advance h,
    command_body hello (
        1
        ∷ 0
        ∷ (replicate 72 0 ++ (h.transient_public ++ (to_be_bytes 8 h.send_nonce ++ signature)))),
  )

unfoldable pub process_welcome :
    Crypto → CurveClientHandshake → ZmtpFrame → Result CurveClientHandshake
process_welcome c h frame = do
  tail ← command_tail frame welcome
  refuse_if (not (length tail == 160))
  plaintext ←
      curve_box_decrypt c (drop 16 tail) (curve_long_nonce welcome_nonce (take 16 tail))
        h.server_key h.transient_secret
  refuse_if (not (length plaintext == 128))
  ok (record h {
    server_transient_public = some (take 32 plaintext);
    cookie = some (take 96 (drop 32 plaintext));
  })

-- `Option::ok_or(Error::InvalidArgument)`
abbrev pub required : Option (List ℕ) → Result (List ℕ)
required none = err invalid_argument
required (some bytes) = ok bytes

unfoldable pub initiate_body :
    Crypto
    → CurveClientHandshake
    → SocketType
    → (identity vouch_tail : List ℕ) → Result (CurveClientHandshake × List ℕ)
initiate_body c h socket_type identity vouch_tail = do
  server_transient_public ← required h.server_transient_public
  cookie ← required h.cookie
  vouch_box ←
      curve_box_encrypt c (h.transient_public ++ h.server_key)
        (curve_long_nonce vouch_nonce vouch_tail) server_transient_public h.secret_key
  refuse_if (not (length vouch_box == 80))
  let metadata = socket_type_metadata_with_identity socket_type identity
  initiate_box ←
      curve_box_encrypt c (h.public_key ++ (vouch_tail ++ (vouch_box ++ metadata)))
        (curve_nonce initiate_nonce h.send_nonce) server_transient_public h.transient_secret
  ok (advance h, command_body initiate (cookie ++ (to_be_bytes 8 h.send_nonce ++ initiate_box)))

unfoldable pub process_ready :
    Crypto → CurveClientHandshake → ZmtpFrame → Result (CurveClientHandshake × ZmtpMetadata)
process_ready c h frame = do
  tail ← command_tail frame ready
  refuse_if (ltb (length tail) 24)
  let nonce_number = from_be_bytes (take 8 tail)
  refuse_if (leb nonce_number h.recv_nonce)
  server_transient_public ← required h.server_transient_public
  plaintext ←
      curve_box_decrypt c (drop 8 tail) (curve_nonce ready_nonce nonce_number)
        server_transient_public h.transient_secret
  metadata ← decoded_metadata plaintext
  ok (record h { recv_nonce = nonce_number }, metadata)

unfoldable pub client_session : Crypto → CurveClientHandshake → Result CurveSession
client_session c h = do
  server_transient_public ← required h.server_transient_public
  ok (
      curve_session c h.transient_secret server_transient_public h.send_nonce h.recv_nonce
        client_message_nonce server_message_nonce)
