-- ===== src/Handshake/Curve/Secrets.antt =====
-- The keys and random bytes of a CURVE handshake, and the states that it goes through.
use libzmq_ru.Base.{ℕ, ◌≡◌, none, some, List, ◌++◌, length, arith, length-append}
use libzmq_ru.Base.Wire.{to_be_bytes, length-to_be_bytes}
use libzmq_ru.Handshake.Crypto.{Crypto, curve_nonce, curve_long_nonce}
use libzmq_ru.Handshake.Curve.{cookie_nonce}
use libzmq_ru.Handshake.Curve.Client.{CurveClientHandshake, advance}
use libzmq_ru.Handshake.Curve.Server.{CurveServerHandshake}

-- The keys of both ends and the random bytes of a handshake.
pub record Secrets : Type 0 where
  pub server_secret : List ℕ
  pub client_secret : List ℕ
  pub server_transient : List ℕ
  pub client_transient : List ℕ
  pub cookie_key : List ℕ
  pub cookie_tail : List ℕ
  pub welcome_tail : List ℕ
  pub vouch_tail : List ℕ

pub record IsSecrets (k : Secrets) : Type 0 where
  pub server_32 : length k.server_secret ≡ 32
  pub client_32 : length k.client_secret ≡ 32
  pub server_transient_32 : length k.server_transient ≡ 32
  pub client_transient_32 : length k.client_transient ≡ 32
  pub cookie_16 : length k.cookie_tail ≡ 16
  pub welcome_16 : length k.welcome_tail ≡ 16
  pub vouch_16 : length k.vouch_tail ≡ 16

-- The client before it has sent anything, and the server once it has read the HELLO.
abbrev pub fresh_client : Crypto → Secrets → CurveClientHandshake
fresh_client c k = record {
  public_key = c.public_from_secret k.client_secret;
  secret_key = k.client_secret;
  server_key = c.public_from_secret k.server_secret;
  transient_secret = k.client_transient;
  transient_public = c.public_from_secret k.client_transient;
  server_transient_public = none;
  cookie = none;
  send_nonce = 1;
  recv_nonce = 0;
}

abbrev pub greeted_server : Crypto → Secrets → CurveServerHandshake
greeted_server c k = record {
  server_public_key = c.public_from_secret k.server_secret;
  server_secret_key = k.server_secret;
  transient_secret = k.server_transient;
  transient_public = c.public_from_secret k.server_transient;
  client_transient_public = c.public_from_secret k.client_transient;
  cookie_key = k.cookie_key;
  peer_nonce = 1;
}

pub length-short_nonce :
    (prefix : List ℕ) (n : ℕ) → length prefix ≡ 16 → length (curve_nonce prefix n) ≡ 24
unfolding curve_nonce
length-short_nonce prefix n h =
    omega (arith, length-append prefix (to_be_bytes 8 n), length-to_be_bytes 8 n)

pub length-long_nonce :
    (prefix tail : List ℕ)
    → length prefix ≡ 8
    → length tail ≡ 16
    → length (curve_long_nonce prefix tail) ≡ 24
unfolding curve_long_nonce
length-long_nonce prefix tail h k = omega (arith, length-append prefix tail)

-- The client once it has read the WELCOME.
abbrev pub welcomed_client : Crypto → Secrets → (cookie : List ℕ) → CurveClientHandshake
welcomed_client c k cookie = record (advance (fresh_client c k)) {
  server_transient_public = some (c.public_from_secret k.server_transient);
  cookie = some cookie;
}

-- The box of a cookie that the server of these secrets made for their client.
pub record IsCookie (c : Crypto) (k : Secrets) (box : List ℕ) : Type 0 where
  pub box_80 : length box ≡ 80
  pub opens :
      c.secretbox_open k.cookie_key (curve_long_nonce cookie_nonce k.cookie_tail) box
      ≡ some (c.public_from_secret k.client_transient ++ k.server_transient)
