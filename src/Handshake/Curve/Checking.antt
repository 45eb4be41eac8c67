-- ===== src/Handshake/Curve/Checking.antt =====
-- The checks that a server makes of an INITIATE, where they pass.
use libzmq_ru.Base.{
  ltb-false, ℕ, ◌≤◌, ◌≡◌, refl, some, List, ◌++◌, length, take, drop, arith, length-append,
  take_prefix, drop_prefix, bytes_eq_refl, take_all,
}
use libzmq_ru.Base.Wire.{to_be_bytes, from_be_bytes-to_be_bytes}
use libzmq_ru.Error.{ok}
use libzmq_ru.Handshake.Command.{
  command_body, decoded_metadata, initiate, socket_type_metadata_with_identity,
}
use libzmq_ru.Handshake.Command.RoundTrip.{command_tail-command_body}
use libzmq_ru.Handshake.Crypto.{Crypto, curve_nonce, curve_long_nonce}
use libzmq_ru.Handshake.Curve.{initiate_nonce, cookie_nonce, vouch_nonce}
use libzmq_ru.Handshake.Curve.Client.{CurveClientHandshake, initiate_body, advance}
use libzmq_ru.Handshake.Curve.Server.{
  CurveServerHandshake, check_cookie, check_vouch, parse_curve_initiate,
}
use libzmq_ru.SocketType.{SocketType}
use libzmq_ru.Zmtp.Frame.{command_frame}
use libzmq_ru.Zmtp.Metadata.{ZmtpMetadata}

pub cookie_checked :
    (c : Crypto) (h : CurveServerHandshake) (tail nonce box public secret : List ℕ)
    → take 16 tail ≡ nonce
    → take 80 (drop 16 tail) ≡ box
    → length public ≡ 32
    → length secret ≡ 32
    → c.secretbox_open h.cookie_key (curve_long_nonce cookie_nonce nonce) box
      ≡ some (public ++ secret)
    → h.client_transient_public ≡ public
    → h.transient_secret ≡ secret
    → check_cookie c h tail ≡ ok tt
unfolding check_cookie
cookie_checked c h tail nonce box public secret f1 f2 hp hs opens same_public same_secret =
    let whole : length (public ++ secret) ≡ 64 = omega (arith, length-append public secret) in
    rw
      (
        f1,
        f2,
        opens,
        whole,
        take_prefix 32 public secret hp,
        drop_prefix 32 public secret hp,
        take_all 32 secret (omega arith),
        same_public,
        same_secret,
        bytes_eq_refl public,
        bytes_eq_refl secret,
      )
      refl

pub vouch_checked :
    (c : Crypto) (h : CurveServerHandshake) (plaintext key nonce box public server : List ℕ)
    → take 32 plaintext ≡ key
    → take 16 (drop 32 plaintext) ≡ nonce
    → take 80 (drop 48 plaintext) ≡ box
    → length public ≡ 32
    → length server ≡ 32
    → c.box_open (c.box_key key h.transient_secret) (curve_long_nonce vouch_nonce nonce) box
      ≡ some (public ++ server)
    → h.client_transient_public ≡ public
    → h.server_public_key ≡ server
    → check_vouch c h plaintext ≡ ok tt
unfolding check_vouch
vouch_checked c h plaintext key nonce box public server f1 f2 f3 hp hs opens same_public
      same_server =
    let whole : length (public ++ server) ≡ 64 = omega (arith, length-append public server) in
    rw
      (
        f1,
        f2,
        f3,
        opens,
        whole,
        take_prefix 32 public server hp,
        drop_prefix 32 public server hp,
        take_all 32 server (omega arith),
        same_public,
        same_server,
        bytes_eq_refl public,
        bytes_eq_refl server,
      )
      refl

pub initiate_read :
    (c : Crypto) (h : CurveServerHandshake) (tail plaintext key : List ℕ) (metadata : ZmtpMetadata)
    → 248 ≤ length tail
    → check_cookie c h tail ≡ ok tt
    → take 8 (drop 96 tail) ≡ to_be_bytes 8 2
    → h.peer_nonce ≡ 1
    → c.box_open
        (c.box_key h.client_transient_public h.transient_secret)
        (curve_nonce initiate_nonce 2)
        (drop 104 tail)
      ≡ some plaintext
    → 128 ≤ length plaintext
    → check_vouch c h plaintext ≡ ok tt
    → take 32 plaintext ≡ key
    → decoded_metadata (drop 128 plaintext) ≡ ok metadata
    → parse_curve_initiate c (command_frame (command_body initiate tail)) h
      ≡ ok (record h { peer_nonce = 2 }, record { client_public_key = key; metadata = metadata })
unfolding parse_curve_initiate
initiate_read c h tail plaintext key metadata len cookie f1 fresh opens len' vouch f2 decodes =
    let two = from_be_bytes-to_be_bytes 8 2 (omega arith) in
    let long_tail = ltb-false (length tail) 248 len in
    let long_text = ltb-false (length plaintext) 128 len' in
    rw
      (
        command_tail-command_body initiate tail (omega arith),
        long_tail,
        cookie,
        f1,
        two,
        fresh,
        opens,
        long_text,
        vouch,
        f2,
        decodes,
      )
      refl

pub initiate_sent :
    (c : Crypto) (h : CurveClientHandshake) (t : SocketType)
    (identity vouch_tail server cookie box sealed : List ℕ)
    → h.server_transient_public ≡ some server
    → h.cookie ≡ some cookie
    → c.box_seal
        (c.box_key server h.secret_key)
        (curve_long_nonce vouch_nonce vouch_tail)
        (h.transient_public ++ h.server_key)
      ≡ some box
    → length box ≡ 80
    → c.box_seal
        (c.box_key server h.transient_secret)
        (curve_nonce initiate_nonce h.send_nonce)
        (h.public_key ++ (vouch_tail ++ (box ++ socket_type_metadata_with_identity t identity)))
      ≡ some sealed
    → initiate_body c h t identity vouch_tail
      ≡ ok (advance h, command_body initiate (cookie ++ (to_be_bytes 8 h.send_nonce ++ sealed)))
unfolding initiate_body
initiate_sent c h t identity vouch_tail server cookie box sealed known baked seals len seals' =
    rw (known, baked, seals, len, seals') refl
