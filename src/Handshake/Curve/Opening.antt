-- ===== src/Handshake/Curve/Opening.antt =====
-- The first half of a CURVE handshake: HELLO and WELCOME, between a client and its server.
use libzmq_ru.Handshake.Command.Sizes.{length-command_body-le}
use libzmq_ru.Base.{
  ℕ, ◌≤◌, ◌≡◌, refl, ap, ◌∙◌, some, List, [], ◌∷◌, ◌++◌, length, take, drop, replicate, arith,
  length-append, take_prefix, drop_prefix, drop_past, bytes_eq, take_all,
}
use libzmq_ru.Base.Wire.{to_be_bytes, length-to_be_bytes, from_be_bytes-to_be_bytes}
use libzmq_ru.Error.{ok}
use libzmq_ru.Handshake.Command.{command_body, hello, welcome}
use libzmq_ru.Handshake.Command.RoundTrip.{command_tail-command_body}
use libzmq_ru.Handshake.Crypto.{Crypto, IsCrypto, curve_nonce, curve_long_nonce}
use libzmq_ru.Handshake.Curve.{hello_nonce, welcome_nonce, cookie_nonce}
use libzmq_ru.Handshake.Curve.Secrets.{
  Secrets, IsSecrets, fresh_client, greeted_server, welcomed_client, length-short_nonce,
  length-long_nonce, IsCookie,
}
use libzmq_ru.Handshake.Curve.Client.{CurveClientHandshake, hello_body, process_welcome, advance}
use libzmq_ru.Handshake.Curve.Server.{CurveServerHandshake, parse_curve_hello, curve_welcome_body}
use libzmq_ru.Security.{SecurityOptions, curve_option_key}
use libzmq_ru.Zmtp.Frame.{command_frame}

-- The bytes behind the version in a HELLO, field by field.
hello_fields :
    (public nonce signature : List ℕ)
    → length public ≡ 32
    → length nonce ≡ 8
    → length signature ≡ 80
    → let tail = 1 ∷ 0 ∷ (replicate 72 0 ++ (public ++ (nonce ++ signature))) in
      (length tail ≡ 194)
      × (take 32 (drop 74 tail) ≡ public)
      × (take 8 (drop 106 tail) ≡ nonce)
      × (take 80 (drop 114 tail) ≡ signature)
hello_fields public nonce signature hp hn hs = (
  omega (arith, length-append public (nonce ++ signature), length-append nonce signature),
  take_prefix 32 public (nonce ++ signature) hp,
  ap (take 8) (drop_prefix 32 public (nonce ++ signature) hp) ∙ take_prefix 8 nonce signature hn,
  ap (take 80) (drop_past 32 8 public (nonce ++ signature) hp ∙ drop_prefix 8 nonce signature hn)
      ∙ take_all 80 signature (omega arith),
)

-- A HELLO is accepted by what its fields hold.
hello_read :
    (c : Crypto) (security : SecurityOptions)
    (secret transient cookie_key tail public signature : List ℕ)
    → curve_option_key security.curve_secretkey ≡ ok secret
    → length tail ≡ 194
    → take 2 tail ≡ 1 ∷ 0 ∷ []
    → take 32 (drop 74 tail) ≡ public
    → take 8 (drop 106 tail) ≡ to_be_bytes 8 1
    → take 80 (drop 114 tail) ≡ signature
    → c.box_open (c.box_key public secret) (curve_nonce hello_nonce 1) signature
      ≡ some (replicate 64 0)
    → parse_curve_hello c (command_frame (command_body hello tail)) security transient cookie_key
      ≡ ok (record {
        server_public_key = c.public_from_secret secret;
        server_secret_key = secret;
        transient_secret = transient;
        transient_public = c.public_from_secret transient;
        client_transient_public = public;
        cookie_key = cookie_key;
        peer_nonce = 1;
      })
unfolding parse_curve_hello bytes_eq
hello_read c security secret transient cookie_key tail public signature key len version f1 f2 f3
      opens =
    let one = from_be_bytes-to_be_bytes 8 1 (omega arith) in
    rw
      (
        command_tail-command_body hello tail (omega arith),
        len,
        version,
        key,
        f1,
        f2,
        one,
        f3,
        opens,
      )
      refl

module _ (c : Crypto) (laws : IsCrypto c) (k : Secrets) (valid : IsSecrets k) where
  hello_sent :
      (signature : List ℕ)
      → c.box_seal
          (c.box_key (c.public_from_secret k.server_secret) k.client_transient)
          (curve_nonce hello_nonce 1)
          (replicate 64 0)
        ≡ some signature
      → length signature ≡ 80
      → hello_body c (fresh_client c k)
        ≡ ok (
          advance (fresh_client c k),
          command_body hello (
              1
              ∷ 0
              ∷ (replicate 72 0
                  ++ (c.public_from_secret k.client_transient ++ (to_be_bytes 8 1 ++ signature)))),
        )
  unfolding hello_body
  hello_sent signature seals len = rw (seals, len) refl

  pub hello_accepted :
      (security : SecurityOptions)
      → curve_option_key security.curve_secretkey ≡ ok k.server_secret
      → (body : List ℕ) × (hello_body c (fresh_client c k) ≡ ok (advance (fresh_client c k), body))
        × (length body ≤ 512)
        × (parse_curve_hello c (command_frame body) security k.server_transient k.cookie_key
            ≡ ok (greeted_server c k))
  hello_accepted security key =
      let public = c.public_from_secret k.client_transient in
      let number = to_be_bytes 8 1 in
      let (signature, seals, len, opens) =
        laws.box_opens (c.box_key (c.public_from_secret k.server_secret) k.client_transient)
          (curve_nonce hello_nonce 1) (replicate 64 0) (length-short_nonce hello_nonce 1 refl)
          (omega arith) in
      let tail = 1 ∷ 0 ∷ (replicate 72 0 ++ (public ++ (number ++ signature))) in
      let (whole, f1, f2, f3) =
        hello_fields public number signature
          (laws.length-public k.client_transient valid.client_transient_32) (length-to_be_bytes 8 1)
          len in
      let same =
        laws.agrees k.server_secret k.client_transient valid.server_32 valid.client_transient_32 in
      (
        command_body hello tail,
        hello_sent signature seals len,
        omega (arith, length-command_body-le hello tail, whole),
        hello_read c security k.server_secret k.server_transient k.cookie_key tail public signature
            key whole refl f1 f2 f3 (rw (← same) opens),
      )

-- A WELCOME is accepted by what its box holds.
welcome_read :
    (c : Crypto) (h : CurveClientHandshake) (nonce box public cookie : List ℕ)
    → length nonce ≡ 16
    → length box ≡ 144
    → length public ≡ 32
    → length cookie ≡ 96
    → c.box_open
        (c.box_key h.server_key h.transient_secret)
        (curve_long_nonce welcome_nonce nonce)
        box
      ≡ some (public ++ cookie)
    → process_welcome c h (command_frame (command_body welcome (nonce ++ box)))
      ≡ ok (record h { server_transient_public = some public; cookie = some cookie })
unfolding process_welcome
welcome_read c h nonce box public cookie hn hb hp hc opens =
    let whole : length (nonce ++ box) ≡ 160 = omega (arith, length-append nonce box) in
    let inner : length (public ++ cookie) ≡ 128 = omega (arith, length-append public cookie) in
    rw
      (
        command_tail-command_body welcome (nonce ++ box) (omega arith),
        whole,
        take_prefix 16 nonce box hn,
        drop_prefix 16 nonce box hn,
        opens,
        inner,
        take_prefix 32 public cookie hp,
        drop_prefix 32 public cookie hp,
        take_all 96 cookie (omega arith),
      )
      refl

welcome_sent :
    (c : Crypto) (security : SecurityOptions) (h : CurveServerHandshake)
    (secret cookie_tail welcome_tail cookie_box box : List ℕ)
    → curve_option_key security.curve_secretkey ≡ ok secret
    → c.secretbox_seal h.cookie_key
        (curve_long_nonce cookie_nonce cookie_tail)
        (h.client_transient_public ++ h.transient_secret)
      ≡ some cookie_box
    → length cookie_box ≡ 80
    → c.box_seal
        (c.box_key h.client_transient_public secret)
        (curve_long_nonce welcome_nonce welcome_tail)
        (h.transient_public ++ (cookie_tail ++ cookie_box))
      ≡ some box
    → length box ≡ 144
    → curve_welcome_body c security h cookie_tail welcome_tail
      ≡ ok (command_body welcome (welcome_tail ++ box))
unfolding curve_welcome_body
welcome_sent c security h secret cookie_tail welcome_tail cookie_box box key seals hc seals' hb =
    rw (seals, hc, key, seals', hb) refl

module _ (c : Crypto) (laws : IsCrypto c) (k : Secrets) (valid : IsSecrets k) where
  pub welcome_accepted :
      (security : SecurityOptions)
      → curve_option_key security.curve_secretkey ≡ ok k.server_secret
      → (body : List ℕ) × (cookie_box : List ℕ) × (curve_welcome_body c security
            (greeted_server c k)
            k.cookie_tail
            k.welcome_tail
          ≡ ok body)
        × (length body ≤ 512)
        × (process_welcome c (advance (fresh_client c k)) (command_frame body)
            ≡ ok (welcomed_client c k (k.cookie_tail ++ cookie_box)))
        × IsCookie c k cookie_box
  welcome_accepted security key =
      let client = c.public_from_secret k.client_transient in
      let server = c.public_from_secret k.server_transient in
      let client_32 = laws.length-public k.client_transient valid.client_transient_32 in
      let server_32 = laws.length-public k.server_transient valid.server_transient_32 in
      let (cookie_box, seals, len, opens) =
        laws.secretbox_opens k.cookie_key (curve_long_nonce cookie_nonce k.cookie_tail)
          (client ++ k.server_transient)
          (length-long_nonce cookie_nonce k.cookie_tail refl valid.cookie_16)
          (omega (
            arith,
            length-append client k.server_transient,
            client_32,
            valid.server_transient_32,
          )) in
      let cookie_80 : length cookie_box ≡ 80 = omega (
        arith,
        len,
        length-append client k.server_transient,
        client_32,
        valid.server_transient_32,
      ) in
      let cookie = k.cookie_tail ++ cookie_box in
      let cookie_96 : length cookie ≡ 96 =
        omega (arith, cookie_80, length-append k.cookie_tail cookie_box, valid.cookie_16) in
      let (box, seals', len', opens') =
        laws.box_opens (c.box_key client k.server_secret)
          (curve_long_nonce welcome_nonce k.welcome_tail) (server ++ cookie)
          (length-long_nonce welcome_nonce k.welcome_tail refl valid.welcome_16)
          (omega (arith, length-append server cookie, server_32, cookie_96)) in
      let box_144 : length box ≡ 144 =
        omega (arith, len', length-append server cookie, server_32, cookie_96) in
      let same =
        laws.agrees k.server_secret k.client_transient valid.server_32 valid.client_transient_32 in
      (
        command_body welcome (k.welcome_tail ++ box),
        cookie_box,
        welcome_sent c security (greeted_server c k) k.server_secret k.cookie_tail k.welcome_tail
            cookie_box box key seals cookie_80 seals' box_144,
        omega (
          arith,
          length-command_body-le welcome (k.welcome_tail ++ box),
          length-append k.welcome_tail box,
          box_144,
          valid.welcome_16,
        ),
        welcome_read c (advance (fresh_client c k)) k.welcome_tail box server cookie
            valid.welcome_16 box_144 server_32 cookie_96 (rw same opens'),
        record { box_80 = cookie_80; opens = opens },
      )
