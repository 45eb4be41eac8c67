-- ===== src/Handshake/Curve/Vouching.antt =====
-- The second half of a CURVE handshake: INITIATE and READY, between a client and its server.
use libzmq_ru.Handshake.Curve.Checking.{cookie_checked, vouch_checked, initiate_read, initiate_sent}
use libzmq_ru.Base.{
  ℕ, ◌+◌, ◌^◌, ◌<◌, ◌≤◌, ◌≡◌, refl, ap, ◌∙◌, some, List, ◌++◌, length, take, drop, arith,
  length-append, take_prefix, drop_prefix, drop_past,
}
use mathlib.Core.List.{append_assoc}
use libzmq_ru.Base.Wire.{to_be_bytes, length-to_be_bytes}
use libzmq_ru.Error.{ok}
use libzmq_ru.Handshake.Command.{
  command_body, initiate, announced, socket_type_metadata_with_identity,
}
use libzmq_ru.Handshake.Command.RoundTrip.{decoded_metadata-encode, announced-FitsWire}
use libzmq_ru.Handshake.Command.Sizes.{length-command_body-le, length-metadata-le}
use libzmq_ru.Handshake.Crypto.{Crypto, IsCrypto, curve_nonce, curve_long_nonce}
use libzmq_ru.Handshake.Curve.{initiate_nonce, vouch_nonce}
use libzmq_ru.Handshake.Curve.Secrets.{
  Secrets, IsSecrets, greeted_server, welcomed_client, length-short_nonce, length-long_nonce,
  IsCookie,
}
use libzmq_ru.Handshake.Curve.Client.{initiate_body, advance}
use libzmq_ru.Handshake.Curve.Server.{CurveServerHandshake, CurveInitiate, parse_curve_initiate}
use libzmq_ru.SocketType.{SocketType}
use libzmq_ru.Zmtp.Frame.{command_frame}

-- The text of an INITIATE, field by field.
text_fields :
    (key nonce box metadata : List ℕ)
    → length key ≡ 32
    → length nonce ≡ 16
    → length box ≡ 80
    → let text = key ++ (nonce ++ (box ++ metadata)) in
      (length text ≡ 128 + length metadata)
      × (take 32 text ≡ key)
      × (take 16 (drop 32 text) ≡ nonce)
      × (take 80 (drop 48 text) ≡ box)
      × (drop 128 text ≡ metadata)
text_fields key nonce box metadata hk hn hb =
    let rest = nonce ++ (box ++ metadata) in
    (
      omega (
        arith,
        length-append key rest,
        length-append nonce (box ++ metadata),
        length-append box metadata,
      ),
      take_prefix 32 key rest hk,
      ap (take 16) (drop_prefix 32 key rest hk) ∙ take_prefix 16 nonce (box ++ metadata) hn,
      ap (take 80) (drop_past 32 16 key rest hk ∙ drop_prefix 16 nonce (box ++ metadata) hn)
          ∙ take_prefix 80 box metadata hb,
      drop_past 32 96 key rest hk
          ∙ drop_past 16 80 nonce (box ++ metadata) hn
          ∙ drop_prefix 80 box metadata hb,
    )

-- The tail of an INITIATE, field by field.
tail_fields :
    (nonce box number sealed : List ℕ)
    → length nonce ≡ 16
    → length box ≡ 80
    → length number ≡ 8
    → let tail = (nonce ++ box) ++ (number ++ sealed) in
      (length tail ≡ 104 + length sealed)
      × (take 16 tail ≡ nonce)
      × (take 80 (drop 16 tail) ≡ box)
      × (take 8 (drop 96 tail) ≡ number)
      × (drop 104 tail ≡ sealed)
tail_fields nonce box number sealed hn hb hm =
    let rest = number ++ sealed in
    rw (append_assoc nonce box rest) (
      omega (
        arith,
        length-append nonce (box ++ rest),
        length-append box rest,
        length-append number sealed,
      ),
      take_prefix 16 nonce (box ++ rest) hn,
      ap (take 80) (drop_prefix 16 nonce (box ++ rest) hn) ∙ take_prefix 80 box rest hb,
      ap (take 8) (drop_past 16 80 nonce (box ++ rest) hn ∙ drop_prefix 80 box rest hb)
          ∙ take_prefix 8 number sealed hm,
      drop_past 16 88 nonce (box ++ rest) hn
          ∙ drop_past 80 8 box rest hb
          ∙ drop_prefix 8 number sealed hm,
    )

-- The server once it has read the INITIATE.
abbrev pub vouched_server : Crypto → Secrets → CurveServerHandshake
vouched_server c k = record (greeted_server c k) { peer_nonce = 2 }

abbrev pub told : Crypto → Secrets → SocketType → List ℕ → CurveInitiate
told c k t identity = record {
  client_public_key = c.public_from_secret k.client_secret;
  metadata = announced t identity;
}

module _ (c : Crypto) (laws : IsCrypto c) (k : Secrets) (valid : IsSecrets k) where
  -- The client vouches for its transient key and the server, and the server can read it.
  vouch_made :
      (box : List ℕ) × (c.box_seal
          (c.box_key (c.public_from_secret k.server_transient) k.client_secret)
          (curve_long_nonce vouch_nonce k.vouch_tail)
          (c.public_from_secret k.client_transient ++ c.public_from_secret k.server_secret)
        ≡ some box)
      × (length box ≡ 80)
      × (c.box_open
            (c.box_key (c.public_from_secret k.client_secret) k.server_transient)
            (curve_long_nonce vouch_nonce k.vouch_tail)
            box
          ≡ some (c.public_from_secret k.client_transient ++ c.public_from_secret k.server_secret))
  vouch_made =
      let client = c.public_from_secret k.client_transient in
      let server_key = c.public_from_secret k.server_secret in
      let joined : length (client ++ server_key) ≡ 64 = omega (
        arith,
        length-append client server_key,
        laws.length-public k.client_transient valid.client_transient_32,
        laws.length-public k.server_secret valid.server_32,
      ) in
      let (box, seals, len, opens) =
        laws.box_opens (c.box_key (c.public_from_secret k.server_transient) k.client_secret)
          (curve_long_nonce vouch_nonce k.vouch_tail) (client ++ server_key)
          (length-long_nonce vouch_nonce k.vouch_tail refl valid.vouch_16)
          (omega (arith, joined)) in
      (
        box,
        seals,
        omega (arith, len, joined),
        rw
            (← laws.agrees k.server_transient k.client_secret valid.server_transient_32
              valid.client_32)
            opens,
      )

  -- The server takes an INITIATE whose fields are in place.
  initiate_taken :
      (t : SocketType) (identity cookie_box box sealed : List ℕ)
      → length identity < 2 ^ 32
      → IsCookie c k cookie_box
      → length box ≡ 80
      → c.box_open
          (c.box_key (c.public_from_secret k.client_secret) k.server_transient)
          (curve_long_nonce vouch_nonce k.vouch_tail)
          box
        ≡ some (c.public_from_secret k.client_transient ++ c.public_from_secret k.server_secret)
      → 144 ≤ length sealed
      → c.box_open
          (c.box_key (c.public_from_secret k.client_transient) k.server_transient)
          (curve_nonce initiate_nonce 2)
          sealed
        ≡ some (
            c.public_from_secret k.client_secret
            ++ (k.vouch_tail ++ (box ++ socket_type_metadata_with_identity t identity)))
      → parse_curve_initiate c
          (command_frame
            (command_body initiate ((k.cookie_tail ++ cookie_box) ++ (to_be_bytes 8 2 ++ sealed))))
          (greeted_server c k)
        ≡ ok (vouched_server c k, told c k t identity)
  unfolding socket_type_metadata_with_identity
  initiate_taken t identity cookie_box box sealed fits baked box_80 vouches len opens =
      let key = c.public_from_secret k.client_secret in
      let client = c.public_from_secret k.client_transient in
      let server_key = c.public_from_secret k.server_secret in
      let metadata = socket_type_metadata_with_identity t identity in
      let key_32 = laws.length-public k.client_secret valid.client_32 in
      let client_32 = laws.length-public k.client_transient valid.client_transient_32 in
      let server_key_32 = laws.length-public k.server_secret valid.server_32 in
      let text = key ++ (k.vouch_tail ++ (box ++ metadata)) in
      let (text_len, t1, t2, t3, t4) =
        text_fields key k.vouch_tail box metadata key_32 valid.vouch_16 box_80 in
      let number = to_be_bytes 8 2 in
      let tail = (k.cookie_tail ++ cookie_box) ++ (number ++ sealed) in
      let (tail_len, f1, f2, f3, f4) =
        tail_fields k.cookie_tail cookie_box number sealed valid.cookie_16 baked.box_80
          (length-to_be_bytes 8 2) in
      let h = greeted_server c k in
      initiate_read c h tail text key (announced t identity) (omega (arith, tail_len))
        (cookie_checked c h tail k.cookie_tail cookie_box client k.server_transient f1 f2 client_32
          valid.server_transient_32 baked.opens refl refl)
        f3 refl (rw f4 opens) (omega (arith, text_len))
        (vouch_checked c h text key k.vouch_tail box client server_key t1 t2 t3 client_32
          server_key_32 vouches refl refl)
        t1
        (rw t4
          (decoded_metadata-encode (announced t identity) (announced-FitsWire t identity fits)))

  pub initiate_accepted :
      (t : SocketType) (identity cookie_box : List ℕ)
      → length identity < 2 ^ 32
      → IsCookie c k cookie_box
      → (body : List ℕ) × (initiate_body c
            (welcomed_client c k (k.cookie_tail ++ cookie_box))
            t
            identity
            k.vouch_tail
          ≡ ok (advance (welcomed_client c k (k.cookie_tail ++ cookie_box)), body))
        × (length body ≤ 2000 + length identity)
        × (parse_curve_initiate c (command_frame body) (greeted_server c k)
            ≡ ok (vouched_server c k, told c k t identity))
  initiate_accepted t identity cookie_box fits baked =
      let key = c.public_from_secret k.client_secret in
      let server = c.public_from_secret k.server_transient in
      let metadata = socket_type_metadata_with_identity t identity in
      let (box, seals, box_80, vouches) = vouch_made in
      let text = key ++ (k.vouch_tail ++ (box ++ metadata)) in
      let text_len =
        (text_fields key k.vouch_tail box metadata
          (laws.length-public k.client_secret valid.client_32) valid.vouch_16 box_80).0 in
      let (sealed, seals', len, opens) =
        laws.box_opens (c.box_key server k.client_transient) (curve_nonce initiate_nonce 2) text
          (length-short_nonce initiate_nonce 2 refl)
          (omega (arith, text_len, length-metadata-le t identity)) in
      let tail = (k.cookie_tail ++ cookie_box) ++ (to_be_bytes 8 2 ++ sealed) in
      let tail_len =
        (tail_fields k.cookie_tail cookie_box (to_be_bytes 8 2) sealed valid.cookie_16 baked.box_80
          (length-to_be_bytes 8 2)).0 in
      let same =
        laws.agrees k.server_transient k.client_transient valid.server_transient_32
          valid.client_transient_32 in
      (
        command_body initiate tail,
        initiate_sent c (welcomed_client c k (k.cookie_tail ++ cookie_box)) t identity k.vouch_tail
            server (k.cookie_tail ++ cookie_box) box sealed refl refl seals box_80 seals',
        omega (
          arith,
          length-command_body-le initiate tail,
          tail_len,
          len,
          text_len,
          length-metadata-le t identity,
        ),
        initiate_taken t identity cookie_box box sealed fits baked box_80 vouches
            (omega (arith, len, text_len)) (rw (← same) opens),
      )
