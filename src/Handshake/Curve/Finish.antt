-- ===== src/Handshake/Curve/Finish.antt =====
-- The end of a CURVE handshake: READY, and the two sessions.
use libzmq_ru.Base.{
  ℕ, ◌+◌, ◌^◌, ◌<◌, ◌≤◌, ◌≡◌, refl, sym, some, List, ◌++◌, length, arith, length-append,
  take_prefix, drop_prefix, ltb-false,
}
use libzmq_ru.Base.Wire.{to_be_bytes, length-to_be_bytes, from_be_bytes-to_be_bytes}
use libzmq_ru.Error.{ok}
use libzmq_ru.Handshake.Command.{
  command_body, decoded_metadata, ready, announced, socket_type_metadata_with_identity,
}
use libzmq_ru.Handshake.Command.RoundTrip.{
  command_tail-command_body, decoded_metadata-encode, announced-FitsWire,
}
use libzmq_ru.Handshake.Command.Sizes.{length-command_body-le, length-metadata-le}
use libzmq_ru.Handshake.Crypto.{Crypto, IsCrypto, curve_nonce}
use libzmq_ru.Handshake.Curve.{client_message_nonce, server_message_nonce, ready_nonce}
use libzmq_ru.Handshake.Curve.Client.{CurveClientHandshake, process_ready, client_session, advance}
use libzmq_ru.Handshake.Curve.Server.{curve_ready_body, server_session}
use libzmq_ru.Handshake.Curve.Secrets.{Secrets, IsSecrets, welcomed_client, length-short_nonce}
use libzmq_ru.Handshake.Curve.Vouching.{vouched_server}
use libzmq_ru.Handshake.Session.{CurveSession, curve_session}
use libzmq_ru.Handshake.Session.Delivery.{Linked}
use libzmq_ru.SocketType.{SocketType}
use libzmq_ru.Zmtp.Frame.{command_frame}
use libzmq_ru.Zmtp.Metadata.{ZmtpMetadata}

-- The client that waits for READY, and the one that has read it.
abbrev pub waiting_client : Crypto → Secrets → (cookie : List ℕ) → CurveClientHandshake
waiting_client c k cookie = advance (welcomed_client c k cookie)

abbrev pub ready_client : Crypto → Secrets → (cookie : List ℕ) → CurveClientHandshake
ready_client c k cookie = record (waiting_client c k cookie) { recv_nonce = 1 }

-- The server's session once its READY is sent.
abbrev pub ready_session : Crypto → Secrets → CurveSession
ready_session c k = record (server_session c (vouched_server c k)) { send_nonce = 2 }

-- The client's session.
abbrev pub finished_session : Crypto → Secrets → CurveSession
finished_session c k =
    curve_session c k.client_transient (c.public_from_secret k.server_transient) 3 1
      client_message_nonce server_message_nonce

ready_read :
    (c : Crypto) (h : CurveClientHandshake) (server sealed text : List ℕ) (metadata : ZmtpMetadata)
    → h.recv_nonce ≡ 0
    → h.server_transient_public ≡ some server
    → 16 ≤ length sealed
    → c.box_open (c.box_key server h.transient_secret) (curve_nonce ready_nonce 1) sealed
      ≡ some text
    → decoded_metadata text ≡ ok metadata
    → process_ready c h (command_frame (command_body ready (to_be_bytes 8 1 ++ sealed)))
      ≡ ok (record h { recv_nonce = 1 }, metadata)
unfolding process_ready
ready_read c h server sealed text metadata fresh known len opens decodes =
    let number = to_be_bytes 8 1 in
    let number_8 = length-to_be_bytes 8 1 in
    let long =
      ltb-false (length (number ++ sealed)) 24
        (omega (arith, length-append number sealed, number_8)) in
    rw
      (
        command_tail-command_body ready (number ++ sealed) (omega arith),
        long,
        take_prefix 8 number sealed number_8,
        drop_prefix 8 number sealed number_8,
        from_be_bytes-to_be_bytes 8 1 (omega arith),
        fresh,
        known,
        opens,
        decodes,
      )
      refl

module _ (c : Crypto) (laws : IsCrypto c) (k : Secrets) (valid : IsSecrets k) where
  ready_sent :
      (t : SocketType) (identity sealed : List ℕ)
      → c.box_seal
          (c.box_key (c.public_from_secret k.client_transient) k.server_transient)
          (curve_nonce ready_nonce 1)
          (socket_type_metadata_with_identity t identity)
        ≡ some sealed
      → curve_ready_body c t identity (server_session c (vouched_server c k))
        ≡ ok (ready_session c k, command_body ready (to_be_bytes 8 1 ++ sealed))
  unfolding curve_ready_body server_session curve_session
  ready_sent t identity sealed seals = rw seals refl

  pub ready_accepted :
      (t : SocketType) (identity cookie : List ℕ)
      → length identity < 2 ^ 32
      → (body : List ℕ) × (curve_ready_body c t identity (server_session c (vouched_server c k))
          ≡ ok (ready_session c k, body))
        × (length body ≤ 2000 + length identity)
        × (process_ready c (waiting_client c k cookie) (command_frame body)
            ≡ ok (ready_client c k cookie, announced t identity))
  unfolding socket_type_metadata_with_identity
  ready_accepted t identity cookie fits =
      let client = c.public_from_secret k.client_transient in
      let server = c.public_from_secret k.server_transient in
      let metadata = socket_type_metadata_with_identity t identity in
      let (sealed, seals, len, opens) =
        laws.box_opens (c.box_key client k.server_transient) (curve_nonce ready_nonce 1) metadata
          (length-short_nonce ready_nonce 1 refl) (omega (arith, length-metadata-le t identity)) in
      let tail = to_be_bytes 8 1 ++ sealed in
      let same =
        laws.agrees k.server_transient k.client_transient valid.server_transient_32
          valid.client_transient_32 in
      (
        command_body ready tail,
        ready_sent t identity sealed seals,
        omega (
          arith,
          length-command_body-le ready tail,
          length-append (to_be_bytes 8 1) sealed,
          length-to_be_bytes 8 1,
          len,
          length-metadata-le t identity,
        ),
        ready_read c (waiting_client c k cookie) server sealed metadata (announced t identity) refl
            refl (omega (arith, len)) (rw same opens)
            (decoded_metadata-encode (announced t identity) (announced-FitsWire t identity fits)),
      )

  pub session-ready_client :
      (cookie : List ℕ) → client_session c (ready_client c k cookie) ≡ ok (finished_session c k)
  unfolding client_session
  session-ready_client cookie = refl

  -- Each end opens what the other seals.
  pub sessions-Linked :
      Linked (finished_session c k) (ready_session c k)
      × Linked (ready_session c k) (finished_session c k)
  unfolding server_session curve_session
  sessions-Linked =
      let same =
        laws.agrees k.server_transient k.client_transient valid.server_transient_32
          valid.client_transient_32 in
      (
        record { same_key = same; same_prefix = refl; prefix_16 = refl; ahead = omega arith },
        record { same_key = sym same; same_prefix = refl; prefix_16 = refl; ahead = omega arith },
      )
