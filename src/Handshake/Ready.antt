-- ===== src/Handshake/Ready.antt =====
-- `read_zmtp_peer_ready_tcp` of crates/libzmq-core/src/socket.rs: frames are skipped up to the
-- first command. Each round takes one unit of fuel, and at least two bytes of the stream.
use libzmq_ru.Handshake.Stream.Progress.{read_frame-Takes}
use libzmq_ru.Base.{
  ◌∙◌, All, [], ◌∷◌, ap, false, drop, ℕ, zero, suc, ◌+◌, ◌^◌, ◌<◌, ◌≡◌, ◌≢◌, refl, Option, none,
  some, List, ◌++◌, length, if◌then◌else◌, arith, Bool-cases, inl, inr,
}
use libzmq_ru.Error.{Result, ok, err, Result-cases}
use libzmq_ru.Handshake.Command.{announced, ready_command_body_with_identity}
use libzmq_ru.Handshake.Command.RoundTrip.{announced-FitsWire}
use libzmq_ru.Handshake.Command.Sizes.{length-ready_body-le}
use libzmq_ru.Handshake.Stream.{Stream, read_zmtp_frame}
use libzmq_ru.Handshake.Stream.Frames.{stream_of, read_frame-encode}
use mathlib.Core.List.{append_assoc}
use libzmq_ru.SocketType.{SocketType}
use libzmq_ru.Zmtp.Frame.{ZmtpFrame, command_frame, encode_v3}
use libzmq_ru.Zmtp.Metadata.{ZmtpMetadata, decode_ready}
use libzmq_ru.Zmtp.Metadata.RoundTrip.{decode_ready-encode_ready, decode_properties_total}

beside : Stream → Option (Result ZmtpMetadata) → Option (Result ZmtpMetadata × Stream)
beside s none = none
beside s (some r) = some (r, s)

-- `none`: the fuel ran out.
pub peer_ready_loop : ℕ → Stream → Option (Result ZmtpMetadata × Stream)
unfolding beside
peer_ready_loop zero s = none
peer_ready_loop (suc fuel) s =
    let (got, s') = read_zmtp_frame s in
    let rest = peer_ready_loop fuel s' in
    elim got [
      | err e ↦ some (err e, s')
      | ok frame ↦ if frame.command then beside s' (decode_ready frame.body) else rest
    ]

unfoldable pub read_zmtp_peer_ready : Stream → Option (Result ZmtpMetadata × Stream)
unfolding peer_ready_loop
read_zmtp_peer_ready s = peer_ready_loop (length s.incoming + 1) s

decode_ready_total : (body : List ℕ) → decode_ready body ≢ none
unfolding decode_ready
decode_ready_total body = ground (arith, decode_properties_total (drop 6 body))

beside-total : (s : Stream) (o : Option (Result ZmtpMetadata)) → o ≢ none → beside s o ≢ none
unfolding beside
beside-total s none h = absurd (h refl)
beside-total s (some r) h = λ e. cc

loop_total : (fuel : ℕ) (s : Stream) → length s.incoming < fuel → peer_ready_loop fuel s ≢ none
unfolding peer_ready_loop beside
loop_total zero s h = absurd (omega arith)
loop_total (suc fuel) s h = elim (Result-cases (read_zmtp_frame s).0) [
  | inl (e, failed) ↦ rw (failed, peer_ready_loop) (λ x. cc)
  | inr (frame, got) ↦ elim (Bool-cases frame.command) [
    | inl command ↦
        rw (got, peer_ready_loop, command)
          (beside-total (read_zmtp_frame s).1 (decode_ready frame.body)
            (decode_ready_total frame.body))
    | inr message ↦
        rw (got, peer_ready_loop, message)
          (loop_total fuel (read_zmtp_frame s).1 (omega (arith, read_frame-Takes s frame got)))
  ]
]

-- The fuel is enough: each frame that is skipped takes some of the bytes that the peer sends before
-- it closes its side. A peer that neither sends nor closes keeps the code waiting, and one that
-- sends messages without end keeps it in the loop.
pub read_peer_ready_total : (s : Stream) → read_zmtp_peer_ready s ≢ none
unfolding read_zmtp_peer_ready
read_peer_ready_total s = loop_total (length s.incoming + 1) s (omega arith)

-- The bytes of frames one behind the other.
abbrev pub on_wire : List ZmtpFrame → List ℕ
on_wire [] = []
on_wire (f ∷ fs) = encode_v3 f ++ on_wire fs

abbrev pub IsMessage : ZmtpFrame → Type 0
IsMessage f = (f.command ≡ false) × (length f.body + 9 < 2 ^ 64)

loop_step :
    (fuel : ℕ) (s s' : Stream) (f : ZmtpFrame)
    → read_zmtp_frame s ≡ (ok f, s')
    → f.command ≡ false
    → peer_ready_loop (suc fuel) s ≡ peer_ready_loop fuel s'
unfolding peer_ready_loop
loop_step fuel s s' f got message =
    rw (peer_ready_loop, got, message)
      (ap (λ (r : Result ZmtpFrame × Stream). peer_ready_loop fuel r.1) got)

loop_skips :
    (fs : List ZmtpFrame) (fuel : ℕ) (t : SocketType) (identity behind out : List ℕ)
    → All IsMessage fs
    → length identity < 2 ^ 32
    → let sent =
        encode_v3 (command_frame (ready_command_body_with_identity t identity)) ++ behind in
      length (on_wire fs ++ sent) < fuel
      → peer_ready_loop fuel (stream_of (on_wire fs ++ sent) out)
        ≡ some (ok (announced t identity), stream_of behind out)
unfolding peer_ready_loop beside command_frame ready_command_body_with_identity
loop_skips fs zero t identity behind out all h enough = absurd (omega (arith, enough))
loop_skips [] (suc fuel) t identity behind out all h enough =
    let body = ready_command_body_with_identity t identity in
    let got =
      read_frame-encode (command_frame body) behind out
        (omega (arith, length-ready_body-le t identity)) in
    rw
      (
        peer_ready_loop,
        got,
        decode_ready-encode_ready (announced t identity) (announced-FitsWire t identity h),
        got,
      )
      refl
loop_skips (f ∷ fs) (suc fuel) t identity behind out all h enough =
    let sent = encode_v3 (command_frame (ready_command_body_with_identity t identity)) ++ behind in
    let s = stream_of (encode_v3 f ++ (on_wire fs ++ sent)) out in
    let got = read_frame-encode f (on_wire fs ++ sent) out all.0.1 in
    let joined = append_assoc (encode_v3 f) (on_wire fs) sent in
    let whole : length ((encode_v3 f ++ on_wire fs) ++ sent) ≡ length s.incoming =
      ap length joined in
    let shorter = read_frame-Takes s f (ap (λ (r : Result ZmtpFrame × Stream). r.0) got) in
    let rest : length (read_zmtp_frame s).1.incoming ≡ length (on_wire fs ++ sent) =
      ap (λ (r : Result ZmtpFrame × Stream). length r.1.incoming) got in
    ap (λ bytes. peer_ready_loop (suc fuel) (stream_of bytes out)) joined
    ∙ loop_step fuel s (stream_of (on_wire fs ++ sent) out) f got all.0.0
    ∙ loop_skips fs fuel t identity behind out all.1 h (omega (arith, enough, whole, shorter, rest))

-- Message frames before the READY of a peer are skipped, and what stands behind it is left in the
-- stream: the metadata that are read are those that the peer announced. The frames fit in a 64-bit
-- length, and the identity in a 32-bit one.
pub peer_ready-skips :
    (fs : List ZmtpFrame) (t : SocketType) (identity behind out : List ℕ)
    → All IsMessage fs
    → length identity < 2 ^ 32
    → read_zmtp_peer_ready (
        stream_of
          (on_wire fs
            ++ (encode_v3 (command_frame (ready_command_body_with_identity t identity)) ++ behind))
          out)
      ≡ some (ok (announced t identity), stream_of behind out)
unfolding read_zmtp_peer_ready
peer_ready-skips fs t identity behind out all h =
    loop_skips fs _ t identity behind out all h (omega arith)

-- The metadata of a peer that announces itself at once are read, and what follows is left.
pub peer_ready-ready_body :
    (t : SocketType) (identity behind out : List ℕ)
    → length identity < 2 ^ 32
    → read_zmtp_peer_ready (
        stream_of
          (encode_v3 (command_frame (ready_command_body_with_identity t identity)) ++ behind)
          out)
      ≡ some (ok (announced t identity), stream_of behind out)
peer_ready-ready_body t identity behind out h = peer_ready-skips [] t identity behind out tt h
