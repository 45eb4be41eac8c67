-- ===== src/Handshake/Stream/Frames.antt =====
-- A frame that was written is read back, and the bytes behind it stay in the stream.
use libzmq_ru.Base.{
  if◌then◌else◌, ◌==◌, ℕ, ◌+◌, ◌%◌, ◌^◌, ◌<◌, ◌≤◌, ◌≡◌, refl, true, false, List, [], ◌∷◌, ◌++◌,
  length, leb, arith, length-append, take-append_length, drop-append_length, Bool-cases, inl, inr,
}
use Prim.Native.Nat.{bit_and, bit_or}
use mathlib.Core.List.{append_assoc}
use libzmq_ru.Base.Wire.{to_be_bytes, length-to_be_bytes, from_be_bytes-to_be_bytes}
use libzmq_ru.Error.{ok}
use libzmq_ru.Handshake.Stream.{
  read_zmtp_frame_body, read_body_len, bit_and, Stream, read_exact, read_zmtp_frame_bytes,
  read_zmtp_frame,
}
use libzmq_ru.Zmtp.Frame.{ZmtpFrame, encode_v3, decode_v3, encode_with_command_bit}
use libzmq_ru.Zmtp.Frame.RoundTrip.{decode-encode}

abbrev pub stream_of : List ℕ → List ℕ → Stream
stream_of incoming outgoing = record { incoming = incoming; outgoing = outgoing }

pub read_exact_prefix :
    (n : ℕ) (xs rest out : List ℕ)
    → length xs ≡ n
    → read_exact n (stream_of (xs ++ rest) out) ≡ (ok xs, stream_of rest out)
unfolding read_exact
read_exact_prefix n xs rest out e =
    rw (← e) (
      ground (arith, length-append xs rest, take-append_length xs rest, drop-append_length xs rest))

short_layout :
    (f : ZmtpFrame)
    → length f.body ≤ 255
    → (flags : ℕ) × (encode_v3 f ≡ flags ∷ length f.body ∷ f.body) × ((bit_and flags 2 == 0) ≡ true)
unfolding encode_v3 encode_with_command_bit
short_layout f h = (
  (if f.command then bit_or (if f.more then 1 else 0) 4 else if f.more then 1 else 0),
  ground arith,
  ground arith,
)

long_layout :
    (f : ZmtpFrame)
    → 255 < length f.body
    → (flags : ℕ) × (encode_v3 f ≡ flags ∷ (to_be_bytes 8 (length f.body % 2 ^ 64) ++ f.body))
      × ((bit_and flags 2 == 0) ≡ false)
unfolding encode_v3 encode_with_command_bit
long_layout f h = (
  (bit_or (if f.command then bit_or (if f.more then 1 else 0) 4 else if f.more then 1 else 0) 2),
  ground arith,
  ground arith,
)

read_short :
    (flags : ℕ) (body rest out : List ℕ)
    → (bit_and flags 2 == 0) ≡ true
    → length body ≤ 255
    → read_zmtp_frame_bytes (stream_of (flags ∷ length body ∷ (body ++ rest)) out)
      ≡ (ok (flags ∷ length body ∷ body), stream_of rest out)
unfolding read_zmtp_frame_bytes read_body_len read_exact
read_short flags body rest out short h =
    ground
      (arith, length-append body rest, take-append_length body rest, drop-append_length body rest)

read_long :
    (flags : ℕ) (body rest out : List ℕ)
    → (bit_and flags 2 == 0) ≡ false
    → length body < 2 ^ 64
    → let n = to_be_bytes 8 (length body % 2 ^ 64) in
      read_zmtp_frame_bytes (stream_of (flags ∷ (n ++ (body ++ rest))) out)
      ≡ (ok (flags ∷ (n ++ body)), stream_of rest out)
unfolding read_zmtp_frame_bytes read_body_len
read_long flags body rest out long h =
    let n = to_be_bytes 8 (length body % 2 ^ 64) in
    let len_8 = length-to_be_bytes 8 (length body % 2 ^ 64) in
    ground (
      arith,
      read_exact_prefix 1 (flags ∷ []) (n ++ (body ++ rest)) out refl,
      read_exact_prefix 8 n (body ++ rest) out len_8,
      read_exact_prefix (length body) body rest out refl,
      from_be_bytes-to_be_bytes 8 (length body % 2 ^ 64),
    )

pub read_frame_bytes-encode :
    (f : ZmtpFrame) (rest out : List ℕ)
    → length f.body + 9 < 2 ^ 64
    → read_zmtp_frame_bytes (stream_of (encode_v3 f ++ rest) out)
      ≡ (ok (encode_v3 f), stream_of rest out)
read_frame_bytes-encode f rest out h = elim (Bool-cases (leb (length f.body) 255)) [
  | inl e ↦
      let (flags, layout, short) = short_layout f (ground arith) in
      rw (layout, read_short flags f.body rest out short (ground arith)) refl
  | inr e ↦
      let n = to_be_bytes 8 (length f.body % 2 ^ 64) in
      let (flags, layout, long) = long_layout f (ground arith) in
      rw (layout, append_assoc n f.body rest, read_long flags f.body rest out long (ground arith))
        refl
]

-- A frame that was written is read back, whatever follows it, and what follows it is left for the
-- next read. The body and its header must fit in a 64-bit length.
pub read_frame-encode :
    (f : ZmtpFrame) (rest out : List ℕ)
    → length f.body + 9 < 2 ^ 64
    → read_zmtp_frame (stream_of (encode_v3 f ++ rest) out) ≡ (ok f, stream_of rest out)
unfolding read_zmtp_frame encode_v3 decode_v3
read_frame-encode f rest out h =
    rw (read_frame_bytes-encode f rest out h, decode-encode true f h) refl

read_body_short :
    (flags : ℕ) (body rest out : List ℕ)
    → (bit_and flags 2 == 0) ≡ true
    → length body ≤ 255
    → read_zmtp_frame_body (stream_of (flags ∷ length body ∷ (body ++ rest)) out)
      ≡ (ok body, stream_of rest out)
unfolding read_zmtp_frame_body read_body_len read_exact
read_body_short flags body rest out short h =
    ground
      (arith, length-append body rest, take-append_length body rest, drop-append_length body rest)

read_body_long :
    (flags : ℕ) (body rest out : List ℕ)
    → (bit_and flags 2 == 0) ≡ false
    → length body < 2 ^ 64
    → let n = to_be_bytes 8 (length body % 2 ^ 64) in
      read_zmtp_frame_body (stream_of (flags ∷ (n ++ (body ++ rest))) out)
      ≡ (ok body, stream_of rest out)
unfolding read_zmtp_frame_body read_body_len
read_body_long flags body rest out long h =
    let n = to_be_bytes 8 (length body % 2 ^ 64) in
    let len_8 = length-to_be_bytes 8 (length body % 2 ^ 64) in
    ground (
      arith,
      read_exact_prefix 1 (flags ∷ []) (n ++ (body ++ rest)) out refl,
      read_exact_prefix 8 n (body ++ rest) out len_8,
      read_exact_prefix (length body) body rest out refl,
      from_be_bytes-to_be_bytes 8 (length body % 2 ^ 64),
    )

pub read_frame_body-encode :
    (f : ZmtpFrame) (rest out : List ℕ)
    → length f.body + 9 < 2 ^ 64
    → read_zmtp_frame_body (stream_of (encode_v3 f ++ rest) out) ≡ (ok f.body, stream_of rest out)
read_frame_body-encode f rest out h = elim (Bool-cases (leb (length f.body) 255)) [
  | inl e ↦
      let (flags, layout, short) = short_layout f (ground arith) in
      rw (layout, read_body_short flags f.body rest out short (ground arith)) refl
  | inr e ↦
      let n = to_be_bytes 8 (length f.body % 2 ^ 64) in
      let (flags, layout, long) = long_layout f (ground arith) in
      rw
        (
          layout,
          append_assoc n f.body rest,
          read_body_long flags f.body rest out long (ground arith),
        )
        refl
]
