-- ===== src/Zmtp/Frame/RoundTrip.antt =====
-- Encoding and decoding of frames are inverse, and what is decoded spans its whole input.
use Prim.Native.Nat.{bit_and}
use libzmq_ru.Base.{
  take_prefix, drop_prefix, [], length-drop, length-take, take-append-drop, false, true, All, ◌≤◌,
  ◌⊎◌, inl, inr, refl, ap, sym, ◌==◌, ℕ, ◌+◌, ◌%◌, ◌^◌, ◌<◌, ◌≡◌, Bool, ◌&&◌, List, ◌∷◌, ◌++◌,
  length, take, drop, leb, arith, length-append, Bool-cases,
}
use libzmq_ru.Base.Wire.{
  to_be_bytes, from_be_bytes, length-to_be_bytes, from_be_bytes-to_be_bytes, IsByte,
  from_be_bytes-lt, take-IsByte,
}
use libzmq_ru.Error.{ok}
use libzmq_ru.Zmtp.Frame.{ZmtpFrame, encode_with_command_bit, decode_with_command_bit}

-- The frame that is left when the command bit is not transmitted.
abbrev pub transmitted : Bool → ZmtpFrame → ZmtpFrame
transmitted include_command f = record f { command = include_command && f.command }

short_round_trip :
    (b more command : Bool) (body : List ℕ)
    → length body ≤ 255
    → let f : ZmtpFrame = record { body = body; more = more; command = command } in
      decode_with_command_bit b (encode_with_command_bit b f) ≡ ok (transmitted b f)
unfolding decode_with_command_bit encode_with_command_bit
short_round_trip b more command body h = ground arith

long_round_trip :
    (b more command : Bool) (body : List ℕ)
    → 255 < length body
    → length body + 9 < 2 ^ 64
    → let f : ZmtpFrame = record { body = body; more = more; command = command } in
      decode_with_command_bit b (encode_with_command_bit b f) ≡ ok (transmitted b f)
unfolding decode_with_command_bit encode_with_command_bit
long_round_trip b more command body h k =
    let len_bytes = to_be_bytes 8 (length body % 2 ^ 64) in
    let len_8 = length-to_be_bytes 8 (length body % 2 ^ 64) in
    ground (
      arith,
      len_8,
      length-append len_bytes body,
      take_prefix 8 len_bytes body len_8,
      drop_prefix 8 len_bytes body len_8,
      from_be_bytes-to_be_bytes 8 (length body % 2 ^ 64),
    )

-- Decoding what was encoded gives the frame back, for both layouts of the header; without the
-- command bit, the frame comes back as a message frame. The body and its header must fit in a
-- 64-bit length.
pub decode-encode :
    (b : Bool) (f : ZmtpFrame)
    → length f.body + 9 < 2 ^ 64
    → decode_with_command_bit b (encode_with_command_bit b f) ≡ ok (transmitted b f)
decode-encode b f h = elim (Bool-cases (leb (length f.body) 255)) [
  | inl e ↦ short_round_trip b f.more f.command f.body (ground arith)
  | inr e ↦ long_round_trip b f.more f.command f.body (ground arith) h
]

-- How the bytes of an accepted frame are laid out.
abbrev pub FrameOf : List ℕ → ZmtpFrame → Type 0
FrameOf bytes f =
    ((flags : ℕ) × (bytes ≡ flags ∷ length f.body ∷ f.body))
    ⊎ ((flags : ℕ) × (n : List ℕ) × (bytes ≡ flags ∷ (n ++ f.body))
        × (length n ≡ 8)
        × (from_be_bytes n ≡ length f.body))

decode_long :
    (b : Bool) (flags : ℕ) (rest : List ℕ) (f : ZmtpFrame)
    → All IsByte rest
    → length rest + 1 < 2 ^ 64
    → (bit_and flags 2 == 0) ≡ false
    → decode_with_command_bit b (flags ∷ rest) ≡ ok f
    → (8 ≤ length rest) × (from_be_bytes (take 8 rest) + 8 ≡ length rest) × (f.body ≡ drop 8 rest)
unfolding decode_with_command_bit
decode_long b flags rest f bytes fits long h =
    let bound = from_be_bytes-lt (take 8 rest) (take-IsByte 8 rest bytes) in
    let len = length-take 8 rest in ground (arith, bound, len)

decode_short :
    (b : Bool) (flags n : ℕ) (rest : List ℕ) (f : ZmtpFrame)
    → n < 256
    → (bit_and flags 2 == 0) ≡ true
    → decode_with_command_bit b (flags ∷ n ∷ rest) ≡ ok f
    → (n ≡ length f.body) × (rest ≡ f.body)
unfolding decode_with_command_bit
decode_short b flags n rest f byte short h = ground arith

-- An accepted input is a flags byte, the length of the body as one byte or as eight, and the body
-- up to the last byte: no length prefix, however large, makes the 64-bit sum of header and body
-- accept another input.
pub decode-FrameOf :
    (b : Bool) (bytes : List ℕ) (f : ZmtpFrame)
    → All IsByte bytes
    → length bytes < 2 ^ 64
    → decode_with_command_bit b bytes ≡ ok f
    → FrameOf bytes f
unfolding decode_with_command_bit
decode-FrameOf b [] f bs fits h = absurd (ground (arith, h))
decode-FrameOf b (flags ∷ []) f bs fits h = absurd (ground (arith, h))
decode-FrameOf b (flags ∷ n ∷ rest) f bs fits h = elim (Bool-cases (bit_and flags 2 == 0)) [
  | inl short ↦
      let parts = decode_short b flags n rest f (bs.1.0) short h in
      inl (flags, rw (← parts.0) (rw (← parts.1) refl))
  | inr long ↦
      let parts = decode_long b flags (n ∷ rest) f bs.1 (omega arith) long h in
      inr (
        flags,
        take 8 (n ∷ rest),
        rw parts.2 (ap (◌∷◌ flags) (sym (take-append-drop 8 (n ∷ rest)))),
        omega (arith, length-take 8 (n ∷ rest)),
        rw parts.2 (omega (arith, length-drop 8 (n ∷ rest))),
      )
]
