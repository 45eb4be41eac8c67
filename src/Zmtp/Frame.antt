-- ===== src/Zmtp/Frame.antt =====
-- `ZmtpFrame` of crates/libzmq-core/src/transport.rs: one frame with its header.
pub mod RoundTrip
use Prim.Native.Nat.{bit_and, bit_or}
use libzmq_ru.Base.{
  ℕ, ◌+◌, ◌%◌, ◌^◌, Bool, true, false, ◌&&◌, not, List, [], ◌∷◌, ◌++◌, length, get_or, take, drop,
  ltb, leb, ◌==◌, if◌then◌else◌,
}
use libzmq_ru.Base.Wire.{to_be_bytes, from_be_bytes}
use libzmq_ru.Constants.{zmtp_flag_more, zmtp_flag_long, zmtp_flag_command}
use libzmq_ru.Error.{Result, ok, err, invalid_argument}

pub record ZmtpFrame : Type 0 where
  pub body : List ℕ
  pub more : Bool
  pub command : Bool

unfoldable pub message_frame : List ℕ → ZmtpFrame
message_frame body = record { body = body; more = false; command = false }

unfoldable pub command_frame : List ℕ → ZmtpFrame
command_frame body = record { body = body; more = false; command = true }

unfoldable pub with_more : ZmtpFrame → Bool → ZmtpFrame
with_more f more = record f { more = more }

flags_of : Bool → ZmtpFrame → ℕ
flags_of include_command f =
    let flags = if f.more then bit_or 0 zmtp_flag_more else 0 in
    if include_command && f.command then bit_or flags zmtp_flag_command else flags

unfoldable pub encode_with_command_bit : Bool → ZmtpFrame → List ℕ
unfolding flags_of
encode_with_command_bit include_command f =
    let flags = flags_of include_command f in
    let n = length f.body in
    (if leb n 255
      then flags ∷ n % 2 ^ 8 ∷ []
      else bit_or flags zmtp_flag_long ∷ to_be_bytes 8 (n % 2 ^ 64))
    ++ f.body

-- The length of the header, and of the body that the header announces.
header_lens : List ℕ → Result (ℕ × ℕ)
header_lens bytes =
    if not (bit_and (get_or bytes 0 0) zmtp_flag_long == 0)
    then (if ltb (length bytes) 9
        then err invalid_argument
        else ok (9, from_be_bytes (take 8 (drop 1 bytes))))
    else ok (2, get_or bytes 1 0)

-- `header_len + body_len` is a `usize` sum of 64 bits.
parse_body : Bool → List ℕ → ℕ × ℕ → Result ZmtpFrame
parse_body include_command bytes (header_len, body_len) =
    if not (length bytes == (header_len + body_len) % 2 ^ 64)
    then err invalid_argument
    else ok (record {
      body = drop header_len bytes;
      more = not (bit_and (get_or bytes 0 0) zmtp_flag_more == 0);
      command = include_command && not (bit_and (get_or bytes 0 0) zmtp_flag_command == 0);
    })

unfoldable pub decode_with_command_bit : Bool → List ℕ → Result ZmtpFrame
unfolding header_lens parse_body
decode_with_command_bit include_command bytes =
    if ltb (length bytes) 2 then err invalid_argument else elim (header_lens bytes) [
      | err e ↦ err e
      | ok lens ↦ parse_body include_command bytes lens
    ]

unfoldable pub encode_v1 : ZmtpFrame → List ℕ
encode_v1 f = encode_with_command_bit false f

unfoldable pub decode_v1 : List ℕ → Result ZmtpFrame
decode_v1 bytes = decode_with_command_bit false bytes

unfoldable pub encode_v2 : ZmtpFrame → List ℕ
encode_v2 f = encode_with_command_bit false f

unfoldable pub decode_v2 : List ℕ → Result ZmtpFrame
decode_v2 bytes = decode_with_command_bit false bytes

unfoldable pub encode_v3 : ZmtpFrame → List ℕ
encode_v3 f = encode_with_command_bit true f

unfoldable pub decode_v3 : List ℕ → Result ZmtpFrame
decode_v3 bytes = decode_with_command_bit true bytes
