-- ===== src/Zmtp/Examples.antt =====
-- Runs of the ZMTP codecs at small inputs, and the theorems at inputs that meet their hypotheses.
use libzmq_ru.Base.{
  ℕ, ◌≡◌, ◌≢◌, ◌^◌, refl, Bool, true, false, some, none, List, [], ◌∷◌, length, replicate, arith,
  inl, inr, ◌⊎◌,
}
use libzmq_ru.Error.{ok}
use libzmq_ru.Zmtp.Frame.{
  ZmtpFrame, encode_with_command_bit, decode_with_command_bit, encode_v3, decode_v3, message_frame,
}
use libzmq_ru.Zmtp.Frame.RoundTrip.{transmitted, decode-encode, FrameOf, decode-FrameOf}
use libzmq_ru.Zmtp.Greeting.{null_client}
use libzmq_ru.Zmtp.Greeting.RoundTrip.{GreetingOutcome, decode-encode_greeting}
use libzmq_ru.Zmtp.Metadata.{ZmtpMetadata, encode_ready, decode_ready}
use libzmq_ru.Zmtp.Metadata.RoundTrip.{decode_ready-encode_ready}
use libzmq_ru.Base.Utf8.{is_utf8}

abbrev hi : ZmtpFrame
hi = record { body = 104 ∷ 105 ∷ []; more = true; command = false }

encode_short : encode_v3 hi ≡ 1 ∷ 2 ∷ 104 ∷ 105 ∷ []
unfolding encode_v3 encode_with_command_bit
encode_short = refl

decode_long_header :
    decode_v3 (2 ∷ 0 ∷ 0 ∷ 0 ∷ 0 ∷ 0 ∷ 0 ∷ 0 ∷ 1 ∷ 9 ∷ []) ≡ ok (message_frame (9 ∷ []))
unfolding decode_v3 decode_with_command_bit message_frame libzmq_ru.Base.Wire.from_be_bytes
decode_long_header = refl

decode-encode_example :
    decode_with_command_bit true (encode_with_command_bit true hi) ≡ ok (transmitted true hi)
decode-encode_example = decode-encode true hi (omega arith)

decode-FrameOf_example : FrameOf (1 ∷ 2 ∷ 104 ∷ 105 ∷ []) hi
unfolding decode_with_command_bit
decode-FrameOf_example =
    decode-FrameOf true (1 ∷ 2 ∷ 104 ∷ 105 ∷ []) hi (omega arith) (omega arith) refl

decode-encode_greeting_example : GreetingOutcome null_client
unfolding null_client is_utf8
decode-encode_greeting_example = decode-encode_greeting null_client (omega arith) (omega arith) refl

abbrev socket_type : ZmtpMetadata
socket_type = record { properties = (b'T' ∷ [], b'R' ∷ b'E' ∷ b'Q' ∷ []) ∷ [] }

decode_ready-encode_ready_example : decode_ready (encode_ready socket_type) ≡ some (ok socket_type)
unfolding is_utf8
decode_ready-encode_ready_example =
    decode_ready-encode_ready socket_type ((omega arith, refl, omega arith), tt)
