-- ===== src/Z85/Examples.antt =====
-- The known vector of security.rs, and the theorems at inputs that meet their hypotheses.
use libzmq_ru.Base.{ℕ, ◌≡◌, ◌%◌, ◌*◌, ◌/◌, refl, List, [], ◌∷◌, length, some, replicate, arith}
use libzmq_ru.Error.{ok, err, invalid_argument}
use libzmq_ru.Z85.{
  z85_encode, z85_decode, curve_keypair, curve_public, encode_chunks, encode_chunk, decode_chunks,
  decode_digits, push_digit,
}
use libzmq_ru.Z85.Alphabet.{z85_value}
use libzmq_ru.Z85.RoundTrip.{z85_decode-z85_encode}
use libzmq_ru.Z85.Accepted.{z85_encode-z85_decode}

abbrev test_bytes : List ℕ
test_bytes = 0x86 ∷ 0x4f ∷ 0xd2 ∷ 0x6f ∷ 0xb5 ∷ 0x59 ∷ 0xf7 ∷ 0x5b ∷ []

-- "HelloWorld"
abbrev hello_world : List ℕ
hello_world = b'H' ∷ b'e' ∷ b'l' ∷ b'l' ∷ b'o' ∷ b'W' ∷ b'o' ∷ b'r' ∷ b'l' ∷ b'd' ∷ []

z85_known_vector : z85_encode test_bytes ≡ ok hello_world
unfolding z85_encode encode_chunks encode_chunk libzmq_ru.Base.Wire.from_be_bytes
    libzmq_ru.Z85.Alphabet.z85_chars
z85_known_vector = refl

hello_world_decodes : z85_decode hello_world ≡ ok test_bytes
unfolding z85_decode decode_chunks decode_digits push_digit z85_value
    libzmq_ru.Base.Wire.to_be_bytes
hello_world_decodes = refl

-- "%nSc0" is 2^32 - 1; one more does not fit in 32 bits.
overflow_is_refused : z85_decode (b'%' ∷ b'n' ∷ b'S' ∷ b'c' ∷ b'1' ∷ []) ≡ err invalid_argument
unfolding z85_decode decode_chunks decode_digits push_digit z85_value
overflow_is_refused = refl

z85_decode-z85_encode_example :
    (text : List ℕ) × (z85_encode test_bytes ≡ ok text)
    × (z85_decode text ≡ ok test_bytes)
    × (length text ≡ 10)
z85_decode-z85_encode_example = z85_decode-z85_encode test_bytes (omega arith) refl

z85_encode-z85_decode_example : z85_encode test_bytes ≡ ok hello_world
z85_encode-z85_decode_example = z85_encode-z85_decode hello_world test_bytes hello_world_decodes

abbrev zero_key : List ℕ
zero_key = replicate 32 0

abbrev zero_text : List ℕ
zero_text = replicate 40 b'0'

zero_pair : curve_keypair (λ secret. secret) (some zero_key) ≡ ok (zero_text, zero_text)
unfolding curve_keypair z85_encode encode_chunks encode_chunk libzmq_ru.Base.Wire.from_be_bytes
    libzmq_ru.Z85.Alphabet.z85_chars
zero_pair = refl
