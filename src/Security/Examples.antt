-- ===== src/Security/Examples.antt =====
-- A server whose clients have the key of 32 zeros, which prints as 40 zeros.
use libzmq_ru.Base.{ℕ, ◌≡◌, refl, List, replicate, bytes_eq, if◌then◌else◌, arith}
use libzmq_ru.Security.{default_security}
use libzmq_ru.Security.Keys.{EitherWay, curve_key_forms}

abbrev key : List ℕ
key = replicate 32 0

abbrev text : List ℕ
text = replicate 40 48

abbrev stranger : List ℕ
stranger = replicate 32 1

curve_key_forms_example : EitherWay default_security key text stranger
unfolding libzmq_ru.Z85.z85_encode libzmq_ru.Z85.encode_chunks libzmq_ru.Z85.encode_chunk
    libzmq_ru.Z85.encode_digits libzmq_ru.Base.Wire.from_be_bytes libzmq_ru.Z85.Alphabet.z85_chars
curve_key_forms_example = curve_key_forms default_security key text stranger (omega arith) refl refl
