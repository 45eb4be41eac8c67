-- ===== src/Z85.antt =====
-- crates/libzmq-core/src/security.rs, the Z85 text encoding and the keys that are printed in it.
-- The curve's scalar multiplication and the source of randomness are parameters.
pub mod Alphabet
pub mod RoundTrip
pub mod Accepted
pub mod Ascii
pub mod Keys
mod Examples
use libzmq_ru.Base.{
  ℕ, zero, suc, ◌+◌, ◌*◌, ◌/◌, ◌%◌, ◌^◌, Bool, true, false, not, Option, none, some, List, [], ◌∷◌,
  ◌++◌, length, get_or, ltb, ◌==◌, if◌then◌else◌,
}
use libzmq_ru.Base.Wire.{to_be_bytes, from_be_bytes}
use libzmq_ru.Error.{Result, ok, err, invalid_argument, invalid_socket, ◌>>=◌}
use libzmq_ru.Z85.Alphabet.{z85_chars, z85_value}

-- The loop over `index` from 4 down to 0: the last digit first, in front of the others.
unfoldable pub encode_digits : ℕ → ℕ → List ℕ → List ℕ
encode_digits zero value block = block
encode_digits (suc n) value block =
    encode_digits n (value / 85) (get_or z85_chars (value % 85) 0 ∷ block)

unfoldable pub encode_chunk : ℕ → ℕ → ℕ → ℕ → List ℕ
unfolding encode_digits
encode_chunk a b c d = encode_digits 5 (from_be_bytes (a ∷ b ∷ c ∷ d ∷ [])) []

-- `chunks_exact(4)`: bytes that do not fill a chunk are left out.
unfoldable pub encode_chunks : List ℕ → List ℕ
encode_chunks (a ∷ b ∷ c ∷ d ∷ rest) = encode_chunk a b c d ++ encode_chunks rest
encode_chunks _ = []

unfoldable pub z85_encode : List ℕ → Result (List ℕ)
z85_encode bytes =
    if not (length bytes % 4 == 0) then err invalid_argument else ok (encode_chunks bytes)

-- `checked_mul(85)` and `checked_add(digit)` on `u32`.
push_digit : ℕ → ℕ → Result ℕ
push_digit value byte = elim (z85_value byte) [
  | none ↦ err invalid_argument
  | some digit ↦
      if ltb (value * 85) (2 ^ 32)
      then (if ltb (value * 85 + digit) (2 ^ 32)
          then ok (value * 85 + digit)
          else err invalid_argument)
      else err invalid_argument
]

decode_digits : ℕ → List ℕ → Result ℕ
decode_digits value [] = ok value
decode_digits value (b ∷ bs) = push_digit value b >>= λ v. decode_digits v bs

decode_chunks : List ℕ → Result (List ℕ)
decode_chunks (a ∷ b ∷ c ∷ d ∷ e ∷ rest) = decode_digits 0 (a ∷ b ∷ c ∷ d ∷ e ∷ []) >>= λ value.
    decode_chunks rest >>= λ later. ok (to_be_bytes 4 value ++ later)
decode_chunks _ = ok []

pub z85_decode : List ℕ → Result (List ℕ)
z85_decode encoded =
    if not (length encoded % 5 == 0) then err invalid_argument else decode_chunks encoded

-- `mul_base_clamped` of curve25519-dalek, and the 32 bytes that getrandom fills in, or its failure.
module _ (curve_public_bytes : List ℕ → List ℕ) where
  pub curve_keypair : Option (List ℕ) → Result (List ℕ × List ℕ)
  curve_keypair none = err invalid_socket
  curve_keypair (some secret) = z85_encode (curve_public_bytes secret) >>= λ public.
      z85_encode secret >>= λ secret_encoded. ok (public, secret_encoded)

  pub curve_public : List ℕ → Result (List ℕ)
  curve_public z85_secret_key = z85_decode z85_secret_key >>= λ secret.
      if not (length secret == 32)
      then err invalid_argument
      else z85_encode (curve_public_bytes secret)
