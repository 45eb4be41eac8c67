-- ===== src/Z85/RoundTrip.antt =====
-- Z85 encoding and decoding are inverse to each other.
use libzmq_ru.Base.{
  ℕ, ◌+◌, ◌*◌, ◌/◌, ◌%◌, ◌^◌, ◌<◌, ◌≡◌, refl, ap, ◌∙◌, List, [], ◌∷◌, ◌++◌, length, get_or, All,
  arith,
}
use libzmq_ru.Base.Wire.{to_be_bytes, from_be_bytes, from_be_bytes-lt, IsByte}
use libzmq_ru.Error.{ok, ◌>>=◌}
use libzmq_ru.Z85.Alphabet.{z85_chars, z85_value-get}
use libzmq_ru.Z85.{
  encode_digits, encode_chunk, encode_chunks, z85_encode, push_digit, decode_digits, decode_chunks,
  z85_decode,
}

abbrev pub char_of : ℕ → ℕ
char_of d = get_or z85_chars d 0

push_digit-char_of :
    (v d : ℕ) → d < 85 → v * 85 + d < 2 ^ 32 → push_digit v (char_of d) ≡ ok (v * 85 + d)
unfolding push_digit
push_digit-char_of v d h k = ground (arith, z85_value-get d h)

decode_digits-char_of :
    (v d : ℕ) (cs : List ℕ)
    → d < 85
    → v * 85 + d < 2 ^ 32
    → decode_digits v (char_of d ∷ cs) ≡ decode_digits (v * 85 + d) cs
unfolding decode_digits
decode_digits-char_of v d cs h k = rw (push_digit-char_of v d h k)

-- Five digits, each below 85, whose value fits in 32 bits.
pub record AreDigits (p q r s t : ℕ) : Type 0 where
  pub p_digit : p < 85
  pub q_digit : q < 85
  pub r_digit : r < 85
  pub s_digit : s < 85
  pub t_digit : t < 85
  pub fits : (((p * 85 + q) * 85 + r) * 85 + s) * 85 + t < 2 ^ 32

decode_digits_five :
    (p q r s t : ℕ)
    → AreDigits p q r s t
    → decode_digits 0 (char_of p ∷ char_of q ∷ char_of r ∷ char_of s ∷ char_of t ∷ [])
      ≡ ok ((((p * 85 + q) * 85 + r) * 85 + s) * 85 + t)
unfolding decode_digits
decode_digits_five p q r s t h =
    let cs : List ℕ = char_of q ∷ char_of r ∷ char_of s ∷ char_of t ∷ [] in
    let value : ((((0 * 85 + p) * 85 + q) * 85 + r) * 85 + s) * 85 + t
        ≡ (((p * 85 + q) * 85 + r) * 85 + s) * 85 + t =
      omega arith in
    decode_digits-char_of 0 p cs h.p_digit (omega arith)
    ∙ decode_digits-char_of (0 * 85 + p) q (char_of r ∷ char_of s ∷ char_of t ∷ []) h.q_digit
        (omega arith)
    ∙ decode_digits-char_of ((0 * 85 + p) * 85 + q) r (char_of s ∷ char_of t ∷ []) h.r_digit
        (omega arith)
    ∙ decode_digits-char_of (((0 * 85 + p) * 85 + q) * 85 + r) s (char_of t ∷ []) h.s_digit
        (omega arith)
    ∙ decode_digits-char_of ((((0 * 85 + p) * 85 + q) * 85 + r) * 85 + s) t [] h.t_digit
        (omega arith)
    ∙ ap ok value

-- The five digits of a 32-bit value.
digits-AreDigits :
    (v : ℕ)
    → v < 2 ^ 32
    → AreDigits
        (v / 85 / 85 / 85 / 85 % 85)
        (v / 85 / 85 / 85 % 85)
        (v / 85 / 85 % 85)
        (v / 85 % 85)
        (v % 85)
digits-AreDigits v h = omega arith

digits_value :
    (v : ℕ)
    → v < 2 ^ 32
    → (((v / 85 / 85 / 85 / 85 % 85 * 85 + v / 85 / 85 / 85 % 85) * 85 + v / 85 / 85 % 85) * 85
            + v / 85 % 85)
          * 85
        + v % 85
      ≡ v
digits_value v h = omega arith

decode_digits-encode_digits : (v : ℕ) → v < 2 ^ 32 → decode_digits 0 (encode_digits 5 v []) ≡ ok v
unfolding encode_digits
decode_digits-encode_digits v h =
    decode_digits_five _ _ _ _ _ (digits-AreDigits v h) ∙ ap ok (digits_value v h)

four_bytes :
    (a b c d : ℕ)
    → (a < 256) × (b < 256) × (c < 256) × (d < 256)
    → to_be_bytes 4 (from_be_bytes (a ∷ b ∷ c ∷ d ∷ [])) ≡ a ∷ b ∷ c ∷ d ∷ []
unfolding to_be_bytes from_be_bytes
four_bytes a b c d h = ground arith

decode_chunks-encode_chunk :
    (v : ℕ) (rest : List ℕ)
    → v < 2 ^ 32
    → decode_chunks (encode_digits 5 v [] ++ rest)
      ≡ (decode_chunks rest >>= λ later. ok (to_be_bytes 4 v ++ later))
unfolding decode_chunks encode_digits
decode_chunks-encode_chunk v rest h =
    ap (λ r. r >>= λ value. decode_chunks rest >>= λ later. ok (to_be_bytes 4 value ++ later))
      (decode_digits-encode_digits v h)

decode_chunks-encode_chunks :
    (bytes : List ℕ)
    → All IsByte bytes
    → length bytes % 4 ≡ 0
    → decode_chunks (encode_chunks bytes) ≡ ok bytes
unfolding encode_chunks encode_chunk
decode_chunks-encode_chunks (a ∷ b ∷ c ∷ d ∷ rest) h k =
    let later = decode_chunks-encode_chunks rest (h.1.1.1.1) (omega arith) in
    let v = from_be_bytes (a ∷ b ∷ c ∷ d ∷ []) in
    let bound = from_be_bytes-lt (a ∷ b ∷ c ∷ d ∷ []) (h.0, (h.1.0, (h.1.1.0, (h.1.1.1.0, tt)))) in
    decode_chunks-encode_chunk v (encode_chunks rest) (omega (arith, bound))
    ∙ ap (λ r. r >>= λ later. ok (to_be_bytes 4 v ++ later)) later
    ∙ ap (λ bs. ok (bs ++ rest)) (four_bytes a b c d (h.0, h.1.0, h.1.1.0, h.1.1.1.0))
decode_chunks-encode_chunks [] h k = unfold decode_chunks in refl
decode_chunks-encode_chunks (a ∷ []) h k = absurd (omega arith)
decode_chunks-encode_chunks (a ∷ b ∷ []) h k = absurd (omega arith)
decode_chunks-encode_chunks (a ∷ b ∷ c ∷ []) h k = absurd (omega arith)

length-encode_chunks : (bytes : List ℕ) → length (encode_chunks bytes) ≡ 5 * (length bytes / 4)
unfolding encode_chunks encode_chunk encode_digits
length-encode_chunks (a ∷ b ∷ c ∷ d ∷ rest) = omega (arith, length-encode_chunks rest)
length-encode_chunks [] = refl
length-encode_chunks (a ∷ []) = refl
length-encode_chunks (a ∷ b ∷ []) = refl
length-encode_chunks (a ∷ b ∷ c ∷ []) = refl

-- Bytes whose number is a multiple of four encode to a text that decodes to the same bytes, and
-- that is longer by a quarter.
pub z85_decode-z85_encode :
    (bytes : List ℕ)
    → All IsByte bytes
    → length bytes % 4 ≡ 0
    → (text : List ℕ) × (z85_encode bytes ≡ ok text)
      × (z85_decode text ≡ ok bytes)
      × (length text ≡ 5 * (length bytes / 4))
unfolding z85_encode z85_decode
z85_decode-z85_encode bytes h k =
    let size = length-encode_chunks bytes in
    (
      encode_chunks bytes,
      ground arith,
      ground (arith, size, decode_chunks-encode_chunks bytes h k),
      size,
    )
