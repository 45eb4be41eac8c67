-- ===== src/Z85/Ascii.antt =====
-- Z85 text is ASCII.
use libzmq_ru.Base.{
  ℕ, zero, suc, ◌<◌, ◌/◌, ◌%◌, ◌≡◌, refl, true, false, List, [], ◌∷◌, ◌++◌, All, any, get_or, leb,
  arith,
}
use libzmq_ru.Base.Utf8.{is_utf8, ascii-is_utf8}
use libzmq_ru.Error.{ok}
use libzmq_ru.Z85.{encode_digits, encode_chunk, encode_chunks, z85_encode}
use libzmq_ru.Z85.Alphabet.{z85_chars}

abbrev IsAscii : List ℕ → Type 0
IsAscii bs = All (λ b. b < 128) bs

get_or-lt : (xs : List ℕ) (i : ℕ) → any (λ c. leb 128 c) xs ≡ false → get_or xs i 0 < 128
unfolding any
get_or-lt [] i h = omega arith
get_or-lt (x ∷ xs) zero h = ground arith
get_or-lt (x ∷ xs) (suc i) h = get_or-lt xs i (ground arith)

char-lt : (i : ℕ) → get_or z85_chars i 0 < 128
unfolding any z85_chars
char-lt i = get_or-lt z85_chars i refl

encode_digits-IsAscii :
    (n value : ℕ) (block : List ℕ) → IsAscii block → IsAscii (encode_digits n value block)
unfolding encode_digits
encode_digits-IsAscii zero value block h = h
encode_digits-IsAscii (suc n) value block h =
    encode_digits-IsAscii n (value / 85) _ (char-lt (value % 85), h)

append-IsAscii : (xs ys : List ℕ) → IsAscii xs → IsAscii ys → IsAscii (xs ++ ys)
append-IsAscii [] ys h k = k
append-IsAscii (x ∷ xs) ys h k = (h.0, append-IsAscii xs ys h.1 k)

encode_chunks-IsAscii : (bytes : List ℕ) → IsAscii (encode_chunks bytes)
unfolding encode_chunks encode_chunk
encode_chunks-IsAscii (a ∷ b ∷ c ∷ d ∷ rest) =
    append-IsAscii (encode_chunk a b c d) (encode_chunks rest) (encode_digits-IsAscii 5 _ [] tt)
      (encode_chunks-IsAscii rest)
encode_chunks-IsAscii [] = tt
encode_chunks-IsAscii (a ∷ []) = tt
encode_chunks-IsAscii (a ∷ b ∷ []) = tt
encode_chunks-IsAscii (a ∷ b ∷ c ∷ []) = tt

pub z85_encode-is_utf8 : (bytes text : List ℕ) → z85_encode bytes ≡ ok text → is_utf8 text ≡ true
unfolding z85_encode
z85_encode-is_utf8 bytes text h =
    ground (arith, ascii-is_utf8 (encode_chunks bytes) (encode_chunks-IsAscii bytes))
