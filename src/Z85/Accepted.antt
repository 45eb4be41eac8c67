-- ===== src/Z85/Accepted.antt =====
-- What the Z85 decoder accepts.
use libzmq_ru.Base.{
  ℕ, suc, ◌+◌, ◌*◌, ◌/◌, ◌%◌, ◌^◌, ◌<◌, ◌≡◌, inl, inr, ap, sym, ◌∙◌, List, [], ◌∷◌, ◌++◌, length,
  arith, length-append, Option-cases,
}
use mathlib.Core.Path.{ap₂}
use libzmq_ru.Base.Wire.{to_be_bytes, from_be_bytes-to_be_bytes, length-to_be_bytes}
use libzmq_ru.Error.{ok, Result-cases, step_succeeds}
use libzmq_ru.Z85.Alphabet.{z85_value, get-z85_value}
use libzmq_ru.Z85.{
  encode_digits, encode_chunk, encode_chunks, z85_encode, push_digit, decode_digits, decode_chunks,
  z85_decode,
}
use libzmq_ru.Z85.RoundTrip.{char_of, AreDigits}

-- What a successful step of the decoder has read.
push_digit-ok :
    (v b w : ℕ)
    → push_digit v b ≡ ok w
    → (d : ℕ) × (d < 85) × (char_of d ≡ b) × (w ≡ v * 85 + d) × (w < 2 ^ 32)
unfolding push_digit
push_digit-ok v b w h = elim (Option-cases (z85_value b)) [
  | inl e ↦ absurd (ground (arith, e))
  | inr (d, e) ↦
      let char = get-z85_value b d e in (d, char.0, char.1, ground (arith, e), ground (arith, e))
]

decode_digits-ok :
    (v b : ℕ) (bs : List ℕ) (w : ℕ)
    → decode_digits v (b ∷ bs) ≡ ok w
    → (d : ℕ) × (d < 85)
      × (char_of d ≡ b)
      × (v * 85 + d < 2 ^ 32)
      × (decode_digits (v * 85 + d) bs ≡ ok w)
unfolding decode_digits
decode_digits-ok v b bs w h = elim (Result-cases (push_digit v b)) [
  | inl (e, q) ↦ absurd (ground (arith, q))
  | inr (x, q) ↦
      let (d, small, char, value, fits) = push_digit-ok v b x q in
      (d, small, char, omega arith, ground (arith, q, value))
]

encode_digits-char_of :
    (n v d : ℕ) (block : List ℕ)
    → d < 85
    → encode_digits (suc n) (v * 85 + d) block ≡ encode_digits n v (char_of d ∷ block)
unfolding encode_digits
encode_digits-char_of n v d block h =
    let quotient : (v * 85 + d) / 85 ≡ v = omega arith in
    let remainder : (v * 85 + d) % 85 ≡ d = omega arith in rw (quotient, remainder)

encode_digits_five :
    (p q r s t : ℕ)
    → AreDigits p q r s t
    → encode_digits 5 (((((0 * 85 + p) * 85 + q) * 85 + r) * 85 + s) * 85 + t) []
      ≡ char_of p ∷ char_of q ∷ char_of r ∷ char_of s ∷ char_of t ∷ []
unfolding encode_digits
encode_digits_five p q r s t h =
    let s2 : List ℕ = char_of s ∷ char_of t ∷ [] in
    encode_digits-char_of 4 ((((0 * 85 + p) * 85 + q) * 85 + r) * 85 + s) t [] h.t_digit
    ∙ encode_digits-char_of 3 (((0 * 85 + p) * 85 + q) * 85 + r) s (char_of t ∷ []) h.s_digit
    ∙ encode_digits-char_of 2 ((0 * 85 + p) * 85 + q) r s2 h.r_digit
    ∙ encode_digits-char_of 1 (0 * 85 + p) q (char_of r ∷ s2) h.q_digit
    ∙ encode_digits-char_of 0 0 p (char_of q ∷ char_of r ∷ s2) h.p_digit

-- A decoded chunk re-encodes to itself.
encode_digits-decode_digits :
    (a b c d e v : ℕ)
    → decode_digits 0 (a ∷ b ∷ c ∷ d ∷ e ∷ []) ≡ ok v
    → (v < 2 ^ 32) × (encode_digits 5 v [] ≡ a ∷ b ∷ c ∷ d ∷ e ∷ [])
unfolding decode_digits
encode_digits-decode_digits a b c d e v h =
    let (p, p85, pa, pv, h1) = decode_digits-ok 0 a (b ∷ c ∷ d ∷ e ∷ []) v h in
    let (q, q85, qb, qv, h2) = decode_digits-ok (0 * 85 + p) b (c ∷ d ∷ e ∷ []) v h1 in
    let (r, r85, rc, rv, h3) = decode_digits-ok ((0 * 85 + p) * 85 + q) c (d ∷ e ∷ []) v h2 in
    let (s, s85, sd, sv, h4) =
      decode_digits-ok (((0 * 85 + p) * 85 + q) * 85 + r) d (e ∷ []) v h3 in
    let (t, t85, te, tv, h5) =
      decode_digits-ok ((((0 * 85 + p) * 85 + q) * 85 + r) * 85 + s) e [] v h4 in
    let value : ((((0 * 85 + p) * 85 + q) * 85 + r) * 85 + s) * 85 + t ≡ v = cc h5 in
    let digits : AreDigits p q r s t = omega arith in
    (
      omega arith,
      ap (λ n. encode_digits 5 n []) (sym value)
          ∙ encode_digits_five p q r s t digits
          ∙ cc (pa, qb, rc, sd, te),
    )

encode_chunks-to_be_bytes :
    (v : ℕ) (later : List ℕ)
    → v < 2 ^ 32
    → encode_chunks (to_be_bytes 4 v ++ later) ≡ encode_digits 5 v [] ++ encode_chunks later
unfolding encode_chunks encode_chunk to_be_bytes
encode_chunks-to_be_bytes v later h =
    ap (λ n. encode_digits 5 n [] ++ encode_chunks later) (from_be_bytes-to_be_bytes 4 v h)

encode_chunks-decode_chunks :
    (text bytes : List ℕ)
    → length text % 5 ≡ 0
    → decode_chunks text ≡ ok bytes
    → (encode_chunks bytes ≡ text) × (length bytes % 4 ≡ 0)
unfolding decode_chunks
encode_chunks-decode_chunks (a ∷ b ∷ c ∷ d ∷ e ∷ rest) bytes k h =
    let (v, hv, h1) = step_succeeds (decode_digits 0 (a ∷ b ∷ c ∷ d ∷ e ∷ [])) _ h in
    let (later, hl, h2) = step_succeeds (decode_chunks rest) _ h1 in
    let whole : to_be_bytes 4 v ++ later ≡ bytes = cc h2 in
    let tail = encode_chunks-decode_chunks rest later (omega arith) hl in
    let chunk = encode_digits-decode_digits a b c d e v hv in
    (
      ap encode_chunks (sym whole)
          ∙ encode_chunks-to_be_bytes v later chunk.0
          ∙ ap₂ ◌++◌ chunk.1 tail.0,
      omega (
        arith,
        ap length whole,
        length-append (to_be_bytes 4 v) later,
        length-to_be_bytes 4 v,
        tail.1,
      ),
    )
encode_chunks-decode_chunks [] bytes k h = unfold encode_chunks in ground arith
encode_chunks-decode_chunks (a ∷ []) bytes k h = absurd (omega arith)
encode_chunks-decode_chunks (a ∷ b ∷ []) bytes k h = absurd (omega arith)
encode_chunks-decode_chunks (a ∷ b ∷ c ∷ []) bytes k h = absurd (omega arith)
encode_chunks-decode_chunks (a ∷ b ∷ c ∷ d ∷ []) bytes k h = absurd (omega arith)

-- A text that the decoder accepts is the encoding of what it decodes to: no two texts decode to
-- the same bytes.
pub z85_encode-z85_decode :
    (text bytes : List ℕ) → z85_decode text ≡ ok bytes → z85_encode bytes ≡ ok text
unfolding z85_encode z85_decode
z85_encode-z85_decode text bytes h = ground (arith, encode_chunks-decode_chunks text bytes)
