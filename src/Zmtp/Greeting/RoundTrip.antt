-- ===== src/Zmtp/Greeting/RoundTrip.antt =====
-- A greeting is 64 bytes long and decodes to itself.
use libzmq_ru.Base.{
  ℕ, zero, suc, ◌≤◌, ◌≡◌, ◌≢◌, refl, ap, sym, ◌∙◌, true, List, [], ◌∷◌, ◌++◌, length, get_or, take,
  set, replicate, min, arith, length-append, take-append_length, All, take_all, length-take,
}
use libzmq_ru.Base.Utf8.{is_utf8}
use libzmq_ru.Error.{ok}
use libzmq_ru.Zmtp.Greeting.{ZmtpGreeting, copy_into, u8_from, encode, decode, until_zero}

length-copy_into : (src dst : List ℕ) → length (copy_into src dst) ≡ length dst
length-copy_into [] dst = refl
length-copy_into (s ∷ src) [] = refl
length-copy_into (s ∷ src) (d ∷ dst) = ap suc (length-copy_into src dst)

copy_into-append :
    (src xs ys : List ℕ)
    → length src ≤ length xs
    → copy_into src (xs ++ ys) ≡ copy_into src xs ++ ys
copy_into-append [] xs ys h = refl
copy_into-append (s ∷ src) [] ys h = absurd (omega arith)
copy_into-append (s ∷ src) (x ∷ xs) ys h = ap (◌∷◌ s) (copy_into-append src xs ys (omega arith))

set-append_length :
    (n : ℕ) (xs : List ℕ) (y v : ℕ) (ys : List ℕ)
    → length xs ≡ n
    → set (xs ++ (y ∷ ys)) n v ≡ xs ++ (v ∷ ys)
set-append_length zero [] y v ys h = refl
set-append_length zero (x ∷ xs) y v ys h = absurd (omega arith)
set-append_length (suc n) [] y v ys h = absurd (omega arith)
set-append_length (suc n) (x ∷ xs) y v ys h =
    ap (◌∷◌ x) (set-append_length n xs y v ys (omega arith))

abbrev zeros : ℕ → List ℕ
zeros n = replicate n 0

-- The 20 bytes of the mechanism's field.
abbrev field_of : List ℕ → List ℕ
field_of m = copy_into (take (min (length m) 20) m) (zeros 20)

abbrev opening : ZmtpGreeting → List ℕ
opening g = 0xff ∷ 0 ∷ 0 ∷ 0 ∷ 0 ∷ 0 ∷ 0 ∷ 0 ∷ 0x01 ∷ 0x7f ∷ g.major ∷ g.minor ∷ []

length-taken : (m : List ℕ) → length (take (min (length m) 20) m) ≤ 20
length-taken m = omega (arith, length-take (min (length m) 20) m)

encode_layout :
    (g : ZmtpGreeting)
    → encode g ≡ opening g ++ (field_of g.mechanism ++ (u8_from g.as_server ∷ zeros 31))
unfolding encode
encode_layout g =
    let m = take (min (length g.mechanism) 20) g.mechanism in
    let copied = copy_into-append m (zeros 20) (0 ∷ zeros 31) (length-taken g.mechanism) in
    let written =
      set-append_length 20 (field_of g.mechanism) 0 (u8_from g.as_server) (zeros 31)
        (length-copy_into m (zeros 20)) in
    ap (◌++◌ (opening g)) (ap (λ (xs : List ℕ). set xs 20 (u8_from g.as_server)) copied ∙ written)

until_zero-copy_into :
    (src : List ℕ) (n : ℕ)
    → All (λ b. b ≢ 0) src
    → length src ≤ n
    → until_zero (copy_into src (zeros n)) ≡ src
until_zero-copy_into [] zero h k = refl
until_zero-copy_into [] (suc n) h k = refl
until_zero-copy_into (s ∷ src) zero h k = absurd (omega arith)
until_zero-copy_into (s ∷ src) (suc n) h k = ground (arith, until_zero-copy_into src n h.1, h.0)

take-field : (m rest : List ℕ) → take 20 (field_of m ++ rest) ≡ field_of m
take-field m rest =
    let e = length-copy_into (take (min (length m) 20) m) (zeros 20) in
    ap (λ n. take n (field_of m ++ rest)) (sym e) ∙ take-append_length (field_of m) rest

get_or-append :
    (n : ℕ) (xs ys : List ℕ) (d : ℕ) → length xs ≡ n → get_or (xs ++ ys) n d ≡ get_or ys 0 d
get_or-append zero [] ys d h = refl
get_or-append zero (x ∷ xs) ys d h = absurd (omega arith)
get_or-append (suc n) [] ys d h = absurd (omega arith)
get_or-append (suc n) (x ∷ xs) ys d h = get_or-append n xs ys d (omega arith)

abbrev pub GreetingOutcome : ZmtpGreeting → Type 0
GreetingOutcome g = (length (encode g) ≡ 64) × (decode (encode g) ≡ ok g)

decode_layout :
    (g : ZmtpGreeting) (field : List ℕ)
    → length field ≡ 20
    → until_zero field ≡ g.mechanism
    → is_utf8 g.mechanism ≡ true
    → decode (opening g ++ (field ++ (u8_from g.as_server ∷ zeros 31))) ≡ ok g
unfolding decode
decode_layout g field n e u =
    let tail = u8_from g.as_server ∷ zeros 31 in
    let taken = ap (λ k. take k (field ++ tail)) (sym n) ∙ take-append_length field tail in
    ground (arith, length-append field tail, taken, e, u, get_or-append 20 field tail 0 n)

-- A greeting whose mechanism is a valid string of at most 20 bytes without a zero byte encodes to
-- 64 bytes, and these decode to the same greeting.
pub decode-encode_greeting :
    (g : ZmtpGreeting)
    → length g.mechanism ≤ 20
    → All (λ b. b ≢ 0) g.mechanism
    → is_utf8 g.mechanism ≡ true
    → GreetingOutcome g
decode-encode_greeting g h nz u =
    let field = field_of g.mechanism in
    let n = length-copy_into (take (min (length g.mechanism) 20) g.mechanism) (zeros 20) in
    let whole = take_all (min (length g.mechanism) 20) g.mechanism (omega arith) in
    let unpadded =
      ap (λ (m : List ℕ). until_zero (copy_into m (zeros 20))) whole
      ∙ until_zero-copy_into g.mechanism 20 nz h in
    rw (encode_layout g) (
      omega (arith, length-append field (u8_from g.as_server ∷ zeros 31), n),
      decode_layout g field n unpadded u,
    )
