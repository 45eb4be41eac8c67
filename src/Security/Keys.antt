-- ===== src/Security/Keys.antt =====
-- A CURVE key may be given as its bytes or printed.
use libzmq_ru.Base.{
  ℕ, ◌+◌, ◌-◌, ◌||◌, ◌≡◌, refl, ap, sym, ◌∙◌, true, false, List, [], ◌∷◌, length, All, is_empty,
  bytes_eq, ◌==◌, if◌then◌else◌, arith,
}
use libzmq_ru.Base.Wire.{IsByte}
use libzmq_ru.Base.Utf8.{is_utf8}
use libzmq_ru.Error.{ok, err, invalid_argument}
use libzmq_ru.Security.{
  SecurityOptions, authorize_curve, curve_option_key, printed_key, set_curve_key,
}
use libzmq_ru.Z85.{z85_encode, z85_decode}
use libzmq_ru.Z85.Ascii.{z85_encode-is_utf8}
use libzmq_ru.Z85.RoundTrip.{z85_decode-z85_encode}

-- The options with a public key set.
abbrev pub with_key : SecurityOptions → List ℕ → SecurityOptions
with_key o key = record o { curve_publickey = (set_curve_key o.curve_publickey key).0 }

plain_key : (key : List ℕ) → length key ≡ 32 → curve_option_key key ≡ ok key
unfolding curve_option_key
plain_key key h = ground arith

printed :
    (key text : List ℕ)
    → z85_decode text ≡ ok key
    → is_utf8 text ≡ true
    → length text ≡ 40
    → length key ≡ 32
    → curve_option_key text ≡ ok key
unfolding curve_option_key printed_key
printed key text h valid size k = ground (arith, h, valid)

not_empty : (bs : List ℕ) (n : ℕ) → length bs ≡ 1 + n → is_empty bs ≡ false
not_empty [] n h = absurd (omega (arith, h))
not_empty (b ∷ bs) n h = refl

authorize_known :
    (o : SecurityOptions) (key client : List ℕ)
    → is_empty o.curve_publickey ≡ false
    → curve_option_key o.curve_publickey ≡ ok key
    → authorize_curve o client ≡ (if bytes_eq key client then ok tt else err invalid_argument)
unfolding authorize_curve
authorize_known o key client h k = ground (arith, h, k)

stored_key :
    (target value : List ℕ)
    → (length value == 32 || length value == 40) ≡ true
    → ((set_curve_key target value).0 ≡ value) × ((set_curve_key target value).1 ≡ ok tt)
unfolding set_curve_key
stored_key target value h = ground (arith, h)

-- A key that is accepted in some form lets in the client of that key.
form_authorizes :
    (o : SecurityOptions) (given key client : List ℕ)
    → (length given == 32 || length given == 40) ≡ true
    → curve_option_key given ≡ ok key
    → authorize_curve (with_key o given) client
      ≡ (if bytes_eq key client then ok tt else err invalid_argument)
form_authorizes o given key client size known =
    let stored = (stored_key o.curve_publickey given size).0 in
    let full : is_empty given ≡ false = not_empty given (length given - 1) (ground (arith, size)) in
    authorize_known (with_key o given) key client (ap is_empty stored ∙ full)
      (ap curve_option_key stored ∙ known)

printed_form :
    (key text : List ℕ)
    → All IsByte key
    → length key ≡ 32
    → z85_encode key ≡ ok text
    → (z85_decode text ≡ ok key) × (length text ≡ 40)
printed_form key text h k e =
    let (encoded, enc, dec, size) = z85_decode-z85_encode key h (omega (arith, k)) in
    let same : encoded ≡ text = ground (arith, enc, e) in
    (ap z85_decode (sym same) ∙ dec, ap length (sym same) ∙ omega (arith, size, k))

-- Both forms of a key are accepted, and let in the same clients.
abbrev pub EitherWay : SecurityOptions → (key text client : List ℕ) → Type 0
EitherWay o key text client =
    ((set_curve_key o.curve_publickey key).1 ≡ ok tt)
    × ((set_curve_key o.curve_publickey text).1 ≡ ok tt)
    × (authorize_curve (with_key o key) client
        ≡ (if bytes_eq key client then ok tt else err invalid_argument))
    × (authorize_curve (with_key o text) client ≡ authorize_curve (with_key o key) client)

-- A key of 32 bytes may be set as it is or printed in Z85: both calls succeed, and either way a
-- client is let in exactly if that key is its public key.
pub curve_key_forms :
    (o : SecurityOptions) (key text client : List ℕ)
    → All IsByte key
    → length key ≡ 32
    → z85_encode key ≡ ok text
    → EitherWay o key text client
curve_key_forms o key text client h k e =
    let (decodes, size) = printed_form key text h k e in
    let known = printed key text decodes (z85_encode-is_utf8 key text e) size k in
    let plain = form_authorizes o key key client (ground (arith, k)) (plain_key key k) in
    (
      (stored_key o.curve_publickey key (ground (arith, k))).1,
      (stored_key o.curve_publickey text (ground (arith, size))).1,
      plain,
      form_authorizes o text key client (ground (arith, size)) known ∙ sym plain,
    )
