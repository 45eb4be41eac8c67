-- ===== src/Zmtp/Metadata/RoundTrip.antt =====
-- The decoder always ends, and decodes what was encoded.
use libzmq_ru.Base.{
  inl, inr, ℕ, zero, suc, ◌%◌, ◌^◌, ◌≤◌, ◌<◌, ◌≡◌, ◌≢◌, ap, sym, ◌∙◌, true, none, some, List, [],
  ◌∷◌, ◌++◌, length, take, drop, min, bytes_eq, arith, length-append, length-drop,
  take-append_length, drop-append_length, All, take_all,
}
use mathlib.Core.List.{append_assoc, append-nil}
use libzmq_ru.Base.Utf8.{is_utf8}
use libzmq_ru.Base.Wire.{to_be_bytes, from_be_bytes, length-to_be_bytes, from_be_bytes-to_be_bytes}
use libzmq_ru.Error.{Result-cases, ok}
use libzmq_ru.Zmtp.Metadata.{
  Property, ZmtpMetadata, encode_property, encode_list, encode_properties, encode_ready,
  decode_property, decode_loop, decode_properties, decode_ready,
}

-- What a round leaves is no longer than what it was given.
decode_property-le :
    (n : ℕ) (rest : List ℕ) (p : Property) (behind : List ℕ)
    → decode_property n rest ≡ ok (p, behind)
    → length behind ≤ length rest
unfolding decode_property
decode_property-le n rest p behind h =
    let tail = drop 4 (drop n rest) in
    let value_len = from_be_bytes (take 4 (drop n rest)) in
    ground (arith, length-drop value_len tail, length-drop 4 (drop n rest), length-drop n rest)

decode_loop_total :
    (fuel : ℕ) (body : List ℕ) (found : List Property)
    → length body ≤ fuel
    → decode_loop fuel body found ≢ none
unfolding decode_loop
decode_loop_total fuel [] found h = λ e. cc
decode_loop_total zero (b ∷ rest) found h = absurd (omega arith)
decode_loop_total (suc fuel) (b ∷ rest) found h = elim (Result-cases (decode_property b rest)) [
  | inl (e, q) ↦ rw (q, decode_loop) (λ x. cc)
  | inr ((p, behind), q) ↦
      rw (q, decode_loop)
        (decode_loop_total fuel behind (found ++ (p ∷ []))
          (omega (arith, decode_property-le b rest p behind q)))
]

-- Whatever the bytes, the decoder's loop ends: it returns metadata or an error.
pub decode_properties_total : (body : List ℕ) → decode_properties body ≢ none
unfolding decode_properties
decode_properties_total body = decode_loop_total (length body) body [] (omega arith)

-- A property that fits its length fields: the name in one byte, the value in four.
abbrev pub FitsWire : Property → Type 0
FitsWire (name, value) = (length name ≤ 255) × (is_utf8 name ≡ true) × (length value < 2 ^ 32)

decode_property-encode :
    (name value rest : List ℕ)
    → FitsWire (name, value)
    → decode_property
        (length name)
        (name ++ (to_be_bytes 4 (length value % 2 ^ 32) ++ (value ++ rest)))
      ≡ ok ((name, value), rest)
unfolding decode_property
decode_property-encode name value rest h =
    let n = to_be_bytes 4 (length value % 2 ^ 32) in
    let len_4 = length-to_be_bytes 4 (length value % 2 ^ 32) in
    let four =
      ap (λ k. take k (n ++ (value ++ rest))) (sym len_4) ∙ take-append_length n (value ++ rest) in
    let past =
      ap (λ k. drop k (n ++ (value ++ rest))) (sym len_4) ∙ drop-append_length n (value ++ rest) in
    rw
      (
        take-append_length name (n ++ (value ++ rest)),
        drop-append_length name (n ++ (value ++ rest)),
        four,
        past,
      )
      (ground (
        arith,
        h.1,
        length-append name (n ++ (value ++ rest)),
        length-append n (value ++ rest),
        length-append value rest,
        len_4,
        from_be_bytes-to_be_bytes 4 (length value % 2 ^ 32),
        take-append_length value rest,
        drop-append_length value rest,
      ))

encode_property_layout :
    (name value rest : List ℕ)
    → FitsWire (name, value)
    → encode_property (name, value) ++ rest
      ≡ length name ∷ (name ++ (to_be_bytes 4 (length value % 2 ^ 32) ++ (value ++ rest)))
unfolding encode_property
encode_property_layout name value rest h =
    let n = to_be_bytes 4 (length value % 2 ^ 32) in
    let whole = take_all (min (length name) 255) name (omega (arith, h.0)) in
    rw (whole, append_assoc name (n ++ value) rest, append_assoc n value rest)
      (ap (λ (k : ℕ). k ∷ (name ++ (n ++ (value ++ rest)))) (omega (arith, h.0)))

decode_loop-encode :
    (fuel : ℕ) (ps found : List Property)
    → All FitsWire ps
    → length (encode_list ps) ≤ fuel
    → decode_loop fuel (encode_list ps) found ≡ some (ok (record { properties = found ++ ps }))
unfolding decode_loop encode_list
decode_loop-encode fuel [] found h k = rw (append-nil found)
decode_loop-encode zero ((name, value) ∷ ps) found h k =
    absurd (omega (arith, ap length (encode_property_layout name value (encode_list ps) h.0)))
decode_loop-encode (suc fuel) ((name, value) ∷ ps) found h k =
    let tail = to_be_bytes 4 (length value % 2 ^ 32) ++ (value ++ encode_list ps) in
    let layout = encode_property_layout name value (encode_list ps) h.0 in
    let room : length (encode_list ps) ≤ fuel = omega (
      arith,
      ap length layout,
      length-append name tail,
      length-append (to_be_bytes 4 (length value % 2 ^ 32)) (value ++ encode_list ps),
      length-append value (encode_list ps),
    ) in
    rw layout (
      rw (decode_property-encode name value (encode_list ps) h.0, decode_loop)
        (decode_loop-encode fuel ps (found ++ ((name, value) ∷ [])) h.1 room
          ∙ ap (λ (xs : List Property). some (ok (record { properties = xs })))
              (append_assoc found ((name, value) ∷ []) ps)))

pub decode_properties-encode :
    (m : ZmtpMetadata)
    → All FitsWire m.properties
    → decode_properties (encode_properties m) ≡ some (ok m)
unfolding encode_properties decode_properties
decode_properties-encode m h =
    decode_loop-encode (length (encode_list m.properties)) m.properties [] h (omega arith)

-- A READY command whose names are valid strings of at most 255 bytes and whose values are shorter
-- than 2^32 bytes decodes to the properties it was encoded from, in their order.
pub decode_ready-encode_ready :
    (m : ZmtpMetadata) → All FitsWire m.properties → decode_ready (encode_ready m) ≡ some (ok m)
unfolding decode_ready encode_ready bytes_eq
decode_ready-encode_ready m h = ground (arith, decode_properties-encode m h)
