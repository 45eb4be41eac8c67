-- ===== src/Zmtp/Metadata.antt =====
-- `ZmtpMetadata` of crates/libzmq-core/src/transport.rs: the properties of a READY command.
-- The decoder's `offset` is modelled by the bytes from that offset on; each round of its loop
-- takes one unit of fuel.
pub mod RoundTrip
use libzmq_ru.Base.{
  ℕ, zero, suc, ◌+◌, ◌%◌, ◌^◌, Bool, true, false, ◌&&◌, ◌||◌, not, Option, none, some, List, [],
  ◌∷◌, ◌++◌, length, get_or, take, drop, min, ltb, leb, ◌==◌, if◌then◌else◌, bytes_eq,
}
use libzmq_ru.Base.Utf8.{is_utf8}
use libzmq_ru.Base.Wire.{to_be_bytes, from_be_bytes}
use libzmq_ru.Error.{Result, ok, err, invalid_argument}

abbrev pub Property : Type 0
Property = List ℕ × List ℕ

pub record ZmtpMetadata : Type 0 where
  pub properties : List Property

unfoldable pub encode_property : Property → List ℕ
encode_property (name, value) =
    min (length name) 255 % 2 ^ 8
    ∷ (take (min (length name) 255) name ++ (to_be_bytes 4 (length value % 2 ^ 32) ++ value))

unfoldable pub encode_list : List Property → List ℕ
encode_list [] = []
encode_list (p ∷ ps) = encode_property p ++ encode_list ps

unfoldable pub encode_properties : ZmtpMetadata → List ℕ
encode_properties m = encode_list m.properties

abbrev pub ready_name : List ℕ
ready_name = b'R' ∷ b'E' ∷ b'A' ∷ b'D' ∷ b'Y' ∷ []

unfoldable pub encode_ready : ZmtpMetadata → List ℕ
encode_ready m = 5 ∷ (ready_name ++ encode_properties m)

-- One round of the loop: the property at the offset, and the bytes behind it.
unfoldable pub decode_property : ℕ → List ℕ → Result (Property × List ℕ)
decode_property name_len rest =
    if ltb (length rest) (name_len + 4)
    then err invalid_argument
    else if not (is_utf8 (take name_len rest))
    then err invalid_argument
    else (let value_len = from_be_bytes (take 4 (drop name_len rest)) in
        let behind = drop 4 (drop name_len rest) in
        if ltb (length behind) value_len
        then err invalid_argument
        else ok ((take name_len rest, take value_len behind), drop value_len behind))

-- `none`: the fuel ran out.
pub decode_loop : ℕ → List ℕ → List Property → Option (Result ZmtpMetadata)
decode_loop fuel [] found = some (ok (record { properties = found }))
decode_loop zero (b ∷ rest) found = none
decode_loop (suc fuel) (b ∷ rest) found = elim (decode_property b rest) [
  | err e ↦ some (err e)
  | ok (p, behind) ↦ decode_loop fuel behind (found ++ (p ∷ []))
]

-- Each round takes at least one byte.
unfoldable pub decode_properties : List ℕ → Option (Result ZmtpMetadata)
decode_properties body = decode_loop (length body) body []

unfoldable pub decode_ready : List ℕ → Option (Result ZmtpMetadata)
decode_ready body =
    if ltb (length body) 6
      || not (get_or body 0 0 == 5)
      || not (bytes_eq (take 5 (drop 1 body)) ready_name)
    then some (err invalid_argument)
    else decode_properties (drop 6 body)

unfoldable pub find_property : List ℕ → List Property → Option (List ℕ)
find_property name [] = none
find_property name ((stored, value) ∷ ps) =
    if bytes_eq stored name then some value else find_property name ps

unfoldable pub get : ZmtpMetadata → List ℕ → Option (List ℕ)
get m name = find_property name m.properties
