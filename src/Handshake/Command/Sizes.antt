-- ===== src/Handshake/Command/Sizes.antt =====
-- Bounds on the length of handshake commands, which keep their frames within a 64-bit length.
use libzmq_ru.Base.{
  ℕ, ◌+◌, ◌%◌, ◌^◌, ◌≤◌, List, [], ◌∷◌, ◌++◌, length, take, min, arith, length-append, length-take,
}
use libzmq_ru.Base.Wire.{to_be_bytes, length-to_be_bytes}
use libzmq_ru.Handshake.Command.{
  command_body, announced, socket_type_name, socket_type_metadata_with_identity,
  ready_command_body_with_identity, ready, socket_type_key, identity_key,
}
use libzmq_ru.Handshake.Command.RoundTrip.{ready_body_layout}
use libzmq_ru.SocketType.{SocketType}
use libzmq_ru.Zmtp.Metadata.{encode_property, encode_list, encode_properties}

pub length-command_body-le :
    (name tail : List ℕ) → length (command_body name tail) ≤ 256 + length tail
unfolding command_body
length-command_body-le name tail = omega (
  arith,
  length-append (take (min (length name) 255) name) tail,
  length-take (min (length name) 255) name,
)

length-encode_property-le :
    (name value : List ℕ) → length (encode_property (name, value)) ≤ 260 + length value
unfolding encode_property
length-encode_property-le name value =
    let n = to_be_bytes 4 (length value % 2 ^ 32) in
    omega (
      arith,
      length-append (take (min (length name) 255) name) (n ++ value),
      length-take (min (length name) 255) name,
      length-append n value,
      length-to_be_bytes 4 (length value % 2 ^ 32),
    )

length-socket_type_name-le : (t : SocketType) → length (socket_type_name t) ≤ 7
unfolding socket_type_name
length-socket_type_name-le SocketType.xpub = omega arith
length-socket_type_name-le _ = omega arith

pub length-metadata-le :
    (t : SocketType) (identity : List ℕ)
    → length (socket_type_metadata_with_identity t identity) ≤ 600 + length identity
unfolding socket_type_metadata_with_identity encode_properties announced encode_list
length-metadata-le t [] = omega (
  arith,
  length-append (encode_property (socket_type_key, socket_type_name t)) [],
  length-encode_property-le socket_type_key (socket_type_name t),
  length-socket_type_name-le t,
)
length-metadata-le t (b ∷ bs) =
    let named = encode_property (identity_key, b ∷ bs) in
    omega (
      arith,
      length-append (encode_property (socket_type_key, socket_type_name t)) (named ++ []),
      length-append named [],
      length-encode_property-le socket_type_key (socket_type_name t),
      length-encode_property-le identity_key (b ∷ bs),
      length-socket_type_name-le t,
    )

pub length-ready_body-le :
    (t : SocketType) (identity : List ℕ)
    → length (ready_command_body_with_identity t identity) ≤ 856 + length identity
length-ready_body-le t identity = rw (ready_body_layout t identity) (
    omega (
      arith,
      length-command_body-le ready (socket_type_metadata_with_identity t identity),
      length-metadata-le t identity,
    ))
