-- ===== src/Handshake/Command/RoundTrip.antt =====
-- The tail of a command is what was put behind its name, and metadata come back as announced.
use libzmq_ru.Base.{
  if◌then◌else◌, ℕ, ◌%◌, ◌^◌, ◌<◌, ◌≤◌, ◌≡◌, ◌≢◌, refl, true, Option, none, some, List, [], ◌∷◌,
  length, arith, length-append, take-append_length, drop-append_length, take_all, bytes_eq,
  bytes_eq_refl, All, min, is_empty,
}
use libzmq_ru.Base.Utf8.{is_utf8}
use libzmq_ru.Error.{ok}
use libzmq_ru.SocketType.{SocketType}
use libzmq_ru.Handshake.Command.{
  command_body, command_tail_body, command_tail, decoded_metadata, unwrapped, announced,
  socket_type_name, socket_type_key, identity_key, ready_command_body_with_identity,
  socket_type_metadata_with_identity, ready, parse_ready_metadata,
}
use libzmq_ru.Zmtp.Frame.{command_frame}
use libzmq_ru.Zmtp.Metadata.{
  find_property, get, ZmtpMetadata, encode_properties, decode_properties, encode_ready,
}
use libzmq_ru.Zmtp.Metadata.RoundTrip.{decode_properties_total, decode_properties-encode, FitsWire}

pub command_tail-command_body :
    (name tail : List ℕ)
    → length name ≤ 255
    → command_tail (command_frame (command_body name tail)) name ≡ ok tail
unfolding command_tail command_frame command_tail_body command_body
command_tail-command_body name tail h =
    let whole = take_all (min (length name) 255) name (omega arith) in
    let short : min (length name) 255 % 256 ≡ length name = omega arith in
    rw (whole, short)
      (ground (
        arith,
        length-append name tail,
        take-append_length name tail,
        drop-append_length name tail,
        bytes_eq_refl name,
      ))

pub ready_body_layout :
    (t : SocketType) (identity : List ℕ)
    → ready_command_body_with_identity t identity
      ≡ command_body ready (socket_type_metadata_with_identity t identity)
unfolding ready_command_body_with_identity socket_type_metadata_with_identity command_body
    encode_ready
ready_body_layout t identity = refl

unwrapped-some :
    {A : Type 0} (o : Option A) (total : o ≢ none) (a : A) → o ≡ some a → unwrapped o total ≡ a
unwrapped-some none total a e = absurd (total refl)
unwrapped-some (some b) total a e = cc

pub decoded_metadata-encode :
    (m : ZmtpMetadata) → All FitsWire m.properties → decoded_metadata (encode_properties m) ≡ ok m
unfolding decoded_metadata
decoded_metadata-encode m h =
    unwrapped-some (decode_properties (encode_properties m))
      (decode_properties_total (encode_properties m)) (ok m) (decode_properties-encode m h)

length-socket_type_name : (t : SocketType) → length (socket_type_name t) < 2 ^ 32
unfolding socket_type_name
length-socket_type_name SocketType.xpub = omega arith
length-socket_type_name _ = omega arith

key_is_utf8 : is_utf8 socket_type_key ≡ true
unfolding is_utf8
key_is_utf8 = refl

identity_key-is_utf8 : is_utf8 identity_key ≡ true
unfolding is_utf8
identity_key-is_utf8 = refl

pub announced-FitsWire :
    (t : SocketType) (identity : List ℕ)
    → length identity < 2 ^ 32
    → All FitsWire (announced t identity).properties
unfolding announced
announced-FitsWire t [] h = ((omega arith, key_is_utf8, length-socket_type_name t), tt)
announced-FitsWire t (b ∷ bs) h = (
  (omega arith, key_is_utf8, length-socket_type_name t),
  ((omega arith, identity_key-is_utf8, h), tt),
)

-- The READY command of a socket tells the peer its type and its identity.
pub parse_ready-ready_body :
    (t : SocketType) (identity : List ℕ)
    → length identity < 2 ^ 32
    → parse_ready_metadata (command_frame (ready_command_body_with_identity t identity))
      ≡ ok (announced t identity)
unfolding parse_ready_metadata socket_type_metadata_with_identity encode_properties
parse_ready-ready_body t identity h =
    rw
      (
        ready_body_layout t identity,
        command_tail-command_body ready (socket_type_metadata_with_identity t identity)
            (omega arith),
      )
      (decoded_metadata-encode (announced t identity) (announced-FitsWire t identity h))

pub get-announced :
    (t : SocketType) (identity : List ℕ)
    → get (announced t identity) identity_key ≡ (if is_empty identity then none else some identity)
unfolding announced get find_property bytes_eq
get-announced t [] = refl
get-announced t (b ∷ bs) = refl
