-- ===== src/Handshake/Command.antt =====
-- The bodies of handshake commands (`command_body`, `command_tail` and what stands on them) of
-- crates/libzmq-core/src/socket.rs.
pub mod RoundTrip
pub mod Sizes
use libzmq_ru.Base.{
  ℕ, ◌+◌, ◌%◌, ◌^◌, Bool, true, false, not, ◌||◌, Option, none, some, List, [], ◌∷◌, ◌++◌, length,
  is_empty, take, drop, get_or, min, ltb, ◌==◌, bytes_eq, if◌then◌else◌, ◌≢◌, refl,
}
use libzmq_ru.Error.{Result, ok, err, invalid_argument, ◌>>=◌}
use libzmq_ru.SocketType.{SocketType}
use libzmq_ru.Zmtp.Frame.{ZmtpFrame}
use libzmq_ru.Zmtp.Metadata.{
  Property, ZmtpMetadata, encode_ready, encode_properties, decode_properties,
}
use libzmq_ru.Zmtp.Metadata.RoundTrip.{decode_properties_total}

unfoldable pub command_body : List ℕ → List ℕ → List ℕ
command_body name tail = min (length name) 255 % 2 ^ 8 ∷ (take (min (length name) 255) name ++ tail)

unfoldable pub command_tail_body : List ℕ → List ℕ → Result (List ℕ)
command_tail_body [] expected = err invalid_argument
command_tail_body (name_len ∷ rest) expected =
    if ltb (1 + length rest) (1 + name_len) || not (bytes_eq (take name_len rest) expected)
    then err invalid_argument
    else ok (drop name_len rest)

unfoldable pub command_tail : ZmtpFrame → List ℕ → Result (List ℕ)
command_tail frame expected =
    if not frame.command then err invalid_argument else command_tail_body frame.body expected

unfoldable pub expect_command : ZmtpFrame → List ℕ → Result (Unit {0})
expect_command frame expected = command_tail frame expected >>= λ _. ok tt

abbrev unwrapped {ℓ} : {A : Type ℓ} (o : Option A) → o ≢ none → A
unwrapped none total = absurd (total refl)
unwrapped (some a) total = a

-- `ZmtpMetadata::decode_properties`, which always returns.
unfoldable pub decoded_metadata : List ℕ → Result ZmtpMetadata
decoded_metadata body = unwrapped (decode_properties body) (decode_properties_total body)

-- "READY", "INITIATE", "HELLO" and "WELCOME"
abbrev pub ready : List ℕ
ready = b'R' ∷ b'E' ∷ b'A' ∷ b'D' ∷ b'Y' ∷ []

abbrev pub initiate : List ℕ
initiate = b'I' ∷ b'N' ∷ b'I' ∷ b'T' ∷ b'I' ∷ b'A' ∷ b'T' ∷ b'E' ∷ []

abbrev pub hello : List ℕ
hello = b'H' ∷ b'E' ∷ b'L' ∷ b'L' ∷ b'O' ∷ []

abbrev pub welcome : List ℕ
welcome = b'W' ∷ b'E' ∷ b'L' ∷ b'C' ∷ b'O' ∷ b'M' ∷ b'E' ∷ []

unfoldable pub parse_ready_metadata : ZmtpFrame → Result ZmtpMetadata
parse_ready_metadata frame = command_tail frame ready >>= decoded_metadata

-- The types that the match does not name are announced as "PAIR".
unfoldable pub socket_type_name : SocketType → List ℕ
socket_type_name SocketType.pull = b'P' ∷ b'U' ∷ b'L' ∷ b'L' ∷ []
socket_type_name SocketType.push = b'P' ∷ b'U' ∷ b'S' ∷ b'H' ∷ []
socket_type_name SocketType.req = b'R' ∷ b'E' ∷ b'Q' ∷ []
socket_type_name SocketType.rep = b'R' ∷ b'E' ∷ b'P' ∷ []
socket_type_name SocketType.dealer = b'D' ∷ b'E' ∷ b'A' ∷ b'L' ∷ b'E' ∷ b'R' ∷ []
socket_type_name SocketType.router = b'R' ∷ b'O' ∷ b'U' ∷ b'T' ∷ b'E' ∷ b'R' ∷ []
socket_type_name SocketType.server = b'S' ∷ b'E' ∷ b'R' ∷ b'V' ∷ b'E' ∷ b'R' ∷ []
socket_type_name SocketType.client = b'C' ∷ b'L' ∷ b'I' ∷ b'E' ∷ b'N' ∷ b'T' ∷ []
socket_type_name SocketType.peer = b'P' ∷ b'E' ∷ b'E' ∷ b'R' ∷ []
socket_type_name SocketType.dgram = b'D' ∷ b'G' ∷ b'R' ∷ b'A' ∷ b'M' ∷ []
socket_type_name SocketType.pub_type = b'P' ∷ b'U' ∷ b'B' ∷ []
socket_type_name SocketType.sub = b'S' ∷ b'U' ∷ b'B' ∷ []
socket_type_name SocketType.channel = b'C' ∷ b'H' ∷ b'A' ∷ b'N' ∷ b'N' ∷ b'E' ∷ b'L' ∷ []
socket_type_name SocketType.scatter = b'S' ∷ b'C' ∷ b'A' ∷ b'T' ∷ b'T' ∷ b'E' ∷ b'R' ∷ []
socket_type_name SocketType.gather = b'G' ∷ b'A' ∷ b'T' ∷ b'H' ∷ b'E' ∷ b'R' ∷ []
socket_type_name SocketType.radio = b'R' ∷ b'A' ∷ b'D' ∷ b'I' ∷ b'O' ∷ []
socket_type_name SocketType.dish = b'D' ∷ b'I' ∷ b'S' ∷ b'H' ∷ []
socket_type_name _ = b'P' ∷ b'A' ∷ b'I' ∷ b'R' ∷ []

-- "Socket-Type" and "Identity"
abbrev pub socket_type_key : List ℕ
socket_type_key = b'S' ∷ b'o' ∷ b'c' ∷ b'k' ∷ b'e' ∷ b't' ∷ b'-' ∷ b'T' ∷ b'y' ∷ b'p' ∷ b'e' ∷ []

abbrev pub identity_key : List ℕ
identity_key = b'I' ∷ b'd' ∷ b'e' ∷ b'n' ∷ b't' ∷ b'i' ∷ b't' ∷ b'y' ∷ []

-- What a socket says of itself.
unfoldable pub announced : SocketType → List ℕ → ZmtpMetadata
announced socket_type identity =
    let kind : Property = (socket_type_key, socket_type_name socket_type) in
    if is_empty identity
    then record { properties = kind ∷ [] }
    else record { properties = kind ∷ (identity_key, identity) ∷ [] }

unfoldable pub socket_type_metadata_with_identity : SocketType → List ℕ → List ℕ
socket_type_metadata_with_identity socket_type identity =
    encode_properties (announced socket_type identity)

unfoldable pub ready_command_body_with_identity : SocketType → List ℕ → List ℕ
ready_command_body_with_identity socket_type identity =
    encode_ready (announced socket_type identity)
