-- ===== src/Handshake/Curve.antt =====
-- The CURVE handshake of crates/libzmq-core/src/socket.rs. Random bytes are arguments. That keys
-- are overwritten when they are dropped has no effect on any result.
pub mod Server
pub mod Client
pub mod Secrets
pub mod Opening
pub mod Checking
pub mod Vouching
pub mod Finish
pub mod Drive
use libzmq_ru.Base.{
  ℕ, Bool, Option, none, some, List, [], ◌∷◌, ◌++◌, length, take, drop, get_or, replicate, ltb, leb,
  ◌==◌, bytes_eq, is_empty, not, ◌||◌, ◌&&◌, if◌then◌else◌,
}
use libzmq_ru.Error.{Result, ok, err, invalid_argument, ◌>>=◌}
use libzmq_ru.Handshake.Crypto.{Crypto}

-- The prefixes of nonces.
abbrev pub hello_nonce : List ℕ
hello_nonce =
    b'C' ∷ b'u' ∷ b'r' ∷ b'v' ∷ b'e' ∷ b'Z' ∷ b'M' ∷ b'Q' ∷ b'H' ∷ b'E' ∷ b'L' ∷ b'L' ∷ b'O' ∷ b'-'
    ∷ b'-' ∷ b'-' ∷ []

abbrev pub initiate_nonce : List ℕ
initiate_nonce =
    b'C' ∷ b'u' ∷ b'r' ∷ b'v' ∷ b'e' ∷ b'Z' ∷ b'M' ∷ b'Q' ∷ b'I' ∷ b'N' ∷ b'I' ∷ b'T' ∷ b'I' ∷ b'A'
    ∷ b'T' ∷ b'E' ∷ []

abbrev pub ready_nonce : List ℕ
ready_nonce =
    b'C' ∷ b'u' ∷ b'r' ∷ b'v' ∷ b'e' ∷ b'Z' ∷ b'M' ∷ b'Q' ∷ b'R' ∷ b'E' ∷ b'A' ∷ b'D' ∷ b'Y' ∷ b'-'
    ∷ b'-' ∷ b'-' ∷ []

abbrev pub client_message_nonce : List ℕ
client_message_nonce =
    b'C' ∷ b'u' ∷ b'r' ∷ b'v' ∷ b'e' ∷ b'Z' ∷ b'M' ∷ b'Q' ∷ b'M' ∷ b'E' ∷ b'S' ∷ b'S' ∷ b'A' ∷ b'G'
    ∷ b'E' ∷ b'C' ∷ []

abbrev pub server_message_nonce : List ℕ
server_message_nonce =
    b'C' ∷ b'u' ∷ b'r' ∷ b'v' ∷ b'e' ∷ b'Z' ∷ b'M' ∷ b'Q' ∷ b'M' ∷ b'E' ∷ b'S' ∷ b'S' ∷ b'A' ∷ b'G'
    ∷ b'E' ∷ b'S' ∷ []

abbrev pub welcome_nonce : List ℕ
welcome_nonce = b'W' ∷ b'E' ∷ b'L' ∷ b'C' ∷ b'O' ∷ b'M' ∷ b'E' ∷ b'-' ∷ []

abbrev pub cookie_nonce : List ℕ
cookie_nonce = b'C' ∷ b'O' ∷ b'O' ∷ b'K' ∷ b'I' ∷ b'E' ∷ b'-' ∷ b'-' ∷ []

abbrev pub vouch_nonce : List ℕ
vouch_nonce = b'V' ∷ b'O' ∷ b'U' ∷ b'C' ∷ b'H' ∷ b'-' ∷ b'-' ∷ b'-' ∷ []

-- `if … { return Err(Error::InvalidArgument) }`
abbrev pub refuse_if : Bool → Result (Unit {0})
refuse_if b = if b then err invalid_argument else ok tt
