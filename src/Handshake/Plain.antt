-- ===== src/Handshake/Plain.antt =====
-- The PLAIN mechanism of crates/libzmq-core/src/socket.rs: its commands and its handshake.
pub mod Reading
pub mod Login
use libzmq_ru.Base.{
  ℕ, ◌+◌, ◌%◌, ◌^◌, Bool, true, false, not, Option, none, some, List, [], ◌∷◌, ◌++◌, length, take,
  drop, get_or, min, ltb, ◌==◌, if◌then◌else◌,
}
use libzmq_ru.Error.{Result, ok, err, invalid_argument}
use libzmq_ru.Error
use libzmq_ru.Handshake.Authorize.{Others, Cells, authorize_plain}
use libzmq_ru.Handshake.Command.{
  command_body, command_tail, decoded_metadata, expect_command, ready_command_body_with_identity,
  hello, initiate, welcome, identity_key,
}
use libzmq_ru.Handshake.Connection.{HandshakeResult, Act, lift, on_stream, on_context, ◌>>=◌, ◌>>◌}
use libzmq_ru.Handshake.Stream.{read_zmtp_frame, write_command}
use libzmq_ru.Security.{SecurityOptions, PlainCredentials}
use libzmq_ru.SocketType.{SocketType}
use libzmq_ru.Zmtp.Frame.{ZmtpFrame}
use libzmq_ru.Zmtp.Metadata.{ZmtpMetadata, get}

-- At most 255 bytes of a text, behind their number.
abbrev pub short_text : List ℕ → List ℕ
short_text text = min (length text) 255 % 2 ^ 8 ∷ take (min (length text) 255) text

unfoldable pub plain_hello_body : SecurityOptions → List ℕ
plain_hello_body security =
    command_body hello (short_text security.plain_username ++ short_text security.plain_password)

-- The credentials in the tail of a HELLO, once the length of the name is read.
plain_credentials : (username_len : ℕ) (rest : List ℕ) → Result PlainCredentials
plain_credentials username_len rest =
    let password_len = get_or rest username_len 0 in
    if ltb (1 + length rest) (1 + username_len + 1)
    then err invalid_argument
    else if not (1 + length rest == 1 + username_len + 1 + password_len)
    then err invalid_argument
    else ok (record {
      username = take username_len rest;
      password = take password_len (drop (username_len + 1) rest);
    })

parse_hello_tail : List ℕ → Result PlainCredentials
unfolding plain_credentials
parse_hello_tail [] = err invalid_argument
parse_hello_tail (username_len ∷ rest) = plain_credentials username_len rest

unfoldable pub parse_plain_hello : ZmtpFrame → Result PlainCredentials
unfolding parse_hello_tail
parse_plain_hello frame = Error.◌>>=◌ (command_tail frame hello) parse_hello_tail

unfoldable pub parse_plain_initiate : ZmtpFrame → Result ZmtpMetadata
parse_plain_initiate frame = Error.◌>>=◌ (command_tail frame initiate) decoded_metadata

unfoldable pub plain_initiate_body : SocketType → List ℕ → List ℕ
plain_initiate_body socket_type identity =
    command_body initiate (drop 6 (ready_command_body_with_identity socket_type identity))

unfoldable pub plain_server :
    Others → Cells → SocketType → SecurityOptions → List ℕ → Act HandshakeResult
plain_server others cells socket_type security routing_id = do
  asked ← on_stream read_zmtp_frame
  credentials ← lift (parse_plain_hello asked)
  on_context (λ context. authorize_plain others cells context security credentials)
  on_stream (write_command (command_body welcome []))
  named ← on_stream read_zmtp_frame
  peer_metadata ← lift (parse_plain_initiate named)
  on_stream (write_command (ready_command_body_with_identity socket_type routing_id))
  lift (
      ok (record {
        peer_greeting_done = false;
        peer_ready = true;
        peer_identity = get peer_metadata identity_key;
        curve_session = none;
      }))

unfoldable pub plain_client : SocketType → SecurityOptions → List ℕ → Act HandshakeResult
plain_client socket_type security routing_id = do
  on_stream (write_command (plain_hello_body security))
  answer ← on_stream read_zmtp_frame
  lift (expect_command answer welcome)
  on_stream (write_command (plain_initiate_body socket_type routing_id))
  lift (
      ok (record {
        peer_greeting_done = false;
        peer_ready = false;
        peer_identity = none;
        curve_session = none;
      }))

-- `write_plain_handshake_tcp`; `write_plain_handshake_ipc` is the same code on another stream.
unfoldable pub write_plain_handshake :
    Others
    → Cells
    → SocketType
    → (as_server : Bool) → SecurityOptions
    → List ℕ
    → Act HandshakeResult
write_plain_handshake others cells socket_type as_server security routing_id =
    if as_server
    then plain_server others cells socket_type security routing_id
    else plain_client socket_type security routing_id
