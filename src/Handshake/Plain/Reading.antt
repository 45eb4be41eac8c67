-- ===== src/Handshake/Plain/Reading.antt =====
-- What each end of a PLAIN handshake reads of the other.
use libzmq_ru.Handshake.Command.Sizes.{length-command_body-le}
use libzmq_ru.Handshake.Authorize.{Others, Cells, Context}
use libzmq_ru.Handshake.Stream.Frames.{stream_of, read_frame-encode}
use libzmq_ru.Handshake.Stream.{write_command, write_all}
use libzmq_ru.Zmtp.Metadata.{encode_properties}
use libzmq_ru.Base.{
  ◌<◌, ◌^◌, refl, none, false, [], drop, ℕ, ◌%◌, ◌≡◌, List, ◌∷◌, ◌++◌, length, take, min, arith,
  length-append, length-take, take-append_length, drop-append_past, get_or-append_length, take_all,
}
use libzmq_ru.Error.{ok}
use libzmq_ru.Handshake.Command.{
  announced, initiate, ready_command_body_with_identity, ready, socket_type_metadata_with_identity,
  welcome, expect_command, command_body, hello,
}
use libzmq_ru.Handshake.Command.RoundTrip.{
  announced-FitsWire, decoded_metadata-encode, ready_body_layout, command_tail-command_body,
}
use libzmq_ru.Handshake.Plain.{
  write_command, plain_client, plain_initiate_body, write_plain_handshake, SocketType,
  parse_plain_initiate, plain_hello_body, parse_plain_hello, parse_hello_tail, plain_credentials,
}
use libzmq_ru.Security.{SecurityOptions, PlainCredentials}
use libzmq_ru.Zmtp.Frame.{encode_v3, command_frame}

abbrev pub short : List ℕ → List ℕ
short text = take (min (length text) 255) text

pub length-short : (text : List ℕ) → length (short text) ≡ min (length text) 255
length-short text = omega (arith, length-take (min (length text) 255) text)

credentials_read :
    (n m : ℕ) (user pass : List ℕ)
    → length user ≡ n
    → length pass ≡ m
    → plain_credentials n (user ++ (m ∷ pass)) ≡ ok (record { username = user; password = pass })
unfolding plain_credentials
credentials_read n m user pass hn hm = rw (← hn) (
    ground (
      arith,
      hm,
      length-append user (m ∷ pass),
      take-append_length user (m ∷ pass),
      get_or-append_length user m pass 0,
      drop-append_past user m pass,
      take_all m pass,
    ))

-- What a server reads of the credentials that a client sends.
abbrev pub sent_credentials : SecurityOptions → PlainCredentials
sent_credentials security = record {
  username = short security.plain_username;
  password = short security.plain_password;
}

pub parse_hello-hello_body :
    (security : SecurityOptions)
    → parse_plain_hello (command_frame (plain_hello_body security)) ≡ ok (sent_credentials security)
unfolding parse_plain_hello plain_hello_body parse_hello_tail
parse_hello-hello_body security =
    let user = short security.plain_username in
    let pass = short security.plain_password in
    let n = min (length security.plain_username) 255 in
    let m = min (length security.plain_password) 255 in
    let one_byte : (m % 256) ≡ m = omega arith in
    let first_byte : (n % 256) ≡ n = omega arith in
    rw
      (
        one_byte,
        first_byte,
        command_tail-command_body hello (n ∷ (user ++ (m ∷ pass))) (omega arith),
      )
      (credentials_read n m user pass (length-short security.plain_username)
        (length-short security.plain_password))

drop-ready : (tail : List ℕ) → drop 6 (command_body ready tail) ≡ tail
unfolding command_body
drop-ready tail = refl

pub parse_initiate-initiate_body :
    (t : SocketType) (identity : List ℕ)
    → length identity < 2 ^ 32
    → parse_plain_initiate (command_frame (plain_initiate_body t identity))
      ≡ ok (announced t identity)
unfolding parse_plain_initiate plain_initiate_body socket_type_metadata_with_identity
    encode_properties
parse_initiate-initiate_body t identity h =
    let metadata = socket_type_metadata_with_identity t identity in
    rw
      (
        ready_body_layout t identity,
        drop-ready metadata,
        command_tail-command_body initiate metadata (omega arith),
      )
      (decoded_metadata-encode (announced t identity) (announced-FitsWire t identity h))

expect-welcome : expect_command (command_frame (command_body welcome [])) welcome ≡ ok tt
unfolding expect_command
expect-welcome = rw (command_tail-command_body welcome [] (omega arith)) refl

-- The commands of a PLAIN handshake as they go over the wire.
abbrev pub on_wire : List ℕ → List ℕ
on_wire body = encode_v3 (command_frame body)

abbrev pub client_bytes : SecurityOptions → SocketType → List ℕ → List ℕ
client_bytes security t identity =
    on_wire (plain_hello_body security) ++ on_wire (plain_initiate_body t identity)

abbrev pub server_bytes : SocketType → List ℕ → List ℕ
server_bytes t identity =
    on_wire (command_body welcome []) ++ on_wire (ready_command_body_with_identity t identity)

pub client_finishes :
    (others : Others) (cells : Cells) (context : Context) (security : SecurityOptions)
    (t : SocketType) (identity behind : List ℕ)
    → (write_plain_handshake others cells t false security identity (record {
      stream = stream_of (on_wire (command_body welcome []) ++ behind) [];
      context = context;
    }))
      ≡ (
        ok (record {
          peer_greeting_done = false;
          peer_ready = false;
          peer_identity = none;
          curve_session = none;
        }),
        record { stream = stream_of behind (client_bytes security t identity); context = context },
      )
unfolding write_plain_handshake plain_client write_command write_all command_frame
client_finishes others cells context security t identity behind =
    rw
      (
        read_frame-encode (command_frame (command_body welcome [])) behind
            (on_wire (plain_hello_body security))
            (omega (arith, length-command_body-le welcome [])),
        expect-welcome,
      )
      refl
