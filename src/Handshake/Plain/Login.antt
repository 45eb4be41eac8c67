-- ===== src/Handshake/Plain/Login.antt =====
-- A client of PLAIN that is let in.
use libzmq_ru.Handshake.Plain.Reading.{
  short, length-short, sent_credentials, parse_hello-hello_body, parse_initiate-initiate_body,
  on_wire, client_bytes, server_bytes, client_finishes,
}
use mathlib.Core.List.{append_assoc}
use libzmq_ru.Handshake.Ready.{read_zmtp_peer_ready, peer_ready-ready_body}
use libzmq_ru.Handshake.Command.Sizes.{length-command_body-le, length-ready_body-le}
use libzmq_ru.Handshake.Authorize.{Others, Cells, Context, authorize_plain}
use libzmq_ru.Handshake.Stream.Frames.{stream_of, read_frame-encode}
use libzmq_ru.Handshake.Stream.{write_command, write_all}
use libzmq_ru.Base.{
  length-drop, ◌<◌, ◌≤◌, ◌^◌, ◌+◌, refl, none, some, if◌then◌else◌, is_empty, true, false, Option,
  [], drop, ℕ, ◌≡◌, List, ◌++◌, length, arith, length-append,
}
use libzmq_ru.Error.{ok}
use libzmq_ru.Handshake.Command.{
  announced, initiate, ready_command_body_with_identity, welcome, command_body, hello,
}
use libzmq_ru.Handshake.Command.RoundTrip.{get-announced}
use libzmq_ru.Handshake.Plain.{
  short_text, plain_server, write_command, plain_initiate_body, write_plain_handshake, SocketType,
  plain_hello_body,
}
use libzmq_ru.Security.{SecurityOptions}
use libzmq_ru.Zmtp.Frame.{command_frame}

length-hello-le : (security : SecurityOptions) → length (plain_hello_body security) ≤ 768
unfolding plain_hello_body
length-hello-le security =
    let user = security.plain_username in
    let pass = security.plain_password in
    omega (
      arith,
      length-command_body-le hello (short_text user ++ short_text pass),
      length-append (short user) (short_text pass),
      length-short user,
      length-short pass,
    )

length-initiate-le :
    (t : SocketType) (identity : List ℕ)
    → length (plain_initiate_body t identity) ≤ 1200 + length identity
unfolding plain_initiate_body
length-initiate-le t identity =
    let body = ready_command_body_with_identity t identity in
    omega (
      arith,
      length-command_body-le initiate (drop 6 body),
      length-drop 6 body,
      length-ready_body-le t identity,
    )

-- What a server learns of the identity of a client.
abbrev pub told_identity : List ℕ → Option (List ℕ)
told_identity identity = if is_empty identity then none else some identity

server_finishes :
    (others : Others) (cells : Cells) (context context' : Context)
    (security client : SecurityOptions) (t s : SocketType)
    (identity client_identity behind : List ℕ)
    → length client_identity < 2 ^ 32
    → authorize_plain others cells context security (sent_credentials client) ≡ (context', ok tt)
    → (write_plain_handshake others cells t true security identity (record {
      stream =
          stream_of
            (on_wire (plain_hello_body client)
              ++ (on_wire (plain_initiate_body s client_identity) ++ behind))
            [];
      context = context;
    }))
      ≡ (
        ok (record {
          peer_greeting_done = false;
          peer_ready = true;
          peer_identity = told_identity client_identity;
          curve_session = none;
        }),
        record { stream = stream_of behind (server_bytes t identity); context = context' },
      )
unfolding write_plain_handshake plain_server write_command write_all command_frame
server_finishes others cells context context' security client t s identity client_identity behind
      fits let_in =
    rw
      (
        read_frame-encode (command_frame (plain_hello_body client))
            (on_wire (plain_initiate_body s client_identity) ++ behind) []
            (omega (arith, length-hello-le client)),
        parse_hello-hello_body client,
        let_in,
        read_frame-encode (command_frame (plain_initiate_body s client_identity)) behind
            (on_wire (command_body welcome []))
            (omega (arith, length-initiate-le s client_identity)),
        parse_initiate-initiate_body s client_identity fits,
        get-announced s client_identity,
      )
      refl

-- What comes of a PLAIN handshake, at both ends.
abbrev pub LoggedIn :
    (others : Others) (cells : Cells) (context context' : Context)
    (security client : SecurityOptions) (t s : SocketType)
    (identity client_identity behind client_behind : List ℕ)
    → Type 0
LoggedIn others cells context context' security client t s identity client_identity behind
      client_behind =
    (write_plain_handshake others cells t true security identity (record {
      stream = stream_of (client_bytes client s client_identity ++ client_behind) [];
      context = context;
    })
      ≡ (
        ok (record {
          peer_greeting_done = false;
          peer_ready = true;
          peer_identity = told_identity client_identity;
          curve_session = none;
        }),
        record { stream = stream_of client_behind (server_bytes t identity); context = context' },
      ))
    × (write_plain_handshake others cells s false client client_identity
          (record { stream = stream_of (server_bytes t identity ++ behind) []; context = context })
        ≡ (
          ok (record {
            peer_greeting_done = false;
            peer_ready = false;
            peer_identity = none;
            curve_session = none;
          }),
          record {
            stream =
                stream_of (on_wire (ready_command_body_with_identity t identity) ++ behind)
                  (client_bytes client s client_identity);
            context = context;
          },
        ))
    × (read_zmtp_peer_ready (
          stream_of (on_wire (ready_command_body_with_identity t identity) ++ behind)
            (client_bytes client s client_identity))
        ≡ some
            (ok (announced t identity), stream_of behind (client_bytes client s client_identity)))

-- Both ends of a PLAIN handshake, where the server lets in what it reads of the client's
-- credentials: each finishes on the bytes that the other writes and leaves what comes behind them.
-- The server learns the client's identity. The client is done before the server's READY comes, and
-- reads the server's metadata with the next frame.
pub plain_login :
    (others : Others) (cells : Cells) (context context' : Context)
    (security client : SecurityOptions) (t s : SocketType)
    (identity client_identity behind client_behind : List ℕ)
    → length identity < 2 ^ 32
    → length client_identity < 2 ^ 32
    → authorize_plain others cells context security (sent_credentials client) ≡ (context', ok tt)
    → LoggedIn others cells context context' security client t s identity client_identity behind
        client_behind
plain_login others cells context context' security client t s identity client_identity behind
      client_behind fits client_fits let_in =
    (
      rw
          (append_assoc (on_wire (plain_hello_body client))
            (on_wire (plain_initiate_body s client_identity)) client_behind)
          (server_finishes others cells context context' security client t s identity
            client_identity client_behind client_fits let_in),
      rw
          (append_assoc (on_wire (command_body welcome []))
            (on_wire (ready_command_body_with_identity t identity)) behind)
          (client_finishes others cells context client s client_identity
            (on_wire (ready_command_body_with_identity t identity) ++ behind)),
      peer_ready-ready_body t identity behind (client_bytes client s client_identity) fits,
    )
