-- ===== src/Handshake/Curve/Drive.antt =====
-- The CURVE handshake over a connection (`write_curve_handshake_tcp` of socket.rs). The random bytes
-- that a handshake draws are arguments, and the system always has some.
pub mod Completion
use libzmq_ru.Base.{Bool, true, false, some, List, if◌then◌else◌}
use libzmq_ru.Error.{ok}
use libzmq_ru.Handshake.Authorize.{Others, Cells, authorize_curve}
use libzmq_ru.Handshake.Command.{identity_key}
use libzmq_ru.Handshake.Connection.{HandshakeResult, Act, lift, on_stream, on_context, ◌>>=◌, ◌>>◌}
use libzmq_ru.Handshake.Crypto.{Crypto}
use libzmq_ru.Handshake.Curve.Client.{
  new_client, hello_body, process_welcome, initiate_body, process_ready, client_session,
}
use libzmq_ru.Handshake.Curve.Server.{
  parse_curve_hello, curve_welcome_body, parse_curve_initiate, curve_ready_body, server_session,
}
use libzmq_ru.Handshake.Stream.{read_zmtp_frame, write_command}
use libzmq_ru.Security.{SecurityOptions}
use libzmq_ru.SocketType.{SocketType}
use libzmq_ru.Zmtp.Metadata.{get}
use libzmq_ru.Base.{ℕ}

-- What a handshake draws: a client the first two, a server all but the second.
pub record Random : Type 0 where
  pub transient_secret : List ℕ
  pub vouch_tail : List ℕ
  pub cookie_key : List ℕ
  pub cookie_tail : List ℕ
  pub welcome_tail : List ℕ

unfoldable pub curve_server :
    Crypto → Random → Others → Cells → SocketType → SecurityOptions → List ℕ → Act HandshakeResult
curve_server c random others cells socket_type security routing_id = do
  asked ← on_stream read_zmtp_frame
  hello ← lift (parse_curve_hello c asked security random.transient_secret random.cookie_key)
  welcome ← lift (curve_welcome_body c security hello random.cookie_tail random.welcome_tail)
  on_stream (write_command welcome)
  vouched ← on_stream read_zmtp_frame
  initiated ← lift (parse_curve_initiate c vouched hello)
  on_context
      (λ context. authorize_curve others cells context security initiated.1.client_public_key)
  finished ← lift (curve_ready_body c socket_type routing_id (server_session c initiated.0))
  on_stream (write_command finished.1)
  lift (
      ok (record {
        peer_greeting_done = false;
        peer_ready = true;
        peer_identity = get initiated.1.metadata identity_key;
        curve_session = some finished.0;
      }))

unfoldable pub curve_client :
    Crypto → Random → SocketType → SecurityOptions → List ℕ → Act HandshakeResult
curve_client c random socket_type security routing_id = do
  client ← lift (new_client c security random.transient_secret)
  greeted ← lift (hello_body c client)
  on_stream (write_command greeted.1)
  answer ← on_stream read_zmtp_frame
  welcomed ← lift (process_welcome c greeted.0 answer)
  vouching ← lift (initiate_body c welcomed socket_type routing_id random.vouch_tail)
  on_stream (write_command vouching.1)
  last ← on_stream read_zmtp_frame
  ready ← lift (process_ready c vouching.0 last)
  session ← lift (client_session c ready.0)
  lift (
      ok (record {
        peer_greeting_done = false;
        peer_ready = true;
        peer_identity = get ready.1 identity_key;
        curve_session = some session;
      }))

-- `write_curve_handshake_ipc` is the same code on another stream.
unfoldable pub write_curve_handshake :
    Crypto
    → Random
    → Others
    → Cells
    → SocketType
    → (as_server : Bool) → SecurityOptions
    → List ℕ
    → Act HandshakeResult
write_curve_handshake c random others cells socket_type as_server security routing_id =
    if as_server
    then curve_server c random others cells socket_type security routing_id
    else curve_client c random socket_type security routing_id
