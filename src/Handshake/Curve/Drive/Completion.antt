-- ===== src/Handshake/Curve/Drive/Completion.antt =====
-- A CURVE handshake between a client and the server whose key it knows.
use libzmq_ru.Base.{ℕ, ◌+◌, ◌^◌, ◌<◌, ◌≡◌, refl, some, List, [], ◌++◌, length, true, false, arith}
use mathlib.Core.List.{append_assoc}
use libzmq_ru.Error.{ok}
use libzmq_ru.Handshake.Authorize.{Others, Cells, Context, authorize_curve}
use libzmq_ru.Handshake.Command.{announced}
use libzmq_ru.Handshake.Command.RoundTrip.{get-announced}
use libzmq_ru.Handshake.Connection.{Connection, HandshakeResult}
use libzmq_ru.Handshake.Crypto.{Crypto, IsCrypto}
use libzmq_ru.Handshake.Curve.Client.{
  new_client, client_public_key, hello_body, process_welcome, initiate_body, process_ready, advance,
  client_session,
}
use libzmq_ru.Handshake.Curve.Drive.{Random, curve_server, curve_client, write_curve_handshake}
use libzmq_ru.Handshake.Curve.Secrets.{
  Secrets, IsSecrets, fresh_client, greeted_server, welcomed_client,
}
use libzmq_ru.Handshake.Curve.Opening.{hello_accepted, welcome_accepted}
use libzmq_ru.Handshake.Curve.Vouching.{initiate_accepted, vouched_server, told}
use libzmq_ru.Handshake.Curve.Finish.{
  waiting_client, ready_client, ready_session, finished_session, ready_accepted,
  session-ready_client, sessions-Linked,
}
use libzmq_ru.Handshake.Curve.Server.{
  parse_curve_hello, curve_welcome_body, parse_curve_initiate, curve_ready_body, server_session,
}
use libzmq_ru.Handshake.Plain.Login.{told_identity}
use libzmq_ru.Handshake.Plain.Reading.{on_wire}
use libzmq_ru.Handshake.Session.{CurveSession}
use libzmq_ru.Handshake.Session.Delivery.{Linked}
use libzmq_ru.Handshake.Stream.{write_command, write_all}
use libzmq_ru.Handshake.Stream.Frames.{stream_of, read_frame-encode}
use libzmq_ru.Security.{SecurityOptions, curve_option_key}
use libzmq_ru.SocketType.{SocketType}
use libzmq_ru.Zmtp.Frame.{command_frame}

-- The options of both ends, with keys that belong together.
pub record Options (c : Crypto) (k : Secrets) (server client : SecurityOptions) : Type 0 where
  pub server_own : curve_option_key server.curve_secretkey ≡ ok k.server_secret
  pub client_own : curve_option_key client.curve_secretkey ≡ ok k.client_secret
  pub client_public :
      client_public_key c client k.client_secret ≡ ok (c.public_from_secret k.client_secret)
  pub client_server :
      curve_option_key client.curve_serverkey ≡ ok (c.public_from_secret k.server_secret)

abbrev pub server_random : Secrets → Random
server_random k = record {
  transient_secret = k.server_transient;
  vouch_tail = [];
  cookie_key = k.cookie_key;
  cookie_tail = k.cookie_tail;
  welcome_tail = k.welcome_tail;
}

abbrev pub client_random : Secrets → Random
client_random k = record {
  transient_secret = k.client_transient;
  vouch_tail = k.vouch_tail;
  cookie_key = [];
  cookie_tail = [];
  welcome_tail = [];
}

abbrev pub connection : List ℕ → List ℕ → Context → Connection
connection incoming outgoing context = record {
  stream = stream_of incoming outgoing;
  context = context;
}

-- What an end of a finished handshake holds.
abbrev pub finished : List ℕ → CurveSession → HandshakeResult
finished identity session = record {
  peer_greeting_done = false;
  peer_ready = true;
  peer_identity = told_identity identity;
  curve_session = some session;
}

-- Both ends, each run on what the other writes.
pub record Completed (c : Crypto) (k : Secrets) (others : Others) (cells : Cells)
    (context context' : Context) (server client : SecurityOptions) (t s : SocketType)
    (identity client_identity behind client_behind : List ℕ) : Type 0 where
  pub from_client : List ℕ
  pub from_server : List ℕ
  pub server_side : CurveSession
  pub client_side : CurveSession
  pub server_runs :
      write_curve_handshake c
        (server_random k)
        others
        cells
        t
        true
        server
        identity
        (connection (from_client ++ client_behind) [] context)
      ≡ (ok (finished client_identity server_side), connection client_behind from_server context')
  pub client_runs :
      write_curve_handshake c
        (client_random k)
        others
        cells
        s
        false
        client
        client_identity
        (connection (from_server ++ behind) [] context)
      ≡ (ok (finished identity client_side), connection behind from_client context)
  pub client_Linked : Linked client_side server_side
  pub server_Linked : Linked server_side client_side

client_made :
    (c : Crypto) (k : Secrets) (server client : SecurityOptions)
    → Options c k server client
    → new_client c client k.client_transient ≡ ok (fresh_client c k)
unfolding new_client
client_made c k server client o = rw (o.client_own, o.client_public, o.client_server) refl

server_run :
    (c : Crypto) (k : Secrets) (others : Others) (cells : Cells) (context context' : Context)
    (server : SecurityOptions) (t s : SocketType)
    (identity client_identity behind hello welcome initiate ready : List ℕ)
    → length hello + 9 < 2 ^ 64
    → length initiate + 9 < 2 ^ 64
    → parse_curve_hello c (command_frame hello) server k.server_transient k.cookie_key
      ≡ ok (greeted_server c k)
    → curve_welcome_body c server (greeted_server c k) k.cookie_tail k.welcome_tail ≡ ok welcome
    → parse_curve_initiate c (command_frame initiate) (greeted_server c k)
      ≡ ok (vouched_server c k, told c k s client_identity)
    → authorize_curve others cells context server (c.public_from_secret k.client_secret)
      ≡ (context', ok tt)
    → curve_ready_body c t identity (server_session c (vouched_server c k))
      ≡ ok (ready_session c k, ready)
    → write_curve_handshake c
        (server_random k)
        others
        cells
        t
        true
        server
        identity
        (connection ((on_wire hello ++ on_wire initiate) ++ behind) [] context)
      ≡ (
        ok (finished client_identity (ready_session c k)),
        connection behind (on_wire welcome ++ on_wire ready) context',
      )
unfolding write_curve_handshake curve_server write_command write_all command_frame
server_run c k others cells context context' server t s identity client_identity behind hello
      welcome initiate ready fits fits' hears says hears' let_in says' =
    rw
      (
        append_assoc (on_wire hello) (on_wire initiate) behind,
        read_frame-encode (command_frame hello) (on_wire initiate ++ behind) [] fits,
        hears,
        says,
        read_frame-encode (command_frame initiate) behind (on_wire welcome) fits',
        hears',
        let_in,
        says',
        get-announced s client_identity,
      )
      refl

client_run :
    (c : Crypto) (k : Secrets) (others : Others) (cells : Cells) (context : Context)
    (client : SecurityOptions) (t s : SocketType)
    (identity client_identity behind hello welcome initiate ready cookie : List ℕ)
    → length welcome + 9 < 2 ^ 64
    → length ready + 9 < 2 ^ 64
    → new_client c client k.client_transient ≡ ok (fresh_client c k)
    → hello_body c (fresh_client c k) ≡ ok (advance (fresh_client c k), hello)
    → process_welcome c (advance (fresh_client c k)) (command_frame welcome)
      ≡ ok (welcomed_client c k cookie)
    → initiate_body c (welcomed_client c k cookie) s client_identity k.vouch_tail
      ≡ ok (advance (welcomed_client c k cookie), initiate)
    → process_ready c (waiting_client c k cookie) (command_frame ready)
      ≡ ok (ready_client c k cookie, announced t identity)
    → client_session c (ready_client c k cookie) ≡ ok (finished_session c k)
    → write_curve_handshake c
        (client_random k)
        others
        cells
        s
        false
        client
        client_identity
        (connection ((on_wire welcome ++ on_wire ready) ++ behind) [] context)
      ≡ (
        ok (finished identity (finished_session c k)),
        connection behind (on_wire hello ++ on_wire initiate) context,
      )
unfolding write_curve_handshake curve_client write_command write_all command_frame
client_run c k others cells context client t s identity client_identity behind hello welcome
      initiate ready cookie fits fits' made says hears says' hears' session =
    rw
      (
        append_assoc (on_wire welcome) (on_wire ready) behind,
        made,
        says,
        read_frame-encode (command_frame welcome) (on_wire ready ++ behind) (on_wire hello) fits,
        hears,
        says',
        read_frame-encode (command_frame ready) behind (on_wire hello ++ on_wire initiate) fits',
        hears',
        session,
        get-announced t identity,
      )
      refl

-- A client that knows the server's public key, and whose own key the server lets in, completes the
-- handshake, whatever both send afterwards: each end finishes on the bytes that the other writes and
-- learns the other's identity, and the two sessions belong together, so that each opens what the
-- other seals. What is sealed with the cryptography is opened with it, and identities are shorter
-- than 2^32 bytes.
pub handshake-Completed :
    (c : Crypto) (k : Secrets) (others : Others) (cells : Cells) (context context' : Context)
    (server client : SecurityOptions) (t s : SocketType)
    (identity client_identity behind client_behind : List ℕ)
    → IsCrypto c
    → IsSecrets k
    → Options c k server client
    → length identity < 2 ^ 32
    → length client_identity < 2 ^ 32
    → authorize_curve others cells context server (c.public_from_secret k.client_secret)
      ≡ (context', ok tt)
    → Completed c k others cells context context' server client t s identity client_identity behind
        client_behind
handshake-Completed c k others cells context context' server client t s identity client_identity
      behind client_behind laws valid options fits client_fits let_in =
    let (hello, says_hello, hello_le, hears_hello) =
      hello_accepted c laws k valid server options.server_own in
    let (welcome, box, says_welcome, welcome_le, hears_welcome, baked) =
      welcome_accepted c laws k valid server options.server_own in
    let (initiate, says_initiate, initiate_le, hears_initiate) =
      initiate_accepted c laws k valid s client_identity box client_fits baked in
    let (ready, says_ready, ready_le, hears_ready) =
      ready_accepted c laws k valid t identity (k.cookie_tail ++ box) fits in
    record {
      from_client = on_wire hello ++ on_wire initiate;
      from_server = on_wire welcome ++ on_wire ready;
      server_side = ready_session c k;
      client_side = finished_session c k;
      server_runs =
          server_run c k others cells context context' server t s identity client_identity
            client_behind hello welcome initiate ready (omega (arith, hello_le))
            (omega (arith, initiate_le)) hears_hello says_welcome hears_initiate let_in says_ready;
      client_runs =
          client_run c k others cells context client t s identity client_identity behind hello
            welcome initiate ready (k.cookie_tail ++ box) (omega (arith, welcome_le))
            (omega (arith, ready_le)) (client_made c k server client options) says_hello
            hears_welcome says_initiate hears_ready
            (session-ready_client c laws k valid (k.cookie_tail ++ box));
      client_Linked = (sessions-Linked c laws k valid).0;
      server_Linked = (sessions-Linked c laws k valid).1;
    }
