-- ===== src/Handshake/Examples.antt =====
-- A cipher that adds a number to each byte, and the handshakes of two sockets that use it.
mod Toy
use libzmq_ru.Zmtp.Frame.{command_frame, encode_v3}
use libzmq_ru.Handshake.Stream.{read_zmtp_frame}
use libzmq_ru.Base.{
  ◌∙◌, ℕ, ◌≡◌, ◌≢◌, refl, true, false, none, some, List, [], ◌∷◌, ◌++◌, replicate, map, arith,
  length,
}
use libzmq_ru.Context.{new_life}
use libzmq_ru.Context.Registry.{inproc_endpoint, Registry}
use libzmq_ru.Error.{ok}
use libzmq_ru.Handshake.Authorize.{
  zap_endpoint, Context, Cells, Others, zap_messages, accept_reply, wait_zap_reply, starts_with_2,
  authorize_curve, authorize_plain,
}
use libzmq_ru.Handshake.Authorize.Dialogue.{
  Granted, Arrived, reply_decides, entry_needs_reply, request_arrives,
}
use libzmq_ru.Handshake.Authorize.Asking.{authorize, plain_client, curve_client, asked}
use libzmq_ru.Handshake.Curve.Drive.Completion.{Options, Completed, handshake-Completed}
use libzmq_ru.Handshake.Curve.Secrets.{Secrets, IsSecrets}
use libzmq_ru.Handshake.Examples.Toy.{toy, toy-IsCrypto}
use libzmq_ru.Handshake.Plain.Login.{LoggedIn, plain_login}
use libzmq_ru.Handshake.Plain.Reading.{sent_credentials}
use libzmq_ru.Handshake.Ready.{on_wire, read_zmtp_peer_ready, peer_ready-skips}
use libzmq_ru.Handshake.Command.{announced, ready_command_body_with_identity}
use libzmq_ru.Zmtp.Frame.{ZmtpFrame, encode_v3, command_frame}
use libzmq_ru.Handshake.Session.{CurveSession}
use libzmq_ru.Handshake.Session.Conversation.{Conversed, messages-Conversed}
use libzmq_ru.Handshake.Session.Delivery.{Linked, Delivered, message-Delivered}
use libzmq_ru.Handshake.Stream.Frames.{stream_of, read_frame-encode}
use libzmq_ru.Inproc.{Heap, InprocPeer, new}
use libzmq_ru.Security.{SecurityOptions, default_security}
use libzmq_ru.SocketType.{req, SocketType, dealer, router, rep}
use libzmq_ru.Subscriptions.{default_state}
use libzmq_ru.Zap.{new_request, ZapRequest, ZapReply, new_reply, encode_reply}

abbrev secrets : Secrets
secrets = record {
  server_secret = replicate 32 1;
  client_secret = replicate 32 2;
  server_transient = replicate 32 3;
  client_transient = replicate 32 4;
  cookie_key = replicate 32 5;
  cookie_tail = replicate 16 6;
  welcome_tail = replicate 16 7;
  vouch_tail = replicate 16 8;
}

secrets-IsSecrets : IsSecrets secrets
secrets-IsSecrets = record {
  server_32 = refl;
  client_32 = refl;
  server_transient_32 = refl;
  client_transient_32 = refl;
  cookie_16 = refl;
  welcome_16 = refl;
  vouch_16 = refl;
}

abbrev server_options : SecurityOptions
server_options = record default_security { curve_server = true; curve_secretkey = replicate 32 1 }

abbrev client_options : SecurityOptions
client_options = record default_security {
  curve_secretkey = replicate 32 2;
  curve_serverkey = replicate 32 1;
}

fit : Options toy secrets server_options client_options
unfolding libzmq_ru.Security.curve_option_key libzmq_ru.Handshake.Curve.Client.client_public_key
    default_security
fit = record { server_own = refl; client_own = refl; client_public = refl; client_server = refl }

-- Endpoint 0 is a handler of requests; it is bound in the second context.
abbrev heap : Heap
heap = record {
  queues = λ _. [];
  subscriptions = λ _. default_state;
  disconnect_msgs = λ _. [];
  welcomes = λ _. none;
  policies = λ _. record {
    verbose_subscribe = false;
    verbose_unsubscribe = false;
    manual = false;
    manual_last_value = false;
  };
}

abbrev registry : Registry
registry = record {
  heap = heap;
  endpoints = λ _. new 0 rep 0 0 0 0;
  allocated = 1;
  inproc_endpoints = [];
  pending_inproc = [];
}

abbrev context : Context
context = record { life = new_life; registry = registry }

abbrev cells : Cells
cells = record { inbox = 1; subscriptions = 1 }

abbrev silent : Others
silent r = (r, [])

handshake-Completed_example :
    Completed toy secrets silent cells context context server_options client_options router dealer
      (7 ∷ [])
      (8 ∷ 9 ∷ [])
      (1 ∷ [])
      (2 ∷ [])
unfolding authorize_curve libzmq_ru.Context.Registry.inproc_endpoint libzmq_ru.Base.Maps.get
    libzmq_ru.Security.authorize_curve default_security
handshake-Completed_example =
    handshake-Completed toy secrets silent cells context context server_options client_options
      router dealer (7 ∷ []) (8 ∷ 9 ∷ []) (1 ∷ []) (2 ∷ []) toy-IsCrypto secrets-IsSecrets fit
      (omega arith) (omega arith) refl

abbrev sender : CurveSession
sender = record {
  local_transient_secret = [];
  peer_transient_public = [];
  send_box = 5 ∷ [];
  recv_box = 5 ∷ [];
  send_nonce = 3;
  recv_nonce = 1;
  send_prefix = replicate 16 0;
  recv_prefix = replicate 16 1;
}

abbrev receiver : CurveSession
receiver = record {
  local_transient_secret = [];
  peer_transient_public = [];
  send_box = 5 ∷ [];
  recv_box = 5 ∷ [];
  send_nonce = 2;
  recv_nonce = 2;
  send_prefix = replicate 16 1;
  recv_prefix = replicate 16 0;
}

linked : Linked sender receiver
linked = record { same_key = refl; same_prefix = refl; prefix_16 = refl; ahead = omega arith }

message-Delivered_example : Delivered toy sender receiver (1 ∷ 2 ∷ []) true
message-Delivered_example =
    message-Delivered toy sender receiver (1 ∷ 2 ∷ []) true toy-IsCrypto linked (omega arith)
      (omega arith)

messages-Conversed_example : Conversed toy sender receiver ((1 ∷ [], true) ∷ ([], false) ∷ [])
messages-Conversed_example =
    messages-Conversed toy ((1 ∷ [], true) ∷ ([], false) ∷ []) sender receiver toy-IsCrypto linked
      (omega arith) (omega arith, (omega arith, tt))

abbrev login : SecurityOptions
login = record default_security {
  plain_server = true;
  plain_username = 97 ∷ [];
  plain_password = 98 ∷ 99 ∷ [];
}

plain_login_example :
    LoggedIn silent cells context context login login router dealer (7 ∷ []) [] (1 ∷ []) []
unfolding authorize_plain libzmq_ru.Context.Registry.inproc_endpoint libzmq_ru.Base.Maps.get
    libzmq_ru.Security.authorize_plain libzmq_ru.Base.bytes_eq
plain_login_example =
    plain_login silent cells context context login login router dealer (7 ∷ []) [] (1 ∷ []) []
      (omega arith) (omega arith) refl

-- The handler at endpoint 0 answers "200", after a pause.
abbrev asked_context : Context
asked_context = record {
  life = new_life;
  registry = record registry { inproc_endpoints = (zap_endpoint, 0) ∷ [] };
}

abbrev reply : ZapReply
reply = new_reply (49 ∷ []) (50 ∷ 48 ∷ 48 ∷ []) [] [] []

abbrev answering : Others
answering r = (r, none ∷ map some (zap_messages 1 (encode_reply reply)))

reply_decides_example :
    (authorize answering cells asked_context login (curve_client (1 ∷ []))).1 ≡ accept_reply reply
unfolding encode_reply libzmq_ru.Context.Registry.inproc_endpoint libzmq_ru.Base.Maps.get
    libzmq_ru.Base.bytes_eq libzmq_ru.SocketType.inproc_types_compatible new zap_messages new_reply
    libzmq_ru.Base.Utf8.is_utf8
reply_decides_example =
    reply_decides answering cells asked_context login (curve_client (1 ∷ [])) 0 1 reply [] refl refl
      refl (refl, refl, refl, refl)

bound : inproc_endpoint asked_context.registry zap_endpoint ≡ some 0
unfolding inproc_endpoint libzmq_ru.Base.Maps.get libzmq_ru.Base.bytes_eq
bound = refl

accepted : accept_reply reply ≡ ok tt
unfolding accept_reply new_reply
accepted = refl

let_in : (authorize answering cells asked_context login (curve_client (1 ∷ []))).1 ≡ ok tt
unfolding new encode_reply new_reply zap_messages inproc_endpoint
    libzmq_ru.SocketType.inproc_types_compatible libzmq_ru.Base.Utf8.is_utf8
let_in =
    reply_decides answering cells asked_context login (curve_client (1 ∷ [])) 0 1 reply [] bound
      refl refl (refl, refl, refl, refl)
    ∙ accepted

entry_needs_reply_example : Granted answering cells asked_context login (curve_client (1 ∷ [])) 0
entry_needs_reply_example =
    entry_needs_reply answering cells asked_context login (curve_client (1 ∷ [])) 0 bound let_in

abbrev request : ZapRequest
request = new_request (49 ∷ []) [] [] [] (80 ∷ []) ((7 ∷ []) ∷ [])

request_arrives_example : Arrived (record { heap = heap; endpoint = new 0 rep 0 0 0 0 }) 1 request 0
unfolding new_request libzmq_ru.Base.Utf8.is_utf8
request_arrives_example =
    request_arrives (record { heap = heap; endpoint = new 0 rep 0 0 0 0 }) 1 request 0
      (refl, refl, refl)

-- Two messages before the READY of a REQ socket with the identity 7, and a byte behind it.
abbrev chatter : List ZmtpFrame
chatter =
    record { body = 1 ∷ []; more = true; command = false }
    ∷ record { body = []; more = false; command = false }
    ∷ []

peer_ready-skips_example :
    read_zmtp_peer_ready (
      stream_of
        (on_wire chatter
          ++ (encode_v3 (command_frame (ready_command_body_with_identity req (7 ∷ [])))
              ++ (9 ∷ [])))
        [])
    ≡ some (ok (announced req (7 ∷ [])), stream_of (9 ∷ []) [])
peer_ready-skips_example =
    peer_ready-skips chatter req (7 ∷ []) (9 ∷ []) []
      ((refl, omega arith), ((refl, omega arith), tt)) (omega arith)
