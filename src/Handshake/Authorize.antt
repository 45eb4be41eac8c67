-- ===== src/Handshake/Authorize.antt =====
-- How a server decides whether a client may connect (`authorize_plain`, `authorize_curve`,
-- `authorize_gssapi` and the ZAP dialogue) of crates/libzmq-core/src/socket.rs. Other threads run
-- while a call waits for the reply: what they do to the registry, and what each look at the inbox
-- finds before the second is over, is the parameter `others`.
pub mod Asking
pub mod Dialogue
use libzmq_ru.Base.{
  ℕ, ◌-◌, ◌%◌, ◌^◌, Bool, true, false, not, Option, none, some, List, [], ◌∷◌, ◌++◌, length, ◌==◌,
  if◌then◌else◌,
}
use libzmq_ru.Context.{ContextLife, next_transient_socket_id}
use libzmq_ru.Context.Options.Decimal.{digits}
use libzmq_ru.Context.Registry.{
  Registry, connect_inproc, disconnect_inproc, inproc_endpoint, open_world, close_world,
}
use libzmq_ru.Error.{Result, ok, err, invalid_argument, again, ◌>>=◌}
use libzmq_ru.Inproc.{InprocPeer, World, push_to}
use libzmq_ru.Message.{Message, from_vec, data_of, set_more, set_routing_id}
use libzmq_ru.Security.{SecurityOptions, PlainCredentials}
use libzmq_ru.Security
use libzmq_ru.SocketType.{req}
use libzmq_ru.Zap.{ZapReply, new_request, encode_request, decode_reply}

pub record Context : Type 0 where
  pub life : ContextLife
  pub registry : Registry

abbrev pub Others : Type 0
Others = Registry → Registry × List (Option Message)

-- "zeromq.zap.01"
abbrev pub zap_endpoint : List ℕ
zap_endpoint =
    b'z' ∷ b'e' ∷ b'r' ∷ b'o' ∷ b'm' ∷ b'q' ∷ b'.' ∷ b'z' ∷ b'a' ∷ b'p' ∷ b'.' ∷ b'0' ∷ b'1' ∷ []

-- The frames of a request as messages: all but the last say that more follow.
unfoldable pub zap_messages : (peer_id : ℕ) → List (List ℕ) → List Message
zap_messages peer_id [] = []
zap_messages peer_id (frame ∷ []) =
    set_more (set_routing_id (from_vec frame) (peer_id % 2 ^ 32)) false ∷ []
zap_messages peer_id (frame ∷ next ∷ rest) =
    set_more (set_routing_id (from_vec frame) (peer_id % 2 ^ 32)) true
    ∷ zap_messages peer_id (next ∷ rest)

abbrev pub push_all : World → ℕ → List Message → World
push_all w q [] = w
push_all w q (m ∷ ms) = push_all (push_to w q m) q ms

unfoldable pub send_zap_request : World → (peer_id : ℕ) → List (List ℕ) → World
send_zap_request w peer_id frames = push_all w w.endpoint.binder_inbox (zap_messages peer_id frames)

-- The loop over the looks at the inbox, with the frames found so far.
unfoldable pub wait_loop : List (Option Message) → List (List ℕ) → Result ZapReply
wait_loop [] frames = err again
wait_loop (none ∷ looks) frames = wait_loop looks frames
wait_loop (some m ∷ looks) frames =
    if m.more
    then wait_loop looks (frames ++ (data_of m ∷ []))
    else decode_reply (frames ++ (data_of m ∷ []))

unfoldable pub wait_zap_reply : List (Option Message) → Result ZapReply
wait_zap_reply looks = wait_loop looks []

abbrev pub starts_with_2 : List ℕ → Bool
starts_with_2 [] = false
starts_with_2 (x ∷ xs) = x == b'2'

unfoldable pub accept_reply : ZapReply → Result (Unit {0})
accept_reply reply = if starts_with_2 reply.status_code then ok tt else err invalid_argument

-- The client's part of the endpoint that the call makes for itself: the cells that it allocates.
pub record Cells : Type 0 where
  pub inbox : ℕ
  pub subscriptions : ℕ

-- The dialogue once the call has its place at the endpoint.
unfoldable pub zap_dialogue :
    Others → Registry → (n peer_id : ℕ) → List (List ℕ) → Registry × Result (Unit {0})
zap_dialogue others r n peer_id frames =
    let asked = close_world r n (send_zap_request (open_world r n) peer_id frames) in
    let (answered, looks) = others asked in
    let (left, gone) = disconnect_inproc answered zap_endpoint peer_id in
    (left, wait_zap_reply looks >>= accept_reply)

-- The request of a mechanism with its credentials; the three calls differ in these only.
unfoldable pub via_zap :
    Others
    → Cells
    → Context
    → SecurityOptions
    → (mechanism : List ℕ) (credentials : List (List ℕ)) → Context × Result (Unit {0})
unfolding zap_dialogue
via_zap others cells context security mechanism credentials =
    let (life, peer_id) = next_transient_socket_id context.life in
    let frames =
      encode_request
        (new_request (digits 19 peer_id) security.zap_domain [] [] mechanism credentials) in
    let (connected, place) = connect_inproc context.registry zap_endpoint (record {
      id = peer_id;
      inbox = cells.inbox;
      socket_type = req;
      subscriptions = cells.subscriptions;
    }) in
    elim place [
      | err e ↦ (record { life = life; registry = connected }, err e)
      | ok none ↦ (record { life = life; registry = connected }, err again)
      | ok (some n) ↦
          (let (left, decided) = zap_dialogue others connected n peer_id frames in
            (record { life = life; registry = left }, decided))
    ]

-- "PLAIN"
unfoldable pub authorize_plain_via_zap :
    Others → Cells → Context → SecurityOptions → PlainCredentials → Context × Result (Unit {0})
unfolding via_zap
authorize_plain_via_zap others cells context security credentials =
    via_zap others cells context security (b'P' ∷ b'L' ∷ b'A' ∷ b'I' ∷ b'N' ∷ [])
      (credentials.username ∷ credentials.password ∷ [])

-- "CURVE"
unfoldable pub authorize_curve_via_zap :
    Others → Cells → Context → SecurityOptions → (public_key : List ℕ) → Context × Result (Unit {0})
unfolding via_zap
authorize_curve_via_zap others cells context security public_key =
    via_zap others cells context security (b'C' ∷ b'U' ∷ b'R' ∷ b'V' ∷ b'E' ∷ []) (public_key ∷ [])

-- "GSSAPI"
unfoldable pub authorize_gssapi_via_zap :
    Others → Cells → Context → SecurityOptions → (principal : List ℕ) → Context × Result (Unit {0})
unfolding via_zap
authorize_gssapi_via_zap others cells context security principal =
    via_zap others cells context security (b'G' ∷ b'S' ∷ b'S' ∷ b'A' ∷ b'P' ∷ b'I' ∷ [])
      (principal ∷ [])

-- The options decide where no endpoint is bound under the name.
unfoldable pub authorize_plain :
    Others → Cells → Context → SecurityOptions → PlainCredentials → Context × Result (Unit {0})
authorize_plain others cells context security credentials =
    elim (inproc_endpoint context.registry zap_endpoint) [
      | some n ↦ authorize_plain_via_zap others cells context security credentials
      | none ↦ (context, Security.authorize_plain security credentials)
    ]

unfoldable pub authorize_curve :
    Others → Cells → Context → SecurityOptions → (public_key : List ℕ) → Context × Result (Unit {0})
authorize_curve others cells context security public_key =
    elim (inproc_endpoint context.registry zap_endpoint) [
      | some n ↦ authorize_curve_via_zap others cells context security public_key
      | none ↦ (context, Security.authorize_curve security public_key)
    ]

unfoldable pub authorize_gssapi :
    Others → Cells → Context → SecurityOptions → (principal : List ℕ) → Context × Result (Unit {0})
authorize_gssapi others cells context security principal =
    elim (inproc_endpoint context.registry zap_endpoint) [
      | some n ↦ authorize_gssapi_via_zap others cells context security principal
      | none ↦ (context, Security.authorize_gssapi security principal)
    ]
