-- ===== src/Exchange/Connection.antt =====
-- `bind`, `unbind`, `connect` and `disconnect` of a socket for inproc endpoints, with what `connect`
-- sends first, and `disconnect_peer` and `peer_state`. The socket has no monitor. An endpoint of a
-- network transport is for the calls of that transport.
use libzmq_ru.Base.{
  take, drop, ℕ, Bool, false, not, ◌||◌, Option, none, some, List, [], ◌∷◌, is_empty, length, ltb,
  ◌==◌, bytes_eq, if◌then◌else◌,
}
use libzmq_ru.Constants.{zmq_pollout}
use libzmq_ru.Context.Registry.{
  Registry, InprocBinder, bind_inproc, unbind_inproc, connect_inproc, disconnect_inproc, open_world,
}
use libzmq_ru.Error.{Result, ok, err, invalid_argument, not_supported, again, host_unreachable}
use libzmq_ru.Exchange.{Exchange, InprocSocket, push, on_endpoint, apply_outgoing_routing_id}
use libzmq_ru.Exchange.Send.{resolve_outboxes}
use libzmq_ru.Inproc.{InprocPeer}
use libzmq_ru.Inproc.Dispatch.{peer_by_id}
use libzmq_ru.Inproc.Peers.{remove_peer}
use libzmq_ru.Message.{Message, new, from_vec}
use libzmq_ru.SocketType.{type_eq, dealer, router, server, peer}

abbrev pub inproc_scheme : List ℕ
inproc_scheme = b'i' ∷ b'n' ∷ b'p' ∷ b'r' ∷ b'o' ∷ b'c' ∷ b':' ∷ b'/' ∷ b'/' ∷ []

-- `endpoint.strip_prefix("inproc://")`
unfoldable pub inproc_name : List ℕ → Option (List ℕ)
inproc_name endpoint =
    if bytes_eq (take 9 endpoint) inproc_scheme then some (drop 9 endpoint) else none

abbrev pub binder_of : InprocSocket → InprocBinder
binder_of s = record {
  inbox = s.inbox;
  socket_type = s.socket_type;
  subscriptions = s.subscriptions;
  disconnect_msg = s.disconnect_msg;
  welcome = s.xpub_welcome;
  xpub_policy = s.xpub_policy;
}

abbrev pub peer_of : InprocSocket → InprocPeer
peer_of s = record {
  id = s.id;
  inbox = s.inbox;
  socket_type = s.socket_type;
  subscriptions = s.subscriptions;
}

-- The calls of the context, and what the socket makes of their results.
unfoldable pub bound :
    InprocSocket → (endpoint name : List ℕ) → Registry × Result ℕ → Exchange × Result (Unit {0})
bound s endpoint name (r, err e) = (record { registry = r; socket = s }, err e)
bound s endpoint name (r, ok n) = (
  record {
    registry = r;
    socket = record s {
      bound_endpoint_name = some name;
      bound_endpoint = some n;
      last_endpoint = endpoint;
    };
  },
  ok tt,
)

unfoldable pub bind : Exchange → List ℕ → Exchange × Result (Unit {0})
unfolding bound
bind x endpoint = elim (inproc_name endpoint) [
  | none ↦ (x, err not_supported)
  | some name ↦ bound x.socket endpoint name (bind_inproc x.registry name (binder_of x.socket))
]

abbrev pub is_name : Option (List ℕ) → List ℕ → Bool
is_name none name = false
is_name (some known) name = bytes_eq known name

unfoldable pub unbound : InprocSocket → Registry × Result ℕ → Exchange × Result (Unit {0})
unbound s (r, err e) = (record { registry = r; socket = s }, err e)
unbound s (r, ok n) = (
  record { registry = r; socket = record s { bound_endpoint_name = none; bound_endpoint = none } },
  ok tt,
)

unfoldable pub unbind : Exchange → List ℕ → Exchange × Result (Unit {0})
unfolding unbound
unbind x endpoint = elim (inproc_name endpoint) [
  | none ↦ (x, err not_supported)
  | some name ↦
      if not (is_name x.socket.bound_endpoint_name name)
      then (x, err invalid_argument)
      else unbound x.socket (unbind_inproc x.registry name)
]

abbrev pub push_to_all : Exchange → List ℕ → Message → Exchange
push_to_all x [] m = x
push_to_all x (q ∷ qs) m = push_to_all (push x q m) qs m

unfoldable pub probed : Exchange × Result (List ℕ) → Message → Exchange × Result (Unit {0})
probed (x, err e) m = (x, err e)
probed (x, ok qs) m = (push_to_all x qs m, ok tt)

unfoldable pub send_inproc_probe_router : Exchange → Exchange × Result (Unit {0})
unfolding probed
send_inproc_probe_router x =
    let probe = apply_outgoing_routing_id x new in
    if not (type_eq x.socket.socket_type dealer || type_eq x.socket.socket_type router)
      || not x.socket.probe_router
    then (x, ok tt)
    else probed (resolve_outboxes x probe) probe

unfoldable pub greeted : Exchange × Result (List ℕ) → Message → Exchange × Result (Unit {0})
greeted (x, err again) m = (x, ok tt)
greeted (x, err e) m = (x, err e)
greeted (x, ok qs) m = (push_to_all x qs m, ok tt)

unfoldable pub send_inproc_lifecycle_message : Exchange → List ℕ → Exchange × Result (Unit {0})
unfolding greeted
send_inproc_lifecycle_message x data_bytes =
    let message = apply_outgoing_routing_id x (from_vec data_bytes) in
    if is_empty data_bytes then (x, ok tt) else greeted (resolve_outboxes x message) message

unfoldable pub send_inproc_hello_message : Exchange → Exchange × Result (Unit {0})
unfolding send_inproc_lifecycle_message
send_inproc_hello_message x = send_inproc_lifecycle_message x x.socket.hello_msg

abbrev noted : List ℕ → Exchange × Result (Unit {0}) → Exchange × Result (Unit {0})
noted endpoint (x, err e) = (x, err e)
noted endpoint (x, ok done) =
    (record x { socket = record x.socket { last_endpoint = endpoint } }, ok tt)

abbrev then_hello : Exchange × Result (Unit {0}) → Exchange × Result (Unit {0})
then_hello (x, err e) = (x, err e)
then_hello (x, ok done) = send_inproc_hello_message x

abbrev pub binder_outbox : Registry → Option ℕ → Option ℕ
binder_outbox r none = none
binder_outbox r (some n) = some (r.endpoints n).binder_inbox

unfoldable pub joined :
    InprocSocket
    → (endpoint name : List ℕ) → Registry × Result (Option ℕ)
    → Exchange × Result (Unit {0})
unfolding send_inproc_probe_router send_inproc_hello_message
joined s endpoint name (r, err e) = (record { registry = r; socket = s }, err e)
joined s endpoint name (r, ok found) =
    let outbox = binder_outbox r found in
    noted endpoint (
      then_hello (
        send_inproc_probe_router (record {
          registry = r;
          socket = record s { connected_endpoint = some name; direct_outbox = outbox };
        })))

unfoldable pub connect : Exchange → List ℕ → Exchange × Result (Unit {0})
unfolding joined
connect x endpoint = elim (inproc_name endpoint) [
  | none ↦ (x, err not_supported)
  | some name ↦ joined x.socket endpoint name (connect_inproc x.registry name (peer_of x.socket))
]

unfoldable pub parted : InprocSocket → Registry × Result (Unit {0}) → Exchange × Result (Unit {0})
parted s (r, err e) = (record { registry = r; socket = s }, err e)
parted s (r, ok done) = (
  record { registry = r; socket = record s { connected_endpoint = none; direct_outbox = none } },
  ok tt,
)

unfoldable pub disconnect : Exchange → List ℕ → Exchange × Result (Unit {0})
unfolding parted
disconnect x endpoint = elim (inproc_name endpoint) [
  | none ↦ (x, err not_supported)
  | some name ↦
      if not (is_name x.socket.connected_endpoint name)
      then (x, err invalid_argument)
      else parted x.socket (disconnect_inproc x.registry name x.socket.id)
]

unfoldable pub disconnect_peer : Exchange → ℕ → Exchange × Result (Unit {0})
disconnect_peer x routing_id =
    if not (type_eq x.socket.socket_type server || type_eq x.socket.socket_type peer)
    then (x, err not_supported)
    else elim x.socket.bound_endpoint [
      | none ↦ (x, err host_unreachable)
      | some n ↦
          (let (x', removed) = on_endpoint x n (λ w. remove_peer w routing_id false) in
            (x', if removed then ok tt else err host_unreachable))
    ]

unfoldable pub peer_state : Exchange → ℕ → Result ℕ
peer_state x routing_id =
    if not (type_eq x.socket.socket_type router)
    then err not_supported
    else elim x.socket.bound_endpoint [
      | none ↦ err host_unreachable
      | some n ↦ elim (peer_by_id (open_world x.registry n) routing_id) [
        | none ↦ err host_unreachable
        | some outbox ↦
            if x.socket.sndhwm == 0 || ltb (length (x.registry.heap.queues outbox)) x.socket.sndhwm
            then ok zmq_pollout
            else ok 0
      ]
    ]
