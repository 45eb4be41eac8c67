-- ===== src/Exchange.antt =====
-- `send` and `recv` of crates/libzmq-core/src/socket.rs, for a socket with inproc endpoints and no
-- network transport.
pub mod Send
pub mod Recv
pub mod Connection
pub mod Calls
pub mod Unbinding
pub mod Setup
pub mod Direct
pub mod Request
pub mod Reply
pub mod Dialogue
pub mod Polling
mod Examples
use libzmq_ru.Base.{
  ℕ, ◌%◌, ◌^◌, Bool, true, false, not, ◌||◌, ◌&&◌, Option, none, some, List, [], ◌∷◌, ◌++◌, ◌==◌,
  if◌then◌else◌,
}
use libzmq_ru.Context.Registry.{Registry, open_world, close_world, inproc_endpoint}
use libzmq_ru.Error.{Result, ok, err, ◌>>◌}
use libzmq_ru.Inproc.{World, Heap, push_queue}
use libzmq_ru.Message.{Message, set_routing_id}
use libzmq_ru.Pattern.{PatternSocket, PatternState, after_pattern_send, after_pattern_recv}
use libzmq_ru.SocketType.{SocketType, type_eq, router, rep, server, peer}

-- The fields of a socket that these calls read and write. Queues and subscriptions are cells of the
-- heap, a bound endpoint is a cell of the registry. `set_option` lets no negative `sndhwm` in.
pub record InprocSocket : Type 0 where
  pub id : ℕ
  pub socket_type : SocketType
  pub inbox : ℕ
  pub subscriptions : ℕ
  pub disconnect_msg : ℕ
  pub xpub_welcome : ℕ
  pub xpub_policy : ℕ
  pub direct_outbox : Option ℕ
  pub connected_endpoint : Option (List ℕ)
  pub bound_endpoint_name : Option (List ℕ)
  pub bound_endpoint : Option ℕ
  pub last_endpoint : List ℕ
  pub hello_msg : List ℕ
  pub probe_router : Bool
  pub sndhwm : ℕ
  pub conflate : Bool
  pub req_relaxed : Bool
  pub xpub_nodrop : Bool
  pub router_mandatory : Bool
  pub only_first_subscribe : Bool
  pub xsub_verbose_unsubscribe : Bool
  pub inproc_fast_send_enabled : Bool
  pub last_recv_more : Bool
  pub xsub_send_more : Bool
  pub xsub_process_subscribe : Bool
  pub last_recv_routing_id : Option ℕ
  pub pattern_state : Option PatternState

pub record Exchange : Type 0 where
  pub registry : Registry
  pub socket : InprocSocket

abbrev pub pattern_of : InprocSocket → PatternSocket
pattern_of s = record {
  socket_type = s.socket_type;
  req_relaxed = s.req_relaxed;
  pattern_state = s.pattern_state;
}

abbrev pub with_pattern : Exchange → PatternSocket → Exchange
with_pattern x p = record x { socket = record x.socket { pattern_state = p.pattern_state } }

-- The endpoint that the socket is connected to, if its name is bound.
unfoldable pub connected : Exchange → Option ℕ
connected x = elim x.socket.connected_endpoint [
  | none ↦ none
  | some name ↦ inproc_endpoint x.registry name
]

-- A call on an endpoint.
abbrev pub on_endpoint {ℓ} : {A : Type ℓ} → Exchange → ℕ → (World → World × A) → Exchange × A
on_endpoint x n call =
    let (w, a) = call (open_world x.registry n) in
    (record x { registry = close_world x.registry n w }, a)

-- `outbox.lock().push_back(message)`
abbrev pub push : Exchange → ℕ → Message → Exchange
push x q m = record x {
  registry = record x.registry {
    heap = record x.registry.heap { queues = push_queue x.registry.heap.queues q m };
  };
}

abbrev addressed : SocketType → Bool
addressed t = type_eq t router || type_eq t rep || type_eq t server || type_eq t peer

unfoldable pub apply_outgoing_routing_id : Exchange → Message → Message
apply_outgoing_routing_id x m = elim (connected x) [
  | none ↦ m
  | some n ↦
      if addressed (x.registry.endpoints n).binder_type
      then set_routing_id m (x.socket.id % 2 ^ 32)
      else m
]

unfoldable pub apply_reply_routing_id : Exchange → Message → Message
apply_reply_routing_id x m =
    if type_eq x.socket.socket_type rep && m.routing_id == 0
    then elim x.socket.last_recv_routing_id [ none ↦ m | some id ↦ set_routing_id m id ]
    else m

-- What `send` and `recv` do last.
unfoldable pub after_send : Exchange → Bool → ℕ → Exchange × Result ℕ
after_send x more size =
    let (p, r) = after_pattern_send (pattern_of x.socket) more in (with_pattern x p, r >> ok size)

unfoldable pub after_recv : Exchange → Message → Exchange × Result Message
after_recv x m =
    let (p, r) = after_pattern_recv (pattern_of x.socket) m.more in (with_pattern x p, r >> ok m)
