-- ===== src/Exchange/Direct.antt =====
-- `send` and `recv` of a socket whose type takes none of the ways for some types.
use libzmq_ru.Base.{
  ◌||◌, ℕ, ◌%◌, ◌^◌, ◌<◌, ◌≡◌, refl, ap, ◌∙◌, Bool, true, false, none, some, List, [], ◌∷◌, ◌==◌,
  arith,
}
use libzmq_ru.Context.Registry.{Registry, inproc_endpoint}
use libzmq_ru.Error.{ok}
use libzmq_ru.Exchange.{
  addressed, Exchange, InprocSocket, pattern_of, connected, push, apply_outgoing_routing_id,
  apply_reply_routing_id, after_send, after_recv,
}
use libzmq_ru.Exchange.Send.{
  send, after_command, after_fast, pushed_to, try_process_xsub_subscription_send,
  try_send_inproc_fast, fast_send, resolve_outboxes, send_to, push_each,
}
use libzmq_ru.Exchange.Recv.{
  received, leave_queue, is_noted, recv, try_recv_inproc_fast, record_recv_metadata, try_pop,
}
use libzmq_ru.Message.{Message, set_more, set_routing_id, len}
use libzmq_ru.Pattern.{
  PatternState, ready_to_send, ready_to_recv, ensure_can_send_for_pattern,
  ensure_can_recv_for_pattern, after_pattern_recv, set_pattern_state,
}
use libzmq_ru.SocketType.{
  xsub, pub_type, pair, push as push_type, channel, SocketType, type_eq, code_of, req, rep,
  can_send, can_recv,
}

-- A REQ socket that is connected to the endpoint `n`, and the REP socket that has bound it.
pub record IsRequester (r : Registry) (n : ℕ) (s : InprocSocket) : Type 0 where
  pub type : s.socket_type ≡ req
  pub place :
      (name : List ℕ) × (s.connected_endpoint ≡ some name) × (inproc_endpoint r name ≡ some n)
  pub no_conflate : s.conflate ≡ false
  pub id_fits : s.id < 2 ^ 32

pub record IsReplier (n : ℕ) (b : InprocSocket) : Type 0 where
  pub type : b.socket_type ≡ rep
  pub bound : b.bound_endpoint ≡ some n
  pub unconnected : b.connected_endpoint ≡ none
  pub no_outbox : b.direct_outbox ≡ none
  pub no_conflate : b.conflate ≡ false

-- The types that take none of the ways for other types.
abbrev pub Direct : SocketType → Type 0
Direct t =
    (type_eq t xsub ≡ false)
    × (type_eq t pub_type ≡ false)
    × (type_eq t pair || type_eq t push_type || type_eq t channel ≡ false)
    × (can_send t ≡ true)
    × (can_recv t ≡ true)

pub req-Direct : Direct req
unfolding type_eq code_of can_send can_recv
req-Direct = (refl, refl, refl, refl, refl)

pub rep-Direct : Direct rep
unfolding type_eq code_of can_send can_recv
rep-Direct = (refl, refl, refl, refl, refl)

no_command :
    (x : Exchange) (m : Message)
    → Direct x.socket.socket_type
    → try_process_xsub_subscription_send x m ≡ (x, false)
unfolding try_process_xsub_subscription_send
no_command x m h = rw (h.0, try_process_xsub_subscription_send) refl

no_fast :
    (x : Exchange) (m : Message)
    → Direct x.socket.socket_type
    → try_send_inproc_fast x m ≡ (x, some m)
unfolding try_send_inproc_fast fast_send
no_fast x m h = rw (h.1, try_send_inproc_fast, h.2) refl

pushed_once :
    (x : Exchange) (q : ℕ) (m : Message)
    → x.socket.conflate ≡ false
    → x.registry.heap.queues q ≡ []
    → push_each x (q ∷ []) m ≡ (push x q m, ok tt)
unfolding push_each
pushed_once x q m h empty = rw (h, empty) (ground arith)

sent_over :
    (x : Exchange) (m : Message) (size q : ℕ)
    → try_process_xsub_subscription_send x m ≡ (x, false)
    → try_send_inproc_fast x m ≡ (x, some m)
    → resolve_outboxes x m ≡ (x, ok (q ∷ []))
    → push_each x (q ∷ []) m ≡ (push x q m, ok tt)
    → after_command (try_process_xsub_subscription_send x m) m size
      ≡ after_send (push x q m) m.more size
unfolding after_command after_fast send_to pushed_to
sent_over x m size q h1 h2 h3 h4 = rw (h1, h2, h3, h4) refl

pub connection :
    (r : Registry) (n : ℕ) (s : InprocSocket)
    → IsRequester r n s
    → connected (record { registry = r; socket = s }) ≡ some n
unfolding connected
connection r n s h = let (name, at, found) = h.place in rw (at, found) refl

pub no_reply_id :
    (x : Exchange) (m : Message)
    → type_eq x.socket.socket_type rep ≡ false
    → apply_reply_routing_id x m ≡ m
unfolding apply_reply_routing_id
no_reply_id x m h = rw (h, apply_reply_routing_id) refl

pub routed_by_id :
    (x : Exchange) (m : Message) (n : ℕ)
    → connected x ≡ some n
    → addressed (x.registry.endpoints n).binder_type ≡ true
    → apply_outgoing_routing_id x m ≡ set_routing_id m (x.socket.id % 2 ^ 32)
unfolding apply_outgoing_routing_id
routed_by_id x m n at binder = rw (at, apply_outgoing_routing_id, binder) refl

pub req_is_not_rep : type_eq req rep ≡ false
unfolding type_eq code_of
req_is_not_rep = refl

pub rep_is_addressed : addressed rep ≡ true
unfolding type_eq code_of
rep_is_addressed = refl

pub send_direct :
    (x : Exchange) (m routed : Message) (more : Bool) (q : ℕ)
    → Direct x.socket.socket_type
    → ensure_can_send_for_pattern (pattern_of x.socket) ≡ ok tt
    → apply_outgoing_routing_id x (apply_reply_routing_id x (set_more m more)) ≡ routed
    → resolve_outboxes x routed ≡ (x, ok (q ∷ []))
    → x.socket.conflate ≡ false
    → x.registry.heap.queues q ≡ []
    → send x m more ≡ after_send (push x q routed) routed.more (len m)
unfolding send
send_direct x m routed more q direct turn route boxes flat empty =
    rw (direct.3, send, turn, route)
      (sent_over x routed (len m) q (no_command x routed direct) (no_fast x routed direct) boxes
        (pushed_once x q routed flat empty))

pop_noted :
    (x : Exchange) (m : Message) (ms : List Message)
    → x.registry.heap.queues x.socket.inbox ≡ m ∷ ms
    → is_noted x m ≡ true
    → try_recv_inproc_fast x ≡ (record_recv_metadata (leave_queue x ms) m, some m)
unfolding try_recv_inproc_fast try_pop
pop_noted x m ms queue noted = rw (queue, try_recv_inproc_fast, try_pop, noted) refl

recv_first :
    (x : Exchange) (m : Message) (ms : List Message)
    → Direct x.socket.socket_type
    → ensure_can_recv_for_pattern (pattern_of x.socket) ≡ ok tt
    → x.registry.heap.queues x.socket.inbox ≡ m ∷ ms
    → is_noted x m ≡ true
    → recv x ≡ after_recv (record_recv_metadata (leave_queue x ms) m) m
unfolding recv received
recv_first x m ms direct turn queue noted =
    rw (direct.4, recv, turn, pop_noted x m ms queue noted) refl

from_peer_is_noted :
    (x : Exchange) (m : Message) → (m.routing_id == 0) ≡ false → is_noted x m ≡ true
from_peer_is_noted x m h = ground (arith, h)

may_recv :
    (s : InprocSocket)
    → s.pattern_state ≡ some ready_to_recv
    → ensure_can_recv_for_pattern (pattern_of s) ≡ ok tt
unfolding ensure_can_recv_for_pattern
may_recv s turn = ground (arith, turn)

-- A socket that has received a message from the peer `id`.
abbrev pub heard_from : InprocSocket → ℕ → PatternState → InprocSocket
heard_from s id turn = record s {
  last_recv_more = false;
  last_recv_routing_id = some id;
  pattern_state = some turn;
}

-- The turn after the last part of a message: a REP socket may send, and so may a REQ socket.
received_turn :
    (x : Exchange) (m : Message)
    → type_eq x.socket.socket_type req || type_eq x.socket.socket_type rep ≡ true
    → x.socket.pattern_state ≡ some ready_to_recv
    → m.more ≡ false
    → after_recv x m
      ≡ (record x { socket = record x.socket { pattern_state = some ready_to_send } }, ok m)
unfolding after_recv after_pattern_recv set_pattern_state
received_turn x m h turn last = rw (h, after_recv, turn, last) refl

noted_metadata :
    (x : Exchange) (m : Message)
    → m.more ≡ false
    → (m.routing_id == 0) ≡ false
    → record_recv_metadata x m ≡ record x {
      socket = record x.socket { last_recv_more = false; last_recv_routing_id = some m.routing_id };
    }
unfolding record_recv_metadata
noted_metadata x m last from = rw (last, from, record_recv_metadata) refl

pub whole_received :
    (r : Registry) (s : InprocSocket) (m : Message)
    → Direct s.socket_type
    → type_eq s.socket_type req || type_eq s.socket_type rep ≡ true
    → s.pattern_state ≡ some ready_to_recv
    → r.heap.queues s.inbox ≡ m ∷ []
    → m.more ≡ false
    → (m.routing_id == 0) ≡ false
    → let x : Exchange = record { registry = r; socket = s } in
      recv x
      ≡ (record (leave_queue x []) { socket = heard_from s m.routing_id ready_to_send }, ok m)
whole_received r s m direct turns turn queue last from =
    let x : Exchange = record { registry = r; socket = s } in
    recv_first x m [] direct (may_recv s turn) queue (from_peer_is_noted x m from)
    ∙ ap (λ y. after_recv y m) (noted_metadata (leave_queue x []) m last from)
    ∙ received_turn _ m turns turn last

pub nowhere : (x : Exchange) → x.socket.connected_endpoint ≡ none → connected x ≡ none
unfolding connected
nowhere x h = rw (h, connected) refl

pub unrouted : (x : Exchange) (m : Message) → connected x ≡ none → apply_outgoing_routing_id x m ≡ m
unfolding apply_outgoing_routing_id
unrouted x m away = rw (away, apply_outgoing_routing_id) refl
