-- ===== src/Exchange/Recv.antt =====
-- `recv`, and what a socket notes of the messages that it receives.
use libzmq_ru.Base.{Bool, not, ◌||◌, Option, none, some, List, [], ◌∷◌, ◌==◌, if◌then◌else◌}
use libzmq_ru.Error.{Result, ok, err, again, not_supported}
use libzmq_ru.Exchange.{Exchange, pattern_of, after_recv}
use libzmq_ru.Message.{Message}
use libzmq_ru.Pattern.{ensure_can_recv_for_pattern}
use libzmq_ru.SocketType.{type_eq, can_recv, rep}

unfoldable pub record_recv_metadata : Exchange → Message → Exchange
record_recv_metadata x m = record x {
  socket = record x.socket {
    last_recv_more = m.more;
    last_recv_routing_id =
        if m.routing_id == 0 then x.socket.last_recv_routing_id else some m.routing_id;
  };
}

abbrev pub leave_queue : Exchange → List Message → Exchange
leave_queue x ms = record x {
  registry = record x.registry {
    heap = record x.registry.heap {
      queues = λ q. if x.socket.inbox == q then ms else x.registry.heap.queues q;
    };
  };
}

abbrev pub is_noted : Exchange → Message → Bool
is_noted x m =
    m.more || not (m.routing_id == 0) || x.socket.last_recv_more || type_eq x.socket.socket_type rep

unfoldable pub try_pop : Exchange → List Message → Exchange × Option Message
try_pop x [] = (x, none)
try_pop x (m ∷ ms) =
    let x' = leave_queue x ms in (if is_noted x m then record_recv_metadata x' m else x', some m)

unfoldable pub try_recv_inproc_fast : Exchange → Exchange × Option Message
unfolding try_pop
try_recv_inproc_fast x = try_pop x (x.registry.heap.queues x.socket.inbox)

-- Where the fast path finds no message, the look at the same queue at the end finds none either.
unfoldable pub received : Exchange × Option Message → Exchange × Result Message
received (x, none) = (x, err again)
received (x, some m) = after_recv x m

unfoldable pub recv : Exchange → Exchange × Result Message
unfolding received
recv x =
    if not (can_recv x.socket.socket_type)
    then (x, err not_supported)
    else elim (ensure_can_recv_for_pattern (pattern_of x.socket)) [
      | err e ↦ (x, err e)
      | ok _ ↦ received (try_recv_inproc_fast x)
    ]
