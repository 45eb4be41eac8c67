-- ===== src/Exchange/Polling.antt =====
-- A PUSH socket that looks at its events before each message that it sends.
use libzmq_ru.Exchange.Direct.{nowhere}
use libzmq_ru.Base.{
  ℕ, ◌%◌, ◌^◌, ◌<◌, ◌≡◌, refl, ap, ◌∙◌, true, false, none, some, List, [], ◌∷◌, ◌++◌, map, ◌==◌,
  if◌then◌else◌, arith,
}
use mathlib.Core.List.{append_assoc, append-nil}
use libzmq_ru.Context.Registry.{open_world}
use libzmq_ru.Error.{Result, ok}
use libzmq_ru.Exchange.{
  Exchange, on_endpoint, push, after_send, apply_outgoing_routing_id, apply_reply_routing_id,
}
use libzmq_ru.Exchange.Send.{
  listed, events, send, resolve_outboxes, own_outboxes, bound_outboxes, after_command, after_fast,
  try_process_xsub_subscription_send, try_send_inproc_fast, fast_send, fast_outbox,
}
use libzmq_ru.Inproc.{World, InprocPeer}
use libzmq_ru.Inproc.Dispatch.{next_peer}
use libzmq_ru.Message.{Message, new, set_more, len}
use libzmq_ru.Pattern.{ensure_can_send_for_pattern, after_pattern_send}
use libzmq_ru.SocketType.{type_eq, code_of, can_send, push as push_type}

-- A PUSH socket with the fast path, and an endpoint of two peers where it is the first one's turn.
pub record IsPolling (n : ℕ) (p q : InprocPeer) (x : Exchange) : Type 0 where
  pub type : x.socket.socket_type ≡ push_type
  pub bound : x.socket.bound_endpoint ≡ some n
  pub unconnected : x.socket.connected_endpoint ≡ none
  pub no_outbox : x.socket.direct_outbox ≡ none
  pub fast : x.socket.inproc_fast_send_enabled ≡ true
  pub peers : (x.registry.endpoints n).peers ≡ p ∷ q ∷ []
  pub turn : (x.registry.endpoints n).next_peer % 2 ≡ 0
  pub counter : (x.registry.endpoints n).next_peer < 2 ^ 64

-- The exchange once the endpoint's counter has moved.
abbrev advanced : Exchange → ℕ → Exchange
advanced x n = (on_endpoint x n next_peer).0

turn_box :
    (x : Exchange) (n : ℕ) (m : Message)
    → x.socket.socket_type ≡ push_type
    → bound_outboxes x n m ≡ (advanced x n, listed (on_endpoint x n next_peer).1)
unfolding bound_outboxes type_eq code_of
turn_box x n m type = ground (arith, type)

events_advance :
    (x : Exchange) (n : ℕ) (p q : InprocPeer) → IsPolling n p q x → (events x).0 ≡ advanced x n
unfolding events resolve_outboxes own_outboxes can_send
events_advance x n p q h =
    ground (arith, nowhere x h.unconnected, h.no_outbox, h.bound, h.type, turn_box x n new h.type)

-- The next turn is the second peer's when the counter is odd.
second_turn :
    (w : World) (p q : InprocPeer)
    → w.endpoint.peers ≡ p ∷ q ∷ []
    → w.endpoint.next_peer % 2 ≡ 1
    → (next_peer w).1 ≡ some q.inbox
unfolding next_peer
second_turn w p q peers odd = rw (peers, next_peer, odd) refl

send_second :
    (x : Exchange) (n : ℕ) (q : InprocPeer) (m : Message)
    → x.socket.socket_type ≡ push_type
    → x.socket.bound_endpoint ≡ some n
    → x.socket.connected_endpoint ≡ none
    → x.socket.direct_outbox ≡ none
    → x.socket.inproc_fast_send_enabled ≡ true
    → (next_peer (open_world x.registry n)).1 ≡ some q.inbox
    → send x m false ≡ (push (advanced x n) q.inbox (set_more m false), ok (len m))
unfolding send after_command after_fast try_process_xsub_subscription_send try_send_inproc_fast
    fast_send fast_outbox apply_outgoing_routing_id apply_reply_routing_id after_send
    ensure_can_send_for_pattern after_pattern_send type_eq code_of can_send set_more
send_second x n q m type bound away direct fast turn =
    ground (arith, nowhere x away, direct, bound, type, fast, turn)

-- One look at the events, and one message.
abbrev pub round : Exchange → Message → Exchange
round x m = (send (events x).0 m false).0

abbrev pub rounds : Exchange → List Message → Exchange
rounds x [] = x
rounds x (m ∷ ms) = rounds (round x m) ms

round_second :
    (x : Exchange) (n : ℕ) (p q : InprocPeer) (m : Message)
    → IsPolling n p q x
    → round x m ≡ push (advanced (advanced x n) n) q.inbox (set_more m false)
unfolding next_peer
round_second x n p q m h =
    let y = advanced x n in
    let odd : (next_peer (open_world y.registry n)).1 ≡ some q.inbox =
      second_turn (open_world y.registry n) p q (ground (arith, h.peers))
        (ground (arith, h.peers, h.turn, h.counter)) in
    ap (λ z. (send z m false).0) (events_advance x n p q h)
    ∙ (ap (λ (r : Exchange × Result ℕ). r.0)
        (send_second y n q m h.type h.bound h.unconnected h.no_outbox h.fast odd))

round-IsPolling :
    (x : Exchange) (n : ℕ) (p q : InprocPeer) (m : Message)
    → IsPolling n p q x
    → IsPolling n p q (push (advanced (advanced x n) n) q.inbox (set_more m false))
unfolding next_peer
round-IsPolling x n p q m h = record {
  type = h.type;
  bound = h.bound;
  unconnected = h.unconnected;
  no_outbox = h.no_outbox;
  fast = h.fast;
  peers = ground (arith, h.peers);
  turn = ground (arith, h.peers, h.turn, h.counter);
  counter = ground (arith, h.peers, h.counter);
}

round-queues :
    (x : Exchange) (n : ℕ) (q : InprocPeer) (m : Message) (k : ℕ)
    → (push (advanced (advanced x n) n) q.inbox (set_more m false)).registry.heap.queues k ≡ (
        if q.inbox == k
        then x.registry.heap.queues k ++ (set_more m false ∷ [])
        else x.registry.heap.queues k)
unfolding next_peer
round-queues x n q m k = ground arith

starved :
    (x : Exchange) (n : ℕ) (q : InprocPeer) (m : Message) (ms : List Message) (k : ℕ)
    → let old = x.registry.heap.queues k in
      let new =
        (push (advanced (advanced x n) n) q.inbox (set_more m false)).registry.heap.queues k in
      (if q.inbox == k then new ++ map (λ m. set_more m false) ms else new)
      ≡ (if q.inbox == k then old ++ map (λ m. set_more m false) (m ∷ ms) else old)
starved x n q m ms k = ground (
  arith,
  round-queues x n q m k,
  append_assoc (x.registry.heap.queues k) (set_more m false ∷ []) (map (λ m. set_more m false) ms),
)

-- A PUSH socket with two peers, where it is the first one's turn, that looks at its events before
-- each message, sends every message to the second peer: the look takes the first one's turn. The
-- fast path heeds no high water mark.
pub polled_push_starves :
    (ms : List Message) (x : Exchange) (n : ℕ) (p q : InprocPeer) (k : ℕ)
    → IsPolling n p q x
    → (rounds x ms).registry.heap.queues k ≡ (
        if q.inbox == k
        then x.registry.heap.queues k ++ map (λ m. set_more m false) ms
        else x.registry.heap.queues k)
polled_push_starves [] x n p q k h = ground (arith, append-nil (x.registry.heap.queues k))
polled_push_starves (m ∷ ms) x n p q k h =
    let y = push (advanced (advanced x n) n) q.inbox (set_more m false) in
    ap (λ z. (rounds z ms).registry.heap.queues k) (round_second x n p q m h)
    ∙ polled_push_starves ms y n p q k (round-IsPolling x n p q m h)
    ∙ starved x n q m ms k
