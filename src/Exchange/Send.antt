-- ===== src/Exchange/Send.antt =====
-- `send`: subscriptions that an XSUB socket sends, the fast path, and the outboxes of a message.
use libzmq_ru.Base.{
  is_empty, ℕ, Bool, true, false, not, ◌||◌, ◌&&◌, Option, none, some, List, [], ◌∷◌, length, leb,
  ltb, ◌==◌, if◌then◌else◌,
}
use libzmq_ru.Context.Registry.{open_world}
use libzmq_ru.Error.{Result, ok, err, again, not_supported, host_unreachable}
use libzmq_ru.Exchange.{
  Exchange, InprocSocket, pattern_of, connected, on_endpoint, push, apply_outgoing_routing_id,
  apply_reply_routing_id, after_send,
}
use libzmq_ru.Inproc.{binder_accepts}
use libzmq_ru.Inproc.Dispatch.{
  first_peer, next_peer, peer_by_id, matching_peers, send_owned_to_matching_peers,
}
use libzmq_ru.Message.{new, Message, data_of, len, set_more}
use libzmq_ru.Pattern.{ensure_can_send_for_pattern}
use libzmq_ru.SocketType.{
  can_recv, SocketType, type_eq, can_send, pub_type, xpub, xsub, pair, push as push_type, channel,
  radio, router, server, peer, rep, scatter,
}
use libzmq_ru.Subscriber.{SubscriberSocket, subscribe_in, unsubscribe_in}

abbrev subscriber_of : InprocSocket → SubscriberSocket
subscriber_of s = record {
  id = s.id;
  socket_type = s.socket_type;
  xpub_manual = false;
  xsub_verbose_unsubscribe = s.xsub_verbose_unsubscribe;
  subscriptions = s.subscriptions;
  bound_endpoint = s.bound_endpoint;
  connected_endpoint = s.connected_endpoint;
}

-- The flags of an XSUB socket once it has looked at a part of a message.
abbrev note_part : Exchange → Bool → Exchange
note_part x more =
    let process =
      if x.socket.xsub_send_more
      then x.socket.xsub_process_subscribe
      else not x.socket.only_first_subscribe in
    record x {
      socket = record x.socket { xsub_send_more = more; xsub_process_subscribe = process };
    }

abbrev process_next : Exchange → Exchange
process_next x = record x { socket = record x.socket { xsub_process_subscribe = true } }

-- A message of an XSUB socket as a command: 1 subscribes to the rest, 0 unsubscribes.
unfoldable pub xsub_command : Exchange → ℕ → List ℕ → Exchange × Bool
xsub_command x n [] = (x, false)
xsub_command x n (command ∷ prefix) =
    let x' = process_next x in
    if command == 1
    then on_endpoint x' n (λ w. (subscribe_in w (subscriber_of x.socket) prefix, true))
    else if command == 0
    then on_endpoint x' n (λ w. (unsubscribe_in w (subscriber_of x.socket) prefix, true))
    else (x, false)

unfoldable pub xsub_part : Exchange → ℕ → Message → Exchange × Bool
unfolding xsub_command
xsub_part x n m =
    let should_process = not x.socket.xsub_send_more || x.socket.xsub_process_subscribe in
    let x' = note_part x m.more in
    if x.socket.only_first_subscribe || not should_process
    then (x', false)
    else xsub_command x' n (data_of m)

-- Whether the message was taken as a subscription.
unfoldable pub try_process_xsub_subscription_send : Exchange → Message → Exchange × Bool
unfolding xsub_part
try_process_xsub_subscription_send x m =
    if not (type_eq x.socket.socket_type xsub) then (x, false) else elim (connected x) [
      | none ↦ (x, false)
      | some n ↦
          if type_eq (x.registry.endpoints n).binder_type xpub then xsub_part x n m else (x, false)
    ]

-- The outbox of the fast path.
unfoldable pub fast_outbox : Exchange → Exchange × Option ℕ
fast_outbox x = elim x.socket.direct_outbox [
  | some q ↦ (x, some q)
  | none ↦ elim x.socket.bound_endpoint [
    | none ↦ (x, none)
    | some n ↦
        if type_eq x.socket.socket_type push_type
        then on_endpoint x n next_peer
        else (x, first_peer (open_world x.registry n))
  ]
]

abbrev push_if : Exchange × Option ℕ → Message → Exchange × Option Message
push_if (x, none) m = (x, some m)
push_if (x, some q) m = (push x q m, none)

unfoldable pub fast_send : Exchange → Message → Exchange × Option Message
unfolding fast_outbox
fast_send x m =
    if not (
        type_eq x.socket.socket_type pair
        || type_eq x.socket.socket_type push_type
        || type_eq x.socket.socket_type channel)
      || not x.socket.inproc_fast_send_enabled
    then (x, some m)
    else push_if (fast_outbox x) m

-- The message, if it was not sent.
unfoldable pub try_send_inproc_fast : Exchange → Message → Exchange × Option Message
unfolding fast_send
try_send_inproc_fast x m =
    if type_eq x.socket.socket_type pub_type
    then elim x.socket.bound_endpoint [
      | some n ↦
          (let (x', sent) = on_endpoint x n (λ w. send_owned_to_matching_peers w m) in (x', none))
      | none ↦ (x, some m)
    ]
    else fast_send x m

abbrev pub listed : Option ℕ → List ℕ
listed none = []
listed (some q) = q ∷ []

abbrev replies_by_id : SocketType → Bool
replies_by_id t = type_eq t router || type_eq t server || type_eq t peer || type_eq t rep

-- The outboxes at an endpoint that the socket has bound.
unfoldable pub bound_outboxes : Exchange → ℕ → Message → Exchange × List ℕ
bound_outboxes x n m =
    let t = x.socket.socket_type in
    let w = open_world x.registry n in
    if type_eq t pub_type || type_eq t xpub || type_eq t radio
    then on_endpoint x n (λ w. matching_peers w m)
    else if replies_by_id t && not (m.routing_id == 0)
    then (x, listed (peer_by_id w m.routing_id))
    else if type_eq t server || type_eq t peer
    then (x, [])
    else if type_eq t push_type || type_eq t scatter
    then (let (x', q) = on_endpoint x n next_peer in (x', listed q))
    else (x, listed (first_peer w))

unfoldable pub own_outboxes : Exchange → Message → Exchange × Result (List ℕ)
unfolding bound_outboxes
own_outboxes x m = elim x.socket.direct_outbox [
  | some q ↦ (x, ok (q ∷ []))
  | none ↦ elim x.socket.bound_endpoint [
    | none ↦ (x, err again)
    | some n ↦ (let (x', qs) = bound_outboxes x n m in (x', ok qs))
  ]
]

unfoldable pub resolve_outboxes : Exchange → Message → Exchange × Result (List ℕ)
unfolding own_outboxes
resolve_outboxes x m = elim (connected x) [
  | some n ↦
      (let w = open_world x.registry n in
        (x, ok (if binder_accepts w m then w.endpoint.binder_inbox ∷ [] else [])))
  | none ↦ own_outboxes x m
]

abbrev pub clear : Exchange → ℕ → Exchange
clear x q = record x {
  registry = record x.registry {
    heap = record x.registry.heap { queues = λ k. if q == k then [] else x.registry.heap.queues k };
  };
}

abbrev pub is_full : Exchange → ℕ → Bool
is_full x q = ltb 0 x.socket.sndhwm && leb x.socket.sndhwm (length (x.registry.heap.queues q))

-- The loop over the outboxes, which ends at the first one that is full.
unfoldable pub push_each : Exchange → List ℕ → Message → Exchange × Result (Unit {0})
push_each x [] m = (x, ok tt)
push_each x (q ∷ qs) m =
    let cleared = push_each (push (clear x q) q m) qs m in
    let pushed = push_each (push x q m) qs m in
    if x.socket.conflate then cleared else if is_full x q then (x, err again) else pushed

-- Nobody takes the message.
unfoldable pub send_to_nobody : Exchange → Message → ℕ → Exchange × Result ℕ
send_to_nobody x m size =
    let t = x.socket.socket_type in
    if type_eq t pub_type || type_eq t xpub || type_eq t radio
    then (if type_eq t xpub && x.socket.xpub_nodrop
        then (x, err again)
        else after_send x m.more size)
    else if type_eq t router && not (m.routing_id == 0) && x.socket.router_mandatory
    then (x, err host_unreachable)
    else if (type_eq t server || type_eq t peer) && not (m.routing_id == 0)
    then (x, err host_unreachable)
    else (x, err again)

unfoldable pub pushed_to : Exchange × Result (Unit {0}) → Bool → ℕ → Exchange × Result ℕ
pushed_to (x, err e) more size = (x, err e)
pushed_to (x, ok done) more size = after_send x more size

unfoldable pub send_to : Exchange × Result (List ℕ) → Message → ℕ → Exchange × Result ℕ
unfolding send_to_nobody pushed_to
send_to (x, err e) m size = (x, err e)
send_to (x, ok []) m size = send_to_nobody x m size
send_to (x, ok (q ∷ qs)) m size = pushed_to (push_each x (q ∷ qs) m) m.more size

-- The rest of `send`, by what the steps before it return.
unfoldable pub after_fast : Exchange × Option Message → Bool → ℕ → Exchange × Result ℕ
unfolding send_to
after_fast (x, none) more size = after_send x more size
after_fast (x, some m) more size = send_to (resolve_outboxes x m) m size

unfoldable pub after_command : Exchange × Bool → Message → ℕ → Exchange × Result ℕ
unfolding after_fast
after_command (x, true) m size = after_send x m.more size
after_command (x, false) m size = after_fast (try_send_inproc_fast x m) m.more size

-- `more` is the flag ZMQ_SNDMORE.
unfoldable pub send : Exchange → Message → (more : Bool) → Exchange × Result ℕ
unfolding after_command
send x m more =
    let routed = apply_outgoing_routing_id x (apply_reply_routing_id x (set_more m more)) in
    if not (can_send x.socket.socket_type)
    then (x, err not_supported)
    else elim (ensure_can_send_for_pattern (pattern_of x.socket)) [
      | err e ↦ (x, err e)
      | ok _ ↦ after_command (try_process_xsub_subscription_send x routed) routed (len m)
    ]

-- `events`: the flags ZMQ_POLLIN and ZMQ_POLLOUT. The look at the outboxes is the one of `send`.
unfoldable pub events : Exchange → Exchange × (Bool × Bool)
events x =
    let input =
      can_recv x.socket.socket_type && not (is_empty (x.registry.heap.queues x.socket.inbox)) in
    let (x', outboxes) = resolve_outboxes x new in
    if can_send x.socket.socket_type
    then elim outboxes [ err e ↦ (x', (input, false)) | ok qs ↦ (x', (input, true)) ]
    else (x, (input, false))
