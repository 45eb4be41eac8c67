-- ===== src/Exchange/Examples.antt =====
-- Sockets at one inproc endpoint, and the theorems at them.
use libzmq_ru.Exchange.Connection.{inproc_scheme, bind, unbind, connect}
use libzmq_ru.Inproc.Dispatch.{matching_peers}
use libzmq_ru.Base.{
  ℕ, ◌≡◌, ◌%◌, ◌^◌, ◌<◌, refl, Bool, true, false, Option, some, none, List, [], ◌∷◌, ◌++◌, map,
  ◌==◌, if◌then◌else◌, arith,
}
use libzmq_ru.Context.Registry.{Registry, inproc_endpoint}
use libzmq_ru.Error.{invalid_argument, err, again}
use libzmq_ru.Exchange.{
  connected, apply_outgoing_routing_id, apply_reply_routing_id, Exchange, InprocSocket,
}
use libzmq_ru.Exchange.Direct.{IsRequester, IsReplier}
use libzmq_ru.Exchange.Reply.{Answered, request-Answered}
use libzmq_ru.Exchange.Setup.{IsNewRequester, IsNewReplier}
use libzmq_ru.Exchange.Dialogue.{NewSocketsAnswered, new_sockets-Answered}
use libzmq_ru.Exchange.Unbinding.{Unbound, unbind-bind}
use libzmq_ru.Exchange.Polling.{IsPolling, rounds, polled_push_starves}
use libzmq_ru.Exchange.Send.{
  try_process_xsub_subscription_send, try_send_inproc_fast, resolve_outboxes, push_each, send,
}
use libzmq_ru.Inproc.{
  policy_of, peer_accepts, socket_type_accepts_message, Heap, InprocPeer, InprocEndpoint,
}
use libzmq_ru.Message.{Message, from_vec, set_more}
use libzmq_ru.Pattern.{ensure_can_send_for_pattern, PatternState, ready_to_send, ready_to_recv}
use libzmq_ru.SocketType.{dealer, can_send, type_eq, SocketType, req, rep, push, pull, xpub, sub}
use libzmq_ru.Subscriptions.{matches_prefix_of, SubscriptionState, default_state}

abbrev name : List ℕ
name = b'a' ∷ []

abbrev socket :
    SocketType
    → (id inbox : ℕ) → (connected : Option (List ℕ)) → (bound : Option ℕ) → Option PatternState
    → InprocSocket
socket t id inbox connected bound turn = record {
  id = id;
  socket_type = t;
  inbox = inbox;
  subscriptions = id;
  disconnect_msg = id;
  xpub_welcome = id;
  xpub_policy = id;
  direct_outbox = none;
  connected_endpoint = connected;
  bound_endpoint_name = none;
  bound_endpoint = bound;
  last_endpoint = [];
  hello_msg = [];
  probe_router = false;
  sndhwm = 1000;
  conflate = false;
  req_relaxed = false;
  xpub_nodrop = false;
  router_mandatory = false;
  only_first_subscribe = false;
  xsub_verbose_unsubscribe = false;
  inproc_fast_send_enabled = true;
  last_recv_more = false;
  xsub_send_more = false;
  xsub_process_subscribe = false;
  last_recv_routing_id = none;
  pattern_state = turn;
}

abbrev heap : Heap
heap = record {
  queues = λ k. [];
  subscriptions = λ k. default_state;
  disconnect_msgs = λ k. [];
  welcomes = λ k. none;
  policies = λ k. record {
    verbose_subscribe = false;
    verbose_unsubscribe = false;
    manual = false;
    manual_last_value = false;
  };
}

abbrev peer : SocketType → ℕ → InprocPeer
peer t id = record { id = id; inbox = id; socket_type = t; subscriptions = id }

abbrev endpoint : SocketType → List InprocPeer → InprocEndpoint
endpoint t peers = record {
  binder_inbox = 0;
  binder_type = t;
  binder_subscriptions = 0;
  binder_disconnect_msg = 0;
  binder_welcome = 0;
  binder_xpub_policy = 0;
  xpub_peer_topics = [];
  xpub_manual_topics = [];
  xpub_last_peer = none;
  peers = peers;
  next_peer = 0;
}

abbrev registry : InprocEndpoint → Registry
registry e = record {
  heap = heap;
  endpoints = λ k. e;
  allocated = 1;
  inproc_endpoints = (name, 0) ∷ [];
  pending_inproc = [];
}

abbrev service : Registry
service = registry (endpoint rep (peer req 5 ∷ []))

abbrev requester : InprocSocket
requester = socket req 5 5 (some name) none (some ready_to_send)

abbrev replier : InprocSocket
replier = socket rep 0 0 none (some 0) (some ready_to_recv)

requester-IsRequester : IsRequester service 0 requester
unfolding inproc_endpoint libzmq_ru.Base.Maps.get libzmq_ru.Base.bytes_eq
requester-IsRequester = record {
  type = refl;
  place = (name, refl, refl);
  no_conflate = refl;
  id_fits = omega arith;
}

replier-IsReplier : IsReplier 0 replier
replier-IsReplier = record {
  type = refl;
  bound = refl;
  unconnected = refl;
  no_outbox = refl;
  no_conflate = refl;
}

request-Answered_example :
    Answered service 0 requester replier (from_vec (b'q' ∷ [])) (from_vec (b'r' ∷ b's' ∷ []))
unfolding libzmq_ru.Base.find from_vec
request-Answered_example =
    request-Answered service 0 requester replier (from_vec (b'q' ∷ []))
      (from_vec (b'r' ∷ b's' ∷ [])) (peer req 5) requester-IsRequester replier-IsReplier refl refl
      refl refl refl refl refl refl refl refl refl

abbrev pipeline : Exchange
pipeline = record {
  registry = registry (endpoint push (peer pull 1 ∷ peer pull 2 ∷ []));
  socket = socket push 0 0 none (some 0) none;
}

pipeline-IsPolling : IsPolling 0 (peer pull 1) (peer pull 2) pipeline
pipeline-IsPolling = record {
  type = refl;
  bound = refl;
  unconnected = refl;
  no_outbox = refl;
  fast = refl;
  peers = refl;
  turn = refl;
  counter = omega arith;
}

abbrev jobs : List Message
jobs = from_vec (1 ∷ []) ∷ from_vec (2 ∷ []) ∷ from_vec (3 ∷ []) ∷ []

polled_push_starves_example : (rounds pipeline jobs).registry.heap.queues 1 ≡ []
polled_push_starves_example =
    polled_push_starves jobs pipeline 0 (peer pull 1) (peer pull 2) 1 pipeline-IsPolling

abbrev everything : SubscriptionState
everything = record {
  prefixes = [] ∷ [];
  exact = ([], 1) ∷ [];
  first_bytes = λ b. false;
  lengths = 0 ∷ [];
  has_empty = true;
}

-- Two peers of an XPUB socket that take every message, the second one's queue being full: the call
-- fails, and the first peer has the message.
abbrev feed : Exchange
feed = record {
  registry = record (registry (endpoint xpub (peer sub 1 ∷ peer sub 2 ∷ []))) {
    heap = record heap {
      queues = λ k. if k == 2 then from_vec (7 ∷ []) ∷ [] else [];
      subscriptions = λ k. everything;
    };
  };
  socket = record (socket xpub 0 0 none (some 0) none) { sndhwm = 1 };
}

half_sent :
    ((send feed (from_vec (9 ∷ [])) false).1 ≡ err again)
    × ((send feed (from_vec (9 ∷ [])) false).0.registry.heap.queues 1 ≡ from_vec (9 ∷ []) ∷ [])
unfolding send can_send ensure_can_send_for_pattern type_eq try_process_xsub_subscription_send
    try_send_inproc_fast resolve_outboxes connected matching_peers policy_of peer_accepts
    socket_type_accepts_message matches_prefix_of push_each from_vec apply_outgoing_routing_id
    apply_reply_routing_id set_more
half_sent = (refl, refl)

-- Two new sockets in a context without names.
abbrev empty : Registry
empty = record (registry (endpoint rep [])) { allocated = 0; inproc_endpoints = [] }

abbrev new_replier : InprocSocket
new_replier = socket rep 1 1 none none (some ready_to_recv)

abbrev new_requester : InprocSocket
new_requester = socket req 2 2 none none (some ready_to_send)

new_replier-IsNewReplier : IsNewReplier new_replier
new_replier-IsNewReplier = record {
  type = refl;
  unconnected = refl;
  no_outbox = refl;
  no_conflate = refl;
}

new_requester-IsNewRequester : IsNewRequester new_requester
new_requester-IsNewRequester = record {
  type = refl;
  no_hello = refl;
  no_conflate = refl;
  id_fits = omega arith;
}

new_sockets-Answered_example :
    NewSocketsAnswered empty new_replier new_requester name (from_vec (b'q' ∷ [])) (from_vec [])
unfolding libzmq_ru.Base.Maps.get from_vec
new_sockets-Answered_example =
    new_sockets-Answered empty new_replier new_requester name (from_vec (b'q' ∷ [])) (from_vec [])
      new_replier-IsNewReplier new_requester-IsNewRequester refl refl refl refl refl refl refl refl
      refl

unbind-bind_example : Unbound empty new_replier (inproc_scheme ++ name)
unfolding libzmq_ru.Base.Maps.get
unbind-bind_example = unbind-bind empty new_replier name refl refl

-- A DEALER socket with ZMQ_PROBE_ROUTER that connects to a name before it is bound: the call fails,
-- and the socket waits for the name all the same.
abbrev prober : Exchange
prober = record {
  registry = empty;
  socket = record (socket dealer 3 3 none none none) { probe_router = true };
}

probe_fails :
    ((connect prober (inproc_scheme ++ name)).1 ≡ err again)
    × ((connect prober (inproc_scheme ++ name)).0.registry.pending_inproc
        ≡ (name, peer dealer 3 ∷ []) ∷ [])
unfolding connect libzmq_ru.Exchange.Connection.inproc_name libzmq_ru.Base.bytes_eq
    libzmq_ru.Context.Registry.connect_inproc libzmq_ru.Base.Maps.get type_eq resolve_outboxes
    connected inproc_endpoint libzmq_ru.Base.Maps.insert
probe_fails = (refl, refl)

-- A socket that binds two names can no longer unbind the first.
abbrev twice : Exchange
twice =
    (bind (bind (record { registry = empty; socket = new_replier }) (inproc_scheme ++ name)).0
      (inproc_scheme ++ (b'b' ∷ []))).0

first_name_stays : (unbind twice (inproc_scheme ++ name)).1 ≡ err invalid_argument
unfolding unbind libzmq_ru.Exchange.Connection.inproc_name libzmq_ru.Base.bytes_eq bind
    libzmq_ru.Context.Registry.bind_inproc libzmq_ru.Base.Maps.contains_key
    libzmq_ru.Base.Maps.insert libzmq_ru.Base.Maps.remove
first_name_stays = refl
