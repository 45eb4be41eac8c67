-- ===== src/Exchange/Reply.antt =====
-- A request and its reply over an inproc endpoint.
use libzmq_ru.Exchange.Direct.{
  IsRequester, IsReplier, Direct, req-Direct, rep-Direct, send_direct, heard_from, whole_received,
  nowhere, unrouted,
}
use libzmq_ru.Exchange.Request.{request_sent}
use libzmq_ru.Base.{
  subst, ◌||◌, ℕ, ◌≡◌, refl, ap, sym, ◌∙◌, true, false, some, [], ◌∷◌, find, ◌==◌, arith,
}
use libzmq_ru.Context.Registry.{Registry}
use libzmq_ru.Error.{ok}
use libzmq_ru.Exchange.{
  Exchange, InprocSocket, pattern_of, push, apply_outgoing_routing_id, apply_reply_routing_id,
  after_send,
}
use libzmq_ru.Exchange.Send.{send, resolve_outboxes, own_outboxes, bound_outboxes}
use libzmq_ru.Exchange.Recv.{leave_queue, recv}
use libzmq_ru.Inproc.{InprocPeer}
use libzmq_ru.Inproc.Dispatch.{peer_by_id}
use libzmq_ru.Inproc.Peers.{has_id}
use libzmq_ru.Message.{Message, set_more, set_routing_id, data_of, len}
use libzmq_ru.Pattern.{
  ready_to_send, ready_to_recv, ensure_can_send_for_pattern, after_pattern_send, set_pattern_state,
}
use libzmq_ru.SocketType.{type_eq, code_of, req, rep}

rep_is_rep : type_eq rep rep ≡ true
unfolding type_eq code_of
rep_is_rep = refl

answers_last :
    (x : Exchange) (m : Message) (id : ℕ)
    → type_eq x.socket.socket_type rep ≡ true
    → (m.routing_id == 0) ≡ true
    → x.socket.last_recv_routing_id ≡ some id
    → apply_reply_routing_id x m ≡ set_routing_id m id
unfolding apply_reply_routing_id
answers_last x m id h fresh last = rw (h, apply_reply_routing_id, fresh, last) refl

zero_id : (a : Message) → a.routing_id ≡ 0 → ((set_more a false).routing_id == 0) ≡ true
unfolding set_more
zero_id a fresh = ground (arith, fresh)

reply_route :
    (x : Exchange) (a : Message) (n id : ℕ)
    → IsReplier n x.socket
    → x.socket.last_recv_routing_id ≡ some id
    → a.routing_id ≡ 0
    → apply_outgoing_routing_id x (apply_reply_routing_id x (set_more a false))
      ≡ set_routing_id (set_more a false) id
reply_route x a n id h last fresh =
    unrouted x _ (nowhere x h.unconnected)
    ∙ answers_last x (set_more a false) id (ap (λ t. type_eq t rep) h.type ∙ rep_is_rep)
        (zero_id a fresh) last

reply_box :
    (x : Exchange) (m : Message) (n : ℕ) (p : InprocPeer)
    → IsReplier n x.socket
    → (m.routing_id == 0) ≡ false
    → find (has_id m.routing_id) (x.registry.endpoints n).peers ≡ some p
    → resolve_outboxes x m ≡ (x, ok (p.inbox ∷ []))
unfolding resolve_outboxes own_outboxes bound_outboxes peer_by_id type_eq code_of
reply_box x m n p h named known =
    rw
      (
        nowhere x h.unconnected,
        resolve_outboxes,
        h.no_outbox,
        own_outboxes,
        h.bound,
        bound_outboxes,
        h.type,
        named,
        known,
      )
      (rw (h.no_outbox, h.bound) refl)

answer_turn :
    (x : Exchange) (size : ℕ)
    → x.socket.socket_type ≡ rep
    → x.socket.pattern_state ≡ some ready_to_send
    → after_send x false size
      ≡ (record x { socket = record x.socket { pattern_state = some ready_to_recv } }, ok size)
unfolding after_send after_pattern_send set_pattern_state type_eq code_of
answer_turn x size h turn = rw (h, turn) refl

rep_may_send :
    (s : InprocSocket)
    → s.pattern_state ≡ some ready_to_send
    → ensure_can_send_for_pattern (pattern_of s) ≡ ok tt
unfolding ensure_can_send_for_pattern
rep_may_send s turn = ground (arith, turn)

reply_sent :
    (x : Exchange) (a : Message) (n id : ℕ) (p : InprocPeer)
    → IsReplier n x.socket
    → x.socket.pattern_state ≡ some ready_to_send
    → x.socket.last_recv_routing_id ≡ some id
    → (id == 0) ≡ false
    → a.routing_id ≡ 0
    → find (has_id id) (x.registry.endpoints n).peers ≡ some p
    → x.registry.heap.queues p.inbox ≡ []
    → send x a false ≡ (
      push
          (record x { socket = record x.socket { pattern_state = some ready_to_recv } })
          p.inbox
          (set_routing_id (set_more a false) id),
      ok (len a),
    )
unfolding set_routing_id set_more
reply_sent x a n id p h turn last named fresh known empty =
    let routed = set_routing_id (set_more a false) id in
    send_direct x a routed false p.inbox (subst Direct (sym h.type) rep-Direct)
      (rep_may_send x.socket turn) (reply_route x a n id h last fresh)
      (reply_box x routed n p h named known) h.no_conflate empty
    ∙ answer_turn (push x p.inbox routed) (len a) h.type turn

req_turns : type_eq req req || type_eq req rep ≡ true
unfolding type_eq code_of
req_turns = refl

rep_turns : type_eq rep req || type_eq rep rep ≡ true
unfolding type_eq code_of
rep_turns = refl

-- The four calls of a request and its reply, and what both ends have after them.
pub record Answered (r : Registry) (n : ℕ) (s b : InprocSocket) (m a : Message) : Type 0 where
  pub after_request : Exchange
  pub at_replier : Exchange
  pub after_reply : Exchange
  pub at_requester : Exchange
  pub request : send (record { registry = r; socket = s }) m false ≡ (after_request, ok (len m))
  pub taken :
      (got : Message) × (recv (record { registry = after_request.registry; socket = b })
        ≡ (at_replier, ok got))
      × (data_of got ≡ data_of m)
      × (got.routing_id ≡ s.id)
  pub reply : send at_replier a false ≡ (after_reply, ok (len a))
  pub heard :
      (got : Message) × (recv
          (record { registry = after_reply.registry; socket = after_request.socket })
        ≡ (at_requester, ok got))
      × (data_of got ≡ data_of a)
  pub requester_turn : at_requester.socket.pattern_state ≡ some ready_to_send
  pub replier_turn : after_reply.socket.pattern_state ≡ some ready_to_recv
  pub replier_empty : at_requester.registry.heap.queues b.inbox ≡ []
  pub requester_empty : at_requester.registry.heap.queues s.inbox ≡ []

-- A REQ socket that is connected to the inproc endpoint of a REP socket, both at rest with empty
-- inboxes, gets its reply: the request of one part reaches the REP socket with its data and the id
-- of the requester, the reply, which names no peer, reaches the requester with its data, and both
-- sockets are at rest with empty inboxes again. The requester is a peer of the endpoint, and its id
-- is positive and fits in 32 bits.
pub request-Answered :
    (r : Registry) (n : ℕ) (s b : InprocSocket) (m a : Message) (p : InprocPeer)
    → IsRequester r n s
    → IsReplier n b
    → (r.endpoints n).binder_type ≡ rep
    → (r.endpoints n).binder_inbox ≡ b.inbox
    → find (has_id s.id) (r.endpoints n).peers ≡ some p
    → p.inbox ≡ s.inbox
    → (b.inbox == s.inbox) ≡ false
    → (s.id == 0) ≡ false
    → s.pattern_state ≡ some ready_to_send
    → b.pattern_state ≡ some ready_to_recv
    → r.heap.queues b.inbox ≡ []
    → r.heap.queues s.inbox ≡ []
    → a.routing_id ≡ 0
    → Answered r n s b m a
unfolding data_of set_routing_id set_more
request-Answered r n s b m a p hs hb binder own known place apart named s_turn b_turn b_empty
      s_empty fresh =
    let asked = set_routing_id (set_more m false) s.id in
    let s1 : InprocSocket = record s { pattern_state = some ready_to_recv } in
    let x1 : Exchange = push (record { registry = r; socket = s1 }) b.inbox asked in
    let y1 : Exchange = record { registry = x1.registry; socket = b } in
    let y2 : Exchange = record (leave_queue y1 []) { socket = heard_from b s.id ready_to_send } in
    let answer = set_routing_id (set_more a false) s.id in
    let y3 : Exchange =
      push (record y2 { socket = record y2.socket { pattern_state = some ready_to_recv } }) s.inbox
        answer in
    let x2 : Exchange = record { registry = y3.registry; socket = s1 } in
    record {
      after_request = x1;
      at_replier = y2;
      after_reply = y3;
      at_requester = record (leave_queue x2 []) { socket = heard_from s1 s.id ready_to_send };
      request = rw (← own) (request_sent r n s m hs s_turn binder (ap r.heap.queues own ∙ b_empty));
      taken = (
        asked,
        whole_received x1.registry b asked (subst Direct (sym hb.type) rep-Direct)
            (ap (λ t. type_eq t req || type_eq t rep) hb.type ∙ rep_turns) b_turn
            (ground (arith, b_empty)) refl named,
        refl,
        refl,
      );
      reply = rw (← place) (
          reply_sent y2 a n s.id p
            (record {
              type = hb.type;
              bound = hb.bound;
              unconnected = hb.unconnected;
              no_outbox = hb.no_outbox;
              no_conflate = hb.no_conflate;
            })
            refl refl named fresh known (ground (arith, s_empty, apart, place)));
      heard = (
        answer,
        whole_received y3.registry s1 answer (subst Direct (sym hs.type) req-Direct)
            (ap (λ t. type_eq t req || type_eq t rep) hs.type ∙ req_turns) refl
            (ground (arith, s_empty, apart)) refl named,
        refl,
      );
      requester_turn = refl;
      replier_turn = refl;
      replier_empty = ground (arith, apart);
      requester_empty = ground arith;
    }
